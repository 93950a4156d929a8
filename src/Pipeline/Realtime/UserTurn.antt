-- ===== src/Pipeline/Realtime/UserTurn.antt =====
-- internal/pipeline/realtime_turn.go: one spoken turn, from the fragments that the provider sends.
pub mod Coverage
use streamcore_server.Base.{Bool, Text, [], if◌then◌else◌, is_empty, ◌++◌, ◌∷◌}
use streamcore_server.Strings.{Unicode, trim_space, contains, to_lower}

pub record UserTurn : Type 0 where
  pub committed : Text
  pub partial : Text

abbrev pub new_turn : UserTurn
new_turn = record { committed = []; partial = [] }

module _ (u : Unicode) where
  unfoldable pub contains_fold : Text → Text → Bool
  contains_fold haystack needle = contains (to_lower u haystack) (to_lower u needle)

  merge_trimmed : Text → Text → Text
  unfolding contains_fold
  merge_trimmed acc next =
      if is_empty acc
      then next
      else if is_empty next
      then acc
      else if contains_fold next acc
      then next
      else if contains_fold acc next
      then acc
      else acc ++ (b' ' ∷ next)

  unfoldable pub merge_user_fragments : Text → Text → Text
  unfolding merge_trimmed
  merge_user_fragments acc next = merge_trimmed (trim_space acc) (trim_space next)

  unfoldable pub text_locked : UserTurn → Text
  text_locked t = merge_user_fragments t.committed t.partial

  -- Each operation's new state, and the text that it returns.
  unfoldable pub update : UserTurn → Text → UserTurn × Text
  update t text = let q = record t { partial = text } in (q, text_locked q)

  unfoldable pub complete : UserTurn → Text → UserTurn × Text
  complete t text =
      let q = record t { committed = merge_user_fragments t.committed text; partial = [] } in
      (q, text_locked q)

  unfoldable pub close_turn : UserTurn → UserTurn × Text
  close_turn t = (new_turn, text_locked t)

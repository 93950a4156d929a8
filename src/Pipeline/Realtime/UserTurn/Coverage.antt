-- ===== src/Pipeline/Realtime/UserTurn/Coverage.antt =====
-- internal/pipeline/realtime_turn.go: what of the provider's finals is in the text of a turn.
use streamcore_server.Base.{
  Bool-cases, List, Text, [], ap, false, inl, inr, is_empty, refl, subst, true, ◌++◌, ◌∙◌, ◌∷◌, ◌≡◌,
}
use mathlib.Core.List.{append_assoc, append-nil}
use streamcore_server.Strings.{Unicode, trim_space, to_lower, trim_left, trim_right_by}
use streamcore_server.Strings.Search.{contains_iff, contains-append, contains_self, contains_trans}
use streamcore_server.Strings.Trim.{IsTrimmed, trim_space-IsTrimmed, spaced-IsTrimmed}
use streamcore_server.Pipeline.Realtime.UserTurn.{
  UserTurn, new_turn, contains_fold, merge_trimmed, merge_user_fragments, update, complete,
  close_turn, text_locked,
}

spaced_end : (s t : Text) → (s ++ b' ' ∷ []) ++ (t ++ []) ≡ s ++ (b' ' ∷ t)
spaced_end s t =
    append_assoc s (b' ' ∷ []) (t ++ []) ∙ ap (λ (x : Text). s ++ (b' ' ∷ x)) (append-nil t)

-- What the provider sends for a turn: a revised fragment, or a finalised one.
pub data Fragment : Type 0 where
  revised finalised : Text → Fragment

module _ (u : Unicode) where
  lower_append : (s t : Text) → to_lower u (s ++ t) ≡ to_lower u s ++ to_lower u t
  lower_append [] t = refl
  lower_append (c ∷ s) t = ap (◌∷◌ (u.lower c)) (lower_append s t)

  fold_self : (s : Text) → contains_fold u s s ≡ true
  unfolding contains_fold
  fold_self s = contains_self (to_lower u s)

  fold_trans :
      (s t p : Text)
      → contains_fold u s t ≡ true
      → contains_fold u t p ≡ true
      → contains_fold u s p ≡ true
  unfolding contains_fold
  fold_trans s t p = contains_trans (to_lower u s) (to_lower u t) (to_lower u p)

  fold_append : (a p b : Text) → contains_fold u (a ++ (p ++ b)) p ≡ true
  unfolding contains_fold
  fold_append a p b =
      rw (lower_append a (p ++ b))
        (rw (lower_append p b) (contains-append (to_lower u a) (to_lower u p) (to_lower u b)))

  fold_empty : (s p : Text) → is_empty p ≡ true → contains_fold u s p ≡ true
  unfolding contains_fold
  fold_empty s [] e = (contains_iff (to_lower u s) []).1 ([], to_lower u s, refl)
  fold_empty s (c ∷ p) e = cc

  merge-cases :
      (P : Text → Type 0) (s t : Text)
      → (is_empty s ≡ true → P t)
      → (is_empty t ≡ true → P s)
      → (contains_fold u t s ≡ true → P t)
      → (contains_fold u s t ≡ true → P s)
      → (is_empty s ≡ false → is_empty t ≡ false → P (s ++ (b' ' ∷ t)))
      → P (merge_trimmed u s t)
  unfolding merge_trimmed
  merge-cases P s t a b c d e = elim (Bool-cases (is_empty s)) [
    | inl x ↦ rw x (a x)
    | inr x ↦ rw x (elim (Bool-cases (is_empty t)) [
      | inl y ↦ rw y (b y)
      | inr y ↦ rw y (elim (Bool-cases (contains_fold u t s)) [
        | inl z ↦ rw z (c z)
        | inr z ↦
            rw z (elim (Bool-cases (contains_fold u s t)) [
              | inl w ↦ rw w (d w)
              | inr w ↦ rw w (e x y)
            ])
      ])
    ])
  ]

  merge_covers_trimmed :
      (s t : Text)
      → (contains_fold u (merge_trimmed u s t) s ≡ true)
        × (contains_fold u (merge_trimmed u s t) t ≡ true)
  merge_covers_trimmed s t =
      merge-cases (λ m. (contains_fold u m s ≡ true) × (contains_fold u m t ≡ true)) s t
        (λ e. (fold_empty t s e, fold_self t)) (λ e. (fold_self s, fold_empty s t e))
        (λ e. (e, fold_self t)) (λ e. (fold_self s, e))
        (λ e f. (
          fold_append [] s (b' ' ∷ t),
          subst (λ (x : Text). contains_fold u x t ≡ true) (spaced_end s t)
              (fold_append (s ++ b' ' ∷ []) t []),
        ))

  merge-IsTrimmed : (s t : Text) → IsTrimmed s → IsTrimmed t → IsTrimmed (merge_trimmed u s t)
  merge-IsTrimmed s t h k =
      merge-cases IsTrimmed s t (λ _. k) (λ _. h) (λ _. k) (λ _. h)
        (λ e f. spaced-IsTrimmed s t h k e f)

  -- Both halves of a merge are in it, up to case and surrounding spaces.
  pub merge_user_fragments_covers :
      (acc t : Text)
      → (contains_fold u (merge_user_fragments u acc t) (trim_space acc) ≡ true)
        × (contains_fold u (merge_user_fragments u acc t) (trim_space t) ≡ true)
  unfolding merge_user_fragments
  merge_user_fragments_covers acc t = merge_covers_trimmed (trim_space acc) (trim_space t)

  unfoldable pub receive : UserTurn → List Fragment → UserTurn
  receive t [] = t
  receive t (revised s ∷ fs) = receive (update u t s).0 fs
  receive t (finalised s ∷ fs) = receive (complete u t s).0 fs

  -- Every finalised fragment is in a text.
  abbrev pub Covers : Text → List Fragment → Type 0
  Covers text [] = Unit {0}
  Covers text (revised _ ∷ fs) = Covers text fs
  Covers text (finalised s ∷ fs) = (contains_fold u text (trim_space s) ≡ true) × Covers text fs

  Covers-trans :
      (s t : Text) (fs : List Fragment) → contains_fold u s t ≡ true → Covers t fs → Covers s fs
  Covers-trans s t [] e c = tt
  Covers-trans s t (revised _ ∷ fs) e c = Covers-trans s t fs e c
  Covers-trans s t (finalised f ∷ fs) e (h, c) =
      (fold_trans s t (trim_space f) e h, Covers-trans s t fs e c)

  complete_covers :
      (t : UserTurn) (s : Text)
      → IsTrimmed t.committed
      → let q = (complete u t s).0 in
        IsTrimmed q.committed
        × (contains_fold u q.committed t.committed ≡ true)
        × (contains_fold u q.committed (trim_space s) ≡ true)
  unfolding complete merge_user_fragments
  complete_covers t s h =
      let (a, b) = merge_covers_trimmed (trim_space t.committed) (trim_space s) in
      (
        merge-IsTrimmed _ _ (trim_space-IsTrimmed t.committed) (trim_space-IsTrimmed s),
        subst
            (λ (x : Text).
              contains_fold u (merge_trimmed u (trim_space t.committed) (trim_space s)) x ≡ true)
            h a,
        b,
      )

  receive-Covers :
      (t : UserTurn) (fs : List Fragment)
      → IsTrimmed t.committed
      → IsTrimmed (receive t fs).committed
        × (contains_fold u (receive t fs).committed t.committed ≡ true)
        × Covers (receive t fs).committed fs
  unfolding receive update
  receive-Covers t [] h = (h, fold_self t.committed, tt)
  receive-Covers t (revised s ∷ fs) h = receive-Covers (update u t s).0 fs h
  receive-Covers t (finalised s ∷ fs) h =
      let q = (complete u t s).0 in
      let (k, old, new) = complete_covers t s h in
      let (l, kept', c) = receive-Covers q fs k in
      (
        l,
        fold_trans _ q.committed t.committed kept' old,
        (fold_trans _ q.committed (trim_space s) kept' new, c),
      )

  new-IsTrimmed : IsTrimmed new_turn.committed
  unfolding trim_space trim_left trim_right_by
  new-IsTrimmed = refl

  -- However the provider cuts and revises a turn, the text that closes it contains every finalised
  -- fragment, up to case and surrounding spaces, and the turn is empty for the next one.
  pub close_turn-Covers :
      (fs : List Fragment)
      → let (q, text) = close_turn u (receive new_turn fs) in Covers text fs × (q ≡ new_turn)
  unfolding close_turn text_locked merge_user_fragments
  close_turn-Covers fs =
      let t = receive new_turn fs in
      let (h, _, c) = receive-Covers new_turn fs new-IsTrimmed in
      let (a, _) = merge_covers_trimmed (trim_space t.committed) (trim_space t.partial) in
      (
        Covers-trans _ t.committed fs
            (subst
              (λ (x : Text).
                contains_fold u (merge_trimmed u (trim_space t.committed) (trim_space t.partial)) x
                ≡ true)
              h a)
            c,
        refl,
      )

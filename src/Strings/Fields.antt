-- ===== src/Strings/Fields.antt =====
-- strings.Fields of what strings.Join makes with a space.
use streamcore_server.Base.{
  Bool, List, Text, [], ap, arith, codes, false, is_empty, not, refl, sym, true, ℕ, ◌&&◌, ◌++◌, ◌∙◌,
  ◌∷◌, ◌≡◌,
}
use mathlib.Core.List.{append_assoc, append-nil}
use streamcore_server.Strings.{fields, fields_from, word_cons, is_space, join}

abbrev pub no_space : Text → Bool
no_space [] = true
no_space (c ∷ s) = not (is_space c) && no_space s

abbrev pub all_words : List Text → Bool
all_words [] = true
all_words (w ∷ ws) = not (is_empty w) && no_space w && all_words ws

fields_from-cons :
    (w s : Text) (c : ℕ)
    → is_space c ≡ false
    → fields_from w (c ∷ s) ≡ fields_from (w ++ (c ∷ [])) s
unfolding fields_from
fields_from-cons w s c n = ground (arith, n)

fields_from-word :
    (w v s : Text) → no_space v ≡ true → fields_from w (v ++ s) ≡ fields_from (w ++ v) s
fields_from-word w [] s h = ap (λ (x : Text). fields_from x s) (sym (append-nil w))
fields_from-word w (c ∷ v) s h =
    fields_from-cons w (v ++ s) c (ground (arith, h))
    ∙ (fields_from-word (w ++ (c ∷ [])) v s (ground (arith, h))
        ∙ ap (λ (x : Text). fields_from x s) (append_assoc w (c ∷ []) v))

word_cons_word : (w : Text) (ws : List Text) → is_empty w ≡ false → word_cons w ws ≡ w ∷ ws
unfolding word_cons
word_cons_word [] ws h = cc
word_cons_word (c ∷ w) ws h = refl

joined_words : (ws : List Text) → all_words ws ≡ true → fields_from [] (join ws (codes " ")) ≡ ws
unfolding fields_from join is_space
joined_words [] h = refl
joined_words (w ∷ []) h =
    ap (fields_from []) (sym (append-nil w))
    ∙ fields_from-word [] w [] (ground (arith, h))
    ∙ word_cons_word w [] (ground (arith, h))
joined_words (w ∷ v ∷ ws) h =
    fields_from-word [] w (codes " " ++ join (v ∷ ws) (codes " ")) (ground (arith, h))
    ∙ word_cons_word w (fields_from [] (join (v ∷ ws) (codes " "))) (ground (arith, h))
    ∙ ap (w ∷◌) (joined_words (v ∷ ws) (ground (arith, h)))

pub fields-join : (ws : List Text) → all_words ws ≡ true → fields (join ws (codes " ")) ≡ ws
unfolding fields
fields-join ws h = joined_words ws h

-- ===== src/Pipeline/Phrases/Commands.antt =====
-- How the predicates on a caller's words relate.
use streamcore_server.Strings.{member, fields}
use streamcore_server.Base.{
  Bool-cases, List, Text, [], arith, codes, false, inl, inr, refl, text_eq, text_eq_iff, true, ◌∷◌,
  ◌≡◌,
}
use streamcore_server.Pipeline.Phrases.{
  is_strong_command, is_meaningful, is_backchannel_only, any_of, barge_in_command_tokens, member,
  fields, all_of, backchannel_word_tokens,
}

strong_words :
    (member (codes "stop") barge_in_command_tokens ≡ true)
    × (member (codes "cancel") barge_in_command_tokens ≡ true)
    × (member (codes "hang") barge_in_command_tokens ≡ true)
unfolding member fields text_eq
strong_words = (refl, refl, refl)

named :
    (w v : Text)
    → member v barge_in_command_tokens ≡ true
    → text_eq w v ≡ true
    → member w barge_in_command_tokens ≡ true
named w v m e = rw ((text_eq_iff w v).0 e) m

strong_any :
    (ws : List Text) → is_strong_command ws ≡ true → any_of ws barge_in_command_tokens ≡ true
unfolding is_strong_command
strong_any [] e = e
strong_any (w ∷ ws) e =
    let (stop, cancel, hang) = strong_words in
    ground (
      arith,
      strong_any ws,
      named w (codes "stop") stop,
      named w (codes "cancel") cancel,
      named w (codes "hang") hang,
    )

-- A command that cuts through a readback also interrupts outside of one.
pub strong_interrupts : (ws : List Text) → is_strong_command ws ≡ true → is_meaningful ws ≡ true
unfolding is_meaningful is_strong_command
strong_interrupts [] e = e
strong_interrupts (w ∷ ws) e = rw (strong_any (w ∷ ws) e) refl

disjoint : any_of backchannel_word_tokens barge_in_command_tokens ≡ false
unfolding member fields text_eq
disjoint = refl

apart :
    (vs cs : List Text) (w : Text) → any_of vs cs ≡ false → member w vs ≡ true → member w cs ≡ false
unfolding member
apart [] cs w d m = cc
apart (v ∷ vs) cs w d m = elim (Bool-cases (text_eq v w)) [
  | inl e ↦ rw⁻¹ ((text_eq_iff v w).0 e) (ground arith)
  | inr e ↦ apart vs cs w (ground arith) (ground arith)
]

no_command :
    (ws : List Text)
    → all_of ws backchannel_word_tokens ≡ true
    → any_of ws barge_in_command_tokens ≡ false
no_command [] e = refl
no_command (w ∷ ws) e =
    ground (arith, no_command ws, apart backchannel_word_tokens barge_in_command_tokens w disjoint)

-- Acknowledgements, however many, never interrupt.
pub acknowledgement_waits :
    (ws : List Text) → is_backchannel_only ws ≡ true → is_meaningful ws ≡ false
unfolding is_meaningful is_backchannel_only
acknowledgement_waits [] e = refl
acknowledgement_waits (w ∷ ws) e = rw (no_command (w ∷ ws) e) (rw e refl)

-- ===== src/Pipeline/Reflex/Dedup/Latest.antt =====
-- Which packets of the model a partial's packet suppresses.
use streamcore_server.Base.{
  Bool, Map, Text, [], ap, arith, delete, drop, false, insert, lookup, lookup-delete_self,
  lookup-insert, lookup-insert_self, ltb, none, refl, some, subst, sym, text_eq, text_eq-false,
  text_eq_iff, true, ℕ, ◌++◌, ◌+◌, ◌∙◌, ◌∷◌, ◌≡◌, ◌≢◌, ◌≤◌,
}
use mathlib.Core.List.{append_assoc}
use streamcore_server.Strings.{has_prefix}
use streamcore_server.Strings.Search.{has_prefix-append}
use streamcore_server.Pipeline.Reflex.Dedup.{
  Emission, key, drop_records, remember_reflex_emission, reflex_already_sent, reflex_dedup_ttl,
}

lookup-drop_records :
    (now : ℕ) (topic k : Text) (m : Map ℕ)
    → has_prefix k topic ≡ true
    → lookup k (drop_records now topic m) ≡ none
unfolding lookup drop_records
lookup-drop_records now topic k [] h = refl
lookup-drop_records now topic k ((j, at) ∷ m) h =
    ground (arith, lookup-drop_records now topic k m h, text_eq_iff j k)

text_eq-append : (t a b : Text) → text_eq (t ++ a) (t ++ b) ≡ text_eq a b
unfolding text_eq
text_eq-append [] a b = refl
text_eq-append (c ∷ t) a b = ground (arith, text_eq-append t a b)

key-other :
    (e f : Emission) → f.topic ≡ e.topic → e.payload ≢ f.payload → text_eq (key e) (key f) ≡ false
unfolding key text_eq
key-other e f t ne = rw t (
    text_eq-append e.topic (0 ∷ e.payload) (0 ∷ f.payload)
    ∙ text_eq-false (0 ∷ e.payload) (0 ∷ f.payload) (λ g. ne (ap (drop 1) g)))

key-topic : (e f : Emission) → f.topic ≡ e.topic → has_prefix (key f) (e.topic ++ (0 ∷ [])) ≡ true
unfolding key
key-topic e f t = rw t (
    subst (λ (x : Text). has_prefix x (e.topic ++ (0 ∷ [])) ≡ true)
      (append_assoc e.topic (0 ∷ []) f.payload) (has_prefix-append (e.topic ++ (0 ∷ [])) f.payload))

unknown :
    (sent : Map ℕ) (e : Emission) (now : ℕ)
    → lookup (key e) sent ≡ none
    → (reflex_already_sent sent e now).1 ≡ false
unfolding reflex_already_sent
unknown sent e now f = rw (reflex_already_sent, f) refl

pub known_lem :
    (sent : Map ℕ) (e : Emission) (at now : ℕ)
    → lookup (key e) sent ≡ some at
    → ltb (at + reflex_dedup_ttl) now ≡ false
    → reflex_already_sent sent e now ≡ (delete (key e) sent, true)
unfolding reflex_already_sent
known_lem sent e at now f g = rw (reflex_already_sent, f, g) refl

-- When a packet is sent from a partial, whatever was sent before: for ten seconds, the same packet
-- is taken for sent, once; and another packet of the same topic is not taken for sent, also if it
-- went out before.
pub reflex_dedup :
    (sent : Map ℕ) (e f : Emission) (now later after : ℕ)
    → later ≤ now + reflex_dedup_ttl
    → f.topic ≡ e.topic
    → e.payload ≢ f.payload
    → let m = remember_reflex_emission sent e now in
      let (m', known) = reflex_already_sent m e later in
      (known ≡ true)
      × ((reflex_already_sent m' e after).1 ≡ false)
      × ((reflex_already_sent m f later).1 ≡ false)
unfolding remember_reflex_emission
reflex_dedup sent e f now later after le t ne =
    let rest = drop_records now (e.topic ++ (0 ∷ [])) sent in
    let m = insert (key e) now rest in
    let known =
      known_lem m e now later (lookup-insert_self (key e) now rest) (ground (arith, le)) in
    let dropped = lookup-drop_records now (e.topic ++ (0 ∷ [])) (key f) sent (key-topic e f t) in
    let other = lookup-insert (key e) (key f) now rest ∙ rw (key-other e f t ne) dropped in
    (
      ap (λ (x : Map ℕ × Bool). x.1) known,
      subst (λ (x : Map ℕ × Bool). (reflex_already_sent x.0 e after).1 ≡ false) (sym known)
          (unknown (delete (key e) m) e after (lookup-delete_self (key e) m)),
      unknown m f later other,
    )

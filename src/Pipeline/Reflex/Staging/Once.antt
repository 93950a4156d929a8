-- ===== src/Pipeline/Reflex/Staging/Once.antt =====
-- How often one utterance fires a tool.
use streamcore_server.Base.{
  Bool, List, Option, Text, [], if◌then◌else◌, ltb, none, some, suc, text_eq, true, ℕ, ◌&&◌, ◌++◌,
  ◌+◌, ◌∷◌, ◌≡◌, ◌≤◌, ◌⊎◌,
}
use streamcore_server.Strings.{Unicode}
use streamcore_server.Pipeline.Reflex.Staging.{
  Entry, Capture, Hit, Reflex, end_utterance, observe, anchors_of, settled,
}
use streamcore_server.Pipeline.Reflex.Staging.Spends.{count_of, slack, may_wait, Spends}

-- A capture that has fired joins the list of them, the newest first.
abbrev pub captured : Entry → Capture → Option Hit → List (Text × ℕ) → List (Text × ℕ)
captured e p none cs = cs
captured e p (some _) cs = (e.name, p.anchors) ∷ cs

abbrev pub count_captured : Text → List (Text × ℕ) → ℕ
count_captured n [] = 0
count_captured n ((m, a) ∷ cs) =
    if text_eq m n then suc (count_captured n cs) else count_captured n cs

abbrev pub Among : Entry → List Entry → Type 0
Among e [] = ⊥
Among e (x ∷ es) = (x ≡ e) ⊎ Among e es

-- What one utterance has fired: from the partials, and from the captures that have settled.
pub data Spoken (u : Unicode) (entries : List Entry)
    : Reflex → List Hit → List (Text × ℕ) → Type 0 where
  begun : (r : Reflex) → r.entries ≡ entries → Spoken u entries (end_utterance r) [] []
  heard :
      {r : Reflex} {hits : List Hit} {cs : List (Text × ℕ)}
      → Spoken u entries r hits cs
      → (partial : Text) (q : Reflex) (more : List Hit) → observe u partial r ≡ some (q, more)
      → Spoken u entries q (more ++ hits) cs
  quiet :
      {r : Reflex} {hits : List Hit} {cs : List (Text × ℕ)}
      → Spoken u entries r hits cs
      → (e : Entry) (p : Capture) → Among e entries
      → Spoken u entries (settled e p r).0 hits (captured e p (settled e p r).1 cs)

-- The anchors of one name, each more than all before it.
abbrev pub rising : Text → ℕ → List (Text × ℕ) → Bool
rising n bound [] = true
rising n bound ((m, a) ∷ cs) =
    if text_eq m n then ltb a bound && rising n a cs else rising n bound cs

record Bounds (n : Text) (kind : Bool) (entries : List Entry) (r : Reflex) (hits : List Hit)
    (cs : List (Text × ℕ)) : Type 0 where
  same : r.entries ≡ entries
  once_at_most : count_of n hits + count_captured n cs + slack n r ≤ 1
  anchors_rise : rising n (suc (anchors_of n r.fired_anchors)) cs ≡ true
  waits : may_wait n kind r ≡ true

-- ===== src/Pipeline/Lifecycle/Events.antt =====
-- internal/pipeline/lifecycle.go: the claims, the events on their way, and those that arrived.
use streamcore_server.Base.{
  Bool, Bool-cases, List, [], arith, false, inl, inr, leb, not, refl, ltb, subst, suc, true, ℕ,
  ◌&&◌, ◌-◌, ◌<◌, ◌==◌, ◌||◌, ◌∷◌, ◌≡◌, ◌≤◌,
}
use streamcore_server.Pipeline.Lifecycle.{
  Event, Lifecycle, drop_claim, drop_launched, holds, is_launched,
}

abbrev pub has_event : ℕ → List Event → Bool
has_event g [] = false
has_event g (e ∷ es) = e.generation == g || has_event g es

-- The numbers count down from the last.
abbrev pub numbered : ℕ → List Event → Bool
numbered n [] = n == 0
numbered n (e ∷ es) = e.seq == n && not (n == 0) && numbered (n - 1) es

abbrev pub below : ℕ → List Event → Bool
below n [] = true
below n (e ∷ es) = leb e.generation n && below n es

-- Each generation is less than the one made after it, and the last is less than the bound.
abbrev pub falling : ℕ → List Event → Bool
falling n [] = true
falling n (e ∷ es) = ltb e.generation n && falling e.generation es

-- Each of these has an event.
abbrev pub made : List Event → List Event → Bool
made es [] = true
made es (d ∷ ds) = has_event d.generation es && made es ds

-- Those on their way differ, are claimed, and have no event.
abbrev pending_ok : ℕ → List Event → List ℕ → Bool
pending_ok n es [] = true
pending_ok n es (g ∷ gs) = leb g n && not (has_event g es) && not (holds g gs) && pending_ok n es gs

-- The events that are on their way to the plugins have not arrived.
abbrev launched_ok : List Event → List Event → Bool
launched_ok ds [] = true
launched_ok ds (e ∷ es) = not (has_event e.generation ds) && launched_ok ds es

pub record Kept (s : Lifecycle) : Type 0 where
  pub counted : numbered s.turns s.events ≡ true
  pub claimed_below : below s.emitted_gen s.events ≡ true
  pub pending : pending_ok s.emitted_gen s.events s.claimed ≡ true
  pub order : falling (suc s.response_gen) s.events ≡ true
  pub arrived : falling (suc s.response_gen) s.dispatched ≡ true
  pub on_the_way : launched_ok s.dispatched s.launched ≡ true
  pub launched_made : made s.events s.launched ≡ true
  pub dispatched_made : made s.events s.dispatched ≡ true

pub below_more : (n m : ℕ) (es : List Event) → n ≤ m → below n es ≡ true → below m es ≡ true
below_more n m [] l h = refl
below_more n m (e ∷ es) l h = ground (arith, below_more n m es l)

pub below_none : (n g : ℕ) (es : List Event) → below n es ≡ true → n < g → has_event g es ≡ false
below_none n g [] h l = refl
below_none n g (e ∷ es) h l = ground (arith, below_none n g es)

pub pending_more :
    (n m : ℕ) (es : List Event) (gs : List ℕ)
    → n ≤ m
    → pending_ok n es gs ≡ true
    → pending_ok m es gs ≡ true
pending_more n m es [] l h = refl
pending_more n m es (g ∷ gs) l h = ground (arith, pending_more n m es gs l)

pub pending_none :
    (n g : ℕ) (es : List Event) (gs : List ℕ)
    → pending_ok n es gs ≡ true
    → n < g
    → holds g gs ≡ false
pending_none n g es [] h l = refl
pending_none n g es (x ∷ gs) h l = ground (arith, pending_none n g es gs)

holds-drop_claim : (x g : ℕ) (gs : List ℕ) → holds x gs ≡ false → holds x (drop_claim g gs) ≡ false
unfolding drop_claim
holds-drop_claim x g [] h = refl
holds-drop_claim x g (y ∷ gs) h = ground (arith, holds-drop_claim x g gs)

pub pending_drop :
    (n g : ℕ) (es : List Event) (gs : List ℕ)
    → pending_ok n es gs ≡ true
    → pending_ok n es (drop_claim g gs) ≡ true
unfolding drop_claim
pending_drop n g es [] h = refl
pending_drop n g es (x ∷ gs) h = ground (arith, pending_drop n g es gs, holds-drop_claim x g gs)

-- What is on its way has no event, and stands once.
pub pending_found :
    (n g : ℕ) (es : List Event) (gs : List ℕ)
    → pending_ok n es gs ≡ true
    → holds g gs ≡ true
    → (leb g n ≡ true) × (has_event g es ≡ false) × (holds g (drop_claim g gs) ≡ false)
unfolding drop_claim
pending_found n g es [] h m = cc
pending_found n g es (x ∷ gs) h m = elim (Bool-cases (x == g)) [
  | inl q ↦ (ground (arith, q), ground (arith, q), ground (arith, q))
  | inr q ↦
      let (a, b, c) = pending_found n g es gs (ground arith) (ground (arith, q)) in
      (a, b, ground (arith, q, c))
]

pub pending_event :
    (n : ℕ) (e : Event) (es : List Event) (gs : List ℕ)
    → holds e.generation gs ≡ false
    → pending_ok n es gs ≡ true
    → pending_ok n (e ∷ es) gs ≡ true
pending_event n e es [] f h = refl
pending_event n e es (g ∷ gs) f h = ground (arith, pending_event n e es gs)

pub falling_more : (n m : ℕ) (es : List Event) → n ≤ m → falling n es ≡ true → falling m es ≡ true
falling_more n m [] l h = refl
falling_more n m (e ∷ es) l h = ground (arith, h)

-- A generation that may be the last, and has no event, is more than those that have.
pub falling_next :
    (n : ℕ) (es : List Event)
    → falling (suc n) es ≡ true
    → has_event n es ≡ false
    → falling n es ≡ true
falling_next n [] h f = refl
falling_next n (e ∷ es) h f = ground (arith, h, f)

pub made_more : (e : Event) (es ds : List Event) → made es ds ≡ true → made (e ∷ es) ds ≡ true
made_more e es [] h = refl
made_more e es (d ∷ ds) h = ground (arith, made_more e es ds)

pub made_none :
    (g : ℕ) (es ds : List Event)
    → made es ds ≡ true
    → has_event g es ≡ false
    → has_event g ds ≡ false
made_none g es [] h f = refl
made_none g es (d ∷ ds) h f = elim (Bool-cases (d.generation == g)) [
  | inl q ↦
      let p : d.generation ≡ g = ground (arith, q) in
      let k : has_event d.generation es ≡ true = ground (arith, h) in
      let k' : has_event g es ≡ true = subst (λ (x : ℕ). has_event x es ≡ true) p k in
      absurd (ground (arith, k', f))
  | inr q ↦ ground (arith, q, made_none g es ds)
]

pub made_drop :
    (g : ℕ) (es ds : List Event) → made es ds ≡ true → made es (drop_launched g ds) ≡ true
unfolding drop_launched
made_drop g es [] h = refl
made_drop g es (d ∷ ds) h = ground (arith, made_drop g es ds)

pub launched_drop :
    (g : ℕ) (ds es : List Event)
    → launched_ok ds es ≡ true
    → launched_ok ds (drop_launched g es) ≡ true
unfolding drop_launched
launched_drop g ds [] h = refl
launched_drop g ds (e ∷ es) h = ground (arith, launched_drop g ds es)

pub launched_arrived :
    (d : Event) (ds es : List Event)
    → launched_ok ds es ≡ true
    → launched_ok (d ∷ ds) (drop_launched d.generation es) ≡ true
unfolding drop_launched
launched_arrived d ds [] h = refl
launched_arrived d ds (e ∷ es) h = ground (arith, launched_arrived d ds es)

pub launched_found :
    (d : Event) (ms ds es : List Event)
    → launched_ok ds es ≡ true
    → made ms es ≡ true
    → is_launched d es ≡ true
    → (has_event d.generation ds ≡ false) × (has_event d.generation ms ≡ true)
launched_found d ms ds [] h m e = cc
launched_found d ms ds (x ∷ es) h m e = elim (Bool-cases (x.generation == d.generation)) [
  | inl q ↦
      let p : x.generation ≡ d.generation = ground (arith, q) in
      subst (λ (g : ℕ). (has_event g ds ≡ false) × (has_event g ms ≡ true)) p
        (ground (arith, h), ground (arith, m))
  | inr q ↦ launched_found d ms ds es (ground (arith, h)) (ground (arith, m)) (ground (arith, q, e))
]

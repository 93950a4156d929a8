-- ===== src/Llm/History/Pairing.antt =====
-- internal/llm/openai.go: what reconcileHistory makes of a history that was cut off.
pub mod Placement
pub mod Settled
use streamcore_server.Base.{
  Bool-cases, List, Text, [], ap, arith, if◌then◌else◌, inl, inr, keep, not, refl, subst, suc, sym,
  text_eq, text_eq_iff, text_eq_self, true, zero, ℕ, ◌++◌, ◌||◌, ◌∙◌, ◌∷◌, ◌≡◌,
}
use streamcore_server.Strings.{member}
use streamcore_server.Llm.History.{
  Message, Role, is_tool, is_assistant, calls_at, pending_from, answered_ids, unanswered,
  placeholder, insert_at, splice, reconcile_history,
}
use streamcore_server.Llm.History.Window.{or_right, grouped}
use streamcore_server.Llm.History.Pairing.Settled.{asked, no_repeats, settled, grouped-settled}
use streamcore_server.Llm.History.Pairing.Placement.{splice-grouped, patches-Placed}

abbrev ids : List (ℕ × Text) → List Text
ids [] = []
ids ((i, id) ∷ ps) = id ∷ ids ps

ids-append : (ps qs : List (ℕ × Text)) → ids (ps ++ qs) ≡ ids ps ++ ids qs
ids-append [] qs = refl
ids-append ((i, id) ∷ ps) qs = ap (id ∷◌) (ids-append ps qs)

ids-calls_at : (i : ℕ) (cs : List Text) → ids (calls_at i cs) ≡ cs
unfolding calls_at
ids-calls_at i [] = refl
ids-calls_at i (c ∷ cs) = ap (c ∷◌) (ids-calls_at i cs)

ids-pending_from : (i : ℕ) (h : List Message) → ids (pending_from i h) ≡ asked h
unfolding pending_from asked
ids-pending_from i [] = refl
ids-pending_from i (m ∷ h) = elim (Bool-cases (is_assistant m.role)) [
  | inl e ↦
      rw (pending_from, asked, e)
        (ids-append (calls_at i m.tool_calls) (pending_from (suc i) h)
          ∙ (ap (λ (x : List Text). x ++ ids (pending_from (suc i) h)) (ids-calls_at i m.tool_calls)
              ∙ ap (m.tool_calls ++◌) (ids-pending_from (suc i) h)))
  | inr e ↦ rw (pending_from, asked, e) (ids-pending_from (suc i) h)
]

asked-insert_at :
    (i : ℕ) (id : Text) (h : List Message) → asked (insert_at i (placeholder id) h) ≡ asked h
unfolding asked
asked-insert_at zero id h = refl
asked-insert_at (suc i) id [] = refl
asked-insert_at (suc i) id (m ∷ h) = rw (asked-insert_at i id h) refl

asked-splice : (ps : List (ℕ × Text)) (h : List Message) → asked (splice ps h) ≡ asked h
unfolding splice
asked-splice [] h = refl
asked-splice ((i, id) ∷ ps) h = asked-insert_at (suc i) id (splice ps h) ∙ asked-splice ps h

answered-insert_at :
    (x : Text) (i : ℕ) (id : Text) (h : List Message)
    → member x (answered_ids (insert_at i (placeholder id) h))
      ≡ (text_eq id x || member x (answered_ids h))
unfolding answered_ids member
answered-insert_at x zero id h = refl
answered-insert_at x (suc i) id [] = refl
answered-insert_at x (suc i) id (m ∷ h) = ground (arith, answered-insert_at x i id h)

answered-splice :
    (x : Text) (ps : List (ℕ × Text)) (h : List Message)
    → member x (answered_ids (splice ps h)) ≡ (member x (ids ps) || member x (answered_ids h))
unfolding splice member
answered-splice x [] h = refl
answered-splice x ((i, id) ∷ ps) h =
    ground (arith, answered-insert_at x (suc i) id (splice ps h), answered-splice x ps h)

-- A call is answered or gets a placeholder.

unanswered_covers :
    (x : Text) (ps : List (ℕ × Text)) (answered : List Text)
    → member x (ids ps) ≡ true
    → (member x (ids (unanswered ps answered)) || member x answered) ≡ true
unfolding unanswered member
unanswered_covers x [] answered h = absurd (cc)
unanswered_covers x ((i, id) ∷ ps) answered h = elim (Bool-cases (member id answered)) [
  | inl e ↦
      rw (unanswered, e)
        (elim (Bool-cases (text_eq id x)) [
          | inl f ↦
              let g : member x answered ≡ true =
                subst (λ (y : Text). member y answered ≡ true) ((text_eq_iff id x).0 f) e in
              or_right _ _ g
          | inr f ↦ unanswered_covers x ps answered (ground (arith, f, h))
        ])
  | inr e ↦
      rw (unanswered, e)
        (elim (Bool-cases (text_eq id x)) [
          | inl f ↦ rw (member, f) refl
          | inr f ↦
              let g = unanswered_covers x ps (id ∷ answered) (ground (arith, f, h)) in
              ground (arith, f, g)
        ])
]

answered_all :
    (x : Text) (h : List Message)
    → member x (asked (reconcile_history h)) ≡ true
    → member x (answered_ids (reconcile_history h)) ≡ true
unfolding reconcile_history
answered_all x h e =
    let ps = unanswered (pending_from 0 h) (answered_ids h) in
    let f = ap (member x) (ids-pending_from 0 h ∙ sym (asked-splice ps h)) ∙ e in
    answered-splice x ps h ∙ unanswered_covers x (pending_from 0 h) (answered_ids h) f

unanswered_none :
    (ps : List (ℕ × Text)) (answered : List Text)
    → ((x : Text) → member x (ids ps) ≡ true → member x answered ≡ true)
    → unanswered ps answered ≡ []
unfolding unanswered member
unanswered_none [] answered h = refl
unanswered_none ((i, id) ∷ ps) answered h =
    rw (unanswered, h id (ground (arith, text_eq_self id)))
      (unanswered_none ps answered (λ x e. h x (or_right (text_eq id x) _ e)))

keep_none :
    (xs answered : List Text)
    → ((x : Text) → member x xs ≡ true → member x answered ≡ true)
    → keep (λ x. not (member x answered)) xs ≡ []
unfolding member
keep_none [] answered h = refl
keep_none (x ∷ xs) answered h =
    let first : member x (x ∷ xs) ≡ true = ground (arith, text_eq_self x) in
    rw (h x first) (keep_none xs answered (λ y e. h y (or_right (text_eq x y) _ e)))

-- In a conversation where every result of a tool follows the message that asked for it, and no call is asked for twice, that stays
-- so, the calls are the same, every message that asks for calls is followed by the results of all of them before anything
-- else, and to reconcile a second time changes nothing.
pub reconcile_history-grouped :
    (h : List Message)
    → grouped [] h ≡ true
    → no_repeats (asked h) ≡ true
    → let q = reconcile_history h in
      (grouped [] q ≡ true) × (asked q ≡ asked h) × (settled q ≡ true) × (reconcile_history q ≡ q)
unfolding reconcile_history member
reconcile_history-grouped h g n =
    let ps = unanswered (pending_from 0 h) (answered_ids h) in
    let q = splice ps h in
    let all : (x : Text) → member x (asked q) ≡ true → member x (answered_ids q) ≡ true =
      λ x e. answered_all x h e in
    let g' = (splice-grouped [] 0 ps h (patches-Placed h (answered_ids h)) g).0 in
    (
      g',
      asked-splice ps h,
      grouped-settled [] q g' (λ x e. absurd (cc)) (ap no_repeats (asked-splice ps h) ∙ n) all,
      ap (λ (rs : List (ℕ × Text)). splice rs q)
          (unanswered_none (pending_from 0 q) (answered_ids q)
            (λ x e. all x (ap (member x) (sym (ids-pending_from 0 q)) ∙ e))),
    )

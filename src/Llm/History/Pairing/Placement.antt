-- ===== src/Llm/History/Pairing/Placement.antt =====
-- Where the placeholders go.
use streamcore_server.Base.{
  Bool, Bool-cases, List, Text, [], arith, false, inl, inr, length, length-append, refl, subst, suc,
  text_eq, text_eq_self, true, zero, ℕ, ◌&&◌, ◌++◌, ◌∙◌, ◌∷◌, ◌≡◌, ◌≤◌,
}
use mathlib.Core.List.{append_assoc}
use streamcore_server.Strings.{member}
use streamcore_server.Llm.History.{
  Message, Role, is_tool, is_assistant, calls_at, pending_from, unanswered, placeholder, insert_at,
  splice, system, user, assistant, tool,
}
use streamcore_server.Llm.History.Window.{grouped, and_left, and_right, or_right}

-- The message at an index asks for the call.
unfoldable pub asks : List Message → ℕ → Text → Bool
asks [] i id = false
asks (m ∷ h) zero id = is_assistant m.role && member id m.tool_calls
asks (m ∷ h) (suc i) id = asks h i id

-- Each patch goes after a message that asks for it, and the indices do not go down.
abbrev pub Placed : List Message → ℕ → List (ℕ × Text) → Type 0
Placed h lo [] = Unit {0}
Placed h lo ((i, id) ∷ ps) = (lo ≤ i) × (asks h i id ≡ true) × Placed h i ps

asks-insert_at :
    (k j : ℕ) (x : Text) (m : Message) (h : List Message)
    → k ≤ j
    → asks h k x ≡ true
    → asks (insert_at (suc j) m h) k x ≡ true
unfolding asks
asks-insert_at k j x m [] le e = absurd (cc)
asks-insert_at zero j x m (n ∷ h) le e = e
asks-insert_at (suc k) zero x m (n ∷ h) le e = absurd (omega (arith, le))
asks-insert_at (suc k) (suc j) x m (n ∷ h) le e = asks-insert_at k j x m h (omega (arith, le)) e

assistant_alone : (r : Role) → is_assistant r ≡ true → is_tool r ≡ false
assistant_alone system e = refl
assistant_alone user e = refl
assistant_alone assistant e = refl
assistant_alone tool e = absurd (cc)

grouped-insert_at :
    (i : ℕ) (x : Text) (ids : List Text) (h : List Message)
    → asks h i x ≡ true
    → grouped ids h ≡ true
    → grouped ids (insert_at (suc i) (placeholder x) h) ≡ true
unfolding asks grouped
grouped-insert_at i x ids [] e g = absurd (cc)
grouped-insert_at zero x ids (m ∷ h) e g =
    let a = and_left (is_assistant m.role) _ e in
    let t = assistant_alone m.role a in
    let g' : grouped m.tool_calls h ≡ true = ground (arith, g, t, a) in
    let b = and_right (is_assistant m.role) (member x m.tool_calls) e in rw (t, a, b, g') refl
grouped-insert_at (suc i) x ids (m ∷ h) e g = elim (Bool-cases (is_tool m.role)) [
  | inl t ↦ ground (arith, g, t, grouped-insert_at i x ids h e)
  | inr t ↦ elim (Bool-cases (is_assistant m.role)) [
    | inl a ↦ rw (grouped, t, a) (grouped-insert_at i x m.tool_calls h e (ground (arith, g, t, a)))
    | inr a ↦ rw (grouped, t, a) (grouped-insert_at i x [] h e (ground (arith, g, t, a)))
  ]
]

pub splice-grouped :
    (ids : List Text) (lo : ℕ) (ps : List (ℕ × Text)) (h : List Message)
    → Placed h lo ps
    → grouped ids h ≡ true
    → (grouped ids (splice ps h) ≡ true)
      × ((k : ℕ) (x : Text) → k ≤ lo → asks h k x ≡ true → asks (splice ps h) k x ≡ true)
unfolding splice
splice-grouped ids lo [] h p g = (g, λ k x le e. e)
splice-grouped ids lo ((i, id) ∷ ps) h (le, a, p) g =
    let (g', keeps) = splice-grouped ids i ps h p g in
    (
      grouped-insert_at i id ids (splice ps h) (keeps i id (omega arith) a) g',
      λ k x le' e.
          asks-insert_at k i x (placeholder id) (splice ps h) (omega (arith, le, le'))
            (keeps k x (omega (arith, le, le')) e),
    )

Placed-lower :
    (h : List Message) (lo hi : ℕ) (ps : List (ℕ × Text))
    → lo ≤ hi
    → Placed h hi ps
    → Placed h lo ps
Placed-lower h lo hi [] le p = tt
Placed-lower h lo hi ((i, id) ∷ ps) le (l, a, p) = (omega (arith, le, l), a, p)

unanswered-Placed :
    (h : List Message) (lo : ℕ) (ps : List (ℕ × Text)) (answered : List Text)
    → Placed h lo ps
    → Placed h lo (unanswered ps answered)
unfolding unanswered
unanswered-Placed h lo [] answered p = tt
unanswered-Placed h lo ((i, id) ∷ ps) answered (l, a, p) = elim (Bool-cases (member id answered)) [
  | inl e ↦ rw (unanswered, e) (unanswered-Placed h lo ps answered (Placed-lower h lo i ps l p))
  | inr e ↦ rw (unanswered, e) (l, a, unanswered-Placed h i ps (id ∷ answered) p)
]

asks-append :
    (pre h : List Message) (m : Message) (x : Text)
    → asks (pre ++ (m ∷ h)) (length pre) x ≡ (is_assistant m.role && member x m.tool_calls)
unfolding asks
asks-append [] h m x = refl
asks-append (p ∷ pre) h m x = asks-append pre h m x

-- The calls of one message, in front of those of the messages after it.
calls_at-Placed :
    (h : List Message) (i : ℕ) (cs : List Text) (ps : List (ℕ × Text))
    → ((x : Text) → member x cs ≡ true → asks h i x ≡ true)
    → Placed h i ps
    → Placed h i (calls_at i cs ++ ps)
unfolding calls_at member
calls_at-Placed h i [] ps k p = p
calls_at-Placed h i (c ∷ cs) ps k p =
    let first : member c (c ∷ cs) ≡ true = ground (arith, text_eq_self c) in
    (omega arith, k c first, calls_at-Placed h i cs ps (λ x e. k x (or_right (text_eq c x) _ e)) p)

pending_from-Placed :
    (pre h : List Message) → Placed (pre ++ h) (length pre) (pending_from (length pre) h)
unfolding pending_from
pending_from-Placed pre [] = tt
pending_from-Placed pre (m ∷ h) =
    let n = length pre in
    let e : length (pre ++ (m ∷ [])) ≡ suc n = omega (arith, length-append pre (m ∷ [])) in
    let later =
      subst (λ (hs : List Message). Placed hs (suc n) (pending_from (suc n) h))
        (append_assoc pre (m ∷ []) h)
        (subst (λ (k : ℕ). Placed ((pre ++ (m ∷ [])) ++ h) k (pending_from k h)) e
          (pending_from-Placed (pre ++ (m ∷ [])) h)) in
    let rest = Placed-lower (pre ++ (m ∷ h)) n (suc n) _ (omega arith) later in
    elim (Bool-cases (is_assistant m.role)) [
      | inl a ↦
          rw (pending_from, a)
            (calls_at-Placed (pre ++ (m ∷ h)) n m.tool_calls _
              (λ x f. asks-append pre h m x ∙ rw (a, f) refl) rest)
      | inr a ↦ rw (pending_from, a) rest
    ]

-- The patches of a conversation are all placed.
pub patches-Placed :
    (h : List Message) (answered : List Text) → Placed h 0 (unanswered (pending_from 0 h) answered)
patches-Placed h answered =
    unanswered-Placed h 0 (pending_from 0 h) answered (pending_from-Placed [] h)

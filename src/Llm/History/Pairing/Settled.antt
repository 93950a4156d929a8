-- ===== src/Llm/History/Pairing/Settled.antt =====
-- internal/llm/openai.go: where the results of a message's calls stand.
use streamcore_server.Base.{
  Bool, Bool-cases, List, Text, [], arith, false, if◌then◌else◌, inl, inr, not, refl, text_eq_self,
  text_eq_iff, true, ◌&&◌, ◌++◌, ◌||◌, ◌∷◌, ◌∙◌, ◌≡◌,
}
use streamcore_server.Strings.{member}
use streamcore_server.Llm.History.{
  Message, Role, tool, assistant, system, user, is_tool, is_assistant, answered_ids,
}
use streamcore_server.Llm.History.Window.{or_right, grouped}

-- The calls that a conversation asks for.
unfoldable pub asked : List Message → List Text
asked [] = []
asked (m ∷ h) = let rest = asked h in if is_assistant m.role then m.tool_calls ++ rest else rest

-- The results that stand at the front.
abbrev pub head_answers : List Message → List Text
head_answers [] = []
head_answers (m ∷ h) = if is_tool m.role then m.tool_call_id ∷ head_answers h else []

abbrev pub all_among : List Text → List Text → Bool
all_among [] ids = true
all_among (x ∷ xs) ids = member x ids && all_among xs ids

-- Each message that asks for calls is followed by their results, before anything else.
abbrev pub settled : List Message → Bool
settled [] = true
settled (m ∷ h) =
    (if is_assistant m.role then all_among m.tool_calls (head_answers h) else true) && settled h

-- No call is asked for twice.
abbrev pub no_repeats : List Text → Bool
no_repeats [] = true
no_repeats (x ∷ xs) = not (member x xs) && no_repeats xs

member-append : (x : Text) (xs ys : List Text) → member x (xs ++ ys) ≡ (member x xs || member x ys)
unfolding member
member-append x [] ys = refl
member-append x (y ∷ xs) ys = ground (arith, member-append x xs ys)

no_repeats-append :
    (xs ys : List Text)
    → no_repeats (xs ++ ys) ≡ true
    → (no_repeats ys ≡ true) × ((x : Text) → member x xs ≡ true → member x ys ≡ false)
unfolding member
no_repeats-append [] ys h = (h, λ x e. absurd (cc))
no_repeats-append (y ∷ xs) ys h =
    let (n, d) = no_repeats-append xs ys (ground (arith, h)) in
    (n, λ x e. ground (arith, d x, h, member-append y xs ys, text_eq_iff y x))

tool_asks_nothing : (r : Role) → is_tool r ≡ true → is_assistant r ≡ false
tool_asks_nothing tool e = refl
tool_asks_nothing assistant e = cc
tool_asks_nothing system e = cc
tool_asks_nothing user e = cc

head_grouped :
    (ids : List Text) (h : List Message) (x : Text)
    → grouped ids h ≡ true
    → member x (head_answers h) ≡ true
    → member x ids ≡ true
unfolding grouped member
head_grouped ids [] x g a = cc
head_grouped ids (m ∷ h) x g a = elim (Bool-cases (is_tool m.role)) [
  | inl t ↦ ground (arith, t, g, a, head_grouped ids h x, text_eq_iff m.tool_call_id x)
  | inr t ↦ absurd (ground (arith, t, a))
]

-- A result that follows the message that asked for it stands at the front, or was asked for later.
answered_where :
    (ids : List Text) (h : List Message) (x : Text)
    → grouped ids h ≡ true
    → member x (answered_ids h) ≡ true
    → (member x (head_answers h) || member x (asked h)) ≡ true
unfolding grouped asked answered_ids member
answered_where ids [] x g a = cc
answered_where ids (m ∷ h) x g a = elim (Bool-cases (is_tool m.role)) [
  | inl t ↦ ground (arith, t, answered_where ids h x, g, a)
  | inr t ↦ elim (Bool-cases (is_assistant m.role)) [
    | inl s ↦
        let g' : grouped m.tool_calls h ≡ true = ground (arith, g, t, s) in
        let k = answered_where m.tool_calls h x g' (ground (arith, a, t)) in
        let f = head_grouped m.tool_calls h x g' in
        rw (t, s) (member-append x m.tool_calls (asked h) ∙ ground (arith, k, f))
    | inr s ↦
        let g' : grouped [] h ≡ true = ground (arith, g, t, s) in
        let k = answered_where [] h x g' (ground (arith, a, t)) in
        let f = head_grouped [] h x g' in rw (t, s) (ground (arith, k, f))
  ]
]

all_among-all :
    (xs ids : List Text)
    → ((x : Text) → member x xs ≡ true → member x ids ≡ true)
    → all_among xs ids ≡ true
unfolding member
all_among-all [] ids h = refl
all_among-all (x ∷ xs) ids h =
    let first = h x (ground (arith, text_eq_self x)) in
    ground (arith, first, all_among-all xs ids (λ y e. h y (ground (arith, e))))

settle_calls :
    (cs : List Text) (h : List Message)
    → grouped cs h ≡ true
    → ((x : Text) → member x cs ≡ true → member x (asked h) ≡ false)
    → ((x : Text) → member x cs ≡ true → member x (answered_ids h) ≡ true)
    → all_among cs (head_answers h) ≡ true
settle_calls cs h g d a =
    all_among-all cs (head_answers h)
      (λ x e. ground (arith, answered_where cs h x g (a x e), d x e))

-- Where results follow their requests, no call is asked for twice, and each is answered somewhere, each is answered next to its request.
pub grouped-settled :
    (ids : List Text) (h : List Message)
    → grouped ids h ≡ true
    → ((x : Text) → member x ids ≡ true → member x (asked h) ≡ false)
    → no_repeats (asked h) ≡ true
    → ((x : Text) → member x (asked h) ≡ true → member x (answered_ids h) ≡ true)
    → settled h ≡ true
unfolding grouped asked answered_ids member
grouped-settled ids [] g d n a = refl
grouped-settled ids (m ∷ h) g d n a = elim (Bool-cases (is_tool m.role)) [
  | inl t ↦
      let s : is_assistant m.role ≡ false = tool_asks_nothing m.role t in
      let open' : member m.tool_call_id ids ≡ true = ground (arith, g, t) in
      rw s (
        grouped-settled ids h (ground (arith, g, t)) (λ x e. ground (arith, d x e, s))
          (ground (arith, n, s))
          (λ x e. ground (arith, a x, e, s, t, d x, open', text_eq_iff m.tool_call_id x)))
  | inr t ↦ elim (Bool-cases (is_assistant m.role)) [
    | inl s ↦
        let n' : no_repeats (m.tool_calls ++ asked h) ≡ true = rw (asked, s) at n in
        let (rest, apart) = no_repeats-append m.tool_calls (asked h) n' in
        let g' : grouped m.tool_calls h ≡ true = ground (arith, g, t, s) in
        let a' : (x : Text)
            → member x (m.tool_calls ++ asked h) ≡ true
            → member x (answered_ids h) ≡ true =
          λ x e. ground (arith, a x, e, s, t) in
        let first =
          settle_calls m.tool_calls h g' apart
            (λ x e. a' x (member-append x m.tool_calls (asked h) ∙ ground (arith, e))) in
        let later =
          grouped-settled m.tool_calls h g' apart rest
            (λ x e. a' x (member-append x m.tool_calls (asked h) ∙ or_right _ _ e)) in
        rw s (ground (arith, first, later))
    | inr s ↦ rw s (
        grouped-settled [] h (ground (arith, g, t, s)) (λ x e. absurd (cc)) (ground (arith, n, s))
          (λ x e. ground (arith, a x, e, s, t)))
  ]
]

-- ===== src/Llm/History/Window.antt =====
-- What is left of a long conversation.
use streamcore_server.Base.{
  Bool, Bool-cases, List, Text, [], arith, drop, false, if◌then◌else◌, inl, inr, leb, leb→le,
  length, length-drop, refl, suc, sym, take, true, zero, ℕ, ◌&&◌, ◌+◌, ◌-◌, ◌||◌, ◌∙◌, ◌∷◌, ◌≡◌,
  ◌≤◌,
}
use streamcore_server.Strings.{member}
use streamcore_server.Llm.History.{
  Message, Role, is_tool, is_system, is_assistant, drop_tools, prune_history, window, system, user,
  assistant, tool,
}

-- Every result of a tool follows, after other results at most, the message that asked for it; `ids`
-- are the calls that may be answered.
unfoldable pub grouped : List Text → List Message → Bool
unfolding member
grouped ids [] = true
grouped ids (m ∷ h) =
    let asked = grouped m.tool_calls h in
    let same = grouped ids h in
    let none' = grouped [] h in
    if is_tool m.role
    then member m.tool_call_id ids && same
    else if is_assistant m.role
    then asked
    else none'

length-drop_tools : (h : List Message) → length (drop_tools h) ≤ length h
unfolding drop_tools
length-drop_tools [] = omega arith
length-drop_tools (m ∷ h) = ground (arith, length-drop_tools h)

pub grouped_tool :
    (ids : List Text) (m : Message) (h : List Message)
    → is_tool m.role ≡ true
    → grouped ids (m ∷ h) ≡ (member m.tool_call_id ids && grouped ids h)
unfolding grouped
grouped_tool ids m h e = rw (grouped, e) refl

pub grouped_other :
    (ids js : List Text) (m : Message) (h : List Message)
    → is_tool m.role ≡ false
    → grouped ids (m ∷ h) ≡ grouped js (m ∷ h)
unfolding grouped
grouped_other ids js m h e = rw (grouped, e) refl

pub and_right : (x y : Bool) → (x && y) ≡ true → y ≡ true
and_right true y e = e
and_right false y e = absurd (cc)

pub or_right : (x y : Bool) → y ≡ true → (x || y) ≡ true
or_right true y e = refl
or_right false y e = e

pub and_left : (x y : Bool) → (x && y) ≡ true → x ≡ true
and_left true y e = refl
and_left false y e = absurd (cc)

-- Past the results at its head, a part of a grouped conversation is grouped by itself.
pub drop_tools-grouped :
    (ids : List Text) (h : List Message) → grouped ids h ≡ true → grouped [] (drop_tools h) ≡ true
unfolding drop_tools grouped
drop_tools-grouped ids [] g = refl
drop_tools-grouped ids (m ∷ h) g = elim (Bool-cases (is_tool m.role)) [
  | inl e ↦
      rw (drop_tools, e)
        (drop_tools-grouped ids h (and_right _ _ (sym (grouped_tool ids m h e) ∙ g)))
  | inr e ↦ rw (drop_tools, e) (grouped_other [] ids m h e ∙ g)
]

-- Every part of a grouped conversation is grouped, for some calls.
grouped_rest :
    (ids : List Text) (m : Message) (h : List Message)
    → grouped ids (m ∷ h) ≡ true
    → (js : List Text) × (grouped js h ≡ true)
unfolding grouped
grouped_rest ids m h g = elim (Bool-cases (is_tool m.role)) [
  | inl e ↦ (ids, and_right _ _ (sym (grouped_tool ids m h e) ∙ g))
  | inr e ↦ elim (Bool-cases (is_assistant m.role)) [
    | inl f ↦ (m.tool_calls, ground (arith, g, e, f))
    | inr f ↦ ([], ground (arith, g, e, f))
  ]
]

pub drop-grouped :
    (n : ℕ) (ids : List Text) (h : List Message)
    → grouped ids h ≡ true
    → (js : List Text) × (grouped js (drop n h) ≡ true)
drop-grouped zero ids h g = (ids, g)
drop-grouped (suc n) ids [] g = (ids, g)
drop-grouped (suc n) ids (m ∷ h) g = let (js, g') = grouped_rest ids m h g in drop-grouped n js h g'

system_alone : (r : Role) → is_system r ≡ true → (is_tool r ≡ false) × (is_assistant r ≡ false)
system_alone system e = (refl, refl)
system_alone user e = absurd (cc)
system_alone assistant e = absurd (cc)
system_alone tool e = absurd (cc)

pub after_system :
    (m : Message) (t : List Message)
    → is_system m.role ≡ true
    → grouped [] t ≡ true
    → grouped [] (m ∷ t) ≡ true
unfolding grouped
after_system m t e g = let (x, y) = system_alone m.role e in rw (grouped, x, y) g

-- In a conversation that starts with the system's message and where every result of a tool follows
-- the message that asked for it, pruning keeps both, and leaves at most 31 messages.
pub prune_history-grouped :
    (m : Message) (h : List Message)
    → is_system m.role ≡ true
    → grouped [] (m ∷ h) ≡ true
    → (grouped [] (prune_history (m ∷ h)) ≡ true)
      × (length (prune_history (m ∷ h)) ≤ window + 1)
      × (take 1 (prune_history (m ∷ h)) ≡ m ∷ [])
unfolding prune_history
prune_history-grouped m h s g = elim (Bool-cases (leb (length (m ∷ h)) (window + 1))) [
  | inl e ↦ rw e (g, leb→le _ _ e, refl)
  | inr e ↦
      let n = length (m ∷ h) - window in
      let tail = drop n (m ∷ h) in
      let (js, g') = drop-grouped n [] (m ∷ h) g in
      rw (e, s)
        (
          after_system m (drop_tools tail) s (drop_tools-grouped js tail g'),
          omega (arith, length-drop_tools tail, length-drop n (m ∷ h)),
          refl,
        )
]

-- ===== src/Plugin/Host/Calls/Waiters.antt =====
-- internal/plugin/external.go: what holds of the waiters and of the numbers that are given out.
use streamcore_server.Base.{
  Bool, Bool-cases, List, Option, Text, [], arith, false, inl, inr, leb, none, not, refl, some,
  subst, suc, text_eq, true, ℕ, ◌&&◌, ◌==◌, ◌||◌, ◌∷◌, ◌≡◌,
}
use streamcore_server.Plugin.Host.Calls.{
  Reply, wrote, exited, Phase, waiting, leaving, Waiter, Table, find, replace, remove, unlist,
  fresh_waiter, drop_number, has_number,
}

-- The process wrote this reply for this number.
abbrev pub was_written : ℕ → Text → List (ℕ × Text) → Bool
was_written n x [] = false
was_written n x ((m, y) ∷ l) = (m == n && text_eq y x) || was_written n x l

abbrev pub reply_ok : ℕ → Reply → List (ℕ × Text) → Bool
reply_ok n exited l = true
reply_ok n (wrote x) l = was_written n x l

abbrev buffer_ok : ℕ → Option Reply → List (ℕ × Text) → Bool
buffer_ok n none l = true
buffer_ok n (some r) l = reply_ok n r l

abbrev pub answered : ℕ → List (ℕ × Reply) → Bool
answered n [] = false
answered n ((m, r) ∷ l) = m == n || answered n l

abbrev is_leaving : Phase → Bool
is_leaving waiting = false
is_leaving leaving = true

unfoldable pub waiter_ok : List (ℕ × Text) → List (ℕ × Reply) → ℕ → Waiter → Bool
waiter_ok l rs n w =
    leb w.id n && buffer_ok w.id w.buffer l && (is_leaving w.phase || not (answered w.id rs))

unfoldable pub all_waiters : List (ℕ × Text) → List (ℕ × Reply) → ℕ → List Waiter → Bool
all_waiters l rs n [] = true
all_waiters l rs n (w ∷ ws) = waiter_ok l rs n w && all_waiters l rs n ws

-- Each reply that was returned was written for its call, and no call has two.
abbrev pub all_matched : List (ℕ × Text) → List (ℕ × Reply) → Bool
all_matched l [] = true
all_matched l ((n, r) ∷ rs) = reply_ok n r l && not (answered n rs) && all_matched l rs

abbrev all_below : ℕ → List (ℕ × Reply) → Bool
all_below n [] = true
all_below n ((m, r) ∷ rs) = leb m n && all_below n rs

abbrev pub has_waiter : ℕ → List Waiter → Bool
has_waiter n [] = false
has_waiter n (w ∷ ws) = w.id == n || has_waiter n ws

-- A number outside the map was given out, and neither answered nor entered.
unfoldable pub numbers_ok : List (ℕ × Reply) → ℕ → List Waiter → List ℕ → Bool
numbers_ok rs n ws [] = true
numbers_ok rs n ws (m ∷ ms) =
    leb m n && not (answered m rs) && not (has_waiter m ws) && numbers_ok rs n ws ms

pub record Kept (t : Table) : Type 0 where
  pub numbers_kept : numbers_ok t.returned t.next_id t.waiters t.numbered ≡ true
  pub waiters_ok : all_waiters t.written t.returned t.next_id t.waiters ≡ true
  pub matched : all_matched t.written t.returned ≡ true
  pub below : all_below t.next_id t.returned ≡ true

reply_more :
    (n m : ℕ) (x : Text) (r : Reply) (l : List (ℕ × Text))
    → reply_ok n r l ≡ true
    → reply_ok n r ((m, x) ∷ l) ≡ true
reply_more n m x exited l h = refl
reply_more n m x (wrote y) l h = ground arith

buffer_more :
    (n m : ℕ) (x : Text) (b : Option Reply) (l : List (ℕ × Text))
    → buffer_ok n b l ≡ true
    → buffer_ok n b ((m, x) ∷ l) ≡ true
buffer_more n m x none l h = refl
buffer_more n m x (some r) l h = reply_more n m x r l h

pub waiters_more :
    (m : ℕ) (x : Text) (l : List (ℕ × Text)) (rs : List (ℕ × Reply)) (n : ℕ) (ws : List Waiter)
    → all_waiters l rs n ws ≡ true
    → all_waiters ((m, x) ∷ l) rs n ws ≡ true
unfolding all_waiters waiter_ok
waiters_more m x l rs n [] h = refl
waiters_more m x l rs n (w ∷ ws) h =
    ground (arith, waiters_more m x l rs n ws, buffer_more w.id m x w.buffer l)

pub matched_more :
    (m : ℕ) (x : Text) (l : List (ℕ × Text)) (rs : List (ℕ × Reply))
    → all_matched l rs ≡ true
    → all_matched ((m, x) ∷ l) rs ≡ true
matched_more m x l [] h = refl
matched_more m x l ((n, r) ∷ rs) h = ground (arith, matched_more m x l rs, reply_more n m x r l)

pub waiters_suc :
    (l : List (ℕ × Text)) (rs : List (ℕ × Reply)) (n : ℕ) (ws : List Waiter)
    → all_waiters l rs n ws ≡ true
    → all_waiters l rs (suc n) ws ≡ true
unfolding all_waiters waiter_ok
waiters_suc l rs n [] h = refl
waiters_suc l rs n (w ∷ ws) h = ground (arith, waiters_suc l rs n ws)

pub below_suc :
    (n : ℕ) (rs : List (ℕ × Reply)) → all_below n rs ≡ true → all_below (suc n) rs ≡ true
below_suc n [] h = refl
below_suc n ((m, r) ∷ rs) h = ground (arith, below_suc n rs)

pub below_fresh :
    (n : ℕ) (rs : List (ℕ × Reply)) → all_below n rs ≡ true → answered (suc n) rs ≡ false
below_fresh n [] h = refl
below_fresh n ((m, r) ∷ rs) h = ground (arith, below_fresh n rs)

pub find-ok :
    (l : List (ℕ × Text)) (rs : List (ℕ × Reply)) (n k : ℕ) (ws : List Waiter) (w : Waiter)
    → all_waiters l rs n ws ≡ true
    → find k ws ≡ some w
    → waiter_ok l rs n w ≡ true
unfolding all_waiters find
find-ok l rs n k [] w h e = cc
find-ok l rs n k (x ∷ ws) w h e = elim (Bool-cases (x.id == k)) [
  | inl q ↦
      let p : x ≡ w = ground (arith, q) in
      subst (λ (y : Waiter). waiter_ok l rs n y ≡ true) p (ground arith)
  | inr q ↦ find-ok l rs n k ws w (ground arith) (ground (arith, q))
]

pub replace-ok :
    (l : List (ℕ × Text)) (rs : List (ℕ × Reply)) (n : ℕ) (v : Waiter) (ws : List Waiter)
    → waiter_ok l rs n v ≡ true
    → all_waiters l rs n ws ≡ true
    → all_waiters l rs n (replace v ws) ≡ true
unfolding all_waiters replace
replace-ok l rs n v [] o h = refl
replace-ok l rs n v (w ∷ ws) o h = ground (arith, replace-ok l rs n v ws)

pub answer-ok :
    (l : List (ℕ × Text)) (rs : List (ℕ × Reply)) (n : ℕ) (v : Waiter) (r : Reply)
    (ws : List Waiter)
    → waiter_ok l ((v.id, r) ∷ rs) n v ≡ true
    → all_waiters l rs n ws ≡ true
    → all_waiters l ((v.id, r) ∷ rs) n (replace v ws) ≡ true
unfolding all_waiters replace waiter_ok
answer-ok l rs n v r [] o h = refl
answer-ok l rs n v r (w ∷ ws) o h = ground (arith, answer-ok l rs n v r ws)

pub remove-ok :
    (l : List (ℕ × Text)) (rs : List (ℕ × Reply)) (n k : ℕ) (ws : List Waiter)
    → all_waiters l rs n ws ≡ true
    → all_waiters l rs n (remove k ws) ≡ true
unfolding all_waiters remove
remove-ok l rs n k [] h = refl
remove-ok l rs n k (w ∷ ws) h = ground (arith, remove-ok l rs n k ws)

pub unlist-ok :
    (l : List (ℕ × Text)) (rs : List (ℕ × Reply)) (n : ℕ) (ws : List Waiter)
    → all_waiters l rs n ws ≡ true
    → all_waiters l rs n (unlist ws) ≡ true
unfolding all_waiters unlist waiter_ok
unlist-ok l rs n [] h = refl
unlist-ok l rs n (w ∷ ws) h = ground (arith, unlist-ok l rs n ws)

pub begin_ok :
    (l : List (ℕ × Text)) (rs : List (ℕ × Reply)) (n k : ℕ) (ws : List Waiter)
    → all_waiters l rs n ws ≡ true
    → (leb k n ≡ true) × (answered k rs ≡ false)
    → all_waiters l rs n (fresh_waiter k ∷ ws) ≡ true
unfolding all_waiters waiter_ok
begin_ok l rs n k ws a b = ground (arith, b)

pub has-replace :
    (m : ℕ) (v : Waiter) (ws : List Waiter) → has_waiter m (replace v ws) ≡ has_waiter m ws
unfolding replace
has-replace m v [] = refl
has-replace m v (w ∷ ws) = ground (arith, has-replace m v ws)

pub has-remove :
    (m k : ℕ) (ws : List Waiter) → has_waiter m ws ≡ false → has_waiter m (remove k ws) ≡ false
unfolding remove
has-remove m k [] h = refl
has-remove m k (w ∷ ws) h = ground (arith, has-remove m k ws)

pub has-unlist : (m : ℕ) (ws : List Waiter) → has_waiter m (unlist ws) ≡ has_waiter m ws
unfolding unlist
has-unlist m [] = refl
has-unlist m (w ∷ ws) = ground (arith, has-unlist m ws)

pub has-find : (k : ℕ) (ws : List Waiter) (w : Waiter) → find k ws ≡ some w → has_waiter k ws ≡ true
unfolding find
has-find k [] w e = cc
has-find k (x ∷ ws) w e = ground (arith, has-find k ws w)

pub has_none :
    (l : List (ℕ × Text)) (rs : List (ℕ × Reply)) (n : ℕ) (ws : List Waiter)
    → all_waiters l rs n ws ≡ true
    → has_waiter (suc n) ws ≡ false
unfolding all_waiters waiter_ok
has_none l rs n [] h = refl
has_none l rs n (w ∷ ws) h = ground (arith, has_none l rs n ws)

pub numbers_same :
    (rs : List (ℕ × Reply)) (n : ℕ) (ws vs : List Waiter) (ms : List ℕ)
    → ((m : ℕ) → has_waiter m ws ≡ false → has_waiter m vs ≡ false)
    → numbers_ok rs n ws ms ≡ true
    → numbers_ok rs n vs ms ≡ true
unfolding numbers_ok
numbers_same rs n ws vs [] f h = refl
numbers_same rs n ws vs (m ∷ ms) f h = ground (arith, numbers_same rs n ws vs ms f, f m)

numbers_suc :
    (rs : List (ℕ × Reply)) (n : ℕ) (ws : List Waiter) (ms : List ℕ)
    → numbers_ok rs n ws ms ≡ true
    → numbers_ok rs (suc n) ws ms ≡ true
unfolding numbers_ok
numbers_suc rs n ws [] h = refl
numbers_suc rs n ws (m ∷ ms) h = ground (arith, numbers_suc rs n ws ms)

pub numbers_next :
    (rs : List (ℕ × Reply)) (n : ℕ) (ws : List Waiter) (ms : List ℕ)
    → numbers_ok rs n ws ms ≡ true
    → answered (suc n) rs ≡ false
    → has_waiter (suc n) ws ≡ false
    → numbers_ok rs (suc n) ws (suc n ∷ ms) ≡ true
unfolding numbers_ok
numbers_next rs n ws ms h a b = ground (arith, numbers_suc rs n ws ms)

pub numbers_answer :
    (rs : List (ℕ × Reply)) (n k : ℕ) (r : Reply) (ws : List Waiter) (ms : List ℕ)
    → has_waiter k ws ≡ true
    → numbers_ok rs n ws ms ≡ true
    → numbers_ok ((k, r) ∷ rs) n ws ms ≡ true
unfolding numbers_ok
numbers_answer rs n k r ws [] b h = refl
numbers_answer rs n k r ws (m ∷ ms) b h = elim (Bool-cases (k == m)) [
  | inl q ↦
      let e : k ≡ m = ground (arith, q) in
      let b' : has_waiter m ws ≡ true = subst (λ (x : ℕ). has_waiter x ws ≡ true) e b in
      absurd (ground (arith, h, b'))
  | inr q ↦ ground (arith, q, numbers_answer rs n k r ws ms b)
]

pub numbers_drop :
    (rs : List (ℕ × Reply)) (n k : ℕ) (ws : List Waiter) (ms : List ℕ)
    → numbers_ok rs n ws ms ≡ true
    → numbers_ok rs n (fresh_waiter k ∷ ws) (drop_number k ms) ≡ true
unfolding numbers_ok drop_number
numbers_drop rs n k ws [] h = refl
numbers_drop rs n k ws (m ∷ ms) h = ground (arith, numbers_drop rs n k ws ms)

pub numbers_found :
    (rs : List (ℕ × Reply)) (n k : ℕ) (ws : List Waiter) (ms : List ℕ)
    → numbers_ok rs n ws ms ≡ true
    → has_number k ms ≡ true
    → (leb k n ≡ true) × (answered k rs ≡ false)
unfolding numbers_ok
numbers_found rs n k ws [] h e = cc
numbers_found rs n k ws (m ∷ ms) h e = elim (Bool-cases (m == k)) [
  | inl q ↦
      let p : m ≡ k = ground (arith, q) in
      subst (λ (x : ℕ). (leb x n ≡ true) × (answered x rs ≡ false)) p (ground arith, ground arith)
  | inr q ↦ numbers_found rs n k ws ms (ground arith) (ground (arith, q))
]

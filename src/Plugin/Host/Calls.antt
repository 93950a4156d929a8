-- ===== src/Plugin/Host/Calls.antt =====
-- call and readLoop of internal/plugin/external.go: the requests in flight and the reader that hands out the
-- replies. A waiter is a running call with its reply channel, which holds one reply; what else the code does at a channel
-- or under pendingMu is one step each, and so is the lookup of a reply's channel with the send that follows it: a
-- process that answers a number twice before its call takes the first answer is left out. A number that does not
-- fit in 63 bits is not reached.
pub mod Waiters
pub mod Matching
pub mod Jam
use streamcore_server.Base.{
  Bool, List, Option, Text, [], false, if◌then◌else◌, none, some, suc, true, ℕ, ◌&&◌, ◌==◌, ◌||◌,
  ◌∷◌, ◌≡◌,
}

-- What a reply channel carries: a reply that the process wrote, or the notice that the process is gone.
pub data Reply : Type 0 where
  wrote : Text → Reply
  exited : Reply

-- A call waits for its reply, or has chosen its outcome and wants to remove itself from the map.
pub data Phase : Type 0 where
  waiting leaving : Phase

pub record Waiter : Type 0 where
  pub id : ℕ
  pub buffer : Option Reply
  pub phase : Phase
  -- The map holds its channel.
  pub listed : Bool

-- The reader reads, or it holds pendingMu and goes through the waiters of these numbers, or it is done.
pub data Reader : Type 0 where
  reading : Reader
  failing : List ℕ → Reader
  done : Reader

pub record Table : Type 0 where
  pub next_id : ℕ
  -- The numbers of calls that have not entered the map.
  pub numbered : List ℕ
  pub waiters : List Waiter
  pub reader : Reader
  -- The calls that got a reply, with the reply.
  pub returned : List (ℕ × Reply)
  -- The replies that the process wrote, with their numbers.
  pub written : List (ℕ × Text)

unfoldable pub new_table : Table
new_table = record {
  next_id = 0;
  numbered = [];
  waiters = [];
  reader = reading;
  returned = [];
  written = [];
}

unfoldable pub drop_number : ℕ → List ℕ → List ℕ
drop_number n [] = []
drop_number n (m ∷ ms) = if m == n then drop_number n ms else m ∷ drop_number n ms

abbrev pub has_number : ℕ → List ℕ → Bool
has_number n [] = false
has_number n (m ∷ ms) = m == n || has_number n ms

unfoldable pub find : ℕ → List Waiter → Option Waiter
find n [] = none
find n (w ∷ ws) = if w.id == n then some w else find n ws

-- The waiters with another in the place of that number.
unfoldable pub replace : Waiter → List Waiter → List Waiter
replace v [] = []
replace v (w ∷ ws) = if w.id == v.id then v ∷ replace v ws else w ∷ replace v ws

unfoldable pub remove : ℕ → List Waiter → List Waiter
remove n [] = []
remove n (w ∷ ws) = if w.id == n then remove n ws else w ∷ remove n ws

unfoldable pub unlist : List Waiter → List Waiter
unlist [] = []
unlist (w ∷ ws) = record w { listed = false } ∷ unlist ws

abbrev pub ids_listed : List Waiter → List ℕ
ids_listed [] = []
ids_listed (w ∷ ws) = if w.listed then w.id ∷ ids_listed ws else ids_listed ws

-- The map has a channel for the number.
unfoldable pub is_listed : ℕ → List Waiter → Bool
is_listed n [] = false
is_listed n (w ∷ ws) = (w.id == n && w.listed) || is_listed n ws

-- pendingMu is free.
abbrev pub is_free : Reader → Bool
is_free reading = true
is_free (failing ns) = false
is_free done = true

abbrev pub fresh_waiter : ℕ → Waiter
fresh_waiter n = record { id = n; buffer = none; phase = waiting; listed = true }

pub data Step : Table → Table → Type 0 where
  -- A call takes a number, which needs no mutex, and then enters the map.
  numbers :
      (t : Table)
      → Step t (record t { next_id = suc t.next_id; numbered = suc t.next_id ∷ t.numbered })
  begins :
      (t : Table) (n : ℕ)
      → is_free t.reader ≡ true
      → has_number n t.numbered ≡ true
      → Step t
          (record t { numbered = drop_number n t.numbered; waiters = fresh_waiter n ∷ t.waiters })
  -- The reader reads a reply for a waiter of the map whose channel is empty.
  delivers :
      (t : Table) (w : Waiter) (text : Text)
      → t.reader ≡ reading
      → find w.id t.waiters ≡ some w
      → w.listed ≡ true
      → w.buffer ≡ none
      → Step t (record t {
        waiters = replace (record w { buffer = some (wrote text) }) t.waiters;
        written = (w.id, text) ∷ t.written;
      })
  -- The reader reads a reply whose number is not in the map.
  ignores :
      (t : Table) (n : ℕ) (text : Text)
      → t.reader ≡ reading
      → is_listed n t.waiters ≡ false
      → Step t (record t { written = (n, text) ∷ t.written })
  -- A call takes the reply out of its channel.
  takes :
      (t : Table) (w : Waiter) (r : Reply)
      → find w.id t.waiters ≡ some w
      → w.phase ≡ waiting
      → w.buffer ≡ some r
      → Step t (record t {
        waiters = replace (record w { buffer = none; phase = leaving }) t.waiters;
        returned = (w.id, r) ∷ t.returned;
      })
  -- A call's context ends, or its request cannot be written.
  cancels :
      (t : Table) (w : Waiter)
      → find w.id t.waiters ≡ some w
      → w.phase ≡ waiting
      → Step t (record t { waiters = replace (record w { phase = leaving }) t.waiters })
  -- A call removes itself from the map and returns.
  leaves :
      (t : Table) (w : Waiter)
      → is_free t.reader ≡ true
      → find w.id t.waiters ≡ some w
      → w.phase ≡ leaving
      → Step t (record t { waiters = remove w.id t.waiters })
  -- The pipe closes: the reader takes pendingMu and goes through the map.
  closes :
      (t : Table)
      → t.reader ≡ reading
      → Step t (record t { reader = failing (ids_listed t.waiters) })
  -- It tells the next waiter, whose channel is empty.
  tells :
      (t : Table) (w : Waiter) (ns : List ℕ)
      → t.reader ≡ failing (w.id ∷ ns)
      → find w.id t.waiters ≡ some w
      → w.buffer ≡ none
      → Step t (record t {
        waiters = replace (record w { buffer = some exited }) t.waiters;
        reader = failing ns;
      })
  -- It empties the map and lets pendingMu go.
  finishes :
      (t : Table)
      → t.reader ≡ failing []
      → Step t (record t { waiters = unlist t.waiters; reader = done })
  -- Another process is started, whose reader goes on with the same map.
  restarts : (t : Table) → t.reader ≡ done → Step t (record t { reader = reading })

pub data Later : Table → Table → Type 0 where
  here : (t : Table) → Later t t
  next : (t t' t'' : Table) → Step t t' → Later t' t'' → Later t t''

pub data Reach : Table → Type 0 where
  start : Reach new_table
  more : (t t' : Table) → Reach t → Step t t' → Reach t'

-- ===== src/Tts/Limiter.antt =====
-- internal/tts/limiter.go: requests that share the slots of a provider. What a request does next,
-- and when its context is cancelled, comes from outside.
pub mod Slots
use streamcore_server.Base.{
  List, Option, [], if◌then◌else◌, ltb, none, some, suc, zero, ℕ, ◌+◌, ◌-◌, ◌∷◌,
}

-- concurrencyLimiter; `held` is the number of values in the slot channel.
pub record Limiter : Type 0 where
  pub limit : ℕ
  pub held : ℕ
  pub in_use : ℕ
  pub waiting : ℕ

unfoldable pub new_limiter : ℕ → Limiter
new_limiter limit = record { limit = limit; held = 0; in_use = 0; waiting = 0 }

-- sharedConcurrencyLimiter: the limiter of the process, and the one that is returned.
unfoldable pub shared_limiter : Option Limiter → ℕ → Option Limiter × Limiter
unfolding new_limiter
shared_limiter none limit = (some (new_limiter limit), new_limiter limit)
shared_limiter (some l) limit = (some l, l)

-- A send on the slot channel, and a receive from it.
unfoldable pub take_slot : Limiter → Limiter
take_slot l = record l { held = l.held + 1 }

unfoldable pub free_slot : Limiter → Limiter
free_slot l = record l { held = l.held - 1 }

-- The count beside it.
unfoldable pub count_in : Limiter → Limiter
count_in l = record l { in_use = l.in_use + 1 }

unfoldable pub count_out : Limiter → Limiter
count_out l = record l { in_use = l.in_use - 1 }

-- The count of the queue.
unfoldable pub line_up : Limiter → Limiter
line_up l = record l { waiting = l.waiting + 1 }

unfoldable pub step_out : Limiter → Limiter
step_out l = record l { waiting = l.waiting - 1 }

-- Where a request is: before acquire; after its first select failed; in its second select; with a slot that is not yet counted,
-- from either select; counted, and still in the queue's count; refused, and still in it; with a slot before and after its
-- stream has started; without its slot, and still counted; refused, or done.
pub data Phase : Type 0 where
  calling lining_up queued taking taking_queued entered giving_up : Phase
  starting relaying returning refused done : Phase

-- What happens to a request: it calls acquire, its second select looks for a slot, its context is cancelled, start returns
-- a stream, start fails or Synthesize returns, its stream closes, or it goes on to its next statement.
pub data Event : Type 0 where
  call retry cancel stream_started call_returned stream_closed proceed : Event

-- The first select of acquire.
unfoldable pub acquire : Limiter → Phase × Limiter
unfolding take_slot
acquire l = if ltb l.held l.limit then (taking, take_slot l) else (lining_up, l)

-- The second select of acquire.
unfoldable pub acquire_queued : Limiter → Phase × Limiter
unfolding take_slot
acquire_queued l = if ltb l.held l.limit then (taking_queued, take_slot l) else (queued, l)

-- limitedStream, and Synthesize, which has no stream of its own; each atomic operation is one step.
unfoldable pub on_event : Event → Phase → Limiter → Phase × Limiter
unfolding acquire acquire_queued free_slot count_in count_out line_up step_out
on_event call calling l = acquire l
on_event proceed lining_up l = (queued, line_up l)
on_event retry queued l = acquire_queued l
on_event cancel queued l = (giving_up, l)
on_event proceed giving_up l = (refused, step_out l)
on_event proceed taking l = (starting, count_in l)
on_event proceed taking_queued l = (entered, count_in l)
on_event proceed entered l = (starting, step_out l)
on_event stream_started starting l = (relaying, l)
on_event call_returned starting l = (returning, free_slot l)
on_event stream_closed relaying l = (returning, free_slot l)
on_event cancel relaying l = (returning, free_slot l)
on_event proceed returning l = (done, count_out l)
on_event _ p l = (p, l)

-- An event of the i-th request.
unfoldable pub on_request : Event → ℕ → List Phase → Limiter → List Phase × Limiter
unfolding on_event
on_request e i [] l = ([], l)
on_request e zero (p ∷ ps) l = let (q, l') = on_event e p l in (q ∷ ps, l')
on_request e (suc i) (p ∷ ps) l = let (qs, l') = on_request e i ps l in (p ∷ qs, l')

-- ===== src/Cache/RefreshAhead/Invalidation.antt =====
-- pkg/util/cache/refresh_ahead.go: Invalidate, sendInvalidation and the refresher's loop in Run, as
-- steps of the callers and of the one refresher. A request is its number, a refresh the number of
-- refreshes that had begun with it. What a refresh does to the contents is left to Schedule.
pub mod Coalescing
pub mod Stuck
use uni_core.Base.{
  ℕ, zero, suc, ◌+◌, ◌≡◌, Bool, true, false, Option, none, some, List, [], ◌∷◌, nat_eq,
  if◌then◌else◌,
}
use uni_core.Errors.{GoError}

-- The field `invalidations`: the channel is made by Run, and closed by the refresher when it ends.
pub data Channel : Type 0 where
  nil_channel open_channel closed_channel : Channel

-- Where a request is: not made; made, with its send still to come; in a send on a nil channel; in a
-- send that blocks; received; received with `pending` cleared; under a refresh; answered with what the
-- refresh returned; or given ErrInvalid.
pub data Phase : Type 0 where
  absent created in_nil_send in_send received cleared : Phase
  refreshing : ℕ → Phase
  answered : ℕ → Option GoError → Phase
  invalidated : Phase

-- `callers` has, for each call of Invalidate, the refreshes that had begun when it was made, and the
-- request that it waits for.
pub record State : Type 0 where
  pub channel : Channel
  pub pending : Option ℕ
  pub phase : ℕ → Phase
  pub next_request : ℕ
  pub begun : ℕ
  pub callers : List (ℕ × ℕ)

abbrev pub set : ℕ → Phase → (ℕ → Phase) → ℕ → Phase
set r p phase q = if nat_eq q r then p else phase q

abbrev pub initial : State
initial = record {
  channel = nil_channel;
  pending = none;
  phase = λ r. absent;
  next_request = 0;
  begun = 0;
  callers = [];
}

abbrev pub move : ℕ → Phase → State → State
move r p s = record s { phase = set r p s.phase }

-- The phases in which a caller that finds the request joins it.
abbrev pub is_waiting : Phase → Bool
is_waiting created = true
is_waiting in_nil_send = true
is_waiting in_send = true
is_waiting received = true
is_waiting _ = false

abbrev pub refresh_of : Phase → Option ℕ
refresh_of (refreshing k) = some k
refresh_of (answered k e) = some k
refresh_of _ = none

-- The steps. A send looks at the channel once: one on a nil channel waits for good, whatever becomes of
-- the field, one on a closed channel panics, and so does one that the closing finds blocked. The
-- refresher's own steps may fall in more orders here than its one loop has.
pub data Step (s : State) : State → Type 0 where
  calls_first :
      s.pending ≡ none
      → Step s (record s {
        pending = some s.next_request;
        phase = set s.next_request created s.phase;
        next_request = suc s.next_request;
        callers = (s.begun, s.next_request) ∷ s.callers;
      })
  joins : (r : ℕ) → s.pending ≡ some r → Step s (record s { callers = (s.begun, r) ∷ s.callers })
  sends_nil :
      (r : ℕ) → s.phase r ≡ created → s.channel ≡ nil_channel → Step s (move r in_nil_send s)
  sends : (r : ℕ) → s.phase r ≡ created → s.channel ≡ open_channel → Step s (move r in_send s)
  panics :
      (r : ℕ)
      → s.phase r ≡ created
      → s.channel ≡ closed_channel
      → Step s (record (move r invalidated s) { pending = none })
  wakes :
      (r : ℕ)
      → s.phase r ≡ in_send
      → s.channel ≡ closed_channel
      → Step s (record (move r invalidated s) { pending = none })
  receives : (r : ℕ) → s.phase r ≡ in_send → s.channel ≡ open_channel → Step s (move r received s)
  clears : (r : ℕ) → s.phase r ≡ received → Step s (record (move r cleared s) { pending = none })
  begins :
      (r : ℕ)
      → s.phase r ≡ cleared
      → Step s (record (move r (refreshing (suc s.begun)) s) { begun = suc s.begun })
  answers :
      (r k : ℕ) (e : Option GoError) → s.phase r ≡ refreshing k → Step s (move r (answered k e) s)
  ticks : Step s (record s { begun = suc s.begun })
  runs : s.channel ≡ nil_channel → Step s (record s { channel = open_channel; begun = suc s.begun })
  ends : s.channel ≡ open_channel → Step s (record s { channel = closed_channel })

pub data Steps : State → State → Type 0 where
  done : (s : State) → Steps s s
  more : (s t u : State) → Step s t → Steps t u → Steps s u

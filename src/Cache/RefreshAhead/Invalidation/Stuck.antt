-- ===== src/Cache/RefreshAhead/Invalidation/Stuck.antt =====
-- pkg/util/cache/refresh_ahead.go: Invalidate before Run.
use uni_core.Base.{ℕ, suc, ◌≡◌, refl, ap, Bool, true, false, some, nat_eq, arith, if◌then◌else◌}
use uni_core.Cache.RefreshAhead.Invalidation.{
  State, Phase, in_nil_send, in_send, received, refreshing, answered, set, initial, move,
  is_waiting, Step, calls_first, joins, sends_nil, sends, panics, wakes, receives, clears, begins,
  answers, ticks, runs, ends, Steps, done, more,
}
use uni_core.Cache.RefreshAhead.Invalidation.Coalescing.{Inv, initial-Inv, step-Inv, steps-Inv}

-- The request is in a send on a nil channel, and callers join it.
pub record IsStuck (r : ℕ) (s : State) : Type 0 where
  pub sending : s.phase r ≡ in_nil_send
  pub joined : s.pending ≡ some r

abbrev is_nil_send : Phase → Bool
is_nil_send in_nil_send = true
is_nil_send _ = false

-- A step of another request leaves the phase as it is.
unmoved :
    (r q : ℕ) (p : Phase) (phase : ℕ → Phase)
    → phase r ≡ in_nil_send
    → is_nil_send (phase q) ≡ false
    → set q p phase r ≡ in_nil_send
unmoved r q p phase h other = by_test (nat_eq r q) refl
  where
    by_test : (b : Bool) → nat_eq r q ≡ b → (if b then p else phase r) ≡ in_nil_send
    by_test true e =
        let same : r ≡ q = ground (arith) in
        ground (arith, h, other, ap is_nil_send h, ap (λ n. is_nil_send (phase n)) same)
    by_test false e = h

module _ (s : State) (v : Inv s) (r : ℕ) (h : IsStuck r s) where
  moves-IsStuck : (q : ℕ) (p : Phase) → is_nil_send (s.phase q) ≡ false → IsStuck r (move q p s)
  moves-IsStuck q p other = record {
    sending = unmoved r q p s.phase h.sending other;
    joined = h.joined;
  }

  -- A request that can be joined is the pending one.
  leaves-IsStuck :
      (q : ℕ) (t : State)
      → is_waiting (s.phase q) ≡ true
      → is_nil_send (s.phase q) ≡ false
      → IsStuck r t
  leaves-IsStuck q t waiting other =
      let same : q ≡ r = ground (arith, v.waits q waiting, h.joined) in
      ground (arith, other, ap (λ n. is_nil_send (s.phase n)) same, ap is_nil_send h.sending)

step-IsStuck : (s t : State) (r : ℕ) → Inv s → Step s t → IsStuck r s → IsStuck r t
step-IsStuck s _ r v (calls_first e) h = ground (arith, h.joined, e)
step-IsStuck s _ r v (joins q e) h = record { sending = h.sending; joined = h.joined }
step-IsStuck s _ r v (sends_nil q e c) h = moves-IsStuck s v r h q in_nil_send (ap is_nil_send e)
step-IsStuck s _ r v (sends q e c) h = moves-IsStuck s v r h q in_send (ap is_nil_send e)
step-IsStuck s t r v (panics q e c) h =
    leaves-IsStuck s v r h q t (ap is_waiting e) (ap is_nil_send e)
step-IsStuck s t r v (wakes q e c) h =
    leaves-IsStuck s v r h q t (ap is_waiting e) (ap is_nil_send e)
step-IsStuck s _ r v (receives q e c) h = moves-IsStuck s v r h q received (ap is_nil_send e)
step-IsStuck s t r v (clears q e) h =
    leaves-IsStuck s v r h q t (ap is_waiting e) (ap is_nil_send e)
step-IsStuck s _ r v (begins q e) h = record {
  sending = unmoved r q (refreshing (suc s.begun)) s.phase h.sending (ap is_nil_send e);
  joined = h.joined;
}
step-IsStuck s _ r v (answers q k err e) h =
    moves-IsStuck s v r h q (answered k err) (ap is_nil_send e)
step-IsStuck s _ r v ticks h = record { sending = h.sending; joined = h.joined }
step-IsStuck s _ r v (runs e) h = record { sending = h.sending; joined = h.joined }
step-IsStuck s _ r v (ends e) h = record { sending = h.sending; joined = h.joined }

steps-IsStuck : (s t : State) (r : ℕ) → Inv s → Steps s t → IsStuck r s → IsStuck r t
steps-IsStuck s _ r v (done _) h = h
steps-IsStuck s u r v (more _ t _ step rest) h =
    steps-IsStuck t u r (step-Inv s t step v) rest (step-IsStuck s t r v step h)

-- A request that Invalidate sent while the channel was nil stays in its send through all further
-- steps, those of Run included, and stays the pending request that later callers join.
pub invalidate-IsStuck :
    (s t : State) (r : ℕ) → Steps initial s → s.phase r ≡ in_nil_send → Steps s t → IsStuck r t
invalidate-IsStuck s t r before h after =
    let v = steps-Inv initial s before initial-Inv in
    steps-IsStuck s t r v after (record { sending = h; joined = v.waits r (ap is_waiting h) })

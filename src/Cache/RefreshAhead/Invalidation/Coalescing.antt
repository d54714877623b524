-- ===== src/Cache/RefreshAhead/Invalidation/Coalescing.antt =====
-- pkg/util/cache/refresh_ahead.go: which refresh answers a caller of Invalidate.
use mathlib.Core.List.{Memᴰ}
use mathlib.Core.List.Memᴰ as MemD
use uni_core.Base.{
  ℕ, suc, ◌≤◌, ◌<◌, ◌≡◌, refl, ap, subst, ◌∙◌, ◌⊎◌, inl, inr, Bool, true, false, Option, none, some,
  List, ◌∷◌, nat_eq, arith, if◌then◌else◌,
}
use uni_core.Errors.{GoError}
use uni_core.Cache.RefreshAhead.Invalidation.{
  State, Phase, Channel, open_channel, closed_channel, absent, created, in_nil_send, in_send,
  received, cleared, refreshing, answered, invalidated, set, initial, move, is_waiting, refresh_of,
  Step, calls_first, joins, sends_nil, sends, panics, wakes, receives, clears, begins, answers,
  ticks, runs, ends, Steps, done, more,
}

-- A call came before the refresh that answers its request began.
pub record Inv (s : State) : Type 0 where
  pub known : (a r : ℕ) → Memᴰ (a, r) s.callers → (a ≤ s.begun) × (r < s.next_request)
  pub later : (a r k : ℕ) → Memᴰ (a, r) s.callers → refresh_of (s.phase r) ≡ some k → a < k
  pub held : (r : ℕ) → s.pending ≡ some r → (is_waiting (s.phase r) ≡ true) × (r < s.next_request)
  pub waits : (r : ℕ) → is_waiting (s.phase r) ≡ true → s.pending ≡ some r

pub initial-Inv : Inv initial
initial-Inv = record {
  known = λ a r m. absurd (MemD.not-nil m);
  later = λ a r k m. absurd (MemD.not-nil m);
  held = λ r h. ground (arith);
  waits = λ r h. ground (arith);
}

-- A fact about every phase after one has changed.
set-elim :
    (P : ℕ → Phase → Type 0) (r : ℕ) (p : Phase) (phase : ℕ → Phase)
    → P r p
    → ((q : ℕ) → nat_eq q r ≡ false → P q (phase q))
    → (q : ℕ) → P q (set r p phase q)
set-elim P r p phase here there q = by_test (nat_eq q r) refl
  where
    by_test : (b : Bool) → nat_eq q r ≡ b → P q (if b then p else phase q)
    by_test true e = subst (λ x. P x p) (ground (arith)) here
    by_test false e = there q e

caller-cases :
    (a q b r : ℕ) (callers : List (ℕ × ℕ))
    → Memᴰ (a, q) ((b, r) ∷ callers)
    → ((a ≡ b) × (q ≡ r)) ⊎ Memᴰ (a, q) callers
caller-cases a q b r callers (MemD.head e) = inl (ap (λ x. x.0) e, ap (λ x. x.1) e)
caller-cases a q b r callers (MemD.tail m) = inr m

-- A request that can be joined has no refresh yet.
waiting-unstarted : (p : Phase) → is_waiting p ≡ true → refresh_of p ≡ none
waiting-unstarted absent h = refl
waiting-unstarted created h = refl
waiting-unstarted in_nil_send h = refl
waiting-unstarted in_send h = refl
waiting-unstarted received h = refl
waiting-unstarted cleared h = refl
waiting-unstarted (refreshing k) h = ground (arith)
waiting-unstarted (answered k e) h = ground (arith)
waiting-unstarted invalidated h = refl

module _ (s : State) (v : Inv s) where
  -- The request keeps its place, and is no closer to a refresh.
  keeps-Inv :
      (r : ℕ) (p : Phase)
      → is_waiting (s.phase r) ≡ true
      → is_waiting p ≡ true
      → refresh_of p ≡ none
      → Inv (move r p s)
  keeps-Inv r p old new unstarted = record {
    known = v.known;
    later = λ a q k m.
        set-elim (λ q x. Memᴰ (a, q) s.callers → refresh_of x ≡ some k → a < k) r p s.phase
          (λ m' h. ground (arith)) (λ q e m' h. v.later a q k m' h) q m;
    held =
        set-elim (λ q x. s.pending ≡ some q → (is_waiting x ≡ true) × (q < s.next_request)) r p
          s.phase (λ h. (new, (v.held r h).1)) (λ q e h. v.held q h);
    waits =
        set-elim (λ q x. is_waiting x ≡ true → s.pending ≡ some q) r p s.phase (λ h. v.waits r old)
          (λ q e h. v.waits q h);
  }

  -- The request is not to be joined any more.
  leaves-Inv :
      (r : ℕ) (p : Phase)
      → is_waiting (s.phase r) ≡ true
      → is_waiting p ≡ false
      → refresh_of p ≡ none
      → Inv (record (move r p s) { pending = none })
  leaves-Inv r p old new unstarted = record {
    known = v.known;
    later = λ a q k m.
        set-elim (λ q x. Memᴰ (a, q) s.callers → refresh_of x ≡ some k → a < k) r p s.phase
          (λ m' h. ground (arith)) (λ q e m' h. v.later a q k m' h) q m;
    held = λ q h. ground (arith);
    waits =
        set-elim (λ q x. is_waiting x ≡ true → none ≡ some q) r p s.phase (λ h. ground (arith))
          (λ q e h. ground (arith, v.waits q h, v.waits r old));
  }

  begins-Inv :
      (r : ℕ)
      → s.phase r ≡ cleared
      → Inv (record (move r (refreshing (suc s.begun)) s) { begun = suc s.begun })
  begins-Inv r h = record {
    known = λ a q m. (omega (arith, (v.known a q m).0), (v.known a q m).1);
    later = λ a q k m.
        set-elim (λ q x. Memᴰ (a, q) s.callers → refresh_of x ≡ some k → a < k) r
          (refreshing (suc s.begun)) s.phase (λ m' g. ground (arith, (v.known a r m').0))
          (λ q e m' g. v.later a q k m' g) q m;
    held =
        set-elim (λ q x. s.pending ≡ some q → (is_waiting x ≡ true) × (q < s.next_request)) r
          (refreshing (suc s.begun)) s.phase
          (λ g. ground (arith, h, ap is_waiting h, (v.held r g).0)) (λ q e g. v.held q g);
    waits =
        set-elim (λ q x. is_waiting x ≡ true → s.pending ≡ some q) r (refreshing (suc s.begun))
          s.phase (λ g. ground (arith)) (λ q e g. v.waits q g);
  }

  answers-Inv :
      (r k : ℕ) (e : Option GoError) → s.phase r ≡ refreshing k → Inv (move r (answered k e) s)
  answers-Inv r k e h = record {
    known = v.known;
    later = λ a q j m.
        set-elim (λ q x. Memᴰ (a, q) s.callers → refresh_of x ≡ some j → a < j) r (answered k e)
          s.phase (λ m' g. v.later a r j m' (ap refresh_of h ∙ g)) (λ q e m' g. v.later a q j m' g)
          q m;
    held =
        set-elim (λ q x. s.pending ≡ some q → (is_waiting x ≡ true) × (q < s.next_request)) r
          (answered k e) s.phase (λ g. ground (arith, ap is_waiting h, (v.held r g).0))
          (λ q e g. v.held q g);
    waits =
        set-elim (λ q x. is_waiting x ≡ true → s.pending ≡ some q) r (answered k e) s.phase
          (λ g. ground (arith)) (λ q e g. v.waits q g);
  }

  calls_first-Inv :
      s.pending ≡ none
      → Inv (record s {
        pending = some s.next_request;
        phase = set s.next_request created s.phase;
        next_request = suc s.next_request;
        callers = (s.begun, s.next_request) ∷ s.callers;
      })
  calls_first-Inv h = record {
    known = λ a q m. elim (caller-cases a q s.begun s.next_request s.callers m) [
      | inl same ↦ (omega (arith, same.0), omega (arith, same.1))
      | inr old ↦ (omega (arith, (v.known a q old).0), omega (arith, (v.known a q old).1))
    ];
    later = λ a q k m.
        set-elim
          (λ q x.
            Memᴰ (a, q) ((s.begun, s.next_request) ∷ s.callers) → refresh_of x ≡ some k → a < k)
          s.next_request created s.phase (λ m' g. ground (arith))
          (λ q e m' g. elim (caller-cases a q s.begun s.next_request s.callers m') [
            | inl same ↦ ground (arith, same.1)
            | inr old ↦ v.later a q k old g
          ])
          q m;
    held =
        set-elim
          (λ q x. some s.next_request ≡ some q → (is_waiting x ≡ true) × (q < suc s.next_request))
          s.next_request created s.phase (λ g. (refl, omega arith)) (λ q e g. ground (arith));
    waits =
        set-elim (λ q x. is_waiting x ≡ true → some s.next_request ≡ some q) s.next_request created
          s.phase (λ g. refl) (λ q e g. ground (arith, v.waits q g));
  }

  joins-Inv : (r : ℕ) → s.pending ≡ some r → Inv (record s { callers = (s.begun, r) ∷ s.callers })
  joins-Inv r h = record {
    known = λ a q m. elim (caller-cases a q s.begun r s.callers m) [
      | inl same ↦ (omega (arith, same.0), omega (arith, same.1, (v.held r h).1))
      | inr old ↦ v.known a q old
    ];
    later = λ a q k m g. elim (caller-cases a q s.begun r s.callers m) [
      | inl same ↦ ground (
        arith,
        g,
        same.1,
        ap (λ x. refresh_of (s.phase x)) same.1,
        waiting-unstarted (s.phase r) (v.held r h).0,
      )
      | inr old ↦ v.later a q k old g
    ];
    held = v.held;
    waits = v.waits;
  }

  ticks-Inv : (c : Channel) → Inv (record s { channel = c; begun = suc s.begun })
  ticks-Inv c = record {
    known = λ a q m. (omega (arith, (v.known a q m).0), (v.known a q m).1);
    later = v.later;
    held = v.held;
    waits = v.waits;
  }

  ends-Inv : (c : Channel) → Inv (record s { channel = c })
  ends-Inv c = record { known = v.known; later = v.later; held = v.held; waits = v.waits }

pub step-Inv : (s t : State) → Step s t → Inv s → Inv t
step-Inv s _ (calls_first h) v = calls_first-Inv s v h
step-Inv s _ (joins r h) v = joins-Inv s v r h
step-Inv s _ (sends_nil r h c) v = keeps-Inv s v r in_nil_send (ap is_waiting h) refl refl
step-Inv s _ (sends r h c) v = keeps-Inv s v r in_send (ap is_waiting h) refl refl
step-Inv s _ (panics r h c) v = leaves-Inv s v r invalidated (ap is_waiting h) refl refl
step-Inv s _ (wakes r h c) v = leaves-Inv s v r invalidated (ap is_waiting h) refl refl
step-Inv s _ (receives r h c) v = keeps-Inv s v r received (ap is_waiting h) refl refl
step-Inv s _ (clears r h) v = leaves-Inv s v r cleared (ap is_waiting h) refl refl
step-Inv s _ (begins r h) v = begins-Inv s v r h
step-Inv s _ (answers r k e h) v = answers-Inv s v r k e h
step-Inv s _ ticks v = ticks-Inv s v s.channel
step-Inv s _ (runs h) v = ticks-Inv s v open_channel
step-Inv s _ (ends h) v = ends-Inv s v closed_channel

pub steps-Inv : (s t : State) → Steps s t → Inv s → Inv t
steps-Inv s _ (done _) v = v
steps-Inv s u (more _ t _ step rest) v = steps-Inv t u rest (step-Inv s t step v)

-- After any steps of the callers and the refresher from the start: if the request that a call of
-- Invalidate waits for was answered, the refresh that answered it began after the call was made.
pub invalidate-fresh :
    (s : State) (called request refresh : ℕ) (e : Option GoError)
    → Steps initial s
    → Memᴰ (called, request) s.callers
    → s.phase request ≡ answered refresh e
    → called < refresh
invalidate-fresh s called request refresh e steps m h =
    (steps-Inv initial s steps initial-Inv).later called request refresh m (ap refresh_of h)

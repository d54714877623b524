-- ===== src/Cache/RefreshAhead/Schedule/Visibility.antt =====
-- pkg/util/cache/refresh_ahead.go: how long a local write stays visible.
use uni_core.Base.{
  ℕ, ◌+◌, ◌<◌, String, ◌≡◌, ap, ◌∙◌, false, Option, none, some, List, ◌∷◌, Dict, lookup, length,
  lookup-insert_self, arith,
}
use uni_core.Errors.{ok}
use uni_core.Cache.RefreshAhead.{
  Cacheable, OverlayEntry, RefreshAheadCache, contents, epoch_mod, get, upsert, write_through,
}
use uni_core.Cache.RefreshAhead.Schedule.{Event, upserts, System, step, run, Flight, Inv}
use uni_core.Cache.RefreshAhead.Schedule.Write.{write_through-eq}
use uni_core.Cache.RefreshAhead.Schedule.Invariant.{step-Inv, run-Inv}
use uni_core.Cache.RefreshAhead.Schedule.Overlay.{Older, Undisturbed, overlay-run}

module _ {ℓ} {T : Type ℓ} where
  pub get-some :
      (c : RefreshAheadCache T) (k : String) (x : T)
      → lookup k (contents c.cache) ≡ some x
      → get c k ≡ ok (record { epoch = c.epoch; item = x })
  unfolding get lookup
  get-some c k x h = ground arith

module _ {ℓ} {T : Type ℓ} (i : Cacheable T) where
  upsert-written :
      (s : System T) (m : Dict T) (item : T)
      → s.c.cache ≡ some m
      → (step i s (upserts item)).c ≡ write_through i s.c m item
  unfolding step upsert
  upsert-written s m item e = ground arith

  Flight-Older :
      (f : Option ℕ) (s : System T) (e : OverlayEntry T)
      → Flight i f s.c
      → s.c.next_epoch < e.epoch
      → Older f e
  Flight-Older none s e h lt = tt
  Flight-Older (some r) s e h lt = omega (arith, h.0)

  -- After an upsert into a cache that has been refreshed, from a state with the invariant and
  -- while epochs do not wrap, and through any further schedule with no upsert of that key and no
  -- end of a refresh that started after the write, Get returns the written item under the current
  -- epoch; a refresh in flight at the write may end.
  pub read_your_writes :
      (s : System T) (m : Dict T) (item : T) (es : List (Event T))
      → s.c.cache ≡ some m
      → s.c.next_epoch + 1 + length es < epoch_mod
      → Inv i s
      → Undisturbed i (i.index item) false es
      → let t = run i s (upserts item ∷ es) in
        get t.c (i.index item) ≡ ok (record { epoch = t.c.epoch; item = item })
  unfolding run
  read_your_writes s m item es e h v u =
      let entry : OverlayEntry T = record { item = item; epoch = s.c.next_epoch + 1 } in
      let s' = step i s (upserts item) in
      let written = upsert-written s m item e ∙ write_through-eq i s.c m item (omega arith) in
      let v' = step-Inv i s (upserts item) (omega arith) v in
      let next : s'.c.next_epoch ≡ s.c.next_epoch + 1 = ap (λ c. c.next_epoch) written in
      let there : lookup (i.index item) s'.c.overlay ≡ some entry =
        rw written (lookup-insert_self (i.index item) entry s.c.overlay) in
      let older : Older s'.in_flight entry =
        unfold step in Flight-Older s.in_flight s entry v.flight (omega arith) in
      let kept =
        overlay-run i (i.index item) false s' es entry (omega (arith, next)) v' older u there in
      get-some _ (i.index item) item
        ((run-Inv i s' es (omega (arith, next)) v').visible (i.index item) entry kept)

-- ===== src/Cache/RefreshAhead/Schedule/Write.antt =====
-- pkg/util/cache/refresh_ahead.go: the invariant under a write.
use native.Mathlib.Nat.{mod-eq_of_lt}
use uni_core.Base.{
  ℕ, ◌+◌, ◌<◌, ◌≡◌, refl, inr, Option, none, some, Dict, insert, insert-IsMap, lookup-insert,
  lookup-insert_self, eq_iff, arith,
}
use uni_core.Cache.RefreshAhead.{
  Cacheable, OverlayEntry, RefreshAheadCache, epoch_mod, new_epoch, write_through,
}
use uni_core.Cache.RefreshAhead.Schedule.{System, Flight, Inv}

pub new_epoch-eq {ℓ} :
    {T : Type ℓ} (c : RefreshAheadCache T)
    → c.next_epoch + 1 < epoch_mod
    → new_epoch c ≡ (c.next_epoch + 1, record c { next_epoch = c.next_epoch + 1 })
unfolding new_epoch
new_epoch-eq c h = rw (mod-eq_of_lt h) refl

module _ {ℓ} {T : Type ℓ} (i : Cacheable T) where
  pub write_through-eq :
      (c : RefreshAheadCache T) (m : Dict T) (item : T)
      → c.next_epoch + 1 < epoch_mod
      → write_through i c m item ≡ record {
        next_epoch = c.next_epoch + 1;
        epoch = c.next_epoch + 1;
        cache = some (insert (i.index item) item m);
        overlay =
            insert (i.index item) (record { item = item; epoch = c.next_epoch + 1 }) c.overlay;
      }
  unfolding write_through
  write_through-eq c m item h = rw (mod-eq_of_lt h) refl

  module _ (item : T) where
    abbrev entry : ℕ → OverlayEntry T
    entry w = record { item = item; epoch = w }

    write-Flight :
        (f : Option ℕ) (c : RefreshAheadCache T) (m : Dict T)
        → Flight i f c
        → Flight i f (record {
          next_epoch = c.next_epoch + 1;
          epoch = c.next_epoch + 1;
          cache = some m;
          overlay = insert (i.index item) (entry (c.next_epoch + 1)) c.overlay;
        })
    write-Flight none c m h = tt
    write-Flight (some r) c m h = (
      omega (arith, h.0),
      inr (
        i.index item,
        entry (c.next_epoch + 1),
        lookup-insert_self (i.index item) _ c.overlay,
        omega (arith, h.0),
      ),
    )

    pub write_through-Inv :
        (s : System T) (m : Dict T)
        → s.c.cache ≡ some m
        → s.c.next_epoch + 1 < epoch_mod
        → Inv i s
        → Inv i (record s { c = write_through i s.c m item })
    write_through-Inv s m e h v =
        let key = i.index item in
        let new_entry = entry (s.c.next_epoch + 1) in
        rw (write_through-eq s.c m item h) (record {
          cache_map = insert-IsMap key item m (rw e at v.cache_map);
          overlay_map = insert-IsMap key _ s.c.overlay v.overlay_map;
          keyed = λ k x p. ground (arith, lookup-insert key k item m, eq_iff key k, v.keyed k x);
          visible = λ k x p. ground (
            arith,
            lookup-insert key k item m,
            lookup-insert key k new_entry s.c.overlay,
            v.visible k x,
          );
          written = λ k x p.
              ground (arith, lookup-insert key k new_entry s.c.overlay, v.written k x, v.allocated);
          allocated = omega arith;
          flight = write-Flight s.in_flight s.c (insert key item m) v.flight;
        })

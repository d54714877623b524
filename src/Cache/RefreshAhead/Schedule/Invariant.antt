-- ===== src/Cache/RefreshAhead/Schedule/Invariant.antt =====
-- pkg/util/cache/refresh_ahead.go: the invariant under each event and each schedule.
use native.Mathlib.Nat.{mod-eq_of_lt}
use uni_core.Base.{
  ℕ, ◌+◌, ◌≤◌, ◌<◌, ◌≡◌, refl, sym, subst, ap, ◌∙◌, ◌⊎◌, inl, inr, false, Option, none, some, List,
  [], ◌∷◌, Dict, has, length, lookup-nil, Option-cases, Bool-cases, arith,
}
use uni_core.Errors.{Result, ok, err}
use uni_core.Cache.RefreshAhead.{
  Cacheable, OverlayEntry, RefreshAheadCache, Fetch, returned, panicked, epoch_mod, new_epoch,
  write_through, insert_if_absent, upsert, build, install_built, refresh_start, refresh_finish,
}
use uni_core.Cache.RefreshAhead.Schedule.{
  Event, inserts, upserts, starts, finishes, System, start_of, step, run, Inv, begin, finish,
}
use uni_core.Cache.RefreshAhead.Schedule.Write.{write_through-eq, write_through-Inv}
use uni_core.Cache.RefreshAhead.Schedule.Install.{install-cases, refresh_finish-Inv}

module _ {ℓ} {T : Type ℓ} (i : Cacheable T) where
  pub insert_if_absent-cases :
      (c : RefreshAheadCache T) (item : T)
      → ((insert_if_absent i c item).1 ≡ c)
        ⊎ ((m : Dict T) × (c.cache ≡ some m)
            × (has (i.index item) m ≡ false)
            × ((insert_if_absent i c item).1 ≡ write_through i c m item))
  unfolding insert_if_absent
  insert_if_absent-cases c item = elim (Option-cases c.cache) [
    | inl e ↦ inl (ground arith)
    | inr (m, e) ↦ elim (Bool-cases (has (i.index item) m)) [
      | inl there ↦ inl (ground arith)
      | inr absent ↦ inr (m, e, absent, ground arith)
    ]
  ]

  pub upsert-cases :
      (c : RefreshAheadCache T) (item : T)
      → ((upsert i c item).1 ≡ c)
        ⊎ ((m : Dict T) × (c.cache ≡ some m) × ((upsert i c item).1 ≡ write_through i c m item))
  unfolding upsert
  upsert-cases c item = elim (Option-cases c.cache) [
    | inl e ↦ inl (ground arith)
    | inr (m, e) ↦ inr (m, e, ground arith)
  ]

  begin-Inv :
      (f : Option ℕ) (s : System T)
      → s.in_flight ≡ f
      → s.c.next_epoch + 1 < epoch_mod
      → Inv i s
      → Inv i (begin i f s)
  unfolding refresh_start new_epoch
  begin-Inv (some r) s e h v = v
  begin-Inv none s e h v = rw (mod-eq_of_lt h) (record {
    cache_map = v.cache_map;
    overlay_map = v.overlay_map;
    keyed = v.keyed;
    visible = v.visible;
    written = v.written;
    allocated = omega (arith, v.allocated);
    flight = (omega arith, inl (omega (arith, v.allocated)));
  })

  finish-Inv :
      (f : Option ℕ) (fetch : Fetch T) (s : System T)
      → s.in_flight ≡ f
      → s.c.next_epoch + 1 < epoch_mod
      → Inv i s
      → Inv i (finish i f fetch s)
  finish-Inv none fetch s e h v = v
  finish-Inv (some r) fetch s e h v = refresh_finish-Inv i r fetch s e h v

  pub step-Inv :
      (s : System T) (e : Event T) → s.c.next_epoch + 1 < epoch_mod → Inv i s → Inv i (step i s e)
  unfolding step
  step-Inv s (inserts item) h v = elim (insert_if_absent-cases s.c item) [
    | inl e ↦ subst (λ c. Inv i (record s { c = c })) (sym e) v
    | inr (m, e, absent, w) ↦
        subst (λ c. Inv i (record s { c = c })) (sym w) (write_through-Inv i item s m e h v)
  ]
  step-Inv s (upserts item) h v = elim (upsert-cases s.c item) [
    | inl e ↦ subst (λ c. Inv i (record s { c = c })) (sym e) v
    | inr (m, e, w) ↦
        subst (λ c. Inv i (record s { c = c })) (sym w) (write_through-Inv i item s m e h v)
  ]
  step-Inv s starts h v = begin-Inv s.in_flight s refl h v
  step-Inv s (finishes fetch) h v = finish-Inv s.in_flight fetch s refl h v

  finish-next :
      (r : ℕ) (fetch : Fetch T) (c : RefreshAheadCache T)
      → c.next_epoch + 1 < epoch_mod
      → (refresh_finish i r fetch c).1.next_epoch ≤ c.next_epoch + 1
  unfolding refresh_finish
  finish-next r (returned (ok items)) c h = go (build i items [])
    where
      go : (b : Result (Dict T)) → (install_built i r c b).1.next_epoch ≤ c.next_epoch + 1
      go (err e) = omega arith
      go (ok m) = elim (install-cases i r m c h) [
        | inl x ↦ omega (arith, ap (λ c'. c'.next_epoch) x.1)
        | inr (inl x) ↦ omega (arith, ap (λ c'. c'.next_epoch) x.1)
        | inr (inr x) ↦ omega (arith, ap (λ c'. c'.next_epoch) x)
      ]
  finish-next r (returned (err e)) c h = omega arith
  finish-next r panicked c h = omega arith

  begin-next :
      (f : Option ℕ) (s : System T)
      → s.c.next_epoch + 1 < epoch_mod
      → (begin i f s).c.next_epoch ≤ s.c.next_epoch + 1
  unfolding refresh_start new_epoch
  begin-next none s h = rw (mod-eq_of_lt h) (omega arith)
  begin-next (some r) s h = omega arith

  finish_system-next :
      (f : Option ℕ) (fetch : Fetch T) (s : System T)
      → s.c.next_epoch + 1 < epoch_mod
      → (finish i f fetch s).c.next_epoch ≤ s.c.next_epoch + 1
  finish_system-next none fetch s h = omega arith
  finish_system-next (some r) fetch s h = finish-next r fetch s.c h

  -- An event allocates one epoch at most.
  pub step-next :
      (s : System T) (e : Event T)
      → s.c.next_epoch + 1 < epoch_mod
      → (step i s e).c.next_epoch ≤ s.c.next_epoch + 1
  unfolding step
  step-next s (inserts item) h = elim (insert_if_absent-cases s.c item) [
    | inl e ↦ omega (arith, ap (λ c. c.next_epoch) e)
    | inr (m, e, absent, w) ↦
        omega (arith, ap (λ c. c.next_epoch) (w ∙ write_through-eq i s.c m item h))
  ]
  step-next s (upserts item) h = elim (upsert-cases s.c item) [
    | inl e ↦ omega (arith, ap (λ c. c.next_epoch) e)
    | inr (m, e, w) ↦ omega (arith, ap (λ c. c.next_epoch) (w ∙ write_through-eq i s.c m item h))
  ]
  step-next s starts h = begin-next s.in_flight s h
  step-next s (finishes fetch) h = finish_system-next s.in_flight fetch s h

  start-Inv : Inv i start_of
  start-Inv = record {
    cache_map = tt;
    overlay_map = tt;
    keyed = λ k v p. cc (lookup-nil {V = T} k);
    visible = λ k e p. cc (lookup-nil {V = OverlayEntry T} k);
    written = λ k e p. cc (lookup-nil {V = OverlayEntry T} k);
    allocated = omega arith;
    flight = tt;
  }

  pub run-Inv :
      (s : System T) (es : List (Event T))
      → s.c.next_epoch + length es < epoch_mod
      → Inv i s
      → Inv i (run i s es)
  unfolding run
  run-Inv s [] h v = v
  run-Inv s (e ∷ es) h v =
      run-Inv (step i s e) es (omega (arith, step-next s e (omega arith)))
        (step-Inv s e (omega arith) v)

  -- After any schedule from the empty cache that allocates fewer than 2^64 epochs, the tables have
  -- one entry per key, every item stands at its own index, every overlay entry is the item that
  -- readers see, no epoch is above the last one allocated, and a refresh in flight is newer than
  -- what readers see unless the overlay still has a write that came after its start.
  pub run_start-Inv : (es : List (Event T)) → length es < epoch_mod → Inv i (run i start_of es)
  run_start-Inv es h = run-Inv start_of es (omega arith) start-Inv

-- ===== src/Cache/RefreshAhead/Schedule/Snapshots.antt =====
-- pkg/util/cache/refresh_ahead.go: what an epoch says of the snapshot that readers see.
use uni_core.Base.{
  ℕ, ◌+◌, ◌≤◌, ◌<◌, String, ◌≡◌, refl, sym, ap, subst, ◌∙◌, ◌⊎◌, inl, inr, true, Option, none, some,
  List, [], ◌∷◌, Dict, lookup, IsMap, length, lookup-nil, arith,
}
use uni_core.Errors.{Result, ok, err}
use uni_core.Cache.RefreshAhead.{
  Cacheable, OverlayEntry, RefreshAheadCache, Fetch, returned, panicked, contents, epoch_mod, valid,
  new_epoch, write_through, build, install, install_built, merge_overlay, refresh_start,
  refresh_finish,
}
use uni_core.Cache.RefreshAhead.Maps.{
  SameAt, Same, map_equal_iff, lookup-merge_overlay, merge_overlay-IsMap,
}
use uni_core.Cache.RefreshAhead.Schedule.{
  Event, inserts, upserts, starts, finishes, System, step, run, Flight, Inv, begin, finish,
}
use uni_core.Cache.RefreshAhead.Schedule.Write.{write_through-eq}
use uni_core.Cache.RefreshAhead.Schedule.Install.{Keyed, install-cases, build-from_empty}
use uni_core.Cache.RefreshAhead.Schedule.Invariant.{
  insert_if_absent-cases, upsert-cases, step-Inv, step-next,
}

-- The items' comparison is an equivalence.
pub record IsEquivalence {ℓ} {T : Type ℓ} (i : Cacheable T) : Type ℓ where
  pub reflexive : (a : T) → i.equal a a ≡ true
  pub symmetric : (a b : T) → i.equal a b ≡ true → i.equal b a ≡ true
  pub transitive : (a b c : T) → i.equal a b ≡ true → i.equal b c ≡ true → i.equal a c ≡ true

module _ {ℓ} {T : Type ℓ} (i : Cacheable T) (q : IsEquivalence i) where
  SameAt-refl : (a : Option T) → SameAt i a a
  SameAt-refl none = tt
  SameAt-refl (some v) = q.reflexive v

  SameAt-symm : (a b : Option T) → SameAt i a b → SameAt i b a
  SameAt-symm none none h = tt
  SameAt-symm none (some w) h = h
  SameAt-symm (some v) none h = h
  SameAt-symm (some v) (some w) h = q.symmetric v w h

  SameAt-trans : (a b c : Option T) → SameAt i a b → SameAt i b c → SameAt i a c
  SameAt-trans none none c h k = k
  SameAt-trans none (some w) c h k = absurd h
  SameAt-trans (some v) none c h k = absurd h
  SameAt-trans (some v) (some w) none h k = k
  SameAt-trans (some v) (some w) (some x) h k = q.transitive v w x h k

  -- Either the epoch stays and the snapshot is the same, or the epoch grows.
  abbrev Advances : RefreshAheadCache T → RefreshAheadCache T → Type 0
  Advances c d =
      ((d.epoch ≡ c.epoch) × Same i (contents c.cache) (contents d.cache)) ⊎ (c.epoch < d.epoch)

  Advances-refl : (c : RefreshAheadCache T) → Advances c c
  Advances-refl c = inl (refl, λ k. SameAt-refl (lookup k (contents c.cache)))

  Advances-trans : (a b c : RefreshAheadCache T) → Advances a b → Advances b c → Advances a c
  Advances-trans a b c (inl x) (inl y) = inl (y.0 ∙ x.0, λ k. SameAt-trans _ _ _ (x.1 k) (y.1 k))
  Advances-trans a b c (inl x) (inr y) = inr (omega (arith, x.0))
  Advances-trans a b c (inr x) (inl y) = inr (omega (arith, y.0))
  Advances-trans a b c (inr x) (inr y) = inr (omega arith)

  write_through-Advances :
      (s : System T) (m : Dict T) (item : T)
      → s.c.next_epoch + 1 < epoch_mod
      → Inv i s
      → Advances s.c (write_through i s.c m item)
  write_through-Advances s m item h v =
      inr (omega (arith, ap (λ c. c.epoch) (write_through-eq i s.c m item h), v.allocated))

  -- With no overlay left after the merge, the snapshot is older than the refresh.
  newer_than :
      (r : ℕ) (m : Dict T) (s : System T)
      → (merge_overlay r m s.c.overlay).1 ≡ []
      → Inv i s
      → (s.c.epoch < r)
        ⊎ ((k : String) × (e : OverlayEntry T) × (lookup k s.c.overlay ≡ some e) × (r < e.epoch))
      → s.c.epoch < r
  newer_than r m s gone v (inl lt) = lt
  newer_than r m s gone v (inr (k, e, p, lt)) = ground (
    arith,
    lookup-merge_overlay r m s.c.overlay k v.overlay_map,
    lookup-nil {V = OverlayEntry T} k,
    ap (lookup k) gone,
  )

  install-Advances :
      (r : ℕ) (m : Dict T) (s : System T)
      → IsMap m
      → Flight i (some r) s.c
      → s.c.next_epoch + 1 < epoch_mod
      → Inv i s
      → Advances s.c (install i r m s.c)
  install-Advances r m s hm f h v = elim (install-cases i r m s.c h) [
    | inl (same, e) ↦ subst (Advances s.c) (sym e) (
        inl (
          refl,
          λ k. SameAt-symm _ _ (
              (map_equal_iff i _ _ (merge_overlay-IsMap r m s.c.overlay hm).0 v.cache_map).0 same
                k),
        ))
    | inr (inl (gone, e)) ↦ subst (Advances s.c) (sym e) (inr (newer_than r m s gone v f.1))
    | inr (inr e) ↦ subst (Advances s.c) (sym e) (inr (omega (arith, v.allocated)))
  ]

  install_built-Advances :
      (r : ℕ) (b : Result (Dict T)) (s : System T)
      → ((m : Dict T) → b ≡ ok m → IsMap m × Keyed i m)
      → Flight i (some r) s.c
      → s.c.next_epoch + 1 < epoch_mod
      → Inv i s
      → Advances s.c (install_built i r s.c b).1
  install_built-Advances r (ok m) s g f h v = install-Advances r m s (g m refl).0 f h v
  install_built-Advances r (err e) s g f h v = Advances-refl s.c

  finish-Advances :
      (f : Option ℕ) (fetch : Fetch T) (s : System T)
      → Flight i f s.c
      → s.c.next_epoch + 1 < epoch_mod
      → Inv i s
      → Advances s.c (finish i f fetch s).c
  unfolding refresh_finish
  finish-Advances none fetch s f h v = Advances-refl s.c
  finish-Advances (some r) (returned (ok items)) s f h v =
      install_built-Advances r (build i items []) s (build-from_empty i items) f h v
  finish-Advances (some r) (returned (err e)) s f h v = Advances-refl s.c
  finish-Advances (some r) panicked s f h v = Advances-refl s.c

  begin-Advances : (f : Option ℕ) (s : System T) → Advances s.c (begin i f s).c
  unfolding refresh_start new_epoch
  begin-Advances none s = Advances-refl s.c
  begin-Advances (some r) s = Advances-refl s.c

  step-Advances :
      (s : System T) (e : Event T)
      → s.c.next_epoch + 1 < epoch_mod
      → Inv i s
      → Advances s.c (step i s e).c
  unfolding step
  step-Advances s (inserts item) h v = elim (insert_if_absent-cases i s.c item) [
    | inl e ↦ subst (Advances s.c) (sym e) (Advances-refl s.c)
    | inr (m, e, absent, w) ↦ subst (Advances s.c) (sym w) (write_through-Advances s m item h v)
  ]
  step-Advances s (upserts item) h v = elim (upsert-cases i s.c item) [
    | inl e ↦ subst (Advances s.c) (sym e) (Advances-refl s.c)
    | inr (m, e, w) ↦ subst (Advances s.c) (sym w) (write_through-Advances s m item h v)
  ]
  step-Advances s starts h v = begin-Advances s.in_flight s
  step-Advances s (finishes fetch) h v = finish-Advances s.in_flight fetch s v.flight h v

  run-Advances :
      (s : System T) (es : List (Event T))
      → s.c.next_epoch + length es < epoch_mod
      → Inv i s
      → Advances s.c (run i s es).c
  unfolding run
  run-Advances s [] h v = Advances-refl s.c
  run-Advances s (e ∷ es) h v =
      Advances-trans s.c (step i s e).c (run i (step i s e) es).c
        (step-Advances s e (omega arith) v)
        (run-Advances (step i s e) es (omega (arith, step-next i s e (omega arith)))
          (step-Inv i s e (omega arith) v))

  -- From a state with the invariant and while epochs do not wrap, an epoch that is still valid
  -- after any schedule means that readers see the same keys with equal items, if the comparison of
  -- items is an equivalence.
  pub valid_epoch :
      (s : System T) (es : List (Event T))
      → s.c.next_epoch + length es < epoch_mod
      → Inv i s
      → valid (run i s es).c.epoch s.c.epoch ≡ true
      → Same i (contents s.c.cache) (contents (run i s es).c.cache)
  valid_epoch s es h v e = elim (run-Advances s es h v) [
    | inl x ↦ x.1
    | inr lt ↦ absurd (ground arith)
  ]

  -- From a state with the invariant and while epochs do not wrap, no schedule takes the visible
  -- epoch back, if the comparison of items is an equivalence.
  epoch_monotone :
      (s : System T) (es : List (Event T))
      → s.c.next_epoch + length es < epoch_mod
      → Inv i s
      → s.c.epoch ≤ (run i s es).c.epoch
  epoch_monotone s es h v = elim (run-Advances s es h v) [
    | inl x ↦ omega (arith, x.0)
    | inr lt ↦ omega arith
  ]

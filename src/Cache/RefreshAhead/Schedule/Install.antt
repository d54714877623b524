-- ===== src/Cache/RefreshAhead/Schedule/Install.antt =====
-- pkg/util/cache/refresh_ahead.go: the invariant under the end of a refresh.
use native.Mathlib.Nat.{mod-eq_of_lt}
use uni_core.Base.{
  ℕ, ◌+◌, ◌≤◌, ◌<◌, String, ◌≡◌, refl, sym, subst, ◌∙◌, ◌⊎◌, inl, inr, true, Option, none, some,
  List, [], ◌∷◌, Dict, lookup, insert, IsMap, is_empty, insert-IsMap, lookup-insert, lookup-nil,
  eq_iff, Bool-cases, arith,
}
use uni_core.Errors.{Result, ok, err}
use uni_core.Cache.RefreshAhead.{
  Cacheable, OverlayEntry, RefreshAheadCache, Fetch, returned, panicked, contents, epoch_mod, build,
  install, install_built, merge_overlay, merge_and_prune_overlay_locked, map_equal, refresh_finish,
}
use uni_core.Cache.RefreshAhead.Maps.{newer, shown, lookup-merge_overlay, merge_overlay-IsMap}
use uni_core.Cache.RefreshAhead.Schedule.{System, Flight, Inv}

nil-of_is_empty {ℓ} : {A : Type ℓ} (xs : List A) → is_empty xs ≡ true → xs ≡ []
nil-of_is_empty [] h = refl
nil-of_is_empty (x ∷ xs) h = cc

module _ {ℓ} {T : Type ℓ} (i : Cacheable T) where
  build-IsMap : (ts : List T) (m m' : Dict T) → build i ts m ≡ ok m' → IsMap m → IsMap m'
  unfolding build
  build-IsMap [] m m' e h = ground arith
  build-IsMap (t ∷ ts) m m' e h =
      build-IsMap ts (insert (i.index t) t m) m' (ground arith) (insert-IsMap (i.index t) t m h)

  -- Each item stands at its own index.
  abbrev pub Keyed : Dict T → Type ℓ
  Keyed m = (k : String) (v : T) → lookup k m ≡ some v → i.index v ≡ k

  build-Keyed : (ts : List T) (m m' : Dict T) → build i ts m ≡ ok m' → Keyed m → Keyed m'
  unfolding build
  build-Keyed [] m m' e h = λ k v p. ground (arith, h k v)
  build-Keyed (t ∷ ts) m m' e h =
      build-Keyed ts (insert (i.index t) t m) m' (ground arith)
        (λ k v p. ground (arith, lookup-insert (i.index t) k t m, eq_iff (i.index t) k, h k v))

  prune-at :
      (n ep r : ℕ) (ca : Option (Dict T)) (o : Dict (OverlayEntry T)) (m : Dict T)
      → let c : RefreshAheadCache T = record {
        next_epoch = n;
        epoch = ep;
        cache = ca;
        overlay = o;
      } in
        merge_and_prune_overlay_locked c m r
        ≡ ((merge_overlay r m o).0, record c { overlay = (merge_overlay r m o).1 })
  unfolding merge_and_prune_overlay_locked
  prune-at n ep r ca [] m = refl
  prune-at n ep r ca (e ∷ o) m = refl

  -- Pruning is the merge, also where the overlay is empty and the code returns early.
  pub prune-eq :
      (c : RefreshAheadCache T) (m : Dict T) (r : ℕ)
      → merge_and_prune_overlay_locked c m r
        ≡ ((merge_overlay r m c.overlay).0, record c { overlay = (merge_overlay r m c.overlay).1 })
  prune-eq c m r = prune-at c.next_epoch c.epoch r c.cache c.overlay m

  -- The cache after a refresh is installed, under an epoch and with a next epoch that are to be
  -- determined.
  abbrev pub installed : ℕ → Dict T → RefreshAheadCache T → ℕ → ℕ → RefreshAheadCache T
  installed r m c ep nx = record {
    next_epoch = nx;
    epoch = ep;
    cache = some (merge_overlay r m c.overlay).0;
    overlay = (merge_overlay r m c.overlay).1;
  }

  -- The three ways in which a refresh is installed.
  pub install-cases :
      (r : ℕ) (m : Dict T) (c : RefreshAheadCache T)
      → c.next_epoch + 1 < epoch_mod
      → ((map_equal i (merge_overlay r m c.overlay).0 (contents c.cache) ≡ true)
          × (install i r m c ≡ installed r m c c.epoch c.next_epoch))
        ⊎ (((merge_overlay r m c.overlay).1 ≡ [])
            × (install i r m c ≡ installed r m c r c.next_epoch))
        ⊎ (install i r m c ≡ installed r m c (c.next_epoch + 1) (c.next_epoch + 1))
  unfolding install
  install-cases r m c h =
      let effective = (merge_overlay r m c.overlay).0 in
      let overlay = (merge_overlay r m c.overlay).1 in
      elim (Bool-cases (map_equal i effective (contents c.cache))) [
        | inl same ↦ inl (same, rw (prune-eq c m r, same) refl)
        | inr differs ↦ elim (Bool-cases (is_empty overlay)) [
          | inl e ↦ inr (inl (nil-of_is_empty overlay e, rw (prune-eq c m r, differs, e) refl))
          | inr e ↦ inr (inr (rw (prune-eq c m r, differs, e, mod-eq_of_lt h) refl))
        ]
      ]

  shown-Keyed :
      (r : ℕ) (k : String) (x : T) (o : Option (OverlayEntry T)) (b : Option T)
      → ((e : OverlayEntry T) → o ≡ some e → i.index e.item ≡ k)
      → (b ≡ some x → i.index x ≡ k)
      → shown r o b ≡ some x
      → i.index x ≡ k
  shown-Keyed r k x none b f g h = g h
  shown-Keyed r k x (some e) b f g h = ground (arith, f e refl, g)

  pub newer-some :
      {r : ℕ} (o : Option (OverlayEntry T)) (e : OverlayEntry T)
      → newer r o ≡ some e
      → (o ≡ some e) × (r < e.epoch)
  newer-some none e h = cc
  newer-some (some x) e h = ground arith

  -- What the merge leaves is well formed, and its entries are newer than the refresh.
  installed-Inv :
      (r : ℕ) (m : Dict T) (s : System T) (ep nx : ℕ)
      → IsMap m
      → Keyed m
      → Inv i s
      → ((k : String) (e : OverlayEntry T)
          → lookup k (merge_overlay r m s.c.overlay).1 ≡ some e
          → e.epoch ≤ ep)
      → ep ≤ nx
      → Inv i (record { c = installed r m s.c ep nx; in_flight = none })
  installed-Inv r m s ep nx hm hk v he hn =
      let maps = merge_overlay-IsMap r m s.c.overlay hm in
      let at = λ (k : String). lookup-merge_overlay r m s.c.overlay k v.overlay_map in
      record {
        cache_map = maps.0;
        overlay_map = maps.1;
        keyed = λ k x p.
            shown-Keyed r k x (lookup k s.c.overlay) (lookup k m)
              (λ e q. v.keyed k e.item (v.visible k e q)) (hk k x) (sym (at k).1 ∙ p);
        visible = λ k x p. ground (arith, at k, v.visible k x);
        written = he;
        allocated = hn;
        flight = tt;
      }

  install-Inv :
      (r : ℕ) (m : Dict T) (s : System T)
      → IsMap m
      → Keyed m
      → r ≤ s.c.next_epoch
      → s.c.next_epoch + 1 < epoch_mod
      → Inv i s
      → Inv i (record { c = install i r m s.c; in_flight = none })
  install-Inv r m s hm hk hr h v =
      let at = λ (k : String). lookup-merge_overlay r m s.c.overlay k v.overlay_map in
      let kept =
        λ (k : String) (e : OverlayEntry T)
            (p : lookup k (merge_overlay r m s.c.overlay).1 ≡ some e).
          v.written k e (newer-some (lookup k s.c.overlay) e (sym (at k).0 ∙ p)).0 in
      elim (install-cases r m s.c h) [
        | inl (same, e) ↦
            rw e (installed-Inv r m s s.c.epoch s.c.next_epoch hm hk v kept v.allocated)
        | inr (inl (gone, e)) ↦ rw e (
            installed-Inv r m s r s.c.next_epoch hm hk v
              (λ k x p.
                cc (lookup-nil {V = OverlayEntry T} k, subst (λ o. lookup k o ≡ some x) gone p))
              hr)
        | inr (inr e) ↦ rw e (
            installed-Inv r m s (s.c.next_epoch + 1) (s.c.next_epoch + 1) hm hk v
              (λ k x p. omega (arith, kept k x p, v.allocated)) (omega arith))
      ]

  -- A refresh that fails or panics leaves the cache as it is.
  give_up-Inv : (s : System T) → Inv i s → Inv i (record s { in_flight = none })
  give_up-Inv s v = record {
    cache_map = v.cache_map;
    overlay_map = v.overlay_map;
    keyed = v.keyed;
    visible = v.visible;
    written = v.written;
    allocated = v.allocated;
    flight = tt;
  }

  Flight-le :
      (r : ℕ) (f : Option ℕ) (c : RefreshAheadCache T)
      → f ≡ some r
      → Flight i f c
      → r ≤ c.next_epoch
  Flight-le r none c e h = cc
  Flight-le r (some x) c e h = ground (arith, h.0)

  install_built-Inv :
      (r : ℕ) (b : Result (Dict T)) (s : System T)
      → ((m : Dict T) → b ≡ ok m → IsMap m × Keyed m)
      → r ≤ s.c.next_epoch
      → s.c.next_epoch + 1 < epoch_mod
      → Inv i s
      → Inv i (record { c = (install_built i r s.c b).1; in_flight = none })
  install_built-Inv r (ok m) s f hr h v = install-Inv r m s (f m refl).0 (f m refl).1 hr h v
  install_built-Inv r (err x) s f hr h v = give_up-Inv s v

  pub build-from_empty : (ts : List T) (m : Dict T) → build i ts [] ≡ ok m → IsMap m × Keyed m
  build-from_empty ts m e =
      (build-IsMap ts [] m e tt, build-Keyed ts [] m e (λ k v p. cc (lookup-nil {V = T} k)))

  pub refresh_finish-Inv :
      (r : ℕ) (fetch : Fetch T) (s : System T)
      → s.in_flight ≡ some r
      → s.c.next_epoch + 1 < epoch_mod
      → Inv i s
      → Inv i (record { c = (refresh_finish i r fetch s.c).1; in_flight = none })
  unfolding refresh_finish
  refresh_finish-Inv r (returned (ok items)) s e h v =
      install_built-Inv r (build i items []) s (build-from_empty items)
        (Flight-le r s.in_flight s.c e v.flight) h v
  refresh_finish-Inv r (returned (err x)) s e h v = give_up-Inv s v
  refresh_finish-Inv r panicked s e h v = give_up-Inv s v

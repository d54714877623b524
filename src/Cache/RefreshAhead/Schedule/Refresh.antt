-- ===== src/Cache/RefreshAhead/Schedule/Refresh.antt =====
-- What readers see after a refresh, and what a refresh that fails leaves.
use native.Mathlib.Nat.{mod-eq_of_lt}
use uni_core.Base.{
  ℕ, ◌+◌, ◌<◌, String, ◌≡◌, refl, ap, subst, ◌∙◌, inl, inr, true, Option, none, some, List, [], ◌∷◌,
  Dict, lookup, lookup-nil, arith,
}
use uni_core.Errors.{GoError, Result, ok, err, is_error, cache_conflict}
use uni_core.Cache.RefreshAhead.{
  Cacheable, OverlayEntry, RefreshAheadCache, returned, contents, epoch_mod, build, install,
  install_built, merge_overlay, refresh_start, refresh_finish, new_epoch,
}
use uni_core.Cache.RefreshAhead.Maps.{newer, shown, lookup-merge_overlay}
use uni_core.Cache.RefreshAhead.Schedule.{starts, finishes, System, step, run, Inv, finish}
use uni_core.Cache.RefreshAhead.Schedule.Install.{install-cases}
use uni_core.Cache.RefreshAhead.Schedule.Invariant.{step-Inv}
use uni_core.Cache.RefreshAhead.Build.{
  item_at, or_else, Distinct, build-lookup, build-Distinct, build-total, build-conflict,
}

module _ {ℓ} {T : Type ℓ} (i : Cacheable T) where
  install-tables :
      (r : ℕ) (m : Dict T) (c : RefreshAheadCache T)
      → c.next_epoch + 1 < epoch_mod
      → (contents (install i r m c).cache ≡ (merge_overlay r m c.overlay).0)
        × ((install i r m c).overlay ≡ (merge_overlay r m c.overlay).1)
  install-tables r m c h = elim (install-cases i r m c h) [
    | inl x ↦ (ap (λ d. contents d.cache) x.1, ap (λ d. d.overlay) x.1)
    | inr (inl x) ↦ (ap (λ d. contents d.cache) x.1, ap (λ d. d.overlay) x.1)
    | inr (inr x) ↦ (ap (λ d. contents d.cache) x, ap (λ d. d.overlay) x)
  ]

  finish-install :
      (f : Option ℕ) (r : ℕ) (items : List T) (m : Dict T) (s : System T)
      → f ≡ some r
      → build i items [] ≡ ok m
      → finish i f (returned (ok items)) s ≡ record { c = install i r m s.c; in_flight = none }
  unfolding refresh_finish
  finish-install f r items m s e b = rw (e, b) refl

  -- From a state with the invariant and while epochs do not wrap: when a refresh that started at
  -- epoch r ends with items of distinct indexes, readers see at each key the overlay item if it
  -- was written after the start and else the fetched one, the overlay keeps just the later
  -- entries, and no refresh is in flight any more.
  pub refresh_result :
      (s : System T) (r : ℕ) (items : List T)
      → s.in_flight ≡ some r
      → s.c.next_epoch + 1 < epoch_mod
      → Inv i s
      → Distinct i items
      → let t = step i s (finishes (returned (ok items))) in
        ((k : String)
          → (lookup k (contents t.c.cache) ≡ shown r (lookup k s.c.overlay) (item_at i k items))
            × (lookup k t.c.overlay ≡ newer r (lookup k s.c.overlay)))
        × (t.in_flight ≡ none)
  unfolding step
  refresh_result s r items f h v d =
      let (m, b) = build-total i items [] d (λ k p. ground (arith, lookup-nil {V = T} k)) in
      let tables = install-tables r m s.c h in
      let at = λ (k : String). lookup-merge_overlay r m s.c.overlay k v.overlay_map in
      let fetched : (k : String) → lookup k m ≡ item_at i k items = λ k.
        build-lookup i items [] m k b
        ∙ ap (λ o. or_else o (item_at i k items)) (lookup-nil {V = T} k) in
      rw (finish-install s.in_flight r items m s f b) (
        (λ k. (
          ap (lookup k) tables.0 ∙ (at k).1 ∙ ap (shown r (lookup k s.c.overlay)) (fetched k),
          ap (lookup k) tables.1 ∙ (at k).0,
        )),
        refl,
      )

  step-starts :
      (s : System T)
      → s.in_flight ≡ none
      → s.c.next_epoch + 1 < epoch_mod
      → step i s starts ≡ record {
        c = record s.c { next_epoch = s.c.next_epoch + 1 };
        in_flight = some (s.c.next_epoch + 1);
      }
  unfolding step refresh_start new_epoch
  step-starts s f h = rw (f, mod-eq_of_lt h) refl

  old-yields :
      (r : ℕ) (o : Option (OverlayEntry T)) (b : Option T)
      → ((e : OverlayEntry T) → o ≡ some e → e.epoch < r)
      → (newer r o ≡ none) × (shown r o b ≡ b)
  old-yields r none b h = (refl, refl)
  old-yields r (some e) b h = ground (arith, h e refl)

  -- From a state with the invariant, with no refresh in flight and while epochs do not wrap, a
  -- refresh of items of distinct indexes during which nothing is written makes the backend
  -- authoritative: readers see just the fetched items and the overlay is empty.
  pub refresh_authoritative :
      (s : System T) (items : List T) (k : String)
      → s.in_flight ≡ none
      → s.c.next_epoch + 2 < epoch_mod
      → Inv i s
      → Distinct i items
      → let t = run i s (starts ∷ finishes (returned (ok items)) ∷ []) in
        (lookup k (contents t.c.cache) ≡ item_at i k items) × (lookup k t.c.overlay ≡ none)
  unfolding run
  refresh_authoritative s items k f h v d =
      let r = s.c.next_epoch + 1 in
      let begun : System T = record { c = record s.c { next_epoch = r }; in_flight = some r } in
      let e = step-starts s f (omega arith) in
      let v' : Inv i begun = subst (Inv i) e (step-Inv i s starts (omega arith) v) in
      let result = (refresh_result begun r items refl (omega arith) v' d).0 k in
      let old : (x : OverlayEntry T) → lookup k s.c.overlay ≡ some x → x.epoch < r =
        λ x p. omega (arith, v.written k x p, v.allocated) in
      let yields = old-yields r (lookup k s.c.overlay) (item_at i k items) old in
      rw e (result.0 ∙ yields.1, result.1 ∙ yields.0)

  -- Fetched items of which two have one index make the refresh fail with ErrConflict and leave the
  -- cache as it is.
  pub refresh_conflict :
      (r : ℕ) (c : RefreshAheadCache T) (items : List T)
      → ¬ Distinct i items
      → (e : GoError) × (refresh_finish i r (returned (ok items)) c ≡ (some e, c))
        × (is_error e cache_conflict ≡ true)
  unfolding refresh_finish
  refresh_conflict r c items h = go (build i items []) refl
    where
      go :
          (b : Result (Dict T))
          → build i items [] ≡ b
          → (e : GoError) × (install_built i r c b ≡ (some e, c))
            × (is_error e cache_conflict ≡ true)
      go (ok m) e = absurd (h (build-Distinct i items [] m e))
      go (err x) e = (x, refl, build-conflict i items [] x e)

-- ===== src/Cache/RefreshAhead/Schedule/Overlay.antt =====
-- pkg/util/cache/refresh_ahead.go: how long an entry stays in the overlay.
use uni_core.Base.{
  ℕ, ◌+◌, ◌<◌, String, ◌≡◌, refl, sym, ◌∙◌, inl, inr, Bool, true, false, false≢true, Option, none,
  some, List, [], ◌∷◌, Dict, lookup, length, lookup-insert_ne, eq_iff, ◌==◌, arith,
}
use uni_core.Errors.{Result, ok, err}
use uni_core.Cache.RefreshAhead.{
  Cacheable, OverlayEntry, Fetch, returned, panicked, epoch_mod, write_through, build, install,
  install_built, merge_overlay, refresh_start, refresh_finish,
}
use uni_core.Cache.RefreshAhead.Maps.{lookup-merge_overlay}
use uni_core.Cache.RefreshAhead.Schedule.{
  Event, inserts, upserts, starts, finishes, System, step, run, Inv, begin, finish,
}
use uni_core.Cache.RefreshAhead.Schedule.Write.{write_through-eq}
use uni_core.Cache.RefreshAhead.Schedule.Install.{install-cases}
use uni_core.Cache.RefreshAhead.Schedule.Invariant.{
  insert_if_absent-cases, upsert-cases, step-Inv, step-next,
}

module _ {ℓ} {T : Type ℓ} where
  -- A refresh in flight is older than the entry.
  abbrev pub Older : Option ℕ → OverlayEntry T → Type 0
  Older none e = Unit
  Older (some r) e = r < e.epoch

module _ {ℓ} {T : Type ℓ} (i : Cacheable T) (k : String) where
  -- No upsert of the key `k`, and no end of a refresh after a `starts`. `started` says whether one has
  -- been seen.
  abbrev pub Undisturbed : Bool → List (Event T) → Type 0
  Undisturbed started [] = Unit
  Undisturbed started (inserts item ∷ es) = Undisturbed started es
  Undisturbed started (upserts item ∷ es) = ((i.index item == k) ≡ false) × Undisturbed started es
  Undisturbed started (starts ∷ es) = Undisturbed true es
  Undisturbed started (finishes fetch ∷ es) = (started ≡ false) × Undisturbed started es

  overlay-write_through :
      (s : System T) (m : Dict T) (item : T) (e : OverlayEntry T)
      → s.c.next_epoch + 1 < epoch_mod
      → (i.index item == k) ≡ false
      → lookup k s.c.overlay ≡ some e
      → lookup k (write_through i s.c m item).overlay ≡ some e
  overlay-write_through s m item e h ne p =
      rw (write_through-eq i s.c m item h) (lookup-insert_ne (i.index item) k _ s.c.overlay ne ∙ p)

  overlay-install :
      (r : ℕ) (m : Dict T) (s : System T) (e : OverlayEntry T)
      → s.c.next_epoch + 1 < epoch_mod
      → Inv i s
      → r < e.epoch
      → lookup k s.c.overlay ≡ some e
      → lookup k (install i r m s.c).overlay ≡ some e
  overlay-install r m s e h v lt p =
      let kept : lookup k (merge_overlay r m s.c.overlay).1 ≡ some e =
        ground (arith, (lookup-merge_overlay r m s.c.overlay k v.overlay_map).0) in
      elim (install-cases i r m s.c h) [
        | inl x ↦ rw x.1 kept
        | inr (inl x) ↦ rw x.1 kept
        | inr (inr x) ↦ rw x kept
      ]

  overlay-install_built :
      (r : ℕ) (b : Result (Dict T)) (s : System T) (e : OverlayEntry T)
      → s.c.next_epoch + 1 < epoch_mod
      → Inv i s
      → r < e.epoch
      → lookup k s.c.overlay ≡ some e
      → lookup k (install_built i r s.c b).1.overlay ≡ some e
  overlay-install_built r (ok m) s e h v lt p = overlay-install r m s e h v lt p
  overlay-install_built r (err x) s e h v lt p = p

  overlay-finish :
      (f : Option ℕ) (fetch : Fetch T) (s : System T) (e : OverlayEntry T)
      → s.c.next_epoch + 1 < epoch_mod
      → Inv i s
      → Older f e
      → lookup k s.c.overlay ≡ some e
      → lookup k (finish i f fetch s).c.overlay ≡ some e
  unfolding refresh_finish
  overlay-finish none fetch s e h v o p = p
  overlay-finish (some r) (returned (ok items)) s e h v o p =
      overlay-install_built r (build i items []) s e h v o p
  overlay-finish (some r) (returned (err x)) s e h v o p = p
  overlay-finish (some r) panicked s e h v o p = p

  overlay-begin :
      (f : Option ℕ) (s : System T) (e : OverlayEntry T)
      → lookup k s.c.overlay ≡ some e
      → lookup k (begin i f s).c.overlay ≡ some e
  unfolding refresh_start
  overlay-begin none s e p = p
  overlay-begin (some r) s e p = p

  -- An insert of the key of an overlay entry finds it present.
  overlay-insert :
      (s : System T) (item : T) (e : OverlayEntry T)
      → s.c.next_epoch + 1 < epoch_mod
      → Inv i s
      → lookup k s.c.overlay ≡ some e
      → lookup k (step i s (inserts item)).c.overlay ≡ some e
  unfolding step
  overlay-insert s item e h v p = elim (insert_if_absent-cases i s.c item) [
    | inl x ↦ rw x p
    | inr (m, x, absent, w) ↦ rw w (
        overlay-write_through s m item e h (ground (arith, v.visible k e, eq_iff (i.index item) k))
          p)
  ]

  overlay-upsert :
      (s : System T) (item : T) (e : OverlayEntry T)
      → s.c.next_epoch + 1 < epoch_mod
      → (i.index item == k) ≡ false
      → lookup k s.c.overlay ≡ some e
      → lookup k (step i s (upserts item)).c.overlay ≡ some e
  unfolding step
  overlay-upsert s item e h ne p = elim (upsert-cases i s.c item) [
    | inl x ↦ rw x p
    | inr (m, x, w) ↦ rw w (overlay-write_through s m item e h ne p)
  ]

  -- The entry outlives an undisturbed schedule. Before a `starts` any refresh in flight is older.
  abbrev pub OlderUnless : Bool → Option ℕ → OverlayEntry T → Type 0
  OlderUnless true f e = Unit
  OlderUnless false f e = Older f e

  pub overlay-run :
      (started : Bool) (s : System T) (es : List (Event T)) (e : OverlayEntry T)
      → s.c.next_epoch + length es < epoch_mod
      → Inv i s
      → OlderUnless started s.in_flight e
      → Undisturbed started es
      → lookup k s.c.overlay ≡ some e
      → lookup k (run i s es).c.overlay ≡ some e
  unfolding run
  overlay-run started s [] e h v o u p = p
  overlay-run started s (inserts item ∷ es) e h v o u p =
      overlay-run started (step i s (inserts item)) es e
        (omega (arith, step-next i s (inserts item) (omega arith)))
        (step-Inv i s (inserts item) (omega arith) v) (unfold step in o) u
        (overlay-insert s item e (omega arith) v p)
  overlay-run started s (upserts item ∷ es) e h v o u p =
      overlay-run started (step i s (upserts item)) es e
        (omega (arith, step-next i s (upserts item) (omega arith)))
        (step-Inv i s (upserts item) (omega arith) v) (unfold step in o) u.1
        (overlay-upsert s item e (omega arith) u.0 p)
  overlay-run started s (starts ∷ es) e h v o u p =
      overlay-run true (step i s starts) es e (omega (arith, step-next i s starts (omega arith)))
        (step-Inv i s starts (omega arith) v) tt u (unfold step in overlay-begin s.in_flight s e p)
  overlay-run false s (finishes fetch ∷ es) e h v o u p =
      overlay-run false (step i s (finishes fetch)) es e
        (omega (arith, step-next i s (finishes fetch) (omega arith)))
        (step-Inv i s (finishes fetch) (omega arith) v)
        (unfold step in older-finish s.in_flight fetch s e refl) u.1
        (unfold step in overlay-finish s.in_flight fetch s e (omega arith) v o p)
    where
      older-finish :
          (f : Option ℕ) (fetch : Fetch T) (s : System T) (e : OverlayEntry T)
          → s.in_flight ≡ f
          → Older (finish i f fetch s).in_flight e
      older-finish none fetch s e q = rw q tt
      older-finish (some r) fetch s e q = tt
  overlay-run true s (finishes fetch ∷ es) e h v o u p = absurd (false≢true (sym u.0))

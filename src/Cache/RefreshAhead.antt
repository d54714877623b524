-- ===== src/Cache/RefreshAhead.antt =====
-- pkg/util/cache/refresh_ahead.go: the refresh-ahead cache. Each operation that holds the lock is one
-- function. A refresh is two, `refresh_start` and `refresh_finish`, since writes may take the lock
-- while the data is fetched. A nil overlay and an empty one are the same here: the code tests `len`.
pub mod Maps
pub mod Build
pub mod Schedule
pub mod Invalidation
use uni_core.Base.{
  ℕ, ◌+◌, ◌%◌, ◌^◌, String, Bool, true, false, not, ◌&&◌, Option, none, some, List, [], ◌∷◌, map,
  Dict, lookup, insert, has, ltb, nat_eq, length, is_empty, if◌then◌else◌,
}
use uni_core.Errors.{
  GoError, sentinel, wrap, cache_conflict, cache_invalid, cache_not_found, Result, ok, err,
}

-- Epochs are uint64.
abbrev pub epoch_mod : ℕ
epoch_mod = 2 ^ 64

abbrev pub after : ℕ → ℕ → Bool
after e other = ltb other e

abbrev pub valid : ℕ → ℕ → Bool
valid e previous = nat_eq e previous

pub record Cacheable {ℓ} (T : Type ℓ) : Type ℓ where
  pub index : T → String
  pub equal : T → T → Bool

pub record OverlayEntry {ℓ} (T : Type ℓ) : Type ℓ where
  pub item : T
  pub epoch : ℕ

-- `cache` is none before the first refresh.
pub record RefreshAheadCache {ℓ} (T : Type ℓ) : Type ℓ where
  pub next_epoch : ℕ
  pub epoch : ℕ
  pub cache : Option (Dict T)
  pub overlay : Dict (OverlayEntry T)

-- What the client's refresh function does: it returns data or an error, or panics.
pub data Fetch {ℓ} (T : Type ℓ) : Type ℓ where
  returned : Result (List T) → Fetch T
  panicked : Fetch T

pub record GetSnapshot {ℓ} (T : Type ℓ) : Type ℓ where
  pub epoch : ℕ
  pub item : T

pub record ListSnapshot {ℓ} (T : Type ℓ) : Type ℓ where
  pub epoch : ℕ
  pub items : List T

module _ {ℓ} {T : Type ℓ} where
  abbrev pub new : RefreshAheadCache T
  new = record { next_epoch = 0; epoch = 0; cache = none; overlay = [] }

  -- What `len` and lookups read of a map that may be nil.
  abbrev pub contents : Option (Dict T) → Dict T
  contents none = []
  contents (some m) = m

  unfoldable pub new_epoch : RefreshAheadCache T → ℕ × RefreshAheadCache T
  new_epoch c = let e = (c.next_epoch + 1) % epoch_mod in (e, record c { next_epoch = e })

  -- The entries that are newer than the refresh, kept and written over the refreshed data.
  unfoldable pub merge_overlay : ℕ → Dict T → Dict (OverlayEntry T) → Dict T × Dict (OverlayEntry T)
  merge_overlay refresh_epoch cache [] = (cache, [])
  merge_overlay refresh_epoch cache ((index, entry) ∷ entries) =
      let (effective, overlay) = merge_overlay refresh_epoch cache entries in
      if not (after entry.epoch refresh_epoch)
      then (effective, overlay)
      else (insert index entry.item effective, insert index entry overlay)

  unfoldable pub merge_and_prune_overlay_locked :
      RefreshAheadCache T → Dict T → ℕ → Dict T × RefreshAheadCache T
  unfolding merge_overlay
  merge_and_prune_overlay_locked c cache refresh_epoch =
      let (effective, overlay) = merge_overlay refresh_epoch cache c.overlay in
      if is_empty c.overlay then (cache, c) else (effective, record c { overlay = overlay })

  unfoldable pub refresh_start : RefreshAheadCache T → ℕ × RefreshAheadCache T
  unfolding new_epoch
  refresh_start c = new_epoch c

module _ {ℓ} {T : Type ℓ} (i : Cacheable T) where
  abbrev matches : T → Option T → Bool
  matches v none = false
  matches v (some w) = i.equal v w

  unfoldable pub all_match : Dict T → Dict T → Bool
  all_match [] o = true
  all_match ((k, v) ∷ m) o = matches v (lookup k o) && all_match m o

  -- cacheMap.Equal
  unfoldable pub map_equal : Dict T → Dict T → Bool
  unfolding all_match
  map_equal m o = if not (nat_eq (length m) (length o)) then false else all_match m o

  -- The entry of a write, in the overlay and in the visible map, under a new epoch.
  unfoldable pub write_through : RefreshAheadCache T → Dict T → T → RefreshAheadCache T
  unfolding new_epoch
  write_through c m item =
      let (write_epoch, c') = new_epoch c in
      record c' {
        epoch = write_epoch;
        cache = some (insert (i.index item) item m);
        overlay = insert (i.index item) (record { item = item; epoch = write_epoch }) c'.overlay;
      }

  unfoldable pub insert_if_absent : RefreshAheadCache T → T → Option GoError × RefreshAheadCache T
  insert_if_absent c item = elim c.cache [
    | none ↦ (some (sentinel cache_invalid), c)
    | some m ↦ if has (i.index item) m then (none, c) else (none, write_through c m item)
  ]

  unfoldable pub upsert : RefreshAheadCache T → T → Option GoError × RefreshAheadCache T
  upsert c item = elim c.cache [
    | none ↦ (some (sentinel cache_invalid), c)
    | some m ↦ (none, write_through c m item)
  ]

  -- The hash table of the fetched data; a second resource with one index is a conflict.
  unfoldable pub build : List T → Dict T → Result (Dict T)
  build [] cache = ok cache
  build (t ∷ ts) cache =
      let rest = build ts (insert (i.index t) t cache) in
      if has (i.index t) cache then err (wrap (i.index t) (sentinel cache_conflict)) else rest

  -- What happens under the lock once the table is built.
  unfoldable pub install : ℕ → Dict T → RefreshAheadCache T → RefreshAheadCache T
  unfolding new_epoch
  install refresh_epoch cache c =
      let (effective, c1) = merge_and_prune_overlay_locked c cache refresh_epoch in
      let (fresh, c2) = new_epoch c1 in
      if map_equal effective (contents c1.cache)
      then record c1 { cache = some effective }
      else if is_empty c1.overlay
      then record c1 { epoch = refresh_epoch; cache = some effective }
      else record c2 { epoch = fresh; cache = some effective }

  abbrev pub install_built :
      ℕ → RefreshAheadCache T → Result (Dict T) → Option GoError × RefreshAheadCache T
  install_built refresh_epoch c (ok cache) = (none, install refresh_epoch cache c)
  install_built refresh_epoch c (err e) = (some e, c)

  -- A panic is recovered and logged, and the nil error is returned.
  unfoldable pub refresh_finish :
      ℕ → Fetch T → RefreshAheadCache T → Option GoError × RefreshAheadCache T
  refresh_finish refresh_epoch (returned (ok items)) c =
      install_built refresh_epoch c (build items [])
  refresh_finish refresh_epoch (returned (err e)) c = (some e, c)
  refresh_finish refresh_epoch panicked c = (none, c)

  -- A refresh during which no write takes the lock.
  unfoldable pub do_refresh : Fetch T → RefreshAheadCache T → Option GoError × RefreshAheadCache T
  unfolding refresh_start refresh_finish
  do_refresh fetch c =
      let (refresh_epoch, c') = refresh_start c in refresh_finish refresh_epoch fetch c'

module _ {ℓ} {T : Type ℓ} where
  abbrev pub found : String → ℕ → Option T → Result (GetSnapshot T)
  found index epoch none = err (wrap index (sentinel cache_not_found))
  found index epoch (some item) = ok (record { epoch = epoch; item = item })

  unfoldable pub get : RefreshAheadCache T → String → Result (GetSnapshot T)
  get c index = elim c.cache [
    | none ↦ err (sentinel cache_invalid)
    | some m ↦ found index c.epoch (lookup index m)
  ]

  unfoldable pub list : RefreshAheadCache T → Result (ListSnapshot T)
  list c = elim c.cache [
    | none ↦ err (sentinel cache_invalid)
    | some m ↦ ok (record { epoch = c.epoch; items = map (λ e. e.1) m })
  ]

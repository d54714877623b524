-- ===== src/Cache/RefreshAhead/Schedule.antt =====
-- The cache under a schedule of writes and refreshes, with its invariant. The refresher goroutine has
-- one refresh in flight at most; a write may fall between the start and the end of a refresh. A
-- `starts` while a refresh is in flight and a `finishes` with none are no events of the goroutine, and
-- change nothing.
pub mod Write
pub mod Install
pub mod Invariant
pub mod Snapshots
pub mod Overlay
pub mod Visibility
pub mod Refresh
use uni_core.Base.{
  ℕ, ◌+◌, ◌≤◌, ◌<◌, String, ◌≡◌, ◌⊎◌, Option, none, some, List, [], ◌∷◌, Dict, lookup, IsMap,
}
use uni_core.Cache.RefreshAhead.{
  Cacheable, OverlayEntry, RefreshAheadCache, Fetch, contents, new, insert_if_absent, upsert,
  refresh_start, refresh_finish,
}

pub data Event {ℓ} (T : Type ℓ) : Type ℓ where
  inserts : T → Event T
  upserts : T → Event T
  starts : Event T
  finishes : Fetch T → Event T

pub record System {ℓ} (T : Type ℓ) : Type ℓ where
  pub c : RefreshAheadCache T
  pub in_flight : Option ℕ

abbrev pub start_of {ℓ} : {T : Type ℓ} → System T
start_of = record { c = new; in_flight = none }

module _ {ℓ} {T : Type ℓ} (i : Cacheable T) where
  -- A refresh begins under a new epoch unless one is in flight.
  abbrev pub begin : Option ℕ → System T → System T
  begin none s = let (r, c') = refresh_start s.c in record { c = c'; in_flight = some r }
  begin (some r) s = s

  abbrev pub finish : Option ℕ → Fetch T → System T → System T
  finish none fetch s = s
  finish (some r) fetch s = record { c = (refresh_finish i r fetch s.c).1; in_flight = none }

  unfoldable pub step : System T → Event T → System T
  step s (inserts item) = record s { c = (insert_if_absent i s.c item).1 }
  step s (upserts item) = record s { c = (upsert i s.c item).1 }
  step s starts = begin s.in_flight s
  step s (finishes fetch) = finish s.in_flight fetch s

  unfoldable pub run : System T → List (Event T) → System T
  run s [] = s
  run s (e ∷ es) = run (step s e) es

  -- A refresh in flight started after the visible snapshot was made, or a write since its start is
  -- still in the overlay.
  abbrev pub Flight : Option ℕ → RefreshAheadCache T → Type ℓ
  Flight none c = Unit
  Flight (some r) c =
      (r ≤ c.next_epoch)
      × ((c.epoch < r)
          ⊎ ((k : String) × (e : OverlayEntry T) × (lookup k c.overlay ≡ some e) × (r < e.epoch)))

  pub record Inv (s : System T) : Type ℓ where
    pub cache_map : IsMap (contents s.c.cache)
    pub overlay_map : IsMap s.c.overlay
    pub keyed : (k : String) (v : T) → lookup k (contents s.c.cache) ≡ some v → i.index v ≡ k
    pub visible :
        (k : String) (e : OverlayEntry T)
        → lookup k s.c.overlay ≡ some e
        → lookup k (contents s.c.cache) ≡ some e.item
    pub written :
        (k : String) (e : OverlayEntry T) → lookup k s.c.overlay ≡ some e → e.epoch ≤ s.c.epoch
    pub allocated : s.c.epoch ≤ s.c.next_epoch
    pub flight : Flight s.in_flight s.c

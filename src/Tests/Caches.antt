-- ===== src/Tests/Caches.antt =====
-- pkg/util/cache/refresh_ahead.go and timeout_cache.go on concrete schedules.
use uni_core.Base.{
  ℕ, String, ◌≡◌, refl, subst, true, none, some, List, [], ◌∷◌, Dict, lookup, insert, nat_eq, IsMap,
  arith,
}
use uni_core.Errors.{ok}
use uni_core.Cache.RefreshAhead.{
  Cacheable, returned, contents, get, valid, build, map_equal, refresh_start, refresh_finish,
  install, upsert, write_through, new_epoch, merge_overlay, merge_and_prune_overlay_locked,
  all_match,
}
use uni_core.Cache.RefreshAhead.Maps.{Same, newer, shown}
use uni_core.Cache.RefreshAhead.Build.{item_at, Distinct}
use uni_core.Cache.RefreshAhead.Schedule.{
  Event, inserts, upserts, starts, finishes, System, start_of, step, run, Inv,
}
use uni_core.Cache.RefreshAhead.Schedule.Invariant.{run-Inv, run_start-Inv}
use uni_core.Cache.RefreshAhead.Schedule.Snapshots.{IsEquivalence, valid_epoch}
use uni_core.Cache.RefreshAhead.Schedule.Visibility.{read_your_writes}
use uni_core.Cache.RefreshAhead.Schedule.Refresh.{refresh_result}
use uni_core.Cache.TimeoutCache
use uni_core.Cache.TimeoutCache.History.{Write, sets, write_all, valid_at, latest, get-latest}

abbrev Cached : Type 0
Cached = String × ℕ

abbrev by_name : Cacheable Cached
by_name = record { index = λ t. t.0; equal = λ a b. nat_eq a.1 b.1 }

abbrev fetched : List Cached
fetched = ("a", 1) ∷ ("b", 2) ∷ []

abbrev first_refresh : List (Event Cached)
first_refresh = starts ∷ finishes (returned (ok fetched)) ∷ []

abbrev warm : System Cached
warm = run by_name start_of first_refresh

abbrev table : Dict Cached
table = ("a", ("a", 1)) ∷ ("b", ("b", 2)) ∷ []

-- The warm cache, computed.
abbrev warmed : System Cached
warmed = record {
  c = record { next_epoch = 1; epoch = 1; cache = some table; overlay = [] };
  in_flight = none;
}

warm-is : warm ≡ warmed
unfolding run step refresh_start new_epoch refresh_finish build install map_equal all_match lookup
    insert merge_and_prune_overlay_locked merge_overlay
warm-is = refl

warmed-Inv : Inv by_name warmed
warmed-Inv = subst (Inv by_name) warm-is (run_start-Inv by_name first_refresh (omega arith))

fetched-Distinct : Distinct by_name fetched
fetched-Distinct = (refl, (refl, tt))

-- A write, the start of a refresh, and the insertion of another key.
abbrev busy : List (Event Cached)
busy = inserts ("c", 3) ∷ starts ∷ inserts ("a", 9) ∷ []

read_your_writes_example :
    let t = run by_name warmed (upserts ("a", 5) ∷ busy) in
    get t.c "a" ≡ ok (record { epoch = t.c.epoch; item = ("a", 5) })
read_your_writes_example =
    read_your_writes by_name warmed table ("a", 5) busy refl (omega arith) warmed-Inv tt

run_start-Inv_example : Inv by_name (run by_name start_of first_refresh)
run_start-Inv_example = run_start-Inv by_name first_refresh (omega arith)

-- A refresh began, and then a write came.
abbrev written_in_flight : System Cached
written_in_flight = run by_name warmed (starts ∷ upserts ("a", 5) ∷ [])

abbrev written_now : System Cached
written_now = record {
  c = record {
    next_epoch = 3;
    epoch = 3;
    cache = some (("a", ("a", 5)) ∷ ("b", ("b", 2)) ∷ []);
    overlay = ("a", record { item = ("a", 5); epoch = 3 }) ∷ [];
  };
  in_flight = some 2;
}

written-is : written_in_flight ≡ written_now
unfolding run step refresh_start new_epoch upsert write_through insert
written-is = refl

written-Inv : Inv by_name written_now
written-Inv =
    subst (Inv by_name) written-is
      (run-Inv by_name warmed (starts ∷ upserts ("a", 5) ∷ []) (omega arith) warmed-Inv)

refresh_result_example :
    let t = step by_name written_now (finishes (returned (ok fetched))) in
    ((k : String)
      → (lookup k (contents t.c.cache)
          ≡ shown 2 (lookup k written_now.c.overlay) (item_at by_name k fetched))
        × (lookup k t.c.overlay ≡ newer 2 (lookup k written_now.c.overlay)))
    × (t.in_flight ≡ none)
refresh_result_example =
    refresh_result by_name written_now 2 fetched refl (omega arith) written-Inv fetched-Distinct

abbrev twice : List Cached
twice = ("a", 1) ∷ ("a", 2) ∷ []

by_value-IsEquivalence : IsEquivalence by_name
by_value-IsEquivalence = record {
  reflexive = λ a. ground arith;
  symmetric = λ a b h. ground arith;
  transitive = λ a b c h k. ground arith;
}

-- A refresh that fetches what is there keeps the epoch.
abbrev unchanged : List (Event Cached)
unchanged = starts ∷ finishes (returned (ok fetched)) ∷ []

still_valid : valid (run by_name warmed unchanged).c.epoch warmed.c.epoch ≡ true
unfolding run step refresh_start new_epoch refresh_finish build install map_equal all_match lookup
    insert merge_and_prune_overlay_locked merge_overlay
still_valid = refl

valid_epoch_example :
    Same by_name (contents warmed.c.cache) (contents (run by_name warmed unchanged).c.cache)
valid_epoch_example =
    valid_epoch by_name by_value-IsEquivalence warmed unchanged (omega arith) warmed-Inv still_valid

table-IsMap : IsMap table
unfolding lookup
table-IsMap = (refl, (refl, tt))

abbrev one_write : List (Write ℕ)
one_write = sets 5 42 ∷ []

abbrev no_value : ℕ
no_value = 0

get-latest_example :
    TimeoutCache.get no_value 7 (write_all one_write (TimeoutCache.new no_value 3))
    ≡ valid_at no_value 7 (latest 3 one_write none)
get-latest_example = get-latest 3 no_value 7 one_write (omega arith)

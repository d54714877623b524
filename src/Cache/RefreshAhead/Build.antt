-- ===== src/Cache/RefreshAhead/Build.antt =====
-- The table that a refresh builds of the fetched items.
use uni_core.Base.{
  String, ◌≡◌, refl, true, false, Option, none, some, List, [], ◌∷◌, Dict, lookup, insert, has,
  lookup-insert, lookup-insert_self, eq_refl, eq_iff, ◌==◌, if◌then◌else◌, arith,
}
use uni_core.Errors.{GoError, ok, err, is_error, cache_conflict}
use uni_core.Cache.RefreshAhead.{Cacheable, build}

abbrev pub or_else {ℓ} : {A : Type ℓ} → Option A → Option A → Option A
or_else none b = b
or_else (some a) b = some a

module _ {ℓ} {T : Type ℓ} (i : Cacheable T) where
  -- The first of the fetched items with the given index.
  abbrev pub item_at : String → List T → Option T
  item_at k [] = none
  item_at k (t ∷ ts) = if i.index t == k then some t else item_at k ts

  pub build-lookup :
      (ts : List T) (m m' : Dict T) (k : String)
      → build i ts m ≡ ok m'
      → lookup k m' ≡ or_else (lookup k m) (item_at k ts)
  unfolding build
  build-lookup [] m m' k e = ground arith
  build-lookup (t ∷ ts) m m' k e = ground (
    arith,
    build-lookup ts (insert (i.index t) t m) m' k,
    lookup-insert (i.index t) k t m,
    eq_iff (i.index t) k,
  )

  -- No two of the items have one index.
  abbrev pub Distinct : List T → Type ℓ
  Distinct [] = Unit
  Distinct (t ∷ ts) = (item_at (i.index t) ts ≡ none) × Distinct ts

  build-fresh :
      (ts : List T) (m m' : Dict T) (k : String)
      → build i ts m ≡ ok m'
      → has k m ≡ true
      → item_at k ts ≡ none
  unfolding build
  build-fresh [] m m' k e h = refl
  build-fresh (t ∷ ts) m m' k e h = ground (
    arith,
    build-fresh ts (insert (i.index t) t m) m' k,
    lookup-insert (i.index t) k t m,
    eq_iff (i.index t) k,
  )

  pub build-Distinct : (ts : List T) (m m' : Dict T) → build i ts m ≡ ok m' → Distinct ts
  unfolding build
  build-Distinct [] m m' e = tt
  build-Distinct (t ∷ ts) m m' e =
      let rest : build i ts (insert (i.index t) t m) ≡ ok m' = ground arith in
      (
        build-fresh ts (insert (i.index t) t m) m' (i.index t) rest
            (ground (arith, lookup-insert_self (i.index t) t m)),
        build-Distinct ts (insert (i.index t) t m) m' rest,
      )

  pub build-total :
      (ts : List T) (m : Dict T)
      → Distinct ts
      → ((k : String) → has k m ≡ true → item_at k ts ≡ none)
      → (m' : Dict T) × (build i ts m ≡ ok m')
  unfolding build
  build-total [] m d f = (m, refl)
  build-total (t ∷ ts) m d f =
      let fresh : has (i.index t) m ≡ false = ground (arith, f (i.index t), eq_refl (i.index t)) in
      let (m', e) =
        build-total ts (insert (i.index t) t m) d.1 (λ k h.
          ground (arith, lookup-insert (i.index t) k t m, eq_iff (i.index t) k, f k, d.0)) in
      (m', rw fresh e)

  pub build-conflict :
      (ts : List T) (m : Dict T) (e : GoError)
      → build i ts m ≡ err e
      → is_error e cache_conflict ≡ true
  unfolding build is_error
  build-conflict [] m e h = cc
  build-conflict (t ∷ ts) m e h = ground (arith, build-conflict ts (insert (i.index t) t m) e)

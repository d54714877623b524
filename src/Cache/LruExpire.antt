-- ===== src/Cache/LruExpire.antt =====
-- pkg/util/cache/lruexpirecache.go: the typed cache that copies its values. Other code is apimachinery's
-- cache, over a state `C` and the times of the calls, and deep.Copy, which may fail. Only Add stores
-- values, so the type assertion of Get holds.
use uni_core.Base.{ℕ, ◌≡◌, refl, ap, ◌∙◌, Bool, true, false, Option, none, some, if◌then◌else◌}

pub record LruCode (C K V : Type 0) : Type 0 where
  pub add : ℕ → K → V → ℕ → C → C
  pub get : ℕ → K → C → Option V × C
  pub copy : V → Option V

pub record LruExpireCache (C : Type 0) : Type 0 where
  pub cache : C
  pub zero_copy : Bool

module _ {C K V : Type 0} (l : LruCode C K V) where
  unfoldable set_zero_copy : LruExpireCache C → LruExpireCache C
  set_zero_copy c = record c { zero_copy = true }

  abbrev stored : ℕ → K → ℕ → LruExpireCache C → Option V → LruExpireCache C
  stored now key ttl c none = c
  stored now key ttl c (some t) = record c { cache = l.add now key t ttl c.cache }

  unfoldable add : ℕ → K → V → ℕ → LruExpireCache C → LruExpireCache C
  add now key value ttl c = stored now key ttl c (l.copy value)

  abbrev handed_out : Bool → Option V → Option V
  handed_out zero_copy none = none
  handed_out zero_copy (some value) = if zero_copy then some value else l.copy value

  abbrev taken : LruExpireCache C → Option V × C → Option V × LruExpireCache C
  taken c (value, rest) = (handed_out c.zero_copy value, record c { cache = rest })

  unfoldable get : ℕ → K → LruExpireCache C → Option V × LruExpireCache C
  get now key c = taken c (l.get now key c.cache)

  -- If the cache keeps what is added for its time to live and copies are equal to what they copy, a value
  -- that is added is there for that time, with zero copy and without.
  get-add :
      (now later ttl : ℕ) (key : K) (value : V) (c : LruExpireCache C)
      → ((c' : C) → (l.get later key (l.add now key value ttl c')).0 ≡ some value)
      → l.copy value ≡ some value
      → (get later key (add now key value ttl c)).0 ≡ some value
  unfolding get add
  get-add now later ttl key value c keeps copies =
      ap (λ o. (taken (stored now key ttl c o) (l.get later key (stored now key ttl c o).cache)).0)
        copies
      ∙ ap (handed_out c.zero_copy) (keeps c.cache)
      ∙ unchanged c.zero_copy
    where
      unchanged : (b : Bool) → handed_out b (some value) ≡ some value
      unchanged true = refl
      unchanged false = copies

  -- A value that cannot be copied is not stored.
  add-uncopied :
      (now ttl : ℕ) (key : K) (value : V) (c : LruExpireCache C)
      → l.copy value ≡ none
      → add now key value ttl c ≡ c
  unfolding add
  add-uncopied now ttl key value c h = ap (stored now key ttl c) h

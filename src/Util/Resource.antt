-- ===== src/Util/Resource.antt =====
-- pkg/util/resource.go: names for resources that are made from UUIDs. A UUID is the string that is
-- printed for it.
use uni_core.Base.{
  ℕ, zero, suc, String, ◌≡◌, refl, Bool, true, false, Option, none, some, List, [], ◌∷◌,
  if◌then◌else◌,
}

-- Other code: the version 5 UUID of a string of bytes in a namespace, the bytes of a UUID, and whether
-- a UUID is printed with a letter first.
pub record UuidCode : Type 0 where
  pub new_sha1 : String → String → String
  pub bytes_of : String → String
  pub starts_with_letter : String → Bool

-- The first of the random UUIDs that are drawn that starts with a letter.
unfoldable pub generate_resource_id : UuidCode → List String → Option String
generate_resource_id u [] = none
generate_resource_id u (drawn ∷ rest) =
    let later = generate_resource_id u rest in
    if u.starts_with_letter drawn then some drawn else later

-- At most `fuel` further hashes are made.
unfoldable pub rehash : UuidCode → String → ℕ → String → Option String
rehash u namespace zero id = if u.starts_with_letter id then some id else none
rehash u namespace (suc fuel) id =
    let later = rehash u namespace fuel (u.new_sha1 namespace (u.bytes_of id)) in
    if u.starts_with_letter id then some id else later

unfoldable pub generate_deterministic_resource_id : UuidCode → String → String → ℕ → Option String
unfolding rehash
generate_deterministic_resource_id u namespace invariant fuel =
    rehash u namespace fuel (u.new_sha1 namespace invariant)

-- The UUID after so many hashes of bytes.
abbrev pub hashed : UuidCode → String → ℕ → String → String
hashed u namespace zero id = id
hashed u namespace (suc n) id = hashed u namespace n (u.new_sha1 namespace (u.bytes_of id))

-- Fuel that reaches a UUID with a letter is enough for a name, which then starts with a letter.
rehash-enough :
    (u : UuidCode) (namespace : String) (n : ℕ) (id : String)
    → u.starts_with_letter (hashed u namespace n id) ≡ true
    → (name : String) × ((rehash u namespace n id ≡ some name) × (u.starts_with_letter name ≡ true))
unfolding rehash
rehash-enough u namespace zero id h = (id, (rw (h), h))
rehash-enough u namespace (suc n) id h =
    by_first (u.starts_with_letter id) refl
      (rehash-enough u namespace n (u.new_sha1 namespace (u.bytes_of id)) h)
  where
    by_first :
        {later : Option String} (b : Bool)
        → u.starts_with_letter id ≡ b
        → ((name : String) × ((later ≡ some name) × (u.starts_with_letter name ≡ true)))
        → (name : String) × (((if b then some id else later) ≡ some name)
            × (u.starts_with_letter name ≡ true))
    by_first true e rest = (id, (refl, e))
    by_first false e rest = rest

-- Two invariants have one name if the second is the bytes of the first one's UUID, and that does not
-- start with a letter.
generate_deterministic_resource_id-collides :
    (u : UuidCode) (namespace invariant : String) (fuel : ℕ)
    → u.starts_with_letter (u.new_sha1 namespace invariant) ≡ false
    → generate_deterministic_resource_id u namespace invariant (suc fuel)
      ≡ generate_deterministic_resource_id u namespace
          (u.bytes_of (u.new_sha1 namespace invariant))
          fuel
unfolding generate_deterministic_resource_id
generate_deterministic_resource_id-collides u namespace invariant fuel h = rw (h)

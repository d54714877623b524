-- ===== src/Provisioners/Namespace.antt =====
-- pkg/provisioners/util/util.go: the namespace of a resource, and the hash of a configuration. What the
-- client of the context lists for the labels is an argument.
use uni_core.Base.{String, ◌≡◌, ◌↔◌, List, [], ◌∷◌, arith}
use uni_core.Errors.{sentinel, wrap, err_namespace_lookup, Result, ok, err, ◌>>=◌}

abbrev only_one : {N : Type 0} → List N → Result N
only_one [] = err (wrap "labels" (sentinel err_namespace_lookup))
only_one (n ∷ []) = ok n
only_one (n ∷ m ∷ more) = err (wrap "labels" (sentinel err_namespace_lookup))

unfoldable get_resource_namespace : {C N : Type 0} → Result C → (C → Result (List N)) → Result N
get_resource_namespace client list = client >>= (λ c. list c >>= only_one)

-- json.Marshal, and sha256.Sum256 printed in hexadecimal.
unfoldable get_configuration_hash :
    {A : Type 0} → (A → Result String) → (String → String) → A → Result String
get_configuration_hash marshal sha256_hex config = marshal config >>= (λ json. ok (sha256_hex json))

only_one-ok : {N : Type 0} (ns : List N) (n : N) → only_one ns ≡ ok n ↔ (ns ≡ n ∷ [])
only_one-ok [] n = (λ h. ground (arith), λ h. ground (arith))
only_one-ok (m ∷ []) n = (λ h. cc, λ h. cc)
only_one-ok (m ∷ o ∷ more) n = (λ h. ground (arith), λ h. ground (arith))

-- A namespace is found exactly when the client lists that one and no other.
get_resource_namespace-ok :
    {C N : Type 0} (c : C) (list : C → Result (List N)) (ns : List N) (n : N)
    → list c ≡ ok ns
    → get_resource_namespace (ok c) list ≡ ok n ↔ (ns ≡ n ∷ [])
unfolding get_resource_namespace
get_resource_namespace-ok c list ns n h = rw (h) (only_one-ok ns n)

-- ===== src/Api/Scalars.antt =====
-- pkg/apis/unikorn/v1alpha1/types.go: the JSON forms of versions, constraints, addresses and prefixes.
-- encoding/json of a string, the net package and semver are arguments, as what they document.
use uni_core.Base.{String, ◌≡◌, ap, ◌∙◌, Option, none, some, List, map}
use uni_core.Errors.{sentinel, wrap, err_json_unmarshal, Result, ok, err, ◌>>=◌}

-- encoding/json of a string.
pub record JsonString : Type 0 where
  pub encode : String → Result String
  pub decode : String → Result String

-- What is read back is what was written.
pub record IsJsonString (j : JsonString) : Type 0 where
  pub decode-encode : (s text : String) → j.encode s ≡ ok text → j.decode text ≡ ok s

-- A kind of value: how it is parsed, with the error, and how it is printed.
pub record Codec (V : Type 0) : Type 0 where
  pub parse : String → Result V
  pub print : V → String

unfoldable pub unmarshal_json : {V : Type 0} → JsonString → Codec V → String → Result V
unmarshal_json j c b = j.decode b >>= c.parse

unfoldable pub marshal_json : {V : Type 0} → JsonString → Codec V → V → Result String
marshal_json j c v = j.encode (c.print v)

-- ToUnstructured
abbrev to_unstructured : {V : Type 0} → Codec V → V → String
to_unstructured c v = c.print v

abbrev non_nil : {V : Type 0} → String → Option V → Result V
non_nil text none = err (wrap text (sentinel err_json_unmarshal))
non_nil text (some v) = ok v

-- net.ParseIP and the String method of an address, which may be of version 4 or 6.
unfoldable ipv4_address : {Ip : Type 0} → (String → Option Ip) → (Ip → String) → Codec Ip
ipv4_address parse_ip print = record {
  parse = λ s. non_nil "not an IPv4 address" (parse_ip s);
  print = print;
}

-- net.ParseCIDR, of which the network alone is kept; an error of it and a nil network come to the same.
unfoldable ipv4_prefix :
    {Ip Net : Type 0} → (String → Option (Ip × Net)) → (Net → String) → Codec Net
ipv4_prefix parse_cidr print = record {
  parse = λ s. elim (parse_cidr s) [
    | none ↦ err (wrap "not an IPv4 prefix" (sentinel err_json_unmarshal))
    | some (ip, network) ↦ ok network
  ];
  print = print;
}

-- semver.NewConstraint and the String method of constraints.
unfoldable semantic_version_constraints :
    {C : Type 0} → (String → Result C) → (C → String) → Codec C
semantic_version_constraints new_constraint print = record { parse = new_constraint; print = print }

-- DeepCopy of constraints goes through their text; what fails leaves the zero value.
unfoldable deep_copy : {C : Type 0} → (C → Result String) → (String → Result C) → C → C → C
deep_copy marshal_text unmarshal_text zero_value c = elim (marshal_text c >>= unmarshal_text) [
  | err e ↦ zero_value
  | ok copy ↦ copy
]

-- IPv4AddressSliceFromIPSlice: the wrapper of an address has no other field.
abbrev ipv4_address_slice_from_ip_slice : {Ip : Type 0} → List Ip → List Ip
ipv4_address_slice_from_ip_slice ips = map (λ ip. ip) ips

-- A value whose print is parsed back to it is what is unmarshalled from what it is marshalled to.
unmarshal_json-marshal_json :
    {V : Type 0} (j : JsonString) (c : Codec V) (v : V) (text : String)
    → IsJsonString j
    → c.parse (c.print v) ≡ ok v
    → marshal_json j c v ≡ ok text
    → unmarshal_json j c text ≡ ok v
unfolding unmarshal_json marshal_json
unmarshal_json-marshal_json j c v text h back written =
    ap (λ r. r >>= c.parse) (h.decode-encode (c.print v) text written) ∙ back

-- A copy of constraints whose text is parsed back is equal to them.
deep_copy_lem :
    {C : Type 0} (marshal_text : C → Result String) (unmarshal_text : String → Result C)
    (zero_value c : C)
    → (marshal_text c >>= unmarshal_text) ≡ ok c
    → deep_copy marshal_text unmarshal_text zero_value c ≡ c
unfolding deep_copy
deep_copy_lem marshal_text unmarshal_text zero_value c h = rw (h, deep_copy)

-- Whatever ParseIP accepts is accepted, an IPv6 address too, though the error speaks of IPv4.
ipv4_address-accepts :
    {Ip : Type 0} (parse_ip : String → Option Ip) (print : Ip → String) (s : String) (ip : Ip)
    → parse_ip s ≡ some ip
    → (ipv4_address parse_ip print).parse s ≡ ok ip
unfolding ipv4_address
ipv4_address-accepts parse_ip print s ip h = ap (non_nil "not an IPv4 address") h

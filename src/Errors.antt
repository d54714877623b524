-- ===== src/Errors.antt =====
-- Go errors as values: the sentinels that the packages declare, the typed provisioning error of
-- pkg/provisioners/errors.go, wrapping by `fmt.Errorf("%w")`, and errors of other code.
use uni_core.Base.{ℕ, String, ◌≡◌, refl, Bool, false, Option, none, some, List, nat_eq}

pub data Sentinel : Type 0 where
  err_yield err_not_found err_terminal err_user_action_required : Sentinel
  canceled : Sentinel
  err_cd_driver err_consistency err_type_conversion err_invalid_context : Sentinel
  err_status_condition_lookup : Sentinel
  cache_conflict cache_invalid cache_not_found : Sentinel
  cd_not_found item_length_mismatch version_not_found k8s_connection_error : Sentinel
  err_kubeconfig err_api_status err_unsupported : Sentinel
  err_secret_format_error err_unsupported_key_type : Sentinel
  err_namespace_lookup err_json_unmarshal : Sentinel

-- `provisioning` is *provisioners.Error: its disposition, reason and message. `http` is the *Error of
-- pkg/server/errors/errors.go: its status, code, description and headers, and `http_caused` one with
-- the error that it wraps.
pub data GoError : Type 0 where
  sentinel : Sentinel → GoError
  provisioning : GoError → String → String → GoError
  wrap : String → GoError → GoError
  http : ℕ → String → String → List (String × String) → GoError
  http_caused : ℕ → String → String → List (String × String) → GoError → GoError
  foreign : String → GoError

pub record ProvisioningError : Type 0 where
  pub disposition : GoError
  pub reason : String
  pub message : String

-- The identity of a sentinel: two are the same variable exactly when their numbers agree.
abbrev pub identity : Sentinel → ℕ
identity err_yield = 0
identity err_not_found = 1
identity err_terminal = 2
identity err_user_action_required = 3
identity canceled = 4
identity err_cd_driver = 5
identity err_consistency = 6
identity err_type_conversion = 7
identity err_invalid_context = 8
identity err_status_condition_lookup = 9
identity cache_conflict = 10
identity cache_invalid = 11
identity cache_not_found = 12
identity cd_not_found = 13
identity item_length_mismatch = 14
identity version_not_found = 15
identity k8s_connection_error = 16
identity err_kubeconfig = 17
identity err_api_status = 18
identity err_unsupported = 19
identity err_secret_format_error = 20
identity err_unsupported_key_type = 21
identity err_namespace_lookup = 22
identity err_json_unmarshal = 23

-- errors.Is against a sentinel: the error or one that it unwraps to.
unfoldable pub is_error : GoError → Sentinel → Bool
is_error (sentinel s) t = nat_eq (identity s) (identity t)
is_error (provisioning d reason message) t = is_error d t
is_error (wrap text e) t = is_error e t
is_error (http status code description header) t = false
is_error (http_caused status code description header cause) t = is_error cause t
is_error (foreign text) t = false

-- errors.As into *provisioners.Error: the first such error in the chain.
unfoldable pub as_provisioning : GoError → Option ProvisioningError
as_provisioning (sentinel s) = none
as_provisioning (provisioning d reason message) =
    some (record { disposition = d; reason = reason; message = message })
as_provisioning (wrap text e) = as_provisioning e
as_provisioning (http status code description header) = none
as_provisioning (http_caused status code description header cause) = as_provisioning cause
as_provisioning (foreign text) = none

-- A pair of a value and an error, of which one is nil.
pub data Result {ℓ} (A : Type ℓ) : Type ℓ where
  ok : A → Result A
  err : GoError → Result A

-- `if err != nil { return nil, err }` and what follows.
infixl 5 ◌>>=◌
abbrev pub ◌>>=◌ {ℓ ℓ'} : {A : Type ℓ} {B : Type ℓ'} → Result A → (A → Result B) → Result B
err e >>= next = err e
ok value >>= next = next value

-- A chain that succeeds has a first step that succeeds, and what follows it does too.
pub ok_of_>>= {ℓ ℓ'} :
    {A : Type ℓ} {B : Type ℓ'} {last : B} (r : Result A) (next : A → Result B)
    → r >>= next ≡ ok last
    → (value : A) × (r ≡ ok value) × (next value ≡ ok last)
ok_of_>>= (err e) next p = cc
ok_of_>>= (ok value) next p = (value, refl, p)

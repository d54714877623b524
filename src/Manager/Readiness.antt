-- ===== src/Manager/Readiness.antt =====
-- pkg/manager/readiness.go: whether a resource can be used by what depends on it.
use uni_core.Base.{◌≡◌, refl, not, Option, none, some, arith, eq_iff, ◌==◌, if◌then◌else◌}
use uni_core.Errors.{GoError, sentinel, err_yield, Result, ok, err}
use uni_core.Api.Reason.{provisioned}
use uni_core.Api.Object.{Object, Condition}
use uni_core.Api.Conditions.{ConditionUtil, get_available_condition}

abbrev judged : Result Condition → Option GoError
judged (err e) = some (sentinel err_yield)
judged (ok c) = if not (c.reason == provisioned) then some (sentinel err_yield) else none

unfoldable pub resource_ready : ConditionUtil → Object → Option GoError
resource_ready u o = judged (get_available_condition u o)

judged-nil :
    (r : Result Condition)
    → judged r ≡ none
    → (c : Condition) × ((r ≡ ok c) × (c.reason ≡ "Provisioned"))
judged-nil (err e) h = ground (arith)
judged-nil (ok c) h = (c, (refl, ground (arith, eq_iff c.reason "Provisioned")))

-- A resource that is ready has an Available condition that says that it is provisioned.
resource_ready-nil :
    (u : ConditionUtil) (o : Object)
    → resource_ready u o ≡ none
    → (c : Condition) × ((get_available_condition u o ≡ ok c) × (c.reason ≡ "Provisioned"))
unfolding resource_ready
resource_ready-nil u o h = judged-nil (get_available_condition u o) h

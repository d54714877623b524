-- ===== src/Provisioners/Context.antt =====
-- pkg/client/context.go and pkg/provisioners/remotecluster/context.go: what of a context the
-- provisioners read. `C` is the type of Kubernetes clients. A key that is not set is none.
use uni_core.Base.{String, Bool, false, Option, none, some}
use uni_core.Errors.{sentinel, err_invalid_context, Result, ok, err}
use uni_core.Cd.{ResourceIdentifier}

-- The identifier is nil, and the host and port empty, outside of a remote cluster.
pub record ClusterContext (C : Type 0) : Type 0 where
  pub client : C
  pub id : Option ResourceIdentifier
  pub host : String
  pub port : String

pub record Context (C : Type 0) : Type 0 where
  pub provisioner_client : Option C
  pub cluster : Option (ClusterContext C)
  pub namespace : Option String
  pub background_deletion : Option Bool

-- `if value := ctx.Value(key); value != nil { … }; return nil, errors.ErrInvalidContext`
abbrev from_key : {A : Type 0} → Option A → Result A
from_key none = err (sentinel err_invalid_context)
from_key (some a) = ok a

abbrev set_or_false : Option Bool → Bool
set_or_false none = false
set_or_false (some b) = b

module _ {C : Type 0} where
  unfoldable pub new_context : Context C → C → Context C
  new_context ctx client = record ctx { provisioner_client = some client }

  unfoldable pub from_context : Context C → Result C
  from_context ctx = from_key ctx.provisioner_client

  unfoldable pub new_context_with_cluster : Context C → ClusterContext C → Context C
  new_context_with_cluster ctx remote = record ctx { cluster = some remote }

  unfoldable pub cluster_from_context : Context C → Result (ClusterContext C)
  cluster_from_context ctx = from_key ctx.cluster

  unfoldable pub new_context_with_namespace : Context C → String → Context C
  new_context_with_namespace ctx namespace = record ctx { namespace = some namespace }

  unfoldable pub namespace_from_context : Context C → Result String
  namespace_from_context ctx = from_key ctx.namespace

  unfoldable pub new_context_with_background_deletion : Context C → Bool → Context C
  new_context_with_background_deletion ctx background = record ctx {
    background_deletion = some background;
  }

  unfoldable pub background_deletion_from_context : Context C → Bool
  background_deletion_from_context ctx = set_or_false ctx.background_deletion

-- ===== src/Lib.antt =====
-- uni-core: the shared library of a set of Kubernetes services, modelled in its core. Paths are from
-- the repository's root.
--
-- The parts and how they interact. A service's manager (pkg/manager) reconciles an object: it keeps a
-- finalizer on it, asks a provisioner (pkg/provisioners) to provision or deprovision what the object
-- stands for, and writes the outcome onto the object's Available condition (pkg/apis). An API server
-- (pkg/server) reads that condition back as a status, makes objects with their metadata, and runs its
-- multi-step requests as sagas. Services delete what depends on a deleted resource when a message
-- says so (pkg/messaging), and cache what they read of each other (pkg/util/cache). Provisioners of
-- applications drive Argo CD (pkg/cd), on remote clusters too; services talk over HTTP with client
-- certificates and signed messages (pkg/client), and their errors travel with the responses.
--
-- The files.
--   Base: shared names, Boolean tests, string-keyed maps, list and string lemmas.
--   Errors: Go errors as values, with errors.Is and errors.As (pkg/errors, pkg/provisioners/errors.go).
--   Api: names, reasons, the managed object, conditions and tags (pkg/constants/constants.go,
--     pkg/apis/unikorn/v1alpha1/types.go and helpers.go).
--   Provisioners: the typed errors, and the serial, conditional, concurrent and resource provisioners.
--     An operation is a function from a state `W` of the world to an error or nil and a state; the
--     errgroup of the concurrent one is a parameter with the law that it waits for all callbacks, and
--     with the condition on them that they have the effects of whole calls in some order.
--   Cache/RefreshAhead: pkg/util/cache/refresh_ahead.go. A critical section is a function; a refresh
--     is two, `refresh_start` and `refresh_finish`, and Cache/RefreshAhead/Schedule runs any sequence
--     of writes and refresh halves. Epochs are numbers below 2 ^ 64 with their wrap-around written
--     out; theorems about schedules ask that fewer than 2 ^ 64 are allocated.
--   Cache/TimeoutCache: pkg/util/cache/timeout_cache.go, with the clock's reading as an argument.
--   Manager: pkg/manager/reconcile.go and reference.go. The state of a reconcile is the object, the
--     state of the cluster and the list of the calls made; the client, controllerutil, the conditions
--     package and meta.EachListItem are parameters with the laws that they document (Manager/Client,
--     Api/Conditions). Manager/Reconcile/Runs has the calls that controller-runtime makes of Reconcile
--     while it asks for the next, and Manager/Reconcile/Accepting a server that accepts each write;
--     Provisioners/Progress says which provisioners and groups get on with their work.
--   Server/Saga and Server/Conversion: pkg/server/saga/saga.go and pkg/server/conversion/conversion.go.
--   Messaging/CascadingDelete: pkg/messaging/consumer/cascadingdelete.go.
--   Util/Trie: pkg/util/trie/trie.go, over sequences of runes. Util/Retry: pkg/util/retry/retry.go, over
--     the list of what its select receives.
--   Cd/Argo: pkg/cd/argocd/driver.go. The Kubernetes client is a parameter over a state of the cluster;
--     Cd/Argo/Driver has the operations on applications, Cd/Argo/Cluster those on clusters.
--   Provisioners/Application, Provisioners/RemoteCluster and Provisioners/Context:
--     pkg/provisioners/application, pkg/provisioners/remotecluster and pkg/client/context.go. The count
--     that the provisioners of a remote cluster share is passed from one turn at the lock to the next.
--   Cache/RefreshAhead/Invalidation: Run, Invalidate and sendInvalidation as a relation of steps.
--   Server/Errors, Server/Middleware, Server/Ownership and Server/Selector:
--     pkg/server/errors/errors.go,
--     pkg/server/middleware/cors and routeresolver with pkg/openapi/helpers/helpers.go, and
--     pkg/server/util/rbac.go and tags.go.
--   Server/Logging and Server/Tracing: pkg/server/middleware/logging and opentelemetry, as what they log
--     and record of a request and its response.
--   Server/Capture and Server/Json: pkg/server/middleware/capture.go, as the calls that a handler makes of
--     the writer, and pkg/server/util/json.go and octet_stream.go.
--   Api/Scalars: pkg/apis/unikorn/v1alpha1/types.go. Provisioners/Namespace: pkg/provisioners/util/util.go.
--   Manager/Startup: pkg/manager/manager.go and pkg/client/client.go, over a state of the world that the
--     calls of controller-runtime change. Tools/License: hack/check_license/main.go.
--   Tools/DocsGenerate and Provisioners/Scheduling: hack/docs-generate/main.go and
--     pkg/provisioners/util/scheduling.go.
--   Client: pkg/client/http.go, with a handshake as what its clock and its loader give.
--   Messaging/Kubernetes, Manager/Readiness, Util/Resource and Tools/OpenApi:
--     pkg/messaging/kubernetes/messagequeue.go, pkg/manager/readiness.go, pkg/util/resource.go and
--     hack/validate_openapi/main.go.
--   Cache/LruExpire, Util/NatPrefix and Provisioners/Log: pkg/util/cache/lruexpirecache.go, GetNATPrefix
--     of pkg/util/util.go and pkg/provisioninglog/provisioninglog.go.
--   Tests: concrete instances of the parameters, and runs.
--
-- The loops run over lists or count down an index; only the hashing of Util/Resource has fuel, and any
-- fuel that reaches a UUID with a letter first is enough. Where the source indexes
-- a slice out of range or dereferences nil, the model has an error of its own or none. Not modelled:
-- locks and channels inside a critical section, logs for operators, JSON forms, flags, the
-- timeout middleware, the walk over files, generated code and mocks.
pub mod Base
pub mod Errors
pub mod Api
pub mod Provisioners
pub mod Cache
pub mod Cd
pub mod Client
pub mod Manager
pub mod Server
pub mod Messaging
pub mod Util
pub mod Tools
pub mod Tests

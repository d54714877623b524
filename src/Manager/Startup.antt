-- ===== src/Manager/Startup.antt =====
-- pkg/manager/manager.go and pkg/client/client.go: the start of a controller. The world `W` is what the
-- calls of other code change, and its types are parameters: the scheme, the configuration, the cache, the
-- client, the manager and the controller. Flags and logging are left out.
use uni_core.Base.{String, ◌≡◌, refl, Option, none, some, List, [], ◌∷◌, ◌++◌, arith}
use uni_core.Errors.{Result, ok, err}

-- A call that changes the world and may fail.
abbrev pub Action : Type 0 → Type 0 → Type 0
Action W A = W → Result A × W

abbrev bound : {W A B : Type 0} → Result A × W → (A → Action W B) → Result B × W
bound (ok a, w) next = next a w
bound (err e, w) next = (err e, w)

infixl 5 ◌>>=◌ ◌>>◌
abbrev pub ◌>>=◌ : {W A B : Type 0} → Action W A → (A → Action W B) → Action W B
◌>>=◌ m next w = bound (m w) next

abbrev pub ◌>>◌ : {W A B : Type 0} → Action W A → Action W B → Action W B
m >> next = m >>= λ a. next

-- An action that succeeds has a first step that succeeds, and what follows it does too.
ok_of_>>= :
    {W A B : Type 0} (m : Action W A) (next : A → Action W B) (w w' : W) (b : B)
    → (m >>= next) w ≡ (ok b, w')
    → (a : A) × (v : W) × (m w ≡ (ok a, v)) × (next a v ≡ (ok b, w'))
ok_of_>>= {W} {A} {B} m next w w' b h = by_result (m w) refl h
  where
    by_result :
        (r : Result A × W)
        → m w ≡ r
        → bound r next ≡ (ok b, w')
        → (a : A) × (v : W) × (m w ≡ (ok a, v)) × (next a v ≡ (ok b, w'))
    by_result (ok a, v) e g = (a, v, e, g)
    by_result (err x, v) e g = ground (arith)

abbrev pure : {W A : Type 0} → A → Action W A
pure a w = (ok a, w)

abbrev lift : {W A : Type 0} → Result A → Action W A
lift r w = (r, w)

abbrev pub SchemeAdder : Type 0 → Type 0
SchemeAdder Scheme = Scheme → Result Scheme

-- Other code. `default_adders` are those of Kubernetes and of the repository's types.
pub record Platform (W Scheme Config Cache Client Manager Controller Reconciler : Type 0)
    : Type 0 where
  pub empty_scheme : Scheme
  pub default_adders : List (SchemeAdder Scheme)
  pub setup_open_telemetry : Action W (Unit {0})
  pub get_config : Action W Config
  pub in_cluster_config : Action W Config
  pub new_cache : Config → Scheme → Action W Cache
  pub start_cache : Cache → W → W
  pub new_with_watch : Config → Scheme → Cache → Action W Client
  pub new_manager : Config → Scheme → String → Action W Manager
  pub new_controller : String → Manager → Reconciler → Action W Controller
  pub start : Manager → Action W (Unit {0})

-- ControllerFactory, with its optional ControllerUpgrader and ControllerInitializer.
pub record ControllerFactory (W Scheme Client Manager Controller Reconciler : Type 0) : Type 0 where
  pub name : String
  pub schemes : List (SchemeAdder Scheme)
  pub reconciler : Manager → Reconciler
  pub register_watches : Manager → Controller → Action W (Unit {0})
  pub upgrade : Option (Client → Action W (Unit {0}))
  pub initialize : Option (Manager → Action W (Unit {0}))

module _ {W Scheme Config Cache Client Manager Controller Reconciler : Type 0}
    (p : Platform W Scheme Config Cache Client Manager Controller Reconciler)
    (f : ControllerFactory W Scheme Client Manager Controller Reconciler) where
  -- NewScheme: the adders in order, up to the first error.
  unfoldable add_all : List (SchemeAdder Scheme) → Scheme → Result Scheme
  add_all [] scheme = ok scheme
  add_all (adder ∷ adders) scheme = elim (adder scheme) [
    | err e ↦ err e
    | ok scheme' ↦ add_all adders scheme'
  ]

  unfoldable new_scheme : List (SchemeAdder Scheme) → Result Scheme
  unfolding add_all
  new_scheme schemes = add_all (p.default_adders ++ schemes) p.empty_scheme

  unfoldable new_client : List (SchemeAdder Scheme) → Action W Client
  unfolding new_scheme
  new_client schemes = do
    config ← p.in_cluster_config
    scheme ← lift (new_scheme schemes)
    cache ← p.new_cache config scheme
    (λ w. (ok cache, p.start_cache cache w))
    p.new_with_watch config scheme cache

  unfoldable get_manager : Action W Manager
  unfolding new_scheme
  get_manager = do
    config ← p.get_config
    scheme ← lift (new_scheme f.schemes)
    p.new_manager config scheme f.name

  unfoldable get_controller : Manager → Action W Controller
  get_controller manager = p.new_controller f.name manager (f.reconciler manager)

  abbrev upgraded : Option (Client → Action W (Unit {0})) → Action W (Unit {0})
  upgraded none = pure tt
  upgraded (some upgrade) = do client ← new_client f.schemes; upgrade client

  unfoldable do_upgrade : Action W (Unit {0})
  unfolding new_client
  do_upgrade = upgraded f.upgrade

  abbrev initialized : Option (Manager → Action W (Unit {0})) → Manager → Action W (Unit {0})
  initialized none manager = pure tt
  initialized (some initialize) manager = initialize manager

  unfoldable do_initialize : Manager → Action W (Unit {0})
  do_initialize manager = initialized f.initialize manager

  -- An error exits the process with status 1.
  unfoldable run : Action W (Unit {0})
  unfolding do_upgrade get_manager do_initialize get_controller
  run = do
    p.setup_open_telemetry
    do_upgrade
    manager ← get_manager
    do_initialize manager
    controller ← get_controller manager
    f.register_watches manager controller
    p.start manager

  -- The steps of a start, each from the world that the one before it left.
  record Starts (w w' : W) : Type 0 where
    manager : Manager
    controller : Controller
    traced : W
    upgraded_to : W
    created : W
    initialized_to : W
    controlled : W
    watched : W
    traces : p.setup_open_telemetry w ≡ (ok tt, traced)
    upgrades : do_upgrade traced ≡ (ok tt, upgraded_to)
    creates : get_manager upgraded_to ≡ (ok manager, created)
    initializes : do_initialize manager created ≡ (ok tt, initialized_to)
    controls : get_controller manager initialized_to ≡ (ok controller, controlled)
    watches : f.register_watches manager controller controlled ≡ (ok tt, watched)
    starts : p.start manager watched ≡ (ok tt, w')

  -- A run that returns has upgraded the resources before there was a manager, has initialized what the
  -- controller needs before there was one, and has started the manager with its watches registered.
  run-Starts : (w w' : W) → run w ≡ (ok tt, w') → Starts w w'
  unfolding run
  run-Starts w w' h =
      let (a, traced, traces, rest) = ok_of_>>= p.setup_open_telemetry _ w w' tt h in
      let (b, upgraded_to, upgrades, rest') = ok_of_>>= do_upgrade _ traced w' tt rest in
      let (manager, created, creates, more) = ok_of_>>= get_manager _ upgraded_to w' tt rest' in
      let (c, initialized_to, initializes, more') =
        ok_of_>>= (do_initialize manager) _ created w' tt more in
      let (controller, controlled, controls, last) =
        ok_of_>>= (get_controller manager) _ initialized_to w' tt more' in
      let (d, watched, watches, starts) =
        ok_of_>>= (f.register_watches manager controller) _ controlled w' tt last in
      record {
        manager = manager;
        controller = controller;
        traced = traced;
        upgraded_to = upgraded_to;
        created = created;
        initialized_to = initialized_to;
        controlled = controlled;
        watched = watched;
        traces = traces;
        upgrades = upgrades;
        creates = creates;
        initializes = initializes;
        controls = controls;
        watches = watches;
        starts = starts;
      }

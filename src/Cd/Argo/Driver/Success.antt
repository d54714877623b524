-- ===== src/Cd/Argo/Driver/Success.antt =====
-- pkg/cd/argocd/driver.go: what a successful create or update stands for.
use uni_core.Base.{
  String, ◌≡◌, refl, ap, ◌⊎◌, inl, inr, Bool, true, false, Option, none, some, eq_iff, arith, not,
  ◌==◌, if◌then◌else◌,
}
use uni_core.Errors.{GoError, cd_not_found, is_error, Result, ok, err, sentinel, err_yield}
use uni_core.Cd.{ResourceIdentifier, HelmApplication}
use uni_core.Cd.Argo.{Application, ApplicationStatus, generate_application}
use uni_core.Cd.Argo.Driver.{
  ArgoClient, readiness, get_helm_application, create_or_update_helm_application, await, write,
  write_generated, judged,
}

-- The sync is done and the application is healthy, or degraded where that is allowed.
pub record IsReady (allow_degraded : Bool) (s : ApplicationStatus) : Type 0 where
  pub is_synced : s.sync ≡ some "Synced"
  pub is_well :
      (s.health ≡ some "Healthy") ⊎ ((allow_degraded ≡ true) × (s.health ≡ some "Degraded"))

judged-lem :
    (d : Bool) (health : String)
    → judged d health ≡ none
    → (health ≡ "Healthy") ⊎ ((d ≡ true) × (health ≡ "Degraded"))
judged-lem true health h = ground (arith, eq_iff health "Healthy", eq_iff health "Degraded")
judged-lem false health h = ground (arith, eq_iff health "Healthy")

by_sync :
    (d : Bool) (sync health : String) (same : Bool)
    → (same ≡ true → sync ≡ "Synced")
    → (if not same then some (sentinel err_yield) else judged d health) ≡ none
    → (sync ≡ "Synced") × ((health ≡ "Healthy") ⊎ ((d ≡ true) × (health ≡ "Degraded")))
by_sync d sync health true eq h = (eq refl, judged-lem d health h)
by_sync d sync health false eq h = ground (arith)

reported :
    {d : Bool} {health : String}
    → ((health ≡ "Healthy") ⊎ ((d ≡ true) × (health ≡ "Degraded")))
    → (some health ≡ some "Healthy") ⊎ ((d ≡ true) × (some health ≡ some "Degraded"))
reported (inl e) = inl (ap some e)
reported (inr both) = inr (both.0, ap some both.1)

by_status :
    (d : Bool) (sync health : Option String)
    → readiness d (record { health = health; sync = sync }) ≡ none
    → (sync ≡ some "Synced")
      × ((health ≡ some "Healthy") ⊎ ((d ≡ true) × (health ≡ some "Degraded")))
unfolding readiness
by_status d none health h = ground (arith)
by_status d (some s) none h = ground (arith)
by_status d (some s) (some health) h =
    let both = by_sync d s health (s == "Synced") (eq_iff s "Synced").0 h in
    (ap some both.0, reported both.1)

readiness-IsReady :
    (allow_degraded : Bool) (s : ApplicationStatus)
    → readiness allow_degraded s ≡ none
    → IsReady allow_degraded s
readiness-IsReady allow_degraded s h =
    let both = by_status allow_degraded s.sync s.health h in
    record { is_synced = both.0; is_well = both.1 }

module _ {W : Type 0} (cl : ArgoClient W) where
  -- What the server returned for the application that was written: it was created because none was
  -- listed, or the listed one was given the labels and the spec.
  pub data Written (id : ResourceIdentifier) (required : Application) (w w' : W) (a : Application)
      : Type 0 where
    created :
        (e : GoError) (w0 : W)
        → get_helm_application cl id w ≡ (err e, w0)
        → is_error e cd_not_found ≡ true
        → cl.create required w0 ≡ (ok a, w')
        → Written id required w w' a
    patched :
        (r : Application) (w0 : W)
        → get_helm_application cl id w ≡ (ok r, w0)
        → cl.patch (record r { labels = required.labels; spec = required.spec }) r w0 ≡ (ok a, w')
        → Written id required w w' a

  await-lem :
      (d : Bool) (answer : Result Application × W) (w' : W)
      → await cl d answer ≡ (none, w')
      → (a : Application) × ((answer ≡ (ok a, w')) × IsReady d a.status)
  await-lem d (err e, w) w' h = ground (arith)
  await-lem d (ok a, w) w' h =
      (a, (ap (λ x. (ok a, x)) (ap (λ r. r.1) h), readiness-IsReady d a.status (ap (λ r. r.0) h)))

  created_if :
      (d : Bool) (id : ResourceIdentifier) (required : Application) (w w' : W) (e : GoError)
      (w0 : W) (b : Bool)
      → get_helm_application cl id w ≡ (err e, w0)
      → is_error e cd_not_found ≡ b
      → (if not b then (some e, w0) else await cl d (cl.create required w0)) ≡ (none, w')
      → (a : Application) × (Written id required w w' a × IsReady d a.status)
  created_if d id required w w' e w0 false got found h = ground (arith)
  created_if d id required w w' e w0 true got found h =
      let (a, (answer, ready)) = await-lem d (cl.create required w0) w' h in
      (a, (created e w0 got found answer, ready))

  write-lem :
      (d : Bool) (id : ResourceIdentifier) (required : Application) (w w' : W)
      (got : Result Application × W)
      → get_helm_application cl id w ≡ got
      → write cl d required got ≡ (none, w')
      → (a : Application) × (Written id required w w' a × IsReady d a.status)
  write-lem d id required w w' (err e, w0) got h =
      created_if d id required w w' e w0 (is_error e cd_not_found) got refl h
  write-lem d id required w w' (ok r, w0) got h =
      let (a, (answer, ready)) =
        await-lem d (cl.patch (record r { labels = required.labels; spec = required.spec }) r w0) w'
          h in
      (a, (patched r w0 got answer, ready))

  written_of :
      (d : Bool) (id : ResourceIdentifier) (generated : Result Application) (w w' : W)
      → write_generated cl d id generated w ≡ (none, w')
      → (required a : Application) × ((generated ≡ ok required)
          × (Written id required w w' a × IsReady d a.status))
  written_of d id (err e) w w' h = ground (arith)
  written_of d id (ok required) w w' h =
      let (a, both) = write-lem d id required w w' (get_helm_application cl id w) refl h in
      (required, a, (refl, both))

  module _ {V : Type 0} (marshal : V → Result String) where
    -- A create or update that returns nil generated the resource, wrote it, and was told that it is ready.
    pub create_or_update-IsReady :
        (id : ResourceIdentifier) (app : HelmApplication V) (w w' : W)
        → create_or_update_helm_application cl marshal id app w ≡ (none, w')
        → (required a : Application) × ((generate_application marshal id app ≡ ok required)
            × (Written id required w w' a × IsReady app.allow_degraded a.status))
    unfolding create_or_update_helm_application
    create_or_update-IsReady id app w w' h =
        written_of app.allow_degraded id (generate_application marshal id app) w w' h

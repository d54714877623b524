-- ===== src/Cd/Argo/Driver/Deletion.antt =====
-- pkg/cd/argocd/driver.go: what a successful deletion stands for.
use uni_core.Base.{
  ◌≡◌, refl, ap, Bool, true, false, Option, none, some, is_some, arith, if◌then◌else◌, ◌∙◌,
}
use uni_core.Errors.{GoError, sentinel, err_yield, cd_not_found, is_error, Result, ok, err}
use uni_core.Cd.{ResourceIdentifier}
use uni_core.Cd.Argo.{Application}
use uni_core.Cd.Argo.Driver.{
  ArgoClient, get_helm_application, condemned, deleted, delete_patched, delete_found,
  delete_helm_application,
}

module _ {W : Type 0} (cl : ArgoClient W) where
  -- Why a deletion is done: no application is listed, or it is a background one and the application is
  -- being deleted, or was patched for deletion and the server took the delete.
  pub data Gone (background : Bool) (id : ResourceIdentifier) (w w' : W) : Type 0 where
    unlisted :
        (e : GoError)
        → get_helm_application cl id w ≡ (err e, w')
        → is_error e cd_not_found ≡ true
        → Gone background id w w'
    going :
        (a : Application)
        → background ≡ true
        → get_helm_application cl id w ≡ (ok a, w')
        → is_some a.deletion_timestamp ≡ true
        → Gone background id w w'
    requested :
        (a patched : Application) (w0 w1 : W)
        → background ≡ true
        → get_helm_application cl id w ≡ (ok a, w0)
        → is_some a.deletion_timestamp ≡ false
        → cl.patch (condemned cl a) a w0 ≡ (ok patched, w1)
        → cl.delete a w1 ≡ (none, w')
        → Gone background id w w'

  abbrev ended : W → Option GoError × W
  ended w = (none, w)

  abbrev waiting : Bool → W → Option GoError × W
  waiting background w = if background then (none, w) else (some (sentinel err_yield), w)

  deleted-lem :
      (background : Bool) (answer : Option GoError × W) (w' : W)
      → deleted cl background answer ≡ (none, w')
      → (background ≡ true) × (answer ≡ (none, w'))
  deleted-lem background (some e, w) w' h = ground (arith)
  deleted-lem true (none, w) w' h = (refl, h)
  deleted-lem false (none, w) w' h = ground (arith)

  requested_if :
      (background : Bool) (id : ResourceIdentifier) (a : Application) (w w0 w' : W)
      (answer : Result Application × W)
      → get_helm_application cl id w ≡ (ok a, w0)
      → is_some a.deletion_timestamp ≡ false
      → cl.patch (condemned cl a) a w0 ≡ answer
      → delete_patched cl background a answer ≡ (none, w')
      → Gone background id w w'
  requested_if background id a w w0 w' (err e, w1) got alive patch h = ground (arith)
  requested_if background id a w w0 w' (ok p, w1) got alive patch h =
      let (bg, answer) = deleted-lem background (cl.delete a w1) w' h in
      requested a p w0 w1 bg got alive patch answer

  going_if :
      (background : Bool) (id : ResourceIdentifier) (a : Application) (w w0 w' : W)
      → get_helm_application cl id w ≡ (ok a, w0)
      → is_some a.deletion_timestamp ≡ true
      → waiting background w0 ≡ (none, w')
      → Gone background id w w'
  going_if true id a w w0 w' got gone h =
      going a refl (got ∙ ap (λ x. (ok a, x)) (ap (λ r. r.1) h)) gone
  going_if false id a w w0 w' got gone h = ground (arith)

  gone_if :
      (background : Bool) (id : ResourceIdentifier) (a : Application) (w w0 w' : W)
      (going_away : Bool)
      → get_helm_application cl id w ≡ (ok a, w0)
      → is_some a.deletion_timestamp ≡ going_away
      → (if going_away
          then waiting background w0
          else delete_patched cl background a (cl.patch (condemned cl a) a w0))
        ≡ (none, w')
      → Gone background id w w'
  gone_if background id a w w0 w' true got is h = going_if background id a w w0 w' got is h
  gone_if background id a w w0 w' false got is h =
      requested_if background id a w w0 w' (cl.patch (condemned cl a) a w0) got is refl h

  unlisted_if :
      (background : Bool) (id : ResourceIdentifier) (w w0 w' : W) (e : GoError) (found : Bool)
      → get_helm_application cl id w ≡ (err e, w0)
      → is_error e cd_not_found ≡ found
      → (if found then (none, w0) else (some e, w0)) ≡ ended w'
      → Gone background id w w'
  unlisted_if background id w w0 w' e true got is h =
      unlisted e (got ∙ ap (λ x. (err e, x)) (ap (λ r. r.1) h)) is
  unlisted_if background id w w0 w' e false got is h = ground (arith)

  gone_of :
      (background : Bool) (id : ResourceIdentifier) (w w' : W) (got : Result Application × W)
      → get_helm_application cl id w ≡ got
      → delete_found cl background got ≡ (none, w')
      → Gone background id w w'
  gone_of background id w w' (err e, w0) got h =
      unlisted_if background id w w0 w' e (is_error e cd_not_found) got refl h
  gone_of background id w w' (ok a, w0) got h =
      gone_if background id a w w0 w' (is_some a.deletion_timestamp) got refl h

  -- A deletion that returns nil found no application, or is a background one of an application that is
  -- being deleted already or whose delete was accepted.
  pub delete-Gone :
      (id : ResourceIdentifier) (background : Bool) (w w' : W)
      → delete_helm_application cl id background w ≡ (none, w')
      → Gone background id w w'
  unfolding delete_helm_application
  delete-Gone id background w w' h =
      gone_of background id w w' (get_helm_application cl id w) refl h

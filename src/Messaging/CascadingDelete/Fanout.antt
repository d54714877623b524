-- ===== src/Messaging/CascadingDelete/Fanout.antt =====
-- Which resources an event deletes.
use mathlib.Core.Path.{fun_ext}
use uni_core.Base.{
  ℕ, ◌≡◌, refl, ap, ◌∙◌, Bool, true, false, Option, none, some, List, [], ◌∷◌, is_some, not, Dict,
  String, ◌==◌, if◌then◌else◌,
}
use uni_core.Errors.{GoError, sentinel, wrap, err_type_conversion, Result, ok, err}
use uni_core.Api.Object.{Object, Item, client_object, runtime_object}
use uni_core.Messaging.CascadingDelete.{
  Envelope, ListOptions, foreground, Cluster, CascadingDelete, list_options, delete_item,
  delete_listed, consume,
}

abbrev pub stop_at_error {ℓ} :
    {W : Type ℓ} → Option GoError × W → (W → Option GoError × W) → Option GoError × W
stop_at_error (none, w) k = k w
stop_at_error (some e, w) k = (some e, w)

-- What the package k8s.io/apimachinery/pkg/api/meta documents of EachListItem.
pub record IsCluster {ℓ} {W : Type ℓ} (cl : Cluster W) : Type ℓ where
  pub each_nil : (f : Item → W → Option GoError × W) (w : W) → cl.each_list_item [] f w ≡ (none, w)
  pub each_cons :
      (i : Item) (is : List Item) (f : Item → W → Option GoError × W) (w : W)
      → cl.each_list_item (i ∷ is) f w ≡ stop_at_error (f i w) (cl.each_list_item is f)

abbrev not_client_object : GoError
not_client_object =
    wrap "cannot convert from runtime object to client" (sentinel err_type_conversion)

-- The objects among the items that are not being deleted. An item that is not a client object is an
-- error in its place.
unfoldable pub live : List Item → List (Result Object)
live [] = []
live (runtime_object ∷ is) = err not_client_object ∷ live is
live (client_object o ∷ is) =
    let rest = live is in if is_some o.deletion_timestamp then rest else ok o ∷ rest

-- The resources of the namespace with the resource as the value of the label, or with any labels where
-- the consumer has none.
abbrev pub wanted : CascadingDelete → Envelope → ListOptions
wanted c envelope = record {
  namespace = c.namespace;
  label_selector =
      if c.resource_label == "" then none else some ((c.resource_label, envelope.resource_id) ∷ []);
}

module _ {ℓ} {W : Type ℓ} (cl : Cluster W) (c : CascadingDelete) where
  -- Foreground deletions in order, up to the first error.
  unfoldable pub delete_each : List (Result Object) → W → Option GoError × W
  delete_each [] w = (none, w)
  delete_each (err e ∷ rs) w = (some e, w)
  delete_each (ok o ∷ rs) w = stop_at_error (cl.delete o foreground w) (delete_each rs)

  -- What is to become of a listing.
  abbrev pub delete_live : Result (List Item) × W → Option GoError × W
  delete_live (err e, w) = (some e, w)
  delete_live (ok is, w) = delete_each (live is) w

  abbrev pub expected : Envelope → W → Option GoError × W
  expected envelope w =
      if is_some envelope.deletion_timestamp
      then delete_live (cl.list (wanted c envelope) w)
      else (none, w)

  step :
      (deleting : Bool) (o : Object) (os : List (Result Object)) (w : W)
      (k : W → Option GoError × W)
      → ((v : W) → k v ≡ delete_each os v)
      → stop_at_error (if deleting then (none, w) else cl.delete o foreground w) k
        ≡ delete_each (if deleting then os else ok o ∷ os) w
  unfolding delete_each
  step true o os w k h = h w
  step false o os w k h = ap (stop_at_error (cl.delete o foreground w)) (fun_ext h)

  walk :
      IsCluster cl
      → (is : List Item) (w : W)
      → cl.each_list_item is (delete_item cl c) w ≡ delete_each (live is) w
  unfolding delete_item live delete_each
  walk laws [] w = laws.each_nil _ w
  walk laws (runtime_object ∷ is) w = laws.each_cons runtime_object is (delete_item cl c) w
  walk laws (client_object o ∷ is) w =
      laws.each_cons (client_object o) is (delete_item cl c) w
      ∙ step (is_some o.deletion_timestamp) o (live is) w (cl.each_list_item is (delete_item cl c))
          (walk laws is)

  listed : IsCluster cl → (r : Result (List Item) × W) → delete_listed cl c r ≡ delete_live r
  listed laws (err e, w) = refl
  listed laws (ok is, w) = walk laws is w

  list_options-wanted : (envelope : Envelope) → list_options cl c envelope ≡ wanted c envelope
  unfolding list_options
  list_options-wanted envelope = by_label (c.resource_label == "")
    where
      selector : Option (Dict String)
      selector = some ((c.resource_label, envelope.resource_id) ∷ [])

      selecting : Option (Dict String) → ListOptions
      selecting o = record { namespace = c.namespace; label_selector = o }

      by_label :
          (b : Bool)
          → selecting (if not b then selector else none) ≡ selecting (if b then none else selector)
      by_label true = refl
      by_label false = refl

  -- With EachListItem as documented: an event of a live resource does nothing; one of a resource
  -- being deleted lists what is in the consumer's namespace with the resource's ID as the value of
  -- the consumer's label, or with any labels where it has none, and returns the error of the
  -- listing, or deletes in the foreground the objects not being deleted yet, in order up to the
  -- first error, where an item that is not a client object is an error in its place.
  pub consume_deletes :
      IsCluster cl → (envelope : Envelope) (w : W) → consume cl c envelope w ≡ expected envelope w
  unfolding consume
  consume_deletes laws envelope w = by_timestamp envelope.deletion_timestamp
    where
      by_timestamp :
          (t : Option ℕ)
          → (elim t [
            | none ↦ (none, w)
            | some n ↦ delete_listed cl c (cl.list (list_options cl c envelope) w)
          ])
            ≡ (if is_some t then delete_live (cl.list (wanted c envelope) w) else (none, w))
      by_timestamp none = refl
      by_timestamp (some n) =
          listed laws (cl.list (list_options cl c envelope) w)
          ∙ ap (λ o. delete_live (cl.list o w)) (list_options-wanted envelope)

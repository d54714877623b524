-- ===== src/Messaging/CascadingDelete.antt =====
-- pkg/messaging/types.go and pkg/messaging/consumer/cascadingdelete.go: the consumer that deletes the
-- local resources of a deleted resource. The lines that it logs are left out.
pub mod Fanout
use uni_core.Base.{
  ℕ, String, ◌≡◌, Bool, true, false, not, Option, none, some, List, [], ◌∷◌, Dict, ◌==◌, is_some,
  if◌then◌else◌,
}
use uni_core.Errors.{GoError, wrap, sentinel, err_type_conversion, Result, ok, err}
use uni_core.Api.Object.{Object, Item, client_object, runtime_object}

pub record Envelope : Type 0 where
  pub resource_id : String
  pub deletion_timestamp : Option ℕ

pub record ListOptions : Type 0 where
  pub namespace : String
  pub label_selector : Option (Dict String)

pub data Propagation : Type 0 where
  foreground background orphan : Propagation

-- The client over the state `W` of the cluster, and meta.EachListItem, whose callback is run on each
-- item in order until one returns an error.
pub record Cluster {ℓ} (W : Type ℓ) : Type ℓ where
  pub list : ListOptions → W → Result (List Item) × W
  pub delete : Object → Propagation → W → Option GoError × W
  pub each_list_item : List Item → (Item → W → Option GoError × W) → W → Option GoError × W

pub record CascadingDelete : Type 0 where
  pub namespace : String
  pub resource_label : String

module _ {ℓ} {W : Type ℓ} (cl : Cluster W) (c : CascadingDelete) where
  unfoldable pub list_options : Envelope → ListOptions
  list_options envelope =
      let selector =
        if not (c.resource_label == "")
        then some ((c.resource_label, envelope.resource_id) ∷ [])
        else none in
      record { namespace = c.namespace; label_selector = selector }

  unfoldable pub delete_item : Item → W → Option GoError × W
  delete_item runtime_object w =
      (some (wrap "cannot convert from runtime object to client" (sentinel err_type_conversion)), w)
  delete_item (client_object o) w =
      if is_some o.deletion_timestamp then (none, w) else cl.delete o foreground w

  abbrev pub delete_listed : Result (List Item) × W → Option GoError × W
  delete_listed (err e, w) = (some e, w)
  delete_listed (ok items, w) = cl.each_list_item items delete_item w

  unfoldable pub consume : Envelope → W → Option GoError × W
  unfolding list_options delete_item
  consume envelope w = elim envelope.deletion_timestamp [
    | none ↦ (none, w)
    | some t ↦ delete_listed (cl.list (list_options envelope) w)
  ]

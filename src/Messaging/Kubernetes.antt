-- ===== src/Messaging/Kubernetes.antt =====
-- pkg/messaging/kubernetes/messagequeue.go: the queue whose messages are the events of a Kubernetes
-- resource.
use uni_core.Base.{String, ◌≡◌, refl, Bool, none, some, List, [], ◌∷◌, map, if◌then◌else◌}
use uni_core.Errors.{GoError, sentinel, wrap, err_unsupported, Result, ok, err}
use uni_core.Api.Object.{Object}
use uni_core.Messaging.CascadingDelete.{Envelope}
use uni_core.Provisioners.Interface.{Outcome, Task, and_then, in_order, and_then-congr}

-- A copy of the prototype need not be a client object. `get` reads the object of the request.
pub record MessageQueue (W : Type 0) : Type 0 where
  pub prototype_is_object : Bool
  pub get : String → W → Result Object × W
  pub is_not_found : GoError → Bool
  pub consumers : List (Envelope → Task W)

abbrev envelope_of : Object → Envelope
envelope_of o = record { resource_id = o.name; deletion_timestamp = o.deletion_timestamp }

module _ {W : Type 0} where
  -- The consumers in order, up to the first that returns an error.
  unfoldable pub consume_each : List (Envelope → Task W) → Envelope → Task W
  consume_each [] envelope w = (none, w)
  consume_each (c ∷ cs) envelope w = and_then (c envelope w) (consume_each cs envelope)

  abbrev consume_found : MessageQueue W → Result Object × W → Outcome W
  consume_found q (err e, w) = if q.is_not_found e then (none, w) else (some e, w)
  consume_found q (ok o, w) = consume_each q.consumers (envelope_of o) w

  unfoldable pub reconcile : MessageQueue W → String → Task W
  unfolding consume_each
  reconcile q name w = if q.prototype_is_object then consume_found q (q.get name w) else (
    some (wrap "prototype copy could not be cast to client.Object" (sentinel err_unsupported)),
    w,
  )

  -- Consuming is calling the consumers in order, up to the first error.
  consume_each-in_order :
      (cs : List (Envelope → Task W)) (envelope : Envelope) (w : W)
      → consume_each cs envelope w ≡ in_order (map (λ c. c envelope) cs) w
  unfolding consume_each in_order
  consume_each-in_order [] envelope w = refl
  consume_each-in_order (c ∷ cs) envelope w =
      and_then-congr (c envelope w) (consume_each cs envelope) (in_order (map (λ c. c envelope) cs))
        (consume_each-in_order cs envelope)

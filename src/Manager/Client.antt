-- ===== src/Manager/Client.antt =====
-- What the manager uses of sigs.k8s.io/controller-runtime: a client over the state `W` of the cluster,
-- and the finalizer helpers of controllerutil, with the laws that their documentation states.
use uni_core.Base.{
  String, ◌≡◌, ◌≢◌, Bool, true, false, not, Option, none, some, List, [], ◌∷◌, contains,
}
use uni_core.Errors.{GoError, Result}
use uni_core.Api.Object.{Object, Item}

-- A call that writes takes the caller's object and gives what the server returns in its place.
-- `list` has the selection applied.
pub record Client {ℓ} (W : Type ℓ) : Type ℓ where
  pub get : String → W → Result Object × W
  pub list : W → Result (List Item) × W
  pub update : Object → W → Result Object × W
  pub status_update : Object → W → Result Object × W
  pub delete : Object → W → Option GoError × W
  pub is_not_found : GoError → Bool
  pub is_conflict : GoError → Bool

-- ContainsFinalizer, AddFinalizer and RemoveFinalizer, on the list of finalizers. The Boolean says
-- whether the list was changed.
pub record ControllerUtil : Type 0 where
  pub contains_finalizer : List String → String → Bool
  pub add_finalizer : List String → String → List String × Bool
  pub remove_finalizer : List String → String → List String × Bool

pub record IsControllerUtil (u : ControllerUtil) : Type 0 where
  pub contains_eq : (xs : List String) (f : String) → u.contains_finalizer xs f ≡ contains xs f
  pub add_updates : (xs : List String) (f : String) → (u.add_finalizer xs f).1 ≡ not (contains xs f)
  pub add_there : (xs : List String) (f : String) → contains (u.add_finalizer xs f).0 f ≡ true
  pub add_others :
      (xs : List String) (f g : String)
      → f ≢ g
      → contains (u.add_finalizer xs f).0 g ≡ contains xs g
  pub remove_updates : (xs : List String) (f : String) → (u.remove_finalizer xs f).1 ≡ contains xs f
  pub remove_gone : (xs : List String) (f : String) → contains (u.remove_finalizer xs f).0 f ≡ false
  pub remove_others :
      (xs : List String) (f g : String)
      → f ≢ g
      → contains (u.remove_finalizer xs f).0 g ≡ contains xs g

-- meta.EachListItem: the callback on each item in order; the first error ends the walk.
pub record ListWalker {ℓ} (W : Type ℓ) : Type ℓ where
  pub each_list_item : List Item → (Item → W → Option GoError × W) → W → Option GoError × W

abbrev pub stop_at_error {ℓ} :
    {W : Type ℓ} → Option GoError × W → (W → Option GoError × W) → Option GoError × W
stop_at_error (none, w) k = k w
stop_at_error (some e, w) k = (some e, w)

pub record IsListWalker {ℓ} {W : Type ℓ} (l : ListWalker W) : Type ℓ where
  pub each_nil : (f : Item → W → Option GoError × W) (w : W) → l.each_list_item [] f w ≡ (none, w)
  pub each_cons :
      (i : Item) (is : List Item) (f : Item → W → Option GoError × W) (w : W)
      → l.each_list_item (i ∷ is) f w ≡ stop_at_error (f i w) (l.each_list_item is f)

-- ===== src/Manager/Reference/Removal.antt =====
-- pkg/manager/reference.go: the removal of stale references as a selection, and what the references
-- of an object are.
use uni_core.Base.{
  String, ◌≡◌, refl, ap, ◌∙◌, Bool, true, false, not, ◌&&◌, Option, none, some, List, [], ◌∷◌,
  contains, ◌==◌, eq_iff, contains-select, if◌then◌else◌, arith,
}
use mathlib.Core.Path.{fun_ext}
use uni_core.Errors.{GoError, sentinel, wrap, err_type_conversion, Result, ok, err}
use uni_core.Api.Object.{Object, Item, client_object, runtime_object}
use uni_core.Manager.Client.{
  Client, ControllerUtil, IsControllerUtil, ListWalker, IsListWalker, stop_at_error,
}
use uni_core.Manager.Reference.{
  ignored, get_resource_references, conflict_yields, remove_from, remove_unless_kept,
  remove_resource_references, remove_from_listed,
}

module _ {ℓ} {W : Type ℓ} (cl : Client W) (u : ControllerUtil) (l : ListWalker W) where
  -- The updates of a list of objects in order, up to the first that fails or an error in the list.
  unfoldable pub update_each : List (Result Object) → W → Option GoError × W
  update_each [] w = (none, w)
  update_each (err e ∷ rs) w = (some e, w)
  update_each (ok o ∷ rs) w =
      stop_at_error (conflict_yields cl u l (cl.update o w)) (update_each rs)

  unfoldable pub is_stale : String → List String → Object → Bool
  is_stale reference ids o = not (contains ids o.name) && contains o.finalizers reference

  abbrev pub stripped : String → Object → Object
  stripped reference o = record o { finalizers = (u.remove_finalizer o.finalizers reference).0 }

  abbrev wrong_type : GoError
  wrong_type = wrap "resource not a client object" (sentinel err_type_conversion)

  -- The stale objects of a list, each without the reference. An item that is not a client object is
  -- an error in its place.
  unfoldable pub released : String → List String → List Item → List (Result Object)
  unfolding is_stale
  released reference ids [] = []
  released reference ids (runtime_object ∷ is) = err wrong_type ∷ released reference ids is
  released reference ids (client_object o ∷ is) =
      let rest = released reference ids is in
      if is_stale reference ids o then ok (stripped reference o) ∷ rest else rest

  abbrev pub update_listed : String → List String → Result (List Item) × W → Option GoError × W
  update_listed reference ids (err e, w) = (some e, w)
  update_listed reference ids (ok is, w) = update_each (released reference ids is) w

  module _ (laws : IsControllerUtil u) (walks : IsListWalker l) where
    walk_step :
        (kept has_it : Bool) (o' : Object) (os : List (Result Object)) (w : W)
        (k : W → Option GoError × W)
        → ((w' : W) → k w' ≡ update_each os w')
        → stop_at_error
            (if kept
              then (none, w)
              else if not has_it
              then (none, w)
              else conflict_yields cl u l (cl.update o' w))
            k
          ≡ update_each (if not kept && has_it then ok o' ∷ os else os) w
    unfolding update_each
    walk_step true b o' os w k h = h w
    walk_step false false o' os w k h = h w
    walk_step false true o' os w k h =
        ap (stop_at_error (conflict_yields cl u l (cl.update o' w))) (fun_ext h)

    walk :
        (reference : String) (ids : List String) (os : List Item) (w : W)
        → l.each_list_item os (remove_unless_kept cl u l reference ids) w
          ≡ update_each (released reference ids os) w
    unfolding remove_unless_kept remove_from released is_stale update_each
    walk reference ids [] w = walks.each_nil _ w
    walk reference ids (runtime_object ∷ os) w =
        walks.each_cons runtime_object os (remove_unless_kept cl u l reference ids) w
    walk reference ids (client_object o ∷ os) w =
        let o' : Object = stripped reference o in
        walks.each_cons (client_object o) os (remove_unless_kept cl u l reference ids) w
        ∙ ap
            (λ b.
              stop_at_error
                (if contains ids o.name
                  then (none, w)
                  else if not b
                  then (none, w)
                  else conflict_yields cl u l (cl.update o' w))
                (l.each_list_item os (remove_unless_kept cl u l reference ids)))
            (laws.remove_updates o.finalizers reference)
        ∙ walk_step (contains ids o.name) (contains o.finalizers reference) o'
            (released reference ids os) w
            (l.each_list_item os (remove_unless_kept cl u l reference ids)) (walk reference ids os)

    -- With finalizer helpers and EachListItem as documented, RemoveResourceReferences returns the
    -- error of the listing, or does the same as selecting from the list the objects whose ID is
    -- not kept and that hold the reference, and updating each without it in order up to the first
    -- failure, a conflict given back as a yield; an item that is not a client object is a failure
    -- in its place, the conversion error.
    pub remove_references_eq :
        (reference : String) (ids : List String) (w : W)
        → remove_resource_references cl u l reference ids w
          ≡ update_listed reference ids (cl.list w)
    unfolding remove_resource_references
    remove_references_eq reference ids w = listed (cl.list w)
      where
        listed :
            (r : Result (List Item) × W)
            → remove_from_listed cl u l reference ids r ≡ update_listed reference ids r
        listed (err e, w') = refl
        listed (ok os, w') = walk reference ids os w'

contains-references :
    (o : Object) (f : String)
    → contains (get_resource_references o) f ≡ (not (contains ignored f) && contains o.finalizers f)
unfolding get_resource_references
contains-references o f =
    ground (arith, contains-select (λ s. not (contains ignored s)) o.finalizers f)

-- With finalizer helpers as documented, removing a finalizer from an object takes exactly that
-- name out of the object's references.
pub references-stripped {ℓ} :
    {W : Type ℓ} (cl : Client W) (u : ControllerUtil) (l : ListWalker W)
    → IsControllerUtil u
    → (o : Object) (f g : String)
    → contains (get_resource_references (stripped cl u l f o)) g
      ≡ (not (f == g) && contains (get_resource_references o) g)
references-stripped cl u l laws o f g = ground (
  arith,
  contains-references o g,
  contains-references (stripped cl u l f o) g,
  laws.remove_gone o.finalizers f,
  laws.remove_others o.finalizers f g,
  eq_iff f g,
)

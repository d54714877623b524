-- ===== src/Cd/Argo/Source.antt =====
-- pkg/cd/argocd/driver.go: what of an identifier and of an application can be read back from the
-- resource that is generated for them.
use uni_core.Base.{
  String, ◌≡◌, refl, ap, sym, ◌∙◌, ◌⊎◌, inl, inr, true, false, none, some, List, [], ◌∷◌, ◌++◌, map,
  Dict, lookup, insert, has, lookup-insert, eq_iff, arith, ◌==◌, if◌then◌else◌, Bool-cases, is_some,
}
use mathlib.Core.Path.{ap₂}
use mathlib.Core.List.{append_assoc, append-nil}
use uni_core.Api.Names.{application_label}
use uni_core.Cd.{ResourceIdentifierLabel, ResourceIdentifier, HelmApplication}
use uni_core.Cd.Argo.{
  write_labels, application_labels, convert_application_id, convert_application, without, or_empty,
  render,
}

-- Writing the labels into `m` in order never meets a name that is already there.
abbrev pub AreNew : List ResourceIdentifierLabel → Dict String → Type 0
AreNew [] m = Unit
AreNew (l ∷ ls) m = (lookup l.name m ≡ none) × AreNew ls (insert l.name l.value m)

insert-new : (k v : String) (m : Dict String) → lookup k m ≡ none → insert k v m ≡ m ++ (k, v) ∷ []
unfolding lookup insert
insert-new k v [] h = refl
insert-new k v ((j, u) ∷ m) h = ground (arith, insert-new k v m)

without-append : (k : String) (m n : Dict String) → without k (m ++ n) ≡ without k m ++ without k n
unfolding without
without-append k [] n = refl
without-append k ((j, u) ∷ m) n = elim (Bool-cases (j == k)) [
  | inl same ↦ rw (same, without-append k m n)
  | inr other ↦ rw (other, without-append k m n)
]

apart : (k j : String) (m : Dict String) → has k m ≡ true → lookup j m ≡ none → (j == k) ≡ false
apart k j m h e = elim (Bool-cases (j == k)) [
  | inl same ↦ ground (arith, h, e, eq_iff j k)
  | inr other ↦ other
]

lookup-new :
    (k : String) (l : ResourceIdentifierLabel) (m : Dict String)
    → has k m ≡ true
    → lookup l.name m ≡ none
    → lookup k (insert l.name l.value m) ≡ lookup k m
lookup-new k l m h e =
    lookup-insert l.name k l.value m
    ∙ ap (λ b. if b then some l.value else lookup k m) (apart k l.name m h e)

without-insert :
    (k : String) (l : ResourceIdentifierLabel) (m : Dict String)
    → has k m ≡ true
    → lookup l.name m ≡ none
    → without k (insert l.name l.value m) ≡ without k m ++ (l.name, l.value) ∷ []
unfolding without
without-insert k l m h e =
    ap (without k) (insert-new l.name l.value m e)
    ∙ without-append k m ((l.name, l.value) ∷ [])
    ∙ ap (λ b. without k m ++ (if b then [] else (l.name, l.value) ∷ [])) (apart k l.name m h e)

without-write :
    (k : String) (ls : List ResourceIdentifierLabel) (m : Dict String)
    → has k m ≡ true
    → AreNew ls m
    → without k (write_labels ls m) ≡ without k m ++ map (λ l. (l.name, l.value)) ls
unfolding write_labels
without-write k [] m h new = sym (append-nil (without k m))
without-write k (l ∷ ls) m h new =
    without-write k ls (insert l.name l.value m) (ap is_some (lookup-new k l m h new.0) ∙ h) new.1
    ∙ ap (λ r. r ++ map (λ l. (l.name, l.value)) ls) (without-insert k l m h new.0)
    ∙ append_assoc (without k m) ((l.name, l.value) ∷ []) (map (λ l. (l.name, l.value)) ls)

lookup-write :
    (k : String) (ls : List ResourceIdentifierLabel) (m : Dict String)
    → has k m ≡ true
    → AreNew ls m
    → lookup k (write_labels ls m) ≡ lookup k m
unfolding write_labels
lookup-write k [] m h new = refl
lookup-write k (l ∷ ls) m h new =
    lookup-write k ls (insert l.name l.value m) (ap is_some (lookup-new k l m h new.0) ∙ h) new.1
    ∙ lookup-new k l m h new.0

abbrev label_of : String × String → ResourceIdentifierLabel
label_of e = record { name = e.0; value = e.1 }

read_back :
    (ls : List ResourceIdentifierLabel) → map label_of (map (λ l. (l.name, l.value)) ls) ≡ ls
read_back [] = refl
read_back (l ∷ ls) = ap (λ r. l ∷ r) (read_back ls)

abbrev identified : String → List ResourceIdentifierLabel → ResourceIdentifier
identified name labels = record { name = name; labels = labels }

-- If the names of an identifier's labels are distinct and none is that of the application label,
-- the identifier is read back from the resource that is generated for it, where the entries of its
-- label map are taken in the order in which they were written.
pub convert_application_id-render :
    {V : Type 0}
    → (id : ResourceIdentifier) (app : HelmApplication V) (values : String)
    → AreNew id.labels (insert application_label id.name [])
    → convert_application_id (render id app values) ≡ id
unfolding convert_application_id render application_labels insert lookup
convert_application_id-render id app values new =
    let first = insert application_label id.name [] in
    let there : has application_label first ≡ true = refl in
    ap₂ identified (ap or_empty (lookup-write application_label id.labels first there new)) (
      ap (map label_of) (without-write application_label id.labels first there new)
      ∙ read_back id.labels)

-- The parts of an application that say where its chart is.
abbrev pub source_of : {V : Type 0} → HelmApplication V → String × String × String × String × String
source_of app = (app.repo, app.chart, app.branch, app.path, app.version)

-- A chart of a Helm repository in a version, or a path of a Git repository on a branch.
abbrev pub IsSourced : {V : Type 0} → HelmApplication V → Type 0
IsSourced app =
    (((app.chart == "") ≡ false) × (app.path ≡ "") × (app.branch ≡ ""))
    ⊎ ((app.chart ≡ "")
        × ((app.path == "") ≡ false)
        × ((app.branch == "") ≡ false)
        × (app.version ≡ ""))

-- The repository, chart, branch, path and version of a chart application, or of a Git application
-- without a version, are read back from the resource that is generated.
pub convert_application-render :
    {V : Type 0}
    → (id : ResourceIdentifier) (app : HelmApplication V) (values : String) → IsSourced app
    → source_of (convert_application {V = V} (render id app values)) ≡ source_of app
unfolding convert_application render
convert_application-render id app values (inl chart) = rw (chart.0, chart.1, chart.2)
convert_application-render id app values (inr git) = rw (git.0, git.1, git.2, git.3)

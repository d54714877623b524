-- ===== src/Tools/DocsGenerate.antt =====
-- hack/docs-generate/main.go: the documents that are made from templates and variables. The file system,
-- the YAML and JSON pointer packages and text/template are parameters over the state `W` of the files; closing a file
-- is left out.
use uni_core.Base.{
  String, ◌≡◌, refl, sym, subst, ◌∙◌, Option, none, some, List, [], ◌∷◌, map, Dict, insert, arith,
}
use uni_core.Errors.{Result, ok, err, ◌>>=◌}
use uni_core.Provisioners.Interface.{
  Task, and_then, and_then-congr, in_order, AllSucceed, Explains, in_order-Explains,
}

pub record YamlVariable : Type 0 where
  pub file : String
  pub pointer : String

pub record Variable : Type 0 where
  pub name : String
  pub yaml : Option YamlVariable

pub record File : Type 0 where
  pub in_path : String
  pub out_path : String

pub record Config : Type 0 where
  pub variables : List Variable
  pub files : List File

-- `D` is a document that YAML gives, and what is in one; `T` is a template. An open file is its path.
pub record System {ℓ} (D T : Type 0) (W : Type ℓ) : Type ℓ where
  pub read_file : String → W → Result String
  pub unmarshal_config : String → Result Config
  pub unmarshal : String → Result D
  pub new_pointer : String → Result (D → Result D)
  pub parse_files : String → W → Result T
  pub create : String → Task W
  pub write_string : String → String → Task W
  pub execute : T → String → Dict D → Task W

module _ {ℓ} {D T : Type 0} {W : Type ℓ} (sys : System D T W) where
  unfoldable load_config : W → Result Config
  load_config w = do raw ← sys.read_file "docs-generate.yaml" w; sys.unmarshal_config raw

  -- The value of a variable in the file that it names.
  unfoldable yaml_value : W → YamlVariable → Result D
  yaml_value w y = do
    text ← sys.read_file y.file w
    document ← sys.unmarshal text
    pointer ← sys.new_pointer y.pointer
    pointer document

  -- The loop over the variables; one with no source is passed over.
  unfoldable load_each : W → List Variable → Dict D → Result (Dict D)
  unfolding yaml_value
  load_each w [] out = ok out
  load_each w (v ∷ vs) out = elim v.yaml [
    | none ↦ load_each w vs out
    | some y ↦ yaml_value w y >>= (λ value. load_each w vs (insert v.name value out))
  ]

  unfoldable load_variables : W → Config → Result (Dict D)
  unfolding load_each
  load_variables w config = load_each w config.variables []

  abbrev rendered : String → Dict D → Result T → Task W
  rendered out variables (err e) w = (some e, w)
  rendered out variables (ok template) w = and_then (sys.create out w) (λ w1.
      and_then (sys.write_string out "<!-- THIS FILE IS AUTO-GENERATED. DO NOT EDIT -->\n\n" w1)
        (sys.execute template out variables))

  unfoldable render_file : Dict D → File → Task W
  render_file variables file w = rendered file.out_path variables (sys.parse_files file.in_path w) w

  unfoldable render_each : Dict D → List File → Task W
  unfolding render_file
  render_each variables [] w = (none, w)
  render_each variables (f ∷ fs) w = and_then (render_file variables f w) (render_each variables fs)

  abbrev with_variables : Config → Result (Dict D) → Task W
  with_variables config (err e) w = (some e, w)
  with_variables config (ok variables) w = render_each variables config.files w

  abbrev with_config : Result Config → Task W
  with_config (err e) w = (some e, w)
  with_config (ok config) w = with_variables config (load_variables w config) w

  -- The error that the tool prints before it exits with 1, or nil.
  unfoldable main : Task W
  unfolding load_config load_variables render_each
  main w = with_config (load_config w) w

  render_each-in_order :
      (variables : Dict D) (fs : List File) (w : W)
      → render_each variables fs w ≡ in_order (map (render_file variables) fs) w
  unfolding render_each in_order
  render_each-in_order variables [] w = refl
  render_each-in_order variables (f ∷ fs) w =
      and_then-congr (render_file variables f w) _ _ (render_each-in_order variables fs)

  -- The configuration and its variables were read, and each file was rendered with all variables, in
  -- order, from the first state to the last.
  record IsGenerated (w v : W) : Type ℓ where
    config : Config
    variables : Dict D
    is_loaded : load_config w ≡ ok config
    are_loaded : load_variables w config ≡ ok variables
    all_rendered : AllSucceed (map (render_file variables) config.files) w v

  variables-IsGenerated :
      (w v : W) (config : Config) (r : Result (Dict D))
      → load_config w ≡ ok config
      → load_variables w config ≡ r
      → with_variables config r w ≡ (none, v)
      → IsGenerated w v
  variables-IsGenerated w v config (err e) c l h = ground arith
  variables-IsGenerated w v config (ok variables) c l h = record {
    config = config;
    variables = variables;
    is_loaded = c;
    are_loaded = l;
    all_rendered =
        subst (Explains (map (render_file variables) config.files) w)
          (sym (render_each-in_order variables config.files w) ∙ h)
          (in_order-Explains (map (render_file variables) config.files) w);
  }

  config-IsGenerated :
      (w v : W) (r : Result Config)
      → load_config w ≡ r
      → with_config r w ≡ (none, v)
      → IsGenerated w v
  config-IsGenerated w v (err e) c h = ground arith
  config-IsGenerated w v (ok config) c h =
      variables-IsGenerated w v config (load_variables w config) c refl h

  -- A run without an error has rendered each file of the configuration with its variables.
  main-IsGenerated : (w v : W) → main w ≡ (none, v) → IsGenerated w v
  unfolding main
  main-IsGenerated w v h = config-IsGenerated w v (load_config w) refl h

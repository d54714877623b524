-- ===== src/Provisioners/Errors/Disposition.antt =====
-- What the errors of pkg/provisioners/errors.go mean to the code that they reach, through any wrapping.
use uni_core.Base.{String, ℕ, ◌≡◌, refl, sym, subst, ◌∙◌, Bool, true, false, not, some, Dict}
use uni_core.Errors.{
  Sentinel, err_yield, err_terminal, err_user_action_required, GoError, wrap, http_caused,
  ProvisioningError, is_error, as_provisioning,
}
use uni_core.Provisioners.Errors.{
  Described, as_error, terminal, user_action_required, yield, dependency_not_ready,
  dependency_failed, dependency_not_found, is_terminal,
}

-- What is to be done: to try again, to give up, or to wait for the user to change the resource.
pub data Disposition : Type 0 where
  retry give_up ask_user : Disposition

abbrev pub is_retry : Disposition → Bool
is_retry retry = true
is_retry give_up = false
is_retry ask_user = false

abbrev pub is_give_up : Disposition → Bool
is_give_up retry = false
is_give_up give_up = true
is_give_up ask_user = false

abbrev pub is_ask_user : Disposition → Bool
is_ask_user retry = false
is_ask_user give_up = false
is_ask_user ask_user = true

-- The error is one that a constructor makes, which is to have the disposition. A dependency that is
-- missing is given up on, and one that is not ready or has failed is waited for.
pub data Made (quote : String → String) (p : ProvisioningError) : Disposition → Type 0 where
  by_terminal : (reason message : String) → p ≡ terminal reason message → Made quote p give_up
  by_user_action_required :
      (reason message : String) → p ≡ user_action_required reason message → Made quote p ask_user
  by_yield : (reason message : String) → p ≡ yield reason message → Made quote p retry
  by_dependency_not_ready : (o : Described) → p ≡ dependency_not_ready quote o → Made quote p retry
  by_dependency_failed : (o : Described) → p ≡ dependency_failed quote o → Made quote p retry
  by_dependency_not_found :
      (o : Described) → p ≡ dependency_not_found quote o → Made quote p give_up

-- The error is in the chain of another: fmt.Errorf wrapped it, or it is the cause of an API error.
pub data Wraps (inner : GoError) : GoError → Type 0 where
  itself : Wraps inner inner
  in_text : (text : String) (e : GoError) → Wraps inner e → Wraps inner (wrap text e)
  as_cause :
      (status : ℕ) (code description : String) (header : Dict String) (e : GoError)
      → Wraps inner e
      → Wraps inner (http_caused status code description header e)

-- What errors.Is, IsTerminal and errors.As say of an error with the disposition.
abbrev pub Behaves : Disposition → ProvisioningError → GoError → Type 0
Behaves d p e =
    (is_error e err_yield ≡ is_retry d)
    × (is_error e err_terminal ≡ is_give_up d)
    × (is_error e err_user_action_required ≡ is_ask_user d)
    × (is_terminal e ≡ not (is_retry d))
    × (as_provisioning e ≡ some p)

Wraps-is_error :
    {inner e : GoError} → Wraps inner e → (s : Sentinel) → is_error e s ≡ is_error inner s
unfolding is_error
Wraps-is_error itself s = refl
Wraps-is_error (in_text text e w) s = Wraps-is_error w s
Wraps-is_error (as_cause status code description header e w) s = Wraps-is_error w s

Wraps-as_provisioning :
    {inner e : GoError} → Wraps inner e → as_provisioning e ≡ as_provisioning inner
unfolding as_provisioning
Wraps-as_provisioning itself = refl
Wraps-as_provisioning (in_text text e w) = Wraps-as_provisioning w
Wraps-as_provisioning (as_cause status code description header e w) = Wraps-as_provisioning w

Made-Behaves :
    (quote : String → String) (p : ProvisioningError) (d : Disposition)
    → Made quote p d
    → Behaves d p (as_error p)
unfolding terminal user_action_required yield dependency_not_ready dependency_failed
    dependency_not_found is_terminal is_error as_provisioning
Made-Behaves quote p d (by_terminal reason message e) =
    subst (λ q. Behaves give_up q (as_error q)) (sym e) (refl, refl, refl, refl, refl)
Made-Behaves quote p d (by_user_action_required reason message e) =
    subst (λ q. Behaves ask_user q (as_error q)) (sym e) (refl, refl, refl, refl, refl)
Made-Behaves quote p d (by_yield reason message e) =
    subst (λ q. Behaves retry q (as_error q)) (sym e) (refl, refl, refl, refl, refl)
Made-Behaves quote p d (by_dependency_not_ready o e) =
    subst (λ q. Behaves retry q (as_error q)) (sym e) (refl, refl, refl, refl, refl)
Made-Behaves quote p d (by_dependency_failed o e) =
    subst (λ q. Behaves retry q (as_error q)) (sym e) (refl, refl, refl, refl, refl)
Made-Behaves quote p d (by_dependency_not_found o e) =
    subst (λ q. Behaves give_up q (as_error q)) (sym e) (refl, refl, refl, refl, refl)

-- An error of the constructors, wrapped by fmt.Errorf or as the cause of an API error to any
-- depth: errors.Is finds ErrYield in it exactly for the yields, dependencies not ready and failed
-- dependencies, ErrTerminal for the terminal errors and missing dependencies,
-- ErrUserActionRequired where the user is to act; IsTerminal holds of the last two, not of the
-- first; and errors.As finds its own reason and message.
pub wrapped_disposition :
    (quote : String → String) (p : ProvisioningError) (d : Disposition) (e : GoError)
    → Made quote p d
    → Wraps (as_error p) e
    → Behaves d p e
wrapped_disposition quote p d e made wraps =
    let (retries, ends, asks, settles, typed) = Made-Behaves quote p d made in
    (
      Wraps-is_error wraps err_yield ∙ retries,
      Wraps-is_error wraps err_terminal ∙ ends,
      Wraps-is_error wraps err_user_action_required ∙ asks,
      Wraps-is_terminal ∙ settles,
      Wraps-as_provisioning wraps ∙ typed,
    )
  where
    Wraps-is_terminal : is_terminal e ≡ is_terminal (as_error p)
    Wraps-is_terminal =
        unfold is_terminal in
        rw (Wraps-is_error wraps err_terminal, Wraps-is_error wraps err_user_action_required) refl

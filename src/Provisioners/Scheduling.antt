-- ===== src/Provisioners/Scheduling.antt =====
-- pkg/provisioners/util/scheduling.go: what a managed service gives to be scheduled on the control plane.
use uni_core.Base.{String, ◌≡◌, refl, some, List, [], ◌∷◌, All, Dict, lookup}

-- A toleration or a selector as it is rendered, whose values are all strings.
abbrev control_plane_tolerations : List (Dict String)
control_plane_tolerations =
    (("key", "node-role.kubernetes.io/control-plane") ∷ ("effect", "NoSchedule") ∷ []) ∷ []

abbrev control_plane_node_selector : Dict String
control_plane_node_selector = ("node-role.kubernetes.io/control-plane", "") ∷ []

abbrev control_plane_init_tolerations : List (Dict String)
control_plane_init_tolerations =
    (("key", "node.cloudprovider.kubernetes.io/uninitialized")
      ∷ ("effect", "NoSchedule")
      ∷ ("value", "true")
      ∷ [])
    ∷ (("key", "node.cilium.io/agent-not-ready")
        ∷ ("effect", "NoSchedule")
        ∷ ("value", "true")
        ∷ [])
    ∷ []

-- Every toleration is for the effect NoSchedule alone.
tolerations-no_schedule :
    All (λ t. lookup "effect" t ≡ some "NoSchedule") control_plane_tolerations
    × All (λ t. lookup "effect" t ≡ some "NoSchedule") control_plane_init_tolerations
unfolding lookup
tolerations-no_schedule = ((refl, tt), (refl, (refl, tt)))

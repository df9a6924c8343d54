-- ===== src/Controller/JobType/Pods.antt =====
-- What patchPodSpecWithRoleSpec of pkg/controller/pintajob/type/helper.go does to the spec of a pod.
use pinta_scheduler.Prelude.{
  String, ◌≡◌, refl, sym, subst, true, not, ◌&&◌, Option, none, some, List, [], ◌∷◌, arith, str_eq,
  if◌then◌else◌, is_some,
}
use pinta_scheduler.Dict.{Dict, lookup, entries}
use pinta_scheduler.Dict.Laws.{lookup-insert}
use pinta_scheduler.Info.Node.{type_label}
use pinta_scheduler.Api.{Container, PodSpec, RoleSpec}
use pinta_scheduler.Controller.Result.{ok}
use pinta_scheduler.Controller.JobType.{
  Translate, patch_node_selector_with_node_type, patch_pod_spec_with_role_spec, set_limits,
  has_container,
}

module _ {Q : Type 0} where
  module _ (translate_resources : Translate Q) where
    -- There is a first container, which gets the translated resources as its limits and is otherwise as
    -- it was, as are the containers behind it.
    abbrev pub FirstLimited : Dict Q → String → List (Container Q) → List (Container Q) → Type 0
    FirstLimited resources node_type before after =
        (c : Container Q) × (rest : List (Container Q)) × (limits : Dict Q) × (translate_resources
            resources node_type
          ≡ ok limits)
        × (before ≡ c ∷ rest)
        × (after ≡ record c { limits = limits } ∷ rest)

    patch_pod_spec_ok :
        (pod pod' : PodSpec Q) (role : RoleSpec Q)
        → patch_pod_spec_with_role_spec translate_resources (some pod) (some role) ≡ ok pod'
        → ((limits : Dict Q) × (translate_resources role.resources role.node_type ≡ ok limits)
            × (pod'.containers ≡ set_limits limits pod.containers)
            × (pod'.node_selector
                ≡ patch_node_selector_with_node_type pod.node_selector role.node_type))
          × (has_container translate_resources pod.containers ≡ true)
    unfolding patch_pod_spec_with_role_spec
    patch_pod_spec_ok pod pod' role e = (ground arith, ground arith)

    first_limited :
        (resources limits : Dict Q) (node_type : String) (cs : List (Container Q))
        → translate_resources resources node_type ≡ ok limits
        → has_container translate_resources cs ≡ true
        → FirstLimited resources node_type cs (set_limits limits cs)
    first_limited resources limits node_type [] e some_container = absurd cc
    first_limited resources limits node_type (c ∷ cs) e some_container =
        (c, cs, limits, e, refl, refl)

    lookup-patch_node_selector :
        (m : Option (Dict String)) (t k : String)
        → (is_some (patch_node_selector_with_node_type m t) ≡ is_some m)
          × (lookup k (entries (patch_node_selector_with_node_type m t)) ≡ (
              if is_some m && not (str_eq t "") && str_eq type_label k
              then some t
              else lookup k (entries m)))
    unfolding patch_node_selector_with_node_type
    lookup-patch_node_selector none t k = (refl, refl)
    lookup-patch_node_selector (some m) t k = ground (arith, lookup-insert k type_label t m)

    -- Where `patchPodSpecWithRoleSpec` succeeds, there is a first container, which gets the translated
    -- resources of the role as its limits and is otherwise as it was, and the other containers are as
    -- they were. A node selector that was
    -- there gets the role's node type if that is not empty; a nil one stays nil.
    pub patch_pod_spec_with_role_spec_lem :
        (pod pod' : PodSpec Q) (role : RoleSpec Q) (k : String)
        → patch_pod_spec_with_role_spec translate_resources (some pod) (some role) ≡ ok pod'
        → FirstLimited role.resources role.node_type pod.containers pod'.containers
          × (is_some pod'.node_selector ≡ is_some pod.node_selector)
          × (lookup k (entries pod'.node_selector) ≡ (
              if is_some pod.node_selector && not (str_eq role.node_type "") && str_eq type_label k
              then some role.node_type
              else lookup k (entries pod.node_selector)))
    patch_pod_spec_with_role_spec_lem pod pod' role k e =
        let ((limits, translated, same, patched_selector), some_container) =
          patch_pod_spec_ok pod pod' role e in
        let limited =
          subst (λ cs. FirstLimited role.resources role.node_type pod.containers cs) (sym same)
            (first_limited role.resources limits role.node_type pod.containers translated
              some_container) in
        let (there, at) = lookup-patch_node_selector pod.node_selector role.node_type k in
        (limited, rw patched_selector there, rw patched_selector at)

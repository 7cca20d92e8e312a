-- ===== src/Kube/Targets/Agree.antt =====
-- The kinds that the interface lets through for deletion, against those that the client can delete.
use beaverdeck.Base.{
  ◌≡◌, refl, Bool, false, ◌||◌, Option, none, some, [], ◌∷◌, ◌++◌, Bool-cases, inl, inr, arith,
  if◌then◌else◌, List, String, is_some,
}
use beaverdeck.Text.{Str, Str_discrete, codes, one_of, trim_space, to_lower}
use beaverdeck.Api.Kinds.{
  custom_resource_crd_name, delete_permission_of_kind, permission_delete_target,
}
use beaverdeck.Kube.Targets.{
  GroupVersionResource, delete_target_of_kind, delete_target_for_kind, custom_resource_reference,
}

-- The resource of the permissions that covers a resource of the cluster.
unfoldable pub permission_resource : Str → Str
permission_resource resource =
    if one_of resource ("deployments" ∷ "statefulsets" ∷ "daemonsets" ∷ "jobs" ∷ "cronjobs" ∷ [])
    then codes "workloads"
    else if one_of resource ("roles" ∷ "rolebindings" ∷ [])
    then codes "rbacroles"
    else if one_of resource ("clusterroles" ∷ "clusterrolebindings" ∷ [])
    then codes "clusterroles"
    else if one_of resource ("persistentvolumeclaims" ∷ [])
    then codes "pvcs"
    else if one_of resource ("persistentvolumes" ∷ [])
    then codes "pvs"
    else if one_of resource ("customresourcedefinitions" ∷ [])
    then codes "crds"
    else resource

unfoldable pub permission_of : Option (GroupVersionResource × Bool) → Option (Str × Bool)
permission_of none = none
permission_of (some (target, namespaced)) = some (permission_resource target.resource, namespaced)

one_of-append : (k : Str) (xs ys : List String) → one_of k (xs ++ ys) ≡ one_of k xs || one_of k ys
unfolding one_of
one_of-append k [] ys = refl
one_of-append k (x ∷ xs) ys = ground (arith, one_of-append k xs ys)

-- One case of a switch against the first part of a case of another.
module _ (k : Str) (covered : Option (Str × Bool)) (rest : Option (Str × Bool))
    (target others : Option (GroupVersionResource × Bool)) where
  same_case :
      (names : List String)
      → covered ≡ permission_of target
      → rest ≡ permission_of others
      → (if one_of k names then covered else rest)
        ≡ permission_of (if one_of k names then target else others)
  same_case names same h = elim (Bool-cases (one_of k names)) [
    | inl taken ↦ rw taken same
    | inr passed ↦ rw passed h
  ]

  part_of_case :
      (names more : List String)
      → covered ≡ permission_of target
      → (if one_of k more then covered else rest) ≡ permission_of others
      → (if one_of k (names ++ more) then covered else rest)
        ≡ permission_of (if one_of k names then target else others)
  part_of_case names more same h =
      rw one_of-append (elim (Bool-cases (one_of k names)) [
        | inl taken ↦ rw taken same
        | inr passed ↦ rw passed h
      ])

agree : (k : Str) → delete_permission_of_kind k ≡ permission_of (delete_target_of_kind k)
unfolding delete_permission_of_kind delete_target_of_kind permission_of permission_resource one_of
    Str_discrete
agree k = same_case k _ _ _ _ ("pod" ∷ "pods" ∷ []) refl (
    part_of_case k _ _ _ _ ("deployment" ∷ "deployments" ∷ [])
      ("statefulset" ∷ "statefulsets" ∷ "daemonset" ∷ "daemonsets" ∷ "job" ∷ "jobs" ∷ "cronjob"
        ∷ "cronjobs" ∷ [])
      refl
      (part_of_case k _ _ _ _ ("statefulset" ∷ "statefulsets" ∷ [])
        ("daemonset" ∷ "daemonsets" ∷ "job" ∷ "jobs" ∷ "cronjob" ∷ "cronjobs" ∷ []) refl
        (part_of_case k _ _ _ _ ("daemonset" ∷ "daemonsets" ∷ [])
          ("job" ∷ "jobs" ∷ "cronjob" ∷ "cronjobs" ∷ []) refl
          (part_of_case k _ _ _ _ ("job" ∷ "jobs" ∷ []) ("cronjob" ∷ "cronjobs" ∷ []) refl (
            same_case k _ _ _ _ ("cronjob" ∷ "cronjobs" ∷ []) refl (
              same_case k _ _ _ _ ("service" ∷ "services" ∷ []) refl (
                same_case k _ _ _ _ ("ingress" ∷ "ingresses" ∷ []) refl (
                  same_case k _ _ _ _ ("configmap" ∷ "configmaps" ∷ []) refl (
                    same_case k _ _ _ _ ("secret" ∷ "secrets" ∷ []) refl (
                      same_case k _ _ _ _ ("serviceaccount" ∷ "serviceaccounts" ∷ []) refl (
                        part_of_case k _ _ _ _ ("role" ∷ "roles" ∷ [])
                          ("rolebinding" ∷ "rolebindings" ∷ []) refl
                          (same_case k _ _ _ _ ("rolebinding" ∷ "rolebindings" ∷ []) refl (
                            part_of_case k _ _ _ _ ("clusterrole" ∷ "clusterroles" ∷ [])
                              ("clusterrolebinding" ∷ "clusterrolebindings" ∷ []) refl
                              (same_case k _ _ _ _
                                ("clusterrolebinding" ∷ "clusterrolebindings" ∷ []) refl
                                (same_case k _ _ _ _
                                  ("pvc" ∷ "persistentvolumeclaim" ∷ "persistentvolumeclaims" ∷ [])
                                  refl
                                  (same_case k _ _ _ _
                                    ("pv" ∷ "persistentvolume" ∷ "persistentvolumes" ∷ []) refl
                                    (same_case k _ _ _ _ ("storageclass" ∷ "storageclasses" ∷ [])
                                      refl
                                      (same_case k _ _ _ _
                                        ("crd" ∷ "customresourcedefinition"
                                          ∷ "customresourcedefinitions" ∷ [])
                                        refl (refl)))))))))))))))))))

-- The interface and the client agree on what a kind to delete is: they take the same kinds for custom
-- resources; of the others they know the same ones and take the same ones for namespaced, and the
-- permission that is asked for is the one that covers what the client deletes.
pub permission_delete_target-agrees :
    (kind : Str)
    → (custom_resource_reference kind ≡ custom_resource_crd_name kind)
      × (permission_delete_target kind ≡ (
          if is_some (custom_resource_reference kind)
          then some (codes "crds", false)
          else permission_of (delete_target_for_kind kind)))
unfolding custom_resource_reference custom_resource_crd_name permission_delete_target
    delete_target_for_kind
permission_delete_target-agrees kind = (refl, rw (agree (to_lower (trim_space kind))) refl)

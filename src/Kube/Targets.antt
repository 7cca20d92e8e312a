-- ===== src/Kube/Targets.antt =====
-- internal/kube/operations.go, what DeleteResource deletes: deleteTargetForKind and
-- customResourceReference.
pub mod Agree
use beaverdeck.Base.{
  Bool, true, false, not, ◌||◌, Option, none, some, [], ◌∷◌, take, drop, length, leb, is_empty,
  if◌then◌else◌,
}
use beaverdeck.Text.{Str, codes, one_of, equal_fold, trim_space, to_lower}

pub record GroupVersionResource : Type 0 where
  pub group : Str
  pub version : Str
  pub resource : Str

abbrev pub v1 : Str → Str → GroupVersionResource
v1 group resource = record { group = group; version = codes "v1"; resource = resource }

abbrev pub rbac : Str
rbac = codes "rbac.authorization.k8s.io"

-- The switch of deleteTargetForKind, over the folded kind.
unfoldable pub delete_target_of_kind : Str → Option (GroupVersionResource × Bool)
delete_target_of_kind k =
    if one_of k ("pod" ∷ "pods" ∷ [])
    then some (v1 [] (codes "pods"), true)
    else if one_of k ("deployment" ∷ "deployments" ∷ [])
    then some (v1 (codes "apps") (codes "deployments"), true)
    else if one_of k ("statefulset" ∷ "statefulsets" ∷ [])
    then some (v1 (codes "apps") (codes "statefulsets"), true)
    else if one_of k ("daemonset" ∷ "daemonsets" ∷ [])
    then some (v1 (codes "apps") (codes "daemonsets"), true)
    else if one_of k ("job" ∷ "jobs" ∷ [])
    then some (v1 (codes "batch") (codes "jobs"), true)
    else if one_of k ("cronjob" ∷ "cronjobs" ∷ [])
    then some (v1 (codes "batch") (codes "cronjobs"), true)
    else if one_of k ("service" ∷ "services" ∷ [])
    then some (v1 [] (codes "services"), true)
    else if one_of k ("ingress" ∷ "ingresses" ∷ [])
    then some (v1 (codes "networking.k8s.io") (codes "ingresses"), true)
    else if one_of k ("configmap" ∷ "configmaps" ∷ [])
    then some (v1 [] (codes "configmaps"), true)
    else if one_of k ("secret" ∷ "secrets" ∷ [])
    then some (v1 [] (codes "secrets"), true)
    else if one_of k ("serviceaccount" ∷ "serviceaccounts" ∷ [])
    then some (v1 [] (codes "serviceaccounts"), true)
    else if one_of k ("role" ∷ "roles" ∷ [])
    then some (v1 rbac (codes "roles"), true)
    else if one_of k ("rolebinding" ∷ "rolebindings" ∷ [])
    then some (v1 rbac (codes "rolebindings"), true)
    else if one_of k ("clusterrole" ∷ "clusterroles" ∷ [])
    then some (v1 rbac (codes "clusterroles"), false)
    else if one_of k ("clusterrolebinding" ∷ "clusterrolebindings" ∷ [])
    then some (v1 rbac (codes "clusterrolebindings"), false)
    else if one_of k ("pvc" ∷ "persistentvolumeclaim" ∷ "persistentvolumeclaims" ∷ [])
    then some (v1 [] (codes "persistentvolumeclaims"), true)
    else if one_of k ("pv" ∷ "persistentvolume" ∷ "persistentvolumes" ∷ [])
    then some (v1 [] (codes "persistentvolumes"), false)
    else if one_of k ("storageclass" ∷ "storageclasses" ∷ [])
    then some (v1 (codes "storage.k8s.io") (codes "storageclasses"), false)
    else if one_of k ("crd" ∷ "customresourcedefinition" ∷ "customresourcedefinitions" ∷ [])
    then some (v1 (codes "apiextensions.k8s.io") (codes "customresourcedefinitions"), false)
    else none

-- `none` for an unsupported kind
unfoldable pub delete_target_for_kind : Str → Option (GroupVersionResource × Bool)
delete_target_for_kind kind = delete_target_of_kind (to_lower (trim_space kind))

unfoldable pub custom_resource_reference : Str → Option Str
custom_resource_reference kind =
    let normalized = trim_space kind in
    let name = trim_space (drop 15 normalized) in
    if leb (length normalized) 15 || not (equal_fold (take 15 normalized) (codes "customresource:"))
    then none
    else if is_empty name
    then none
    else some name

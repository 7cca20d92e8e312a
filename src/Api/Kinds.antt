-- ===== src/Api/Kinds.antt =====
-- The kinds of Kubernetes objects that the interface knows: kindToResource and customResourceCRDName of
-- internal/api/permissions.go, permissionDeleteTarget of mutation_handlers.go, and
-- manifestPermissionAction of resource_handlers.go.
use beaverdeck.Base.{
  Bool, true, false, not, ◌||◌, Option, none, some, [], ◌∷◌, take, drop, length, leb, is_empty,
  is_some, if◌then◌else◌,
}
use beaverdeck.Text.{Str, codes, ◌==◌, one_of, equal_fold, trim_space, to_lower}

abbrev pub custom_resource_kind_prefix : Str
custom_resource_kind_prefix = codes "customresource:"

-- The prefix is ASCII, so a prefix of 15 bytes that equals it is one of 15 characters.
unfoldable pub custom_resource_crd_name : Str → Option Str
custom_resource_crd_name kind =
    let normalized = trim_space kind in
    let name = trim_space (drop 15 normalized) in
    if leb (length normalized) 15
      || not (equal_fold (take 15 normalized) custom_resource_kind_prefix)
    then none
    else if is_empty name
    then none
    else some name

-- The switch of kindToResource, over the folded kind.
unfoldable pub resource_of_kind : Str → Str
resource_of_kind k =
    if one_of k ("pod" ∷ "pods" ∷ [])
    then codes "pods"
    else if one_of k (
        "deployment" ∷ "deployments" ∷ "daemonset" ∷ "daemonsets" ∷ "statefulset" ∷ "statefulsets"
        ∷ "job" ∷ "jobs" ∷ "cronjob" ∷ "cronjobs" ∷ "replicaset" ∷ "replicasets"
        ∷ "replicationcontroller" ∷ "replicationcontrollers" ∷ [])
    then codes "workloads"
    else if one_of k ("node" ∷ "nodes" ∷ [])
    then codes "nodes"
    else if one_of k ("service" ∷ "services" ∷ [])
    then codes "services"
    else if one_of k ("serviceaccount" ∷ "serviceaccounts" ∷ [])
    then codes "serviceaccounts"
    else if one_of k ("ingress" ∷ "ingresses" ∷ [])
    then codes "ingresses"
    else if one_of k ("role" ∷ "roles" ∷ "rolebinding" ∷ "rolebindings" ∷ [])
    then codes "rbacroles"
    else if one_of k
        ("clusterrole" ∷ "clusterroles" ∷ "clusterrolebinding" ∷ "clusterrolebindings" ∷ [])
    then codes "clusterroles"
    else if one_of k ("configmap" ∷ "configmaps" ∷ [])
    then codes "configmaps"
    else if one_of k ("crd" ∷ "customresourcedefinition" ∷ "customresourcedefinitions" ∷ [])
    then codes "crds"
    else if one_of k ("secret" ∷ "secrets" ∷ [])
    then codes "secrets"
    else if one_of k ("pvc" ∷ "persistentvolumeclaim" ∷ "persistentvolumeclaims" ∷ [])
    then codes "pvcs"
    else if one_of k ("pv" ∷ "persistentvolume" ∷ "persistentvolumes" ∷ [])
    then codes "pvs"
    else if one_of k ("storageclass" ∷ "storageclasses" ∷ [])
    then codes "storageclasses"
    else []

unfoldable pub kind_to_resource : Str → Str
kind_to_resource kind =
    if is_some (custom_resource_crd_name kind)
    then codes "crds"
    else resource_of_kind (to_lower (trim_space kind))

-- The switch of permissionDeleteTarget, over the folded kind: the resource and whether the kind is
-- namespaced.
unfoldable pub delete_permission_of_kind : Str → Option (Str × Bool)
delete_permission_of_kind k =
    if one_of k ("pod" ∷ "pods" ∷ [])
    then some (codes "pods", true)
    else if one_of k (
        "deployment" ∷ "deployments" ∷ "statefulset" ∷ "statefulsets" ∷ "daemonset" ∷ "daemonsets"
        ∷ "job" ∷ "jobs" ∷ "cronjob" ∷ "cronjobs" ∷ [])
    then some (codes "workloads", true)
    else if one_of k ("service" ∷ "services" ∷ [])
    then some (codes "services", true)
    else if one_of k ("ingress" ∷ "ingresses" ∷ [])
    then some (codes "ingresses", true)
    else if one_of k ("configmap" ∷ "configmaps" ∷ [])
    then some (codes "configmaps", true)
    else if one_of k ("secret" ∷ "secrets" ∷ [])
    then some (codes "secrets", true)
    else if one_of k ("serviceaccount" ∷ "serviceaccounts" ∷ [])
    then some (codes "serviceaccounts", true)
    else if one_of k ("role" ∷ "roles" ∷ "rolebinding" ∷ "rolebindings" ∷ [])
    then some (codes "rbacroles", true)
    else if one_of k
        ("clusterrole" ∷ "clusterroles" ∷ "clusterrolebinding" ∷ "clusterrolebindings" ∷ [])
    then some (codes "clusterroles", false)
    else if one_of k ("pvc" ∷ "persistentvolumeclaim" ∷ "persistentvolumeclaims" ∷ [])
    then some (codes "pvcs", true)
    else if one_of k ("pv" ∷ "persistentvolume" ∷ "persistentvolumes" ∷ [])
    then some (codes "pvs", false)
    else if one_of k ("storageclass" ∷ "storageclasses" ∷ [])
    then some (codes "storageclasses", false)
    else if one_of k ("crd" ∷ "customresourcedefinition" ∷ "customresourcedefinitions" ∷ [])
    then some (codes "crds", false)
    else none

-- `none` for an unsupported kind
unfoldable pub permission_delete_target : Str → Option (Str × Bool)
permission_delete_target kind =
    if is_some (custom_resource_crd_name kind)
    then some (codes "crds", false)
    else delete_permission_of_kind (to_lower (trim_space kind))

unfoldable pub manifest_permission_action : Str → Str
manifest_permission_action resource =
    if resource == codes "secrets" then codes "edit" else codes "view"

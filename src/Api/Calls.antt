-- ===== src/Api/Calls.antt =====
-- The methods of kube.Client that the handlers call, and what they answer.
use beaverdeck.Base.{ℕ, Bool, List}
use beaverdeck.Text.{Str}

-- The parts of the info records of internal/kube that the handlers read. `incident_time` is
-- nanoseconds; `last_seen` is a time in RFC 3339.
pub record ListItem : Type 0 where
  pub namespace : Str
  pub kind : Str
  pub name : Str
  pub last_seen : Str
  pub incident_time : ℕ

-- kube.CustomResourceDefinition
pub record CustomResourceDefinition : Type 0 where
  pub name : Str
  pub group : Str
  pub version : Str
  pub resource : Str
  pub kind : Str
  pub namespaced : Bool

-- The parts of kube.InsightAlert that the handler reads.
pub record InsightAlert : Type 0 where
  pub key : Str
  pub status : Str
  pub suppressed : Bool

-- The lists of the objects of one namespace; a flag says whether metrics are included, the numbers of
-- events are the limit asked for, with its sign, and the type.
pub data NamespacedList : Type 0 where
  workloads restart_diagnostic_summaries ingresses secrets config_maps : NamespacedList
  helm_releases argocd_applications services roles role_bindings service_accounts : NamespacedList
  pods : Bool → NamespacedList
  events : Bool → ℕ → Str → NamespacedList

-- The lists of objects of the whole cluster.
pub data ClusterList : Type 0 where
  nodes crds cluster_roles cluster_role_bindings storage_classes : ClusterList
  pvs : Bool → ClusterList

-- What kube.NodeDrainResult and the error of DrainNode hold.
pub record DrainAnswer : Type 0 where
  pub evicted : List Str
  pub skipped : List Str
  pub failed : List Str
  pub has_error : Bool

-- One constructor for each method. An int32 or int64 is its bit pattern, except that a number of log
-- lines is never negative.
pub data KubeCall : Type 0 where
  scale_deployment scale_stateful_set : Str → Str → ℕ → KubeCall
  restart_deployment delete_pod evict_pod : Str → Str → KubeCall
  delete_resource : Str → Str → Str → KubeCall
  drain_node set_node_unschedulable : Str → Bool → KubeCall
  apply_yaml : Str → Str → Str → Bool → KubeCall
  update_manifest_yaml : Str → Str → Str → Str → Bool → KubeCall
  exec_default_shell : Str → Str → Str → KubeCall
  exec : Str → Str → Str → List Str → KubeCall
  resolve_custom_resource_definition : Str → KubeCall
  list_namespaces : KubeCall
  list : NamespacedList → Str → KubeCall
  list_cluster : ClusterList → KubeCall
  list_custom_resources : CustomResourceDefinition → List Str → KubeCall
  list_pvcs : List Str → Bool → KubeCall
  get_restart_diagnostic_snapshot list_helm_release_history : Str → Str → KubeCall
  list_argocd_application_history : Str → Str → KubeCall
  get_helm_release_revision_yaml get_argocd_application_revision_yaml :
      Str → Str → ℕ → Str → KubeCall
  build_insights : List Str → Str → KubeCall
  list_suppressed_insights : KubeCall
  set_insight_suppressed : Str → Bool → KubeCall
  get_manifest_yaml : Str → Str → Str → KubeCall
  get_secret_decoded_data : Str → Str → KubeCall
  pod_logs follow_pod_logs workload_logs follow_workload_logs : Str → Str → Str → ℕ → KubeCall

-- The value that a call returns when it does not fail, as far as the handlers look at it: the streams
-- of the logs of a workload are the names of their pods.
abbrev pub AnswerOf : KubeCall → Type 0
AnswerOf (drain_node name force) = DrainAnswer
AnswerOf (resolve_custom_resource_definition name) = CustomResourceDefinition
AnswerOf list_namespaces = List Str
AnswerOf (list kind ns) = List ListItem
AnswerOf (list_cluster kind) = List ListItem
AnswerOf (list_custom_resources definition namespaces) = List ListItem
AnswerOf (list_pvcs namespaces metrics) = List ListItem
AnswerOf (build_insights namespaces category) = List InsightAlert
AnswerOf list_suppressed_insights = List Str
AnswerOf (follow_workload_logs ns kind name tail) = List Str
AnswerOf call = Unit {0}

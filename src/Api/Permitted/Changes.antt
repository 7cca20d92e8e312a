-- ===== src/Api/Permitted/Changes.antt =====
-- The handlers that change the cluster, and what their calls need.
use beaverdeck.Base.{
  ◌≡◌, refl, Bool, true, false, not, ◌||◌, Option, some, all, is_empty, arith, List, Bool-cases,
  inl, inr, Option-cases, subst,
}
use beaverdeck.Text.{Str, codes, trim_space}
use beaverdeck.Api.Request.{Request, query_values}
use beaverdeck.Api.Kinds.{custom_resource_crd_name, permission_delete_target, kind_to_resource}
use beaverdeck.Api.Calls.{
  KubeCall, DrainAnswer, resolve_custom_resource_definition, delete_resource, drain_node,
  set_node_unschedulable, apply_yaml, update_manifest_yaml,
}
use beaverdeck.Api.Handling.{Handled, Cluster, require, require_some}
use beaverdeck.Api.Access.{Server, can, allows, require_permission}
use beaverdeck.Api.Mutations.{
  Document, ScaleRequest, ObjectRequest, DeleteResourceRequest, NodeActionRequest, ApplyRequest,
  UpdateManifestRequest, scale_deployment_handler, scale_stateful_set_handler,
  restart_deployment_handler, delete_pod_handler, evict_pod_handler, resolve_namespaced,
  delete_resource_handler, drain_node_handler, uncordon_node_handler, apply_yaml_handler,
  update_trimmed, update_manifest_handler, exec_ws_handler, drain_reply, on_object,
}
use beaverdeck.Api.Permitted.{permits, permits_delete, kind_allows, can_in}
use beaverdeck.Api.Permitted.Steps.{
  IsPermitted, stop-IsPermitted, require-IsPermitted, require_some-IsPermitted, call-IsPermitted,
  attempt-IsPermitted, require_permission-IsPermitted, require_namespace-IsPermitted,
  query_namespace-IsPermitted,
}

second : (a b c : Bool) → b ≡ true → a || b || c ≡ true
second true b c h = refl
second false b c h = rw h refl

third : (a b c : Bool) → c ≡ true → a || b || c ≡ true
third true b c h = refl
third false true c h = refl
third false false c h = h

module _ (s : Server) (documents : Str → List Document) (cluster : Cluster) (r : Request) where
  on_object-IsPermitted :
      {B : Type 0} (resource action : Str) (body : Option B) (namespace : B → Str)
      (command : B → KubeCall)
      → ((b : B)
          → permits s documents cluster r (command b)
            ≡ can_in s documents cluster r resource action (namespace b))
      → IsPermitted s documents cluster r
          (on_object s cluster r resource action body namespace command)
  on_object-IsPermitted resource action body namespace command covered =
      require_permission-IsPermitted s documents cluster r _ _ _ λ granted.
        require_some-IsPermitted s documents cluster r _ _ _ λ b _.
          require_namespace-IsPermitted s documents cluster r _ _ λ allowed.
            call-IsPermitted s documents cluster r (command b) _
              (rw (covered b) (rw granted allowed)) λ a _. stop-IsPermitted s documents cluster r

  pub scale_deployment-IsPermitted :
      (body : Option ScaleRequest)
      → IsPermitted s documents cluster r (scale_deployment_handler s cluster r body)
  unfolding scale_deployment_handler permits
  scale_deployment-IsPermitted body = on_object-IsPermitted _ _ body _ _ λ b. refl

  pub scale_stateful_set-IsPermitted :
      (body : Option ScaleRequest)
      → IsPermitted s documents cluster r (scale_stateful_set_handler s cluster r body)
  unfolding scale_stateful_set_handler permits
  scale_stateful_set-IsPermitted body = on_object-IsPermitted _ _ body _ _ λ b. refl

  pub restart_deployment-IsPermitted :
      (body : Option ObjectRequest)
      → IsPermitted s documents cluster r (restart_deployment_handler s cluster r body)
  unfolding restart_deployment_handler permits
  restart_deployment-IsPermitted body = on_object-IsPermitted _ _ body _ _ λ b. refl

  pub delete_pod-IsPermitted :
      (body : Option ObjectRequest)
      → IsPermitted s documents cluster r (delete_pod_handler s cluster r body)
  unfolding delete_pod_handler permits
  delete_pod-IsPermitted body = on_object-IsPermitted _ _ body _ _ λ b. refl

  pub evict_pod-IsPermitted :
      (body : Option ObjectRequest)
      → IsPermitted s documents cluster r (evict_pod_handler s cluster r body)
  unfolding evict_pod_handler permits
  evict_pod-IsPermitted body = on_object-IsPermitted _ _ body _ _ λ b. refl

  -- What a kind needs is known once its definition is: the calls up to there look a definition up,
  -- which a permission for custom resources covers.
  resolve_namespaced-IsPermitted :
      (kind : Str) (otherwise : Bool) (next : Bool → Handled)
      → ((crd_name : Str)
          → custom_resource_crd_name kind ≡ some crd_name
          → permits s documents cluster r (resolve_custom_resource_definition crd_name) ≡ true)
      → ((namespaced : Bool)
          → ((ns : Str)
              → kind_allows s documents cluster r kind otherwise ns
                ≡ not namespaced || allows s r ns)
          → IsPermitted s documents cluster r (next namespaced))
      → IsPermitted s documents cluster r (resolve_namespaced s cluster r kind otherwise next)
  unfolding resolve_namespaced kind_allows
  resolve_namespaced-IsPermitted kind otherwise next covered rest =
      elim (Option-cases (custom_resource_crd_name kind)) [
        | inl plain ↦
            rw (resolve_namespaced, plain) (rest otherwise λ ns. rw (kind_allows, plain) refl)
        | inr (crd_name, custom) ↦
            rw (resolve_namespaced, custom)
              (call-IsPermitted s documents cluster r (resolve_custom_resource_definition crd_name)
                _ (covered crd_name custom)
                λ definition found.
                  rest definition.namespaced λ ns. rw (kind_allows, custom, found) refl)
      ]

  can_same :
      (resource action : Str) {other : Str}
      → resource ≡ other
      → can s r resource action ≡ true
      → can s r other action ≡ true
  can_same resource action same granted = subst (λ x. can s r x action ≡ true) same granted

  delete_target_custom :
      (kind crd_name : Str) (target : Str × Bool)
      → custom_resource_crd_name kind ≡ some crd_name
      → permission_delete_target kind ≡ some target
      → target.0 ≡ codes "crds"
  unfolding permission_delete_target
  delete_target_custom kind crd_name target custom = rw custom λ e. cc

  pub delete_resource-IsPermitted :
      (body : Option DeleteResourceRequest)
      → IsPermitted s documents cluster r (delete_resource_handler s cluster r body)
  unfolding delete_resource_handler permits permits_delete
  delete_resource-IsPermitted body = require_some-IsPermitted s documents cluster r _ _ _ λ req _.
      require_some-IsPermitted s documents cluster r _ _ _ λ target found.
        require_permission-IsPermitted s documents cluster r _ _ _ λ granted.
          resolve_namespaced-IsPermitted _ _ _
            (λ crd_name custom.
              third (can s r (codes "crds") (codes "view")) (can s r (codes "crds") (codes "edit"))
                _
                (can_same _ _ (delete_target_custom req.kind crd_name target custom found) granted))
            λ namespaced known. require-IsPermitted s documents cluster r _ _ _ λ allowed.
              call-IsPermitted s documents cluster r
                (delete_resource req.namespace req.kind req.name) _
                (rw (found, granted, known req.namespace) allowed)
                λ a _. stop-IsPermitted s documents cluster r

  on_node-IsPermitted :
      (body : Option NodeActionRequest) (next : NodeActionRequest → Handled)
      → (can s r (codes "nodes") (codes "edit") ≡ true
          → (req : NodeActionRequest) → IsPermitted s documents cluster r (next req))
      → IsPermitted s documents cluster r (
          require_permission s r (codes "nodes") (codes "edit") λ _.
            require_some body 400
              λ req. require (not (is_empty (trim_space req.name))) 400 λ _. next req)
  on_node-IsPermitted body next rest =
      require_permission-IsPermitted s documents cluster r _ _ _ λ granted.
        require_some-IsPermitted s documents cluster r _ _ _
          λ req _. require-IsPermitted s documents cluster r _ _ _ λ _. rest granted req

  drain_reply-IsPermitted :
      (answer : DrainAnswer) → IsPermitted s documents cluster r (drain_reply answer)
  unfolding drain_reply all
  drain_reply-IsPermitted answer = ground arith

  pub drain_node-IsPermitted :
      (body : Option NodeActionRequest)
      → IsPermitted s documents cluster r (drain_node_handler s cluster r body)
  unfolding drain_node_handler permits
  drain_node-IsPermitted body = on_node-IsPermitted body _ λ granted req.
      call-IsPermitted s documents cluster r (drain_node (trim_space req.name) req.force) _ granted
        λ answer _. drain_reply-IsPermitted answer

  pub uncordon_node-IsPermitted :
      (body : Option NodeActionRequest)
      → IsPermitted s documents cluster r (uncordon_node_handler s cluster r body)
  unfolding uncordon_node_handler permits
  uncordon_node-IsPermitted body = on_node-IsPermitted body _ λ granted req.
      call-IsPermitted s documents cluster r (set_node_unschedulable (trim_space req.name) false) _
        granted λ a _. stop-IsPermitted s documents cluster r

  pub apply_yaml-IsPermitted :
      (body : Option ApplyRequest)
      → IsPermitted s documents cluster r (apply_yaml_handler s cluster r documents body)
  unfolding apply_yaml_handler permits
  apply_yaml-IsPermitted body =
      require_permission-IsPermitted s documents cluster r _ _ _ λ granted.
        require_some-IsPermitted s documents cluster r _ _ _ λ req _.
          require_namespace-IsPermitted s documents cluster r _ _ λ allowed.
            require-IsPermitted s documents cluster r _ _ _ λ valid.
              call-IsPermitted s documents cluster r
                (apply_yaml req.namespace req.yaml req.field_manager req.dry_run) _
                (rw (granted, allowed, valid) refl) λ a _. stop-IsPermitted s documents cluster r

  kind_to_resource_custom :
      (kind crd_name : Str)
      → custom_resource_crd_name kind ≡ some crd_name
      → kind_to_resource kind ≡ codes "crds"
  unfolding kind_to_resource
  kind_to_resource_custom kind crd_name custom = rw custom refl

  update_trimmed-IsPermitted :
      (req : UpdateManifestRequest)
      → IsPermitted s documents cluster r (update_trimmed s cluster r req)
  unfolding update_trimmed permits
  update_trimmed-IsPermitted req = require-IsPermitted s documents cluster r _ _ _ λ _.
      require-IsPermitted s documents cluster r _ _ _ λ _.
        require_permission-IsPermitted s documents cluster r _ _ _ λ granted.
          resolve_namespaced-IsPermitted _ _ _
            (λ crd_name custom.
              second (can s r (codes "crds") (codes "view")) _
                (can s r (codes "crds") (codes "delete"))
                (can_same _ _ (kind_to_resource_custom req.kind crd_name custom) granted))
            λ namespaced known. require-IsPermitted s documents cluster r _ _ _ λ allowed.
              call-IsPermitted s documents cluster r
                (update_manifest_yaml req.namespace req.kind req.name req.yaml req.dry_run) _
                (rw (granted, known req.namespace) allowed)
                λ a _. stop-IsPermitted s documents cluster r

  pub update_manifest-IsPermitted :
      (body : Option UpdateManifestRequest)
      → IsPermitted s documents cluster r (update_manifest_handler s cluster r body)
  unfolding update_manifest_handler
  update_manifest-IsPermitted body =
      require_some-IsPermitted s documents cluster r _ _ _ λ req _. update_trimmed-IsPermitted _

  pub exec_ws-IsPermitted :
      (upgraded : Bool) → IsPermitted s documents cluster r (exec_ws_handler s cluster r upgraded)
  unfolding exec_ws_handler permits
  exec_ws-IsPermitted upgraded =
      require_permission-IsPermitted s documents cluster r _ _ _ λ exec_granted.
        require_permission-IsPermitted s documents cluster r _ _ _ λ pods_granted.
          query_namespace-IsPermitted s documents cluster r _ λ ns allowed.
            require-IsPermitted s documents cluster r _ _ _ λ _.
              require-IsPermitted s documents cluster r _ _ _ λ _.
                attempt-IsPermitted s documents cluster r _ _
                  (elim (Bool-cases (is_empty (query_values r (codes "command")))) [
                    | inl default ↦ rw (default, exec_granted, pods_granted, allowed) refl
                    | inr given ↦ rw (given, exec_granted, pods_granted, allowed) refl
                  ])
                  λ a. stop-IsPermitted s documents cluster r

-- ===== src/Workloads/Selectors.antt =====
-- internal/controller: the selectors of the workloads, beside the labels of their templates.
use bindplane_operator.Workloads.Nats.{nats_stateful_set_for, nats_template}
use bindplane_operator.Workloads.Jobs.{bindplane_jobs_deployment, bindplane_jobs_template}
use bindplane_operator.Workloads.Opamp.{opamp_deployment, opamp_template}
use bindplane_operator.Workloads.Node.{
  node_deployment_for, node_deployment_of, node_template, node_rollout,
}
use bindplane_operator.Prelude.{
  member, ℤ, String, List, Option, none, some, ◌≡◌, refl, lookup, All, Distinct,
}
use bindplane_operator.Kube.{PodTemplateSpec, Json, Volume, Container, Fields, EnvVar}
use bindplane_operator.Kube.Objects.{Deployment, Rollout, StatefulSet}
use bindplane_operator.Crd.{Bindplane, NodeAutoscalingSpec, OpampComponentSpec, NatsComponentSpec}
use bindplane_operator.GoRuntime.{QuantityOps}
use bindplane_operator.Merge.{Codecs, merge_pod_template_spec}
use bindplane_operator.Merge.Labels.{keys, lookup-merge_pod_template_spec}
use bindplane_operator.Parts.{get_selector_labels}
use bindplane_operator.Parts.Extras.{
  get_node_pod_template, get_nats_pod_template, get_bindplane_jobs_pod_template,
}
use bindplane_operator.ConfigEnv.Common.{get_bindplane_common_env_vars}
use bindplane_operator.Workloads.{operator_template, component_deployment, with_env}

-- Each label of the selector is one of the template's.
abbrev pub Matches : List (String × String) → PodTemplateSpec → Type 0
Matches selector template = All (λ p. lookup p.0 template.labels ≡ some p.1) selector

-- The labels and annotations of a user's template are maps.
abbrev pub HasMaps : Option PodTemplateSpec → Type 0
HasMaps none = Unit
HasMaps (some t) = Distinct (keys t.labels) × Distinct (keys t.annotations)

module _ (q : QuantityOps) (codecs : Codecs) (b : Bindplane) (component : String) where
  pub merged-Matches :
      (volumes : List Volume) (affinity : Option Json) (container : Container) (grace : Option ℤ)
      (more : Fields) (user : Option PodTemplateSpec)
      → HasMaps user
      → Matches (get_selector_labels b component) (
          merge_pod_template_spec q codecs
            (operator_template b component volumes affinity container grace more)
            user)
  unfolding operator_template member lookup
  merged-Matches volumes affinity container grace more none h =
      unfold merge_pod_template_spec in (refl, (refl, (refl, tt)))
  merged-Matches volumes affinity container grace more (some user) (l, a) =
      let template = operator_template b component volumes affinity container grace more in
      let kept = λ (k : String). (lookup-merge_pod_template_spec q codecs template user k l a).0 in
      (
        kept "app.kubernetes.io/name",
        (kept "app.kubernetes.io/instance", (kept "app.kubernetes.io/component", tt)),
      )

-- What is built, if it is built.
abbrev pub WhereBuilt : {A : Type 0} → (A → Type 0) → Option A → Type 0
WhereBuilt P none = Unit
WhereBuilt P (some d) = P d

with_env-WhereBuilt :
    {A : Type 0} (P : A → Type 0) (c : Option (List EnvVar)) (f : List EnvVar → A)
    → ((env : List EnvVar) → P (f env))
    → WhereBuilt P (with_env c f)
with_env-WhereBuilt P none f h = tt
with_env-WhereBuilt P (some env) f h = h env

abbrev pub DeploymentMatches : Deployment → Type 0
DeploymentMatches d = Matches d.spec.selector d.spec.template

abbrev pub RolloutMatches : Rollout → Type 0
RolloutMatches d = Matches d.spec.selector d.spec.template

abbrev pub StatefulSetMatches : StatefulSet → Type 0
StatefulSetMatches d = Matches d.spec.selector d.spec.template

module _ (q : QuantityOps) (codecs : Codecs) (b : Bindplane) where
  node_template-Matches :
      HasMaps (get_node_pod_template b)
      → (common : List EnvVar)
      → Matches (get_selector_labels b "node") (node_template q codecs b common)
  unfolding node_template
  node_template-Matches h common =
      merged-Matches q codecs b "node" _ _ _ _ _ (get_node_pod_template b) h

  node_deployment_of-Matches :
      HasMaps (get_node_pod_template b)
      → (r : Option ℤ) → WhereBuilt DeploymentMatches (node_deployment_of q codecs b r)
  unfolding node_deployment_of component_deployment
  node_deployment_of-Matches h r =
      with_env-WhereBuilt DeploymentMatches (get_bindplane_common_env_vars b) _
        (node_template-Matches h)

  node_deployment-Matches :
      HasMaps (get_node_pod_template b)
      → (a : Option NodeAutoscalingSpec) (r : Option ℤ)
      → WhereBuilt DeploymentMatches (node_deployment_for q codecs b a r)
  unfolding node_deployment_for
  node_deployment-Matches h (some a) r = node_deployment_of-Matches h none
  node_deployment-Matches h none none = tt
  node_deployment-Matches h none (some n) = node_deployment_of-Matches h (some n)

  node_rollout-Matches :
      HasMaps (get_node_pod_template b) → WhereBuilt RolloutMatches (node_rollout q codecs b)
  unfolding node_rollout
  node_rollout-Matches h =
      with_env-WhereBuilt RolloutMatches (get_bindplane_common_env_vars b) _
        (node_template-Matches h)

  jobs-Matches :
      HasMaps (get_bindplane_jobs_pod_template b)
      → WhereBuilt DeploymentMatches (bindplane_jobs_deployment q codecs b)
  unfolding bindplane_jobs_deployment bindplane_jobs_template component_deployment
  jobs-Matches h =
      with_env-WhereBuilt DeploymentMatches (get_bindplane_common_env_vars b) _
        λ common. merged-Matches q codecs b "jobs" _ _ _ _ _ (get_bindplane_jobs_pod_template b) h

  opamp-Matches :
      (c : OpampComponentSpec)
      → HasMaps c.pod_template
      → WhereBuilt DeploymentMatches (opamp_deployment q codecs b c)
  unfolding opamp_deployment opamp_template component_deployment
  opamp-Matches c h =
      with_env-WhereBuilt DeploymentMatches (get_bindplane_common_env_vars b) _
        λ common. merged-Matches q codecs b "opamp" _ _ _ _ _ c.pod_template h

  nats-Matches :
      HasMaps (get_nats_pod_template b)
      → (n : NatsComponentSpec) (r : ℤ)
      → WhereBuilt StatefulSetMatches (nats_stateful_set_for q codecs b n r)
  unfolding nats_stateful_set_for nats_template
  nats-Matches h n r =
      with_env-WhereBuilt StatefulSetMatches (get_bindplane_common_env_vars b) _
        λ common. merged-Matches q codecs b "nats" _ _ _ _ _ (get_nats_pod_template b) h

-- Where the user's node, jobs and NATS pod templates, and that of an OpAMP component, give each
-- label and annotation once, as a map does: the labels of the selector of the node Deployment (for
-- any autoscaling and replica count), the node Rollout, the jobs Deployment, the OpAMP Deployment
-- and the NATS StatefulSet (for any replica count), where each is built, are labels of its own pod
-- template with the same values, whatever labels the user's templates give.
pub get_selector_labels-Matches :
    (q : QuantityOps) (codecs : Codecs) (b : Bindplane) (c : OpampComponentSpec)
    (n : NatsComponentSpec) (a : Option NodeAutoscalingSpec) (r : Option ℤ) (m : ℤ)
    → HasMaps (get_node_pod_template b)
    → HasMaps (get_bindplane_jobs_pod_template b)
    → HasMaps c.pod_template
    → HasMaps (get_nats_pod_template b)
    → WhereBuilt DeploymentMatches (node_deployment_for q codecs b a r)
      × WhereBuilt RolloutMatches (node_rollout q codecs b)
      × WhereBuilt DeploymentMatches (bindplane_jobs_deployment q codecs b)
      × WhereBuilt DeploymentMatches (opamp_deployment q codecs b c)
      × WhereBuilt StatefulSetMatches (nats_stateful_set_for q codecs b n m)
get_selector_labels-Matches q codecs b c n a r m node jobs opamp nats = (
  node_deployment-Matches q codecs b node a r,
  node_rollout-Matches q codecs b node,
  jobs-Matches q codecs b jobs,
  opamp-Matches q codecs b c opamp,
  nats-Matches q codecs b nats n m,
)

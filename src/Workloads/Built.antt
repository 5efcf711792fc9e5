-- ===== src/Workloads/Built.antt =====
-- internal/controller: which of the sub-reconcilers that Reconcile calls get through their builders,
-- and which dereference nil.
use mathlib.Core.Option
use bindplane_operator.Prelude.{
  ℤ, Bool, true, List, Option, none, some, ◌≡◌, refl, ◌∙◌, ap, is_some, if◌then◌else◌, arith, pos,
}
use bindplane_operator.Kube.{EnvVar}
use bindplane_operator.Crd.{
  Bindplane, TransformAgentComponentSpec, NatsComponentSpec, OpampComponentSpec,
  NodeAutoscalingSpec, EventBusHealthConfig,
}
use bindplane_operator.GoRuntime.{QuantityOps}
use bindplane_operator.Merge.{Codecs}
use bindplane_operator.ConfigEnv.Common.{
  nats_replicas, required_hosts_of, default_required_hosts, event_bus_env_vars, health_of,
  get_event_bus_health_env_vars, get_bindplane_common_env_vars, shared_env_vars,
}
use bindplane_operator.Kube.Objects.{Deployment}
use bindplane_operator.Workloads.{with_env, component_deployment, rolling_update}
use bindplane_operator.Workloads.Node.{
  node_rollout, node_deployment, node_deployment_for, node_deployment_of, autoscaling_of,
  use_rollout,
}
use bindplane_operator.Workloads.Nats.{nats_stateful_set, nats_stateful_set_for}
use bindplane_operator.Workloads.Jobs.{bindplane_jobs_deployment}
use bindplane_operator.Workloads.TransformAgent.{
  transform_agent_deployment, transform_agent_template,
}
use bindplane_operator.Workloads.Opamp.{opamp_deployment, enabled_opamp}
use bindplane_operator.Cluster.{
  Step, tls_certificates, session_secret, status_secret, transform_agent, tsdb,
  migrate_service_account, jobs, nats, node, opamp,
}

module _ (q : QuantityOps) (codecs : Codecs) where
  unfoldable pub opamp_builds : Bindplane → Option OpampComponentSpec → Bool
  unfolding opamp_deployment
  opamp_builds b none = true
  opamp_builds b (some c) = is_some (opamp_deployment q codecs b c)

  -- The step's builder gives its object. The TSDB's checks each pointer that it follows.
  unfoldable pub builds : Step → Bindplane → Bool
  unfolding transform_agent_deployment bindplane_jobs_deployment nats_stateful_set node_rollout
      node_deployment opamp_builds enabled_opamp use_rollout
  builds transform_agent b = is_some (transform_agent_deployment q codecs b)
  builds jobs b = is_some (bindplane_jobs_deployment q codecs b)
  builds nats b = is_some (nats_stateful_set q codecs b)
  builds node b =
      if use_rollout b
      then is_some (node_rollout q codecs b)
      else is_some (node_deployment q codecs b)
  builds opamp b = opamp_builds b (enabled_opamp b)
  builds s b = true

-- A resource that gives the replicas of the Transform Agent, of NATS and of the node, as the API
-- server does by the defaults of the resource's definition.
pub record GivesReplicas (b : Bindplane) : Type 0 where
  pub agent : TransformAgentComponentSpec
  pub gives_agent : b.spec.transform_agent ≡ some agent
  pub agent_replicas : ℤ
  pub gives_agent_replicas : agent.replicas ≡ some agent_replicas
  pub bus : NatsComponentSpec
  pub gives_bus : b.spec.nats ≡ some bus
  pub bus_replicas : ℤ
  pub gives_bus_replicas : bus.replicas ≡ some bus_replicas
  pub node_replicas : ℤ
  pub gives_node_replicas : b.spec.bindplane.replicas ≡ some node_replicas

is_some-with_env :
    {A : Type 0} (o : Option (List EnvVar)) (f : List EnvVar → A)
    → is_some o ≡ true
    → is_some (with_env o f) ≡ true
is_some-with_env none f h = absurd (cc)
is_some-with_env (some env) f h = refl

event_bus_env_vars-is_some :
    (h : Option EventBusHealthConfig) (n : ℤ) → is_some (event_bus_env_vars h (some n)) ≡ true
unfolding event_bus_env_vars
event_bus_env_vars-is_some none n = refl
event_bus_env_vars-is_some (some c) n = refl

map-is_some :
    {A B : Type 0} (f : A → B) (o : Option A) → is_some o ≡ true → is_some (Option.map f o) ≡ true
map-is_some f none h = absurd (cc)
map-is_some f (some x) h = refl

module _ (b : Bindplane) (g : GivesReplicas b) where
  given_nats_replicas : nats_replicas b.spec.nats ≡ some g.bus_replicas
  given_nats_replicas = ap nats_replicas g.gives_bus ∙ g.gives_bus_replicas

  get_bindplane_common_env_vars-is_some : is_some (get_bindplane_common_env_vars b) ≡ true
  unfolding get_bindplane_common_env_vars get_event_bus_health_env_vars default_required_hosts
  get_bindplane_common_env_vars-is_some =
      let hosts = required_hosts_of b.spec.bindplane.replicas in
      let health = health_of b.spec.config.event_bus in
      map-is_some (shared_env_vars b) (event_bus_env_vars health (default_required_hosts b)) (
        ap (λ o. is_some (event_bus_env_vars health (Option.map hosts o))) given_nats_replicas
        ∙ event_bus_env_vars-is_some health (hosts g.bus_replicas))

-- natsStatefulSet passes on the replicas that are given.
pub nats_stateful_set_given :
    (q : QuantityOps) (codecs : Codecs) (b : Bindplane) (n : NatsComponentSpec) (r : ℤ)
    → b.spec.nats ≡ some n
    → n.replicas ≡ some r
    → nats_stateful_set q codecs b ≡ nats_stateful_set_for q codecs b n r
unfolding nats_stateful_set
nats_stateful_set_given q codecs b n r has_nats has_replicas =
    ap
      (λ (o : Option NatsComponentSpec). elim o [
        | none ↦ none
        | some c ↦ elim c.replicas [ none ↦ none | some k ↦ nats_stateful_set_for q codecs b c k ]
      ])
      has_nats
    ∙ ap (λ (o : Option ℤ). elim o [ none ↦ none | some k ↦ nats_stateful_set_for q codecs b n k ])
        has_replicas

module _ (q : QuantityOps) (codecs : Codecs) (b : Bindplane) (g : GivesReplicas b) where
  with_env-built :
      {A : Type 0} (f : List EnvVar → A)
      → is_some (with_env (get_bindplane_common_env_vars b) f) ≡ true
  with_env-built f =
      is_some-with_env (get_bindplane_common_env_vars b) f
        (get_bindplane_common_env_vars-is_some b g)

  node_built :
      (a : Option NodeAutoscalingSpec) (n : ℤ)
      → is_some (node_deployment_for q codecs b a (some n)) ≡ true
  unfolding node_deployment_for node_deployment_of
  node_built none n = with_env-built _
  node_built (some a) n = with_env-built _

  opamp_built : (c : Option OpampComponentSpec) → opamp_builds q codecs b c ≡ true
  unfolding opamp_builds opamp_deployment
  opamp_built none = refl
  opamp_built (some c) = with_env-built _

  nats_built :
      (n : NatsComponentSpec) (r : ℤ) → is_some (nats_stateful_set_for q codecs b n r) ≡ true
  unfolding nats_stateful_set_for
  nats_built n r = with_env-built _

  nats_stateful_set-built : is_some (nats_stateful_set q codecs b) ≡ true
  nats_stateful_set-built =
      ap is_some
        (nats_stateful_set_given q codecs b g.bus g.bus_replicas g.gives_bus g.gives_bus_replicas)
      ∙ nats_built g.bus g.bus_replicas

  agent_built : is_some (transform_agent_deployment q codecs b) ≡ true
  unfolding transform_agent_deployment
  agent_built =
      ap
        (λ (o : Option TransformAgentComponentSpec). is_some (elim o [
          | none ↦ none
          | some c ↦ elim c.replicas [ none ↦ none | some n ↦ some (agent_of c n) ]
        ]))
        g.gives_agent
      ∙ ap (λ (o : Option ℤ). is_some (elim o [ none ↦ none | some n ↦ some (agent_of g.agent n) ]))
          g.gives_agent_replicas
    where
      agent_of : TransformAgentComponentSpec → ℤ → Deployment
      agent_of c n =
          component_deployment b "transform-agent" (some n) (pos 0) (rolling_update (pos 1) (pos 1))
            (transform_agent_template q codecs b c)

  node_deployment-built : is_some (node_deployment q codecs b) ≡ true
  unfolding node_deployment
  node_deployment-built =
      let a = autoscaling_of b.spec.bindplane.autoscaling in
      ap (λ r. is_some (node_deployment_for q codecs b a r)) g.gives_node_replicas
      ∙ node_built a g.node_replicas

  node_rollout-built : is_some (node_rollout q codecs b) ≡ true
  unfolding node_rollout
  node_rollout-built = with_env-built _

  jobs_built : is_some (bindplane_jobs_deployment q codecs b) ≡ true
  unfolding bindplane_jobs_deployment
  jobs_built = with_env-built _

  -- Each step gets through.
  pub builds_given : (s : Step) → builds q codecs s b ≡ true
  unfolding builds
  builds_given transform_agent = agent_built
  builds_given jobs = jobs_built
  builds_given nats = nats_stateful_set-built
  builds_given node = ground (arith, node_deployment-built, node_rollout-built)
  builds_given opamp = opamp_built (enabled_opamp b)
  builds_given tls_certificates = refl
  builds_given session_secret = refl
  builds_given status_secret = refl
  builds_given tsdb = refl
  builds_given migrate_service_account = refl

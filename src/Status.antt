-- ===== src/Status.antt =====
-- internal/controller/bindplane_controller.go: the readiness and the images in the status.
use bindplane_operator.Prelude.{
  String, ℤ, pos, leb_ℤ, Bool, true, false, not, ◌&&◌, ◌||◌, Option, none, some, if◌then◌else◌,
}
use bindplane_operator.Crd.{Bindplane, ComponentStatus}
use bindplane_operator.Images.{
  get_resource_name, get_node_image, get_opamp_image, get_nats_image, get_bindplane_jobs_image,
  get_transform_agent_image, get_tsdb_image,
}
use bindplane_operator.Cluster.{
  Workload, deployment, stateful_set, get_workload, Answer, accepted, not_found, refused, Server,
  Run, ◌>>=◌, ◌>>◌, return, panic, local_copy, modify, ask, ready_of,
}

-- isTSDBRemoteEnabled
unfoldable pub is_tsdb_remote_enabled : Bindplane → Bool
is_tsdb_remote_enabled b = elim b.spec.config.tsdb [
  | none ↦ false
  | some t ↦ elim t.remote [ none ↦ false | some r ↦ r.enable ]
]

-- `bindplane.Spec.OpAMP != nil && bindplane.Spec.OpAMP.Enabled`
unfoldable pub is_opamp_enabled : Bindplane → Bool
is_opamp_enabled b = elim b.spec.opamp [ none ↦ false | some c ↦ c.enabled ]

-- allWorkloadsReady
unfoldable pub all_workloads_ready :
    (node_ready node_desired nats_ready nats_desired ta_ready ta_desired jobs_ready tsdb_ready
      tsdb_desired : ℤ)
    → Bool
all_workloads_ready node_ready node_desired nats_ready nats_desired ta_ready ta_desired jobs_ready
      tsdb_ready tsdb_desired =
    leb_ℤ node_desired node_ready
    && (is_zero nats_desired || leb_ℤ nats_desired nats_ready)
    && (is_zero ta_desired || leb_ℤ ta_desired ta_ready)
    && leb_ℤ (pos 1) jobs_ready
    && (is_zero tsdb_desired || leb_ℤ tsdb_desired tsdb_ready)
  where
    is_zero : ℤ → Bool
    is_zero n = leb_ℤ n (pos 0) && leb_ℤ (pos 0) n

abbrev pub with_image : String → ComponentStatus → ComponentStatus
with_image image c = record c { image = image }

abbrev pub with_ready : ℤ → ComponentStatus → ComponentStatus
with_ready n c = record c { ready_replicas = n }

-- updateImageStatus
unfoldable pub update_image_status : Bindplane → Bindplane
unfolding get_node_image get_bindplane_jobs_image get_nats_image get_transform_agent_image
    is_opamp_enabled get_opamp_image is_tsdb_remote_enabled get_tsdb_image
update_image_status b = record b {
  status = record b.status {
    components = record b.status.components {
      bindplane = with_image (get_node_image b) b.status.components.bindplane;
      jobs = with_image (get_bindplane_jobs_image b) b.status.components.jobs;
      nats = with_image (get_nats_image b) b.status.components.nats;
      transform_agent =
          with_image (get_transform_agent_image b) b.status.components.transform_agent;
      opamp =
          with_image (if is_opamp_enabled b then get_opamp_image b else "")
            b.status.components.opamp;
      tsdb =
          with_image (if is_tsdb_remote_enabled b then "" else get_tsdb_image b)
            b.status.components.tsdb;
    };
  };
}

-- The replicas of an optional component, 0 where nothing is given.
abbrev pub replicas_or_zero {ℓ} : {A : Type ℓ} → Option A → (A → Option ℤ) → ℤ
replicas_or_zero none replicas = pos 0
replicas_or_zero (some c) replicas = elim (replicas c) [ none ↦ pos 0 | some n ↦ n ]

-- What is read of an answer: nothing, where the Get failed.
abbrev pub ready_count : Answer → ℤ → ℤ
ready_count accepted n = n
ready_count not_found n = pos 0
ready_count refused n = pos 0

module _ (server : Server) where
  -- deploymentReadyReplicas and statefulSetReadyReplicas
  unfoldable pub ready_replicas : Workload → Run ℤ
  ready_replicas w = do
    answer ← ask server (get_workload w)
    n ← ready_of server w
    return (ready_count answer n)

  unfoldable pub ready_if : Bool → Workload → Run ℤ
  unfolding ready_replicas
  ready_if true w = ready_replicas w
  ready_if false w = return (pos 0)

  -- `*bindplane.Spec.Bindplane.Replicas`
  unfoldable pub node_desired : Option ℤ → Run ℤ
  node_desired none = panic
  node_desired (some n) = return n

  -- The body of updateReadyReplicaStatus, by its tests and the replicas of the node.
  unfoldable pub update_ready :
      (remote opamp_enabled : Bool) → Option ℤ → Bindplane → Run (Unit {0})
  unfolding ready_replicas ready_if node_desired get_resource_name all_workloads_ready
  update_ready remote opamp_enabled replicas b = do
    node_ready ← ready_replicas (deployment (get_resource_name b "node"))
    nats_ready ← ready_replicas (stateful_set (get_resource_name b "nats"))
    ta_ready ← ready_replicas (deployment (get_resource_name b "transform-agent"))
    jobs_ready ← ready_replicas (deployment (get_resource_name b "jobs"))
    tsdb_ready ← ready_if (not remote) (stateful_set (get_resource_name b "tsdb"))
    opamp_ready ← ready_if opamp_enabled (deployment (get_resource_name b "opamp"))
    modify λ x. record x {
      status = record x.status {
        components = record x.status.components {
          bindplane = with_ready node_ready x.status.components.bindplane;
          nats = with_ready nats_ready x.status.components.nats;
          transform_agent = with_ready ta_ready x.status.components.transform_agent;
          jobs = with_ready jobs_ready x.status.components.jobs;
          tsdb = with_ready tsdb_ready x.status.components.tsdb;
          opamp = with_ready opamp_ready x.status.components.opamp;
        };
      };
    }
    desired ← node_desired replicas
    let ready =
        all_workloads_ready node_ready desired nats_ready
          (replicas_or_zero b.spec.nats (λ c. c.replicas)) ta_ready
          (replicas_or_zero b.spec.transform_agent (λ c. c.replicas)) jobs_ready tsdb_ready
          (if remote then pos 0 else pos 1)
    modify λ x. record x {
      status = record x.status { phase = if ready then "Ready" else "ApplyingChanges" };
    }

  -- updateReadyReplicaStatus
  unfoldable pub update_ready_replica_status : Run (Unit {0})
  unfolding update_ready is_tsdb_remote_enabled is_opamp_enabled
  update_ready_replica_status = do
    b ← local_copy
    update_ready (is_tsdb_remote_enabled b) (is_opamp_enabled b) b.spec.bindplane.replicas b

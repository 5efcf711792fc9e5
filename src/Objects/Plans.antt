-- ===== src/Objects/Plans.antt =====
-- The plans of the reconcilers of one object, and the keys under which they write.
use bindplane_operator.Prelude.{Option, none, some, ◌≡◌, refl, arith}
use bindplane_operator.Api.{
  certificate, Object, service_account, deployment, rollout, stateful_set, service,
  pod_disruption_budget, horizontal_pod_autoscaler, key_of,
}
use bindplane_operator.Objects.{
  plan_certificate, Semantic, Plan, keep, change, mismatch, plan_service_account, plan_deployment,
  plan_rollout, plan_stateful_set, plan_service, plan_pod_disruption_budget,
  plan_horizontal_pod_autoscaler,
}
use bindplane_operator.Kube.Objects.{
  Certificate, ServiceAccount, Deployment, Rollout, StatefulSet, Service, PodDisruptionBudget,
  HorizontalPodAutoscaler,
}

-- The object that a plan leaves, where the live one is `o`.
abbrev pub planned : Object → Plan → Object
planned o keep = o
planned o (change o') = o'
planned o mismatch = o

-- What is live once the object has converged.
abbrev pub converged : Object → (Object → Plan) → Option Object → Object
converged desired plan none = desired
converged desired plan (some o) = planned o (plan o)

abbrev pub KeepsKeys : (Object → Plan) → Type 0
KeepsKeys plan = (o : Object) → key_of (planned o (plan o)) ≡ key_of o

module _ (eq : Semantic) where
  pub plan_service_account-KeepsKeys : (d : ServiceAccount) → KeepsKeys (plan_service_account eq d)
  unfolding plan_service_account
  plan_service_account-KeepsKeys d (service_account f) = ground arith
  plan_service_account-KeepsKeys d o = refl

  pub plan_deployment-KeepsKeys : (d : Deployment) → KeepsKeys (plan_deployment eq d)
  unfolding plan_deployment
  plan_deployment-KeepsKeys d (deployment f) = ground arith
  plan_deployment-KeepsKeys d o = refl

  pub plan_rollout-KeepsKeys : (d : Rollout) → KeepsKeys (plan_rollout eq d)
  unfolding plan_rollout
  plan_rollout-KeepsKeys d (rollout f) = ground arith
  plan_rollout-KeepsKeys d o = refl

  pub plan_stateful_set-KeepsKeys : (d : StatefulSet) → KeepsKeys (plan_stateful_set eq d)
  unfolding plan_stateful_set
  plan_stateful_set-KeepsKeys d (stateful_set f) = ground arith
  plan_stateful_set-KeepsKeys d o = refl

  pub plan_service-KeepsKeys : (d : Service) → KeepsKeys (plan_service eq d)
  unfolding plan_service
  plan_service-KeepsKeys d (service f) = ground arith
  plan_service-KeepsKeys d o = refl

  pub plan_pod_disruption_budget-KeepsKeys :
      (d : PodDisruptionBudget) → KeepsKeys (plan_pod_disruption_budget eq d)
  unfolding plan_pod_disruption_budget
  plan_pod_disruption_budget-KeepsKeys d (pod_disruption_budget f) = ground arith
  plan_pod_disruption_budget-KeepsKeys d o = refl

  pub plan_certificate-KeepsKeys : (d : Certificate) → KeepsKeys (plan_certificate eq d)
  unfolding plan_certificate
  plan_certificate-KeepsKeys d (certificate f) = ground arith
  plan_certificate-KeepsKeys d o = refl

pub plan_horizontal_pod_autoscaler-KeepsKeys :
    (d : HorizontalPodAutoscaler) → KeepsKeys (plan_horizontal_pod_autoscaler d)
unfolding plan_horizontal_pod_autoscaler
plan_horizontal_pod_autoscaler-KeepsKeys d (horizontal_pod_autoscaler f) = refl
plan_horizontal_pod_autoscaler-KeepsKeys d o = refl

-- ===== src/Api.antt =====
-- The Kubernetes API server, as the controller's client (sigs.k8s.io/controller-runtime) shows it: an
-- interface whose laws are the documented effect of a request. A step of a sub-reconciler runs on
-- the server's state; what a request that is refused leaves is the state with the same objects.
pub mod Laws
use bindplane_operator.Prelude.{
  ℕ, Bool, true, false, ◌&&◌, ◌≡◌, String, List, Option, none, some, ◌==◌, nat_eq, if◌then◌else◌,
}
use bindplane_operator.Kube.{ObjectMeta}
use bindplane_operator.Kube.Objects.{
  ServiceAccount, Deployment, Rollout, StatefulSet, Service, PodDisruptionBudget,
  HorizontalPodAutoscaler, Certificate,
}
use bindplane_operator.Cluster.{Reply, returns, fails, panics}

pub data Kind : Type 0 where
  service_accounts deployments rollouts stateful_sets services : Kind
  pod_disruption_budgets horizontal_pod_autoscalers certificates : Kind

pub data Object : Type 0 where
  service_account : ServiceAccount → Object
  deployment : Deployment → Object
  rollout : Rollout → Object
  stateful_set : StatefulSet → Object
  service : Service → Object
  pod_disruption_budget : PodDisruptionBudget → Object
  horizontal_pod_autoscaler : HorizontalPodAutoscaler → Object
  certificate : Certificate → Object

pub record Key : Type 0 where
  pub kind : Kind
  pub namespace : String
  pub name : String

abbrev pub key_at : Kind → ObjectMeta → Key
key_at k m = record { kind = k; namespace = m.namespace; name = m.name }

abbrev pub key_of : Object → Key
key_of (service_account o) = key_at service_accounts o.meta
key_of (deployment o) = key_at deployments o.meta
key_of (rollout o) = key_at rollouts o.meta
key_of (stateful_set o) = key_at stateful_sets o.meta
key_of (service o) = key_at services o.meta
key_of (pod_disruption_budget o) = key_at pod_disruption_budgets o.meta
key_of (horizontal_pod_autoscaler o) = key_at horizontal_pod_autoscalers o.meta
key_of (certificate o) = key_at certificates o.meta

abbrev pub kind_number : Kind → ℕ
kind_number service_accounts = 0
kind_number deployments = 1
kind_number rollouts = 2
kind_number stateful_sets = 3
kind_number services = 4
kind_number pod_disruption_budgets = 5
kind_number horizontal_pod_autoscalers = 6
kind_number certificates = 7

unfoldable pub same_key : Key → Key → Bool
same_key a b =
    nat_eq (kind_number a.kind) (kind_number b.kind)
    && (a.namespace == b.namespace && a.name == b.name)

-- `own` is SetControllerReference on an object that is not yet sent.
pub data Request : Type 0 where
  own get delete : Key → Request
  create update : Object → Request

-- What stands under a key after a request that was accepted, from what stood there.
unfoldable pub effect : Request → Key → Option Object → Option Object
unfolding same_key
effect (own k) q prior = prior
effect (get k) q prior = prior
effect (delete k) q prior = if same_key k q then none else prior
effect (create o) q prior = if same_key (key_of o) q then some o else prior
effect (update o) q prior = if same_key (key_of o) q then some o else prior

-- `knows` says whether the kind is installed, as that of a Rollout may not be; `missing` says that a
-- Delete is refused because there is no such object.
pub record Api : Type 1 where
  pub State : Type 0
  pub live : State → Key → Option Object
  pub knows : State → Kind → Bool
  pub accepts : State → Request → Bool
  pub after : State → Request → State
  pub live_after_accepted :
      (s : State) (r : Request) (q : Key)
      → accepts s r ≡ true
      → live (after s r) q ≡ effect r q (live s q)
  pub live_after_refused :
      (s : State) (r : Request) (q : Key) → accepts s r ≡ false → live (after s r) q ≡ live s q
  pub live_if_known : (s : State) (q : Key) → knows s q.kind ≡ false → live s q ≡ none
  pub missing : State → Key → Bool
  pub live_if_missing : (s : State) (q : Key) → missing s q ≡ true → live s q ≡ none
  pub live_under_its_key : (s : State) (q : Key) (o : Object) → live s q ≡ some o → key_of o ≡ q

-- What a Get answers: `no_match` where the kind is not installed.
pub data Found : Type 0 where
  found : Object → Found
  not_found no_match failed : Found

abbrev pub found_or_not : Option Object → Found
found_or_not none = not_found
found_or_not (some o) = found o

module _ (api : Api) where
  abbrev pub Act : Type 0
  Act = api.State → Reply (Unit {0}) × api.State

  abbrev pub next : Reply (Unit {0}) × api.State → Act → Reply (Unit {0}) × api.State
  next (returns u, s) k = k s
  next (fails, s) k = (fails, s)
  next (panics, s) k = (panics, s)

  -- Two steps, the second where the first returns no error.
  abbrev pub both : Act → Act → Act
  both m k s = next (m s) k

  abbrev pub done : Act
  done s = (returns tt, s)

  abbrev pub fail : Act
  fail s = (fails, s)

  abbrev pub panic : Act
  panic s = (panics, s)

  -- A request whose error the caller returns.
  abbrev pub must : Request → Act
  must r s = (if api.accepts s r then returns tt else fails, api.after s r)

  -- A Delete, where an object that is gone is no error.
  abbrev pub must_be_gone : Key → Act
  must_be_gone q s = (
    if api.accepts s (delete q) then returns tt else if api.missing s q then returns tt else fails,
    api.after s (delete q),
  )

  unfoldable pub answer : api.State → Key → Found
  answer s q =
      if api.knows s q.kind
      then if api.accepts s (get q) then found_or_not (api.live s q) else failed
      else no_match

  -- A Get, and what is done with its answer.
  abbrev pub fetch : Key → (Found → Act) → Act
  fetch q k s = k (answer s q) (api.after s (get q))

-- ===== src/Parts/Pods.antt =====
-- internal/controller/bindplane_controller.go: the settings of a pod and of its container that the
-- code gives as values of the Kubernetes API, here as JSON.
use bindplane_operator.Prelude.{ℤ, pos, true, false, String, List, [], ◌∷◌, Option, none, some}
use bindplane_operator.Kube.{
  Json, null, bool, num, str, arr, obj, Items, nil, cons, Fields, end, field, ResourceRequirements,
  Quantity,
}
use bindplane_operator.Crd.{Bindplane}
use bindplane_operator.Parts.{get_selector_labels}

abbrev pub one_item : Json → Json
one_item j = arr (cons j nil)

abbrev pub texts : List String → Items
texts [] = nil
texts (s ∷ ss) = cons (str s) (texts ss)

abbrev pub text_fields : List (String × String) → Fields
text_fields [] = end
text_fields ((k, v) ∷ m) = field k (str v) (text_fields m)

-- newPodSecurityContext
abbrev pub new_pod_security_context : Json
new_pod_security_context = obj (
    field "fsGroup" (num (pos 65534)) (
      field "runAsGroup" (num (pos 65534)) (
        field "runAsUser" (num (pos 65534))
          (field "seccompProfile" (obj (field "type" (str "RuntimeDefault") end)) end))))

-- newContainerSecurityContext: the user is 65534 unless WithRunAsUser gives another.
unfoldable pub run_as_user : Option ℤ → ℤ
run_as_user none = pos 65534
run_as_user (some user) = user

unfoldable pub new_container_security_context : Option ℤ → Json
unfolding run_as_user
new_container_security_context user = obj (
    field "allowPrivilegeEscalation" (bool false) (
      field "capabilities" (obj (field "drop" (one_item (str "ALL")) end)) (
        field "readOnlyRootFilesystem" (bool true)
          (field "runAsNonRoot" (bool true) (field "runAsUser" (num (run_as_user user)) end)))))

-- defaultPodAntiAffinity
unfoldable pub default_pod_anti_affinity : Bindplane → String → Json
unfolding get_selector_labels
default_pod_anti_affinity b component =
    let labels = obj (text_fields (get_selector_labels b component)) in
    let term = obj (
      field "labelSelector" (obj (field "matchLabels" labels end))
        (field "topologyKey" (str "kubernetes.io/hostname") end)) in
    let weighted = obj (field "weight" (num (pos 100)) (field "podAffinityTerm" term end)) in
    obj (
      field "podAntiAffinity"
        (obj (field "preferredDuringSchedulingIgnoredDuringExecution" (one_item weighted) end)) end)

-- A container's port.
abbrev pub container_port : String → ℤ → Json
container_port name port =
    obj (
      field "name" (str name) (field "containerPort" (num port) (field "protocol" (str "TCP") end)))

-- The probes of a TCP port, by its name.
abbrev pub tcp_probe : String → Fields → Json
tcp_probe port rest = obj (field "tcpSocket" (obj (field "port" (str port) end)) rest)

abbrev pub startup_timing : Fields
startup_timing = field "initialDelaySeconds" (num (pos 0)) (
    field "periodSeconds" (num (pos 5)) (
      field "failureThreshold" (num (pos 20))
        (field "successThreshold" (num (pos 1)) (field "timeoutSeconds" (num (pos 1)) end))))

abbrev pub running_timing : Fields
running_timing = field "periodSeconds" (num (pos 10)) (
    field "failureThreshold" (num (pos 3))
      (field "successThreshold" (num (pos 1)) (field "timeoutSeconds" (num (pos 5)) end)))

abbrev pub pre_stop_sleep : Json
pre_stop_sleep =
    let command = arr (cons (str "sh") (cons (str "-c") (cons (str "sleep 5") nil))) in
    obj (field "preStop" (obj (field "exec" (obj (field "command" command end)) end)) end)

-- The probes of a port, the security context and the pull policy, and what else there is.
unfoldable pub probed_settings : (probed_port : String) → Fields → Json
unfolding new_container_security_context
probed_settings port more = obj (
    field "startupProbe" (tcp_probe port startup_timing) (
      field "readinessProbe" (tcp_probe port running_timing) (
        field "livenessProbe" (tcp_probe port running_timing) (
          field "securityContext" (new_container_security_context (some (pos 65534)))
            (field "imagePullPolicy" (str "IfNotPresent") more)))))

-- What the containers of the server's workloads have beside their own fields.
unfoldable pub server_settings : (probed_port : String) → Json
unfolding probed_settings
server_settings port = probed_settings port (field "lifecycle" pre_stop_sleep end)

-- Resources that the code gives where the resource gives none.
abbrev pub resources_or :
    Option ResourceRequirements
    → (limits requests : List (String × Quantity)) → ResourceRequirements
resources_or (some r) limits requests = r
resources_or none limits requests = record { limits = limits; requests = requests; claims = null }

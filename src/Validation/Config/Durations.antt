-- ===== src/Validation/Config/Durations.antt =====
-- Which durations are accepted: those of the metrics' keep-alive and of the agent versions.
use bindplane_operator.Prelude.{
  Option-cases, ℤ, pos, ◌≤ℤ◌, ltb_ℤ, leb_ℤ, ◌≡◌, ◌≢◌, text_cases, ◌↔◌, inl, inr, Bool, false,
  String, Option, none, some, ◌==◌, eq_iff, arith,
}
use bindplane_operator.Validation.Config.{
  missing, not_one_hour, not_positive, hour, validate_positive_duration, check_duration,
  check_keep_alive, check_metrics_otlp, check_metrics, check_agent_versions,
  validate_metrics_config, validate_agent_versions_config,
}
use bindplane_operator.Crd.{
  BindplaneConfigSpec, MetricsOtlpConfig, MetricsOtlpKeepAliveConfig, MetricsConfig,
  AgentVersionsConfig,
}
use bindplane_operator.Validation.Errors.{
  Error, fail_if, on, >>-eq-none_iff, on-eq-none_iff, Given, Present,
}

module _ (parse_duration : String → Option ℤ) where
  -- A text that parses as a duration with the property P.
  abbrev pub IsDuration : (ℤ → Type 0) → String → Type 0
  IsDuration P value = (d : ℤ) × (parse_duration value ≡ some d) × P d

  IsDuration-eq-none_iff :
      (short : String → String → Error) (bad : ℤ → Bool) (path value : String)
      → (check_duration parse_duration short bad path value ≡ none)
        ↔ IsDuration (λ d. bad d ≡ false) value
  unfolding check_duration
  IsDuration-eq-none_iff short bad path value = (
    λ h. elim (Option-cases (parse_duration value)) [
      | inl e ↦ absurd (ground arith)
      | inr (d, e) ↦ (d, e, ground arith)
    ],
    λ (d, e, p). rw (e, check_duration) (rw p),
  )

  abbrev pub IsPositive : String → Type 0
  IsPositive value = (value ≢ "") → IsDuration (λ d. pos 1 ≤ℤ d) value

  IsPositive-eq-none_iff :
      (path value : String)
      → (validate_positive_duration parse_duration path value ≡ none) ↔ IsPositive value
  unfolding validate_positive_duration
  IsPositive-eq-none_iff path value =
      let (to, from) = IsDuration-eq-none_iff not_positive (λ d. leb_ℤ d (pos 0)) path value in
      elim (text_cases value "") [
        | inl e ↦ (λ h n. absurd (n e), λ h. rw e)
        | inr n ↦ (
          λ h _. let (d, p, q) = to (ground (arith, eq_iff value "")) in (d, p, ground arith),
          λ h. let (d, p, q) = h n in ground (arith, eq_iff value "", from (d, p, ground arith)),
        )
      ]

  abbrev pub IsKeepAlive : MetricsOtlpKeepAliveConfig → Type 0
  IsKeepAlive k = IsPositive k.time × IsPositive k.timeout

  IsKeepAlive-eq-none_iff :
      (k : MetricsOtlpKeepAliveConfig) → (check_keep_alive parse_duration k ≡ none) ↔ IsKeepAlive k
  unfolding check_keep_alive
  IsKeepAlive-eq-none_iff k =
      let (to, from) = >>-eq-none_iff _ _ in
      let (time, time') = IsPositive-eq-none_iff "spec.config.metrics.otlp.keepAlive.time" k.time in
      let (limit, limit') =
        IsPositive-eq-none_iff "spec.config.metrics.otlp.keepAlive.timeout" k.timeout in
      (λ h. (time (to h).0, limit (to h).1), λ (p, q). from (time' p, limit' q))

  -- Metrics by OTLP name an endpoint, and the durations of the keep-alive are positive.
  abbrev pub IsMetrics : MetricsConfig → Type 0
  IsMetrics m =
      m.type ≡ "otlp" → Present (λ o. (o.endpoint ≢ "") × Given IsKeepAlive o.keep_alive) m.otlp

  otlp-eq-none_iff :
      (otlp : Option MetricsOtlpConfig)
      → (check_metrics_otlp parse_duration otlp ≡ none)
        ↔ Present (λ o. (o.endpoint ≢ "") × Given IsKeepAlive o.keep_alive) otlp
  unfolding check_metrics_otlp
  otlp-eq-none_iff none = ground arith
  otlp-eq-none_iff (some o) =
      let (to, from) =
        >>-eq-none_iff (fail_if (o.endpoint == "") (missing "spec.config.metrics.otlp.endpoint"))
          (on o.keep_alive (check_keep_alive parse_duration)) in
      let (keep, keep') =
        on-eq-none_iff (check_keep_alive parse_duration) IsKeepAlive IsKeepAlive-eq-none_iff
          o.keep_alive in
      (
        λ h. (ground (arith, (to h).0, eq_iff o.endpoint ""), keep (to h).1),
        λ (p, q). from (ground (arith, eq_iff o.endpoint ""), keep' q),
      )

  IsMetrics-eq-none_iff :
      (m : MetricsConfig) → (check_metrics parse_duration m ≡ none) ↔ IsMetrics m
  unfolding check_metrics
  IsMetrics-eq-none_iff m =
      let (to, from) = otlp-eq-none_iff m.otlp in
      elim (text_cases m.type "otlp") [
        | inl e ↦ (λ h _. to (rw e at h), λ h. rw e (from (h e)))
        | inr n ↦ (λ h e. absurd (n e), λ h. ground (arith, eq_iff m.type "otlp"))
      ]

  pub validate_metrics_config-eq-none_iff :
      (c : BindplaneConfigSpec)
      → (validate_metrics_config parse_duration c ≡ none) ↔ Given IsMetrics c.metrics
  unfolding validate_metrics_config
  validate_metrics_config-eq-none_iff c =
      on-eq-none_iff (check_metrics parse_duration) IsMetrics IsMetrics-eq-none_iff c.metrics

  -- The interval of the synchronisation of agent versions is an hour at least.
  abbrev pub IsAgentVersions : AgentVersionsConfig → Type 0
  IsAgentVersions v = (v.sync_interval ≢ "") → IsDuration (λ d. hour ≤ℤ d) v.sync_interval

  IsAgentVersions-eq-none_iff :
      (v : AgentVersionsConfig) → (check_agent_versions parse_duration v ≡ none) ↔ IsAgentVersions v
  unfolding check_agent_versions
  IsAgentVersions-eq-none_iff v =
      let (to, from) =
        IsDuration-eq-none_iff not_one_hour (λ d. ltb_ℤ d hour)
          "spec.config.agentVersions.syncInterval" v.sync_interval in
      elim (text_cases v.sync_interval "") [
        | inl e ↦ (λ h n. absurd (n e), λ h. rw e)
        | inr n ↦ (
          λ h _.
              let (d, p, q) = to (ground (arith, eq_iff v.sync_interval "")) in
              (d, p, ground arith),
          λ h.
              let (d, p, q) = h n in
              ground (arith, eq_iff v.sync_interval "", from (d, p, ground arith)),
        )
      ]

  pub validate_agent_versions_config-eq-none_iff :
      (c : BindplaneConfigSpec)
      → (validate_agent_versions_config parse_duration c ≡ none)
        ↔ Given IsAgentVersions c.agent_versions
  unfolding validate_agent_versions_config
  validate_agent_versions_config-eq-none_iff c =
      on-eq-none_iff (check_agent_versions parse_duration) IsAgentVersions
        IsAgentVersions-eq-none_iff c.agent_versions

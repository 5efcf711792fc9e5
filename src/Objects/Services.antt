-- ===== src/Objects/Services.antt =====
-- internal/controller/bindplane_controller.go: reconcileService, and the fields of the live Service
-- that others set.
use bindplane_operator.Prelude.{
  sym, Bool, false, ◌&&◌, ◌||◌, String, List, [], ◌∷◌, Option, none, some, ◌≡◌, ◌≢◌, refl, ap, ◌∙◌,
  ◌⊎◌, inl, inr, if◌then◌else◌, Bool-cases, Option-cases, lookup, insert, lookup-insert, ◌==◌,
  eq_iff, arith,
}
use bindplane_operator.Prelude.Split.{split_at_commas, trim_space}
use bindplane_operator.Kube.Objects.{Service}
use bindplane_operator.Cluster.{returns}
use bindplane_operator.Api.{Api, service, key_of}
use bindplane_operator.Api.Laws.{same_key_iff}
use bindplane_operator.Objects.{
  Semantic, plan_service, wanted_selector, preserve, reconcile_service,
}
use bindplane_operator.Objects.Plans.{planned, converged, plan_service-KeepsKeys}
use bindplane_operator.Objects.Ensures.{converge-Holds}

-- A key among the texts, spaces around it aside.
unfoldable pub is_listed : String → List String → Bool
is_listed k [] = false
is_listed k (t ∷ ts) = trim_space t == k || is_listed k ts

module _ (eq : Semantic) (k v : String) (named : k ≢ "") (live : List (String × String)) where
  abbrev preserve_one : String → List (String × String) → List (String × String)
  preserve_one t selector =
      if trim_space t == "" then selector else elim (lookup (trim_space t) live) [
        | none ↦ selector
        | some w ↦ insert (trim_space t) w selector
      ]

  -- What stands under the key stays, and is put there when it is named.
  lookup-preserve_one :
      (t : String) (selector : List (String × String))
      → lookup k live ≡ some v
      → lookup k (preserve_one t selector)
        ≡ (if trim_space t == k then some v else lookup k selector)
  lookup-preserve_one t selector h = elim (Option-cases (lookup (trim_space t) live)) [
    | inl e ↦ ground (arith, eq_iff (trim_space t) k, eq_iff (trim_space t) "")
    | inr (w, e) ↦ ground (
      arith,
      eq_iff (trim_space t) k,
      eq_iff (trim_space t) "",
      lookup-insert k (trim_space t) w selector,
    )
  ]

  lookup-preserve :
      (ts : List String) (selector : List (String × String))
      → lookup k live ≡ some v
      → lookup k (preserve eq ts live selector)
        ≡ (if is_listed k ts then some v else lookup k selector)
  unfolding preserve is_listed
  lookup-preserve [] selector h = ground arith
  lookup-preserve (t ∷ ts) selector h =
      lookup-preserve ts (preserve_one t selector) h
      ∙ ground (arith, lookup-preserve_one t selector)

-- What the live selector has under a key that the desired Service's annotation names, unless the key
-- is empty.
unfoldable pub preserved_value : Service → Service → String → Option String
preserved_value d f k =
    elim (lookup "internal.k8s.bindplane.com/preserve-selector-keys" d.meta.annotations) [
      | none ↦ none
      | some names ↦
          if k == ""
          then none
          else if is_listed k (split_at_commas names)
          then lookup k f.spec.selector
          else none
    ]

-- A Service that kept what is not the operator's.
pub record KeepsOthersFields (d f x : Service) : Type 0 where
  pub keeps_cluster_ip : x.spec.cluster_ip ≡ f.spec.cluster_ip
  pub keeps_cluster_ips : x.spec.cluster_ips ≡ f.spec.cluster_ips
  pub keeps_ip_families : x.spec.ip_families ≡ f.spec.ip_families
  pub keeps_ip_family_policy : x.spec.ip_family_policy ≡ f.spec.ip_family_policy
  pub keeps_selector_keys :
      (k : String)
      → (preserved_value d f k ≡ none) ⊎ (lookup k x.spec.selector ≡ preserved_value d f k)

preserved_value-cases :
    (d f : Service) (k : String)
    → (preserved_value d f k ≡ none) ⊎ (preserved_value d f k ≡ lookup k f.spec.selector)
unfolding preserved_value
preserved_value-cases d f k = ground arith

module _ (eq : Semantic) where
  wanted_selector-keeps :
      (d f : Service) (k v : String)
      → preserved_value d f k ≡ some v
      → lookup k (wanted_selector eq d f) ≡ some v
  unfolding wanted_selector preserved_value
  wanted_selector-keeps d f k v h =
      elim (Option-cases
        (lookup "internal.k8s.bindplane.com/preserve-selector-keys" d.meta.annotations)) [
          | inl e ↦ absurd (cc)
          | inr (names, e) ↦ ground (
            arith,
            eq_iff k "",
            lookup-preserve eq k v (λ z. ground (arith, eq_iff k "")) f.spec.selector
                (split_at_commas names) d.spec.selector,
          )
        ]

  keeps_wanted :
      (d f : Service) (k : String)
      → (preserved_value d f k ≡ none) ⊎ (lookup k (wanted_selector eq d f) ≡ preserved_value d f k)
  keeps_wanted d f k = elim (Option-cases (preserved_value d f k)) [
    | inl e ↦ inl e
    | inr (v, e) ↦ inr (wanted_selector-keeps d f k v e ∙ sym e)
  ]

  plan_service-KeepsOthersFields :
      (d f : Service)
      → (x : Service) × (planned (service f) (plan_service eq d (service f)) ≡ service x)
        × KeepsOthersFields d f x
  unfolding plan_service
  plan_service-KeepsOthersFields d f =
      elim (Bool-cases (
        eq.ports f.spec.ports d.spec.ports
        && (eq.text_maps f.spec.selector (wanted_selector eq d f)
            && eq.text_maps f.meta.labels d.meta.labels))) [
              | inl e ↦ (
                f,
                rw e refl,
                record {
                  keeps_cluster_ip = refl;
                  keeps_cluster_ips = refl;
                  keeps_ip_families = refl;
                  keeps_ip_family_policy = refl;
                  keeps_selector_keys = λ k. elim (preserved_value-cases d f k) [
                    | inl e ↦ inl e
                    | inr e ↦ inr (sym e)
                  ];
                },
              )
              | inr e ↦ (
                record f {
                  spec = record f.spec { ports = d.spec.ports; selector = wanted_selector eq d f };
                  meta = record f.meta { labels = d.meta.labels };
                },
                rw e refl,
                record {
                  keeps_cluster_ip = refl;
                  keeps_cluster_ips = refl;
                  keeps_ip_families = refl;
                  keeps_ip_family_policy = refl;
                  keeps_selector_keys = keeps_wanted d f;
                },
              )
            ]

-- On an API server as its interface says: when reconcileService returns without an error and the
-- Service was live, the live Service keeps its cluster IPs and IP families, and each selector key
-- that the desired Service's annotation names and that it had keeps its value.
pub reconcile_service-KeepsOthersFields :
    (api : Api) (eq : Semantic) (d f : Service) (s t : api.State)
    → reconcile_service api eq d s ≡ (returns tt, t)
    → api.live s (key_of (service d)) ≡ some (service f)
    → (x : Service) × (api.live t (key_of (service d)) ≡ some (service x)) × KeepsOthersFields d f x
unfolding reconcile_service
reconcile_service-KeepsOthersFields api eq d f s t h live =
    let k = key_of (service d) in
    let holds =
      converge-Holds api (service d) (plan_service eq d) s t (plan_service-KeepsKeys eq d) h in
    let (x, is_x, keeps) = plan_service-KeepsOthersFields eq d f in
    (
      x,
      holds k
          ∙ rw ((same_key_iff k k).1 refl) (
              ap (λ l. some (converged (service d) (plan_service eq d) l)) live
              ∙ ap (λ o. some o) is_x),
      keeps,
    )

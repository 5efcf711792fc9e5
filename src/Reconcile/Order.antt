-- ===== src/Reconcile/Order.antt =====
-- internal/controller/bindplane_controller.go: the order of the calls of Reconcile.
use bindplane_operator.Cluster.{
  return, Step, migrate_service_account, jobs, nats, node, opamp, Call, update_status,
  patch_annotations, run_step, get_job, own_job, create_job, Answer, accepted, not_found, refused,
  Job, Server, Library, ◌>>◌, must, ask,
}
use bindplane_operator.Prelude.{
  ◌≡◌, refl, ◌⊎◌, inl, inr, true, false, String, List, [], ◌∷◌, none, ◌==◌, eq_iff, Bool-cases,
  if◌then◌else◌, lookup-remove, arith,
}
use bindplane_operator.Crd.{Bindplane}
use bindplane_operator.Images.{
  annotation_enabled, skip_migrate_check, get_bindplane_jobs_migrate_image,
}
use bindplane_operator.Migrate.{
  MigrateState, in_progress, complete, force_migrate_annotation, is_job_succeeded,
  extract_job_container_image, record_image, drop_force, clean_legacy, delete_job_with_pods,
  delete_for_force, save_image, force_migrate, examine_job, job_lookup, ensure_migrated,
  reconcile_migrate_job,
}
use bindplane_operator.Cluster.Traces.{State, Triple, bind}

abbrev pub IsGatedStep : Step → Type 0
IsGatedStep jobs = Unit
IsGatedStep nats = Unit
IsGatedStep node = Unit
IsGatedStep opamp = Unit
IsGatedStep _ = ⊥

-- A call that acts on Jobs, NATS, Node or OpAMP.
abbrev pub IsDownstream : Call → Type 0
IsDownstream (run_step s) = IsGatedStep s
IsDownstream _ = ⊥

-- The update of the status that records that image as migrated.
abbrev pub Records : String → Call → Type 0
Records image (update_status s) = s.components.jobs_migrate.image ≡ image
Records image _ = ⊥

-- The Job is there to stay, runs that image, and has succeeded.
abbrev pub IsDone : String → Job → Type 0
IsDone image job =
    (job.deletion_timestamp ≡ none)
    × (extract_job_container_image job ≡ image)
    × (is_job_succeeded job ≡ true)

module _ (server : Server) (image : String) where
  -- A Job of that image was found done, and the server accepted the record of it.
  abbrev pub Approved : List Call → Type 0
  Approved [] = ⊥
  Approved (c ∷ cs) =
      (Records image c × (server.answer cs c ≡ accepted) × IsDone image (server.job cs))
      ⊎ Approved cs

  -- Each downstream call comes after such a record, unless G holds.
  abbrev pub Ordered : Type 0 → List Call → Type 0
  Ordered G [] = Unit
  Ordered G (c ∷ cs) = (IsDownstream c → G ⊎ Approved cs) × Ordered G cs

-- The resource lets the gate pass from the start: the check is skipped, or the image is recorded
-- as migrated and no new run is forced.
abbrev pub IsOpen : Library → Bindplane → Type 0
IsOpen lib b =
    (skip_migrate_check lib.parse_bool b ≡ true)
    ⊎ ((b.status.components.jobs_migrate.image ≡ get_bindplane_jobs_migrate_image b)
        × (annotation_enabled lib.parse_bool b.meta.annotations force_migrate_annotation ≡ false))

module _ (lib : Library) (server : Server) (b₀ : Bindplane) (G : Type 0) where
  abbrev pub image : String
  image = get_bindplane_jobs_migrate_image b₀

  -- The calls are in order.
  abbrev pub Ord : State
  Ord b cs = Ordered server image G cs

  -- And the local copy is still the fetched one.
  abbrev pub Start : State
  Start b cs = (b ≡ b₀) × Ord b cs

  ask_quiet : (c : Call) → ¬ IsDownstream c → Triple Start (ask server c) (λ _. Start) Ord
  ask_quiet c n b cs (e, o) = (e, (λ h. absurd (n h), o))

  clean_ok : Triple Start (clean_legacy lib server) (λ _. Start) Ord
  unfolding clean_legacy
  clean_ok b cs (e, o) = ground arith

  pub must_quiet : (c : Call) → ¬ IsDownstream c → Triple Start (must server c) (λ _. Start) Ord
  must_quiet c n b cs (e, o) = ground arith

  -- The migration is known to be complete, where the state says so, and the flag is what it was.
  abbrev pub Judged : MigrateState → State
  Judged state b cs =
      ((state ≡ complete)
        → Approved server image cs
          ⊎ ((b₀.status.components.jobs_migrate.image ≡ image)
              × (annotation_enabled lib.parse_bool b₀.meta.annotations force_migrate_annotation
                  ≡ false)))
      × ((skip_migrate_check lib.parse_bool b ≡ skip_migrate_check lib.parse_bool b₀) × Ord b cs)

  -- The flag is what it was.
  abbrev Kept : State
  Kept b cs =
      (skip_migrate_check lib.parse_bool b ≡ skip_migrate_check lib.parse_bool b₀) × Ord b cs

  delete_ok : (a : Answer) → Triple Start (delete_for_force lib server a) (λ _. Start) Ord
  unfolding delete_for_force delete_job_with_pods
  delete_ok a b cs (e, o) = ground arith

  skip-drop_force :
      skip_migrate_check lib.parse_bool (drop_force b₀) ≡ skip_migrate_check lib.parse_bool b₀
  unfolding skip_migrate_check drop_force annotation_enabled
  skip-drop_force = ground (
    arith,
    lookup-remove "k8s.bindplane.com/skip-migrate-check" force_migrate_annotation
        b₀.meta.annotations,
  )

  must-kept : (c : Call) → ¬ IsDownstream c → Triple Kept (must server c) (λ _. Kept) Ord
  must-kept c n b cs (e, o) = ground arith

  save_kept : Triple Kept (save_image lib server "") (λ _. Kept) Ord
  unfolding save_image record_image skip_migrate_check annotation_enabled
  save_kept b cs (e, o) = ground arith

  clear_ok :
      (a : Unit {0})
      → Triple Start
          (λ b.
            (do
              must server (patch_annotations (drop_force b).meta.annotations)
              save_image lib server ""
              return in_progress)
              (drop_force b))
          Judged
          Ord
  clear_ok a b cs (e, o) =
      bind (λ _. Kept) Judged Ord Kept
        (must server (patch_annotations (drop_force b).meta.annotations)) _
        (must-kept (patch_annotations (drop_force b).meta.annotations) (λ x. x))
        (λ _.
          bind (λ _. Kept) Judged Ord Kept (save_image lib server "") _ save_kept
            (λ _ b' cs' (k, o'). ((λ h. ground arith), (k, o'))))
        (drop_force b) cs (ground (arith, skip-drop_force), o)

  force_ok : Triple Start (force_migrate lib server) Judged Ord
  unfolding force_migrate
  force_ok =
      bind (λ _. Start) Judged Ord Start (ask server get_job) _ (ask_quiet get_job (λ x. x))
        (λ a.
          bind (λ _. Start) Judged Ord Start (delete_for_force lib server a) _ (delete_ok a)
            clear_ok)

  examine_ok : Triple Start (λ b cs. examine_job lib server image (server.job cs) b cs) Judged Ord
  unfolding examine_job delete_job_with_pods save_image record_image skip_migrate_check
      annotation_enabled
  examine_ok b cs (e, o) =
      ground (arith, eq_iff (extract_job_container_image (server.job cs)) image)

  lookup_ok : (a : Answer) → Triple Start (job_lookup lib server image a) Judged Ord
  unfolding job_lookup
  lookup_ok refused b cs (e, o) = o
  lookup_ok accepted b cs h = examine_ok b cs h
  lookup_ok not_found b cs h =
      bind (λ _. Start) Judged Ord Start (must server own_job) _ (must_quiet own_job (λ x. x))
        (λ _.
          bind (λ _. Start) Judged Ord Start (must server (create_job image)) _
            (must_quiet (create_job image) (λ x. x))
            (λ _ b cs (e, o).
              ((λ h. ground arith), ((λ i. skip_migrate_check lib.parse_bool (e i)), o))))
        b cs h

  ensure_ok :
      annotation_enabled lib.parse_bool b₀.meta.annotations force_migrate_annotation ≡ false
      → Triple Start (ensure_migrated lib server b₀) Judged Ord
  unfolding ensure_migrated
  ensure_ok off b cs (e, o) = elim (Bool-cases (b₀.status.components.jobs_migrate.image == image)) [
    | inl same ↦ rw same (
      (λ _. inr ((eq_iff b₀.status.components.jobs_migrate.image image).0 same, off)),
      ((λ i. skip_migrate_check lib.parse_bool (e i)), o),
    )
    | inr other ↦ rw other (
        bind (λ _. Start) Judged Ord Start (ask server get_job) _ (ask_quiet get_job (λ x. x))
          lookup_ok b cs (e, o))
  ]

  choose_ok :
      Triple Start
        (λ b.
          (if annotation_enabled lib.parse_bool b.meta.annotations force_migrate_annotation
              then force_migrate lib server
              else ensure_migrated lib server b)
            b)
        Judged
        Ord
  choose_ok b cs (e, o) =
      elim (Bool-cases
        (annotation_enabled lib.parse_bool b₀.meta.annotations force_migrate_annotation)) [
          | inl on ↦ rw (e, on) (force_ok b₀ cs (refl, o))
          | inr off ↦ rw (e, off) (ensure_ok off b₀ cs (refl, o))
        ]

  pub migrate_ok : Triple Start (reconcile_migrate_job lib server) Judged Ord
  unfolding reconcile_migrate_job
  migrate_ok =
      bind (λ _. Start) Judged Ord Start (clean_legacy lib server) _ clean_ok
        (λ _.
          bind (λ _. Start) Judged Ord Start (must server (run_step migrate_service_account)) _
            (must_quiet (run_step migrate_service_account) (λ x. x)) (λ _. choose_ok))

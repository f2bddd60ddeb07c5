-- ===== src/Plan/Build/Failure/Marked.antt =====
-- BuildFailurePlan (pkg/plan/plan_build.go): what it adds for a failed release and for a failed
-- resource.
use nelm.Base.{
  Bool, true, false, none, some, List, [], ◌∷◌, Memᴰ, ◌≡◌, refl, ap, sym, ◌∙◌, subst, inl, inr,
  Result, ok, wrap_err, ◌>>=◌, must, if◌then◌else◌, any, All, All-map, All-at, >>=-eq-ok,
  wrap_err-eq-ok, ok-injective, Bool-cases,
}
use nelm.Common.{stage_init, stage_uninstall}
use nelm.Release.{failed, HelmRelease}
use nelm.Plan.Operation.{
  category_resource, category_track, status_failed, type_delete, type_track_absence,
  type_update_release, delete, track_absence, update_release, Operation,
}
use nelm.Plan.Info.{InstallableResourceInfo, ReleaseInfo}
use nelm.Plan.Build.Failure.{
  is_failed, created_release, failed_tracking_id, already_deleted, add_failed_release_ops,
  add_failure_release_operation, add_failure_release_operations, delete_failed_resource,
  delete_unless_done, add_failure_resource_operation, add_failure_resource_operations,
  build_failure_graph,
}
use nelm.Plan.Graph.{GraphLib, IsGraphLib}
use nelm.Plan.Chain.{must_find, BuilderStep, operations, do_chain}
use nelm.Plan.Build.{new_operation}
use nelm.Plan.Build.Stages.{add_main_stages}
use nelm.Plan.Build.Releases.{with_status}
use nelm.Plan.Chain.Builder.{staged_step, in_stage-add_operation}
use nelm.Plan.Build.Named.{new_operation-IsNamed}
use mathlib.Core.Bool.{false≢true}
use nelm.Plan.Build.Grows.{Grows, Grows-refl, Grows-trans, do_chain-Grows, if-Grows}
use nelm.Plan.Build.Releases.Placed.{
  update_release_op, at_status, IsCopy, with_status-eq, must_single,
}
use nelm.Plan.Build.Stages.Main.{add_main_stages-MainStages}
use nelm.Plan.Chain.Placement.{IsNamed, NamesNoops, Placed, Chained, Placed-mono, Chained-mono}

abbrev pub failure_steps : InstallableResourceInfo → List BuilderStep
failure_steps info =
    staged_step
      (new_operation type_delete category_resource info.iteration
        (delete info.meta info.local_resource.delete_propagation))
      stage_uninstall
    ∷ staged_step
        (new_operation type_track_absence category_track info.iteration (track_absence info.meta))
        stage_uninstall
    ∷ []

module _ (lib : GraphLib) (laws : IsGraphLib lib) (failed_plan : lib.Graph) (ops : List Operation)
    (listed : operations lib failed_plan ≡ ok ops) where
  open lib use {Graph, new, vertex}

  -- The release was created or updated, and its failure is to be recorded.
  abbrev pub IsFailed : ReleaseInfo → Type 0
  IsFailed info =
      (info.must_fail_on_failed_deploy ≡ true) × (any (created_release info.release) ops ≡ true)

  abbrev pub Marked : Graph → ReleaseInfo → Type 0
  Marked g info =
      IsFailed info
      → Placed lib g (staged_step (update_release_op (at_status info.release failed)) stage_init)

  -- The resource is to be deleted: its tracking failed, and it is not deleted already.
  abbrev pub IsLeft : InstallableResourceInfo → Type 0
  IsLeft info =
      (info.must_delete_on_failed_install ≡ true)
      × ((op : Operation) × (vertex failed_plan (failed_tracking_id info) ≡ some op)
          × (op.status ≡ status_failed))
      × (already_deleted info ops ≡ ok false)

  abbrev pub LeftDeleted : Graph → InstallableResourceInfo → Type 0
  LeftDeleted g info = IsLeft info → Chained lib g none (failure_steps info)

  delete_failed_resource-eq :
      (g : Graph) (info : InstallableResourceInfo)
      → delete_failed_resource lib g info
        ≡ wrap_err "do add chain operations" (do_chain lib g (failure_steps info))
  unfolding delete_failed_resource
  delete_failed_resource-eq g info =
      rw (in_stage-add_operation [] _ stage_uninstall)
        (rw (in_stage-add_operation _ _ stage_uninstall) refl)

  failure_steps-IsNamed :
      (info : InstallableResourceInfo) → All (λ s. IsNamed s.operation) (failure_steps info)
  failure_steps-IsNamed info =
      (new_operation-IsNamed _ _ _ _ (λ n. n), (new_operation-IsNamed _ _ _ _ (λ n. n), tt))

  delete_failed-Chained :
      (g : Graph) (info : InstallableResourceInfo) (g' : Graph)
      → NamesNoops lib g
      → delete_failed_resource lib g info ≡ ok g'
      → Grows lib g g' × Chained lib g' none (failure_steps info)
  delete_failed-Chained g info g' named h =
      do_chain-Grows lib laws g (failure_steps info) g' named (failure_steps-IsNamed info) (
        wrap_err-eq-ok _ (do_chain lib g (failure_steps info))
          (sym (delete_failed_resource-eq g info) ∙ h))

  -- What is decided from the tracking operation that was found.
  delete_unless_done-Grows :
      (g : Graph) (info : InstallableResourceInfo) (tracking : Operation) (g' : Graph)
      → NamesNoops lib g
      → delete_unless_done lib failed_plan g info tracking ≡ ok g'
      → Grows lib g g'
        × (tracking.status ≡ status_failed
            → already_deleted info ops ≡ ok false
            → Chained lib g' none (failure_steps info))
  unfolding delete_unless_done is_failed
  delete_unless_done-Grows g info tracking g' named h =
      elim (Bool-cases (is_failed tracking.status)) [
        | inr e ↦ (
          subst (Grows lib g) (ok-injective (rw e at h)) (Grows-refl lib g),
          λ broken. absurd (false≢true (sym e ∙ rw broken refl)),
        )
        | inl e ↦
            let (done, found, rest) =
              >>=-eq-ok (operations lib failed_plan >>= already_deleted info) _ (rw e at h) in
            let known : already_deleted info ops ≡ ok done =
              sym (ap (λ r. r >>= already_deleted info) listed) ∙ found in
            decided done known rest
      ]
    where
      decided :
          (done : Bool)
          → already_deleted info ops ≡ ok done
          → (if done then ok g else delete_failed_resource lib g info) ≡ ok g'
          → Grows lib g g'
            × (tracking.status ≡ status_failed
                → already_deleted info ops ≡ ok false
                → Chained lib g' none (failure_steps info))
      decided true known rest = (
        subst (Grows lib g) (ok-injective rest) (Grows-refl lib g),
        λ broken left. absurd (false≢true (ok-injective (sym left ∙ known))),
      )
      decided false known rest =
          let (x, chained) = delete_failed-Chained g info g' named rest in
          (x, λ broken left. chained)

  resource_operation-Grows :
      (g : Graph) (info : InstallableResourceInfo) (g' : Graph)
      → NamesNoops lib g
      → add_failure_resource_operation lib failed_plan g info ≡ ok g'
      → Grows lib g g'
        × (((op : Operation) × (vertex failed_plan (failed_tracking_id info) ≡ some op)
              × (op.status ≡ status_failed))
            → already_deleted info ops ≡ ok false
            → Chained lib g' none (failure_steps info))
  unfolding add_failure_resource_operation
  resource_operation-Grows g info g' named h =
      let (tracking, e, rest) =
        >>=-eq-ok (must_find (vertex failed_plan (failed_tracking_id info))) _ h in
      let (x, removes) = delete_unless_done-Grows g info tracking g' named rest in
      (
        x,
        λ tracked.
            let same : tracked.0 ≡ tracking = ok-injective (sym (ap must_find tracked.1) ∙ e) in
            removes (subst (λ o. o.status ≡ status_failed) same tracked.2),
      )

  resource_operations-Placed :
      (g : Graph) (infos : List InstallableResourceInfo) (g' : Graph)
      → NamesNoops lib g
      → add_failure_resource_operations lib failed_plan g infos ≡ ok g'
      → Grows lib g g' × All (LeftDeleted g') infos
  unfolding add_failure_resource_operations
  resource_operations-Placed g [] g' named h =
      subst (λ k. Grows lib g k × Unit) (ok-injective h) (Grows-refl lib g, tt)
  resource_operations-Placed g (info ∷ infos) g' named h =
      let (g₁, e, h₁) =
        >>=-eq-ok
          (if info.must_delete_on_failed_install
            then add_failure_resource_operation lib failed_plan g info
            else ok g)
          _ h in
      let (x₁, one) =
        if-Grows lib info.must_delete_on_failed_install
          (add_failure_resource_operation lib failed_plan g info) g g₁
          (resource_operation-Grows g info g₁ named) e in
      let (x₂, all) = resource_operations-Placed g₁ infos g' (x₁.names named) h₁ in
      (
        Grows-trans lib x₁ x₂,
        (
          λ left. Chained-mono lib none (failure_steps info) x₂.extends (one left.0 left.1 left.2),
          all,
        ),
      )

  module _ (copy : HelmRelease → Result HelmRelease) (copies : IsCopy copy) where
    failed_release_ops-Placed :
        (g : Graph) (info : ReleaseInfo) (g' : Graph)
        → NamesNoops lib g
        → add_failed_release_ops lib copy g info ≡ ok g'
        → Grows lib g g'
          × Placed lib g'
              (staged_step (update_release_op (at_status info.release failed)) stage_init)
    unfolding add_failed_release_ops
    failed_release_ops-Placed g info g' named h =
        let (rel, e, rest) = >>=-eq-ok (with_status lib copy info.release failed) _ h in
        let (x, placed) =
          must_single lib laws copy copies g type_update_release (update_release rel) stage_init g'
            (λ n. n) named rest in
        (
          x,
          subst (λ r. Placed lib g' (staged_step (update_release_op r) stage_init))
              (with_status-eq lib laws copy copies info.release failed e) placed,
        )

    release_operation-Grows :
        (g : Graph) (info : ReleaseInfo) (g' : Graph)
        → NamesNoops lib g
        → add_failure_release_operation lib copy failed_plan g info ≡ ok g'
        → Grows lib g g' × Marked g' info
    unfolding add_failure_release_operation
    release_operation-Grows g info g' named h =
        let (x, marked) =
          if-Grows lib info.must_fail_on_failed_deploy (operations lib failed_plan >>= marking) g g'
            (λ k.
              if-Grows lib (any (created_release info.release) ops)
                (wrap_err "add failed release ops for release"
                  (add_failed_release_ops lib copy g info))
                g g'
                (λ w.
                  failed_release_ops-Placed g info g' named
                    (wrap_err-eq-ok _ (add_failed_release_ops lib copy g info) w))
                (sym (ap (λ r. r >>= marking) listed) ∙ k))
            h in
        (x, λ is_failed_info. marked is_failed_info.0 is_failed_info.1)
      where
        marking : List Operation → Result Graph
        marking ops =
            if any (created_release info.release) ops
            then wrap_err "add failed release ops for release"
                (add_failed_release_ops lib copy g info)
            else ok g

    release_operations-Placed :
        (g : Graph) (infos : List ReleaseInfo) (g' : Graph)
        → NamesNoops lib g
        → add_failure_release_operations lib copy failed_plan g infos ≡ ok g'
        → Grows lib g g' × All (Marked g') infos
    unfolding add_failure_release_operations
    release_operations-Placed g [] g' named h =
        subst (λ k. Grows lib g k × Unit) (ok-injective h) (Grows-refl lib g, tt)
    release_operations-Placed g (info ∷ infos) g' named h =
        let (g₁, e, h₁) =
          >>=-eq-ok (add_failure_release_operation lib copy failed_plan g info) _ h in
        let (x₁, one) = release_operation-Grows g info g₁ named e in
        let (x₂, all) = release_operations-Placed g₁ infos g' (x₁.names named) h₁ in
        (
          Grows-trans lib x₁ x₂,
          (λ is_failed_info. Placed-mono lib x₂.extends (one is_failed_info), all),
        )

    module _ (inst_infos : List InstallableResourceInfo) (release_infos : List ReleaseInfo)
        (g : Graph)
        (built : build_failure_graph lib copy failed_plan inst_infos release_infos ≡ ok g) where
      all_placed : All (Marked g) release_infos × All (LeftDeleted g) inst_infos
      unfolding build_failure_graph
      all_placed =
          let (g₁, e₁, h₁) =
            >>=-eq-ok (wrap_err "add main stages" (add_main_stages lib new)) _ built in
          let (g₂, e₂, h₂) =
            >>=-eq-ok
              (wrap_err "add failure release operations"
                (add_failure_release_operations lib copy failed_plan g₁ release_infos))
              _ h₁ in
          let (x₁, stages) =
            add_main_stages-MainStages lib laws new g₁ none_yet (wrap_err-eq-ok _ _ e₁) in
          let n₁ = x₁.names none_yet in
          let (x₂, marked) =
            release_operations-Placed g₁ release_infos g₂ n₁ (wrap_err-eq-ok _ _ e₂) in
          let (x₃, left) =
            resource_operations-Placed g₂ inst_infos g (x₂.names n₁) (wrap_err-eq-ok _ _ h₂) in
          (
            All-map (λ info m is_failed_info. Placed-mono lib x₃.extends (m is_failed_info))
                release_infos marked,
            left,
          )
        where
          none_yet : NamesNoops lib new
          none_yet i op h = absurd (cc (rw (laws.vertex-new i) at h))

      -- In a failure plan built without an error, every release whose failure is to be recorded, and
      -- that the failed plan has created or updated, is updated to the status failed in the first
      -- stage.
      pub build_failure_graph-marked :
          (info : ReleaseInfo)
          → Memᴰ info release_infos
          → info.must_fail_on_failed_deploy ≡ true
          → any (created_release info.release) ops ≡ true
          → Placed lib g
              (staged_step (update_release_op (at_status info.release failed)) stage_init)
      build_failure_graph-marked info m must created =
          All-at (Marked g) info release_infos m all_placed.0 (must, created)

      -- In a failure plan built without an error, every resource that is to be deleted on a failure,
      -- whose tracking failed and that the clean-up of the failed plan has not deleted, is deleted in
      -- the uninstall stage, and then its absence is tracked.
      pub build_failure_graph-deletes :
          (info : InstallableResourceInfo) (op : Operation)
          → Memᴰ info inst_infos
          → info.must_delete_on_failed_install ≡ true
          → vertex failed_plan (failed_tracking_id info) ≡ some op
          → op.status ≡ status_failed
          → already_deleted info ops ≡ ok false
          → Chained lib g none (failure_steps info)
      build_failure_graph-deletes info op m must at broken left =
          All-at (LeftDeleted g) info inst_infos m all_placed.1 (must, (op, at, broken), left)

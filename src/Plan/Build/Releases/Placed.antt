-- ===== src/Plan/Build/Releases/Placed.antt =====
-- addReleaseOperations (pkg/plan/plan_build.go): its effect on the graph.
use nelm.Base.{
  List, [], ◌∷◌, ◌≡◌, ap, sym, ◌∙◌, subst, Result, ok, wrap_err, must, All, >>=-eq-ok,
  wrap_err-eq-ok, must-eq-ok, ok-injective,
}
use nelm.Common.{Stage, stage_init, stage_final}
use nelm.Release.{
  Status, deployed, superseded, uninstalling, pending_install, pending_upgrade, pending_rollback,
  HelmRelease,
}
use nelm.Plan.Operation.{
  category_release, OperationType, type_create_release, type_delete_release, type_update_release,
  OperationConfig, create_release, update_release, delete_release, Operation,
}
use nelm.Plan.Info.{
  ReleaseType, release_none, release_install, release_upgrade, release_rollback, release_supersede,
  release_uninstall, release_delete, ReleaseInfo,
}
use nelm.Plan.Graph.{GraphLib, IsGraphLib}
use nelm.Plan.Build.{new_operation, do_single}
use nelm.Plan.Build.Releases.{
  with_status, add_pending_and_deployed_release_ops, add_supersede_release_ops,
  add_uninstall_release_ops, add_delete_release_ops, add_release_operation, add_release_operations,
}
use nelm.Plan.Chain.Builder.{staged_step}
use nelm.Plan.Build.Named.{IsNoop, new_operation-IsNamed}
use nelm.Plan.Build.Grows.{Grows, Grows-refl, Grows-trans, do_single-Grows}
use nelm.Plan.Chain.Placement.{Extends, NamesNoops, Placed, Placed-mono}

abbrev pub create_release_op : HelmRelease → Operation
create_release_op rel = new_operation type_create_release category_release 0 (create_release rel)

abbrev pub update_release_op : HelmRelease → Operation
update_release_op rel = new_operation type_update_release category_release 0 (update_release rel)

abbrev pub delete_release_op : HelmRelease → Operation
delete_release_op rel =
    new_operation type_delete_release category_release 0
      (delete_release rel.name rel.namespace rel.version)

abbrev pub at_status : HelmRelease → Status → HelmRelease
at_status rel status = record rel { status = status }

module _ (lib : GraphLib) where
  open lib use {Graph}

  -- A release that is deployed: pending in the first stage, deployed in the last.
  abbrev pub DeployPlaced : Graph → HelmRelease → Status → Type 0
  DeployPlaced g rel pending =
      Placed lib g (staged_step (create_release_op (at_status rel pending)) stage_init)
      × Placed lib g (staged_step (update_release_op (at_status rel deployed)) stage_final)

  -- What a release info asks of the graph.
  abbrev pub ReleasePlaced : Graph → HelmRelease → ReleaseType → Type 0
  ReleasePlaced g rel release_install = DeployPlaced g rel pending_install
  ReleasePlaced g rel release_upgrade = DeployPlaced g rel pending_upgrade
  ReleasePlaced g rel release_rollback = DeployPlaced g rel pending_rollback
  ReleasePlaced g rel release_supersede =
      Placed lib g (staged_step (update_release_op (at_status rel superseded)) stage_final)
  ReleasePlaced g rel release_uninstall =
      Placed lib g (staged_step (update_release_op (at_status rel uninstalling)) stage_init)
      × Placed lib g (staged_step (delete_release_op rel) stage_final)
  ReleasePlaced g rel release_delete =
      Placed lib g (staged_step (delete_release_op rel) stage_final)
  ReleasePlaced g rel release_none = Unit

  pub ReleasePlaced-mono :
      {g g' : Graph} (rel : HelmRelease) (t : ReleaseType)
      → Extends lib g g'
      → ReleasePlaced g rel t
      → ReleasePlaced g' rel t
  ReleasePlaced-mono rel release_install x p = (Placed-mono lib x p.0, Placed-mono lib x p.1)
  ReleasePlaced-mono rel release_upgrade x p = (Placed-mono lib x p.0, Placed-mono lib x p.1)
  ReleasePlaced-mono rel release_rollback x p = (Placed-mono lib x p.0, Placed-mono lib x p.1)
  ReleasePlaced-mono rel release_supersede x p = Placed-mono lib x p
  ReleasePlaced-mono rel release_uninstall x p = (Placed-mono lib x p.0, Placed-mono lib x p.1)
  ReleasePlaced-mono rel release_delete x p = Placed-mono lib x p
  ReleasePlaced-mono rel release_none x p = tt

-- A copy that succeeds is equal to what was copied.
abbrev pub IsCopy : (HelmRelease → Result HelmRelease) → Type 0
IsCopy copy = (rel rel' : HelmRelease) → copy rel ≡ ok rel' → rel' ≡ rel

module _ (lib : GraphLib) (laws : IsGraphLib lib) (copy : HelmRelease → Result HelmRelease)
    (copies : IsCopy copy) where
  open lib use {Graph}

  pub with_status-eq :
      (rel : HelmRelease) (status : Status) {rel' : HelmRelease}
      → with_status lib copy rel status ≡ ok rel'
      → rel' ≡ at_status rel status
  unfolding with_status
  with_status-eq rel status h =
      let (rel₁, e, h₁) = >>=-eq-ok (wrap_err "deep copy release" (copy rel)) _ h in
      sym (ok-injective h₁)
      ∙ ap (λ r. at_status r status) (copies rel rel₁ (wrap_err-eq-ok _ (copy rel) e))

  -- One operation that must be added.
  pub must_single :
      (g : Graph) (type : OperationType) (config : OperationConfig) (stage : Stage) (g' : Graph)
      → ¬ IsNoop config
      → NamesNoops lib g
      → must (do_single lib g (new_operation type category_release 0 config) stage) ≡ ok g'
      → Grows lib g g'
        × Placed lib g' (staged_step (new_operation type category_release 0 config) stage)
  must_single g type config stage g' n named h =
      do_single-Grows lib laws g _ stage g' named
        (new_operation-IsNamed type category_release 0 config n)
        (must-eq-ok (do_single lib g (new_operation type category_release 0 config) stage) h)

  pending_and_deployed-Placed :
      (g : Graph) (info : ReleaseInfo) (pending : Status) (g' : Graph)
      → NamesNoops lib g
      → add_pending_and_deployed_release_ops lib copy g info pending ≡ ok g'
      → Grows lib g g' × DeployPlaced lib g' info.release pending
  unfolding add_pending_and_deployed_release_ops
  pending_and_deployed-Placed g info pending g' named h =
      let (r₁, e₁, h₁) = >>=-eq-ok (with_status lib copy info.release pending) _ h in
      let (g₁, e₂, h₂) =
        >>=-eq-ok (must (do_single lib g (create_release_op r₁) stage_init)) _ h₁ in
      let (r₂, e₃, h₃) = >>=-eq-ok (with_status lib copy r₁ deployed) _ h₂ in
      let (x₁, p₁) =
        must_single g type_create_release (create_release r₁) stage_init g₁ (λ n. n) named e₂ in
      let (x₂, p₂) =
        must_single g₁ type_update_release (update_release r₂) stage_final g' (λ n. n)
          (x₁.names named) h₃ in
      let s₁ = with_status-eq info.release pending e₁ in
      let s₂ = with_status-eq r₁ deployed e₃ ∙ ap (λ r. at_status r deployed) s₁ in
      (
        Grows-trans lib x₁ x₂,
        (
          subst (λ r. Placed lib g' (staged_step (create_release_op r) stage_init)) s₁
              (Placed-mono lib x₂.extends p₁),
          subst (λ r. Placed lib g' (staged_step (update_release_op r) stage_final)) s₂ p₂,
        ),
      )

  supersede-Placed :
      (g : Graph) (info : ReleaseInfo) (g' : Graph)
      → NamesNoops lib g
      → add_supersede_release_ops lib copy g info ≡ ok g'
      → Grows lib g g' × ReleasePlaced lib g' info.release release_supersede
  unfolding add_supersede_release_ops
  supersede-Placed g info g' named h =
      let (r₁, e₁, h₁) = >>=-eq-ok (with_status lib copy info.release superseded) _ h in
      let (x, p) =
        must_single g type_update_release (update_release r₁) stage_final g' (λ n. n) named h₁ in
      (
        x,
        subst (λ r. Placed lib g' (staged_step (update_release_op r) stage_final))
            (with_status-eq info.release superseded e₁) p,
      )

  uninstall-Placed :
      (g : Graph) (info : ReleaseInfo) (g' : Graph)
      → NamesNoops lib g
      → add_uninstall_release_ops lib copy g info ≡ ok g'
      → Grows lib g g' × ReleasePlaced lib g' info.release release_uninstall
  unfolding add_uninstall_release_ops
  uninstall-Placed g info g' named h =
      let (r₁, e₁, h₁) = >>=-eq-ok (with_status lib copy info.release uninstalling) _ h in
      let (g₁, e₂, h₂) =
        >>=-eq-ok (must (do_single lib g (update_release_op r₁) stage_init)) _ h₁ in
      let (x₁, p₁) =
        must_single g type_update_release (update_release r₁) stage_init g₁ (λ n. n) named e₂ in
      let (x₂, p₂) =
        must_single g₁ type_delete_release (delete_release r₁.name r₁.namespace r₁.version)
          stage_final g' (λ n. n) (x₁.names named) h₂ in
      let s = with_status-eq info.release uninstalling e₁ in
      (
        Grows-trans lib x₁ x₂,
        (
          subst (λ r. Placed lib g' (staged_step (update_release_op r) stage_init)) s
              (Placed-mono lib x₂.extends p₁),
          subst (λ r. Placed lib g' (staged_step (delete_release_op r) stage_final)) s p₂,
        ),
      )

  add_release_operation-Placed :
      (g : Graph) (info : ReleaseInfo) (t : ReleaseType) (g' : Graph)
      → NamesNoops lib g
      → add_release_operation lib copy g info t ≡ ok g'
      → Grows lib g g' × ReleasePlaced lib g' info.release t
  unfolding add_release_operation add_delete_release_ops
  add_release_operation-Placed g info release_install g' named h =
      pending_and_deployed-Placed g info pending_install g' named (wrap_err-eq-ok _ _ h)
  add_release_operation-Placed g info release_upgrade g' named h =
      pending_and_deployed-Placed g info pending_upgrade g' named (wrap_err-eq-ok _ _ h)
  add_release_operation-Placed g info release_rollback g' named h =
      pending_and_deployed-Placed g info pending_rollback g' named (wrap_err-eq-ok _ _ h)
  add_release_operation-Placed g info release_supersede g' named h =
      supersede-Placed g info g' named (wrap_err-eq-ok _ _ h)
  add_release_operation-Placed g info release_uninstall g' named h =
      uninstall-Placed g info g' named (wrap_err-eq-ok _ _ h)
  add_release_operation-Placed g info release_delete g' named h =
      must_single g type_delete_release _ stage_final g' (λ n. n) named h
  add_release_operation-Placed g info release_none g' named h =
      (subst (Grows lib g) (ok-injective h) (Grows-refl lib g), tt)

  pub add_release_operations-Placed :
      (g : Graph) (infos : List ReleaseInfo) (g' : Graph)
      → NamesNoops lib g
      → add_release_operations lib copy g infos ≡ ok g'
      → Grows lib g g' × All (λ info. ReleasePlaced lib g' info.release info.must) infos
  unfolding add_release_operations
  add_release_operations-Placed g [] g' named h =
      subst (λ k. Grows lib g k × Unit) (ok-injective h) (Grows-refl lib g, tt)
  add_release_operations-Placed g (info ∷ infos) g' named h =
      let (g₁, e, h₁) = >>=-eq-ok (add_release_operation lib copy g info info.must) _ h in
      let (x₁, p) = add_release_operation-Placed g info info.must g₁ named e in
      let (x₂, all) = add_release_operations-Placed g₁ infos g' (x₁.names named) h₁ in
      (Grows-trans lib x₁ x₂, (ReleasePlaced-mono lib info.release info.must x₂.extends p, all))

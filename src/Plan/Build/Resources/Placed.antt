-- ===== src/Plan/Build/Resources/Placed.antt =====
-- addInstallResourceOps and addDeleteResourcesOps (pkg/plan/plan_build.go): their effect on the
-- graph.
use nelm.Base.{
  Bool, true, false, none, List, [], ◌∷◌, ◌++◌, map, ◌≡◌, sym, ◌∙◌, subst, not, inl, inr, ok,
  wrap_err, if◌then◌else◌, All, >>=-eq-ok, wrap_err-eq-ok, ok-injective, Bool-cases,
}
use nelm.Common.{Stage}
use nelm.Resource.{ExternalDependency}
use nelm.Plan.Operation.{
  category_resource, category_track, type_delete, type_track_absence, delete, track_absence,
  Operation,
}
use nelm.Plan.Info.{
  ResourceInstallType, install_none, install_create, install_recreate, install_update,
  install_apply, InstallableResourceInfo, DeletableResourceInfo,
}
use nelm.Plan.Graph.{GraphLib, IsGraphLib}
use nelm.Plan.Chain.{BuilderStep, do_chain}
use nelm.Plan.Build.{new_operation}
use nelm.Plan.Build.Resources.{
  delete_resource, add_delete_resources_ops, track_readiness_op, is_install_none, install_chain,
  add_install_resource_ops,
}
use nelm.Plan.Chain.Builder.{staged_step, skipping_step, in_stage-add_operation}
use nelm.Plan.Build.Named.{new_operation-IsNamed}
use nelm.Plan.Build.Resources.InstallSteps.{
  presence_op, stage_of, presence_steps, deploy_steps, track_steps, install_steps, install_chain-eq,
}
use nelm.Plan.Build.Grows.{Grows, Grows-refl, Grows-trans, do_chain-Grows, if-Grows}
use nelm.Plan.Chain.Placement.{IsNamed, NamesNoops, Chained, Chained-mono}

abbrev AllNamed : List BuilderStep → Type 0
AllNamed steps = All (λ s. IsNamed s.operation) steps

All-append {ℓ κ} :
    {A : Type ℓ} (P : A → Type κ) (xs ys : List A) → All P xs → All P ys → All P (xs ++ ys)
All-append P [] ys p q = q
All-append P (x ∷ xs) ys p q = (p.0, All-append P xs ys p.1 q)

presence-IsNamed :
    (stage : Stage) (deps : List ExternalDependency)
    → AllNamed (map (λ d. skipping_step (presence_op d) stage) deps)
presence-IsNamed stage [] = tt
presence-IsNamed stage (dep ∷ deps) =
    (new_operation-IsNamed _ _ _ _ (λ n. n), presence-IsNamed stage deps)

deploy-IsNamed :
    (info : InstallableResourceInfo) (t : ResourceInstallType) → AllNamed (deploy_steps info t)
deploy-IsNamed info install_none = tt
deploy-IsNamed info install_create = (new_operation-IsNamed _ _ _ _ (λ n. n), tt)
deploy-IsNamed info install_recreate = (new_operation-IsNamed _ _ _ _ (λ n. n), tt)
deploy-IsNamed info install_update = (new_operation-IsNamed _ _ _ _ (λ n. n), tt)
deploy-IsNamed info install_apply = (new_operation-IsNamed _ _ _ _ (λ n. n), tt)

if-IsNamed :
    (b : Bool) (xs ys : List BuilderStep)
    → AllNamed xs
    → AllNamed ys
    → AllNamed (if b then xs else ys)
if-IsNamed true xs ys p q = p
if-IsNamed false xs ys p q = q

install_steps-IsNamed : (info : InstallableResourceInfo) → AllNamed (install_steps info)
unfolding install_steps track_readiness_op
install_steps-IsNamed info =
    All-append _ (presence_steps info) _
      (if-IsNamed (not (is_install_none info.must_install)) _ _
        (presence-IsNamed (stage_of info) info.local_resource.external_dependencies) tt)
      (All-append _ (deploy_steps info info.must_install) _ (deploy-IsNamed info info.must_install)
        (All-append _ (track_steps info) _
          (if-IsNamed info.must_track_readiness _ _ (new_operation-IsNamed _ _ _ _ (λ n. n), tt) tt)
          (if-IsNamed info.must_delete_on_successful_install _ _
            (new_operation-IsNamed _ _ _ _ (λ n. n), (new_operation-IsNamed _ _ _ _ (λ n. n), tt))
            tt)))

-- The chain of a resource that is to be deleted.
abbrev pub delete_op : DeletableResourceInfo → Operation
delete_op info =
    new_operation type_delete category_resource 0
      (delete info.meta info.local_resource.delete_propagation)

abbrev pub absence_op : DeletableResourceInfo → Operation
absence_op info = new_operation type_track_absence category_track 0 (track_absence info.meta)

abbrev pub delete_steps : DeletableResourceInfo → List BuilderStep
delete_steps info =
    staged_step (delete_op info) info.stage
    ∷ (if info.must_track_absence then staged_step (absence_op info) info.stage ∷ [] else [])

module _ (lib : GraphLib) where
  open lib use {Graph}

  -- The chain of an info stands in the graph if the info must be deleted.
  abbrev pub Deleted : Graph → DeletableResourceInfo → Type 0
  Deleted g info = info.must_delete ≡ true → Chained lib g none (delete_steps info)

module _ (lib : GraphLib) (laws : IsGraphLib lib) where
  open lib use {Graph}

  -- Every info's chain stands in the graph that the loop leaves.
  pub add_install_resource_ops-Placed :
      (g : Graph) (infos : List InstallableResourceInfo) (g' : Graph)
      → NamesNoops lib g
      → add_install_resource_ops lib g infos ≡ ok g'
      → Grows lib g g' × All (λ info. Chained lib g' none (install_steps info)) infos
  unfolding add_install_resource_ops
  add_install_resource_ops-Placed g [] g' named h =
      subst (λ k. Grows lib g k × Unit) (ok-injective h) (Grows-refl lib g, tt)
  add_install_resource_ops-Placed g (info ∷ infos) g' named h =
      let (chain, e, h₁) = >>=-eq-ok (install_chain info) _ h in
      let (g₁, e₁, h₂) =
        >>=-eq-ok (wrap_err "do add chain operations" (do_chain lib g chain)) _ h₁ in
      let same = ok-injective (sym (install_chain-eq info) ∙ e) in
      let (x₁, chained) =
        do_chain-Grows lib laws g (install_steps info) g₁ named (install_steps-IsNamed info)
          (rw (← same) at (wrap_err-eq-ok _ (do_chain lib g chain) e₁)) in
      let (x₂, all) = add_install_resource_ops-Placed g₁ infos g' (x₁.names named) h₂ in
      (Grows-trans lib x₁ x₂, (Chained-mono lib none _ x₂.extends chained, all))

  delete_resource-eq :
      (g : Graph) (info : DeletableResourceInfo)
      → delete_resource lib g info
        ≡ wrap_err "do add chain operations" (do_chain lib g (delete_steps info))
  unfolding delete_resource
  delete_resource-eq g info = elim (Bool-cases info.must_track_absence) [
    | inl e ↦
        rw (in_stage-add_operation [] (delete_op info) info.stage)
          (rw e (rw (in_stage-add_operation _ (absence_op info) info.stage)))
    | inr e ↦ rw (in_stage-add_operation [] (delete_op info) info.stage) (rw e)
  ]

  delete_steps-IsNamed : (info : DeletableResourceInfo) → AllNamed (delete_steps info)
  delete_steps-IsNamed info = (
    new_operation-IsNamed _ _ _ _ (λ n. n),
    if-IsNamed info.must_track_absence _ _ (new_operation-IsNamed _ _ _ _ (λ n. n), tt) tt,
  )

  delete_if_must-Deleted :
      (g : Graph) (info : DeletableResourceInfo) (g' : Graph)
      → NamesNoops lib g
      → (if info.must_delete then delete_resource lib g info else ok g) ≡ ok g'
      → Grows lib g g' × Deleted lib g' info
  delete_if_must-Deleted g info g' named =
      if-Grows lib info.must_delete (delete_resource lib g info) g g' λ h.
        do_chain-Grows lib laws g (delete_steps info) g' named (delete_steps-IsNamed info) (
          wrap_err-eq-ok _ (do_chain lib g (delete_steps info))
            (sym (delete_resource-eq g info) ∙ h))

  pub add_delete_resources_ops-Placed :
      (g : Graph) (infos : List DeletableResourceInfo) (g' : Graph)
      → NamesNoops lib g
      → add_delete_resources_ops lib g infos ≡ ok g'
      → Grows lib g g' × All (Deleted lib g') infos
  unfolding add_delete_resources_ops
  add_delete_resources_ops-Placed g [] g' named h =
      subst (λ k. Grows lib g k × Unit) (ok-injective h) (Grows-refl lib g, tt)
  add_delete_resources_ops-Placed g (info ∷ infos) g' named h =
      let (g₁, e, h₁) =
        >>=-eq-ok (if info.must_delete then delete_resource lib g info else ok g) _ h in
      let (x₁, deleted) = delete_if_must-Deleted g info g₁ named e in
      let (x₂, all) = add_delete_resources_ops-Placed g₁ infos g' (x₁.names named) h₁ in
      (
        Grows-trans lib x₁ x₂,
        (λ must. Chained-mono lib none (delete_steps info) x₂.extends (deleted must), all),
      )

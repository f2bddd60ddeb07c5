-- ===== src/Plan/Build/Dependencies/DeleteEdges.antt =====
-- connectInternalDeleteDependencies (pkg/plan/plan_build.go): its effect on the graph.
use nelm.Base.{
  true, Option, none, some, List, [], ◌∷◌, ◌++◌, ◌≡◌, sym, ◌∙◌, subst, ok, wrap_err, All, All-map,
  >>=-eq-ok, wrap_err-eq-ok, ok-injective, some-injective,
}
use nelm.Common.{ResourceState, absent, present, ready, Stage}
use nelm.Resource.{InternalDependency}
use nelm.Plan.Operation.{Operation, id}
use nelm.Plan.Info.{InstallableResourceInfo, DeletableResourceInfo}
use nelm.Plan.Graph.{GraphLib, IsGraphLib}
use nelm.Plan.Chain.{connect}
use nelm.Plan.Build.Dependencies.{
  connect_all, connect_upon, connect_delete_deps, connect_delete_op, connect_delete_info,
  connect_delete_infos, get_delete_op, find_track_absence_op_in_stage,
  connect_internal_delete_dependencies,
}
use nelm.Plan.Build.Dependencies.Edges.{same_lookup}
use nelm.Plan.Chain.Placement.{Connects, Connects-refl, Connects-trans}
use nelm.Plan.Chain.Connect.{connect-Connects}

module _ (lib : GraphLib) where
  open lib use {Graph, edge}

  -- The edges that a dependency of one deletion asks for.
  abbrev pub DeleteWaitsFor :
      List DeletableResourceInfo
      → List InstallableResourceInfo
      → Stage
      → Operation
      → Graph
      → InternalDependency
      → Type 0
  DeleteWaitsFor del_infos inst_infos stage op g dep =
      All (λ u. edge g (id u) (id op) ≡ true)
        (find_track_absence_op_in_stage (lib.vertex g) del_infos inst_infos dep stage)

  -- What one info asks: its deletion waits for all that its dependencies find.
  abbrev pub DeleteWaits :
      List DeletableResourceInfo
      → List InstallableResourceInfo
      → Graph
      → DeletableResourceInfo
      → Type 0
  DeleteWaits del_infos inst_infos g info =
      (op : Operation)
      → get_delete_op (lib.vertex g) info ≡ ok (some op)
      → All (DeleteWaitsFor del_infos inst_infos info.stage op g) (
          info.local_resource.auto_internal_dependencies
          ++ info.local_resource.manual_internal_dependencies)

module _ (lib : GraphLib) (laws : IsGraphLib lib) where
  open lib use {Graph, edge}

  connect_all-Connects :
      (g : Graph) (op : Operation) (upons : List Operation) (g' : Graph)
      → connect_all lib g op upons ≡ ok g'
      → Connects lib g g' × All (λ u. edge g' (id u) (id op) ≡ true) upons
  unfolding connect_all
  connect_all-Connects g op [] g' h =
      (subst (Connects lib g) (ok-injective h) (Connects-refl lib g), tt)
  connect_all-Connects g op (upon ∷ upons) g' h =
      let (g₁, e, h₁) = >>=-eq-ok (wrap_err "depend" (connect lib g (id upon) (id op))) _ h in
      let (c₁, x) =
        connect-Connects lib laws g (id upon) (id op)
          (wrap_err-eq-ok _ (connect lib g (id upon) (id op)) e) in
      let (c₂, all) = connect_all-Connects g₁ op upons g' h₁ in
      (Connects-trans lib c₁ c₂, (c₂.edges _ _ x, all))

  module _ (del_infos : List DeletableResourceInfo)
      (inst_infos : List InstallableResourceInfo) where
    DeleteWaitsFor-Connects :
        (stage : Stage) (op : Operation) {g g' : Graph} (deps : List InternalDependency)
        → Connects lib g g'
        → All (DeleteWaitsFor lib del_infos inst_infos stage op g) deps
        → All (DeleteWaitsFor lib del_infos inst_infos stage op g') deps
    DeleteWaitsFor-Connects stage op {g' = g'} deps c =
        All-map
          (λ dep w.
            subst
              (λ v.
                All (λ u. edge g' (id u) (id op) ≡ true)
                  (find_track_absence_op_in_stage v del_infos inst_infos dep stage))
              (sym (same_lookup lib laws c)) (All-map (λ u e. c.edges _ _ e) _ w))
          deps

    upon_state-Connects :
        (g : Graph) (op : Operation) (upons : List Operation) (state : ResourceState) (g' : Graph)
        → connect_upon lib g op upons state ≡ ok g'
        → Connects lib g g' × All (λ u. edge g' (id u) (id op) ≡ true) upons
    unfolding connect_upon
    upon_state-Connects g op upons absent g' h = connect_all-Connects g op upons g' h
    upon_state-Connects g op upons present g' h = absurd (cc h)
    upon_state-Connects g op upons ready g' h = absurd (cc h)

    delete_deps-Connects :
        (stage : Stage) (op : Operation) (g : Graph) (deps : List InternalDependency) (g' : Graph)
        → connect_delete_deps lib del_infos inst_infos stage op g deps ≡ ok g'
        → Connects lib g g' × All (DeleteWaitsFor lib del_infos inst_infos stage op g') deps
    unfolding connect_delete_deps
    delete_deps-Connects stage op g [] g' h =
        (subst (Connects lib g) (ok-injective h) (Connects-refl lib g), tt)
    delete_deps-Connects stage op g (dep ∷ deps) g' h =
        let upons = find_track_absence_op_in_stage (lib.vertex g) del_infos inst_infos dep stage in
        let (g₁, e, h₁) = >>=-eq-ok (connect_upon lib g op upons dep.resource_state) _ h in
        let (c₁, w) = upon_state-Connects g op upons dep.resource_state g₁ e in
        let (c₂, all) = delete_deps-Connects stage op g₁ deps g' h₁ in
        let c = Connects-trans lib c₁ c₂ in
        let found : All (λ u. edge g' (id u) (id op) ≡ true) upons =
          All-map (λ u e'. c₂.edges _ _ e') upons w in
        (
          c,
          (
            subst
                (λ v.
                  All (λ u. edge g' (id u) (id op) ≡ true)
                    (find_track_absence_op_in_stage v del_infos inst_infos dep stage))
                (sym (same_lookup lib laws c)) found,
            all,
          ),
        )

    -- The same of a list of dependencies.
    DeletionsWait : Graph → DeletableResourceInfo → List InternalDependency → Type 0
    DeletionsWait g info deps =
        (op : Operation)
        → get_delete_op (lib.vertex g) info ≡ ok (some op)
        → All (DeleteWaitsFor lib del_infos inst_infos info.stage op g) deps

    DeletionsWait-Connects :
        {g g' : Graph} (info : DeletableResourceInfo) (deps : List InternalDependency)
        → Connects lib g g'
        → DeletionsWait g info deps
        → DeletionsWait g' info deps
    unfolding DeletionsWait
    DeletionsWait-Connects info deps c w op s =
        DeleteWaitsFor-Connects info.stage op deps c
          (w op (subst (λ v. get_delete_op v info ≡ ok (some op)) (same_lookup lib laws c) s))

    delete_op-Connects :
        (info : DeletableResourceInfo) (g : Graph) (deps : List InternalDependency)
        (o : Option Operation) (g' : Graph)
        → connect_delete_op lib del_infos inst_infos info g deps o ≡ ok g'
        → Connects lib g g'
          × ((op : Operation)
              → o ≡ some op
              → All (DeleteWaitsFor lib del_infos inst_infos info.stage op g') deps)
    unfolding connect_delete_op
    delete_op-Connects info g deps none g' h =
        (subst (Connects lib g) (ok-injective h) (Connects-refl lib g), λ op e. absurd (cc e))
    delete_op-Connects info g deps (some o) g' h =
        let (c, all) = delete_deps-Connects info.stage o g deps g' h in
        (
          c,
          λ op e.
              subst (λ k. All (DeleteWaitsFor lib del_infos inst_infos info.stage k g') deps)
                (some-injective e) all,
        )

    delete_info-Connects :
        (info : DeletableResourceInfo) (g : Graph) (deps : List InternalDependency) (g' : Graph)
        → connect_delete_info lib del_infos inst_infos info g deps ≡ ok g'
        → Connects lib g g' × DeletionsWait g' info deps
    unfolding connect_delete_info DeletionsWait
    delete_info-Connects info g [] g' h =
        (subst (Connects lib g) (ok-injective h) (Connects-refl lib g), λ op e. tt)
    delete_info-Connects info g (dep ∷ deps) g' h =
        let (o, e, h₁) = >>=-eq-ok (get_delete_op (lib.vertex g) info) _ h in
        let (c, all) = delete_op-Connects info g (dep ∷ deps) o g' h₁ in
        (
          c,
          λ op s. all op (
              ok-injective (
                sym e
                ∙ subst (λ v. get_delete_op v info ≡ ok (some op)) (same_lookup lib laws c) s)),
        )

    delete_infos-Connects :
        (g : Graph) (infos : List DeletableResourceInfo) (g' : Graph)
        → connect_delete_infos lib del_infos inst_infos g infos ≡ ok g'
        → Connects lib g g' × All (DeleteWaits lib del_infos inst_infos g') infos
    unfolding connect_delete_infos DeletionsWait
    delete_infos-Connects g [] g' h =
        (subst (Connects lib g) (ok-injective h) (Connects-refl lib g), tt)
    delete_infos-Connects g (info ∷ infos) g' h =
        let deps =
          info.local_resource.auto_internal_dependencies
          ++ info.local_resource.manual_internal_dependencies in
        let (g₁, e, h₁) =
          >>=-eq-ok (connect_delete_info lib del_infos inst_infos info g deps) _ h in
        let (c₁, w) = delete_info-Connects info g deps g₁ e in
        let (c₂, all) = delete_infos-Connects g₁ infos g' h₁ in
        (Connects-trans lib c₁ c₂, (DeletionsWait-Connects info deps c₂ w, all))

    pub connect_internal_delete_dependencies-DeleteWaits :
        (g g' : Graph)
        → connect_internal_delete_dependencies lib g del_infos inst_infos ≡ ok g'
        → Connects lib g g' × All (DeleteWaits lib del_infos inst_infos g') del_infos
    unfolding connect_internal_delete_dependencies
    connect_internal_delete_dependencies-DeleteWaits g g' h = delete_infos-Connects g del_infos g' h

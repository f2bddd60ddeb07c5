-- ===== src/Plan/Build/Dependencies/Edges.antt =====
-- connectInternalDeployDependencies (pkg/plan/plan_build.go): its effect on the graph.
use nelm.Base.{
  true, Option, none, some, List, [], ◌∷◌, ◌++◌, ◌≡◌, sym, ◌∙◌, subst, ok, All, >>=-eq-ok,
  wrap_err-eq-ok, ok-injective, some-injective,
}
use nelm.Common.{Stage}
use nelm.Resource.{InternalDependency}
use nelm.Plan.Operation.{Operation, id}
use nelm.Plan.Info.{InstallableResourceInfo, DeletableResourceInfo}
use nelm.Plan.Graph.{GraphLib, IsGraphLib}
use nelm.Plan.Chain.{connect}
use nelm.Plan.Build.Dependencies.{
  connect_found, connect_deploy_deps, connect_deploy_op, connect_deploy_info, connect_deploy_infos,
  get_deploy_op, depend_upon_op, connect_internal_deploy_dependencies,
}
use mathlib.Core.Path.{fun_ext}
use nelm.Plan.Chain.Placement.{Connects, Connects-refl, Connects-trans}
use nelm.Plan.Chain.Connect.{connect-Connects}

module _ (lib : GraphLib) where
  open lib use {Graph, edge}

  -- The edges that the dependencies of one operation ask for.
  abbrev pub WaitsFor :
      List InstallableResourceInfo
      → List DeletableResourceInfo
      → Stage
      → Operation
      → Graph
      → InternalDependency
      → Type 0
  WaitsFor inst_infos del_infos stage op g dep =
      (upon : Operation)
      → depend_upon_op (lib.vertex g) inst_infos del_infos stage dep dep.resource_state
        ≡ ok (some upon)
      → edge g (id upon) (id op) ≡ true

  -- What one info asks: its deploy operation waits for what each of its dependencies finds.
  abbrev pub DeployWaits :
      List InstallableResourceInfo
      → List DeletableResourceInfo
      → Graph
      → InstallableResourceInfo
      → Type 0
  DeployWaits inst_infos del_infos g info =
      (op : Operation)
      → get_deploy_op (lib.vertex g) info ≡ ok (some op)
      → All (WaitsFor inst_infos del_infos info.stage op g) (
          info.local_resource.auto_internal_dependencies
          ++ info.local_resource.manual_internal_dependencies)

module _ (lib : GraphLib) (laws : IsGraphLib lib) where
  open lib use {Graph, edge}

  connect_found-Connects :
      (g : Graph) (op : Operation) (upon : Option Operation) (g' : Graph)
      → connect_found lib g op upon ≡ ok g'
      → Connects lib g g' × ((u : Operation) → upon ≡ some u → edge g' (id u) (id op) ≡ true)
  unfolding connect_found
  connect_found-Connects g op none g' h =
      (subst (Connects lib g) (ok-injective h) (Connects-refl lib g), λ u e. absurd (cc e))
  connect_found-Connects g op (some upon) g' h =
      let (c, e) =
        connect-Connects lib laws g (id upon) (id op)
          (wrap_err-eq-ok _ (connect lib g (id upon) (id op)) h) in
      (c, λ u s. subst (λ k. edge g' (id k) (id op) ≡ true) (some-injective s) e)

  -- A lookup in the graph before is the same lookup in the graph after.
  pub same_lookup : {g g' : Graph} → Connects lib g g' → lib.vertex g' ≡ lib.vertex g
  same_lookup c = fun_ext c.vertices

  module _ (inst_infos : List InstallableResourceInfo)
      (del_infos : List DeletableResourceInfo) where
    WaitsFor-Connects :
        (stage : Stage) (op : Operation) {g g' : Graph} (dep : InternalDependency)
        → Connects lib g g'
        → WaitsFor lib inst_infos del_infos stage op g dep
        → WaitsFor lib inst_infos del_infos stage op g' dep
    WaitsFor-Connects stage op dep c w upon e = c.edges _ _ (
        w upon (
          subst
            (λ v.
              depend_upon_op v inst_infos del_infos stage dep dep.resource_state ≡ ok (some upon))
            (same_lookup c) e))

    connect_deploy_deps-WaitsFor :
        (stage : Stage) (op : Operation) (g : Graph) (deps : List InternalDependency) (g' : Graph)
        → connect_deploy_deps lib inst_infos del_infos stage op g deps ≡ ok g'
        → Connects lib g g' × All (WaitsFor lib inst_infos del_infos stage op g') deps
    unfolding connect_deploy_deps
    connect_deploy_deps-WaitsFor stage op g [] g' h =
        (subst (Connects lib g) (ok-injective h) (Connects-refl lib g), tt)
    connect_deploy_deps-WaitsFor stage op g (dep ∷ deps) g' h =
        let (upon, e, h₁) =
          >>=-eq-ok
            (depend_upon_op (lib.vertex g) inst_infos del_infos stage dep dep.resource_state) _ h in
        let (g₁, e₁, h₂) = >>=-eq-ok (connect_found lib g op upon) _ h₁ in
        let (c₁, w) = connect_found-Connects g op upon g₁ e₁ in
        let (c₂, all) = connect_deploy_deps-WaitsFor stage op g₁ deps g' h₂ in
        let c = Connects-trans lib c₁ c₂ in
        (
          c,
          (
            λ u s. c₂.edges _ _ (
                w u (
                  ok-injective (
                    sym e
                    ∙ subst
                        (λ v.
                          depend_upon_op v inst_infos del_infos stage dep dep.resource_state
                          ≡ ok (some u))
                        (same_lookup c) s))),
            all,
          ),
        )

    All-WaitsFor-Connects :
        (stage : Stage) (op : Operation) {g g' : Graph} (deps : List InternalDependency)
        → Connects lib g g'
        → All (WaitsFor lib inst_infos del_infos stage op g) deps
        → All (WaitsFor lib inst_infos del_infos stage op g') deps
    All-WaitsFor-Connects stage op [] c all = tt
    All-WaitsFor-Connects stage op (dep ∷ deps) c all =
        (WaitsFor-Connects stage op dep c all.0, All-WaitsFor-Connects stage op deps c all.1)

    connect_deploy_op-WaitsFor :
        (info : InstallableResourceInfo) (g : Graph) (deps : List InternalDependency)
        (o : Option Operation) (g' : Graph)
        → connect_deploy_op lib inst_infos del_infos info g deps o ≡ ok g'
        → Connects lib g g'
          × ((op : Operation)
              → o ≡ some op
              → All (WaitsFor lib inst_infos del_infos info.stage op g') deps)
    unfolding connect_deploy_op
    connect_deploy_op-WaitsFor info g deps none g' h =
        (subst (Connects lib g) (ok-injective h) (Connects-refl lib g), λ op e. absurd (cc e))
    connect_deploy_op-WaitsFor info g deps (some o) g' h =
        let (c, all) = connect_deploy_deps-WaitsFor info.stage o g deps g' h in
        (
          c,
          λ op e.
              subst (λ k. All (WaitsFor lib inst_infos del_infos info.stage k g') deps)
                (some-injective e) all,
        )

    -- The same of a list of dependencies.
    DepsWait : Graph → InstallableResourceInfo → List InternalDependency → Type 0
    DepsWait g info deps =
        (op : Operation)
        → get_deploy_op (lib.vertex g) info ≡ ok (some op)
        → All (WaitsFor lib inst_infos del_infos info.stage op g) deps

    connect_deploy_info-DepsWait :
        (info : InstallableResourceInfo) (g : Graph) (deps : List InternalDependency) (g' : Graph)
        → connect_deploy_info lib inst_infos del_infos info g deps ≡ ok g'
        → Connects lib g g' × DepsWait g' info deps
    unfolding connect_deploy_info DepsWait
    connect_deploy_info-DepsWait info g [] g' h =
        (subst (Connects lib g) (ok-injective h) (Connects-refl lib g), λ op e. tt)
    connect_deploy_info-DepsWait info g (dep ∷ deps) g' h =
        let (o, e, h₁) = >>=-eq-ok (get_deploy_op (lib.vertex g) info) _ h in
        let (c, all) = connect_deploy_op-WaitsFor info g (dep ∷ deps) o g' h₁ in
        (
          c,
          λ op s. all op (
              ok-injective
                (sym e ∙ subst (λ v. get_deploy_op v info ≡ ok (some op)) (same_lookup c) s)),
        )

    DepsWait-Connects :
        {g g' : Graph} (info : InstallableResourceInfo) (deps : List InternalDependency)
        → Connects lib g g'
        → DepsWait g info deps
        → DepsWait g' info deps
    unfolding DepsWait
    DepsWait-Connects info deps c w op s =
        All-WaitsFor-Connects info.stage op deps c
          (w op (subst (λ v. get_deploy_op v info ≡ ok (some op)) (same_lookup c) s))

    connect_deploy_infos-DeployWaits :
        (g : Graph) (infos : List InstallableResourceInfo) (g' : Graph)
        → connect_deploy_infos lib inst_infos del_infos g infos ≡ ok g'
        → Connects lib g g' × All (DeployWaits lib inst_infos del_infos g') infos
    unfolding connect_deploy_infos DepsWait
    connect_deploy_infos-DeployWaits g [] g' h =
        (subst (Connects lib g) (ok-injective h) (Connects-refl lib g), tt)
    connect_deploy_infos-DeployWaits g (info ∷ infos) g' h =
        let deps =
          info.local_resource.auto_internal_dependencies
          ++ info.local_resource.manual_internal_dependencies in
        let (g₁, e, h₁) =
          >>=-eq-ok (connect_deploy_info lib inst_infos del_infos info g deps) _ h in
        let (c₁, w) = connect_deploy_info-DepsWait info g deps g₁ e in
        let (c₂, all) = connect_deploy_infos-DeployWaits g₁ infos g' h₁ in
        (Connects-trans lib c₁ c₂, (DepsWait-Connects info deps c₂ w, all))

    pub connect_internal_deploy_dependencies-DeployWaits :
        (g g' : Graph)
        → connect_internal_deploy_dependencies lib g inst_infos del_infos ≡ ok g'
        → Connects lib g g' × All (DeployWaits lib inst_infos del_infos g') inst_infos
    unfolding connect_internal_deploy_dependencies
    connect_internal_deploy_dependencies-DeployWaits g g' h =
        connect_deploy_infos-DeployWaits g inst_infos g' h

    pub DeployWaits-Connects :
        {g g' : Graph} (infos : List InstallableResourceInfo)
        → Connects lib g g'
        → All (DeployWaits lib inst_infos del_infos g) infos
        → All (DeployWaits lib inst_infos del_infos g') infos
    unfolding DepsWait
    DeployWaits-Connects [] c all = tt
    DeployWaits-Connects (info ∷ infos) c all = (
      DepsWait-Connects info
          (info.local_resource.auto_internal_dependencies
            ++ info.local_resource.manual_internal_dependencies)
          c all.0,
      DeployWaits-Connects infos c all.1,
    )

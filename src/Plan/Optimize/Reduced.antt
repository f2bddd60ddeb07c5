-- ===== src/Plan/Optimize/Reduced.antt =====
-- Optimize (pkg/plan/plan.go): the paths between the operations that it never squashes.
use nelm.Base.{
  String, Bool, true, false, some, List, [], ◌∷◌, ◌≡◌, refl, ap, sym, ◌∙◌, subst, ◌==◌, inl, inr,
  ok, must, if◌then◌else◌, filter_by, All, All-map, eq_iff, >>=-eq-ok, wrap_err-eq-ok, ok-injective,
  some-injective, Bool-cases,
}
use nelm.Common.{stage_start_suffix, stage_end_suffix}
use nelm.Plan.Operation.{Operation, id}
use nelm.Plan.Optimize.{
  GraphEdits, NoCycle, IsGraphEdits, is_category_track, is_meta_op, find_meta_operation_pairs,
  squash_operation, find_useless_meta_operations, squash_pairs, useless_pairs_of, SquashesUseless,
  last_round, next_round, is_resource_vertex, squash_final, squash_final_tracking_operations,
  Optimizes,
}
use nelm.Plan.Optimize.Squash.{squash_operation-paths, squash_operation-NoCycle}
use nelm.Plan.Optimize.Metas.{
  All-filter_by, meta_pairs-All, IsLasting, is_meta_op-category, is_category_track-IsLasting,
}
use nelm.Plan.Graph.{GraphLib, IsGraphLib}
use nelm.Plan.Graph.Paths.{Reaches, Reaches-mono}
use nelm.Plan.Chain.{operations}
use nelm.Plan.Chain.Placement.{InGraph}
use nelm.Plan.Chain.Connect.{operations_of-InGraph}

module _ (lib : GraphLib) (laws : IsGraphLib lib) (edits : GraphEdits lib)
    (edit_laws : IsGraphEdits lib edits) (i j : String) where
  open lib use {Graph, vertex, edge}

  -- The operation is neither of the two.
  Apart : Operation → Type 0
  Apart op = ((id op == i) ≡ false) × ((id op == j) ≡ false)

  -- Both vertices are operations that last.
  pub record Lasting (g : Graph) : Type 0 where
    pub acyclic : NoCycle lib g
    pub first : (op : Operation) × (vertex g i ≡ some op) × IsLasting op
    pub second : (op : Operation) × (vertex g j ≡ some op) × IsLasting op

  -- The two vertices and the paths between them stay.
  pub record Keeps (g g' : Graph) : Type 0 where
    pub first : vertex g' i ≡ vertex g i
    pub second : vertex g' j ≡ vertex g j
    pub paths : Reaches (edge g) i j → Reaches (edge g') i j
    pub no_cycle : NoCycle lib g'

  Keeps-refl : (g : Graph) → NoCycle lib g → Keeps g g
  Keeps-refl g acyclic = record {
    first = refl;
    second = refl;
    paths = λ walk. walk;
    no_cycle = acyclic;
  }

  Keeps-trans : {g g' g'' : Graph} → Keeps g g' → Keeps g' g'' → Keeps g g''
  Keeps-trans p q = record {
    first = q.first ∙ p.first;
    second = q.second ∙ p.second;
    paths = λ walk. q.paths (p.paths walk);
    no_cycle = q.no_cycle;
  }

  Keeps-Lasting : {g g' : Graph} → Keeps g g' → Lasting g → Lasting g'
  Keeps-Lasting k l = record {
    acyclic = k.no_cycle;
    first = (l.first.0, k.first ∙ l.first.1, l.first.2);
    second = (l.second.0, k.second ∙ l.second.1, l.second.2);
  }

  squash_operation-Keeps :
      (g g' : Graph) (op : Operation)
      → NoCycle lib g
      → Apart op
      → squash_operation lib edits g op ≡ ok g'
      → Keeps g g'
  unfolding Apart
  squash_operation-Keeps g g' op acyclic (fi, fj) h =
      let at_i = squash_operation-paths lib laws edits edit_laws g g' op i j acyclic h fi fj in
      let at_j = squash_operation-paths lib laws edits edit_laws g g' op j i acyclic h fj fi in
      record {
        first = at_i.1;
        second = at_j.1;
        paths = at_i.2.0;
        no_cycle = squash_operation-NoCycle lib laws edits edit_laws g g' op acyclic h;
      }

  squash_pairs-Keeps :
      (g g' : Graph) (pairs : List (Operation × Operation))
      → NoCycle lib g
      → All (λ pair. Apart pair.0 × Apart pair.1) pairs
      → squash_pairs lib edits g pairs ≡ ok g'
      → Keeps g g'
  unfolding squash_pairs
  squash_pairs-Keeps g g' [] acyclic all h = subst (Keeps g) (ok-injective h) (Keeps-refl g acyclic)
  squash_pairs-Keeps g g' ((start_op, end_op) ∷ pairs) acyclic all h =
      let (g₁, e₁, h₁) = >>=-eq-ok (squash_operation lib edits g start_op) _ h in
      let (g₂, e₂, h₂) = >>=-eq-ok (squash_operation lib edits g₁ end_op) _ h₁ in
      let k₁ = squash_operation-Keeps g g₁ start_op acyclic all.0.0 e₁ in
      let k₂ = squash_operation-Keeps g₁ g₂ end_op k₁.no_cycle all.0.1 e₂ in
      Keeps-trans k₁ (Keeps-trans k₂ (squash_pairs-Keeps g₂ g' pairs k₂.no_cycle all.1 h₂))

  -- What does not last is neither of two that do.
  Lasting-Apart :
      (g : Graph) → Lasting g → (op : Operation) → InGraph lib g op → ¬ IsLasting op → Apart op
  unfolding Apart
  Lasting-Apart g l op own passing =
      (other i l.first.0 l.first.1 l.first.2, other j l.second.0 l.second.1 l.second.2)
    where
      other :
          (k : String) (kept : Operation)
          → vertex g k ≡ some kept
          → IsLasting kept
          → (id op == k) ≡ false
      other k kept at lasts = elim (Bool-cases (id op == k)) [
        | inr e ↦ e
        | inl e ↦ absurd (
            passing (
              subst IsLasting
                (some-injective (sym at ∙ ap (vertex g) (sym ((eq_iff (id op) k).0 e)) ∙ own))
                lasts))
      ]

  useless-Apart :
      (g : Graph) (pairs : List (Operation × Operation))
      → Lasting g
      → useless_pairs_of lib edits g ≡ ok pairs
      → All (λ pair. Apart pair.0 × Apart pair.1) pairs
  unfolding useless_pairs_of find_meta_operation_pairs find_useless_meta_operations operations
  useless-Apart g pairs l h =
      let (ops, e₁, h₁) = >>=-eq-ok (operations lib g) _ h in
      let (found, e₂, h₂) = >>=-eq-ok (find_meta_operation_pairs ops) _ h₁ in
      let own = operations_of-InGraph lib laws g (lib.keys g) ops e₁ in
      subst (All (λ pair. Apart pair.0 × Apart pair.1)) (ok-injective h₂) (
        All-map (λ pair k. k.0) _
          (All-filter_by _ _ found (
            meta_pairs-All Apart _ _ (metas ops own stage_end_suffix)
              (metas ops own stage_start_suffix) e₂)))
    where
      metas :
          (ops : List Operation)
          → All (InGraph lib g) ops
          → (suffix : String) → All Apart (filter_by (is_meta_op suffix) ops)
      metas ops own suffix =
          All-map (λ op k. Lasting-Apart g l op k.0 (is_meta_op-category suffix op k.1)) _
            (All-filter_by _ (is_meta_op suffix) ops own)

  useless-Keeps : (g g' : Graph) → Lasting g → SquashesUseless lib edits g g' → Keeps g g'
  useless-Keeps g g' l (last_round pairs e h none_left) =
      squash_pairs-Keeps g g' pairs l.acyclic (useless-Apart g pairs l e) h
  useless-Keeps g g'' l (next_round {g' = g'} pairs left more e h again rest) =
      let round = squash_pairs-Keeps g g' pairs l.acyclic (useless-Apart g pairs l e) h in
      Keeps-trans round (useless-Keeps g' g'' (Keeps-Lasting round l) rest)

  squash_final-Keeps :
      (g g' : Graph) (ops : List Operation)
      → NoCycle lib g
      → All Apart ops
      → squash_final lib edits g ops ≡ ok g'
      → Keeps g g'
  unfolding squash_final
  squash_final-Keeps g g' [] acyclic all h = subst (Keeps g) (ok-injective h) (Keeps-refl g acyclic)
  squash_final-Keeps g g' (op ∷ ops) acyclic all h =
      let (dependent, e₁, h₁) =
        >>=-eq-ok (must (edits.search g (id op) (is_resource_vertex lib edits g))) _ h in
      let (g₁, e₂, h₂) =
        >>=-eq-ok (if dependent then ok g else squash_operation lib edits g op) _ h₁ in
      let k = chosen dependent g₁ e₂ in
      Keeps-trans k (squash_final-Keeps g₁ g' ops k.no_cycle all.1 h₂)
    where
      chosen :
          (b : Bool) (g₁ : Graph)
          → (if b then ok g else squash_operation lib edits g op) ≡ ok g₁
          → Keeps g g₁
      chosen true g₁ e = subst (Keeps g) (ok-injective e) (Keeps-refl g acyclic)
      chosen false g₁ e = squash_operation-Keeps g g₁ op acyclic all.0 e

  final-Keeps :
      (no_final_tracking : Bool) (g g' : Graph)
      → Lasting g
      → (if no_final_tracking then squash_final_tracking_operations lib edits g else ok g) ≡ ok g'
      → Keeps g g'
  unfolding squash_final_tracking_operations operations
  final-Keeps false g g' l h = subst (Keeps g) (ok-injective h) (Keeps-refl g l.acyclic)
  final-Keeps true g g' l h =
      let (ops, e, h₁) = >>=-eq-ok (operations lib g) _ h in
      squash_final-Keeps g g' (filter_by (λ op. is_category_track op.category) ops) l.acyclic
        (All-map (λ op k. Lasting-Apart g l op k.0 (is_category_track-IsLasting op k.1)) _
          (All-filter_by _ (λ op. is_category_track op.category) ops
            (operations_of-InGraph lib laws g (lib.keys g) ops e)))
        h₁

  -- Where Optimize succeeds on a graph without a cycle, every operation on a resource or a release stays as it was, and a path
  -- between two of them stays a path.
  pub Optimizes-paths :
      (no_final_tracking : Bool) (g g' : Graph) (op op' : Operation)
      → NoCycle lib g
      → Optimizes lib edits no_final_tracking g g'
      → vertex g i ≡ some op
      → vertex g j ≡ some op'
      → IsLasting op
      → IsLasting op'
      → Reaches (edge g) i j
      → (vertex g' i ≡ some op) × (vertex g' j ≡ some op') × Reaches (edge g') i j
  Optimizes-paths no_final g g' op op' acyclic o at at' lasts lasts' walk =
      let reduced =
        edit_laws.transitive_reduction_done g o.reduced
          (wrap_err-eq-ok _ (edits.transitive_reduction g) o.reduces) in
      let k₁ : Keeps g o.reduced = record {
        first = reduced.vertices i;
        second = reduced.vertices j;
        paths = reduced.paths i j;
        no_cycle = λ a b link walk.
            acyclic a b (reduced.subset a b link) (Reaches-mono reduced.subset walk);
      } in
      let l : Lasting g = record {
        acyclic = acyclic;
        first = (op, at, lasts);
        second = (op', at', lasts');
      } in
      let k₂ = useless-Keeps o.reduced o.squashed (Keeps-Lasting k₁ l) o.squashes in
      let k₃ =
        final-Keeps no_final o.squashed g' (Keeps-Lasting k₂ (Keeps-Lasting k₁ l)) o.finishes in
      let k = Keeps-trans k₁ (Keeps-trans k₂ k₃) in (k.first ∙ at, k.second ∙ at', k.paths walk)

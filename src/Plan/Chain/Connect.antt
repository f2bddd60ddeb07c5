-- ===== src/Plan/Chain/Connect.antt =====
-- Connect, Operations and the lookup of the ends of a stage (pkg/plan/plan.go).
use nelm.Base.{
  String, Bool, true, Option, none, some, List, [], ◌∷◌, ◌≡◌, refl, ap, ◌∙◌, subst, inl, inr,
  Result, ok, err, panic, graph, message, wrap, vertex_not_found, vertex_already_exists,
  edge_already_exists, edge_creates_cycle, find?, All, arith, eq_iff, ok-injective, some-injective,
  Bool-cases,
}
use nelm.Common.{Stage}
use nelm.Plan.Operation.{OperationConfig, noop, Operation, id}
use nelm.Plan.Graph.{GraphLib, IsGraphLib, AddsEdge}
use nelm.Plan.Chain.{
  must_find, append_found, stage_op_id, is_noop_of, connected, connect, operations_of, stage_op,
}
use nelm.Plan.Chain.Placement.{InGraph, noop_id, Connects, Connects-refl, NamesNoops}

module _ (lib : GraphLib) (laws : IsGraphLib lib) where
  open lib use {Graph, vertex, edge, add_vertex, add_edge}

  AddsEdge-Connects :
      {g g' : Graph} (a b : String)
      → AddsEdge lib a b g g'
      → Connects lib g g' × (edge g' a b ≡ true)
  AddsEdge-Connects a b h = (
    record { vertices = h.vertices; edges = λ i j e. h.edges i j ∙ ground (arith, e) },
    h.edges a b ∙ ground (arith, eq_iff a a, eq_iff b b),
  )

  connected-Connects :
      (g : Graph) {g' : Graph} (a b : String) (r : Result Graph)
      → add_edge g a b ≡ r
      → connected lib g r ≡ ok g'
      → Connects lib g g' × (edge g' a b ≡ true)
  unfolding connected
  connected-Connects g a b (ok g₁) e h = AddsEdge-Connects a b (laws.add_edge_done g _ a b (e ∙ h))
  connected-Connects g a b (err (graph edge_already_exists)) e h =
      subst (λ k. Connects lib g k × (edge k a b ≡ true)) (ok-injective h)
        (Connects-refl lib g, laws.add_edge_taken g a b e)
  connected-Connects g a b (err (graph vertex_not_found)) e h = cc
  connected-Connects g a b (err (graph vertex_already_exists)) e h = cc
  connected-Connects g a b (err (graph edge_creates_cycle)) e h = cc
  connected-Connects g a b (err (message s)) e h = cc
  connected-Connects g a b (err (wrap s r)) e h = cc
  connected-Connects g a b panic e h = cc

  -- Connect keeps all that the graph has and leaves the edge in it.
  pub connect-Connects :
      (g : Graph) {g' : Graph} (a b : String)
      → connect lib g a b ≡ ok g'
      → Connects lib g g' × (edge g' a b ≡ true)
  unfolding connect
  connect-Connects g a b h = connected-Connects g a b (add_edge g a b) refl h

  append_found-InGraph :
      (g : Graph) (i : String) (o : Option Operation) (r : Result (List Operation))
      (ops : List Operation)
      → vertex g i ≡ o
      → ((ops' : List Operation) → r ≡ ok ops' → All (InGraph lib g) ops')
      → append_found lib o r ≡ ok ops
      → All (InGraph lib g) ops
  unfolding append_found
  append_found-InGraph g i none r ops e all h = cc
  append_found-InGraph g i (some op) (ok ops') ops e all h =
      subst (All (InGraph lib g)) (ok-injective h)
        (ap (vertex g) (laws.vertex-id g i op e) ∙ e, all ops' refl)
  append_found-InGraph g i (some op) (err x) ops e all h = cc
  append_found-InGraph g i (some op) panic ops e all h = cc

  pub operations_of-InGraph :
      (g : Graph) (is : List String) (ops : List Operation)
      → operations_of lib g is ≡ ok ops
      → All (InGraph lib g) ops
  unfolding operations_of
  operations_of-InGraph g [] ops h = subst (All (InGraph lib g)) (ok-injective h) tt
  operations_of-InGraph g (i ∷ is) ops h =
      append_found-InGraph g i (vertex g i) (operations_of lib g is) ops refl
        (λ ops' e. operations_of-InGraph g is ops' e) h

  find?-InGraph :
      (g : Graph) (p : Operation → Bool) (ops : List Operation) (o : Operation)
      → All (InGraph lib g) ops
      → find? p ops ≡ some o
      → (InGraph lib g o) × (p o ≡ true)
  find?-InGraph g p [] o all h = cc
  find?-InGraph g p (x ∷ ops) o all h = elim (Bool-cases (p x)) [
    | inl e ↦ subst (λ k. InGraph lib g k × (p k ≡ true)) (some-injective (rw e at h)) (all.0, e)
    | inr e ↦ find?-InGraph g p ops o all.1 (rw e at h)
  ]

  is_noop_of-config : (i : String) (c : OperationConfig) → is_noop_of i c ≡ true → c ≡ noop i
  unfolding is_noop_of
  is_noop_of-config i (noop j) h = ap noop ((eq_iff j i).0 h)
  is_noop_of-config i c h = cc

  must_find-eq-ok : (o : Option Operation) {op : Operation} → must_find o ≡ ok op → o ≡ some op
  must_find-eq-ok none h = cc
  must_find-eq-ok (some op) h = ap some (ok-injective h)

  -- The operation found for an end of a stage bears the name of that end.
  pub stage_op-id :
      (g : Graph) (ops : List Operation) (stage : Stage) (suffix : String) (o : Operation)
      → All (InGraph lib g) ops
      → NamesNoops lib g
      → stage_op lib ops stage suffix ≡ ok o
      → id o ≡ noop_id (stage_op_id stage suffix)
  unfolding stage_op
  stage_op-id g ops stage suffix o all named h =
      let found = find?-InGraph g _ ops o all (must_find-eq-ok _ h) in
      named (id o) o found.0 _ (is_noop_of-config _ o.config found.1)

-- ===== src/Plan/Chain/Becomes.antt =====
-- Connect (pkg/plan/plan.go) as the edge that it adds.
use nelm.Base.{
  String, Bool, true, ◌≡◌, refl, ◌∙◌, subst, ◌==◌, ◌&&◌, ◌||◌, inl, inr, Result, ok, err, panic,
  graph, message, wrap, vertex_not_found, vertex_already_exists, edge_already_exists,
  edge_creates_cycle, arith, eq_iff, ok-injective, Bool-cases,
}
use nelm.Plan.Graph.{GraphLib, IsGraphLib}
use nelm.Plan.Chain.{connected, connect}

-- The edges of a graph that is like another one.
abbrev pub Edges : Type 0
Edges = String → String → Bool

-- The same vertices, and these edges.
pub record Becomes (lib : GraphLib) (edge' : Edges) (g g' : lib.Graph) : Type 0 where
  pub vertices : (i : String) → lib.vertex g' i ≡ lib.vertex g i
  pub edges : (i j : String) → lib.edge g' i j ≡ edge' i j

module _ (lib : GraphLib) (laws : IsGraphLib lib) where
  open lib use {Graph, vertex, edge, add_edge}

  already_there :
      (e : Edges) (a b i j : String) → e a b ≡ true → e i j ≡ (e i j || a == i && b == j)
  already_there e a b i j h = elim (Bool-cases (a == i)) [
    | inl f ↦ elim (Bool-cases (b == j)) [
      | inl k ↦
          let found : e i j ≡ true =
            subst (λ x. e x j ≡ true) ((eq_iff a i).0 f)
              (subst (λ y. e a y ≡ true) ((eq_iff b j).0 k) h) in
          rw (f, k, found) refl
      | inr k ↦ rw (f, k) (ground (arith))
    ]
    | inr f ↦ rw f (ground (arith))
  ]

  connected-Becomes :
      (g : Graph) {g' : Graph} (a b : String) (r : Result Graph)
      → add_edge g a b ≡ r
      → connected lib g r ≡ ok g'
      → Becomes lib (λ i j. edge g i j || a == i && b == j) g g'
  unfolding connected
  connected-Becomes g a b (ok g₁) e h =
      let added = laws.add_edge_done g _ a b (e ∙ h) in
      record { vertices = added.vertices; edges = added.edges }
  connected-Becomes g a b (err (graph edge_already_exists)) e h =
      subst (Becomes lib (λ i j. edge g i j || a == i && b == j) g) (ok-injective h) (record {
        vertices = λ i. refl;
        edges = λ i j. already_there (edge g) a b i j (laws.add_edge_taken g a b e);
      })
  connected-Becomes g a b (err (graph vertex_not_found)) e h = cc
  connected-Becomes g a b (err (graph vertex_already_exists)) e h = cc
  connected-Becomes g a b (err (graph edge_creates_cycle)) e h = cc
  connected-Becomes g a b (err (message s)) e h = cc
  connected-Becomes g a b (err (wrap s r)) e h = cc
  connected-Becomes g a b panic e h = cc

  -- Connect adds exactly its edge, if it was not there.
  pub connect-Becomes :
      (g : Graph) {g' : Graph} (a b : String)
      → connect lib g a b ≡ ok g'
      → Becomes lib (λ i j. edge g i j || a == i && b == j) g g'
  unfolding connect
  connect-Becomes g a b h = connected-Becomes g a b (add_edge g a b) refl h

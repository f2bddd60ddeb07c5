-- ===== src/Plan/Graph.antt =====
-- The graph library that a plan wraps (github.com/dominikbraun/graph, which is not in the
-- repository), as the operations that pkg/plan/plan.go calls and the behaviour that it documents
-- for a directed graph with PreventCycles, whose vertices are hashed by Operation.ID.
pub mod Paths
use nelm.Base.{
  String, Bool, true, false, Option, none, some, List, Memᴰ, All, ◌≡◌, ◌==◌, ◌&&◌, ◌||◌, ◌⊎◌,
  Result, ok, err, graph, vertex_not_found, vertex_already_exists, edge_already_exists,
  edge_creates_cycle, if◌then◌else◌,
}
use nelm.Plan.Operation.{Operation, id}
use nelm.Plan.Graph.Paths.{Reaches}

pub record GraphLib : Type 1 where
  pub Graph : Type 0
  pub new : Graph
  pub add_vertex : Graph → Operation → Result Graph
  pub add_edge : Graph → String → String → Result Graph
  -- Vertex, whose only error is ErrVertexNotFound.
  pub vertex : Graph → String → Option Operation
  -- Whether AdjacencyMap has the second vertex among the targets of the first.
  pub edge : Graph → String → String → Bool
  -- The keys of AdjacencyMap, in the order in which a range over the map meets them.
  pub keys : Graph → List String

abbrev pub Has : Option Operation → Type 0
Has o = (op : Operation) × (o ≡ some op)

-- The documented behaviour.
module _ (lib : GraphLib) where
  open lib use {Graph, new, add_vertex, add_edge, vertex, edge, keys}

  -- What add_vertex and add_edge make of the vertices and the edges.
  pub record AddsVertex (op : Operation) (g g' : Graph) : Type 0 where
    pub vertices : (i : String) → vertex g' i ≡ (if id op == i then some op else vertex g i)
    pub edges : (i j : String) → edge g' i j ≡ edge g i j

  pub record AddsEdge (a b : String) (g g' : Graph) : Type 0 where
    pub vertices : (i : String) → vertex g' i ≡ vertex g i
    pub edges : (i j : String) → edge g' i j ≡ (edge g i j || a == i && b == j)

  pub record IsGraphLib : Type 0 where
    pub vertex-new : (i : String) → vertex new i ≡ none
    pub edge-new : (i j : String) → edge new i j ≡ false
    pub add_vertex_fresh :
        (g : Graph) (op : Operation)
        → vertex g (id op) ≡ none
        → (g' : Graph) × (add_vertex g op ≡ ok g') × AddsVertex op g g'
    pub add_vertex_taken :
        (g : Graph) (op : Operation)
        → Has (vertex g (id op))
        → add_vertex g op ≡ err (graph vertex_already_exists)
    pub add_edge_fits :
        (g : Graph) (a b : String)
        → Has (vertex g a)
        → Has (vertex g b)
        → edge g a b ≡ false
        → ¬ Reaches (edge g) b a
        → (g' : Graph) × (add_edge g a b ≡ ok g')
    pub add_edge_done : (g g' : Graph) (a b : String) → add_edge g a b ≡ ok g' → AddsEdge a b g g'
    pub add_edge_taken :
        (g : Graph) (a b : String)
        → add_edge g a b ≡ err (graph edge_already_exists)
        → edge g a b ≡ true
    pub keys-vertex : (g : Graph) → All (λ i. Has (vertex g i)) (keys g)
    pub vertex-keys : (g : Graph) (i : String) → Has (vertex g i) → Memᴰ i (keys g)
    pub vertex-id : (g : Graph) (i : String) (op : Operation) → vertex g i ≡ some op → id op ≡ i

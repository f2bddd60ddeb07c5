-- ===== src/Plan/Optimize.antt =====
-- pkg/plan/plan.go, Optimize and what it calls: the transitive reduction of a plan and the operations
-- that are squashed. The reduction and the search are calls of the graph library.
pub mod Connected
pub mod Squash
pub mod Metas
pub mod Reduced
use Prim.Native.String.{slice, len}
use nelm.Base.{
  String, append_text, ◌-◌, Bool, true, false, Option, none, some, List, [], ◌∷◌, ◌≡◌, ◌==◌, ◌&&◌,
  not, Result, ok, wrap_err, ◌>>=◌, must, if◌then◌else◌, find?, filter_by, contains, length, leb,
  nat_eq,
}
use nelm.Common.{stage_start_suffix, stage_end_suffix}
use nelm.Plan.Operation.{
  OperationCategory, category_meta, category_resource, category_track, OperationType, type_noop,
  Operation, id,
}
use nelm.Plan.Graph.{GraphLib}
use nelm.Plan.Graph.Paths.{Reaches}
use nelm.Plan.Chain.{must_find, connect, operations}

-- What Optimize calls beside the operations of a GraphLib.
pub record GraphEdits (lib : GraphLib) : Type 0 where
  pub remove_edge : lib.Graph → String → String → Result lib.Graph
  pub remove_vertex : lib.Graph → String → Result lib.Graph
  -- The keys of PredecessorMap and of AdjacencyMap at a vertex, in the order of a range.
  pub predecessors : lib.Graph → String → List String
  pub adjacent : lib.Graph → String → List String
  pub transitive_reduction : lib.Graph → Result lib.Graph
  -- BFS from a vertex: whether a visited identifier passes the test, at which the visit stops.
  pub search : lib.Graph → String → (String → Bool) → Result Bool

-- A graph as PreventCycles keeps it.
abbrev pub NoCycle : (lib : GraphLib) → lib.Graph → Type 0
NoCycle lib g = (a b : String) → lib.edge g a b ≡ true → ¬ Reaches (lib.edge g) b a

-- The documented behaviour.
module _ (lib : GraphLib) (edits : GraphEdits lib) where
  open lib use {Graph, vertex, edge, add_edge}
  open edits use {remove_edge, remove_vertex, predecessors, adjacent, transitive_reduction, search}

  pub record RemovesEdge (a b : String) (g g' : Graph) : Type 0 where
    pub vertices : (i : String) → vertex g' i ≡ vertex g i
    pub edges : (i j : String) → edge g' i j ≡ (edge g i j && not (a == i && b == j))

  pub record RemovesVertex (a : String) (g g' : Graph) : Type 0 where
    pub vertices : (i : String) → vertex g' i ≡ (if a == i then none else vertex g i)
    pub edges : (i j : String) → edge g' i j ≡ edge g i j

  pub record Reduces (g g' : Graph) : Type 0 where
    pub vertices : (i : String) → vertex g' i ≡ vertex g i
    pub subset : (i j : String) → edge g' i j ≡ true → edge g i j ≡ true
    pub paths : (i j : String) → Reaches (edge g) i j → Reaches (edge g') i j

  pub record IsGraphEdits : Type 0 where
    pub predecessors-edge : (g : Graph) (i p : String) → contains (predecessors g i) p ≡ edge g p i
    pub adjacent-edge : (g : Graph) (i j : String) → contains (adjacent g i) j ≡ edge g i j
    pub remove_edge_done :
        (g g' : Graph) (a b : String) → remove_edge g a b ≡ ok g' → RemovesEdge a b g g'
    pub remove_vertex_done :
        (g g' : Graph) (a : String) → remove_vertex g a ≡ ok g' → RemovesVertex a g g'
    pub transitive_reduction_done : (g g' : Graph) → transitive_reduction g ≡ ok g' → Reduces g g'

-- strings.HasSuffix
unfoldable pub has_suffix : String → String → Bool
has_suffix s suffix = leb (len suffix) (len s) && slice s (len s - len suffix) (len s) == suffix

-- strings.CutSuffix
unfoldable pub cut_suffix : String → String → Option String
unfolding has_suffix
cut_suffix s suffix = if has_suffix s suffix then some (slice s 0 (len s - len suffix)) else none

is_type_noop : OperationType → Bool
is_type_noop type_noop = true
is_type_noop _ = false

pub is_category_meta : OperationCategory → Bool
is_category_meta category_meta = true
is_category_meta _ = false

unfoldable pub is_category_track : OperationCategory → Bool
is_category_track category_track = true
is_category_track _ = false

is_category_resource : OperationCategory → Bool
is_category_resource category_resource = true
is_category_resource _ = false

-- The noops that the code calls meta operations, with an identifier that ends in the suffix.
unfoldable pub is_meta_op : String → Operation → Bool
unfolding has_suffix is_type_noop is_category_meta
is_meta_op suffix op =
    is_type_noop op.type
    && is_category_meta op.category
    && has_suffix (id op) (append_text "/" suffix)

-- The end operation of a start operation; lo.Must panics where there is none.
unfoldable pub meta_pair : List Operation → Operation → Result (Operation × Operation)
unfolding cut_suffix
meta_pair end_ops start_op = do
  prefix ← must_find (cut_suffix (id start_op) stage_start_suffix)
  end_op ← must_find (find? (λ op. id op == append_text prefix stage_end_suffix) end_ops)
  ok (start_op, end_op)

pub meta_pairs : List Operation → List Operation → Result (List (Operation × Operation))
unfolding meta_pair
meta_pairs end_ops [] = ok []
meta_pairs end_ops (start_op ∷ start_ops) = do
  pair ← meta_pair end_ops start_op
  pairs ← meta_pairs end_ops start_ops
  ok (pair ∷ pairs)

-- An identifier with the one suffix does not have the other, so the two tests are independent.
unfoldable pub find_meta_operation_pairs : List Operation → Result (List (Operation × Operation))
unfolding meta_pairs is_meta_op
find_meta_operation_pairs ops =
    meta_pairs (filter_by (is_meta_op stage_end_suffix) ops)
      (filter_by (is_meta_op stage_start_suffix) ops)

module _ (lib : GraphLib) (edits : GraphEdits lib) where
  open lib use {Graph, new, vertex, edge}
  open edits use {remove_edge, remove_vertex, predecessors, adjacent, transitive_reduction, search}

  pub remove_incoming : Graph → List String → String → Result Graph
  remove_incoming g [] i = ok g
  remove_incoming g (p ∷ preds) i = do g' ← must (remove_edge g p i); remove_incoming g' preds i

  pub remove_outgoing : Graph → String → List String → Result Graph
  remove_outgoing g i [] = ok g
  remove_outgoing g i (j ∷ adjacencies) = do
    g' ← must (remove_edge g i j)
    remove_outgoing g' i adjacencies

  pub connect_to_all : Graph → String → List String → Result Graph
  connect_to_all g p [] = ok g
  connect_to_all g p (j ∷ adjacencies) = do
    g' ← must (connect lib g p j)
    connect_to_all g' p adjacencies

  pub connect_pairs : Graph → List String → List String → Result Graph
  unfolding connect_to_all
  connect_pairs g [] adjacencies = ok g
  connect_pairs g (p ∷ preds) adjacencies = do
    g' ← connect_to_all g p adjacencies
    connect_pairs g' preds adjacencies

  unfoldable pub squash_operation : Graph → Operation → Result Graph
  unfolding remove_incoming remove_outgoing connect_pairs
  squash_operation g op = do
    g₁ ← remove_incoming g (predecessors g (id op)) (id op)
    g₂ ← remove_outgoing g₁ (id op) (adjacent g (id op))
    g₃ ← connect_pairs g₂ (predecessors g (id op)) (adjacent g (id op))
    must (remove_vertex g₃ (id op))

  -- A start whose only target is its end.
  unfoldable pub is_useless_pair : Graph → Operation × Operation → Bool
  is_useless_pair g (start_op, end_op) =
      nat_eq (length (adjacent g (id start_op))) 1 && edge g (id start_op) (id end_op)

  unfoldable pub find_useless_meta_operations :
      Graph → List (Operation × Operation) → List (Operation × Operation)
  unfolding is_useless_pair
  find_useless_meta_operations g pairs = filter_by (is_useless_pair g) pairs

  unfoldable pub squash_pairs : Graph → List (Operation × Operation) → Result Graph
  unfolding squash_operation
  squash_pairs g [] = ok g
  squash_pairs g ((start_op, end_op) ∷ pairs) = do
    g₁ ← squash_operation g start_op
    g₂ ← squash_operation g₁ end_op
    squash_pairs g₂ pairs

  unfoldable pub useless_pairs_of : Graph → Result (List (Operation × Operation))
  unfolding find_meta_operation_pairs find_useless_meta_operations
  useless_pairs_of g = do
    ops ← operations lib g
    pairs ← find_meta_operation_pairs ops
    ok (find_useless_meta_operations g pairs)

  -- squashUselessMetaOperations calls itself as long as there are useless pairs left.
  pub data SquashesUseless : Graph → Graph → Type 0 where
    last_round :
        {g g' : Graph} (pairs : List (Operation × Operation))
        → useless_pairs_of g ≡ ok pairs
        → squash_pairs g pairs ≡ ok g'
        → useless_pairs_of g' ≡ ok []
        → SquashesUseless g g'
    next_round :
        {g g' g'' : Graph} (pairs : List (Operation × Operation)) (left : Operation × Operation)
        (more : List (Operation × Operation))
        → useless_pairs_of g ≡ ok pairs
        → squash_pairs g pairs ≡ ok g'
        → useless_pairs_of g' ≡ ok (left ∷ more)
        → SquashesUseless g' g''
        → SquashesUseless g g''

  -- The visit of the search: whether the identifier is one of an operation on a resource.
  unfoldable pub is_resource_vertex : Graph → String → Bool
  unfolding is_category_resource
  is_resource_vertex g i = elim (vertex g i) [
    | some op ↦ is_category_resource op.category
    | none ↦ false
  ]

  -- The loop over the tracking operations, which were collected before it.
  unfoldable pub squash_final : Graph → List Operation → Result Graph
  unfolding squash_operation is_resource_vertex
  squash_final g [] = ok g
  squash_final g (op ∷ ops) = do
    found_dependent ← must (search g (id op) (is_resource_vertex g))
    g' ← (if found_dependent then ok g else squash_operation g op)
    squash_final g' ops

  unfoldable pub squash_final_tracking_operations : Graph → Result Graph
  unfolding squash_final is_category_track
  squash_final_tracking_operations g = do
    ops ← operations lib g
    squash_final g (filter_by (λ op. is_category_track op.category) ops)

  -- Optimize: the reduction, the useless meta operations, and with noFinalTracking the tracking that
  -- nothing waits for.
  pub record Optimizes (no_final_tracking : Bool) (g g' : Graph) : Type 0 where
    pub reduced : Graph
    pub squashed : Graph
    pub reduces : wrap_err "transitively reduce graph" (transitive_reduction g) ≡ ok reduced
    pub squashes : SquashesUseless reduced squashed
    pub finishes :
        (if no_final_tracking then squash_final_tracking_operations squashed else ok squashed)
        ≡ ok g'

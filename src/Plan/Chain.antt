-- ===== src/Plan/Chain.antt =====
-- pkg/plan/plan.go: the plan and the builder of operation chains.
pub mod Placement
pub mod Connect
pub mod Becomes
pub mod Steps
pub mod Builder
use nelm.Base.{
  String, append_text, ℕ, Bool, true, false, Option, none, some, List, [], ◌∷◌, ◌++◌, ◌≡◌, ◌==◌,
  ◌&&◌, ◌||◌, ◌⊎◌, Result, ok, err, panic, graph, Err, GraphErr, message, wrap, wrap_err, ◌>>=◌,
  must, vertex_already_exists, edge_already_exists, if◌then◌else◌, find?, not,
}
use nelm.Common.{Stage, stage_prefix, stage_start_suffix, stage_end_suffix}
use nelm.Plan.Operation.{Operation, OperationConfig, noop, id}
use nelm.Plan.Graph.{GraphLib}

pub record BuilderStep : Type 0 where
  pub operation : Operation
  pub skip_on_duplicate : Bool
  pub stage : Stage

-- planChainBuilder without its plan, which `do_chain` takes, and without its field err, which no
-- code sets.
abbrev pub ChainBuilder : Type 0
ChainBuilder = List BuilderStep

unfoldable pub add_operation : ChainBuilder → Operation → ChainBuilder
add_operation b op = b ++ record { operation = op; skip_on_duplicate = false; stage = "" } ∷ []

-- lo.Must(lo.Last(b.steps)), changed by the function.
change_last : (BuilderStep → BuilderStep) → ChainBuilder → Result ChainBuilder
change_last f [] = panic
change_last f (s ∷ []) = ok (f s ∷ [])
change_last f (s ∷ t ∷ b) = do b' ← change_last f (t ∷ b); ok (s ∷ b')

unfoldable pub in_stage : ChainBuilder → Stage → Result ChainBuilder
unfolding change_last
in_stage b stage = change_last (λ s. record s { stage = stage }) b

unfoldable pub skip_on_duplicate : ChainBuilder → Result ChainBuilder
unfolding change_last
skip_on_duplicate b = change_last (λ s. record s { skip_on_duplicate = true }) b

-- fmt.Sprintf("%s/%s/%s", common.StagePrefix, stage, suffix)
unfoldable pub stage_op_id : Stage → String → String
stage_op_id stage suffix =
    append_text stage_prefix (append_text "/" (append_text stage (append_text "/" suffix)))

-- The predicate of lo.Find: a noop with this OpID.
is_noop_of : String → OperationConfig → Bool
is_noop_of i (noop op_id) = op_id == i
is_noop_of i _ = false

is_already_exists : Err → Bool
is_already_exists (graph vertex_already_exists) = true
is_already_exists _ = false

-- lo.Must on what lo.Find returns.
abbrev pub must_find {ℓ} : {A : Type ℓ} → Option A → Result A
must_find none = panic
must_find (some a) = ok a

module _ (lib : GraphLib) where
  open lib use {Graph, add_vertex, add_edge, vertex, keys}

  -- The end of Connect, by the error of AddEdge.
  connected : Graph → Result Graph → Result Graph
  connected g (ok g') = ok g'
  connected g (err (graph edge_already_exists)) = ok g
  connected g (err e) = err (wrap "add edge" e)
  connected g panic = panic

  unfoldable pub connect : Graph → String → String → Result Graph
  unfolding connected
  connect g from to = connected g (add_edge g from to)

  -- Operation, for each key in turn; lo.Must panics on a key with no vertex.
  append_found : Option Operation → Result (List Operation) → Result (List Operation)
  append_found none ops = panic
  append_found (some op) ops = ops >>= λ ops'. ok (op ∷ ops')

  pub operations_of : Graph → List String → Result (List Operation)
  unfolding append_found
  operations_of g [] = ok []
  operations_of g (i ∷ is) = append_found (vertex g i) (operations_of g is)

  unfoldable pub operations : Graph → Result (List Operation)
  unfolding operations_of
  operations g = operations_of g (keys g)

  -- lo.Must(lo.Find(operations, …)) on the noop of a stage.
  pub stage_op : List Operation → Stage → String → Result Operation
  unfolding is_noop_of stage_op_id
  stage_op ops stage suffix =
      must_find (find? (λ o. is_noop_of (stage_op_id stage suffix) o.config) ops)

  -- Whether the vertex was added, with the graph after it.
  add_step_vertex : Graph → BuilderStep → Result Graph → Result (Graph × Bool)
  unfolding is_already_exists
  add_step_vertex g step (ok g') = ok (g', true)
  add_step_vertex g step (err e) =
      if not (is_already_exists e) || not step.skip_on_duplicate
      then err (wrap "add vertex" e)
      else ok (g, false)
  add_step_vertex g step panic = panic

  -- The connections of the operation with the ends of its stage.
  connect_stage : Graph → List Operation → BuilderStep → Result Graph
  unfolding connect stage_op
  connect_stage g ops step = do
    start_op ← stage_op ops step.stage stage_start_suffix
    g₁ ← wrap_err "connect starting stage" (connect g (id start_op) (id step.operation))
    end_op ← stage_op ops step.stage stage_end_suffix
    wrap_err "connect ending stage" (connect g₁ (id step.operation) (id end_op))

  -- Only an operation that was added is connected with the ends of its stage.
  connect_added : Graph × Bool → List Operation → BuilderStep → Result Graph
  unfolding connect_stage
  connect_added added ops step =
      if not (step.stage == "") && added.1 then connect_stage added.0 ops step else ok added.0

  -- The connection with the previous step.
  connect_prev : Graph → Option BuilderStep → BuilderStep → Result Graph
  unfolding connect
  connect_prev g none step = ok g
  connect_prev g (some prev) step =
      wrap_err "connect operations in chain" (connect g (id prev.operation) (id step.operation))

  -- The body of the loop of Do.
  do_step : Graph → Option BuilderStep → BuilderStep → Result Graph
  unfolding add_step_vertex operations connect_added connect_prev
  do_step g prev step = do
    added ← add_step_vertex g step (add_vertex g step.operation)
    ops ← operations added.0
    g₂ ← connect_added added ops step
    connect_prev g₂ prev step

  do_steps : Graph → Option BuilderStep → List BuilderStep → Result Graph
  unfolding do_step
  do_steps g prev [] = ok g
  do_steps g prev (step ∷ steps) = do g' ← do_step g prev step; do_steps g' (some step) steps

  unfoldable pub do_chain : Graph → ChainBuilder → Result Graph
  unfolding do_steps
  do_chain g b = do_steps g none b

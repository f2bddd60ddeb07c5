-- ===== src/Plan/Build.antt =====
-- pkg/plan/plan_build.go: how a plan is built. A Go `&Operation{…}` that leaves a field out has its
-- zero value there: no status, iteration 0.
pub mod Stages
pub mod Releases
pub mod Resources
pub mod Dependencies
pub mod Compose
pub mod Failure
pub mod Named
pub mod Grows
use nelm.Base.{String, ℕ, [], Result, ◌>>=◌}
use nelm.Common.{Stage}
use nelm.Plan.Operation.{
  OperationCategory, category_meta, status_unknown, OperationType, type_noop, operation_version,
  OperationConfig, noop, Operation,
}
use nelm.Plan.Graph.{GraphLib}
use nelm.Plan.Chain.{ChainBuilder, add_operation, in_stage, do_chain}

-- A new operation, with the version constant of its type.
unfoldable pub new_operation : OperationType → OperationCategory → ℕ → OperationConfig → Operation
new_operation type category iteration config = record {
  type = type;
  version = operation_version type;
  category = category;
  iteration = iteration;
  status = status_unknown;
  config = config;
}

-- A noop that stands for an end of a stage.
unfoldable pub noop_operation : String → Operation
unfolding new_operation
noop_operation op_id = new_operation type_noop category_meta 0 (noop op_id)

-- chain.AddOperation(op).Stage(stage)
abbrev pub add_staged : ChainBuilder → Operation → Stage → Result ChainBuilder
add_staged chain op stage = in_stage (add_operation chain op) stage

-- plan.AddOperationChain().AddOperation(op).Stage(stage).Do()
unfoldable pub do_single : (lib : GraphLib) → lib.Graph → Operation → Stage → Result lib.Graph
do_single lib plan op stage = do chain ← add_staged [] op stage; do_chain lib plan chain

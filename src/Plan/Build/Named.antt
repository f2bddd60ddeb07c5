-- ===== src/Plan/Build/Named.antt =====
-- The identifiers of the operations that pkg/plan/plan_build.go makes.
use nelm.Base.{String, ℕ, ◌≡◌, refl, ap, sym, subst}
use nelm.Plan.Operation.{
  OperationCategory, OperationType, type_noop, OperationConfig, noop, config_id, operation_id, id,
}
use nelm.Plan.Build.{new_operation, noop_operation}
use nelm.Plan.Chain.Placement.{noop_id, IsNamed}

pub noop_operation-IsNamed : (op_id : String) → IsNamed (noop_operation op_id)
unfolding noop_operation id config_id
noop_operation-IsNamed op_id i e = ap (operation_id type_noop 1 0) (cc)

pub id-noop_operation : (op_id : String) → id (noop_operation op_id) ≡ noop_id op_id
unfolding noop_operation id config_id
id-noop_operation op_id = refl

-- An operation with any other config is named for want of an OpID.
abbrev pub IsNoop : OperationConfig → Type 0
IsNoop (noop _) = Unit
IsNoop _ = ⊥

noop-IsNoop : (c : OperationConfig) (i : String) → c ≡ noop i → IsNoop c
noop-IsNoop c i e = subst IsNoop (sym e) tt

pub new_operation-IsNamed :
    (type : OperationType) (category : OperationCategory) (iteration : ℕ) (config : OperationConfig)
    → ¬ IsNoop config
    → IsNamed (new_operation type category iteration config)
unfolding new_operation
new_operation-IsNamed type category iteration config n i e = absurd (n (noop-IsNoop config i e))

pub id-new_operation :
    (type : OperationType) (category : OperationCategory) (iteration : ℕ) (config : OperationConfig)
    → id (new_operation type category iteration config)
      ≡ operation_id type 1 iteration (config_id config)
unfolding new_operation id
id-new_operation type category iteration config = refl

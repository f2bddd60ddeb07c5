-- ===== src/Plan/Chain/Builder.antt =====
-- AddOperation, Stage and SkipOnDuplicate (pkg/plan/plan.go) as appends to the chain.
use nelm.Base.{true, false, [], ◌∷◌, ◌++◌, ◌≡◌, refl, ok}
use nelm.Common.{Stage}
use nelm.Plan.Operation.{Operation}
use nelm.Plan.Chain.{
  BuilderStep, ChainBuilder, add_operation, change_last, in_stage, skip_on_duplicate,
}

abbrev pub staged_step : Operation → Stage → BuilderStep
staged_step op stage = record { operation = op; skip_on_duplicate = false; stage = stage }

abbrev pub skipping_step : Operation → Stage → BuilderStep
skipping_step op stage = record { operation = op; skip_on_duplicate = true; stage = stage }

change_last-append :
    (f : BuilderStep → BuilderStep) (b : ChainBuilder) (s : BuilderStep)
    → change_last f (b ++ s ∷ []) ≡ ok (b ++ f s ∷ [])
unfolding change_last
change_last-append f [] s = refl
change_last-append f (t ∷ []) s = refl
change_last-append f (t ∷ u ∷ b) s = rw (change_last-append f (u ∷ b) s)

pub in_stage-add_operation :
    (b : ChainBuilder) (op : Operation) (stage : Stage)
    → in_stage (add_operation b op) stage ≡ ok (b ++ staged_step op stage ∷ [])
unfolding in_stage add_operation
in_stage-add_operation b op stage = change_last-append _ b _

pub skip_on_duplicate-append :
    (b : ChainBuilder) (op : Operation) (stage : Stage)
    → skip_on_duplicate (b ++ staged_step op stage ∷ []) ≡ ok (b ++ skipping_step op stage ∷ [])
unfolding skip_on_duplicate
skip_on_duplicate-append b op stage = change_last-append _ b _

-- ===== src/Predictor/Smith.antt =====
-- The states of one row of the branch history table: what a state predicts, and how the three
-- Smith predictors move it. The invalid cases keep the state (with a warning).
pub mod Counter
use qtrvsim.Predictor.Types.{BranchResult, PredictorState}

-- `Predictor::convert_state_to_prediction`
unfoldable pub convert_state_to_prediction : PredictorState → BranchResult
convert_state_to_prediction PredictorState.taken = BranchResult.taken
convert_state_to_prediction PredictorState.weakly_taken = BranchResult.taken
convert_state_to_prediction PredictorState.strongly_taken = BranchResult.taken
convert_state_to_prediction _ = BranchResult.not_taken

-- `PredictorSmith1Bit::update`
unfoldable pub smith_1_bit_state : BranchResult → PredictorState → PredictorState
smith_1_bit_state BranchResult.not_taken state = PredictorState.not_taken
smith_1_bit_state BranchResult.taken state = PredictorState.taken
smith_1_bit_state BranchResult.undefined state = state

-- `PredictorSmith2Bit::update`
unfoldable pub smith_2_bit_state : BranchResult → PredictorState → PredictorState
smith_2_bit_state BranchResult.not_taken PredictorState.strongly_taken = PredictorState.weakly_taken
smith_2_bit_state BranchResult.not_taken PredictorState.weakly_taken =
    PredictorState.weakly_not_taken
smith_2_bit_state BranchResult.not_taken PredictorState.weakly_not_taken =
    PredictorState.strongly_not_taken
smith_2_bit_state BranchResult.not_taken PredictorState.strongly_not_taken =
    PredictorState.strongly_not_taken
smith_2_bit_state BranchResult.taken PredictorState.strongly_taken = PredictorState.strongly_taken
smith_2_bit_state BranchResult.taken PredictorState.weakly_taken = PredictorState.strongly_taken
smith_2_bit_state BranchResult.taken PredictorState.weakly_not_taken = PredictorState.weakly_taken
smith_2_bit_state BranchResult.taken PredictorState.strongly_not_taken =
    PredictorState.weakly_not_taken
smith_2_bit_state _ state = state

-- `PredictorSmith2BitHysteresis::update`
unfoldable pub hysteresis_state : BranchResult → PredictorState → PredictorState
hysteresis_state BranchResult.not_taken PredictorState.strongly_taken = PredictorState.weakly_taken
hysteresis_state BranchResult.not_taken PredictorState.weakly_taken =
    PredictorState.strongly_not_taken
hysteresis_state BranchResult.not_taken PredictorState.weakly_not_taken =
    PredictorState.strongly_not_taken
hysteresis_state BranchResult.not_taken PredictorState.strongly_not_taken =
    PredictorState.strongly_not_taken
hysteresis_state BranchResult.taken PredictorState.strongly_taken = PredictorState.strongly_taken
hysteresis_state BranchResult.taken PredictorState.weakly_taken = PredictorState.strongly_taken
hysteresis_state BranchResult.taken PredictorState.weakly_not_taken = PredictorState.strongly_taken
hysteresis_state BranchResult.taken PredictorState.strongly_not_taken =
    PredictorState.weakly_not_taken
hysteresis_state _ state = state

-- ===== src/Predictor/Smith/Counter.antt =====
-- The two-bit Smith predictors as what they stand for: a saturating counter, and a counter with
-- hysteresis.
use qtrvsim.Base.{ℕ, ◌+◌, ◌-◌, ◌≡◌, leb, if◌then◌else◌, min, arith, Option, none, some, ◌≢◌}
use qtrvsim.Predictor.Types.{BranchResult, PredictorState}
use qtrvsim.Predictor.Smith.{convert_state_to_prediction, smith_2_bit_state, hysteresis_state}

-- The value of a two-bit state; the other states have none.
abbrev pub level : PredictorState → Option ℕ
level PredictorState.strongly_not_taken = some 0
level PredictorState.weakly_not_taken = some 1
level PredictorState.weakly_taken = some 2
level PredictorState.strongly_taken = some 3
level _ = none

-- One step of a counter from 0 to 3 that stops at its ends.
abbrev pub count_result : BranchResult → ℕ → ℕ
count_result BranchResult.taken n = min 3 (n + 1)
count_result BranchResult.not_taken n = n - 1
count_result BranchResult.undefined n = n

-- The two-bit predictor is a saturating counter, for every result: its state steps as a counter
-- from 0 to 3, up on a taken branch and down on a branch not taken, and it predicts a taken branch
-- exactly from 2 on.
pub smith_2_bit-level :
    (s : PredictorState) (r : BranchResult) {n : ℕ}
    → level s ≡ some n
    → (level (smith_2_bit_state r s) ≡ some (count_result r n))
      × (convert_state_to_prediction s
          ≡ (if leb 2 n then BranchResult.taken else BranchResult.not_taken))
unfolding smith_2_bit_state convert_state_to_prediction
smith_2_bit-level s r h = ground arith

-- The strong state of a result.
abbrev pub strong_state : BranchResult → PredictorState
strong_state BranchResult.taken = PredictorState.strongly_taken
strong_state BranchResult.not_taken = PredictorState.strongly_not_taken
strong_state BranchResult.undefined = PredictorState.undefined

-- Hysteresis, from each of the four two-bit states and for each of the two results: two equal
-- results in a row lead to the strong state of that result, and from the strong state of a result
-- one more result, of any kind, leaves the prediction as it is.
pub hysteresis_twice :
    (s : PredictorState) (r o : BranchResult) {n : ℕ}
    → level s ≡ some n
    → r ≢ BranchResult.undefined
    → (hysteresis_state r (hysteresis_state r s) ≡ strong_state r)
      × (convert_state_to_prediction (hysteresis_state o (strong_state r)) ≡ r)
unfolding hysteresis_state convert_state_to_prediction
hysteresis_twice s r o h defined = ground arith

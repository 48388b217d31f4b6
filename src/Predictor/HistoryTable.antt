-- ===== src/Predictor/HistoryTable.antt =====
-- `Predictor` and its six subclasses: the branch history table, the statistics, `predict`,
-- `update`, `clear` and `flush`. The subclass is the field `kind`.
pub mod Index
pub mod Keeps
pub mod Reset
pub mod Learning
use qtrvsim.Base.{
  ℕ, ◌-◌, ◌*◌, ◌/◌, ◌%◌, ◌^◌, bit_and, bit_or, Bool, true, false, Option, none, some, List, leb,
  ltb, if◌then◌else◌, length, get_or, set, replicate,
}
use mathlib.Core.Option
use qtrvsim.Predictor.Types.{
  BranchType, BranchResult, PredictorType, PredictorState, bp_max_bht_addr_bits, bp_max_bht_bits,
  clamp_bits, same_result,
}
use qtrvsim.Predictor.Stats.{PredictionStatistics, no_statistics, count_prediction}
use qtrvsim.Predictor.Rows.{for_each_row, row_fuel}
use qtrvsim.Predictor.Smith.{
  convert_state_to_prediction, smith_1_bit_state, smith_2_bit_state, hysteresis_state,
}

pub record BranchHistoryTableEntry : Type 0 where
  pub state : PredictorState
  pub stats : PredictionStatistics

abbrev pub empty_row : BranchHistoryTableEntry
empty_row = record { state = PredictorState.undefined; stats = no_statistics }

-- The instruction itself, which no predictor reads, is left out of the two inputs.
pub record PredictionInput : Type 0 where
  pub bhr_value : ℕ
  pub instruction_address : ℕ
  pub target_address : ℕ

pub record PredictionFeedback : Type 0 where
  pub bhr_value : ℕ
  pub instruction_address : ℕ
  pub target_address : ℕ
  pub result : BranchResult
  pub branch_type : BranchType

pub record Predictor : Type 0 where
  pub kind : PredictorType
  pub number_of_bht_addr_bits : ℕ
  pub number_of_bht_bits : ℕ
  pub initial_state : PredictorState
  pub stats : PredictionStatistics
  pub bht : List BranchHistoryTableEntry

-- The index of a row, from the global history and the instruction's address.
unfoldable pub calculate_bht_index : Predictor → ℕ → ℕ → ℕ
calculate_bht_index p bhr_value instruction_address =
    let bhr_part = bhr_value * 2 ^ p.number_of_bht_addr_bits % 2 ^ 16 in
    let address_mask = (2 ^ p.number_of_bht_addr_bits - 1) % 2 ^ 16 in
    let address_part = bit_and (instruction_address / 2 ^ 2 % 2 ^ 16) address_mask in
    bit_or bhr_part address_part

unfoldable pub update_stats : Predictor → Bool → Predictor
update_stats p was_correct = record p { stats = count_prediction p.stats was_correct }

abbrev count_row : Bool → BranchHistoryTableEntry → BranchHistoryTableEntry
count_row was_correct row = record row { stats = count_prediction row.stats was_correct }

unfoldable pub update_bht_stats : Predictor → ℕ → Bool → Predictor
update_bht_stats p index was_correct =
    if leb (length p.bht) index
    then p
    else record p { bht = set p.bht index (count_row was_correct (get_or p.bht index empty_row)) }

unfoldable pub clear_stats : Predictor → Predictor
clear_stats p = record p { stats = no_statistics }

unfoldable pub clear_bht_stats : Predictor → Option Predictor
clear_bht_stats p =
    Option.map (λ rows. record p { bht = rows })
      (for_each_row (λ row. record row { stats = no_statistics }) empty_row row_fuel 0 p.bht)

unfoldable pub clear_bht_state : Predictor → Option Predictor
clear_bht_state p =
    Option.map (λ rows. record p { bht = rows })
      (for_each_row (λ row. record row { state = p.initial_state }) empty_row row_fuel 0 p.bht)

unfoldable pub clear : Predictor → Option Predictor
clear p = Option.bind (clear_bht_stats (clear_stats p)) clear_bht_state

unfoldable pub flush : Predictor → Option Predictor
flush p = clear_bht_state p

-- The base class's constructor, with the subclass's kind.
unfoldable pub make : PredictorType → ℕ → ℕ → PredictorState → Option Predictor
make kind addr_bits bht_bits initial_state =
    Option.bind
      (clear_bht_state (record {
        kind = kind;
        number_of_bht_addr_bits = clamp_bits bp_max_bht_addr_bits addr_bits;
        number_of_bht_bits = clamp_bits bp_max_bht_bits bht_bits;
        initial_state = initial_state;
        stats = no_statistics;
        bht = replicate (2 ^ bht_bits) empty_row;
      }))
      clear_bht_stats

-- `predict` of the three Smith predictors.
unfoldable pub predict_by_row : Predictor → PredictionInput → BranchResult
predict_by_row p input =
    let index = calculate_bht_index p input.bhr_value input.instruction_address in
    if leb (length p.bht) index
    then BranchResult.not_taken
    else convert_state_to_prediction (get_or p.bht index empty_row).state

-- `update` of the three Smith predictors, which differ in the move of the row's state.
unfoldable pub update_by_row :
    (BranchResult → PredictorState → PredictorState) → Predictor → PredictionFeedback → Predictor
unfolding update_bht_stats update_stats
update_by_row move p feedback =
    let index = calculate_bht_index p feedback.bhr_value feedback.instruction_address in
    let state = (get_or p.bht index empty_row).state in
    let was_correct = same_result feedback.result (convert_state_to_prediction state) in
    let counted = update_stats (update_bht_stats p index was_correct) was_correct in
    let row = get_or counted.bht index empty_row in
    let moved = set counted.bht index (record row { state = move feedback.result row.state }) in
    if leb (length p.bht) index then p else record counted { bht = moved }

-- Backward taken, forward not taken.
unfoldable pub predict_by_direction : ℕ → ℕ → BranchResult
predict_by_direction instruction_address target_address =
    if ltb instruction_address target_address then BranchResult.not_taken else BranchResult.taken

-- `predict` and `update` of the subclass. No predictor has the kind `undefined`.
abbrev predict_as : PredictorType → Predictor → PredictionInput → BranchResult
predict_as PredictorType.always_not_taken p input = BranchResult.not_taken
predict_as PredictorType.always_taken p input = BranchResult.taken
predict_as PredictorType.btfnt p input =
    predict_by_direction input.instruction_address input.target_address
predict_as PredictorType.undefined p input = BranchResult.undefined
predict_as _ p input = predict_by_row p input

unfoldable pub predict : Predictor → PredictionInput → BranchResult
predict p input = predict_as p.kind p input

abbrev update_as : PredictorType → Predictor → PredictionFeedback → Predictor
update_as PredictorType.always_not_taken p f =
    update_stats p (same_result f.result BranchResult.not_taken)
update_as PredictorType.always_taken p f = update_stats p (same_result f.result BranchResult.taken)
update_as PredictorType.btfnt p f =
    if ltb f.instruction_address f.target_address
    then update_stats p (same_result f.result BranchResult.not_taken)
    else update_stats p (same_result f.result BranchResult.taken)
update_as PredictorType.smith_1_bit p f = update_by_row smith_1_bit_state p f
update_as PredictorType.smith_2_bit p f = update_by_row smith_2_bit_state p f
update_as PredictorType.smith_2_bit_hysteresis p f = update_by_row hysteresis_state p f
update_as PredictorType.undefined p f = p

unfoldable pub update : Predictor → PredictionFeedback → Predictor
update p feedback = update_as p.kind p feedback

-- ===== src/Predictor/Unit.antt =====
-- `BranchPredictor`: the history register, the target buffer and the predictor together, as the
-- core calls them. The tables that the signals show to the user interface are left out.
pub mod Valid
pub mod Construct
pub mod Prediction
pub mod Overflow
use qtrvsim.Base.{
  ℕ, ◌+◌, ◌%◌, ◌^◌, Bool, true, false, not, Option, none, some, ltb, ◌==◌, if◌then◌else◌,
}
use qtrvsim.Predictor.Types.{
  BranchType, BranchResult, PredictorType, PredictorState, bp_max_btb_bits, bp_max_bhr_bits,
  bp_max_bht_addr_bits, bp_max_bht_bits, clamp_bits, next_address,
}
use qtrvsim.Predictor.Stats
use qtrvsim.Predictor.Stats.{PredictionStatistics, no_statistics}
use qtrvsim.Predictor.History
use qtrvsim.Predictor.History.{BranchHistoryRegister}
use qtrvsim.Predictor.TargetBuffer
use qtrvsim.Predictor.TargetBuffer.{BranchTargetBuffer, BranchTargetBufferEntry}
use qtrvsim.Predictor.HistoryTable
use qtrvsim.Predictor.HistoryTable.{Predictor, PredictionInput, PredictionFeedback}

pub record BranchPredictor : Type 0 where
  pub enabled : Bool
  pub total_stats : PredictionStatistics
  pub predictor : Predictor
  pub bhr : BranchHistoryRegister
  pub btb : BranchTargetBuffer
  pub initial_state : PredictorState
  pub number_of_btb_bits : ℕ
  pub number_of_bhr_bits : ℕ
  pub number_of_bht_addr_bits : ℕ
  pub number_of_bht_bits : ℕ

-- What the constructor does: it builds the unit, throws `std::invalid_argument`, or is still in a
-- loop when the rounds run out.
pub data Construction : Type 0 where
  built : BranchPredictor → Construction
  invalid_argument : Construction
  no_return : Construction

-- The two numbers are limited, then their sum, in a `uint8_t`.
unfoldable pub init_number_of_bht_bits : ℕ → ℕ → ℕ
unfolding clamp_bits
init_number_of_bht_bits b_bhr b_addr =
    clamp_bits bp_max_bht_bits
      ((clamp_bits bp_max_bhr_bits b_bhr + clamp_bits bp_max_bht_addr_bits b_addr) % 2 ^ 8)

-- The bits that a kind of predictor asks of its table: none for the static ones.
abbrev make_predictor : PredictorType → PredictorState → ℕ → ℕ → Option Predictor
make_predictor PredictorType.always_not_taken initial addr_bits bht_bits =
    HistoryTable.make PredictorType.always_not_taken 0 0 PredictorState.undefined
make_predictor PredictorType.always_taken initial addr_bits bht_bits =
    HistoryTable.make PredictorType.always_taken 0 0 PredictorState.undefined
make_predictor PredictorType.btfnt initial addr_bits bht_bits =
    HistoryTable.make PredictorType.btfnt 0 0 PredictorState.undefined
make_predictor kind initial addr_bits bht_bits = HistoryTable.make kind addr_bits bht_bits initial

module _ (enabled : Bool) (initial_state : PredictorState) (btb_bits bhr_bits addr_bits : ℕ) where
  abbrev assemble : Option Predictor → Construction
  assemble none = no_return
  assemble (some predictor) = built (record {
    enabled = enabled;
    total_stats = no_statistics;
    predictor = predictor;
    bhr = History.make bhr_bits;
    btb = TargetBuffer.make btb_bits;
    initial_state = initial_state;
    number_of_btb_bits = clamp_bits bp_max_btb_bits btb_bits;
    number_of_bhr_bits = clamp_bits bp_max_bhr_bits bhr_bits;
    number_of_bht_addr_bits = clamp_bits bp_max_bht_addr_bits addr_bits;
    number_of_bht_bits = init_number_of_bht_bits bhr_bits addr_bits;
  })

  unfoldable pub make : PredictorType → Construction
  make PredictorType.undefined = invalid_argument
  make kind =
      assemble
        (make_predictor kind initial_state addr_bits (init_number_of_bht_bits bhr_bits addr_bits))

-- The getters: a disabled unit hides its settings.
unfoldable pub get_predictor_type : BranchPredictor → PredictorType
get_predictor_type u = if u.enabled then u.predictor.kind else PredictorType.undefined

unfoldable pub get_initial_state : BranchPredictor → PredictorState
get_initial_state u = if u.enabled then u.initial_state else PredictorState.undefined

unfoldable pub get_number_of_bht_bits : BranchPredictor → ℕ
get_number_of_bht_bits u = if u.enabled then u.number_of_bht_bits else 0

-- `none` is the null pointer.
unfoldable pub get_stats : BranchPredictor → Option PredictionStatistics
get_stats u = if u.enabled then some u.total_stats else none

unfoldable pub increment_jumps : BranchPredictor → BranchPredictor
increment_jumps u = record u { total_stats = Stats.increment_jumps u.total_stats }

unfoldable pub increment_mispredictions : BranchPredictor → BranchPredictor
increment_mispredictions u = record u { total_stats = Stats.increment_mispredictions u.total_stats }

abbrev is_branch : BranchType → Bool
is_branch BranchType.branch = true
is_branch _ = false

abbrev is_taken : BranchResult → Bool
is_taken BranchResult.taken = true
is_taken _ = false

-- The result predicted for a row of the target buffer.
unfoldable pub predict_entry : BranchPredictor → BranchTargetBufferEntry → ℕ → BranchResult
predict_entry u entry instruction_address =
    let input : PredictionInput = record {
      bhr_value = u.bhr.value;
      instruction_address = instruction_address;
      target_address = entry.target_address;
    } in
    if is_branch entry.branch_type
    then HistoryTable.predict u.predictor input
    else BranchResult.taken

unfoldable pub predict_next_pc_address : BranchPredictor → ℕ → ℕ
predict_next_pc_address u instruction_address =
    let entry = TargetBuffer.get_entry u.btb instruction_address in
    let fall_through = next_address instruction_address in
    if not u.enabled
    then fall_through
    else if not entry.entry_valid
    then fall_through
    else if not (entry.instruction_address == instruction_address)
    then fall_through
    else if is_taken (predict_entry u entry instruction_address)
    then entry.target_address
    else fall_through

unfoldable pub update : BranchPredictor → ℕ → ℕ → BranchType → BranchResult → BranchPredictor
unfolding increment_jumps
update u instruction_address target_address branch_type result =
    let feedback : PredictionFeedback = record {
      bhr_value = u.bhr.value;
      instruction_address = instruction_address;
      target_address = target_address;
      result = result;
      branch_type = branch_type;
    } in
    let trained : BranchPredictor = record u {
      btb = TargetBuffer.update u.btb instruction_address target_address branch_type;
      predictor =
          if is_branch branch_type then HistoryTable.update u.predictor feedback else u.predictor;
    } in
    if u.enabled then record (increment_jumps trained) { bhr = History.update u.bhr result } else u

abbrev with_tables :
    BranchPredictor → Option BranchTargetBuffer → Option Predictor → Option BranchPredictor
with_tables u (some btb) (some predictor) =
    some (record u { bhr = History.clear u.bhr; btb = btb; predictor = predictor })
with_tables u _ _ = none

unfoldable pub clear : BranchPredictor → Option BranchPredictor
clear u = with_tables u (TargetBuffer.clear u.btb) (HistoryTable.clear u.predictor)

unfoldable pub flush : BranchPredictor → Option BranchPredictor
flush u = with_tables u (TargetBuffer.clear u.btb) (HistoryTable.flush u.predictor)

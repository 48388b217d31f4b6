-- ===== src/Predictor/Types.antt =====
-- The enumerations of src/machine/predictor_types.h, the limits on the numbers of bits, and the
-- arithmetic of `Address` that the predictor uses.
use qtrvsim.Base.{ℕ, ◌+◌, ◌%◌, ◌^◌, Bool, true, false, ltb, if◌then◌else◌}

pub data BranchType : Type 0 where
  jump branch undefined : BranchType

pub data BranchResult : Type 0 where
  not_taken taken undefined : BranchResult

pub data PredictorType : Type 0 where
  always_not_taken always_taken btfnt smith_1_bit smith_2_bit : PredictorType
  smith_2_bit_hysteresis undefined : PredictorType

pub data PredictorState : Type 0 where
  not_taken taken strongly_not_taken weakly_not_taken weakly_taken : PredictorState
  strongly_taken undefined : PredictorState

abbrev pub bp_max_btb_bits : ℕ
bp_max_btb_bits = 8

abbrev pub bp_max_bhr_bits : ℕ
bp_max_bhr_bits = 8

abbrev pub bp_max_bht_addr_bits : ℕ
bp_max_bht_addr_bits = 8

abbrev pub bp_max_bht_bits : ℕ
bp_max_bht_bits = bp_max_bht_addr_bits + bp_max_bht_addr_bits

-- The `init_number_of_…` functions: a number above the limit becomes the limit (with a warning).
unfoldable pub clamp_bits : ℕ → ℕ → ℕ
clamp_bits limit b = if ltb limit b then limit else b

unfoldable pub is_predictor_type_dynamic : PredictorType → Bool
is_predictor_type_dynamic PredictorType.smith_1_bit = true
is_predictor_type_dynamic PredictorType.smith_2_bit = true
is_predictor_type_dynamic PredictorType.smith_2_bit_hysteresis = true
is_predictor_type_dynamic _ = false

-- `==` of two results.
abbrev pub same_result : BranchResult → BranchResult → Bool
same_result BranchResult.not_taken BranchResult.not_taken = true
same_result BranchResult.taken BranchResult.taken = true
same_result BranchResult.undefined BranchResult.undefined = true
same_result _ _ = false

-- `instruction_address + 4`, on the 64-bit raw value.
abbrev pub next_address : ℕ → ℕ
next_address a = (a + 4) % 2 ^ 64

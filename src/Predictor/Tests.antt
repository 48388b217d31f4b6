-- ===== src/Predictor/Tests.antt =====
-- Runs of the branch predictor on small tables.
use qtrvsim.Base.{
  ◌^◌, none, ◌≡◌, ◌≢◌, refl, arith, true, List, [], ◌∷◌, some, replicate, length-replicate,
  if◌then◌else◌, leb,
}
use qtrvsim.Predictor.Types.{
  BranchType, BranchResult, PredictorType, PredictorState, is_predictor_type_dynamic,
}
use qtrvsim.Predictor.Stats.{PredictionStatistics, no_statistics}
use qtrvsim.Predictor.Smith.{smith_2_bit_state, convert_state_to_prediction}
use qtrvsim.Predictor.Smith.Counter.{level, count_result, smith_2_bit-level}
use qtrvsim.Predictor.History.Window.{observe}
use qtrvsim.Predictor.TargetBuffer
use qtrvsim.Predictor.TargetBuffer.{BranchTargetBuffer, empty_entry}
use qtrvsim.Predictor.TargetBuffer.Lookup
use qtrvsim.Predictor.TargetBuffer.Lookup.{learnt, get_entry-update}
use qtrvsim.Predictor.HistoryTable
use qtrvsim.Predictor.HistoryTable.{
  Predictor, PredictionFeedback, BranchHistoryTableEntry, empty_row, calculate_bht_index,
}
use qtrvsim.Predictor.HistoryTable.Learning.{same_question, predict-update-update}
use qtrvsim.Predictor.Unit
use qtrvsim.Predictor.HistoryTable.Reset.{with_state}
use qtrvsim.Predictor.Rows.{for_each_row}
use qtrvsim.Predictor.Unit.{
  BranchPredictor, built, no_return, predict_next_pc_address, init_number_of_bht_bits,
}
use qtrvsim.Predictor.Unit.Valid.{IsValid, update-IsValid}
use qtrvsim.Predictor.Unit.Construct.{make-IsValid, make-no_return}
use qtrvsim.Predictor.Unit.Overflow.{eight_bit_history_ignored}

-- A table of four rows, for one history bit and one address bit.
abbrev weak_row : BranchHistoryTableEntry
weak_row = record { state = PredictorState.weakly_taken; stats = no_statistics }

abbrev four_rows : Predictor
four_rows = record {
  kind = PredictorType.smith_2_bit;
  number_of_bht_addr_bits = 1;
  number_of_bht_bits = 2;
  initial_state = PredictorState.weakly_taken;
  stats = no_statistics;
  bht = weak_row ∷ weak_row ∷ weak_row ∷ weak_row ∷ [];
}

abbrev two_entries : BranchTargetBuffer
two_entries = record { number_of_bits = 1; btb = empty_entry ∷ empty_entry ∷ [] }

abbrev small_unit : BranchPredictor
small_unit = record {
  enabled = true;
  total_stats = no_statistics;
  predictor = four_rows;
  bhr = record { number_of_bits = 1; register_mask = 1; value = 1 };
  btb = two_entries;
  initial_state = PredictorState.weakly_taken;
  number_of_btb_bits = 1;
  number_of_bhr_bits = 1;
  number_of_bht_addr_bits = 1;
  number_of_bht_bits = 2;
}

abbrev not_taken_at_4 : PredictionFeedback
not_taken_at_4 = record {
  bhr_value = 1;
  instruction_address = 4;
  target_address = 0x40;
  result = BranchResult.not_taken;
  branch_type = BranchType.branch;
}

two_entries-IsSized : TargetBuffer.Lookup.IsSized two_entries
two_entries-IsSized = record { covers = omega arith }

small_unit-IsValid : IsValid small_unit
small_unit-IsValid = record {
  mask = refl;
  history = omega arith;
  buffer = two_entries-IsSized;
  table = λ _. record { address_bits = omega arith; all_bits = omega arith; covers = omega arith };
}

not_undefined : BranchResult.not_taken ≢ BranchResult.undefined
not_undefined = cc

index_of_4 : calculate_bht_index four_rows 1 4 ≡ 3
unfolding calculate_bht_index
index_of_4 = refl

predict-update-update_example :
    HistoryTable.predict
      (HistoryTable.update (HistoryTable.update four_rows not_taken_at_4) not_taken_at_4)
      (same_question not_taken_at_4)
    ≡ BranchResult.not_taken
unfolding calculate_bht_index
predict-update-update_example =
    predict-update-update four_rows not_taken_at_4 (2, refl) (omega arith) not_undefined

update-IsValid_example :
    IsValid (Unit.update small_unit 4 0x40 BranchType.branch BranchResult.taken)
update-IsValid_example =
    update-IsValid small_unit 4 0x40 BranchType.branch BranchResult.taken small_unit-IsValid

make-IsValid_example :
    (u : BranchPredictor) × (Unit.make true PredictorState.not_taken 2 2 2 PredictorType.smith_1_bit
      ≡ built u)
    × IsValid u
unfolding is_predictor_type_dynamic
make-IsValid_example =
    make-IsValid true PredictorState.not_taken 2 2 2 PredictorType.smith_1_bit refl (omega arith)
      (omega arith) (omega arith)

make-no_return_example :
    let rows = replicate (2 ^ init_number_of_bht_bits 8 8) empty_row in
    (Unit.make true PredictorState.not_taken 2 8 8 PredictorType.smith_1_bit ≡ no_return)
    × (for_each_row (with_state PredictorState.not_taken) empty_row (2 ^ 20) 0 rows ≡ none)
unfolding is_predictor_type_dynamic
make-no_return_example =
    make-no_return true PredictorState.not_taken 2 8 8 PredictorType.smith_1_bit refl (omega arith)
      (omega arith) (2 ^ 20)

smith_2_bit-level_example :
    (level (smith_2_bit_state BranchResult.taken PredictorState.weakly_taken)
      ≡ some (count_result BranchResult.taken 2))
    × (convert_state_to_prediction PredictorState.weakly_taken
        ≡ (if leb 2 2 then BranchResult.taken else BranchResult.not_taken))
smith_2_bit-level_example = smith_2_bit-level PredictorState.weakly_taken BranchResult.taken refl

abbrev many_rows : Predictor
many_rows = record four_rows { bht = replicate (2 ^ 16) weak_row }

abbrev two_of_three : PredictionStatistics
two_of_three = record { total = 3; correct = 2; wrong = 1; accuracy = 66 }

-- A table for 8 history bits and no address bit, after a taken branch and eight not taken.
abbrev wide_rows : Predictor
wide_rows = record four_rows { number_of_bht_addr_bits = 0; bht = replicate (2 ^ 8) weak_row }

abbrev old_taken : List BranchResult
old_taken =
    BranchResult.not_taken ∷ BranchResult.not_taken ∷ BranchResult.not_taken
    ∷ BranchResult.not_taken ∷ BranchResult.not_taken ∷ BranchResult.not_taken
    ∷ BranchResult.not_taken ∷ BranchResult.not_taken ∷ BranchResult.taken ∷ []

eight_bit_history_example :
    let f : PredictionFeedback = record {
      bhr_value = (observe 8 old_taken).value;
      instruction_address = 4;
      target_address = 0x40;
      result = BranchResult.taken;
      branch_type = BranchType.branch;
    } in
    (HistoryTable.update wide_rows f ≡ wide_rows)
    × (HistoryTable.predict wide_rows (same_question f) ≡ BranchResult.not_taken)
unfolding is_predictor_type_dynamic
eight_bit_history_example =
    eight_bit_history_ignored wide_rows 9 old_taken 4 0x40 BranchResult.taken refl (omega arith)
      (omega arith) (length-replicate (2 ^ 8) weak_row) (omega arith) (omega arith)

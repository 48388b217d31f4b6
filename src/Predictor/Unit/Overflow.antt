-- ===== src/Predictor/Unit/Overflow.antt =====
-- The history of 8 bits that is kept in 16: the table of a dynamic predictor has no row for it.
use qtrvsim.Base.{ℕ, ◌+◌, ◌*◌, ◌^◌, ◌≤◌, ◌<◌, ◌≡◌, refl, ◌∙◌, true, List, length, le→leb, arith}
use qtrvsim.Base.Bits.{pow-add}
use native.Mathlib.Nat.{mod-eq_of_lt, pow-le-pow_right}
use qtrvsim.Predictor.Types.{BranchType, BranchResult, PredictorState, is_predictor_type_dynamic}
use qtrvsim.Predictor.History.Window.{observe, encode, value-observe}
use qtrvsim.Predictor.HistoryTable
use qtrvsim.Predictor.HistoryTable.{
  Predictor, PredictionInput, PredictionFeedback, calculate_bht_index, update_by_row,
  predict_by_row,
}
use qtrvsim.Predictor.HistoryTable.Index.{calculate_bht_index_lem}
use qtrvsim.Predictor.HistoryTable.Learning.{move_of, same_question, update_row, predict_row}

-- Outside its table a predictor by rows changes nothing and predicts a branch not taken.
outside :
    (move : BranchResult → PredictorState → PredictorState) (p : Predictor) (f : PredictionFeedback)
    → length p.bht ≤ calculate_bht_index p f.bhr_value f.instruction_address
    → (update_by_row move p f ≡ p) × (predict_by_row p (same_question f) ≡ BranchResult.not_taken)
unfolding update_by_row predict_by_row
outside move p f out = (rw (le→leb _ _ out) refl, rw (le→leb _ _ out) refl)

-- A dynamic predictor with a table for 8 history bits and `n` address bits, where a result before the
-- latest eight was taken (the results are at least 2 ^ 8 as a binary number): it learns nothing from
-- a feedback with the history that the register for 8 bits holds, and predicts not taken. The results
-- are as many as fit an index of 16 bits.
pub eight_bit_history_ignored :
    (p : Predictor) (h : ℕ) (results : List BranchResult) (a target : ℕ) (result : BranchResult)
    → is_predictor_type_dynamic p.kind ≡ true
    → p.number_of_bht_addr_bits ≤ 8
    → h + p.number_of_bht_addr_bits ≤ 16
    → length p.bht ≡ 2 ^ (8 + p.number_of_bht_addr_bits)
    → 2 ^ 8 ≤ encode results
    → encode results < 2 ^ h
    → let f : PredictionFeedback = record {
      bhr_value = (observe 8 results).value;
      instruction_address = a;
      target_address = target;
      result = result;
      branch_type = BranchType.branch;
    } in
      (HistoryTable.update p f ≡ p)
      × (HistoryTable.predict p (same_question f) ≡ BranchResult.not_taken)
eight_bit_history_ignored p h results a target result dynamic few fits rows long short =
    let n = p.number_of_bht_addr_bits in
    let f : PredictionFeedback = record {
      bhr_value = (observe 8 results).value;
      instruction_address = a;
      target_address = target;
      result = result;
      branch_type = BranchType.branch;
    } in
    let h_le : 2 ^ h ≤ 2 ^ 16 = pow-le-pow_right (omega arith) {j = 16} (omega arith) in
    let held : (observe 8 results).value ≡ encode results =
      value-observe 8 results ∙ mod-eq_of_lt (omega arith) in
    let (value, below) = calculate_bht_index_lem h p (encode results) a short few fits in
    let grow : 2 ^ 8 * 2 ^ n ≤ encode results * 2 ^ n = grind arith in
    let past : length p.bht ≤ calculate_bht_index p (observe 8 results).value a =
      rw (held, value, rows, pow-add 8 n) (omega arith) in
    let (same, answer) = outside (move_of p.kind) p f past in
    (update_row p.kind dynamic p f refl ∙ same, predict_row p.kind dynamic p f refl ∙ answer)

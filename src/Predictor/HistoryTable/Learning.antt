-- ===== src/Predictor/HistoryTable/Learning.antt =====
-- What the dynamic predictors hold and predict after they were told a result.
use qtrvsim.Base.{
  ℕ, ◌<◌, ◌≡◌, ◌≢◌, refl, ap, ◌∙◌, true, length, get_or, set, length-set, get_or-set_self,
  get_or-set_ne, lt→leb-false, arith, some,
}
use qtrvsim.Predictor.Types.{
  BranchResult, PredictorType, PredictorState, same_result, is_predictor_type_dynamic,
}
use qtrvsim.Predictor.Smith.{
  convert_state_to_prediction, smith_1_bit_state, smith_2_bit_state, hysteresis_state,
}
use qtrvsim.Predictor.Smith.Counter.{level}
use qtrvsim.Predictor.HistoryTable.{
  Predictor, PredictionInput, PredictionFeedback, BranchHistoryTableEntry, empty_row,
  calculate_bht_index, update_by_row, predict_by_row, count_row, update_as, predict_as, update,
  predict,
}

-- The row that a feedback is about, and the question with the same index.
abbrev pub row_of : Predictor → PredictionFeedback → ℕ
row_of p f = calculate_bht_index p f.bhr_value f.instruction_address

abbrev pub same_question : PredictionFeedback → PredictionInput
same_question f = record {
  bhr_value = f.bhr_value;
  instruction_address = f.instruction_address;
  target_address = f.target_address;
}

abbrev pub state_at : Predictor → ℕ → PredictorState
state_at p i = (get_or p.bht i empty_row).state

module _ (move : BranchResult → PredictorState → PredictorState) where
  -- The table keeps its size and its bits, the row of the feedback moves as the predictor moves a
  -- state, and every other row is untouched.
  pub update_by_row_lem :
      (p : Predictor) (f : PredictionFeedback)
      → row_of p f < length p.bht
      → (length (update_by_row move p f).bht ≡ length p.bht)
        × (state_at (update_by_row move p f) (row_of p f) ≡ move f.result (state_at p (row_of p f)))
        × ((i : ℕ)
            → row_of p f ≢ i
            → get_or (update_by_row move p f).bht i empty_row ≡ get_or p.bht i empty_row)
  unfolding update_by_row
  update_by_row_lem p f inside =
      let i = row_of p f in
      let right = same_result f.result (convert_state_to_prediction (state_at p i)) in
      let counted : BranchHistoryTableEntry = count_row right (get_or p.bht i empty_row) in
      let rows = set p.bht i counted in
      let read = get_or-set_self p.bht i counted empty_row inside in
      let size = length-set p.bht i counted in
      let moved : BranchHistoryTableEntry = record (get_or rows i empty_row) {
        state = move f.result (get_or rows i empty_row).state;
      } in
      rw (lt→leb-false (length p.bht) i inside) (
        length-set rows i moved ∙ size,
        ap (λ (row : BranchHistoryTableEntry). row.state)
              (get_or-set_self rows i moved empty_row (omega arith))
            ∙ ap (λ (row : BranchHistoryTableEntry). move f.result row.state) read,
        λ j ne.
            get_or-set_ne rows i j moved empty_row ne
            ∙ get_or-set_ne p.bht i j counted empty_row ne,
      )

-- The states that a kind of dynamic predictor works on.
abbrev pub IsUsable : PredictorType → PredictorState → Type 0
IsUsable PredictorType.smith_1_bit s = Unit
IsUsable PredictorType.smith_2_bit s = (n : ℕ) × (level s ≡ some n)
IsUsable PredictorType.smith_2_bit_hysteresis s = (n : ℕ) × (level s ≡ some n)
IsUsable _ s = ⊥

abbrev pub move_of : PredictorType → BranchResult → PredictorState → PredictorState
move_of PredictorType.smith_1_bit = smith_1_bit_state
move_of PredictorType.smith_2_bit = smith_2_bit_state
move_of _ = hysteresis_state

two_moves :
    (kind : PredictorType) (s : PredictorState) (r : BranchResult)
    → IsUsable kind s
    → r ≢ BranchResult.undefined
    → convert_state_to_prediction (move_of kind r (move_of kind r s)) ≡ r
unfolding convert_state_to_prediction smith_1_bit_state smith_2_bit_state hysteresis_state
two_moves PredictorType.smith_1_bit s r usable defined = ground arith
two_moves PredictorType.smith_2_bit s r (n, e) defined = ground arith
two_moves PredictorType.smith_2_bit_hysteresis s r (n, e) defined = ground arith
two_moves PredictorType.always_not_taken s r usable defined = absurd usable
two_moves PredictorType.always_taken s r usable defined = absurd usable
two_moves PredictorType.btfnt s r usable defined = absurd usable
two_moves PredictorType.undefined s r usable defined = absurd usable

dynamic_of_usable :
    (kind : PredictorType) (s : PredictorState)
    → IsUsable kind s
    → is_predictor_type_dynamic kind ≡ true
unfolding is_predictor_type_dynamic
dynamic_of_usable PredictorType.smith_1_bit s u = refl
dynamic_of_usable PredictorType.smith_2_bit s u = refl
dynamic_of_usable PredictorType.smith_2_bit_hysteresis s u = refl
dynamic_of_usable _ s u = absurd u

-- The dynamic kinds go by the row.
as_row :
    (kind : PredictorType) (p : Predictor) (f : PredictionFeedback) (q : PredictionInput)
    → is_predictor_type_dynamic kind ≡ true
    → (update_as kind p f ≡ update_by_row (move_of kind) p f)
      × (predict_as kind p q ≡ predict_by_row p q)
unfolding is_predictor_type_dynamic
as_row PredictorType.smith_1_bit p f q d = (refl, refl)
as_row PredictorType.smith_2_bit p f q d = (refl, refl)
as_row PredictorType.smith_2_bit_hysteresis p f q d = (refl, refl)
as_row _ p f q d = cc

module _ (move : BranchResult → PredictorState → PredictorState) where
  update_by_row_keeps :
      (p : Predictor) (f : PredictionFeedback)
      → ((update_by_row move p f).kind ≡ p.kind)
        × ((update_by_row move p f).number_of_bht_addr_bits ≡ p.number_of_bht_addr_bits)
  unfolding update_by_row
  update_by_row_keeps p f = ground arith

  row_of-update :
      (p : Predictor) (f : PredictionFeedback) → row_of (update_by_row move p f) f ≡ row_of p f
  unfolding calculate_bht_index
  row_of-update p f = rw ((update_by_row_keeps p f).1) refl

  predict_after :
      (p : Predictor) (f : PredictionFeedback)
      → row_of p f < length p.bht
      → predict_by_row (update_by_row move p f) (same_question f)
        ≡ convert_state_to_prediction (move f.result (state_at p (row_of p f)))
  unfolding predict_by_row
  predict_after p f inside =
      let (size, moved, rest) = update_by_row_lem move p f inside in
      rw
        (
          row_of-update p f,
          lt→leb-false (length (update_by_row move p f).bht) (row_of p f) (omega arith),
        )
        (ap convert_state_to_prediction moved)

module _ (kind : PredictorType) (dynamic : is_predictor_type_dynamic kind ≡ true) where
  pub update_row :
      (p : Predictor) (f : PredictionFeedback)
      → p.kind ≡ kind
      → update p f ≡ update_by_row (move_of kind) p f
  unfolding update
  update_row p f e = ap (λ k. update_as k p f) e ∙ (as_row kind p f (same_question f) dynamic).0

  pub predict_row :
      (p : Predictor) (f : PredictionFeedback)
      → p.kind ≡ kind
      → predict p (same_question f) ≡ predict_by_row p (same_question f)
  unfolding predict
  predict_row p f e =
      ap (λ k. predict_as k p (same_question f)) e ∙ (as_row kind p f (same_question f) dynamic).1

-- A dynamic predictor learns: told the same result twice at a row of its table that is in a state
-- of its kind, it predicts that result for the same history and instruction.
pub predict-update-update :
    (p : Predictor) (f : PredictionFeedback)
    → IsUsable p.kind (state_at p (row_of p f))
    → row_of p f < length p.bht
    → f.result ≢ BranchResult.undefined
    → predict (update (update p f) f) (same_question f) ≡ f.result
predict-update-update p f usable inside defined =
    let move = move_of p.kind in
    let d = dynamic_of_usable p.kind (state_at p (row_of p f)) usable in
    let once = update_by_row move p f in
    let (size, moved, rest) = update_by_row_lem move p f inside in
    let same = row_of-update move p f in
    let kind1 = (update_by_row_keeps move p f).0 in
    let kind2 = (update_by_row_keeps move once f).0 in
    rw (update_row p.kind d p f refl, update_row p.kind d once f kind1)
      (predict_row p.kind d (update_by_row move once f) f (kind2 ∙ kind1)
        ∙ predict_after move once f (omega arith)
        ∙ ap (λ (i : ℕ). convert_state_to_prediction (move f.result (state_at once i))) same
        ∙ ap (λ s. convert_state_to_prediction (move f.result s)) moved
        ∙ two_moves p.kind (state_at p (row_of p f)) f.result usable defined)

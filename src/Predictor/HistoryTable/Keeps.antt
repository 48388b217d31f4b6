-- ===== src/Predictor/HistoryTable/Keeps.antt =====
-- What the operations of `Predictor` leave alone: its kind, its numbers of bits and the size of its
-- table.
use qtrvsim.Base.{ℕ, ◌≡◌, refl, ◌∙◌, true, Bool-cases, inl, inr, leb, length, length-set, arith}
use qtrvsim.Predictor.Types.{BranchResult, PredictorType, PredictorState, is_predictor_type_dynamic}
use qtrvsim.Predictor.HistoryTable.{
  Predictor, PredictionFeedback, calculate_bht_index, update_by_row, update_as, update_stats,
  update,
}
use qtrvsim.Predictor.HistoryTable.Index.{IsSized}

-- What the operations of a predictor leave alone.
abbrev pub Keeps : Predictor → Predictor → Type 0
Keeps p q =
    (q.kind ≡ p.kind)
    × (q.number_of_bht_addr_bits ≡ p.number_of_bht_addr_bits)
    × (length q.bht ≡ length p.bht)

pub update_by_row-Keeps :
    (move : BranchResult → PredictorState → PredictorState) (p : Predictor) (f : PredictionFeedback)
    → Keeps p (update_by_row move p f)
unfolding update_by_row
update_by_row-Keeps move p f =
    let i = calculate_bht_index p f.bhr_value f.instruction_address in
    elim (Bool-cases (leb (length p.bht) i)) [
      | inl out ↦ rw out (refl, refl, refl)
      | inr inside ↦ rw inside (refl, refl, length-set _ i _ ∙ length-set p.bht i _)
    ]

update_as-Keeps :
    (kind : PredictorType) (p : Predictor) (f : PredictionFeedback) → Keeps p (update_as kind p f)
update_as-Keeps PredictorType.always_not_taken p f = unfold update_stats in (refl, refl, refl)
update_as-Keeps PredictorType.always_taken p f = unfold update_stats in (refl, refl, refl)
update_as-Keeps PredictorType.btfnt p f = unfold update_stats in ground arith
update_as-Keeps PredictorType.smith_1_bit p f = update_by_row-Keeps _ p f
update_as-Keeps PredictorType.smith_2_bit p f = update_by_row-Keeps _ p f
update_as-Keeps PredictorType.smith_2_bit_hysteresis p f = update_by_row-Keeps _ p f
update_as-Keeps PredictorType.undefined p f = (refl, refl, refl)

pub update-Keeps : (p : Predictor) (f : PredictionFeedback) → Keeps p (update p f)
unfolding update
update-Keeps p f = update_as-Keeps p.kind p f

-- A table that keeps its size and its address bits still has a row for each index.
IsSized-Keeps : {h : ℕ} {p q : Predictor} → Keeps p q → IsSized h p → IsSized h q
IsSized-Keeps (kind, bits, size) t = record {
  address_bits = rw bits t.address_bits;
  all_bits = rw bits t.all_bits;
  covers = rw (bits, size) t.covers;
}

pub table-Keeps :
    {h : ℕ} {p q : Predictor}
    → Keeps p q
    → (is_predictor_type_dynamic p.kind ≡ true → IsSized h p)
    → is_predictor_type_dynamic q.kind ≡ true
    → IsSized h q
table-Keeps k t d = IsSized-Keeps k (t (rw (k.0) at d))

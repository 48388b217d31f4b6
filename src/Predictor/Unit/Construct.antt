-- ===== src/Predictor/Unit/Construct.antt =====
-- When the constructor of `BranchPredictor` returns, and what it builds.
use qtrvsim.Base.{
  ℕ, ◌+◌, ◌-◌, ◌^◌, ◌≤◌, ◌<◌, ◌≡◌, refl, sym, ap, ◌∙◌, Bool, true, none, length, length-replicate,
  length-map, replicate, map, arith,
}
use native.Mathlib.Nat.{one-le-pow, le_refl}
use qtrvsim.Predictor.Types.{PredictorType, PredictorState, is_predictor_type_dynamic, clamp_bits}
use qtrvsim.Predictor.Stats.{no_statistics}
use qtrvsim.Predictor.History
use qtrvsim.Predictor.History.Window.{make_lem, small_mask}
use qtrvsim.Predictor.TargetBuffer
use qtrvsim.Predictor.TargetBuffer.{empty_entry}
use qtrvsim.Predictor.TargetBuffer.Lookup.{make-IsSized}
use qtrvsim.Predictor.HistoryTable
use qtrvsim.Predictor.HistoryTable.{empty_row}
use qtrvsim.Predictor.HistoryTable.Reset.{fresh, make-fresh, make-none, no_row_stats, with_state}
use qtrvsim.Predictor.Rows.{for_each_row}
use qtrvsim.Predictor.Rows.Loop.{for_each_row-eq-none}
use qtrvsim.Predictor.Unit.{
  BranchPredictor, built, no_return, make, assemble, init_number_of_bht_bits,
}
use qtrvsim.Predictor.Unit.Valid.{IsValid}

bht_bits_lem : (h n : ℕ) → h < 8 → n ≤ 8 → init_number_of_bht_bits h n ≡ h + n
unfolding init_number_of_bht_bits
bht_bits_lem h n small fits = ground arith

module _ (enabled : Bool) (initial : PredictorState) (btb_bits h n : ℕ) where
  make-assemble :
      (kind : PredictorType)
      → is_predictor_type_dynamic kind ≡ true
      → make enabled initial btb_bits h n kind
        ≡ assemble enabled initial btb_bits h n
            (HistoryTable.make kind n (init_number_of_bht_bits h n) initial)
  unfolding make is_predictor_type_dynamic
  make-assemble PredictorType.smith_1_bit d = refl
  make-assemble PredictorType.smith_2_bit d = refl
  make-assemble PredictorType.smith_2_bit_hysteresis d = refl
  make-assemble _ d = cc

  unit : HistoryTable.Predictor → BranchPredictor
  unit p = record {
    enabled = enabled;
    total_stats = no_statistics;
    predictor = p;
    bhr = History.make h;
    btb = TargetBuffer.make btb_bits;
    initial_state = initial;
    number_of_btb_bits = clamp_bits 8 btb_bits;
    number_of_bhr_bits = clamp_bits 8 h;
    number_of_bht_addr_bits = clamp_bits 8 n;
    number_of_bht_bits = init_number_of_bht_bits h n;
  }

  -- With fewer than 8 history bits, and at most 8 address and target buffer bits, the constructor
  -- of a dynamic predictor returns, and the unit that it builds is valid.
  pub make-IsValid :
      (kind : PredictorType)
      → is_predictor_type_dynamic kind ≡ true
      → h < 8
      → n ≤ 8
      → btb_bits ≤ 8
      → (u : BranchPredictor) × (make enabled initial btb_bits h n kind ≡ built u) × IsValid u
  unfolding unit
  make-IsValid kind dynamic small fits few =
      let bits = bht_bits_lem h n small fits in
      let p = fresh kind n (h + n) initial in
      let rows = map (with_state initial) (replicate (2 ^ (h + n)) empty_row) in
      let size : length p.bht ≡ 2 ^ (h + n) =
        length-map rows no_row_stats
        ∙ length-map (replicate (2 ^ (h + n)) empty_row) (with_state initial)
        ∙ length-replicate (2 ^ (h + n)) empty_row in
      let kept_h : clamp_bits 8 h ≡ h = unfold clamp_bits in ground arith in
      let made = make_lem h in
      let same : clamp_bits 8 n ≡ n = unfold clamp_bits in ground arith in
      (
        unit p,
        make-assemble kind dynamic
            ∙ ap (assemble enabled initial btb_bits h n) (
                ap (λ (b : ℕ). HistoryTable.make kind n b initial) bits
                ∙ make-fresh kind n (h + n) initial (omega arith)),
        record {
          mask = made.0 ∙ small_mask h small ∙ ap (λ (k : ℕ). 2 ^ k - 1) (sym kept_h);
          history = rw (made.1, kept_h) (one-le-pow h 2 (omega arith));
          buffer = make-IsSized btb_bits few;
          table = λ d. record {
            address_bits = rw same fits;
            all_bits = rw (kept_h, same) (omega arith);
            covers = rw (kept_h, same, size) (le_refl _);
          };
        },
      )

  -- With 8 history bits or more and 8 address bits or more, the constructor of a dynamic predictor
  -- never returns: whatever the number of rounds, it is left in the loop that clears its table of
  -- 2 ^ 16 rows.
  pub make-no_return :
      (kind : PredictorType)
      → is_predictor_type_dynamic kind ≡ true
      → 8 ≤ h
      → 8 ≤ n
      → (rounds : ℕ)
      → let rows = replicate (2 ^ init_number_of_bht_bits h n) empty_row in
        (make enabled initial btb_bits h n kind ≡ no_return)
        × (for_each_row (with_state initial) empty_row rounds 0 rows ≡ none)
  make-no_return kind dynamic many_h many_n rounds =
      let sixteen : init_number_of_bht_bits h n ≡ 16 =
        unfold init_number_of_bht_bits in ground arith in
      let size = length-replicate (2 ^ 16) empty_row in
      (
        make-assemble kind dynamic
            ∙ ap (assemble enabled initial btb_bits h n) (
                ap (λ (b : ℕ). HistoryTable.make kind n b initial) sixteen
                ∙ make-none kind n 16 initial (omega arith)),
        rw sixteen (
            for_each_row-eq-none (with_state initial) empty_row rounds 0
              (replicate (2 ^ 16) empty_row) (omega arith) (omega arith)),
      )

-- ===== src/Predictor/Stats.antt =====
-- `PredictionStatistics` and the arithmetic of `Predictor::update_stats`,
-- `BranchPredictor::increment_jumps` and `increment_mispredictions`.
-- The counters are `uint32_t` and wrap. `accuracy` is the `uint32_t` quotient that the code
-- converts to `float`; a division by a total that has wrapped to 0, undefined in C++, is 0 here.
pub mod Balance
use qtrvsim.Base.{ℕ, ◌+◌, ◌-◌, ◌*◌, ◌/◌, ◌%◌, ◌^◌, Bool, true, false, ltb, if◌then◌else◌}

pub record PredictionStatistics : Type 0 where
  pub accuracy : ℕ
  pub total : ℕ
  pub correct : ℕ
  pub wrong : ℕ

abbrev pub no_statistics : PredictionStatistics
no_statistics = record { accuracy = 0; total = 0; correct = 0; wrong = 0 }

abbrev pub u32 : ℕ → ℕ
u32 n = n % 2 ^ 32

-- `(correct * 100) / total`
unfoldable pub percent : ℕ → ℕ → ℕ
percent correct total = u32 (correct * 100) / total

-- One prediction is counted.
unfoldable pub count_prediction : PredictionStatistics → Bool → PredictionStatistics
count_prediction s was_correct =
    let total = u32 (s.total + 1) in
    let correct = if was_correct then u32 (s.correct + 1) else s.correct in
    let wrong = if was_correct then s.wrong else u32 (s.wrong + 1) in
    record { accuracy = percent correct total; total = total; correct = correct; wrong = wrong }

-- `correct` is what is left of `total`, and the accuracy is kept at a total of 0.
abbrev rebalance : PredictionStatistics → ℕ → ℕ → PredictionStatistics
rebalance s total wrong =
    let correct = u32 (total + 2 ^ 32 - wrong) in
    record {
      accuracy = if ltb 0 total then percent correct total else s.accuracy;
      total = total;
      correct = correct;
      wrong = wrong;
    }

unfoldable pub increment_jumps : PredictionStatistics → PredictionStatistics
increment_jumps s = rebalance s (u32 (s.total + 1)) s.wrong

unfoldable pub increment_mispredictions : PredictionStatistics → PredictionStatistics
increment_mispredictions s = rebalance s s.total (u32 (s.wrong + 1))

-- ===== src/Predictor/Stats/Balance.antt =====
-- Laws of the prediction counters.
use qtrvsim.Base.{ℕ, ◌+◌, ◌-◌, ◌*◌, ◌^◌, ◌≤◌, ◌<◌, ◌≡◌, Bool, true, false, arith}
use native.Mathlib.Nat.{div-le_of_le-mul, div-mul-le_self, lt-div-mul-add}
use qtrvsim.Predictor.Stats.{
  PredictionStatistics, no_statistics, u32, percent, count_prediction, increment_jumps,
  increment_mispredictions,
}

-- The counters add up, in `uint32_t`.
pub record IsBalanced (s : PredictionStatistics) : Type 0 where
  pub total_fits : s.total < 2 ^ 32
  pub correct_fits : s.correct < 2 ^ 32
  pub wrong_fits : s.wrong < 2 ^ 32
  pub adds_up : u32 (s.correct + s.wrong) ≡ s.total

pub no_statistics-IsBalanced : IsBalanced no_statistics
no_statistics-IsBalanced = omega arith

-- Every operation on the counters keeps them balanced: a counted prediction, a counted jump and a
-- counted misprediction, at any values, also where a counter wraps.
pub counters-IsBalanced :
    (s : PredictionStatistics) (was_correct : Bool)
    → IsBalanced s
    → IsBalanced (count_prediction s was_correct)
      × IsBalanced (increment_jumps s)
      × IsBalanced (increment_mispredictions s)
unfolding count_prediction increment_jumps increment_mispredictions
counters-IsBalanced s true b = (ground arith, ground arith, ground arith)
counters-IsBalanced s false b = (ground arith, ground arith, ground arith)

percent_bounds :
    (c t : ℕ)
    → c ≤ t
    → 0 < t
    → c * 100 < 2 ^ 32
    → (percent c t ≤ 100) × (percent c t * t ≤ c * 100) × (c * 100 < percent c t * t + t)
unfolding percent
percent_bounds c t h pos fits =
    let whole : u32 (c * 100) ≡ c * 100 = omega arith in
    rw whole (div-le_of_le-mul t (omega arith), div-mul-le_self (c * 100) t, lt-div-mul-add pos)

-- Below 42949673 correct predictions the accuracy of a row or predictor whose counters add up is
-- the rounded-down percentage of correct predictions, and at most 100.
pub count_prediction-accuracy :
    (s : PredictionStatistics) (was_correct : Bool)
    → s.correct + s.wrong ≡ s.total
    → s.total + 1 < 2 ^ 32
    → s.correct + 1 < 42949673
    → let s' = count_prediction s was_correct in
      (s'.accuracy ≤ 100)
      × (s'.accuracy * s'.total ≤ s'.correct * 100)
      × (s'.correct * 100 < s'.accuracy * s'.total + s'.total)
unfolding count_prediction
count_prediction-accuracy s true sum fits few =
    let t : u32 (s.total + 1) ≡ s.total + 1 = omega arith in
    let c : u32 (s.correct + 1) ≡ s.correct + 1 = omega arith in
    rw (t, c)
      (percent_bounds (s.correct + 1) (s.total + 1) (omega arith) (omega arith) (omega arith))
count_prediction-accuracy s false sum fits few =
    let t : u32 (s.total + 1) ≡ s.total + 1 = omega arith in
    rw t (percent_bounds s.correct (s.total + 1) (omega arith) (omega arith) (omega arith))

-- A misprediction that is counted while every counted jump was mispredicted makes `correct` wrap:
-- it is 2 ^ 32 - 1.
pub increment_mispredictions_wrap :
    (s : PredictionStatistics)
    → s.wrong ≡ s.total
    → s.total + 1 < 2 ^ 32
    → (increment_mispredictions s).correct ≡ 2 ^ 32 - 1
unfolding increment_mispredictions
increment_mispredictions_wrap s e h = ground arith

-- ===== src/Predictor/Rows.antt =====
-- The loops `for (uint16_t i = 0; i < table.capacity(); i++)` over a table, as in
-- `Predictor::clear_bht_state`, `clear_bht_stats` and `BranchTargetBuffer::clear`.
-- The counter wraps at 2 ^ 16. `none` means that the rounds ran out.
pub mod Loop
use qtrvsim.Base.{
  ℕ, zero, suc, ◌+◌, ◌-◌, ◌%◌, ◌^◌, ◌≤◌, ◌<◌, ◌≡◌, refl, ◌∙◌, ap, Option, none, some, List, [], ◌∷◌,
  map, Bool, true, false, Bool-cases, inl, inr, ltb, if◌then◌else◌, length, get_or, set, length-set,
  arith,
}

-- `write` is what the body stores into row `i`, from its old value.
module _ {ℓ} {A : Type ℓ} (write : A → A) (default : A) where
  unfoldable pub for_each_row : ℕ → ℕ → List A → Option (List A)
  for_each_row zero i rows = none
  for_each_row (suc fuel) i rows =
      let rest =
        for_each_row fuel ((i + 1) % 2 ^ 16) (set rows i (write (get_or rows i default))) in
      if ltb i (length rows) then rest else some rows

-- Enough rounds for every table on which the loop ends, and, if the counter did not wrap, for one of
-- 2 ^ 16 rows too.
abbrev pub row_fuel : ℕ
row_fuel = 2 ^ 16 + 1

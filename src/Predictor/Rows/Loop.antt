-- ===== src/Predictor/Rows/Loop.antt =====
-- What the loops over a table do: they end on a table below 2 ^ 16 rows, with every row written,
-- and never on a longer one, since their 16-bit counter wraps before it reaches the end.
use qtrvsim.Base.{
  ℕ, zero, suc, ◌+◌, ◌%◌, ◌^◌, ◌≤◌, ◌<◌, ◌≡◌, refl, ap, ◌∙◌, none, some, List, [], ◌∷◌, map, ltb,
  Bool-cases, inl, inr, ltb→lt, lt→ltb, ltb-false→le, length, get_or, set, length-set, arith,
}
use qtrvsim.Predictor.Rows.{for_each_row, row_fuel}

module _ {ℓ} {A : Type ℓ} (write : A → A) (default : A) where
  -- The table with the rows from `i` on written.
  written_from : ℕ → List A → List A
  written_from zero rows = map write rows
  written_from (suc i) [] = []
  written_from (suc i) (x ∷ rows) = x ∷ written_from i rows

  written_from-set :
      (i : ℕ) (rows : List A)
      → i < length rows
      → written_from (suc i) (set rows i (write (get_or rows i default))) ≡ written_from i rows
  unfolding written_from
  written_from-set i [] h = absurd (omega arith)
  written_from-set zero (x ∷ rows) h = refl
  written_from-set (suc i) (x ∷ rows) h = ap (◌∷◌ x) (written_from-set i rows (omega arith))

  written_from_end : (i : ℕ) (rows : List A) → length rows ≤ i → written_from i rows ≡ rows
  unfolding written_from
  written_from_end zero [] h = refl
  written_from_end zero (x ∷ rows) h = absurd (omega arith)
  written_from_end (suc i) [] h = refl
  written_from_end (suc i) (x ∷ rows) h = ap (◌∷◌ x) (written_from_end i rows (omega arith))

  for_each_row-written_from :
      (fuel i : ℕ) (rows : List A)
      → length rows < 2 ^ 16
      → i ≤ length rows
      → length rows < fuel + i
      → for_each_row write default fuel i rows ≡ some (written_from i rows)
  unfolding for_each_row
  for_each_row-written_from zero i rows short below enough = absurd (omega arith)
  for_each_row-written_from (suc fuel) i rows short below enough =
      let next = set rows i (write (get_or rows i default)) in
      let same = length-set rows i (write (get_or rows i default)) in
      elim (Bool-cases (ltb i (length rows))) [
        | inl inside ↦
            let lt = ltb→lt i (length rows) inside in
            let wrap : (i + 1) % 2 ^ 16 ≡ suc i = omega arith in
            rw (inside, wrap)
              (for_each_row-written_from fuel (suc i) next (omega arith) (omega arith) (omega arith)
                ∙ ap some (written_from-set i rows lt))
        | inr past ↦ rw (past, written_from_end i rows (ltb-false→le i (length rows) past))
      ]

  -- A table below 2 ^ 16 rows: the loop ends, and every row is written.
  pub for_each_row-map :
      (rows : List A)
      → length rows < 2 ^ 16
      → for_each_row write default row_fuel 0 rows ≡ some (map write rows)
  unfolding written_from
  for_each_row-map rows short =
      for_each_row-written_from row_fuel 0 rows short (omega arith) (omega arith)

  -- A longer table: no number of rounds is enough.
  pub for_each_row-eq-none :
      (fuel i : ℕ) (rows : List A)
      → 2 ^ 16 ≤ length rows
      → i < 2 ^ 16
      → for_each_row write default fuel i rows ≡ none
  unfolding for_each_row
  for_each_row-eq-none zero i rows long h = refl
  for_each_row-eq-none (suc fuel) i rows long h =
      let next = set rows i (write (get_or rows i default)) in
      let same = length-set rows i (write (get_or rows i default)) in
      rw (lt→ltb i (length rows) (omega arith))
        (for_each_row-eq-none fuel ((i + 1) % 2 ^ 16) next (omega arith) (omega arith))

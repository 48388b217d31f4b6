-- ===== src/Predictor/HistoryTable/Reset.antt =====
-- `clear`, `flush` and the constructor of the predictor: what they reset, and when they return.
use qtrvsim.Base.{
  ℕ, ◌^◌, ◌≤◌, ◌<◌, ◌≡◌, refl, ap, ◌∙◌, none, some, map, length, replicate, length-replicate,
  length-map, arith,
}
use mathlib.Core.Option
use mathlib.Core.List.{map-map}
use native.Mathlib.Nat.{pow-le-pow_right}
use qtrvsim.Predictor.Types.{
  PredictorType, PredictorState, clamp_bits, bp_max_bht_addr_bits, bp_max_bht_bits,
}
use qtrvsim.Predictor.Stats.{no_statistics}
use qtrvsim.Predictor.Rows.{row_fuel}
use qtrvsim.Predictor.Rows.Loop.{for_each_row-map, for_each_row-eq-none}
use qtrvsim.Predictor.HistoryTable.{
  Predictor, BranchHistoryTableEntry, empty_row, clear_stats, clear_bht_stats, clear_bht_state,
  clear, flush, make,
}

abbrev pub reset_state : Predictor → BranchHistoryTableEntry → BranchHistoryTableEntry
reset_state p row = record row { state = p.initial_state }

abbrev pub no_row_stats : BranchHistoryTableEntry → BranchHistoryTableEntry
no_row_stats row = record row { stats = no_statistics }

clear_bht_stats_lem :
    (p : Predictor)
    → length p.bht < 2 ^ 16
    → clear_bht_stats p ≡ some (record p { bht = map no_row_stats p.bht })
unfolding clear_bht_stats
clear_bht_stats_lem p short = rw (for_each_row-map no_row_stats empty_row p.bht short) refl

clear_bht_state_lem :
    (p : Predictor)
    → length p.bht < 2 ^ 16
    → clear_bht_state p ≡ some (record p { bht = map (reset_state p) p.bht })
unfolding clear_bht_state
clear_bht_state_lem p short = rw (for_each_row-map (reset_state p) empty_row p.bht short) refl

-- On a table below 2 ^ 16 rows, `flush` returns with every row in the initial state and all counters
-- kept; `clear` returns with every row in the initial state and all counters at zero.
pub flush-clear_lem :
    (p : Predictor)
    → length p.bht < 2 ^ 16
    → (flush p ≡ some (record p { bht = map (reset_state p) p.bht }))
      × (clear p
          ≡ some (record p {
            stats = no_statistics;
            bht = map (λ row. record { state = p.initial_state; stats = no_statistics }) p.bht;
          }))
unfolding flush clear clear_stats Option.bind
flush-clear_lem p short =
    let blank : Predictor = record (clear_stats p) { bht = map no_row_stats p.bht } in
    let same = length-map p.bht no_row_stats in
    (
      clear_bht_state_lem p short,
      rw (clear_bht_stats_lem (clear_stats p) short) (
          clear_bht_state_lem blank (omega arith)
          ∙ ap (λ rows. some (record blank { bht = rows }))
              (map-map (reset_state p) no_row_stats p.bht)),
    )

-- On a table of 2 ^ 16 rows or more neither `flush` nor `clear` returns.
pub flush-clear-none : (p : Predictor) → 2 ^ 16 ≤ length p.bht → (flush p ≡ none) × (clear p ≡ none)
unfolding flush clear clear_stats clear_bht_stats clear_bht_state Option.bind
flush-clear-none p long = (
  rw (for_each_row-eq-none (reset_state p) empty_row row_fuel 0 p.bht long (omega arith)) refl,
  rw (for_each_row-eq-none no_row_stats empty_row row_fuel 0 p.bht long (omega arith)) refl,
)

abbrev pub with_state : PredictorState → BranchHistoryTableEntry → BranchHistoryTableEntry
with_state s row = record row { state = s }

abbrev pub fresh : PredictorType → ℕ → ℕ → PredictorState → Predictor
fresh kind addr_bits bht_bits initial_state = record {
  kind = kind;
  number_of_bht_addr_bits = clamp_bits bp_max_bht_addr_bits addr_bits;
  number_of_bht_bits = clamp_bits bp_max_bht_bits bht_bits;
  initial_state = initial_state;
  stats = no_statistics;
  bht = map no_row_stats (map (with_state initial_state) (replicate (2 ^ bht_bits) empty_row));
}

-- The constructor returns where it is asked for fewer than 16 bits, and not from 16 bits on.
pub make-fresh :
    (kind : PredictorType) (addr_bits bht_bits : ℕ) (initial_state : PredictorState)
    → bht_bits < 16
    → make kind addr_bits bht_bits initial_state
      ≡ some (fresh kind addr_bits bht_bits initial_state)
unfolding make Option.bind
make-fresh kind addr_bits bht_bits initial_state small =
    let rows = replicate (2 ^ bht_bits) empty_row in
    let start : Predictor = record (fresh kind addr_bits bht_bits initial_state) { bht = rows } in
    let pow : 2 ^ bht_bits ≤ 2 ^ 15 = pow-le-pow_right (omega arith) {j = 15} (omega arith) in
    let size = length-replicate (2 ^ bht_bits) empty_row in
    let same = length-map rows (reset_state start) in
    rw (clear_bht_state_lem start (omega arith))
      (clear_bht_stats_lem (record start { bht = map (reset_state start) rows }) (omega arith))

pub make-none :
    (kind : PredictorType) (addr_bits bht_bits : ℕ) (initial_state : PredictorState)
    → 16 ≤ bht_bits
    → make kind addr_bits bht_bits initial_state ≡ none
unfolding make clear_bht_state Option.bind
make-none kind addr_bits bht_bits initial_state large =
    let rows = replicate (2 ^ bht_bits) empty_row in
    let size = length-replicate (2 ^ bht_bits) empty_row in
    let long : 2 ^ 16 ≤ 2 ^ bht_bits = pow-le-pow_right (omega arith) large in
    rw
      (for_each_row-eq-none (with_state initial_state) empty_row row_fuel 0 rows (omega arith)
        (omega arith))
      refl

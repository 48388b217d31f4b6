-- ===== src/Predictor/TargetBuffer.antt =====
-- `BranchTargetBuffer`: the table of known jumps and branches, one row to an index.
pub mod Lookup
use qtrvsim.Base.{
  ℕ, ◌-◌, ◌/◌, ◌%◌, ◌^◌, bit_and, Bool, true, false, Option, none, some, List, leb, if◌then◌else◌,
  length, get_or, set, replicate,
}
use mathlib.Core.Option
use qtrvsim.Predictor.Types.{BranchType, bp_max_btb_bits, clamp_bits}
use qtrvsim.Predictor.Rows.{for_each_row, row_fuel}

pub record BranchTargetBufferEntry : Type 0 where
  pub entry_valid : Bool
  pub instruction_address : ℕ
  pub target_address : ℕ
  pub branch_type : BranchType

abbrev pub empty_entry : BranchTargetBufferEntry
empty_entry = record {
  entry_valid = false;
  instruction_address = 0;
  target_address = 0;
  branch_type = BranchType.undefined;
}

pub record BranchTargetBuffer : Type 0 where
  pub number_of_bits : ℕ
  pub btb : List BranchTargetBufferEntry

-- The constructor. The table is sized by the argument, before it is limited.
unfoldable pub make : ℕ → BranchTargetBuffer
make number_of_bits = record {
  number_of_bits = clamp_bits bp_max_btb_bits number_of_bits;
  btb = replicate (2 ^ number_of_bits) empty_entry;
}

unfoldable pub calculate_index : BranchTargetBuffer → ℕ → ℕ
calculate_index b instruction_address =
    bit_and (instruction_address / 2 ^ 2 % 2 ^ 16) (2 ^ b.number_of_bits - 1)

unfoldable pub get_entry : BranchTargetBuffer → ℕ → BranchTargetBufferEntry
get_entry b instruction_address =
    let index = calculate_index b instruction_address in
    if leb (length b.btb) index then empty_entry else get_or b.btb index empty_entry

unfoldable pub update : BranchTargetBuffer → ℕ → ℕ → BranchType → BranchTargetBuffer
update b instruction_address target_address branch_type =
    let index = calculate_index b instruction_address in
    let entry : BranchTargetBufferEntry = record {
      entry_valid = true;
      instruction_address = instruction_address;
      target_address = target_address;
      branch_type = branch_type;
    } in
    if leb (length b.btb) index then b else record b { btb = set b.btb index entry }

unfoldable pub clear : BranchTargetBuffer → Option BranchTargetBuffer
clear b =
    Option.map (λ rows. record b { btb = rows })
      (for_each_row (λ _. empty_entry) empty_entry row_fuel 0 b.btb)

-- ===== src/Predictor/History.antt =====
-- `BranchHistoryRegister`: the shift register of the latest results, in a `uint16_t`.
pub mod Window
use qtrvsim.Base.{ℕ, ◌-◌, ◌*◌, ◌%◌, ◌^◌, bit_and, bit_or, leb, ◌==◌, if◌then◌else◌}
use qtrvsim.Predictor.Types.{BranchResult, bp_max_bhr_bits, clamp_bits}

pub record BranchHistoryRegister : Type 0 where
  pub number_of_bits : ℕ
  pub register_mask : ℕ
  pub value : ℕ

-- `~0x0` is cut to the 16 bits of the mask.
unfoldable pub init_register_mask : ℕ → ℕ
init_register_mask b =
    if leb bp_max_bhr_bits b then 0xffff else if b == 0 then 0 else (2 ^ b - 1) % 2 ^ 16

-- The constructor.
unfoldable pub make : ℕ → BranchHistoryRegister
make number_of_bits = record {
  number_of_bits = clamp_bits bp_max_bhr_bits number_of_bits;
  register_mask = init_register_mask number_of_bits;
  value = 0;
}

abbrev push_bit : BranchResult → ℕ → ℕ
push_bit BranchResult.taken shifted = bit_or shifted 1
push_bit _ shifted = shifted

unfoldable pub update : BranchHistoryRegister → BranchResult → BranchHistoryRegister
update r result =
    let shifted = r.value * 2 % 2 ^ 16 in
    record r { value = bit_and (push_bit result shifted) r.register_mask }

unfoldable pub clear : BranchHistoryRegister → BranchHistoryRegister
clear r = record r { value = 0 }

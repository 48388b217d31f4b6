-- ===== src/Alu/Compare.antt =====
-- Sums, differences and comparisons of the 64-bit unit, and the word operations.
use qtrvsim.Base.{ℕ, ◌+◌, ◌^◌, ◌<◌, ◌≡◌, refl, Bool, true, false, arith}
use native.Mathlib.Nat.{mod-mod}
use qtrvsim.Alu.{
  AluOp, AluComponent, AluCombinedOp, alu64_operate, alu32_operate, mul32_operate,
  alu_combined_operate, u64, u32,
}

-- SUB undoes ADD, modulo 2 ^ 64, and SLT is SLTU of the operands with their sign bit flipped.
pub alu64_sub_slt :
    (a b : ℕ) (modified : Bool)
    → a < 2 ^ 64
    → b < 2 ^ 64
    → (alu64_operate AluOp.add true (alu64_operate AluOp.add false a b) b ≡ a)
      × (alu64_operate AluOp.slt modified a b
          ≡ alu64_operate AluOp.sltu modified (u64 (a + 2 ^ 63)) (u64 (b + 2 ^ 63)))
unfolding alu64_operate
alu64_sub_slt a b modified ha hb = (omega arith, ground arith)

-- A word operation of the ALU or the multiplier reads the lower words of its operands alone.
pub word_operation_low :
    (op : AluCombinedOp) (modified : Bool) (a b : ℕ)
    → (alu_combined_operate op AluComponent.alu true modified a b
        ≡ alu_combined_operate op AluComponent.alu true modified (u32 a) (u32 b))
      × (alu_combined_operate op AluComponent.mul true modified a b
          ≡ alu_combined_operate op AluComponent.mul true modified (u32 a) (u32 b))
unfolding alu_combined_operate alu32_operate mul32_operate
word_operation_low op modified a b = rw (mod-mod a (2 ^ 32), mod-mod b (2 ^ 32)) (refl, refl)

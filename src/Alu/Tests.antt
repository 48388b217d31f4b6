-- ===== src/Alu/Tests.antt =====
-- Runs of the arithmetic units at fixed operands.
use qtrvsim.Base.{◌+◌, ◌-◌, ◌*◌, ◌^◌, ◌≡◌, refl, arith}
use qtrvsim.Base.Int.{signed, wrap, pos, ◌*ℤ◌}
use qtrvsim.Alu.{AluOp, MulOp, AluCombinedOp, mul64_operate, mulhu64, u64}
use qtrvsim.Alu.Division.{div_rem64}
use qtrvsim.Alu.Product.{mul_words_product}
use qtrvsim.Alu.Fallback.{mulhu64_fallback}
use qtrvsim.Alu.Fallback.Exact.{mulhu64_fallback_lem}

-- -7 / 2 is -3, the remainder -1.
div_minus_seven : mul64_operate MulOp.div (2 ^ 64 - 7) 2 ≡ 2 ^ 64 - 3
unfolding mul64_operate
div_minus_seven = refl

rem_minus_seven : mul64_operate MulOp.rem_op (2 ^ 64 - 7) 2 ≡ 2 ^ 64 - 1
unfolding mul64_operate
rem_minus_seven = refl

div_rem64_example :
    (u64 (
        mul64_operate MulOp.mul (mul64_operate MulOp.div (2 ^ 64 - 7) 2) 2
        + mul64_operate MulOp.rem_op (2 ^ 64 - 7) 2)
      ≡ 2 ^ 64 - 7)
    × (u64 (
          mul64_operate MulOp.mul (mul64_operate MulOp.divu (2 ^ 64 - 7) 2) 2
          + mul64_operate MulOp.remu (2 ^ 64 - 7) 2)
        ≡ 2 ^ 64 - 7)
div_rem64_example = div_rem64 (2 ^ 64 - 7) 2 (omega arith) (omega arith)

mul_words_product_example :
    let low = mul64_operate MulOp.mul (2 ^ 64 - 7) 5 in
    (mul64_operate MulOp.mulh (2 ^ 64 - 7) 5 * 2 ^ 64 + low
      ≡ wrap 128 (signed 64 (2 ^ 64 - 7) *ℤ signed 64 5))
    × (mul64_operate MulOp.mulhsu (2 ^ 64 - 7) 5 * 2 ^ 64 + low
        ≡ wrap 128 (signed 64 (2 ^ 64 - 7) *ℤ pos 5))
    × (mul64_operate MulOp.mulhu (2 ^ 64 - 7) 5 * 2 ^ 64 + low ≡ (2 ^ 64 - 7) * 5)
mul_words_product_example = mul_words_product (2 ^ 64 - 7) 5 (omega arith) (omega arith)

abbrev add_and_mul : AluCombinedOp
add_and_mul = record { alu_op = AluOp.add; mul_op = MulOp.mul }

mulhu64_fallback_example :
    mulhu64_fallback (2 ^ 64 - 1) (2 ^ 64 - 2) ≡ mulhu64 (2 ^ 64 - 1) (2 ^ 64 - 2)
mulhu64_fallback_example =
    mulhu64_fallback_lem (2 ^ 64 - 1) (2 ^ 64 - 2) (omega arith) (omega arith)

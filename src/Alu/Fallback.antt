-- ===== src/Alu/Fallback.antt =====
-- The products of src/common/polyfills/mulh64.h for compilers with no 128-bit integer type.
pub mod Exact
use qtrvsim.Base.{ℕ, ◌+◌, ◌-◌, ◌*◌, ◌/◌, ◌%◌, ◌^◌, ltb, if◌then◌else◌}
use qtrvsim.Base.Int.{signed, wrap, shift_right}
use qtrvsim.Alu.{u64, of_i32}

-- The two 32-bit words of a 64-bit one.
abbrev pub lower : ℕ → ℕ
lower x = x % 2 ^ 32

abbrev pub upper : ℕ → ℕ
upper x = x / 2 ^ 32 % 2 ^ 32

-- `(int32_t)(x >> 32)` as an `int64_t`
abbrev pub signed_upper : ℕ → ℕ
signed_upper x = of_i32 (upper x)

-- `>> 32` of an `int64_t`
unfoldable pub shift_signed : ℕ → ℕ
unfolding shift_right
shift_signed x = wrap 64 (shift_right (signed 64 x) 32)

-- The sum of the schoolbook product's middle part.
abbrev pub middle : ℕ → ℕ → ℕ → ℕ
middle p10 p00 p01 = u64 (p10 + p00 / 2 ^ 32 + p01 % 2 ^ 32)

unfoldable pub mulhu64_fallback : ℕ → ℕ → ℕ
mulhu64_fallback a b =
    let p11 = u64 (upper a * upper b) in
    let p01 = u64 (lower a * upper b) in
    let p10 = u64 (upper a * lower b) in
    let p00 = u64 (lower a * lower b) in u64 (p11 + middle p10 p00 p01 / 2 ^ 32 + p01 / 2 ^ 32)

unfoldable pub mulh64_fallback : ℕ → ℕ → ℕ
mulh64_fallback a b =
    let p11 = u64 (signed_upper a * signed_upper b) in
    let p01 = u64 (lower a * signed_upper b) in
    let p10 = u64 (signed_upper a * lower b) in
    let p00 = u64 (lower a * lower b) in
    u64 (p11 + shift_signed (middle p10 p00 p01) + shift_signed p01)

unfoldable pub mulhsu64_fallback : ℕ → ℕ → ℕ
mulhsu64_fallback a b =
    let p11 = u64 (signed_upper a * upper b) in
    let p01 = u64 (lower a * upper b) in
    let p10 = u64 (signed_upper a * lower b) in
    let p00 = u64 (lower a * lower b) in
    u64 (p11 + shift_signed (middle p10 p00 p01) + p01 / 2 ^ 32)

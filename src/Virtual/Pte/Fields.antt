-- ===== src/Virtual/Pte/Fields.antt =====
-- The accessors of an entry give back what `make` was given.
use qtrvsim.Base.{
  ℕ, ◌+◌, ◌*◌, ◌/◌, ◌%◌, ◌^◌, ◌≤◌, ◌<◌, ◌≡◌, ap, ◌∙◌, Bool, true, false, ◌==◌, if◌then◌else◌, arith,
}
use native.Mathlib.Nat.{mod-mod}
use qtrvsim.Virtual.Pte.{
  PagingMode, Flags, flags_of, ppn_bits, make, v, r, w, x, u, g, a, d, rsw, ppn,
}

abbrev num : Bool → ℕ
num b = if b then 1 else 0

num-le : (b : Bool) → num b ≤ 1
num-le true = omega arith
num-le false = omega arith

num_bit : (b : Bool) (k : ℕ) → (if b then k else 0) ≡ num b * k
num_bit true k = omega arith
num_bit false k = omega arith

num_flag : (b : Bool) (n : ℕ) → n ≡ num b → (n == 1) ≡ b
num_flag true n e = ground arith
num_flag false n e = ground arith

-- The parts of a sum of fields.
fields_lem :
    (b0 b1 b2 b3 b4 b5 b6 b7 s n : ℕ)
    → b0 ≤ 1
    → b1 ≤ 1
    → b2 ≤ 1
    → b3 ≤ 1
    → b4 ≤ 1
    → b5 ≤ 1
    → b6 ≤ 1
    → b7 ≤ 1
    → s < 4
    → let raw =
        b0 * 1
        + b1 * 2
        + b2 * 4
        + b3 * 8
        + b4 * 16
        + b5 * 32
        + b6 * 64
        + b7 * 128
        + s * 256
        + n * 1024 in
      (raw / 1 % 2 ≡ b0)
      × (raw / 2 % 2 ≡ b1)
      × (raw / 4 % 2 ≡ b2)
      × (raw / 8 % 2 ≡ b3)
      × (raw / 16 % 2 ≡ b4)
      × (raw / 32 % 2 ≡ b5)
      × (raw / 64 % 2 ≡ b6)
      × (raw / 128 % 2 ≡ b7)
      × (raw / 256 % 4 ≡ s)
      × (raw / 1024 ≡ n)
fields_lem b0 b1 b2 b3 b4 b5 b6 b7 s n h0 h1 h2 h3 h4 h5 h6 h7 hs = (
  omega arith,
  omega arith,
  omega arith,
  omega arith,
  omega arith,
  omega arith,
  omega arith,
  omega arith,
  omega arith,
  omega arith,
)

-- The sum that `make` gives, with numbers for the flags.
sum_of : PagingMode → Bool → Flags → ℕ → ℕ → ℕ
sum_of mode valid f rsw_ ppn_ =
    num valid * 1
    + num f.readable * 2
    + num f.writable * 4
    + num f.executable * 8
    + num f.user * 16
    + num f.global * 32
    + num f.accessed * 64
    + num f.dirty * 128
    + rsw_ % 4 * 256
    + ppn_ % 2 ^ ppn_bits mode * 1024

make-sum_of :
    (mode : PagingMode) (valid : Bool) (f : Flags) (rsw_ ppn_ : ℕ)
    → make mode valid f rsw_ ppn_ ≡ sum_of mode valid f rsw_ ppn_
unfolding make sum_of
make-sum_of mode valid f rsw_ ppn_ = omega (
  arith,
  num_bit valid (2 ^ 0),
  num_bit f.readable (2 ^ 1),
  num_bit f.writable (2 ^ 2),
  num_bit f.executable (2 ^ 3),
  num_bit f.user (2 ^ 4),
  num_bit f.global (2 ^ 5),
  num_bit f.accessed (2 ^ 6),
  num_bit f.dirty (2 ^ 7),
)

-- The accessors of an entry that was made from flags and numbers give these flags, and the numbers cut to
-- their fields: 2 bits for software and 22 or 44 bits for the page, in both formats.
pub make_fields :
    (mode : PagingMode) (valid : Bool) (f : Flags) (rsw_ ppn_ : ℕ)
    → let raw = make mode valid f rsw_ ppn_ in
      (v raw ≡ valid)
      × (flags_of raw ≡ f)
      × (rsw raw ≡ rsw_ % 2 ^ 2)
      × (ppn mode raw ≡ ppn_ % 2 ^ ppn_bits mode)
unfolding v r w x u g a d rsw ppn sum_of
make_fields mode valid f rsw_ ppn_ =
    let n = ppn_ % 2 ^ ppn_bits mode in
    let (p0, p1, p2, p3, p4, p5, p6, p7, ps, pn) =
      fields_lem (num valid) (num f.readable) (num f.writable) (num f.executable) (num f.user)
        (num f.global) (num f.accessed) (num f.dirty) (rsw_ % 4) n (num-le _) (num-le _) (num-le _)
        (num-le _) (num-le _) (num-le _) (num-le _) (num-le _) (omega arith) in
    let flags : flags_of (sum_of mode valid f rsw_ ppn_) ≡ f = λ i. record {
      readable = num_flag f.readable _ p1 i;
      writable = num_flag f.writable _ p2 i;
      executable = num_flag f.executable _ p3 i;
      user = num_flag f.user _ p4 i;
      global = num_flag f.global _ p5 i;
      accessed = num_flag f.accessed _ p6 i;
      dirty = num_flag f.dirty _ p7 i;
    } in
    rw (make-sum_of mode valid f rsw_ ppn_) (
      num_flag valid _ p0,
      flags,
      ps,
      ap (λ m. m % 2 ^ ppn_bits mode) pn ∙ mod-mod ppn_ (2 ^ ppn_bits mode),
    )

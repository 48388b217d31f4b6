-- ===== src/Registers/Reads.antt =====
-- What is read from the register file after a write and after a reset.
use qtrvsim.Base.{
  ℕ, zero, suc, ◌+◌, ◌≤◌, ◌<◌, ◌≡◌, refl, ap, ◌∙◌, false, Bool-cases, inl, inr, some, length,
  length-set, get_or-set_self, get_or-set_ne, ◌==◌, ==_iff, if◌then◌else◌, arith,
}
use qtrvsim.Registers.{Registers, write_pc, read_gp, write_gp, clear_gp, reset, pc_init, sp_init}

pub length-write_gp : (r : Registers) (i v : ℕ) → length (write_gp r i v).gp ≡ length r.gp
unfolding write_gp
length-write_gp r i v = elim (Bool-cases (i == 0)) [
  | inl z ↦ rw z refl
  | inr nz ↦ rw nz (length-set r.gp i v)
]

-- After a write to one of the 32 registers, the register 0 reads as 0, also where it was written, the
-- written register reads as the value, and every other register as before.
pub read_gp-write_gp :
    (r : Registers) (i j v : ℕ)
    → length r.gp ≡ 32
    → i < 32
    → read_gp (write_gp r i v) j ≡ (if j == 0 then 0 else if i == j then v else read_gp r j)
unfolding read_gp write_gp
read_gp-write_gp r i j v size inside = elim (Bool-cases (j == 0)) [
  | inl z ↦ rw z refl
  | inr nz ↦ elim (Bool-cases (i == j)) [
    | inl hit ↦
        let e = (==_iff i j).0 hit in
        let other : (i == 0) ≡ false = ap (λ (k : ℕ). k == 0) e ∙ nz in
        rw (nz, hit, other, ← e) (get_or-set_self r.gp i v 0 (omega arith))
    | inr miss ↦ elim (Bool-cases (i == 0)) [
      | inl z ↦ rw (nz, miss, z) refl
      | inr other ↦ rw (nz, miss, other) (get_or-set_ne r.gp i j v 0 (λ e. cc ((==_iff i j).1 e)))
    ]
  ]
]

pub read_gp-zero : (r : Registers) → read_gp r 0 ≡ 0
unfolding read_gp
read_gp-zero r = refl

pc-write_gp : (r : Registers) (i v : ℕ) → (write_gp r i v).pc ≡ r.pc
unfolding write_gp
pc-write_gp r i v = ground arith

settled :
    (value i j : ℕ)
    → j < i + 1
    → (j < i → value ≡ 0)
    → (if j == 0 then 0 else if i == j then 0 else value) ≡ 0
settled value i j h before = elim (Bool-cases (i == j)) [
  | inl hit ↦ rw hit (ground arith)
  | inr miss ↦ let e = before (ground arith) in ground arith
]

clear_gp_lem :
    (left i : ℕ) (r : Registers) (j : ℕ)
    → length r.gp ≡ 32
    → i + left ≤ 32
    → j < i + left
    → (j < i → read_gp r j ≡ 0)
    → (read_gp (clear_gp left i r) j ≡ 0)
      × (length (clear_gp left i r).gp ≡ 32)
      × ((clear_gp left i r).pc ≡ r.pc)
unfolding clear_gp
clear_gp_lem zero i r j size fits inside before = (before (omega arith), size, refl)
clear_gp_lem (suc left) i r j size fits inside before =
    let wrote = read_gp-write_gp r i j 0 size (omega arith) in
    let (reads, rows, pc) =
      clear_gp_lem left (i + 1) (write_gp r i 0) j (length-write_gp r i 0 ∙ size) (omega arith)
        (omega arith) (λ h. wrote ∙ settled (read_gp r j) i j h before) in
    (reads, rows, pc ∙ pc-write_gp r i 0)

zero_below : (r : Registers) (j : ℕ) → j < 1 → read_gp r j ≡ 0
zero_below r zero h = read_gp-zero r
zero_below r (suc j) h = absurd (omega arith)

stack_or_zero :
    (j value : ℕ)
    → value ≡ 0
    → (if j == 0 then 0 else if 2 == j then sp_init else value) ≡ (if j == 2 then sp_init else 0)
stack_or_zero j value e = ground arith

-- A reset of a file of 32 registers succeeds: the program counter is the initial one, the register 2 is
-- the initial stack pointer, and every other register is 0.
pub reset_lem :
    (r : Registers) (j : ℕ)
    → length r.gp ≡ 32
    → j < 32
    → (s : Registers) × (reset r ≡ some s)
      × (s.pc ≡ pc_init)
      × (read_gp s j ≡ (if j == 2 then sp_init else 0))
unfolding reset write_pc
reset_lem r j size inside =
    let start : Registers = record r { pc = pc_init } in
    let cleared = clear_gp 31 1 start in
    let (zeros, rows, pc) =
      clear_gp_lem 31 1 start j size (omega arith) inside (λ h. zero_below start j h) in
    (
      write_gp cleared 2 sp_init,
      refl,
      pc-write_gp cleared 2 sp_init ∙ pc,
      read_gp-write_gp cleared 2 j sp_init rows (omega arith)
          ∙ stack_or_zero j (read_gp cleared j) zeros,
    )

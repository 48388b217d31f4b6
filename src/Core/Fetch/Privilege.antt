-- ===== src/Core/Fetch/Privilege.antt =====
-- Which instructions the decode stage refuses at a privilege level.
use qtrvsim.Base.{
  ℕ, ◌+◌, ◌-◌, ◌^◌, ◌<◌, ◌≡◌, refl, ap, ap₂, ◌∙◌, bit_and, bit_or, bit_xor, true, not, ◌==◌, ==_iff,
  Bool-cases, inl, inr, arith,
}
use native.Mathlib.Nat.{zero-div, zero-mod}
use qtrvsim.Csr.Address.{PrivilegeLevel, level_number}
use qtrvsim.Csr.Field.{BitField, decode}
use qtrvsim.Csr.Bits.{decode_lem, decode-or, decode-and, decode-xor, and_zero}
use qtrvsim.Core.State.{CoreState, set_current_privilege, allowed_priv, priv_bits}
use qtrvsim.Core.Fetch.{has_flag, is_illegal}

-- The flag of the instructions that need the level: bit 25, 26 or 27.
abbrev pub flag_of : PrivilegeLevel → ℕ
flag_of level = 24 + level_number level

abbrev bit : ℕ → BitField
bit i = record { count = 1; offset = i }

disallowed_bit :
    (p q : PrivilegeLevel)
    → level_number p < level_number q
    → decode (bit (flag_of q)) (bit_and priv_bits (2 ^ 32 - 1 - allowed_priv p)) ≡ 1
unfolding decode
disallowed_bit PrivilegeLevel.unprivileged PrivilegeLevel.supervisor h = refl
disallowed_bit PrivilegeLevel.unprivileged PrivilegeLevel.hypervisor h = refl
disallowed_bit PrivilegeLevel.unprivileged PrivilegeLevel.machine h = refl
disallowed_bit PrivilegeLevel.supervisor PrivilegeLevel.hypervisor h = refl
disallowed_bit PrivilegeLevel.supervisor PrivilegeLevel.machine h = refl
disallowed_bit PrivilegeLevel.hypervisor PrivilegeLevel.machine h = refl
disallowed_bit _ _ h = absurd (grind arith)

cleared_bit :
    (q : PrivilegeLevel)
    → 0 < level_number q
    → decode (bit (flag_of q)) (2 ^ 32 - 1 - priv_bits) ≡ 0
unfolding decode
cleared_bit PrivilegeLevel.unprivileged h = absurd (omega arith)
cleared_bit PrivilegeLevel.supervisor h = refl
cleared_bit PrivilegeLevel.hypervisor h = refl
cleared_bit PrivilegeLevel.machine h = refl

and_cleared : (f : BitField) (a m : ℕ) → decode f m ≡ 0 → decode f (bit_and a m) ≡ 0
and_cleared f a m e = decode-and f a m ∙ ap (bit_and (decode f a)) e ∙ and_zero (decode f a)

flag-decode : (flags i : ℕ) → has_flag flags i ≡ true → decode (bit i) flags ≡ 1
flag-decode flags i e = decode_lem (bit i) flags ∙ (==_iff _ _).0 e

decode-zero : (f : BitField) → decode f 0 ≡ 0
decode-zero f = decode_lem f 0 ∙ rw (zero-div (2 ^ f.offset)) (zero-mod (2 ^ f.count))

nonzero_word : (f : BitField) (w : ℕ) → decode f w ≡ 1 → not (w == 0) ≡ true
nonzero_word f w e = elim (Bool-cases (w == 0)) [
  | inl z ↦
      let none : decode f w ≡ 0 = ap (decode f) ((==_iff w 0).0 z) ∙ decode-zero f in
      absurd (omega arith)
  | inr nz ↦ rw nz refl
]

module _ {M : Type 0} where
  -- After the core has come to a level, an instruction that needs a higher level is illegal, whatever else
  -- its flags say.
  pub set_current_privilege-illegal :
      (s : CoreState M) (p q : PrivilegeLevel) (flags : ℕ)
      → level_number p < level_number q
      → has_flag flags (flag_of q) ≡ true
      → is_illegal (set_current_privilege p s) flags ≡ true
  unfolding is_illegal set_current_privilege
  set_current_privilege-illegal s p q flags higher flag =
      let t = set_current_privilege p s in
      let f = bit (flag_of q) in
      let clear = cleared_bit q (omega arith) in
      let masked : decode f t.check_inst_flags_mask ≡ 1 =
        decode-or f _ _
        ∙ ap₂ bit_or (and_cleared f s.check_inst_flags_mask _ clear) (disallowed_bit p q higher) in
      let differs : decode f (bit_xor flags t.check_inst_flags_val) ≡ 1 =
        decode-xor f _ _
        ∙ ap₂ bit_xor (flag-decode flags (flag_of q) flag)
            (and_cleared f s.check_inst_flags_val _ clear) in
      let seen : decode f (bit_and (bit_xor flags t.check_inst_flags_val) t.check_inst_flags_mask)
          ≡ 1 =
        decode-and f _ _ ∙ ap₂ bit_and differs masked in
      nonzero_word f _ seen

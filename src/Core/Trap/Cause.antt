-- ===== src/Core/Trap/Cause.antt =====
-- Which register a trap tells its cause.
use qtrvsim.Base.{
  ℕ, ◌≡◌, ◌≢◌, refl, ◌∙◌, Bool, true, false, not, ◌||◌, length, get_or, Bool-cases, inl, inr,
  if◌then◌else◌, arith,
}
use qtrvsim.Csr.Address.{PrivilegeLevel, is_machine, ExceptionCause, cause_number, is_interrupt}
use qtrvsim.Csr.Table.{
  WriteHandler, registers, id_count, id_mcause, id_scause, id_mepc, id_sepc, id_mtval, id_stval,
}
use qtrvsim.Csr.State.{
  ControlState, read_internal, store, write_internal, write_with, no_register, default_value,
  cause_value, update_exception_cause,
}
use qtrvsim.Csr.Status.{read-store_self, read-store_ne, length-store}
use qtrvsim.Core.State.{CoreState}
use qtrvsim.Core.Trap.{TrapAddresses, has_address, update_priv, record_trap}

-- A write to a register with the plain handler is a store, and leaves the other registers alone.
plain_write :
    (s : ControlState) (id j v : ℕ)
    → (get_or registers id no_register).write_handler ≡ WriteHandler.default
    → id ≢ j
    → (read_internal (write_internal s id v) j ≡ read_internal s j)
      × ((length s.register_data ≡ id_count)
          → length (write_internal s id v).register_data ≡ id_count)
unfolding write_internal write_with
plain_write s id j v plain ne =
    let desc = get_or registers id no_register in
    rw plain (
      read-store_ne s id j (default_value s.xlen desc.write_mask (read_internal s id) v) ne,
      length-store s id (default_value s.xlen desc.write_mask (read_internal s id) v),
    )

-- The two writes before the cause.
before_cause :
    (s : ControlState) (to_s : Bool) (epc tval j : ℕ)
    → length s.register_data ≡ id_count
    → id_sepc ≢ j
    → id_mepc ≢ j
    → id_stval ≢ j
    → id_mtval ≢ j
    → let c =
        write_internal
          (write_internal s (if to_s then id_sepc else id_mepc) epc)
          (if to_s then id_stval else id_mtval)
          tval in
      (read_internal c j ≡ read_internal s j) × (length c.register_data ≡ id_count)
before_cause s true epc tval j size se me st mt =
    let (r, l) = plain_write s id_sepc j epc refl se in
    let (r', l') = plain_write (write_internal s id_sepc epc) id_stval j tval refl st in
    (r' ∙ r, l' (l size))
before_cause s false epc tval j size se me st mt =
    let (r, l) = plain_write s id_mepc j epc refl me in
    let (r', l') = plain_write (write_internal s id_mepc epc) id_mtval j tval refl mt in
    (r' ∙ r, l' (l size))

-- Where the cause goes, and the register that keeps its old one.
abbrev cause_id : PrivilegeLevel → ℕ
cause_id level = if is_machine level then id_mcause else id_scause

abbrev kept_id : PrivilegeLevel → ℕ
kept_id level = if is_machine level then id_scause else id_mcause

stored_cause :
    (s : ControlState) (level : PrivilegeLevel) (v : ℕ)
    → length s.register_data ≡ id_count
    → (read_internal (store s (cause_id level) v) (cause_id level) ≡ v)
      × (read_internal (store s (cause_id level) v) (kept_id level)
          ≡ read_internal s (kept_id level))
stored_cause s level v size = elim (Bool-cases (is_machine level)) [
  | inl m ↦ rw m (
    read-store_self s id_mcause v size (omega arith),
    read-store_ne s id_mcause id_scause v (λ e. omega (arith, e)),
  )
  | inr l ↦ rw l (
    read-store_self s id_scause v size (omega arith),
    read-store_ne s id_scause id_mcause v (λ e. omega (arith, e)),
  )
]

apart :
    (level : PrivilegeLevel)
    → (id_sepc ≢ kept_id level)
      × (id_mepc ≢ kept_id level)
      × (id_stval ≢ kept_id level)
      × (id_mtval ≢ kept_id level)
apart level = elim (Bool-cases (is_machine level)) [
  | inl m ↦
      rw m
        (λ e. omega (arith, e), λ e. omega (arith, e), λ e. omega (arith, e), λ e. omega (arith, e))
  | inr l ↦
      rw l
        (λ e. omega (arith, e), λ e. omega (arith, e), λ e. omega (arith, e), λ e. omega (arith, e))
]

module _ {M : Type 0} where
  -- The cause goes to the register of the level that the code works out.
  cause_by_level :
      (count_leading_zero_bits : ℕ → ℕ) (s : CoreState M) (excause : ExceptionCause)
      (a : TrapAddresses) (to_s : Bool)
      → length s.control_state.register_data ≡ id_count
      → is_interrupt excause ≡ false
      → let c = record_trap count_leading_zero_bits s excause a to_s in
        let level = update_priv s to_s in
        (read_internal c (cause_id level) ≡ cause_number excause)
        × (read_internal c (kept_id level) ≡ read_internal s.control_state (kept_id level))
  unfolding record_trap update_exception_cause cause_value
  cause_by_level clz s excause a to_s size sync =
      let level = update_priv s to_s in
      let tval = if has_address excause then a.mem_ref_addr else 0 in
      let (kept, size') =
        before_cause s.control_state to_s a.inst_addr tval (kept_id level) size (apart level).0
          (apart level).1 (apart level).2 (apart level).3 in
      let c1 =
        write_internal
          (write_internal s.control_state (if to_s then id_sepc else id_mepc) a.inst_addr)
          (if to_s then id_stval else id_mtval) tval in
      let (self, other) = stored_cause c1 level (cause_number excause) size' in
      rw sync (self, other ∙ kept)

  -- On a table of the 36 registers, an exception that is no interrupt stores its number in the cause
  -- register of supervisor mode where it is for supervisor mode or came in a lower level than machine
  -- mode, also where the trap is to machine mode, and in the one of machine mode otherwise. The other
  -- cause register keeps its value.
  pub record_trap-cause :
      (count_leading_zero_bits : ℕ → ℕ) (s : CoreState M) (excause : ExceptionCause)
      (a : TrapAddresses) (to_s : Bool)
      → length s.control_state.register_data ≡ id_count
      → is_interrupt excause ≡ false
      → let c = record_trap count_leading_zero_bits s excause a to_s in
        let by_s = to_s || not (is_machine s.current_privilege) in
        let other = if by_s then id_mcause else id_scause in
        (read_internal c (if by_s then id_scause else id_mcause) ≡ cause_number excause)
        × (read_internal c other ≡ read_internal s.control_state other)
  record_trap-cause clz s excause a true size sync = cause_by_level clz s excause a true size sync
  record_trap-cause clz s excause a false size sync =
      let known = cause_by_level clz s excause a false size sync in
      elim (Bool-cases (is_machine s.current_privilege)) [
        | inl m ↦ let k = rw m at known in rw m k
        | inr l ↦ let k = rw l at known in rw l k
      ]

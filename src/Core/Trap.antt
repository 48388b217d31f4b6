-- ===== src/Core/Trap.antt =====
-- `Core::handle_exception`. The handlers that the user of the core registers are an argument, and so is
-- `qCountLeadingZeroBits` on 64 bits.
pub mod Cause
use qtrvsim.Base.{ℕ, ◌/◌, ◌%◌, ◌^◌, Bool, true, false, not, ◌&&◌, ◌||◌, ◌==◌, if◌then◌else◌}
use qtrvsim.Csr.Address.{
  PrivilegeLevel, is_machine, is_supervisor, ExceptionCause, cause_number, is_interrupt,
}
use qtrvsim.Csr.Table.{id_medeleg, id_sepc, id_mepc, id_stval, id_mtval, id_stvec, id_mtvec}
use qtrvsim.Csr.State.{
  ControlState, read_internal, write_internal, update_exception_cause, exception_initiate,
  exception_pc_address,
}
use qtrvsim.Core.Memory.{SimulatorException, Result, ok, throw}
use qtrvsim.Core.State.{
  CoreState, Action, pure, raise, gets, modify, write_pc, set_csr, set_current_privilege,
  empty_range, set_range, ◌>>=◌, ◌>>◌,
}

-- The addresses that go with an exception.
pub record TrapAddresses : Type 0 where
  pub inst_addr : ℕ
  pub next_addr : ℕ
  pub jump_branch_pc : ℕ
  pub mem_ref_addr : ℕ

abbrev pub is_hwbreak : ExceptionCause → Bool
is_hwbreak ExceptionCause.hwbreak = true
is_hwbreak _ = false

-- The causes that keep the address of the access.
abbrev pub has_address : ExceptionCause → Bool
has_address ExceptionCause.insn_page_fault = true
has_address ExceptionCause.load_page_fault = true
has_address ExceptionCause.store_page_fault = true
has_address ExceptionCause.load_misaligned = true
has_address ExceptionCause.store_misaligned = true
has_address ExceptionCause.insn_fault = true
has_address ExceptionCause.load_fault = true
has_address ExceptionCause.store_fault = true
has_address _ = false

abbrev pub is_lower : PrivilegeLevel → Bool
is_lower PrivilegeLevel.supervisor = true
is_lower PrivilegeLevel.unprivileged = true
is_lower _ = false

abbrev pub is_int_s : ExceptionCause → Bool
is_int_s ExceptionCause.int_s = true
is_int_s _ = false

module _ {M : Type 0} where
  unfoldable pub deliver_to_s : CoreState M → ExceptionCause → Bool
  deliver_to_s s excause =
      if is_interrupt excause
      then is_int_s excause
      else is_lower s.current_privilege
        && (read_internal s.control_state id_medeleg / 2 ^ cause_number excause % 2 == 1)

  -- The level whose cause register is written.
  abbrev pub update_priv : CoreState M → Bool → PrivilegeLevel
  update_priv s to_s = if to_s then PrivilegeLevel.supervisor else s.current_privilege

  module _ (count_leading_zero_bits : ℕ → ℕ) where
    -- The registers that tell of the trap.
    unfoldable pub record_trap : CoreState M → ExceptionCause → TrapAddresses → Bool → ControlState
    record_trap s excause a to_s =
        let c0 = write_internal s.control_state (if to_s then id_sepc else id_mepc) a.inst_addr in
        let c1 =
          write_internal c0 (if to_s then id_stval else id_mtval)
            (if has_address excause then a.mem_ref_addr else 0) in
        update_exception_cause count_leading_zero_bits c1 excause (update_priv s to_s)

    abbrev enter_trap : Bool → Action M (Unit {0})
    enter_trap to_s = do
      let target = if to_s then PrivilegeLevel.supervisor else PrivilegeLevel.machine
      modify (λ s.
          set_current_privilege target
            (set_csr (exception_initiate s.control_state s.current_privilege target) s))
      address ← gets (λ s. exception_pc_address s.control_state s.current_privilege)
      write_pc address

    unfoldable pub take_trap : ExceptionCause → TrapAddresses → Action M (Unit {0})
    take_trap excause a s =
        let to_s = deliver_to_s s excause in
        let told = set_csr (record_trap s excause a to_s) s in
        let vector = read_internal told.control_state (if to_s then id_stvec else id_mtvec) in
        if not (vector == 0) && not (s.step_over_exception excause)
        then enter_trap to_s told
        else (ok tt, told)

    module _ (run_handler : ExceptionCause → TrapAddresses → Action M Bool) where
      abbrev deliver : ExceptionCause → TrapAddresses → Action M Bool
      deliver excause a = do
        modify (set_range empty_range)
        take_trap excause a
        run_handler excause a

      abbrev break_first : ExceptionCause → TrapAddresses → Action M Bool
      break_first excause a = do
        write_pc a.inst_addr
        stop ← gets (λ s. s.stop_on_hwbreak)
        if stop then pure true else deliver excause a

      unfoldable pub handle_exception : ExceptionCause → TrapAddresses → Action M Bool
      handle_exception ExceptionCause.insn_illegal a =
          raise SimulatorException.unsupported_instruction
      handle_exception excause a =
          if is_hwbreak excause then break_first excause a else deliver excause a

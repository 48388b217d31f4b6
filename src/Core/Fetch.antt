-- ===== src/Core/Fetch.antt =====
-- `Core::fetch` and `Core::decode`. What src/machine/instruction.cpp says of an instruction word is an
-- argument: its flags, its operations and its immediate value.
pub mod Privilege
use qtrvsim.Base.{
  ℕ, ◌+◌, ◌-◌, ◌*◌, ◌/◌, ◌%◌, ◌^◌, bit_and, bit_or, bit_xor, Bool, true, false, not, ◌&&◌, ◌||◌,
  Option, none, some, List, [], ◌∷◌, ◌==◌, if◌then◌else◌,
}
use qtrvsim.Alu.{AluComponent, AluCombinedOp}
use qtrvsim.Registers.{read_gp}
use qtrvsim.Csr.Address.{Xlen, is_32, PrivilegeLevel, ExceptionCause}
use qtrvsim.Csr.Table.{id_mcycle}
use qtrvsim.Csr.State
use qtrvsim.Csr.State.{ControlState, increment_internal, core_interrupt_request}
use qtrvsim.Predictor.Unit.{predict_next_pc_address}
use qtrvsim.Core.Memory.{
  AccessControl, AccessOp, SimulatorException, Result, ok, throw, FrontendMemory,
}
use qtrvsim.Core.Stage.{FetchInterstage, DecodeInterstage, ForwardFrom, no_fetch, nop}
use qtrvsim.Core.State.{
  CoreState, Action, pure, raise, gets, or_throw, modify, on_memory, access_mode, set_csr,
  imf_priv_s, imf_priv_h, imf_priv_m, ◌>>=◌, ◌>>◌,
}

-- `Instruction::flags_alu_op_mem_ctl` and `Instruction::immediate`, the latter as a register value.
pub record InstructionSet : Type 0 where
  pub flags : ℕ → ℕ
  pub alu_op : ℕ → AluCombinedOp
  pub mem_ctl : ℕ → AccessControl
  pub immediate : ℕ → ℕ

-- The flags of src/machine/instruction.h, by the number of the bit.
abbrev pub has_flag : ℕ → ℕ → Bool
has_flag flags bit = flags / 2 ^ bit % 2 == 1

-- `MASK(len, off)` on an instruction word.
abbrev pub bits_of : ℕ → ℕ → ℕ → ℕ
bits_of len off inst = inst / 2 ^ off % 2 ^ len

abbrev pub is_none : ExceptionCause → Bool
is_none ExceptionCause.none = true
is_none _ = false

abbrev contains_address : List ℕ → ℕ → Bool
contains_address [] a = false
contains_address (b ∷ rest) a = b == a || contains_address rest a

abbrev pub catch_fetch_fault : Result ℕ → Result (ℕ × ExceptionCause)
catch_fetch_fault (ok inst) = ok (inst, ExceptionCause.none)
catch_fetch_fault (throw (SimulatorException.page_fault cause)) =
    ok (nop, ExceptionCause.insn_page_fault)
catch_fetch_fault (throw e) = throw e

module _ {M : Type 0} (memory : FrontendMemory M) where
  abbrev pub fetch_inst : ℕ → Action M (ℕ × ExceptionCause)
  fetch_inst address s =
      let (result, m) = memory.read_program s.memory address (access_mode AccessOp.fetch s) 4 in
      (catch_fetch_fault result, record s { memory = m })

  abbrev pub count_cycle : CoreState M → CoreState M
  count_cycle s = set_csr (increment_internal s.control_state id_mcycle 1) s

  -- The cause after the breakpoints and the interrupts.
  abbrev fetch_cause : Bool → CoreState M → ℕ → ExceptionCause → ExceptionCause
  fetch_cause skip_break s address cause =
      let broken =
        if not skip_break && contains_address s.hw_breaks address
        then ExceptionCause.hwbreak
        else cause in
      if is_none broken then core_interrupt_request s.control_state s.current_privilege else broken

  abbrev pub fetched : Bool → ℕ → ℕ × ExceptionCause → CoreState M → FetchInterstage
  fetched skip_break address (inst, cause) s = record {
    inst = inst;
    inst_addr = address;
    next_inst_addr = (address + 4) % 2 ^ 64;
    predicted_next_inst_addr = predict_next_pc_address s.predictor address;
    excause = fetch_cause skip_break s address cause;
    is_valid = true;
  }

  abbrev pub fetch_running : Bool → Action M FetchInterstage
  fetch_running skip_break s =
      (fetch_inst s.regs.pc >>= λ read.
      modify count_cycle >> gets (fetched skip_break s.regs.pc read))
        s

  unfoldable pub fetch : Bool → Bool → Action M FetchInterstage
  fetch stop_if skip_break s = if stop_if then (ok no_fetch, s) else fetch_running skip_break s

abbrev xret_level : ℕ → PrivilegeLevel
xret_level flags =
    if not (has_flag flags 18)
    then PrivilegeLevel.unprivileged
    else if has_flag flags 27
    then PrivilegeLevel.machine
    else if has_flag flags 26
    then PrivilegeLevel.hypervisor
    else if has_flag flags 25
    then PrivilegeLevel.supervisor
    else PrivilegeLevel.unprivileged

abbrev ecall_cause : PrivilegeLevel → ExceptionCause
ecall_cause PrivilegeLevel.unprivileged = ExceptionCause.ecall_u
ecall_cause PrivilegeLevel.supervisor = ExceptionCause.ecall_s
ecall_cause _ = ExceptionCause.ecall_m

module _ {M : Type 0} where
  -- `(flags ^ check_inst_flags_val) & check_inst_flags_mask`
  unfoldable pub is_illegal : CoreState M → ℕ → Bool
  is_illegal s flags =
      not (bit_and (bit_xor flags s.check_inst_flags_val) s.check_inst_flags_mask == 0)

  abbrev decode_cause : CoreState M → ℕ → ExceptionCause → ExceptionCause
  decode_cause s flags fetch_cause =
      let cause = if is_illegal s flags then ExceptionCause.insn_illegal else fetch_cause in
      if has_flag flags 12 && is_none cause
      then if has_flag flags 17
        then ExceptionCause.break
        else if has_flag flags 16
        then ecall_cause s.current_privilege
        else cause
      else cause

  -- The value of a control register, where the instruction reads one.
  abbrev pub read_csr : ℕ → ℕ → Action M ℕ
  read_csr flags inst s =
      if has_flag flags 20
      then or_throw SimulatorException.unsupported_instruction
          (State.read s.control_state (bits_of 12 20 inst) s.current_privilege) s
      else (ok 0, s)

module _ {M : Type 0} (isa : InstructionSet) where
  abbrev pub decoded : FetchInterstage → ℕ → CoreState M → DecodeInterstage
  decoded dt csr_read_val s =
      let flags = isa.flags dt.inst in
      let num_rs = if has_flag flags 6 || has_flag flags 22 then bits_of 5 15 dt.inst else 0 in
      let num_rt = if has_flag flags 7 then bits_of 5 20 dt.inst else 0 in
      let num_rd = if has_flag flags 4 then bits_of 5 7 dt.inst else 0 in
      record {
        inst = dt.inst;
        inst_addr = dt.inst_addr;
        next_inst_addr = dt.next_inst_addr;
        predicted_next_inst_addr = dt.predicted_next_inst_addr;
        val_rs = if has_flag flags 22 then num_rs else read_gp s.regs num_rs;
        val_rt = read_gp s.regs num_rt;
        immediate_val = isa.immediate dt.inst;
        csr_read_val = csr_read_val;
        csr_address = if has_flag flags 20 then bits_of 12 20 dt.inst else 0;
        excause = decode_cause s flags dt.excause;
        ff_rs = ForwardFrom.none;
        ff_rt = ForwardFrom.none;
        alu_component =
            if has_flag flags 23
            then AluComponent.pass
            else if has_flag flags 19
            then AluComponent.mul
            else AluComponent.alu;
        aluop = isa.alu_op dt.inst;
        memctl = isa.mem_ctl dt.inst;
        num_rs = num_rs;
        num_rt = num_rt;
        num_rd = num_rd;
        memread = has_flag flags 2;
        memwrite = has_flag flags 1;
        alusrc = has_flag flags 3;
        regwrite = has_flag flags 4;
        alu_req_rs = has_flag flags 6;
        alu_req_rt = has_flag flags 7;
        branch_bxx = has_flag flags 8;
        branch_jal = has_flag flags 9;
        branch_val = has_flag flags 10;
        branch_jalr = has_flag flags 11;
        stall = false;
        is_valid = dt.is_valid;
        w_operation = is_32 s.xlen || has_flag flags 15;
        alu_mod = has_flag flags 13;
        alu_pc = has_flag flags 14;
        csr = has_flag flags 20;
        csr_to_alu = has_flag flags 21;
        csr_write = has_flag flags 20 && (not (has_flag flags 21) || not (num_rs == 0));
        xret = has_flag flags 18;
        xret_privlev = xret_level flags;
        insert_stall_before = has_flag flags 20;
        amo = has_flag flags 23;
      }

  unfoldable pub decode : FetchInterstage → Action M DecodeInterstage
  decode dt =
      read_csr (isa.flags dt.inst) dt.inst >>= λ csr_read_val. gets (decoded dt csr_read_val)

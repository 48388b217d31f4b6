-- ===== src/Core/Access.antt =====
-- `Core::memory`, `Core::compute_next_inst_addr` and `Core::writeback`.
pub mod Fault
pub mod Kept
use qtrvsim.Base.{
  ℕ, ◌+◌, ◌%◌, ◌^◌, Bool, true, false, not, ◌&&◌, ◌||◌, Option, none, some, ◌==◌, if◌then◌else◌,
}
use qtrvsim.Registers.{write_gp}
use qtrvsim.Csr.Address.{Xlen, is_32, PrivilegeLevel, is_machine, ExceptionCause}
use qtrvsim.Csr.Table.{id_minstret, id_mepc, id_sepc}
use qtrvsim.Csr.State
use qtrvsim.Csr.State.{ControlState, increment_internal, read_internal, exception_return}
use qtrvsim.Predictor.Types.{BranchType, BranchResult}
use qtrvsim.Predictor.Unit
use qtrvsim.Core.Memory.{
  AccessControl, AccessMode, AccessOp, is_regular_access, SimulatorException, Result, ok, throw,
  FrontendMemory, read_ctl, write_ctl,
}
use qtrvsim.Core.Stage.{ExecuteInterstage, MemoryInterstage}
use qtrvsim.Core.State.{
  CoreState, Action, pure, raise, gets, or_throw, modify, when, on_memory, access_mode, set_csr,
  set_predictor, set_range, set_current_privilege, get_xlen_from_reg, empty_range, ◌>>=◌, ◌>>◌,
}
use qtrvsim.Core.Atomic.{memory_special}
use qtrvsim.Core.Fetch.{is_none}

-- Exclusive or of two truth values.
abbrev pub differ_bool : Bool → Bool → Bool
differ_bool true b = not b
differ_bool false b = b

unfoldable pub branch_taken : ExecuteInterstage → Bool
branch_taken dt = dt.branch_bxx && differ_bool (not dt.branch_val) (not dt.alu_zero)

-- What the access does to the stage: the value to write, the cause, and the three controls.
pub record AccessResult : Type 0 where
  pub towrite_val : ℕ
  pub excause : ExceptionCause
  pub memread : Bool
  pub memwrite : Bool
  pub regwrite : Bool

abbrev pub no_access : ExecuteInterstage → AccessResult
no_access dt = record {
  towrite_val = dt.alu_val;
  excause = dt.excause;
  memread = false;
  memwrite = false;
  regwrite = false;
}

abbrev pub value_to_write : ExecuteInterstage → ℕ → ℕ
value_to_write dt towrite =
    if dt.csr
    then dt.csr_read_val
    else if dt.branch_jalr || dt.branch_jal
    then dt.next_inst_addr
    else towrite

abbrev pub memory_interstage : ExecuteInterstage → ℕ → AccessResult → ℕ × Bool → MemoryInterstage
memory_interstage dt mem_addr r (next, csr_written) = record {
  inst = dt.inst;
  inst_addr = dt.inst_addr;
  next_inst_addr = dt.next_inst_addr;
  predicted_next_inst_addr = dt.predicted_next_inst_addr;
  computed_next_inst_addr = next;
  mem_addr = mem_addr;
  towrite_val = value_to_write dt r.towrite_val;
  excause = r.excause;
  num_rd = dt.num_rd;
  memtoreg = r.memread;
  regwrite = r.regwrite;
  is_valid = dt.is_valid;
  csr_written = csr_written;
  xret_privlev = dt.xret_privlev;
}

module _ {M : Type 0} where
  unfoldable pub compute_next_inst_addr : CoreState M → ExecuteInterstage → Bool → ℕ
  compute_next_inst_addr s exec taken =
      if taken || exec.branch_jal
      then exec.branch_jal_target
      else if exec.branch_jalr
      then get_xlen_from_reg s exec.alu_val
      else exec.next_inst_addr

  abbrev pub catch_page_fault :
      ExecuteInterstage → Result ℕ × CoreState M → Result AccessResult × CoreState M
  catch_page_fault dt (ok value, s) = (
    ok (record {
      towrite_val = value;
      excause = ExceptionCause.none;
      memread = dt.memread;
      memwrite = dt.memwrite;
      regwrite = dt.regwrite;
    }),
    s,
  )
  catch_page_fault dt (throw (SimulatorException.page_fault cause), s) = (
    ok (record {
      towrite_val = 0;
      excause = cause;
      memread = false;
      memwrite = false;
      regwrite = false;
    }),
    s,
  )
  catch_page_fault dt (throw e, s) = (throw e, s)

  -- The result that the predictor is told.
  unfoldable pub update_predictor : ExecuteInterstage → CoreState M → CoreState M
  update_predictor dt s =
      let tell = Unit.update s.predictor dt.inst_addr in
      let jump = tell dt.branch_jal_target BranchType.jump BranchResult.taken in
      let jump_register =
        tell (get_xlen_from_reg s dt.alu_val) BranchType.jump BranchResult.taken in
      let branch =
        tell dt.branch_jal_target BranchType.branch
          (if branch_taken dt then BranchResult.taken else BranchResult.not_taken) in
      if dt.branch_jal
      then set_predictor jump s
      else if dt.branch_jalr
      then set_predictor jump_register s
      else if dt.branch_bxx
      then set_predictor branch s
      else s

  abbrev pub write_csr : ExecuteInterstage → Action M (Unit {0})
  write_csr dt s =
      (or_throw SimulatorException.unsupported_instruction
            (State.write s.control_state dt.csr_address dt.alu_val s.current_privilege)
          >>= λ c. modify (set_csr c))
        s

  -- The address to go on from, after a return from a trap.
  abbrev pub return_from_trap : ExecuteInterstage → Action M ℕ
  return_from_trap dt s =
      let (c, restored) = exception_return s.control_state s.current_privilege dt.xret_privlev in
      let epc = read_internal c (if is_machine dt.xret_privlev then id_mepc else id_sepc) in
      (
        ok (if is_32 s.xlen then epc % 2 ^ 32 else epc),
        set_range empty_range (set_current_privilege restored (set_csr c s)),
      )

  abbrev pub retire : ExecuteInterstage → ℕ → Action M (ℕ × Bool)
  retire dt next = do
    modify (λ s. set_csr (increment_internal s.control_state id_minstret 1) s)
    when dt.csr_write (write_csr dt)
    (if dt.xret
        then (return_from_trap dt >>= λ epc. pure (epc, true))
        else pure (next, dt.csr_write))

  abbrev pub count_misprediction : ExecuteInterstage → ℕ → CoreState M → CoreState M
  count_misprediction dt next s =
      if next == dt.predicted_next_inst_addr
      then s
      else set_predictor (Unit.increment_mispredictions s.predictor) s

  -- The stage from the result of the access on.
  abbrev pub finish_access : ExecuteInterstage → ℕ → AccessResult → Action M MemoryInterstage
  finish_access dt address r = do
    computed ← gets (λ s. compute_next_inst_addr s dt (branch_taken dt))
    modify (update_predictor dt)
    outcome ←
        (if dt.is_valid && is_none dt.excause then retire dt computed else pure (computed, false))
    modify (count_misprediction dt outcome.0)
    pure (memory_interstage dt address r outcome)

module _ {M : Type 0} (memory_ops : FrontendMemory M) where
  -- A regular access writes, then reads; an access of no kind does nothing.
  abbrev pub regular_access : ExecuteInterstage → ℕ → AccessMode → Action M ℕ
  regular_access dt address mode = do
    when dt.memwrite (on_memory (λ m. write_ctl memory_ops m dt.memctl address mode dt.val_rt))
    (if dt.memread
        then on_memory (λ m. read_ctl memory_ops m dt.memctl address mode)
        else pure dt.alu_val)

  unfoldable pub access : ExecuteInterstage → ℕ → AccessMode → Action M ℕ
  access dt address mode =
      if is_regular_access dt.memctl
      then regular_access dt address mode
      else memory_special memory_ops dt.memctl dt.memread dt.memwrite dt.alu_val dt.val_rt address
          mode

  abbrev pub try_access : ExecuteInterstage → Action M AccessResult
  try_access dt s =
      let op = if dt.memwrite || dt.amo then AccessOp.write else AccessOp.read in
      if is_none dt.excause
      then catch_page_fault dt (access dt (get_xlen_from_reg s dt.alu_val) (access_mode op s) s)
      else (ok (no_access dt), s)

  unfoldable pub memory_stage : ExecuteInterstage → Action M MemoryInterstage
  memory_stage dt s = (try_access dt >>= finish_access dt (get_xlen_from_reg s dt.alu_val)) s

module _ {M : Type 0} where
  unfoldable pub writeback : MemoryInterstage → CoreState M → CoreState M
  writeback dt s =
      if dt.regwrite then record s { regs = write_gp s.regs dt.num_rd dt.towrite_val } else s

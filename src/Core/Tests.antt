-- ===== src/Core/Tests.antt =====
-- Runs of the core, on a memory of one cell, and on one where every access faults.
use qtrvsim.Base.{
  ℕ, ◌+◌, ◌^◌, ◌≡◌, refl, Bool, true, false, not, ◌&&◌, [], replicate, length, arith,
}
use qtrvsim.Alu.{AluOp, MulOp}
use qtrvsim.Registers.{Registers, read_gp}
use qtrvsim.Csr.Address.{Xlen, PrivilegeLevel, ExceptionCause}
use qtrvsim.Csr.Table.{id_count, id_minstret, id_mcause, id_scause}
use qtrvsim.Csr.State
use qtrvsim.Csr.State.{ControlState, store, read_internal, increment_internal}
use qtrvsim.Predictor.Types.{PredictorType, PredictorState}
use qtrvsim.Predictor.Stats.{no_statistics}
use qtrvsim.Predictor.Unit.{BranchPredictor}
use qtrvsim.Core.Memory.{
  AccessControl, AccessMode, AccessOp, SimulatorException, ok, throw, FrontendMemory, read_ctl,
}
use qtrvsim.Core.Stage.{
  FetchInterstage, DecodeInterstage, ExecuteInterstage, MemoryInterstage, no_fetch, no_decode,
  no_execute, no_memory,
}
use qtrvsim.Core.State.{CoreState, Action, empty_range, set_current_privilege, ◌>>◌}
use qtrvsim.Core.Atomic.{load_reserved, store_conditional}
use qtrvsim.Core.Atomic.Reserve.{released, store_conditional-load_reserved}
use qtrvsim.Core.Fetch.{InstructionSet, fetch, decode, is_illegal, is_none}
use qtrvsim.Core.Fetch.Privilege.{set_current_privilege-illegal}
use qtrvsim.Core.Access.{
  access, memory_stage, writeback, value_to_write, compute_next_inst_addr, branch_taken,
  update_predictor,
}
use qtrvsim.Core.Access.Fault.{stage_access, page_fault_lem}
use qtrvsim.Core.Trap.{TrapAddresses, record_trap}
use qtrvsim.Core.Trap.Cause.{record_trap-cause}
use qtrvsim.Core.Hazard.{
  HazardUnit, is_hazard_in_stage, handle_data_hazards, handle_mem_wb, handle_ex_mem,
}
use qtrvsim.Core.Hazard.Forward.{operand, written, operands_lem}
use qtrvsim.Core.Hazard.Stalls.{link_not_forwarded}
use qtrvsim.Core.Step.{flush_before_exception, handle_stall, run_stages, pipelined_step}
use qtrvsim.Core.Step.Progress.{moves_on, stall_ends}
use qtrvsim.Core.Step.Pipeline.{IsPrecise, flush_before_exception-IsPrecise}

abbrev one_cell : FrontendMemory ℕ
one_cell = record {
  read_program = λ m a mode n. (ok m, m);
  read_data = λ m a mode n. (ok m, m);
  write_data = λ m a mode n v. (ok tt, v);
  sync_program = λ m. m;
  sync_data = λ m. m;
  sfence_program = λ m v a. m;
  sfence_data = λ m v a. m;
}

abbrev faulting : FrontendMemory ℕ
faulting = record one_cell {
  read_data =
      λ m a mode n. (throw (SimulatorException.page_fault ExceptionCause.load_page_fault), m);
}

abbrev idle_unit : BranchPredictor
idle_unit = record {
  enabled = false;
  total_stats = no_statistics;
  predictor = record {
    kind = PredictorType.always_not_taken;
    number_of_bht_addr_bits = 0;
    number_of_bht_bits = 0;
    initial_state = PredictorState.undefined;
    stats = no_statistics;
    bht = [];
  };
  bhr = record { number_of_bits = 0; register_mask = 0; value = 0 };
  btb = record { number_of_bits = 0; btb = [] };
  initial_state = PredictorState.undefined;
  number_of_btb_bits = 0;
  number_of_bhr_bits = 0;
  number_of_bht_addr_bits = 0;
  number_of_bht_bits = 0;
}

abbrev sevens : Registers
sevens = record { pc = 0x200; gp = replicate 32 7 }

abbrev start : CoreState ℕ
start = record {
  memory = 41;
  regs = sevens;
  control_state = State.reset Xlen.xlen_32;
  predictor = idle_unit;
  load_reserved_range = empty_range;
  stall_count = 0;
  cycle_count = 0;
  current_privilege = PrivilegeLevel.unprivileged;
  current_asid = 0;
  xlen = Xlen.xlen_32;
  check_inst_flags_val = 1;
  check_inst_flags_mask = 1;
  stop_on_hwbreak = true;
  step_over_exception = λ cause. true;
  hw_breaks = [];
  stop_if = false;
  if_id = no_fetch;
  id_ex = no_decode;
  ex_mem = no_execute;
  mem_wb = no_memory;
  prev_inst_addr = 0;
}

abbrev mode : AccessMode
mode = record { asid = 0; priv = PrivilegeLevel.unprivileged; op = AccessOp.write }

-- Two writers ahead, to the registers 5 and 6, and an instruction that requires both.
abbrev writes_5 : MemoryInterstage
writes_5 = record no_memory { regwrite = true; num_rd = 5; towrite_val = 50 }

abbrev writes_6 : ExecuteInterstage
writes_6 = record no_execute { regwrite = true; num_rd = 6; alu_val = 60 }

abbrev reads_both : DecodeInterstage
reads_both = record no_decode {
  alu_req_rs = true;
  alu_req_rt = true;
  num_rs = 5;
  num_rt = 6;
  val_rs = 7;
  val_rt = 7;
}

reads_5 : 7 ≡ operand sevens true 5 7
unfolding read_gp
reads_5 = refl

reads_6 : 7 ≡ operand sevens true 6 7
unfolding read_gp
reads_6 = refl

no_stall : (handle_data_hazards HazardUnit.stall_forward writes_5 writes_6 reads_both).0 ≡ false
unfolding handle_data_hazards handle_mem_wb handle_ex_mem is_hazard_in_stage
no_stall = refl

operands_example :
    let f = (handle_data_hazards HazardUnit.stall_forward writes_5 writes_6 reads_both).1 in
    let after = written (written sevens true 5 50) true 6 60 in
    (f.val_rs ≡ operand after true 5 7) × (f.val_rt ≡ operand after true 6 7)
operands_example =
    operands_lem HazardUnit.stall_forward sevens writes_5 writes_6 reads_both refl (omega arith)
      (omega arith) reads_5 reads_6 no_stall

abbrev jump : ExecuteInterstage
jump = record no_execute {
  regwrite = true;
  branch_jal = true;
  num_rd = 5;
  alu_val = 0x300;
  next_inst_addr = 0x204;
}

link_not_forwarded_example :
    ((handle_data_hazards HazardUnit.stall_forward no_memory jump reads_both).1.val_rs ≡ 0x300)
    × (value_to_write jump 0 ≡ 0x204)
link_not_forwarded_example =
    link_not_forwarded no_memory jump reads_both 0 refl refl refl refl (λ e. omega (arith, e)) refl
      refl

abbrev faulty : CoreState ℕ
faulty = record start { ex_mem = record no_execute { excause = ExceptionCause.break } }

flush_before_exception-IsPrecise_example :
    let (in_progress, t) = flush_before_exception faulty in
    IsPrecise t
    × (in_progress
        ≡ not (is_none t.mem_wb.excause && is_none t.ex_mem.excause && is_none t.id_ex.excause))
    × (t ≡ record faulty { id_ex = no_decode; if_id = no_fetch })
flush_before_exception-IsPrecise_example = flush_before_exception-IsPrecise faulty

-- A return from a trap in machine mode, seen in user mode.
set_current_privilege-illegal_example :
    is_illegal (set_current_privilege PrivilegeLevel.unprivileged start) (2 ^ 27 + 1) ≡ true
set_current_privilege-illegal_example =
    set_current_privilege-illegal start PrivilegeLevel.unprivileged PrivilegeLevel.machine
      (2 ^ 27 + 1) (omega arith) refl

start-size : length start.control_state.register_data ≡ id_count
unfolding State.reset store read_internal
start-size = refl

abbrev somewhere : TrapAddresses
somewhere = record { inst_addr = 0x200; next_addr = 0x204; jump_branch_pc = 0; mem_ref_addr = 0 }

record_trap-cause_example :
    let c = record_trap (λ n. 63) start ExceptionCause.ecall_u somewhere false in
    (read_internal c id_scause ≡ 8)
    × (read_internal c id_mcause ≡ read_internal start.control_state id_mcause)
record_trap-cause_example =
    record_trap-cause (λ n. 63) start ExceptionCause.ecall_u somewhere false start-size refl

store_conditional-load_reserved_example :
    ((load_reserved one_cell 32 0x100 mode >> store_conditional one_cell 32 9 0x100 mode) start
      ≡ (ok 0, released 9 start))
    × (store_conditional one_cell 32 8 0x100 mode (released 9 start) ≡ (ok 1, released 9 start))
store_conditional-load_reserved_example =
    store_conditional-load_reserved one_cell 32 0x100 0x100 9 8 41 mode 41 9 start refl refl
      (omega arith)

abbrev loads : ExecuteInterstage
loads = record no_execute {
  memread = true;
  regwrite = true;
  num_rd = 5;
  alu_val = 0x100;
  is_valid = true;
  memctl = AccessControl.i32;
}

load_faults :
    stage_access faulting loads start
    ≡ (throw (SimulatorException.page_fault ExceptionCause.load_page_fault), start)
unfolding access read_ctl
load_faults = refl

page_fault_example :
    (m : MemoryInterstage) × (u : CoreState ℕ) × (memory_stage faulting loads start ≡ (ok m, u))
    × (m.excause ≡ ExceptionCause.load_page_fault)
    × (writeback m u ≡ u)
    × (u.regs ≡ sevens)
    × (u.memory ≡ 41)
    × (u.control_state ≡ increment_internal start.control_state id_minstret 1)
page_fault_example =
    page_fault_lem faulting loads start start ExceptionCause.load_page_fault refl refl refl refl
      load_faults

-- A load in the memory stage, and the instruction that waits for it in the fetch stage.
abbrev loading : CoreState ℕ
loading = record start { ex_mem = loads }

abbrev held : FetchInterstage
held = record no_fetch { inst = 0x006283b3; inst_addr = 0x204; is_valid = true }

-- Every word is an addition of two registers.
abbrev additions : InstructionSet
additions = record {
  flags = λ inst. 0xd1;
  alu_op = λ inst. record { alu_op = AluOp.add; mul_op = MulOp.mul };
  mem_ctl = λ inst. AccessControl.none;
  immediate = λ inst. 0;
}

abbrev no_handler : ExceptionCause → TrapAddresses → Action ℕ Bool
no_handler cause a s = (ok false, s)

stages_run :
    (run_stages (λ n. 63) no_handler one_cell additions false (handle_stall held loading)).0 ≡ ok tt
unfolding run_stages memory_stage access read_ctl decode fetch handle_stall writeback
    compute_next_inst_addr branch_taken update_predictor
stages_run = refl

stages_calm :
    let ran =
      run_stages (λ n. 63) no_handler one_cell additions false (handle_stall held loading) in
    is_none ran.1.mem_wb.excause ≡ true
unfolding run_stages memory_stage access read_ctl decode fetch handle_stall writeback
    compute_next_inst_addr branch_taken update_predictor
stages_calm = refl

stall_ends_example :
    let s = handle_stall held loading in
    let after =
      pipelined_step (λ n. 63) no_handler one_cell additions HazardUnit.stall_forward false s in
    (after ≡ moves_on (run_stages (λ n. 63) no_handler one_cell additions false s).1)
    × (after.1.stall_count ≡ 1)
stall_ends_example =
    stall_ends (λ n. 63) no_handler one_cell additions false held loading stages_run stages_calm

-- ===== src/Core/Step.antt =====
-- The steps of the two cores: `CoreSingle::do_step`, `CorePipelined::do_step`, `Core::step` and the resets.
pub mod Pipeline
pub mod Stages
pub mod Progress
use qtrvsim.Base.{ℕ, ◌+◌, ◌%◌, ◌^◌, Bool, true, false, not, ◌&&◌, ◌||◌, ◌==◌, if◌then◌else◌}
use qtrvsim.Csr.Address.{PrivilegeLevel, ExceptionCause}
use qtrvsim.Core.Memory.{Result, ok, throw, FrontendMemory}
use qtrvsim.Core.Stage.{
  FetchInterstage, DecodeInterstage, ExecuteInterstage, MemoryInterstage, no_fetch, no_decode,
  no_execute, no_memory,
}
use qtrvsim.Core.State.{
  CoreState, Action, pure, gets, modify, write_pc, set_current_privilege, set_range, empty_range,
  ◌>>=◌, ◌>>◌,
}
use qtrvsim.Core.Fetch.{InstructionSet, is_none, fetch, decode}
use qtrvsim.Core.Execute.{execute}
use qtrvsim.Core.Access.{memory_stage, writeback}
use qtrvsim.Core.Trap.{TrapAddresses, handle_exception}
use qtrvsim.Core.Hazard.{
  HazardUnit, handle_data_hazards, detect_mispredicted_jump, is_stall_requested,
}

abbrev trap_addresses : ℕ → ℕ → MemoryInterstage → TrapAddresses
trap_addresses next jump_branch_pc mem_wb = record {
  inst_addr = mem_wb.inst_addr;
  next_addr = next;
  jump_branch_pc = jump_branch_pc;
  mem_ref_addr = mem_wb.mem_addr;
}

module _ {M : Type 0} where
  -- The stages after an exception: each that stands before it is flushed.
  abbrev pub flush_ex_mem : CoreState M → CoreState M
  flush_ex_mem s = if is_none s.mem_wb.excause then s else record s { ex_mem = no_execute }

  abbrev flush_id_ex : Bool → CoreState M → CoreState M
  flush_id_ex in_progress s = if in_progress then record s { id_ex = no_decode } else s

  abbrev flush_if_id : Bool → CoreState M → CoreState M
  flush_if_id in_progress s = if in_progress then record s { if_id = no_fetch } else s

  unfoldable pub flush_before_exception : CoreState M → Bool × CoreState M
  flush_before_exception s =
      let a = flush_ex_mem s in
      let late = not (is_none a.mem_wb.excause) || not (is_none a.ex_mem.excause) in
      let b = flush_id_ex late a in
      let in_progress = late || not (is_none b.id_ex.excause) in
      (in_progress, flush_if_id in_progress b)

  unfoldable pub detect_hazards : HazardUnit → CoreState M → Bool × CoreState M
  detect_hazards HazardUnit.none s = (false, s)
  detect_hazards unit s =
      let (stall, id_ex) = handle_data_hazards unit s.mem_wb s.ex_mem s.id_ex in
      (stall, record s { id_ex = id_ex })

  unfoldable pub flush_and_continue_from_address : ℕ → Action M (Unit {0})
  flush_and_continue_from_address next_pc = do
    write_pc next_pc
    modify (λ s. record s { if_id = no_fetch; id_ex = no_decode; ex_mem = no_execute })

  unfoldable pub handle_stall : FetchInterstage → CoreState M → CoreState M
  handle_stall saved_if_id s = record s {
    if_id = saved_if_id;
    id_ex = record no_decode { stall = true };
    stall_count = (s.stall_count + 1) % 2 ^ 32;
  }

  module _ (clz : ℕ → ℕ) (run_handler : ExceptionCause → TrapAddresses → Action M Bool) where
    abbrev pub trap : ℕ → ℕ → MemoryInterstage → Action M (Unit {0})
    trap next jump_branch_pc mem_wb = do
      handle_exception clz run_handler mem_wb.excause (trap_addresses next jump_branch_pc mem_wb)
      pure tt

    -- The end of a step of the single-cycle core.
    abbrev finish_single : CoreState M → Result (Unit {0}) × CoreState M
    finish_single s =
        if is_none s.mem_wb.excause
        then (ok tt, record s { prev_inst_addr = s.mem_wb.inst_addr })
        else trap s.regs.pc s.prev_inst_addr s.mem_wb s

    -- The pseudo stage of the program counter.
    unfoldable pub next_pc : ℕ → FetchInterstage → Bool → Bool → Action M (Unit {0})
    next_pc jump_branch_pc saved_if_id in_progress stall s =
        if not (is_none s.mem_wb.excause)
        then (write_pc s.mem_wb.computed_next_inst_addr
              >> trap s.mem_wb.computed_next_inst_addr jump_branch_pc s.mem_wb)
            s
        else if detect_mispredicted_jump s.mem_wb || s.mem_wb.csr_written
        then flush_and_continue_from_address s.mem_wb.computed_next_inst_addr s
        else if in_progress
        then (ok tt, record s { stop_if = true })
        else if stall || is_stall_requested s.id_ex s.ex_mem
        then (ok tt, handle_stall saved_if_id s)
        else write_pc s.if_id.predicted_next_inst_addr s

    module _ (memory_ops : FrontendMemory M) (isa : InstructionSet) where
      unfoldable pub single_step : Bool → Action M (Unit {0})
      single_step skip_break = do
        stop_if ← gets (λ s. s.stop_if)
        fetched ← fetch memory_ops stop_if skip_break
        modify (λ s. record s { if_id = fetched })
        decoded ← decode isa fetched
        modify (λ s. record s { id_ex = decoded })
        let executed = execute decoded
        modify (λ s. record s { ex_mem = executed })
        accessed ← memory_stage memory_ops executed
        modify (λ s. writeback accessed (record s { mem_wb = accessed }))
        write_pc accessed.computed_next_inst_addr
        finish_single

      -- The stages, the last one first: each reads what the step before left in front of it.
      unfoldable pub run_stages : Bool → Action M (Unit {0})
      run_stages skip_break = do
        modify (λ s. writeback s.mem_wb s)
        ex_mem ← gets (λ s. s.ex_mem)
        accessed ← memory_stage memory_ops ex_mem
        modify (λ s. record s { mem_wb = accessed; ex_mem = execute s.id_ex })
        if_id ← gets (λ s. s.if_id)
        decoded ← decode isa if_id
        modify (λ s. record s { id_ex = decoded })
        stop_if ← gets (λ s. s.stop_if)
        fetched ← fetch memory_ops stop_if skip_break
        modify (λ s. record s { if_id = fetched })

      -- The step after the stages.
      unfoldable pub finish_pipelined :
          HazardUnit → ℕ → FetchInterstage → CoreState M → Result (Unit {0}) × CoreState M
      finish_pipelined unit jump_branch_pc saved_if_id s =
          let (in_progress, flushed) = flush_before_exception s in
          let (stall, ready) = detect_hazards unit flushed in
          next_pc jump_branch_pc saved_if_id in_progress stall (record ready { stop_if = false })

      unfoldable pub pipelined_step : HazardUnit → Bool → Action M (Unit {0})
      pipelined_step unit skip_break s =
          (run_stages skip_break >> finish_pipelined unit s.mem_wb.inst_addr s.if_id) s

module _ {M : Type 0} where
  -- `Core::step`, for either core.
  unfoldable pub step : (Bool → Action M (Unit {0})) → Bool → Action M (Unit {0})
  step do_step skip_break s =
      do_step skip_break (record s { cycle_count = (s.cycle_count + 1) % 2 ^ 32 })

  -- `CorePipelined::do_reset`
  unfoldable pub reset_pipeline : CoreState M → CoreState M
  reset_pipeline s = record s {
    stop_if = false;
    if_id = no_fetch;
    id_ex = no_decode;
    ex_mem = no_execute;
    mem_wb = no_memory;
  }

  -- `CoreSingle::do_reset`
  unfoldable pub reset_single : CoreState M → CoreState M
  reset_single s = record (reset_pipeline s) { prev_inst_addr = 0 }

  -- `Core::reset`, for either core.
  unfoldable pub reset : (CoreState M → CoreState M) → CoreState M → CoreState M
  reset do_reset s =
      let cleared = do_reset (record s { cycle_count = 0; stall_count = 0 }) in
      set_range empty_range (set_current_privilege PrivilegeLevel.machine cleared)

-- ===== src/Core/Step/Progress.antt =====
-- What the step after a stall does, with the hazard unit that forwards.
use qtrvsim.Base.{
  ℕ, ◌+◌, ◌%◌, ◌^◌, ◌≡◌, refl, ap, ◌∙◌, Bool, true, false, Option, none, some, ◌&&◌, ◌||◌,
  if◌then◌else◌, Bool-cases, inl, inr,
}
use qtrvsim.Alu.{alu_combined_operate, alu64_operate}
use qtrvsim.Registers
use qtrvsim.Registers.{Registers}
use qtrvsim.Csr.Address.{ExceptionCause}
use qtrvsim.Core.Memory.{Result, ok, throw, FrontendMemory}
use qtrvsim.Core.Stage.{
  FetchInterstage, DecodeInterstage, ExecuteInterstage, MemoryInterstage, no_fetch, no_decode,
  no_execute,
}
use qtrvsim.Core.State.{CoreState, Action, modify, write_pc, write_pc_in}
use qtrvsim.Core.Fetch.{InstructionSet, is_none}
use qtrvsim.Core.Execute.{execute}
use qtrvsim.Core.Trap.{TrapAddresses}
use qtrvsim.Core.Hazard.{
  HazardUnit, is_hazard_in_stage, handle_mem_wb, handle_ex_mem, handle_data_hazards,
  detect_mispredicted_jump,
}
use qtrvsim.Core.Step.{
  detect_hazards, handle_stall, flush_and_continue_from_address, next_pc, run_stages,
  finish_pipelined, pipelined_step,
}
use qtrvsim.Core.Step.Stages.{then_run, bind-then_run, then_run_ok, run_stages_kept}
use qtrvsim.Core.Step.Pipeline.{flush_one, flush_nothing}

-- With a bubble in the execute stage the unit that forwards does not stall.
no_second_stall :
    (m : ExecuteInterstage) (w : MemoryInterstage) (d : DecodeInterstage)
    → m.regwrite ≡ false
    → (handle_data_hazards HazardUnit.stall_forward w m d).0 ≡ false
unfolding handle_data_hazards handle_mem_wb handle_ex_mem is_hazard_in_stage
no_second_stall m w d r = rw r refl

and_false : (b : Bool) → (b && false) ≡ false
and_false true = refl
and_false false = refl

module _ {M : Type 0} where
  write_pc-stall_count :
      (address : ℕ) (s : CoreState M) → (write_pc address s).1.stall_count ≡ s.stall_count
  unfolding write_pc
  write_pc-stall_count address s = written_pc (Registers.write_pc s.regs address)
    where
      written_pc : (o : Option Registers) → (write_pc_in s o).1.stall_count ≡ s.stall_count
      written_pc none = refl
      written_pc (some regs) = refl

  -- The end of a step that does not stall and has no exception in its last stage.
  abbrev pub moves_on : CoreState M → Result (Unit {0}) × CoreState M
  moves_on s =
      let ready = record s {
        stop_if = false;
        if_id = if is_none s.id_ex.excause then s.if_id else no_fetch;
        id_ex = (handle_data_hazards HazardUnit.stall_forward s.mem_wb s.ex_mem s.id_ex).1;
      } in
      if detect_mispredicted_jump s.mem_wb || s.mem_wb.csr_written
      then flush_and_continue_from_address s.mem_wb.computed_next_inst_addr ready
      else if is_none s.id_ex.excause
      then write_pc s.if_id.predicted_next_inst_addr ready
      else (ok tt, record ready { stop_if = true })

  emptied-stall_count :
      (r : Result (Unit {0}) × CoreState M)
      → (then_run
          (λ _. modify (λ s. record s { if_id = no_fetch; id_ex = no_decode; ex_mem = no_execute }))
          r).1.stall_count
        ≡ r.1.stall_count
  emptied-stall_count (ok a, t) = refl
  emptied-stall_count (throw e, t) = refl

  flush-stall_count :
      (address : ℕ) (s : CoreState M)
      → (flush_and_continue_from_address address s).1.stall_count ≡ s.stall_count
  unfolding flush_and_continue_from_address
  flush-stall_count address s =
      let empty : Unit {0} → Action M (Unit {0}) =
        λ _. modify (λ s. record s { if_id = no_fetch; id_ex = no_decode; ex_mem = no_execute }) in
      ap (λ r. r.1.stall_count) (bind-then_run (write_pc address) empty s)
      ∙ emptied-stall_count (write_pc address s)
      ∙ write_pc-stall_count address s

  choice-stall_count :
      (b : Bool) (m n : Result (Unit {0}) × CoreState M) (s : CoreState M)
      → m.1.stall_count ≡ s.stall_count
      → n.1.stall_count ≡ s.stall_count
      → (if b then m else n).1.stall_count ≡ s.stall_count
  choice-stall_count true m n s h k = h
  choice-stall_count false m n s h k = k

  moves_on-stall_count : (s : CoreState M) → (moves_on s).1.stall_count ≡ s.stall_count
  moves_on-stall_count s =
      let ready = record s {
        stop_if = false;
        if_id = if is_none s.id_ex.excause then s.if_id else no_fetch;
        id_ex = (handle_data_hazards HazardUnit.stall_forward s.mem_wb s.ex_mem s.id_ex).1;
      } in
      let stopped = record ready { stop_if = true } in
      choice-stall_count (detect_mispredicted_jump s.mem_wb || s.mem_wb.csr_written)
        (flush_and_continue_from_address s.mem_wb.computed_next_inst_addr ready)
        (if is_none s.id_ex.excause
          then write_pc s.if_id.predicted_next_inst_addr ready
          else (ok tt, stopped))
        s (flush-stall_count s.mem_wb.computed_next_inst_addr ready)
        (choice-stall_count (is_none s.id_ex.excause)
          (write_pc s.if_id.predicted_next_inst_addr ready) (ok tt, stopped) s
          (write_pc-stall_count s.if_id.predicted_next_inst_addr ready) refl)

  module _ (clz : ℕ → ℕ) (run_handler : ExceptionCause → TrapAddresses → Action M Bool)
      (memory : FrontendMemory M) (isa : InstructionSet) where
    finish-moves_on :
        (jump : ℕ) (saved : FetchInterstage) (s : CoreState M)
        → is_none s.mem_wb.excause ≡ true
        → is_none s.ex_mem.excause ≡ true
        → s.ex_mem.regwrite ≡ false
        → s.ex_mem.is_valid ≡ false
        → finish_pipelined clz run_handler memory isa HazardUnit.stall_forward jump saved s
          ≡ moves_on s
    unfolding finish_pipelined next_pc detect_hazards flush_and_continue_from_address
    finish-moves_on jump saved s w m r v =
        let calm = no_second_stall s.ex_mem s.mem_wb s.id_ex r in
        let redirect = detect_mispredicted_jump s.mem_wb || s.mem_wb.csr_written in
        elim (Bool-cases redirect) [
          | inl e ↦ elim (Bool-cases (is_none s.id_ex.excause)) [
            | inl d ↦ rw (flush_nothing s w m d, w, e, d) refl
            | inr d ↦ rw (flush_one s w m d, w, e, d) refl
          ]
          | inr e ↦ elim (Bool-cases (is_none s.id_ex.excause)) [
            | inl d ↦ rw (flush_nothing s w m d, w, e, d, calm, v, and_false) refl
            | inr d ↦ rw (flush_one s w m d, w, e, d) refl
          ]
        ]

    -- A stall lasts one step with the unit that forwards: where the stages of the step after a stall run
    -- without an exception of the simulator, and leave none of the program in the last stage, that step
    -- does not stall again. It flushes the pipeline after a misprediction or a write to a control register,
    -- stops fetching for an exception in the decode stage, and else goes on at the address that was
    -- predicted behind the instruction fetched, and the count of stalls stays one above the count from
    -- before the stall, modulo 2 ^ 32.
    pub stall_ends :
        (skip : Bool) (saved : FetchInterstage) (s0 : CoreState M)
        → (run_stages clz run_handler memory isa skip (handle_stall saved s0)).0 ≡ ok tt
        → is_none
            (run_stages clz run_handler memory isa skip (handle_stall saved s0)).1.mem_wb.excause
          ≡ true
        → let s = handle_stall saved s0 in
          let after = pipelined_step clz run_handler memory isa HazardUnit.stall_forward skip s in
          (after ≡ moves_on (run_stages clz run_handler memory isa skip s).1)
          × (after.1.stall_count ≡ (s0.stall_count + 1) % 2 ^ 32)
    unfolding pipelined_step handle_stall execute alu_combined_operate alu64_operate
    stall_ends skip saved s0 ran calm =
        let s = handle_stall saved s0 in
        let run = run_stages clz run_handler memory isa skip s in
        let (count, bubble) = run_stages_kept clz run_handler memory isa skip s ran in
        let end = λ (_ : Unit {0}).
          finish_pipelined clz run_handler memory isa HazardUnit.stall_forward s.mem_wb.inst_addr
            s.if_id in
        let e =
          bind-then_run (run_stages clz run_handler memory isa skip) end s
          ∙ then_run_ok end run ran
          ∙ finish-moves_on s.mem_wb.inst_addr s.if_id run.1 calm
              (ap (λ m. is_none m.excause) bubble) (ap (λ m. m.regwrite) bubble)
              (ap (λ m. m.is_valid) bubble) in
        (e, ap (λ r. r.1.stall_count) e ∙ moves_on-stall_count run.1 ∙ count)

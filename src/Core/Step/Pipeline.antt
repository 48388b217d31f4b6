-- ===== src/Core/Step/Pipeline.antt =====
-- What a step of the pipelined core flushes, and what a bubble does.
use qtrvsim.Base.{◌≡◌, refl, true, false, not, ◌&&◌, if◌then◌else◌, Bool-cases, inl, inr}
use qtrvsim.Csr.Address.{is_32}
use qtrvsim.Core.Memory.{ok, FrontendMemory}
use qtrvsim.Core.Stage.{FetchInterstage, no_fetch, no_decode, no_execute, no_memory}
use qtrvsim.Core.State.{CoreState, get_xlen_from_reg}
use qtrvsim.Core.Atomic.{memory_special}
use qtrvsim.Core.Fetch.{is_none}
use qtrvsim.Alu.{alu_combined_operate, alu64_operate}
use qtrvsim.Core.Execute.{execute}
use qtrvsim.Core.Access.{
  memory_stage, writeback, compute_next_inst_addr, update_predictor, branch_taken, access,
}
use qtrvsim.Core.Step.{flush_ex_mem, flush_before_exception, handle_stall}

-- Behind an instruction with an exception every stage is flushed, not only the next.
pub record IsPrecise {M : Type 0} (s : CoreState M) : Type 0 where
  pub behind_mem_wb :
      is_none s.mem_wb.excause ≡ false
      → (s.ex_mem ≡ no_execute) × (s.id_ex ≡ no_decode) × (s.if_id ≡ no_fetch)
  pub behind_ex_mem :
      is_none s.ex_mem.excause ≡ false → (s.id_ex ≡ no_decode) × (s.if_id ≡ no_fetch)
  pub behind_id_ex : is_none s.id_ex.excause ≡ false → s.if_id ≡ no_fetch

module _ {M : Type 0} where
  -- What is flushed, by the last stage with an exception.
  flush_three :
      (s : CoreState M)
      → is_none s.mem_wb.excause ≡ false
      → flush_before_exception s
        ≡ (true, record s { ex_mem = no_execute; id_ex = no_decode; if_id = no_fetch })
  unfolding flush_before_exception
  flush_three s w =
      let a : flush_ex_mem s ≡ record s { ex_mem = no_execute } = rw w refl in rw (a, w) refl

  flush_two :
      (s : CoreState M)
      → is_none s.mem_wb.excause ≡ true
      → is_none s.ex_mem.excause ≡ false
      → flush_before_exception s ≡ (true, record s { id_ex = no_decode; if_id = no_fetch })
  unfolding flush_before_exception
  flush_two s w m = let a : flush_ex_mem s ≡ s = rw w refl in rw (a, w, m) refl

  pub flush_one :
      (s : CoreState M)
      → is_none s.mem_wb.excause ≡ true
      → is_none s.ex_mem.excause ≡ true
      → is_none s.id_ex.excause ≡ false
      → flush_before_exception s ≡ (true, record s { if_id = no_fetch })
  unfolding flush_before_exception
  flush_one s w m d = let a : flush_ex_mem s ≡ s = rw w refl in rw (a, w, m, d) refl

  pub flush_nothing :
      (s : CoreState M)
      → is_none s.mem_wb.excause ≡ true
      → is_none s.ex_mem.excause ≡ true
      → is_none s.id_ex.excause ≡ true
      → flush_before_exception s ≡ (false, s)
  unfolding flush_before_exception
  flush_nothing s w m d = let a : flush_ex_mem s ≡ s = rw w refl in rw (a, w, m, d) refl

  -- After the flushes of a step every stage behind an exception is empty, and an exception is in progress
  -- exactly when one of the three last stages has one. The last stage is as it was, and a stage is
  -- emptied only where a stage nearer to the end had an exception before the flushes.
  pub flush_before_exception-IsPrecise :
      (s : CoreState M)
      → let (in_progress, t) = flush_before_exception s in
        let w = is_none s.mem_wb.excause in
        let m = is_none s.ex_mem.excause in
        let d = is_none s.id_ex.excause in
        IsPrecise t
        × (in_progress
            ≡ not (is_none t.mem_wb.excause && is_none t.ex_mem.excause && is_none t.id_ex.excause))
        × (t ≡ record s {
          ex_mem = if w then s.ex_mem else no_execute;
          id_ex = if w && m then s.id_ex else no_decode;
          if_id = if w && m && d then s.if_id else no_fetch;
        })
  flush_before_exception-IsPrecise s = elim (Bool-cases (is_none s.mem_wb.excause)) [
    | inl w ↦ elim (Bool-cases (is_none s.ex_mem.excause)) [
      | inl m ↦ elim (Bool-cases (is_none s.id_ex.excause)) [
        | inl d ↦
            rw (flush_nothing s w m d, w, m, d)
              (
                record { behind_mem_wb = λ e. cc; behind_ex_mem = λ e. cc; behind_id_ex = λ e. cc },
                refl,
                refl,
              )
        | inr d ↦
            rw (flush_one s w m d, w, m, d)
              (
                record {
                  behind_mem_wb = λ e. cc;
                  behind_ex_mem = λ e. cc;
                  behind_id_ex = λ e. refl;
                },
                refl,
                refl,
              )
      ]
      | inr m ↦
          rw (flush_two s w m, w, m)
            (
              record {
                behind_mem_wb = λ e. cc;
                behind_ex_mem = λ e. (refl, refl);
                behind_id_ex = λ e. refl;
              },
              refl,
              refl,
            )
    ]
    | inr w ↦
        rw (flush_three s w, w)
          (
            record {
              behind_mem_wb = λ e. (refl, refl, refl);
              behind_ex_mem = λ e. (refl, refl);
              behind_id_ex = λ e. refl;
            },
            refl,
            refl,
          )
  ]

  xlen_zero : (s : CoreState M) → get_xlen_from_reg s 0 ≡ 0
  unfolding get_xlen_from_reg
  xlen_zero s = elim (Bool-cases (is_32 s.xlen)) [ inl e ↦ rw e refl | inr e ↦ rw e refl ]

  -- A bubble does nothing: through the memory stage, whether it was put there or came through the
  -- arithmetic unit, it leaves the state alone and comes out as a bubble, and the last stage leaves the
  -- state alone too.
  pub bubble_lem :
      (memory_ops : FrontendMemory M) (s : CoreState M) (saved : FetchInterstage)
      → (memory_stage memory_ops no_execute s ≡ (ok no_memory, s))
        × (memory_stage memory_ops (execute (handle_stall saved s).id_ex) s ≡ (ok no_memory, s))
        × (writeback no_memory s ≡ s)
  unfolding memory_stage update_predictor branch_taken compute_next_inst_addr access memory_special
      handle_stall execute alu_combined_operate alu64_operate writeback
  bubble_lem memory_ops s saved = rw (xlen_zero s) (refl, refl, refl)

-- ===== src/Core/Access/Fault.antt =====
-- What a page fault of an access leaves.
use qtrvsim.Base.{
  ℕ, ◌≡◌, refl, ap, ◌∙◌, true, false, ◌||◌, ◌==◌, Bool-cases, inl, inr, if◌then◌else◌,
}
use qtrvsim.Csr.Address.{ExceptionCause}
use qtrvsim.Csr.Table.{id_minstret}
use qtrvsim.Csr.State.{increment_internal}
use qtrvsim.Core.Memory.{AccessOp, SimulatorException, ok, throw, FrontendMemory}
use qtrvsim.Core.Stage.{ExecuteInterstage, MemoryInterstage}
use qtrvsim.Core.State.{CoreState, Action, access_mode, get_xlen_from_reg, set_csr}
use qtrvsim.Core.State.Steps.{bind_ok}
use qtrvsim.Core.Fetch.{is_none}
use qtrvsim.Core.Access.{
  AccessResult, access, try_access, memory_stage, finish_access, memory_interstage,
  update_predictor, count_misprediction, compute_next_inst_addr, branch_taken, catch_page_fault,
  writeback,
}

-- The state but for the predictor.
abbrev Same : {M : Type 0} → CoreState M → CoreState M → Type 0
Same s t = (t.regs ≡ s.regs) × (t.control_state ≡ s.control_state) × (t.memory ≡ s.memory)

module _ {M : Type 0} where
  update_predictor-Same :
      (dt : ExecuteInterstage) (s : CoreState M) → Same s (update_predictor dt s)
  unfolding update_predictor
  update_predictor-Same dt s = elim (Bool-cases dt.branch_jal) [
    | inl j ↦ rw j (refl, refl, refl)
    | inr j ↦ elim (Bool-cases dt.branch_jalr) [
      | inl r ↦ rw (j, r) (refl, refl, refl)
      | inr r ↦ elim (Bool-cases dt.branch_bxx) [
        | inl b ↦ rw (j, r, b) (refl, refl, refl)
        | inr b ↦ rw (j, r, b) (refl, refl, refl)
      ]
    ]
  ]

  count_misprediction-Same :
      (dt : ExecuteInterstage) (next : ℕ) (s : CoreState M) → Same s (count_misprediction dt next s)
  count_misprediction-Same dt next s = elim (Bool-cases (next == dt.predicted_next_inst_addr)) [
    | inl e ↦ rw e (refl, refl, refl)
    | inr e ↦ rw e (refl, refl, refl)
  ]

  retired :
      (dt : ExecuteInterstage) (address : ℕ) (r : AccessResult) (t : CoreState M)
      → dt.is_valid ≡ true
      → is_none dt.excause ≡ true
      → dt.csr_write ≡ false
      → dt.xret ≡ false
      → let next = compute_next_inst_addr t dt (branch_taken dt) in
        let told = update_predictor dt t in
        finish_access dt address r t ≡ (
          ok (memory_interstage dt address r (next, false)),
          count_misprediction dt next
              (set_csr (increment_internal told.control_state id_minstret 1) told),
        )
  retired dt address r t valid none plain stays = rw (valid, none, plain, stays) refl

  module _ (memory_ops : FrontendMemory M) where
    -- The access of the stage, as `try_access` makes it.
    abbrev pub stage_access : ExecuteInterstage → Action M ℕ
    stage_access dt s =
        access memory_ops dt (get_xlen_from_reg s dt.alu_val)
          (access_mode (if dt.memwrite || dt.amo then AccessOp.write else AccessOp.read) s) s

    try_access_fault :
        (dt : ExecuteInterstage) (s t : CoreState M) (cause : ExceptionCause)
        → is_none dt.excause ≡ true
        → stage_access dt s ≡ (throw (SimulatorException.page_fault cause), t)
        → try_access memory_ops dt s ≡ (
          ok (record {
            towrite_val = 0;
            excause = cause;
            memread = false;
            memwrite = false;
            regwrite = false;
          }),
          t,
        )
    try_access_fault dt s t cause none e = rw none (ap (catch_page_fault dt) e)

    -- A page fault of a valid instruction that is no write to a control register and no return from a trap:
    -- the stage goes on, the fault becomes the cause, nothing is left to write back, and the register file
    -- and the memory stay as the access left them; yet the counter of retired instructions goes up.
    pub page_fault_lem :
        (dt : ExecuteInterstage) (s t : CoreState M) (cause : ExceptionCause)
        → dt.is_valid ≡ true
        → is_none dt.excause ≡ true
        → dt.csr_write ≡ false
        → dt.xret ≡ false
        → stage_access dt s ≡ (throw (SimulatorException.page_fault cause), t)
        → (m : MemoryInterstage) × (u : CoreState M) × (memory_stage memory_ops dt s ≡ (ok m, u))
          × (m.excause ≡ cause)
          × (writeback m u ≡ u)
          × (u.regs ≡ t.regs)
          × (u.memory ≡ t.memory)
          × (u.control_state ≡ increment_internal t.control_state id_minstret 1)
    unfolding memory_stage writeback
    page_fault_lem dt s t cause valid none plain stays e =
        let next = compute_next_inst_addr t dt (branch_taken dt) in
        let told = update_predictor dt t in
        let counted = set_csr (increment_internal told.control_state id_minstret 1) told in
        let (regs, csr, memory) = update_predictor-Same dt t in
        let (regs', csr', memory') = count_misprediction-Same dt next counted in
        let address = get_xlen_from_reg s dt.alu_val in
        let r : AccessResult = record {
          towrite_val = 0;
          excause = cause;
          memread = false;
          memwrite = false;
          regwrite = false;
        } in
        (
          memory_interstage dt address r (next, false),
          count_misprediction dt next counted,
          bind_ok (try_access memory_ops dt) (finish_access dt address) s t r
                (try_access_fault dt s t cause none e)
              ∙ retired dt address r t valid none plain stays,
          refl,
          refl,
          regs' ∙ regs,
          memory' ∙ memory,
          csr' ∙ ap (λ c. increment_internal c id_minstret 1) csr,
        )

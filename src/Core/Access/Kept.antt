-- ===== src/Core/Access/Kept.antt =====
-- The memory stage keeps the registers between the stages and the count of stalls.
use qtrvsim.Base.{
  ℕ, ◌≡◌, refl, ◌∙◌, arith, ◌&&◌, ◌%◌, ◌^◌, ◌||◌, ◌==◌, Bool-cases, inl, inr, Bool, true, false,
  if◌then◌else◌,
}
use qtrvsim.Predictor.Unit
use qtrvsim.Csr.State
use qtrvsim.Csr.State.{increment_internal}
use qtrvsim.Csr.Table.{id_minstret}
use qtrvsim.Core.Memory.{
  SimulatorException, AccessMode, AccessOp, is_regular_access, Result, ok, throw, FrontendMemory,
  write_ctl, read_ctl,
}
use qtrvsim.Core.Stage.{ExecuteInterstage}
use qtrvsim.Core.State.{
  CoreState, Action, pure, or_throw, modify, when, on_memory, set_predictor, access_mode,
  set_current_privilege, set_csr, set_range, empty_range, get_xlen_from_reg, contains, ◌>>=◌, ◌>>◌,
}
use qtrvsim.Core.State.Kept.{
  choice-kept, kept, Keeps, bind-Keeps, or_throw-Keeps, if-Keeps, when-Keeps,
}
use qtrvsim.Core.Atomic.{
  of_width, bytes_of, amo_operation, AmoOp, Special, special_of, special, range_of, store_reserved,
  end_reservation, flush_predictor, load_reserved, store_conditional, amo_modify, memory_special,
}
use qtrvsim.Core.Fetch.{is_none}
use qtrvsim.Core.Access.{
  no_access, AccessResult, access, regular_access, catch_page_fault, try_access, write_csr, retire,
  return_from_trap, update_predictor, branch_taken, compute_next_inst_addr, count_misprediction,
  memory_interstage, finish_access, memory_stage,
}

module _ {M : Type 0} (memory : FrontendMemory M) where
  flush_predictor-Keeps : (s : CoreState M) → Keeps (flush_predictor memory) s
  unfolding flush_predictor
  flush_predictor-Keeps s =
      bind-Keeps (λ p. modify (set_predictor p)) s
        (or_throw SimulatorException.no_return (Unit.flush s.predictor)) (or_throw-Keeps _ _ s)
        (λ p t. refl)

  load_reserved-Keeps :
      (w address : ℕ) (mode : AccessMode) (s : CoreState M)
      → Keeps (load_reserved memory w address mode) s
  unfolding load_reserved
  load_reserved-Keeps w address mode s =
      bind-Keeps (λ value. pure (of_width w value)) (set_range (range_of w address) s)
        (on_memory (λ m. memory.read_data m address mode (bytes_of w))) refl (λ value t. refl)

  store_conditional-Keeps :
      (w rt address : ℕ) (mode : AccessMode) (s : CoreState M)
      → Keeps (store_conditional memory w rt address mode) s
  unfolding store_conditional
  store_conditional-Keeps w rt address mode s =
      choice-kept (contains s.load_reserved_range (range_of w address))
        (store_reserved memory w rt address mode s) (end_reservation memory 1 s) s
        (bind-Keeps (λ _. end_reservation memory 0) s
          (on_memory (λ m. memory.write_data m address mode (bytes_of w) (rt % 2 ^ w))) refl
          (λ _ t. refl))
        refl

  amo_modify-Keeps :
      (w : ℕ) (op : AmoOp) (rt address : ℕ) (mode : AccessMode) (s : CoreState M)
      → Keeps (amo_modify memory w op rt address mode) s
  unfolding amo_modify
  amo_modify-Keeps w op rt address mode s =
      let write = λ (fetched : ℕ). on_memory (λ (m : M).
        memory.write_data m address mode (bytes_of w) (amo_operation w op fetched (rt % 2 ^ w))) in
      bind-Keeps (λ fetched. write fetched >> pure (of_width w fetched)) s
        (on_memory (λ m. memory.read_data m address mode (bytes_of w))) refl
        (λ fetched t.
          bind-Keeps (λ _. pure (of_width w fetched)) t (write fetched) refl (λ _ u. refl))

  special-Keeps :
      (k : Special) (memread memwrite : Bool) (towrite rt address : ℕ) (mode : AccessMode)
      (s : CoreState M)
      → Keeps (special memory k memread memwrite towrite rt address mode) s
  special-Keeps Special.sync r w v rt a mode s =
      let synced = record s { memory = memory.sync_program (memory.sync_data s.memory) } in
      bind-Keeps (λ _. pure v) synced (flush_predictor memory) (flush_predictor-Keeps synced)
        (λ _ t. refl)
  special-Keeps Special.sfence r w v rt a mode s =
      let fenced = record s {
        memory = memory.sfence_program (memory.sfence_data s.memory v rt) v rt;
      } in
      bind-Keeps (λ _. modify (set_range empty_range) >> pure v) fenced (flush_predictor memory)
        (flush_predictor-Keeps fenced) (λ _ t. refl)
  special-Keeps Special.other r w v rt a mode s = refl
  special-Keeps (Special.lr width) r w v rt a mode s =
      if-Keeps r (load_reserved memory width a mode) (pure v) s (load_reserved-Keeps width a mode s)
        refl
  special-Keeps (Special.sc width) r w v rt a mode s =
      if-Keeps w (store_conditional memory width rt a mode) (pure v) s
        (store_conditional-Keeps width rt a mode s) refl
  special-Keeps (Special.amo width op) r w v rt a mode s =
      if-Keeps (r && w) (amo_modify memory width op rt a mode) (pure v) s
        (amo_modify-Keeps width op rt a mode s) refl

  access-Keeps :
      (dt : ExecuteInterstage) (address : ℕ) (mode : AccessMode) (s : CoreState M)
      → Keeps (access memory dt address mode) s
  unfolding access memory_special
  access-Keeps dt address mode s =
      let write : Action M (Unit {0}) =
        on_memory (λ m. write_ctl memory m dt.memctl address mode dt.val_rt) in
      let read : Action M ℕ = on_memory (λ m. read_ctl memory m dt.memctl address mode) in
      if-Keeps (is_regular_access dt.memctl) (regular_access memory dt address mode)
        (memory_special memory dt.memctl dt.memread dt.memwrite dt.alu_val dt.val_rt address mode) s
        (bind-Keeps (λ _. if dt.memread then read else pure dt.alu_val) s (when dt.memwrite write)
          (when-Keeps dt.memwrite write s refl)
          (λ _ t. if-Keeps dt.memread read (pure dt.alu_val) t refl refl))
        (special-Keeps (special_of dt.memctl) dt.memread dt.memwrite dt.alu_val dt.val_rt address
          mode s)

  caught-Keeps :
      (dt : ExecuteInterstage) (s : CoreState M) (r : Result ℕ × CoreState M)
      → kept r.1 ≡ kept s
      → kept (catch_page_fault dt r).1 ≡ kept s
  caught-Keeps dt s (ok value, t) k = k
  caught-Keeps dt s (throw (SimulatorException.page_fault cause), t) k = k
  caught-Keeps dt s (throw SimulatorException.unsupported_instruction, t) k = k
  caught-Keeps dt s (throw SimulatorException.unknown_memory_control, t) k = k
  caught-Keeps dt s (throw SimulatorException.unaligned_jump, t) k = k
  caught-Keeps dt s (throw SimulatorException.no_return, t) k = k

  try_access-Keeps : (dt : ExecuteInterstage) (s : CoreState M) → Keeps (try_access memory dt) s
  try_access-Keeps dt s =
      let address = get_xlen_from_reg s dt.alu_val in
      let mode = access_mode (if dt.memwrite || dt.amo then AccessOp.write else AccessOp.read) s in
      let tried = access memory dt address mode s in
      choice-kept (is_none dt.excause) (catch_page_fault dt tried) (ok (no_access dt), s) s
        (caught-Keeps dt s tried (access-Keeps dt address mode s)) refl

module _ {M : Type 0} where
  update_predictor-kept :
      (dt : ExecuteInterstage) (s : CoreState M) → kept (update_predictor dt s) ≡ kept s
  unfolding update_predictor
  update_predictor-kept dt s = ground arith

  count_misprediction-kept :
      (dt : ExecuteInterstage) (next : ℕ) (s : CoreState M)
      → kept (count_misprediction dt next s) ≡ kept s
  count_misprediction-kept dt next s = elim (Bool-cases (next == dt.predicted_next_inst_addr)) [
    | inl e ↦ rw e refl
    | inr e ↦ rw e refl
  ]

  return_from_trap-Keeps :
      (dt : ExecuteInterstage) (s : CoreState M) → Keeps (return_from_trap dt) s
  unfolding set_current_privilege
  return_from_trap-Keeps dt s = refl

  retire-Keeps : (dt : ExecuteInterstage) (next : ℕ) (s : CoreState M) → Keeps (retire dt next) s
  retire-Keeps dt next s =
      let counted = set_csr (increment_internal s.control_state id_minstret 1) s in
      let finish : Action M (ℕ × Bool) =
        if dt.xret
        then (return_from_trap dt >>= λ epc. pure (epc, true))
        else pure (next, dt.csr_write) in
      bind-Keeps (λ _. finish) counted (when dt.csr_write (write_csr dt))
        (when-Keeps dt.csr_write (write_csr dt) counted (
          bind-Keeps (λ c. modify (set_csr c)) counted
            (or_throw SimulatorException.unsupported_instruction (
              State.write counted.control_state dt.csr_address dt.alu_val
                counted.current_privilege))
            (or_throw-Keeps _ _ counted) (λ c t. refl)))
        (λ _ t.
          if-Keeps dt.xret (return_from_trap dt >>= λ epc. pure (epc, true))
            (pure (next, dt.csr_write)) t
            (bind-Keeps {B = ℕ × Bool} (λ epc. pure (epc, true)) t (return_from_trap dt)
              (return_from_trap-Keeps dt t) (λ epc u. refl))
            refl)

  finish_access-Keeps :
      (dt : ExecuteInterstage) (address : ℕ) (r : AccessResult) (s : CoreState M)
      → Keeps (finish_access dt address r) s
  finish_access-Keeps dt address r s =
      let computed = compute_next_inst_addr s dt (branch_taken dt) in
      let told = update_predictor dt s in
      let retired : Action M (ℕ × Bool) =
        if dt.is_valid && is_none dt.excause then retire dt computed else pure (computed, false) in
      bind-Keeps
        (λ outcome.
          modify (count_misprediction dt outcome.0)
          >> pure (memory_interstage dt address r outcome))
        told retired
        (if-Keeps (dt.is_valid && is_none dt.excause) (retire dt computed) (pure (computed, false))
          told (retire-Keeps dt computed told) refl)
        (λ outcome t. count_misprediction-kept dt outcome.0 t)
      ∙ update_predictor-kept dt s

module _ {M : Type 0} (memory : FrontendMemory M) where
  pub memory_stage-Keeps :
      (dt : ExecuteInterstage) (s : CoreState M) → Keeps (memory_stage memory dt) s
  unfolding memory_stage
  memory_stage-Keeps dt s =
      let address = get_xlen_from_reg s dt.alu_val in
      bind-Keeps (finish_access dt address) s (try_access memory dt) (try_access-Keeps memory dt s)
        (λ r t. finish_access-Keeps dt address r t)

-- ===== src/Core/Step/Stages.antt =====
-- What the stages of a step leave for its end: the count of stalls, and the instruction that was decoded.
use qtrvsim.Base.{ℕ, ◌≡◌, ◌≢◌, refl, sym, ap, ◌∙◌, Bool, Bool-cases, inl, inr}
use qtrvsim.Csr.State
use qtrvsim.Csr.Address.{ExceptionCause}
use qtrvsim.Core.Memory.{SimulatorException, Result, ok, throw, FrontendMemory}
use qtrvsim.Core.Stage.{FetchInterstage, DecodeInterstage, MemoryInterstage, no_fetch}
use qtrvsim.Core.State.{CoreState, Action, gets, modify, or_throw, ◌>>=◌, ◌>>◌}
use qtrvsim.Core.State.Kept.{kept, Keeps, bind-Keeps, or_throw-Keeps, choice-kept}
use qtrvsim.Core.Access.Kept.{memory_stage-Keeps}
use qtrvsim.Core.Fetch.{
  count_cycle, fetched, InstructionSet, fetch, decode, read_csr, decoded, fetch_inst, fetch_running,
  has_flag, bits_of,
}
use qtrvsim.Core.Execute.{execute}
use qtrvsim.Core.Access.{memory_stage, writeback}
use qtrvsim.Core.Trap.{TrapAddresses}
use qtrvsim.Core.Step.{run_stages}

throw_ne_ok : {B : Type 0} (e : SimulatorException) (b : B) → throw e ≢ ok b
throw_ne_ok e b h = cc

module _ {M : Type 0} where
  abbrev pub then_run :
      {A B : Type 0} → (A → Action M B) → Result A × CoreState M → Result B × CoreState M
  then_run f (ok a, t) = f a t
  then_run f (throw e, t) = (throw e, t)

  bind_inv :
      {A B : Type 0} (f : A → Action M B) (b : B) (r : Result A × CoreState M)
      → (then_run f r).0 ≡ ok b
      → (a : A) × (t : CoreState M) × (r ≡ (ok a, t)) × ((f a t).0 ≡ ok b) × (then_run f r ≡ f a t)
  bind_inv f b (ok a, t) h = (a, t, refl, h, refl)
  bind_inv f b (throw e, t) h = absurd (throw_ne_ok e b h)

  pub bind-then_run :
      {A B : Type 0} (m : Action M A) (f : A → Action M B) (s : CoreState M)
      → (m >>= f) s ≡ then_run f (m s)
  bind-then_run {A} {B} m f s = go (m s)
    where
      go :
          (r : Result A × CoreState M)
          → (elim r.0 as (λ x. Result B × CoreState M) [
            | ok a ↦ f a r.1
            | throw x ↦ (throw x, r.1)
          ])
            ≡ then_run f r
      go (ok a, t) = refl
      go (throw e, t) = refl

  pub then_run_ok :
      {B : Type 0} (f : Unit {0} → Action M B) (r : Result (Unit {0}) × CoreState M)
      → r.0 ≡ ok tt
      → then_run f r ≡ f tt r.1
  then_run_ok f (ok a, t) h = refl
  then_run_ok f (throw e, t) h = absurd (throw_ne_ok e tt h)

  step_inv :
      {A B : Type 0} (m : Action M A) (f : A → Action M B) (s : CoreState M) (b : B)
      → ((m >>= f) s).0 ≡ ok b
      → (a : A) × (t : CoreState M) × (m s ≡ (ok a, t)) × ((f a t).0 ≡ ok b) × ((m >>= f) s ≡ f a t)
  step_inv m f s b h =
      let e = bind-then_run m f s in
      let (a, t, r, k, l) = bind_inv f b (m s) (ap (λ x. x.0) (sym e) ∙ h) in (a, t, r, k, e ∙ l)

  writeback-kept : (w : MemoryInterstage) (s : CoreState M) → kept (writeback w s) ≡ kept s
  unfolding writeback
  writeback-kept w s = elim (Bool-cases w.regwrite) [ inl e ↦ rw e refl | inr e ↦ rw e refl ]

  read_csr-Keeps : (flags inst : ℕ) (s : CoreState M) → Keeps (read_csr flags inst) s
  read_csr-Keeps flags inst s =
      choice-kept (has_flag flags 20)
        (or_throw SimulatorException.unsupported_instruction
          (State.read s.control_state (bits_of 12 20 inst) s.current_privilege) s)
        (ok 0, s) s (or_throw-Keeps _ _ s) refl

  decode-Keeps :
      (isa : InstructionSet) (dt : FetchInterstage) (s : CoreState M) → Keeps (decode isa dt) s
  unfolding decode
  decode-Keeps isa dt s =
      bind-Keeps (λ v. gets (decoded isa dt v)) s (read_csr (isa.flags dt.inst) dt.inst)
        (read_csr-Keeps (isa.flags dt.inst) dt.inst s) (λ v t. refl)

  fetch-Keeps :
      (memory : FrontendMemory M) (stop skip : Bool) (s : CoreState M)
      → Keeps (fetch memory stop skip) s
  unfolding fetch
  fetch-Keeps memory stop skip s =
      choice-kept stop (ok no_fetch, s) (fetch_running memory skip s) s refl
        (bind-Keeps
          (λ read. modify (count_cycle memory) >> gets (fetched memory skip s.regs.pc read)) s
          (fetch_inst memory s.regs.pc) refl (λ read t. refl))

  module _ (clz : ℕ → ℕ) (run_handler : ExceptionCause → TrapAddresses → Action M Bool)
      (memory : FrontendMemory M) (isa : InstructionSet) (skip : Bool) (s : CoreState M) where
    -- The stages from the end of the decode stage on, and from the end of the memory stage on.
    abbrev fetching : DecodeInterstage → Action M (Unit {0})
    fetching d = do
      modify (λ s. record s { id_ex = d })
      stop_if ← gets (λ s. s.stop_if)
      fetched ← fetch memory stop_if skip
      modify (λ s. record s { if_id = fetched })

    abbrev decoding : MemoryInterstage → Action M (Unit {0})
    decoding a = do
      modify (λ s. record s { mem_wb = a; ex_mem = execute s.id_ex })
      if_id ← gets (λ s. s.if_id)
      decoded ← decode isa if_id
      fetching decoded

    -- Stages that end without an exception of the simulator leave the count of stalls alone, and put into
    -- the execute stage what the decode stage held.
    pub run_stages_kept :
        (run_stages clz run_handler memory isa skip s).0 ≡ ok tt
        → let t = (run_stages clz run_handler memory isa skip s).1 in
          (t.stall_count ≡ s.stall_count) × (t.ex_mem ≡ execute s.id_ex)
    unfolding run_stages
    run_stages_kept h =
        let w = writeback s.mem_wb s in
        let (a, t, e, k, l) = step_inv (memory_stage memory w.ex_mem) decoding w tt h in
        let kt =
          ap (λ r. kept r.1) (sym e)
          ∙ memory_stage-Keeps memory w.ex_mem w
          ∙ writeback-kept s.mem_wb s in
        let u = record t { mem_wb = a; ex_mem = execute t.id_ex } in
        let (d, v, e2, k2, l2) = step_inv (decode isa u.if_id) fetching u tt k in
        let kv = ap (λ r. kept r.1) (sym e2) ∙ decode-Keeps isa u.if_id u in
        let x = record v { id_ex = d } in
        let (f, y, e3, k3, l3) =
          step_inv (fetch memory x.stop_if skip) (λ f. modify (λ s. record s { if_id = f })) x tt
            k2 in
        let ky = ap (λ r. kept r.1) (sym e3) ∙ fetch-Keeps memory x.stop_if skip x in
        let all = ap (λ r. r.1) (l ∙ l2 ∙ l3) in
        (
          ap (λ r. r.stall_count) all
              ∙ ap (λ r. r.stall_count) ky
              ∙ ap (λ r. r.stall_count) kv
              ∙ ap (λ r. r.stall_count) kt,
          ap (λ r. r.ex_mem) all
              ∙ ap (λ r. r.ex_mem) ky
              ∙ ap (λ r. r.ex_mem) kv
              ∙ ap (λ r. execute r.id_ex) kt,
        )

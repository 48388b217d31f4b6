-- ===== src/Core/Hazard/Stalls.antt =====
-- When the hazard unit stalls, and what it forwards from a jump.
use qtrvsim.Base.{
  ℕ, ◌≡◌, ◌≢◌, refl, ap, ◌∙◌, Bool, true, false, ◌&&◌, ◌||◌, Bool-cases, inl, inr, if◌then◌else◌,
  arith,
}
use qtrvsim.Core.Stage.{ForwardFrom, DecodeInterstage, ExecuteInterstage, MemoryInterstage}
use qtrvsim.Core.Access.{value_to_write}
use qtrvsim.Core.Hazard.{
  HazardUnit, is_hazard_in_stage, handle_mem_wb, handle_ex_mem, handle_data_hazards,
}
use qtrvsim.Core.Hazard.Forward.{taken, hazard_forward}

-- The tests of a decode stage that forwarding keeps.
hazard_after :
    (regwrite : Bool) (rd : ℕ) (unit : HazardUnit) (w : MemoryInterstage) (d : DecodeInterstage)
    → is_hazard_in_stage regwrite rd (handle_mem_wb unit w d).1 ≡ is_hazard_in_stage regwrite rd d
unfolding handle_mem_wb is_hazard_in_stage
hazard_after regwrite rd HazardUnit.none w d = refl
hazard_after regwrite rd HazardUnit.stall w d = refl
hazard_after regwrite rd HazardUnit.stall_forward w d =
    let ((rs, rt, req_rs, req_rt), val_rs, val_rt) =
      hazard_forward w.regwrite w.num_rd w.towrite_val ForwardFrom.from_w d in
    rw (rs, rt, req_rs, req_rt) refl

-- A unit that only stalls does so exactly when an instruction ahead in either of the two stages writes a
-- register that is required.
pub stall_lem :
    (w : MemoryInterstage) (m : ExecuteInterstage) (d : DecodeInterstage)
    → (handle_data_hazards HazardUnit.stall w m d).0
      ≡ (is_hazard_in_stage w.regwrite w.num_rd d || is_hazard_in_stage m.regwrite m.num_rd d)
unfolding handle_data_hazards handle_mem_wb handle_ex_mem
stall_lem w m d = refl

load_use :
    (hazard memread : Bool) (f d : DecodeInterstage)
    → (let r : Bool × DecodeInterstage =
          if hazard then if memread then (true, d) else (false, f) else (false, d) in
        r.0)
      ≡ (hazard && memread)
load_use true true f d = refl
load_use true false f d = refl
load_use false memread f d = refl

-- A unit that forwards stalls exactly when the instruction one ahead reads from the memory into a register
-- that is required.
pub stall_forward_lem :
    (w : MemoryInterstage) (m : ExecuteInterstage) (d : DecodeInterstage)
    → (handle_data_hazards HazardUnit.stall_forward w m d).0
      ≡ (is_hazard_in_stage m.regwrite m.num_rd d && m.memread)
unfolding handle_data_hazards handle_mem_wb handle_ex_mem
stall_forward_lem w m d =
    let ready = (handle_mem_wb HazardUnit.stall_forward w d).1 in
    load_use (is_hazard_in_stage m.regwrite m.num_rd ready) m.memread _ ready
    ∙ ap (λ h. h && m.memread) (hazard_after m.regwrite m.num_rd HazardUnit.stall_forward w d)

no_load :
    (hazard memread : Bool) (f d : DecodeInterstage)
    → memread ≡ false
    → (let r : Bool × DecodeInterstage =
          if hazard then if memread then (true, d) else (false, f) else (false, d) in
        r.1)
      ≡ (if hazard then f else d)
no_load true true f d e = cc
no_load true false f d e = refl
no_load false memread f d e = refl

taken_hit :
    (regwrite : Bool) (rd value : ℕ) (req : Bool) (num old : ℕ)
    → regwrite ≡ true
    → rd ≢ 0
    → req ≡ true
    → num ≡ rd
    → taken regwrite rd value req num old ≡ value
taken_hit regwrite rd value req num old e nonzero r same = rw (e, r, same) (ground arith)

link_value :
    (m : ExecuteInterstage) (read : ℕ)
    → m.branch_jal ≡ true
    → m.csr ≡ false
    → value_to_write m read ≡ m.next_inst_addr
link_value m read jal csr =
    rw (csr, jal) (elim (Bool-cases m.branch_jalr) [ inl e ↦ rw e refl | inr e ↦ rw e refl ])

-- A JAL ahead that stores its return address in a register, not 0, which the next instruction requires as
-- its first operand, with a unit that forwards: that operand
-- becomes the result of the arithmetic unit, and what the jump later writes is the return address.
pub link_not_forwarded :
    (w : MemoryInterstage) (m : ExecuteInterstage) (d : DecodeInterstage) (read : ℕ)
    → m.branch_jal ≡ true
    → m.csr ≡ false
    → m.memread ≡ false
    → m.regwrite ≡ true
    → m.num_rd ≢ 0
    → d.alu_req_rs ≡ true
    → d.num_rs ≡ m.num_rd
    → ((handle_data_hazards HazardUnit.stall_forward w m d).1.val_rs ≡ m.alu_val)
      × (value_to_write m read ≡ m.next_inst_addr)
unfolding handle_data_hazards handle_mem_wb handle_ex_mem
link_not_forwarded w m d read jal csr memread regwrite nonzero req same =
    let ready = (handle_mem_wb HazardUnit.stall_forward w d).1 in
    let ((rs, rt, req_rs, req_rt), val_rs, val_rt) =
      hazard_forward w.regwrite w.num_rd w.towrite_val ForwardFrom.from_w d in
    let (same', val_rs', val_rt') =
      hazard_forward m.regwrite m.num_rd m.alu_val ForwardFrom.from_m ready in
    (
      ap (λ (f : DecodeInterstage). f.val_rs)
            (no_load (is_hazard_in_stage m.regwrite m.num_rd ready) m.memread _ ready memread)
          ∙ val_rs'
          ∙ taken_hit m.regwrite m.num_rd m.alu_val ready.alu_req_rs ready.num_rs ready.val_rs
              regwrite nonzero (req_rs ∙ req) (rs ∙ same),
      link_value m read jal csr,
    )

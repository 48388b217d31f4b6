-- ===== src/Core/Hazard/Forward.antt =====
-- What forwarding and stalling make of the operands that were read in the decode stage.
use qtrvsim.Base.{
  ℕ, zero, suc, ◌<◌, ◌≡◌, refl, ap, ◌∙◌, Bool, true, false, not, ◌&&◌, ◌||◌, ◌==◌, Bool-cases, inl,
  inr, length, if◌then◌else◌, arith,
}
use qtrvsim.Registers.{Registers, read_gp, write_gp}
use qtrvsim.Registers.Reads.{read_gp-write_gp, read_gp-zero, length-write_gp}
use qtrvsim.Core.Stage.{ForwardFrom, DecodeInterstage, ExecuteInterstage, MemoryInterstage}
use qtrvsim.Core.Hazard.{
  HazardUnit, is_hazard_in_stage, forward, handle_mem_wb, handle_ex_mem, handle_data_hazards,
}

-- The two operands with what tells where they come from.
abbrev pub Same : DecodeInterstage → DecodeInterstage → Type 0
Same d f =
    (f.num_rs ≡ d.num_rs)
    × (f.num_rt ≡ d.num_rt)
    × (f.alu_req_rs ≡ d.alu_req_rs)
    × (f.alu_req_rt ≡ d.alu_req_rt)

-- An operand after one writer.
abbrev pub taken : Bool → ℕ → ℕ → Bool → ℕ → ℕ → ℕ
taken regwrite rd value req num old =
    if regwrite && not (rd == 0) && (req && rd == num) then value else old

-- `f` has the operands of `d`, except those that the writer writes.
abbrev pub Forwarded : Bool → ℕ → ℕ → DecodeInterstage → DecodeInterstage → Type 0
Forwarded regwrite rd value d f =
    Same d f
    × (f.val_rs ≡ taken regwrite rd value d.alu_req_rs d.num_rs d.val_rs)
    × (f.val_rt ≡ taken regwrite rd value d.alu_req_rt d.num_rt d.val_rt)

pub hazard_forward :
    (regwrite : Bool) (rd value : ℕ) (stage : ForwardFrom) (d : DecodeInterstage)
    → Forwarded regwrite rd value d
        (if is_hazard_in_stage regwrite rd d then forward stage rd value d else d)
unfolding is_hazard_in_stage
hazard_forward false rd value stage d = ((refl, refl, refl, refl), refl, refl)
hazard_forward true rd value stage d = elim (Bool-cases (rd == 0)) [
  | inl z ↦ rw z ((refl, refl, refl, refl), refl, refl)
  | inr nz ↦ elim (Bool-cases (d.alu_req_rs && rd == d.num_rs)) [
    | inl rs ↦ elim (Bool-cases (d.alu_req_rt && rd == d.num_rt)) [
      | inl rt ↦ rw (nz, rs, rt) ((refl, refl, refl, refl), refl, refl)
      | inr rt ↦ rw (nz, rs, rt) ((refl, refl, refl, refl), refl, refl)
    ]
    | inr rs ↦ elim (Bool-cases (d.alu_req_rt && rd == d.num_rt)) [
      | inl rt ↦ rw (nz, rs, rt) ((refl, refl, refl, refl), refl, refl)
      | inr rt ↦ rw (nz, rs, rt) ((refl, refl, refl, refl), refl, refl)
    ]
  ]
]

hazard_none :
    (regwrite : Bool) (rd value : ℕ) (d : DecodeInterstage)
    → is_hazard_in_stage regwrite rd d ≡ false
    → Forwarded regwrite rd value d d
hazard_none regwrite rd value d e = rw e at (hazard_forward regwrite rd value ForwardFrom.none d)

handle_mem_wb_lem :
    (unit : HazardUnit) (w : MemoryInterstage) (d : DecodeInterstage)
    → (handle_mem_wb unit w d).0 ≡ false
    → Forwarded w.regwrite w.num_rd w.towrite_val d (handle_mem_wb unit w d).1
unfolding handle_mem_wb
handle_mem_wb_lem HazardUnit.none w d e = hazard_none w.regwrite w.num_rd w.towrite_val d e
handle_mem_wb_lem HazardUnit.stall w d e = hazard_none w.regwrite w.num_rd w.towrite_val d e
handle_mem_wb_lem HazardUnit.stall_forward w d e =
    hazard_forward w.regwrite w.num_rd w.towrite_val ForwardFrom.from_w d

forward_or_stall :
    (hazard memread : Bool) (d f : DecodeInterstage)
    → let r : Bool × DecodeInterstage =
        if hazard then if memread then (true, d) else (false, f) else (false, d) in
      r.0 ≡ false → r.1 ≡ (if hazard then f else d)
forward_or_stall true true d f e = cc
forward_or_stall true false d f e = refl
forward_or_stall false memread d f e = refl

handle_ex_mem_lem :
    (unit : HazardUnit) (m : ExecuteInterstage) (d : DecodeInterstage)
    → (handle_ex_mem unit m d).0 ≡ false
    → Forwarded m.regwrite m.num_rd m.alu_val d (handle_ex_mem unit m d).1
unfolding handle_ex_mem
handle_ex_mem_lem HazardUnit.none m d e = hazard_none m.regwrite m.num_rd m.alu_val d e
handle_ex_mem_lem HazardUnit.stall m d e = hazard_none m.regwrite m.num_rd m.alu_val d e
handle_ex_mem_lem HazardUnit.stall_forward m d e =
    rw
      (forward_or_stall (is_hazard_in_stage m.regwrite m.num_rd d) m.memread d
        (forward ForwardFrom.from_m m.num_rd m.alu_val d) e)
      (hazard_forward m.regwrite m.num_rd m.alu_val ForwardFrom.from_m d)

-- The registers after one more write.
abbrev pub written : Registers → Bool → ℕ → ℕ → Registers
written r regwrite rd value = if regwrite then write_gp r rd value else r

-- The operand, where it is required, is what the registers hold.
abbrev pub operand : Registers → Bool → ℕ → ℕ → ℕ
operand r req num old = if req then read_gp r num else old

choose_read :
    (rd num value old before : ℕ)
    → old ≡ before
    → (num ≡ 0 → before ≡ 0)
    → taken true rd value true num old
      ≡ (if num == 0 then 0 else if rd == num then value else before)
choose_read rd zero value old before e z = let b = z refl in ground arith
choose_read rd (suc n) value old before e z = ground arith

-- A forwarded operand is what is read after the write.
taken_lem :
    (r : Registers) (regwrite : Bool) (rd value : ℕ) (req : Bool) (num old other : ℕ)
    → length r.gp ≡ 32
    → rd < 32
    → old ≡ operand r req num other
    → taken regwrite rd value req num old ≡ operand (written r regwrite rd value) req num other
taken_lem r false rd value req num old other size small e = e
taken_lem r true rd value false num old other size small e = ground arith
taken_lem r true rd value true num old other size small e =
    rw (read_gp-write_gp r rd num value size small)
      (choose_read rd num value old (read_gp r num) e (λ z. ap (read_gp r) z ∙ read_gp-zero r))

length-written :
    (r : Registers) (regwrite : Bool) (rd value : ℕ)
    → length r.gp ≡ 32
    → length (written r regwrite rd value).gp ≡ 32
length-written r true rd value size = length-write_gp r rd value ∙ size
length-written r false rd value size = size

or-false : (a b : Bool) → (a || b) ≡ false → (a ≡ false) × (b ≡ false)
or-false true b e = cc
or-false false b e = (refl, e)

-- Where the hazard unit asks for no stall and the required operands were read from a file of 32 registers,
-- they are afterwards what that file holds once the two instructions ahead, whose registers are below 32,
-- have written in order: the older one its value, the nearer one its ALU result.
pub operands_lem :
    (unit : HazardUnit) (r : Registers) (w : MemoryInterstage) (m : ExecuteInterstage)
    (d : DecodeInterstage)
    → length r.gp ≡ 32
    → w.num_rd < 32
    → m.num_rd < 32
    → d.val_rs ≡ operand r d.alu_req_rs d.num_rs d.val_rs
    → d.val_rt ≡ operand r d.alu_req_rt d.num_rt d.val_rt
    → (handle_data_hazards unit w m d).0 ≡ false
    → let f = (handle_data_hazards unit w m d).1 in
      let after =
        written (written r w.regwrite w.num_rd w.towrite_val) m.regwrite m.num_rd m.alu_val in
      (f.val_rs ≡ operand after d.alu_req_rs d.num_rs d.val_rs)
      × (f.val_rt ≡ operand after d.alu_req_rt d.num_rt d.val_rt)
unfolding handle_data_hazards
operands_lem unit r w m d size small_w small_m read_rs read_rt e =
    let (stall_w, stall_m) = or-false _ _ e in
    let ((rs, rt, req_rs, req_rt), val_rs, val_rt) = handle_mem_wb_lem unit w d stall_w in
    let (same, val_rs', val_rt') = handle_ex_mem_lem unit m (handle_mem_wb unit w d).1 stall_m in
    let after_w = written r w.regwrite w.num_rd w.towrite_val in
    let size_w = length-written r w.regwrite w.num_rd w.towrite_val size in
    (
      (rw (req_rs, rs) at val_rs')
          ∙ taken_lem after_w m.regwrite m.num_rd m.alu_val d.alu_req_rs d.num_rs _ d.val_rs size_w
              small_m
              (val_rs
                ∙ taken_lem r w.regwrite w.num_rd w.towrite_val d.alu_req_rs d.num_rs d.val_rs
                    d.val_rs size small_w read_rs),
      (rw (req_rt, rt) at val_rt')
          ∙ taken_lem after_w m.regwrite m.num_rd m.alu_val d.alu_req_rt d.num_rt _ d.val_rt size_w
              small_m
              (val_rt
                ∙ taken_lem r w.regwrite w.num_rd w.towrite_val d.alu_req_rt d.num_rt d.val_rt
                    d.val_rt size small_w read_rt),
    )

-- ===== src/Core/State.antt =====
-- The state of a core, src/machine/core/core_state.h with the fields of `Core`, and the steps on it: a step
-- may throw, and what it changed before stays changed.
pub mod Steps
pub mod Kept
use qtrvsim.Base.{
  ℕ, ◌+◌, ◌-◌, ◌%◌, ◌^◌, bit_and, bit_or, Bool, true, false, Option, none, some, List, leb, ◌==◌,
  ◌&&◌, if◌then◌else◌,
}
use qtrvsim.Csr.Address.{Xlen, is_32, PrivilegeLevel, level_number, ExceptionCause}
use qtrvsim.Csr.Field.{bit_not}
use qtrvsim.Csr.State.{ControlState}
use qtrvsim.Predictor.Unit.{BranchPredictor}
use qtrvsim.Registers
use qtrvsim.Registers.{Registers}
use qtrvsim.Core.Memory.{AccessMode, AccessOp, SimulatorException, Result, ok, throw}
use qtrvsim.Core.Stage.{FetchInterstage, DecodeInterstage, ExecuteInterstage, MemoryInterstage}

pub record AddressRange : Type 0 where
  pub first : ℕ
  pub last : ℕ

abbrev pub empty_range : AddressRange
empty_range = record { first = 1; last = 0 }

unfoldable pub contains : AddressRange → AddressRange → Bool
contains range other = leb range.first other.first && leb other.last range.last

pub record CoreState (M : Type 0) : Type 0 where
  pub memory : M
  pub regs : Registers
  pub control_state : ControlState
  pub predictor : BranchPredictor
  pub load_reserved_range : AddressRange
  pub stall_count : ℕ
  pub cycle_count : ℕ
  pub current_privilege : PrivilegeLevel
  pub current_asid : ℕ
  pub xlen : Xlen
  pub check_inst_flags_val : ℕ
  pub check_inst_flags_mask : ℕ
  pub stop_on_hwbreak : Bool
  pub step_over_exception : ExceptionCause → Bool
  pub hw_breaks : List ℕ
  pub stop_if : Bool
  pub if_id : FetchInterstage
  pub id_ex : DecodeInterstage
  pub ex_mem : ExecuteInterstage
  pub mem_wb : MemoryInterstage
  pub prev_inst_addr : ℕ

abbrev pub Action : Type 0 → Type 0 → Type 0
Action M A = CoreState M → Result A × CoreState M

module _ {M A : Type 0} where
  abbrev pub pure : A → Action M A
  pure a s = (ok a, s)

  abbrev pub raise : SimulatorException → Action M A
  raise e s = (throw e, s)

  abbrev pub gets : (CoreState M → A) → Action M A
  gets f s = (ok (f s), s)

  abbrev pub or_throw : SimulatorException → Option A → Action M A
  or_throw e none s = (throw e, s)
  or_throw e (some a) s = (ok a, s)

infixl 5 ◌>>=◌ ◌>>◌
abbrev pub ◌>>=◌ : {M A B : Type 0} → Action M A → (A → Action M B) → Action M B
◌>>=◌ m f s = let (r, s') = m s in elim r [ ok a ↦ f a s' | throw e ↦ (throw e, s') ]

abbrev pub ◌>>◌ : {M A B : Type 0} → Action M A → Action M B → Action M B
m >> k = m >>= λ _. k

module _ {M : Type 0} where
  abbrev pub modify : (CoreState M → CoreState M) → Action M (Unit {0})
  modify f s = (ok tt, f s)

  abbrev pub when : Bool → Action M (Unit {0}) → Action M (Unit {0})
  when true m = m
  when false m = pure tt

  -- A call on the memory.
  abbrev pub on_memory : {A : Type 0} → (M → Result A × M) → Action M A
  on_memory f s = let (r, m) = f s.memory in (r, record s { memory = m })

  abbrev pub write_pc_in : CoreState M → Option Registers → Result (Unit {0}) × CoreState M
  write_pc_in s none = (throw SimulatorException.unaligned_jump, s)
  write_pc_in s (some regs) = (ok tt, record s { regs = regs })

  unfoldable pub write_pc : ℕ → Action M (Unit {0})
  write_pc address s = write_pc_in s (Registers.write_pc s.regs address)

  abbrev pub set_csr : ControlState → CoreState M → CoreState M
  set_csr c s = record s { control_state = c }

  abbrev pub set_range : AddressRange → CoreState M → CoreState M
  set_range range s = record s { load_reserved_range = range }

  abbrev pub set_predictor : BranchPredictor → CoreState M → CoreState M
  set_predictor p s = record s { predictor = p }

  -- `make_access_mode`
  abbrev pub access_mode : AccessOp → CoreState M → AccessMode
  access_mode op s = record { asid = s.current_asid % 2 ^ 9; priv = s.current_privilege; op = op }

-- `IMF_PRIV_S`, `IMF_PRIV_H` and `IMF_PRIV_M` of src/machine/instruction.h.
abbrev pub imf_priv_s : ℕ
imf_priv_s = 2 ^ 25

abbrev pub imf_priv_h : ℕ
imf_priv_h = 2 ^ 26

abbrev pub imf_priv_m : ℕ
imf_priv_m = 2 ^ 27

abbrev pub priv_bits : ℕ
priv_bits = bit_or (bit_or imf_priv_m imf_priv_h) imf_priv_s

-- `allowed_priv` of `set_current_privilege`.
abbrev pub allowed_priv : PrivilegeLevel → ℕ
allowed_priv privilege =
    let n = level_number privilege in
    let s = if leb 1 n then imf_priv_s else 0 in
    let h = if leb 2 n then imf_priv_h else 0 in
    let m = if leb 3 n then imf_priv_m else 0 in bit_or (bit_or s h) m

module _ {M : Type 0} where
  unfoldable pub set_current_privilege : PrivilegeLevel → CoreState M → CoreState M
  set_current_privilege privilege s =
      let base = bit_and s.check_inst_flags_mask (2 ^ 32 - 1 - priv_bits) in
      let disallowed = bit_and priv_bits (2 ^ 32 - 1 - allowed_priv privilege) in
      record s {
        current_privilege = privilege;
        check_inst_flags_mask = bit_or base disallowed;
        check_inst_flags_val = bit_and s.check_inst_flags_val (2 ^ 32 - 1 - priv_bits);
      }

  unfoldable pub get_xlen_from_reg : CoreState M → ℕ → ℕ
  get_xlen_from_reg s reg = if is_32 s.xlen then reg % 2 ^ 32 else reg

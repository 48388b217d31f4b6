-- ===== src/Core/Memory.antt =====
-- What the core asks of its memory, src/machine/memory/frontend_memory.h and frontend_memory.cpp, and the
-- kinds of access of src/machine/machinedefs.h.
use qtrvsim.Base.{ℕ, ◌+◌, ◌-◌, ◌*◌, ◌%◌, ◌^◌, Bool, true, false, ltb, if◌then◌else◌}
use qtrvsim.Csr.Address.{PrivilegeLevel, ExceptionCause}

pub data AccessControl : Type 0 where
  none i8 u8 i16 u16 i32 u32 i64 u64 : AccessControl
  lr32 sc32 amoswap32 amoadd32 amoxor32 amoand32 amoor32 : AccessControl
  amomin32 amomax32 amominu32 amomaxu32 : AccessControl
  lr64 sc64 amoswap64 amoadd64 amoxor64 amoand64 amoor64 : AccessControl
  amomin64 amomax64 amominu64 amomaxu64 sfence_vma cache_op : AccessControl

abbrev pub is_regular_access : AccessControl → Bool
is_regular_access AccessControl.i8 = true
is_regular_access AccessControl.u8 = true
is_regular_access AccessControl.i16 = true
is_regular_access AccessControl.u16 = true
is_regular_access AccessControl.i32 = true
is_regular_access AccessControl.u32 = true
is_regular_access AccessControl.i64 = true
is_regular_access AccessControl.u64 = true
is_regular_access _ = false

pub data AccessOp : Type 0 where
  fetch read write : AccessOp

-- `AccessMode`, unpacked.
pub record AccessMode : Type 0 where
  pub asid : ℕ
  pub priv : PrivilegeLevel
  pub op : AccessOp

-- The exceptions that a step can meet. `no_return` stands for a loop that does not end.
pub data SimulatorException : Type 0 where
  page_fault : ExceptionCause → SimulatorException
  unsupported_instruction unknown_memory_control unaligned_jump no_return : SimulatorException

pub data Result (A : Type 0) : Type 0 where
  ok : A → Result A
  throw : SimulatorException → Result A

-- The memory below the core, with its two ports. A value of `size` bytes is a number below 2 ^ (8 * size),
-- as `read_generic` and `write_generic` pass it.
pub record FrontendMemory (M : Type 0) : Type 0 where
  pub read_program : M → ℕ → AccessMode → ℕ → Result ℕ × M
  pub read_data : M → ℕ → AccessMode → ℕ → Result ℕ × M
  pub write_data : M → ℕ → AccessMode → ℕ → ℕ → Result (Unit {0}) × M
  pub sync_program : M → M
  pub sync_data : M → M
  pub sfence_program : M → ℕ → ℕ → M
  pub sfence_data : M → ℕ → ℕ → M

-- The number of bytes of a regular access.
abbrev pub access_size : AccessControl → ℕ
access_size AccessControl.i8 = 1
access_size AccessControl.u8 = 1
access_size AccessControl.i16 = 2
access_size AccessControl.u16 = 2
access_size AccessControl.i32 = 4
access_size AccessControl.u32 = 4
access_size AccessControl.i64 = 8
access_size AccessControl.u64 = 8
access_size _ = 0

-- The register value of a `bits`-bit pattern as a signed number.
abbrev pub extend_sign : ℕ → ℕ → ℕ
extend_sign bits x = if ltb x (2 ^ (bits - 1)) then x else x + (2 ^ 64 - 2 ^ bits)

-- What `read_ctl` makes of the value that was read.
abbrev pub of_read : AccessControl → ℕ → ℕ
of_read AccessControl.i8 x = extend_sign 8 x
of_read AccessControl.i16 x = extend_sign 16 x
of_read AccessControl.i32 x = extend_sign 32 x
of_read _ x = x

abbrev map_result : {A B : Type 0} → (A → B) → Result A → Result B
map_result f (ok a) = ok (f a)
map_result f (throw e) = throw e

module _ {M : Type 0} (memory : FrontendMemory M) where
  unfoldable pub read_ctl : M → AccessControl → ℕ → AccessMode → Result ℕ × M
  read_ctl m AccessControl.none address mode = (ok 0, m)
  read_ctl m ctl address mode =
      let (result, m') = memory.read_data m address mode (access_size ctl) in
      if is_regular_access ctl
      then (map_result (of_read ctl) result, m')
      else (throw SimulatorException.unknown_memory_control, m)

  unfoldable pub write_ctl : M → AccessControl → ℕ → AccessMode → ℕ → Result (Unit {0}) × M
  write_ctl m AccessControl.none address mode value = (ok tt, m)
  write_ctl m ctl address mode value =
      if is_regular_access ctl
      then memory.write_data m address mode (access_size ctl) (value % 2 ^ (8 * access_size ctl))
      else (throw SimulatorException.unknown_memory_control, m)

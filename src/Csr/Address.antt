-- ===== src/Csr/Address.antt =====
-- Addresses of registers and privilege levels, src/machine/csr/address.h, the register width of
-- src/machine/register_value.h and the causes of src/machine/machinedefs.h.
use qtrvsim.Base.{ℕ, ◌/◌, ◌%◌, ◌^◌, Bool, true, false, not, ◌==◌, if◌then◌else◌}

pub data Xlen : Type 0 where
  xlen_32 xlen_64 : Xlen

abbrev pub is_32 : Xlen → Bool
is_32 Xlen.xlen_32 = true
is_32 Xlen.xlen_64 = false

pub data PrivilegeLevel : Type 0 where
  unprivileged supervisor hypervisor machine : PrivilegeLevel

-- The number of the level, which the comparisons use.
abbrev pub level_number : PrivilegeLevel → ℕ
level_number PrivilegeLevel.unprivileged = 0
level_number PrivilegeLevel.supervisor = 1
level_number PrivilegeLevel.hypervisor = 2
level_number PrivilegeLevel.machine = 3

abbrev pub level_of_number : ℕ → PrivilegeLevel
level_of_number n =
    if n == 0
    then PrivilegeLevel.unprivileged
    else if n == 1
    then PrivilegeLevel.supervisor
    else if n == 2
    then PrivilegeLevel.hypervisor
    else PrivilegeLevel.machine

abbrev pub is_machine : PrivilegeLevel → Bool
is_machine PrivilegeLevel.machine = true
is_machine _ = false

abbrev pub is_supervisor : PrivilegeLevel → Bool
is_supervisor PrivilegeLevel.supervisor = true
is_supervisor _ = false

-- Bits 11 to 10 and bits 9 to 8 of a 12-bit address.
unfoldable pub is_writable : ℕ → Bool
is_writable address = not (address / 2 ^ 10 % 2 ^ 2 == 3)

unfoldable pub get_privilege_level : ℕ → PrivilegeLevel
get_privilege_level address = level_of_number (address / 2 ^ 8 % 2 ^ 2)

-- The causes of exceptions, with the number of each.
pub data ExceptionCause : Type 0 where
  none insn_fault insn_illegal break load_misaligned load_fault store_misaligned : ExceptionCause
  store_fault ecall_u ecall_s reserved_10 ecall_m insn_page_fault load_page_fault : ExceptionCause
  reserved_14 store_page_fault hwbreak ecall_any int_m int_s : ExceptionCause

abbrev pub cause_number : ExceptionCause → ℕ
cause_number ExceptionCause.none = 0
cause_number ExceptionCause.insn_fault = 1
cause_number ExceptionCause.insn_illegal = 2
cause_number ExceptionCause.break = 3
cause_number ExceptionCause.load_misaligned = 4
cause_number ExceptionCause.load_fault = 5
cause_number ExceptionCause.store_misaligned = 6
cause_number ExceptionCause.store_fault = 7
cause_number ExceptionCause.ecall_u = 8
cause_number ExceptionCause.ecall_s = 9
cause_number ExceptionCause.reserved_10 = 10
cause_number ExceptionCause.ecall_m = 11
cause_number ExceptionCause.insn_page_fault = 12
cause_number ExceptionCause.load_page_fault = 13
cause_number ExceptionCause.reserved_14 = 14
cause_number ExceptionCause.store_page_fault = 15
cause_number ExceptionCause.hwbreak = 16
cause_number ExceptionCause.ecall_any = 17
cause_number ExceptionCause.int_m = 18
cause_number ExceptionCause.int_s = 19

abbrev pub is_interrupt : ExceptionCause → Bool
is_interrupt ExceptionCause.int_m = true
is_interrupt ExceptionCause.int_s = true
is_interrupt _ = false

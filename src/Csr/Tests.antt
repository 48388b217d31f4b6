-- ===== src/Csr/Tests.antt =====
-- Runs of the control registers.
use qtrvsim.Base.{◌≡◌, ◌≤◌, refl, true, some, length, arith}
use qtrvsim.Csr.Address.{Xlen, PrivilegeLevel, level_number, is_writable, get_privilege_level}
use qtrvsim.Csr.Field.{sie, mie, mask}
use qtrvsim.Csr.Table.{id_count, id_mstatus, get_register_internal_id}
use qtrvsim.Csr.State
use qtrvsim.Csr.State.{
  ControlState, read_internal, read_field, store, s_mask, default_value, satp_value, write_with,
  write_internal, write, write_field_raw, exception_initiate, exception_return,
}
use qtrvsim.Csr.Status.{IsConsistent}
use qtrvsim.Csr.Access.{write-IsConsistent}
use qtrvsim.Csr.Trap.Machine.{exception_return-exception_initiate}
use qtrvsim.Csr.Trap.Supervisor.{exception_return-exception_initiate-supervisor}

-- The registers after a reset of a 32-bit machine.
abbrev booted : ControlState
booted = State.reset Xlen.xlen_32

booted-size : length booted.register_data ≡ id_count
unfolding State.reset store read_internal
booted-size = refl

booted-IsConsistent : IsConsistent booted
unfolding State.reset store read_internal s_mask mask
booted-IsConsistent = record { size = refl; shown = refl }

abbrev with_interrupts : ControlState
with_interrupts = write_internal booted id_mstatus 8

accepted : write booted 0x300 8 PrivilegeLevel.machine ≡ some (write_internal booted id_mstatus 8)
unfolding write get_register_internal_id is_writable get_privilege_level
accepted = refl

write-IsConsistent_example :
    (is_writable 0x300 ≡ true)
    × (level_number (get_privilege_level 0x300) ≤ level_number PrivilegeLevel.machine)
    × IsConsistent (write_internal booted id_mstatus 8)
write-IsConsistent_example =
    write-IsConsistent booted 0x300 8 PrivilegeLevel.machine (write_internal booted id_mstatus 8)
      booted-IsConsistent accepted

exception_return-exception_initiate_example :
    let t = exception_initiate booted PrivilegeLevel.supervisor PrivilegeLevel.machine in
    let (u, restored) = exception_return t PrivilegeLevel.machine PrivilegeLevel.machine in
    (restored ≡ PrivilegeLevel.supervisor)
    × (read_field u id_mstatus mie ≡ read_field booted id_mstatus mie)
exception_return-exception_initiate_example =
    exception_return-exception_initiate booted PrivilegeLevel.supervisor booted-size

exception_return-exception_initiate-supervisor_example :
    let t = exception_initiate booted PrivilegeLevel.unprivileged PrivilegeLevel.supervisor in
    let (u, restored) = exception_return t PrivilegeLevel.supervisor PrivilegeLevel.supervisor in
    (restored ≡ PrivilegeLevel.unprivileged)
    × (read_field u id_mstatus sie ≡ read_field booted id_mstatus sie)
exception_return-exception_initiate-supervisor_example =
    exception_return-exception_initiate-supervisor booted PrivilegeLevel.unprivileged (omega arith)
      booted-IsConsistent

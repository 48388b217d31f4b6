-- ===== src/Csr/Trap/Machine.antt =====
-- A trap to machine mode and the return from it.
use qtrvsim.Base.{
  ℕ, ◌%◌, ◌^◌, ◌≡◌, refl, ap, ◌∙◌, bit_and, not, ◌&&◌, length, arith, Bool-cases, inl, inr,
}
use qtrvsim.Base.Bits.{bit_and_mask}
use qtrvsim.Csr.Address.{PrivilegeLevel, level_number, level_of_number, is_machine}
use qtrvsim.Csr.Field.{mie, mpie, mpp, mprv}
use qtrvsim.Csr.Table.{id_mstatus, id_count}
use qtrvsim.Csr.State.{
  ControlState, read_field, write_field, exception_initiate, exception_return, clear_mprv,
  return_fields,
}
use qtrvsim.Csr.Trap.Fields.{
  mie-IsStatusField, mpie-IsStatusField, mpp-IsStatusField, mie-IsApart-mpie, mpie-IsApart-mie,
  mpp-IsApart-mie, mpp-IsApart-mpie, mie-IsApart-mpp, mpie-IsApart-mpp, mprv-IsApart-mie,
}
use qtrvsim.Csr.Trap.Writes.{
  length-write_field, read_field-write_field, read_field-write_other, read_field-mod,
}

small_level : (act : PrivilegeLevel) → level_number act % 2 ^ 2 ≡ level_number act
small_level PrivilegeLevel.unprivileged = refl
small_level PrivilegeLevel.supervisor = refl
small_level PrivilegeLevel.hypervisor = refl
small_level PrivilegeLevel.machine = refl

pub level_of_level : (act : PrivilegeLevel) → level_of_number (level_number act) ≡ act
level_of_level PrivilegeLevel.unprivileged = refl
level_of_level PrivilegeLevel.supervisor = refl
level_of_level PrivilegeLevel.hypervisor = refl
level_of_level PrivilegeLevel.machine = refl

-- A trap to machine mode switches its interrupts off, and keeps the old switch and the old level.
pub exception_initiate_machine :
    (s : ControlState) (act : PrivilegeLevel)
    → length s.register_data ≡ id_count
    → let t = exception_initiate s act PrivilegeLevel.machine in
      (read_field t id_mstatus mie ≡ 0)
      × (read_field t id_mstatus mpie ≡ read_field s id_mstatus mie)
      × (read_field t id_mstatus mpp ≡ level_number act)
      × (length t.register_data ≡ id_count)
unfolding exception_initiate
exception_initiate_machine s act size =
    let old = read_field s id_mstatus mie % 2 ^ 32 in
    let a = write_field s id_mstatus mpie old in
    let size_a = length-write_field s mpie old size in
    let b = write_field a id_mstatus mie 0 in
    let size_b = length-write_field a mie 0 size_a in
    let n = level_number act in
    (
      read_field-write_other b mpp mie n size_b mie-IsStatusField mpp-IsApart-mie
          ∙ read_field-write_field a mie 0 size_a mie-IsStatusField,
      read_field-write_other b mpp mpie n size_b mpie-IsStatusField mpp-IsApart-mpie
          ∙ read_field-write_other a mie mpie 0 size_a mpie-IsStatusField mie-IsApart-mpie
          ∙ read_field-write_field s mpie old size mpie-IsStatusField
          ∙ omega (arith, read_field-mod s mie),
      read_field-write_field b mpp n size_b mpp-IsStatusField ∙ small_level act,
      length-write_field b mpp n size_b,
    )

return_machine :
    (s : ControlState)
    → length s.register_data ≡ id_count
    → let (t, restored) = return_fields s PrivilegeLevel.machine in
      (read_field t id_mstatus mie ≡ read_field s id_mstatus mpie)
      × (restored ≡ level_of_number (read_field s id_mstatus mpp))
      × (length t.register_data ≡ id_count)
unfolding return_fields
return_machine s size =
    let old = read_field s id_mstatus mpie in
    let a = write_field s id_mstatus mie old in
    let size_a = length-write_field s mie old size in
    let b = write_field a id_mstatus mpie 1 in
    let size_b = length-write_field a mpie 1 size_a in
    let kept : read_field b id_mstatus mpp ≡ read_field s id_mstatus mpp =
      read_field-write_other a mpie mpp 1 size_a mpp-IsStatusField mpie-IsApart-mpp
      ∙ read_field-write_other s mie mpp old size mpp-IsStatusField mie-IsApart-mpp in
    (
      read_field-write_other b mpp mie 0 size_b mie-IsStatusField mpp-IsApart-mie
          ∙ read_field-write_other a mpie mie 1 size_a mie-IsStatusField mpie-IsApart-mie
          ∙ read_field-write_field s mie old size mie-IsStatusField
          ∙ read_field-mod s mpie,
      ap level_of_number (
          ap (λ (x : ℕ). bit_and x 3) kept
          ∙ bit_and_mask 2 (read_field s id_mstatus mpp)
          ∙ read_field-mod s mpp),
      length-write_field b mpp 0 size_b,
    )

-- The clearing of `MPRV` leaves the switch alone.
pub return_rest :
    (s : ControlState) (restored act : PrivilegeLevel)
    → length s.register_data ≡ id_count
    → let (t, level) = clear_mprv act (s, restored) in
      (level ≡ restored) × (read_field t id_mstatus mie ≡ read_field s id_mstatus mie)
return_rest s restored act size = elim (Bool-cases (is_machine act && not (is_machine restored))) [
  | inl less ↦
      rw less (refl, read_field-write_other s mprv mie 0 size mie-IsStatusField mprv-IsApart-mie)
  | inr same ↦ rw same (refl, refl)
]

-- On a table of the 36 registers the return from a trap to machine mode undoes the trap: from any level it goes back to that level, with
-- the machine interrupts switched as they were before the trap.
pub exception_return-exception_initiate :
    (s : ControlState) (act : PrivilegeLevel)
    → length s.register_data ≡ id_count
    → let t = exception_initiate s act PrivilegeLevel.machine in
      let (u, restored) = exception_return t PrivilegeLevel.machine PrivilegeLevel.machine in
      (restored ≡ act) × (read_field u id_mstatus mie ≡ read_field s id_mstatus mie)
unfolding exception_return
exception_return-exception_initiate s act size =
    let t = exception_initiate s act PrivilegeLevel.machine in
    let (off, kept, level, size_t) = exception_initiate_machine s act size in
    let (switch, restored, size_u) = return_machine t size_t in
    let (same, rest) =
      return_rest (return_fields t PrivilegeLevel.machine).0
        (return_fields t PrivilegeLevel.machine).1 PrivilegeLevel.machine size_u in
    (same ∙ restored ∙ ap level_of_number level ∙ level_of_level act, rest ∙ switch ∙ kept)

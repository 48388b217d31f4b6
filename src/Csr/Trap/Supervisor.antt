-- ===== src/Csr/Trap/Supervisor.antt =====
-- A trap to supervisor mode and the return from it. The trap writes `sstatus`, and the return `mstatus`.
use qtrvsim.Base.{
  ℕ, ◌-◌, ◌%◌, ◌^◌, ◌<◌, ◌≡◌, refl, ap, ap₂, ◌∙◌, bit_and, bit_or, length, arith, if◌then◌else◌,
  ◌==◌,
}
use qtrvsim.Base.Bits.{bit_and_mask}
use qtrvsim.Csr.Address.{Xlen, PrivilegeLevel, level_number, is_supervisor}
use qtrvsim.Csr.Field.{BitField, bit_not, decode, mask, sie, spie, spp}
use qtrvsim.Csr.Bits.{
  decode-or, decode-and, decode-and_all, decode-update, decode-update_other, and_zero, or_zero,
}
use qtrvsim.Csr.Table.{id_mstatus, id_sstatus, id_count}
use qtrvsim.Csr.State.{
  ControlState, read_internal, store, s_mask, cut, write_with, write_internal, read_field,
  write_field, exception_initiate, exception_return, return_fields,
}
use qtrvsim.Csr.Status.{IsConsistent, write_internal-IsConsistent, read-store_self, read-store_ne}
use qtrvsim.Csr.Trap.Fields.{
  IsStatusField, IsApart, sie-IsStatusField, spie-IsStatusField, spp-IsStatusField,
  sie-IsApart-spie, spie-IsApart-sie, spp-IsApart-sie, spp-IsApart-spie, sie-IsApart-spp,
  spie-IsApart-spp,
}
use qtrvsim.Csr.Trap.Writes.{
  length-write_field, read_field-write_field, read_field-write_other, read_field-mod,
}

-- A field that `sstatus` shows.
record IsShown (f : BitField) (xlen : Xlen) : Type 0 where
  status : IsStatusField f
  shown : decode f (s_mask xlen) ≡ 2 ^ f.count - 1
  own : decode f (bit_not (s_mask xlen)) ≡ 0

sie-IsShown : (xlen : Xlen) → IsShown sie xlen
unfolding s_mask mask decode
sie-IsShown Xlen.xlen_32 = record { status = sie-IsStatusField; shown = refl; own = refl }
sie-IsShown Xlen.xlen_64 = record { status = sie-IsStatusField; shown = refl; own = refl }

spie-IsShown : (xlen : Xlen) → IsShown spie xlen
unfolding s_mask mask decode
spie-IsShown Xlen.xlen_32 = record { status = spie-IsStatusField; shown = refl; own = refl }
spie-IsShown Xlen.xlen_64 = record { status = spie-IsStatusField; shown = refl; own = refl }

spp-IsShown : (xlen : Xlen) → IsShown spp xlen
unfolding s_mask mask decode
spp-IsShown Xlen.xlen_32 = record { status = spp-IsStatusField; shown = refl; own = refl }
spp-IsShown Xlen.xlen_64 = record { status = spp-IsStatusField; shown = refl; own = refl }

decode-cut :
    (f : BitField) (xlen : Xlen) (v : ℕ) → IsStatusField f → decode f (cut xlen v) ≡ decode f v
decode-cut f Xlen.xlen_32 v i = decode-and_all f v 0xffffffff i.low
decode-cut f Xlen.xlen_64 v i = refl

-- Where the two registers are consistent, the field reads the same in both.
read_field_shown :
    (s : ControlState) (f : BitField)
    → IsConsistent s
    → ((xlen : Xlen) → IsShown f xlen)
    → read_field s id_sstatus f ≡ read_field s id_mstatus f
unfolding read_field
read_field_shown s f c i =
    ap (decode f) c.shown
    ∙ decode-cut f s.xlen _ (i s.xlen).status
    ∙ decode-and_all f _ (s_mask s.xlen) (i s.xlen).shown

-- What a write to `sstatus` leaves in `mstatus`.
sstatus-write :
    (s : ControlState) (v : ℕ)
    → length s.register_data ≡ id_count
    → let shown = s_mask s.xlen in
      read_internal (write_internal s id_sstatus v) id_mstatus
      ≡ bit_or
          (bit_and (read_internal s id_mstatus) (bit_not shown))
          (bit_and (bit_and v 0xffffffff) shown)
unfolding write_internal write_with
sstatus-write s v size =
    let shown = s_mask s.xlen in
    let value =
      bit_or (bit_and (read_internal s id_mstatus) (bit_not shown))
        (bit_and (bit_and v 0xffffffff) shown) in
    read-store_ne (store s id_mstatus value) id_sstatus id_mstatus
      (cut s.xlen (bit_and value shown)) (λ e. omega (arith, e))
    ∙ read-store_self s id_mstatus value size (omega arith)

sstatus-field :
    (s : ControlState) (f : BitField) (v : ℕ)
    → length s.register_data ≡ id_count
    → ((xlen : Xlen) → IsShown f xlen)
    → read_field (write_internal s id_sstatus v) id_mstatus f ≡ decode f v
unfolding read_field
sstatus-field s f v size i =
    let shown = s_mask s.xlen in
    ap (decode f) (sstatus-write s v size)
    ∙ decode-or f _ _
    ∙ ap₂ bit_or (decode-and f _ (bit_not shown) ∙ ap (bit_and _) (i s.xlen).own ∙ and_zero _) (
        decode-and_all f _ shown (i s.xlen).shown
        ∙ decode-and_all f v 0xffffffff ((i s.xlen).status).low)
    ∙ (or_zero (decode f v)).1

write_field-IsConsistent :
    (s : ControlState) (f : BitField) (v : ℕ)
    → IsConsistent s
    → IsConsistent (write_field s id_sstatus f v)
unfolding write_field
write_field-IsConsistent s f v c = write_internal-IsConsistent s id_sstatus _ (omega arith) c

written_field :
    (s : ControlState) (f : BitField) (v : ℕ)
    → IsConsistent s
    → ((xlen : Xlen) → IsShown f xlen)
    → read_field (write_field s id_sstatus f v) id_mstatus f ≡ v % 2 ^ f.count
unfolding write_field
written_field s f v c i =
    sstatus-field s f _ c.size i
    ∙ decode-update f _ v (((i s.xlen).status).encoded v) ((i s.xlen).status).cleared

field_of :
    (s : ControlState) (f : BitField)
    → decode f (read_internal s id_sstatus) ≡ read_field s id_sstatus f
unfolding read_field
field_of s f = refl

other_field :
    (s : ControlState) (f g : BitField) (v : ℕ)
    → IsConsistent s
    → ((xlen : Xlen) → IsShown g xlen)
    → IsApart f g
    → read_field (write_field s id_sstatus f v) id_mstatus g ≡ read_field s id_mstatus g
unfolding write_field
other_field s f g v c i apart =
    sstatus-field s g _ c.size i
    ∙ decode-update_other f g _ v (apart.no_bits v) apart.left_alone
    ∙ field_of s g
    ∙ read_field_shown s g c i

small_level :
    (act : PrivilegeLevel)
    → (if is_supervisor act then 1 else 0) % 2 ^ 1 ≡ (if is_supervisor act then 1 else 0)
small_level act = ground arith

back_to :
    (act : PrivilegeLevel)
    → level_number act < 2
    → (if (if is_supervisor act then 1 else 0) == 1
        then PrivilegeLevel.supervisor
        else PrivilegeLevel.unprivileged)
      ≡ act
back_to PrivilegeLevel.unprivileged low = refl
back_to PrivilegeLevel.supervisor low = refl
back_to PrivilegeLevel.hypervisor low = absurd (omega arith)
back_to PrivilegeLevel.machine low = absurd (omega arith)

-- A trap to supervisor mode, seen in `mstatus`.
initiate_supervisor :
    (s : ControlState) (act : PrivilegeLevel)
    → IsConsistent s
    → let t = exception_initiate s act PrivilegeLevel.supervisor in
      (read_field t id_mstatus spie ≡ read_field s id_mstatus sie)
      × (read_field t id_mstatus spp ≡ (if is_supervisor act then 1 else 0))
      × (length t.register_data ≡ id_count)
unfolding exception_initiate
initiate_supervisor s act c =
    let old = read_field s id_sstatus sie % 2 ^ 32 in
    let a = write_field s id_sstatus spie old in
    let c_a = write_field-IsConsistent s spie old c in
    let b = write_field a id_sstatus sie 0 in
    let c_b = write_field-IsConsistent a sie 0 c_a in
    let level : ℕ = if is_supervisor act then 1 else 0 in
    (
      other_field b spp spie level c_b spie-IsShown spp-IsApart-spie
          ∙ other_field a sie spie 0 c_a spie-IsShown sie-IsApart-spie
          ∙ written_field s spie old c spie-IsShown
          ∙ ap (λ x. x % 2 ^ 32 % 2 ^ 1) (read_field_shown s sie c sie-IsShown)
          ∙ omega (arith, read_field-mod s sie),
      written_field b spp level c_b spp-IsShown ∙ small_level act,
      (write_field-IsConsistent b spp level c_b).size,
    )

return_supervisor :
    (s : ControlState)
    → length s.register_data ≡ id_count
    → let (t, restored) = return_fields s PrivilegeLevel.supervisor in
      (read_field t id_mstatus sie ≡ read_field s id_mstatus spie)
      × (restored ≡ (
          if read_field s id_mstatus spp == 1
          then PrivilegeLevel.supervisor
          else PrivilegeLevel.unprivileged))
unfolding return_fields
return_supervisor s size =
    let old = read_field s id_mstatus spie in
    let a = write_field s id_mstatus sie old in
    let size_a = length-write_field s sie old size in
    let b = write_field a id_mstatus spie 1 in
    let size_b = length-write_field a spie 1 size_a in
    let kept : read_field b id_mstatus spp ≡ read_field s id_mstatus spp =
      read_field-write_other a spie spp 1 size_a spp-IsStatusField spie-IsApart-spp
      ∙ read_field-write_other s sie spp old size spp-IsStatusField sie-IsApart-spp in
    (
      read_field-write_other b spp sie 0 size_b sie-IsStatusField spp-IsApart-sie
          ∙ read_field-write_other a spie sie 1 size_a sie-IsStatusField spie-IsApart-sie
          ∙ read_field-write_field s sie old size sie-IsStatusField
          ∙ read_field-mod s spie,
      ap (λ (x : ℕ). if x == 1 then PrivilegeLevel.supervisor else PrivilegeLevel.unprivileged)
          (ap (λ (x : ℕ). bit_and x 1) kept
            ∙ bit_and_mask 1 (read_field s id_mstatus spp)
            ∙ read_field-mod s spp),
    )

-- The return from a trap to supervisor mode undoes the trap: from user or supervisor mode, on registers
-- whose two status registers are consistent, it goes back to the level, with the interrupts of
-- supervisor mode switched as they were before the trap.
pub exception_return-exception_initiate-supervisor :
    (s : ControlState) (act : PrivilegeLevel)
    → level_number act < 2
    → IsConsistent s
    → let t = exception_initiate s act PrivilegeLevel.supervisor in
      let (u, restored) = exception_return t PrivilegeLevel.supervisor PrivilegeLevel.supervisor in
      (restored ≡ act) × (read_field u id_mstatus sie ≡ read_field s id_mstatus sie)
unfolding exception_return
exception_return-exception_initiate-supervisor s act low c =
    let t = exception_initiate s act PrivilegeLevel.supervisor in
    let (kept, level, size_t) = initiate_supervisor s act c in
    let (switch, restored) = return_supervisor t size_t in
    (
      restored
          ∙ ap
              (λ (x : ℕ). if x == 1 then PrivilegeLevel.supervisor else PrivilegeLevel.unprivileged)
              level
          ∙ back_to act low,
      switch ∙ kept,
    )

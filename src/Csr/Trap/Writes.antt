-- ===== src/Csr/Trap/Writes.antt =====
-- Reads and writes of the fields of `mstatus`, through its write handler.
use qtrvsim.Base.{ℕ, ◌%◌, ◌^◌, ◌≡◌, ap, ◌∙◌, bit_and, length, arith}
use native.Mathlib.Nat.{mod-mod}
use qtrvsim.Csr.Address.{Xlen}
use qtrvsim.Csr.Field.{BitField, bit_not, decode}
use qtrvsim.Csr.Bits.{merge_new, decode_lem, decode-and_all, decode-update, decode-update_other}
use qtrvsim.Csr.Table.{id_mstatus, id_sstatus, id_count}
use qtrvsim.Csr.State.{
  ControlState, read_internal, store, s_mask, cut, default_value, write_with, write_internal,
  read_field, write_field,
}
use qtrvsim.Csr.Status.{read-store_self, read-store_ne, length-store}
use qtrvsim.Csr.Trap.Fields.{status_mask, IsStatusField, IsApart}

default-field :
    (f : BitField) (xlen : Xlen) (reg val : ℕ)
    → IsStatusField f
    → decode f (default_value xlen status_mask reg val) ≡ decode f val
unfolding default_value
default-field f Xlen.xlen_64 reg val i =
    merge_new f reg val (bit_not status_mask) status_mask i.writable i.kept
default-field f Xlen.xlen_32 reg val i =
    decode-and_all f _ 0xffffffff i.low
    ∙ merge_new f reg val (bit_not status_mask) status_mask i.writable i.kept

-- A write to `mstatus` with its handler.
mstatus-write :
    (s : ControlState) (v : ℕ)
    → length s.register_data ≡ id_count
    → (read_internal (write_internal s id_mstatus v) id_mstatus
        ≡ default_value s.xlen status_mask (read_internal s id_mstatus) v)
      × (length (write_internal s id_mstatus v).register_data ≡ id_count)
unfolding write_internal write_with
mstatus-write s v size =
    let reg = default_value s.xlen status_mask (read_internal s id_mstatus) v in
    let first = store s id_mstatus reg in
    let shown = cut s.xlen (bit_and reg (s_mask s.xlen)) in
    (
      read-store_ne first id_sstatus id_mstatus shown (λ e. omega (arith, e))
          ∙ read-store_self s id_mstatus reg size (omega arith),
      length-store first id_sstatus shown (length-store s id_mstatus reg size),
    )

pub length-write_field :
    (s : ControlState) (f : BitField) (v : ℕ)
    → length s.register_data ≡ id_count
    → length (write_field s id_mstatus f v).register_data ≡ id_count
unfolding write_field
length-write_field s f v size = (mstatus-write s _ size).1

-- A field of `mstatus` reads as it was written.
pub read_field-write_field :
    (s : ControlState) (f : BitField) (v : ℕ)
    → length s.register_data ≡ id_count
    → IsStatusField f
    → read_field (write_field s id_mstatus f v) id_mstatus f ≡ v % 2 ^ f.count
unfolding write_field read_field
read_field-write_field s f v size i =
    ap (decode f) (mstatus-write s _ size).0
    ∙ default-field f s.xlen _ _ i
    ∙ decode-update f _ v (i.encoded v) i.cleared

pub read_field-write_other :
    (s : ControlState) (f g : BitField) (v : ℕ)
    → length s.register_data ≡ id_count
    → IsStatusField g
    → IsApart f g
    → read_field (write_field s id_mstatus f v) id_mstatus g ≡ read_field s id_mstatus g
unfolding write_field read_field
read_field-write_other s f g v size i apart =
    ap (decode g) (mstatus-write s _ size).0
    ∙ default-field g s.xlen _ _ i
    ∙ decode-update_other f g _ v (apart.no_bits v) apart.left_alone

pub read_field-mod :
    (s : ControlState) (f : BitField)
    → read_field s id_mstatus f % 2 ^ f.count ≡ read_field s id_mstatus f
unfolding read_field
read_field-mod s f = rw (decode_lem f (read_internal s id_mstatus)) (mod-mod _ (2 ^ f.count))

-- ===== src/Csr/Status.antt =====
-- The two views of the status register: `sstatus` shows fields of `mstatus`.
use qtrvsim.Base.{
  ℕ, zero, suc, ◌+◌, ◌<◌, ◌≡◌, ◌≢◌, refl, sym, ap, ap₂, ◌∙◌, bit_and, Bool, true, false, List, [],
  ◌∷◌, ◌&&◌, not, length, get_or, length-set, get_or-set_self, get_or-set_ne, ◌==◌, ==_iff, arith,
}
use native.Mathlib.Nat.{add-zero, zero-add}
use qtrvsim.Csr.Address.{Xlen}
use qtrvsim.Csr.Table.{
  RegisterDesc, WriteHandler, registers, id_mstatus, id_sstatus, id_cycle, id_count,
}
use qtrvsim.Csr.State.{
  ControlState, read_internal, store, s_mask, cut, write_with, write_internal, no_register,
}

-- The table has its 36 registers, and `sstatus` is what the mask shows of `mstatus`.
pub record IsConsistent (s : ControlState) : Type 0 where
  pub size : length s.register_data ≡ id_count
  pub shown :
      read_internal s id_sstatus ≡ cut s.xlen (bit_and (read_internal s id_mstatus) (s_mask s.xlen))

pub read-store_self :
    (s : ControlState) (id v : ℕ)
    → length s.register_data ≡ id_count
    → id < id_count
    → read_internal (store s id v) id ≡ v
unfolding read_internal store
read-store_self s id v size inside = get_or-set_self s.register_data id v 0 (omega arith)

pub read-store_ne :
    (s : ControlState) (id j v : ℕ) → id ≢ j → read_internal (store s id v) j ≡ read_internal s j
unfolding read_internal store
read-store_ne s id j v ne = get_or-set_ne s.register_data id j v 0 ne

pub length-store :
    (s : ControlState) (id v : ℕ)
    → length s.register_data ≡ id_count
    → length (store s id v).register_data ≡ id_count
unfolding store
length-store s id v size = length-set s.register_data id v ∙ size

xlen-store : (s : ControlState) (id v : ℕ) → (store s id v).xlen ≡ s.xlen
unfolding store
xlen-store s id v = refl

-- A register that is neither of the two leaves them alone.
pub store-IsConsistent :
    (s : ControlState) (id v : ℕ)
    → id ≢ id_mstatus
    → id ≢ id_sstatus
    → IsConsistent s
    → IsConsistent (store s id v)
store-IsConsistent s id v not_m not_s c = record {
  size = length-store s id v c.size;
  shown =
      read-store_ne s id id_sstatus v not_s
      ∙ c.shown
      ∙ ap₂ (λ (x : Xlen) (m : ℕ). cut x (bit_and m (s_mask x))) (sym (xlen-store s id v))
          (sym (read-store_ne s id id_mstatus v not_m));
}

-- The pair of stores of the two status handlers.
both-IsConsistent :
    (s : ControlState) (reg : ℕ)
    → length s.register_data ≡ id_count
    → IsConsistent
        (store (store s id_mstatus reg) id_sstatus (cut s.xlen (bit_and reg (s_mask s.xlen))))
both-IsConsistent s reg size =
    let shown = cut s.xlen (bit_and reg (s_mask s.xlen)) in
    let first = store s id_mstatus reg in
    let size1 = length-store s id_mstatus reg size in
    record {
      size = length-store first id_sstatus shown size1;
      shown =
          read-store_self first id_sstatus shown size1 (omega arith)
          ∙ ap₂ (λ (x : Xlen) (m : ℕ). cut x (bit_and m (s_mask x)))
              (sym (xlen-store first id_sstatus shown ∙ xlen-store s id_mstatus reg))
              (sym (
                read-store_ne first id_sstatus id_mstatus shown (λ e. omega (arith, e))
                ∙ read-store_self s id_mstatus reg size (omega arith)));
    }

-- Which registers of the table have the handlers of the two status registers.
abbrev not_status : ℕ → Bool
not_status id = not (id == id_mstatus) && not (id == id_sstatus)

abbrev agrees : WriteHandler → ℕ → Bool
agrees WriteHandler.mstatus id = id == id_mstatus
agrees WriteHandler.sstatus id = id == id_sstatus
agrees _ id = not_status id

abbrev all_agree : ℕ → List RegisterDesc → Bool
all_agree i [] = true
all_agree i (desc ∷ rest) = agrees desc.write_handler i && all_agree (i + 1) rest

and-true : (a b : Bool) → (a && b) ≡ true → (a ≡ true) × (b ≡ true)
and-true true b e = (refl, e)
and-true false b e = cc

not-true : (b : Bool) → not b ≡ true → b ≡ false
not-true false e = refl
not-true true e = cc

status_ne : (id : ℕ) → not_status id ≡ true → (id ≢ id_mstatus) × (id ≢ id_sstatus)
status_ne id e =
    let (m, s) = and-true (not (id == id_mstatus)) _ e in
    (
      λ same. cc ((==_iff id id_mstatus).1 same, not-true _ m),
      λ same. cc ((==_iff id id_sstatus).1 same, not-true _ s),
    )

agrees_at :
    (i : ℕ) (descs : List RegisterDesc) (k : ℕ)
    → all_agree i descs ≡ true
    → k < length descs
    → agrees (get_or descs k no_register).write_handler (i + k) ≡ true
agrees_at i [] k all inside = absurd (omega arith)
agrees_at i (desc ∷ rest) zero all inside =
    rw (add-zero i) (and-true (agrees desc.write_handler i) _ all).0
agrees_at i (desc ∷ rest) (suc k) all inside =
    let shift : i + suc k ≡ i + 1 + k = omega arith in
    rw shift
      (agrees_at (i + 1) rest k (and-true (agrees desc.write_handler i) _ all).1 (omega arith))

write_with-IsConsistent :
    (handler : WriteHandler) (write_mask : ℕ) (s : ControlState) (id value : ℕ)
    → agrees handler id ≡ true
    → IsConsistent s
    → IsConsistent (write_with handler write_mask s id value)
unfolding write_with
write_with-IsConsistent WriteHandler.default m s id value e c =
    let (not_m, not_s) = status_ne id e in store-IsConsistent s id _ not_m not_s c
write_with-IsConsistent WriteHandler.mstatus m s id value e c =
    rw ((==_iff id id_mstatus).0 e) (both-IsConsistent s _ c.size)
write_with-IsConsistent WriteHandler.satp m s id value e c =
    let (not_m, not_s) = status_ne id e in store-IsConsistent s id _ not_m not_s c
write_with-IsConsistent WriteHandler.mcycle m s id value e c =
    let (not_m, not_s) = status_ne id e in
    store-IsConsistent (store s id value) id_cycle value (λ same. omega (arith, same))
      (λ same. omega (arith, same)) (store-IsConsistent s id value not_m not_s c)
write_with-IsConsistent WriteHandler.sstatus m s id value e c =
    rw ((==_iff id id_sstatus).0 e) (both-IsConsistent s _ c.size)

-- Every write to a register of the table, with its handler, keeps the two status registers consistent,
-- where they were.
pub write_internal-IsConsistent :
    (s : ControlState) (id value : ℕ)
    → id < id_count
    → IsConsistent s
    → IsConsistent (write_internal s id value)
unfolding write_internal
write_internal-IsConsistent s id value inside c =
    let desc = get_or registers id no_register in
    let agree =
      ap (agrees desc.write_handler) (sym (zero-add id)) ∙ agrees_at 0 registers id refl inside in
    write_with-IsConsistent desc.write_handler desc.write_mask s id value agree c

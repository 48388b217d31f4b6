-- ===== src/Csr/Access.antt =====
-- Writes of instructions to the registers, and the interrupts that the registers ask for.
use qtrvsim.Base.{
  ℕ, suc, ◌+◌, ◌≤◌, ◌<◌, ◌≡◌, refl, Bool, true, false, not, Option, some, List, [], ◌∷◌, length,
  ltb, ltb-false→le, guard-eq-some, map-eq-some, ◌==◌, if◌then◌else◌, arith,
}
use qtrvsim.Csr.Address.{PrivilegeLevel, level_number, is_writable, get_privilege_level}
use qtrvsim.Csr.Table.{RegisterDesc, registers, find_address, get_register_internal_id, id_count}
use qtrvsim.Csr.State.{ControlState, write_internal, write}
use qtrvsim.Csr.Status.{IsConsistent, write_internal-IsConsistent}

found_here :
    (hit : Bool) (i id n : ℕ) (further : Option ℕ)
    → (if hit then some i else further) ≡ some id
    → (further ≡ some id → id < i + 1 + n)
    → id < i + suc n
found_here true i id n further e go = ground arith
found_here false i id n further e go = omega (arith, go e)

not-false : (b : Bool) → not b ≡ false → b ≡ true
not-false true e = refl
not-false false e = cc

find_address-lt :
    (address i : ℕ) (descs : List RegisterDesc) (id : ℕ)
    → find_address address i descs ≡ some id
    → id < i + length descs
find_address-lt address i [] id e = cc
find_address-lt address i (desc ∷ rest) id e =
    found_here (desc.address == address) i id (length rest) _ e
      (find_address-lt address (i + 1) rest id)

write_cases :
    (s : ControlState) (address value : ℕ) (priv : PrivilegeLevel) (t : ControlState)
    → write s address value priv ≡ some t
    → (is_writable address ≡ true)
      × (level_number (get_privilege_level address) ≤ level_number priv)
      × (id : ℕ) × (get_register_internal_id address ≡ some id)
      × (write_internal s id value ≡ t)
unfolding write
write_cases s address value priv t e =
    let (writable, rest) = guard-eq-some (not (is_writable address)) _ e in
    let (level, mapped) =
      guard-eq-some (ltb (level_number priv) (level_number (get_privilege_level address))) _ rest in
    let (id, found, made) = map-eq-some (λ id. write_internal s id value) _ mapped in
    (not-false (is_writable address) writable, ltb-false→le _ _ level, id, found, made)

-- An instruction's write that succeeds on consistent registers was to a writable register that the level may access, and keeps
-- the two status registers consistent.
pub write-IsConsistent :
    (s : ControlState) (address value : ℕ) (priv : PrivilegeLevel) (t : ControlState)
    → IsConsistent s
    → write s address value priv ≡ some t
    → (is_writable address ≡ true)
      × (level_number (get_privilege_level address) ≤ level_number priv)
      × IsConsistent t
unfolding get_register_internal_id
write-IsConsistent s address value priv t c e =
    let (may_write, level, id, found, made) = write_cases s address value priv t e in
    let inside : id < id_count = omega (arith, find_address-lt address 0 registers id found) in
    (may_write, level, rw (← made) (write_internal-IsConsistent s id value inside c))

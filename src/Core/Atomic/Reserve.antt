-- ===== src/Core/Atomic/Reserve.antt =====
-- Reservations, and the bounds of the operations.
use qtrvsim.Base.{
  ℕ, zero, suc, ◌+◌, ◌%◌, ◌^◌, ◌<◌, ◌≡◌, refl, ap, ◌∙◌, true, false, le→leb, Bool-cases, inl, inr,
  ◌==◌, arith,
}
use qtrvsim.Base.Bits.{bit_and-lt, bit_or-lt, bit_xor-lt}
use native.Mathlib.Nat.{mod-lt, one-le-pow}
use qtrvsim.Core.Memory.{AccessMode, Result, ok, FrontendMemory}
use qtrvsim.Core.State.{CoreState, AddressRange, empty_range, contains, pure, on_memory, ◌>>◌}
use qtrvsim.Core.State.Steps.{bind_ok, on_memory_ok}
use qtrvsim.Core.Atomic.{
  of_width, end_reservation, AmoOp, amo_operation, bytes_of, range_of, load_reserved,
  store_conditional,
}

-- The result of a read-modify-write operation fits the width of its operands.
pub amo_operation-lt :
    (w : ℕ) (op : AmoOp) (a b : ℕ) → a < 2 ^ w → b < 2 ^ w → amo_operation w op a b < 2 ^ w
unfolding amo_operation
amo_operation-lt w AmoOp.swap a b p q = q
amo_operation-lt w AmoOp.add a b p q = mod-lt (a + b) (one-le-pow w 2 (omega arith))
amo_operation-lt w AmoOp.xor a b p q = bit_xor-lt w a b p q
amo_operation-lt w AmoOp.and a b p q = bit_and-lt w a b q
amo_operation-lt w AmoOp.or a b p q = bit_or-lt w a b p q
amo_operation-lt w AmoOp.min a b p q = ground arith
amo_operation-lt w AmoOp.max a b p q = ground arith
amo_operation-lt w AmoOp.minu a b p q = ground arith
amo_operation-lt w AmoOp.maxu a b p q = ground arith

contains_self : (range : AddressRange) → contains range range ≡ true
unfolding contains
contains_self range =
    rw (le→leb range.first range.first (omega arith), le→leb range.last range.last (omega arith))
      refl

contains_none :
    (w address : ℕ) → address + 7 < 2 ^ 64 → contains empty_range (range_of w address) ≡ false
unfolding contains
contains_none w zero fits = refl
contains_none w (suc a) fits = elim (Bool-cases (w == 32)) [
  | inl e ↦ rw e (ground arith)
  | inr e ↦ rw e (ground arith)
]

module _ {M : Type 0} where
  -- The state with another memory and no reservation.
  abbrev pub released : M → CoreState M → CoreState M
  released m s = record s { memory = m; load_reserved_range = empty_range }

  module _ (memory : FrontendMemory M) where
    load_reserved_lem :
        (w address value : ℕ) (mode : AccessMode) (m : M) (s : CoreState M)
        → memory.read_data s.memory address mode (bytes_of w) ≡ (ok value, m)
        → load_reserved memory w address mode s ≡ (
          ok (of_width w value),
          record s { memory = m; load_reserved_range = range_of w address },
        )
    unfolding load_reserved
    load_reserved_lem w address value mode m s r =
        let reserved = record s { load_reserved_range = range_of w address } in
        bind_ok (on_memory (λ n. memory.read_data n address mode (bytes_of w)))
          (λ v. pure (of_width w v)) reserved (record reserved { memory = m }) value
          (on_memory_ok (λ n. memory.read_data n address mode (bytes_of w)) reserved value m r)

    store_conditional_held :
        (w address rt_value : ℕ) (mode : AccessMode) (m : M) (s : CoreState M)
        → memory.write_data s.memory address mode (bytes_of w) (rt_value % 2 ^ w) ≡ (ok tt, m)
        → s.load_reserved_range ≡ range_of w address
        → store_conditional memory w rt_value address mode s ≡ (ok 0, released m s)
    unfolding store_conditional
    store_conditional_held w address rt_value mode m s e held =
        let f : M → Result (Unit {0}) × M =
          λ n. memory.write_data n address mode (bytes_of w) (rt_value % 2 ^ w) in
        let inside : contains s.load_reserved_range (range_of w address) ≡ true =
          ap (λ range. contains range (range_of w address)) held
          ∙ contains_self (range_of w address) in
        rw inside (
          bind_ok (on_memory f) (λ u. end_reservation memory 0) s (record s { memory = m }) tt
            (on_memory_ok f s tt m e))

    store_conditional-released :
        (w address rt_value : ℕ) (mode : AccessMode) (m : M) (s : CoreState M)
        → address + 7 < 2 ^ 64
        → store_conditional memory w rt_value address mode (released m s) ≡ (ok 1, released m s)
    unfolding store_conditional
    store_conditional-released w address rt_value mode m s fits =
        rw (contains_none w address fits) refl

    -- Where the memory serves the read and then the write, a conditional store to the address of the load
    -- that reserved it succeeds with 0 and ends the reservation, and another one behind it, to any
    -- address that does not run over the end of the addresses, fails with 1 and changes nothing.
    pub store_conditional-load_reserved :
        (w address other rt_value rt_value' value : ℕ) (mode : AccessMode) (m1 m2 : M)
        (s : CoreState M)
        → memory.read_data s.memory address mode (bytes_of w) ≡ (ok value, m1)
        → memory.write_data m1 address mode (bytes_of w) (rt_value % 2 ^ w) ≡ (ok tt, m2)
        → other + 7 < 2 ^ 64
        → ((load_reserved memory w address mode >> store_conditional memory w rt_value address mode)
              s
            ≡ (ok 0, released m2 s))
          × (store_conditional memory w rt_value' other mode (released m2 s)
              ≡ (ok 1, released m2 s))
    store_conditional-load_reserved w address other rt_value rt_value' value mode m1 m2 s r w_ok
          fits =
        (
          bind_ok (load_reserved memory w address mode)
                (λ v. store_conditional memory w rt_value address mode) s
                (record s { memory = m1; load_reserved_range = range_of w address })
                (of_width w value) (load_reserved_lem w address value mode m1 s r)
              ∙ (store_conditional_held w address rt_value mode m2
                  (record s { memory = m1; load_reserved_range = range_of w address }) w_ok refl),
          store_conditional-released w other rt_value' mode m2 s fits,
        )

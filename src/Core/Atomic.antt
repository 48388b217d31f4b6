-- ===== src/Core/Atomic.antt =====
-- `amo32_operations`, `amo64_operations` and `Core::memory_special`.
pub mod Reserve
use qtrvsim.Base.{
  ℕ, ◌+◌, ◌-◌, ◌%◌, ◌^◌, bit_and, bit_or, bit_xor, Bool, true, false, not, ◌&&◌, Option, none, some,
  ltb, ◌==◌, if◌then◌else◌,
}
use qtrvsim.Base.Int.{signed, ltb_ℤ}
use qtrvsim.Predictor.Unit
use qtrvsim.Core.Memory.{
  AccessControl, AccessMode, SimulatorException, Result, ok, throw, FrontendMemory, extend_sign,
}
use qtrvsim.Core.State.{
  CoreState, AddressRange, empty_range, contains, Action, pure, raise, gets, or_throw, modify,
  on_memory, set_predictor, set_range, ◌>>=◌, ◌>>◌,
}

-- On the patterns of `w` bits: the operation of a read-modify-write access.
pub data AmoOp : Type 0 where
  swap add xor and or min max minu maxu : AmoOp

unfoldable pub amo_operation : ℕ → AmoOp → ℕ → ℕ → ℕ
amo_operation w AmoOp.swap a b = b
amo_operation w AmoOp.add a b = (a + b) % 2 ^ w
amo_operation w AmoOp.xor a b = bit_xor a b
amo_operation w AmoOp.and a b = bit_and a b
amo_operation w AmoOp.or a b = bit_or a b
amo_operation w AmoOp.min a b = if ltb_ℤ (signed w a) (signed w b) then a else b
amo_operation w AmoOp.max a b = if ltb_ℤ (signed w a) (signed w b) then b else a
amo_operation w AmoOp.minu a b = if ltb a b then a else b
amo_operation w AmoOp.maxu a b = if ltb a b then b else a

-- What `memory_special` does on an access.
pub data Special : Type 0 where
  sync sfence other : Special
  lr sc : ℕ → Special
  amo : ℕ → AmoOp → Special

-- The number is the width in bits.
abbrev pub special_of : AccessControl → Special
special_of AccessControl.cache_op = Special.sync
special_of AccessControl.sfence_vma = Special.sfence
special_of AccessControl.lr32 = Special.lr 32
special_of AccessControl.sc32 = Special.sc 32
special_of AccessControl.lr64 = Special.lr 64
special_of AccessControl.sc64 = Special.sc 64
special_of AccessControl.amoswap32 = Special.amo 32 AmoOp.swap
special_of AccessControl.amoadd32 = Special.amo 32 AmoOp.add
special_of AccessControl.amoxor32 = Special.amo 32 AmoOp.xor
special_of AccessControl.amoand32 = Special.amo 32 AmoOp.and
special_of AccessControl.amoor32 = Special.amo 32 AmoOp.or
special_of AccessControl.amomin32 = Special.amo 32 AmoOp.min
special_of AccessControl.amomax32 = Special.amo 32 AmoOp.max
special_of AccessControl.amominu32 = Special.amo 32 AmoOp.minu
special_of AccessControl.amomaxu32 = Special.amo 32 AmoOp.maxu
special_of AccessControl.amoswap64 = Special.amo 64 AmoOp.swap
special_of AccessControl.amoadd64 = Special.amo 64 AmoOp.add
special_of AccessControl.amoxor64 = Special.amo 64 AmoOp.xor
special_of AccessControl.amoand64 = Special.amo 64 AmoOp.and
special_of AccessControl.amoor64 = Special.amo 64 AmoOp.or
special_of AccessControl.amomin64 = Special.amo 64 AmoOp.min
special_of AccessControl.amomax64 = Special.amo 64 AmoOp.max
special_of AccessControl.amominu64 = Special.amo 64 AmoOp.minu
special_of AccessControl.amomaxu64 = Special.amo 64 AmoOp.maxu
special_of _ = Special.other

-- The register value of a `w`-bit pattern: a word is extended by its sign.
abbrev pub of_width : ℕ → ℕ → ℕ
of_width w x = if w == 32 then extend_sign 32 x else x

abbrev pub bytes_of : ℕ → ℕ
bytes_of w = if w == 32 then 4 else 8

abbrev pub range_of : ℕ → ℕ → AddressRange
range_of w address = record { first = address; last = (address + (bytes_of w - 1)) % 2 ^ 64 }

module _ {M : Type 0} (memory : FrontendMemory M) where
  unfoldable pub flush_predictor : Action M (Unit {0})
  flush_predictor s =
      (or_throw SimulatorException.no_return (Unit.flush s.predictor) >>= λ p.
      modify (set_predictor p))
        s

  abbrev pub end_reservation : ℕ → Action M ℕ
  end_reservation result = do modify (set_range empty_range); pure result

  abbrev pub store_reserved : ℕ → ℕ → ℕ → AccessMode → Action M ℕ
  store_reserved w rt_value address mode = do
    on_memory (λ m. memory.write_data m address mode (bytes_of w) (rt_value % 2 ^ w))
    end_reservation 0

  unfoldable pub store_conditional : ℕ → ℕ → ℕ → AccessMode → Action M ℕ
  store_conditional w rt_value address mode s =
      if contains s.load_reserved_range (range_of w address)
      then store_reserved w rt_value address mode s
      else end_reservation 1 s

  unfoldable pub load_reserved : ℕ → ℕ → AccessMode → Action M ℕ
  load_reserved w address mode = do
    modify (set_range (range_of w address))
    value ← on_memory (λ m. memory.read_data m address mode (bytes_of w))
    pure (of_width w value)

  unfoldable pub amo_modify : ℕ → AmoOp → ℕ → ℕ → AccessMode → Action M ℕ
  amo_modify w op rt_value address mode = do
    fetched ← on_memory (λ m. memory.read_data m address mode (bytes_of w))
    on_memory (λ m.
        memory.write_data m address mode (bytes_of w)
          (amo_operation w op fetched (rt_value % 2 ^ w)))
    pure (of_width w fetched)

  -- The value is `towrite_val` after the access. The cause that the source returns is always none.
  abbrev pub special : Special → Bool → Bool → ℕ → ℕ → ℕ → AccessMode → Action M ℕ
  special Special.sync memread memwrite towrite rt_value address mode = do
    modify (λ s. record s { memory = memory.sync_program (memory.sync_data s.memory) })
    flush_predictor
    pure towrite
  special (Special.lr w) memread memwrite towrite rt_value address mode =
      if memread then load_reserved w address mode else pure towrite
  special (Special.sc w) memread memwrite towrite rt_value address mode =
      if memwrite then store_conditional w rt_value address mode else pure towrite
  special (Special.amo w op) memread memwrite towrite rt_value address mode =
      if memread && memwrite then amo_modify w op rt_value address mode else pure towrite
  special Special.sfence memread memwrite towrite rt_value address mode = do
    modify (λ s. record s {
      memory =
          memory.sfence_program (memory.sfence_data s.memory towrite rt_value) towrite rt_value;
    })
    flush_predictor
    modify (set_range empty_range)
    pure towrite
  special Special.other memread memwrite towrite rt_value address mode = pure towrite

  unfoldable pub memory_special : AccessControl → Bool → Bool → ℕ → ℕ → ℕ → AccessMode → Action M ℕ
  unfolding flush_predictor load_reserved store_conditional amo_modify
  memory_special memctl = special (special_of memctl)

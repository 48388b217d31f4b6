-- ===== src/Virtual/Pte.antt =====
-- Page table entries: `Sv32Pte` and `Sv39Pte` of src/machine/memory/virtual/sv32.h and sv39.h, and
-- `check_permissions` and `get_current_cause` of src/machine/memory/memory_utils.h. An entry is its raw
-- number. The fields that `make` joins do not overlap, so that the sum stands for the union of bits.
pub mod Fields
pub mod Super
use qtrvsim.Base.{
  ℕ, zero, suc, ◌+◌, ◌-◌, ◌*◌, ◌/◌, ◌%◌, ◌^◌, Bool, true, false, not, ◌&&◌, ◌||◌, ltb, ◌==◌,
  if◌then◌else◌,
}
use qtrvsim.Csr.Address.{PrivilegeLevel, ExceptionCause, is_supervisor}
use qtrvsim.Csr.Field.{decode, sum, mxr}

pub data AccessOp : Type 0 where
  fetch read write : AccessOp

pub data PagingMode : Type 0 where
  sv32 sv39 : PagingMode

abbrev pub page_shift : ℕ
page_shift = 12

abbrev pub vpn_bits : PagingMode → ℕ
vpn_bits PagingMode.sv32 = 10
vpn_bits PagingMode.sv39 = 9

abbrev pub ppn_bits : PagingMode → ℕ
ppn_bits PagingMode.sv32 = 22
ppn_bits PagingMode.sv39 = 44

-- The bytes of the raw type.
abbrev pub raw_bytes : PagingMode → ℕ
raw_bytes PagingMode.sv32 = 4
raw_bytes PagingMode.sv39 = 8

-- The level at which a walk starts.
abbrev pub max_level_idx : PagingMode → ℕ
max_level_idx PagingMode.sv32 = 1
max_level_idx PagingMode.sv39 = 2

abbrev pub is_satp_mode : PagingMode → ℕ → Bool
is_satp_mode PagingMode.sv32 satp = satp / 2 ^ 31 % 2 == 1
is_satp_mode PagingMode.sv39 satp = not (satp / 2 ^ 60 % 2 ^ 4 == 0)

abbrev flag : ℕ → ℕ → Bool
flag shift raw = raw / 2 ^ shift % 2 == 1

unfoldable pub v : ℕ → Bool
v raw = flag 0 raw

unfoldable pub r : ℕ → Bool
r raw = flag 1 raw

unfoldable pub w : ℕ → Bool
w raw = flag 2 raw

unfoldable pub x : ℕ → Bool
x raw = flag 3 raw

unfoldable pub u : ℕ → Bool
u raw = flag 4 raw

unfoldable pub g : ℕ → Bool
g raw = flag 5 raw

unfoldable pub a : ℕ → Bool
a raw = flag 6 raw

unfoldable pub d : ℕ → Bool
d raw = flag 7 raw

unfoldable pub rsw : ℕ → ℕ
rsw raw = raw / 2 ^ 8 % 2 ^ 2

unfoldable pub ppn : PagingMode → ℕ → ℕ
ppn mode raw = raw / 2 ^ 10 % 2 ^ ppn_bits mode

unfoldable pub is_leaf : ℕ → Bool
is_leaf raw = r raw || x raw

unfoldable pub is_valid : ℕ → Bool
is_valid raw = v raw && (not (w raw) || r raw)

-- The flags that the permissions of an entry consist of.
pub record Flags : Type 0 where
  pub readable : Bool
  pub writable : Bool
  pub executable : Bool
  pub user : Bool
  pub global : Bool
  pub accessed : Bool
  pub dirty : Bool

abbrev pub flags_of : ℕ → Flags
flags_of raw = record {
  readable = r raw;
  writable = w raw;
  executable = x raw;
  user = u raw;
  global = g raw;
  accessed = a raw;
  dirty = d raw;
}

abbrev bit : Bool → ℕ → ℕ
bit b shift = if b then 2 ^ shift else 0

unfoldable pub make : PagingMode → Bool → Flags → ℕ → ℕ → ℕ
make mode valid f rsw_ ppn_ =
    bit valid 0
    + bit f.readable 1
    + bit f.writable 2
    + bit f.executable 3
    + bit f.user 4
    + bit f.global 5
    + bit f.accessed 6
    + bit f.dirty 7
    + rsw_ % 2 ^ 2 * 2 ^ 8
    + ppn_ % 2 ^ ppn_bits mode * 2 ^ 10

-- The loop over the parts of the page number below the level.
unfoldable pub vpn_combined : ℕ → ℕ → ℕ
vpn_combined zero va = 0
vpn_combined (suc i) va = vpn_combined i va + va / 2 ^ (page_shift + 9 * i) % 2 ^ 9 * 2 ^ (9 * i)

-- The page number with its low part, of `bits` bits, from elsewhere.
abbrev with_low : ℕ → ℕ → ℕ → ℕ
with_low number bits low = number / 2 ^ bits * 2 ^ bits + low % 2 ^ bits

unfoldable pub make_phys : PagingMode → ℕ → ℕ → ℕ → ℕ
make_phys PagingMode.sv32 raw va level =
    let number = ppn PagingMode.sv32 raw in
    (if level == 1 then with_low number 10 (va / 2 ^ page_shift % 2 ^ 10) else number)
      * 2 ^ page_shift
    + va % 2 ^ page_shift
make_phys PagingMode.sv39 raw va level =
    let number = ppn PagingMode.sv39 raw in
    (if ltb 0 level then with_low number (9 * level) (vpn_combined level va) else number)
      * 2 ^ page_shift
    + va % 2 ^ page_shift

abbrev is_unprivileged : PrivilegeLevel → Bool
is_unprivileged PrivilegeLevel.unprivileged = true
is_unprivileged _ = false

abbrev is_fetch : AccessOp → Bool
is_fetch AccessOp.fetch = true
is_fetch _ = false

abbrev granted : Flags → Bool → AccessOp → Bool
granted f executable_readable AccessOp.read = f.readable || executable_readable && f.executable
granted f executable_readable AccessOp.write = f.writable
granted f executable_readable AccessOp.fetch = f.executable

unfoldable pub check_permissions : Flags → ℕ → PrivilegeLevel → AccessOp → Bool
check_permissions f sstatus priv op =
    let user_allowed = not (decode sum sstatus == 0) in
    let executable_readable = not (decode mxr sstatus == 0) in
    if is_unprivileged priv && not f.user
    then false
    else if is_supervisor priv && f.user && not (is_fetch op) && not user_allowed
    then false
    else granted f executable_readable op

unfoldable pub get_current_cause : AccessOp → ExceptionCause
get_current_cause AccessOp.fetch = ExceptionCause.insn_page_fault
get_current_cause AccessOp.write = ExceptionCause.store_page_fault
get_current_cause AccessOp.read = ExceptionCause.load_page_fault

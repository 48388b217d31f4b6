-- ===== src/Csr/Table.antt =====
-- The table of the registers in src/machine/csr/controlstate.h: the numbers of `Id`, and for each
-- register its address, its initial value, its write mask and its write handler.
use qtrvsim.Base.{ℕ, ◌+◌, Option, none, some, List, [], ◌∷◌, ◌==◌, if◌then◌else◌}

abbrev pub id_cycle : ℕ
id_cycle = 0

abbrev pub id_time : ℕ
id_time = 1

abbrev pub id_stimecmp : ℕ
id_stimecmp = 2

abbrev pub id_mvendorid : ℕ
id_mvendorid = 3

abbrev pub id_marchid : ℕ
id_marchid = 4

abbrev pub id_mimpid : ℕ
id_mimpid = 5

abbrev pub id_mhartid : ℕ
id_mhartid = 6

abbrev pub id_mstatus : ℕ
id_mstatus = 7

abbrev pub id_misa : ℕ
id_misa = 8

abbrev pub id_medeleg : ℕ
id_medeleg = 9

abbrev pub id_mideleg : ℕ
id_mideleg = 10

abbrev pub id_mie : ℕ
id_mie = 11

abbrev pub id_mtvec : ℕ
id_mtvec = 12

abbrev pub id_mcountern : ℕ
id_mcountern = 13

abbrev pub id_mscratch : ℕ
id_mscratch = 14

abbrev pub id_mepc : ℕ
id_mepc = 15

abbrev pub id_mcause : ℕ
id_mcause = 16

abbrev pub id_mtval : ℕ
id_mtval = 17

abbrev pub id_mip : ℕ
id_mip = 18

abbrev pub id_mtinst : ℕ
id_mtinst = 19

abbrev pub id_mtval2 : ℕ
id_mtval2 = 20

abbrev pub id_menvcfg : ℕ
id_menvcfg = 21

abbrev pub id_menvcfgh : ℕ
id_menvcfgh = 22

abbrev pub id_pmpcfg0 : ℕ
id_pmpcfg0 = 23

abbrev pub id_pmpaddr0 : ℕ
id_pmpaddr0 = 24

abbrev pub id_mcycle : ℕ
id_mcycle = 25

abbrev pub id_minstret : ℕ
id_minstret = 26

abbrev pub id_sstatus : ℕ
id_sstatus = 27

abbrev pub id_sie : ℕ
id_sie = 28

abbrev pub id_stvec : ℕ
id_stvec = 29

abbrev pub id_sscratch : ℕ
id_sscratch = 30

abbrev pub id_sepc : ℕ
id_sepc = 31

abbrev pub id_scause : ℕ
id_scause = 32

abbrev pub id_stval : ℕ
id_stval = 33

abbrev pub id_sip : ℕ
id_sip = 34

abbrev pub id_satp : ℕ
id_satp = 35

abbrev pub id_count : ℕ
id_count = 36

pub data WriteHandler : Type 0 where
  default mstatus satp mcycle sstatus : WriteHandler

pub record RegisterDesc : Type 0 where
  pub address : ℕ
  pub initial_value : ℕ
  pub write_mask : ℕ
  pub write_handler : WriteHandler

abbrev describe : ℕ → ℕ → ℕ → WriteHandler → RegisterDesc
describe address initial_value write_mask write_handler = record {
  address = address;
  initial_value = initial_value;
  write_mask = write_mask;
  write_handler = write_handler;
}

-- In the order of the numbers.
abbrev pub registers : List RegisterDesc
registers =
    describe 0xc00 0 0 WriteHandler.default
    ∷ describe 0xc01 0 0 WriteHandler.default
    ∷ describe 0x14d 0 0xffffffff WriteHandler.default
    ∷ describe 0xf11 0 0 WriteHandler.default
    ∷ describe 0xf12 0 0 WriteHandler.default
    ∷ describe 0xf13 0 0 WriteHandler.default
    ∷ describe 0xf14 0 0xffffffffffffffff WriteHandler.default
    ∷ describe 0x300 0 0x007fffea WriteHandler.mstatus
    ∷ describe 0x301 0 0 WriteHandler.default
    ∷ describe 0x302 0 0xfffef7ff WriteHandler.default
    ∷ describe 0x303 0 0xffffffff WriteHandler.default
    ∷ describe 0x304 0 0x00ff0aaa WriteHandler.default
    ∷ describe 0x305 0 0xffffffffffffffff WriteHandler.default
    ∷ describe 0x306 0 0xffffffff WriteHandler.default
    ∷ describe 0x340 0 0xffffffffffffffff WriteHandler.default
    ∷ describe 0x341 0 0xffffffffffffffff WriteHandler.default
    ∷ describe 0x342 0 0xffffffffffffffff WriteHandler.default
    ∷ describe 0x343 0 0xffffffffffffffff WriteHandler.default
    ∷ describe 0x344 0 0x00000222 WriteHandler.default
    ∷ describe 0x34a 0 0xffffffffffffffff WriteHandler.default
    ∷ describe 0x34b 0 0xffffffffffffffff WriteHandler.default
    ∷ describe 0x30a 0 0xffffffff WriteHandler.default
    ∷ describe 0x31a 0 0xffffffff WriteHandler.default
    ∷ describe 0x3a0 0 0xffffffff WriteHandler.default
    ∷ describe 0x3b0 0 0xfffffffc WriteHandler.default
    ∷ describe 0xb00 0 0xffffffffffffffff WriteHandler.mcycle
    ∷ describe 0xb02 0 0xffffffffffffffff WriteHandler.default
    ∷ describe 0x100 0 0xffffffff WriteHandler.sstatus
    ∷ describe 0x104 0 0x00010222 WriteHandler.default
    ∷ describe 0x105 0 0xffffffffffffffff WriteHandler.default
    ∷ describe 0x140 0 0xffffffffffffffff WriteHandler.default
    ∷ describe 0x141 0 0xffffffffffffffff WriteHandler.default
    ∷ describe 0x142 0 0xffffffffffffffff WriteHandler.default
    ∷ describe 0x143 0 0xffffffffffffffff WriteHandler.default
    ∷ describe 0x144 0 0x00010222 WriteHandler.default
    ∷ describe 0x180 0 0xffffffff WriteHandler.satp
    ∷ []

abbrev pub find_address : ℕ → ℕ → List RegisterDesc → Option ℕ
find_address address i [] = none
find_address address i (desc ∷ rest) =
    let further = find_address address (i + 1) rest in
    if desc.address == address then some i else further

-- `RegisterMap::at`: `none` is `std::out_of_range`.
unfoldable pub get_register_internal_id : ℕ → Option ℕ
get_register_internal_id address = find_address address 0 registers

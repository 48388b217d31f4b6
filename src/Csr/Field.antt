-- ===== src/Csr/Field.antt =====
-- `BitField` of src/machine/bitfield.h and the fields of `mstatus` and `sstatus` in
-- src/machine/csr/controlstate.h.
use qtrvsim.Base.{ℕ, ◌-◌, ◌*◌, ◌/◌, ◌%◌, ◌^◌, bit_and, bit_or}

pub record BitField : Type 0 where
  pub count : ℕ
  pub offset : ℕ

-- `~` of a 64-bit word.
abbrev pub bit_not : ℕ → ℕ
bit_not x = 2 ^ 64 - 1 - x

unfoldable pub decode : BitField → ℕ → ℕ
decode f v = bit_and (v / 2 ^ f.offset) (2 ^ f.count - 1)

unfoldable pub encode : BitField → ℕ → ℕ
encode f v = bit_and v (2 ^ f.count - 1) * 2 ^ f.offset % 2 ^ 64

unfoldable pub mask : BitField → ℕ
mask f = (2 ^ f.count - 1) * 2 ^ f.offset % 2 ^ 64

-- `RegisterFieldDesc::update`
unfoldable pub update : BitField → ℕ → ℕ → ℕ
update f orig v = bit_or (encode f v) (bit_and orig (bit_not (mask f)))

abbrev pub sie : BitField
sie = record { count = 1; offset = 1 }

abbrev pub mie : BitField
mie = record { count = 1; offset = 3 }

abbrev pub spie : BitField
spie = record { count = 1; offset = 5 }

abbrev pub mpie : BitField
mpie = record { count = 1; offset = 7 }

abbrev pub spp : BitField
spp = record { count = 1; offset = 8 }

abbrev pub mpp : BitField
mpp = record { count = 2; offset = 11 }

abbrev pub mprv : BitField
mprv = record { count = 1; offset = 17 }

abbrev pub sum : BitField
sum = record { count = 1; offset = 18 }

abbrev pub mxr : BitField
mxr = record { count = 1; offset = 19 }

abbrev pub uxl : BitField
uxl = record { count = 2; offset = 32 }

abbrev pub sxl : BitField
sxl = record { count = 2; offset = 34 }

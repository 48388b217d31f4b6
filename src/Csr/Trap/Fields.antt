-- ===== src/Csr/Trap/Fields.antt =====
-- The fields of `mstatus` that the traps use, and which of them are apart.
use qtrvsim.Base.{ℕ, ◌-◌, ◌%◌, ◌^◌, ◌≡◌, ◌∙◌, arith}
use qtrvsim.Base.Bits.{bit_and_mask}
use qtrvsim.Csr.Field.{
  BitField, bit_not, decode, encode, mask, sie, mie, spie, mpie, spp, mpp, mprv,
}
use qtrvsim.Csr.Bits.{decode_lem}

abbrev pub status_mask : ℕ
status_mask = 0x007fffea

-- A field of `mstatus` that software may write.
pub record IsStatusField (f : BitField) : Type 0 where
  pub encoded : (v : ℕ) → decode f (encode f v) ≡ v % 2 ^ f.count
  pub cleared : decode f (bit_not (mask f)) ≡ 0
  pub writable : decode f status_mask ≡ 2 ^ f.count - 1
  pub kept : decode f (bit_not status_mask) ≡ 0
  pub low : decode f 0xffffffff ≡ 2 ^ f.count - 1

-- Two fields with no bit in common.
pub record IsApart (f g : BitField) : Type 0 where
  pub no_bits : (v : ℕ) → decode g (encode f v) ≡ 0
  pub left_alone : decode g (bit_not (mask f)) ≡ 2 ^ g.count - 1

pub sie-IsStatusField : IsStatusField sie
unfolding mask encode
sie-IsStatusField = record {
  encoded = λ v. decode_lem sie (encode sie v) ∙ (rw (bit_and_mask sie.count v) (omega arith));
  cleared = decode_lem sie (bit_not (mask sie));
  writable = decode_lem sie status_mask;
  kept = decode_lem sie (bit_not status_mask);
  low = decode_lem sie 0xffffffff;
}

pub mie-IsStatusField : IsStatusField mie
unfolding mask encode
mie-IsStatusField = record {
  encoded = λ v. decode_lem mie (encode mie v) ∙ (rw (bit_and_mask mie.count v) (omega arith));
  cleared = decode_lem mie (bit_not (mask mie));
  writable = decode_lem mie status_mask;
  kept = decode_lem mie (bit_not status_mask);
  low = decode_lem mie 0xffffffff;
}

pub spie-IsStatusField : IsStatusField spie
unfolding mask encode
spie-IsStatusField = record {
  encoded = λ v. decode_lem spie (encode spie v) ∙ (rw (bit_and_mask spie.count v) (omega arith));
  cleared = decode_lem spie (bit_not (mask spie));
  writable = decode_lem spie status_mask;
  kept = decode_lem spie (bit_not status_mask);
  low = decode_lem spie 0xffffffff;
}

pub mpie-IsStatusField : IsStatusField mpie
unfolding mask encode
mpie-IsStatusField = record {
  encoded = λ v. decode_lem mpie (encode mpie v) ∙ (rw (bit_and_mask mpie.count v) (omega arith));
  cleared = decode_lem mpie (bit_not (mask mpie));
  writable = decode_lem mpie status_mask;
  kept = decode_lem mpie (bit_not status_mask);
  low = decode_lem mpie 0xffffffff;
}

pub spp-IsStatusField : IsStatusField spp
unfolding mask encode
spp-IsStatusField = record {
  encoded = λ v. decode_lem spp (encode spp v) ∙ (rw (bit_and_mask spp.count v) (omega arith));
  cleared = decode_lem spp (bit_not (mask spp));
  writable = decode_lem spp status_mask;
  kept = decode_lem spp (bit_not status_mask);
  low = decode_lem spp 0xffffffff;
}

pub mpp-IsStatusField : IsStatusField mpp
unfolding mask encode
mpp-IsStatusField = record {
  encoded = λ v. decode_lem mpp (encode mpp v) ∙ (rw (bit_and_mask mpp.count v) (omega arith));
  cleared = decode_lem mpp (bit_not (mask mpp));
  writable = decode_lem mpp status_mask;
  kept = decode_lem mpp (bit_not status_mask);
  low = decode_lem mpp 0xffffffff;
}

pub mprv-IsStatusField : IsStatusField mprv
unfolding mask encode
mprv-IsStatusField = record {
  encoded = λ v. decode_lem mprv (encode mprv v) ∙ (rw (bit_and_mask mprv.count v) (omega arith));
  cleared = decode_lem mprv (bit_not (mask mprv));
  writable = decode_lem mprv status_mask;
  kept = decode_lem mprv (bit_not status_mask);
  low = decode_lem mprv 0xffffffff;
}

pub mie-IsApart-mpie : IsApart mie mpie
unfolding mask encode
mie-IsApart-mpie = record {
  no_bits = λ v. decode_lem mpie (encode mie v) ∙ (rw (bit_and_mask mie.count v) (omega arith));
  left_alone = decode_lem mpie (bit_not (mask mie));
}

pub mpie-IsApart-mie : IsApart mpie mie
unfolding mask encode
mpie-IsApart-mie = record {
  no_bits = λ v. decode_lem mie (encode mpie v) ∙ (rw (bit_and_mask mpie.count v) (omega arith));
  left_alone = decode_lem mie (bit_not (mask mpie));
}

pub mpp-IsApart-mie : IsApart mpp mie
unfolding mask encode
mpp-IsApart-mie = record {
  no_bits = λ v. decode_lem mie (encode mpp v) ∙ (rw (bit_and_mask mpp.count v) (omega arith));
  left_alone = decode_lem mie (bit_not (mask mpp));
}

pub mpp-IsApart-mpie : IsApart mpp mpie
unfolding mask encode
mpp-IsApart-mpie = record {
  no_bits = λ v. decode_lem mpie (encode mpp v) ∙ (rw (bit_and_mask mpp.count v) (omega arith));
  left_alone = decode_lem mpie (bit_not (mask mpp));
}

pub mie-IsApart-mpp : IsApart mie mpp
unfolding mask encode
mie-IsApart-mpp = record {
  no_bits = λ v. decode_lem mpp (encode mie v) ∙ (rw (bit_and_mask mie.count v) (omega arith));
  left_alone = decode_lem mpp (bit_not (mask mie));
}

pub mpie-IsApart-mpp : IsApart mpie mpp
unfolding mask encode
mpie-IsApart-mpp = record {
  no_bits = λ v. decode_lem mpp (encode mpie v) ∙ (rw (bit_and_mask mpie.count v) (omega arith));
  left_alone = decode_lem mpp (bit_not (mask mpie));
}

pub mprv-IsApart-mie : IsApart mprv mie
unfolding mask encode
mprv-IsApart-mie = record {
  no_bits = λ v. decode_lem mie (encode mprv v) ∙ (rw (bit_and_mask mprv.count v) (omega arith));
  left_alone = decode_lem mie (bit_not (mask mprv));
}

pub sie-IsApart-spie : IsApart sie spie
unfolding mask encode
sie-IsApart-spie = record {
  no_bits = λ v. decode_lem spie (encode sie v) ∙ (rw (bit_and_mask sie.count v) (omega arith));
  left_alone = decode_lem spie (bit_not (mask sie));
}

pub spie-IsApart-sie : IsApart spie sie
unfolding mask encode
spie-IsApart-sie = record {
  no_bits = λ v. decode_lem sie (encode spie v) ∙ (rw (bit_and_mask spie.count v) (omega arith));
  left_alone = decode_lem sie (bit_not (mask spie));
}

pub spp-IsApart-sie : IsApart spp sie
unfolding mask encode
spp-IsApart-sie = record {
  no_bits = λ v. decode_lem sie (encode spp v) ∙ (rw (bit_and_mask spp.count v) (omega arith));
  left_alone = decode_lem sie (bit_not (mask spp));
}

pub spp-IsApart-spie : IsApart spp spie
unfolding mask encode
spp-IsApart-spie = record {
  no_bits = λ v. decode_lem spie (encode spp v) ∙ (rw (bit_and_mask spp.count v) (omega arith));
  left_alone = decode_lem spie (bit_not (mask spp));
}

pub sie-IsApart-spp : IsApart sie spp
unfolding mask encode
sie-IsApart-spp = record {
  no_bits = λ v. decode_lem spp (encode sie v) ∙ (rw (bit_and_mask sie.count v) (omega arith));
  left_alone = decode_lem spp (bit_not (mask sie));
}

pub spie-IsApart-spp : IsApart spie spp
unfolding mask encode
spie-IsApart-spp = record {
  no_bits = λ v. decode_lem spp (encode spie v) ∙ (rw (bit_and_mask spie.count v) (omega arith));
  left_alone = decode_lem spp (bit_not (mask spie));
}

-- ===== src/Predictor/TargetBuffer/Lookup.antt =====
-- What is read from the target buffer after an update.
use qtrvsim.Base.{
  ℕ, ◌/◌, ◌%◌, ◌^◌, ◌≤◌, ◌<◌, ◌≡◌, refl, sym, ◌∙◌, true, length, get_or, set, length-set,
  get_or-set_self, get_or-set_ne, length-replicate, lt→leb-false, if◌then◌else◌, Bool-cases, inl,
  inr, ◌==◌, ==_iff, arith,
}
use qtrvsim.Base.Bits.{bit_and_mask}
use native.Mathlib.Nat.{mod-lt, one-le-pow, le_refl}
use qtrvsim.Predictor.Types.{BranchType, clamp_bits}
use qtrvsim.Predictor.TargetBuffer.{
  BranchTargetBuffer, BranchTargetBufferEntry, empty_entry, make, calculate_index, get_entry,
  update,
}

-- The table has a row for every index.
pub record IsSized (b : BranchTargetBuffer) : Type 0 where
  pub covers : 2 ^ b.number_of_bits ≤ length b.btb

pub make-IsSized : (n : ℕ) → n ≤ 8 → IsSized (make n)
unfolding make clamp_bits
make-IsSized n h =
    let same : clamp_bits 8 n ≡ n = ground arith in
    record { covers = rw (same, length-replicate (2 ^ n) empty_entry) (le_refl _) }

calculate_index-lt : (b : BranchTargetBuffer) (a : ℕ) → calculate_index b a < 2 ^ b.number_of_bits
unfolding calculate_index
calculate_index-lt b a =
    rw (bit_and_mask b.number_of_bits (a / 2 ^ 2 % 2 ^ 16))
      (mod-lt _ (one-le-pow b.number_of_bits 2 (omega arith)))

pub calculate_index-inside :
    (b : BranchTargetBuffer) (a : ℕ) → IsSized b → calculate_index b a < length b.btb
calculate_index-inside b a s = omega (arith, calculate_index-lt b a, s.covers)

abbrev pub learnt : ℕ → ℕ → BranchType → BranchTargetBufferEntry
learnt a target kind = record {
  entry_valid = true;
  instruction_address = a;
  target_address = target;
  branch_type = kind;
}

update-set :
    (b : BranchTargetBuffer) (a target : ℕ) (kind : BranchType)
    → IsSized b
    → update b a target kind
      ≡ record b { btb = set b.btb (calculate_index b a) (learnt a target kind) }
unfolding update
update-set b a target kind s = rw (lt→leb-false _ _ (calculate_index-inside b a s)) refl

pub update-IsSized :
    (b : BranchTargetBuffer) (a target : ℕ) (kind : BranchType)
    → IsSized b
    → IsSized (update b a target kind)
update-IsSized b a target kind s = rw (update-set b a target kind s) (record {
  covers = omega (arith, s.covers, length-set b.btb (calculate_index b a) (learnt a target kind));
})

get_entry-inside :
    (b : BranchTargetBuffer) (a : ℕ)
    → IsSized b
    → get_entry b a ≡ get_or b.btb (calculate_index b a) empty_entry
unfolding get_entry
get_entry-inside b a s = rw (lt→leb-false _ _ (calculate_index-inside b a s)) refl

-- In a buffer with a row for every index, an update with a new entry shows at every address that
-- shares the index of the updated one, the updated address included, and at no other address.
pub get_entry-update :
    (b : BranchTargetBuffer) (a target other : ℕ) (kind : BranchType)
    → IsSized b
    → get_entry (update b a target kind) other ≡ (
        if calculate_index b a == calculate_index b other
        then learnt a target kind
        else get_entry b other)
unfolding calculate_index
get_entry-update b a target other kind s =
    let entry = learnt a target kind in
    let i = calculate_index b a in
    let j = calculate_index b other in
    let b' : BranchTargetBuffer = record b { btb = set b.btb i entry } in
    let same = length-set b.btb i entry in
    let sized : IsSized b' = record { covers = omega (arith, s.covers) } in
    let inside = calculate_index-inside b a s in
    rw (update-set b a target kind s) (
      get_entry-inside b' other sized ∙ (elim (Bool-cases (i == j)) [
        | inl hit ↦
            rw (hit, ← (==_iff i j).0 hit) (get_or-set_self b.btb i entry empty_entry inside)
        | inr miss ↦ rw miss (
            get_or-set_ne b.btb i j entry empty_entry (λ e. cc ((==_iff i j).1 e))
            ∙ sym (get_entry-inside b other s))
      ]))

-- ===== src/Predictor/Unit/Prediction.antt =====
-- What `predict_next_pc_address` answers.
use qtrvsim.Base.{ℕ, ◌≡◌, ◌≢◌, refl, ap, ◌∙◌, true, ◌⊎◌, ==_iff, arith}
use qtrvsim.Predictor.Types.{BranchType, BranchResult, next_address}
use qtrvsim.Predictor.TargetBuffer
use qtrvsim.Predictor.TargetBuffer.Lookup.{IsSized, learnt, get_entry-update}
use qtrvsim.Predictor.Unit.{BranchPredictor, predict_next_pc_address, predict_entry, update}

-- A prediction is the following instruction, or the target that was stored for exactly this
-- instruction address.
pub predict_next_pc_address_sound :
    (u : BranchPredictor) (a : ℕ)
    → let entry = TargetBuffer.get_entry u.btb a in
      (predict_next_pc_address u a ≡ next_address a)
      ⊎ ((u.enabled ≡ true)
          × (entry.entry_valid ≡ true)
          × (entry.instruction_address ≡ a)
          × (predict_next_pc_address u a ≡ entry.target_address))
unfolding predict_next_pc_address
predict_next_pc_address_sound u a = ground arith

update-fields :
    (u : BranchPredictor) (a target : ℕ) (kind : BranchType) (result : BranchResult)
    → u.enabled ≡ true
    → ((update u a target kind result).enabled ≡ true)
      × ((update u a target kind result).btb ≡ TargetBuffer.update u.btb a target kind)
unfolding update
update-fields u a target kind result on = ground arith

predict_jump :
    (u : BranchPredictor) (a target : ℕ)
    → u.enabled ≡ true
    → TargetBuffer.get_entry u.btb a ≡ learnt a target BranchType.jump
    → predict_next_pc_address u a ≡ target
unfolding predict_next_pc_address predict_entry
predict_jump u a target on e = ground (arith, ==_iff a a)

predict_other :
    (u : BranchPredictor) (a other target : ℕ) (kind : BranchType)
    → TargetBuffer.get_entry u.btb other ≡ learnt a target kind
    → a ≢ other
    → predict_next_pc_address u other ≡ next_address other
unfolding predict_next_pc_address
predict_other u a other target kind e ne = ground (arith, ==_iff a other)

-- In an enabled unit whose target buffer has a row for each index, after an update with a jump the
-- next prediction for its address is the jump's target.
pub predict-update-jump :
    (u : BranchPredictor) (a target : ℕ) (result : BranchResult)
    → u.enabled ≡ true
    → IsSized u.btb
    → predict_next_pc_address (update u a target BranchType.jump result) a ≡ target
predict-update-jump u a target result on sized =
    let (on_j, btb_j) = update-fields u a target BranchType.jump result on in
    predict_jump (update u a target BranchType.jump result) a target on_j (
      ap (λ b. TargetBuffer.get_entry b a) btb_j
      ∙ get_entry-update u.btb a target a BranchType.jump sized
      ∙ rw ((==_iff (TargetBuffer.calculate_index u.btb a) _).1 refl) refl)

-- After any update of an enabled unit, an address that shares its row of the target buffer with the
-- updated one, and is another, is predicted to fall through: the stored address tells the two apart.
pub predict-update_alias :
    (u : BranchPredictor) (a other target : ℕ) (kind : BranchType) (result : BranchResult)
    → u.enabled ≡ true
    → IsSized u.btb
    → TargetBuffer.calculate_index u.btb a ≡ TargetBuffer.calculate_index u.btb other
    → a ≢ other
    → predict_next_pc_address (update u a target kind result) other ≡ next_address other
predict-update_alias u a other target kind result on sized same ne =
    let (on_k, btb_k) = update-fields u a target kind result on in
    predict_other (update u a target kind result) a other target kind
      (ap (λ b. TargetBuffer.get_entry b other) btb_k
        ∙ get_entry-update u.btb a target other kind sized
        ∙ rw ((==_iff _ _).1 same) refl)
      ne

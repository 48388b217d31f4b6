-- ===== src/Predictor/Unit/Valid.antt =====
-- The invariant of the branch prediction unit: every index that it computes has a row.
use qtrvsim.Base.{ℕ, ◌-◌, ◌^◌, ◌<◌, ◌≡◌, refl, ◌∙◌, Bool, true, false, if◌then◌else◌, arith}
use qtrvsim.Base.Bits.{bit_and_mask}
use native.Mathlib.Nat.{mod-lt, one-le-pow}
use qtrvsim.Predictor.Types.{BranchType, BranchResult, is_predictor_type_dynamic}
use qtrvsim.Predictor.History
use qtrvsim.Predictor.TargetBuffer
use qtrvsim.Predictor.TargetBuffer.Lookup
use qtrvsim.Predictor.HistoryTable
use qtrvsim.Predictor.HistoryTable.{Predictor, PredictionFeedback}
use qtrvsim.Predictor.HistoryTable.Index
use qtrvsim.Predictor.HistoryTable.Keeps.{Keeps, update-Keeps, table-Keeps}
use qtrvsim.Predictor.Unit.{BranchPredictor, update, is_branch}

pub record IsValid (u : BranchPredictor) : Type 0 where
  pub mask : u.bhr.register_mask ≡ 2 ^ u.number_of_bhr_bits - 1
  pub history : u.bhr.value < 2 ^ u.number_of_bhr_bits
  pub buffer : TargetBuffer.Lookup.IsSized u.btb
  pub table :
      is_predictor_type_dynamic u.predictor.kind ≡ true
      → HistoryTable.Index.IsSized u.number_of_bhr_bits u.predictor

trained-Keeps :
    (kind : BranchType) (p : Predictor) (f : PredictionFeedback)
    → Keeps p (if is_branch kind then HistoryTable.update p f else p)
trained-Keeps BranchType.branch p f = update-Keeps p f
trained-Keeps BranchType.jump p f = (refl, refl, refl)
trained-Keeps BranchType.undefined p f = (refl, refl, refl)

history-lt :
    (r : History.BranchHistoryRegister) (result : BranchResult) (h : ℕ)
    → r.register_mask ≡ 2 ^ h - 1
    → (History.update r result).value < 2 ^ h
unfolding History.update
history-lt r result h e = rw (e, bit_and_mask) (mod-lt _ (one-le-pow h 2 (omega arith)))

register_mask-update :
    (r : History.BranchHistoryRegister) (result : BranchResult)
    → (History.update r result).register_mask ≡ r.register_mask
unfolding History.update
register_mask-update r result = refl

if-IsValid :
    (b : Bool) {u w : BranchPredictor} → IsValid u → IsValid w → IsValid (if b then u else w)
if-IsValid true v w = v
if-IsValid false v w = w

-- Every update keeps the unit valid.
pub update-IsValid :
    (u : BranchPredictor) (a target : ℕ) (kind : BranchType) (result : BranchResult)
    → IsValid u
    → IsValid (update u a target kind result)
unfolding update
update-IsValid u a target kind result v =
    if-IsValid u.enabled
      (record {
        mask = register_mask-update u.bhr result ∙ v.mask;
        history = history-lt u.bhr result u.number_of_bhr_bits v.mask;
        buffer = TargetBuffer.Lookup.update-IsSized u.btb a target kind v.buffer;
        table = table-Keeps (trained-Keeps kind u.predictor _) v.table;
      })
      v

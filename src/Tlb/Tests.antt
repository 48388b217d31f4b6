-- ===== src/Tlb/Tests.antt =====
-- Runs of the replacement policies of the TLB on small sets.
use qtrvsim.Base.{ℕ, ◌≡◌, refl, true, inl, some, List, [], ◌∷◌, get_or}
use qtrvsim.Tlb.Policy.{
  TlbPolicy, TlbPolicyKind, make_tlb_policy, notify_access, notify_row, pass_back, turn_bits,
}
use qtrvsim.Tlb.Policy.Agreement.{notify_row-update_row}
use qtrvsim.Tlb.Policy.Pointers.{turn_bits_unreached}
use qtrvsim.Cache.Policy.Queue.{update_row, from_back}

-- The way of the latest access goes to the back of the queue.
access_to_1 :
    notify_access (make_tlb_policy TlbPolicyKind.lru 3 1) 0 1 true
    ≡ some (TlbPolicy.lru ((0 ∷ 2 ∷ 1 ∷ []) ∷ []))
unfolding notify_access make_tlb_policy notify_row pass_back
access_to_1 = refl

notify_row-update_row_example : notify_row (0 ∷ 1 ∷ 2 ∷ []) 1 true ≡ 0 ∷ 2 ∷ 1 ∷ []
unfolding update_row from_back
notify_row-update_row_example = notify_row-update_row (0 ∷ 1 ∷ 2 ∷ []) (0 ∷ 2 ∷ 1 ∷ []) 1 true refl

abbrev no_pointers : List ℕ
no_pointers = 0 ∷ 0 ∷ 0 ∷ 0 ∷ 0 ∷ 0 ∷ 0 ∷ []

turn_bits_unreached_example : get_or (turn_bits 3 0 0 4 no_pointers) 5 0 ≡ 0
turn_bits_unreached_example = turn_bits_unreached 3 4 no_pointers 5 (inl refl)

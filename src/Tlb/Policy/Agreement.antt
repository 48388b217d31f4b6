-- ===== src/Tlb/Policy/Agreement.antt =====
-- The queues of the TLB and those of the caches.
use qtrvsim.Base.{
  ℕ, zero, suc, ◌≡◌, Bool, true, false, some, List, length, get_or, set, ◌==◌, if◌then◌else◌,
}
use qtrvsim.Cache.Policy.Queue.{Pass, found, past_end, from_back, from_front, of_pass, update_row}
use qtrvsim.Tlb.Policy.{pass_back, pass_front, notify_row}

-- One round of either loop.
one_round :
    (hit : Bool) (swapped : List ℕ) {moved rest : List ℕ} (pass : Pass)
    → (if hit then found swapped else pass) ≡ found moved
    → (pass ≡ found moved → rest ≡ moved)
    → (if hit then swapped else rest) ≡ moved
one_round true swapped pass e go = cc
one_round false swapped pass e go = go e

of_some : (pass : Pass) {moved : List ℕ} → of_pass pass ≡ some moved → pass ≡ found moved
of_some (found row) e = cc
of_some (past_end next row) e = cc

back_agrees :
    (n way next : ℕ) (row moved : List ℕ)
    → from_back n way next row ≡ found moved
    → pass_back n way next row ≡ moved
unfolding from_back pass_back
back_agrees zero way next row moved e = cc
back_agrees (suc n) way next row moved e =
    one_round (get_or row n 0 == way) _ _ e
      (back_agrees n way (get_or row n 0) (set row n next) moved)

front_agrees :
    (n i way next : ℕ) (row moved : List ℕ)
    → from_front n i way next row ≡ found moved
    → pass_front n i way next row ≡ moved
unfolding from_front pass_front
front_agrees zero i way next row moved e = cc
front_agrees (suc n) i way next row moved e =
    one_round (get_or row i 0 == way) _ _ e
      (front_agrees n (suc i) way (get_or row i 0) (set row i next) moved)

-- Where the cache's queue accepts an update, the TLB's queue makes the same one.
pub notify_row-update_row :
    (row moved : List ℕ) (way : ℕ) (valid : Bool)
    → update_row row way valid ≡ some moved
    → notify_row row way valid ≡ moved
unfolding update_row notify_row
notify_row-update_row row moved way true e =
    back_agrees (length row) way way row moved (of_some (from_back (length row) way way row) e)
notify_row-update_row row moved way false e =
    front_agrees (length row) 0 way way row moved
      (of_some (from_front (length row) 0 way way row) e)

-- ===== src/Cache/Policy/Queue/Move.antt =====
-- The two bubble passes of the queue as moves: to the back on an access, to the front on a removal.
use qtrvsim.Base.{
  ℕ, zero, suc, ◌+◌, ◌≡◌, refl, ap, ◌∙◌, true, false, Bool-cases, inl, inr, some, List, [], ◌∷◌,
  ◌++◌, length, get_or, set, ◌==◌, ==_iff, if◌then◌else◌, arith,
}
use qtrvsim.Cache.Policy.Queue.{Pass, found, past_end, from_back, from_front, update_row}

-- One more way in front of a pass that came from the back.
abbrev before : ℕ → ℕ → Pass → Pass
before way x (found row) = found (x ∷ row)
before way x (past_end next row) = if x == way then found (next ∷ row) else past_end x (next ∷ row)

from_back-cons :
    (n way next x : ℕ) (row : List ℕ)
    → from_back (suc n) way next (x ∷ row) ≡ before way x (from_back n way next row)
unfolding from_back
from_back-cons zero way next x row = refl
from_back-cons (suc n) way next x row = elim (Bool-cases (get_or row n 0 == way)) [
  | inl hit ↦ rw hit refl
  | inr miss ↦ rw miss (from_back-cons n way (get_or row n 0) x (set row n next))
]

-- How often a way stands in a queue.
abbrev pub count : ℕ → List ℕ → ℕ
count w [] = 0
count w (x ∷ row) = (if x == w then 1 else 0) + count w row

==-refl : (n : ℕ) → (n == n) ≡ true
==-refl n = (==_iff n n).1 refl

absent_tail :
    (w x : ℕ) (row : List ℕ) → count w (x ∷ row) ≡ 0 → ((x == w) ≡ false) × (count w row ≡ 0)
absent_tail w x row none_left = elim (Bool-cases (x == w)) [
  | inl hit ↦ absurd (ground arith)
  | inr miss ↦ (miss, ground arith)
]

-- A pass that meets no place of the way shifts the whole queue.
from_back-absent :
    (way next : ℕ) (row : List ℕ)
    → count way row ≡ 0
    → (c : ℕ) × (r : List ℕ) × (from_back (length row) way next row ≡ past_end c r)
      × (c ∷ r ≡ row ++ next ∷ [])
unfolding from_back
from_back-absent way next [] out = (next, [], refl, refl)
from_back-absent way next (x ∷ row) out =
    let (miss, rest) = absent_tail way x row out in
    let (c, r, e, same) = from_back-absent way next row rest in
    (
      x,
      c ∷ r,
      from_back-cons (length row) way next x row ∙ ap (before way x) e ∙ rw miss refl,
      ap (λ (t : List ℕ). x ∷ t) same,
    )

from_back_lem :
    (way next : ℕ) (front back : List ℕ)
    → count way front ≡ 0
    → count way back ≡ 0
    → from_back (length (front ++ way ∷ back)) way next (front ++ way ∷ back)
      ≡ found (front ++ (back ++ next ∷ []))
from_back_lem way next [] back out_front out_back =
    let (c, r, e, same) = from_back-absent way next back out_back in
    from_back-cons (length back) way next way back
    ∙ ap (before way way) e
    ∙ rw (==-refl way) (ap found same)
from_back_lem way next (x ∷ front) back out_front out_back =
    let (miss, rest) = absent_tail way x front out_front in
    from_back-cons (length (front ++ way ∷ back)) way next x (front ++ way ∷ back)
    ∙ ap (before way x) (from_back_lem way next front back rest out_back)

-- One more way in front of a pass that came from the front.
abbrev after : ℕ → Pass → Pass
after x (found row) = found (x ∷ row)
after x (past_end next row) = past_end next (x ∷ row)

from_front-cons :
    (n i way next x : ℕ) (row : List ℕ)
    → from_front n (suc i) way next (x ∷ row) ≡ after x (from_front n i way next row)
unfolding from_front
from_front-cons zero i way next x row = refl
from_front-cons (suc n) i way next x row = elim (Bool-cases (get_or row i 0 == way)) [
  | inl hit ↦ rw hit refl
  | inr miss ↦ rw miss (from_front-cons n (suc i) way (get_or row i 0) x (set row i next))
]

from_front_lem :
    (way next : ℕ) (front back : List ℕ)
    → count way front ≡ 0
    → from_front (length (front ++ way ∷ back)) 0 way next (front ++ way ∷ back)
      ≡ found (next ∷ (front ++ back))
unfolding from_front
from_front_lem way next [] back out = rw (==-refl way) refl
from_front_lem way next (x ∷ front) back out =
    let (miss, rest) = absent_tail way x front out in
    rw miss (
      from_front-cons (length (front ++ way ∷ back)) 0 way x next (front ++ way ∷ back)
      ∙ ap (after next) (from_front_lem way x front back rest))

-- In a queue with one place for the way, an access moves the way to the back, and a removal to the
-- front; the others keep their order, and the way is never lost.
pub update_row_lem :
    (way : ℕ) (front back : List ℕ)
    → count way front ≡ 0
    → count way back ≡ 0
    → (update_row (front ++ way ∷ back) way true ≡ some (front ++ (back ++ way ∷ [])))
      × (update_row (front ++ way ∷ back) way false ≡ some (way ∷ (front ++ back)))
unfolding update_row
update_row_lem way front back out_front out_back = (
  rw (from_back_lem way way front back out_front out_back) refl,
  rw (from_front_lem way way front back out_front) refl,
)

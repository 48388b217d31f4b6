-- ===== src/Cache/Policy/Queue/Rows.antt =====
-- The invariant of the queues of `CachePolicyLRU`: each way of the row stands in it once.
use qtrvsim.Base.{
  ℕ, zero, suc, ◌+◌, ◌≤◌, ◌<◌, ◌≡◌, ◌≢◌, refl, sym, ap, ◌∙◌, Bool, true, false, Bool-cases, inl,
  inr, some, List, [], ◌∷◌, ◌++◌, length, length-append, get_elem?, get_elem?-set_self,
  get_elem?-replicate, set, ◌==◌, ==_iff, arith,
}
use mathlib.Core.Option
use qtrvsim.Cache.Policy.Queue.{
  CachePolicyLru, make, count_up, update_row, update_stats, select_way_to_evict,
}
use qtrvsim.Cache.Policy.Queue.Move.{count, update_row_lem}

pub record IsQueue (associativity : ℕ) (queue : List ℕ) : Type 0 where
  pub size : length queue ≡ associativity
  pub once : (w : ℕ) → w < associativity → count w queue ≡ 1

count-append : (w : ℕ) (xs ys : List ℕ) → count w (xs ++ ys) ≡ count w xs + count w ys
count-append w [] ys = omega arith
count-append w (x ∷ xs) ys = omega (arith, count-append w xs ys)

-- The place of a way that stands once.
split_once :
    (w : ℕ) (queue : List ℕ)
    → count w queue ≡ 1
    → (front : List ℕ) × (back : List ℕ) × (queue ≡ front ++ w ∷ back)
      × (count w front ≡ 0)
      × (count w back ≡ 0)
split_once w [] one = absurd (omega arith)
split_once w (x ∷ queue) one = elim (Bool-cases (x == w)) [
  | inl hit ↦ ([], queue, ap (λ (t : ℕ). t ∷ queue) ((==_iff x w).0 hit), refl, ground arith)
  | inr miss ↦
      let (front, back, e, out_front, out_back) = split_once w queue (ground arith) in
      (x ∷ front, back, ap (λ (t : List ℕ). x ∷ t) e, rw miss (omega arith), out_back)
]

move_counts :
    (w way : ℕ) (front back : List ℕ)
    → (count w (front ++ (back ++ way ∷ [])) ≡ count w (front ++ way ∷ back))
      × (count w (way ∷ (front ++ back)) ≡ count w (front ++ way ∷ back))
move_counts w way front back =
    let h = count-append w front (way ∷ back) in
    let k = count-append w back (way ∷ []) in
    (
      count-append w front (back ++ way ∷ []) ∙ omega (arith, h, k),
      omega (arith, h, count-append w front back),
    )

move_lengths :
    (way : ℕ) (front back : List ℕ)
    → (length (front ++ (back ++ way ∷ [])) ≡ length (front ++ way ∷ back))
      × (length (way ∷ (front ++ back)) ≡ length (front ++ way ∷ back))
move_lengths way front back =
    let h = length-append front (way ∷ back) in
    let k = length-append back (way ∷ []) in
    (
      length-append front (back ++ way ∷ []) ∙ omega (arith, h, k),
      omega (arith, h, length-append front back),
    )

-- Every update of a queue with one of its ways succeeds, an access or a removal: the exception that
-- the way was lost is never thrown, and each way stands in the new queue once.
pub update_row-IsQueue :
    (associativity : ℕ) (queue : List ℕ) (way : ℕ) (is_valid : Bool)
    → IsQueue associativity queue
    → way < associativity
    → (moved : List ℕ) × (update_row queue way is_valid ≡ some moved) × IsQueue associativity moved
update_row-IsQueue n queue way true q inside =
    let (front, back, e, out_front, out_back) = split_once way queue (q.once way inside) in
    (
      front ++ (back ++ way ∷ []),
      ap (λ r. update_row r way true) e ∙ (update_row_lem way front back out_front out_back).0,
      record {
        size = (move_lengths way front back).0 ∙ sym (ap length e) ∙ q.size;
        once = λ w h. (move_counts w way front back).0 ∙ sym (ap (count w) e) ∙ q.once w h;
      },
    )
update_row-IsQueue n queue way false q inside =
    let (front, back, e, out_front, out_back) = split_once way queue (q.once way inside) in
    (
      way ∷ (front ++ back),
      ap (λ r. update_row r way false) e ∙ (update_row_lem way front back out_front out_back).1,
      record {
        size = (move_lengths way front back).1 ∙ sym (ap length e) ∙ q.size;
        once = λ w h. (move_counts w way front back).1 ∙ sym (ap (count w) e) ∙ q.once w h;
      },
    )

first_absent :
    (way x : ℕ) (row rest : List ℕ)
    → count way (x ∷ row) ≡ 0
    → (victim : ℕ) × (get_elem? ((x ∷ row) ++ rest) 0 ≡ some victim) × (victim ≢ way)
first_absent way x row rest out = (x, refl, λ same. ground (arith, (==_iff x way).1 same))

first_other :
    (way : ℕ) (front back : List ℕ)
    → count way front ≡ 0
    → count way back ≡ 0
    → 0 < length front + length back
    → (victim : ℕ) × (get_elem? (front ++ (back ++ way ∷ [])) 0 ≡ some victim) × (victim ≢ way)
first_other way (x ∷ front) back out_front out_back several =
    first_absent way x front (back ++ way ∷ []) out_front
first_other way [] (x ∷ back) out_front out_back several =
    first_absent way x back (way ∷ []) out_back
first_other way [] [] out_front out_back several = absurd (omega arith)

update-select :
    (p : CachePolicyLru) (way row : ℕ) (is_valid : Bool) {queue moved : List ℕ}
    → get_elem? p.stats row ≡ some queue
    → update_row queue way is_valid ≡ some moved
    → (p' : CachePolicyLru) × (update_stats p way row is_valid ≡ some p')
      × (select_way_to_evict p' row ≡ get_elem? moved 0)
unfolding update_stats select_way_to_evict Option.bind
update-select p way row is_valid {queue} {moved} read e = (
  record p { stats = set p.stats row moved },
  rw (read, e) refl,
  rw (get_elem?-set_self p.stats row moved read) refl,
)

-- After a removal of a way the policy evicts that way next. After an access to a way, where the row
-- has another way, it evicts another one.
pub select_way_to_evict-update_row :
    (p : CachePolicyLru) (row way : ℕ) (queue : List ℕ)
    → get_elem? p.stats row ≡ some queue
    → IsQueue p.associativity queue
    → way < p.associativity
    → 1 < p.associativity
    → ((p' : CachePolicyLru) × (update_stats p way row false ≡ some p')
        × (select_way_to_evict p' row ≡ some way))
      × ((p' : CachePolicyLru) × (victim : ℕ) × (update_stats p way row true ≡ some p')
          × (select_way_to_evict p' row ≡ some victim)
          × (victim ≢ way))
select_way_to_evict-update_row p row way queue read q inside several =
    let (front, back, e, out_front, out_back) = split_once way queue (q.once way inside) in
    let (accessed, removed) = update_row_lem way front back out_front out_back in
    let size = length-append front (way ∷ back) in
    let all : length (front ++ way ∷ back) ≡ p.associativity = sym (ap length e) ∙ q.size in
    let head = first_other way front back out_front out_back (omega arith) in
    let (victim, first, other) = head in
    let (p0, r0, s0) =
      update-select p way row false read (ap (λ r. update_row r way false) e ∙ removed) in
    let (p1, r1, s1) =
      update-select p way row true read (ap (λ r. update_row r way true) e ∙ accessed) in
    ((p0, r0, s0), (p1, victim, r1, s1 ∙ first, other))

count_up_below : (w n i : ℕ) → w < i → count w (count_up n i) ≡ 0
count_up_below w zero i h = refl
count_up_below w (suc n) i h = ground (arith, count_up_below w n (i + 1) (omega arith))

count_up_once : (w n i : ℕ) → i ≤ w → w < i + n → count w (count_up n i) ≡ 1
count_up_once w zero i h k = absurd (omega arith)
count_up_once w (suc n) i h k = elim (Bool-cases (i == w)) [
  | inl hit ↦
      let e = (==_iff i w).0 hit in rw hit (omega (arith, count_up_below w n (i + 1) (omega arith)))
  | inr miss ↦ rw miss (omega (arith, count_up_once w n (i + 1) (ground arith) (omega arith)))
]

length-count_up : (n i : ℕ) → length (count_up n i) ≡ n
length-count_up zero i = refl
length-count_up (suc n) i = ap suc (length-count_up n (i + 1))

-- The constructor gives every row a queue in which each way stands once.
pub make-IsQueue :
    (associativity set_count row : ℕ)
    → row < set_count
    → (queue : List ℕ) × (get_elem? (make associativity set_count).stats row ≡ some queue)
      × IsQueue associativity queue
unfolding make
make-IsQueue n sets row h = (
  count_up n 0,
  get_elem?-replicate sets row (count_up n 0) h,
  record {
    size = length-count_up n 0;
    once = λ w inside. count_up_once w n 0 (omega arith) (omega arith);
  },
)

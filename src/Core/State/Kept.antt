-- ===== src/Core/State/Kept.antt =====
-- What an action leaves alone: it keeps the parts of the state that the end of a step goes by.
use qtrvsim.Base.{ℕ, ◌≡◌, refl, ◌∙◌, Bool, true, false, Option, none, some, if◌then◌else◌}
use qtrvsim.Core.Memory.{SimulatorException, Result, ok, throw}
use qtrvsim.Core.Stage.{DecodeInterstage, ExecuteInterstage}
use qtrvsim.Core.State.{CoreState, Action, or_throw, when, ◌>>=◌}

pub record Kept : Type 0 where
  pub stall_count : ℕ
  pub id_ex : DecodeInterstage
  pub ex_mem : ExecuteInterstage

module _ {M : Type 0} where
  abbrev pub kept : CoreState M → Kept
  kept s = record { stall_count = s.stall_count; id_ex = s.id_ex; ex_mem = s.ex_mem }

  abbrev pub Keeps : {A : Type 0} → Action M A → CoreState M → Type 0
  Keeps m s = kept (m s).1 ≡ kept s

  module _ {A B : Type 0} (f : A → Action M B) (s : CoreState M) where
    continued :
        (r : Result A × CoreState M)
        → kept r.1 ≡ kept s
        → ((a : A) (t : CoreState M) → Keeps (f a) t)
        → kept
            (elim r.0 as (λ x. Result B × CoreState M) [
              | ok a ↦ f a r.1
              | throw e ↦ (throw e, r.1)
            ]).1
          ≡ kept s
    continued (ok a, t) k later = later a t ∙ k
    continued (throw e, t) k later = k

    pub bind-Keeps :
        (m : Action M A)
        → Keeps m s
        → ((a : A) (t : CoreState M) → Keeps (f a) t)
        → Keeps (m >>= f) s
    bind-Keeps m k later = continued (m s) k later

  pub or_throw-Keeps :
      {A : Type 0} (e : SimulatorException) (o : Option A) (s : CoreState M)
      → Keeps (or_throw e o) s
  or_throw-Keeps e none s = refl
  or_throw-Keeps e (some a) s = refl

  pub if-Keeps :
      {A : Type 0} (b : Bool) (m n : Action M A) (s : CoreState M)
      → Keeps m s
      → Keeps n s
      → Keeps (if b then m else n) s
  if-Keeps true m n s h k = h
  if-Keeps false m n s h k = k

  pub when-Keeps :
      (b : Bool) (m : Action M (Unit {0})) (s : CoreState M) → Keeps m s → Keeps (when b m) s
  when-Keeps true m s h = h
  when-Keeps false m s h = refl

  -- The same for two outcomes.
  pub choice-kept :
      {A : Type 0} (b : Bool) (m n : Result A × CoreState M) (s : CoreState M)
      → kept m.1 ≡ kept s
      → kept n.1 ≡ kept s
      → kept (if b then m else n).1 ≡ kept s
  choice-kept true m n s h k = h
  choice-kept false m n s h k = k

-- ===== src/Core/State/Steps.antt =====
-- How the actions of a core run one after the other.
use qtrvsim.Base.{◌≡◌, ap}
use qtrvsim.Core.Memory.{Result, ok, throw}
use qtrvsim.Core.State.{CoreState, Action, on_memory, ◌>>=◌}

-- The next step of an action after one that gave a value.
pub bind_ok :
    {M A B : Type 0} (m : Action M A) (f : A → Action M B) (s t : CoreState M) (a : A)
    → m s ≡ (ok a, t)
    → (m >>= f) s ≡ f a t
bind_ok {M} {A} {B} m f s t a e =
    ap
      (λ (r : Result A × CoreState M). elim r.0 as (λ x. Result B × CoreState M) [
        | ok b ↦ f b r.1
        | throw x ↦ (throw x, r.1)
      ])
      e

pub on_memory_ok :
    {M A : Type 0} (f : M → Result A × M) (s : CoreState M) (a : A) (m : M)
    → f s.memory ≡ (ok a, m)
    → on_memory f s ≡ (ok a, record s { memory = m })
on_memory_ok f s a m e = ap (λ r. (r.0, record s { memory = r.1 })) e

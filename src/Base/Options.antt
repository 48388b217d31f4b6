-- ===== src/Base/Options.antt =====
-- Inversion of results that may be missing.
use mathlib.Core.Path.{◌≡◌, refl}
use mathlib.Core.Bool.{Bool, true, false}
use mathlib.Core.Option
use mathlib.Core.Option.{Option, none, some}
use qtrvsim.Base.Tests.{if◌then◌else◌}

module _ {ℓ} {A : Type ℓ} where
  pub guard-eq-some :
      (b : Bool) (x : Option A) {t : A}
      → (if b then none else x) ≡ some t
      → (b ≡ false) × (x ≡ some t)
  guard-eq-some true x e = cc
  guard-eq-some false x e = (refl, e)

  pub guard_else-eq-some :
      (b : Bool) (x : Option A) {t : A}
      → (if b then x else none) ≡ some t
      → (b ≡ true) × (x ≡ some t)
  guard_else-eq-some true x e = (refl, e)
  guard_else-eq-some false x e = cc

module _ {ℓ κ} {A : Type ℓ} {B : Type κ} where
  pub map-eq-some :
      (f : A → B) (x : Option A) {b : B}
      → Option.map f x ≡ some b
      → (a : A) × (x ≡ some a) × (f a ≡ b)
  map-eq-some f none e = cc
  map-eq-some f (some a) e = (a, refl, cc)

  pub bind-eq-some :
      (x : Option A) (f : A → Option B) {b : B}
      → Option.bind x f ≡ some b
      → (a : A) × (x ≡ some a) × (f a ≡ some b)
  unfolding Option.bind
  bind-eq-some none f e = cc
  bind-eq-some (some a) f e = (a, refl, e)

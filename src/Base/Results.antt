-- ===== src/Base/Results.antt =====
-- The outcome of a Rust call, and postconditions on it.
use mathlib.Core.Path.{◌≡◌, refl, subst}
use mathlib.Core.Bool.{Bool, true, false}
use ln_gossip_sim.Base.Tests.{if◌then◌else◌}

-- `ok` and `err` are the two sides of a `Result`; `panic` is a Rust panic. `stuck` is no Rust
-- value: a loop of the model ran out of fuel.
pub data Outcome {ℓ κ} (E : Type ℓ) (A : Type κ) : Type (ℓ ⊔ κ) where
  ok : A → Outcome E A
  err : E → Outcome E A
  panic stuck : Outcome E A

infixl 5 ◌>>=◌
abbrev pub ◌>>=◌ {ℓ κ μ} :
    {E : Type ℓ} {A : Type κ} {B : Type μ} → Outcome E A → (A → Outcome E B) → Outcome E B
stuck >>= f = stuck
panic >>= f = panic
ok a >>= f = f a
err e >>= f = err e

-- `r.map_err(f)`
abbrev pub map_err {ℓ κ μ} :
    {E : Type ℓ} {F : Type κ} {A : Type μ} → (E → F) → Outcome E A → Outcome F A
map_err f (ok a) = ok a
map_err f (err e) = err (f e)
map_err f panic = panic
map_err f stuck = stuck

-- The call ends with a value for which `P` holds, or with an error: it neither panics nor loops.
pub data Ensures {ℓ κ μ} {E : Type ℓ} {A : Type κ} (P : A → Type μ)
    : Outcome E A → Type (ℓ ⊔ κ ⊔ μ) where
  holds : {a : A} → P a → Ensures P (ok a)
  rejected : {e : E} → Ensures P (err e)

module _ {ℓ κ μ} {E : Type ℓ} {A : Type κ} {P : A → Type μ} where
  pub Ensures-ok :
      {value : A} {outcome : Outcome E A} → Ensures P outcome → outcome ≡ ok value → P value
  Ensures-ok rejected same = cc
  Ensures-ok (holds proved) same = subst P (cc) proved

  pub Ensures-if :
      (b : Bool) {x y : Outcome E A}
      → (b ≡ true → Ensures P x)
      → (b ≡ false → Ensures P y)
      → Ensures P (if b then x else y)
  Ensures-if true hx hy = hx refl
  Ensures-if false hx hy = hy refl

  pub Ensures-bind {κ' μ'} :
      {B : Type κ'} {Q : B → Type μ'} {r : Outcome E A} {f : A → Outcome E B}
      → Ensures P r
      → ((a : A) → P a → Ensures Q (f a))
      → Ensures Q (r >>= f)
  Ensures-bind (holds {a} h) k = k a h
  Ensures-bind rejected k = rejected

  pub Ensures-weaken {μ'} :
      {Q : A → Type μ'} {r : Outcome E A} → Ensures P r → ((a : A) → P a → Q a) → Ensures Q r
  Ensures-weaken (holds {a} h) k = holds (k a h)
  Ensures-weaken rejected k = rejected

  pub Ensures-map_err {ℓ'} :
      {F : Type ℓ'} {r : Outcome E A} (f : E → F) → Ensures P r → Ensures P (map_err f r)
  Ensures-map_err f (holds h) = holds h
  Ensures-map_err f rejected = rejected

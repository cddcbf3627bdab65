-- ===== src/Base/Runs.antt =====
-- What holds of a method where it ends with a value.
use mathlib.Core.Path.{◌≡◌, refl, subst}
use mathlib.Core.Option.{Option, none, some}
use ln_gossip_sim.Base.Results.{Outcome, ok, err, panic, stuck}
use ln_gossip_sim.Base.State.{Method, continue, call, expect, ok_or}

pub data IfOk {S E A : Type 0} (P : A → S → Type 0) : Outcome E A × S → Type 0 where
  value : {a : A} {s : S} → P a s → IfOk P (ok a, s)
  failed : {e : E} {s : S} → IfOk P (err e, s)
  panicked : {s : S} → IfOk P (panic, s)
  endless : {s : S} → IfOk P (stuck, s)

module _ {S E A : Type 0} {P : A → S → Type 0} where
  pub IfOk-eq : {m : Outcome E A × S} {a : A} {s : S} → IfOk P m → m ≡ (ok a, s) → P a s
  IfOk-eq {a = a} {s = s} (value {a = x} {s = y} p) e =
      let same_a : x ≡ a = cc in
      let same_s : y ≡ s = cc in subst (P a) same_s (subst (λ z. P z y) same_a p)
  IfOk-eq failed e = cc
  IfOk-eq panicked e = cc
  IfOk-eq endless e = cc

  pub IfOk-continue :
      {B : Type 0} {Q : B → S → Type 0} {m : Outcome E A × S} {f : A → Method S E B}
      → IfOk P m
      → ((a : A) (s : S) → P a s → IfOk Q (f a s))
      → IfOk Q (continue m f)
  IfOk-continue (value {a} {s} p) k = k a s p
  IfOk-continue failed k = failed
  IfOk-continue panicked k = panicked
  IfOk-continue endless k = endless

  pub IfOk-weaken :
      {Q : A → S → Type 0} {m : Outcome E A × S}
      → IfOk P m
      → ((a : A) (s : S) → P a s → Q a s)
      → IfOk Q m
  IfOk-weaken (value {a} {s} p) k = value (k a s p)
  IfOk-weaken failed k = failed
  IfOk-weaken panicked k = panicked
  IfOk-weaken endless k = endless

module _ {S E A : Type 0} where
  -- The call itself is all that is known.
  pub IfOk-refl : (m : Outcome E A × S) → IfOk (λ a s. m ≡ (ok a, s)) m
  IfOk-refl (ok a, s) = value refl
  IfOk-refl (err e, s) = failed
  IfOk-refl (panic, s) = panicked
  IfOk-refl (stuck, s) = endless

  pub IfOk-ok_or :
      (found : Option A) (e : E) (s : S) → IfOk (λ a s'. found ≡ some a) (call (ok_or found e) s)
  IfOk-ok_or none e s = failed
  IfOk-ok_or (some x) e s = value refl

  pub IfOk-expect :
      (found : Option A) (s : S) → IfOk (λ a s'. found ≡ some a) (call (expect {E = E} found) s)
  IfOk-expect none s = panicked
  IfOk-expect (some x) s = value refl

-- The value that was found, and the state as it was.
pub found-IfOk :
    {S E A : Type 0} (found : Option A) (e : E) (s : S)
    → IfOk (λ a s'. (found ≡ some a) × (s ≡ s')) (call (ok_or found e) s)
found-IfOk none e s = failed
found-IfOk (some a) e s = value (refl, refl)

pub expected-IfOk :
    {S E A : Type 0} (found : Option A) (s : S)
    → IfOk (λ a s'. (found ≡ some a) × (s ≡ s')) (call (expect {E = E} found) s)
expected-IfOk none s = panicked
expected-IfOk (some a) s = value (refl, refl)

pub call-IfOk :
    {S E A : Type 0} (r : Outcome E A) (s : S) → IfOk (λ a s'. (r ≡ ok a) × (s ≡ s')) (call r s)
call-IfOk (ok a) s = value (refl, refl)
call-IfOk (err e) s = failed
call-IfOk panic s = panicked
call-IfOk stuck s = endless

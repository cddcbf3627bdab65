-- ===== src/Base/State.antt =====
-- Methods on `&mut self`: the state is returned with the outcome, also where the method fails.
use ln_gossip_sim.Base.Results.{Outcome, ok, err, panic, stuck}
use mathlib.Core.Path.{◌≡◌, refl}
use mathlib.Core.Option.{Option, none, some}

abbrev pub Method : Type 0 → Type 0 → Type 0 → Type 0
Method S E A = S → Outcome E A × S

-- What follows an outcome; a failure ends the method with the state that it has reached.
abbrev pub continue : {S E A B : Type 0} → Outcome E A × S → (A → Method S E B) → Outcome E B × S
continue (ok a, s) f = f a s
continue (err e, s) f = (err e, s)
continue (panic, s) f = (panic, s)
continue (stuck, s) f = (stuck, s)

infixl 5 ◌>>=◌ ◌>>◌
abbrev pub ◌>>=◌ : {S E A B : Type 0} → Method S E A → (A → Method S E B) → Method S E B
◌>>=◌ m f s = continue (m s) f

abbrev pub ◌>>◌ : {S E B : Type 0} → Method S E (Unit {0}) → Method S E B → Method S E B
m >> k = m >>= λ _. k

abbrev pub return : {S E A : Type 0} → A → Method S E A
return a s = (ok a, s)

abbrev pub throw : {S E A : Type 0} → E → Method S E A
throw e s = (err e, s)

-- A call that leaves the state alone.
abbrev pub call : {S E A : Type 0} → Outcome E A → Method S E A
call r s = (r, s)

-- `self` and the assignment to it.
abbrev pub this : {S E : Type 0} → Method S E S
this s = (ok s, s)

abbrev pub modify : {S E : Type 0} → (S → S) → Method S E (Unit {0})
modify f s = (ok tt, f s)

-- `option.expect(...)`, `option.ok_or(e)`
abbrev pub expect : {E A : Type 0} → Option A → Outcome E A
expect none = panic
expect (some a) = ok a

abbrev pub ok_or : {E A : Type 0} → Option A → E → Outcome E A
ok_or none e = err e
ok_or (some a) e = ok a

-- A method ends with a value and a state for which `P` holds, or with an error.
pub data Steps {S E A : Type 0} (P : A → S → Type 0) : Outcome E A × S → Type 0 where
  done : {a : A} {s : S} → P a s → Steps P (ok a, s)
  failed : {e : E} {s : S} → Steps P (err e, s)

module _ {S E A : Type 0} {P : A → S → Type 0} where
  pub Steps-continue :
      {B : Type 0} {Q : B → S → Type 0} {m : Outcome E A × S} {f : A → Method S E B}
      → Steps P m
      → ((a : A) (s : S) → P a s → Steps Q (f a s))
      → Steps Q (continue m f)
  Steps-continue (done {a} {s} p) k = k a s p
  Steps-continue failed k = failed

  pub Steps-weaken :
      {Q : A → S → Type 0} {m : Outcome E A × S}
      → Steps P m
      → ((a : A) (s : S) → P a s → Q a s)
      → Steps Q m
  Steps-weaken (done {a} {s} p) k = done (k a s p)
  Steps-weaken failed k = failed

pub Steps-ok_or :
    {S E A : Type 0} {P : A → S → Type 0} (found : Option A) (e : E) (s : S)
    → ((a : A) → found ≡ some a → P a s)
    → Steps P (call (ok_or found e) s)
Steps-ok_or none e s k = failed
Steps-ok_or (some a) e s k = done (k a refl)

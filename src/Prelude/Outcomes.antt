-- ===== src/Prelude/Outcomes.antt =====
-- What a call of Rust code comes to: `Ok`, `Err`, or a panic that unwinds out of it. The `?` of the
-- source is the bind; `map_err` is Rust's.
use mathlib.Core.Path.{◌≡◌, refl, ap}
use mathlib.Core.Option.{Option, none, some}
use mathlib.Core.Logic.{◌⊎◌, inl, inr}

pub data Outcome {ℓ κ} (E : Type κ) (A : Type ℓ) : Type (ℓ ⊔ κ) where
  ok : A → Outcome E A
  err : E → Outcome E A
  panicked : Outcome E A

infixl 5 ◌>>=◌
abbrev pub ◌>>=◌ {ℓ κ μ} :
    {E : Type μ} {A : Type ℓ} {B : Type κ} → Outcome E A → (A → Outcome E B) → Outcome E B
ok a >>= f = f a
err e >>= f = err e
panicked >>= f = panicked

abbrev pub map_err {ℓ κ μ} :
    {E : Type κ} {F : Type μ} {A : Type ℓ} → (E → F) → Outcome E A → Outcome F A
map_err f (ok a) = ok a
map_err f (err e) = err (f e)
map_err f panicked = panicked

-- A `?` that went through: the call before it answered, and what follows it did.
pub >>=-eq-ok {ℓ κ μ} :
    {E : Type μ} {A : Type ℓ} {B : Type κ} (call : Outcome E A) (next : A → Outcome E B)
    {result : B}
    → (call >>= next) ≡ ok result
    → (answer : A) × (call ≡ ok answer) × (next answer ≡ ok result)
>>=-eq-ok (ok answer) next went = (answer, refl, went)
>>=-eq-ok (err failure) next went = cc
>>=-eq-ok panicked next went = cc

-- A call that answers no error, as one of code that may.
abbrev pub infallible {ℓ κ} : {E : Type κ} {A : Type ℓ} → Outcome ⊥ A → Outcome E A
infallible (ok a) = ok a
infallible (err e) = absurd e
infallible panicked = panicked

-- A call whose loop takes fuel: none when the fuel ran out.
abbrev pub Fueled {ℓ κ} : Type κ → Type ℓ → Type (ℓ ⊔ κ)
Fueled E A = Option (Outcome E A)

abbrev pub and_run {ℓ κ μ} :
    {E : Type μ} {A : Type ℓ} {B : Type κ} → Fueled E A → (A → Fueled E B) → Fueled E B
and_run none f = none
and_run (some (ok a)) f = f a
and_run (some (err e)) f = some (err e)
and_run (some panicked) f = some panicked

-- To split on a computed outcome and keep the equation.
pub Outcome-cases {ℓ κ} :
    {E : Type κ} {A : Type ℓ} (o : Outcome E A)
    → ((a : A) × (o ≡ ok a)) ⊎ ((e : E) × (o ≡ err e)) ⊎ (o ≡ panicked)
Outcome-cases (ok a) = inl (a, refl)
Outcome-cases (err e) = inr (inl (e, refl))
Outcome-cases panicked = inr (inr refl)

-- A call of fueled code that answered, and what followed it.
pub and_run-eq-ok {ℓ κ μ} :
    {E : Type μ} {A : Type ℓ} {B : Type κ} (call : Fueled E A) (next : A → Fueled E B) {result : B}
    → and_run call next ≡ some (ok result)
    → (answer : A) × (call ≡ some (ok answer)) × (next answer ≡ some (ok result))
and_run-eq-ok none next went = cc
and_run-eq-ok (some (ok answer)) next went = (answer, refl, went)
and_run-eq-ok (some (err e)) next went = cc
and_run-eq-ok (some panicked) next went = cc

abbrev pub ran {ℓ κ} : {E : Type κ} {A : Type ℓ} → A → Fueled E A
ran a = some (ok a)

abbrev ran_or {ℓ κ} : {E : Type κ} {A : Type ℓ} → A → Fueled E A → A
ran_or other (some (ok a)) = a
ran_or other call = other

pub ran_equal {ℓ κ} :
    {E : Type κ} {A : Type ℓ} (a b : A) → ◌≡◌ {A = Fueled E A} (ran a) (ran b) → a ≡ b
ran_equal a b went = ap (ran_or a) went

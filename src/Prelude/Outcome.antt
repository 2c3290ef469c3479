-- ===== src/Prelude/Outcome.antt =====
-- Rust's `Result`: a value or an error, the `?` operator as `>>=`.
use mathlib.Core.Path.{◌≡◌, refl}
use mathlib.Core.Logic.{◌⊎◌, inl, inr}
use mathlib.Core.Bool.{Bool, true, false}
use mathlib.Core.Option.{Option, none, some}

pub data Result {ℓ κ} (E : Type ℓ) (A : Type κ) : Type (ℓ ⊔ κ) where
  ok : A → Result E A
  err : E → Result E A

module _ {ℓ κ μ} {E : Type ℓ} {A : Type κ} {B : Type μ} where
  infixl 5 ◌>>=◌
  abbrev pub ◌>>=◌ : Result E A → (A → Result E B) → Result E B
  ok a >>= f = f a
  err e >>= f = err e

  -- A bind that succeeds had a first part that did, and a continuation that did on its value.
  pub >>=-eq-ok :
      (first : Result E A) (next : A → Result E B) {out : B}
      → (first >>= next) ≡ ok out
      → (value : A) × (first ≡ ok value) × (next value ≡ ok out)
  >>=-eq-ok (err failure) next run = cc
  >>=-eq-ok (ok value) next run = (value, refl, run)

module _ {ℓ κ μ} {E : Type ℓ} {A : Type κ} {B : Type μ} where
  -- A bind that fails had a first part that did, or a continuation that did on its value.
  pub >>=-eq-err :
      (first : Result E A) (next : A → Result E B) {e : E}
      → (first >>= next) ≡ err e
      → (first ≡ err e) ⊎ ((value : A) × (first ≡ ok value) × (next value ≡ err e))
  >>=-eq-err (err f) next run = inl (cc)
  >>=-eq-err (ok value) next run = inr (value, refl, run)

pub ok-injective {ℓ κ} :
    {E : Type ℓ} {A : Type κ} {a b : A} → ◌≡◌ {A = Result E A} (ok a) (ok b) → a ≡ b
ok-injective h = cc

pub err-injective {ℓ κ} :
    {E : Type ℓ} {A : Type κ} {a b : E} → ◌≡◌ {A = Result E A} (err a) (err b) → a ≡ b
err-injective h = cc

-- Either outcome of a fallible step, with its equation.
pub Result-cases {ℓ κ} :
    {E : Type ℓ} {A : Type κ} (r : Result E A) → ((a : A) × (r ≡ ok a)) ⊎ ((e : E) × (r ≡ err e))
Result-cases (ok a) = inl (a, refl)
Result-cases (err e) = inr (e, refl)

infixl 5 ◌>>◌
abbrev pub ◌>>◌ {ℓ κ} : {E : Type ℓ} {B : Type κ} → Result E (Unit {0}) → Result E B → Result E B
m >> k = m >>= λ _. k

-- `if !test { return Err(e) }`
abbrev pub guard {ℓ} : {E : Type ℓ} → Bool → E → Result E (Unit {0})
guard true e = ok tt
guard false e = err e

-- `Option::ok_or`
abbrev pub ok_or {ℓ κ} : {E : Type ℓ} {A : Type κ} → Option A → E → Result E A
ok_or (some a) e = ok a
ok_or none e = err e

pub guard-ok {ℓ} :
    {E : Type ℓ} (test : Bool) (e : E) {u : Unit {0}} → guard test e ≡ ok u → test ≡ true
guard-ok true e h = refl
guard-ok false e h = cc

pub ok_or-ok {ℓ κ} :
    {E : Type ℓ} {A : Type κ} (o : Option A) (e : E) {a : A} → ok_or o e ≡ ok a → o ≡ some a
ok_or-ok (some a) e h = cc
ok_or-ok none e h = cc

-- A result whose errors are all of some kind.
abbrev pub Fails {ℓ κ} : {E : Type ℓ} {A : Type κ} → (E → Type 0) → Result E A → Type 0
Fails P (ok a) = Unit
Fails P (err e) = P e

pub Fails-bind {ℓ κ μ} :
    {E : Type ℓ} {A : Type κ} {B : Type μ} (P : E → Type 0) (m : Result E A) (f : A → Result E B)
    → Fails P m
    → ((a : A) → m ≡ ok a → Fails P (f a))
    → Fails P (m >>= f)
Fails-bind P (ok a) f first next = next a refl
Fails-bind P (err e) f first next = first

pub Fails-guard {ℓ} :
    {E : Type ℓ} (P : E → Type 0) (test : Bool) (e : E) → P e → Fails P (guard test e)
Fails-guard P true e h = tt
Fails-guard P false e h = h

pub Fails-imp {ℓ} :
    {E : Type 0} {A : Type ℓ} {P Q : E → Type 0}
    → ((e : E) → P e → Q e)
    → (r : Result E A) → Fails P r
    → Fails Q r
Fails-imp lift (ok a) h = tt
Fails-imp lift (err e) h = lift e h

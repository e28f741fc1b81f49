-- ===== src/Base/Results.antt =====
-- A call returns a value or throws; the exception carries the text that the code gives it.
use mathlib.Core.Path.{◌≡◌, refl}
use mathlib.Core.Logic.{◌⊎◌, inl, inr}
use mathlib.Core.Bool.{Bool, true, false}
use Prim.Native.String.{String}

pub data Error : Type 0 where
  invalid_argument : String → Error
  runtime_error : String → Error
  -- The process ends in std::terminate.
  terminated : Error
  -- The code goes on where C++ leaves it undefined what happens.
  undefined : String → Error

pub data Result {ℓ} (Val : Type ℓ) : Type ℓ where
  err : Error → Result Val
  ok : Val → Result Val

-- A call after a call, with and without its value; an exception passes through.
infixl 5 ◌>>◌
infixl 5 ◌>>=◌
abbrev pub ◌>>=◌ {ℓ μ} :
    {Val : Type ℓ} {Out : Type μ} → Result Val → (Val → Result Out) → Result Out
err thrown >>= next = err thrown
ok val >>= next = next val

abbrev pub ◌>>◌ {μ} : {Out : Type μ} → Result (Unit {0}) → Result Out → Result Out
first >> second = first >>= (λ done. second)

-- `if (test) throw e;`
abbrev pub throw_if : Bool → Error → Result (Unit {0})
throw_if true e = err e
throw_if false e = ok tt

pub Result-cases {ℓ} :
    {A : Type ℓ} (m : Result A) → ((a : A) × (m ≡ ok a)) ⊎ ((e : Error) × (m ≡ err e))
Result-cases (ok a) = inl (a, refl)
Result-cases (err e) = inr (e, refl)

-- A sequence that returns: both calls did.
pub >>=-eq-ok {ℓ μ} :
    {Val : Type ℓ} {Out : Type μ} (call : Result Val) (next : Val → Result Out) {out : Out}
    → (call >>= next) ≡ ok out
    → (val : Val) × (call ≡ ok val) × (next val ≡ ok out)
>>=-eq-ok (err thrown) next e = cc
>>=-eq-ok (ok val) next e = (val, refl, e)

pub throw_if-eq-ok {ℓ} :
    {B : Type ℓ} (t : Bool) (e : Error) (k : Result B) {b : B}
    → (throw_if t e >> k) ≡ ok b
    → (t ≡ false) × (k ≡ ok b)
throw_if-eq-ok true e k h = cc
throw_if-eq-ok false e k h = (refl, h)

pub ok-injective {ℓ} : {A : Type ℓ} {a b : A} → ok a ≡ ok b → a ≡ b
ok-injective h = cc

-- ===== src/Prelude/Transaction.antt =====
-- A command inside one database transaction: the tables are the state, and an exception rolls
-- the transaction back, so that an error carries no state.
use Prim.Native.Nat.{ℕ}
use mathlib.Core.Path.{◌≡◌, refl}
use mathlib.Core.Logic.{◌⊎◌, inl, inr}
use mathlib.Core.Bool.{Bool, true, false}

-- The classes of exceptions that the services raise.
pub data Error : Type 0 where
  value_error : Error
  not_found : Error
  conflict : Error
  assertion : Error
  integrity_error : Error
  key_error : Error
  no_result : Error
  invalid_token : Error
  role_error : Error
  rate_limited : (retry_after_seconds : ℕ) → Error
  provider_failure : Error
  recursion_error : Error
  invalid_session : Error
  invalid_connection : Error

pub data Result {ℓ} (A : Type ℓ) : Type ℓ where
  ok : A → Result A
  err : Error → Result A

pub Result-cases {ℓ} :
    {A : Type ℓ} (r : Result A) → ((a : A) × (r ≡ ok a)) ⊎ ((e : Error) × (r ≡ err e))
Result-cases (ok a) = inl (a, refl)
Result-cases (err e) = inr (e, refl)

abbrev pub Command : Type 0 → Type 0 → Type 0
Command S A = S → Result (A × S)

module _ {S A : Type 0} where
  abbrev pub return : A → Command S A
  return a s = ok (a, s)

  abbrev pub raise : Error → Command S A
  raise e s = err e

module _ {S : Type 0} where
  abbrev pub raise_if : Bool → Error → Command S (Unit {0})
  raise_if true e s = err e
  raise_if false e s = ok (tt, s)

  abbrev pub get : Command S S
  get s = ok (s, s)

  abbrev pub modify : (S → S) → Command S (Unit {0})
  modify f s = ok (tt, f s)

infixl 5 ◌>>=◌ ◌>>◌
abbrev pub ◌>>=◌ : {S A B : Type 0} → Command S A → (A → Command S B) → Command S B
◌>>=◌ m f s = elim (m s) [ ok (a, s') ↦ f a s' | err e ↦ err e ]

abbrev pub ◌>>◌ : {S A B : Type 0} → Command S A → Command S B → Command S B
m >> k = m >>= λ _. k

-- A query that changes nothing.
abbrev pub reads : {S A : Type 0} → (S → Result A) → Command S A
reads f s = elim (f s) [ ok a ↦ ok (a, s) | err e ↦ err e ]

-- ===== src/Prelude/Actions.antt =====
-- Methods that change state and may throw. An exception keeps what was written before it.
use mathlib.Core.Path.{◌≡◌, refl}
use mathlib.Core.Logic.{◌⊎◌, inl, inr}
use mathlib.Core.Bool.{Bool, true, false}
use mathlib.Core.Option.{Option, none, some}

-- The exception classes of the HTTP layer, that of the WebSocket layer, a refused token
-- and a `TypeError`.
pub data HttpError : Type 0 where
  bad_request unauthorized forbidden not_found conflict service_unavailable ws_exception token_error
        internal_error :
      HttpError

pub data Result {ℓ} (A : Type ℓ) : Type ℓ where
  ok : A → Result A
  err : HttpError → Result A

abbrev pub Action {ℓ κ} : Type ℓ → Type κ → Type (ℓ ⊔ κ)
Action S A = S → S × Result A

module _ {ℓ κ μ} {S : Type ℓ} {A : Type κ} {B : Type μ} where
  abbrev pub follow : S × Result A → (A → Action S B) → S × Result B
  follow (s, ok a) f = f a s
  follow (s, err e) f = (s, err e)

  infixl 5 ◌>>=◌
  abbrev pub ◌>>=◌ : Action S A → (A → Action S B) → Action S B
  ◌>>=◌ m f s = follow (m s) f

infixl 5 ◌>>◌
abbrev pub ◌>>◌ {ℓ κ} : {S : Type ℓ} {B : Type κ} → Action S (Unit {0}) → Action S B → Action S B
m >> k = m >>= λ _. k

module _ {ℓ} {S : Type ℓ} where
  abbrev pub pure {κ} : {A : Type κ} → A → Action S A
  pure a s = (s, ok a)

  abbrev pub throw {κ} : {A : Type κ} → HttpError → Action S A
  throw e s = (s, err e)

  -- `if (test) throw e`.
  abbrev pub throw_if : Bool → HttpError → Action S (Unit {0})
  throw_if true e s = (s, err e)
  throw_if false e s = (s, ok tt)

  -- `if (!o) throw e`, and the value otherwise.
  abbrev pub or_throw {κ} : {A : Type κ} → Option A → HttpError → Action S A
  or_throw none e s = (s, err e)
  or_throw (some a) e s = (s, ok a)

  abbrev pub modify : (S → S) → Action S (Unit {0})
  modify f s = (f s, ok tt)

  abbrev pub state : Action S S
  state s = (s, ok s)

-- A property of the state that each part of a method keeps is kept by the method.
pub follow-keeps {ℓ κ μ ν} :
    {S : Type ℓ} {A : Type κ} {B : Type μ} (P : S → Type ν) (x : S × Result A) (f : A → Action S B)
    → P x.0
    → ((a : A) (s : S) → P s → P (f a s).0)
    → P (follow x f).0
follow-keeps P (s, ok a) f h k = k a s h
follow-keeps P (s, err e) f h k = h

pub Result-cases {ℓ} :
    {A : Type ℓ} (r : Result A) → ((a : A) × (r ≡ ok a)) ⊎ ((e : HttpError) × (r ≡ err e))
Result-cases (ok a) = inl (a, refl)
Result-cases (err e) = inr (e, refl)

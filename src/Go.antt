-- ===== src/Go.antt =====
-- What every function of the program may do: run against the services, return or panic.
pub mod Strconv
pub mod Float
pub mod Laws
pub mod Frame
use filestore_hsz.Prelude.{Text, Option, none, some, ◌≡◌, refl}

-- A Go `(value, error)` pair whose value is read only where the error is nil.
pub data Result {ℓ} (A : Type ℓ) : Type ℓ where
  ok : A → Result A
  err : Text → Result A

-- How a call ends. What it wrote before a panic stays written.
pub data Exit {ℓ} (A : Type ℓ) : Type ℓ where
  ret : A → Exit A
  panic : Exit A

-- A computation against a world `W` of services.
abbrev pub Go : Type 0 → Type 0 → Type 0
Go W A = W → Exit A × W

abbrev pub pure : {W A : Type 0} → A → Go W A
pure a w = (ret a, w)

abbrev pub fail : {W A : Type 0} → Go W A
fail w = (panic, w)

abbrev pub continue : {W A B : Type 0} → Exit A → (A → Go W B) → Go W B
continue (ret a) f w = f a w
continue panic f w = (panic, w)

infixl 5 ◌>>=◌ ◌>>◌
abbrev pub ◌>>=◌ : {W A B : Type 0} → Go W A → (A → Go W B) → Go W B
◌>>=◌ m f w = let (r, w') = m w in continue r f w'

abbrev pub ◌>>◌ : {W A B : Type 0} → Go W A → Go W B → Go W B
m >> k = m >>= λ _. k

-- A call of a service, which does not panic.
abbrev pub call : {W A : Type 0} → (W → A × W) → Go W A
call f w = let (a, w') = f w in (ret a, w')

-- Reading through a pointer, which panics if it is nil.
abbrev pub deref : {W A : Type 0} → Option A → Go W A
deref none = fail
deref (some a) = pure a

-- `err != nil`
abbrev pub error_of : {A : Type 0} → Result A → Option Text
error_of (ok a) = none
error_of (err e) = some e

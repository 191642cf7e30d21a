-- ===== src/Errors.antt =====
-- The errors that the services throw (leads-service lib/errors.ts) and what a call that may throw
-- returns. A message is left out: callers branch on the class alone. `internal` is a plain
-- `Error`, which the error handler answers with 500.
use msq_lms.Base.{◌≡◌, refl}

pub data AppError : Type 0 where
  bad_request forbidden not_found conflict internal : AppError

pub data Result (A : Type 0) : Type 0 where
  ok : A → Result A
  err : AppError → Result A

-- One call after another: what is thrown first is what the whole throws.
infixl 5 ◌>>=◌
abbrev pub ◌>>=◌ : {A B : Type 0} → Result A → (A → Result B) → Result B
err thrown >>= rest = err thrown
ok value >>= rest = rest value

pub >>=-ok :
    {B A : Type 0} (call : Result A) (rest : A → Result B) {answer : B}
    → (call >>= rest) ≡ ok answer
    → (value : A) × (call ≡ ok value) × (rest value ≡ ok answer)
>>=-ok (err thrown) rest returned = cc
>>=-ok (ok value) rest returned = (value, refl, returned)

pub ok-injective : {A : Type 0} {a b : A} → ok a ≡ ok b → a ≡ b
ok-injective {a} {b} h = cc h

-- ===== src/Prelude/Result.antt =====
-- Go's `(value, error)` returns: a value or an error.
use mathlib.Core.Path.{◌≡◌, refl}

pub data Result (E A : Type 0) : Type 0 where
  ok : A → Result E A
  err : E → Result E A

abbrev pub ◌>>=◌ : {E A B : Type 0} → Result E A → (A → Result E B) → Result E B
err failure >>= next = err failure
ok value >>= next = next value

abbrev pub ◌>>◌ : {E A B : Type 0} → Result E A → Result E B → Result E B
err failure >> next = err failure
ok value >> next = next

infixl 5 ◌>>=◌ ◌>>◌
-- What an `ok` at the end says of the steps.
pub >>=-eq-ok :
    {E A B : Type 0} (first : Result E A) (next : A → Result E B) {b : B}
    → (first >>= next) ≡ ok b
    → (value : A) × (first ≡ ok value) × (next value ≡ ok b)
>>=-eq-ok (err failure) next same = cc
>>=-eq-ok (ok value) next same = (value, refl, same)

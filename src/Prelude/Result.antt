-- ===== src/Prelude/Result.antt =====
-- Go's (value, error) returns: a value or an error.
use mathlib.Core.Bool.{Bool, true, false}
use mathlib.Core.Option.{Option, none, some}

pub data Result (E A : Type 0) : Type 0 where
  ok : A → Result E A
  err : E → Result E A

module _ {E A : Type 0} where
  abbrev pub is_ok : Result E A → Bool
  is_ok (ok a) = true
  is_ok (err e) = false

  abbrev pub value_if_ok : Result E A → Option A
  value_if_ok (ok a) = some a
  value_if_ok (err e) = none

  abbrev pub ok_or : E → Option A → Result E A
  ok_or e none = err e
  ok_or e (some a) = ok a

-- if err != nil { return err }
abbrev pub then_ok : {E A B : Type 0} → Result E A → (A → Result E B) → Result E B
then_ok (ok a) f = f a
then_ok (err e) f = err e

-- ===== src/Query/Parse/Outcome.antt =====
-- query/parse.go: the results and errors of its functions.
use zoekt_archived.Prelude.{◌≡◌, refl, Bool, true, false, if◌then◌else◌}

-- The errors by their messages; `bad_regexp` is the error of syntax.Parse.
pub data ParseError : Type 0 where
  missing_char unterminated lone_backslash unknown_case sym_argument missing_close or_operand :
      ParseError
  bad_regexp : ParseError

-- `out_of_fuel` belongs to the model: no call of Parse has it.
pub data Outcome (A : Type 0) : Type 0 where
  ok : A → Outcome A
  err : ParseError → Outcome A
  out_of_fuel : Outcome A

infixl 5 ◌>>=◌
abbrev pub ◌>>=◌ : {A B : Type 0} → Outcome A → (A → Outcome B) → Outcome B
ok a >>= f = f a
err e >>= f = err e
out_of_fuel >>= f = out_of_fuel

-- The result is an error, or a value with P.
abbrev pub Returns : {A : Type 0} → (A → Type 0) → Outcome A → Type 0
Returns P (ok a) = P a
Returns P (err e) = Unit
Returns P out_of_fuel = ⊥

pub Returns->>= :
    {A B : Type 0} (P : A → Type 0) (R : B → Type 0) (m : Outcome A) (f : A → Outcome B)
    → Returns P m
    → ((a : A) → P a → Returns R (f a))
    → Returns R (m >>= f)
Returns->>= P R (ok a) f h k = k a h
Returns->>= P R (err e) f h k = tt
Returns->>= P R out_of_fuel f h k = h

pub Returns-weaken :
    {A : Type 0} (P R : A → Type 0) (m : Outcome A)
    → ((a : A) → P a → R a)
    → Returns P m
    → Returns R m
Returns-weaken P R (ok a) k h = k a h
Returns-weaken P R (err e) k h = tt
Returns-weaken P R out_of_fuel k h = h

pub Returns-if :
    {A : Type 0} (P : A → Type 0) (b : Bool) (x y : Outcome A)
    → (b ≡ true → Returns P x)
    → (b ≡ false → Returns P y)
    → Returns P (if b then x else y)
Returns-if P true x y h k = h refl
Returns-if P false x y h k = k refl

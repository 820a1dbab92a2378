-- ===== src/Errors.antt =====
-- The numeric error codes of internal/common/errors.go, and what a fallible Go function returns.
-- A message and a cause take no part in any decision of the code, so an error is its code.
use mem_hop.Prelude.{Bool, true, false, ◌≡◌, refl, ◌⊎◌, inl, inr}

-- `eof` is io.EOF, which is no *common.Error and has code 0.
pub data Code : Type 0 where
  config invalid_query not_found agent_not_found io closed invalid_magic crc_mismatch : Code
  corruption serialization deserialization cancelled llm eof : Code

pub data Result {ℓ} (A : Type ℓ) : Type ℓ where
  ok : A → Result A
  err : Code → Result A

infixl 5 ◌>>=◌ ◌>>◌
-- `if err != nil { return err }` behind a call.
abbrev pub ◌>>=◌ {a b} : {X : Type a} {Y : Type b} → Result X → (X → Result Y) → Result Y
ok x >>= next = next x
err code >>= next = err code

abbrev pub ◌>>◌ {b} : {Y : Type b} → Result (Unit {0}) → Result Y → Result Y
checked >> rest = checked >>= λ _. rest

-- `if c { return err }`
abbrev pub refuse_if : Bool → Code → Result (Unit {0})
refuse_if true e = err e
refuse_if false e = ok tt

pub Code-discrete : Discrete Code
Code-discrete = hlevel

pub Result-cases {ℓ} :
    {A : Type ℓ} (r : Result A) → ((a : A) × (r ≡ ok a)) ⊎ ((c : Code) × (r ≡ err c))
Result-cases (ok a) = inl (a, refl)
Result-cases (err c) = inr (c, refl)

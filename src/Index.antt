-- ===== src/Index.antt =====
-- src/index/mod.rs: the errors of an index, and the results of its operations.
use gvector.Prelude.{ℕ, ◌≡◌, refl, ◌⊎◌, inl, inr}
use gvector.Types.{VectorId}

pub data IndexError : Type 0 where
  dimension_mismatch : ℕ → ℕ → IndexError
  duplicate_id : VectorId → IndexError
  not_found : VectorId → IndexError
  unsupported : IndexError
  storage : IndexError

pub data Result (A : Type 0) : Type 0 where
  ok : A → Result A
  err : IndexError → Result A

infixl 5 ◌>>=◌
abbrev pub ◌>>=◌ : {A B : Type 0} → Result A → (A → Result B) → Result B
ok a >>= f = f a
err e >>= f = err e

pub Result-cases :
    {A : Type 0} (r : Result A) → ((a : A) × (r ≡ ok a)) ⊎ ((e : IndexError) × (r ≡ err e))
Result-cases (ok a) = inl (a, refl)
Result-cases (err e) = inr (e, refl)

-- ===== src/Segmented/Spec.antt =====
-- The specification of the segmented index: a set of ids, and which operations it accepts.
use gvector.Prelude.{
  ℕ, ◌≡◌, refl, ap, inl, inr, Bool, true, false, not, ◌&&◌, ◌||◌, List, [], ◌∷◌, eqb, if◌then◌else◌,
  Bool-cases, length, nat_key, string_key,
}
use gvector.Types.{VectorId, Vector}

-- What the writer and the sealing worker do to an index.
pub data Op : Type 0 where
  insert_op : VectorId → Vector → Op
  delete_op : VectorId → Op
  build_op : Op

-- The specification: a set of ids of a dimension, and whether an operation is accepted.
unfoldable pub spec_op : ℕ → (VectorId → Bool) → Op → (VectorId → Bool) × Bool
spec_op dim live (insert_op id v) =
    if eqb (length v) dim && not (live id)
    then ((λ key. eqb id key || live key), true)
    else (live, false)
spec_op dim live (delete_op id) =
    if live id then ((λ key. not (eqb id key) && live key), true) else (live, false)
spec_op dim live build_op = (live, true)

unfoldable pub spec_run : ℕ → (VectorId → Bool) → List Op → (VectorId → Bool) × List Bool
spec_run dim live [] = (live, [])
spec_run dim live (op ∷ ops) =
    let (live', b) = spec_op dim live op in let (end, bs) = spec_run dim live' ops in (end, b ∷ bs)

pub spec-odd :
    (dim : ℕ) (live : VectorId → Bool) (id : VectorId) (v : Vector)
    → eqb (length v) dim ≡ false
    → spec_op dim live (insert_op id v) ≡ (live, false)
unfolding spec_op
spec-odd dim live id v h = rw h refl

pub spec-taken :
    (dim : ℕ) (live : VectorId → Bool) (id : VectorId) (v : Vector)
    → live id ≡ true
    → spec_op dim live (insert_op id v) ≡ (live, false)
unfolding spec_op
spec-taken dim live id v h = elim (Bool-cases (eqb (length v) dim)) [
  | inl e ↦
      rw e (ap (λ b. if not b then ((λ key. eqb id key || live key), true) else (live, false)) h)
  | inr e ↦ rw e refl
]

pub spec-new :
    (dim : ℕ) (live : VectorId → Bool) (id : VectorId) (v : Vector)
    → eqb (length v) dim ≡ true
    → live id ≡ false
    → spec_op dim live (insert_op id v) ≡ ((λ key. eqb id key || live key), true)
unfolding spec_op
spec-new dim live id v h e =
    rw h (ap (λ b. if not b then ((λ key. eqb id key || live key), true) else (live, false)) e)

pub spec-absent :
    (dim : ℕ) (live : VectorId → Bool) (id : VectorId)
    → live id ≡ false
    → spec_op dim live (delete_op id) ≡ (live, false)
unfolding spec_op
spec-absent dim live id h =
    ap (λ b. if b then ((λ key. not (eqb id key) && live key), true) else (live, false)) h

pub spec-present :
    (dim : ℕ) (live : VectorId → Bool) (id : VectorId)
    → live id ≡ true
    → spec_op dim live (delete_op id) ≡ ((λ key. not (eqb id key) && live key), true)
unfolding spec_op
spec-present dim live id h =
    ap (λ b. if b then ((λ key. not (eqb id key) && live key), true) else (live, false)) h

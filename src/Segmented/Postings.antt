-- ===== src/Segmented/Postings.antt =====
-- src/index/segmented.rs: the posting lists, sorted lists of ids.
use gvector.Prelude.{
  ℕ, suc, ◌≤◌, ◌<◌, ◌≡◌, refl, ◌⊎◌, inl, inr, false, not, ◌&&◌, ◌||◌, List, [], ◌∷◌, ◌++◌, arith,
  ltb, eqb, if◌then◌else◌, ltb→lt, eqb_iff, Bool-cases, take, drop, All, nat_key, string_key,
}
use Prim.{Unit, tt}
use gvector.Types.{VectorId}
use gvector.Segmented.{has_id}

-- `Ok` and `Err` of `binary_search`: where the id is, or where it would be.
pub data Search : Type 0 where
  there : ℕ → Search
  missing : ℕ → Search

shift : Search → Search
shift (there n) = there (suc n)
shift (missing n) = missing (suc n)

-- `binary_search`, which in a sorted list finds what a walk from the front finds
binary_search : List VectorId → VectorId → Search
unfolding shift
binary_search [] id = missing 0
binary_search (x ∷ xs) id =
    if eqb x id then there 0 else if ltb id x then missing 0 else shift (binary_search xs id)

insert_at : List VectorId → VectorId → Search → List VectorId
insert_at list id (there n) = list
insert_at list id (missing n) = take n list ++ (id ∷ drop n list)

remove_at : List VectorId → Search → List VectorId
remove_at list (there n) = take n list ++ drop (suc n) list
remove_at list (missing n) = list

unfoldable pub posting_insert : List VectorId → VectorId → List VectorId
unfolding binary_search insert_at
posting_insert list id = insert_at list id (binary_search list id)

unfoldable pub posting_remove : List VectorId → VectorId → List VectorId
unfolding binary_search remove_at
posting_remove list id = remove_at list (binary_search list id)

-- Each id is below all that follow.
abbrev pub IsAscending : List VectorId → Type 0
IsAscending [] = Unit
IsAscending (x ∷ xs) = All (λ y. x < y) xs × IsAscending xs

-- An id below all others is not among them.
below-absent : (k x : ℕ) (xs : List ℕ) → k ≤ x → All (λ y. x < y) xs → has_id k xs ≡ false
below-absent k x [] l h = refl
below-absent k x (y ∷ xs) l (h, hs) = ground (arith, h, below-absent k x xs l hs)

insert_at-shift :
    (x id : ℕ) (xs : List ℕ) (s : Search) → insert_at (x ∷ xs) id (shift s) ≡ x ∷ insert_at xs id s
unfolding insert_at shift
insert_at-shift x id xs (there n) = refl
insert_at-shift x id xs (missing n) = refl

remove_at-shift :
    (x : ℕ) (xs : List ℕ) (s : Search) → remove_at (x ∷ xs) (shift s) ≡ x ∷ remove_at xs s
unfolding remove_at shift
remove_at-shift x xs (there n) = refl
remove_at-shift x xs (missing n) = refl

-- The three ways in which a search starts.
search_cases :
    (x id : ℕ) (xs : List ℕ)
    → ((x ≡ id) × (binary_search (x ∷ xs) id ≡ there 0))
      ⊎ (((id < x) × (binary_search (x ∷ xs) id ≡ missing 0))
          ⊎ ((x < id) × (binary_search (x ∷ xs) id ≡ shift (binary_search xs id))))
unfolding binary_search
search_cases x id xs = elim (Bool-cases (eqb x id)) [
  | inl q ↦ inl ((eqb_iff x id).0 q, rw q refl)
  | inr q ↦ elim (Bool-cases (ltb id x)) [
    | inl l ↦ inr (inl (ltb→lt id x l, rw (q, l) refl))
    | inr l ↦ inr (inr (ground (arith, q, l), rw (q, l) refl))
  ]
]

insert-above :
    (x id : ℕ) (xs : List ℕ)
    → x < id
    → All (λ y. x < y) xs
    → All (λ y. x < y) (posting_insert xs id)
unfolding posting_insert
insert-above x id [] l h = (l, tt)
insert-above x id (y ∷ xs) l (h, hs) = elim (search_cases y id xs) [
  | inl (q, e) ↦ rw e (h, hs)
  | inr (inl (q, e)) ↦ rw e (l, (h, hs))
  | inr (inr (q, e)) ↦
      rw (e, insert_at-shift y id xs (binary_search xs id)) (h, insert-above x id xs l hs)
]

All-trans : (a b : ℕ) (xs : List ℕ) → a < b → All (λ y. b < y) xs → All (λ y. a < y) xs
All-trans a b [] l h = tt
All-trans a b (x ∷ xs) l (h, hs) = (omega arith, All-trans a b xs l hs)

-- An insert keeps a list sorted and adds the id and nothing else, once.
pub posting_insert-IsAscending :
    (list : List VectorId) (id : VectorId)
    → IsAscending list
    → IsAscending (posting_insert list id)
      × ((k : VectorId) → has_id k (posting_insert list id) ≡ (eqb k id || has_id k list))
unfolding posting_insert
posting_insert-IsAscending [] id h = ((tt, tt), λ k. ground arith)
posting_insert-IsAscending (x ∷ xs) id (h, hs) = elim (search_cases x id xs) [
  | inl (q, e) ↦ rw e ((h, hs), λ k. ground (arith, q))
  | inr (inl (q, e)) ↦ rw e ((((q, All-trans id x xs q h), (h, hs)), λ k. ground arith))
  | inr (inr (q, e)) ↦
      let (sorted, has) = posting_insert-IsAscending xs id hs in
      rw (e, insert_at-shift x id xs (binary_search xs id))
        ((insert-above x id xs q h, sorted), λ k. ground (arith, has k))
]

remove-above :
    (x id : ℕ) (xs : List ℕ) → All (λ y. x < y) xs → All (λ y. x < y) (posting_remove xs id)
unfolding posting_remove
remove-above x id [] h = tt
remove-above x id (y ∷ xs) (h, hs) = elim (search_cases y id xs) [
  | inl (q, e) ↦ rw e hs
  | inr (inl (q, e)) ↦ rw e (h, hs)
  | inr (inr (q, e)) ↦
      rw (e, remove_at-shift y xs (binary_search xs id)) (h, remove-above x id xs hs)
]

-- A removal keeps a sorted list sorted and takes out the id and nothing else.
pub posting_remove-IsAscending :
    (list : List VectorId) (id : VectorId)
    → IsAscending list
    → IsAscending (posting_remove list id)
      × ((k : VectorId) → has_id k (posting_remove list id) ≡ (not (eqb k id) && has_id k list))
unfolding posting_remove
posting_remove-IsAscending [] id h = (tt, λ k. ground arith)
posting_remove-IsAscending (x ∷ xs) id (h, hs) = elim (search_cases x id xs) [
  | inl (q, e) ↦ rw e (
    hs,
    λ k. ground (
      arith,
      q,
      eqb_iff k id,
      eqb_iff k x,
      below-absent id x xs (omega arith) h,
      below-absent x x xs (omega arith) h,
    ),
  )
  | inr (inl (q, e)) ↦ rw e (
    (h, hs),
    λ k. ground (arith, eqb_iff k id, eqb_iff k x, below-absent id x xs (omega arith) h),
  )
  | inr (inr (q, e)) ↦
      let (sorted, has) = posting_remove-IsAscending xs id hs in
      rw (e, remove_at-shift x xs (binary_search xs id))
        ((remove-above x id xs h, sorted), λ k. ground (arith, has k, eqb_iff k id, eqb_iff k x))
]

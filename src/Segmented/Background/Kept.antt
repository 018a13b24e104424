-- ===== src/Segmented/Background/Kept.antt =====
-- The entries that a merge takes over from a victim.
use gvector.Prelude.{
  ◌≡◌, refl, subst, inl, inr, false, not, ◌&&◌, ◌||◌, List, [], ◌∷◌, ◌++◌, arith, eqb, eqb_iff,
  eqb_refl, Bool-cases, filterb, All, nat_key, string_key,
}
use Prim.{tt}
use gvector.Types.{VectorId, Vector}
use gvector.BruteForce.Contains.{IsDistinct}
use gvector.Segmented.{has_id}
use gvector.Segmented.Background.Build.{entry_ids}

-- Entries whose id is not in a set.
abbrev pub kept : List VectorId → List (VectorId × Vector) → List (VectorId × Vector)
kept snap es = filterb (λ e. not (has_id e.0 snap)) es

pub kept-ids :
    (key : VectorId) (snap : List VectorId) (es : List (VectorId × Vector))
    → has_id key (entry_ids (kept snap es)) ≡ (has_id key (entry_ids es) && not (has_id key snap))
kept-ids key snap [] = refl
kept-ids key snap ((id, v) ∷ es) = elim (Bool-cases (eqb key id)) [
  | inl q ↦
      subst
        (λ i.
          has_id key (entry_ids (kept snap ((i, v) ∷ es)))
          ≡ (has_id key (entry_ids ((i, v) ∷ es)) && not (has_id key snap)))
        ((eqb_iff key id).0 q) (ground (arith, kept-ids key snap es, eqb_refl key))
  | inr q ↦ ground (arith, q, kept-ids key snap es)
]

pub kept-IsDistinct :
    (snap : List VectorId) (es : List (VectorId × Vector))
    → IsDistinct (entry_ids es)
    → IsDistinct (entry_ids (kept snap es))
kept-IsDistinct snap [] d = tt
kept-IsDistinct snap ((id, v) ∷ es) (d, ds) = elim (Bool-cases (has_id id snap)) [
  | inl q ↦ rw q (kept-IsDistinct snap es ds)
  | inr q ↦ rw q (ground (arith, kept-ids id snap es, d), kept-IsDistinct snap es ds)
]

pub kept-All :
    (P : VectorId × Vector → Type 0) (snap : List VectorId) (es : List (VectorId × Vector))
    → All P es
    → All P (kept snap es)
kept-All P snap [] h = tt
kept-All P snap ((id, v) ∷ es) (h, hs) = elim (Bool-cases (has_id id snap)) [
  | inl q ↦ rw q (kept-All P snap es hs)
  | inr q ↦ rw q (h, kept-All P snap es hs)
]

pub All-append :
    {A : Type 0} (P : A → Type 0) (xs ys : List A) → All P xs → All P ys → All P (xs ++ ys)
All-append P [] ys h k = k
All-append P (x ∷ xs) ys (h, hs) k = (h, All-append P xs ys hs k)

pub ids-append :
    (key : VectorId) (xs ys : List (VectorId × Vector))
    → has_id key (entry_ids (xs ++ ys)) ≡ (has_id key (entry_ids xs) || has_id key (entry_ids ys))
ids-append key [] ys = refl
ids-append key (x ∷ xs) ys = ground (arith, ids-append key xs ys)

pub append-IsDistinct :
    (xs ys : List (VectorId × Vector))
    → IsDistinct (entry_ids xs)
    → IsDistinct (entry_ids ys)
    → ((key : VectorId) → (has_id key (entry_ids xs) && has_id key (entry_ids ys)) ≡ false)
    → IsDistinct (entry_ids (xs ++ ys))
append-IsDistinct [] ys d e h = e
append-IsDistinct ((id, v) ∷ xs) ys (d, ds) e h = (
  ground (arith, d, ids-append id xs ys, h id, eqb_refl id),
  append-IsDistinct xs ys ds e (λ key. ground (arith, h key)),
)

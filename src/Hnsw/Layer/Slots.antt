-- ===== src/Hnsw/Layer/Slots.antt =====
-- The slots of candidates in a heap: which are there, and that none is there twice.
use gvector.Prelude.{
  ℕ, ◌≡◌, refl, ◌∙◌, inl, inr, Bool, false, ◌||◌, List, [], ◌∷◌, map, arith, eqb, eqb_iff,
  Bool-cases, anyb, nat_key, string_key,
}
use gvector.Types.{Cand}
use gvector.Types.Order.{cand_ord}
use gvector.Order.Sort.{insert_sorted, sort}
use gvector.Order.Heap.{pop}
use gvector.BruteForce.Contains.{IsDistinct}

abbrev pub slots : List Cand → List ℕ
slots cs = map (λ c. c.slot) cs

abbrev pub has_slot : ℕ → List Cand → Bool
has_slot s cs = anyb (eqb s) (slots cs)

pub has_slot-insert_sorted :
    (s : ℕ) (c : Cand) (cs : List Cand)
    → has_slot s (insert_sorted c cs) ≡ (eqb s c.slot || has_slot s cs)
unfolding insert_sorted
has_slot-insert_sorted s c [] = ground arith
has_slot-insert_sorted s c (d ∷ cs) = ground (arith, has_slot-insert_sorted s c cs)

pub has_slot-sort : (s : ℕ) (cs : List Cand) → has_slot s (sort cs) ≡ has_slot s cs
unfolding sort
has_slot-sort s [] = refl
has_slot-sort s (c ∷ cs) = has_slot-insert_sorted s c (sort cs) ∙ ground (arith, has_slot-sort s cs)

pub has_slot-pop : (s : ℕ) (cs : List Cand) → has_slot s cs ≡ false → has_slot s (pop cs) ≡ false
unfolding pop
has_slot-pop s [] h = refl
has_slot-pop s (c ∷ []) h = refl
has_slot-pop s (c ∷ d ∷ cs) h = ground (arith, has_slot-pop s (d ∷ cs))

pub insert_sorted-IsDistinct :
    (c : Cand) (cs : List Cand)
    → has_slot c.slot cs ≡ false
    → IsDistinct (slots cs)
    → IsDistinct (slots (insert_sorted c cs))
unfolding insert_sorted
insert_sorted-IsDistinct c [] h d = (refl, tt)
insert_sorted-IsDistinct c (x ∷ cs) h (n, d) = elim (Bool-cases (cand_ord.lt c x)) [
  | inl q ↦ rw q (h, (n, d))
  | inr q ↦ rw q (
    has_slot-insert_sorted x.slot c cs
        ∙ ground (arith, eqb_iff x.slot c.slot, eqb_iff c.slot x.slot),
    insert_sorted-IsDistinct c cs (ground arith) d,
  )
]

pub sort-IsDistinct : (cs : List Cand) → IsDistinct (slots cs) → IsDistinct (slots (sort cs))
unfolding sort
sort-IsDistinct [] d = tt
sort-IsDistinct (c ∷ cs) (n, d) =
    insert_sorted-IsDistinct c (sort cs) (has_slot-sort c.slot cs ∙ n) (sort-IsDistinct cs d)

pub pop-IsDistinct : (cs : List Cand) → IsDistinct (slots cs) → IsDistinct (slots (pop cs))
unfolding pop
pop-IsDistinct [] d = tt
pop-IsDistinct (c ∷ []) d = tt
pop-IsDistinct (c ∷ x ∷ cs) (n, d) = (has_slot-pop c.slot (x ∷ cs) n, pop-IsDistinct (x ∷ cs) d)

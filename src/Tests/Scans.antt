-- ===== src/Tests/Scans.antt =====
-- Distances and the linear-scan index on a plane of small integers. The float operations are
-- stood in for by those of the natural numbers, on the bit patterns of small numbers.
use gvector.Prelude.{
  ℕ, ◌+◌, ◌-◌, ◌*◌, ◌/◌, min, ◌≡◌, refl, ap, true, some, List, [], ◌∷◌, ◌++◌, ltb, eqb, length, All,
  nat_key, string_key, lookup, insert, erase,
}
use mathlib.Core.List.{Permᴰ}
use mathlib.Core.List.Permᴰ as Perm
use gvector.Types.{F32, SearchResult}
use gvector.Types.Order.{result_ord}
use gvector.Index.{ok}
use gvector.Distance.{F32Ops, l2, prepare}
use gvector.BruteForce.{
  vector_at, BruteForceIndex, Rayon, Reduction, identity, leaf, both, leaves, new, insert_vector,
  delete, vector_of, search, search_filtered, entries,
}
use gvector.BruteForce.Invariant.{IsValid, new-IsValid, insert_vector-IsValid}
use gvector.BruteForce.Lookup.{vector_of-insert_vector, vector_of-delete}
use mathlib.Core.List.{Permᴰ}
use gvector.BruteForce.Search.{search_exact}
use gvector.BruteForce.Nearest.{passing, IsInOrder, IsNearer, search_filtered-nearest}
use gvector.Eval.{enumerate, exact_top_k, search-exact_top_k}

sum_lanes : List ℕ → ℕ
sum_lanes [] = 0
sum_lanes (x ∷ xs) = x + sum_lanes xs

apart : ℕ → ℕ → ℕ
apart a b = (a - b) + (b - a)

abbrev pub toy_ops : F32Ops
unfolding sum_lanes apart
toy_ops = record {
  add = ◌+◌;
  sub = apart;
  mul = ◌*◌;
  div = ◌/◌;
  neg = λ a. a;
  sqrt = λ a. a;
  gt = λ a b. ltb b a;
  reduce_add = sum_lanes;
}

-- A chain of heaps, an empty one last.
pub chain : List (List SearchResult) → Reduction
chain [] = identity
chain (h ∷ hs) = both (leaf h) (chain hs)

pub leaves-chain : (hs : List (List SearchResult)) → leaves (chain hs) ≡ hs
unfolding chain
leaves-chain [] = refl
leaves-chain (h ∷ hs) = ap (◌∷◌ h) (leaves-chain hs)

abbrev pub pool : Rayon
unfolding chain
pool = record { threads = 4; shape = chain; leaves-shape = leaves-chain }

abbrev empty : BruteForceIndex
empty = new 2 l2

abbrev one : BruteForceIndex
one = record { metric = l2; dim = 2; data_block = 3 ∷ 4 ∷ []; ids = 7 ∷ []; slot_of = (7, 0) ∷ [] }

abbrev two : BruteForceIndex
two = record {
  metric = l2;
  dim = 2;
  data_block = 3 ∷ 4 ∷ 1 ∷ 1 ∷ [];
  ids = 7 ∷ 9 ∷ [];
  slot_of = (7, 0) ∷ (9, 1) ∷ [];
}

insert_one : insert_vector toy_ops empty 7 (3 ∷ 4 ∷ []) ≡ ok one
unfolding insert_vector new prepare lookup insert
insert_one = refl

insert_two : insert_vector toy_ops one 9 (1 ∷ 1 ∷ []) ≡ ok two
unfolding insert_vector new prepare lookup insert
insert_two = refl

abbrev rest : BruteForceIndex
rest = record { metric = l2; dim = 2; data_block = 1 ∷ 1 ∷ []; ids = 9 ∷ []; slot_of = (9, 0) ∷ [] }

delete_first : delete two 7 ≡ ok rest
unfolding delete lookup erase insert
delete_first = refl

one-IsValid : IsValid one
one-IsValid = insert_vector-IsValid toy_ops empty 7 (3 ∷ 4 ∷ []) (new-IsValid 2 l2) insert_one

two-IsValid : IsValid two
two-IsValid = insert_vector-IsValid toy_ops one 9 (1 ∷ 1 ∷ []) one-IsValid insert_two

vector_of-insert_vector_example : vector_of two 9 ≡ some (prepare toy_ops l2 (1 ∷ 1 ∷ []))
vector_of-insert_vector_example =
    vector_of-insert_vector toy_ops one 9 9 (1 ∷ 1 ∷ []) one-IsValid insert_two

vector_of-delete_example : vector_of rest 9 ≡ vector_of two 9
vector_of-delete_example = vector_of-delete two 7 9 two-IsValid delete_first

search_exact_example :
    search toy_ops pool two (0 ∷ 0 ∷ []) 1 ≡ search_filtered toy_ops two (0 ∷ 0 ∷ []) 1 (λ _. true)
search_exact_example = search_exact toy_ops pool two (0 ∷ 0 ∷ []) 1

search_filtered-nearest_example :
    let results = search_filtered toy_ops two (0 ∷ 0 ∷ []) 1 (eqb 7) in
    (left_out : List SearchResult) × (Permᴰ
        (results ++ left_out)
        (passing toy_ops two (0 ∷ 0 ∷ []) (eqb 7))
      × IsInOrder results
      × All (λ r. All (IsNearer r) left_out) results
      × (length results ≡ min 1 (length (passing toy_ops two (0 ∷ 0 ∷ []) (eqb 7)))))
search_filtered-nearest_example = search_filtered-nearest toy_ops two (0 ∷ 0 ∷ []) 1 (eqb 7)

-- The rows of a base of two vectors, the second first, as a removal can leave them.
abbrev swapped : BruteForceIndex
swapped = record {
  metric = l2;
  dim = 2;
  data_block = 1 ∷ 1 ∷ 3 ∷ 4 ∷ [];
  ids = 1 ∷ 0 ∷ [];
  slot_of = (1, 0) ∷ (0, 1) ∷ [];
}

abbrev base : List (List F32)
base = (3 ∷ 4 ∷ []) ∷ (1 ∷ 1 ∷ []) ∷ []

swapped-base : Permᴰ (entries swapped) (enumerate 0 base)
unfolding entries enumerate vector_at
swapped-base = Perm.append_comm ((1, 1 ∷ 1 ∷ []) ∷ []) ((0, 3 ∷ 4 ∷ []) ∷ [])

search-exact_top_k_example :
    search toy_ops pool swapped (0 ∷ 0 ∷ []) 1
    ≡ exact_top_k toy_ops base (prepare toy_ops l2 (0 ∷ 0 ∷ [])) 1 l2
search-exact_top_k_example =
    search-exact_top_k toy_ops pool swapped base (0 ∷ 0 ∷ []) 1 swapped-base

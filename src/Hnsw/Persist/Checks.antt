-- ===== src/Hnsw/Persist/Checks.antt =====
-- What the checks of a load have found out.
use gvector.Prelude.{
  ℕ, zero, suc, ◌+◌, ◌*◌, ◌/◌, ◌≤◌, ◌<◌, ◌≡◌, refl, ap, ◌≢◌, inl, inr, Bool, true, false, Option,
  none, some, List, [], ◌∷◌, arith, leb, Bool-cases, length, get_elem?, get_or, drop, anyb, All,
  nat_key, string_key,
}
use gvector.Hnsw.{levels_at, neighbors_at}
use gvector.Hnsw.Persist.{done, check_links, check_entry, count_deleted, read_floats}
use gvector.Hnsw.Update.Tracked.{count_true}

anyb-false :
    {A : Type 0} (p : A → Bool) (xs : List A) → anyb p xs ≡ false → All (λ x. p x ≡ false) xs
anyb-false p [] h = tt
anyb-false p (x ∷ xs) h = elim (Bool-cases (p x)) [
  | inl q ↦ absurd (ground arith)
  | inr q ↦ (q, anyb-false p xs (ground arith))
]

pub bounded : (n : ℕ) (xs : List ℕ) → All (λ s. leb n s ≡ false) xs → All (λ s. s < n) xs
bounded n [] h = tt
bounded n (x ∷ xs) (h, hs) = (ground arith, bounded n xs hs)

bounded_level :
    (n l : ℕ) (levels : List (List ℕ))
    → All (λ list. anyb (λ s. leb n s) list ≡ false) levels
    → All (λ s. s < n) (get_or levels l [])
bounded_level n l [] h = tt
bounded_level n zero (list ∷ levels) (h, hs) = bounded n list (anyb-false (λ s. leb n s) list h)
bounded_level n (suc l) (list ∷ levels) (h, hs) = bounded_level n l levels hs

-- Every node has a level, and every edge ends in a node.
abbrev pub IsBounded : ℕ → List (List (List ℕ)) → Type 0
IsBounded n links =
    ((s : ℕ) → s < length links → 0 < length (levels_at links s))
    × ((s l : ℕ) → All (λ nb. nb < n) (neighbors_at links s l))

tall_cons :
    (node : List (List ℕ)) (links : List (List (List ℕ)))
    → 0 < length node
    → ((s : ℕ) → s < length links → 0 < length (levels_at links s))
    → (s : ℕ) → s < suc (length links)
    → 0 < length (levels_at (node ∷ links) s)
tall_cons node links h t zero l = h
tall_cons node links h t (suc s) l = t s (omega arith)

bound_cons :
    (n : ℕ) (node : List (List ℕ)) (links : List (List (List ℕ)))
    → All (λ list. anyb (λ s. leb n s) list ≡ false) node
    → ((s l : ℕ) → All (λ nb. nb < n) (neighbors_at links s l))
    → (s l : ℕ) → All (λ nb. nb < n) (neighbors_at (node ∷ links) s l)
bound_cons n node links h b zero l = bounded_level n l node h
bound_cons n node links h b (suc s) l = b s l

pub check_links-IsBounded :
    (n : ℕ) (links : List (List (List ℕ))) → check_links n links ≡ done tt → IsBounded n links
unfolding check_links
check_links-IsBounded n [] h = ((λ s l. absurd (omega arith)), λ s l. tt)
check_links-IsBounded n ([] ∷ links) h = cc
check_links-IsBounded n ((level ∷ levels) ∷ links) h =
    elim (Bool-cases (anyb (λ list. anyb (λ s. leb n s) list) (level ∷ levels))) [
      | inl bad ↦ absurd (cc (rw bad at h))
      | inr good ↦
          let (tall, bound) = check_links-IsBounded n links (rw good at h) in
          let here = anyb-false (λ list. anyb (λ s. leb n s) list) (level ∷ levels) good in
          (
            tall_cons (level ∷ levels) links (omega arith) tall,
            bound_cons n (level ∷ levels) links here bound,
          )
    ]

pub check_entry_ok :
    (n d : ℕ) (entry : Option ℕ)
    → check_entry n d entry ≡ done tt
    → ((e : ℕ) → entry ≡ some e → e < n) × (entry ≡ none → d ≡ n)
unfolding check_entry
check_entry_ok n d none h = ((λ e q. cc), λ q. ground arith)
check_entry_ok n d (some e) h = ((λ e' q. ground arith), λ q. cc)

count_deleted-le : (ds : List Bool) → count_deleted ds ≤ length ds
unfolding count_deleted
count_deleted-le [] = omega arith
count_deleted-le (true ∷ ds) = omega (arith, count_deleted-le ds)
count_deleted-le (false ∷ ds) = omega (arith, count_deleted-le ds)

pub count_deleted-eq : (ds : List Bool) → count_deleted ds ≡ count_true ds
unfolding count_deleted count_true
count_deleted-eq [] = refl
count_deleted-eq (true ∷ ds) = ap suc (count_deleted-eq ds)
count_deleted-eq (false ∷ ds) = count_deleted-eq ds

pub from_zero : (i : ℕ) → i ≡ 0 + i
from_zero i = omega arith

done_inj : {A : Type 0} {a b : A} → done a ≡ done b → a ≡ b
done_inj h = cc

pub length-read_floats : (n : ℕ) (bytes : List ℕ) → length (read_floats n bytes) ≡ n
unfolding read_floats
length-read_floats zero bytes = refl
length-read_floats (suc n) bytes = ap suc (length-read_floats n (drop 4 bytes))

pub quarter : (n : ℕ) → n * 4 / 4 ≡ n
quarter n = omega arith

pub all_deleted :
    (ds : List Bool) (s : ℕ) → count_deleted ds ≡ length ds → get_elem? ds s ≢ some false
unfolding count_deleted
all_deleted [] s h q = cc
all_deleted (true ∷ ds) zero h q = cc
all_deleted (true ∷ ds) (suc s) h q = all_deleted ds s (omega arith) q
all_deleted (false ∷ ds) s h q = absurd (omega (arith, count_deleted-le ds))

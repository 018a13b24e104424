-- ===== src/BruteForce/Rows.antt =====
-- The vector block read as rows of `dim` numbers: appending, overwriting and truncating rows.
use gvector.Prelude.{
  ℕ, zero, suc, ◌+◌, ◌*◌, ◌≤◌, ◌<◌, ◌≡◌, refl, sym, ap, ◌∙◌, some, List, [], ◌∷◌, ◌++◌,
  append_assoc, arith, length, get_elem?, set, take, drop, length-take, length-drop, take-all,
  take-append, drop-append, nat_key, string_key,
}
use mathlib.Core.Path.{ap₂}
use gvector.Prelude.Slices.{
  drop-drop, drop-append_left, take-append_left, take-add, take-take, drop-take,
}

zero-eq : (dim : ℕ) → 0 ≡ 0 * dim
zero-eq dim = omega arith

module _ {A : Type 0} where
  abbrev pub row : ℕ → ℕ → List A → List A
  row dim i block = take dim (drop (i * dim) block)

  pub rows : ℕ → ℕ → List A → List (List A)
  rows dim zero block = []
  rows dim (suc n) block = take dim block ∷ rows dim n (drop dim block)

  module _ (dim : ℕ) where
    pub get_elem?-rows :
        (n i : ℕ) (block : List A) → i < n → get_elem? (rows dim n block) i ≡ some (row dim i block)
    unfolding rows
    get_elem?-rows zero i block h = elim h [ ]
    get_elem?-rows (suc n) zero block h = ap (λ b. some (take dim (drop b block))) (zero-eq dim)
    get_elem?-rows (suc n) (suc i) block h =
        get_elem?-rows n i (drop dim block) (omega arith)
        ∙ ap (λ b. some (take dim b)) (drop-drop dim (i * dim) (suc i * dim) block (omega arith))

    pub length-rows : (n : ℕ) (block : List A) → length (rows dim n block) ≡ n
    unfolding rows
    length-rows zero block = refl
    length-rows (suc n) block = ap suc (length-rows n (drop dim block))

    pub rows-append :
        (n : ℕ) (block v : List A)
        → length block ≡ n * dim
        → length v ≡ dim
        → rows dim (suc n) (block ++ v) ≡ rows dim n block ++ (v ∷ [])
    unfolding rows
    rows-append zero [] v h e = ap (λ r. r ∷ []) (take-all dim v (omega arith))
    rows-append zero (x ∷ block) v h e = absurd (omega arith)
    rows-append (suc n) block v h e = ap₂ ◌∷◌ (take-append_left dim block v (omega arith)) (
        ap (rows dim (suc n)) (drop-append_left dim block v (omega arith))
        ∙ rows-append n (drop dim block) v (omega (arith, length-drop dim block)) e)

    -- The first row, and the others.
    rows_cons :
        (n : ℕ) (v block : List A)
        → length v ≡ dim
        → rows dim (suc n) (v ++ block) ≡ v ∷ rows dim n block
    unfolding rows
    rows_cons n v block e =
        ap₂ ◌∷◌ (take-append dim v block e) (ap (rows dim n) (drop-append dim v block e))

    copy_split :
        (a b a' b' : ℕ) (block v : List A)
        → a ≡ dim + a'
        → b ≡ dim + b'
        → take a block ++ (v ++ drop b block)
          ≡ take dim block ++ (take a' (drop dim block) ++ (v ++ drop b' (drop dim block)))
    copy_split a b a' b' block v ea eb =
        ap₂ ◌++◌ (take-add dim a' a block ea) (ap (◌++◌ v) (sym (drop-drop dim b' b block eb)))
        ∙ append_assoc (take dim block) _ _

    -- Overwriting the numbers of one row overwrites that row.
    pub rows-copy :
        (n slot a b : ℕ) (block v : List A)
        → length block ≡ n * dim
        → slot < n
        → length v ≡ dim
        → a ≡ slot * dim
        → b ≡ (slot + 1) * dim
        → rows dim n (take a block ++ (v ++ drop b block)) ≡ set (rows dim n block) slot v
    unfolding rows
    rows-copy zero slot a b block v h l e ea eb = absurd (omega arith)
    rows-copy (suc n) zero a b block v h l e ea eb =
        let za : a ≡ 0 = omega arith in
        let db : b ≡ dim = omega arith in
        ap₂ (λ a b. rows dim (suc n) (take a block ++ (v ++ drop b block))) za db
        ∙ rows_cons n v (drop dim block) e
    rows-copy (suc n) (suc slot) a b block v h l e ea eb =
        ap (rows dim (suc n))
          (copy_split a b (slot * dim) ((slot + 1) * dim) block v (omega arith) (omega arith))
        ∙ rows_cons n (take dim block) _ (omega (arith, length-take dim block))
        ∙ ap (◌∷◌ (take dim block)) (
            rows-copy n slot (slot * dim) ((slot + 1) * dim) (drop dim block) v
              (omega (arith, length-drop dim block)) (omega arith) e refl refl)

    pub rows-take :
        (n m : ℕ) (block : List A)
        → m ≤ n
        → rows dim m (take (m * dim) block) ≡ take m (rows dim n block)
    unfolding rows
    rows-take n zero block h = refl
    rows-take zero (suc m) block h = absurd (omega arith)
    rows-take (suc n) (suc m) block h = ap₂ ◌∷◌ (take-take dim (suc m * dim) block (omega arith)) (
        ap (rows dim m) (drop-take dim (suc m * dim) (m * dim) block (omega arith))
        ∙ rows-take n m (drop dim block) (omega arith))

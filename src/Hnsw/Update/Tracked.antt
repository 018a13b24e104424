-- ===== src/Hnsw/Update/Tracked.antt =====
-- The invariant of the rows: the block, the flags, the ids and the id map in step.
use gvector.Prelude.{
  ℕ, zero, suc, ◌+◌, ◌*◌, ◌<◌, ◌≡◌, refl, sym, ap, ◌∙◌, ◌≢◌, inl, inr, Bool, true, false, none,
  some, List, [], ◌∷◌, ◌++◌, arith, eqb, eqb_iff, Bool-cases, length, get_elem?, set, length-append,
  length-set, get_elem?-set_self, get_elem?-set_ne, get_elem?-lt, get_elem?-append_left,
  get_elem?-append_here, get_elem?-snoc, nat_key, string_key, lookup, insert, erase, lookup-insert,
  lookup-erase,
}
use gvector.Types.{VectorId, F32}
use gvector.Hnsw.Update.Rows.{Rows}

unfoldable pub count_true : List Bool → ℕ
count_true [] = 0
count_true (true ∷ xs) = suc (count_true xs)
count_true (false ∷ xs) = count_true xs

-- A slot is alive when its flag is down.
abbrev pub IsAlive : Rows → ℕ → Type 0
IsAlive r slot = get_elem? r.deleted slot ≡ some false

pub record IsTracked (r : Rows) : Type 0 where
  -- one row of `dim` numbers and one flag for every slot
  pub block : length r.storage ≡ length r.ids * r.dim
  pub flags : length r.deleted ≡ length r.ids
  pub count : r.deleted_count ≡ count_true r.deleted
  -- a mapped id stands in its slot, which is alive
  pub placed :
      (id slot : ℕ)
      → lookup id r.slot_of ≡ some slot
      → (get_elem? r.ids slot ≡ some id) × IsAlive r slot
  -- the id of a slot that is alive is mapped to it
  pub mapped :
      (id slot : ℕ)
      → get_elem? r.ids slot ≡ some id
      → IsAlive r slot
      → lookup id r.slot_of ≡ some slot

count_true-append : (xs : List Bool) → count_true (xs ++ (false ∷ [])) ≡ count_true xs
unfolding count_true
count_true-append [] = refl
count_true-append (true ∷ xs) = ap suc (count_true-append xs)
count_true-append (false ∷ xs) = count_true-append xs

count_true-set :
    (xs : List Bool) (i : ℕ)
    → get_elem? xs i ≡ some false
    → count_true (set xs i true) ≡ count_true xs + 1
unfolding count_true
count_true-set [] i h = cc
count_true-set (true ∷ xs) zero h = cc
count_true-set (false ∷ xs) zero h = omega arith
count_true-set (true ∷ xs) (suc i) h = omega (arith, count_true-set xs i h)
count_true-set (false ∷ xs) (suc i) h = count_true-set xs i h

-- The rows with one more.
abbrev pub pushed : Rows → VectorId → List F32 → Rows
pushed r id v = record r {
  storage = r.storage ++ v;
  ids = r.ids ++ (id ∷ []);
  slot_of = insert id (length r.ids) r.slot_of;
  deleted = r.deleted ++ (false ∷ []);
}

-- The rows with one buried.
abbrev pub buried : Rows → VectorId → ℕ → Rows
buried r id slot = record r {
  slot_of = erase id r.slot_of;
  deleted = set r.deleted slot true;
  deleted_count = r.deleted_count + 1;
}

module _ (r : Rows) (id : VectorId) (valid : IsTracked r) where
  pushed-placed :
      (v : List F32) (key slot : ℕ)
      → lookup key (pushed r id v).slot_of ≡ some slot
      → (get_elem? (r.ids ++ (id ∷ [])) slot ≡ some key) × IsAlive (pushed r id v) slot
  pushed-placed v key slot h = elim (Bool-cases (eqb id key)) [
    | inl e ↦
        let here : slot ≡ length r.ids =
          ground (arith, lookup-insert id key (length r.ids) r.slot_of) in
        (
          get_elem?-append_here r.ids [] id slot here ∙ ap some ((eqb_iff id key).0 e),
          get_elem?-append_here r.deleted [] false slot (omega (arith, here, valid.flags)),
        )
    | inr e ↦
        let old : lookup key r.slot_of ≡ some slot =
          ground (arith, lookup-insert id key (length r.ids) r.slot_of) in
        let (at, alive) = valid.placed key slot old in
        (
          get_elem?-append_left r.ids (id ∷ []) slot (get_elem?-lt r.ids slot key at) ∙ at,
          get_elem?-append_left r.deleted (false ∷ []) slot
                (get_elem?-lt r.deleted slot false alive)
              ∙ alive,
        )
  ]

  pushed-mapped :
      (v : List F32) (key slot : ℕ)
      → lookup id r.slot_of ≡ none
      → get_elem? (r.ids ++ (id ∷ [])) slot ≡ some key
      → IsAlive (pushed r id v) slot
      → lookup key (pushed r id v).slot_of ≡ some slot
  pushed-mapped v key slot fresh h alive = elim (get_elem?-snoc r.ids id key slot h) [
    | inl (l, e) ↦
        let old =
          sym (get_elem?-append_left r.deleted (false ∷ []) slot (omega (arith, valid.flags)))
          ∙ alive in
        ground (arith, valid.mapped key slot e old, lookup-insert id key (length r.ids) r.slot_of)
    | inr (l, e) ↦ ground (arith, lookup-insert id key (length r.ids) r.slot_of)
  ]

  pub pushed-IsTracked :
      (v : List F32) → lookup id r.slot_of ≡ none → length v ≡ r.dim → IsTracked (pushed r id v)
  pushed-IsTracked v fresh l = record {
    block =
        rw (length-append r.storage v, length-append r.ids (id ∷ [])) (omega (arith, valid.block));
    flags =
        omega
          (arith, length-append r.deleted (false ∷ []), length-append r.ids (id ∷ []), valid.flags);
    count = valid.count ∙ sym (count_true-append r.deleted);
    placed = pushed-placed v;
    mapped = λ key slot. pushed-mapped v key slot fresh;
  }

  -- A slot that another id has is another slot.
  buried-alive :
      (slot s : ℕ)
      → IsAlive (buried r id slot) s
      → slot < length r.deleted
      → (slot ≢ s) × IsAlive r s
  buried-alive slot s h l = elim (Bool-cases (eqb slot s)) [
    | inl e ↦
        let same = (eqb_iff slot s).0 e in
        absurd (
          ground (
            arith,
            get_elem?-set_self r.deleted slot true l,
            ap (get_elem? (set r.deleted slot true)) same,
          ))
    | inr e ↦
        let apart : slot ≢ s = λ q. ground (arith, q, e, eqb_iff slot s) in
        (apart, sym (get_elem?-set_ne r.deleted true apart) ∙ h)
  ]

  pub buried-IsTracked : (slot : ℕ) → lookup id r.slot_of ≡ some slot → IsTracked (buried r id slot)
  buried-IsTracked slot here =
      let (at, alive) = valid.placed id slot here in
      let inside = get_elem?-lt r.deleted slot false alive in
      record {
        block = valid.block;
        flags = length-set r.deleted slot true ∙ valid.flags;
        count = omega (arith, valid.count, count_true-set r.deleted slot alive);
        placed = λ key s h. elim (Bool-cases (eqb id key)) [
          | inl e ↦ absurd (ground (arith, lookup-erase id key r.slot_of))
          | inr e ↦
              let old : lookup key r.slot_of ≡ some s =
                ground (arith, lookup-erase id key r.slot_of) in
              let (at', alive') = valid.placed key s old in
              let apart : slot ≢ s =
                λ q. ground (arith, at, at', ap (get_elem? r.ids) q, eqb_iff id key) in
              (at', get_elem?-set_ne r.deleted true apart ∙ alive')
        ];
        mapped = λ key s at' h.
            let (apart, alive') = buried-alive slot s h inside in
            let old = valid.mapped key s at' alive' in
            ground (
              arith,
              old,
              lookup-erase id key r.slot_of,
              here,
              eqb_iff id key,
              ap (λ k. lookup k r.slot_of),
            );
      }

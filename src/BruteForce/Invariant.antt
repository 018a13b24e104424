-- ===== src/BruteForce/Invariant.antt =====
-- The invariant that ties the block, the ids and the id map together, and what keeps it.
use gvector.Prelude.{
  ℕ, zero, suc, ◌+◌, ◌-◌, ◌*◌, ◌≤◌, ◌<◌, ◌≡◌, refl, sym, ap, ◌∙◌, ◌≢◌, ◌⊎◌, inl, inr, none, some,
  List, [], ◌∷◌, ◌++◌, arith, eqb, eqb_iff, Bool-cases, Option-cases, length, get_elem?, get_or,
  set, take, drop, length-append, length-set, length-take, length-drop, get_elem?-lt,
  get_elem?-append_left, get_elem?-append_here, get_elem?-snoc, nat_key, string_key, lookup, insert,
  erase, lookup-insert,
}
use gvector.Types.{VectorId, F32, Vector}
use gvector.Index.{ok}
use gvector.Distance.{F32Ops, Metric, prepare, length-prepare}
use gvector.BruteForce.Slots.{swapped-Placed, swapped-Mapped, popped-Placed, popped-Mapped}
use gvector.BruteForce.{BruteForceIndex, new, insert_vector, delete, contains, is_some}

pub record IsValid (idx : BruteForceIndex) : Type 0 where
  -- one row of `dim` numbers for every id
  pub block : length idx.data_block ≡ length idx.ids * idx.dim
  -- a mapped id stands in its slot
  pub placed : (id slot : ℕ) → lookup id idx.slot_of ≡ some slot → get_elem? idx.ids slot ≡ some id
  -- every slot's id is mapped to that slot
  pub mapped : (id slot : ℕ) → get_elem? idx.ids slot ≡ some id → lookup id idx.slot_of ≡ some slot

pub new-IsValid : (dim : ℕ) (metric : Metric) → IsValid (new dim metric)
unfolding new lookup
new-IsValid dim metric = record {
  block = omega arith;
  placed = λ id slot h. cc;
  mapped = λ id slot h. cc;
}

-- The index with one more row.
abbrev pub pushed : BruteForceIndex → VectorId → List F32 → BruteForceIndex
pushed idx id v = record idx {
  data_block = idx.data_block ++ v;
  ids = idx.ids ++ (id ∷ []);
  slot_of = insert id (length idx.ids) idx.slot_of;
}

-- An insert that succeeds had a vector of the right length and a new id.
pub insert_vector_ok :
    (ops : F32Ops) (idx : BruteForceIndex) (id : VectorId) (v : Vector) {idx' : BruteForceIndex}
    → insert_vector ops idx id v ≡ ok idx'
    → (length v ≡ idx.dim)
      × (lookup id idx.slot_of ≡ none)
      × (idx' ≡ pushed idx id (prepare ops idx.metric v))
unfolding insert_vector contains is_some
insert_vector_ok ops idx id v e = ground arith

module _ (idx : BruteForceIndex) (id : VectorId) (v : List F32) (valid : IsValid idx) where
  pushed_placed :
      (key slot : ℕ)
      → lookup key (pushed idx id v).slot_of ≡ some slot
      → get_elem? (idx.ids ++ (id ∷ [])) slot ≡ some key
  pushed_placed key slot h = elim (Bool-cases (eqb id key)) [
    | inl e ↦
        get_elem?-append_here idx.ids [] id slot
          (ground (arith, lookup-insert id key (length idx.ids) idx.slot_of))
        ∙ ap some ((eqb_iff id key).0 e)
    | inr e ↦
        let old : lookup key idx.slot_of ≡ some slot =
          ground (arith, lookup-insert id key (length idx.ids) idx.slot_of) in
        let here = valid.placed key slot old in
        get_elem?-append_left idx.ids (id ∷ []) slot (get_elem?-lt idx.ids slot key here) ∙ here
  ]

  pushed_mapped :
      (key slot : ℕ)
      → lookup id idx.slot_of ≡ none
      → get_elem? (idx.ids ++ (id ∷ [])) slot ≡ some key
      → lookup key (pushed idx id v).slot_of ≡ some slot
  pushed_mapped key slot fresh h = elim (get_elem?-snoc idx.ids id key slot h) [
    | inl (l, e) ↦
        ground (arith, valid.mapped key slot e, lookup-insert id key (length idx.ids) idx.slot_of)
    | inr (l, e) ↦ ground (arith, lookup-insert id key (length idx.ids) idx.slot_of)
  ]

  pushed-IsValid : lookup id idx.slot_of ≡ none → length v ≡ idx.dim → IsValid (pushed idx id v)
  pushed-IsValid fresh l = record {
    block =
        rw (length-append idx.data_block v, length-append idx.ids (id ∷ []))
          (omega (arith, valid.block));
    placed = pushed_placed;
    mapped = λ key slot. pushed_mapped key slot fresh;
  }

-- Every insert that succeeds keeps the invariant.
pub insert_vector-IsValid :
    (ops : F32Ops) (idx : BruteForceIndex) (id : VectorId) (v : Vector) {idx' : BruteForceIndex}
    → IsValid idx
    → insert_vector ops idx id v ≡ ok idx'
    → IsValid idx'
insert_vector-IsValid ops idx id v valid e =
    let (l, fresh, eq) = insert_vector_ok ops idx id v e in
    rw eq (
      pushed-IsValid idx id (prepare ops idx.metric v) valid fresh
        (length-prepare ops idx.metric v ∙ l))

-- The index after a delete from slot `slot`, whether the last row moves or is the one that goes.
abbrev pub swapped : BruteForceIndex → VectorId → ℕ → ℕ → VectorId → BruteForceIndex
swapped idx id slot last moved = record idx {
  data_block = take (last * idx.dim) (
      take (slot * idx.dim) idx.data_block
      ++ (take idx.dim (drop (last * idx.dim) idx.data_block)
          ++ drop ((slot + 1) * idx.dim) idx.data_block));
  ids = take last (set idx.ids slot moved);
  slot_of = insert moved slot (erase id idx.slot_of);
}

abbrev pub popped : BruteForceIndex → VectorId → ℕ → BruteForceIndex
popped idx id last = record idx {
  data_block = take (last * idx.dim) idx.data_block;
  ids = take last idx.ids;
  slot_of = erase id idx.slot_of;
}

abbrev pub last_slot : BruteForceIndex → ℕ
last_slot idx = length idx.ids - 1

-- What a delete that succeeds has found, and what it leaves.
pub delete_ok :
    (idx : BruteForceIndex) (id : VectorId) {idx' : BruteForceIndex}
    → delete idx id ≡ ok idx'
    → (slot : ℕ) × (lookup id idx.slot_of ≡ some slot)
      × (((slot ≢ last_slot idx)
            × (idx' ≡ swapped idx id slot (last_slot idx) (get_or idx.ids (last_slot idx) 0)))
          ⊎ ((slot ≡ last_slot idx) × (idx' ≡ popped idx id (last_slot idx))))
unfolding delete
delete_ok idx id e = elim (Option-cases (lookup id idx.slot_of)) [
  | inl n ↦ absurd (ground arith)
  | inr (slot, s) ↦ (slot, s, ground arith)
]

pub get_or-last :
    (xs : List ℕ) (last : ℕ) → length xs ≡ suc last → get_elem? xs last ≡ some (get_or xs last 0)
get_or-last [] last h = absurd (omega arith)
get_or-last (x ∷ xs) zero h = refl
get_or-last (x ∷ []) (suc last) h = absurd (omega arith)
get_or-last (x ∷ y ∷ xs) (suc last) h = get_or-last (y ∷ xs) last (omega arith)

mul_mono : (a b dim : ℕ) → a ≤ b → a * dim ≤ b * dim
mul_mono a b dim h = grind arith

copied-length :
    (dim n slot last : ℕ) (block : List F32)
    → length block ≡ n * dim
    → n ≡ suc last
    → slot < last
    → length (
        take (last * dim) (
          take (slot * dim) block
          ++ (take dim (drop (last * dim) block) ++ drop ((slot + 1) * dim) block)))
      ≡ last * dim
copied-length dim n slot last block h e l =
    let whole : length block ≡ last * dim + dim = rw (h, e) (omega arith) in
    let head = mul_mono (slot + 1) last dim (omega arith) in
    omega (
      arith,
      length-take (last * dim) (
          take (slot * dim) block
          ++ (take dim (drop (last * dim) block) ++ drop ((slot + 1) * dim) block)),
      length-append (take (slot * dim) block)
          (take dim (drop (last * dim) block) ++ drop ((slot + 1) * dim) block),
      length-append (take dim (drop (last * dim) block)) (drop ((slot + 1) * dim) block),
      length-take (slot * dim) block,
      length-take dim (drop (last * dim) block),
      length-drop (last * dim) block,
      length-drop ((slot + 1) * dim) block,
    )

popped-length :
    (dim n last : ℕ) (block : List F32)
    → length block ≡ n * dim
    → n ≡ suc last
    → length (take (last * dim) block) ≡ last * dim
popped-length dim n last block h e =
    let whole : length block ≡ last * dim + dim = rw (h, e) (omega arith) in
    omega (arith, length-take (last * dim) block)

-- Every delete that succeeds keeps the invariant.
pub delete-IsValid :
    (idx : BruteForceIndex) (id : VectorId) {idx' : BruteForceIndex}
    → IsValid idx
    → delete idx id ≡ ok idx'
    → IsValid idx'
delete-IsValid idx id valid e =
    let (slot, here, cases) = delete_ok idx id e in
    let last = last_slot idx in
    let at = valid.placed id slot here in
    let size : length idx.ids ≡ suc last = omega (arith, get_elem?-lt idx.ids slot id at) in
    let inside = get_elem?-lt idx.ids slot id at in
    elim cases [
      | inl (apart, eq) ↦
          let tail = get_or-last idx.ids last size in
          rw eq (record {
            block =
                copied-length idx.dim (length idx.ids) slot last idx.data_block valid.block size
                  (omega arith)
                ∙ ap (λ n. n * idx.dim)
                    (omega (
                      arith,
                      length-take last (set idx.ids slot (get_or idx.ids last 0)),
                      length-set idx.ids slot (get_or idx.ids last 0),
                    ));
            placed =
                swapped-Placed idx.ids idx.slot_of valid.placed valid.mapped id slot last _ here
                  size tail apart;
            mapped =
                swapped-Mapped idx.ids idx.slot_of valid.placed valid.mapped id slot last _ here
                  size tail apart;
          })
      | inr (same, eq) ↦ rw eq (record {
        block =
            let kept : length (take last idx.ids) ≡ last =
              omega (arith, length-take last idx.ids) in
            popped-length idx.dim (length idx.ids) last idx.data_block valid.block size
            ∙ ap (λ n. n * idx.dim) (sym kept);
        placed =
            popped-Placed idx.ids idx.slot_of valid.placed valid.mapped id slot last 0 here size
              same;
        mapped =
            popped-Mapped idx.ids idx.slot_of valid.placed valid.mapped id slot last 0 here size
              same;
      })
    ]

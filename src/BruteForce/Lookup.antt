-- ===== src/BruteForce/Lookup.antt =====
-- The index seen as a map from ids to vectors: what an insert and a delete do to it.
use gvector.Prelude.{
  ℕ, suc, ◌+◌, ◌*◌, ◌<◌, ◌≡◌, refl, sym, ap, ◌∙◌, ◌≢◌, inl, inr, none, some, List, [], ◌∷◌, ◌++◌,
  arith, eqb, if◌then◌else◌, Bool-cases, Option-cases, some_inj, length, get_elem?, set, take, drop,
  length-take, length-drop, get_elem?-set_self, get_elem?-set_ne, get_elem?-take, get_elem?-lt,
  get_elem?-append_left, get_elem?-append_here, nat_key, string_key, lookup, erase, lookup-insert,
  lookup-erase,
}
use gvector.Types.{VectorId, F32, Vector}
use gvector.Index.{ok}
use gvector.Distance.{F32Ops, prepare, length-prepare}
use gvector.BruteForce.Rows.{
  rows, get_elem?-rows, rows-append, rows-copy, rows-take, length-rows, row,
}
use gvector.BruteForce.Invariant.{
  IsValid, pushed, swapped, popped, last_slot, get_or-last, insert_vector_ok, delete_ok,
}
use gvector.BruteForce.{BruteForceIndex, insert_vector, delete, vector_of, vector_at}

-- A slot's vector is its row.
vector_at-row :
    (idx : BruteForceIndex) (slot : ℕ) → vector_at idx slot ≡ row idx.dim slot idx.data_block
unfolding vector_at
vector_at-row idx slot = ap (λ n. take n (drop (slot * idx.dim) idx.data_block)) (omega arith)

row-append :
    (dim n i : ℕ) (block v : List F32)
    → length block ≡ n * dim
    → length v ≡ dim
    → i < n
    → row dim i (block ++ v) ≡ row dim i block
row-append dim n i block v h e l = some_inj (
    sym (get_elem?-rows dim (suc n) i (block ++ v) (omega arith))
    ∙ ap (λ r. get_elem? r i) (rows-append dim n block v h e)
    ∙ get_elem?-append_left (rows dim n block) (v ∷ []) i (omega (arith, length-rows dim n block))
    ∙ get_elem?-rows dim n i block l)

row-append_here :
    (dim n : ℕ) (block v : List F32)
    → length block ≡ n * dim
    → length v ≡ dim
    → row dim n (block ++ v) ≡ v
row-append_here dim n block v h e = some_inj (
    sym (get_elem?-rows dim (suc n) n (block ++ v) (omega arith))
    ∙ ap (λ r. get_elem? r n) (rows-append dim n block v h e)
    ∙ get_elem?-append_here (rows dim n block) [] v n (omega (arith, length-rows dim n block)))

vector_of-some :
    (idx : BruteForceIndex) (key slot : ℕ)
    → lookup key idx.slot_of ≡ some slot
    → vector_of idx key ≡ some (row idx.dim slot idx.data_block)
unfolding vector_of
vector_of-some idx key slot e = rw e (ap some (vector_at-row idx slot))

vector_of-none :
    (idx : BruteForceIndex) (key : ℕ) → lookup key idx.slot_of ≡ none → vector_of idx key ≡ none
unfolding vector_of
vector_of-none idx key e = rw e

-- Two indexes agree at a key if they map it to slots with the same row.
vector_of-eq :
    (a b : BruteForceIndex) (key : ℕ)
    → lookup key a.slot_of ≡ lookup key b.slot_of
    → ((slot : ℕ)
        → lookup key b.slot_of ≡ some slot
        → row a.dim slot a.data_block ≡ row b.dim slot b.data_block)
    → vector_of a key ≡ vector_of b key
vector_of-eq a b key e same = elim (Option-cases (lookup key b.slot_of)) [
  | inl n ↦ vector_of-none a key (e ∙ n) ∙ sym (vector_of-none b key n)
  | inr (slot, s) ↦
      vector_of-some a key slot (e ∙ s) ∙ ap some (same slot s) ∙ sym (vector_of-some b key slot s)
]

vector_of-pushed :
    (idx : BruteForceIndex) (id key : VectorId) (v : List F32)
    → IsValid idx
    → length v ≡ idx.dim
    → vector_of (pushed idx id v) key ≡ (if eqb id key then some v else vector_of idx key)
vector_of-pushed idx id key v valid l =
    let mapped = lookup-insert id key (length idx.ids) idx.slot_of in
    elim (Bool-cases (eqb id key)) [
      | inl e ↦ rw e (
          vector_of-some (pushed idx id v) key (length idx.ids) (mapped ∙ rw e)
          ∙ ap some (row-append_here idx.dim (length idx.ids) idx.data_block v valid.block l))
      | inr e ↦ rw e (
          vector_of-eq (pushed idx id v) idx key (mapped ∙ rw e) (λ slot s.
            row-append idx.dim (length idx.ids) slot idx.data_block v valid.block l
              (get_elem?-lt idx.ids slot key (valid.placed key slot s))))
    ]

-- After a successful insert the id has the prepared vector, and every other id what it had.
pub vector_of-insert_vector :
    (ops : F32Ops) (idx : BruteForceIndex) (id key : VectorId) (v : Vector) {idx' : BruteForceIndex}
    → IsValid idx
    → insert_vector ops idx id v ≡ ok idx'
    → vector_of idx' key
      ≡ (if eqb id key then some (prepare ops idx.metric v) else vector_of idx key)
vector_of-insert_vector ops idx id key v valid e =
    let (l, fresh, eq) = insert_vector_ok ops idx id v e in
    rw eq (
      vector_of-pushed idx id key (prepare ops idx.metric v) valid
        (length-prepare ops idx.metric v ∙ l))

module _ (dim n slot last : ℕ) (block : List F32) (size : length block ≡ n * dim)
    (pos : n ≡ suc last) (low : slot < last) where
  moved_row : length (row dim last block) ≡ dim
  moved_row =
      let whole : length block ≡ last * dim + dim = rw (size, pos) (omega arith) in
      omega (arith, length-take dim (drop (last * dim) block), length-drop (last * dim) block)

  abbrev moved_block : List F32
  moved_block = take (slot * dim) block ++ (row dim last block ++ drop ((slot + 1) * dim) block)

  moved_rows :
      (i : ℕ)
      → i < last
      → get_elem? (set (rows dim n block) slot (row dim last block)) i
        ≡ some (row dim i (take (last * dim) moved_block))
  moved_rows i h =
      sym (
        ap (λ r. get_elem? r i)
          (rows-copy dim n slot (slot * dim) ((slot + 1) * dim) block (row dim last block) size
            (omega arith) moved_row refl refl))
      ∙ sym (get_elem?-take (rows dim n moved_block) last i h)
      ∙ sym (ap (λ r. get_elem? r i) (rows-take dim n last moved_block (omega arith)))
      ∙ get_elem?-rows dim last i (take (last * dim) moved_block) h

  row-moved_here : row dim slot (take (last * dim) moved_block) ≡ row dim last block
  row-moved_here = some_inj (
      sym (moved_rows slot low)
      ∙ get_elem?-set_self (rows dim n block) slot (row dim last block)
          (omega (arith, length-rows dim n block)))

  row-moved_ne :
      (i : ℕ) → i < last → slot ≢ i → row dim i (take (last * dim) moved_block) ≡ row dim i block
  row-moved_ne i h away = some_inj (
      sym (moved_rows i h)
      ∙ get_elem?-set_ne (rows dim n block) (row dim last block) away
      ∙ get_elem?-rows dim n i block (omega arith))

row-popped :
    (dim n last i : ℕ) (block : List F32)
    → n ≡ suc last
    → i < last
    → row dim i (take (last * dim) block) ≡ row dim i block
row-popped dim n last i block e h = some_inj (
    sym (get_elem?-rows dim last i (take (last * dim) block) h)
    ∙ ap (λ r. get_elem? r i) (rows-take dim n last block (omega arith))
    ∙ get_elem?-take (rows dim n block) last i h
    ∙ get_elem?-rows dim n i block (omega arith))

module _ (idx : BruteForceIndex) (id slot last moved : ℕ) (valid : IsValid idx)
    (here : lookup id idx.slot_of ≡ some slot) (size : length idx.ids ≡ suc last) where
  vector_of-swapped :
      (key : VectorId)
      → slot ≢ last
      → get_elem? idx.ids last ≡ some moved
      → vector_of (swapped idx id slot last moved) key
        ≡ (if eqb id key then none else vector_of idx key)
  vector_of-swapped key apart tail =
      let new = swapped idx id slot last moved in
      let low : slot < last =
        omega (arith, get_elem?-lt idx.ids slot id (valid.placed id slot here)) in
      let at = lookup-insert moved key slot (erase id idx.slot_of) in
      let gone = lookup-erase id key idx.slot_of in
      let end = valid.mapped moved last tail in
      elim (Bool-cases (eqb id key)) [
        | inl e ↦ rw e (vector_of-none new key (ground arith))
        | inr e ↦ rw e (elim (Bool-cases (eqb moved key)) [
          | inl m ↦
              vector_of-some new key slot (at ∙ rw m)
              ∙ ap some (
                  row-moved_here idx.dim (length idx.ids) slot last idx.data_block valid.block size
                    low)
              ∙ sym (vector_of-some idx key last (ground arith))
          | inr m ↦ vector_of-eq new idx key (at ∙ rw m (gone ∙ rw e)) (λ s there.
              row-moved_ne idx.dim (length idx.ids) slot last idx.data_block valid.block size low s
                (omega (
                  arith,
                  get_elem?-lt idx.ids s key (valid.placed key s there),
                  (let q : s ≢ last = λ q. ground (arith, valid.placed key s there) in q),
                ))
                (λ q. ground (arith, valid.placed key s there, valid.placed id slot here)))
        ])
      ]

  vector_of-popped :
      (key : VectorId)
      → slot ≡ last
      → vector_of (popped idx id last) key ≡ (if eqb id key then none else vector_of idx key)
  vector_of-popped key same =
      let gone = lookup-erase id key idx.slot_of in
      elim (Bool-cases (eqb id key)) [
        | inl e ↦ rw e (vector_of-none (popped idx id last) key (gone ∙ rw e))
        | inr e ↦ rw e (
            vector_of-eq (popped idx id last) idx key (gone ∙ rw e) (λ s there.
              row-popped idx.dim (length idx.ids) last s idx.data_block size (
                omega (
                  arith,
                  get_elem?-lt idx.ids s key (valid.placed key s there),
                  (let q : s ≢ last =
                        λ q. ground (arith, valid.placed key s there, valid.placed id slot here) in
                      q),
                ))))
      ]

-- After a successful delete the id has no vector, and every other id what it had.
pub vector_of-delete :
    (idx : BruteForceIndex) (id key : VectorId) {idx' : BruteForceIndex}
    → IsValid idx
    → delete idx id ≡ ok idx'
    → vector_of idx' key ≡ (if eqb id key then none else vector_of idx key)
vector_of-delete idx id key valid e =
    let (slot, here, cases) = delete_ok idx id e in
    let last = last_slot idx in
    let size : length idx.ids ≡ suc last =
      omega (arith, get_elem?-lt idx.ids slot id (valid.placed id slot here)) in
    elim cases [
      | inl (apart, eq) ↦ rw eq (
          vector_of-swapped idx id slot last _ valid here size key apart
            (get_or-last idx.ids last size))
      | inr (same, eq) ↦ rw eq (vector_of-popped idx id slot last 0 valid here size key same)
    ]

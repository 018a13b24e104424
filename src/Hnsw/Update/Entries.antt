-- ===== src/Hnsw/Update/Entries.antt =====
-- `live_entries`: exactly the ids that the index contains, each once, with rows of `dim` numbers.
use gvector.Prelude.{
  ℕ, suc, ◌+◌, ◌-◌, ◌<◌, ◌≡◌, sym, ap, ◌∙◌, ◌≢◌, ◌⊎◌, inl, inr, Bool, true, false, none, some, List,
  [], ◌∷◌, map, arith, ltb, leb, eqb, if◌then◌else◌, ltb→lt, ltb-false→le, eqb_iff, Bool-cases,
  Option-cases, some_inj, length, get_elem?, get_or, anyb, All, get_elem?-lt, nat_key, string_key,
  lookup,
}
use gvector.Types.{VectorId, F32}
use gvector.BruteForce.Contains.{IsDistinct}
use gvector.Hnsw.{HnswIndex, contains, entries_from, live_entries}
use gvector.Hnsw.Update.Rows.{rows}
use gvector.Hnsw.Update.Tracked.{IsTracked}
use gvector.Hnsw.Update.Compacted.{get_or-some, length-vector_at}

abbrev entry_ids : List (VectorId × List F32) → List VectorId
entry_ids es = map (λ e. e.0) es

pub at_start : (n : ℕ) → n ≡ n + 0
at_start n = omega arith

pub from_zero : (i : ℕ) → i ≡ 0 + i
from_zero i = omega arith

pub shift : (n i : ℕ) → n + suc i ≡ n + 1 + i
shift n i = omega arith

module _ {R : Type 0} (idx : HnswIndex R) (valid : IsTracked (rows idx)) where
  -- An id that is alive in a slot from `start` on.
  above : ℕ → VectorId → Bool
  above start key = elim (lookup key idx.slot_of) [ none ↦ false | some s ↦ leb start s ]

  above-dead :
      (start : ℕ) (key : VectorId)
      → get_elem? idx.deleted start ≡ some true
      → above start key ≡ above (start + 1) key
  unfolding above
  above-dead start key h = elim (Option-cases (lookup key idx.slot_of)) [
    | inl n ↦ ground arith
    | inr (s, e) ↦
        let (at, alive) = valid.placed key s e in
        let apart : s ≢ start = λ q. cc (ap (get_elem? idx.deleted) q) in ground arith
  ]

  above-alive :
      (start id : ℕ) (key : VectorId)
      → lookup id idx.slot_of ≡ some start
      → above start key ≡ (if eqb key id then true else above (start + 1) key)
  unfolding above
  above-alive start id key h = elim (Option-cases (lookup key idx.slot_of)) [
    | inl n ↦
        let apart : id ≢ key = λ q. cc (ap (λ k. lookup k idx.slot_of) q) in
        ground (arith, eqb_iff key id)
    | inr (s, e) ↦
        let same : id ≡ key → start ≡ s =
          λ q. some_inj (sym h ∙ ap (λ k. lookup k idx.slot_of) q ∙ e) in
        let back : start ≡ s → id ≡ key = λ q.
          some_inj (
            sym (valid.placed id start h).0
            ∙ ap (get_elem? idx.ids) q
            ∙ (valid.placed key s e).0) in
        ground (arith, eqb_iff key id)
  ]

  above_self : (start id : ℕ) → lookup id idx.slot_of ≡ some start → above (start + 1) id ≡ false
  unfolding above
  above_self start id h = ground arith

  -- `ids` is what the index has from `start` on.
  abbrev IsTail : ℕ → List VectorId → Type 0
  IsTail start ids = (i : ℕ) → get_elem? ids i ≡ get_elem? idx.ids (start + i)

  above_end : (start : ℕ) (key : VectorId) → IsTail start [] → above start key ≡ false
  unfolding above
  above_end start key tail = elim (Option-cases (lookup key idx.slot_of)) [
    | inl n ↦ ground arith
    | inr (s, e) ↦
        let (at, alive) = valid.placed key s e in
        let out : s < start ⊎ ((s - start) + start ≡ s) = elim (Bool-cases (ltb s start)) [
          | inl q ↦ inl (ltb→lt s start q)
          | inr q ↦ inr (omega (arith, ltb-false→le s start q))
        ] in
        elim out [
          | inl l ↦ ground arith
          | inr q ↦
              let there : start + (s - start) ≡ s = omega arith in
              absurd (cc (tail (s - start), ap (get_elem? idx.ids) there))
        ]
  ]

  -- The entries from a slot on: their ids, each once, and their lengths.
  entries_from-Held :
      (start : ℕ) (ids : List VectorId)
      → IsTail start ids
      → ((key : VectorId)
          → anyb (eqb key) (entry_ids (entries_from idx start ids)) ≡ above start key)
        × IsDistinct (entry_ids (entries_from idx start ids))
        × All (λ e. length e.1 ≡ idx.dim) (entries_from idx start ids)
  unfolding entries_from
  entries_from-Held start [] tail = (λ key. sym (above_end start key tail), tt, tt)
  entries_from-Held start (id ∷ ids) tail =
      let at : get_elem? idx.ids start ≡ some id =
        ap (get_elem? idx.ids) (at_start start) ∙ sym (tail 0) in
      let inside = get_elem?-lt idx.ids start id at in
      let next : IsTail (start + 1) ids =
        λ i. tail (suc i) ∙ ap (get_elem? idx.ids) (shift start i) in
      let (held, distinct, dims) = entries_from-Held (start + 1) ids next in
      elim (Bool-cases (get_or idx.deleted start false)) [
        | inl dead ↦
            let flag : get_elem? idx.deleted start ≡ some true =
              get_or-some idx.deleted start false (omega (arith, valid.flags)) ∙ ap some dead in
            rw dead (λ key. held key ∙ sym (above-dead start key flag), distinct, dims)
        | inr alive ↦
            let flag : get_elem? idx.deleted start ≡ some false =
              get_or-some idx.deleted start false (omega (arith, valid.flags)) ∙ ap some alive in
            let here = valid.mapped id start at flag in
            rw alive (
              λ key.
                  ap (λ b. if eqb key id then true else b) (held key)
                  ∙ sym (above-alive start id key here),
              (held id ∙ above_self start id here, distinct),
              (length-vector_at idx start valid inside, dims),
            )
      ]

  above_zero : (key : VectorId) → above 0 key ≡ contains idx key
  unfolding above contains
  above_zero key = elim (Option-cases (lookup key idx.slot_of)) [
    | inl n ↦ ground arith
    | inr (s, e) ↦ ground arith
  ]

  pub live_entries-contains :
      (key : VectorId) → anyb (eqb key) (entry_ids (live_entries idx)) ≡ contains idx key
  unfolding live_entries
  live_entries-contains key =
      (entries_from-Held 0 idx.ids (λ i. ap (get_elem? idx.ids) (from_zero i))).0 key
      ∙ above_zero key

  pub live_entries-IsDistinct :
      IsDistinct (entry_ids (live_entries idx)) × All (λ e. length e.1 ≡ idx.dim) (live_entries idx)
  unfolding live_entries
  live_entries-IsDistinct =
      let (_, distinct, dims) =
        entries_from-Held 0 idx.ids (λ i. ap (get_elem? idx.ids) (from_zero i)) in
      (distinct, dims)

-- ===== src/Hnsw/Persist/Rebuild.antt =====
-- What `rebuild` has checked when it accepts a file's contents.
use gvector.Prelude.{
  ℕ, suc, ◌+◌, ◌<◌, ◌≡◌, refl, sym, ap, ◌∙◌, subst, ◌≢◌, inl, inr, Bool, true, false, none, some,
  List, [], ◌∷◌, arith, eqb, eqb_iff, Bool-cases, Option-cases, some_inj, length, get_elem?, get_or,
  nat_key, string_key, lookup, insert, lookup-insert,
}
use gvector.Types.{VectorId}
use gvector.Hnsw.Persist.{
  PersistError, PersistResult, done, failed, map_live, ◌>>=◌, ◌>>◌, refuse_if,
}
use gvector.Hnsw.Update.Compacted.{get_or-some}

pub bind_ok :
    {A B : Type 0} (m : PersistResult A) (f : A → PersistResult B) {b : B}
    → (m >>= f) ≡ done b
    → (a : A) × (m ≡ done a) × (f a ≡ done b)
bind_ok (done a) f h = (a, refl, h)
bind_ok (failed e) f h = cc

pub refuse_ok :
    {B : Type 0} (t : Bool) (e : PersistError) (k : PersistResult B) {b : B}
    → (refuse_if t e >> k) ≡ done b
    → (t ≡ false) × (k ≡ done b)
refuse_ok true e k h = cc
refuse_ok false e k h = (refl, h)

plus_zero : (n : ℕ) → n ≡ n + 0
plus_zero n = omega arith

shift : (n i : ℕ) → n + suc i ≡ n + 1 + i
shift n i = omega arith

done_inj : {A : Type 0} {a b : A} → done a ≡ done b → a ≡ b
done_inj h = cc

apart_lt : (s start : ℕ) → s ≢ start → s < start + 1 → s < start
apart_lt s start n l = elim (Bool-cases (eqb s start)) [
  | inl e ↦ absurd (n ((eqb_iff s start).0 e))
  | inr e ↦ ground arith
]

module _ (ids : List VectorId) (deleted : List Bool) (full : length deleted ≡ length ids) where
  -- The map holds exactly the slots below `start` that are alive.
  pub record Maps (start : ℕ) (m : List (VectorId × ℕ)) : Type 0 where
    pub below : (key s : ℕ) → lookup key m ≡ some s → s < start
    pub here :
        (key s : ℕ)
        → lookup key m ≡ some s
        → (get_elem? ids s ≡ some key) × (get_elem? deleted s ≡ some false)
    pub there :
        (key s : ℕ)
        → s < start
        → get_elem? ids s ≡ some key
        → get_elem? deleted s ≡ some false
        → lookup key m ≡ some s

  pub Maps-nil : Maps 0 []
  unfolding lookup
  Maps-nil = record {
    below = λ key s h. cc;
    here = λ key s h. cc;
    there = λ key s l a d. absurd (omega arith);
  }

  pub Maps-dead :
      (start : ℕ) (m : List (VectorId × ℕ))
      → get_elem? deleted start ≡ some true
      → Maps start m
      → Maps (start + 1) m
  Maps-dead start m flag h = record {
    below = λ key s e. omega (arith, h.below key s e);
    here = h.here;
    there = λ key s l a d.
        let apart : s ≢ start = λ q. cc (ap (get_elem? deleted) q) in
        h.there key s (omega (arith, apart_lt s start apart)) a d;
  }

  -- An id that is alive in the slot and not mapped yet.
  pub Maps-alive :
      (start id : ℕ) (m : List (VectorId × ℕ))
      → get_elem? ids start ≡ some id
      → get_elem? deleted start ≡ some false
      → lookup id m ≡ none
      → Maps start m
      → Maps (start + 1) (insert id start m)
  Maps-alive start id m at flag new h = record {
    below = λ key s e. elim (Bool-cases (eqb id key)) [
      | inl q ↦ ground (arith, lookup-insert id key start m)
      | inr q ↦
          let old : lookup key m ≡ some s = ground (arith, lookup-insert id key start m) in
          omega (arith, h.below key s old)
    ];
    here = λ key s e. elim (Bool-cases (eqb id key)) [
      | inl q ↦
          let here' : start ≡ s = ground (arith, lookup-insert id key start m) in
          subst (λ n. (get_elem? ids n ≡ some key) × (get_elem? deleted n ≡ some false)) here'
            (at ∙ ap some ((eqb_iff id key).0 q), flag)
      | inr q ↦ h.here key s (ground (arith, lookup-insert id key start m))
    ];
    there = λ key s l a d. elim (Bool-cases (eqb s start)) [
      | inl q ↦
          let same : id ≡ key =
            some_inj (sym at ∙ ap (get_elem? ids) (sym ((eqb_iff s start).0 q)) ∙ a) in
          ground (arith, lookup-insert id key start m, eqb_iff id key, eqb_iff s start)
      | inr q ↦
          let low = apart_lt s start (λ p. ground (arith, p, q, eqb_iff s start)) l in
          let old = h.there key s low a d in
          let other : id ≢ key = λ p. cc (ap (λ k. lookup k m) p) in
          ground (arith, lookup-insert id key start m, eqb_iff id key)
    ];
  }

  abbrev IsTail : ℕ → List VectorId → Type 0
  IsTail start rest =
      (start + length rest ≡ length ids) × ((i : ℕ) → get_elem? rest i ≡ get_elem? ids (start + i))

  IsTail-head :
      (start id : ℕ) (rest : List VectorId)
      → IsTail start (id ∷ rest)
      → (get_elem? ids start ≡ some id) × (start < length ids) × IsTail (start + 1) rest
  IsTail-head start id rest (size, tail) = (
    ap (get_elem? ids) (plus_zero start) ∙ sym (tail 0),
    omega arith,
    (omega arith, λ i. tail (suc i) ∙ ap (get_elem? ids) (shift start i)),
  )

  flag_at :
      (start : ℕ) (b : Bool)
      → start < length ids
      → get_or deleted start false ≡ b
      → get_elem? deleted start ≡ some b
  flag_at start b l e = get_or-some deleted start false (omega (arith, full)) ∙ ap some e

  -- A map that is made holds exactly the slots that are alive.
  pub map_live-Maps :
      (rest : List VectorId) (start : ℕ) (m m' : List (VectorId × ℕ))
      → IsTail start rest
      → Maps start m
      → map_live deleted start rest m ≡ done m'
      → Maps (length ids) m'
  unfolding map_live
  map_live-Maps [] start m m' tail h e =
      subst (Maps (length ids)) (done_inj e) (subst (λ n. Maps n m) (omega (arith, tail.0)) h)
  map_live-Maps (id ∷ rest) start m m' tail h e =
      let (at, l, next) = IsTail-head start id rest tail in
      elim (Bool-cases (get_or deleted start false)) [
        | inl dead ↦
            map_live-Maps rest (start + 1) m m' next
              (Maps-dead start m (flag_at start true l dead) h) (rw dead at e)
        | inr alive ↦ elim (Option-cases (lookup id m)) [
          | inl new ↦
              map_live-Maps rest (start + 1) (insert id start m) m' next
                (Maps-alive start id m at (flag_at start false l alive) new h) (ground arith)
          | inr (s, old) ↦ absurd (ground arith)
        ]
      ]

  -- No two slots that are alive hold one id: then the map is made.
  pub map_live-total :
      ((id s t : ℕ)
        → get_elem? ids s ≡ some id
        → get_elem? deleted s ≡ some false
        → get_elem? ids t ≡ some id
        → get_elem? deleted t ≡ some false
        → s ≡ t)
      → (rest : List VectorId) (start : ℕ) (m : List (VectorId × ℕ)) → IsTail start rest
      → Maps start m
      → (m' : List (VectorId × ℕ)) × (map_live deleted start rest m ≡ done m')
  unfolding map_live
  map_live-total one [] start m tail h = (m, refl)
  map_live-total one (id ∷ rest) start m tail h =
      let (at, l, next) = IsTail-head start id rest tail in
      elim (Bool-cases (get_or deleted start false)) [
        | inl dead ↦
            let (m', e) =
              map_live-total one rest (start + 1) m next
                (Maps-dead start m (flag_at start true l dead) h) in
            (m', rw dead e)
        | inr alive ↦
            let flag = flag_at start false l alive in
            elim (Option-cases (lookup id m)) [
              | inl new ↦
                  let (m', e) =
                    map_live-total one rest (start + 1) (insert id start m) next
                      (Maps-alive start id m at flag new h) in
                  (m', ground arith)
              | inr (s, old) ↦
                  let (at', flag') = h.here id s old in
                  absurd (omega (arith, h.below id s old, one id s start at' flag' at flag))
            ]
      ]

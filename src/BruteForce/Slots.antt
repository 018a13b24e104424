-- ===== src/BruteForce/Slots.antt =====
-- The id list and the id map under a swap-remove.
use gvector.Prelude.{
  ℕ, suc, ◌<◌, ◌≡◌, sym, ◌∙◌, ◌≢◌, inl, inr, some, List, arith, eqb, eqb_iff, Bool-cases, length,
  get_elem?, set, take, length-take, get_elem?-set_self, get_elem?-set_ne, get_elem?-take,
  get_elem?-lt, nat_key, string_key, lookup, insert, erase, lookup-insert, lookup-erase,
}
use gvector.Types.{VectorId}

abbrev pub Placed : List VectorId → List (VectorId × ℕ) → Type 0
Placed ids m = (id slot : ℕ) → lookup id m ≡ some slot → get_elem? ids slot ≡ some id

abbrev pub Mapped : List VectorId → List (VectorId × ℕ) → Type 0
Mapped ids m = (id slot : ℕ) → get_elem? ids slot ≡ some id → lookup id m ≡ some slot

module _ (ids : List VectorId) (m : List (VectorId × ℕ)) (placed : Placed ids m)
    (mapped : Mapped ids m) (id slot last moved : ℕ) (here : lookup id m ≡ some slot)
    (size : length ids ≡ suc last) where
  pub slot-lt : slot < suc last
  slot-lt = omega (arith, get_elem?-lt ids slot id (placed id slot here))

  module _ (tail : get_elem? ids last ≡ some moved) (apart : slot ≢ last) where
    pub swapped-Placed : Placed (take last (set ids slot moved)) (insert moved slot (erase id m))
    swapped-Placed key s h = elim (Bool-cases (eqb moved key)) [
      | inl e ↦
          let at : s ≡ slot = ground (arith, lookup-insert moved key slot (erase id m)) in
          rw (at, ← (eqb_iff moved key).0 e)
            (get_elem?-take (set ids slot moved) last slot (omega (arith, slot-lt))
              ∙ get_elem?-set_self ids slot moved (omega (arith, slot-lt)))
      | inr e ↦
          let old : lookup key m ≡ some s =
            ground (arith, lookup-insert moved key slot (erase id m), lookup-erase id key m) in
          let away : id ≢ key =
            λ q. ground (arith, lookup-insert moved key slot (erase id m), lookup-erase id key m) in
          let there = placed key s old in
          let s-slot : slot ≢ s = λ q. ground (arith, placed id slot here) in
          let s-last : s ≢ last = λ q. ground arith in
          let below : s < last = omega (arith, get_elem?-lt ids s key there) in
          get_elem?-take (set ids slot moved) last s below
          ∙ get_elem?-set_ne ids moved s-slot
          ∙ there
    ]

    pub swapped-Mapped : Mapped (take last (set ids slot moved)) (insert moved slot (erase id m))
    swapped-Mapped key s h =
        let below : s < last =
          omega (arith, get_elem?-lt _ s key h, length-take last (set ids slot moved)) in
        let kept = sym (get_elem?-take (set ids slot moved) last s below) ∙ h in
        elim (Bool-cases (eqb slot s)) [
          | inl e ↦ ground (
            arith,
            get_elem?-set_self ids slot moved (omega (arith, slot-lt)),
            lookup-insert moved key slot (erase id m),
          )
          | inr e ↦
              let s-slot : slot ≢ s = λ q. ground arith in
              let old = sym (get_elem?-set_ne ids moved s-slot) ∙ kept in
              ground (
                arith,
                mapped key s old,
                mapped moved last tail,
                lookup-insert moved key slot (erase id m),
                lookup-erase id key m,
              )
        ]

  module _ (at : slot ≡ last) where
    pub popped-Placed : Placed (take last ids) (erase id m)
    popped-Placed key s h =
        let old : lookup key m ≡ some s = ground (arith, lookup-erase id key m) in
        let there = placed key s old in
        let s-last : s ≢ last = λ q. ground (arith, placed id slot here, lookup-erase id key m) in
        get_elem?-take ids last s (omega (arith, get_elem?-lt ids s key there)) ∙ there

    pub popped-Mapped : Mapped (take last ids) (erase id m)
    popped-Mapped key s h =
        let below : s < last = omega (arith, get_elem?-lt _ s key h, length-take last ids) in
        let old = sym (get_elem?-take ids last s below) ∙ h in
        ground (arith, mapped key s old, lookup-erase id key m)

-- ===== src/Hnsw/Persist/Accepts.antt =====
-- `rebuild` accepts what a valid index has written.
use gvector.Prelude.{
  ℕ, suc, ◌+◌, ◌^◌, ◌≤◌, ◌<◌, ◌≡◌, refl, sym, ap, ◌∙◌, ◌≢◌, inl, inr, Bool, true, false, none, some,
  List, [], ◌∷◌, arith, leb, Option-cases, some_inj, length, get_elem?, get_or, anyb, All,
  get_elem?-lt, get_elem?-some, nat_key, string_key, lookup,
}
use gvector.Types.{VectorId}
use gvector.Storage.Codec.{Codec}
use gvector.Hnsw.{HnswIndex, Randomness, neighbors_at}
use gvector.Hnsw.Layer.Found.{HasLevel, HasLevel-lt}
use gvector.Hnsw.Neighbors.Links.{All-weaken}
use gvector.Hnsw.Persist.{
  Meta, done, check_links, check_entry, count_deleted, rebuild, loaded, meta_of,
}
use gvector.Hnsw.Persist.Rebuild.{Maps, Maps-nil, map_live-Maps, map_live-total}
use gvector.Hnsw.Persist.Checks.{IsBounded}
use gvector.Hnsw.Persist.Loads.{loaded-IsTracked}
use gvector.Hnsw.Update.Valid.{IsValid}

anyb-All : {A : Type 0} (p : A → Bool) (xs : List A) → All (λ x. p x ≡ false) xs → anyb p xs ≡ false
anyb-All p [] h = refl
anyb-All p (x ∷ xs) (h, hs) = rw h (anyb-All p xs hs)

-- The lists of a node, by their places.
All-levels :
    (P : List ℕ → Type 0) (node : List (List ℕ)) → ((l : ℕ) → P (get_or node l [])) → All P node
All-levels P [] h = tt
All-levels P (list ∷ node) h = (h 0, All-levels P node (λ l. h (suc l)))

bounded-anyb : (n : ℕ) (xs : List ℕ) → All (λ s. s < n) xs → anyb (λ s. leb n s) xs ≡ false
bounded-anyb n xs h =
    anyb-All (λ s. leb n s) xs
      (All-weaken (λ s. s < n) (λ s. leb n s ≡ false) xs (λ s l. ground arith) h)

IsBounded-check_links :
    (n : ℕ) (links : List (List (List ℕ))) → IsBounded n links → check_links n links ≡ done tt
unfolding check_links
IsBounded-check_links n [] b = refl
IsBounded-check_links n ([] ∷ links) (tall, b) = absurd (omega (arith, tall 0 (omega arith)))
IsBounded-check_links n ((level ∷ levels) ∷ links) (tall, b) =
    rw
      (anyb-All (λ list. anyb (λ s. leb n s) list) (level ∷ levels)
        (All-levels (λ list. anyb (λ s. leb n s) list ≡ false) (level ∷ levels)
          (λ l. bounded-anyb n (get_or (level ∷ levels) l []) (b 0 l))))
      (IsBounded-check_links n links ((λ s l. tall (suc s) (omega arith)), λ s l. b (suc s) l))

all_true : (ds : List Bool) → ((s : ℕ) → get_elem? ds s ≢ some false) → count_deleted ds ≡ length ds
unfolding count_deleted
all_true [] h = refl
all_true (true ∷ ds) h = ap suc (all_true ds (λ s. h (suc s)))
all_true (false ∷ ds) h = absurd (h 0 refl)

from_zero : (i : ℕ) → i ≡ 0 + i
from_zero i = omega arith

zero_length : (n : ℕ) → 0 + n ≡ n
zero_length n = omega arith

module _ {R : Type 0} (c : Codec Meta) (random : Randomness R) (idx : HnswIndex R)
    (valid : IsValid idx) where
  abbrev n : ℕ
  n = length idx.ids

  bounded : IsBounded n idx.links
  bounded = (
    valid.tall,
    λ s l.
        All-weaken (HasLevel idx.links l) (λ nb. nb < n) (neighbors_at idx.links s l)
          (λ nb h. omega (arith, HasLevel-lt idx.links l nb h, valid.nodes)) (valid.closed s l),
  )

  nothing_alive : idx.entry ≡ none → (s : ℕ) → get_elem? idx.deleted s ≢ some false
  nothing_alive e s alive =
      let inside = get_elem?-lt idx.deleted s false alive in
      let (id, at) = get_elem?-some idx.ids s (omega (arith, valid.tracked.flags)) in
      cc (valid.tracked.mapped id s at alive, valid.started e id)

  entry_fits : check_entry n (count_deleted idx.deleted) idx.entry ≡ done tt
  unfolding check_entry
  entry_fits = elim (Option-cases idx.entry) [
    | inl none_left ↦
        let all = all_true idx.deleted (nothing_alive none_left) in
        ground (arith, all, valid.tracked.flags)
    | inr (e, q) ↦
        let inside : e < n =
          omega (arith, HasLevel-lt idx.links 0 e (valid.entered e q).0, valid.nodes) in
        ground arith
  ]

  one_slot :
      (id s t : ℕ)
      → get_elem? idx.ids s ≡ some id
      → get_elem? idx.deleted s ≡ some false
      → get_elem? idx.ids t ≡ some id
      → get_elem? idx.deleted t ≡ some false
      → s ≡ t
  one_slot id s t at a at' a' =
      some_inj (sym (valid.tracked.mapped id s at a) ∙ valid.tracked.mapped id t at' a')

  -- The id map that is made of the slots answers as the old one.
  same_lookup :
      (m : List (VectorId × ℕ))
      → Maps idx.ids idx.deleted valid.tracked.flags n m
      → (id : VectorId) → lookup id m ≡ lookup id idx.slot_of
  same_lookup m maps id = elim (Option-cases (lookup id m)) [
    | inl new ↦ elim (Option-cases (lookup id idx.slot_of)) [
      | inl old ↦ new ∙ sym old
      | inr (s, old) ↦
          let (at, alive) = valid.tracked.placed id s old in
          absurd (cc (maps.there id s (get_elem?-lt idx.ids s id at) at alive))
    ]
    | inr (s, new) ↦
        let (at, alive) = maps.here id s new in new ∙ sym (valid.tracked.mapped id s at alive)
  ]

  -- The metadata of a valid index is accepted, and the index that it makes answers as before.
  pub rebuild-meta_of :
      0 < idx.dim
      → idx.dim ≤ 2 ^ 20
      → (m : List (VectorId × ℕ)) × (rebuild c random (meta_of c random idx) idx.storage
          ≡ done (loaded c random (meta_of c random idx) idx.storage m))
        × ((id : VectorId) → lookup id m ≡ lookup id idx.slot_of)
        × IsValid (loaded c random (meta_of c random idx) idx.storage m)
  unfolding rebuild
  rebuild-meta_of pos small =
      let t = valid.tracked in
      let tail : (0 + n ≡ n) × ((i : ℕ) → get_elem? idx.ids i ≡ get_elem? idx.ids (0 + i)) =
        (zero_length n, λ i. ap (get_elem? idx.ids) (from_zero i)) in
      let start = Maps-nil idx.ids idx.deleted t.flags in
      let (m, made) = map_live-total idx.ids idx.deleted t.flags one_slot idx.ids 0 [] tail start in
      let maps = map_live-Maps idx.ids idx.deleted t.flags idx.ids 0 [] m tail start made in
      let links = IsBounded-check_links n idx.links bounded in
      (
        m,
        ground (arith, links, entry_fits, made, valid.nodes, t.flags),
        same_lookup m maps,
        record {
          tracked = loaded-IsTracked (meta_of c random idx) idx.storage m t.block refl t.flags maps;
          nodes = valid.nodes;
          tall = valid.tall;
          closed = valid.closed;
          entered = valid.entered;
          started = λ e id. same_lookup m maps id ∙ valid.started e id;
        },
      )

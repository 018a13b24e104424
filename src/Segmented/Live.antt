-- ===== src/Segmented/Live.antt =====
-- Where an id stands in the sources, oldest first: which hold it, and which hold it alive.
use gvector.Prelude.{
  ℕ, ◌+◌, ◌≤◌, ◌≡◌, refl, ap, Bool, true, false, not, ◌&&◌, ◌||◌, List, [], ◌∷◌, ◌++◌, map, arith,
  ltb, if◌then◌else◌, anyb, nat_key, string_key,
}
use Prim.{tt}
use gvector.Types.{VectorId}
use gvector.BruteForce.{BruteForceIndex, contains}
use gvector.Segmented.{Graph, Part, SegmentedIndex, is_live}

-- What one source shows of an id: that it holds it, and that it holds it alive.
pub record Mark : Type 0 where
  pub holds : Bool
  pub alive : Bool

abbrev pub holding_any : List Mark → Bool
holding_any ms = anyb (λ m. m.holds) ms

abbrev pub alive_any : List Mark → Bool
alive_any ms = anyb (λ m. m.alive) ms

unfoldable pub alive_count : List Mark → ℕ
alive_count [] = 0
alive_count (m ∷ ms) = (if m.alive then 1 else 0) + alive_count ms

-- A living copy is the newest one: no later source holds the id.
abbrev pub IsUnshadowed : List Mark → Type 0
IsUnshadowed [] = Unit
IsUnshadowed (m ∷ ms) = (m.alive && holding_any ms ≡ false) × IsUnshadowed ms

-- What is alive is held.
abbrev pub IsHeld : List Mark → Type 0
IsHeld [] = Unit
IsHeld (m ∷ ms) = (m.alive && not m.holds ≡ false) × IsHeld ms

abbrev pub mark : {D : Type 0} → (D → VectorId → Bool) → VectorId → Part D → Mark
mark has id part = record { holds = has part.data_of id; alive = is_live has id part }

abbrev pub buffer_mark : BruteForceIndex → VectorId → Mark
buffer_mark buffer id = record { holds = contains buffer id; alive = contains buffer id }

module _ {G : Type 0} (graph : Graph G) where
  abbrev pub marks : SegmentedIndex G → VectorId → List Mark
  marks idx id =
      map (mark graph.has_node id) idx.segments
      ++ (map (mark contains id) idx.sealing ++ (buffer_mark idx.buffer id ∷ []))

  -- How many living copies of an id there are.
  unfoldable pub copies : SegmentedIndex G → VectorId → ℕ
  unfolding alive_count
  copies idx id = alive_count (marks idx id)

anyb-append :
    {A : Type 0} (p : A → Bool) (xs ys : List A) → anyb p (xs ++ ys) ≡ (anyb p xs || anyb p ys)
anyb-append p [] ys = refl
anyb-append p (x ∷ xs) ys = ground (arith, anyb-append p xs ys)

anyb-map :
    {A B : Type 0} (p : B → Bool) (f : A → B) (xs : List A)
    → anyb p (map f xs) ≡ anyb (λ x. p (f x)) xs
anyb-map p f [] = refl
anyb-map p f (x ∷ xs) = ground (arith, anyb-map p f xs)

pub map-snoc :
    {A B : Type 0} (f : A → B) (xs : List A) (x : A) (ys : List B)
    → map f (xs ++ (x ∷ [])) ++ ys ≡ map f xs ++ (f x ∷ ys)
map-snoc f [] x ys = refl
map-snoc f (z ∷ zs) x ys = ap (◌∷◌ (f z)) (map-snoc f zs x ys)

pub alive_any-append : (xs ys : List Mark) → alive_any (xs ++ ys) ≡ (alive_any xs || alive_any ys)
alive_any-append xs ys = anyb-append (λ m. m.alive) xs ys

pub holding_any-append :
    (xs ys : List Mark) → holding_any (xs ++ ys) ≡ (holding_any xs || holding_any ys)
holding_any-append xs ys = anyb-append (λ m. m.holds) xs ys

pub alive_count-append :
    (xs ys : List Mark) → alive_count (xs ++ ys) ≡ alive_count xs + alive_count ys
unfolding alive_count
alive_count-append [] ys = omega arith
alive_count-append (x ∷ xs) ys = omega (arith, alive_count-append xs ys)

pub alive_any-count : (ms : List Mark) → alive_any ms ≡ ltb 0 (alive_count ms)
unfolding alive_count
alive_any-count [] = ground arith
alive_any-count (m ∷ ms) = ground (arith, alive_any-count ms)

pub alive_none : (ms : List Mark) → IsHeld ms → holding_any ms ≡ false → alive_count ms ≡ 0
unfolding alive_count
alive_none [] h e = refl
alive_none (m ∷ ms) (h, hs) e = ground (arith, alive_none ms hs)

-- An unshadowed id lives once at most.
pub unshadowed_once : (ms : List Mark) → IsHeld ms → IsUnshadowed ms → alive_count ms ≤ 1
unfolding alive_count
unshadowed_once [] h u = omega arith
unshadowed_once (m ∷ ms) (h, hs) (u, us) =
    ground (arith, unshadowed_once ms hs us, alive_none ms hs)

pub alive_any-map :
    {D : Type 0} (has : D → VectorId → Bool) (id : VectorId) (parts : List (Part D))
    → alive_any (map (mark has id) parts) ≡ anyb (is_live has id) parts
alive_any-map has id parts = anyb-map (λ m. m.alive) (mark has id) parts

-- A living copy is a copy.
pub mark-IsHeld :
    {D : Type 0} (has : D → VectorId → Bool) (id : VectorId) (parts : List (Part D))
    → IsHeld (map (mark has id) parts)
mark-IsHeld has id [] = tt
mark-IsHeld has id (p ∷ parts) = (ground arith, mark-IsHeld has id parts)

pub IsUnshadowed-append :
    (xs ys : List Mark) → IsUnshadowed (xs ++ ys) → IsUnshadowed xs × IsUnshadowed ys
IsUnshadowed-append [] ys u = (tt, u)
IsUnshadowed-append (x ∷ xs) ys (u, us) =
    let (l, r) = IsUnshadowed-append xs ys us in
    ((ground (arith, u, holding_any-append xs ys), l), r)

-- A later holder leaves no copy alive before it.
pub unshadowed_left :
    (xs ys : List Mark) → IsUnshadowed (xs ++ ys) → holding_any ys ≡ true → alive_count xs ≡ 0
unfolding alive_count
unshadowed_left [] ys u h = refl
unshadowed_left (x ∷ xs) ys (u, us) h =
    ground (arith, unshadowed_left xs ys us h, holding_any-append xs ys)

pub append-IsUnshadowed :
    (xs ys : List Mark)
    → IsUnshadowed xs
    → IsUnshadowed ys
    → (alive_any xs && holding_any ys) ≡ false
    → IsUnshadowed (xs ++ ys)
append-IsUnshadowed [] ys u v e = v
append-IsUnshadowed (x ∷ xs) ys (u, us) v e =
    (ground (arith, holding_any-append xs ys), append-IsUnshadowed xs ys us v (ground (arith, e)))

IsHeld-append : (xs ys : List Mark) → IsHeld xs → IsHeld ys → IsHeld (xs ++ ys)
IsHeld-append [] ys u v = v
IsHeld-append (x ∷ xs) ys (u, us) v = (u, IsHeld-append xs ys us v)

module _ {G : Type 0} (graph : Graph G) where
  -- An unshadowed id has one living copy at most.
  pub unshadowed-copies :
      (idx : SegmentedIndex G) (id : VectorId)
      → IsUnshadowed (marks graph idx id)
      → copies graph idx id ≤ 1
  unfolding copies
  unshadowed-copies idx id u =
      let last = buffer_mark idx.buffer id ∷ [] in
      unshadowed_once (marks graph idx id)
        (IsHeld-append (map (mark graph.has_node id) idx.segments)
          (map (mark contains id) idx.sealing ++ last) (mark-IsHeld graph.has_node id idx.segments)
          (IsHeld-append (map (mark contains id) idx.sealing) last
            (mark-IsHeld contains id idx.sealing) (ground arith, tt)))
        u

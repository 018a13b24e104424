-- ===== src/Order/TopK.antt =====
-- The bounded heap that every exact scan keeps: `k` members at most, the worst on top.
use gvector.Prelude.{
  ℕ, zero, suc, ◌≤◌, ◌<◌, min, ◌≡◌, refl, sym, ap, ◌∙◌, inl, inr, true, false, none, some, List, [],
  ◌∷◌, ◌++◌, append-nil, append_assoc, arith, ltb, if◌then◌else◌, ltb→lt, ltb-false→le, Bool-cases,
  length, take, length-append, length-take, take-all, nat_key, string_key,
}
use gvector.Prelude.Slices.{take-take}
use gvector.Order.Sort.{
  Ord, insert_sorted, sort, AtMost, IsSorted, sort-IsSorted, sort-perm, sort-eq_self,
  length-insert_sorted, length-sort, lt-false_trans,
}
use gvector.Order.Heap.{peek, pop, push, peek-some, pop-peek}
use mathlib.Core.List.{Permᴰ, reverse, reverse-append}
use mathlib.Core.List.Permᴰ as Perm

module _ {ℓ} {A : Type ℓ} ⦃o : Ord A⦄ where
  -- `if heap.len() < k { push } else if let Some(worst) = heap.peek() { if cand < *worst { .. } }`
  unfoldable pub offer : ℕ → A → List A → List A
  offer k cand heap = if ltb (length heap) k then push cand heap else elim (peek heap) [
    | none ↦ heap
    | some worst ↦ if o.lt cand worst then push cand (pop heap) else heap
  ]

  unfoldable pub offer_all : ℕ → List A → List A → List A
  offer_all k [] heap = heap
  offer_all k (c ∷ cs) heap = offer_all k cs (offer k c heap)

  -- `while let Some(r) = heap.pop() { out.push(r) }`; the fuel is the length of the heap.
  drain_loop : ℕ → List A → List A → List A
  drain_loop zero heap out = out
  drain_loop (suc f) heap out = elim (peek heap) [
    | none ↦ out
    | some r ↦ drain_loop f (pop heap) (out ++ (r ∷ []))
  ]

  unfoldable pub drain : List A → List A
  unfolding drain_loop
  drain heap = drain_loop (length heap) heap []

  -- The specification: the `k` least members, in order.
  unfoldable pub top : ℕ → List A → List A
  top k xs = take k (sort xs)

  -- Below the bound nothing is dropped.
  take-insert_sorted_short :
      (k : ℕ) (c : A) (s : List A)
      → length s < k
      → take k (insert_sorted c s) ≡ insert_sorted c (take k s)
  take-insert_sorted_short k c s h =
      take-all k (insert_sorted c s) (omega (arith, length-insert_sorted c s))
      ∙ ap (insert_sorted c) (sym (take-all k s (omega arith)))

  pop-take : (k : ℕ) (s : List A) → k < length s → pop (take (suc k) s) ≡ take k s
  unfolding pop
  pop-take zero [] h = refl
  pop-take zero (x ∷ s) h = refl
  pop-take (suc k) [] h = absurd (omega arith)
  pop-take (suc k) (x ∷ []) h = absurd (omega arith)
  pop-take (suc k) (x ∷ y ∷ s) h = ap (◌∷◌ x) (pop-take k (y ∷ s) (omega arith))

  -- A candidate before the worst one replaces it.
  take-insert_sorted_better :
      (k : ℕ) (c w : A) (s : List A)
      → k ≤ length s
      → peek (take k s) ≡ some w
      → o.lt c w ≡ true
      → take k (insert_sorted c s) ≡ insert_sorted c (pop (take k s))
  unfolding peek pop insert_sorted
  take-insert_sorted_better zero c w s h p b = cc
  take-insert_sorted_better (suc k) c w [] h p b = absurd (omega arith)
  take-insert_sorted_better (suc zero) c w (x ∷ xs) h p b = ground arith
  take-insert_sorted_better (suc (suc k)) c w (x ∷ []) h p b = absurd (omega arith)
  take-insert_sorted_better (suc (suc k)) c w (x ∷ y ∷ ys) h p b =
      let ih = take-insert_sorted_better (suc k) c w (y ∷ ys) (omega arith) p b in
      elim (Bool-cases (o.lt c x)) [
        | inl e ↦ rw e (ap (λ l. c ∷ x ∷ l) (sym (pop-take k (y ∷ ys) (omega arith))))
        | inr e ↦ rw e (ap (◌∷◌ x) ih)
      ]

  AtMost-peek : (x w : A) (xs : List A) → AtMost x xs → peek xs ≡ some w → o.lt w x ≡ false
  unfolding peek
  AtMost-peek x w [] h p = cc
  AtMost-peek x w (y ∷ []) h p = ground arith
  AtMost-peek x w (y ∷ z ∷ zs) h p = AtMost-peek x w (z ∷ zs) h.1 p

  AtMost-take : (x : A) (k : ℕ) (xs : List A) → AtMost x xs → AtMost x (take k xs)
  AtMost-take x zero xs h = tt
  AtMost-take x (suc k) [] h = tt
  AtMost-take x (suc k) (y ∷ ys) h = (h.0, AtMost-take x k ys h.1)

  -- Any other candidate changes nothing.
  take-insert_sorted_worse :
      (k : ℕ) (c w : A) (s : List A)
      → IsSorted s
      → peek (take k s) ≡ some w
      → o.lt c w ≡ false
      → k ≤ length s
      → take k (insert_sorted c s) ≡ take k s
  unfolding peek insert_sorted
  take-insert_sorted_worse zero c w s h p b l = refl
  take-insert_sorted_worse (suc k) c w [] h p b l = cc
  take-insert_sorted_worse (suc zero) c w (x ∷ xs) h p b l = ground arith
  take-insert_sorted_worse (suc (suc k)) c w (x ∷ []) h p b l = absurd (omega arith)
  take-insert_sorted_worse (suc (suc k)) c w (x ∷ y ∷ ys) h p b l =
      let ih = take-insert_sorted_worse (suc k) c w (y ∷ ys) h.1 p b (omega arith) in
      let wx = AtMost-peek x w (take (suc k) (y ∷ ys)) (AtMost-take x (suc k) (y ∷ ys) h.0) p in
      let cx = lt-false_trans x w c wx b in rw cx (ap (◌∷◌ x) ih)

  -- One offer keeps the heap equal to the first `k` of what was offered, in order.
  offer_full :
      (k : ℕ) (c : A) (s : List A)
      → IsSorted s
      → k ≤ length s
      → (w : A) × (peek (take k s) ≡ some w)
      → ltb (length (take k s)) k ≡ false
      → offer k c (take k s) ≡ take k (insert_sorted c s)
  unfolding offer push
  offer_full k c s h l (w, e) full = elim (Bool-cases (o.lt c w)) [
    | inl b ↦ rw (full, e, b) (sym (take-insert_sorted_better k c w s l e b))
    | inr b ↦ rw (full, e, b) (sym (take-insert_sorted_worse k c w s h e b l))
  ]

  offer-take :
      (k : ℕ) (c : A) (s : List A) → IsSorted s → offer k c (take k s) ≡ take k (insert_sorted c s)
  unfolding offer push peek
  offer-take zero c s h = refl
  offer-take (suc k) c [] h = ground (arith, take-insert_sorted_short (suc k) c [])
  offer-take (suc k) c (x ∷ s) h = elim (Bool-cases (ltb (length (take (suc k) (x ∷ s))) (suc k))) [
    | inl room ↦ rw room (
        sym (
          take-insert_sorted_short (suc k) c (x ∷ s)
            (omega (arith, ltb→lt _ _ room, length-take (suc k) (x ∷ s)))))
    | inr full ↦
        offer_full (suc k) c (x ∷ s) h
          (omega (arith, ltb-false→le _ _ full, length-take (suc k) (x ∷ s)))
          (peek-some x (take k s)) full
  ]

  pub offer_all-top : (k : ℕ) (cs seen : List A) → offer_all k cs (top k seen) ≡ top k (cs ++ seen)
  unfolding offer_all top sort
  offer_all-top k [] seen = refl
  offer_all-top k (c ∷ cs) seen =
      ap (offer_all k cs) (offer-take k c (sort seen) (sort-IsSorted seen))
      ∙ offer_all-top k cs (c ∷ seen)
      ∙ ap (take k) (sort-perm (Perm.middle c cs seen))

  pub top-nil : (k : ℕ) → top k [] ≡ []
  unfolding top sort
  top-nil zero = refl
  top-nil (suc k) = refl

  -- A scan that starts from the empty heap leaves the `k` least of what it offered.
  pub offer_all-nil : (k : ℕ) (cs : List A) → offer_all k cs [] ≡ top k cs
  offer_all-nil k cs =
      ap (offer_all k cs) (sym (top-nil k)) ∙ offer_all-top k cs [] ∙ ap (top k) (append-nil cs)

  pub top-perm : (k : ℕ) {xs ys : List A} → Permᴰ xs ys → top k xs ≡ top k ys
  unfolding top
  top-perm k p = ap (take k) (sort-perm p)

  take-IsSorted : (k : ℕ) (xs : List A) → IsSorted xs → IsSorted (take k xs)
  take-IsSorted zero xs s = tt
  take-IsSorted (suc k) [] s = tt
  take-IsSorted (suc k) (x ∷ xs) s = (AtMost-take x k xs s.0, take-IsSorted k xs s.1)

  pub top-IsSorted : (k : ℕ) (xs : List A) → IsSorted (top k xs)
  unfolding top
  top-IsSorted k xs = take-IsSorted k (sort xs) (sort-IsSorted xs)

  pub length-top : (k : ℕ) (xs : List A) → length (top k xs) ≡ min k (length xs)
  unfolding top
  length-top k xs = omega (arith, length-take k (sort xs), length-sort xs)

  drain_step :
      (f : ℕ) (heap out : List A) (w : A)
      → peek heap ≡ some w
      → drain_loop f (pop heap) (out ++ (w ∷ [])) ≡ (out ++ (w ∷ [])) ++ reverse (pop heap)
      → drain_loop (suc f) heap out ≡ out ++ reverse heap
  unfolding drain_loop
  drain_step f heap out w e h =
      rw (e, drain_loop, h)
        (append_assoc out (w ∷ []) (reverse (pop heap))
          ∙ ap (◌++◌ out)
              (sym (ap reverse (pop-peek heap w e) ∙ reverse-append (pop heap) (w ∷ []))))

  drain_loop-append :
      (f : ℕ) (heap out : List A) → length heap ≡ f → drain_loop f heap out ≡ out ++ reverse heap
  unfolding drain_loop peek
  drain_loop-append zero [] out h = sym (append-nil out)
  drain_loop-append zero (x ∷ heap) out h = absurd (omega arith)
  drain_loop-append (suc f) [] out h = absurd (omega arith)
  drain_loop-append (suc f) (x ∷ heap) out h =
      let (w, e) = peek-some x heap in
      let split = pop-peek (x ∷ heap) w e in
      drain_step f (x ∷ heap) out w e (
        drain_loop-append f (pop (x ∷ heap)) (out ++ (w ∷ []))
          (omega (arith, ap length split, length-append (pop (x ∷ heap)) (w ∷ []))))

  pub drain-eq_reverse : (heap : List A) → drain heap ≡ reverse heap
  unfolding drain
  drain-eq_reverse heap = drain_loop-append (length heap) heap [] refl

  pub top-top : (k : ℕ) (xs : List A) → top k (top k xs) ≡ top k xs
  unfolding top
  top-top k xs =
      ap (take k) (sort-eq_self (take k (sort xs)) (take-IsSorted k (sort xs) (sort-IsSorted xs)))
      ∙ take-take k k (sort xs) (omega arith)

  -- Only the `k` least of a part matter.
  pub top-append_top : (k : ℕ) (xs ys : List A) → top k (ys ++ top k xs) ≡ top k (ys ++ xs)
  top-append_top k xs ys =
      sym (offer_all-top k ys (top k xs))
      ∙ ap (offer_all k ys) (top-top k xs)
      ∙ offer_all-top k ys xs

  pub top-append_congr :
      (k : ℕ) (ys a b : List A) → top k a ≡ top k b → top k (ys ++ a) ≡ top k (ys ++ b)
  top-append_congr k ys a b e =
      sym (offer_all-top k ys a) ∙ ap (offer_all k ys) e ∙ offer_all-top k ys b

  pub top-append_comm : (k : ℕ) (xs ys : List A) → top k (xs ++ ys) ≡ top k (ys ++ xs)
  top-append_comm k xs ys = top-perm k (Perm.append_comm xs ys)

-- ===== src/Tests/Coders.antt =====
-- Words for values, that read back: an encoder for the metadata of a graph index.
use gvector.Prelude.{
  ℕ, zero, suc, ◌+◌, ◌%◌, ◌^◌, ◌<◌, ◌≡◌, refl, sym, ap, ◌∙◌, subst, Bool, true, false, Option, none,
  some, List, [], ◌∷◌, ◌++◌, append-nil, append_assoc, arith, some_inj, length, nat_key, string_key,
}
use gvector.Types.{VectorId}
use gvector.Distance.{Metric, l2, dot, cosine}
use gvector.Storage.Codec.{Codec, IsFaithful}
use gvector.Hnsw.{HnswParams}
use gvector.Hnsw.Persist.{Meta}

pub record Coder (A : Type 0) : Type 0 where
  pub write : A → List ℕ
  pub read : List ℕ → Option (A × List ℕ)
  pub back : (a : A) (rest : List ℕ) → read (write a ++ rest) ≡ some (a, rest)

abbrev read_word : List ℕ → Option (ℕ × List ℕ)
read_word [] = none
read_word (x ∷ xs) = some (x, xs)

abbrev word : Coder ℕ
word = record { write = λ x. x ∷ []; read = read_word; back = λ a rest. refl }

abbrev pub then_read :
    {A B : Type 0}
    → (List ℕ → Option (B × List ℕ))
    → Option (A × List ℕ)
    → Option ((A × B) × List ℕ)
then_read f none = none
then_read f (some (a, rest)) = elim (f rest) [ none ↦ none | some (b, r) ↦ some ((a, b), r) ]

pair_up :
    {A B : Type 0} (d : Coder B) (a : A) (b : B) (rest : List ℕ)
    → then_read d.read (some (a, d.write b ++ rest)) ≡ some ((a, b), rest)
pair_up d a b rest = rw (d.back b rest, then_read) refl

pub then_read-append :
    {A B : Type 0} (c : Coder A) (d : Coder B) (a : A) (b : B) (rest : List ℕ)
    → then_read d.read (c.read ((c.write a ++ d.write b) ++ rest)) ≡ some ((a, b), rest)
then_read-append c d a b rest =
    ap (λ bytes. then_read d.read (c.read bytes)) (append_assoc (c.write a) (d.write b) rest)
    ∙ ap (then_read d.read) (c.back a (d.write b ++ rest))
    ∙ pair_up d a b rest

abbrev pub pair : {A B : Type 0} → Coder A → Coder B → Coder (A × B)
pair c d = record {
  write = λ p. c.write p.0 ++ d.write p.1;
  read = λ bytes. then_read d.read (c.read bytes);
  back = λ p rest. then_read-append c d p.0 p.1 rest;
}

abbrev pub map_read : {A B : Type 0} → (A → B) → Option (A × List ℕ) → Option (B × List ℕ)
map_read f none = none
map_read f (some (a, rest)) = some (f a, rest)

abbrev renamed :
    {A B : Type 0} → Coder A → (to : B → A) (of : A → B) → ((b : B) → of (to b) ≡ b) → Coder B
renamed c to of same = record {
  write = λ b. c.write (to b);
  read = λ bytes. map_read of (c.read bytes);
  back = λ b rest. rw (c.back (to b) rest) (ap (λ x. some (x, rest)) (same b));
}

unfoldable pub write_all : {A : Type 0} → Coder A → List A → List ℕ
write_all c [] = []
write_all c (x ∷ xs) = c.write x ++ write_all c xs

unfoldable pub read_n : {A : Type 0} → Coder A → ℕ → List ℕ → Option (List A × List ℕ)
read_n c zero bytes = some ([], bytes)
read_n c (suc n) bytes = map_read (λ p. p.0 ∷ p.1) (then_read (read_n c n) (c.read bytes))

pub read_n-write_all :
    {A : Type 0} (c : Coder A) (xs : List A) (rest : List ℕ)
    → read_n c (length xs) (write_all c xs ++ rest) ≡ some (xs, rest)
unfolding read_n write_all
read_n-write_all c [] rest = refl
read_n-write_all c (x ∷ xs) rest =
    rw
      (
        append_assoc (c.write x) (write_all c xs) rest,
        c.back x (write_all c xs ++ rest),
        read_n-write_all c xs rest,
      )
      refl

read_counted : {A : Type 0} → Coder A → List ℕ → Option (List A × List ℕ)
read_counted c [] = none
read_counted c (n ∷ bytes) = read_n c n bytes

unfoldable pub list : {A : Type 0} → Coder A → Coder (List A)
unfolding write_all read_n read_counted
list c = record {
  write = λ xs. length xs ∷ write_all c xs;
  read = read_counted c;
  back = λ xs rest. read_n-write_all c xs rest;
}

of_bool : Bool → ℕ
of_bool true = 1
of_bool false = 0

bool : ℕ → Bool
bool zero = false
bool (suc n) = true

unfoldable pub flag : Coder Bool
unfolding of_bool bool
flag = renamed word of_bool bool back
  where
    back : (b : Bool) → bool (of_bool b) ≡ b
    back true = refl
    back false = refl

of_option : Option ℕ → ℕ
of_option none = 0
of_option (some n) = suc n

option : ℕ → Option ℕ
option zero = none
option (suc n) = some n

unfoldable pub slot : Coder (Option ℕ)
unfolding of_option option
slot = renamed word of_option option back
  where
    back : (o : Option ℕ) → option (of_option o) ≡ o
    back none = refl
    back (some n) = refl

of_metric : Metric → ℕ
of_metric l2 = 0
of_metric dot = 1
of_metric cosine = 2

metric : ℕ → Metric
metric zero = l2
metric (suc zero) = dot
metric (suc (suc n)) = cosine

unfoldable pub metric_word : Coder Metric
unfolding of_metric metric
metric_word = renamed word of_metric metric back
  where
    back : (x : Metric) → metric (of_metric x) ≡ x
    back l2 = refl
    back dot = refl
    back cosine = refl

abbrev Numbers : Type 0
Numbers = ℕ × (ℕ × (ℕ × (ℕ × (ℕ × ℕ))))

abbrev Words : Type 0
Words =
    Numbers
    × (Metric × (ℕ × (ℕ × (List VectorId × (List (List (List ℕ)) × (Option ℕ × List Bool))))))

to_words : Meta → Words
to_words x = (
  (
    x.params.m,
    (
      x.params.m_max0,
      (
        x.params.ef_construction,
        (x.params.ef_search, (x.params.seed, x.params.tombstone_threshold)),
      ),
    ),
  ),
  (x.metric, (x.dim, (x.n, (x.ids, (x.links, (x.entry, x.deleted)))))),
)

of_numbers : Numbers → HnswParams
of_numbers (m, (m_max0, (ef_construction, (ef_search, (seed, threshold))))) = record {
  m = m;
  m_max0 = m_max0;
  ef_construction = ef_construction;
  ef_search = ef_search;
  seed = seed;
  tombstone_threshold = threshold;
}

of_words : Words → Meta
of_words (params, (metric, (dim, (n, (ids, (links, (entry, deleted))))))) = record {
  params = of_numbers params;
  metric = metric;
  dim = dim;
  n = n;
  ids = ids;
  links = links;
  entry = entry;
  deleted = deleted;
}

unfoldable pub meta : Coder Meta
unfolding to_words of_words of_numbers
meta =
    renamed
      (pair (pair word (pair word (pair word (pair word (pair word word))))) (
        pair metric_word (
          pair word (
            pair word
              (pair (list word) (pair (list (list (list word))) (pair slot (list flag))))))))
      to_words of_words (λ x. refl)

-- A codec from an encoder, with the sum of the bytes as its checksum.
deserialize_with : {A : Type 0} → Option (A × List ℕ) → Option A
deserialize_with none = none
deserialize_with (some (a, rest)) = some a

sum_bytes : List ℕ → ℕ
sum_bytes [] = 0
sum_bytes (b ∷ bs) = b + sum_bytes bs

unfoldable pub meta_codec : Codec Meta
unfolding deserialize_with sum_bytes
meta_codec = record {
  serialize = λ x. some (meta.write x);
  deserialize = λ bytes. deserialize_with (meta.read bytes);
  crc32 = λ bytes. sum_bytes bytes % 2 ^ 32;
}

pub meta_codec-IsFaithful : IsFaithful meta_codec
unfolding meta_codec deserialize_with meta
meta_codec-IsFaithful = record {
  reads_back = λ t b e.
      ap (λ bytes. deserialize_with (meta.read bytes))
        (sym (some_inj e) ∙ sym (append-nil (meta.write t)))
      ∙ ap deserialize_with (meta.back t []);
  not_empty = λ t b e. subst (λ bytes. 0 < length bytes) (some_inj e) (omega arith);
  crc32-lt = λ b. omega arith;
}

-- ===== src/Tests/Fields.antt =====
-- Metadata of two records, floats by their bit patterns, and a posting list.
use gvector.Prelude.{
  ℕ, ◌+◌, ◌*◌, ◌^◌, ◌≡◌, refl, ◌↔◌, true, false, not, ◌&&◌, ◌||◌, [], ◌∷◌, arith, leb, eqb,
  if◌then◌else◌, All, nat_key, string_key, lookup, insert,
}
use Prim.{tt}
use gvector.Prelude.Int.{pos}
use gvector.Types.{sign64}
use gvector.Meta.{Metadata, int, str}
use gvector.Meta.Number.{ordered_bits, f64_le}
use gvector.Meta.Store.{MetaStore, new, insert_meta, get_value}
use gvector.Meta.Store.Collects.{IsValid, new-IsValid}
use gvector.Meta.Store.Refines.{insert_meta-IsValid, get_value-insert_meta}
use gvector.Meta.Filter.{F64Ops, Filter, eq_pred, range, matches_id}
use gvector.Meta.Filter.Accepts.{Accepts, matches_id-Accepts}
use gvector.Segmented.{has_id}
use gvector.Segmented.Postings.{
  posting_insert, posting_remove, IsAscending, posting_insert-IsAscending,
  posting_remove-IsAscending,
}

abbrev blue : Metadata
blue = ("color", str "blue") ∷ (("year", int (pos 2020)) ∷ [])

abbrev old : Metadata
old = ("year", int (pos 1990)) ∷ []

stored_blue-IsValid : IsValid (insert_meta new 1 blue)
unfolding new
stored_blue-IsValid = insert_meta-IsValid new 1 blue new-IsValid (omega arith)

abbrev stored_blue : MetaStore
stored_blue = insert_meta new 1 blue

get_value-insert_meta_example :
    get_value (insert_meta stored_blue 2 old) 1 "color"
    ≡ (if eqb 2 1 then lookup "color" old else get_value stored_blue 1 "color")
unfolding new insert_meta lookup insert
get_value-insert_meta_example =
    get_value-insert_meta stored_blue 2 old stored_blue-IsValid (omega arith) 1 "color"

-- The conversions stood in for on small numbers.
abbrev toy_f64 : F64Ops
toy_f64 = record {
  as_f64 = λ i. elim i [ pos n ↦ n | _ ↦ 0 ];
  is_whole = λ f. true;
  as_i64 = λ f. pos f;
}

abbrev filter : Filter
filter = eq_pred "color" (str "blue") ∷ (range "year" 2000 2030 ∷ [])

matches_id-Accepts_example :
    (matches_id toy_f64 filter (insert_meta new 1 blue) 1 ≡ true)
    ↔ All (Accepts toy_f64 (λ key. lookup key blue)) filter
unfolding new
matches_id-Accepts_example = matches_id-Accepts toy_f64 new 1 blue filter new-IsValid (omega arith)

-- 1.5, and -2.0
abbrev one_and_a_half : ℕ
one_and_a_half = 1023 * 2 ^ 52 + 2 ^ 51

abbrev minus_two : ℕ
minus_two = 2 ^ 63 + 1024 * 2 ^ 52

-- The zeros are equal, and their keys are not in order.
zeros_equal : f64_le 0 sign64 ≡ true
unfolding f64_le
zeros_equal = refl

zeros_apart : leb (ordered_bits 0) (ordered_bits sign64) ≡ false
unfolding ordered_bits
zeros_apart = refl

posting_insert-IsAscending_example :
    IsAscending (posting_insert (2 ∷ (5 ∷ [])) 3)
    × ((k : ℕ) → has_id k (posting_insert (2 ∷ (5 ∷ [])) 3) ≡ (eqb k 3 || has_id k (2 ∷ (5 ∷ []))))
posting_insert-IsAscending_example =
    posting_insert-IsAscending (2 ∷ (5 ∷ [])) 3 ((omega arith, tt), (tt, tt))

posting_remove-IsAscending_example :
    IsAscending (posting_remove (2 ∷ (5 ∷ [])) 5)
    × ((k : ℕ)
        → has_id k (posting_remove (2 ∷ (5 ∷ [])) 5) ≡ (not (eqb k 5) && has_id k (2 ∷ (5 ∷ []))))
posting_remove-IsAscending_example =
    posting_remove-IsAscending (2 ∷ (5 ∷ [])) 5 ((omega arith, tt), (tt, tt))

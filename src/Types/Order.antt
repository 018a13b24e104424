-- ===== src/Types/Order.antt =====
-- The order on search results is a strict total order, so `sort` and the heaps have one outcome.
use gvector.Prelude.{◌≡◌, Bool, true, false, arith, nat_key, string_key}
use gvector.Order.Sort.{Ord}
use gvector.Types.{SearchResult, cmp, Cand, cmp_cand, is_lt}

unfoldable pub lt_result : SearchResult → SearchResult → Bool
unfolding cmp
lt_result a b = is_lt (cmp a b)

pub lt_result_irrefl : (a : SearchResult) → lt_result a a ≡ false
unfolding lt_result
lt_result_irrefl a = ground arith

pub lt_result_trans :
    (a b c : SearchResult) → lt_result a b ≡ true → lt_result b c ≡ true → lt_result a c ≡ true
unfolding lt_result
lt_result_trans a b c p q = ground arith

pub lt_result_connected :
    (a b : SearchResult) → lt_result a b ≡ false → lt_result b a ≡ false → a ≡ b
unfolding lt_result
lt_result_connected a b p q = ground arith

instance abbrev pub result_ord : Ord SearchResult
unfolding lt_result
result_ord = record {
  lt = lt_result;
  lt_irrefl = lt_result_irrefl;
  lt_trans = lt_result_trans;
  lt_connected = lt_result_connected;
}

unfoldable pub lt_cand : Cand → Cand → Bool
unfolding cmp_cand
lt_cand a b = is_lt (cmp_cand a b)

pub lt_cand_irrefl : (a : Cand) → lt_cand a a ≡ false
unfolding lt_cand
lt_cand_irrefl a = ground arith

pub lt_cand_trans : (a b c : Cand) → lt_cand a b ≡ true → lt_cand b c ≡ true → lt_cand a c ≡ true
unfolding lt_cand
lt_cand_trans a b c p q = ground arith

pub lt_cand_connected : (a b : Cand) → lt_cand a b ≡ false → lt_cand b a ≡ false → a ≡ b
unfolding lt_cand
lt_cand_connected a b p q = ground arith

instance abbrev pub cand_ord : Ord Cand
unfolding lt_cand
cand_ord = record {
  lt = lt_cand;
  lt_irrefl = lt_cand_irrefl;
  lt_trans = lt_cand_trans;
  lt_connected = lt_cand_connected;
}

-- ===== src/Tests/Files.antt =====
-- The file of a graph index.
use gvector.Prelude.{ℕ, ◌≡◌, refl, List, [], ◌∷◌, arith, nat_key, string_key, lookup, insert}
use gvector.Types.{VectorId}
use gvector.Bytes.{to_le_bytes, from_le_bytes}
use gvector.Hnsw.{HnswIndex}
use gvector.Hnsw.Persist.{
  done, to_bytes, load_from_bytes, loaded, meta_of, cast_slice, read_floats, parse, rebuild,
  eq_bytes, decoded, check_links, check_entry, map_live, count_deleted,
}
use gvector.Hnsw.Persist.Loads.{IsLoaded, load_from_bytes-IsLoaded}
use gvector.Hnsw.Persist.RoundTrip.{load-to_bytes}
use gvector.Hnsw.Update.Valid.{IsValid}
use gvector.Tests.Graphs.{two_nodes, two_nodes-IsValid, toy_random}
use gvector.Tests.Coders.{
  meta_codec, meta_codec-IsFaithful, meta, list, flag, slot, metric_word, read_n, write_all,
}

abbrev bytes : List ℕ
bytes =
    71 ∷ 86 ∷ 68 ∷ 66 ∷ 1 ∷ 0 ∷ 0 ∷ 0 ∷ 24 ∷ 0 ∷ 0 ∷ 0 ∷ 0 ∷ 0 ∷ 0 ∷ 0 ∷ 2 ∷ 4 ∷ 4 ∷ 4 ∷ 0 ∷ 6 ∷ 0
    ∷ 1 ∷ 2 ∷ 2 ∷ 7 ∷ 9 ∷ 2 ∷ 1 ∷ 1 ∷ 1 ∷ 2 ∷ 1 ∷ 0 ∷ 0 ∷ 2 ∷ 2 ∷ 0 ∷ 0 ∷ 3 ∷ 0 ∷ 0 ∷ 0 ∷ 5 ∷ 0 ∷ 0
    ∷ 0 ∷ 121 ∷ 1 ∷ 0 ∷ 0 ∷ []

writes : to_bytes meta_codec toy_random two_nodes ≡ done bytes
unfolding to_bytes meta_codec meta list flag slot metric_word to_le_bytes cast_slice write_all
writes = refl

abbrev again : HnswIndex ℕ
again =
    loaded meta_codec toy_random (meta_of meta_codec toy_random two_nodes) two_nodes.storage
      ((7, 0) ∷ (9, 1) ∷ [])

reads : load_from_bytes meta_codec toy_random bytes ≡ done again
unfolding load_from_bytes parse rebuild decoded read_floats check_links check_entry map_live
    count_deleted eq_bytes from_le_bytes meta_codec meta list flag slot metric_word to_le_bytes
    read_n write_all lookup insert
reads = refl

load_from_bytes-IsLoaded_example : IsLoaded again
load_from_bytes-IsLoaded_example = load_from_bytes-IsLoaded meta_codec toy_random bytes again reads

load-to_bytes_example :
    (m : List (VectorId × ℕ)) × (load_from_bytes meta_codec toy_random bytes
      ≡ done (
          loaded meta_codec toy_random
            (meta_of meta_codec toy_random two_nodes)
            two_nodes.storage
            m))
    × ((id : VectorId) → lookup id m ≡ lookup id two_nodes.slot_of)
    × IsValid
        (loaded meta_codec toy_random (meta_of meta_codec toy_random two_nodes) two_nodes.storage m)
load-to_bytes_example =
    load-to_bytes meta_codec toy_random meta_codec-IsFaithful two_nodes bytes two_nodes-IsValid
      (omega arith) (omega arith) (omega arith, (omega arith, tt)) writes (omega arith)

-- An edge on level 1 to a node that has level 0 only is accepted.
accepts_short_node : check_links 2 (((1 ∷ []) ∷ (1 ∷ []) ∷ []) ∷ ((0 ∷ []) ∷ []) ∷ []) ≡ done tt
unfolding check_links
accepts_short_node = refl

-- ===== src/Hnsw/Persist/Loads.antt =====
-- What is true of every index that is loaded, whatever bytes it is loaded from.
use gvector.Prelude.{
  ℕ, ◌*◌, ◌/◌, ◌<◌, ◌≡◌, sym, ap, ◌∙◌, subst, inl, inr, none, some, List, [], arith, Option-cases,
  length, get_elem?, take, drop, get_elem?-lt, nat_key, string_key, lookup,
}
use gvector.Types.{VectorId, F32}
use gvector.Storage.Codec.{Codec}
use gvector.Hnsw.{HnswIndex, Randomness}
use gvector.Bytes.{from_le_bytes}
use gvector.Hnsw.Persist.{
  loaded, Result-cases, Meta, done, check_links, check_entry, map_live, count_deleted, parse,
  rebuild, load_from_bytes, decoded,
}
use gvector.Hnsw.Persist.Rebuild.{Maps, Maps-nil, map_live-Maps, bind_ok}
use gvector.Hnsw.Update.Rows.{rows}
use gvector.Hnsw.Update.Tracked.{IsTracked}
use gvector.Hnsw.Persist.Checks.{
  IsBounded, check_links-IsBounded, check_entry_ok, count_deleted-eq, from_zero, length-read_floats,
  quarter, all_deleted,
}

-- What holds of an index that was loaded: the rows are in step, and every slot that an edge or the
-- entry point names is there.
pub record IsLoaded {R : Type 0} (idx : HnswIndex R) : Type 0 where
  pub tracked : IsTracked (rows idx)
  pub nodes : length idx.links ≡ length idx.ids
  pub bounded : IsBounded (length idx.ids) idx.links
  pub entered : (e : ℕ) → idx.entry ≡ some e → e < length idx.ids
  pub started : idx.entry ≡ none → (id : VectorId) → lookup id idx.slot_of ≡ none

pub loaded-IsTracked :
    (meta : Meta) (storage : List F32) (slot_of : List (VectorId × ℕ))
    → length storage ≡ meta.n * meta.dim
    → length meta.ids ≡ meta.n
    → (full : length meta.deleted ≡ length meta.ids)
    → Maps meta.ids meta.deleted full (length meta.ids) slot_of
    → IsTracked (record {
      params = meta.params;
      metric = meta.metric;
      dim = meta.dim;
      storage = storage;
      ids = meta.ids;
      slot_of = slot_of;
      deleted = meta.deleted;
      deleted_count = count_deleted meta.deleted;
    })
loaded-IsTracked meta storage slot_of size n_ids full m = record {
  block = size ∙ ap (λ n. n * meta.dim) (sym n_ids);
  flags = full;
  count = count_deleted-eq meta.deleted;
  placed = m.here;
  mapped = λ id s at alive. m.there id s (get_elem?-lt meta.ids s id at) at alive;
}

module _ {R : Type 0} (c : Codec Meta) (random : Randomness R) where
  -- What `rebuild` has checked.
  rebuild_ok :
      (meta : Meta) (storage : List F32) (idx : HnswIndex R)
      → rebuild c random meta storage ≡ done idx
      → (length meta.ids ≡ meta.n)
        × (length meta.links ≡ meta.n)
        × (length meta.deleted ≡ meta.n)
        × (check_links meta.n meta.links ≡ done tt)
        × (check_entry meta.n (count_deleted meta.deleted) meta.entry ≡ done tt)
        × ((slot_of : List (VectorId × ℕ)) × (map_live meta.deleted 0 meta.ids [] ≡ done slot_of)
            × (idx ≡ loaded c random meta storage slot_of))
  unfolding rebuild
  rebuild_ok meta storage idx e = elim (Result-cases (check_links meta.n meta.links)) [
    | inr (x, q) ↦ absurd (ground arith)
    | inl (u, links) ↦
        elim (Result-cases (check_entry meta.n (count_deleted meta.deleted) meta.entry)) [
          | inr (x, q) ↦ absurd (ground arith)
          | inl (v, entry) ↦ elim (Result-cases (map_live meta.deleted 0 meta.ids [])) [
            | inr (x, q) ↦ absurd (ground arith)
            | inl (m, maps) ↦
                (ground arith, ground arith, ground arith, links, entry, (m, maps, ground arith))
          ]
        ]
  ]

  rebuild-IsLoaded :
      (meta : Meta) (storage : List F32) (idx : HnswIndex R)
      → length storage ≡ meta.n * meta.dim
      → rebuild c random meta storage ≡ done idx
      → IsLoaded idx
  rebuild-IsLoaded meta storage idx size e =
      let (n_ids, n_links, n_deleted, links, entry, (slot_of, maps, out)) =
        rebuild_ok meta storage idx e in
      let full = n_deleted ∙ sym n_ids in
      let (at, none_left) = check_entry_ok meta.n (count_deleted meta.deleted) meta.entry entry in
      let m =
        map_live-Maps meta.ids meta.deleted full meta.ids 0 [] slot_of
          (omega arith, λ i. ap (get_elem? meta.ids) (from_zero i))
          (Maps-nil meta.ids meta.deleted full) maps in
      subst IsLoaded (sym out) (record {
        tracked = loaded-IsTracked meta storage slot_of size n_ids full m;
        nodes = n_links ∙ sym n_ids;
        bounded =
            subst (λ n. IsBounded n meta.links) (sym n_ids)
              (check_links-IsBounded meta.n meta.links links);
        entered = λ p q. subst (λ n. p < n) (sym n_ids) (at p q);
        started = λ q id. elim (Option-cases (lookup id slot_of)) [
          | inl new ↦ new
          | inr (s, old) ↦
              absurd (
                all_deleted meta.deleted s (none_left q ∙ sym n_ids ∙ sym full) (m.here id s old).1)
        ];
      })

  parse_size :
      (bytes : List ℕ) (found : Meta × ℕ × ℕ)
      → parse c random bytes ≡ done found
      → found.2 ≡ found.0.n * found.0.dim * 4
  unfolding parse decoded
  parse_size bytes found e =
      elim (Option-cases
        (c.deserialize (take (from_le_bytes (take 8 (drop 8 bytes))) (drop 16 bytes)))) [
          | inl n ↦ absurd (ground arith)
          | inr (meta, d) ↦ ground arith
        ]

  -- Whatever bytes are read, an index that is loaded has its rows in step, and its edges and its
  -- entry point name slots that are there.
  pub load_from_bytes-IsLoaded :
      (bytes : List ℕ) (idx : HnswIndex R)
      → load_from_bytes c random bytes ≡ done idx
      → IsLoaded idx
  unfolding load_from_bytes
  load_from_bytes-IsLoaded bytes idx e =
      let (found, p, r) = bind_ok (parse c random bytes) _ e in
      rebuild-IsLoaded found.0 _ idx
        (length-read_floats (found.2 / 4) _
          ∙ ap (λ n. n / 4) (parse_size bytes found p)
          ∙ quarter (found.0.n * found.0.dim))
        r

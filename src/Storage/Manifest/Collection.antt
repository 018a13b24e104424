-- ===== src/Storage/Manifest/Collection.antt =====
-- What the collection of unreferenced files removes, by the fields of the manifest.
use gvector.Prelude.{
  ℕ, ◌+◌, ◌≡◌, refl, sym, ap, ◌∙◌, inl, inr, Bool, true, false, not, ◌&&◌, ◌||◌, Option, none, some,
  List, [], ◌∷◌, ◌++◌, map, arith, Bool-cases, length, anyb, ◌==◌, nat_key, string_key,
}
use Prim.Native.String.{String}
use gvector.Storage.{done}
use gvector.Storage.Manifest.{
  Manifest, SegmentRef, manifest_name, referenced_files, optional, is_ours, deletes, gc_loop,
  gc_unreferenced,
}

abbrev pub is_file : String → Option String → Bool
is_file name none = false
is_file name (some file) = file == name

-- A file that the manifest needs: one of its segments, the metadata, the log, or the manifest.
abbrev pub needs : {P : Type 0} → Manifest P → String → Bool
needs m name =
    anyb (λ s. s.file == name) m.segments
    || (is_file name m.metadata_file || (is_file name m.wal_file || manifest_name == name))

abbrev pub lists : String → List (Option String) → Bool
lists name entries = anyb (is_file name) entries

anyb-append :
    (name : String) (xs ys : List String)
    → anyb (λ k. k == name) (xs ++ ys) ≡ (anyb (λ k. k == name) xs || anyb (λ k. k == name) ys)
anyb-append name [] ys = refl
anyb-append name (x ∷ xs) ys = ground (arith, anyb-append name xs ys)

anyb-files :
    (name : String) (segments : List SegmentRef)
    → anyb (λ k. k == name) (map (λ s. s.file) segments) ≡ anyb (λ s. s.file == name) segments
anyb-files name [] = refl
anyb-files name (s ∷ segments) = ground (arith, anyb-files name segments)

anyb-optional :
    (name : String) (file : Option String)
    → anyb (λ k. k == name) (optional file) ≡ is_file name file
anyb-optional name none = refl
anyb-optional name (some file) = ground arith

-- The list of files that the collection keeps is the list of those that the manifest needs.
referenced_files-needs :
    {P : Type 0} (m : Manifest P) (name : String)
    → anyb (λ k. k == name) (referenced_files m) ≡ needs m name
unfolding referenced_files
referenced_files-needs m name =
    let segments = map (λ s. s.file) m.segments in
    let own = manifest_name ∷ [] in
    ground (
      arith,
      anyb-append name segments (optional m.metadata_file ++ (optional m.wal_file ++ own)),
      anyb-append name (optional m.metadata_file) (optional m.wal_file ++ own),
      anyb-append name (optional m.wal_file) own,
      anyb-files name m.segments,
      anyb-optional name m.metadata_file,
      anyb-optional name m.wal_file,
    )

same_file :
    (keep : List String) (removes : String → Bool) (file name : String)
    → file == name ≡ true
    → deletes keep removes file ≡ deletes keep removes name
same_file keep removes file name e =
    ap (deletes keep removes) ((string_key.equal_iff file name).0 e)

loop-deletes :
    (keep : List String) (removes : String → Bool) (entries : List (Option String)) (n : ℕ)
    (name : String)
    → anyb (λ k. k == name) (gc_loop keep removes entries n).0 ≡ true
    → deletes keep removes name ≡ true
unfolding gc_loop
loop-deletes keep removes [] n name h = absurd (ground arith)
loop-deletes keep removes (none ∷ entries) n name h = absurd (ground arith)
loop-deletes keep removes (some file ∷ entries) n name h =
    elim (Bool-cases (deletes keep removes file)) [
      | inr kept ↦ loop-deletes keep removes entries n name (rw kept at h)
      | inl gone ↦ elim (Bool-cases (file == name)) [
        | inl same ↦ sym (same_file keep removes file name same) ∙ gone
        | inr other ↦
            let rest : anyb (λ k. k == name) (gc_loop keep removes entries (n + 1)).0 ≡ true =
              rw (gone, other) at h in
            loop-deletes keep removes entries (n + 1) name rest
      ]
    ]

-- A loop that comes to its end has removed what it may, and counted it.
loop-done :
    (keep : List String) (removes : String → Bool) (entries : List (Option String)) (n total : ℕ)
    → (gc_loop keep removes entries n).1 ≡ done total
    → (n + length (gc_loop keep removes entries n).0 ≡ total)
      × ((name : String)
          → anyb (λ k. k == name) (gc_loop keep removes entries n).0
            ≡ (lists name entries && deletes keep removes name))
unfolding gc_loop
loop-done keep removes [] n total e = (ground (arith, e), λ name. refl)
loop-done keep removes (none ∷ entries) n total e = absurd (cc e)
loop-done keep removes (some file ∷ entries) n total e =
    elim (Bool-cases (deletes keep removes file)) [
      | inr kept ↦
          let (count, which) = loop-done keep removes entries n total (rw kept at e) in
          rw kept (
            count,
            λ name. elim (Bool-cases (file == name)) [
              | inl same ↦
                  let one = same_file keep removes file name same in
                  ground (arith, which name, kept, one, same)
              | inr other ↦ rw other (which name)
            ],
          )
      | inl gone ↦
          let (count, which) = loop-done keep removes entries (n + 1) total (rw gone at e) in
          rw gone (
            omega (arith, count),
            λ name. elim (Bool-cases (file == name)) [
              | inl same ↦
                  let one = same_file keep removes file name same in ground (arith, gone, one, same)
              | inr other ↦ rw other (which name)
            ],
          )
    ]

-- Whatever the directory answers, the collection removes only files under the program's names that
-- the manifest does not need: none of its segments, not its metadata, not its log, not the manifest.
-- When it succeeds, it has removed exactly the listed files of that kind whose removal succeeds, and
-- the number that it reports is the number of files removed.
pub gc_unreferenced-keeps :
    {P : Type 0} (m : Manifest P) (removes : String → Bool)
    (listing : Option (List (Option String)))
    → ((name : String)
        → anyb (λ k. k == name) (gc_unreferenced m removes listing).0 ≡ true
        → (is_ours name ≡ true) × (needs m name ≡ false))
      × ((total : ℕ)
          → (gc_unreferenced m removes listing).1 ≡ done total
          → (entries : List (Option String)) × ((listing ≡ some entries)
              × (length (gc_unreferenced m removes listing).0 ≡ total)
              × ((name : String)
                  → anyb (λ k. k == name) (gc_unreferenced m removes listing).0 ≡ (
                      lists name entries && (is_ours name && not (needs m name) && removes name)))))
unfolding gc_unreferenced deletes
gc_unreferenced-keeps m removes none = ((λ name h. absurd (ground arith)), λ total e. absurd (cc e))
gc_unreferenced-keeps m removes (some entries) =
    let keep = referenced_files m in
    (
      λ name h.
          let gone = loop-deletes keep removes entries 0 name h in
          ground (arith, gone, referenced_files-needs m name),
      λ total e.
          let (count, which) = loop-done keep removes entries 0 total e in
          (
            entries,
            (
              refl,
              omega (arith, count),
              λ name. ground (arith, which name, referenced_files-needs m name),
            ),
          ),
    )

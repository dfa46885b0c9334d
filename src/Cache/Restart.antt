-- ===== src/Cache/Restart.antt =====
-- A header that `StoreHeader` wrote and `LoadHeader` reads, after a restart.
use modular_indexer_committe.Cache.Files.{
  GobLaws, DiskLaws, IsOlder, cached_height-file_name, latest_file-older, evict-read,
}
use modular_indexer_committe.Prelude.{
  ℕ, ◌^◌, ◌<◌, ◌≡◌, refl, sym, ap, ◌∙◌, Bool, true, false, none, some, List, [], ◌∷◌, ◌++◌, arith,
  All, length, length-append, ◌==◌, if◌then◌else◌,
}
use modular_indexer_committe.Prelude.Outcome.{Result, ok, err, done}
use modular_indexer_committe.Bytes.{Bytes}
use modular_indexer_committe.Bytes.Decimal.{format_uint}
use modular_indexer_committe.Bytes.Atoi.{ℤ, pos, less, int_of_uint}
use modular_indexer_committe.KeyMap.{KeyMap, lookup}
use modular_indexer_committe.Packages.{Verkle, VerkleLaws}
use modular_indexer_committe.Header.{Header}
use modular_indexer_committe.Header.Valid.{IsSized, IsValid}
use modular_indexer_committe.Header.Alike.{Alike, held}
use modular_indexer_committe.Header.Paging.{build_tree}
use modular_indexer_committe.Header.Tree.{build_tree-Agrees, commit-Agrees}
use modular_indexer_committe.Header.Commit.{IsValid-of-Agrees, Agrees-of-IsValid}
use modular_indexer_committe.Cache.{
  Gob, Disk, file_suffix, file_name, cached_height, header_of, insert_checked, rebuild, deserialize,
  load_header, evict, evict_names, after_write, store_buffer, store_header,
}

module _ {Node : Type 0} {t : Verkle Node} {IsFull : Node → Type 0} (laws : VerkleLaws t IsFull)
    (inserts : (n : Node) (k v : Bytes)
      → IsFull n
      → length k ≡ 32
      → length v ≡ 32
      → t.insert_fails n k v ≡ false) where
  -- No insert fails, so that the tree is the one that `Recovery` builds of a map.
  rebuild-build_tree : (m : KeyMap Bytes) → IsSized m → rebuild t m ≡ some (build_tree t m)
  unfolding rebuild build_tree
  rebuild-build_tree [] s = refl
  rebuild-build_tree ((k, v) ∷ m) s =
      ap (λ o. insert_checked t o k v) (rebuild-build_tree m s.1)
      ∙ ap (λ (b : Bool). if b then none else some (t.insert (build_tree t m) k v))
          (inserts (build_tree t m) k v (build_tree-Agrees laws m s.1).full s.0.0 s.0.1)

  module _ {gob : Gob} (coding : GobLaws gob) {D : Type 0} {disk : Disk D}
      (files : DiskLaws disk) where
    -- What a store that returns no error leaves in the file of the header.
    store_header-read :
        (h : Header Node) (limit : ℕ) (d d' : D)
        → h.height < 2 ^ 63
        → less (pos h.height) (int_of_uint limit) ≡ false
        → store_header t gob disk h limit d ≡ done (none, d')
        → (b : Bytes) × (gob.encode h.kv ≡ ok b) × (disk.read_file d' (file_name h.height) ≡ ok b)
    unfolding store_header
    store_header-read h limit d d' small kept e = encoded (gob.encode h.kv) refl e
      where
        own :
            (height : ℤ)
            → cached_height (file_name h.height) ≡ some height
            → less height (int_of_uint limit) ≡ false
        own height at =
            let same : pos h.height ≡ height = cc (at, cached_height-file_name h.height small) in
            rw (← same) kept

        listed :
            (b : Bytes) (d1 : D) (r : Result (List Bytes))
            → disk.read_file d1 (file_name h.height) ≡ ok b
            → done (evict_names t gob disk limit d1 r) ≡ done (none, d')
            → disk.read_file d' (file_name h.height) ≡ ok b
        listed b d1 (err x) r e' = absurd (cc)
        listed b d1 (ok names) r e' =
            let left : evict t gob disk (int_of_uint limit) names d1 ≡ d' = cc in
            ap (λ x. disk.read_file x (file_name h.height)) (sym left)
            ∙ evict-read files t gob (int_of_uint limit) (file_name h.height) names d1 own
            ∙ r

        wrote :
            (b : Bytes) (r : Result D)
            → disk.write_file d (file_name h.height) b ≡ r
            → done (after_write t gob disk limit d r) ≡ done (none, d')
            → disk.read_file d' (file_name h.height) ≡ ok b
        wrote b (err x) w e' = absurd (cc)
        wrote b (ok d1) w e' =
            listed b d1 (disk.read_dir d1) (files.read-write d d1 (file_name h.height) b w) e'

        encoded :
            (r : Result Bytes)
            → gob.encode h.kv ≡ r
            → store_buffer t gob disk h.height limit d r ≡ done (none, d')
            → (b : Bytes) × (gob.encode h.kv ≡ ok b)
              × (disk.read_file d' (file_name h.height) ≡ ok b)
        encoded (err x) at e' = absurd (cc)
        encoded (ok b) at e' = (b, at, wrote b (disk.write_file d (file_name h.height) b) refl e')

    named : (n : ℕ) → length (file_name n) == 0 ≡ false
    unfolding file_name
    named n = ground (arith, length-append (format_uint n) file_suffix)

    -- A valid header with nothing pending, over a lawful tree whose inserts do not fail, at a
    -- height from 1 to 2^63 - 1 that is not below the evicted ones, that StoreHeader stores without
    -- a panic or an error in a directory that lists its file once and else only files of lower
    -- heights or of no header, is what LoadHeader loads then: a valid header with the same values,
    -- height and commitment. The files and the encoding keep their documented laws.
    pub load_header-store_header :
        (h : Header Node) (init limit : ℕ) (d d' : D) (before after : List Bytes)
        → IsValid t IsFull h
        → h.intermediate_kv ≡ []
        → 0 < h.height
        → h.height < 2 ^ 63
        → less (pos h.height) (int_of_uint limit) ≡ false
        → store_header t gob disk h limit d ≡ done (none, d')
        → disk.read_dir d' ≡ ok (before ++ file_name h.height ∷ after)
        → All (IsOlder h.height) before
        → All (IsOlder h.height) after
        → (loaded : Header Node) × (load_header t gob disk true init d' ≡ some loaded)
          × Alike t IsFull loaded h
          × (t.commit loaded.root ≡ t.commit h.root)
    unfolding load_header deserialize less held lookup
    load_header-store_header h init limit d d' before after v idle positive small kept e dir older
          older' =
        let (b, encoded, stored) = store_header-read h limit d d' small kept e in
        let (m, decoded, sized, same) = coding.decode-encode h.kv b v.kv_sized encoded in
        let tree = build_tree-Agrees laws m sized in
        let loaded = header_of t (build_tree t m) m h.height in
        let valid = IsValid-of-Agrees laws loaded tree refl refl in
        let latest =
          latest_file-older h.height before (file_name h.height) after (pos 0, []) (ground arith)
            (cached_height-file_name h.height small) older older' in
        (
          loaded,
          rw (dir, latest, named h.height, stored, decoded, rebuild-build_tree m sized) refl,
          record { left = valid; right = v; same = λ k. rw idle (same k); same_height = refl },
          commit-Agrees laws tree (Agrees-of-IsValid laws v) same,
        )

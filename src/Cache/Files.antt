-- ===== src/Cache/Files.antt =====
-- The files of ord/stateless/storage.go: what the packages promise, which file is the latest one, and what
-- is left when old ones are removed.
use modular_indexer_committe.Prelude.{
  ℕ, ◌^◌, ◌<◌, ◌≡◌, ◌≢◌, refl, ap, ◌∙◌, true, false, Bool-cases, inl, inr, Option-cases, some, List,
  [], ◌∷◌, ◌++◌, arith, All,
}
use modular_indexer_committe.Prelude.Outcome.{ok}
use modular_indexer_committe.Bytes.{Bytes}
use modular_indexer_committe.Bytes.Decimal.{format_uint}
use modular_indexer_committe.Bytes.Atoi.{ℤ, pos, negsuc, less, trim_suffix-append, atoi-format_uint}
use modular_indexer_committe.KeyMap.{KeyMap}
use modular_indexer_committe.Packages.{Verkle}
use modular_indexer_committe.Header.Valid.{IsSized}
use modular_indexer_committe.Queue.Chain.{Same}
use modular_indexer_committe.Cache.{
  Gob, Disk, file_suffix, file_name, cached_height, keep_greater, latest_file, evict_file, evict,
}

-- A map is decoded as it was encoded, up to the order of its entries.
pub record GobLaws (gob : Gob) : Type 0 where
  pub decode-encode :
      (m : KeyMap Bytes) (b : Bytes)
      → IsSized m
      → gob.encode m ≡ ok b
      → (m' : KeyMap Bytes) × (gob.decode b ≡ ok m') × IsSized m' × Same m' m

-- A file that was written is read, and a file is not touched when another one is removed.
pub record DiskLaws {D : Type 0} (disk : Disk D) : Type 0 where
  pub read-write :
      (d d' : D) (name b : Bytes) → disk.write_file d name b ≡ ok d' → disk.read_file d' name ≡ ok b
  pub read-remove :
      (d d' : D) (name other : Bytes)
      → disk.remove d other ≡ some d'
      → name ≢ other
      → disk.read_file d' name ≡ disk.read_file d name

pub cached_height-file_name : (n : ℕ) → n < 2 ^ 63 → cached_height (file_name n) ≡ some (pos n)
unfolding cached_height file_name
cached_height-file_name n lt =
    rw (trim_suffix-append (format_uint n) file_suffix) (atoi-format_uint n lt)

-- A file that is no header's, or the one of a lower height.
abbrev pub IsOlder : ℕ → Bytes → Type 0
IsOlder n name = (height : ℤ) → cached_height name ≡ some height → less height (pos n) ≡ true

less-asym : (a : ℤ) (n : ℕ) → less a (pos n) ≡ true → less (pos n) a ≡ false
unfolding less
less-asym (pos a) n h = ground arith
less-asym (negsuc a) n h = refl

keep_greater-older :
    (n : ℕ) (best : ℤ × Bytes) (name : Bytes)
    → less best.0 (pos n) ≡ true
    → IsOlder n name
    → less (keep_greater best name (cached_height name)).0 (pos n) ≡ true
keep_greater-older n (max, file) name small older = elim (Option-cases (cached_height name)) [
  | inl absent ↦ rw absent small
  | inr (height, present) ↦ elim (Bool-cases (less max height)) [
    | inl t ↦ rw (present, t) (older height present)
    | inr f ↦ rw (present, f) small
  ]
]

keep_greater-latest :
    (n : ℕ) (file name : Bytes)
    → IsOlder n name
    → keep_greater (pos n, file) name (cached_height name) ≡ (pos n, file)
keep_greater-latest n file name older = elim (Option-cases (cached_height name)) [
  | inl absent ↦ rw absent refl
  | inr (height, present) ↦ rw (present, less-asym height n (older height present)) refl
]

latest_file-latest :
    (n : ℕ) (file : Bytes) (names : List Bytes)
    → All (IsOlder n) names
    → latest_file names (pos n, file) ≡ (pos n, file)
unfolding latest_file
latest_file-latest n file [] older = refl
latest_file-latest n file (name ∷ names) older =
    ap (latest_file names) (keep_greater-latest n file name older.0)
    ∙ latest_file-latest n file names older.1

found-greater :
    (n : ℕ) (best : ℤ × Bytes) (name : Bytes)
    → less best.0 (pos n) ≡ true
    → keep_greater best name (some (pos n)) ≡ (pos n, name)
found-greater n (max, file) name small = rw small refl

-- The file of the greatest height is found, wherever it stands.
pub latest_file-older :
    (n : ℕ) (before : List Bytes) (name : Bytes) (after : List Bytes) (best : ℤ × Bytes)
    → less best.0 (pos n) ≡ true
    → cached_height name ≡ some (pos n)
    → All (IsOlder n) before
    → All (IsOlder n) after
    → latest_file (before ++ name ∷ after) best ≡ (pos n, name)
unfolding latest_file
latest_file-older n [] name after best small at older older' =
    ap (λ o. latest_file after (keep_greater best name o)) at
    ∙ ap (latest_file after) (found-greater n best name small)
    ∙ latest_file-latest n name after older'
latest_file-older n (other ∷ before) name after best small at older older' =
    latest_file-older n before name after (keep_greater best other (cached_height other))
      (keep_greater-older n best other small older.0) at older.1 older'

module _ {D : Type 0} {disk : Disk D} (files : DiskLaws disk) {Node : Type 0} (t : Verkle Node)
    (gob : Gob) where
  evict_file-read :
      (limit : ℤ) (name other : Bytes) (d : D)
      → ((height : ℤ) → cached_height name ≡ some height → less height limit ≡ false)
      → disk.read_file (evict_file t gob disk limit d other (cached_height other)) name
        ≡ disk.read_file d name
  evict_file-read limit name other d kept = elim (Option-cases (cached_height other)) [
    | inl absent ↦ rw absent refl
    | inr (height, present) ↦ elim (Bool-cases (less height limit)) [
      | inr f ↦ rw (present, f) refl
      | inl t ↦ elim (Option-cases (disk.remove d other)) [
        | inl failed ↦ rw (present, t, failed) refl
        | inr (d', removed) ↦
            rw (present, t, removed)
              (files.read-remove d d' name other removed
                (λ e. cc (t, kept height (ap cached_height e ∙ present))))
      ]
    ]
  ]

  pub evict-read :
      (limit : ℤ) (name : Bytes) (names : List Bytes) (d : D)
      → ((height : ℤ) → cached_height name ≡ some height → less height limit ≡ false)
      → disk.read_file (evict t gob disk limit names d) name ≡ disk.read_file d name
  unfolding evict
  evict-read limit name [] d kept = refl
  evict-read limit name (other ∷ names) d kept =
      evict-read limit name names (evict_file t gob disk limit d other (cached_height other)) kept
      ∙ evict_file-read limit name other d kept

-- ===== src/Cache.antt =====
-- ord/stateless/storage.go, with `Serialize` and `Deserialize` of header.go: headers kept in files.
pub mod Files
pub mod Restart
use modular_indexer_committe.Prelude.{
  ℕ, ◌+◌, ◌-◌, ◌^◌, Bool, true, false, Option, none, some, List, [], ◌∷◌, ◌++◌, length, ◌==◌,
  if◌then◌else◌,
}
use modular_indexer_committe.Prelude.Outcome.{Result, ok, err, Outcome, done, panic, nil_pointer}
use modular_indexer_committe.Bytes.{Bytes, codes}
use modular_indexer_committe.Bytes.Decimal.{format_uint}
use modular_indexer_committe.Bytes.Atoi.{ℤ, pos, negsuc, less, int_of_uint, atoi, trim_suffix}
use modular_indexer_committe.KeyMap.{KeyMap}
use modular_indexer_committe.Packages.{Verkle}
use modular_indexer_committe.Header.{Header}

-- The package `encoding/gob`, on the map of a header.
pub record Gob : Type 0 where
  pub encode : KeyMap Bytes → Result Bytes
  pub decode : Bytes → Result (KeyMap Bytes)

-- The directory `.cache` as the package `os` shows it. `remove` fails with `none`.
pub record Disk (D : Type 0) : Type 0 where
  pub read_dir : D → Result (List Bytes)
  pub read_file : D → Bytes → Result Bytes
  pub write_file : D → Bytes → Bytes → Result D
  pub remove : D → Bytes → Option D

-- `fmt.Sprintf("%d%s", header.Height, fileSuffix)`
abbrev pub file_suffix : Bytes
file_suffix = codes ".dat"

unfoldable pub file_name : ℕ → Bytes
file_name height = format_uint height ++ file_suffix

abbrev pub atoi_of : Option Bytes → Option ℤ
atoi_of none = none
atoi_of (some s) = atoi s

-- The height in a file's name, where it has the suffix and a number before it.
unfoldable pub cached_height : Bytes → Option ℤ
cached_height name = atoi_of (trim_suffix file_suffix name)

abbrev pub keep_greater : ℤ × Bytes → Bytes → Option ℤ → ℤ × Bytes
keep_greater best name none = best
keep_greater (max, file) name (some height) =
    if less max height then (height, name) else (max, file)

-- The loop of `LoadHeader` over the files.
unfoldable pub latest_file : List Bytes → ℤ × Bytes → ℤ × Bytes
unfolding cached_height
latest_file [] best = best
latest_file (name ∷ names) best = latest_file names (keep_greater best name (cached_height name))

abbrev pub uint_of_int : ℤ → ℕ
uint_of_int (pos n) = n
uint_of_int (negsuc n) = 2 ^ 64 - n - 1

module _ {Node : Type 0} (t : Verkle Node) where
  -- `Header.Serialize`
  abbrev pub serialize : Gob → Header Node → Result Bytes
  serialize gob h = gob.encode h.kv

  abbrev pub header_of : Node → KeyMap Bytes → ℕ → Header Node
  header_of root kv height = record {
    root = root;
    kv = kv;
    height = height;
    hash = [];
    ord_trans = [];
    access = [];
    intermediate_kv = [];
  }

  abbrev pub insert_checked : Option Node → Bytes → Bytes → Option Node
  insert_checked none k v = none
  insert_checked (some n) k v = if t.insert_fails n k v then none else some (t.insert n k v)

  -- `verkle.New()` with every entry of a map inserted, or `none` where an insert fails.
  unfoldable pub rebuild : KeyMap Bytes → Option Node
  rebuild [] = some t.new
  rebuild ((k, v) ∷ rest) = insert_checked (rebuild rest) k v

  abbrev pub rebuilt_header : KeyMap Bytes → ℕ → Option Node → Option (Header Node)
  rebuilt_header kv height none = none
  rebuilt_header kv height (some root) = some (header_of root kv height)

  abbrev pub deserialize_map : ℕ → Result (KeyMap Bytes) → Result (Option (Header Node))
  deserialize_map height (err e) = err e
  deserialize_map height (ok kv) = ok (rebuilt_header kv height (rebuild kv))

  -- `ok none` is `nil, nil`.
  unfoldable pub deserialize : Gob → Bytes → ℕ → Result (Option (Header Node))
  unfolding rebuild
  deserialize gob buffer height = deserialize_map height (gob.decode buffer)

  abbrev pub fresh_header : ℕ → Header Node
  fresh_header height = header_of t.new [] height

  abbrev pub or_fresh : ℕ → Result (Option (Header Node)) → Option (Header Node)
  or_fresh init (err e) = some (fresh_header init)
  or_fresh init (ok stored) = stored

  abbrev pub load_data : Gob → ℕ → ℕ → Result Bytes → Option (Header Node)
  load_data gob init height (err e) = some (fresh_header init)
  load_data gob init height (ok bytes) = or_fresh init (deserialize gob bytes height)

  module _ {D : Type 0} (gob : Gob) (disk : Disk D) where
    abbrev pub load_latest : ℕ → D → ℤ × Bytes → Option (Header Node)
    load_latest init d (height, file) =
        if length file == 0
        then some (fresh_header init)
        else load_data gob init (uint_of_int height) (disk.read_file d file)

    abbrev pub load_names : ℕ → D → Result (List Bytes) → Option (Header Node)
    load_names init d (err e) = some (fresh_header init)
    load_names init d (ok names) = load_latest init d (latest_file names (pos 0, []))

    -- `none` is a nil pointer, which `Deserialize` may give.
    unfoldable pub load_header : Bool → ℕ → D → Option (Header Node)
    unfolding deserialize latest_file
    load_header enable init d =
        if enable then load_names init d (disk.read_dir d) else some (fresh_header init)

    abbrev pub or_kept : D → Option D → D
    or_kept d none = d
    or_kept d (some d') = d'

    abbrev pub evict_file : ℤ → D → Bytes → Option ℤ → D
    evict_file limit d name none = d
    evict_file limit d name (some height) =
        if less height limit then or_kept d (disk.remove d name) else d

    -- The loop of `StoreHeader` that removes old files; a failure is only logged.
    unfoldable pub evict : ℤ → List Bytes → D → D
    unfolding cached_height
    evict limit [] d = d
    evict limit (name ∷ names) d = evict limit names (evict_file limit d name (cached_height name))

    abbrev pub evict_names : ℕ → D → Result (List Bytes) → Option Bytes × D
    evict_names limit d (err e) = (some e, d)
    evict_names limit d (ok names) = (none, evict (int_of_uint limit) names d)

    abbrev pub after_write : ℕ → D → Result D → Option Bytes × D
    after_write limit d (err e) = (some e, d)
    after_write limit d (ok d') = evict_names limit d' (disk.read_dir d')

    -- The buffer is asked for its bytes before the error is looked at.
    abbrev pub store_buffer : ℕ → ℕ → D → Result Bytes → Outcome (Option Bytes × D)
    store_buffer height limit d (err e) = panic nil_pointer
    store_buffer height limit d (ok bytes) =
        done (after_write limit d (disk.write_file d (file_name height) bytes))

    unfoldable pub store_header : Header Node → ℕ → D → Outcome (Option Bytes × D)
    unfolding evict file_name
    store_header header evict_height d =
        store_buffer header.height evict_height d (serialize gob header)

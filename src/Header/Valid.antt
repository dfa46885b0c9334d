-- ===== src/Header/Valid.antt =====
-- The invariant of a `Header`, and that `insert` and `get` of header.go keep it.
use modular_indexer_committe.Prelude.{
  ◌≡◌, refl, ◌⊎◌, inl, inr, Bool, true, false, ◌||◌, Option, none, some, List, [], ◌∷◌, arith,
  Bool-cases, if◌then◌else◌, All, length,
}
use modular_indexer_committe.Prelude.Outcome.{ok}
use modular_indexer_committe.Bytes.{Bytes, bytes_equal, bytes_equal_iff}
use modular_indexer_committe.KeyMap.{KeyMap, lookup, insert, delete}
use modular_indexer_committe.Packages.{Verkle}
use modular_indexer_committe.Numbers.{value_size}
use modular_indexer_committe.Storage.{key_size}
use modular_indexer_committe.Header.{
  Header, TripleElement, record_write, record_read, default_value,
}

-- A value, or no bytes where the key is missing.
abbrev pub or_empty : Option Bytes → Bytes
or_empty none = []
or_empty (some v) = v

abbrev pub or_default : Option Bytes → Bytes
or_default none = default_value
or_default (some v) = v

-- What `get` returns: the pending value, else the one before the block, else zeros.
abbrev pub or_else : Option Bytes → Option Bytes → Option Bytes
or_else none o = o
or_else (some v) o = some v

unfoldable pub header_view : {Node : Type 0} → Header Node → Bytes → Bytes
header_view h k = or_default (or_else (lookup k h.intermediate_kv) (lookup k h.kv))

abbrev pub old_of : TripleElement → Option Bytes
old_of e = if e.old_value_exists then some e.old_value else none

-- The record tells what the key held before the block.
abbrev pub IsAccurate : KeyMap Bytes → TripleElement → Type 0
IsAccurate kv e = lookup e.key kv ≡ old_of e

unfoldable pub is_recorded : Bytes → List TripleElement → Bool
is_recorded k [] = false
is_recorded k (e ∷ es) = bytes_equal k e.key || is_recorded k es

-- Keys and values of 32 bytes.
abbrev pub IsSized : KeyMap Bytes → Type 0
IsSized = All (λ (k, v). (length k ≡ key_size) × (length v ≡ value_size))

pub lookup-IsSized :
    (m : KeyMap Bytes) (k v : Bytes)
    → IsSized m
    → lookup k m ≡ some v
    → (length k ≡ key_size) × (length v ≡ value_size)
unfolding lookup
lookup-IsSized [] k v h e = cc
lookup-IsSized ((j, w) ∷ m) k v h e = ground (arith, lookup-IsSized m k v h.1, bytes_equal_iff j k)

pub insert-IsSized :
    (m : KeyMap Bytes) (k v : Bytes)
    → IsSized m
    → length k ≡ key_size
    → length v ≡ value_size
    → IsSized (insert k v m)
unfolding insert
insert-IsSized [] k v h hk hv = ((hk, hv), tt)
insert-IsSized ((j, w) ∷ m) k v h hk hv = elim (Bool-cases (bytes_equal j k)) [
  | inl same ↦ rw same ((hk, hv), h.1)
  | inr other ↦ rw other (h.0, insert-IsSized m k v h.1 hk hv)
]

pub delete-IsSized : (m : KeyMap Bytes) (k : Bytes) → IsSized m → IsSized (delete k m)
unfolding delete
delete-IsSized [] k h = tt
delete-IsSized ((j, w) ∷ m) k h = elim (Bool-cases (bytes_equal j k)) [
  | inl same ↦ rw same (delete-IsSized m k h.1)
  | inr other ↦ rw other (h.0, delete-IsSized m k h.1)
]

pub record IsValid {Node : Type 0} (t : Verkle Node) (IsFull : Node → Type 0) (h : Header Node)
    : Type 0 where
  pub full : IsFull h.root
  pub consistent : (k : Bytes) → t.get h.root k ≡ ok (or_empty (lookup k h.kv))
  pub kv_sized : IsSized h.kv
  pub pending_sized : IsSized h.intermediate_kv
  pub recorded : (k v : Bytes) → lookup k h.intermediate_kv ≡ some v → is_recorded k h.access ≡ true
  pub accurate : All (IsAccurate h.kv) h.access

-- Every element that a write leaves is old, or is the new one.
pub record_write-IsAccurate :
    (kv : KeyMap Bytes) (e : TripleElement) (es : List TripleElement)
    → IsAccurate kv e
    → All (IsAccurate kv) es
    → All (IsAccurate kv) (record_write e es)
unfolding record_write
record_write-IsAccurate kv e [] h hs = (h, tt)
record_write-IsAccurate kv e (x ∷ es) h hs = elim (Bool-cases (bytes_equal e.key x.key)) [
  | inl same ↦ rw same hs
  | inr other ↦ rw other (hs.0, record_write-IsAccurate kv e es h hs.1)
]

pub record_read-IsAccurate :
    (kv : KeyMap Bytes) (e : TripleElement) (es : List TripleElement)
    → (is_recorded e.key es ≡ true) ⊎ IsAccurate kv e
    → All (IsAccurate kv) es
    → All (IsAccurate kv) (record_read e es)
unfolding record_read is_recorded
record_read-IsAccurate kv e [] (inl h) hs = cc
record_read-IsAccurate kv e [] (inr h) hs = (h, tt)
record_read-IsAccurate kv e (x ∷ es) h hs = elim (Bool-cases (bytes_equal e.key x.key)) [
  | inl same ↦ rw same hs
  | inr other ↦ rw other (hs.0, record_read-IsAccurate kv e es (rw other at h) hs.1)
]

pub is_recorded-write :
    (k : Bytes) (e : TripleElement) (es : List TripleElement)
    → is_recorded k (record_write e es) ≡ (bytes_equal k e.key || is_recorded k es)
unfolding record_write is_recorded
is_recorded-write k e [] = refl
is_recorded-write k e (x ∷ es) = ground (
  arith,
  is_recorded-write k e es,
  bytes_equal_iff k e.key,
  bytes_equal_iff e.key x.key,
  bytes_equal_iff k x.key,
)

pub is_recorded-read :
    (k : Bytes) (e : TripleElement) (es : List TripleElement)
    → is_recorded k (record_read e es) ≡ (bytes_equal k e.key || is_recorded k es)
unfolding record_read is_recorded
is_recorded-read k e [] = refl
is_recorded-read k e (x ∷ es) = ground (
  arith,
  is_recorded-read k e es,
  bytes_equal_iff k e.key,
  bytes_equal_iff e.key x.key,
  bytes_equal_iff k x.key,
)

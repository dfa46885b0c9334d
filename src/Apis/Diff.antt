-- ===== src/Apis/Diff.antt =====
-- `ParseStateDiff` of apis/verify.go: keys and values, grouped by the stems of the keys.
use modular_indexer_committe.Prelude.{
  ℕ, zero, suc, ◌-◌, ◌≡◌, ◌≢◌, refl, sym, ap, ◌∙◌, Bool-cases, inl, inr, Option, none, some, List,
  [], ◌∷◌, ◌++◌, arith, length, get_elem?, take, replicate, ltb, ◌==◌, if◌then◌else◌,
}
use modular_indexer_committe.Prelude.Outcome.{Outcome, done, panic, out_of_range}
use modular_indexer_committe.Bytes.{Bytes, bytes_equal, bytes_equal_iff}
use modular_indexer_committe.Queue.{on_done}
use modular_indexer_committe.Apis.{SuffixStateDiff, StemStateDiff}

-- A value of no bytes is null, and a short one is filled up with zeros.
abbrev pub aligned : Bytes → Outcome (Option Bytes)
aligned value =
    if length value == 0
    then done none
    else if ltb 32 (length value)
    then panic out_of_range
    else done (some (value ++ replicate (32 - length value) 0))

-- Into the last stem, or into a new one behind it.
unfoldable pub add_suffix : List StemStateDiff → Bytes → SuffixStateDiff → List StemStateDiff
add_suffix [] stem d = record { stem = stem; suffix_diffs = d ∷ [] } ∷ []
add_suffix (last ∷ []) stem d =
    if bytes_equal last.stem stem
    then record last { suffix_diffs = last.suffix_diffs ++ d ∷ [] } ∷ []
    else last ∷ record { stem = stem; suffix_diffs = d ∷ [] } ∷ []
add_suffix (x ∷ y ∷ rest) stem d = x ∷ add_suffix (y ∷ rest) stem d

abbrev pub add_key :
    List StemStateDiff
    → Bytes
    → Option ℕ
    → Outcome (Option Bytes)
    → Outcome (Option Bytes)
    → Outcome (List StemStateDiff)
add_key diffs stem (some suffix) (done old) (done new) =
    done (add_suffix diffs stem (record { suffix = suffix; current_value = old; new_value = new }))
add_key diffs stem suffix old new = panic out_of_range

-- The loop of `ParseStateDiff`, with the stems so far.
unfoldable pub parse_state_diff :
    List Bytes → List Bytes → List Bytes → List StemStateDiff → Outcome (List StemStateDiff)
unfolding add_suffix
parse_state_diff [] pre post diffs = done diffs
parse_state_diff (key ∷ keys) (old ∷ pre) (new ∷ post) diffs =
    on_done (add_key diffs (take 31 key) (get_elem? key 31) (aligned old) (aligned new))
      (parse_state_diff keys pre post)
parse_state_diff (key ∷ keys) pre post diffs = panic out_of_range

-- One key, with what it held and what it holds.
pub record Entry : Type 0 where
  pub key : Bytes
  pub current : Option Bytes
  pub new : Option Bytes

abbrev stem_entries : Bytes → List SuffixStateDiff → List Entry
stem_entries stem [] = []
stem_entries stem (d ∷ ds) =
    record { key = stem ++ d.suffix ∷ []; current = d.current_value; new = d.new_value }
    ∷ stem_entries stem ds

-- The entries of a difference, in order.
abbrev pub entries : List StemStateDiff → List Entry
entries [] = []
entries (d ∷ ds) = stem_entries d.stem d.suffix_diffs ++ entries ds

abbrev pub null_or_word : Bytes → Option Bytes
null_or_word [] = none
null_or_word (x ∷ b) = some (x ∷ b)

-- The keys with their values, as they were given.
abbrev pub given : List Bytes → List Bytes → List Bytes → List Entry
given (key ∷ keys) (old ∷ pre) (new ∷ post) =
    record { key = key; current = null_or_word old; new = null_or_word new } ∷ given keys pre post
given keys pre post = []

append_assoc : {A : Type 0} (a b c : List A) → (a ++ b) ++ c ≡ a ++ (b ++ c)
append_assoc [] b c = refl
append_assoc (x ∷ a) b c = ap (λ t. x ∷ t) (append_assoc a b c)

append_nil : {A : Type 0} (a : List A) → a ++ [] ≡ a
append_nil [] = refl
append_nil (x ∷ a) = ap (λ t. x ∷ t) (append_nil a)

stem_entries-append :
    (stem : Bytes) (a b : List SuffixStateDiff)
    → stem_entries stem (a ++ b) ≡ stem_entries stem a ++ stem_entries stem b
stem_entries-append stem [] b = refl
stem_entries-append stem (d ∷ a) b =
    ap
      (λ t.
        record { key = stem ++ d.suffix ∷ []; current = d.current_value; new = d.new_value } ∷ t)
      (stem_entries-append stem a b)

entries-add_suffix :
    (diffs : List StemStateDiff) (stem : Bytes) (d : SuffixStateDiff)
    → entries (add_suffix diffs stem d) ≡ entries diffs ++ stem_entries stem (d ∷ [])
unfolding add_suffix
entries-add_suffix [] stem d = refl
entries-add_suffix (last ∷ []) stem d = elim (Bool-cases (bytes_equal last.stem stem)) [
  | inl same ↦ rw same (
      append_nil (stem_entries last.stem (last.suffix_diffs ++ d ∷ []))
      ∙ stem_entries-append last.stem last.suffix_diffs (d ∷ [])
      ∙ ap (λ s. stem_entries last.stem last.suffix_diffs ++ stem_entries s (d ∷ []))
          ((bytes_equal_iff last.stem stem).0 same)
      ∙ ap (λ a. a ++ stem_entries stem (d ∷ []))
          (sym (append_nil (stem_entries last.stem last.suffix_diffs))))
  | inr other ↦ rw other (
      ap (λ a. a ++ stem_entries stem (d ∷ []))
        (sym (append_nil (stem_entries last.stem last.suffix_diffs))))
]
entries-add_suffix (x ∷ y ∷ rest) stem d =
    ap (λ t. stem_entries x.stem x.suffix_diffs ++ t) (entries-add_suffix (y ∷ rest) stem d)
    ∙ sym (
        append_assoc (stem_entries x.stem x.suffix_diffs) (entries (y ∷ rest))
          (stem_entries stem (d ∷ [])))

-- A value that is null or a word.
abbrev pub IsNullOrWord : Bytes → Type 0
IsNullOrWord v = length v ≢ 0 → length v ≡ 32

aligned-word : (v : Bytes) → IsNullOrWord v → aligned v ≡ done (null_or_word v)
aligned-word [] h = refl
aligned-word (x ∷ v) h =
    let len : length (x ∷ v) ≡ 32 = h (omega arith) in
    rw (len) (ap (λ b. done (some b)) (append_nil (x ∷ v)))

-- A key of 32 bytes is its stem and its suffix.
key-split :
    (n : ℕ) (key : Bytes)
    → length key ≡ suc n
    → (suffix : ℕ) × (get_elem? key n ≡ some suffix) × (take n key ++ suffix ∷ [] ≡ key)
key-split n [] h = absurd (omega (arith, h))
key-split zero (x ∷ []) h = (x, refl, refl)
key-split zero (x ∷ y ∷ key) h = absurd (omega (arith, h))
key-split (suc n) (x ∷ key) h =
    let r = key-split n key (omega (arith, h)) in (r.0, r.1, ap (λ t. x ∷ t) r.2)

-- Keys of 32 bytes, each with two values.
abbrev pub IsFitting : List Bytes → List Bytes → List Bytes → Type 0
IsFitting [] [] [] = Unit
IsFitting (key ∷ keys) (old ∷ pre) (new ∷ post) =
    (length key ≡ 32) × IsNullOrWord old × IsNullOrWord new × IsFitting keys pre post
IsFitting keys pre post = ⊥

-- ParseStateDiff of keys of 32 bytes, each with two values that are null or words, behind any
-- stems, does not panic and adds exactly the keys with their values, in their order.
pub parse_state_diff_lem :
    (keys pre post : List Bytes) (before : List StemStateDiff)
    → IsFitting keys pre post
    → (diffs : List StemStateDiff) × (parse_state_diff keys pre post before ≡ done diffs)
      × (entries diffs ≡ entries before ++ given keys pre post)
unfolding parse_state_diff
parse_state_diff_lem [] [] [] before h = (before, refl, sym (append_nil (entries before)))
parse_state_diff_lem [] (old ∷ pre) post before h = absurd h
parse_state_diff_lem [] [] (new ∷ post) before h = absurd h
parse_state_diff_lem (key ∷ keys) [] post before h = absurd h
parse_state_diff_lem (key ∷ keys) (old ∷ pre) [] before h = absurd h
parse_state_diff_lem (key ∷ keys) (old ∷ pre) (new ∷ post) before h =
    let (suffix, at, whole) = key-split 31 key h.0 in
    let d : SuffixStateDiff = record {
      suffix = suffix;
      current_value = null_or_word old;
      new_value = null_or_word new;
    } in
    let more = add_suffix before (take 31 key) d in
    let rest = parse_state_diff_lem keys pre post more h.3 in
    (
      rest.0,
      rw (at, aligned-word old h.1, aligned-word new h.2) rest.1,
      rest.2
          ∙ ap (λ a. a ++ given keys pre post) (entries-add_suffix before (take 31 key) d)
          ∙ append_assoc (entries before) (stem_entries (take 31 key) (d ∷ []))
              (given keys pre post)
          ∙ ap
              (λ k.
                entries before
                ++ record { key = k; current = null_or_word old; new = null_or_word new }
                  ∷ given keys pre post)
              whole,
    )

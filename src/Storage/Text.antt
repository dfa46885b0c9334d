-- ===== src/Storage/Text.antt =====
-- `InsertBytes` and `GetBytes` of ord/stateless/header.go, over slots that keep their laws.
use modular_indexer_committe.Prelude.{
  ℕ, zero, suc, ◌+◌, ◌-◌, ◌*◌, ◌%◌, ◌^◌, ◌<◌, ◌≤◌, ◌≡◌, ◌≢◌, refl, sym, ap, ◌∙◌, ◌⊎◌, inl, inr, [],
  ◌∷◌, ◌++◌, arith, le→ltb, length, length-append, length-take, length-drop, length-replicate,
  get_or, take, drop, replicate, ltb, ==_ne,
}
use modular_indexer_committe.Prelude.Outcome.{Ends, Ends-done, Ends-bind, Ends-weaken, ◌>>◌}
use modular_indexer_committe.Bytes.{Bytes, bytes_equal_refl, bytes_equal_ne}
use modular_indexer_committe.Packages.{Uint256, Uint256Laws}
use modular_indexer_committe.Storage.{
  Cells, suffix, slot_key, to_array, required_slots, insert_slots, get_slots, pad, insert_bytes,
  get_bytes, insert_uint256, get_uint256,
}
use modular_indexer_committe.Storage.Laws.{CellLaws}
use modular_indexer_committe.Header.Access.{take_whole}

lt_or_eq : (i m : ℕ) → i ≤ m → (i < m) ⊎ (i ≡ m)
lt_or_eq i m h = omega arith

take-nil : (n : ℕ) → take {A = ℕ} n [] ≡ []
take-nil zero = refl
take-nil (suc n) = refl

take-take-drop : (a b : ℕ) (v : Bytes) → take a v ++ take b (drop a v) ≡ take (a + b) v
take-take-drop zero b v = let e : b ≡ 0 + b = omega arith in ap (λ n. take n v) e
take-take-drop (suc a) b [] = take-nil b ∙ sym (take-nil (suc a + b))
take-take-drop (suc a) b (x ∷ v) =
    let e : suc (a + b) ≡ suc a + b = omega arith in
    ap (λ t. x ∷ t) (take-take-drop a b v) ∙ ap (λ n. take n (x ∷ v)) e

take_all : (v : Bytes) (n : ℕ) → n ≡ length v → take n v ≡ v
take_all [] n e = take-nil n
take_all (x ∷ v) n e = ap (λ m. take m (x ∷ v)) e ∙ ap (λ t. x ∷ t) (take_all v (length v) refl)

pub get_or-last : (v : Bytes) (x : ℕ) → get_or (v ++ x ∷ []) (length v) 0 ≡ x
get_or-last [] x = refl
get_or-last (y ∷ v) x = get_or-last v x

pub suffix-slot_key :
    (k : Bytes) (m : ℕ) → length k ≡ 32 → suffix (slot_key k m) ≡ (suffix k + m) % 256
unfolding suffix slot_key
suffix-slot_key k m size =
    ap (λ n. get_or (take 31 k ++ ((get_or k 31 0 + m) % 256) ∷ []) n 0)
      (omega (arith, length-take 31 k, size))
    ∙ get_or-last (take 31 k) ((get_or k 31 0 + m) % 256)

length-slot_key : (k : Bytes) (m : ℕ) → length k ≡ 32 → length (slot_key k m) ≡ 32
unfolding slot_key suffix
length-slot_key k m size =
    omega
      (arith, length-append (take 31 k) (((get_or k 31 0 + m) % 256) ∷ []), length-take 31 k, size)

-- Two slots of one text are different, and differ from the slot of its length.
slot_key-ne :
    (k : Bytes) (m n : ℕ)
    → length k ≡ 32
    → m ≢ n
    → suffix k + m < 256
    → suffix k + n < 256
    → slot_key k m ≢ slot_key k n
slot_key-ne k m n size d hm hn e =
    d (omega (arith, suffix-slot_key k m size, suffix-slot_key k n size, ap suffix e))

slot_key-ne-key :
    (k : Bytes) (m : ℕ) → length k ≡ 32 → 0 < m → suffix k + m < 256 → slot_key k m ≢ k
slot_key-ne-key k m size pos fits e = omega (arith, suffix-slot_key k m size, ap suffix e)

to_array-whole : (k : Bytes) → length k ≡ 32 → to_array k ≡ k
unfolding to_array
to_array-whole k size = take_whole 32 k (replicate 32 0) size

-- The bytes of a text that its slot `i` holds.
abbrev pub chunk : Bytes → ℕ → Bytes
chunk padded i = take 32 (drop (i * 32) padded)

length-chunk :
    (padded : Bytes) (i : ℕ) → (i + 1) * 32 ≤ length padded → length (chunk padded i) ≡ 32
length-chunk padded i fits =
    omega (arith, length-take 32 (drop (i * 32) padded), length-drop (i * 32) padded)

module _ {S : Type 0} {u : Uint256} {c : Cells S} {P : S → Type 0} {view : S → Bytes → Bytes}
    (laws : Uint256Laws u) (slots : CellLaws c P view) where
  length-pad : (v : Bytes) → length (pad u c v) ≡ required_slots (length v) * 32
  unfolding pad
  length-pad v =
      let n = required_slots (length v) * 32 - length v in
      omega (arith, length-append v (replicate n 0), length-replicate {A = ℕ} n 0)

  insert_slots_lem :
      (k padded : Bytes) (n i : ℕ) (s : S)
      → P s
      → length k ≡ 32
      → suffix k + i + n < 256
      → (i + n) * 32 ≤ length padded
      → Ends (insert_slots u c k padded n i s) (λ _ s'.
        P s'
        × ((m : ℕ) → i ≤ m → m < i + n → view s' (slot_key k (m + 1)) ≡ chunk padded m)
        × ((j : Bytes)
            → ((m : ℕ) → i ≤ m → m < i + n → slot_key k (m + 1) ≢ j)
            → view s' j ≡ view s j))
  unfolding insert_slots
  insert_slots_lem k padded zero i s h size fits whole =
      Ends-done tt s (h, (λ m lo hi. absurd (omega arith)), λ j other. refl)
  insert_slots_lem k padded (suc n) i s h size fits whole =
      Ends-bind (c.insert (slot_key k (i + 1)) (chunk padded i))
        (λ _. insert_slots u c k padded n (i + 1)) s
        (slots.insert_lem (slot_key k (i + 1)) (chunk padded i) s h (length-slot_key k (i + 1) size)
          (length-chunk padded i (omega arith)))
        (λ a s1 w.
          Ends-weaken (insert_slots_lem k padded n (i + 1) s1 w.0 size (omega arith) (omega arith))
            (λ b s2 r. (
              r.0,
              (λ m lo hi. elim (lt_or_eq i m lo) [
                | inl later ↦ r.1 m (omega arith) (omega arith)
                | inr same ↦
                    ap (λ n. view s2 (slot_key k (n + 1))) (sym same)
                    ∙ r.2 (slot_key k (i + 1)) (λ n from upto.
                      slot_key-ne k (n + 1) (i + 1) size (λ e. omega arith) (omega arith)
                        (omega arith))
                    ∙ (rw (bytes_equal_refl (slot_key k (i + 1))) at (w.1 (slot_key k (i + 1))))
                    ∙ ap (λ n. chunk padded n) same
              ]),
              λ j other.
                  r.2 j (λ m lo hi. other m (omega arith) (omega arith))
                  ∙ (rw
                      (bytes_equal_ne (slot_key k (i + 1)) j (other i (omega arith) (omega arith)))
                      at (w.1 j)),
            )))

  get_slots_lem :
      (k padded acc : Bytes) (n i : ℕ) (s : S)
      → P s
      → length k ≡ 32
      → acc ≡ take (i * 32) padded
      → ((m : ℕ) → i ≤ m → m < i + n → view s (slot_key k (m + 1)) ≡ chunk padded m)
      → Ends
          (get_slots u c k n i acc s)
          (λ r s'. P s' × (r ≡ take ((i + n) * 32) padded) × ((j : Bytes) → view s' j ≡ view s j))
  unfolding get_slots
  get_slots_lem k padded acc zero i s h size start held =
      Ends-done acc s (h, start ∙ ap (λ m. take m padded) (omega arith), λ j. refl)
  get_slots_lem k padded acc (suc n) i s h size start held = rw (ap (λ n. ltb n 32) size) (
      Ends-bind (c.get (slot_key k (i + 1))) (λ slot. get_slots u c k n (i + 1) (acc ++ slot)) s
        (slots.get_lem (slot_key k (i + 1)) s h (length-slot_key k (i + 1) size))
        (λ a s1 w.
          Ends-weaken
            (get_slots_lem k padded (acc ++ a) n (i + 1) s1 w.0 size
              (ap (λ t. t ++ a) start
                ∙ ap (λ t. take (i * 32) padded ++ t) (w.1 ∙ held i (omega arith) (omega arith))
                ∙ take-take-drop (i * 32) 32 padded
                ∙ ap (λ m. take m padded) (omega arith))
              (λ m lo hi. w.2 (slot_key k (m + 1)) ∙ held m (omega arith) (omega arith)))
            (λ b s2 r.
              (r.0, r.1 ∙ ap (λ m. take (m * 32) padded) (omega arith), λ j. r.2 j ∙ w.2 j))))

  pub insert_bytes_lem :
      (k v : Bytes) (s : S)
      → P s
      → length k ≡ 32
      → suffix k + required_slots (length v) < 256
      → Ends (insert_bytes u c k v s) (λ _ s'.
        P s'
        × (view s' k ≡ u.write_to_array32 (length v))
        × ((m : ℕ)
            → m < required_slots (length v)
            → view s' (slot_key k (m + 1)) ≡ chunk (pad u c v) m)
        × ((j : Bytes)
            → k ≢ j
            → ((m : ℕ) → m < required_slots (length v) → slot_key k (m + 1) ≢ j)
            → view s' j ≡ view s j))
  unfolding insert_bytes insert_uint256
  insert_bytes_lem k v s h size fits =
      rw
        (
          to_array-whole k size,
          ap (λ n. ltb n 32) size,
          le→ltb ((256 - suffix k) * 32) (length v) (omega (arith, fits)),
        )
        (Ends-bind (c.insert k (u.write_to_array32 (length v)))
          (λ _. insert_slots u c k (pad u c v) (required_slots (length v)) 0) s
          (slots.insert_lem k (u.write_to_array32 (length v)) s h size
            (laws.length-write_to_array32 (length v)))
          (λ a s1 w.
            Ends-weaken
              (insert_slots_lem k (pad u c v) (required_slots (length v)) 0 s1 w.0 size
                (omega (arith, fits)) (omega (arith, length-pad v)))
              (λ b s2 r. (
                r.0,
                r.2 k (λ m lo hi.
                      slot_key-ne-key k (m + 1) size (omega arith) (omega (arith, fits)))
                    ∙ (rw (bytes_equal_refl k) at (w.1 k)),
                (λ m hi. r.1 m (omega arith) (omega arith)),
                λ j nk other.
                    r.2 j (λ m lo hi. other m (omega arith))
                    ∙ (rw (bytes_equal_ne k j nk) at (w.1 j)),
              ))))

  take-pad : (v : Bytes) → take (length v) (pad u c v) ≡ v
  unfolding pad
  take-pad v =
      take_whole (length v) v (replicate (required_slots (length v) * 32 - length v) 0) refl

  stored_length :
      (k v : Bytes) (s : S) (b : Bytes)
      → length v < 2 ^ 64 - 31
      → b ≡ view s k
      → view s k ≡ u.write_to_array32 (length v)
      → u.set_bytes b % 2 ^ 64 ≡ length v
  stored_length k v s b short read len = omega (
    arith,
    ap u.set_bytes (read ∙ len) ∙ laws.set_bytes-write_to_array32 (length v) (omega (arith, short)),
    short,
  )

  pub get_bytes_lem :
      (k v : Bytes) (s : S)
      → P s
      → length k ≡ 32
      → length v < 2 ^ 64 - 31
      → view s k ≡ u.write_to_array32 (length v)
      → ((m : ℕ)
          → m < required_slots (length v)
          → view s (slot_key k (m + 1)) ≡ chunk (pad u c v) m)
      → Ends (get_bytes u c k s) (λ r s'. P s' × (r ≡ v) × ((j : Bytes) → view s' j ≡ view s j))
  unfolding get_bytes get_uint256
  get_bytes_lem k [] s h size short len held =
      let first = slots.get_lem k s h size in
      record {
        value = [];
        state = first.state;
        eq =
            rw
              (
                to_array-whole k size,
                first.eq,
                stored_length k [] s first.value short first.holds.1 len,
              )
              refl;
        holds = (first.holds.0, refl, first.holds.2);
      }
  get_bytes_lem k (x ∷ v) s h size short len held =
      let first = slots.get_lem k s h size in
      let n = required_slots (length (x ∷ v)) in
      let rest =
        get_slots_lem k (pad u c (x ∷ v)) [] n 0 first.state first.holds.0 size refl
          (λ m lo hi. first.holds.2 (slot_key k (m + 1)) ∙ held m (omega arith)) in
      let full : take ((0 + n) * 32) (pad u c (x ∷ v)) ≡ pad u c (x ∷ v) =
        take_all (pad u c (x ∷ v)) ((0 + n) * 32) (omega (arith, length-pad (x ∷ v))) in
      let same : rest.value ≡ pad u c (x ∷ v) = rest.holds.1 ∙ full in
      let small : (length (x ∷ v) + 31) % 2 ^ 64 ≡ length (x ∷ v) + 31 = omega (arith, short) in
      record {
        value = take (length (x ∷ v)) rest.value;
        state = rest.state;
        eq =
            rw
              (
                to_array-whole k size,
                first.eq,
                stored_length k (x ∷ v) s first.value short first.holds.1 len,
                ==_ne (length (x ∷ v)) 0 (λ e. omega arith),
                small,
                rest.eq,
                le→ltb (length rest.value) (length (x ∷ v))
                    (omega (arith, ap length same, length-pad (x ∷ v))),
              )
              refl;
        holds = (
          rest.holds.0,
          ap (λ b. take (length (x ∷ v)) b) same ∙ take-pad (x ∷ v),
          λ j. rest.holds.2 j ∙ first.holds.2 j,
        );
      }

  -- GetBytes after InsertBytes of a text at a key of 32 bytes, over slots that keep their laws,
  -- where the slots of the text end below the suffix 256, gives the text without a panic, and no
  -- slot but that of the length and those of the text has changed.
  pub get_bytes-insert_bytes :
      (k v : Bytes) (s : S)
      → P s
      → length k ≡ 32
      → suffix k + required_slots (length v) < 256
      → Ends ((insert_bytes u c k v >> get_bytes u c k) s) (λ r s'.
        P s'
        × (r ≡ v)
        × ((j : Bytes)
            → k ≢ j
            → ((m : ℕ) → m < required_slots (length v) → slot_key k (m + 1) ≢ j)
            → view s' j ≡ view s j))
  get_bytes-insert_bytes k v s h size fits =
      Ends-bind (insert_bytes u c k v) (λ _. get_bytes u c k) s (insert_bytes_lem k v s h size fits)
        (λ a s1 w.
          Ends-weaken (get_bytes_lem k v s1 w.0 size (omega (arith, fits)) w.1 w.2)
            (λ b s2 r. (r.0, r.1, λ j nk other. r.2 j ∙ w.3 j nk other)))

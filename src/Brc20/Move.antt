-- ===== src/Brc20/Move.antt =====
-- The three balances that `transferTransferNormal` of ord/stateless/brc20.go updates.
use modular_indexer_committe.Prelude.{
  ℕ, ◌+◌, ◌-◌, ◌<◌, ◌≤◌, ◌≡◌, ◌≢◌, refl, sym, ap, ◌∙◌, [], ◌∷◌, ◌++◌, arith, length, length-take,
  if◌then◌else◌, Bool-cases, inl, inr, take,
}
use modular_indexer_committe.Prelude.Outcome.{M, ◌>>◌}
use modular_indexer_committe.Bytes.{
  Bytes, bytes_equal, bytes_equal_iff, bytes_equal_refl, bytes_equal_ne, codes,
}
use modular_indexer_committe.Packages.{Uint256, Uint256Laws, Codec, CodecLaws, word_mod}
use modular_indexer_committe.Storage.{Cells, slot_storage}
use modular_indexer_committe.Storage.Laws.{CellLaws}
use modular_indexer_committe.Brc20.Keys
use modular_indexer_committe.Brc20.Keys.{stem_of, get_tick_pkscript_hash}
use modular_indexer_committe.Brc20.Ops.{update_balance}
use modular_indexer_committe.Brc20.Balances.{written_number, update_balance_lem}

pub last-injective :
    (a b : Bytes) (x y : ℕ) → length a ≡ length b → a ++ x ∷ [] ≡ b ++ y ∷ [] → x ≡ y
last-injective [] [] x y l e = cc
last-injective [] (d ∷ b) x y l e = absurd (omega arith)
last-injective (c ∷ a) [] x y l e = absurd (omega arith)
last-injective (c ∷ a) (d ∷ b) x y l e = last-injective a b x y (omega arith) (cc)

-- Keys with different suffixes are different.
pub get_tick_pkscript_hash-ne :
    {c : Codec}
    → CodecLaws c
    → (t1 p1 t2 p2 : Bytes) (x y : ℕ) → x ≢ y
    → get_tick_pkscript_hash c t1 p1 x ≢ get_tick_pkscript_hash c t2 p2 y
unfolding get_tick_pkscript_hash stem_of
get_tick_pkscript_hash-ne {c} laws t1 p1 t2 p2 x y ne e =
    let i1 = (t1 ++ p1) ++ codes "GetTickPkscriptHash" in
    let i2 = (t2 ++ p2) ++ codes "GetTickPkscriptHash" in
    ne (
      last-injective (take 31 (c.keccak256 i1)) (take 31 (c.keccak256 i2)) x y
        (omega (
          arith,
          length-take 31 (c.keccak256 i1),
          length-take 31 (c.keccak256 i2),
          laws.length-keccak256 i1,
          laws.length-keccak256 i2,
        ))
        e)

-- The number in a slot.
abbrev pub number : {S : Type 0} → Uint256 → (S → Bytes → Bytes) → S → Bytes → ℕ
number u view s k = u.set_bytes (view s k)

module _ {u : Uint256} (laws : Uint256Laws u) where
  pub number-written :
      (before after : Bytes → Bytes) (key : Bytes) (n : ℕ)
      → n < word_mod
      → ((j : Bytes) → after j ≡ written_number u before key n j)
      → (j : Bytes)
      → u.set_bytes (after j) ≡ (if bytes_equal key j then n else u.set_bytes (before j))
  number-written before after key n small h j = elim (Bool-cases (bytes_equal key j)) [
    | inl t ↦ rw (h j, t) (laws.set_bytes-write_to_array32 n small)
    | inr f ↦ rw (h j, f) refl
  ]

  pub sub_small : (a b : ℕ) → a < word_mod → b ≤ a → u.sub a b ≡ a - b
  sub_small a b small le = laws.sub_lem a b (omega arith) ∙ omega arith

  pub add_small : (a b : ℕ) → a + b < word_mod → u.add a b ≡ a + b
  add_small a b small = laws.add_lem a b ∙ omega arith

  -- Three writes at the keys `k1`, `k3` and `k2`, of which `k3` is another.
  three_writes :
      (n0 n1 n2 n3 : Bytes → ℕ) (k1 k2 k3 : Bytes) (amount : ℕ)
      → k1 ≢ k3
      → k3 ≢ k2
      → amount ≤ n0 k1
      → ((j : Bytes) → n1 j ≡ (if bytes_equal k1 j then n0 k1 - amount else n0 j))
      → ((j : Bytes) → n2 j ≡ (if bytes_equal k3 j then n1 k3 + amount else n1 j))
      → ((j : Bytes) → n3 j ≡ (if bytes_equal k2 j then n2 k2 + amount else n2 j))
      → (k1 ≡ k2 → n3 k1 ≡ n0 k1)
        × (k1 ≢ k2 → (n3 k1 ≡ n0 k1 - amount) × (n3 k2 ≡ n0 k2 + amount))
        × (n3 k3 ≡ n0 k3 + amount)
        × ((j : Bytes) → k1 ≢ j → k3 ≢ j → k2 ≢ j → n3 j ≡ n0 j)
  three_writes n0 n1 n2 n3 k1 k2 k3 amount d13 d32 le e1 e2 e3 =
      let a1 : n1 k1 ≡ n0 k1 - amount = rw (bytes_equal_refl k1) at (e1 k1) in
      let a3 : n1 k3 ≡ n0 k3 = rw (bytes_equal_ne k1 k3 d13) at (e1 k3) in
      let c1 : n2 k1 ≡ n1 k1 = rw (bytes_equal_ne k3 k1 (λ e. d13 (sym e))) at (e2 k1) in
      let c2 : n2 k2 ≡ n1 k2 = rw (bytes_equal_ne k3 k2 d32) at (e2 k2) in
      let c3 : n2 k3 ≡ n1 k3 + amount = rw (bytes_equal_refl k3) at (e2 k3) in
      let f2 : n3 k2 ≡ n2 k2 + amount = rw (bytes_equal_refl k2) at (e3 k2) in
      let f3 : n3 k3 ≡ n2 k3 = rw (bytes_equal_ne k2 k3 (λ e. d32 (sym e))) at (e3 k3) in
      (
        (λ same. ap n3 same ∙ omega (arith, a1, c2, f2, ap n1 same, le)),
        (λ other.
            let b2 : n1 k2 ≡ n0 k2 = rw (bytes_equal_ne k1 k2 other) at (e1 k2) in
            let f1 : n3 k1 ≡ n2 k1 = rw (bytes_equal_ne k2 k1 (λ e. other (sym e))) at (e3 k1) in
            (f1 ∙ c1 ∙ a1, omega (arith, f2, c2, b2))),
        omega (arith, f3, c3, a3),
        λ j x1 x3 x2.
            (rw (bytes_equal_ne k2 j x2) at (e3 j))
            ∙ (rw (bytes_equal_ne k3 j x3) at (e2 j))
            ∙ (rw (bytes_equal_ne k1 j x1) at (e1 j)),
      )

-- `updateBalance(f_sub, …)` and the two `updateBalance(f_add, …)` of `transferTransferNormal`, and
-- whatever runs after them.
module _ {S : Type 0} {c : Codec} {u : Uint256} {cells : Cells S} {P : S → Type 0}
    {view : S → Bytes → Bytes} (codec_laws : CodecLaws c) (laws : Uint256Laws u)
    (slots : CellLaws cells P view) where
  pub update_balance-thrice :
      (tick source spent : Bytes) (amount : ℕ) (s : S)
      → P s
      → let source_key = get_tick_pkscript_hash c tick source Keys.overall_balance_pkscript in
        let spent_key = get_tick_pkscript_hash c tick spent Keys.overall_balance_pkscript in
        let available_key = get_tick_pkscript_hash c tick spent Keys.available_balance_pkscript in
        let kv = slot_storage u cells in
        amount ≤ number u view s source_key
        → number u view s spent_key + amount < word_mod
        → number u view s available_key + amount < word_mod
        → (s' : S) × ((rest : M S (Unit {0}))
            → (update_balance c u kv (λ v. u.sub v amount) tick source Keys.overall_balance_pkscript
                  >> (update_balance c u kv
                        (λ v. u.add v amount)
                        tick
                        spent
                        Keys.available_balance_pkscript
                      >> (update_balance c u kv
                            (λ v. u.add v amount)
                            tick
                            spent
                            Keys.overall_balance_pkscript
                          >> rest)))
                s
              ≡ rest s')
          × P s'
          × (source_key ≡ spent_key → number u view s' source_key ≡ number u view s source_key)
          × (source_key ≢ spent_key
              → (number u view s' source_key ≡ number u view s source_key - amount)
                × (number u view s' spent_key ≡ number u view s spent_key + amount))
          × (number u view s' available_key ≡ number u view s available_key + amount)
          × ((j : Bytes)
              → source_key ≢ j
              → available_key ≢ j
              → spent_key ≢ j
              → number u view s' j ≡ number u view s j)
  update_balance-thrice tick source spent amount s h le fits_spent fits_available =
      let k1 = get_tick_pkscript_hash c tick source Keys.overall_balance_pkscript in
      let k2 = get_tick_pkscript_hash c tick spent Keys.overall_balance_pkscript in
      let k3 = get_tick_pkscript_hash c tick spent Keys.available_balance_pkscript in
      let d13 : k1 ≢ k3 =
        get_tick_pkscript_hash-ne codec_laws tick source tick spent 1 0 (omega arith) in
      let d32 : k3 ≢ k2 =
        get_tick_pkscript_hash-ne codec_laws tick spent tick spent 0 1 (omega arith) in
      let first =
        update_balance_lem codec_laws laws slots (λ v. u.sub v amount) tick source 1 s h in
      let second =
        update_balance_lem codec_laws laws slots (λ v. u.add v amount) tick spent 0 first.state
          first.holds.0 in
      let third =
        update_balance_lem codec_laws laws slots (λ v. u.add v amount) tick spent 1 second.state
          second.holds.0 in
      let n0 = number u view s in
      let n1 = number u view first.state in
      let n2 = number u view second.state in
      let n3 = number u view third.state in
      let sub_eq : u.sub (n0 k1) amount ≡ n0 k1 - amount =
        sub_small laws (n0 k1) amount (laws.set_bytes-lt _) le in
      let less : n0 k1 - amount < word_mod = omega (arith, laws.set_bytes-lt (view s k1)) in
      let e1 : (j : Bytes) → n1 j ≡ (if bytes_equal k1 j then n0 k1 - amount else n0 j) =
        number-written laws (view s) (view first.state) k1 (n0 k1 - amount) less
          (λ j. first.holds.1 j ∙ ap (λ n. written_number u (view s) k1 n j) sub_eq) in
      let a3 : n1 k3 ≡ n0 k3 =
        e1 k3 ∙ ap (λ b. if b then n0 k1 - amount else n0 k3) (bytes_equal_ne k1 k3 d13) in
      let e2 : (j : Bytes) → n2 j ≡ (if bytes_equal k3 j then n1 k3 + amount else n1 j) =
        number-written laws (view first.state) (view second.state) k3 (n1 k3 + amount)
          (omega (arith, a3))
          (λ j.
            second.holds.1 j
            ∙ ap (λ n. written_number u (view first.state) k3 n j)
                (add_small laws (n1 k3) amount (omega (arith, a3)))) in
      let c2 : n2 k2 ≡ n1 k2 =
        e2 k2 ∙ ap (λ b. if b then n1 k3 + amount else n1 k2) (bytes_equal_ne k3 k2 d32) in
      let b2 : n1 k2 ≤ n0 k2 = elim (Bool-cases (bytes_equal k1 k2)) [
        | inl t ↦ omega (
          arith,
          e1 k2 ∙ ap (λ b. if b then n0 k1 - amount else n0 k2) t,
          ap n0 ((bytes_equal_iff k1 k2).0 t),
        )
        | inr f ↦ omega (arith, e1 k2 ∙ ap (λ b. if b then n0 k1 - amount else n0 k2) f)
      ] in
      let e3 : (j : Bytes) → n3 j ≡ (if bytes_equal k2 j then n2 k2 + amount else n2 j) =
        number-written laws (view second.state) (view third.state) k2 (n2 k2 + amount)
          (omega (arith, c2, b2))
          (λ j.
            third.holds.1 j
            ∙ ap (λ n. written_number u (view second.state) k2 n j)
                (add_small laws (n2 k2) amount (omega (arith, c2, b2)))) in
      let w = three_writes laws n0 n1 n2 n3 k1 k2 k3 amount d13 d32 le e1 e2 e3 in
      (
        third.state,
        (λ rest. rw (first.eq, second.eq, third.eq) refl),
        third.holds.0,
        w.0,
        w.1,
        w.2,
        w.3,
      )

-- ===== src/Brc20/Supply.antt =====
-- The three numbers that `mintInscribe` of ord/stateless/brc20.go updates.
use modular_indexer_committe.Prelude.{
  ℕ, ◌+◌, ◌-◌, ◌<◌, ◌≤◌, ◌≡◌, ◌≢◌, refl, sym, ap, ◌∙◌, [], ◌∷◌, ◌++◌, arith, length, length-append,
  length-take, if◌then◌else◌, take,
}
use modular_indexer_committe.Bytes.{Bytes, bytes_equal, bytes_equal_refl, bytes_equal_ne, codes}
use modular_indexer_committe.Packages.{Uint256, Uint256Laws, Codec, CodecLaws, word_mod}
use modular_indexer_committe.Storage.{Cells, slot_storage}
use modular_indexer_committe.Storage.Laws.{CellLaws}
use modular_indexer_committe.Brc20.Keys
use modular_indexer_committe.Brc20.Keys.{stem_of, get_tick_pkscript_hash, get_tick_hash}
use modular_indexer_committe.Brc20.Ops.{update_tick_state, mint_inscribe, update_latest_pkscript}
use modular_indexer_committe.Brc20.Balances.{written_number, update_balance_lem, update_uint256_lem}
use modular_indexer_committe.Brc20.Move.{
  number, number-written, sub_small, add_small, last-injective, get_tick_pkscript_hash-ne,
}

pub length-get_tick_hash :
    {c : Codec} → CodecLaws c → (tick : Bytes) (loc : ℕ) → length (get_tick_hash c tick loc) ≡ 32
unfolding get_tick_hash stem_of
length-get_tick_hash {c} laws tick loc =
    let image = tick ++ codes "GetTickHash" in
    omega (
      arith,
      length-append (take 31 (c.keccak256 image)) (loc ∷ []),
      length-take 31 (c.keccak256 image),
      laws.length-keccak256 image,
    )

-- The suffix of an available balance is 0 and that of a remaining supply is 1.
available-ne-remaining :
    {c : Codec}
    → CodecLaws c
    → (tick pkscript : Bytes)
    → get_tick_pkscript_hash c tick pkscript 0 ≢ get_tick_hash c tick Keys.remaining_supply
unfolding get_tick_pkscript_hash get_tick_hash stem_of
available-ne-remaining {c} laws tick pkscript e =
    let i1 = (tick ++ pkscript) ++ codes "GetTickPkscriptHash" in
    let i2 = tick ++ codes "GetTickHash" in
    let other : ◌≡◌ {A = ℕ} 0 1 =
      last-injective (take 31 (c.keccak256 i1)) (take 31 (c.keccak256 i2)) 0 1
        (omega (
          arith,
          length-take 31 (c.keccak256 i1),
          length-take 31 (c.keccak256 i2),
          laws.length-keccak256 i1,
          laws.length-keccak256 i2,
        ))
        e in
    omega arith

-- Three writes at the different keys `k0`, `k1` and `k2`.
three_updates :
    (n0 n1 n2 n3 : Bytes → ℕ) (k0 k1 k2 : Bytes) (amount : ℕ)
    → k0 ≢ k1
    → k0 ≢ k2
    → k1 ≢ k2
    → ((j : Bytes) → n1 j ≡ (if bytes_equal k0 j then n0 k0 + amount else n0 j))
    → ((j : Bytes) → n2 j ≡ (if bytes_equal k1 j then n1 k1 + amount else n1 j))
    → ((j : Bytes) → n3 j ≡ (if bytes_equal k2 j then n2 k2 - amount else n2 j))
    → (n3 k0 ≡ n0 k0 + amount)
      × (n3 k1 ≡ n0 k1 + amount)
      × (n3 k2 ≡ n0 k2 - amount)
      × ((j : Bytes) → k0 ≢ j → k1 ≢ j → k2 ≢ j → n3 j ≡ n0 j)
three_updates n0 n1 n2 n3 k0 k1 k2 amount d01 d02 d12 e1 e2 e3 =
    let a0 : n1 k0 ≡ n0 k0 + amount = rw (bytes_equal_refl k0) at (e1 k0) in
    let a1 : n1 k1 ≡ n0 k1 = rw (bytes_equal_ne k0 k1 d01) at (e1 k1) in
    let a2 : n1 k2 ≡ n0 k2 = rw (bytes_equal_ne k0 k2 d02) at (e1 k2) in
    let b0 : n2 k0 ≡ n1 k0 = rw (bytes_equal_ne k1 k0 (λ e. d01 (sym e))) at (e2 k0) in
    let b1 : n2 k1 ≡ n1 k1 + amount = rw (bytes_equal_refl k1) at (e2 k1) in
    let b2 : n2 k2 ≡ n1 k2 = rw (bytes_equal_ne k1 k2 d12) at (e2 k2) in
    let c0 : n3 k0 ≡ n2 k0 = rw (bytes_equal_ne k2 k0 (λ e. d02 (sym e))) at (e3 k0) in
    let c1 : n3 k1 ≡ n2 k1 = rw (bytes_equal_ne k2 k1 (λ e. d12 (sym e))) at (e3 k1) in
    let c2 : n3 k2 ≡ n2 k2 - amount = rw (bytes_equal_refl k2) at (e3 k2) in
    (
      omega (arith, a0, b0, c0),
      omega (arith, a1, b1, c1),
      omega (arith, a2, b2, c2),
      λ j x0 x1 x2.
          (rw (bytes_equal_ne k2 j x2) at (e3 j))
          ∙ (rw (bytes_equal_ne k1 j x1) at (e2 j))
          ∙ (rw (bytes_equal_ne k0 j x0) at (e1 j)),
    )

module _ {S : Type 0} {c : Codec} {u : Uint256} {cells : Cells S} {P : S → Type 0}
    {view : S → Bytes → Bytes} (codec_laws : CodecLaws c) (laws : Uint256Laws u)
    (slots : CellLaws cells P view) where
  -- mintInscribe of an amount that the remaining supply covers and that overflows neither balance,
  -- over slots that keep their laws, where the keys of the overall balance and of the remaining
  -- supply do not collide, first ends without a panic in a state in which the available balance has
  -- grown by the amount, the sum of the overall balance and the remaining supply is as before, the
  -- remaining supply has fallen by the amount, and no other slot holds another number; from there
  -- it does updateLatestPkscript.
  pub mint_inscribe-numbers :
      (pkscript wallet tick : Bytes) (amount : ℕ) (s : S)
      → P s
      → let k0 = get_tick_pkscript_hash c tick pkscript Keys.available_balance_pkscript in
        let k1 = get_tick_pkscript_hash c tick pkscript Keys.overall_balance_pkscript in
        let k2 = get_tick_hash c tick Keys.remaining_supply in
        k1 ≢ k2
        → amount ≤ number u view s k2
        → number u view s k0 + amount < word_mod
        → number u view s k1 + amount < word_mod
        → (s' : S) × (mint_inscribe c u (slot_storage u cells) pkscript wallet tick amount s
            ≡ update_latest_pkscript c u (slot_storage u cells) wallet pkscript s')
          × P s'
          × (number u view s' k0 ≡ number u view s k0 + amount)
          × (number u view s' k1 + number u view s' k2 ≡ number u view s k1 + number u view s k2)
          × (number u view s' k2 ≡ number u view s k2 - amount)
          × ((j : Bytes) → k0 ≢ j → k1 ≢ j → k2 ≢ j → number u view s' j ≡ number u view s j)
  unfolding mint_inscribe update_tick_state
  mint_inscribe-numbers pkscript wallet tick amount s h d12 le fits0 fits1 =
      let k0 = get_tick_pkscript_hash c tick pkscript Keys.available_balance_pkscript in
      let k1 = get_tick_pkscript_hash c tick pkscript Keys.overall_balance_pkscript in
      let k2 = get_tick_hash c tick Keys.remaining_supply in
      let d02 : k0 ≢ k2 = available-ne-remaining codec_laws tick pkscript in
      let d01 : k0 ≢ k1 =
        get_tick_pkscript_hash-ne codec_laws tick pkscript tick pkscript 0 1 (omega arith) in
      let first =
        update_balance_lem codec_laws laws slots (λ v. u.add v amount) tick pkscript 0 s h in
      let second =
        update_balance_lem codec_laws laws slots (λ v. u.add v amount) tick pkscript 1 first.state
          first.holds.0 in
      let third =
        update_uint256_lem codec_laws laws slots (λ v. u.sub v amount) k2 second.state
          second.holds.0 (length-get_tick_hash codec_laws tick Keys.remaining_supply) in
      let n0 = number u view s in
      let n1 = number u view first.state in
      let n2 = number u view second.state in
      let n3 = number u view third.state in
      let e1 : (j : Bytes) → n1 j ≡ (if bytes_equal k0 j then n0 k0 + amount else n0 j) =
        number-written laws (view s) (view first.state) k0 (n0 k0 + amount) fits0 (λ j.
          first.holds.1 j
          ∙ ap (λ n. written_number u (view s) k0 n j) (add_small laws (n0 k0) amount fits0)) in
      let a1 : n1 k1 ≡ n0 k1 = rw (bytes_equal_ne k0 k1 d01) at (e1 k1) in
      let a2 : n1 k2 ≡ n0 k2 = rw (bytes_equal_ne k0 k2 d02) at (e1 k2) in
      let e2 : (j : Bytes) → n2 j ≡ (if bytes_equal k1 j then n1 k1 + amount else n1 j) =
        number-written laws (view first.state) (view second.state) k1 (n1 k1 + amount)
          (omega (arith, a1, fits1))
          (λ j.
            second.holds.1 j
            ∙ ap (λ n. written_number u (view first.state) k1 n j)
                (add_small laws (n1 k1) amount (omega (arith, a1, fits1)))) in
      let b2 : n2 k2 ≡ n1 k2 = rw (bytes_equal_ne k1 k2 d12) at (e2 k2) in
      let e3 : (j : Bytes) → n3 j ≡ (if bytes_equal k2 j then n2 k2 - amount else n2 j) =
        number-written laws (view second.state) (view third.state) k2 (n2 k2 - amount)
          (omega (arith, laws.set_bytes-lt (view second.state k2)))
          (λ j.
            third.holds.1 j
            ∙ ap (λ n. written_number u (view second.state) k2 n j)
                (sub_small laws (n2 k2) amount (laws.set_bytes-lt _)
                  (omega (arith, a2, b2, le)))) in
      let w = three_updates n0 n1 n2 n3 k0 k1 k2 amount d01 d02 d12 e1 e2 e3 in
      (
        third.state,
        rw (first.eq, second.eq, third.eq) refl,
        third.holds.0,
        w.0,
        omega (arith, w.1, w.2, le),
        w.2,
        w.3,
      )

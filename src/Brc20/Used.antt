-- ===== src/Brc20/Used.antt =====
-- The moves that `Exec` of ord/stateless/brc20.go does not follow: of an inscription that is used.
use modular_indexer_committe.Prelude.{
  ℕ, ◌≡◌, ◌≢◌, refl, sym, subst, ap, ◌∙◌, true, not, ◌||◌, ◌==◌, Option, none, some, length, ==_ne,
  ==_iff, Bool-cases, inl, inr,
}
use modular_indexer_committe.Prelude.Outcome.{done}
use modular_indexer_committe.Prelude.Outcome.Keeps.{Keeps, keeps_rules}
use modular_indexer_committe.Bytes.{Bytes, codes}
use modular_indexer_committe.KeyMap.{KeyMap}
use modular_indexer_committe.OrdGetter.{OrdTransfer}
use modular_indexer_committe.Packages.{Uint256, Uint256Laws, Codec, CodecLaws}
use modular_indexer_committe.Storage.{Cells, slot_storage, key_size, get_uint256}
use modular_indexer_committe.Storage.Laws.{CellLaws}
use modular_indexer_committe.Storage.Invariant.{get_uint256-keeps}
use modular_indexer_committe.Header.Access.{state_eq}
use modular_indexer_committe.Brc20.Keys
use modular_indexer_committe.Brc20.Keys.{get_event_hash}
use modular_indexer_committe.Brc20.Ops.{is_used_or_invalid}
use modular_indexer_committe.Brc20.Exec.{
  member, exec_transfer, move_transfer, transfer_amount, transfer_text,
}
use modular_indexer_committe.Brc20.Balances.{length-get_event_hash}
use modular_indexer_committe.Brc20.Move.{number}
use modular_indexer_committe.Brc20.Transfer.{get-quiet}

used_true : (a b : ℕ) → (a ≡ 1 → b ≢ 0) → (not (a == 1) || not (b == 0)) ≡ true
used_true a b used = elim (Bool-cases (a == 1)) [
  | inl t ↦ rw (t, ==_ne b 0 (used ((==_iff a 1).0 t))) refl
  | inr f ↦ rw f refl
]

module _ {S : Type 0} {c : Codec} {u : Uint256} {cells : Cells S} {P : S → Type 0}
    {view : S → Bytes → Bytes} (codec_laws : CodecLaws c) (laws : Uint256Laws u)
    (slots : CellLaws cells P view)
    (sized : (k : Bytes) (s : S) (a : Bytes) (s' : S)
      → cells.get k s ≡ done (a, s')
      → length k ≡ key_size)
    (ot : OrdTransfer) (s0 : S) (moved : length ot.old_satpoint ≢ 0)
    (used : number u view s0 (get_event_hash c ot.inscription_id Keys.transfer_inscribe_count) ≡ 1
      → number u view s0 (get_event_hash c ot.inscription_id Keys.transfer_transfer_count)
        ≢ 0) where
  abbrev Quiet : S → Type 0
  Quiet s = P s × ((j : Bytes) → view s j ≡ view s0 j)

  move_transfer-Quiet :
      (tick : Bytes) (amount : ℕ)
      → Keeps Quiet (move_transfer c u (slot_storage u cells) ot tick amount)
  unfolding is_used_or_invalid slot_storage get_uint256
  move_transfer-Quiet tick amount = record {
    at = λ s a s' h e.
        let k0 = get_event_hash c ot.inscription_id 0 in
        let k1 = get_event_hash c ot.inscription_id 1 in
        let r0 = slots.get_lem k0 s h.0 (length-get_event_hash codec_laws ot.inscription_id 0) in
        let r1 =
          slots.get_lem k1 r0.state r0.holds.0
            (length-get_event_hash codec_laws ot.inscription_id 1) in
        let n0 : u.set_bytes r0.value ≡ number u view s0 k0 =
          ap u.set_bytes (r0.holds.1 ∙ h.1 k0) in
        let n1 : u.set_bytes r1.value ≡ number u view s0 k1 =
          ap u.set_bytes (r1.holds.1 ∙ r0.holds.2 k1 ∙ h.1 k1) in
        let yes =
          used_true (u.set_bytes r0.value) (u.set_bytes r1.value)
            (λ one zero. used (sym n0 ∙ one) (sym n1 ∙ zero)) in
        subst Quiet (state_eq (rw (r0.eq, r1.eq, yes) at e))
          (r1.holds.0, λ j. r1.holds.2 j ∙ r0.holds.2 j ∙ h.1 j);
  }

  transfer_amount-Quiet :
      (tick : Bytes) (o : Option ℕ)
      → Keeps Quiet (transfer_amount c u (slot_storage u cells) ot tick o)
  transfer_amount-Quiet tick none = search keeps_rules
  transfer_amount-Quiet tick (some amount) =
      rw (==_ne (length ot.old_satpoint) 0 moved) (move_transfer-Quiet tick amount)

  transfer_text-Quiet :
      (tick : Bytes) (o : Option Bytes)
      → Keeps Quiet (transfer_text c u (slot_storage u cells) ot tick o)
  unfolding slot_storage
  transfer_text-Quiet tick none = search keeps_rules
  transfer_text-Quiet tick (some text) =
      search
        (
          keeps_rules,
          transfer_amount-Quiet,
          get_uint256-keeps u cells (get-quiet codec_laws laws slots sized s0),
        )
        depth 10

  -- A transfer that Exec handles, of an inscription that moves and that was not inscribed as a
  -- transfer exactly once or that has been transferred before, over slots that keep their laws and
  -- whose reads end only at keys of 32 bytes, changes no slot, where it does not panic, and keeps
  -- the predicate of the slots.
  pub exec_transfer-used :
      (js : KeyMap Bytes) (tick : Bytes) (s' : S)
      → P s0
      → exec_transfer c u (slot_storage u cells) js ot tick s0 ≡ done (tt, s')
      → P s' × ((j : Bytes) → view s' j ≡ view s0 j)
  unfolding exec_transfer
  exec_transfer-used js tick s' h e =
      (transfer_text-Quiet tick (member js (codes "amt"))).at s0 tt s' (h, λ j. refl) e

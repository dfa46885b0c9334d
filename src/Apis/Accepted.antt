-- ===== src/Apis/Accepted.antt =====
-- The answer of `GetCurrentBalanceOfPkscript`, checked by `VerifyCurrentBalanceOfPkscript`.
use modular_indexer_committe.Apis.Stem.{IsComplete, parse_state_diff-two}
use modular_indexer_committe.Prelude.{
  ℕ, ◌<◌, ◌≡◌, refl, ap, ◌∙◌, true, none, some, List, [], ◌∷◌, ◌++◌, arith, length, length-append,
}
use modular_indexer_committe.Prelude.Outcome.{Result, ok, done}
use modular_indexer_committe.Bytes.{Bytes}
use modular_indexer_committe.KeyMap.{lookup}
use modular_indexer_committe.Packages.{word_mod, Verkle, Uint256, Uint256Laws, Codec, CodecLaws}
use modular_indexer_committe.Storage.{get_uint256, slot_storage}
use modular_indexer_committe.Header.{Header, header_cells}
use modular_indexer_committe.Header.Valid.{IsValid, header_view, or_empty}
use modular_indexer_committe.Header.Access.{read, read-IsValid, get_eq}
use modular_indexer_committe.Brc20.Keys.{
  get_tick_pkscript_hash, stem_of, tick_pkscript_image, available_balance_pkscript,
  overall_balance_pkscript,
}
use modular_indexer_committe.Brc20.Ops.{get_balances}
use modular_indexer_committe.Brc20.Balances.{length-get_tick_pkscript_hash}
use modular_indexer_committe.Queue.{Proof}
use modular_indexer_committe.Apis.{
  Base64, Base64Laws, SuffixStateDiff, StemStateDiff, ProofPackage, ProofPackageLaws,
  PkscriptResult, Response,
}
use modular_indexer_committe.Apis.Diff.{parse_state_diff}
use modular_indexer_committe.Apis.Balance.{
  get_all_balances, respond, final_proof, get_current_balance_of_pkscript, parse_balance,
  parse_proof, verify_current_balance_of_pkscript,
}

module _ {Node V : Type 0} {t : Verkle Node} {IsFull : Node → Type 0} {c : Codec}
    (codec : CodecLaws c) {u : Uint256} (words : Uint256Laws u) {base64 : Base64}
    (texts : Base64Laws base64) {pk : ProofPackage Node V} (json : ProofPackageLaws pk)
    (complete : IsComplete t IsFull pk) where
  read_balance :
      (h : Header Node) (key : Bytes) (n : ℕ)
      → IsValid t IsFull h
      → length key ≡ 32
      → n < word_mod
      → header_view h key ≡ u.write_to_array32 n
      → get_uint256 u (header_cells t) key h ≡ done (n, read key h)
  unfolding get_uint256 header_cells
  read_balance h key n v hk small at =
      rw (get_eq t IsFull key h v hk, at, words.set_bytes-write_to_array32 n small) refl

  view-idle :
      (h : Header Node) (k w : Bytes)
      → h.intermediate_kv ≡ []
      → lookup k h.kv ≡ some w
      → header_view h k ≡ w
  unfolding header_view lookup
  view-idle h k w idle at = rw (idle, at) refl

  -- The two keys of a balance have one stem.
  balance_stem :
      (tick pkscript : Bytes)
      → (stem : Bytes) × (length stem ≡ 31)
        × ((loc : ℕ) → get_tick_pkscript_hash c tick pkscript loc ≡ stem ++ loc ∷ [])
  unfolding get_tick_pkscript_hash
  balance_stem tick pkscript =
      let stem = stem_of c (tick_pkscript_image tick pkscript) in
      (
        stem,
        omega (
          arith,
          length-append stem (0 ∷ []),
          length-get_tick_pkscript_hash codec tick pkscript 0,
        ),
        λ loc. refl,
      )

  answer :
      (string : ℕ → Bytes) (tick pkscript : Bytes) (h : Header Node) (available overall : ℕ)
      (text : Result Bytes)
      → (let k0 = get_tick_pkscript_hash c tick pkscript available_balance_pkscript in
          let k1 = get_tick_pkscript_hash c tick pkscript overall_balance_pkscript in
          (get_uint256 u (header_cells t) k0 h ≡ done (available, read k0 h))
            × (get_uint256 u (header_cells t) k1 (read k0 h) ≡ done (overall, read k1 (read k0 h)))
            × (final_proof t c u base64 pk h.root (k0 ∷ k1 ∷ []) ≡ text)
          → get_current_balance_of_pkscript t c u base64 pk string tick pkscript h
            ≡ done (
              respond t c u base64 pk
                  (record {
                    available_balance = string available;
                    overall_balance = string overall;
                  })
                  text,
              read k1 (read k0 h),
            ))
  unfolding get_current_balance_of_pkscript get_all_balances get_balances slot_storage
  answer string tick pkscript h available overall text (first, second, proved) =
      rw (first, second, proved) refl

  proved_text :
      (root : Node) (keys : List Bytes) (proof : Proof) (v : V) (ds : List StemStateDiff)
      (b : Bytes)
      → pk.make_verkle_multi_proof root keys ≡ ok proof
      → pk.serialize_proof proof ≡ ok (v, ds)
      → pk.marshal_proof v ≡ ok b
      → final_proof t c u base64 pk root keys ≡ ok (base64.encode b)
  unfolding final_proof
  proved_text root keys proof v ds b made serialized marshalled =
      rw (made, serialized, marshalled) refl

  checked :
      (tick pkscript root_c sa so b : Bytes) (available overall : ℕ) (v : V)
      (diffs : List StemStateDiff) (proof : Proof) (pre : Node)
      → u.from_decimal sa ≡ some available
      → u.from_decimal so ≡ some overall
      → pk.unmarshal_proof b ≡ (v, none)
      → parse_state_diff
          (get_tick_pkscript_hash c tick pkscript available_balance_pkscript
            ∷ get_tick_pkscript_hash c tick pkscript overall_balance_pkscript
            ∷ [])
          (u.write_to_array32 available ∷ u.write_to_array32 overall ∷ [])
          ([] ∷ [] ∷ [])
          []
        ≡ done diffs
      → pk.deserialize_proof v diffs ≡ ok proof
      → pk.pre_state_tree_from_proof proof root_c ≡ ok pre
      → pk.verify_with_pre_state proof pre ≡ none
      → verify_current_balance_of_pkscript t c u base64 pk root_c tick pkscript (record {
        error = none;
        result = some (record { available_balance = sa; overall_balance = so });
        proof = some (base64.encode b);
      })
        ≡ done true
  unfolding verify_current_balance_of_pkscript parse_balance parse_proof
  checked tick pkscript root_c sa so b available overall v diffs proof pre ra ro read_back parsed
        deserialized tree verified =
      rw (ra, ro, texts.decode-encode b, read_back, parsed, deserialized, tree, verified) refl

  -- GetCurrentBalanceOfPkscript on a valid header with nothing pending, whose tree has both
  -- balances of the key as words and whose proof is made, serialized and marshalled without an
  -- error, answers with status 200 and the balances and leaves a header that differs only in the
  -- accesses of the two reads, and VerifyCurrentBalanceOfPkscript accepts the answer against the
  -- commitment of the tree. The packages keep their laws, a proof for a stem is accepted with the
  -- values of its tree, and a printed balance is read back.
  pub verify_current_balance-get_current_balance :
      (string : ℕ → Bytes) (tick pkscript : Bytes) (h : Header Node) (available overall : ℕ)
      (proof : Proof) (v : V) (ds : List StemStateDiff) (b : Bytes)
      → ((n : ℕ) → n < word_mod → u.from_decimal (string n) ≡ some n)
      → IsValid t IsFull h
      → h.intermediate_kv ≡ []
      → available < word_mod
      → overall < word_mod
      → lookup (get_tick_pkscript_hash c tick pkscript available_balance_pkscript) h.kv
        ≡ some (u.write_to_array32 available)
      → lookup (get_tick_pkscript_hash c tick pkscript overall_balance_pkscript) h.kv
        ≡ some (u.write_to_array32 overall)
      → pk.make_verkle_multi_proof h.root (
          get_tick_pkscript_hash c tick pkscript available_balance_pkscript
          ∷ get_tick_pkscript_hash c tick pkscript overall_balance_pkscript
          ∷ [])
        ≡ ok proof
      → pk.serialize_proof proof ≡ ok (v, ds)
      → pk.marshal_proof v ≡ ok b
      → let result : PkscriptResult = record {
        available_balance = string available;
        overall_balance = string overall;
      } in
        let resp : Response PkscriptResult = record {
          error = none;
          result = some result;
          proof = some (base64.encode b);
        } in
        let k0 = get_tick_pkscript_hash c tick pkscript available_balance_pkscript in
        let k1 = get_tick_pkscript_hash c tick pkscript overall_balance_pkscript in
        (get_current_balance_of_pkscript t c u base64 pk string tick pkscript h
          ≡ done ((200, resp), read k1 (read k0 h)))
        × (verify_current_balance_of_pkscript t c u base64 pk (t.commit h.root) tick pkscript resp
            ≡ done true)
  verify_current_balance-get_current_balance string tick pkscript h available overall proof v ds b
        reads valid idle small0 small1 at0 at1 made serialized marshalled =
      let k0 = get_tick_pkscript_hash c tick pkscript available_balance_pkscript in
      let k1 = get_tick_pkscript_hash c tick pkscript overall_balance_pkscript in
      let wa = u.write_to_array32 available in
      let wo = u.write_to_array32 overall in
      let (stem, long, same) = balance_stem tick pkscript in
      let da : SuffixStateDiff = record { suffix = 0; current_value = some wa; new_value = none } in
      let d_o : SuffixStateDiff = record {
        suffix = 1;
        current_value = some wo;
        new_value = none;
      } in
      let in_tree : (k w : Bytes) → lookup k h.kv ≡ some w → t.get h.root k ≡ ok w =
        λ k w at. valid.consistent k ∙ ap (λ o. ok (or_empty o)) at in
      let accepted =
        complete.accepts h.root stem (da ∷ d_o ∷ []) proof v ds valid.full long
          (
            record {
              value = wa;
              current = refl;
              no_new = refl;
              in_tree = rw (← same 0) (in_tree k0 wa at0);
            },
            (
              record {
                value = wo;
                current = refl;
                no_new = refl;
                in_tree = rw (← same 1) (in_tree k1 wo at1);
              },
              tt,
            ),
          )
          (rw (← same 0, ← same 1) made) serialized in
      let parsed : parse_state_diff (k0 ∷ k1 ∷ []) (wa ∷ wo ∷ []) ([] ∷ [] ∷ []) []
          ≡ done (record { stem = stem; suffix_diffs = da ∷ d_o ∷ [] } ∷ []) =
        rw (same 0, same 1)
          (parse_state_diff-two stem wa wo long (words.length-write_to_array32 available)
            (words.length-write_to_array32 overall)) in
      (
        answer string tick pkscript h available overall (ok (base64.encode b)) (
          read_balance h k0 available valid (length-get_tick_pkscript_hash codec tick pkscript 0)
              small0 (view-idle h k0 wa idle at0),
          read_balance (read k0 h) k1 overall (read-IsValid t IsFull k0 h valid)
              (length-get_tick_pkscript_hash codec tick pkscript 1) small1
              (view-idle (read k0 h) k1 wo idle at1),
          proved_text h.root (k0 ∷ k1 ∷ []) proof v ds b made serialized marshalled,
        ),
        checked tick pkscript (t.commit h.root) (string available) (string overall) b available
            overall v (record { stem = stem; suffix_diffs = da ∷ d_o ∷ [] } ∷ []) accepted.0
            accepted.2.0 (reads available small0) (reads overall small1)
            (json.unmarshal-marshal_proof v b marshalled) parsed accepted.1 accepted.2.1
            accepted.2.2,
      )

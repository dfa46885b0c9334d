-- ===== src/Apis.antt =====
-- apis: what the committee answers to its clients, and how a client checks it. Here the types of
-- apis/types.go, and the packages for base64, JSON and proofs as parameters.
pub mod Diff
pub mod Balance
pub mod Latest
pub mod Replay
pub mod Stem
pub mod Accepted
pub mod Client
use modular_indexer_committe.Prelude.{ℕ, ◌≡◌, Bool, Option, none, some, List}
use modular_indexer_committe.Prelude.Outcome.{Result, ok}
use modular_indexer_committe.Bytes.{Bytes}
use modular_indexer_committe.Queue.{Proof}

-- `base64.StdEncoding`: `DecodeString` gives what it decoded, and the error.
pub record Base64 : Type 0 where
  pub encode : Bytes → Bytes
  pub decode : Bytes → Bytes × Option Bytes

pub record Base64Laws (base64 : Base64) : Type 0 where
  pub decode-encode : (b : Bytes) → base64.decode (base64.encode b) ≡ (b, none)

-- `verkle.SuffixStateDiff` and `verkle.StemStateDiff`
pub record SuffixStateDiff : Type 0 where
  pub suffix : ℕ
  pub current_value : Option Bytes
  pub new_value : Option Bytes

pub record StemStateDiff : Type 0 where
  pub stem : Bytes
  pub suffix_diffs : List SuffixStateDiff

-- The functions of go-verkle on proofs; `V` is `verkle.VerkleProof`. Where JSON is not read, what
-- was filled in is beside the error.
pub record ProofPackage (Node V : Type 0) : Type 0 where
  pub make_verkle_multi_proof : Node → List Bytes → Result Proof
  pub serialize_proof : Proof → Result (V × List StemStateDiff)
  pub marshal_proof : V → Result Bytes
  pub unmarshal_proof : Bytes → V × Option Bytes
  pub marshal_diff : StemStateDiff → Result Bytes
  pub unmarshal_diff : Bytes → StemStateDiff × Option Bytes
  pub deserialize_proof : V → List StemStateDiff → Result Proof
  pub pre_state_tree_from_proof : Proof → Bytes → Result Node
  pub verify_with_pre_state : Proof → Node → Option Bytes
  pub new_stateless_internal : Bytes → Node

-- What is marshalled is unmarshalled.
pub record ProofPackageLaws {Node V : Type 0} (pk : ProofPackage Node V) : Type 0 where
  pub unmarshal-marshal_proof :
      (v : V) (b : Bytes) → pk.marshal_proof v ≡ ok b → pk.unmarshal_proof b ≡ (v, none)
  pub unmarshal-marshal_diff :
      (d : StemStateDiff) (b : Bytes) → pk.marshal_diff d ≡ ok b → pk.unmarshal_diff b ≡ (d, none)

-- The fields of a transfer without its block height and its parent.
pub record OrdTransferJson : Type 0 where
  pub id : ℕ
  pub inscription_id : Bytes
  pub old_satpoint : Bytes
  pub new_satpoint : Bytes
  pub new_pkscript : Bytes
  pub new_wallet : Bytes
  pub sent_as_fee : Bool
  pub content : Bytes
  pub content_type : Bytes

pub record LatestStateProofResult : Type 0 where
  pub state_diff : List Bytes
  pub ord_transfers : List OrdTransferJson

pub record WalletResult : Type 0 where
  pub available_balance : Bytes
  pub overall_balance : Bytes
  pub pkscript : Bytes

pub record PkscriptResult : Type 0 where
  pub available_balance : Bytes
  pub overall_balance : Bytes

-- The three response types, which differ in the result.
pub record Response (R : Type 0) : Type 0 where
  pub error : Option Bytes
  pub result : Option R
  pub proof : Option Bytes

abbrev pub failed : {R : Type 0} → Bytes → Response R
failed e = record { error = some e; result = none; proof = none }

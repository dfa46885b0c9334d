-- ===== src/Checkpoint/Upload.antt =====
-- The part of `ServiceStage` of main.go that reports checkpoints. An upload that fails is only logged, and
-- is recorded as one that succeeded.
use modular_indexer_committe.Prelude.{
  ◌≡◌, refl, sym, ap, subst, Bool, true, false, ◌||◌, Bool-cases, inl, inr, Option, none, some,
  List, [], ◌∷◌, ◌++◌, All, if◌then◌else◌,
}
use modular_indexer_committe.Bytes.{Bytes, codes, bytes_equal, bytes_equal_refl}
use modular_indexer_committe.Bytes.Decimal.{format_uint}
use modular_indexer_committe.KeyMap.{KeyMap, lookup, insert, lookup-insert}
use modular_indexer_committe.Packages.{Verkle}
use modular_indexer_committe.Queue.{DiffState, Queue}
use modular_indexer_committe.Checkpoint.{
  IndexerIdentification, Checkpoint, UploadRecord, new_checkpoint,
}

-- `fmt.Sprintf("%d", i.Height) + i.Hash`
unfoldable pub record_key : DiffState → Bytes
record_key diff = format_uint diff.height ++ diff.hash

-- `found && curRecord.Success`
abbrev pub is_uploaded : Option UploadRecord → Bool
is_uploaded none = false
is_uploaded (some r) = r.success

abbrev pub uploaded : UploadRecord
uploaded = record { success = true }

-- The two methods that upload; any other one does nothing.
abbrev pub attempt : Bytes → Checkpoint → List Checkpoint → List Checkpoint
attempt method checkpoint more =
    if bytes_equal method (codes "S3") || bytes_equal method (codes "DA")
    then checkpoint ∷ more
    else more

-- The loop over `hs`: the records, and the checkpoints that it tried to upload, the first one first.
unfoldable pub report :
    Bytes
    → IndexerIdentification
    → (Bytes → Bytes)
    → KeyMap UploadRecord
    → List DiffState
    → KeyMap UploadRecord × List Checkpoint
unfolding record_key
report method id base64 history [] = (history, [])
report method id base64 history (diff ∷ rest) =
    let key = record_key diff in
    let old = report method id base64 history rest in
    let (records, more) = report method id base64 (insert key uploaded history) rest in
    if is_uploaded (lookup key history) then old else (
      records,
      attempt method (new_checkpoint id diff.height diff.hash (base64 diff.verkle_commit)) more,
    )

module _ {Node : Type 0} (t : Verkle Node) where
  -- `hs`: the history, and the latest block.
  unfoldable pub reported : Queue Node → List DiffState
  reported q =
      q.history
      ++ record {
        height = q.header.height;
        hash = q.header.hash;
        verkle_commit = t.commit q.header.root;
        access = [];
      }
        ∷ []

IsUploaded : KeyMap UploadRecord → DiffState → Type 0
IsUploaded history diff = is_uploaded (lookup (record_key diff) history) ≡ true

-- A record is never lost.
report-keeps :
    (method : Bytes) (id : IndexerIdentification) (base64 : Bytes → Bytes)
    (history : KeyMap UploadRecord) (ds : List DiffState) (key : Bytes)
    → is_uploaded (lookup key history) ≡ true
    → is_uploaded (lookup key (report method id base64 history ds).0) ≡ true
unfolding report
report-keeps method id base64 history [] key h = h
report-keeps method id base64 history (diff ∷ ds) key h =
    elim (Bool-cases (is_uploaded (lookup (record_key diff) history))) [
      | inl t ↦ rw t (report-keeps method id base64 history ds key h)
      | inr f ↦ rw f (
          report-keeps method id base64 (insert (record_key diff) uploaded history) ds key
            (elim (Bool-cases (bytes_equal (record_key diff) key)) [
              | inl same ↦ rw (lookup-insert (record_key diff) key uploaded history, same) refl
              | inr other ↦ rw (lookup-insert (record_key diff) key uploaded history, other) h
            ]))
    ]

report-old :
    (method : Bytes) (id : IndexerIdentification) (base64 : Bytes → Bytes)
    (history : KeyMap UploadRecord) (diff : DiffState) (ds : List DiffState)
    → IsUploaded history diff
    → report method id base64 history (diff ∷ ds) ≡ report method id base64 history ds
unfolding report IsUploaded
report-old method id base64 history diff ds t = rw t refl

report-new :
    (method : Bytes) (id : IndexerIdentification) (base64 : Bytes → Bytes)
    (history : KeyMap UploadRecord) (diff : DiffState) (ds : List DiffState)
    → is_uploaded (lookup (record_key diff) history) ≡ false
    → (report method id base64 history (diff ∷ ds)).0
      ≡ (report method id base64 (insert (record_key diff) uploaded history) ds).0
unfolding report
report-new method id base64 history diff ds f = rw f refl

insert-IsUploaded :
    (history : KeyMap UploadRecord) (diff : DiffState)
    → IsUploaded (insert (record_key diff) uploaded history) diff
unfolding IsUploaded
insert-IsUploaded history diff =
    rw
      (
        lookup-insert (record_key diff) (record_key diff) uploaded history,
        bytes_equal_refl (record_key diff),
      )
      refl

report-IsUploaded :
    (method : Bytes) (id : IndexerIdentification) (base64 : Bytes → Bytes)
    (history : KeyMap UploadRecord) (ds : List DiffState)
    → All (IsUploaded (report method id base64 history ds).0) ds
unfolding IsUploaded
report-IsUploaded method id base64 history [] = tt
report-IsUploaded method id base64 history (diff ∷ ds) =
    elim (Bool-cases (is_uploaded (lookup (record_key diff) history))) [
      | inl t ↦
          subst (λ r. All (IsUploaded r) (diff ∷ ds))
            (sym (ap (λ r. r.0) (report-old method id base64 history diff ds t)))
            (
              report-keeps method id base64 history ds (record_key diff) t,
              report-IsUploaded method id base64 history ds,
            )
      | inr f ↦
          let history' = insert (record_key diff) uploaded history in
          subst (λ r. All (IsUploaded r) (diff ∷ ds))
            (sym (report-new method id base64 history diff ds f))
            (
              report-keeps method id base64 history' ds (record_key diff)
                  (insert-IsUploaded history diff),
              report-IsUploaded method id base64 history' ds,
            )
    ]

report-again :
    (method : Bytes) (id : IndexerIdentification) (base64 : Bytes → Bytes)
    (history : KeyMap UploadRecord) (ds : List DiffState)
    → All (IsUploaded history) ds
    → report method id base64 history ds ≡ (history, [])
unfolding report IsUploaded
report-again method id base64 history [] h = refl
report-again method id base64 history (diff ∷ ds) h =
    rw h.0 (report-again method id base64 history ds h.1)

-- A service round that reports its checkpoints records each of them as uploaded, and a second
-- report of the same ones with these records uploads nothing and leaves the records as they are.
pub report-report :
    (method : Bytes) (id : IndexerIdentification) (base64 : Bytes → Bytes)
    (history : KeyMap UploadRecord) (ds : List DiffState)
    → let records = (report method id base64 history ds).0 in
      All (λ diff. is_uploaded (lookup (record_key diff) records) ≡ true) ds
      × (report method id base64 records ds ≡ (records, []))
unfolding IsUploaded
report-report method id base64 history ds = (
  report-IsUploaded method id base64 history ds,
  report-again method id base64 (report method id base64 history ds).0 ds
      (report-IsUploaded method id base64 history ds),
)

-- ===== src/Tests/Reports.antt =====
-- The reports of a service round, on a history with two entries.
use modular_indexer_committe.Prelude.{◌≡◌, true, List, [], ◌∷◌, All}
use modular_indexer_committe.Bytes.{codes}
use modular_indexer_committe.KeyMap.{lookup}
use modular_indexer_committe.Queue.{DiffState}
use modular_indexer_committe.Checkpoint.{IndexerIdentification}
use modular_indexer_committe.Checkpoint.Upload.{record_key, is_uploaded, report, report-report}

abbrev me : IndexerIdentification
me = record {
  url = codes "url";
  name = codes "name";
  version = codes "1";
  meta_protocol = codes "brc-20";
}

abbrev two : List DiffState
two =
    record { height = 9; hash = codes "aa"; verkle_commit = []; access = [] }
    ∷ record { height = 10; hash = codes "bb"; verkle_commit = []; access = [] }
    ∷ []

report-report_example :
    let records = (report (codes "S3") me (λ b. b) [] two).0 in
    All (λ diff. is_uploaded (lookup (record_key diff) records) ≡ true) two
    × (report (codes "S3") me (λ b. b) records two ≡ (records, []))
report-report_example = report-report (codes "S3") me (λ b. b) [] two

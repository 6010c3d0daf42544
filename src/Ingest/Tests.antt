-- ===== src/Ingest/Tests.antt =====
-- The ingestion of a small archive.
use darknetra.Prelude.{
  ◌≡◌, refl, ok, err, not_found, List, [], ◌∷◌, ◌+◌, ℕ, true, false, Option, none, some, codes, map,
  from_ok, any, ◌==◌, if◌then◌else◌,
}
use darknetra.Samples.{case_one}
use darknetra.Records.{EvidenceStatus}
use darknetra.Policy.Engine.{SourceClass}
use darknetra.Archives.{safe_members}
use darknetra.Vault.{Bytes, read, commit, put_bytes}
use darknetra.Ingest.Rows.{Kind, uploaded, Outside, Packed, Sniffed, Shelf}
use darknetra.Ingest.Sniffing.{quarantine_reason, reason_for}
use darknetra.Ingest.Process.{process_evidence}
use darknetra.Ingest.Receive.{Request, Receipt, store_new, ingest_with, ingest_bytes}
use darknetra.Ingest.Depth.{ingest_bytes-two_levels}
use darknetra.Ingest.Sound.{IsSound}
use darknetra.Ingest.Growth.{Grows, identity}
use darknetra.Ingest.Integrity.{is_kept, ingest_bytes-IsSound, ingest_bytes-Grows}

abbrev digest : Bytes → ℕ
digest [] = 0
digest (b ∷ content) = b + digest content

-- Bytes that begin with 80 are an archive of the two entries that are meant here.
abbrev sniff : Bytes → List ℕ → Sniffed
sniff [] filename = record { kind = Kind.plain; ext_mismatch = false; unsafe_reason = none }
sniff (b ∷ content) filename = record {
  kind = if b == 80 then Kind.zip else Kind.plain;
  ext_mismatch = false;
  unsafe_reason = none;
}

abbrev entry : Bytes → Packed
entry content = record {
  member = record {
    filename = codes "a.txt";
    external_attr = 0;
    flag_bits = 0;
    file_size = 2;
    compress_size = 2;
  };
  is_dir = false;
  content = content;
}

abbrev outside : Outside
outside = record {
  max_upload_bytes = 100;
  max_zip_bytes = 100;
  sha256 = digest;
  sniff = sniff;
  unzip = λ content. some (entry (1 ∷ []) ∷ entry (80 ∷ 3 ∷ []) ∷ entry (1 ∷ []) ∷ []);
  responses = λ content. [];
  parse = λ content kind filename. some (record { documents = (0, content) ∷ []; warnings = [] });
  response_name = λ n. n ∷ [];
  now = 7;
}

abbrev shelf : Shelf
shelf = record {
  cases = case_one ∷ [];
  originals = [];
  counters = [];
  custody = [];
  derivatives = [];
  vault = [];
  trail = [];
  fresh = 1;
}

abbrev upload : Bytes → Option ℕ → Request
upload content parent_id = record {
  case_id = 1;
  content = content;
  filename = codes "b.zip";
  source_class = SourceClass.upload;
  origin = uploaded;
  parent_id = parent_id;
  defer_processing = false;
}

abbrev nothing : Receipt × Shelf
nothing = (record { evidence_id = 0; duplicate = true; warnings = [] }, shelf)

ingested_archive : Receipt × Shelf
unfolding ingest_bytes ingest_with store_new process_evidence reason_for quarantine_reason put_bytes
    commit read safe_members
ingested_archive = from_ok nothing (ingest_bytes 2 outside (upload (80 ∷ 1 ∷ []) none) shelf)

archive-ok : ingest_bytes 2 outside (upload (80 ∷ 1 ∷ []) none) shelf ≡ ok ingested_archive
unfolding ingested_archive
archive-ok = refl

-- The archive, its text and the archive in it, which is quarantined; the second copy of the text adds
-- no row.
archive-statuses :
    map (λ e. e.row.status) ingested_archive.1.originals
    ≡ EvidenceStatus.ready ∷ EvidenceStatus.ready ∷ EvidenceStatus.quarantined ∷ []
unfolding ingested_archive
archive-statuses = refl

archive-codes : map (λ e. e.row.code) ingested_archive.1.originals ≡ 1 ∷ 2 ∷ 3 ∷ []
unfolding ingested_archive
archive-codes = refl

missing-parent : ingest_bytes 2 outside (upload (1 ∷ []) (some 4)) shelf ≡ err not_found
unfolding ingest_bytes ingest_with
missing-parent = refl

shelf-IsSound : IsSound shelf
shelf-IsSound = record { digests = tt; codes = tt; drawn = tt; stored = tt }

ingest_bytes-two_levels_example :
    ingest_bytes 9 outside (upload (80 ∷ 1 ∷ []) none) shelf
    ≡ ingest_bytes 2 outside (upload (80 ∷ 1 ∷ []) none) shelf
ingest_bytes-two_levels_example =
    ingest_bytes-two_levels outside (upload (80 ∷ 1 ∷ []) none) shelf 7

ingest_bytes-IsSound_example : IsSound ingested_archive.1
ingest_bytes-IsSound_example =
    ingest_bytes-IsSound outside (upload (80 ∷ 1 ∷ []) none) shelf ingested_archive archive-ok
      shelf-IsSound

ingest_bytes-Grows_example :
    Grows shelf ingested_archive.1
    × (any (is_kept ingested_archive.0.evidence_id 1 81) (map identity ingested_archive.1.originals)
        ≡ true)
ingest_bytes-Grows_example =
    ingest_bytes-Grows outside (upload (80 ∷ 1 ∷ []) none) shelf ingested_archive archive-ok

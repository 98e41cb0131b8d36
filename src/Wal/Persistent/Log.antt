-- ===== src/Wal/Persistent/Log.antt =====
-- PersistentRaftWal (src/lib.rs): open, append_with_report, roll_segment, recover and compaction.
use rust_raft.Wal.Persistent.Disk.{
  Disk, Op, ask, done, metadata_len, open_for_append, sync_data, when_do, ◌>>=◌, ◌>>◌,
}
use rust_raft.Base.{
  Bool, List, Option, String, [], add_u64, false, last, leb, length, ltb, map_or, none, not, some,
  true, ℕ, ◌&&◌, ◌++◌, ◌==◌, ◌||◌, ◌∷◌,
}
use rust_raft.Types.{
  RaftError, Result, err, invalid_request, is_ok, literal, ok, reject_if, storage,
}
use rust_raft.Wal.Record.{WalRecord, stamp, validate_hard_state_persistence}
use rust_raft.Wal.Segments.{
  RetainedRange, Segment, empty_segment, modify_last, push_record, record_index, retained_range,
  seal,
}
use rust_raft.Wal.Persistent.Lines.{Codec}
use rust_raft.Wal.Persistent.Files.{read_segments, write_record, write_segment_file}

-- PersistentRaftWalOptions, less the directory's path
pub record WalOptions : Type 0 where
  pub max_records_per_segment : ℕ
  pub max_segment_bytes : ℕ
  pub min_keep_segments : ℕ
  pub fsync_on_append : Bool

unfoldable pub default_options : WalOptions
default_options = record {
  max_records_per_segment = 10_000;
  max_segment_bytes = 67_108_864;
  min_keep_segments = 2;
  fsync_on_append = true;
}

-- PersistentRaftWalOptions::validate
unfoldable pub validate_options : WalOptions → Result (Unit {0})
validate_options o = elim (o.max_records_per_segment == 0) [
  | true ↦ err (invalid_request (literal "max_records_per_segment must be greater than zero"))
  | false ↦ elim (o.max_segment_bytes == 0) [
    | true ↦ err (invalid_request (literal "max_segment_bytes must be greater than zero"))
    | false ↦
        reject_if (o.min_keep_segments == 0)
          (invalid_request (literal "min_keep_segments must be greater than zero"))
  ]
]

-- `active` is the id of the file that the handle active_segment appends to.
pub record PersistentRaftWal : Type 0 where
  pub options : WalOptions
  pub segments : List Segment
  pub active : ℕ
  pub next_segment_id : ℕ
  pub released_segment_count : ℕ
  pub truncated_corrupt_tail : Bool

-- RaftWalWriteReport, less the description of the checksum format
pub record WriteReport : Type 0 where
  pub segment_id : ℕ
  pub log_index : ℕ
  pub checksum : String
  pub bytes_written : ℕ
  pub fsynced : Bool
  pub segment_rolled : Bool
  pub hard_state_persisted : Bool
  pub retained : RetainedRange

-- The text of an error, or a text.
pub data Blocker : Type 0 where
  error_text : RaftError → Blocker
  text : String → Blocker

-- RaftWalCompactionReport
pub record CompactionReport : Type 0 where
  pub requested_log_index : ℕ
  pub released_segments : ℕ
  pub retained : RetainedRange
  pub fence_valid : Bool
  pub blocker : Option Blocker

-- The log and the directory it writes to.
abbrev pub Stored : Type 0
Stored = PersistentRaftWal × Disk

abbrev pub on_disk : {A : Type 0} → Op Disk A → Op Stored A
on_disk op (w, d) = let (d', r) = op d in ((w, d'), r)

-- A change of the fields in memory.
abbrev pub in_memory : (PersistentRaftWal → PersistentRaftWal) → Op Stored (Unit {0})
in_memory f (w, d) = ((f w, d), ok tt)

-- segment.sealed = segment.segment_id != active_id, for each segment
unfoldable pub mark_sealed : ℕ → List Segment → List Segment
mark_sealed active [] = []
mark_sealed active (s ∷ ss) =
    record s { sealed = not (s.segment_id == active) } ∷ mark_sealed active ss

unfoldable pub last_segment_id : List Segment → ℕ
last_segment_id ss = map_or 0 (λ (s : Segment). s.segment_id) (last ss)

module _ (codec : Codec) where
  -- The first segment of an empty directory is written to it.
  unfoldable pub ensure_segments : List Segment → Op Disk (List Segment)
  unfolding write_segment_file empty_segment
  ensure_segments [] = do write_segment_file codec (empty_segment 0); done (empty_segment 0 ∷ [])
  ensure_segments (s ∷ ss) = done (s ∷ ss)

  unfoldable pub opened : WalOptions → Bool → List Segment → ℕ → PersistentRaftWal
  unfolding last_segment_id mark_sealed
  opened options truncated segments active = record {
    options = options;
    segments = mark_sealed (last_segment_id segments) segments;
    active = active;
    next_segment_id = add_u64 (last_segment_id segments) 1;
    released_segment_count = 0;
    truncated_corrupt_tail = truncated;
  }

  -- The rest of `open`, with what the directory holds.
  unfoldable pub open_loaded : WalOptions → List Segment × Bool → Op Disk PersistentRaftWal
  unfolding ensure_segments last_segment_id open_for_append opened
  open_loaded options (found, truncated) = do
    segments ← ensure_segments found
    active ← open_for_append "failed to open WAL segment: {err}" (last_segment_id segments)
    done (opened options truncated segments active)

  -- PersistentRaftWal::open
  unfoldable pub open_wal : WalOptions → Op Disk PersistentRaftWal
  unfolding validate_options ask read_segments open_loaded
  open_wal options d = elim (validate_options options) [
    | err e ↦ (d, err e)
    | ok _ ↦
        (do
          ask "failed to create WAL directory {}: {err}" tt
          found ← read_segments codec
          open_loaded options found)
          d
  ]

  -- roll_segment
  unfoldable pub seal_last : Op Stored (Unit {0})
  unfolding modify_last seal write_segment_file
  seal_last (w, d) = elim (last w.segments) [
    | none ↦ ((w, d), ok tt)
    | some s ↦
        on_disk (write_segment_file codec (seal s))
          (record w { segments = modify_last seal w.segments }, d)
  ]

  unfoldable pub open_next : Op Stored (Unit {0})
  unfolding empty_segment write_segment_file open_for_append
  open_next (w, d) =
      let id = w.next_segment_id in
      (do
        in_memory (λ v. record v { next_segment_id = add_u64 v.next_segment_id 1 })
        on_disk (write_segment_file codec (empty_segment id))
        active ← on_disk (open_for_append "failed to open WAL segment: {err}" id)
        in_memory
            (λ v. record v { active = active; segments = v.segments ++ empty_segment id ∷ [] }))
        (w, d)

  unfoldable pub roll_segment : Op Stored (Unit {0})
  unfolding seal_last open_next
  roll_segment = do seal_last; open_next

  -- Whether a record of this many bytes starts a new segment.
  unfoldable pub must_roll : PersistentRaftWal → ℕ → ℕ → Bool
  must_roll w active_len record_bytes =
      let active_records = map_or 0 (λ (s : Segment). length s.records) (last w.segments) in
      leb w.options.max_records_per_segment active_records
      || (ltb 0 active_records && ltb w.options.max_segment_bytes (add_u64 active_len record_bytes))

  -- The report on a record in the segment with this id, of the log after the push.
  unfoldable pub write_report : WalRecord → ℕ → Bool → ℕ → PersistentRaftWal → WriteReport
  unfolding retained_range validate_hard_state_persistence record_index
  write_report r record_bytes rolled segment_id w = record {
    segment_id = segment_id;
    log_index = record_index r;
    checksum = r.checksum;
    bytes_written = record_bytes;
    fsynced = w.options.fsync_on_append;
    segment_rolled = rolled;
    hard_state_persisted = is_ok (validate_hard_state_persistence r);
    retained = retained_range w.segments;
  }

  -- The record, already stamped, pushed to the last segment, and the report.
  unfoldable pub push_written : WalRecord → ℕ → Bool → Op Stored WriteReport
  unfolding modify_last push_record write_report
  push_written r record_bytes rolled (w, d) = elim (last w.segments) [
    | none ↦ ((w, d), err (storage (literal "WAL has no active segment")))
    | some s ↦
        let w' = record w { segments = modify_last (push_record r) w.segments } in
        ((w', d), ok (write_report r record_bytes rolled s.segment_id w'))
  ]

  -- The writes of a stamped record to the active file.
  unfoldable pub write_active : WalRecord → Op Stored (Unit {0})
  unfolding write_record sync_data
  write_active r (w, d) =
      on_disk
        (do
          write_record codec "failed to append WAL record: {err}" w.active r
          when_do w.options.fsync_on_append (sync_data "failed to fsync WAL record: {err}"))
        (w, d)

  -- What follows once it is known whether the segment must be rolled.
  unfoldable pub append_rest : WalRecord → ℕ → Bool → Op Stored WriteReport
  unfolding roll_segment push_written write_active
  append_rest r record_bytes rolled = do
    when_do rolled (roll_segment)
    write_active r
    push_written r record_bytes rolled

  -- append_with_report
  unfoldable pub append_with_report : WalRecord → Op Stored WriteReport
  unfolding stamp metadata_len must_roll append_rest
  append_with_report r0 (w, d) =
      let r = stamp r0 in
      let record_bytes = add_u64 (length (codec.encode r)) 1 in
      (do
        active_len ←
            on_disk (metadata_len "failed to read WAL active segment metadata: {err}" w.active)
        append_rest r record_bytes (must_roll w active_len record_bytes))
        (w, d)

-- ===== src/Wal/Persistent/Maintain.antt =====
-- PersistentRaftWal (src/lib.rs): recover, compact_through, compact_through_with_fence and status.
use rust_raft.Wal.Persistent.Disk.{
  Disk, Op, done, file_len, open_for_append, remove_file, ◌>>=◌, ◌>>◌,
}
use rust_raft.Base.{
  Bool, List, [], add_u64, contains, false, filter, first, if◌then◌else◌, is_empty, last, leb,
  length, ltb, map, map_or, none, not, saturating_sub, some, take, true, ℕ, ◌&&◌, ◌+◌, ◌-◌, ◌||◌,
  ◌∷◌,
}
use rust_raft.Types.{and_then, err, ok}
use rust_raft.Fences.{StorageApplyFence, validate_storage_apply_fence}
use rust_raft.Wal.Recovery.{recover_latest}
use rust_raft.Wal.Segments.{Segment, all_records, empty_segment, record_count, retained_range}
use rust_raft.Wal.Local.{RecoveryReport, ok_option}
use rust_raft.Wal.Persistent.Lines.{Codec}
use rust_raft.Wal.Persistent.Files.{read_segments}
use rust_raft.Wal.Persistent.Log.{
  Blocker, CompactionReport, PersistentRaftWal, Stored, error_text, in_memory, last_segment_id,
  mark_sealed, on_disk, text,
}

-- RustRaftWalLifecycleStatus
pub record WalLifecycleStatus : Type 0 where
  pub segment_count : ℕ
  pub active_segment_id : ℕ
  pub first_retained_segment_id : ℕ
  pub last_retained_segment_id : ℕ
  pub total_bytes : ℕ
  pub active_segment_bytes : ℕ
  pub total_records : ℕ
  pub first_sequence : ℕ
  pub last_sequence : ℕ
  pub first_log_index : ℕ
  pub last_log_index : ℕ
  pub released_segment_count : ℕ
  pub slow_fsync_backpressure_observed : Bool

-- What recover and append take for a directory with no segment.
unfoldable pub or_empty : List Segment → List Segment
unfolding empty_segment
or_empty [] = empty_segment 0 ∷ []
or_empty (s ∷ ss) = s ∷ ss

-- The fields that recover sets after it has read the directory.
unfoldable pub adopt : List Segment → PersistentRaftWal → PersistentRaftWal
unfolding or_empty last_segment_id mark_sealed
adopt found w =
    let segments = or_empty found in
    record w { segments = mark_sealed (last_segment_id segments) segments }

module _ (codec : Codec) where
  -- PersistentRaftWal::recover
  unfoldable pub recover_wal : Op Stored RecoveryReport
  unfolding read_segments all_records adopt last_segment_id open_for_append recover_latest
      retained_range
  recover_wal (w, d) =
      let original_len = length (all_records w.segments) in
      (do
        (found, truncated) ← on_disk (read_segments codec)
        let observed = w.truncated_corrupt_tail || truncated
        let records = all_records found
        let adopted = adopt found w
        in_memory (λ v. adopted)
        active ←
            on_disk (
              open_for_append "failed to open WAL segment: {err}"
                (last_segment_id adopted.segments))
        in_memory (λ v. record v {
          active = active;
          next_segment_id = add_u64 (last_segment_id adopted.segments) 1;
          truncated_corrupt_tail = observed;
        })
        done (record {
          recovered = ok_option (recover_latest records);
          truncated_corrupt_tail = observed;
          surviving_records = length records;
          removed_records = saturating_sub original_len (length records);
          segments_scanned = length adopted.segments;
          retained = retained_range adopted.segments;
        }))
        (w, d)

-- The segments that compaction may remove.
unfoldable pub is_removable : ℕ → Segment → Bool
is_removable log_index s = ltb 0 s.last_index && leb s.last_index log_index

unfoldable pub removable_ids : ℕ → List Segment → List ℕ
unfolding is_removable
removable_ids log_index ss =
    map (λ (s : Segment). s.segment_id) (filter (is_removable log_index) ss)

-- The loop that removes the files; the first failure ends it.
unfoldable pub remove_files : List ℕ → Op Disk (Unit {0})
unfolding remove_file
remove_files [] = done tt
remove_files (id ∷ ids) = do
  remove_file "failed to remove compacted WAL segment {}: {err}" id
  remove_files ids

-- self.segments.retain(..), and the count
unfoldable pub forget : List ℕ → PersistentRaftWal → PersistentRaftWal
forget ids w = if is_empty ids then w else record w {
  segments = filter (λ (s : Segment). not (contains s.segment_id ids)) w.segments;
  released_segment_count = add_u64 w.released_segment_count (length ids);
}

-- compact_through
unfoldable pub compact_through : ℕ → Op Stored ℕ
unfolding removable_ids remove_files forget
compact_through log_index (w, d) =
    let ids =
      removable_ids log_index (take (length w.segments - w.options.min_keep_segments) w.segments) in
    if leb (length w.segments) w.options.min_keep_segments
    then ((w, d), ok 0)
    else (do on_disk (remove_files ids); in_memory (forget ids); done (length ids)) (w, d)

unfoldable pub refused : ℕ → Blocker → PersistentRaftWal → CompactionReport
unfolding retained_range
refused log_index b w = record {
  requested_log_index = log_index;
  released_segments = 0;
  retained = retained_range w.segments;
  fence_valid = false;
  blocker = some b;
}

-- compact_through_with_fence
unfoldable pub compact_through_with_fence : ℕ → StorageApplyFence → Op Stored CompactionReport
unfolding validate_storage_apply_fence refused compact_through retained_range
compact_through_with_fence log_index fence (w, d) = elim (validate_storage_apply_fence fence) [
  | err e ↦ ((w, d), ok (refused log_index (error_text e) w))
  | ok _ ↦
      if ltb fence.durable_applied_index log_index || ltb fence.storage_flushed_index log_index
      then (
        (w, d),
        ok (refused log_index (text "compaction fence is behind requested log index") w),
      )
      else and_then (compact_through log_index (w, d)) (λ s released. (
        s,
        ok (record {
          requested_log_index = log_index;
          released_segments = released;
          retained = retained_range s.0.segments;
          fence_valid = true;
          blocker = none;
        }),
      ))
]

unfoldable pub total_len : List Segment → Disk → ℕ
unfolding file_len
total_len [] d = 0
total_len (s ∷ ss) d = file_len s.segment_id d + total_len ss d

-- status, of files whose metadata can be read
unfoldable pub wal_status : Stored → WalLifecycleStatus
unfolding total_len file_len last_segment_id record_count
wal_status (w, d) =
    let first_id = map_or 0 (λ (s : Segment). s.segment_id) (first w.segments) in
    let last_id = last_segment_id w.segments in
    record {
      segment_count = length w.segments;
      active_segment_id = last_id;
      first_retained_segment_id = first_id;
      last_retained_segment_id = last_id;
      total_bytes = total_len w.segments d;
      active_segment_bytes = map_or 0 (λ (s : Segment). file_len s.segment_id d) (last w.segments);
      total_records = record_count w.segments;
      first_sequence = first_id;
      last_sequence = last_id;
      first_log_index = map_or 0 (λ (s : Segment). s.first_index) (first w.segments);
      last_log_index = map_or 0 (λ (s : Segment). s.last_index) (last w.segments);
      released_segment_count = w.released_segment_count;
      slow_fsync_backpressure_observed = false;
    }

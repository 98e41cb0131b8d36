-- ===== src/Wal/Local.antt =====
-- LocalRaftWal (src/lib.rs): the segmented log in memory, its append and its recovery.
pub mod Chain
pub mod Append
pub mod Recover
pub mod Refinement
use rust_raft.Base.{
  Bool, List, Option, String, [], add_u64, if◌then◌else◌, is_empty, last, leb, length, map_or, none,
  not, saturating_sub, some, true, ℕ, ◌&&◌, ◌++◌, ◌==◌, ◌∷◌,
}
use rust_raft.Types.{
  Outcome, Result, and_then, err, invalid_request, literal, ok, reject_if, storage, ◌>>=◌, ◌>>◌,
}
use rust_raft.Wal.Record.{WalRecord, stamp, wal_checksum_valid}
use rust_raft.Wal.Recovery.{recover_latest}
use rust_raft.Wal.Segments.{
  RetainedRange, Segment, all_records, empty_segment, modify_last, push_record, retained_range,
  seal,
}

pub record LocalRaftWal : Type 0 where
  pub max_records_per_segment : ℕ
  pub segments : List Segment
  pub next_segment_id : ℕ

-- RaftWalRecoveryReport, less the description of the checksum format
pub record RecoveryReport : Type 0 where
  pub recovered : Option WalRecord
  pub truncated_corrupt_tail : Bool
  pub surviving_records : ℕ
  pub removed_records : ℕ
  pub segments_scanned : ℕ
  pub retained : RetainedRange

unfoldable pub fresh_wal : ℕ → LocalRaftWal
unfolding empty_segment
fresh_wal n = record {
  max_records_per_segment = n;
  segments = empty_segment 0 ∷ [];
  next_segment_id = 1;
}

-- LocalRaftWal::new
unfoldable pub new_wal : ℕ → Result LocalRaftWal
unfolding fresh_wal
new_wal n = do
  reject_if (n == 0) (invalid_request (literal "max_records_per_segment must be greater than zero"))
  ok (fresh_wal n)

-- No active segment, or a full one.
unfoldable pub is_full : LocalRaftWal → Bool
is_full w =
    map_or true (λ (s : Segment). leb w.max_records_per_segment (length s.records))
      (last w.segments)

-- The first part of append: a full segment is sealed and a new one opened.
unfoldable pub roll : LocalRaftWal → LocalRaftWal
unfolding is_full seal modify_last empty_segment
roll w =
    if is_full w
    then record w {
      segments = modify_last seal w.segments ++ empty_segment w.next_segment_id ∷ [];
      next_segment_id = add_u64 w.next_segment_id 1;
    }
    else w

-- The rest: the record, already stamped, is pushed to the last segment.
unfoldable pub push : WalRecord → LocalRaftWal → Outcome LocalRaftWal String
unfolding modify_last push_record
push r w = elim (last w.segments) [
  | none ↦ (w, err (storage (literal "WAL has no active segment")))
  | some s ↦ (record w { segments = modify_last (push_record r) w.segments }, ok r.checksum)
]

-- LocalRaftWal::append
unfoldable pub append : WalRecord → LocalRaftWal → Outcome LocalRaftWal String
unfolding roll push stamp
append r w = push (stamp r) (roll w)

-- for record in records { self.append(record)?; }
unfoldable pub append_all : List WalRecord → LocalRaftWal → Outcome LocalRaftWal (Unit {0})
append_all [] w = (w, ok tt)
append_all (r ∷ rs) w = and_then (append r w) (λ w' checksum. append_all rs w')

unfoldable pub records : LocalRaftWal → List WalRecord
unfolding all_records
records w = all_records w.segments

-- while matches!(records.last(), Some(record) if !valid) { records.pop(); }
unfoldable pub drop_corrupt_tail : List WalRecord → List WalRecord
drop_corrupt_tail [] = []
drop_corrupt_tail (r ∷ rs) =
    let rest = drop_corrupt_tail rs in
    if is_empty rest && not (wal_checksum_valid r) then [] else r ∷ rest

-- rebuild_from_records
unfoldable pub rebuild_from_records :
    List WalRecord → LocalRaftWal → Outcome LocalRaftWal (Unit {0})
unfolding new_wal append_all
rebuild_from_records rs w = elim (new_wal w.max_records_per_segment) [
  | err e ↦ (w, err e)
  | ok fresh ↦ append_all rs fresh
]

abbrev pub ok_option {ℓ} : {A : Type ℓ} → Result A → Option A
ok_option (ok a) = some a
ok_option (err e) = none

unfoldable pub report : List WalRecord → List WalRecord → LocalRaftWal → RecoveryReport
unfolding recover_latest
report original kept w = record {
  recovered = ok_option (recover_latest kept);
  truncated_corrupt_tail = not (length kept == length original);
  surviving_records = length kept;
  removed_records = saturating_sub (length original) (length kept);
  segments_scanned = length w.segments;
  retained = retained_range w.segments;
}

-- LocalRaftWal::recover
unfoldable pub recover : LocalRaftWal → Outcome LocalRaftWal RecoveryReport
unfolding records drop_corrupt_tail rebuild_from_records report
recover w =
    let original = records w in
    let kept = drop_corrupt_tail original in
    if length kept == length original
    then (w, ok (report original kept w))
    else and_then (rebuild_from_records kept w) (λ w' done. (w', ok (report original kept w')))

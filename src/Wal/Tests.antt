-- ===== src/Wal/Tests.antt =====
-- Records, segments and files at concrete values: runs, and one instance of each theorem.
use rust_raft.Types.{err, format, ok, storage}
use rust_raft.Base.{
  List, Option, [], arith, false, if◌then◌else◌, ltb, none, refl, some, suc, take, true, zero, ℕ,
  ◌<◌, ◌==◌, ◌∷◌, ◌≡◌,
}
use rust_raft.Wal.Record.{WalRecord, stamp, stamp-valid, wal_checksum}
use rust_raft.Wal.Persistent.Lines.{Codec, file_bytes}
use rust_raft.Wal.Persistent.Scan.{IsEncoded}
use rust_raft.Wal.Persistent.Disk.{append_file}
use rust_raft.Wal.Persistent.Log.{
  PersistentRaftWal, WalOptions, WriteReport, append_with_report, must_roll, open_wal,
  validate_options,
}
use rust_raft.Wal.Persistent.Maintain.{compact_through}
use rust_raft.Wal.Persistent.Layout.{files_of}
use rust_raft.Wal.Persistent.Roll.{IsSynced, calm}
use rust_raft.Wal.Persistent.Append.{Extends, append_with_report-Extends}
use rust_raft.Wal.Persistent.Reopen.{open_wal-synced}
use rust_raft.Wal.Persistent.Crash.{append-cut-open, append-joined-open, reopened}
use rust_raft.Wal.Persistent.Compact.{compact_through-keeps}
use rust_raft.Wal.Recovery.{Choice, In, recover_latest, recover_latest-Choice, survivors}
use rust_raft.Wal.Segments.{Segment, all_records, record_index}
use rust_raft.Wal.Local.{LocalRaftWal, RecoveryReport, fresh_wal, records, recover}
use rust_raft.Wal.Local.Chain.{IsWal}
use rust_raft.Wal.Local.Recover.{IsRecovered, recover-IsRecovered}
use rust_raft.Wal.Local.Refinement.{Call, append_call, recover_call, run, run-written, written}
use rust_raft.Base.BTreeMap.{BTreeMap, get, remove}

abbrev committed_at : ℕ → ℕ → WalRecord
committed_at group index = record {
  group_id = group;
  node_id = 1;
  hard_state = record {
    current_term = 1;
    voted_for = none;
    committed = some (record { term = 1; index = index });
  };
  membership = record {
    group_id = group;
    voters = 1 ∷ [];
    learners = [];
    witnesses = [];
    epoch = 1;
  };
  entries = [];
  installed_snapshot = none;
  apply_snapshot_fence = record {
    applied_index = 0;
    commit_index = index;
    installed_snapshot_index = 0;
    first_retained_log_index = 0;
  };
  checksum = "";
}

abbrev one : WalRecord
one = committed_at 1 1

abbrev two : WalRecord
two = committed_at 2 5

checksum_of_one : wal_checksum one ≡ "55101e010591a2c5"
unfolding wal_checksum
checksum_of_one = refl

-- A codec for the two records, stamped: the group and a byte behind it.
abbrev toy_decode : List ℕ → Option WalRecord
toy_decode (a ∷ b ∷ []) =
    if a == 1 then some (stamp one) else if a == 2 then some (stamp two) else none
toy_decode _ = none

abbrev toy : Codec
toy = record { encode = λ r. r.group_id ∷ 0 ∷ []; decode = toy_decode }

toy_torn : (a n : ℕ) → n < 2 → toy_decode (take n (a ∷ 0 ∷ [])) ≡ none
toy_torn a zero h = refl
toy_torn a (suc zero) h = refl
toy_torn a (suc (suc n)) h = absurd (omega arith)

one-IsEncoded : IsEncoded toy (stamp one)
unfolding stamp
one-IsEncoded = record {
  decode-encode = refl;
  one_line = (refl, (refl, tt));
  not_empty = omega arith;
  torn = toy_torn 1;
}

two-IsEncoded : IsEncoded toy (stamp two)
unfolding stamp
two-IsEncoded = record {
  decode-encode = refl;
  one_line = (refl, (refl, tt));
  not_empty = omega arith;
  torn = toy_torn 2;
}

-- A log of two segments: a sealed one with the first record, and the active one with the second.
abbrev sealed_one : Segment
sealed_one = record {
  segment_id = 0;
  first_index = 1;
  last_index = 1;
  records = stamp one ∷ [];
  sealed = true;
}

abbrev active_two : Segment
active_two = record {
  segment_id = 1;
  first_index = 5;
  last_index = 5;
  records = stamp two ∷ [];
  sealed = false;
}

abbrev options : WalOptions
options = record {
  max_records_per_segment = 3;
  max_segment_bytes = 100;
  min_keep_segments = 1;
  fsync_on_append = true;
}

abbrev two_segments : PersistentRaftWal
two_segments = record {
  options = options;
  segments = sealed_one ∷ active_two ∷ [];
  active = 1;
  next_segment_id = 2;
  released_segment_count = 0;
  truncated_corrupt_tail = false;
}

abbrev directory : BTreeMap (List ℕ)
directory = (0, 1 ∷ 0 ∷ 10 ∷ []) ∷ (1, 2 ∷ 0 ∷ 10 ∷ []) ∷ []

two_segments-IsSynced : IsSynced toy two_segments directory
unfolding files_of file_bytes stamp record_index
two_segments-IsSynced = record {
  layout = (
    omega arith,
    record {
      sealed_lem = refl;
      indexed = record { first_lem = refl; last_lem = refl };
      written = ((one-IsEncoded, stamp-valid one), tt);
    },
    (
      refl,
      record {
        sealed_lem = refl;
        indexed = record { first_lem = refl; last_lem = refl };
        written = ((two-IsEncoded, stamp-valid two), tt);
      },
    ),
  );
  files_lem = refl;
  next_lem = refl;
}

open_wal-synced_example : open_wal toy options (calm directory) ≡ (
  calm directory,
  ok (record two_segments { released_segment_count = 0; truncated_corrupt_tail = false }),
)
unfolding validate_options
open_wal-synced_example =
    open_wal-synced toy options two_segments directory refl two_segments-IsSynced (omega arith)

append_with_report-Extends_example :
    (v : PersistentRaftWal) × (n : BTreeMap (List ℕ)) × (rep : WriteReport) × (append_with_report
        toy one
        (two_segments, calm directory)
      ≡ ((v, calm n), ok rep))
    × Extends toy (stamp one) two_segments v n
    × (rep.checksum ≡ wal_checksum one)
append_with_report-Extends_example =
    append_with_report-Extends toy one two_segments directory one-IsEncoded two_segments-IsSynced
      (omega arith)

append-cut-open_example :
    (append_with_report toy one
        (two_segments, record { files = directory; outcomes = none ∷ some 1 ∷ [] })
      ≡ (
        (two_segments, calm (append_file 1 (take 1 (toy.encode (stamp one))) directory)),
        err (storage (format "failed to append WAL record: {err}" [])),
      ))
    × (open_wal toy options (calm (append_file 1 (take 1 (toy.encode (stamp one))) directory))
        ≡ (calm directory, ok (reopened options (ltb 0 1) two_segments)))
unfolding validate_options must_roll get stamp
append-cut-open_example =
    append-cut-open toy options one two_segments directory 1 refl two_segments-IsSynced
      (omega arith) one-IsEncoded refl (omega arith)

append-joined-open_example :
    (m1 m2 : BTreeMap (List ℕ)) × (v : PersistentRaftWal) × (rep : WriteReport)
    × (append_with_report toy one
          (two_segments, record { files = directory; outcomes = none ∷ none ∷ some 0 ∷ [] })
        ≡ ((two_segments, calm m1), err (storage (format "failed to append WAL record: {err}" []))))
    × (append_with_report toy two (two_segments, calm m1) ≡ ((v, calm m2), ok rep))
    × (open_wal toy options (calm m2) ≡ (calm directory, ok (reopened options true two_segments)))
unfolding validate_options must_roll get stamp append_file
append-joined-open_example =
    append-joined-open toy options one two two_segments directory refl two_segments-IsSynced
      (omega arith) one-IsEncoded two-IsEncoded refl refl refl

compact_through-keeps_example :
    (v : PersistentRaftWal) × (n : BTreeMap (List ℕ)) × (released : ℕ) × (compact_through 1
        (two_segments, calm directory)
      ≡ ((v, calm n), ok released))
    × ((x : Segment)
        → In x two_segments.segments
        → 1 < x.last_index
        → In x v.segments × (get x.segment_id n ≡ get x.segment_id directory))
compact_through-keeps_example =
    compact_through-keeps toy 1 two_segments directory two_segments-IsSynced

-- The first segment is removed, in memory and on the disk.
compacted : (compact_through 1 (two_segments, calm directory)).0.1.files ≡ (1, 2 ∷ 0 ∷ 10 ∷ []) ∷ []
unfolding compact_through remove
compacted = refl

recover_latest-Choice_example :
    Choice (survivors (stamp one ∷ stamp two ∷ [])) (recover_latest (stamp one ∷ stamp two ∷ []))
recover_latest-Choice_example = recover_latest-Choice (stamp one ∷ stamp two ∷ [])

abbrev calls : List Call
calls = append_call one ∷ recover_call ∷ append_call two ∷ []

run-written_example :
    IsWal (run calls (fresh_wal 1)) × (records (run calls (fresh_wal 1)) ≡ written calls)
run-written_example = run-written 1 calls (omega arith) (omega arith)

-- A log whose last record is corrupt.
abbrev corrupt_wal : LocalRaftWal
corrupt_wal = record {
  max_records_per_segment = 2;
  segments =
      record {
        segment_id = 0;
        first_index = 1;
        last_index = 5;
        records = stamp one ∷ record two { checksum = "corrupt-tail" } ∷ [];
        sealed = false;
      }
      ∷ [];
  next_segment_id = 1;
}

corrupt_wal-IsWal : IsWal corrupt_wal
unfolding record_index stamp
corrupt_wal-IsWal =
    (omega arith, (refl, omega arith, refl, record { first_lem = refl; last_lem = refl }))

recover-IsRecovered_example :
    (v : LocalRaftWal) × (rep : RecoveryReport) × (recover corrupt_wal ≡ (v, ok rep))
    × IsRecovered corrupt_wal v rep
unfolding records all_records
recover-IsRecovered_example = recover-IsRecovered corrupt_wal corrupt_wal-IsWal (omega arith)

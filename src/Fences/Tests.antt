-- ===== src/Fences/Tests.antt =====
-- Fences at concrete indexes: one instance of each theorem.
use rust_raft.Base.{[], arith, refl, ℕ, ◌↔◌, ◌∷◌, ◌≡◌}
use rust_raft.Types.{
  ApplySnapshotFence, LogEntry, Snapshot, SnapshotMeta, err, literal, ok, storage,
}
use rust_raft.Fences.{
  StorageApplyFence, validate_snapshot_tail_catchup, validate_snapshot_tail_catchup-Contiguous,
}
use rust_raft.Node.Log.{Contiguous}

abbrev at_five : SnapshotMeta
at_five = record {
  snapshot_id = "s";
  last_log_id = record { term = 2; index = 5 };
  membership = 1 ∷ 2 ∷ [];
}

abbrev entry : ℕ → LogEntry
entry index = record { log_id = record { term = 2; index = index }; payload = [] }

validate_snapshot_tail_catchup-Contiguous_example :
    (validate_snapshot_tail_catchup at_five (entry 6 ∷ entry 7 ∷ []) ≡ ok tt)
    ↔ Contiguous 5 (entry 6 ∷ entry 7 ∷ [])
validate_snapshot_tail_catchup-Contiguous_example =
    validate_snapshot_tail_catchup-Contiguous at_five (entry 6 ∷ entry 7 ∷ []) (omega arith)

-- A gap is refused.
gap_run :
    validate_snapshot_tail_catchup at_five (entry 7 ∷ [])
    ≡ err (storage (literal "tail catch-up entries are not contiguous after snapshot"))
unfolding validate_snapshot_tail_catchup
gap_run = refl

abbrev fence : StorageApplyFence
fence = record {
  group_id = 7;
  node_id = 1;
  committed_index = 9;
  applied_index = 8;
  durable_applied_index = 6;
  storage_flushed_index = 7;
  installed_snapshot_index = 5;
  first_retained_log_index = 6;
}

abbrev snapshot : Snapshot
snapshot = record { group_id = 7; meta = at_five; payload = 1 ∷ [] }

abbrev install_fence : ApplySnapshotFence
install_fence = record {
  applied_index = 5;
  commit_index = 5;
  installed_snapshot_index = 5;
  first_retained_log_index = 6;
}

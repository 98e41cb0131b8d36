-- ===== src/Fences.antt =====
-- Checks of snapshots and fences before they are installed or trusted (src/lib.rs).
mod Tests
use rust_raft.Types.{
  ApplySnapshotFence, LogEntry, LogId, RaftError, Result, Snapshot, SnapshotMeta, literal, ok,
  reject_if, storage, ◌>>=◌, ◌>>◌,
}
use rust_raft.Base.{
  List, Option, String, [], add_u64, arith, leb, length, ltb, none, not, refl, some, suc, u64_max,
  ℕ, ◌&&◌, ◌+◌, ◌<◌, ◌==◌, ◌↔◌, ◌∷◌, ◌≡◌, ◌≤◌, ◌⊎◌,
}
use rust_raft.Node.Log.{Contiguous}

pub record StorageApplyFence : Type 0 where
  pub group_id : ℕ
  pub node_id : ℕ
  pub committed_index : ℕ
  pub applied_index : ℕ
  pub durable_applied_index : ℕ
  pub storage_flushed_index : ℕ
  pub installed_snapshot_index : ℕ
  pub first_retained_log_index : ℕ

-- A storage error with this text.
abbrev storage_error : String → RaftError
storage_error s = storage (literal s)

unfoldable pub validate_storage_apply_fence : StorageApplyFence → Result (Unit {0})
validate_storage_apply_fence f = do
  reject_if (ltb f.committed_index f.applied_index)
      (storage_error "storage apply fence is ahead of committed index")
  reject_if (ltb f.applied_index f.durable_applied_index)
      (storage_error "durable applied index is ahead of in-memory applied index")
  reject_if (ltb f.storage_flushed_index f.durable_applied_index)
      (storage_error "storage flush is behind durable applied index")
  reject_if (ltb f.applied_index f.installed_snapshot_index)
      (storage_error "installed snapshot is ahead of applied index")
  reject_if
      (ltb 0 f.installed_snapshot_index
        && leb f.first_retained_log_index f.installed_snapshot_index)
      (storage_error "first retained log index overlaps installed snapshot")
  ok tt

-- The check of the previous log id against the snapshot's floor.
unfoldable pub validate_prev_log_id : SnapshotMeta → Option LogId → Result (Unit {0})
validate_prev_log_id snapshot none = ok tt
validate_prev_log_id snapshot (some prev) = do
  reject_if (ltb prev.index snapshot.last_log_id.index)
      (storage_error "previous log id is below snapshot floor")
  reject_if
      (prev.index == snapshot.last_log_id.index && not (prev.term == snapshot.last_log_id.term))
      (storage_error "snapshot floor term does not match previous log id")
  ok tt

unfoldable pub validate_snapshot_floor_log_matching :
    SnapshotMeta → ℕ → Option LogId → Result (Unit {0})
unfolding validate_prev_log_id
validate_snapshot_floor_log_matching snapshot first_retained prev = do
  reject_if (ltb 0 first_retained && leb first_retained snapshot.last_log_id.index)
      (storage_error "first retained log index overlaps snapshot floor")
  validate_prev_log_id snapshot prev

unfoldable pub validate_snapshot_install : Snapshot → ApplySnapshotFence → Result (Unit {0})
unfolding validate_snapshot_floor_log_matching
validate_snapshot_install snapshot fence = do
  reject_if (not (fence.installed_snapshot_index == snapshot.meta.last_log_id.index))
      (storage_error "snapshot install fence does not match snapshot last log index")
  validate_snapshot_floor_log_matching snapshot.meta fence.first_retained_log_index
      (some snapshot.meta.last_log_id)

-- The loop of `validate_snapshot_tail_catchup`, from the index that is expected next.
unfoldable pub validate_tail : SnapshotMeta → ℕ → List LogEntry → Result (Unit {0})
validate_tail snapshot expected [] = ok tt
validate_tail snapshot expected (e ∷ es) = do
  reject_if (leb e.log_id.index snapshot.last_log_id.index)
      (storage_error "tail catch-up entry overlaps installed snapshot")
  reject_if (not (e.log_id.index == expected))
      (storage_error "tail catch-up entries are not contiguous after snapshot")
  validate_tail snapshot (add_u64 expected 1) es

unfoldable pub validate_snapshot_tail_catchup : SnapshotMeta → List LogEntry → Result (Unit {0})
unfolding validate_tail
validate_snapshot_tail_catchup snapshot tail =
    validate_tail snapshot (add_u64 snapshot.last_log_id.index 1) tail

validate_tail-Contiguous :
    (snapshot : SnapshotMeta) (i : ℕ) (tail : List LogEntry)
    → snapshot.last_log_id.index ≤ i
    → i + length tail < u64_max
    → (validate_tail snapshot (suc i) tail ≡ ok tt) ↔ Contiguous i tail
unfolding validate_tail
validate_tail-Contiguous snapshot i [] h b = (λ _. tt, λ _. refl)
validate_tail-Contiguous snapshot i (e ∷ es) h b =
    let ih = validate_tail-Contiguous snapshot (suc i) es (omega arith) (omega arith) in
    let next : add_u64 (suc i) 1 ≡ suc (suc i) = omega arith in
    (rw next (λ h. (ground arith, ih.0 (ground arith))), rw next (λ c. ground (arith, ih.1 c.1)))

-- The tail after a snapshot is accepted exactly when its indexes follow the snapshot's one by one,
-- as long as they stay below 2^64 - 1.
pub validate_snapshot_tail_catchup-Contiguous :
    (snapshot : SnapshotMeta) (tail : List LogEntry)
    → snapshot.last_log_id.index + length tail < u64_max
    → (validate_snapshot_tail_catchup snapshot tail ≡ ok tt)
      ↔ Contiguous snapshot.last_log_id.index tail
unfolding validate_snapshot_tail_catchup
validate_snapshot_tail_catchup-Contiguous snapshot tail b =
    let next : add_u64 snapshot.last_log_id.index 1 ≡ suc snapshot.last_log_id.index =
      omega arith in
    rw next (validate_tail-Contiguous snapshot snapshot.last_log_id.index tail (omega arith) b)

-- The order of the indexes that an accepted storage fence shows.
pub record IsOrdered (f : StorageApplyFence) : Type 0 where
  pub applied : f.applied_index ≤ f.committed_index
  pub durable : f.durable_applied_index ≤ f.applied_index
  pub flushed : f.durable_applied_index ≤ f.storage_flushed_index
  pub installed : f.installed_snapshot_index ≤ f.applied_index
  pub retained :
      (f.installed_snapshot_index ≡ 0) ⊎ (f.installed_snapshot_index < f.first_retained_log_index)

-- A storage fence is accepted exactly when durable ≤ applied ≤ committed, what is durable is
-- flushed, the installed snapshot is applied, and no retained entry is one that it covers.
pub validate_storage_apply_fence-IsOrdered :
    (f : StorageApplyFence) → (validate_storage_apply_fence f ≡ ok tt) ↔ IsOrdered f
unfolding validate_storage_apply_fence
validate_storage_apply_fence-IsOrdered f = (λ h. ground arith, λ v. ground arith)

-- A snapshot passes exactly when its fence names its index and retains nothing that it covers.
pub validate_snapshot_install_lem :
    (s : Snapshot) (f : ApplySnapshotFence)
    → (validate_snapshot_install s f ≡ ok tt) ↔ (
        (f.installed_snapshot_index ≡ s.meta.last_log_id.index)
        × ((f.first_retained_log_index ≡ 0)
            ⊎ (s.meta.last_log_id.index < f.first_retained_log_index)))
unfolding validate_snapshot_install
validate_snapshot_install_lem s f = (λ h. ground arith, λ v. ground arith)

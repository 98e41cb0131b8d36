-- ===== src/Snapshot.antt =====
-- Snapshot chunks (src/lib.rs): cutting a snapshot into chunks and installing chunks in order.
pub mod RoundTrip
pub mod Lifecycle
mod Tests
use rust_raft.Types.{
  LogId, Result, Snapshot, SnapshotMeta, format, invalid_request, literal, ok, reject_if, ◌>>=◌,
  ◌>>◌,
}
use text.Mathlib.Text.{◌==◌ as str_eq}
use rust_raft.Base.{
  Bool, List, [], add_u64, drop, false, if◌then◌else◌, length, ltb, min, not, suc, take, true, zero,
  ℕ, ◌&&◌, ◌++◌, ◌-◌, ◌==◌, ◌∷◌,
}

pub record SnapshotChunk : Type 0 where
  pub meta : SnapshotMeta
  pub offset : ℕ
  pub bytes : List ℕ
  pub is_done : Bool

-- `==` on Vec<u64>
unfoldable pub list_eq : List ℕ → List ℕ → Bool
list_eq [] [] = true
list_eq (x ∷ xs) (y ∷ ys) = x == y && list_eq xs ys
list_eq _ _ = false

unfoldable pub log_id_eq : LogId → LogId → Bool
log_id_eq a b = a.term == b.term && a.index == b.index

unfoldable pub meta_eq : SnapshotMeta → SnapshotMeta → Bool
unfolding list_eq log_id_eq
meta_eq a b =
    str_eq a.snapshot_id b.snapshot_id
    && (log_id_eq a.last_log_id b.last_log_id && list_eq a.membership b.membership)

-- RaftSnapshotInstallState
pub record InstallState : Type 0 where
  pub meta : SnapshotMeta
  pub bytes : List ℕ
  pub next_offset : ℕ
  pub is_complete : Bool

unfoldable pub new_install : SnapshotMeta → InstallState
new_install meta = record { meta = meta; bytes = []; next_offset = 0; is_complete = false }

-- On an error the state is the old one.
unfoldable pub install_chunk : InstallState → SnapshotChunk → Result InstallState
install_chunk s chunk = do
  reject_if (not (meta_eq chunk.meta s.meta))
      (invalid_request (literal "snapshot chunk metadata changed during install"))
  reject_if (not (chunk.offset == s.next_offset)) (
      invalid_request (
        format "snapshot chunk offset {} does not match next offset {}"
          (chunk.offset ∷ s.next_offset ∷ [])))
  ok (record s {
    next_offset = add_u64 s.next_offset (length chunk.bytes);
    bytes = s.bytes ++ chunk.bytes;
    is_complete = chunk.is_done;
  })

-- RaftSnapshotInstallState::finish
unfoldable pub finish_install : InstallState → ℕ → Result Snapshot
finish_install s group_id = do
  reject_if (not s.is_complete) (invalid_request (literal "snapshot install is incomplete"))
  ok (record { group_id = group_id; meta = s.meta; payload = s.bytes })

-- payload[offset..end] with its place; the last chunk is marked.
unfoldable pub chunk_at : Snapshot → ℕ → ℕ → SnapshotChunk
chunk_at snapshot offset end = record {
  meta = snapshot.meta;
  offset = offset;
  bytes = take (end - offset) (drop offset snapshot.payload);
  is_done = end == length snapshot.payload;
}

-- The loop of `checkpoint`, on fuel: each round but the last moves `offset` forward.
unfoldable pub chunks_from : ℕ → Snapshot → ℕ → ℕ → List SnapshotChunk
unfolding chunk_at
chunks_from zero snapshot chunk_size offset = []
chunks_from (suc fuel) snapshot chunk_size offset =
    let end = min (add_u64 offset chunk_size) (length snapshot.payload) in
    let rest = chunks_from fuel snapshot chunk_size end in
    if ltb offset (length snapshot.payload) then chunk_at snapshot offset end ∷ rest else []

-- An empty payload still makes one chunk.
unfoldable pub or_empty_chunk : Snapshot → List SnapshotChunk → List SnapshotChunk
or_empty_chunk snapshot [] =
    record { meta = snapshot.meta; offset = 0; bytes = []; is_done = true } ∷ []
or_empty_chunk snapshot (c ∷ cs) = c ∷ cs

-- RaftSnapshotLifecycle::checkpoint
unfoldable pub checkpoint : Snapshot → ℕ → Result (List SnapshotChunk)
unfolding chunks_from or_empty_chunk
checkpoint snapshot chunk_size = do
  reject_if (chunk_size == 0)
      (invalid_request (literal "snapshot chunk_size must be greater than zero"))
  ok (or_empty_chunk snapshot (chunks_from (suc (length snapshot.payload)) snapshot chunk_size 0))

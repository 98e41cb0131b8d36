-- ===== src/Snapshot/Tests.antt =====
-- A snapshot of five bytes: runs, and one instance of each theorem.
use rust_raft.Base.{
  Bool, List, [], arith, drop, false, length, map, none, refl, some, take, true, ℕ, ◌+◌, ◌<◌, ◌∷◌,
  ◌≡◌, ◌≤◌,
}
use rust_raft.Types.{Snapshot, ok, ◌>>=◌}
use rust_raft.Snapshot.{InstallState, SnapshotChunk, checkpoint, finish_install, new_install}
use rust_raft.Snapshot.RoundTrip.{install-checkpoint, install_all}
use rust_raft.Snapshot.Lifecycle.{SendState, SnapshotLifecycle, poll_send_requests, request_of}
use rust_raft.Snapshot.Lifecycle.Sending.{poll_send_requests_lem, total_bytes}
use rust_raft.Snapshot.Lifecycle.Receiving.{as_request, receive_all, receive_all-checkpoint}

abbrev five : Snapshot
five = record {
  group_id = 7;
  meta = record {
    snapshot_id = "s";
    last_log_id = record { term = 2; index = 40 };
    membership = 1 ∷ 2 ∷ 3 ∷ [];
  };
  payload = 10 ∷ 11 ∷ 12 ∷ 13 ∷ 14 ∷ [];
}

abbrev chunk : ℕ → List ℕ → Bool → SnapshotChunk
chunk offset bytes is_done = record {
  meta = five.meta;
  offset = offset;
  bytes = bytes;
  is_done = is_done;
}

abbrev chunks_of_two : List SnapshotChunk
chunks_of_two =
    chunk 0 (10 ∷ 11 ∷ []) false ∷ chunk 2 (12 ∷ 13 ∷ []) false ∷ chunk 4 (14 ∷ []) true ∷ []

checkpoint_run : checkpoint five 2 ≡ ok chunks_of_two
unfolding checkpoint
checkpoint_run = refl

install-checkpoint_example :
    (chunks : List SnapshotChunk) × (checkpoint five 2 ≡ ok chunks)
    × ((install_all (new_install five.meta) chunks >>= λ s. finish_install s 7) ≡ ok five)
install-checkpoint_example = install-checkpoint five 2 (omega arith) (omega arith) (omega arith)

abbrev two_bytes_in : InstallState
two_bytes_in = record {
  meta = five.meta;
  bytes = 10 ∷ 11 ∷ [];
  next_offset = 2;
  is_complete = false;
}

abbrev four_bytes_in : InstallState
four_bytes_in = record {
  meta = five.meta;
  bytes = 10 ∷ 11 ∷ 12 ∷ 13 ∷ [];
  next_offset = 4;
  is_complete = false;
}

abbrev idle : SnapshotLifecycle
idle = record {
  config = record {
    chunk_size = 2;
    max_chunks_per_tick = 4;
    max_bytes_per_tick = 3;
    max_retry_attempts = 2;
  };
  sender = none;
  installer = none;
  status = record {
    snapshot_id = none;
    is_sending = false;
    is_installing = false;
    total_chunks = 0;
    sent_chunks = 0;
    received_chunks = 0;
    retry_count = 0;
    throttled_ticks = 0;
    rolled_back = 0;
    is_completed = false;
    installed_index = 0;
  };
}

receive_all-checkpoint_example :
    (chunks : List SnapshotChunk) × (checkpoint five 2 ≡ ok chunks)
    × (let r = receive_all idle (map (as_request five 2 1) chunks) in
        (r.1 ≡ ok (some five)) × (r.0.installer ≡ none) × (r.0.status.installed_index ≡ 40))
receive_all-checkpoint_example =
    receive_all-checkpoint five 2 1 idle 2 refl (omega arith) (omega arith) (omega arith)
      (omega arith)

abbrev sending : SendState
sending = record {
  group_id = 7;
  term = 2;
  leader_id = 1;
  chunks = chunks_of_two;
  next_chunk = 0;
  accepted_chunks = 0;
  retry_count = 0;
}

abbrev active : SnapshotLifecycle
active = record idle { sender = some sending }

-- The limit of three bytes stops the tick, which counts twice as throttled: once for the limit and
-- once for the chunks that are left.
throttled_run : (poll_send_requests active).0.status.throttled_ticks ≡ 2
unfolding poll_send_requests
throttled_run = refl

poll_send_requests_lem_example :
    (n : ℕ) × (let sent = take n (drop 0 chunks_of_two) in
      ((poll_send_requests active).1 ≡ ok (map (request_of sending) sent))
      × ((poll_send_requests active).0.sender ≡ some (record sending { next_chunk = 0 + n }))
      × (n ≤ 4)
      × (0 < length (drop 0 chunks_of_two) → 0 < n)
      × (1 < n → total_bytes sent ≤ 3))
poll_send_requests_lem_example =
    poll_send_requests_lem active sending refl (omega arith) (omega arith)

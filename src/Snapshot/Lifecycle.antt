-- ===== src/Snapshot/Lifecycle.antt =====
-- RaftSnapshotLifecycle (src/lib.rs): sending chunks under limits, and installing requests.
pub mod Sending
pub mod Receiving
use rust_raft.Base.{
  Bool, List, Option, String, [], add_u64, drop, false, if◌then◌else◌, is_some, leb, length, ltb,
  map, max, none, position, some, suc, true, ℕ, ◌&&◌, ◌+◌, ◌==◌, ◌||◌, ◌∷◌,
}
use rust_raft.Types.{
  Outcome, RaftError, Result, Snapshot, SnapshotMeta, err, invalid_request, literal, ok, reject_if,
  transport, ◌>>=◌, ◌>>◌,
}
use rust_raft.Snapshot.{
  InstallState, SnapshotChunk, checkpoint, finish_install, install_chunk, new_install,
}

pub record LifecycleConfig : Type 0 where
  pub chunk_size : ℕ
  pub max_chunks_per_tick : ℕ
  pub max_bytes_per_tick : ℕ
  pub max_retry_attempts : ℕ

unfoldable pub validate_lifecycle_config : LifecycleConfig → Result (Unit {0})
validate_lifecycle_config c = do
  reject_if (c.chunk_size == 0)
      (invalid_request (literal "snapshot chunk_size must be greater than zero"))
  reject_if (c.max_chunks_per_tick == 0)
      (invalid_request (literal "snapshot max_chunks_per_tick must be greater than zero"))
  reject_if (c.max_bytes_per_tick == 0)
      (invalid_request (literal "snapshot max_bytes_per_tick must be greater than zero"))
  ok tt

pub record LifecycleStatus : Type 0 where
  pub snapshot_id : Option String
  pub is_sending : Bool
  pub is_installing : Bool
  pub total_chunks : ℕ
  pub sent_chunks : ℕ
  pub received_chunks : ℕ
  pub retry_count : ℕ
  pub throttled_ticks : ℕ
  pub rolled_back : ℕ
  pub is_completed : Bool
  pub installed_index : ℕ

pub record SendState : Type 0 where
  pub group_id : ℕ
  pub term : ℕ
  pub leader_id : ℕ
  pub chunks : List SnapshotChunk
  pub next_chunk : ℕ
  pub accepted_chunks : ℕ
  pub retry_count : ℕ

pub record SnapshotLifecycle : Type 0 where
  pub config : LifecycleConfig
  pub sender : Option SendState
  pub installer : Option InstallState
  pub status : LifecycleStatus

pub record InstallSnapshotRequest : Type 0 where
  pub group_id : ℕ
  pub term : ℕ
  pub leader_id : ℕ
  pub chunk : SnapshotChunk

pub record InstallSnapshotResponse : Type 0 where
  pub term : ℕ
  pub accepted : Bool
  pub next_offset : ℕ
  pub reason : String

abbrev idle_status : LifecycleStatus
idle_status = record {
  snapshot_id = none;
  is_sending = false;
  is_installing = false;
  total_chunks = 0;
  sent_chunks = 0;
  received_chunks = 0;
  retry_count = 0;
  throttled_ticks = 0;
  rolled_back = 0;
  is_completed = false;
  installed_index = 0;
}

unfoldable pub new_lifecycle : LifecycleConfig → Result SnapshotLifecycle
unfolding validate_lifecycle_config
new_lifecycle config = do
  validate_lifecycle_config config
  ok (record { config = config; sender = none; installer = none; status = idle_status })

start_send :
    SnapshotLifecycle
    → Snapshot
    → ℕ
    → ℕ
    → Result (List SnapshotChunk)
    → Outcome SnapshotLifecycle (Unit {0})
start_send l snapshot term leader_id (err e) = (l, err e)
start_send l snapshot term leader_id (ok chunks) = (
  record l {
    status = record idle_status {
      snapshot_id = some snapshot.meta.snapshot_id;
      is_sending = true;
      total_chunks = length chunks;
      rolled_back = l.status.rolled_back;
    };
    sender = some (record {
      group_id = snapshot.group_id;
      term = term;
      leader_id = leader_id;
      chunks = chunks;
      next_chunk = 0;
      accepted_chunks = 0;
      retry_count = 0;
    });
  },
  ok tt,
)

unfoldable pub begin_send :
    SnapshotLifecycle → Snapshot → ℕ → ℕ → Outcome SnapshotLifecycle (Unit {0})
unfolding start_send checkpoint
begin_send l snapshot term leader_id =
    if is_some l.sender || is_some l.installer
    then (l, err (invalid_request (literal "snapshot lifecycle is already active")))
    else start_send l snapshot term leader_id (checkpoint snapshot l.config.chunk_size)

-- The chunks that a tick takes of those not yet sent, after `taken` of them with `bytes` in all,
-- and whether the limit on bytes stopped it.
unfoldable pub take_tick : LifecycleConfig → ℕ → ℕ → List SnapshotChunk → List SnapshotChunk × Bool
take_tick c taken bytes [] = ([], false)
take_tick c taken bytes (chunk ∷ chunks) =
    let next_bytes = add_u64 bytes (length chunk.bytes) in
    let (later, stopped) = take_tick c (suc taken) next_bytes chunks in
    if ltb taken c.max_chunks_per_tick
    then (if ltb 0 taken && ltb c.max_bytes_per_tick next_bytes
        then ([], true)
        else (chunk ∷ later, stopped))
    else ([], false)

abbrev pub request_of : SendState → SnapshotChunk → InstallSnapshotRequest
request_of s chunk = record {
  group_id = s.group_id;
  term = s.term;
  leader_id = s.leader_id;
  chunk = chunk;
}

-- What a tick leaves: both the stop by bytes and the chunks left count as a throttled tick.
after_tick :
    SnapshotLifecycle
    → SendState
    → List SnapshotChunk × Bool
    → Outcome SnapshotLifecycle (List InstallSnapshotRequest)
after_tick l s (taken, stopped) =
    let next = s.next_chunk + length taken in
    let by_bytes : ℕ = if stopped then 1 else 0 in
    let by_rest : ℕ = if ltb next (length s.chunks) then 1 else 0 in
    (
      record l {
        sender = some (record s { next_chunk = next });
        status = record l.status {
          sent_chunks = add_u64 l.status.sent_chunks (length taken);
          throttled_ticks = add_u64 (add_u64 l.status.throttled_ticks by_bytes) by_rest;
        };
      },
      ok (map (request_of s) taken),
    )

unfoldable pub poll_send_requests :
    SnapshotLifecycle → Outcome SnapshotLifecycle (List InstallSnapshotRequest)
unfolding take_tick after_tick
poll_send_requests l = elim l.sender [
  | none ↦ (l, err (invalid_request (literal "snapshot send is not active")))
  | some s ↦ after_tick l s (take_tick l.config 0 0 (drop s.next_chunk s.chunks))
]

-- One more retry; past the budget the transfer ends with this error.
retry_send :
    SnapshotLifecycle
    → SendState
    → RaftError
    → (SendState → SendState)
    → Outcome SnapshotLifecycle (Unit {0})
retry_send l s e rewind =
    let s' : SendState = record s { retry_count = add_u64 s.retry_count 1 } in
    let counted : LifecycleStatus = record l.status {
      retry_count = add_u64 l.status.retry_count 1;
    } in
    if ltb l.config.max_retry_attempts s'.retry_count
    then (record l { sender = none; status = record counted { is_sending = false } }, err e)
    else (record l { sender = some (rewind s'); status = counted }, ok tt)

-- The first chunk at or after the offset that the receiver asks for.
rewind_to : ℕ → SendState → SendState
rewind_to next_offset s = record s {
  next_chunk = elim (position (λ (c : SnapshotChunk). leb next_offset c.offset) s.chunks) [
    | none ↦ length s.chunks
    | some i ↦ i
  ];
}

accept_chunk : SnapshotLifecycle → SendState → Outcome SnapshotLifecycle (Unit {0})
accept_chunk l s =
    let s' : SendState = record s { accepted_chunks = add_u64 s.accepted_chunks 1 } in
    if leb (length s.chunks) s'.accepted_chunks
    then (
      record l {
        sender = none;
        status = record l.status { is_sending = false; is_completed = true };
      },
      ok tt,
    )
    else (record l { sender = some s' }, ok tt)

unfoldable pub record_send_response :
    SnapshotLifecycle → InstallSnapshotResponse → Outcome SnapshotLifecycle (Unit {0})
unfolding retry_send rewind_to accept_chunk
record_send_response l response = elim l.sender [
  | none ↦
      if response.accepted
      then (l, ok tt)
      else (l, err (invalid_request (literal "snapshot send is not active")))
  | some s ↦
      if response.accepted
      then accept_chunk l s
      else retry_send l s (transport (literal "snapshot send retry budget exhausted"))
          (rewind_to response.next_offset)
]

unfoldable pub record_send_timeout : SnapshotLifecycle → Outcome SnapshotLifecycle (Unit {0})
unfolding retry_send
record_send_timeout l = elim l.sender [
  | none ↦ (l, err (invalid_request (literal "snapshot send is not active")))
  | some s ↦
      retry_send l s (transport (literal "snapshot send timeout retry budget exhausted")) (λ s'. s')
]

-- The first request of a transfer opens an installer.
open_installer : SnapshotLifecycle → SnapshotMeta → SnapshotLifecycle × InstallState
unfolding new_install
open_installer l meta = elim l.installer [
  | some s ↦ (l, s)
  | none ↦ (
    record l {
      installer = some (new_install meta);
      status = record l.status {
        snapshot_id = some meta.snapshot_id;
        is_installing = true;
        is_sending = false;
        is_completed = false;
        received_chunks = 0;
        total_chunks = 0;
      };
    },
    new_install meta,
  )
]

complete_install : SnapshotLifecycle → Result Snapshot → Outcome SnapshotLifecycle (Option Snapshot)
complete_install l (err e) = (l, err e)
complete_install l (ok snapshot) = (
  record l {
    status = record l.status {
      is_installing = false;
      is_completed = true;
      installed_index = snapshot.meta.last_log_id.index;
    };
  },
  ok (some snapshot),
)

receive_chunk :
    SnapshotLifecycle → ℕ → Result InstallState → Outcome SnapshotLifecycle (Option Snapshot)
unfolding complete_install finish_install
receive_chunk l group_id (err e) = (l, err e)
receive_chunk l group_id (ok s) =
    let received = add_u64 l.status.received_chunks 1 in
    let status : LifecycleStatus = record l.status {
      received_chunks = received;
      total_chunks = max l.status.total_chunks received;
    } in
    if s.is_complete
    then complete_install (record l { status = status; installer = none })
        (finish_install s group_id)
    else (record l { status = status; installer = some s }, ok none)

unfoldable pub install_request :
    SnapshotLifecycle → InstallSnapshotRequest → Outcome SnapshotLifecycle (Option Snapshot)
unfolding open_installer receive_chunk install_chunk
install_request l request =
    let (l', s) = open_installer l request.chunk.meta in
    receive_chunk l' request.group_id (install_chunk s request.chunk)

unfoldable pub rollback_install : SnapshotLifecycle → SnapshotLifecycle
rollback_install l = record l {
  installer = none;
  status = record l.status { is_installing = false; rolled_back = add_u64 l.status.rolled_back 1 };
}

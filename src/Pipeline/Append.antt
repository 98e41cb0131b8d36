-- ===== src/Pipeline/Append.antt =====
-- Queueing, flushing and acknowledging appends (src/lib.rs).
pub mod Backpressure
pub mod Responses
use rust_raft.Types.{LogEntry, Outcome, err, invalid_request, literal, ok}
use rust_raft.Base.{
  Bool, List, Option, [], add_u64, first, if◌then◌else◌, is_empty, last_or, leb, length, ltb,
  map_or, max, min, none, not, saturating_add, saturating_sub, shift, some, suc, u64_max, zero, ℕ,
  ◌&&◌, ◌*◌, ◌++◌, ◌==◌, ◌^◌, ◌∷◌,
}
use rust_raft.Pipeline.State.{
  AppendEntriesResponse, InflightAppend, PipelineLimits, PipelineStatus, ReplicationPipeline,
}
use rust_raft.Pipeline.Reorder.{drain_reorder_queue}

unfoldable pub queued_bytes : List LogEntry → ℕ
queued_bytes [] = 0
queued_bytes (e ∷ es) = add_u64 (length e.payload) (queued_bytes es)

unfoldable pub queue_append :
    ReplicationPipeline → LogEntry → Outcome ReplicationPipeline (Unit {0})
unfolding queued_bytes
queue_append p entry =
    let bytes = length entry.payload in
    let s = p.status in
    if ltb p.limits.max_apply_batch_bytes bytes
    then (
      record p {
        status = record s { oversized_log_rejections = add_u64 s.oversized_log_rejections 1 };
      },
      err (invalid_request (literal "append entry exceeds max apply batch bytes")),
    )
    else if leb s.append_queue_limit (length p.append_queue)
    then (
      record p {
        status = record s {
          apply_backpressure_rejections = add_u64 s.apply_backpressure_rejections 1;
        };
      },
      err (invalid_request (literal "append queue backpressure limit reached")),
    )
    else if ltb p.limits.max_memory_replicate_log_bytes
        (add_u64 (add_u64 s.inflight_bytes (queued_bytes p.append_queue)) bytes)
    then (
      record p {
        status = record s {
          memory_backpressure_rejections = add_u64 s.memory_backpressure_rejections 1;
        };
      },
      err (invalid_request (literal "replication memory backpressure limit reached")),
    )
    else let queue = p.append_queue ++ entry ∷ [] in
      (
        record p {
          append_queue = queue;
          status = record s {
            append_queue_depth = length queue;
            append_queue_max_depth = max s.append_queue_max_depth (length queue);
          };
        },
        ok tt,
      )

pub record Batch : Type 0 where
  pub entries : List LogEntry
  pub bytes : ℕ
  pub left : List LogEntry

-- The inner loop of `flush_append_batch`: `taken` entries with `bytes` in all are in the batch.
unfoldable pub take_batch : PipelineLimits → ℕ → ℕ → ℕ → ℕ → ℕ → List LogEntry → Batch
take_batch limits max_entries max_bytes inflight_bytes taken bytes [] = record {
  entries = [];
  bytes = bytes;
  left = [];
}
take_batch limits max_entries max_bytes inflight_bytes taken bytes (e ∷ queue) =
    let stop : Batch = record { entries = []; bytes = bytes; left = e ∷ queue } in
    let entry_bytes = length e.payload in
    let later =
      take_batch limits max_entries max_bytes inflight_bytes (suc taken) (add_u64 bytes entry_bytes)
        queue in
    if not (ltb taken max_entries)
    then stop
    else if ltb 0 taken && ltb max_bytes (add_u64 bytes entry_bytes)
    then stop
    else if ltb limits.max_memory_replicate_log_bytes
        (add_u64 (add_u64 inflight_bytes bytes) entry_bytes)
    then stop
    else record later { entries = e ∷ later.entries }

-- A batch with an entry becomes an append in flight.
send_batch : ReplicationPipeline → LogEntry → Batch → ReplicationPipeline × InflightAppend
send_batch p first batch =
    let s = p.status in
    let append : InflightAppend = record {
      first_log_id = first.log_id;
      last_log_id = (last_or first batch.entries).log_id;
      entry_count = length batch.entries;
      bytes = batch.bytes;
    } in
    (
      record p {
        append_queue = batch.left;
        inflight = p.inflight ++ append ∷ [];
        status = record s {
          append_requests = add_u64 s.append_requests 1;
          append_batches = add_u64 s.append_batches 1;
          max_append_batch_entries = max s.max_append_batch_entries append.entry_count;
          max_append_batch_bytes = max s.max_append_batch_bytes append.bytes;
          inflight_entries = add_u64 s.inflight_entries append.entry_count;
          inflight_bytes = add_u64 s.inflight_bytes append.bytes;
        };
      },
      append,
    )

-- The outer loop, on fuel: each round but the last takes an entry off the queue.
unfoldable pub flush_loop :
    ℕ → ℕ → ℕ → ReplicationPipeline → ReplicationPipeline × List InflightAppend
unfolding take_batch send_batch
flush_loop zero max_entries max_bytes p = (p, [])
flush_loop (suc fuel) max_entries max_bytes p =
    if ltb p.status.inflight_entries p.limits.max_inflights_replicate
    then elim (first p.append_queue) [
      | none ↦ (p, [])
      | some front ↦
          let batch =
            take_batch p.limits max_entries max_bytes p.status.inflight_bytes 0 0 p.append_queue in
          let (p', append) = send_batch p front batch in
          let (p'', later) = flush_loop fuel max_entries max_bytes p' in
          if is_empty batch.entries
          then (
            record p {
              status = record p.status {
                memory_backpressure_rejections = add_u64 p.status.memory_backpressure_rejections 1;
              };
            },
            [],
          )
          else (p'', append ∷ later)
    ]
    else (p, [])

set_queue_depth :
    ReplicationPipeline × List InflightAppend → ReplicationPipeline × List InflightAppend
set_queue_depth (p, flushed) =
    (record p { status = record p.status { append_queue_depth = length p.append_queue } }, flushed)

unfoldable pub flush_append_batch :
    ReplicationPipeline → ℕ → ℕ → ReplicationPipeline × List InflightAppend
unfolding flush_loop set_queue_depth
flush_append_batch p max_entries max_bytes =
    set_queue_depth
      (flush_loop (suc (length p.append_queue)) (max max_entries 1) (max max_bytes 1) p)

unfoldable pub flush_append_window : ReplicationPipeline → ReplicationPipeline × List InflightAppend
unfolding flush_append_batch
flush_append_window p = flush_append_batch p 1 p.limits.max_apply_batch_bytes

-- The appends in flight, less those at the front that `match_index` covers.
unfoldable pub release_loop :
    ℕ → List InflightAppend → PipelineStatus → List InflightAppend × PipelineStatus
release_loop match_index [] s = ([], s)
release_loop match_index (a ∷ later) s =
    let rest = release_loop match_index later (record s {
      inflight_entries = saturating_sub s.inflight_entries a.entry_count;
      inflight_bytes = saturating_sub s.inflight_bytes a.bytes;
    }) in
    if leb a.last_log_id.index match_index then rest else (a ∷ later, s)

unfoldable pub release_inflight_through : ReplicationPipeline → ℕ → ReplicationPipeline
unfolding release_loop
release_inflight_through p match_index =
    let (inflight, status) = release_loop match_index p.inflight p.status in
    record p { inflight = inflight; status = status }

-- 10 << shift, at most 5000
unfoldable pub next_backoff_ms : ℕ → ℕ
next_backoff_ms retry_attempts =
    let shift = min (saturating_sub retry_attempts 1) 10 in min (min (10 * 2 ^ shift) u64_max) 5_000

count_stale_term : ReplicationPipeline → ℕ → ReplicationPipeline
count_stale_term p term =
    if term == 0
    then record p {
      status = record p.status { stale_term_rejections = add_u64 p.status.stale_term_rejections 1 };
    }
    else p

accept_append : ReplicationPipeline → ℕ → ReplicationPipeline
unfolding release_inflight_through drain_reorder_queue
accept_append p index =
    let s = p.status in
    let matched = max s.match_index index in
    let advanced : ReplicationPipeline = record p {
      status = record s {
        append_accepted = add_u64 s.append_accepted 1;
        match_index = matched;
        next_index = add_u64 matched 1;
      };
    } in
    let drained = drain_reorder_queue (release_inflight_through advanced index) in
    record drained {
      status = record drained.status {
        retry_attempts = 0;
        backoff_ms = 0;
        next_retry_after_ms = 0;
      };
    }

reject_append : ReplicationPipeline → Option ℕ → ReplicationPipeline
unfolding next_backoff_ms
reject_append p hint =
    let s = p.status in
    let attempts = add_u64 s.retry_attempts 1 in
    let backoff = next_backoff_ms attempts in
    record p {
      status = record s {
        append_rejected = add_u64 s.append_rejected 1;
        retry_attempts = attempts;
        backoff_ms = backoff;
        next_retry_after_ms = backoff;
        next_index = saturating_add (map_or s.match_index (λ i. i) hint) 1;
      };
    }

unfoldable pub handle_append_response :
    ReplicationPipeline → AppendEntriesResponse → Outcome ReplicationPipeline (Unit {0})
unfolding count_stale_term accept_append reject_append
handle_append_response p response =
    let p' = count_stale_term p response.term in
    if response.success then (accept_append p' response.match_index, ok tt) else (
      reject_append p' response.rejection_hint,
      err (invalid_request (literal "append rejected by peer pipeline")),
    )

unfoldable pub record_retry_backoff_tick : ReplicationPipeline → ℕ → ReplicationPipeline × Bool
record_retry_backoff_tick p elapsed_ms =
    let left = saturating_sub p.status.next_retry_after_ms elapsed_ms in
    (
      record p { status = record p.status { next_retry_after_ms = left } },
      left == 0 && ltb 0 p.status.retry_attempts,
    )

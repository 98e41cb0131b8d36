-- ===== src/Pipeline/Tests.antt =====
-- A peer's pipeline with small limits: runs, and one instance of each theorem.
use rust_raft.Base.{List, [], arith, none, refl, true, ℕ, ◌∷◌, ◌≡◌}
use rust_raft.Types.{LogEntry, err, invalid_request, literal}
use rust_raft.Base.BTreeMap.{get, remove}
use rust_raft.Pipeline.State.{PipelineLimits, ReplicationPipeline, new_pipeline}
use rust_raft.Pipeline.Reorder.{drain_reorder_queue, receive_out_of_order}
use rust_raft.Pipeline.Append.{flush_append_batch, flush_loop, handle_append_response, queue_append}
use rust_raft.Pipeline.Append.Backpressure.{
  Flushed, IsBounded, flush_append_batch-Flushed, flush_loop-fuel, queue_append-IsBounded,
}
use rust_raft.Pipeline.Append.Responses.{handle_append_response-IsBounded}
use rust_raft.Pipeline.Progress.{Drained, IsKeyed, drain_of, drain_reorder_queue-Drained}

abbrev small_limits : PipelineLimits
small_limits = record {
  max_inflights_replicate = 4;
  max_memory_replicate_log_bytes = 6;
  max_inflights_apply_task = 4;
  max_apply_batch_bytes = 4;
  enable_reorder_queue = true;
  reorder_window_size = 4;
  reorder_timeout_us = 100;
}

abbrev entry : ℕ → List ℕ → LogEntry
entry index payload = record { log_id = record { term = 1; index = index }; payload = payload }

abbrev with_queue : List LogEntry → ReplicationPipeline
with_queue queue = record (new_pipeline 2 1 small_limits) { append_queue = queue }

-- Two entries of two bytes wait.
abbrev two_queued : ReplicationPipeline
two_queued = with_queue (entry 1 (8 ∷ 8 ∷ []) ∷ entry 2 (9 ∷ 9 ∷ []) ∷ [])

two_queued-IsBounded : IsBounded two_queued
unfolding new_pipeline
two_queued-IsBounded = record {
  counted = refl;
  within = omega arith;
  queue_within = omega arith;
  room = omega arith;
}

queue_append-IsBounded_example : IsBounded (queue_append two_queued (entry 3 (7 ∷ []))).0
queue_append-IsBounded_example =
    queue_append-IsBounded two_queued (entry 3 (7 ∷ [])) two_queued-IsBounded

-- An entry of three bytes would pass the limit of six.
memory_run :
    (queue_append two_queued (entry 3 (7 ∷ 7 ∷ 7 ∷ []))).1
    ≡ err (invalid_request (literal "replication memory backpressure limit reached"))
unfolding queue_append new_pipeline
memory_run = refl

flush_append_batch-Flushed_example :
    Flushed two_queued (flush_append_batch two_queued 1 4).0 (flush_append_batch two_queued 1 4).1
flush_append_batch-Flushed_example = flush_append_batch-Flushed two_queued 1 4 two_queued-IsBounded

flush_loop-fuel_example : flush_loop 4 1 4 two_queued ≡ flush_loop 3 1 4 two_queued
flush_loop-fuel_example = flush_loop-fuel 3 1 4 two_queued (omega arith)

handle_append_response-IsBounded_example :
    IsBounded
      (handle_append_response two_queued
        (record { term = 1; success = true; match_index = 1; rejection_hint = none })).0
handle_append_response-IsBounded_example =
    handle_append_response-IsBounded two_queued
      (record { term = 1; success = true; match_index = 1; rejection_hint = none })
      two_queued-IsBounded

-- The entries 2, 3 and 5 wait, and 1 is the next one.
abbrev waiting : ReplicationPipeline
waiting = record (new_pipeline 2 1 small_limits) {
  reorder_queue = (2, entry 2 []) ∷ (3, entry 3 []) ∷ (5, entry 5 []) ∷ [];
}

waiting-IsKeyed : IsKeyed waiting.reorder_queue
unfolding get
waiting-IsKeyed = record { own_index = λ k e h. ground arith; below_max = λ k e h. ground arith }

abbrev second_held : ReplicationPipeline
second_held = record waiting { status = record waiting.status { match_index = 1; next_index = 2 } }

drain_reorder_queue-Drained_example :
    Drained (drain_of second_held) (drain_of (drain_reorder_queue second_held))
drain_reorder_queue-Drained_example = drain_reorder_queue-Drained second_held waiting-IsKeyed refl

-- The entry 1 lets 2 and 3 through, and 5 still waits.
drain_run : (receive_out_of_order waiting (entry 1 [])).0.reorder_queue ≡ (5, entry 5 []) ∷ []
unfolding receive_out_of_order new_pipeline get remove
drain_run = refl

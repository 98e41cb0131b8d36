-- ===== src/Pipeline/Reorder.antt =====
-- Entries that arrive before their turn (src/lib.rs).
use rust_raft.Types.{LogEntry, Outcome, err, invalid_request, literal, ok}
use rust_raft.Base.BTreeMap.{BTreeMap, get, insert, remove}
use rust_raft.Base.{
  [], add_u64, if◌then◌else◌, leb, length, ltb, none, not, some, suc, zero, ℕ, ◌==◌,
}
use rust_raft.Pipeline.State.{PipelineStatus, ReplicationPipeline}

-- The indexes of the peer while the queue is drained.
pub record Drain : Type 0 where
  pub match_index : ℕ
  pub next_index : ℕ
  pub queue : BTreeMap LogEntry

-- while let Some(entry) = reorder_queue.remove(&next_index): each round takes an entry out, so the
-- length of the queue is fuel enough.
unfoldable pub drain_loop : ℕ → Drain → Drain
drain_loop zero d = d
drain_loop (suc fuel) d = elim (get d.next_index d.queue) [
  | none ↦ d
  | some entry ↦ drain_loop fuel (record {
    match_index = entry.log_id.index;
    next_index = add_u64 entry.log_id.index 1;
    queue = remove d.next_index d.queue;
  })
]

put_drain : ReplicationPipeline → Drain → ReplicationPipeline
put_drain p d = record p {
  reorder_queue = d.queue;
  status = record p.status {
    match_index = d.match_index;
    next_index = d.next_index;
    reorder_queue_depth = length d.queue;
  };
}

unfoldable pub drain_reorder_queue : ReplicationPipeline → ReplicationPipeline
unfolding put_drain drain_loop
drain_reorder_queue p = put_drain p (
    drain_loop (length p.reorder_queue) (record {
      match_index = p.status.match_index;
      next_index = p.status.next_index;
      queue = p.reorder_queue;
    }))

unfoldable pub receive_out_of_order :
    ReplicationPipeline → LogEntry → Outcome ReplicationPipeline (Unit {0})
unfolding drain_reorder_queue insert
receive_out_of_order p entry =
    let index = entry.log_id.index in
    let s = p.status in
    let out_of_order : PipelineStatus = record s {
      out_of_order_append_rejections = add_u64 s.out_of_order_append_rejections 1;
    } in
    if ltb index s.next_index
    then (
      record p { status = out_of_order },
      err (invalid_request (literal "append is below peer next index")),
    )
    else if index == s.next_index
    then (
      drain_reorder_queue
          (record p { status = record s { match_index = index; next_index = add_u64 index 1 } }),
      ok tt,
    )
    else if not p.limits.enable_reorder_queue
    then (
      record p { status = out_of_order },
      err (
          invalid_request (literal "out-of-order append received while reorder queue is disabled")),
    )
    else if leb p.limits.reorder_window_size (length p.reorder_queue)
    then (
      record p {
        status = record s { reorder_entries_rejected = add_u64 s.reorder_entries_rejected 1 };
      },
      err (invalid_request (literal "reorder queue window is full")),
    )
    else let queue = insert index entry p.reorder_queue in
      (
        record p {
          reorder_queue = queue;
          status = record s { reorder_queue_depth = length queue };
        },
        ok tt,
      )

-- The pipeline after it, and the number of entries dropped.
unfoldable pub expire_reorder_queue : ReplicationPipeline → ReplicationPipeline × ℕ
expire_reorder_queue p =
    let dropped = length p.reorder_queue in
    let s = p.status in
    if ltb 0 dropped
    then (
      record p {
        reorder_queue = [];
        status = record s {
          reorder_queue_depth = 0;
          reorder_entry_timeouts = add_u64 s.reorder_entry_timeouts dropped;
          reorder_dropped_packages = add_u64 s.reorder_dropped_packages dropped;
        };
      },
      dropped,
    )
    else (p, dropped)

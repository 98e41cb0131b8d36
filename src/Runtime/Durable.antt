-- ===== src/Runtime/Durable.antt =====
-- The proposals of raft_node_runtime_loop (src/lib.rs): the cluster's answer, then the record of the
-- node appended to its log.
use rust_raft.Base.{List, ap, some, true, u64_max, ℕ, ◌<◌, ◌∙◌, ◌≡◌}
use rust_raft.Types.{LogId, Outcome, and_then, ok}
use rust_raft.Base.BTreeMap.{BTreeMap, get}
use rust_raft.Node.{RaftNode}
use rust_raft.Cluster.State.{Cluster}
use rust_raft.Cluster.Replicate.{propose}
use rust_raft.Cluster.Restore.{node_record, wal_record_for}
use rust_raft.Wal.Persistent.Lines.{Codec}
use rust_raft.Wal.Persistent.Log.{PersistentRaftWal, Stored, WriteReport, append_with_report}
use rust_raft.Wal.Persistent.Roll.{IsSynced, calm}
use rust_raft.Wal.Persistent.Append.{Extends, append_with_report-Extends}
use rust_raft.Wal.Persistent.Scan.{IsEncoded}
use rust_raft.Wal.Record.{stamp}
use rust_raft.Runtime.{
  Worker, handle, handle_propose, instead, log_id_reply, log_node, note_error, propose_and_log,
  propose_payload,
}

module _ (codec : Codec) where
  -- The answer to a proposal of which the node's record was appended.
  log_node-appended :
      (id : LogId) (w : Worker) (node : RaftNode) (s' : Stored) (rep : WriteReport)
      → get w.node_id w.cluster.nodes ≡ some node
      → append_with_report codec (node_record w.cluster w.node_id node) w.stored ≡ (s', ok rep)
      → log_node codec id w ≡ (record w { stored = s' }, ok id)
  unfolding log_node wal_record_for
  log_node-appended id w node s' rep found appended =
      rw (found, log_node)
        (ap (λ (o : Outcome Stored WriteReport). (record w { stored = o.0 }, instead id o.1))
          appended)

  handle_propose-logged :
      (payload : List ℕ) (w : Worker) (c : Cluster) (id : LogId) (s' : Stored)
      → propose w.cluster payload ≡ (c, ok id)
      → log_node codec id (record w { cluster = c })
        ≡ (record w { cluster = c; stored = s' }, ok id)
      → handle_propose codec payload w
        ≡ (record w { cluster = c; stored = s' }, log_id_reply (ok id))
  unfolding handle_propose propose_and_log
  handle_propose-logged payload w c id s' taken logged =
      ap (λ (o : Outcome Worker LogId). (note_error "propose" true o.1 o.0, log_id_reply o.1))
        (ap
            (λ (o : Outcome Cluster LogId).
              and_then (record w { cluster = o.0 }, o.1) (λ w' i. log_node codec i w'))
            taken
          ∙ logged)

  -- A proposal that the cluster takes, on a disk where no call fails, is answered with its log id, and
  -- the node's record after it is the last one in the log and in its files, which keep their shape.
  -- The record's text is as JSON gives it, the log was in its shape, and a segment id is left.
  pub propose_payload-Extends :
      (payload : List ℕ) (w : Worker) (c : Cluster) (id : LogId) (node : RaftNode)
      → (wal : PersistentRaftWal) (m : BTreeMap (List ℕ)) → propose w.cluster payload ≡ (c, ok id)
      → get w.node_id c.nodes ≡ some node
      → w.stored ≡ (wal, calm m)
      → IsEncoded codec (stamp (node_record c w.node_id node))
      → IsSynced codec wal m
      → wal.next_segment_id < u64_max
      → (v : PersistentRaftWal) × (n : BTreeMap (List ℕ)) × (handle codec
            (propose_payload payload)
            w
          ≡ (record w { cluster = c; stored = (v, calm n) }, log_id_reply (ok id)))
        × Extends codec (stamp (node_record c w.node_id node)) wal v n
  unfolding handle
  propose_payload-Extends payload w c id node wal m taken found on_calm enc synced room =
      let (v, n, rep, appended, extended, same) =
        append_with_report-Extends codec (node_record c w.node_id node) wal m enc synced room in
      (
        v,
        n,
        handle_propose-logged payload w c id (v, calm n) taken
            (log_node-appended id (record w { cluster = c }) node (v, calm n) rep found
              (ap (append_with_report codec (node_record c w.node_id node)) on_calm ∙ appended)),
        extended,
      )

-- ===== src/Snapshot/Lifecycle/Receiving.antt =====
-- What an installer makes of requests: install_request of RaftSnapshotLifecycle (src/lib.rs).
use rust_raft.Base.{
  Bool, Bool-cases, List, Option, [], ap, arith, false, inl, inr, length, ltb, ltb→lt, map, min,
  none, some, suc, take-all, u64_max, zero, ℕ, ◌+◌, ◌<◌, ◌∷◌, ◌≡◌, ◌≤◌,
}
use rust_raft.Types.{Outcome, Snapshot, err, ok}
use rust_raft.Snapshot.{SnapshotChunk, checkpoint, chunk_at, chunks_from, new_install}
use rust_raft.Snapshot.RoundTrip.{
  chunks_from-end, chunks_from-step, chunks_of, install_one, isize_max, or_empty_chunk-cons,
  progress,
}
use rust_raft.Snapshot.Lifecycle.{
  InstallSnapshotRequest, SnapshotLifecycle, install_request, open_installer,
}

-- The requests in turn, up to the first error; the result is that of the last one.
unfoldable pub receive_all :
    SnapshotLifecycle → List InstallSnapshotRequest → Outcome SnapshotLifecycle (Option Snapshot)
receive_all l [] = (l, ok none)
receive_all l (r ∷ []) = install_request l r
receive_all l (r ∷ r' ∷ rs) = elim (install_request l r).1 [
  | ok _ ↦ receive_all (install_request l r).0 (r' ∷ rs)
  | err e ↦ ((install_request l r).0, err e)
]

receive_all-cons :
    (l : SnapshotLifecycle) (r r' : InstallSnapshotRequest) (rs rs' : List InstallSnapshotRequest)
    → rs ≡ r' ∷ rs'
    → (install_request l r).1 ≡ ok none
    → receive_all l (r ∷ rs) ≡ receive_all (install_request l r).0 rs
unfolding receive_all
receive_all-cons l r r' rs rs' e h = rw (e, h, receive_all)

module _ (snapshot : Snapshot) (term leader_id : ℕ) where
  abbrev pub as_request : SnapshotChunk → InstallSnapshotRequest
  as_request chunk = record {
    group_id = snapshot.group_id;
    term = term;
    leader_id = leader_id;
    chunk = chunk;
  }

  receive_middle :
      (l : SnapshotLifecycle) (offset end : ℕ) (b : Bool)
      → l.installer ≡ some (progress snapshot offset b)
      → offset ≤ end
      → end < length snapshot.payload
      → length snapshot.payload ≤ isize_max
      → ((install_request l (as_request (chunk_at snapshot offset end))).1 ≡ ok none)
        × ((install_request l (as_request (chunk_at snapshot offset end))).0.installer
            ≡ some (progress snapshot end false))
  unfolding install_request
  receive_middle l offset end b e h k m = ground (arith, install_one snapshot offset end b)

  receive_last :
      (l : SnapshotLifecycle) (offset : ℕ) (b : Bool)
      → l.installer ≡ some (progress snapshot offset b)
      → offset ≤ length snapshot.payload
      → length snapshot.payload ≤ isize_max
      → let r =
          install_request l (as_request (chunk_at snapshot offset (length snapshot.payload))) in
        (r.1 ≡ ok (some snapshot))
        × (r.0.installer ≡ none)
        × (r.0.status.installed_index ≡ snapshot.meta.last_log_id.index)
  unfolding install_request
  receive_last l offset b e h m = ground (
    arith,
    install_one snapshot offset (length snapshot.payload) b,
    take-all (length snapshot.payload) snapshot.payload,
  )

  receive_rest :
      (l : SnapshotLifecycle) (fuel chunk_size offset : ℕ) (b : Bool)
      → l.installer ≡ some (progress snapshot offset b)
      → 0 < chunk_size
      → offset + chunk_size ≤ u64_max
      → length snapshot.payload ≤ isize_max
      → offset < length snapshot.payload
      → length snapshot.payload ≤ offset + fuel
      → let r =
          receive_all l (map as_request (chunks_from (suc fuel) snapshot chunk_size offset)) in
        (r.1 ≡ ok (some snapshot))
        × (r.0.installer ≡ none)
        × (r.0.status.installed_index ≡ snapshot.meta.last_log_id.index)
  unfolding receive_all
  receive_rest l zero chunk_size offset b e p q m h f = absurd (omega arith)
  receive_rest l (suc fuel) chunk_size offset b e p q m h f =
      let end = min (offset + chunk_size) (length snapshot.payload) in
      elim (Bool-cases (ltb end (length snapshot.payload))) [
        | inl more ↦
            let short : end < length snapshot.payload = ltb→lt _ _ more in
            let middle = receive_middle l offset end b e (omega arith) short m in
            let q' : end + chunk_size ≤ u64_max = omega arith in
            let later = chunks_from-step fuel snapshot chunk_size end short q' in
            rw
              (
                chunks_from-step (suc fuel) snapshot chunk_size offset h q,
                receive_all-cons l _ _ _ _ (ap (map as_request) later) middle.0,
              )
              (receive_rest (install_request l (as_request (chunk_at snapshot offset end))).0 fuel
                chunk_size end false middle.1 p q' m short (omega arith))
        | inr over ↦
            let last_end : end ≡ length snapshot.payload = ground arith in
            rw
              (
                chunks_from-step (suc fuel) snapshot chunk_size offset h q,
                last_end,
                chunks_from-end (suc fuel) snapshot chunk_size,
              )
              (receive_last l offset b e (omega arith) m)
      ]

  opened : SnapshotLifecycle → SnapshotLifecycle
  opened l = (open_installer l snapshot.meta).0

  opened-installer :
      (l : SnapshotLifecycle)
      → l.installer ≡ none
      → (opened l).installer ≡ some (progress snapshot 0 false)
  unfolding opened open_installer new_install
  opened-installer l e = rw (e, open_installer)

  install_request-opened :
      (l : SnapshotLifecycle) (end : ℕ)
      → l.installer ≡ none
      → install_request l (as_request (chunk_at snapshot 0 end))
        ≡ install_request (opened l) (as_request (chunk_at snapshot 0 end))
  unfolding install_request opened open_installer chunk_at
  install_request-opened l end e = rw (e, install_request)

  receive_all-opened :
      (l : SnapshotLifecycle) (end : ℕ) (rs : List InstallSnapshotRequest)
      → l.installer ≡ none
      → receive_all l (as_request (chunk_at snapshot 0 end) ∷ rs)
        ≡ receive_all (opened l) (as_request (chunk_at snapshot 0 end) ∷ rs)
  unfolding receive_all
  receive_all-opened l end [] e = install_request-opened l end e
  receive_all-opened l end (r ∷ rs) e = ap go_on (install_request-opened l end e)
    where
      go_on :
          Outcome SnapshotLifecycle (Option Snapshot) → Outcome SnapshotLifecycle (Option Snapshot)
      go_on o = elim o.1 [ ok _ ↦ receive_all o.0 (r ∷ rs) | err e' ↦ (o.0, err e') ]

  -- A snapshot cut by any chunk size and sent as requests, in order, to a lifecycle that installs
  -- nothing yet comes out whole with the last request; the installer is closed, and the status
  -- shows the snapshot's index. The payload is not empty and within isize::MAX bytes.
  pub receive_all-checkpoint :
      (l : SnapshotLifecycle) (chunk_size : ℕ)
      → l.installer ≡ none
      → 0 < chunk_size
      → chunk_size ≤ u64_max
      → 0 < length snapshot.payload
      → length snapshot.payload ≤ isize_max
      → (chunks : List SnapshotChunk) × (checkpoint snapshot chunk_size ≡ ok chunks)
        × (let r = receive_all l (map as_request chunks) in
            (r.1 ≡ ok (some snapshot))
            × (r.0.installer ≡ none)
            × (r.0.status.installed_index ≡ snapshot.meta.last_log_id.index))
  unfolding checkpoint chunks_of
  receive_all-checkpoint l chunk_size e p q n m =
      let start : 0 + chunk_size ≤ u64_max = omega arith in
      let cut = chunks_from-step (length snapshot.payload) snapshot chunk_size 0 n start in
      (
        chunks_of snapshot chunk_size,
        ground arith,
        rw (or_empty_chunk-cons snapshot _ _ _ cut, cut, receive_all-opened l _ _ e)
            (rw cut at (
              receive_rest (opened l) (length snapshot.payload) chunk_size 0 false
                (opened-installer l e) p start m n (omega arith))),
      )

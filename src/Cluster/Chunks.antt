-- ===== src/Cluster/Chunks.antt =====
-- Snapshots that arrive in chunks: install_snapshot_chunk_to and
-- install_snapshot_lifecycle_request_to of RaftCluster (src/lib.rs).
use rust_raft.Base.{
  Bool, Option, String, [], add_u64, ap, arith, false, if◌then◌else◌, last, length, max, none, not,
  refl, some, true, ℕ, ◌<◌, ◌==◌, ◌∙◌, ◌∷◌, ◌≡◌,
}
use rust_raft.Types.{
  ApplySnapshotFence, Outcome, Result, Snapshot, err, format, invalid_request, literal, ok, ◌>>=◌,
}
use rust_raft.Snapshot.{SnapshotChunk, finish_install, install_chunk, new_install}
use rust_raft.Snapshot.Lifecycle.{
  InstallSnapshotRequest, InstallSnapshotResponse, SnapshotLifecycle, install_request,
}
use rust_raft.Snapshot.RoundTrip.{meta_eq_refl}
use rust_raft.Cluster.State.{Cluster}
use rust_raft.Cluster.Install.{install_snapshot_to}

-- The fence of a snapshot that is installed whole.
abbrev pub fence_of : Snapshot → ApplySnapshotFence
fence_of s = record {
  applied_index = s.meta.last_log_id.index;
  commit_index = s.meta.last_log_id.index;
  installed_snapshot_index = s.meta.last_log_id.index;
  first_retained_log_index = add_u64 s.meta.last_log_id.index 1;
}

abbrev pub next_offset_of : InstallSnapshotRequest → ℕ
next_offset_of r = add_u64 r.chunk.offset (length r.chunk.bytes)

abbrev pub accepted : ℕ → ℕ → String → InstallSnapshotResponse
accepted term next_offset reason = record {
  term = term;
  accepted = true;
  next_offset = next_offset;
  reason = reason;
}

-- The snapshot that a chunk makes by itself.
unfoldable pub whole_chunk : Cluster → SnapshotChunk → Result Snapshot
unfolding install_chunk new_install finish_install
whole_chunk c chunk = do
  s ← install_chunk (new_install chunk.meta) chunk
  finish_install s c.group_id

-- The answer after an installation.
answer_installed :
    InstallSnapshotResponse → Outcome Cluster (Unit {0}) → Outcome Cluster InstallSnapshotResponse
answer_installed response (c, ok _) = (c, ok response)
answer_installed response (c, err e) = (c, err e)

unless-true {ℓ} : {A : Type ℓ} (b : Bool) (x y : A) → b ≡ true → (if not b then x else y) ≡ y
unless-true true x y h = refl
unless-true false x y h = absurd (ground arith)

module _ (installed_id : ℕ → ℕ → String) where
  install_whole :
      Cluster
      → ℕ
      → InstallSnapshotResponse
      → Result Snapshot
      → Outcome Cluster InstallSnapshotResponse
  unfolding install_snapshot_to answer_installed
  install_whole c target response (err e) = (c, err e)
  install_whole c target response (ok s) =
      answer_installed response (install_snapshot_to installed_id c target s (fence_of s))

  unfoldable pub install_snapshot_chunk_to :
      Cluster → ℕ → InstallSnapshotRequest → Outcome Cluster InstallSnapshotResponse
  unfolding install_whole whole_chunk
  install_snapshot_chunk_to c target r =
      let term = max c.current_term r.term in
      if not (r.group_id == c.group_id)
      then (c, err (invalid_request (literal "snapshot install group id mismatch")))
      else if not r.chunk.is_done
      then (c, ok (accepted term (next_offset_of r) "snapshot_chunk_accepted"))
      else install_whole c target (accepted term (next_offset_of r) "snapshot_installed")
          (whole_chunk c r.chunk)

  -- The lifecycle's answer decides: a snapshot is installed, and anything else is passed on.
  after_lifecycle :
      Cluster → ℕ → ℕ → Result (Option Snapshot) → Outcome Cluster InstallSnapshotResponse
  unfolding install_whole
  after_lifecycle c target next_offset (err e) = (c, err e)
  after_lifecycle c target next_offset (ok none) =
      (c, ok (accepted c.current_term next_offset "snapshot_chunk_accepted"))
  after_lifecycle c target next_offset (ok (some s)) =
      install_whole c target (accepted c.current_term next_offset "snapshot_installed") (ok s)

  -- The lifecycle after the request stands beside the cluster.
  unfoldable pub install_snapshot_lifecycle_request_to :
      Cluster
      → ℕ
      → SnapshotLifecycle
      → InstallSnapshotRequest
      → SnapshotLifecycle × Outcome Cluster InstallSnapshotResponse
  unfolding after_lifecycle install_request
  install_snapshot_lifecycle_request_to c target lifecycle r =
      if not (r.group_id == c.group_id)
      then (lifecycle, (c, err (invalid_request (literal "snapshot lifecycle group id mismatch"))))
      else let (lifecycle', result) = install_request lifecycle r in
        (lifecycle', after_lifecycle c target (next_offset_of r) result)

  whole_chunk-ahead :
      (c : Cluster) (chunk : SnapshotChunk)
      → 0 < chunk.offset
      → whole_chunk c chunk
        ≡ err (
            invalid_request (
              format "snapshot chunk offset {} does not match next offset {}"
                (chunk.offset ∷ 0 ∷ [])))
  unfolding whole_chunk
  whole_chunk-ahead c chunk h = ground (arith, meta_eq_refl chunk.meta)

  whole_chunk-first :
      (c : Cluster) (chunk : SnapshotChunk)
      → chunk.offset ≡ 0
      → chunk.is_done ≡ true
      → whole_chunk c chunk
        ≡ ok (record { group_id = c.group_id; meta = chunk.meta; payload = chunk.bytes })
  unfolding whole_chunk
  whole_chunk-first c chunk h d = ground (arith, meta_eq_refl chunk.meta)

  answer_installed-cluster :
      (response : InstallSnapshotResponse) (o : Outcome Cluster (Unit {0}))
      → (answer_installed response o).0 ≡ o.0
  unfolding answer_installed
  answer_installed-cluster response (c, ok x) = refl
  answer_installed-cluster response (c, err e) = refl

  -- What is left of the method once both of its tests are passed.
  install_last :
      (c : Cluster) (target : ℕ) (r : InstallSnapshotRequest)
      → (r.group_id == c.group_id) ≡ true
      → r.chunk.is_done ≡ true
      → install_snapshot_chunk_to c target r
        ≡ install_whole c target
            (accepted (max c.current_term r.term) (next_offset_of r) "snapshot_installed")
            (whole_chunk c r.chunk)
  unfolding install_snapshot_chunk_to
  install_last c target r same last =
      unless-true (r.group_id == c.group_id) _ _ same ∙ unless-true r.chunk.is_done _ _ last

  -- A chunk that is not the last is accepted and leaves the cluster as it was; a last chunk that
  -- starts at offset 0 is installed as the whole snapshot; a last chunk at any other offset is
  -- refused, and the cluster is as it was.
  pub install_snapshot_chunk_to_lem :
      (c : Cluster) (target : ℕ) (r : InstallSnapshotRequest)
      → r.group_id ≡ c.group_id
      → (r.chunk.is_done ≡ false
          → ((install_snapshot_chunk_to c target r).0 ≡ c)
            × ((install_snapshot_chunk_to c target r).1
                ≡ ok (
                    accepted
                      (max c.current_term r.term)
                      (next_offset_of r)
                      "snapshot_chunk_accepted")))
        × (r.chunk.is_done ≡ true
            → r.chunk.offset ≡ 0
            → let s : Snapshot = record {
              group_id = c.group_id;
              meta = r.chunk.meta;
              payload = r.chunk.bytes;
            } in
              (install_snapshot_chunk_to c target r).0
              ≡ (install_snapshot_to installed_id c target s (fence_of s)).0)
        × (r.chunk.is_done ≡ true
            → 0 < r.chunk.offset
            → ((install_snapshot_chunk_to c target r).0 ≡ c)
              × ((install_snapshot_chunk_to c target r).1
                  ≡ err (
                      invalid_request (
                        format "snapshot chunk offset {} does not match next offset {}"
                          (r.chunk.offset ∷ 0 ∷ [])))))
  unfolding install_snapshot_chunk_to
  install_snapshot_chunk_to_lem c target r g =
      let same : (r.group_id == c.group_id) ≡ true = ground arith in
      let installed =
        accepted (max c.current_term r.term) (next_offset_of r) "snapshot_installed" in
      (
        λ part. rw (same, part) (refl, refl),
        λ last start.
            ap (λ o. o.0) (install_last c target r same last)
            ∙ ap (λ w. (install_whole c target installed w).0)
                (whole_chunk-first c r.chunk start last)
            ∙ answer_installed-cluster installed _,
        λ last ahead.
            let refused = whole_chunk-ahead c r.chunk ahead in
            let all =
              install_last c target r same last ∙ ap (install_whole c target installed) refused in
            (ap (λ o. o.0) all, ap (λ o. o.1) all),
      )

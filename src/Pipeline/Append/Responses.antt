-- ===== src/Pipeline/Append/Responses.antt =====
-- What a response changes: handle_append_response of RaftReplicationPipeline (src/lib.rs).
use native.Mathlib.Nat.{pow-le-pow_right, one-le-pow}
use rust_raft.Base.{
  Bool-cases, List, Option, [], add_u64, arith, inl, inr, leb, max, min, saturating_sub, ℕ, ◌-◌,
  ◌<◌, ◌==◌, ◌∷◌, ◌≡◌, ◌≤◌,
}
use rust_raft.Pipeline.State.{
  AppendEntriesResponse, InflightAppend, PipelineStatus, ReplicationPipeline,
}
use rust_raft.Pipeline.Append.{
  accept_append, count_stale_term, handle_append_response, next_backoff_ms, reject_append,
  release_loop,
}
use rust_raft.Pipeline.Append.Backpressure.{IsBounded, sum_bytes}

-- What releasing leaves as it was, and what it keeps true of the bytes in flight.
record Released (i : ℕ) (appends : List InflightAppend) (s : PipelineStatus) : Type 0 where
  counted : (release_loop i appends s).1.inflight_bytes ≡ sum_bytes (release_loop i appends s).0
  fewer : (release_loop i appends s).1.inflight_bytes ≤ s.inflight_bytes
  same_limit : (release_loop i appends s).1.append_queue_limit ≡ s.append_queue_limit
  same_match : (release_loop i appends s).1.match_index ≡ s.match_index
  same_next : (release_loop i appends s).1.next_index ≡ s.next_index

release_loop-Released :
    (i : ℕ) (appends : List InflightAppend) (s : PipelineStatus)
    → s.inflight_bytes ≡ sum_bytes appends
    → Released i appends s
unfolding release_loop
release_loop-Released i [] s h = omega arith
release_loop-Released i (a ∷ later) s h =
    let s' : PipelineStatus = record s {
      inflight_entries = saturating_sub s.inflight_entries a.entry_count;
      inflight_bytes = saturating_sub s.inflight_bytes a.bytes;
    } in
    let ih = release_loop-Released i later s' (omega arith) in
    elim (Bool-cases (leb a.last_log_id.index i)) [
      | inl covered ↦ record {
        counted = rw (covered, release_loop) ih.counted;
        fewer = rw (covered, release_loop) (omega (arith, ih.fewer));
        same_limit = rw (covered, release_loop) ih.same_limit;
        same_match = rw (covered, release_loop) ih.same_match;
        same_next = rw (covered, release_loop) ih.same_next;
      }
      | inr ahead ↦ record {
        counted = rw (ahead, release_loop) h;
        fewer = rw (ahead, release_loop) (omega arith);
        same_limit = rw (ahead, release_loop);
        same_match = rw (ahead, release_loop);
        same_next = rw (ahead, release_loop);
      }
    ]

accept_append-IsBounded :
    (p : ReplicationPipeline) (i : ℕ) → IsBounded p → IsBounded (accept_append p i)
unfolding accept_append
accept_append-IsBounded p i v =
    let matched = max p.status.match_index i in
    let rel =
      release_loop-Released i p.inflight
        (record p.status {
          append_accepted = add_u64 p.status.append_accepted 1;
          match_index = matched;
          next_index = add_u64 matched 1;
        })
        v.counted in
    record {
      counted = rel.counted;
      within = omega (arith, rel.fewer, v.within);
      queue_within = omega (arith, rel.same_limit, v.queue_within);
      room = v.room;
    }

reject_append-IsBounded :
    (p : ReplicationPipeline) (hint : Option ℕ) → IsBounded p → IsBounded (reject_append p hint)
unfolding reject_append
reject_append-IsBounded p hint v = record {
  counted = v.counted;
  within = v.within;
  queue_within = v.queue_within;
  room = v.room;
}

count_stale_term-IsBounded :
    (p : ReplicationPipeline) (term : ℕ) → IsBounded p → IsBounded (count_stale_term p term)
unfolding count_stale_term
count_stale_term-IsBounded p term v = elim (Bool-cases (term == 0)) [
  | inl stale ↦ rw stale (record {
    counted = v.counted;
    within = v.within;
    queue_within = v.queue_within;
    room = v.room;
  })
  | inr fresh ↦ rw fresh v
]

-- An acknowledgement, a rejection or any other response keeps the memory invariant.
pub handle_append_response-IsBounded :
    (p : ReplicationPipeline) (r : AppendEntriesResponse)
    → IsBounded p
    → IsBounded (handle_append_response p r).0
unfolding handle_append_response
handle_append_response-IsBounded p r v =
    let v' = count_stale_term-IsBounded p r.term v in
    elim (Bool-cases r.success) [
      | inl good ↦ rw (good, handle_append_response) (accept_append-IsBounded _ r.match_index v')
      | inr bad ↦ rw (bad, handle_append_response) (reject_append-IsBounded _ r.rejection_hint v')
    ]

-- The back-off is 10 ms or more, never falls while the attempts rise, and is 5000 ms at most.
pub next_backoff_ms_bounds :
    (a b : ℕ)
    → a ≤ b
    → (10 ≤ next_backoff_ms a)
      × (next_backoff_ms a ≤ next_backoff_ms b)
      × (next_backoff_ms b ≤ 5_000)
unfolding next_backoff_ms
next_backoff_ms_bounds a b h =
    let shift_le : min (a - 1) 10 ≤ min (b - 1) 10 = omega arith in
    let two : 0 < 2 = omega arith in
    let rises = pow-le-pow_right {n = 2} two shift_le in
    let starts = one-le-pow (min (a - 1) 10) 2 two in
    (omega (arith, starts), omega (arith, rises), omega arith)

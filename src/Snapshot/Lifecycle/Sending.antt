-- ===== src/Snapshot/Lifecycle/Sending.antt =====
-- What a tick sends: poll_send_requests of RaftSnapshotLifecycle (src/lib.rs).
use rust_raft.Base.{
  List, [], add_u64, ap, arith, drop, length, map, max, refl, some, suc, take, u64_max, ℕ, ◌+◌, ◌<◌,
  ◌∷◌, ◌≡◌, ◌≤◌,
}
use rust_raft.Types.{ok}
use rust_raft.Snapshot.{SnapshotChunk}
use rust_raft.Snapshot.Lifecycle.{
  LifecycleConfig, SendState, SnapshotLifecycle, poll_send_requests, request_of, take_tick,
}

abbrev pub total_bytes : List SnapshotChunk → ℕ
total_bytes [] = 0
total_bytes (c ∷ cs) = length c.bytes + total_bytes cs

take_tick_prefix :
    (c : LifecycleConfig) (taken bytes : ℕ) (chunks : List SnapshotChunk)
    → (take_tick c taken bytes chunks).0 ≡ take (length (take_tick c taken bytes chunks).0) chunks
unfolding take_tick
take_tick_prefix c taken bytes [] = refl
take_tick_prefix c taken bytes (x ∷ xs) =
    ground (arith, take_tick_prefix c (suc taken) (add_u64 bytes (length x.bytes)) xs)

take_tick_limits :
    (c : LifecycleConfig) (taken bytes : ℕ) (chunks : List SnapshotChunk)
    → 0 < taken
    → bytes + total_bytes chunks ≤ u64_max
    → (taken + length (take_tick c taken bytes chunks).0 ≤ max taken c.max_chunks_per_tick)
      × (bytes + total_bytes (take_tick c taken bytes chunks).0 ≤ max bytes c.max_bytes_per_tick)
unfolding take_tick
take_tick_limits c taken bytes [] h b = omega arith
take_tick_limits c taken bytes (x ∷ xs) h b =
    ground (arith, take_tick_limits c (suc taken) (add_u64 bytes (length x.bytes)) xs)

-- What is taken after the first chunk is within the limit on bytes.
take_tick_bytes :
    (c : LifecycleConfig) (taken bytes : ℕ) (chunks : List SnapshotChunk)
    → 0 < taken
    → bytes + total_bytes chunks ≤ u64_max
    → 0 < length (take_tick c taken bytes chunks).0
    → bytes + total_bytes (take_tick c taken bytes chunks).0 ≤ c.max_bytes_per_tick
unfolding take_tick
take_tick_bytes c taken bytes [] h b n = absurd (omega arith)
take_tick_bytes c taken bytes (x ∷ xs) h b n =
    let next = add_u64 bytes (length x.bytes) in
    ground (arith, take_tick_limits c (suc taken) next xs)

tick_bounds :
    (c : LifecycleConfig) (rest : List SnapshotChunk)
    → 0 < c.max_chunks_per_tick
    → total_bytes rest ≤ u64_max
    → let taken = (take_tick c 0 0 rest).0 in
      (length taken ≤ c.max_chunks_per_tick)
      × (0 < length rest → 0 < length taken)
      × (1 < length taken → total_bytes taken ≤ c.max_bytes_per_tick)
unfolding take_tick
tick_bounds c [] p b = omega arith
tick_bounds c (x ∷ xs) p b =
    let one = add_u64 0 (length x.bytes) in
    ground (arith, take_tick_limits c 1 one xs, take_tick_bytes c 1 one xs)

-- A tick on an active transfer, with a positive limit on chunks and fewer than 2^64 bytes left,
-- sends the next chunks in order: at least one if any is left, at most `max_chunks_per_tick`, and
-- where it sends two or more, at most `max_bytes_per_tick` bytes. The sender moves on by as many
-- chunks as it sent.
pub poll_send_requests_lem :
    (l : SnapshotLifecycle) (s : SendState)
    → l.sender ≡ some s
    → 0 < l.config.max_chunks_per_tick
    → total_bytes (drop s.next_chunk s.chunks) ≤ u64_max
    → (n : ℕ) × (let sent = take n (drop s.next_chunk s.chunks) in
        ((poll_send_requests l).1 ≡ ok (map (request_of s) sent))
        × ((poll_send_requests l).0.sender ≡ some (record s { next_chunk = s.next_chunk + n }))
        × (n ≤ l.config.max_chunks_per_tick)
        × (0 < length (drop s.next_chunk s.chunks) → 0 < n)
        × (1 < n → total_bytes sent ≤ l.config.max_bytes_per_tick))
unfolding poll_send_requests
poll_send_requests_lem l s e p b =
    let rest = drop s.next_chunk s.chunks in
    let bounds = tick_bounds l.config rest p b in
    (
      length (take_tick l.config 0 0 rest).0,
      (
        rw (e, poll_send_requests)
            (ap (λ cs. ok (map (request_of s) cs)) (take_tick_prefix l.config 0 0 rest)),
        rw (e, poll_send_requests),
        bounds.0,
        bounds.1,
        rw (← take_tick_prefix l.config 0 0 rest) bounds.2,
      ),
    )

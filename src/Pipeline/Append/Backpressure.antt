-- ===== src/Pipeline/Append/Backpressure.antt =====
-- Queue, flights and limits: queue_append and flush_append_batch of RaftReplicationPipeline
-- (src/lib.rs).
use rust_raft.Base.{
  Bool-cases, List, Option-cases, [], add_u64, ap, append-nil, append_assoc, arith, false, first,
  inl, inr, is_empty, length, length-append, ltb, max, refl, some, suc, sym, u64_max, zero, ℕ, ◌++◌,
  ◌+◌, ◌<◌, ◌∙◌, ◌∷◌, ◌≡◌, ◌≤◌,
}
use rust_raft.Types.{LogEntry}
use rust_raft.Pipeline.State.{InflightAppend, PipelineLimits, ReplicationPipeline}
use rust_raft.Pipeline.Append.{
  Batch, flush_append_batch, flush_loop, queue_append, queued_bytes, send_batch, take_batch,
}

abbrev pub sum_bytes : List InflightAppend → ℕ
sum_bytes [] = 0
sum_bytes (a ∷ as') = a.bytes + sum_bytes as'

-- The bytes of the payloads, with no wrap-around.
abbrev pub payload_bytes : List LogEntry → ℕ
payload_bytes [] = 0
payload_bytes (e ∷ es) = length e.payload + payload_bytes es

-- The limits leave room for one more batch below 2^64, as the production limits do.
abbrev pub HasRoom : PipelineLimits → Type 0
HasRoom l = l.max_memory_replicate_log_bytes + l.max_apply_batch_bytes ≤ u64_max

-- The memory that a peer's pipeline takes: what is counted is what is in flight, and with the
-- queued payloads it is within the limit; the queue is no longer than its limit.
pub record IsBounded (p : ReplicationPipeline) : Type 0 where
  pub counted : p.status.inflight_bytes ≡ sum_bytes p.inflight
  pub within :
      p.status.inflight_bytes + payload_bytes p.append_queue
      ≤ p.limits.max_memory_replicate_log_bytes
  pub queue_within : length p.append_queue ≤ p.status.append_queue_limit
  pub room : HasRoom p.limits

pub queued_bytes-eq :
    (es : List LogEntry) → payload_bytes es ≤ u64_max → queued_bytes es ≡ payload_bytes es
unfolding queued_bytes
queued_bytes-eq [] h = refl
queued_bytes-eq (e ∷ es) h = omega (arith, queued_bytes-eq es (omega arith))

payload_bytes-append :
    (xs ys : List LogEntry) → payload_bytes (xs ++ ys) ≡ payload_bytes xs + payload_bytes ys
payload_bytes-append [] ys = omega arith
payload_bytes-append (x ∷ xs) ys = omega (arith, payload_bytes-append xs ys)

sum_bytes-append :
    (xs ys : List InflightAppend) → sum_bytes (xs ++ ys) ≡ sum_bytes xs + sum_bytes ys
sum_bytes-append [] ys = omega arith
sum_bytes-append (x ∷ xs) ys = omega (arith, sum_bytes-append xs ys)

-- Queueing an entry, taken or refused for its size, for the queue's length or for the memory, keeps
-- the memory invariant.
pub queue_append-IsBounded :
    (p : ReplicationPipeline) (e : LogEntry) → IsBounded p → IsBounded (queue_append p e).0
unfolding queue_append
queue_append-IsBounded p e v = ground (
  arith,
  queued_bytes-eq p.append_queue,
  payload_bytes-append p.append_queue (e ∷ []),
  length-append p.append_queue (e ∷ []),
)

-- A batch is a front part of the queue, its bytes are those of its entries, and with what is in
-- flight it fits the memory limit.
module _ (limits : PipelineLimits) (max_entries max_bytes inflight_bytes : ℕ) where
  abbrev cut : ℕ → ℕ → List LogEntry → Batch
  cut = take_batch limits max_entries max_bytes inflight_bytes

  cut-append :
      (taken bytes : ℕ) (queue : List LogEntry)
      → (cut taken bytes queue).entries ++ (cut taken bytes queue).left ≡ queue
  unfolding take_batch
  cut-append taken bytes [] = refl
  cut-append taken bytes (e ∷ queue) =
      ground (arith, cut-append (suc taken) (add_u64 bytes (length e.payload)) queue)

  cut-bytes :
      (taken bytes : ℕ) (queue : List LogEntry)
      → bytes + payload_bytes queue ≤ u64_max
      → (cut taken bytes queue).bytes ≡ bytes + payload_bytes (cut taken bytes queue).entries
  unfolding take_batch
  cut-bytes taken bytes [] h = omega arith
  cut-bytes taken bytes (e ∷ queue) h =
      ground (arith, cut-bytes (suc taken) (add_u64 bytes (length e.payload)) queue)

  cut-length :
      (taken bytes : ℕ) (queue : List LogEntry)
      → length queue ≡ length (cut taken bytes queue).entries + length (cut taken bytes queue).left
  cut-length taken bytes queue = omega (
    arith,
    ap length (cut-append taken bytes queue),
    length-append (cut taken bytes queue).entries (cut taken bytes queue).left,
  )

  cut-payload :
      (taken bytes : ℕ) (queue : List LogEntry)
      → payload_bytes queue
        ≡ payload_bytes (cut taken bytes queue).entries + payload_bytes (cut taken bytes queue).left
  cut-payload taken bytes queue = omega (
    arith,
    ap payload_bytes (cut-append taken bytes queue),
    payload_bytes-append (cut taken bytes queue).entries (cut taken bytes queue).left,
  )

abbrev pub sum_counts : List InflightAppend → ℕ
sum_counts [] = 0
sum_counts (a ∷ later) = a.entry_count + sum_counts later

-- One round of the outer loop.
send_batch-IsBounded :
    (p : ReplicationPipeline) (front : LogEntry) (max_entries max_bytes : ℕ)
    → IsBounded p
    → let batch =
        take_batch p.limits max_entries max_bytes p.status.inflight_bytes 0 0 p.append_queue in
      let sent = send_batch p front batch in
      IsBounded sent.0
      × (sent.0.inflight ≡ p.inflight ++ sent.1 ∷ [])
      × (sent.1.entry_count + length sent.0.append_queue ≡ length p.append_queue)
unfolding send_batch
send_batch-IsBounded p front max_entries max_bytes v =
    let ib = p.status.inflight_bytes in
    let bytes = cut-bytes p.limits max_entries max_bytes ib 0 0 p.append_queue in
    let len = cut-length p.limits max_entries max_bytes ib 0 0 p.append_queue in
    let pay = cut-payload p.limits max_entries max_bytes ib 0 0 p.append_queue in
    let batch = take_batch p.limits max_entries max_bytes ib 0 0 p.append_queue in
    ground (arith, bytes, len, pay, sum_bytes-append p.inflight ((send_batch p front batch).1 ∷ []))

-- After the outer loop: the invariant, and every entry is still queued or in a flushed append.
pub record Flushed (p p' : ReplicationPipeline) (flushed : List InflightAppend) : Type 0 where
  pub bounded : IsBounded p'
  pub in_order : p'.inflight ≡ p.inflight ++ flushed
  pub none_lost : sum_counts flushed + length p'.append_queue ≡ length p.append_queue

flush_loop-Flushed :
    (fuel max_entries max_bytes : ℕ) (p : ReplicationPipeline)
    → IsBounded p
    → Flushed p
        (flush_loop fuel max_entries max_bytes p).0
        (flush_loop fuel max_entries max_bytes p).1
unfolding flush_loop
flush_loop-Flushed zero max_entries max_bytes p v = record {
  bounded = v;
  in_order = sym (append-nil p.inflight);
  none_lost = omega arith;
}
flush_loop-Flushed (suc fuel) max_entries max_bytes p v =
    elim (Bool-cases (ltb p.status.inflight_entries p.limits.max_inflights_replicate)) [
      | inr full ↦
          rw (flush_loop, full)
            (record {
              bounded = v;
              in_order = sym (append-nil p.inflight);
              none_lost = omega arith;
            })
      | inl open_window ↦ elim (Option-cases (first p.append_queue)) [
        | inl empty ↦
            rw (flush_loop, open_window, empty)
              (record {
                bounded = v;
                in_order = sym (append-nil p.inflight);
                none_lost = omega arith;
              })
        | inr (front, e) ↦
            let queue = p.append_queue in
            let batch =
              take_batch p.limits max_entries max_bytes p.status.inflight_bytes 0 0 queue in
            let sent = send_batch p front batch in
            let step = send_batch-IsBounded p front max_entries max_bytes v in
            elim (Bool-cases (is_empty batch.entries)) [
              | inl none_fit ↦
                  rw (flush_loop, open_window, e, none_fit)
                    (record {
                      bounded = ground arith;
                      in_order = sym (append-nil p.inflight);
                      none_lost = omega arith;
                    })
              | inr some_fit ↦
                  let later = flush_loop-Flushed fuel max_entries max_bytes sent.0 step.0 in
                  rw (flush_loop, open_window, e, some_fit)
                    (record {
                      bounded = later.bounded;
                      in_order =
                          later.in_order
                          ∙ ap (λ xs. xs ++ (flush_loop fuel max_entries max_bytes sent.0).1) step.1
                          ∙ append_assoc p.inflight (sent.1 ∷ []) _;
                      none_lost = omega (arith, later.none_lost, step.2);
                    })
            ]
      ]
    ]

-- A flush keeps the memory invariant, whatever the sizes asked for; the appends that it returns
-- are put behind those in flight; and each queued entry is counted in one of them or still queued.
pub flush_append_batch-Flushed :
    (p : ReplicationPipeline) (max_entries max_bytes : ℕ)
    → IsBounded p
    → Flushed p
        (flush_append_batch p max_entries max_bytes).0
        (flush_append_batch p max_entries max_bytes).1
unfolding flush_append_batch
flush_append_batch-Flushed p max_entries max_bytes v =
    let f = suc (length p.append_queue) in
    let loop = flush_loop-Flushed f (max max_entries 1) (max max_bytes 1) p v in
    record {
      bounded = record {
        counted = loop.bounded.counted;
        within = loop.bounded.within;
        queue_within = loop.bounded.queue_within;
        room = loop.bounded.room;
      };
      in_order = loop.in_order;
      none_lost = loop.none_lost;
    }

length-left :
    (limits : PipelineLimits) (max_entries max_bytes ib : ℕ) (queue : List LogEntry)
    → is_empty (take_batch limits max_entries max_bytes ib 0 0 queue).entries ≡ false
    → length (take_batch limits max_entries max_bytes ib 0 0 queue).left < length queue
length-left limits max_entries max_bytes ib queue h =
    ground (arith, cut-length limits max_entries max_bytes ib 0 0 queue)

-- A round depends on the fuel left only through the rest of the loop.
flush_loop-round :
    (f g max_entries max_bytes : ℕ) (p : ReplicationPipeline)
    → ((front : LogEntry)
        → let batch =
            take_batch p.limits max_entries max_bytes p.status.inflight_bytes 0 0 p.append_queue in
          let rest = (send_batch p front batch).0 in
          first p.append_queue ≡ some front
          → is_empty batch.entries ≡ false
          → flush_loop f max_entries max_bytes rest ≡ flush_loop g max_entries max_bytes rest)
    → flush_loop (suc f) max_entries max_bytes p ≡ flush_loop (suc g) max_entries max_bytes p
unfolding flush_loop
flush_loop-round f g max_entries max_bytes p same = elim (Option-cases (first p.append_queue)) [
  | inl empty ↦ rw empty
  | inr (front, e) ↦
      let ib = p.status.inflight_bytes in
      let batch = take_batch p.limits max_entries max_bytes ib 0 0 p.append_queue in
      elim (Bool-cases (is_empty batch.entries)) [
        | inl none_fit ↦ rw (e, none_fit)
        | inr some_fit ↦ rw (e, some_fit, same front e some_fit)
      ]
]

-- More fuel than entries in the queue changes nothing: with the fuel of `flush_append_batch` the
-- loop always ends by one of its own tests.
pub flush_loop-fuel :
    (fuel max_entries max_bytes : ℕ) (p : ReplicationPipeline)
    → length p.append_queue < fuel
    → flush_loop (suc fuel) max_entries max_bytes p ≡ flush_loop fuel max_entries max_bytes p
flush_loop-fuel zero max_entries max_bytes p h = absurd (omega arith)
flush_loop-fuel (suc fuel) max_entries max_bytes p h =
    flush_loop-round (suc fuel) fuel max_entries max_bytes p λ front e some_fit.
      flush_loop-fuel fuel max_entries max_bytes _ (
        unfold send_batch in
        omega (
          arith,
          length-left p.limits max_entries max_bytes p.status.inflight_bytes p.append_queue
              some_fit,
        ))

-- ===== src/Pipeline/Progress.antt =====
-- A peer's indexes and reorder queue: drain_reorder_queue and receive_out_of_order of
-- RaftReplicationPipeline (src/lib.rs).
use rust_raft.Types.{LogEntry, err, invalid_request, literal, ok}
use rust_raft.Base.{
  Bool-cases, Option-cases, [], add_u64, arith, false, inl, inr, is_some, length, ltb, none, refl,
  some, suc, true, u64_max, zero, ℕ, ◌<◌, ◌==◌, ◌∷◌, ◌≡◌, ◌≤◌,
}
use rust_raft.Pipeline.State.{ReplicationPipeline}
use rust_raft.Base.BTreeMap.{BTreeMap, get, get-insert, get-remove, insert, remove}
use rust_raft.Pipeline.Reorder.{Drain, drain_loop, drain_reorder_queue, receive_out_of_order}

-- Each entry waits under its own index, which has a successor below 2^64.
pub record IsKeyed (queue : BTreeMap LogEntry) : Type 0 where
  pub own_index : (k : ℕ) (e : LogEntry) → get k queue ≡ some e → e.log_id.index ≡ k
  pub below_max : (k : ℕ) (e : LogEntry) → get k queue ≡ some e → k < u64_max

remove-IsKeyed : (k : ℕ) (queue : BTreeMap LogEntry) → IsKeyed queue → IsKeyed (remove k queue)
remove-IsKeyed k queue v = record {
  own_index = λ j e h. v.own_index j e (ground (arith, get-remove k j queue));
  below_max = λ j e h. v.below_max j e (ground (arith, get-remove k j queue));
}

insert-IsKeyed :
    (e : LogEntry) (queue : BTreeMap LogEntry)
    → e.log_id.index < u64_max
    → IsKeyed queue
    → IsKeyed (insert e.log_id.index e queue)
insert-IsKeyed e queue b v = record {
  own_index = λ j x h. ground (arith, get-insert e.log_id.index j e queue, v.own_index j x);
  below_max = λ j x h. ground (arith, get-insert e.log_id.index j e queue, v.below_max j x);
}

length-remove : (k : ℕ) (queue : BTreeMap LogEntry) → length (remove k queue) ≤ length queue
unfolding remove
length-remove k [] = omega arith
length-remove k ((j, e) ∷ queue) = ground (arith, length-remove k queue)

length-remove-lt :
    (k : ℕ) (e : LogEntry) (queue : BTreeMap LogEntry)
    → get k queue ≡ some e
    → length (remove k queue) < length queue
unfolding remove get
length-remove-lt k e [] h = cc
length-remove-lt k e ((j, x) ∷ queue) h =
    ground (arith, length-remove k queue, length-remove-lt k e queue)

-- What draining does to the indexes `next` and the queue: it takes exactly the run of entries that
-- starts at `next`, and stops at the first index that has none.
pub record Drained (d d' : Drain) : Type 0 where
  pub stops : get d'.next_index d'.queue ≡ none
  pub forward : d.next_index ≤ d'.next_index
  pub run : (j : ℕ) → d.next_index ≤ j → j < d'.next_index → is_some (get j d.queue) ≡ true
  pub taken : (j : ℕ) → d.next_index ≤ j → j < d'.next_index → get j d'.queue ≡ none
  pub below : (j : ℕ) → j < d.next_index → get j d'.queue ≡ get j d.queue
  pub rest : (j : ℕ) → d'.next_index ≤ j → get j d'.queue ≡ get j d.queue
  pub successor : d'.next_index ≡ suc d'.match_index

no-entry : (d : Drain) → length d.queue ≤ 0 → get d.next_index d.queue ≡ none
no-entry d h = elim (Option-cases (get d.next_index d.queue)) [
  | inl e ↦ e
  | inr (x, e) ↦ absurd (omega (arith, length-remove-lt d.next_index x d.queue e))
]

stopped :
    (d : Drain) → d.next_index ≡ suc d.match_index → get d.next_index d.queue ≡ none → Drained d d
stopped d n e = record {
  stops = e;
  forward = omega arith;
  run = λ j h k. absurd (omega arith);
  taken = λ j h k. absurd (omega arith);
  below = λ j h. refl;
  rest = λ j h. refl;
  successor = n;
}

-- The drain after one round.
abbrev round : Drain → LogEntry → Drain
round d x = record {
  match_index = x.log_id.index;
  next_index = add_u64 x.log_id.index 1;
  queue = remove d.next_index d.queue;
}

one_more :
    (d d' : Drain) (x : LogEntry)
    → IsKeyed d.queue
    → get d.next_index d.queue ≡ some x
    → Drained (round d x) d'
    → Drained d d'
one_more d d' x v e r =
    let own : x.log_id.index ≡ d.next_index = v.own_index d.next_index x e in
    let small : d.next_index < u64_max = v.below_max d.next_index x e in
    let next : add_u64 x.log_id.index 1 ≡ suc d.next_index = omega arith in
    record {
      stops = r.stops;
      forward = omega (arith, r.forward);
      run = λ j h k. elim (Bool-cases (d.next_index == j)) [
        | inl same ↦ let here : j ≡ d.next_index = ground arith in rw (here, e)
        | inr other ↦
            let above : suc d.next_index ≤ j = ground arith in
            ground (arith, r.run j (omega arith) k, get-remove d.next_index j d.queue)
      ];
      taken = λ j h k. elim (Bool-cases (d.next_index == j)) [
        | inl same ↦ ground (arith, r.below j, get-remove d.next_index j d.queue)
        | inr other ↦ let above : suc d.next_index ≤ j = ground arith in r.taken j (omega arith) k
      ];
      below = λ j h. ground (arith, r.below j, get-remove d.next_index j d.queue);
      rest = λ j h. ground (arith, r.rest j h, r.forward, get-remove d.next_index j d.queue);
      successor = r.successor;
    }

drain_loop-Drained :
    (fuel : ℕ) (d : Drain)
    → length d.queue ≤ fuel
    → IsKeyed d.queue
    → d.next_index ≡ suc d.match_index
    → Drained d (drain_loop fuel d)
unfolding drain_loop
drain_loop-Drained zero d h v n = stopped d n (no-entry d h)
drain_loop-Drained (suc fuel) d h v n = elim (Option-cases (get d.next_index d.queue)) [
  | inl e ↦ rw (e, drain_loop) (stopped d n e)
  | inr (x, e) ↦
      rw (e, drain_loop)
        (one_more d _ x v e (
          drain_loop-Drained fuel (round d x)
            (omega (arith, length-remove-lt d.next_index x d.queue e))
            (remove-IsKeyed d.next_index d.queue v)
            (omega (arith, v.own_index d.next_index x e, v.below_max d.next_index x e))))
]

abbrev pub drain_of : ReplicationPipeline → Drain
drain_of p = record {
  match_index = p.status.match_index;
  next_index = p.status.next_index;
  queue = p.reorder_queue;
}

-- Draining the reorder queue takes exactly the run of waiting entries that starts at the peer's
-- next index, keeps every other entry, and leaves the next index one above the match index, at an
-- index for which no entry waits.
pub drain_reorder_queue-Drained :
    (p : ReplicationPipeline)
    → IsKeyed p.reorder_queue
    → p.status.next_index ≡ suc p.status.match_index
    → Drained (drain_of p) (drain_of (drain_reorder_queue p))
unfolding drain_reorder_queue
drain_reorder_queue-Drained p v n =
    drain_loop-Drained (length p.reorder_queue) (drain_of p) (omega arith) v n

-- An entry that arrives at exactly the next index moves the match index to it or further; one that
-- arrives early and is taken waits under its index and leaves the match index; one that arrives
-- late is refused, and the match index and the queue stay.
pub receive_out_of_order_lem :
    (p : ReplicationPipeline) (e : LogEntry)
    → IsKeyed p.reorder_queue
    → e.log_id.index < u64_max
    → let i = e.log_id.index in
      let r = receive_out_of_order p e in
      (i ≡ p.status.next_index → (r.1 ≡ ok tt) × (i ≤ r.0.status.match_index))
      × (p.status.next_index < i
          → r.1 ≡ ok tt
          → (get i r.0.reorder_queue ≡ some e) × (r.0.status.match_index ≡ p.status.match_index))
      × (i < p.status.next_index
          → (r.0.status.match_index ≡ p.status.match_index)
            × (r.0.reorder_queue ≡ p.reorder_queue)
            × (r.1 ≡ err (invalid_request (literal "append is below peer next index"))))
unfolding receive_out_of_order
receive_out_of_order_lem p e v b =
    let i = e.log_id.index in
    let s = p.status in
    (
      λ h.
          let in_order : (i == s.next_index) ≡ true = ground arith in
          let not_late : ltb i s.next_index ≡ false = ground arith in
          let moved : ReplicationPipeline = record p {
            status = record s { match_index = i; next_index = add_u64 i 1 };
          } in
          let drained = drain_reorder_queue-Drained moved v (omega arith) in
          rw (not_late, in_order) (refl, omega (arith, drained.forward, drained.successor)),
      λ h.
          let not_late : ltb i s.next_index ≡ false = ground arith in
          let early : (i == s.next_index) ≡ false = ground arith in
          rw (not_late, early) (λ k. ground (arith, get-insert i i e p.reorder_queue)),
      λ h. let late : ltb i s.next_index ≡ true = ground arith in rw late (refl, refl, refl),
    )

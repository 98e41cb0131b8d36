-- ===== src/Wal/Local/Append.antt =====
-- LocalRaftWal::append (src/lib.rs), once and for a list of records.
use rust_raft.Types.{ok}
use mathlib.Core.Path.{subst}
use rust_raft.Base.{
  Bool-cases, List, [], add_u64, add_u64-le, ap, append-nil, append_assoc, arith, inl, inr, last,
  last-append, last_or, leb, length, map, refl, some, suc, sym, u64_max, ℕ, ◌++◌, ◌+◌, ◌<◌, ◌∙◌,
  ◌∷◌, ◌≡◌, ◌≤◌,
}
use rust_raft.Wal.Record.{WalRecord, stamp, wal_checksum}
use rust_raft.Wal.Segments.{
  Segment, empty_segment, modify_last, push_record, records-append, records-seal, seal,
}
use rust_raft.Wal.Local.Chain.{
  IsChain, IsWal, push-IsChain-last, records-push_record-last, roll-IsChain,
}
use rust_raft.Wal.Local.{LocalRaftWal, append, append_all, is_full, push, records, roll}

-- What `append` promises: the log keeps its shape and gains the record, stamped, at its end.
pub record Appended (r : WalRecord) (w w' : LocalRaftWal) : Type 0 where
  pub wal_lem : IsWal w'
  pub records_lem : records w' ≡ records w ++ stamp r ∷ []
  pub capacity_lem : w'.max_records_per_segment ≡ w.max_records_per_segment
  pub id_bound : w'.next_segment_id ≤ suc w.next_segment_id

-- The log after `roll`: room in its last segment, and no record lost.
record Rolled (w w' : LocalRaftWal) (s : Segment) : Type 0 where
  last_lem : last w'.segments ≡ some s
  room : length s.records < w.max_records_per_segment
  chain : IsChain w.max_records_per_segment w'.next_segment_id w'.segments
  records_lem : records w' ≡ records w
  capacity_lem : w'.max_records_per_segment ≡ w.max_records_per_segment
  id_bound : w'.next_segment_id ≤ suc w.next_segment_id

abbrev wal : ℕ → ℕ → List Segment → LocalRaftWal
wal m n ss = record { max_records_per_segment = m; segments = ss; next_segment_id = n }

module _ (m n : ℕ) (s : Segment) (ss : List Segment) (chain : IsChain m n (s ∷ ss)) where
  full-Rolled :
      0 < m
      → n < u64_max
      → m ≤ length (last_or s ss).records
      → Rolled
          (wal m n (s ∷ ss))
          (wal m (add_u64 n 1) (modify_last seal (s ∷ ss) ++ empty_segment n ∷ []))
          (empty_segment n)
  unfolding records empty_segment
  full-Rolled p q f = record {
    last_lem = last-append (modify_last seal (s ∷ ss)) (empty_segment n);
    room = p;
    chain =
        subst (λ k. IsChain m k (modify_last seal (s ∷ ss) ++ empty_segment n ∷ []))
          (let e : suc n ≡ add_u64 n 1 = omega arith in e) (roll-IsChain m n s ss chain f);
    records_lem =
        records-append (modify_last seal (s ∷ ss)) (empty_segment n ∷ [])
        ∙ append-nil _
        ∙ records-seal (s ∷ ss);
    capacity_lem = refl;
    id_bound = omega (arith, add_u64-le n 1);
  }

  room-Rolled :
      length (last_or s ss).records < m
      → Rolled (wal m n (s ∷ ss)) (wal m n (s ∷ ss)) (last_or s ss)
  room-Rolled h = record {
    last_lem = refl;
    room = h;
    chain = chain;
    records_lem = refl;
    capacity_lem = refl;
    id_bound = omega arith;
  }

  roll-Rolled :
      0 < m → n < u64_max → (x : Segment) × Rolled (wal m n (s ∷ ss)) (roll (wal m n (s ∷ ss))) x
  unfolding roll is_full
  roll-Rolled p q = elim (Bool-cases (leb m (length (last_or s ss).records))) [
    | inl t ↦ rw t (empty_segment n, full-Rolled p q (ground arith))
    | inr f ↦ rw f (last_or s ss, room-Rolled (ground arith))
  ]

push-Appended :
    (r : WalRecord) (x : Segment) (w w' : LocalRaftWal)
    → 0 < w.max_records_per_segment
    → Rolled w w' x
    → (v : LocalRaftWal) × (push (stamp r) w' ≡ (v, ok (wal_checksum r))) × Appended r w v
unfolding push records
push-Appended r x w w' p h = (
  record w' { segments = modify_last (push_record (stamp r)) w'.segments },
  rw (h.last_lem, push) (unfold stamp in refl),
  record {
    wal_lem = (
      rw h.capacity_lem p,
      rw h.capacity_lem (push-IsChain-last _ _ (stamp r) x w'.segments h.last_lem h.chain h.room),
    );
    records_lem =
        records-push_record-last (stamp r) x w'.segments h.last_lem
        ∙ ap (λ xs. xs ++ stamp r ∷ []) (unfold records in h.records_lem);
    capacity_lem = h.capacity_lem;
    id_bound = h.id_bound;
  },
)

append-wal :
    (r : WalRecord) (m n : ℕ) (ss : List Segment)
    → 0 < m
    → IsChain m n ss
    → n < u64_max
    → (v : LocalRaftWal) × (append r (wal m n ss) ≡ (v, ok (wal_checksum r)))
      × Appended r (wal m n ss) v
unfolding append
append-wal r m n [] p c q = absurd c
append-wal r m n (s ∷ ss) p c q =
    let (x, h) = roll-Rolled m n s ss c p q in
    push-Appended r x (wal m n (s ∷ ss)) (roll (wal m n (s ∷ ss))) p h

-- `append` never fails on a well-formed log with a segment id left: it returns the checksum of the
-- record, keeps the log well-formed, and the records are the old ones and the stamped record.
pub append-Appended :
    (r : WalRecord) (w : LocalRaftWal)
    → IsWal w
    → w.next_segment_id < u64_max
    → (v : LocalRaftWal) × (append r w ≡ (v, ok (wal_checksum r))) × Appended r w v
append-Appended r w (p, c) q = append-wal r _ _ w.segments p c q

-- What a run of appends promises.
pub record Extended (rs : List WalRecord) (w w' : LocalRaftWal) : Type 0 where
  pub wal_lem : IsWal w'
  pub records_lem : records w' ≡ records w ++ map stamp rs
  pub capacity_lem : w'.max_records_per_segment ≡ w.max_records_per_segment

pub append_all-Extended :
    (rs : List WalRecord) (w : LocalRaftWal)
    → IsWal w
    → w.next_segment_id + length rs ≤ u64_max
    → (v : LocalRaftWal) × (append_all rs w ≡ (v, ok tt)) × Extended rs w v
unfolding append_all
append_all-Extended [] w h q = (
  w,
  refl,
  record { wal_lem = h; records_lem = sym (append-nil (records w)); capacity_lem = refl },
)
append_all-Extended (r ∷ rs) w h q =
    let (v, e, a) = append-Appended r w h (omega arith) in
    let (u, f, x) = append_all-Extended rs v a.wal_lem (omega (arith, a.id_bound)) in
    (
      u,
      rw e f,
      record {
        wal_lem = x.wal_lem;
        records_lem =
            x.records_lem
            ∙ ap (λ k. k ++ map stamp rs) a.records_lem
            ∙ append_assoc (records w) (stamp r ∷ []) (map stamp rs);
        capacity_lem = x.capacity_lem ∙ a.capacity_lem;
      },
    )

-- ===== src/Wal/Local/Chain.antt =====
-- The segments of LocalRaftWal (src/lib.rs) as a chain, over new, append and recover.
use rust_raft.Base.{
  List, [], ap, arith, false, first, if◌then◌else◌, is_empty, last, last-append, last_or, length,
  length-append, map_or, max, refl, some, suc, sym, true, ℕ, ◌++◌, ◌<◌, ◌∷◌, ◌≡◌, ◌≤◌,
}
use rust_raft.Wal.Record.{WalRecord}
use rust_raft.Wal.Segments.{
  Segment, all_records, empty_segment, modify_last, push_record, record_index, records-push_record,
  seal,
}
use rust_raft.Wal.Local.{LocalRaftWal, fresh_wal}

-- The indexes that a segment shows are those of its first and its last record.
pub record IsIndexed (s : Segment) : Type 0 where
  pub first_lem : s.first_index ≡ map_or 0 record_index (first s.records)
  pub last_lem : s.last_index ≡ map_or 0 record_index (last s.records)

-- The segments of a log: each before the last is sealed and full, the last is open, and the ids
-- count up to the next one.
abbrev pub IsChain : ℕ → ℕ → List Segment → Type 0
IsChain max next [] = ⊥
IsChain max next (s ∷ []) =
    (s.sealed ≡ false) × (length s.records ≤ max) × (suc s.segment_id ≡ next) × IsIndexed s
IsChain max next (s ∷ t ∷ ss) =
    (s.sealed ≡ true)
    × (length s.records ≡ max)
    × (suc s.segment_id ≡ t.segment_id)
    × IsIndexed s
    × IsChain max next (t ∷ ss)

abbrev pub IsWal : LocalRaftWal → Type 0
IsWal w =
    (0 < w.max_records_per_segment) × IsChain w.max_records_per_segment w.next_segment_id w.segments

first-push :
    (s : Segment) (r : WalRecord) (rs : List WalRecord)
    → s.first_index ≡ map_or 0 record_index (first rs)
    → (if is_empty rs then record_index r else s.first_index)
      ≡ map_or 0 record_index (first (rs ++ r ∷ []))
first-push s r [] h = refl
first-push s r (x ∷ xs) h = h

pub push_record-IsIndexed :
    (r : WalRecord) (s : Segment) → IsIndexed s → IsIndexed (push_record r s)
unfolding push_record
push_record-IsIndexed r s i = record {
  first_lem = first-push s r s.records i.first_lem;
  last_lem = sym (ap (map_or 0 record_index) (last-append s.records r));
}

pub empty_segment-IsIndexed : (n : ℕ) → IsIndexed (empty_segment n)
unfolding empty_segment
empty_segment-IsIndexed n = record { first_lem = refl; last_lem = refl }

pub fresh_wal-IsWal : (n : ℕ) → 0 < n → IsWal (fresh_wal n)
unfolding fresh_wal empty_segment
fresh_wal-IsWal n h = (h, (refl, omega arith, refl, empty_segment-IsIndexed 0))

-- With room in the last segment, the push keeps the chain.
push-IsChain :
    (m n : ℕ) (r : WalRecord) (s : Segment) (ss : List Segment)
    → IsChain m n (s ∷ ss)
    → length (last_or s ss).records < m
    → IsChain m n (modify_last (push_record r) (s ∷ ss))
unfolding modify_last
push-IsChain m n r s [] (o, l, e, i) h =
    unfold push_record in
    (o, omega (arith, length-append {0} s.records (r ∷ [])), e, push_record-IsIndexed r s i)
push-IsChain m n r s (t ∷ []) (o, l, e, i, c) h =
    (o, l, unfold push_record in e, i, push-IsChain m n r t [] c h)
push-IsChain m n r s (t ∷ u ∷ ss) (o, l, e, i, c) h =
    (o, l, e, i, push-IsChain m n r t (u ∷ ss) c h)

-- With no room, the last one is sealed and an empty one opened.
pub roll-IsChain :
    (m n : ℕ) (s : Segment) (ss : List Segment)
    → IsChain m n (s ∷ ss)
    → m ≤ length (last_or s ss).records
    → IsChain m (suc n) (modify_last seal (s ∷ ss) ++ empty_segment n ∷ [])
unfolding modify_last seal empty_segment
roll-IsChain m n s [] (o, l, e, i) h = (
  refl,
  omega arith,
  e,
  record { first_lem = i.first_lem; last_lem = i.last_lem },
  (refl, omega arith, refl, empty_segment-IsIndexed n),
)
roll-IsChain m n s (t ∷ []) (o, l, e, i, c) h = (o, l, e, i, roll-IsChain m n t [] c h)
roll-IsChain m n s (t ∷ u ∷ ss) (o, l, e, i, c) h = (o, l, e, i, roll-IsChain m n t (u ∷ ss) c h)

-- The push on any list of segments with a last one.
pub push-IsChain-last :
    (m n : ℕ) (r : WalRecord) (s : Segment) (ss : List Segment)
    → last ss ≡ some s
    → IsChain m n ss
    → length s.records < m
    → IsChain m n (modify_last (push_record r) ss)
push-IsChain-last m n r s [] e c h = absurd c
push-IsChain-last m n r s (t ∷ ts) e c h =
    push-IsChain m n r t ts c (let f : last_or t ts ≡ s = cc in rw f h)

pub records-push_record-last :
    (r : WalRecord) (s : Segment) (ss : List Segment)
    → last ss ≡ some s
    → all_records (modify_last (push_record r) ss) ≡ all_records ss ++ r ∷ []
records-push_record-last r s [] e = cc
records-push_record-last r s (t ∷ ts) e = records-push_record r t ts

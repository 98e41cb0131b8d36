-- ===== src/Wal/Segments.antt =====
-- RaftWalSegment and the queries on segments that both logs share: wal_record_index,
-- wal_retained_range, segment_index and records (src/lib.rs).
use rust_raft.Base.{
  Bool, List, [], ap, append-nil, append_assoc, arith, false, find, first, if◌then◌else◌, is_empty,
  last, length, length-append, ltb, map, map_or, none, refl, some, sym, true, ℕ, ◌++◌, ◌+◌, ◌∙◌,
  ◌∷◌, ◌≡◌,
}
use rust_raft.Types.{LogEntry}
use rust_raft.Wal.Record.{WalRecord}

-- RaftWalSegment
pub record Segment : Type 0 where
  pub segment_id : ℕ
  pub first_index : ℕ
  pub last_index : ℕ
  pub records : List WalRecord
  pub sealed : Bool

-- RaftLogRetainedRange
pub record RetainedRange : Type 0 where
  pub first_log_index : ℕ
  pub last_log_index : ℕ
  pub first_segment_id : ℕ
  pub last_segment_id : ℕ
  pub record_count : ℕ

-- RaftWalSegmentIndex
pub record SegmentIndex : Type 0 where
  pub segment_id : ℕ
  pub first_log_index : ℕ
  pub last_log_index : ℕ
  pub record_count : ℕ
  pub sealed : Bool
  pub bytes : ℕ

unfoldable pub empty_segment : ℕ → Segment
empty_segment id = record {
  segment_id = id;
  first_index = 0;
  last_index = 0;
  records = [];
  sealed = false;
}

-- wal_record_index
unfoldable pub record_index : WalRecord → ℕ
record_index r = elim r.hard_state.committed [
  | some i ↦ i.index
  | none ↦ map_or 0 (λ (e : LogEntry). e.log_id.index) (last r.entries)
]

-- segment.sealed = true
unfoldable pub seal : Segment → Segment
seal s = record s { sealed = true }

-- The writes of `append` to the active segment.
unfoldable pub push_record : WalRecord → Segment → Segment
unfolding record_index
push_record r s = record s {
  first_index = if is_empty s.records then record_index r else s.first_index;
  last_index = record_index r;
  records = s.records ++ r ∷ [];
}

-- A write through `segments.last_mut()`.
unfoldable pub modify_last : (Segment → Segment) → List Segment → List Segment
modify_last f [] = []
modify_last f (s ∷ []) = f s ∷ []
modify_last f (s ∷ t ∷ ss) = s ∷ modify_last f (t ∷ ss)

unfoldable pub all_records : List Segment → List WalRecord
all_records [] = []
all_records (s ∷ ss) = s.records ++ all_records ss

unfoldable pub record_count : List Segment → ℕ
record_count [] = 0
record_count (s ∷ ss) = length s.records + record_count ss

-- The greatest index from the end that is not 0: `.rev().find(last_index > 0)`.
unfoldable pub last_positive : List Segment → ℕ
last_positive [] = 0
last_positive (s ∷ ss) = let rest = last_positive ss in if ltb 0 rest then rest else s.last_index

unfoldable pub retained_range : List Segment → RetainedRange
unfolding record_count last_positive
retained_range ss = record {
  first_log_index =
      map_or 0 (λ (s : Segment). s.first_index) (find (λ (s : Segment). ltb 0 s.first_index) ss);
  last_log_index = last_positive ss;
  first_segment_id = map_or 0 (λ (s : Segment). s.segment_id) (first ss);
  last_segment_id = map_or 0 (λ (s : Segment). s.segment_id) (last ss);
  record_count = record_count ss;
}

-- segment_index: `bytes` gives the size of a segment's file, and 0 for the log in memory.
unfoldable pub index_of : (Segment → ℕ) → Segment → SegmentIndex
index_of bytes s = record {
  segment_id = s.segment_id;
  first_log_index = s.first_index;
  last_log_index = s.last_index;
  record_count = length s.records;
  sealed = s.sealed;
  bytes = bytes s;
}

unfoldable pub segment_index : (Segment → ℕ) → List Segment → List SegmentIndex
unfolding index_of
segment_index bytes ss = map (index_of bytes) ss

-- What a write to the last segment does to the records.
pub records-push_record :
    (r : WalRecord) (s : Segment) (ss : List Segment)
    → all_records (modify_last (push_record r) (s ∷ ss)) ≡ all_records (s ∷ ss) ++ r ∷ []
unfolding all_records modify_last push_record
records-push_record r s [] =
    append_assoc s.records (r ∷ []) [] ∙ ap (λ xs. xs ++ r ∷ []) (sym (append-nil s.records))
records-push_record r s (t ∷ ss) =
    ap (◌++◌ s.records) (records-push_record r t ss)
    ∙ sym (append_assoc s.records (all_records (t ∷ ss)) (r ∷ []))

pub records-seal : (ss : List Segment) → all_records (modify_last seal ss) ≡ all_records ss
unfolding all_records modify_last seal
records-seal [] = refl
records-seal (s ∷ []) = refl
records-seal (s ∷ t ∷ ss) = ap (◌++◌ s.records) (records-seal (t ∷ ss))

pub records-append :
    (ss ts : List Segment) → all_records (ss ++ ts) ≡ all_records ss ++ all_records ts
unfolding all_records
records-append [] ts = refl
records-append (s ∷ ss) ts =
    ap (◌++◌ s.records) (records-append ss ts)
    ∙ sym (append_assoc s.records (all_records ss) (all_records ts))

pub length-all_records : (ss : List Segment) → length (all_records ss) ≡ record_count ss
unfolding all_records record_count
length-all_records [] = refl
length-all_records (s ∷ ss) =
    omega (arith, length-append {0} s.records (all_records ss), length-all_records ss)

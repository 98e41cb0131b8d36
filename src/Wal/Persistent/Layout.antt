-- ===== src/Wal/Persistent/Layout.antt =====
-- The segments of PersistentRaftWal (src/lib.rs) and the files that hold them.
use rust_raft.Base.{
  Bool, List, [], ap, append_assoc, arith, false, last_or, ltb, refl, sym, true, ℕ, ◌++◌, ◌<◌, ◌==◌,
  ◌∙◌, ◌∷◌, ◌≡◌, ◌≤◌,
}
use rust_raft.Base.BTreeMap.{BTreeMap, insert}
use rust_raft.Wal.Record.{WalRecord}
use rust_raft.Wal.Recovery.{All}
use rust_raft.Wal.Segments.{Segment, empty_segment, modify_last, push_record, seal}
use rust_raft.Wal.Local.Chain.{IsIndexed, empty_segment-IsIndexed, push_record-IsIndexed}
use rust_raft.Wal.Persistent.Disk.{append_file}
use rust_raft.Wal.Persistent.Lines.{Codec, file_bytes}
use rust_raft.Wal.Persistent.Scan.{IsWritten}

module _ (codec : Codec) where
  -- The files of these segments.
  unfoldable pub files_of : List Segment → BTreeMap (List ℕ)
  files_of [] = []
  files_of (s ∷ ss) = (s.segment_id, file_bytes codec s.records) ∷ files_of ss

  -- One segment: its indexes are right, and its records are as the log writes them.
  pub record IsHeld (sealed : Bool) (s : Segment) : Type 0 where
    pub sealed_lem : s.sealed ≡ sealed
    pub indexed : IsIndexed s
    pub written : All (IsWritten codec) s.records

  -- The ids ascend, and the last one is the active one, which alone is not sealed.
  abbrev pub IsLayout : ℕ → List Segment → Type 0
  IsLayout active [] = ⊥
  IsLayout active (s ∷ []) = (s.segment_id ≡ active) × IsHeld false s
  IsLayout active (s ∷ t ∷ ss) =
      (s.segment_id < t.segment_id) × IsHeld true s × IsLayout active (t ∷ ss)

  pub head-le-active :
      (active : ℕ) (s : Segment) (ss : List Segment)
      → IsLayout active (s ∷ ss)
      → s.segment_id ≤ active
  head-le-active active s [] (e, h) = omega arith
  head-le-active active s (t ∷ ss) (l, h, r) = omega (arith, head-le-active active t ss r)

  file_bytes-snoc :
      (rs : List WalRecord) (r : WalRecord)
      → file_bytes codec (rs ++ r ∷ []) ≡ file_bytes codec rs ++ (codec.encode r ++ 10 ∷ [])
  unfolding file_bytes
  file_bytes-snoc [] r = refl
  file_bytes-snoc (x ∷ xs) r =
      ap (λ k. codec.encode x ++ 10 ∷ k) (file_bytes-snoc xs r)
      ∙ sym (append_assoc (codec.encode x) (10 ∷ file_bytes codec xs) (codec.encode r ++ 10 ∷ []))

  -- A record written at the end of the active file is a record pushed to the last segment.
  pub append_file-push_record :
      (active : ℕ) (r : WalRecord) (ss : List Segment)
      → IsLayout active ss
      → append_file active (codec.encode r ++ 10 ∷ []) (files_of ss)
        ≡ files_of (modify_last (push_record r) ss)
  unfolding append_file files_of modify_last
  append_file-push_record active r [] l = absurd l
  append_file-push_record active r (s ∷ []) (e, h) =
      let t : (s.segment_id == active) ≡ true = ground arith in
      rw t
        (unfold push_record in ap (λ b. (s.segment_id, b) ∷ []) (sym (file_bytes-snoc s.records r)))
  append_file-push_record active r (s ∷ t ∷ ss) (l, h, c) =
      let f : (s.segment_id == active) ≡ false = ground (arith, head-le-active active t ss c) in
      rw f (
        ap (◌∷◌ (s.segment_id, file_bytes codec s.records))
          (append_file-push_record active r (t ∷ ss) c))

  pub files_of-seal : (ss : List Segment) → files_of (modify_last seal ss) ≡ files_of ss
  unfolding files_of modify_last seal
  files_of-seal [] = refl
  files_of-seal (s ∷ []) = refl
  files_of-seal (s ∷ t ∷ ss) =
      ap (◌∷◌ (s.segment_id, file_bytes codec s.records)) (files_of-seal (t ∷ ss))

  files_of-append : (ss ts : List Segment) → files_of (ss ++ ts) ≡ files_of ss ++ files_of ts
  unfolding files_of
  files_of-append [] ts = refl
  files_of-append (s ∷ ss) ts =
      ap (◌∷◌ (s.segment_id, file_bytes codec s.records)) (files_of-append ss ts)

  pub files_of-seal-append :
      (ss ts : List Segment) → files_of (modify_last seal ss ++ ts) ≡ files_of (ss ++ ts)
  files_of-seal-append ss ts =
      files_of-append (modify_last seal ss) ts
      ∙ ap (λ m. m ++ files_of ts) (files_of-seal ss)
      ∙ sym (files_of-append ss ts)

  -- The file of the last segment written again.
  pub insert-last :
      (active : ℕ) (s : Segment) (ss : List Segment)
      → IsLayout active (s ∷ ss)
      → insert active (file_bytes codec (last_or s ss).records) (files_of (s ∷ ss))
        ≡ files_of (s ∷ ss)
  unfolding files_of insert
  insert-last active s [] (e, h) = ground arith
  insert-last active s (t ∷ ss) (l, h, c) =
      let f : (active == s.segment_id) ≡ false = ground (arith, head-le-active active t ss c) in
      let g : ltb active s.segment_id ≡ false = ground (arith, head-le-active active t ss c) in
      rw f (rw g (ap (◌∷◌ (s.segment_id, file_bytes codec s.records)) (insert-last active t ss c)))

  -- The file of a new segment behind them.
  pub insert-new :
      (active n : ℕ) (ss : List Segment)
      → IsLayout active ss
      → active < n
      → insert n [] (files_of ss) ≡ files_of (ss ++ empty_segment n ∷ [])
  unfolding files_of insert empty_segment file_bytes
  insert-new active n [] l q = absurd l
  insert-new active n (s ∷ []) (e, h) q =
      let f : (n == s.segment_id) ≡ false = ground arith in
      let g : ltb n s.segment_id ≡ false = ground arith in rw f (rw g refl)
  insert-new active n (s ∷ t ∷ ss) (l, h, c) q =
      let f : (n == s.segment_id) ≡ false = ground (arith, head-le-active active t ss c) in
      let g : ltb n s.segment_id ≡ false = ground (arith, head-le-active active t ss c) in
      rw f (
        rw g
          (ap (◌∷◌ (s.segment_id, file_bytes codec s.records)) (insert-new active n (t ∷ ss) c q)))

  written-snoc :
      (rs : List WalRecord) (r : WalRecord)
      → All (IsWritten codec) rs
      → IsWritten codec r
      → All (IsWritten codec) (rs ++ r ∷ [])
  written-snoc [] r a p = (p, tt)
  written-snoc (x ∷ xs) r (q, a) p = (q, written-snoc xs r a p)

  push-IsHeld :
      (r : WalRecord) (s : Segment)
      → IsWritten codec r
      → IsHeld false s
      → IsHeld false (push_record r s)
  push-IsHeld r s w h = record {
    sealed_lem = unfold push_record in h.sealed_lem;
    indexed = push_record-IsIndexed r s h.indexed;
    written = unfold push_record in written-snoc s.records r h.written w;
  }

  seal-IsHeld : (s : Segment) → IsHeld false s → IsHeld true (seal s)
  unfolding seal
  seal-IsHeld s h = record {
    sealed_lem = refl;
    indexed = record { first_lem = h.indexed.first_lem; last_lem = h.indexed.last_lem };
    written = h.written;
  }

  pub empty_segment-IsHeld : (n : ℕ) → IsHeld false (empty_segment n)
  unfolding empty_segment
  empty_segment-IsHeld n = record {
    sealed_lem = refl;
    indexed = empty_segment-IsIndexed n;
    written = tt;
  }

  pub push-IsLayout :
      (active : ℕ) (r : WalRecord) (ss : List Segment)
      → IsWritten codec r
      → IsLayout active ss
      → IsLayout active (modify_last (push_record r) ss)
  unfolding modify_last
  push-IsLayout active r [] w l = absurd l
  push-IsLayout active r (s ∷ []) w (e, h) = (unfold push_record in e, push-IsHeld r s w h)
  push-IsLayout active r (s ∷ t ∷ []) w (l, h, c) =
      (unfold push_record in l, h, push-IsLayout active r (t ∷ []) w c)
  push-IsLayout active r (s ∷ t ∷ u ∷ ss) w (l, h, c) =
      (l, h, push-IsLayout active r (t ∷ u ∷ ss) w c)

  pub roll-IsLayout :
      (active n : ℕ) (ss : List Segment)
      → IsLayout active ss
      → active < n
      → IsLayout n (modify_last seal ss ++ empty_segment n ∷ [])
  unfolding modify_last
  roll-IsLayout active n [] l q = absurd l
  roll-IsLayout active n (s ∷ []) (e, h) q = (
    unfold seal empty_segment in omega arith,
    seal-IsHeld s h,
    (unfold empty_segment in refl, empty_segment-IsHeld n),
  )
  roll-IsLayout active n (s ∷ t ∷ []) (l, h, c) q =
      (unfold seal in l, h, roll-IsLayout active n (t ∷ []) c q)
  roll-IsLayout active n (s ∷ t ∷ u ∷ ss) (l, h, c) q =
      (l, h, roll-IsLayout active n (t ∷ u ∷ ss) c q)

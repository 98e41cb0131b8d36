-- ===== src/Wal/Persistent/Crash.antt =====
-- PersistentRaftWal (src/lib.rs) after a write that failed or was cut short: append_with_report on a
-- disk with a failure, and open behind it.
use rust_raft.Wal.Persistent.Filed.{IsFiled, files_of-IsFiled}
use rust_raft.Wal.Persistent.Append.{push_written-lem, write_active-calm}
use rust_raft.Wal.Segments.{modify_last, push_record}
use rust_raft.Wal.Record.{WalRecord, stamp}
use mathlib.Core.Path.{subst}
use rust_raft.Base.{
  Bool, Bool-cases, List, [], add_u64, ap, append-nil, append_assoc, arith, false, inl, inr, length,
  length-append, ltb, map_or, none, refl, some, suc, sym, take, true, u64_max, zero, ℕ, ◌++◌, ◌<◌,
  ◌==◌, ◌∙◌, ◌∷◌, ◌≡◌,
}
use rust_raft.Types.{err, format, ok, storage}
use rust_raft.Base.BTreeMap.{BTreeMap, get}
use rust_raft.Wal.Recovery.{All}
use rust_raft.Wal.Persistent.Disk.{
  append_file, append_file-append_file, ask, bind-ok, file_len, metadata_len, write_all,
}
use rust_raft.Wal.Persistent.Lines.{Codec, parse_line, split_lines}
use rust_raft.Wal.Persistent.Scan.{
  IsEncoded, NoNewline, scan-bad, split_lines-newline, split_lines-one, take-NoNewline,
}
use rust_raft.Wal.Persistent.Files.{read_segments, write_record}
use rust_raft.Wal.Persistent.Log.{
  PersistentRaftWal, WalOptions, WriteReport, append_rest, append_with_report, must_roll,
  open_loaded, open_wal, push_written, validate_options, write_active,
}
use rust_raft.Wal.Persistent.Roll.{IsSynced, calm}
use rust_raft.Wal.Persistent.Reopen.{last-filed, open_loaded-synced, open_wal-synced}
use rust_raft.Wal.Persistent.Torn.{IsTorn, read_segments-torn}

-- The log that `open` gives for the directory of `w`.
abbrev pub reopened : WalOptions → Bool → PersistentRaftWal → PersistentRaftWal
reopened options truncated w = record w {
  options = options;
  released_segment_count = 0;
  truncated_corrupt_tail = truncated;
}

module _ (codec : Codec) where
  open_wal-torn :
      (options : WalOptions) (w : PersistentRaftWal) (m : BTreeMap (List ℕ)) (tail : List ℕ)
      → validate_options options ≡ ok tt
      → IsSynced codec w m
      → w.next_segment_id < u64_max
      → IsTorn codec tail
      → open_wal codec options (calm (append_file w.active tail m))
        ≡ (calm m, ok (reopened options true w))
  unfolding open_wal
  open_wal-torn options w m tail v h q t =
      let filed =
        subst (λ x. All (IsFiled codec x) w.segments) (sym h.files_lem)
          (files_of-IsFiled codec w.active w.segments h.layout) in
      let (b, f) = last-filed codec m w.active w.segments h.layout filed in
      let n : add_u64 w.active 1 ≡ w.next_segment_id = omega (arith, h.next_lem) in
      let start = calm (append_file w.active tail m) in
      let read : read_segments codec start ≡ (calm m, ok (w.segments, true)) =
        ap (λ x. read_segments codec (calm (append_file w.active tail x))) h.files_lem
        ∙ read_segments-torn codec w.active tail w.segments t h.layout
        ∙ ap (λ x. (calm x, ok (w.segments, true))) (sym h.files_lem) in
      rw (v, open_wal)
        (bind-ok (read_segments codec) (open_loaded codec options) start read
          ∙ open_loaded-synced codec options true w.active w.segments m b h.layout f
          ∙ ap
              (λ k. (
                calm m,
                ok (record w {
                  options = options;
                  next_segment_id = k;
                  released_segment_count = 0;
                  truncated_corrupt_tail = true;
                }),
              ))
              n)

  -- A text with no newline that does not read, and that text with a newline after it.
  IsTorn-line :
      (b : ℕ) (bs : List ℕ)
      → NoNewline (b ∷ bs)
      → codec.decode (b ∷ bs) ≡ none
      → IsTorn codec (b ∷ bs)
  unfolding parse_line
  IsTorn-line b bs l d rs a =
      scan-bad codec rs b bs (b ∷ bs) a [] (split_lines-one b bs l) (rw (d, parse_line) refl)

  IsTorn-terminated :
      (b : ℕ) (bs : List ℕ)
      → NoNewline (b ∷ bs)
      → codec.decode (b ∷ bs) ≡ none
      → IsTorn codec ((b ∷ bs) ++ 10 ∷ [])
  unfolding parse_line split_lines
  IsTorn-terminated b bs l d rs a =
      scan-bad codec rs b bs ((b ∷ bs) ++ 10 ∷ []) a [] (split_lines-newline (b ∷ bs) [] l)
        (rw (d, parse_line) refl)

  append_file-nil : (k : ℕ) (m : BTreeMap (List ℕ)) → append_file k [] m ≡ m
  unfolding append_file
  append_file-nil k [] = refl
  append_file-nil k ((j, b) ∷ m) = elim (Bool-cases (j == k)) [
    | inl t ↦ rw t (ap (λ c. (j, c) ∷ m) (append-nil b))
    | inr f ↦ rw f (ap (◌∷◌ (j, b)) (append_file-nil k m))
  ]

  -- `open` behind a record that was cut after `n` bytes.
  open_wal-cut :
      (options : WalOptions) (w : PersistentRaftWal) (m : BTreeMap (List ℕ)) (line : List ℕ) (n : ℕ)
      → validate_options options ≡ ok tt
      → IsSynced codec w m
      → w.next_segment_id < u64_max
      → NoNewline line
      → codec.decode (take n line) ≡ none
      → n < length line
      → open_wal codec options (calm (append_file w.active (take n line) m))
        ≡ (calm m, ok (reopened options (ltb 0 n) w))
  open_wal-cut options w m line zero v h q l d b =
      ap (λ x. open_wal codec options (calm x)) (append_file-nil w.active m)
      ∙ open_wal-synced codec options w m v h q
  open_wal-cut options w m [] (suc n) v h q l d b = absurd (omega arith)
  open_wal-cut options w m (c ∷ cs) (suc n) v h q l d b =
      let positive : ltb 0 (suc n) ≡ true = ground arith in
      open_wal-torn options w m (take (suc n) (c ∷ cs)) v h q
        (IsTorn-line c (take n cs) (take-NoNewline (suc n) (c ∷ cs) l) d)
      ∙ ap (λ t. (calm m, ok (reopened options t w))) (sym positive)

  -- No new segment is due for the record.
  abbrev pub Stays : WalRecord → PersistentRaftWal → BTreeMap (List ℕ) → Type 0
  Stays r w m =
      must_roll codec w (map_or 0 length (get w.active m))
        (add_u64 (length (codec.encode (stamp r))) 1)
      ≡ false

  -- What the failed write leaves.
  append-cut :
      (r : WalRecord) (w : PersistentRaftWal) (m : BTreeMap (List ℕ)) (n : ℕ)
      → Stays r w m
      → append_with_report codec r (w, record { files = m; outcomes = none ∷ some n ∷ [] }) ≡ (
        (w, calm (append_file w.active (take n (codec.encode (stamp r))) m)),
        err (storage (format "failed to append WAL record: {err}" [])),
      )
  unfolding append_with_report metadata_len ask file_len append_rest write_active write_record
      write_all
  append-cut r w m n stays =
      ap
        (λ rolled.
          append_rest codec (stamp r) (add_u64 (length (codec.encode (stamp r))) 1) rolled
            (w, record { files = m; outcomes = some n ∷ [] }))
        stays

  append-unterminated :
      (r : WalRecord) (w : PersistentRaftWal) (m : BTreeMap (List ℕ))
      → Stays r w m
      → append_with_report codec r (w, record { files = m; outcomes = none ∷ none ∷ some 0 ∷ [] })
        ≡ (
          (w, calm (append_file w.active (codec.encode (stamp r)) m)),
          err (storage (format "failed to append WAL record: {err}" [])),
        )
  unfolding append_with_report metadata_len ask file_len append_rest write_active write_record
      write_all
  append-unterminated r w m stays =
      ap
        (λ rolled.
          append_rest codec (stamp r) (add_u64 (length (codec.encode (stamp r))) 1) rolled
            (w, record { files = m; outcomes = none ∷ some 0 ∷ [] }))
        stays
      ∙ ap (λ x. ((w, calm x), err (storage (format "failed to append WAL record: {err}" []))))
          (append_file-nil w.active (append_file w.active (codec.encode (stamp r)) m))

  -- Where no new segment is due and the write of a record fails after fewer bytes than its text has,
  -- `append_with_report` answers with an error and the log in memory is as before. Opening the
  -- directory then cuts the partial text off and gives that log again, with every record it had,
  -- and reports a corrupt tail when any byte was written.
  pub append-cut-open :
      (options : WalOptions) (r : WalRecord) (w : PersistentRaftWal) (m : BTreeMap (List ℕ)) (n : ℕ)
      → validate_options options ≡ ok tt
      → IsSynced codec w m
      → w.next_segment_id < u64_max
      → IsEncoded codec (stamp r)
      → Stays r w m
      → n < length (codec.encode (stamp r))
      → (append_with_report codec r (w, record { files = m; outcomes = none ∷ some n ∷ [] }) ≡ (
        (w, calm (append_file w.active (take n (codec.encode (stamp r))) m)),
        err (storage (format "failed to append WAL record: {err}" [])),
      ))
        × (open_wal codec options (calm (append_file w.active (take n (codec.encode (stamp r))) m))
            ≡ (calm m, ok (reopened options (ltb 0 n) w)))
  append-cut-open options r w m n v h q enc stays b = (
    append-cut r w m n stays,
    open_wal-cut options w m (codec.encode (stamp r)) n v h q enc.one_line (enc.torn n b) b,
  )

  -- The texts of two records on one line, behind the active file.
  open_wal-joined :
      (options : WalOptions) (w : PersistentRaftWal) (m : BTreeMap (List ℕ)) (line : List ℕ)
      → validate_options options ≡ ok tt
      → IsSynced codec w m
      → w.next_segment_id < u64_max
      → NoNewline line
      → 0 < length line
      → codec.decode line ≡ none
      → open_wal codec options (calm (append_file w.active (line ++ 10 ∷ []) m))
        ≡ (calm m, ok (reopened options true w))
  open_wal-joined options w m [] v h q l b d = absurd (omega arith)
  open_wal-joined options w m (c ∷ cs) v h q l b d =
      open_wal-torn options w m ((c ∷ cs) ++ 10 ∷ []) v h q (IsTorn-terminated c cs l d)

  append-NoNewline : (xs ys : List ℕ) → NoNewline xs → NoNewline ys → NoNewline (xs ++ ys)
  append-NoNewline [] ys a b = b
  append-NoNewline (x ∷ xs) ys (f, a) b = (f, append-NoNewline xs ys a b)

  -- On a log whose files hold what it has in memory, with a segment id left, the write of the newline
  -- of a first record fails, so its append answers with an error, and the next append succeeds. For
  -- neither append a new segment is due, each record's text is as JSON gives it, and the two texts
  -- on one line do not read. Then opening the directory, with valid options, loses the second
  -- record, whose append had succeeded: it gives the log from before both.
  pub append-joined-open :
      (options : WalOptions) (r1 r2 : WalRecord) (w : PersistentRaftWal) (m : BTreeMap (List ℕ))
      → validate_options options ≡ ok tt
      → IsSynced codec w m
      → w.next_segment_id < u64_max
      → IsEncoded codec (stamp r1)
      → IsEncoded codec (stamp r2)
      → codec.decode (codec.encode (stamp r1) ++ codec.encode (stamp r2)) ≡ none
      → Stays r1 w m
      → Stays r2 w (append_file w.active (codec.encode (stamp r1)) m)
      → (m1 m2 : BTreeMap (List ℕ)) × (v : PersistentRaftWal) × (rep : WriteReport)
        × (append_with_report codec r1
              (w, record { files = m; outcomes = none ∷ none ∷ some 0 ∷ [] })
            ≡ ((w, calm m1), err (storage (format "failed to append WAL record: {err}" []))))
        × (append_with_report codec r2 (w, calm m1) ≡ ((v, calm m2), ok rep))
        × (open_wal codec options (calm m2) ≡ (calm m, ok (reopened options true w)))
  unfolding append_with_report metadata_len ask file_len append_rest
  append-joined-open options r1 r2 w m v h q e1 e2 d s1 s2 =
      let l1 = codec.encode (stamp r1) in
      let l2 = codec.encode (stamp r2) in
      let m1 = append_file w.active l1 m in
      let m2 = append_file w.active (l2 ++ 10 ∷ []) m1 in
      let bytes = add_u64 (length l2) 1 in
      let (rep, p, c) = push_written-lem codec (stamp r2) bytes false w (calm m2) h.layout in
      let same_line : m2 ≡ append_file w.active ((l1 ++ l2) ++ 10 ∷ []) m =
        append_file-append_file w.active l1 (l2 ++ 10 ∷ []) m
        ∙ ap (λ x. append_file w.active x m) (sym (append_assoc l1 l2 (10 ∷ []))) in
      (
        m1,
        m2,
        record w { segments = modify_last (push_record (stamp r2)) w.segments },
        rep,
        append-unterminated r1 w m s1,
        ap (λ rolled. append_rest codec (stamp r2) bytes rolled (w, calm m1)) s2
            ∙ bind-ok (write_active codec (stamp r2))
                (λ _. push_written codec (stamp r2) bytes false) (w, calm m1)
                (write_active-calm codec (stamp r2) w m1)
            ∙ p,
        ap (λ x. open_wal codec options (calm x)) same_line
            ∙ open_wal-joined options w m (l1 ++ l2) v h q
                (append-NoNewline l1 l2 e1.one_line e2.one_line)
                (omega (arith, length-append {0} l1 l2, e1.not_empty)) d,
      )

-- ===== src/Wal/Persistent/Scan.antt =====
-- read_wal_segment_file (src/lib.rs): its loop on whole files and on files with a torn end.
use rust_raft.Base.{
  List, [], ap, append-nil, append_assoc, arith, false, is_empty, length, length-append, none, refl,
  some, suc, sym, take, true, zero, ℕ, ◌++◌, ◌+◌, ◌<◌, ◌==◌, ◌∙◌, ◌∷◌, ◌≡◌,
}
use rust_raft.Wal.Record.{WalRecord, wal_checksum_valid}
use rust_raft.Wal.Recovery.{All}
use rust_raft.Wal.Persistent.Lines.{Codec, file_bytes, parse_line, scan, scan_lines, split_lines}

abbrev pub NoNewline : List ℕ → Type 0
NoNewline bytes = All (λ b. (b == 10) ≡ false) bytes

-- What JSON gives for a record: its text has no newline and reads back, and no text that stops
-- before its end reads at all.
pub record IsEncoded (codec : Codec) (r : WalRecord) : Type 0 where
  pub decode-encode : codec.decode (codec.encode r) ≡ some r
  pub one_line : NoNewline (codec.encode r)
  pub not_empty : 0 < length (codec.encode r)
  pub torn : (n : ℕ) → n < length (codec.encode r) → codec.decode (take n (codec.encode r)) ≡ none

-- A record as the log writes it.
abbrev pub IsWritten : Codec → WalRecord → Type 0
IsWritten codec r = IsEncoded codec r × (wal_checksum_valid r ≡ true)

pub split_lines-newline :
    (l rest : List ℕ) → NoNewline l → split_lines (l ++ 10 ∷ rest) ≡ l ∷ split_lines rest
unfolding split_lines
split_lines-newline [] rest a = refl
split_lines-newline (b ∷ bs) rest (f, a) = rw f (rw (split_lines-newline bs rest a) refl)

pub split_lines-one :
    (b : ℕ) (bs : List ℕ) → NoNewline (b ∷ bs) → split_lines (b ∷ bs) ≡ (b ∷ bs) ∷ []
unfolding split_lines
split_lines-one b [] (f, a) = rw f refl
split_lines-one b (c ∷ cs) (f, a) = rw f (rw (split_lines-one c cs a) refl)

pub take-NoNewline : (n : ℕ) (l : List ℕ) → NoNewline l → NoNewline (take n l)
take-NoNewline zero l a = tt
take-NoNewline (suc n) [] a = tt
take-NoNewline (suc n) (b ∷ bs) (f, a) = (f, take-NoNewline n bs a)

module _ (codec : Codec) where
  parse_line-encode :
      (r : WalRecord) → IsWritten codec r → parse_line codec (codec.encode r) ≡ some r
  unfolding parse_line
  parse_line-encode r (e, v) = rw (e.decode-encode, parse_line) (rw v refl)

  -- The loop over the line of one record.
  scan_lines-encode :
      (r : WalRecord) (acc : List WalRecord) (valid current : ℕ) (rest : List (List ℕ))
      → IsWritten codec r
      → scan_lines codec acc valid current (codec.encode r ∷ rest)
        ≡ scan_lines codec
            (acc ++ r ∷ [])
            (current + (length (codec.encode r) + 1))
            (current + (length (codec.encode r) + 1))
            rest
  unfolding scan_lines
  scan_lines-encode r acc valid current rest w =
      let f : is_empty (codec.encode r) ≡ false = not_empty-eq (codec.encode r) w.0.not_empty in
      rw f (rw (parse_line-encode r w, scan_lines) refl)
    where
      not_empty-eq : (l : List ℕ) → 0 < length l → is_empty l ≡ false
      not_empty-eq [] h = absurd (omega arith)
      not_empty-eq (x ∷ xs) h = refl

  -- The loop over the lines of a whole file, with something behind it.
  scan_lines-file_bytes :
      (rs acc : List WalRecord) (current : ℕ) (tail : List ℕ)
      → All (IsWritten codec) rs
      → scan_lines codec acc current current (split_lines (file_bytes codec rs ++ tail))
        ≡ scan_lines codec
            (acc ++ rs)
            (current + length (file_bytes codec rs))
            (current + length (file_bytes codec rs))
            (split_lines tail)
  unfolding file_bytes
  scan_lines-file_bytes [] acc current tail a =
      rw (append-nil acc) (let e : current + 0 ≡ current = omega arith in rw e refl)
  scan_lines-file_bytes (r ∷ rs) acc current tail (w, a) =
      let line = codec.encode r in
      let next = current + (length line + 1) in
      let e : (line ++ 10 ∷ file_bytes codec rs) ++ tail
          ≡ line ++ 10 ∷ (file_bytes codec rs ++ tail) =
        append_assoc line (10 ∷ file_bytes codec rs) tail in
      let n : next + length (file_bytes codec rs)
          ≡ current + length (line ++ 10 ∷ file_bytes codec rs) =
        omega (arith, length-append {0} line (10 ∷ file_bytes codec rs)) in
      ap (λ bytes. scan_lines codec acc current current (split_lines bytes)) e
      ∙ ap (scan_lines codec acc current current) (split_lines-newline line _ w.0.one_line)
      ∙ scan_lines-encode r acc current current _ w
      ∙ scan_lines-file_bytes rs (acc ++ r ∷ []) next tail a
      ∙ ap
          (λ xs.
            scan_lines codec xs (next + length (file_bytes codec rs))
              (next + length (file_bytes codec rs)) (split_lines tail))
          (append_assoc acc (r ∷ []) rs)
      ∙ ap (λ k. scan_lines codec (acc ++ r ∷ rs) k k (split_lines tail)) n

  -- The file of the records reads back as them.
  pub scan-file_bytes :
      (rs : List WalRecord)
      → All (IsWritten codec) rs
      → scan codec (file_bytes codec rs)
        ≡ record { records = rs; valid_end = length (file_bytes codec rs); truncated = false }
  unfolding scan scan_lines split_lines
  scan-file_bytes rs a =
      ap (scan codec) (sym (append-nil (file_bytes codec rs)))
      ∙ scan_lines-file_bytes rs [] 0 [] a
      ∙ ap (λ n. record { records = rs; valid_end = n; truncated = false })
          (let e : 0 + length (file_bytes codec rs) ≡ length (file_bytes codec rs) = omega arith in
            e)

  scan_lines-bad :
      (acc : List WalRecord) (valid current b : ℕ) (bs : List ℕ) (rest : List (List ℕ))
      → parse_line codec (b ∷ bs) ≡ none
      → scan_lines codec acc valid current ((b ∷ bs) ∷ rest)
        ≡ record { records = acc; valid_end = valid; truncated = true }
  unfolding scan_lines
  scan_lines-bad acc valid current b bs rest p = rw (p, scan_lines) refl

  -- Behind them a line that does not read, with or without a newline after it, is cut off.
  pub scan-bad :
      (rs : List WalRecord) (b : ℕ) (bs : List ℕ) (tail : List ℕ)
      → All (IsWritten codec) rs
      → (rest : List (List ℕ)) → split_lines tail ≡ (b ∷ bs) ∷ rest
      → parse_line codec (b ∷ bs) ≡ none
      → scan codec (file_bytes codec rs ++ tail)
        ≡ record { records = rs; valid_end = length (file_bytes codec rs); truncated = true }
  unfolding scan
  scan-bad rs b bs tail a rest l p =
      scan_lines-file_bytes rs [] 0 tail a
      ∙ ap (scan_lines codec rs _ _) l
      ∙ scan_lines-bad rs _ _ b bs rest p
      ∙ ap (λ n. record { records = rs; valid_end = n; truncated = true })
          (let e : 0 + length (file_bytes codec rs) ≡ length (file_bytes codec rs) = omega arith in
            e)

  -- A record without its newline at the end is accepted.
  pub scan-unterminated :
      (rs : List WalRecord) (r : WalRecord)
      → All (IsWritten codec) rs
      → IsWritten codec r
      → (n : ℕ) × (scan codec (file_bytes codec rs ++ codec.encode r)
          ≡ record { records = rs ++ r ∷ []; valid_end = n; truncated = false })
  unfolding scan scan_lines
  scan-unterminated rs r a w = (
    0 + length (file_bytes codec rs) + (length (codec.encode r) + 1),
    scan_lines-file_bytes rs [] 0 (codec.encode r) a
        ∙ ap (scan_lines codec rs _ _)
            (split_lines-line (codec.encode r) w.0.not_empty w.0.one_line)
        ∙ scan_lines-encode r rs _ _ [] w,
  )
    where
      split_lines-line : (l : List ℕ) → 0 < length l → NoNewline l → split_lines l ≡ l ∷ []
      split_lines-line [] h a = absurd (omega arith)
      split_lines-line (x ∷ xs) h a = split_lines-one x xs a

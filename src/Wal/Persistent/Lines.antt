-- ===== src/Wal/Persistent/Lines.antt =====
-- read_wal_segment_file (src/lib.rs) on the bytes of a file: the lines and what they decode to.
use rust_raft.Base.{
  Bool, List, Option, [], false, if◌then◌else◌, is_empty, length, none, some, true, ℕ, ◌++◌, ◌+◌,
  ◌==◌, ◌∷◌,
}
use rust_raft.Wal.Record.{WalRecord, wal_checksum_valid}

-- serde_json on records: to_string, whose text is given by its bytes, and from_slice.
pub record Codec : Type 0 where
  pub encode : WalRecord → List ℕ
  pub decode : List ℕ → Option WalRecord

abbrev add_to_first : ℕ → List (List ℕ) → List (List ℕ)
add_to_first b [] = (b ∷ []) ∷ []
add_to_first b (l ∷ ls) = (b ∷ l) ∷ ls

-- BufRead::split(b'\n'): no piece for what follows a last newline when nothing does.
unfoldable pub split_lines : List ℕ → List (List ℕ)
split_lines [] = []
split_lines (b ∷ bs) =
    let rest = split_lines bs in if b == 10 then [] ∷ rest else add_to_first b rest

-- What the loop over the lines collects: the records, valid_end_offset, truncated.
pub record Scan : Type 0 where
  pub records : List WalRecord
  pub valid_end : ℕ
  pub truncated : Bool

module _ (codec : Codec) where
  -- from_slice and the checksum test of a line
  unfoldable pub parse_line : List ℕ → Option WalRecord
  parse_line line = elim (codec.decode line) [
    | none ↦ none
    | some r ↦ if wal_checksum_valid r then some r else none
  ]

  -- The loop, with valid_end_offset and current_offset.
  unfoldable pub scan_lines : List WalRecord → ℕ → ℕ → List (List ℕ) → Scan
  unfolding parse_line
  scan_lines acc valid current [] = record { records = acc; valid_end = valid; truncated = false }
  scan_lines acc valid current (line ∷ lines) =
      let current' = current + (length line + 1) in
      let skipped = scan_lines acc current' current' lines in
      if is_empty line then skipped else elim (parse_line line) [
        | none ↦ record { records = acc; valid_end = valid; truncated = true }
        | some r ↦ scan_lines (acc ++ r ∷ []) current' current' lines
      ]

  unfoldable pub scan : List ℕ → Scan
  unfolding scan_lines split_lines
  scan bytes = scan_lines [] 0 0 (split_lines bytes)

  -- The bytes of a segment's file: each record and a newline.
  unfoldable pub file_bytes : List WalRecord → List ℕ
  file_bytes [] = []
  file_bytes (r ∷ rs) = codec.encode r ++ 10 ∷ file_bytes rs

-- ===== src/Node/Log.antt =====
-- Appending to a log and cutting it: append_entry and compact_log_through of RaftNode, and the loop over
-- the entries of a request (src/lib.rs).
use rust_raft.Base.{
  Bool-cases, List, [], ap, append_assoc, arith, if◌then◌else◌, inl, inr, last-append, last_or, leb,
  length, length-append, length-take, ltb, none, position, refl, some, suc, sym, take, take-all,
  tests, zero, ℕ, ◌++◌, ◌+◌, ◌-◌, ◌<◌, ◌==◌, ◌∙◌, ◌∷◌, ◌≡◌, ◌≤◌,
}
use rust_raft.Types.{LogEntry}
use rust_raft.Node.{
  RaftNode, append_entries, append_entry, compact_log_through, entry_index, last_entry_index,
  match_index, retain_above, snapshot_index, truncate_at,
}

-- Indexes rise along the log, and the first one is above `i`.
abbrev pub Ascending : ℕ → List LogEntry → Type 0
Ascending i [] = Unit {0}
Ascending i (e ∷ es) = (i < entry_index e) × Ascending (entry_index e) es

-- The indexes are i + 1, i + 2, …
abbrev pub Contiguous : ℕ → List LogEntry → Type 0
Contiguous i [] = Unit {0}
Contiguous i (e ∷ es) = (entry_index e ≡ suc i) × Contiguous (suc i) es

retain-all : (i j : ℕ) (es : List LogEntry) → j ≤ i → Ascending i es → retain_above j es ≡ es
unfolding retain_above
retain-all i j [] h a = refl
retain-all i j (e ∷ es) h a = ground (arith, retain-all (entry_index e) j es)

le-last :
    (e : LogEntry) (es : List LogEntry)
    → Ascending (entry_index e) es
    → entry_index e ≤ entry_index (last_or e es)
le-last e [] a = omega arith
le-last e (x ∷ xs) a = omega (arith, le-last x xs a.1)

last-retain_above :
    (i j : ℕ) (es : List LogEntry)
    → Ascending i es
    → last_entry_index (retain_above j es)
      ≡ (if ltb j (last_entry_index es) then last_entry_index es else 0)
unfolding last_entry_index retain_above
last-retain_above i j [] a = ground arith
last-retain_above i j (e ∷ []) a = ground arith
last-retain_above i j (e ∷ x ∷ xs) a = elim (Bool-cases (ltb j (entry_index e))) [
  | inl h ↦
      rw (h, retain-all (entry_index e) j (x ∷ xs) (omega tests) a.1)
        (ground (arith, le-last e (x ∷ xs) a.1))
  | inr h ↦ rw h (last-retain_above (entry_index e) j (x ∷ xs) a.1)
]

-- Compaction of an ascending log through `j` leaves what the node holds where an entry above `j` is left or a snapshot
-- covers the log; otherwise only the snapshot's index is left.
pub match_index-compact :
    (node : RaftNode) (i j : ℕ)
    → Ascending i node.log
    → match_index (compact_log_through node j).0 ≡ (
        if ltb j (last_entry_index node.log)
        then match_index node
        else snapshot_index node.installed_snapshot)
unfolding compact_log_through match_index
match_index-compact node i j a = ground (arith, last-retain_above i j node.log a)

position-Contiguous :
    (i k : ℕ) (es : List LogEntry)
    → Contiguous i es
    → i < k
    → position (λ x. entry_index x == k) es
      ≡ (if leb k (i + length es) then some (k - suc i) else none)
position-Contiguous i k [] c h = ground arith
position-Contiguous i k (e ∷ es) c h = elim (Bool-cases (entry_index e == k)) [
  | inl t ↦ rw t (ground (arith, c))
  | inr t ↦ rw (t, position-Contiguous (suc i) k es c.1 (ground (arith, c.0))) (ground (arith, c.0))
]

Contiguous-take :
    (i n : ℕ) (es : List LogEntry) (e : LogEntry)
    → Contiguous i es
    → n ≤ length es
    → entry_index e ≡ suc (i + n)
    → Contiguous i (take n es ++ e ∷ [])
Contiguous-take i zero [] e c h k = (omega arith, tt)
Contiguous-take i (suc n) [] e c h k = absurd (omega arith)
Contiguous-take i zero (x ∷ xs) e c h k = (omega arith, tt)
Contiguous-take i (suc n) (x ∷ xs) e c h k =
    (c.0, Contiguous-take (suc i) n xs e c.1 (omega arith) (omega arith))

truncate-Contiguous :
    (i k : ℕ) (es : List LogEntry)
    → Contiguous i es
    → i < k
    → truncate_at k es ≡ take (k - suc i) es
unfolding truncate_at
truncate-Contiguous i k es c h = elim (Bool-cases (leb k (i + length es))) [
  | inl t ↦ rw (truncate_at, position-Contiguous i k es c h, t)
  | inr t ↦
      rw (truncate_at, position-Contiguous i k es c h, t)
        (sym (take-all (k - suc i) es (ground arith)))
]

-- An entry that goes on a contiguous log, or replaces a part of it, keeps the entries below it,
-- drops the others, and leaves a contiguous log whose last index is its own.
pub append_entry-Contiguous :
    (node : RaftNode) (e : LogEntry) (i : ℕ)
    → Contiguous i node.log
    → i < entry_index e
    → entry_index e ≤ suc (i + length node.log)
    → ((append_entry node e).log ≡ take (entry_index e - suc i) node.log ++ e ∷ [])
      × Contiguous i (append_entry node e).log
      × (last_entry_index (append_entry node e).log ≡ entry_index e)
unfolding append_entry last_entry_index
append_entry-Contiguous node e i c h k = (
  cut,
  rw cut (Contiguous-take i (entry_index e - suc i) node.log e c (omega arith) (omega arith)),
  rw last-append,
)
  where
    cut : (append_entry node e).log ≡ take (entry_index e - suc i) node.log ++ e ∷ []
    cut = rw (truncate-Contiguous i (entry_index e) node.log c h)

-- The entries of a request go on a contiguous log, or replace its end: the entries below the first
-- of them are kept, and theirs follow.
pub append_entries-Contiguous :
    (node : RaftNode) (e : LogEntry) (es : List LogEntry) (i j : ℕ)
    → Contiguous i node.log
    → Contiguous j (e ∷ es)
    → i ≤ j
    → j ≤ i + length node.log
    → (append_entries node (e ∷ es)).log ≡ take (j - i) node.log ++ e ∷ es
unfolding append_entries
append_entries-Contiguous node e [] i j c d h k =
    let (cut, kept, ends) =
      append_entry-Contiguous node e i c (omega (arith, d.0)) (omega (arith, d.0)) in
    cut ∙ ap (λ n. take n node.log ++ e ∷ []) (omega (arith, d.0))
append_entries-Contiguous node e (x ∷ xs) i j c d h k =
    let (cut, kept, ends) =
      append_entry-Contiguous node e i c (omega (arith, d.0)) (omega (arith, d.0)) in
    let first : (append_entry node e).log ≡ take (j - i) node.log ++ e ∷ [] =
      cut ∙ ap (λ n. take n node.log ++ e ∷ []) (omega (arith, d.0)) in
    let size : length (append_entry node e).log ≡ suc j - i =
      ap length first
      ∙ omega (
        arith,
        length-append {0} (take (j - i) node.log) (e ∷ []),
        length-take (j - i) node.log,
      ) in
    append_entries-Contiguous (append_entry node e) x xs i (suc j) kept d.1 (omega arith)
      (omega arith)
    ∙ ap (λ log. log ++ x ∷ xs)
        (take-all (suc j - i) (append_entry node e).log (omega arith) ∙ first)
    ∙ append_assoc (take (j - i) node.log) (e ∷ []) (x ∷ xs)

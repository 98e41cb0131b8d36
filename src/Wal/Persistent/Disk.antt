-- ===== src/Wal/Persistent/Disk.antt =====
-- The files of a WAL directory, and the calls of std::fs that PersistentRaftWal (src/lib.rs) makes.
-- A call may fail, and a write that fails may have written a part of its bytes.
use rust_raft.Base.{
  ==_refl, Bool, Bool-cases, List, Option, String, [], ap, append_assoc, arith, false,
  if◌then◌else◌, inl, inr, is_some, length, map_or, none, refl, some, suc, take, true, zero, ℕ,
  ◌++◌, ◌-◌, ◌==◌, ◌∷◌, ◌≡◌,
}
use rust_raft.Base.BTreeMap.{BTreeMap, get, insert, keys, remove}
use rust_raft.Types.{Outcome, RaftError, and_then, err, format, ok, storage}

-- A method that may fail, as a function of the object.
abbrev pub Op : Type 0 → Type 0 → Type 0
Op S A = S → Outcome S A

infixl 5 ◌>>=◌ ◌>>◌
abbrev pub ◌>>=◌ : {S A B : Type 0} → Op S A → (A → Op S B) → Op S B
◌>>=◌ op next s = and_then (op s) (λ s' a. next a s')

abbrev pub ◌>>◌ : {S B : Type 0} → Op S (Unit {0}) → Op S B → Op S B
◌>>◌ op next s = and_then (op s) (λ s' a. next s')

abbrev pub done : {S A : Type 0} → A → Op S A
done a s = (s, ok a)

-- An early return of a test.
abbrev pub when_do : {S : Type 0} → Bool → Op S (Unit {0}) → Op S (Unit {0})
when_do true op s = op s
when_do false op s = (s, ok tt)

-- The first operation of a sequence, run.
pub bind-ok :
    {S A B : Type 0} (op : Op S A) (next : A → Op S B) (s : S) {s' : S} {a : A}
    → op s ≡ (s', ok a)
    → (op >>= next) s ≡ next a s'
bind-ok op next s e = ap (λ o. and_then o (λ s' a. next a s')) e

pub bind-err :
    {S A B : Type 0} (op : Op S A) (next : A → Op S B) (s : S) {s' : S} {e : RaftError}
    → op s ≡ (s', err e)
    → (op >>= next) s ≡ (s', err e)
bind-err op next s h = ap (λ o. and_then o (λ s' a. next a s')) h

-- The files of the directory by segment id, and the outcome of each coming call: `none` succeeds,
-- `some n` fails, a write after `n` bytes. Past the end of the list, calls succeed.
pub record Disk : Type 0 where
  pub files : BTreeMap (List ℕ)
  pub outcomes : List (Option ℕ)

abbrev pub next_outcome : List (Option ℕ) → Option ℕ
next_outcome [] = none
next_outcome (o ∷ os) = o

abbrev pub later_outcomes : List (Option ℕ) → List (Option ℕ)
later_outcomes [] = []
later_outcomes (o ∷ os) = os

abbrev finish :
    {A : Type 0}
    → String
    → (ℕ → BTreeMap (List ℕ))
    → BTreeMap (List ℕ)
    → A
    → List (Option ℕ)
    → Option ℕ
    → Outcome Disk A
finish what failed full a os none = (record { files = full; outcomes = os }, ok a)
finish what failed full a os (some n) =
    (record { files = failed n; outcomes = os }, err (storage (format what [])))

-- A call that takes its turn: `failed n` is the directory after a failure, `full` after a success.
abbrev pub attempt :
    {A : Type 0} → String → (ℕ → BTreeMap (List ℕ)) → BTreeMap (List ℕ) → A → Op Disk A
attempt what failed full a d =
    finish what failed full a (later_outcomes d.outcomes) (next_outcome d.outcomes)

-- Bytes written at the end of a file.
unfoldable pub append_file : ℕ → List ℕ → BTreeMap (List ℕ) → BTreeMap (List ℕ)
append_file k bytes [] = []
append_file k bytes ((j, b) ∷ m) =
    if j == k then (j, b ++ bytes) ∷ m else (j, b) ∷ append_file k bytes m

-- file.write_all(bytes) on a file opened for append
unfoldable pub write_all : String → ℕ → List ℕ → Op Disk (Unit {0})
unfolding append_file
write_all what id bytes d =
    attempt what (λ n. append_file id (take n bytes) d.files) (append_file id bytes d.files) tt d

-- A call that leaves the files as they are and answers.
unfoldable pub ask : {A : Type 0} → String → A → Op Disk A
ask what a d = attempt what (λ n. d.files) d.files a d

-- file.sync_data()
unfoldable pub sync_data : String → Op Disk (Unit {0})
unfolding ask
sync_data what = ask what tt

-- File::create: an existing file is emptied.
unfoldable pub create : String → ℕ → Op Disk (Unit {0})
create what id d = attempt what (λ n. d.files) (insert id [] d.files) tt d

-- OpenOptions::new().create(true).append(true)
unfoldable pub open_for_append : String → ℕ → Op Disk ℕ
open_for_append what id d =
    attempt what (λ n. d.files) (if is_some (get id d.files) then d.files else insert id [] d.files)
      id d

unfoldable pub zeros : ℕ → List ℕ
zeros zero = []
zeros (suc n) = 0 ∷ zeros n

-- file.set_len(n): a shorter file is filled with zeros.
unfoldable pub set_len : String → ℕ → ℕ → Op Disk (Unit {0})
unfolding zeros
set_len what id n d =
    attempt what (λ k. d.files)
      (map_or d.files (λ bytes. insert id (take n bytes ++ zeros (n - length bytes)) d.files)
        (get id d.files))
      tt d

-- fs::remove_file, where a missing file is no error
unfoldable pub remove_file : String → ℕ → Op Disk (Unit {0})
remove_file what id d = attempt what (λ n. d.files) (remove id d.files) tt d

-- The content of a file; a file that is not there cannot be opened.
unfoldable pub read_file : String → ℕ → Op Disk (List ℕ)
unfolding ask
read_file what id d = elim (get id d.files) [
  | none ↦ (d, err (storage (format what [])))
  | some bytes ↦ ask what bytes d
]

-- fs::metadata(path).map(len).unwrap_or_default()
unfoldable pub file_len : ℕ → Disk → ℕ
file_len id d = map_or 0 length (get id d.files)

-- file.metadata()?.len()
unfoldable pub metadata_len : String → ℕ → Op Disk ℕ
unfolding ask file_len
metadata_len what id d = ask what (file_len id d) d

-- fs::read_dir(dir), with the ids sorted
unfoldable pub list_ids : String → Op Disk (List ℕ)
unfolding ask
list_ids what d = ask what (keys d.files) d

-- Two writes in a row are one.
pub append_file-append_file :
    (k : ℕ) (xs ys : List ℕ) (m : BTreeMap (List ℕ))
    → append_file k ys (append_file k xs m) ≡ append_file k (xs ++ ys) m
unfolding append_file
append_file-append_file k xs ys [] = refl
append_file-append_file k xs ys ((j, b) ∷ m) = elim (Bool-cases (j == k)) [
  | inl t ↦ rw t (rw t (ap (λ c. (j, c) ∷ m) (append_assoc b xs ys)))
  | inr f ↦ rw f (rw f (ap (◌∷◌ (j, b)) (append_file-append_file k xs ys m)))
]

-- A write to a file just created.
pub append_file-insert :
    (k : ℕ) (b bytes : List ℕ) (m : BTreeMap (List ℕ))
    → append_file k bytes (insert k b m) ≡ insert k (b ++ bytes) m
unfolding append_file insert
append_file-insert k b bytes [] = rw (==_refl k)
append_file-insert k b bytes ((j, w) ∷ m) =
    ground (arith, append_file-insert k b bytes m, ==_refl k)

pub insert-insert :
    {V : Type 0} (k : ℕ) (v w : V) (m : BTreeMap V) → insert k w (insert k v m) ≡ insert k w m
unfolding insert
insert-insert k v w [] = rw (==_refl k)
insert-insert k v w ((j, u) ∷ m) = ground (arith, insert-insert k v w m, ==_refl k)

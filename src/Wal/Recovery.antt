-- ===== src/Wal/Recovery.antt =====
-- The choice of the record to recover: rustraft_recover_latest_wal_record (src/lib.rs), and what its
-- checksum covers.
use mathlib.Core.Path.{subst}
use rust_raft.Base.{
  Bool, Bool-cases, List, Option, [], ap, arith, filter, if◌then◌else◌, inl, inr, ltb, none, refl,
  some, sym, true, ◌&&◌, ◌∷◌, ◌≡◌, ◌≤◌, ◌⊎◌,
}
use rust_raft.Types.{RaftError, Result, err, is_ok, literal, ok, ok_or, storage}
use rust_raft.Wal.Record.{
  WalRecord, committed_index, validate_apply_snapshot_fence, validate_hard_state_persistence,
  wal_checksum_valid,
}

-- iter().take_while(p)
unfoldable pub take_while {ℓ} : {A : Type ℓ} → (A → Bool) → List A → List A
take_while p [] = []
take_while p (x ∷ xs) = if p x then x ∷ take_while p xs else []

-- The checks that a record must pass to be recovered.
unfoldable pub is_durable : WalRecord → Bool
unfolding validate_hard_state_persistence validate_apply_snapshot_fence
is_durable r = is_ok (validate_hard_state_persistence r) && is_ok (validate_apply_snapshot_fence r)

unfoldable pub later : WalRecord → Option WalRecord → WalRecord
unfolding committed_index
later r none = r
later r (some m) = if ltb (committed_index m) (committed_index r) then r else m

-- max_by_key(committed index): of several greatest ones the last.
unfoldable pub max_by_commit : List WalRecord → Option WalRecord
unfolding later
max_by_commit [] = none
max_by_commit (r ∷ rs) = some (later r (max_by_commit rs))

-- The records that recovery chooses from.
unfoldable pub survivors : List WalRecord → List WalRecord
unfolding take_while wal_checksum_valid is_durable
survivors rs = filter is_durable (take_while wal_checksum_valid rs)

unfoldable pub recover_latest : List WalRecord → Result WalRecord
unfolding max_by_commit survivors
recover_latest rs =
    ok_or (storage (literal "no valid WAL record survived recovery")) (max_by_commit (survivors rs))

-- A record of the list.
abbrev pub In : {A : Type 0} → A → List A → Type 0
In r [] = ⊥
In r (x ∷ xs) = (x ≡ r) ⊎ In r xs

abbrev pub All : {A : Type 0} → (A → Type 0) → List A → Type 0
All P [] = Unit
All P (x ∷ xs) = P x × All P xs

All-mono :
    {A : Type 0} (P Q : A → Type 0) → ((x : A) → P x → Q x) → (xs : List A) → All P xs → All Q xs
All-mono P Q f [] a = tt
All-mono P Q f (x ∷ xs) (p, a) = (f x p, All-mono P Q f xs a)

In-All : {A : Type 0} (P : A → Type 0) (r : A) (xs : List A) → All P xs → In r xs → P r
In-All P r [] a m = absurd m
In-All P r (x ∷ xs) (p, a) (inl e) = subst P e p
In-All P r (x ∷ xs) (p, a) (inr m) = In-All P r xs a m

filter-take_while-All :
    {A : Type 0} (p q : A → Bool) (xs : List A)
    → All (λ x. (p x ≡ true) × (q x ≡ true)) (filter q (take_while p xs))
unfolding take_while
filter-take_while-All p q [] = tt
filter-take_while-All p q (x ∷ xs) = elim (Bool-cases (p x)) [
  | inl t ↦ rw t (elim (Bool-cases (q x)) [
    | inl u ↦ rw u ((t, u), filter-take_while-All p q xs)
    | inr u ↦ rw u (filter-take_while-All p q xs)
  ])
  | inr f ↦ rw f tt
]

-- What recovery may choose: a valid checksum, and the checks passed.
abbrev pub IsSound : WalRecord → Type 0
IsSound r = (wal_checksum_valid r ≡ true) × (is_durable r ≡ true)

survivors-IsSound : (rs : List WalRecord) → All IsSound (survivors rs)
unfolding survivors
survivors-IsSound rs = filter-take_while-All wal_checksum_valid is_durable rs

abbrev pub IsNewest : WalRecord → List WalRecord → Type 0
IsNewest r rs = All (λ s. committed_index s ≤ committed_index r) rs

-- The choice among one record and the rest.
abbrev Leads : WalRecord → List WalRecord → Type 0
Leads r rs = In r rs × IsNewest r rs

later_lem : (x m : WalRecord) (xs : List WalRecord) → Leads m xs → Leads (later x (some m)) (x ∷ xs)
unfolding later
later_lem x m xs (i, n) = elim (Bool-cases (ltb (committed_index m) (committed_index x))) [
  | inl t ↦
      subst (λ k. Leads k (x ∷ xs)) (let e : x ≡ later x (some m) = rw t in e)
        (
          inl refl,
          (
            omega arith,
            All-mono (λ s. committed_index s ≤ committed_index m)
                (λ s. committed_index s ≤ committed_index x) (λ s h. ground arith) xs n,
          ),
        )
  | inr f ↦
      subst (λ k. Leads k (x ∷ xs)) (let e : m ≡ later x (some m) = rw f in e)
        (inr i, (ground arith, n))
]

max_by_commit_lem :
    (x : WalRecord) (xs : List WalRecord)
    → (m : WalRecord) × (max_by_commit (x ∷ xs) ≡ some m) × Leads m (x ∷ xs)
unfolding max_by_commit
max_by_commit_lem x [] = (x, unfold later in refl, (inl refl, (omega arith, tt)))
max_by_commit_lem x (y ∷ ys) =
    let (m, e, l) = max_by_commit_lem y ys in
    (later x (some m), ap (λ o. some (later x o)) e, later_lem x m (y ∷ ys) l)

-- What recovery answers for the records it may choose from.
pub data Choice (rs : List WalRecord) : Result WalRecord → Type 0 where
  nothing : {e : RaftError} → rs ≡ [] → Choice rs (err e)
  newest :
      {r : WalRecord}
      → In r rs
      → IsNewest r rs
      → wal_checksum_valid r ≡ true
      → is_durable r ≡ true
      → Choice rs (ok r)

choose :
    (e : RaftError) (rs : List WalRecord) → All IsSound rs → Choice rs (ok_or e (max_by_commit rs))
choose e [] a = unfold max_by_commit in nothing refl
choose e (x ∷ xs) a =
    let (m, f, (i, n)) = max_by_commit_lem x xs in
    let (v, d) = In-All IsSound m (x ∷ xs) a i in
    subst (λ o. Choice (x ∷ xs) (ok_or e o)) (sym f) (newest i n v d)

-- Recovery fails exactly when no record survives the checks. Otherwise it answers with one of the
-- surviving records, whose checksum is valid and which passes the checks of a durable record, and
-- no surviving record has a later committed index.
pub recover_latest-Choice : (rs : List WalRecord) → Choice (survivors rs) (recover_latest rs)
unfolding recover_latest
recover_latest-Choice rs = choose _ (survivors rs) (survivors-IsSound rs)

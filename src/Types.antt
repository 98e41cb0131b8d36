-- ===== src/Types.antt =====
-- The shared data types of src/lib.rs: roles, log ids, entries, hard state, snapshots, errors.
use rust_raft.Base.{Bool, List, Option, String, false, inl, inr, refl, true, ℕ, ◌≡◌, ◌⊎◌}

-- RustRaftRole
pub data Role : Type 0 where
  leader follower candidate learner : Role

-- RustRaftReplicaRole
pub data ReplicaRole : Type 0 where
  voter learner witness : ReplicaRole

unfoldable pub participates_in_quorum : ReplicaRole → Bool
participates_in_quorum ReplicaRole.voter = true
participates_in_quorum ReplicaRole.learner = false
participates_in_quorum ReplicaRole.witness = true

unfoldable pub can_serve_data : ReplicaRole → Bool
can_serve_data ReplicaRole.voter = true
can_serve_data ReplicaRole.learner = true
can_serve_data ReplicaRole.witness = false

unfoldable pub can_be_leader : ReplicaRole → Bool
can_be_leader ReplicaRole.voter = true
can_be_leader ReplicaRole.learner = false
can_be_leader ReplicaRole.witness = false

-- `==` on ReplicaRole, one constructor at a time
unfoldable pub is_voter : ReplicaRole → Bool
is_voter ReplicaRole.voter = true
is_voter ReplicaRole.learner = false
is_voter ReplicaRole.witness = false

unfoldable pub is_learner : ReplicaRole → Bool
is_learner ReplicaRole.voter = false
is_learner ReplicaRole.learner = true
is_learner ReplicaRole.witness = false

unfoldable pub is_witness : ReplicaRole → Bool
is_witness ReplicaRole.voter = false
is_witness ReplicaRole.learner = false
is_witness ReplicaRole.witness = true

pub record LogId : Type 0 where
  pub term : ℕ
  pub index : ℕ

-- RustRaftLogEntry; the payload is a list of bytes
pub record LogEntry : Type 0 where
  pub log_id : LogId
  pub payload : List ℕ

pub record HardState : Type 0 where
  pub current_term : ℕ
  pub voted_for : Option ℕ
  pub committed : Option LogId

pub record SnapshotMeta : Type 0 where
  pub snapshot_id : String
  pub last_log_id : LogId
  pub membership : List ℕ

-- RaftSnapshot
pub record Snapshot : Type 0 where
  pub group_id : ℕ
  pub meta : SnapshotMeta
  pub payload : List ℕ

pub record ApplySnapshotFence : Type 0 where
  pub applied_index : ℕ
  pub commit_index : ℕ
  pub installed_snapshot_index : ℕ
  pub first_retained_log_index : ℕ

-- The template of a `format!` with its numbers and its texts, each in their order.
pub record FormatText : Type 0 where
  pub template : String
  pub numbers : List ℕ
  pub texts : List String

-- A `String` built by `to_string`, or the template of a `format!` with its arguments in order, or
-- several of these joined by "; ": the rendering is the standard library's.
pub data Message : Type 0 where
  literal : String → Message
  format : String → List ℕ → Message
  joined : List FormatText → Message

-- RustRaftError
pub data RaftError : Type 0 where
  config : Message → RaftError
  node_not_found : ℕ → RaftError
  no_leader : RaftError
  not_leader : ℕ → RaftError
  invalid_request : Message → RaftError
  transport : Message → RaftError
  storage : Message → RaftError

-- std's Result with a RaftError
pub data Result {ℓ} (T : Type ℓ) : Type ℓ where
  err : RaftError → Result T
  ok : T → Result T

-- `?` on a result
infixl 5 ◌>>=◌ ◌>>◌
abbrev pub ◌>>=◌ {ℓ κ} : {T : Type ℓ} {U : Type κ} → Result T → (T → Result U) → Result U
err problem >>= next = err problem
ok value >>= next = next value

abbrev pub ◌>>◌ {κ} : {U : Type κ} → Result (Unit {0}) → Result U → Result U
checked >> next = checked >>= (λ _. next)

-- A test that returns early with an error.
abbrev pub reject_if : Bool → RaftError → Result (Unit {0})
reject_if true e = err e
reject_if false e = ok tt

-- option.ok_or(error)
abbrev pub ok_or {ℓ} : {A : Type ℓ} → RaftError → Option A → Result A
ok_or e Option.none = err e
ok_or e (Option.some a) = ok a

-- result.is_ok()
abbrev pub is_ok {ℓ} : {A : Type ℓ} → Result A → Bool
is_ok (ok a) = true
is_ok (err e) = false

-- A method on `&mut self` that may fail: the object after it, and the result.
abbrev pub Outcome : Type 0 → Type 0 → Type 0
Outcome S A = S × Result A

-- self.first()?; and then the rest on the object after it.
abbrev pub and_then : {S A B : Type 0} → Outcome S A → (S → A → Outcome S B) → Outcome S B
and_then (s, ok a) next = next s a
and_then (s, err e) next = (s, err e)

-- To split on a result and keep the equation.
pub Result-cases {ℓ} :
    {A : Type ℓ} (r : Result A) → ((a : A) × (r ≡ ok a)) ⊎ ((e : RaftError) × (r ≡ err e))
Result-cases (ok a) = inl (a, refl)
Result-cases (err e) = inr (e, refl)

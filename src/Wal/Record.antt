-- ===== src/Wal/Record.antt =====
-- RustRaftWalRecord and rustraft_wal_checksum (src/lib.rs), with the checks of a record.
use Prim.Native.Nat.{bit_xor}
use Prim.Native.String.{◌++◌ as ◌<>◌}
use text.Mathlib.Text.{◌==◌ as str_eq}
use text.Mathlib.TextPositions.{eq_refl}
use rust_raft.Base.{
  Bool, List, Option, String, [], ap, if◌then◌else◌, leb, length, ltb, map_or, max, mul_u64, none,
  not, refl, some, suc, true, zero, ℕ, ◌%◌, ◌&&◌, ◌++◌, ◌/◌, ◌==◌, ◌∷◌, ◌≡◌,
}
use rust_raft.Types.{
  ApplySnapshotFence, HardState, LogEntry, LogId, Result, SnapshotMeta, literal, ok, reject_if,
  storage, ◌>>◌,
}
use rust_raft.Membership.{Membership}
use rust_raft.Node.{last_entry_index, snapshot_index}

pub record WalRecord : Type 0 where
  pub group_id : ℕ
  pub node_id : ℕ
  pub hard_state : HardState
  pub membership : Membership
  pub entries : List LogEntry
  pub installed_snapshot : Option SnapshotMeta
  pub apply_snapshot_fence : ApplySnapshotFence
  pub checksum : String

-- value.to_le_bytes()
unfoldable pub le_bytes : ℕ → ℕ → List ℕ
le_bytes zero value = []
le_bytes (suc n) value = value % 256 ∷ le_bytes n (value / 256)

-- FNV-1a over bytes: hash ^= byte; hash = hash.wrapping_mul(..)
unfoldable pub mix_bytes : ℕ → List ℕ → ℕ
mix_bytes hash [] = hash
mix_bytes hash (b ∷ bs) = mix_bytes (mul_u64 (bit_xor hash b) 1_099_511_628_211) bs

-- mix(value) for each value
unfoldable pub mix : ℕ → List ℕ → ℕ
unfolding le_bytes mix_bytes
mix hash [] = hash
mix hash (value ∷ values) = mix (mix_bytes hash (le_bytes 8 value)) values

unfoldable pub log_id_values : Option LogId → List ℕ
log_id_values none = []
log_id_values (some i) = i.term ∷ i.index ∷ []

unfoldable pub entry_values : List LogEntry → List ℕ
entry_values [] = []
entry_values (e ∷ es) = e.log_id.term ∷ e.log_id.index ∷ length e.payload ∷ entry_values es

unfoldable pub snapshot_log_id : Option SnapshotMeta → Option LogId
snapshot_log_id none = none
snapshot_log_id (some s) = some s.last_log_id

unfoldable pub fence_values : ApplySnapshotFence → List ℕ
fence_values f =
    f.applied_index ∷ f.commit_index ∷ f.installed_snapshot_index ∷ f.first_retained_log_index ∷ []

-- The values that the checksum mixes, in order.
unfoldable pub checksum_values : WalRecord → List ℕ
unfolding log_id_values entry_values snapshot_log_id fence_values
checksum_values r =
    (r.group_id
      ∷ r.node_id
      ∷ r.hard_state.current_term
      ∷ map_or 0 (λ id. id) r.hard_state.voted_for
      ∷ [])
    ++ log_id_values r.hard_state.committed
    ++ entry_values r.entries
    ++ log_id_values (snapshot_log_id r.installed_snapshot)
    ++ fence_values r.apply_snapshot_fence

unfoldable pub hex_digit : ℕ → String
hex_digit d =
    if ltb d 8
    then if ltb d 4
      then if ltb d 2 then (if d == 0 then "0" else "1") else (if d == 2 then "2" else "3")
      else if ltb d 6
      then (if d == 4 then "4" else "5")
      else (if d == 6 then "6" else "7")
    else if ltb d 12
    then if ltb d 10 then (if d == 8 then "8" else "9") else (if d == 10 then "a" else "b")
    else if ltb d 14
    then (if d == 12 then "c" else "d")
    else (if d == 14 then "e" else "f")

-- The last `n` hexadecimal digits; `{hash:016x}` for 16 of them.
unfoldable pub hex : ℕ → ℕ → String
unfolding hex_digit
hex zero value = ""
hex (suc n) value = hex n (value / 16) <> hex_digit (value % 16)

-- rustraft_wal_checksum
unfoldable pub wal_checksum : WalRecord → String
unfolding hex mix checksum_values
wal_checksum r = hex 16 (mix 14_695_981_039_346_656_037 (checksum_values r))

unfoldable pub wal_checksum_valid : WalRecord → Bool
wal_checksum_valid r = str_eq r.checksum (wal_checksum r)

-- record.checksum = rustraft_wal_checksum(&record)
unfoldable pub stamp : WalRecord → WalRecord
stamp r = record r { checksum = wal_checksum r }

-- rustraft_validate_hard_state_persistence
unfoldable pub validate_hard_state_persistence : WalRecord → Result (Unit {0})
unfolding last_entry_index snapshot_index
validate_hard_state_persistence r = elim r.hard_state.committed [
  | none ↦ ok tt
  | some committed ↦ do
    reject_if (ltb r.hard_state.current_term committed.term)
        (storage (literal "committed term is ahead of persisted current term"))
    reject_if
        (ltb (max (last_entry_index r.entries) (snapshot_index r.installed_snapshot))
          committed.index)
        (storage (literal "committed index is ahead of persisted log and snapshot"))
    ok tt
]

-- hard_state.committed.map(index).unwrap_or_default()
unfoldable pub committed_index : WalRecord → ℕ
committed_index r = map_or 0 (λ (i : LogId). i.index) r.hard_state.committed

-- The checks of the fence against an installed snapshot.
unfoldable pub validate_fence_snapshot :
    ApplySnapshotFence → Option SnapshotMeta → Result (Unit {0})
validate_fence_snapshot fence none = ok tt
validate_fence_snapshot fence (some snapshot) = do
  reject_if (not (fence.installed_snapshot_index == snapshot.last_log_id.index))
      (storage (literal "apply snapshot fence does not match installed snapshot"))
  reject_if
      (ltb 0 fence.first_retained_log_index
        && leb fence.first_retained_log_index snapshot.last_log_id.index)
      (storage (literal "first retained log index overlaps installed snapshot"))
  ok tt

-- rustraft_validate_apply_snapshot_fence
unfoldable pub validate_apply_snapshot_fence : WalRecord → Result (Unit {0})
unfolding committed_index validate_fence_snapshot
validate_apply_snapshot_fence r = do
  reject_if (ltb (committed_index r) r.apply_snapshot_fence.applied_index)
      (storage (literal "apply snapshot fence is ahead of committed index"))
  reject_if (not (r.apply_snapshot_fence.commit_index == committed_index r))
      (storage (literal "apply snapshot fence commit index does not match hard state"))
  validate_fence_snapshot r.apply_snapshot_fence r.installed_snapshot

values-stamp : (r : WalRecord) → checksum_values (stamp r) ≡ checksum_values r
unfolding stamp checksum_values
values-stamp r = refl

checksum-stamp : (r : WalRecord) → wal_checksum (stamp r) ≡ wal_checksum r
unfolding wal_checksum
checksum-stamp r = ap (λ values. hex 16 (mix 14_695_981_039_346_656_037 values)) (values-stamp r)

pub stamp-valid : (r : WalRecord) → wal_checksum_valid (stamp r) ≡ true
unfolding wal_checksum_valid stamp
stamp-valid r = rw (checksum-stamp r) (eq_refl (wal_checksum r))

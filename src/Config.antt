-- ===== src/Config.antt =====
-- RustRaftConfig and its validation (src/lib.rs).
mod Tests
use rust_raft.Types.{Message, RaftError, Result, err, format, literal, ok}
use rust_raft.Base.{
  Bool, Option, [], arith, if◌then◌else◌, leb, none, some, true, ℕ, ◌<◌, ◌==◌, ◌↔◌, ◌∷◌, ◌≡◌,
}

pub record Config : Type 0 where
  pub election_timeout_ms : ℕ
  pub heartbeat_interval_ms : ℕ
  pub leader_lease_ms : ℕ
  pub max_payload_bytes : ℕ
  pub snapshot_threshold_entries : ℕ
  pub max_segment_bytes : ℕ
  pub min_keep_segment_num : ℕ
  pub enable_pre_vote : Bool
  pub enable_lease_read : Bool

abbrev pub default_config : Config
default_config = record {
  election_timeout_ms = 1_000;
  heartbeat_interval_ms = 100;
  leader_lease_ms = 500;
  max_payload_bytes = 8_388_608;
  snapshot_threshold_entries = 10_000;
  max_segment_bytes = 67_108_864;
  min_keep_segment_num = 2;
  enable_pre_vote = true;
  enable_lease_read = true;
}

-- RaftConfigError; RustRaftError::Config holds the text of one.
pub data ConfigError : Type 0 where
  zero_election_timeout : ConfigError
  zero_heartbeat_interval : ConfigError
  zero_leader_lease : ConfigError
  heartbeat_not_less_than_election : ℕ → ℕ → ConfigError
  lease_not_less_than_election : ℕ → ℕ → ConfigError
  zero_max_payload_bytes : ConfigError
  zero_snapshot_threshold : ConfigError
  zero_max_segment_bytes : ConfigError

-- The early returns of `validate`, in order.
unfoldable pub validate : Config → Option ConfigError
validate c =
    if c.election_timeout_ms == 0
    then some zero_election_timeout
    else if c.heartbeat_interval_ms == 0
    then some zero_heartbeat_interval
    else if c.leader_lease_ms == 0
    then some zero_leader_lease
    else if leb c.election_timeout_ms c.heartbeat_interval_ms
    then some (heartbeat_not_less_than_election c.heartbeat_interval_ms c.election_timeout_ms)
    else if leb c.election_timeout_ms c.leader_lease_ms
    then some (lease_not_less_than_election c.leader_lease_ms c.election_timeout_ms)
    else if c.max_payload_bytes == 0
    then some zero_max_payload_bytes
    else if c.snapshot_threshold_entries == 0
    then some zero_snapshot_threshold
    else if c.max_segment_bytes == 0
    then some zero_max_segment_bytes
    else none

-- What a configuration has to satisfy.
pub record IsSound (c : Config) : Type 0 where
  pub heartbeat : (0 < c.heartbeat_interval_ms) × (c.heartbeat_interval_ms < c.election_timeout_ms)
  pub lease : (0 < c.leader_lease_ms) × (c.leader_lease_ms < c.election_timeout_ms)
  pub sizes :
      (0 < c.max_payload_bytes) × (0 < c.snapshot_threshold_entries) × (0 < c.max_segment_bytes)

-- `validate` accepts a configuration exactly when the heartbeat interval and the leader lease are
-- positive and below the election timeout and the three sizes are positive.
pub validate-IsSound : (c : Config) → (validate c ≡ none) ↔ IsSound c
unfolding validate
validate-IsSound c = (λ h. ground arith, λ v. ground arith)

-- The text of an error.
unfoldable pub display : ConfigError → Message
display zero_election_timeout = literal "election_timeout_ms must be greater than zero"
display zero_heartbeat_interval = literal "heartbeat_interval_ms must be greater than zero"
display zero_leader_lease = literal "leader_lease_ms must be greater than zero"
display (heartbeat_not_less_than_election heartbeat election) =
    format
      "heartbeat_interval_ms ({heartbeat_interval_ms}) must be less than election_timeout_ms ({election_timeout_ms})"
      (heartbeat ∷ election ∷ [])
display (lease_not_less_than_election lease election) =
    format
      "leader_lease_ms ({leader_lease_ms}) must be less than election_timeout_ms ({election_timeout_ms})"
      (lease ∷ election ∷ [])
display zero_max_payload_bytes = literal "max_payload_bytes must be greater than zero"
display zero_snapshot_threshold = literal "snapshot_threshold_entries must be greater than zero"
display zero_max_segment_bytes = literal "max_segment_bytes must be greater than zero"

-- config.validate()? where the caller's error is a RaftError
unfoldable pub check_config : Config → Result (Unit {0})
unfolding validate display
check_config c = elim (validate c) [ none ↦ ok tt | some e ↦ err (RaftError.config (display e)) ]

-- ===== src/Config/Tests.antt =====
-- The default configuration: one instance of the theorem.
use rust_raft.Base.{none, refl, ◌↔◌, ◌≡◌}
use rust_raft.Config.{IsSound, default_config, validate, validate-IsSound}

validate-IsSound_example : (validate default_config ≡ none) ↔ IsSound default_config
validate-IsSound_example = validate-IsSound default_config

default_run : validate default_config ≡ none
unfolding validate
default_run = refl

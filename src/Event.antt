-- ===== src/Event.antt =====
-- The events that a player emits: `EmittedEvent` of crates/protocol/src/message.rs, with
-- `Exception` of crates/protocol/src/load_result.rs.
use lavalink_rs.Prelude.Int.{ℤ}
use lavalink_rs.PlayerModel.{Track}
use lavalink_rs.Unicode.{Text}
use lavalink_rs.Prelude.{Bool, true, false, Option}

pub data Severity : Type 0 where
  common : Severity
  suspicious : Severity
  fault : Severity

pub record Exception : Type 0 where
  pub message : Option Text
  pub severity : Severity
  pub cause : Text
  pub cause_stack_trace : Text

pub data TrackEndReason : Type 0 where
  finished : TrackEndReason
  load_failed : TrackEndReason
  stopped_reason : TrackEndReason
  replaced : TrackEndReason
  cleanup : TrackEndReason

unfoldable pub may_start_next : TrackEndReason → Bool
may_start_next finished = true
may_start_next load_failed = true
may_start_next stopped_reason = false
may_start_next replaced = false
may_start_next cleanup = false

pub data EmittedEvent (JsonObject : Type 0) : Type 0 where
  track_start : Text → Track JsonObject → EmittedEvent JsonObject
  track_end : Text → Track JsonObject → TrackEndReason → EmittedEvent JsonObject
  track_exception : Text → Track JsonObject → Exception → EmittedEvent JsonObject
  track_stuck : Text → Track JsonObject → ℤ → EmittedEvent JsonObject
  web_socket_closed : Text → ℤ → Text → Bool → EmittedEvent JsonObject

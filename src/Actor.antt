-- ===== src/Actor.antt =====
-- The actor of one player: crates/server/src/player/actor.rs. A handler is a function of the
-- actor's state. The engine and the sink are what the handlers call them with, in order: `calls`
-- and `sent`; the engine's `play` returns the next generation, as `PipelineEngine` counts them.
-- The two clocks are arguments, one reading for each handler. Logging and the replies to the
-- callers are left out; a reply is the snapshot of the state.
pub mod Patch
pub mod Arms
pub mod History
pub mod Settled
pub mod SettledPatch
pub mod SettledRun
pub mod Run
pub mod Generations
pub mod Stale
pub mod Delivery
pub mod Reports
pub mod NoReplace
mod Tests
use lavalink_rs.Omissible.{Omissible}
use lavalink_rs.FrameCounters.{track_ended_at, paused_at, FrameCounters}
use lavalink_rs.Prelude.Int.{pos, ltb_ℤ, ℤ}
use lavalink_rs.Unicode.{Text}
use lavalink_rs.PlayerModel.{
  wire_state, new_model, stop, set_paused, PlayerState, is_playing, VoiceState, Track, PlayerModel,
}
use lavalink_rs.Sink.{player_update, Message}
use lavalink_rs.Event.{track_end, TrackEndReason, Exception, EmittedEvent}
use lavalink_rs.Prelude.{
  ℕ, Bool, true, false, not, Option, none, some, List, [], ◌∷◌, ◌++◌, if◌then◌else◌,
}

-- `EngineEvent` and `EngineReport` of crates/server/src/audio/mod.rs.
pub data EngineEvent : Type 0 where
  progress : EngineEvent
  finished_event : EngineEvent
  exception_event : Exception → EngineEvent
  load_failed_event : EngineEvent
  start_failed : Exception → EngineEvent

pub record EngineReport : Type 0 where
  pub generation : ℕ
  pub event : EngineEvent

pub record PlayRequest (JsonObject Filters : Type 0) : Type 0 where
  pub track : Track JsonObject
  pub start_position_ms : ℤ
  pub end_time_ms : Option ℤ
  pub paused : Bool
  pub volume : ℤ
  pub filters : Filters

-- A call of the `Engine` trait.
pub data EngineCall (JsonObject Filters : Type 0) : Type 0 where
  engine_play : PlayRequest JsonObject Filters → EngineCall JsonObject Filters
  engine_stop : EngineCall JsonObject Filters
  engine_set_paused : Bool → EngineCall JsonObject Filters
  engine_seek : ℤ → EngineCall JsonObject Filters
  engine_set_volume : ℤ → EngineCall JsonObject Filters
  engine_set_filters : Filters → EngineCall JsonObject Filters
  engine_set_end_time : Option ℤ → EngineCall JsonObject Filters
  engine_shutdown : EngineCall JsonObject Filters

pub data TrackChange (JsonObject : Type 0) : Type 0 where
  play_track : Track JsonObject → TrackChange JsonObject
  clear : TrackChange JsonObject

pub record PatchRequest (JsonObject Filters : Type 0) : Type 0 where
  pub voice : Option VoiceState
  pub paused : Omissible Bool
  pub user_data : Omissible JsonObject
  pub volume : Omissible ℤ
  pub position : Omissible ℤ
  pub end_time : Omissible (Option ℤ)
  pub filters : Omissible Filters
  pub track : Option (TrackChange JsonObject)
  pub no_replace : Bool

pub data VoiceUpdate : Type 0 where
  voice_connecting : VoiceUpdate
  voice_connected : ℤ → VoiceUpdate
  voice_reconnecting : VoiceUpdate
  voice_disconnected : VoiceUpdate
  voice_closed : ℤ → Bool → VoiceUpdate

pub record Actor (JsonObject Filters StatsEvent : Type 0) : Type 0 where
  pub model : PlayerModel JsonObject Filters
  pub calls : List (EngineCall JsonObject Filters)
  pub next_generation : ℕ
  pub sent : List (Message PlayerState StatsEvent (EmittedEvent JsonObject))
  pub active_generation : Option ℕ
  pub position_ms : ℤ
  pub playing : Bool
  pub frames : FrameCounters
  pub stuck_threshold : ℕ
  pub stuck_reported : Bool
  pub guild_id_str : Text

abbrev pub eqb : Bool → Bool → Bool
eqb true b = b
eqb false b = not b

unfoldable pub clamp_start_position : ℤ → ℤ
clamp_start_position position = if ltb_ℤ position (pos 0) then pos 0 else position

module _ {JsonObject Filters StatsEvent : Type 0} where
  unfoldable pub new_actor :
      ℕ → Text → Filters → ℕ → FrameCounters → Actor JsonObject Filters StatsEvent
  new_actor guild_id text filters stuck_threshold frames = record {
    model = new_model guild_id text filters;
    calls = [];
    next_generation = 1;
    sent = [];
    active_generation = none;
    position_ms = pos 0;
    playing = false;
    frames = frames;
    stuck_threshold = stuck_threshold;
    stuck_reported = false;
    guild_id_str = text;
  }

  unfoldable pub call_engine :
      EngineCall JsonObject Filters
      → Actor JsonObject Filters StatsEvent
      → Actor JsonObject Filters StatsEvent
  call_engine c a = record a { calls = a.calls ++ (c ∷ []) }

  unfoldable pub send_message :
      Message PlayerState StatsEvent (EmittedEvent JsonObject)
      → Actor JsonObject Filters StatsEvent
      → Actor JsonObject Filters StatsEvent
  send_message m a = record a { sent = a.sent ++ (m ∷ []) }

  unfoldable pub emit :
      EmittedEvent JsonObject
      → Actor JsonObject Filters StatsEvent
      → Actor JsonObject Filters StatsEvent
  unfolding send_message
  emit e a = send_message (Message.event e) a

  unfoldable pub emit_player_update :
      ℤ → Actor JsonObject Filters StatsEvent → Actor JsonObject Filters StatsEvent
  unfolding send_message
  emit_player_update now_ms a =
      send_message (player_update (wire_state a.position_ms now_ms a.model) a.guild_id_str) a

  unfoldable pub sync_playing :
      Actor JsonObject Filters StatsEvent → Actor JsonObject Filters StatsEvent
  sync_playing a = record a { playing = is_playing a.model.playback }

  unfoldable pub record_pause_transition :
      Bool → ℤ → Actor JsonObject Filters StatsEvent → Actor JsonObject Filters StatsEvent
  record_pause_transition paused now_ms a =
      if eqb a.model.paused paused
      then a
      else record a { frames = paused_at paused now_ms a.frames }

  unfoldable pub actor_set_paused :
      Bool → ℕ → ℤ → Actor JsonObject Filters StatsEvent → Actor JsonObject Filters StatsEvent
  unfolding record_pause_transition call_engine
  actor_set_paused paused now now_ms a =
      let a' = record_pause_transition paused now_ms a in
      call_engine (engine_set_paused paused) (record a' { model = set_paused paused now a'.model })

  -- The event of a track that has ended; nothing for a player that had none.
  unfoldable pub end_event :
      TrackEndReason
      → ℤ
      → Option (Track JsonObject)
      → Actor JsonObject Filters StatsEvent
      → Actor JsonObject Filters StatsEvent
  unfolding emit
  end_event reason now_ms none a = a
  end_event reason now_ms (some track) a =
      emit (track_end a.guild_id_str track reason)
        (record a { frames = track_ended_at now_ms a.frames })

  unfoldable pub stop_track :
      TrackEndReason → ℤ → Actor JsonObject Filters StatsEvent → Actor JsonObject Filters StatsEvent
  unfolding call_engine end_event
  stop_track reason now_ms a =
      let (track, model) = stop a.model in
      end_event reason now_ms track (
        call_engine engine_stop (record a {
          active_generation = none;
          model = model;
          position_ms = pos 0;
          stuck_reported = false;
        }))

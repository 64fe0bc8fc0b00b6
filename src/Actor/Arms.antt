-- ===== src/Actor/Arms.antt =====
-- The arms of `run` in crates/server/src/player/actor.rs, each with its handler. Instants and
-- durations are in nanoseconds.
use lavalink_rs.FrameCounters.{track_ended_at}
use lavalink_rs.Event.{
  web_socket_closed, load_failed, track_stuck, track_exception, finished, Exception,
}
use lavalink_rs.Prelude.Int.{negsuc, pos, wrap_i64, ℤ}
use lavalink_rs.Actor.Patch.{apply_patch}
use lavalink_rs.PlayerModel.{
  disconnected, is_some, reconnecting, connected_voice, connecting, stop, is_playing, Track,
  VoiceConnection,
}
use lavalink_rs.Actor.{
  voice_disconnected, voice_reconnecting, voice_connecting, load_failed_event, voice_closed,
  finished_event, progress, start_failed, voice_connected, exception_event, engine_stop,
  engine_shutdown, VoiceUpdate, EngineReport, EngineEvent, sync_playing, stop_track,
  emit_player_update, emit, call_engine, PatchRequest, Actor,
}
use lavalink_rs.Prelude.{
  ℕ, ◌-◌, ◌/◌, Bool, true, false, not, ◌||◌, Option, none, some, List, [], ◌∷◌, ltb, ◌==◌,
  if◌then◌else◌,
}

-- A command without the channel of its reply.
pub data Command (JsonObject Filters : Type 0) : Type 0 where
  patch_command : PatchRequest JsonObject Filters → Command JsonObject Filters
  snapshot_command : Command JsonObject Filters
  emit_update : Command JsonObject Filters

abbrev pub is_active : Option ℕ → ℕ → Bool
is_active none generation = false
is_active (some active) generation = active == generation

module _ {JsonObject Filters StatsEvent : Type 0} where
  unfoldable pub set_connection :
      VoiceConnection → Actor JsonObject Filters StatsEvent → Actor JsonObject Filters StatsEvent
  set_connection connection a = record a { model = record a.model { connection = connection } }

  unfoldable pub set_ping :
      ℤ → Actor JsonObject Filters StatsEvent → Actor JsonObject Filters StatsEvent
  set_ping ping a = record a { model = record a.model { ping_ms = ping } }

  -- The match of `apply_voice`; the reason of a closed socket is empty.
  unfoldable pub voice_changed :
      VoiceUpdate → Actor JsonObject Filters StatsEvent → Actor JsonObject Filters StatsEvent
  unfolding set_connection set_ping emit
  voice_changed voice_connecting a = set_connection connecting a
  voice_changed (voice_connected ping_ms) a = set_ping ping_ms (set_connection connected_voice a)
  voice_changed voice_reconnecting a = set_connection reconnecting a
  voice_changed voice_disconnected a = set_ping (negsuc 0) (set_connection disconnected a)
  voice_changed (voice_closed code by_remote) a =
      emit (web_socket_closed a.guild_id_str code [] by_remote)
        (set_ping (negsuc 0) (set_connection disconnected a))

  unfoldable pub apply_voice :
      ℤ → VoiceUpdate → Actor JsonObject Filters StatsEvent → Actor JsonObject Filters StatsEvent
  unfolding voice_changed emit_player_update
  apply_voice now_ms update a = emit_player_update now_ms (voice_changed update a)

  -- The exception of the track that is loaded, if there is one.
  unfoldable pub emit_exception :
      Exception
      → Option (Track JsonObject)
      → Actor JsonObject Filters StatsEvent
      → Actor JsonObject Filters StatsEvent
  unfolding emit
  emit_exception e none a = a
  emit_exception e (some track) a = emit (track_exception a.guild_id_str track e) a

  unfoldable pub apply_engine_event :
      ℕ
      → ℤ
      → EngineEvent
      → Actor JsonObject Filters StatsEvent
      → Actor JsonObject Filters StatsEvent
  unfolding stop_track emit_exception
  apply_engine_event now now_ms progress a = record a {
    model = record a.model { last_progress = some now };
    stuck_reported = false;
  }
  apply_engine_event now now_ms finished_event a = stop_track finished now_ms a
  apply_engine_event now now_ms (exception_event e) a = emit_exception e a.model.track a
  apply_engine_event now now_ms load_failed_event a = stop_track load_failed now_ms a
  apply_engine_event now now_ms (start_failed e) a =
      if is_some a.model.track
      then stop_track load_failed now_ms (emit_exception e a.model.track a)
      else a

  unfoldable pub apply_engine_report :
      ℕ
      → ℤ
      → EngineReport
      → Actor JsonObject Filters StatsEvent
      → Actor JsonObject Filters StatsEvent
  unfolding apply_engine_event
  apply_engine_report now now_ms report a =
      if is_active a.active_generation report.generation
      then apply_engine_event now now_ms report.event a
      else a

  -- Past the guards of `check_stuck` that depend on what is loaded.
  unfoldable pub report_stuck :
      ℕ
      → Option ℕ
      → Option (Track JsonObject)
      → Actor JsonObject Filters StatsEvent
      → Actor JsonObject Filters StatsEvent
  unfolding emit
  report_stuck now none track a = a
  report_stuck now (some last_progress) none a = a
  report_stuck now (some last_progress) (some track) a =
      if ltb (now - last_progress) a.stuck_threshold
      then a
      else emit (track_stuck a.guild_id_str track (wrap_i64 (pos (a.stuck_threshold / 1000000))))
          (record a { stuck_reported = true })

  unfoldable pub check_stuck :
      ℕ → Actor JsonObject Filters StatsEvent → Actor JsonObject Filters StatsEvent
  unfolding report_stuck
  check_stuck now a =
      if not (is_playing a.model.playback) || a.stuck_reported
      then a
      else report_stuck now a.model.last_progress a.model.track a

  unfoldable pub run_command :
      ℕ
      → ℤ
      → Command JsonObject Filters
      → Actor JsonObject Filters StatsEvent
      → Actor JsonObject Filters StatsEvent
  unfolding apply_patch emit_player_update
  run_command now now_ms (patch_command request) a = apply_patch now now_ms request a
  run_command now now_ms snapshot_command a = a
  run_command now now_ms emit_update a = emit_player_update now_ms a

  unfoldable pub handle :
      ℕ
      → ℤ
      → Command JsonObject Filters
      → Actor JsonObject Filters StatsEvent
      → Actor JsonObject Filters StatsEvent
  unfolding run_command sync_playing
  handle now now_ms command a = sync_playing (run_command now now_ms command a)

  -- The arm of `destroy`, and what follows the loop.
  unfoldable pub note_end :
      ℤ
      → Option (Track JsonObject)
      → Actor JsonObject Filters StatsEvent
      → Actor JsonObject Filters StatsEvent
  note_end now_ms none a = a
  note_end now_ms (some track) a = record a { frames = track_ended_at now_ms a.frames }

  unfoldable pub destroy :
      ℤ → Actor JsonObject Filters StatsEvent → Actor JsonObject Filters StatsEvent
  unfolding call_engine note_end
  destroy now_ms a =
      let (track, model) = stop a.model in
      call_engine engine_shutdown
        (note_end now_ms track (record (call_engine engine_stop a) { model = model }))

-- What `select!` can find ready, with the clocks at that time. The ring's reader moves the position
-- that it shares with the actor at any time.
pub data Arm (JsonObject Filters : Type 0) : Type 0 where
  destroy_arm : ℤ → Arm JsonObject Filters
  engine_arm : ℕ → ℤ → EngineReport → Arm JsonObject Filters
  voice_arm : ℤ → VoiceUpdate → Arm JsonObject Filters
  command_arm : ℕ → ℤ → Command JsonObject Filters → Arm JsonObject Filters
  stuck_arm : ℕ → Arm JsonObject Filters
  position_moved : ℤ → Arm JsonObject Filters

unfoldable pub ends : {JsonObject Filters : Type 0} → Arm JsonObject Filters → Bool
ends (destroy_arm now_ms) = true
ends (engine_arm now now_ms report) = false
ends (voice_arm now_ms update) = false
ends (command_arm now now_ms command) = false
ends (stuck_arm now) = false
ends (position_moved position) = false

module _ {JsonObject Filters StatsEvent : Type 0} where
  -- One turn of the loop, for an arm that does not leave it.
  unfoldable pub turn :
      Arm JsonObject Filters
      → Actor JsonObject Filters StatsEvent
      → Actor JsonObject Filters StatsEvent
  unfolding destroy apply_engine_report sync_playing apply_voice handle check_stuck
  turn (destroy_arm now_ms) a = destroy now_ms a
  turn (engine_arm now now_ms report) a = sync_playing (apply_engine_report now now_ms report a)
  turn (voice_arm now_ms update) a = sync_playing (apply_voice now_ms update a)
  turn (command_arm now now_ms command) a = handle now now_ms command a
  turn (stuck_arm now) a = if is_playing a.model.playback then check_stuck now a else a
  turn (position_moved position) a = record a { position_ms = position }

  -- `run`: the loop leaves at the first destroy. The channel of the commands closes with that of
  -- destroy, whose arm is polled first.
  unfoldable pub run :
      List (Arm JsonObject Filters)
      → Actor JsonObject Filters StatsEvent
      → Actor JsonObject Filters StatsEvent
  unfolding turn ends
  run [] a = a
  run (arm ∷ arms) a = let rest = run arms (turn arm a) in if ends arm then turn arm a else rest

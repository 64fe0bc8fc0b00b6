-- ===== src/Actor/SettledRun.antt =====
-- Every turn of the loop leaves the actor settled.
use lavalink_rs.Sink.{event}
use lavalink_rs.PlayerModel.Consistent.{new_model-IsConsistent, changes, same-IsConsistent}
use lavalink_rs.Actor.SettledPatch.{apply_patch-IsSettled}
use lavalink_rs.FrameCounters.{FrameCounters}
use lavalink_rs.Unicode.{Text}
use lavalink_rs.Actor.Settled.{
  emit_player_update-IsSettled, stop_track-IsSettled, remodel-IsSettled, IsSettled,
}
use lavalink_rs.Actor.History.{Legal-snoc, after_event, key, EventAllowed, Legal}
use lavalink_rs.Event.{
  web_socket_closed, load_failed, finished, track_exception, EmittedEvent, Exception,
}
use lavalink_rs.Actor.{
  voice_disconnected, voice_reconnecting, voice_connecting, load_failed_event, voice_closed,
  finished_event, progress, start_failed, voice_connected, exception_event, VoiceUpdate,
  send_message, EngineReport, EngineEvent, Actor, sync_playing, new_actor, emit,
}
use lavalink_rs.Actor.Arms.{
  position_moved, stuck_arm, handle, emit_update, command_arm, snapshot_command, apply_voice,
  voice_arm, engine_arm, patch_command, destroy_arm, set_ping, Arm, set_connection, ends, Command,
  voice_changed, turn, run_command, report_stuck, is_active, emit_exception, check_stuck,
  apply_engine_report, apply_engine_event,
}
use lavalink_rs.PlayerModel.{
  disconnected, reconnecting, connected_voice, connecting, is_playing, is_some, Track,
  VoiceConnection,
}
use lavalink_rs.Prelude.{
  ℕ, ◌-◌, ◌≡◌, refl, sym, ap, ◌∙◌, subst, true, false, not, ◌||◌, Option, none, some, [], ◌∷◌, ◌++◌,
  ltb, if_ind,
}
use lavalink_rs.Prelude.Int.{ℤ, negsuc}

pub is_active-is_some : (o : Option ℕ) (g : ℕ) → is_active o g ≡ true → is_some o ≡ true
is_active-is_some none g e = e
is_active-is_some (some k) g e = refl

module _ {JsonObject Filters StatsEvent : Type 0} where
  told_event :
      (e : EmittedEvent JsonObject) (a : Actor JsonObject Filters StatsEvent)
      → IsSettled a
      → EventAllowed (key a.model.track) e
      → after_event (key a.model.track) e ≡ key a.model.track
      → IsSettled (emit e a)
  unfolding emit send_message
  told_event e a h allowed same = record {
    consistent = h.consistent;
    active = h.active;
    told =
        subst (Legal none (a.sent ++ event e ∷ [])) same
          (Legal-snoc none (key a.model.track) a.sent (event e) h.told allowed);
  }

  connection-IsSettled :
      (c : VoiceConnection) (ping : ℤ) (a : Actor JsonObject Filters StatsEvent)
      → IsSettled a
      → IsSettled (record a { model = record a.model { connection = c; ping_ms = ping } })
  connection-IsSettled c ping a h =
      remodel-IsSettled (record a.model { connection = c; ping_ms = ping }) a
        (same-IsConsistent h.consistent) refl refl h

  voice_changed-IsSettled :
      (u : VoiceUpdate) (a : Actor JsonObject Filters StatsEvent)
      → IsSettled a
      → IsSettled (voice_changed u a)
  unfolding voice_changed set_connection set_ping
  voice_changed-IsSettled voice_connecting a h = connection-IsSettled connecting a.model.ping_ms a h
  voice_changed-IsSettled (voice_connected ping) a h = connection-IsSettled connected_voice ping a h
  voice_changed-IsSettled voice_reconnecting a h =
      connection-IsSettled reconnecting a.model.ping_ms a h
  voice_changed-IsSettled voice_disconnected a h = connection-IsSettled disconnected (negsuc 0) a h
  voice_changed-IsSettled (voice_closed code by_remote) a h =
      told_event (web_socket_closed a.guild_id_str code [] by_remote) _
        (connection-IsSettled disconnected (negsuc 0) a h) tt refl

  emit_exception-IsSettled :
      (e : Exception) (t : Option (Track JsonObject)) (a : Actor JsonObject Filters StatsEvent)
      → IsSettled a
      → a.model.track ≡ t
      → IsSettled (emit_exception e t a)
  unfolding emit_exception
  emit_exception-IsSettled e none a h eq = h
  emit_exception-IsSettled e (some t) a h eq =
      told_event (track_exception a.guild_id_str t e) a h (ap key eq) refl

  apply_engine_event-IsSettled :
      (now : ℕ) (now_ms : ℤ) (e : EngineEvent) (a : Actor JsonObject Filters StatsEvent)
      → IsSettled a
      → is_some a.model.track ≡ true
      → IsSettled (apply_engine_event now now_ms e a)
  unfolding apply_engine_event
  apply_engine_event-IsSettled now now_ms progress a h loaded = record {
    consistent = record {
      loaded = h.consistent.loaded;
      clock = sym loaded;
      flag = h.consistent.flag;
      low = h.consistent.low;
      high = h.consistent.high;
    };
    active = h.active;
    told = h.told;
  }
  apply_engine_event-IsSettled now now_ms finished_event a h loaded =
      stop_track-IsSettled finished now_ms a h
  apply_engine_event-IsSettled now now_ms (exception_event e) a h loaded =
      emit_exception-IsSettled e a.model.track a h refl
  apply_engine_event-IsSettled now now_ms load_failed_event a h loaded =
      stop_track-IsSettled load_failed now_ms a h
  apply_engine_event-IsSettled now now_ms (start_failed e) a h loaded =
      if_ind IsSettled (is_some a.model.track) _ _
        (λ _.
          stop_track-IsSettled load_failed now_ms _
            (emit_exception-IsSettled e a.model.track a h refl))
        (λ _. h)

  apply_engine_report-IsSettled :
      (now : ℕ) (now_ms : ℤ) (r : EngineReport) (a : Actor JsonObject Filters StatsEvent)
      → IsSettled a
      → IsSettled (apply_engine_report now now_ms r a)
  unfolding apply_engine_report
  apply_engine_report-IsSettled now now_ms r a h =
      if_ind IsSettled (is_active a.active_generation r.generation) _ _
        (λ e.
          apply_engine_event-IsSettled now now_ms r.event a h
            (sym h.active ∙ is_active-is_some a.active_generation r.generation e))
        (λ _. h)

  report_stuck-IsSettled :
      (now : ℕ) (p : Option ℕ) (t : Option (Track JsonObject))
      (a : Actor JsonObject Filters StatsEvent)
      → IsSettled a
      → a.model.track ≡ t
      → IsSettled (report_stuck now p t a)
  unfolding report_stuck
  report_stuck-IsSettled now none t a h eq = h
  report_stuck-IsSettled now (some p) none a h eq = h
  report_stuck-IsSettled now (some p) (some t) a h eq =
      if_ind IsSettled (ltb (now - p) a.stuck_threshold) _ _ (λ _. h)
        (λ _.
          told_event _ (record a { stuck_reported = true })
            (record { consistent = h.consistent; active = h.active; told = h.told }) (ap key eq)
            refl)

  check_stuck-IsSettled :
      (now : ℕ) (a : Actor JsonObject Filters StatsEvent)
      → IsSettled a
      → IsSettled (check_stuck now a)
  unfolding check_stuck
  check_stuck-IsSettled now a h =
      if_ind IsSettled (not (is_playing a.model.playback) || a.stuck_reported) _ _ (λ _. h)
        (λ _. report_stuck-IsSettled now a.model.last_progress a.model.track a h refl)

  sync_playing-IsSettled :
      (a : Actor JsonObject Filters StatsEvent) → IsSettled a → IsSettled (sync_playing a)
  unfolding sync_playing
  sync_playing-IsSettled a h = record {
    consistent = h.consistent;
    active = h.active;
    told = h.told;
  }

  run_command-IsSettled :
      (now : ℕ) (now_ms : ℤ) (c : Command JsonObject Filters)
      (a : Actor JsonObject Filters StatsEvent)
      → IsSettled a
      → IsSettled (run_command now now_ms c a)
  unfolding run_command
  run_command-IsSettled now now_ms (patch_command r) a h = apply_patch-IsSettled now now_ms r a h
  run_command-IsSettled now now_ms snapshot_command a h = h
  run_command-IsSettled now now_ms emit_update a h = emit_player_update-IsSettled now_ms a h

  pub turn-IsSettled :
      (arm : Arm JsonObject Filters) (a : Actor JsonObject Filters StatsEvent)
      → ends arm ≡ false
      → IsSettled a
      → IsSettled (turn arm a)
  unfolding turn ends
  turn-IsSettled (destroy_arm now_ms) a e h = cc
  turn-IsSettled (engine_arm now now_ms r) a e h =
      sync_playing-IsSettled _ (apply_engine_report-IsSettled now now_ms r a h)
  turn-IsSettled (voice_arm now_ms u) a e h =
      sync_playing-IsSettled _ (
        unfold apply_voice in emit_player_update-IsSettled now_ms _ (voice_changed-IsSettled u a h))
  turn-IsSettled (command_arm now now_ms c) a e h =
      unfold handle in sync_playing-IsSettled _ (run_command-IsSettled now now_ms c a h)
  turn-IsSettled (stuck_arm now) a e h =
      if_ind IsSettled (is_playing a.model.playback) _ _ (λ _. check_stuck-IsSettled now a h)
        (λ _. h)
  turn-IsSettled (position_moved p) a e h = record {
    consistent = h.consistent;
    active = h.active;
    told = h.told;
  }

pub new_actor-IsSettled :
    {JsonObject Filters StatsEvent : Type 0} (guild_id : ℕ) (text : Text) (filters : Filters)
    (threshold : ℕ) (frames : FrameCounters)
    → IsSettled (
        new_actor {JsonObject = JsonObject} {StatsEvent = StatsEvent} guild_id text filters
          threshold frames)
unfolding new_actor Legal changes
new_actor-IsSettled guild_id text filters threshold frames = record {
  consistent = new_model-IsConsistent guild_id text filters;
  active = refl;
  told = refl;
}

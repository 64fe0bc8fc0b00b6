-- ===== src/Actor/Generations.antt =====
-- The generations of an actor: which is active, and which comes next. Few operations change them.
use lavalink_rs.Prelude.{ℕ, ◌-◌, ◌≡◌, refl, ◌∙◌, Bool, not, ◌||◌, Option, none, some, ltb, if_ind}
use lavalink_rs.Event.{Exception, TrackEndReason}
use lavalink_rs.Omissible.{take_if, omitted, present, Omissible}
use lavalink_rs.PlayerModel.{stop, is_some, Track, is_playing, VoiceState}
use lavalink_rs.Actor.Patch.{
  patch_volume, patch_voice, patch_user_data, patch_position, patch_paused, patch_filters,
  patch_fields, patch_end_time,
}
use lavalink_rs.Actor.Arms.{
  note_end, set_ping, set_connection, voice_changed, report_stuck, emit_exception, check_stuck,
}
use lavalink_rs.Actor.{
  voice_disconnected, voice_reconnecting, voice_connecting, voice_closed, voice_connected,
  VoiceUpdate, send_message, emit_player_update, eqb, emit, call_engine, actor_set_paused,
  PatchRequest, stop_track, record_pause_transition, end_event, Actor,
}
use lavalink_rs.Prelude.Int.{ℤ}

module _ {JsonObject Filters StatsEvent : Type 0} where
  abbrev pub gens : Actor JsonObject Filters StatsEvent → Option ℕ × ℕ
  gens a = (a.active_generation, a.next_generation)

  pub gens-pause :
      (p : Bool) (now_ms : ℤ) (a : Actor JsonObject Filters StatsEvent)
      → gens (record_pause_transition p now_ms a) ≡ gens a
  unfolding record_pause_transition
  gens-pause p now_ms a =
      if_ind (λ b. gens b ≡ gens a) (eqb a.model.paused p) _ _ (λ _. refl) (λ _. refl)

  pub gens-patch_voice :
      (v : Option VoiceState) (a : Actor JsonObject Filters StatsEvent)
      → gens (patch_voice v a) ≡ gens a
  unfolding patch_voice
  gens-patch_voice none a = refl
  gens-patch_voice (some v) a = refl

  pub gens-patch_paused :
      (now : ℕ) (now_ms : ℤ) (p : Option Bool) (a : Actor JsonObject Filters StatsEvent)
      → gens (patch_paused now now_ms p a) ≡ gens a
  unfolding patch_paused actor_set_paused call_engine
  gens-patch_paused now now_ms none a = refl
  gens-patch_paused now now_ms (some p) a = gens-pause p now_ms a

  pub gens-patch_user_data :
      (u : Option JsonObject) (a : Actor JsonObject Filters StatsEvent)
      → gens (patch_user_data u a) ≡ gens a
  unfolding patch_user_data
  gens-patch_user_data none a = refl
  gens-patch_user_data (some u) a = refl

  pub gens-patch_volume :
      (v : Omissible ℤ) (a : Actor JsonObject Filters StatsEvent) → gens (patch_volume v a) ≡ gens a
  unfolding patch_volume call_engine
  gens-patch_volume omitted a = refl
  gens-patch_volume (present v) a = refl

  pub gens-patch_position :
      (now_ms : ℤ) (p : Option ℤ) (a : Actor JsonObject Filters StatsEvent)
      → gens (patch_position now_ms p a) ≡ gens a
  unfolding patch_position call_engine emit_player_update send_message
  gens-patch_position now_ms none a = refl
  gens-patch_position now_ms (some p) a =
      if_ind (λ b. gens b ≡ gens a) (is_some a.model.track) _ _ (λ _. refl) (λ _. refl)

  pub gens-patch_end_time :
      (t : Option (Option ℤ)) (a : Actor JsonObject Filters StatsEvent)
      → gens (patch_end_time t a) ≡ gens a
  unfolding patch_end_time call_engine
  gens-patch_end_time none a = refl
  gens-patch_end_time (some t) a = refl

  pub gens-patch_filters :
      (now_ms : ℤ) (f : Omissible Filters) (a : Actor JsonObject Filters StatsEvent)
      → gens (patch_filters now_ms f a) ≡ gens a
  unfolding patch_filters call_engine emit_player_update send_message
  gens-patch_filters now_ms omitted a = refl
  gens-patch_filters now_ms (present f) a = refl

  pub gens-patch_fields :
      (now : ℕ) (now_ms : ℤ) (r : PatchRequest JsonObject Filters)
      (a : Actor JsonObject Filters StatsEvent)
      → gens (patch_fields now now_ms r a) ≡ gens a
  unfolding patch_fields
  gens-patch_fields now now_ms r a =
      let untouched = not (is_some r.track) in
      let a1 = patch_voice r.voice a in
      let a2 = patch_paused now now_ms (take_if untouched r.paused) a1 in
      let a3 = patch_user_data (take_if untouched r.user_data) a2 in
      let a4 = patch_volume r.volume a3 in
      let a5 = patch_position now_ms (take_if untouched r.position) a4 in
      let a6 = patch_end_time (take_if untouched r.end_time) a5 in
      gens-patch_filters now_ms r.filters a6
      ∙ gens-patch_end_time (take_if untouched r.end_time) a5
      ∙ gens-patch_position now_ms (take_if untouched r.position) a4
      ∙ gens-patch_volume r.volume a3
      ∙ gens-patch_user_data (take_if untouched r.user_data) a2
      ∙ gens-patch_paused now now_ms (take_if untouched r.paused) a1
      ∙ gens-patch_voice r.voice a

  pub gens-end_event :
      (reason : TrackEndReason) (now_ms : ℤ) (t : Option (Track JsonObject))
      (a : Actor JsonObject Filters StatsEvent)
      → gens (end_event reason now_ms t a) ≡ gens a
  unfolding end_event emit send_message
  gens-end_event reason now_ms none a = refl
  gens-end_event reason now_ms (some t) a = refl

  pub gens-stop_track :
      (reason : TrackEndReason) (now_ms : ℤ) (a : Actor JsonObject Filters StatsEvent)
      → gens (stop_track reason now_ms a) ≡ (none, a.next_generation)
  unfolding stop_track call_engine
  gens-stop_track reason now_ms a = gens-end_event reason now_ms (stop a.model).0 _

  pub gens-emit_exception :
      (e : Exception) (t : Option (Track JsonObject)) (a : Actor JsonObject Filters StatsEvent)
      → gens (emit_exception e t a) ≡ gens a
  unfolding emit_exception emit send_message
  gens-emit_exception e none a = refl
  gens-emit_exception e (some t) a = refl

  pub gens-voice_changed :
      (u : VoiceUpdate) (a : Actor JsonObject Filters StatsEvent)
      → gens (voice_changed u a) ≡ gens a
  unfolding voice_changed set_connection set_ping emit send_message
  gens-voice_changed voice_connecting a = refl
  gens-voice_changed (voice_connected ping) a = refl
  gens-voice_changed voice_reconnecting a = refl
  gens-voice_changed voice_disconnected a = refl
  gens-voice_changed (voice_closed code by_remote) a = refl

  pub gens-report_stuck :
      (now : ℕ) (p : Option ℕ) (t : Option (Track JsonObject))
      (a : Actor JsonObject Filters StatsEvent)
      → gens (report_stuck now p t a) ≡ gens a
  unfolding report_stuck emit send_message
  gens-report_stuck now none t a = refl
  gens-report_stuck now (some p) none a = refl
  gens-report_stuck now (some p) (some t) a =
      if_ind (λ b. gens b ≡ gens a) (ltb (now - p) a.stuck_threshold) _ _ (λ _. refl) (λ _. refl)

  pub gens-check_stuck :
      (now : ℕ) (a : Actor JsonObject Filters StatsEvent) → gens (check_stuck now a) ≡ gens a
  unfolding check_stuck
  gens-check_stuck now a =
      if_ind (λ b. gens b ≡ gens a) (not (is_playing a.model.playback) || a.stuck_reported) _ _
        (λ _. refl) (λ _. gens-report_stuck now a.model.last_progress a.model.track a)

  pub note_end-gens :
      (now_ms : ℤ) (t : Option (Track JsonObject)) (a : Actor JsonObject Filters StatsEvent)
      → gens (note_end now_ms t a) ≡ gens a
  unfolding note_end
  note_end-gens now_ms none a = refl
  note_end-gens now_ms (some t) a = refl

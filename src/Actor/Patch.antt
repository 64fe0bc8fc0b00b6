-- ===== src/Actor/Patch.antt =====
-- `apply_patch` of crates/server/src/player/actor.rs: one PATCH of a player, in the code's order.
use lavalink_rs.FrameCounters.{track_started_at}
use lavalink_rs.Event.{replaced, track_start, stopped_reason}
use lavalink_rs.Prelude.Int.{pos, ℤ}
use lavalink_rs.PlayerModel.{set_paused, play, set_volume, is_some, Track, VoiceState}
use lavalink_rs.Omissible.{omitted, take_if, into_option, present, Omissible}
use lavalink_rs.Actor.{
  clear, play_track, engine_set_paused, engine_play, engine_set_volume, engine_seek,
  engine_set_filters, clamp_start_position, TrackChange, stop_track, engine_set_end_time,
  emit_player_update, emit, PatchRequest, record_pause_transition, call_engine, actor_set_paused,
  Actor,
}
use mathlib.Core.Option
use lavalink_rs.Prelude.{
  ℕ, ◌+◌, ◌%◌, ◌^◌, Bool, false, not, ◌&&◌, Option, none, some, if◌then◌else◌,
}

-- A track with the request's own user data.
unfoldable pub with_user_data :
    {JsonObject : Type 0} → Omissible JsonObject → Track JsonObject → Track JsonObject
with_user_data omitted track = track
with_user_data (present user_data) track = record track { user_data = user_data }

abbrev pub or_zero : Option ℤ → ℤ
or_zero none = pos 0
or_zero (some z) = z

abbrev pub flatten : Option (Option ℤ) → Option ℤ
flatten none = none
flatten (some z) = z

abbrev pub or_false : Omissible Bool → Bool
or_false omitted = false
or_false (present paused) = paused

module _ {JsonObject Filters StatsEvent : Type 0} where
  unfoldable pub patch_voice :
      Option VoiceState → Actor JsonObject Filters StatsEvent → Actor JsonObject Filters StatsEvent
  patch_voice none a = a
  patch_voice (some voice) a = record a { model = record a.model { voice = voice } }

  unfoldable pub patch_paused :
      ℕ
      → ℤ
      → Option Bool
      → Actor JsonObject Filters StatsEvent
      → Actor JsonObject Filters StatsEvent
  unfolding actor_set_paused
  patch_paused now now_ms none a = a
  patch_paused now now_ms (some paused) a = actor_set_paused paused now now_ms a

  -- The user data of the track that is loaded, if there is one.
  unfoldable pub patch_user_data :
      Option JsonObject → Actor JsonObject Filters StatsEvent → Actor JsonObject Filters StatsEvent
  patch_user_data none a = a
  patch_user_data (some user_data) a = record a {
    model = record a.model {
      track =
          Option.map (λ (t : Track JsonObject). record t { user_data = user_data }) a.model.track;
    };
  }

  unfoldable pub patch_volume :
      Omissible ℤ → Actor JsonObject Filters StatsEvent → Actor JsonObject Filters StatsEvent
  unfolding call_engine
  patch_volume omitted a = a
  patch_volume (present volume) a =
      let model = set_volume volume a.model in
      call_engine (engine_set_volume model.volume) (record a { model = model })

  unfoldable pub patch_position :
      ℤ → Option ℤ → Actor JsonObject Filters StatsEvent → Actor JsonObject Filters StatsEvent
  unfolding call_engine emit_player_update
  patch_position now_ms none a = a
  patch_position now_ms (some requested) a =
      let position = clamp_start_position requested in
      if is_some a.model.track
      then emit_player_update now_ms
          (record (call_engine (engine_seek position) a) { position_ms = position })
      else a

  unfoldable pub patch_end_time :
      Option (Option ℤ) → Actor JsonObject Filters StatsEvent → Actor JsonObject Filters StatsEvent
  unfolding call_engine
  patch_end_time none a = a
  patch_end_time (some end_time) a =
      call_engine (engine_set_end_time end_time)
        (record a { model = record a.model { end_time_ms = end_time } })

  unfoldable pub patch_filters :
      ℤ
      → Omissible Filters
      → Actor JsonObject Filters StatsEvent
      → Actor JsonObject Filters StatsEvent
  unfolding call_engine emit_player_update
  patch_filters now_ms omitted a = a
  patch_filters now_ms (present filters) a = emit_player_update now_ms (
      call_engine (engine_set_filters filters)
        (record a { model = record a.model { filters = filters } }))

  -- What follows the end of the track that was loaded.
  unfoldable pub start_track :
      ℕ
      → ℤ
      → Bool
      → PatchRequest JsonObject Filters
      → Track JsonObject
      → Actor JsonObject Filters StatsEvent
      → Actor JsonObject Filters StatsEvent
  unfolding call_engine emit
  start_track now now_ms paused request requested a =
      let position = clamp_start_position (or_zero (into_option request.position)) in
      let end_time = flatten (into_option request.end_time) in
      let track = with_user_data request.user_data requested in
      let model = play track paused now (record a.model { end_time_ms = end_time }) in
      let played =
        call_engine
          (engine_play (record {
            track = track;
            start_position_ms = position;
            end_time_ms = end_time;
            paused = paused;
            volume = model.volume;
            filters = model.filters;
          }))
          (record a { model = model; position_ms = position; stuck_reported = false }) in
      emit (track_start a.guild_id_str track) (record played {
        next_generation = (a.next_generation + 1) % 2 ^ 64;
        active_generation = some a.next_generation;
        frames = track_started_at now_ms a.frames;
      })

  unfoldable pub change_track :
      ℕ
      → ℤ
      → PatchRequest JsonObject Filters
      → TrackChange JsonObject
      → Actor JsonObject Filters StatsEvent
      → Actor JsonObject Filters StatsEvent
  unfolding record_pause_transition stop_track call_engine start_track
  change_track now now_ms request clear a =
      let paused = or_false request.paused in
      let ended = stop_track stopped_reason now_ms (record_pause_transition paused now_ms a) in
      call_engine (engine_set_paused paused)
        (record ended { model = set_paused paused now ended.model })
  change_track now now_ms request (play_track track) a =
      let paused = or_false request.paused in
      let a' = record_pause_transition paused now_ms a in
      start_track now now_ms paused request track
        (if is_some a'.model.track then stop_track replaced now_ms a' else a')

  unfoldable pub patch_track :
      ℕ
      → ℤ
      → PatchRequest JsonObject Filters
      → Option (TrackChange JsonObject)
      → Actor JsonObject Filters StatsEvent
      → Actor JsonObject Filters StatsEvent
  unfolding change_track
  patch_track now now_ms request none a = a
  patch_track now now_ms request (some change) a =
      if request.no_replace && is_some a.model.track
      then a
      else change_track now now_ms request change a

  -- The fields that are applied whatever becomes of the track, or only if it is left alone.
  unfoldable pub patch_fields :
      ℕ
      → ℤ
      → PatchRequest JsonObject Filters
      → Actor JsonObject Filters StatsEvent
      → Actor JsonObject Filters StatsEvent
  unfolding patch_voice patch_paused patch_user_data patch_volume patch_position patch_end_time
      patch_filters
  patch_fields now now_ms request a =
      let untouched = not (is_some request.track) in
      let a1 = patch_voice request.voice a in
      let a2 = patch_paused now now_ms (take_if untouched request.paused) a1 in
      let a3 = patch_user_data (take_if untouched request.user_data) a2 in
      let a4 = patch_volume request.volume a3 in
      let a5 = patch_position now_ms (take_if untouched request.position) a4 in
      let a6 = patch_end_time (take_if untouched request.end_time) a5 in
      patch_filters now_ms request.filters a6

  unfoldable pub apply_patch :
      ℕ
      → ℤ
      → PatchRequest JsonObject Filters
      → Actor JsonObject Filters StatsEvent
      → Actor JsonObject Filters StatsEvent
  unfolding patch_fields patch_track
  apply_patch now now_ms request a =
      patch_track now now_ms request request.track (patch_fields now now_ms request a)

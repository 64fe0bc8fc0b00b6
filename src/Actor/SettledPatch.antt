-- ===== src/Actor/SettledPatch.antt =====
-- A PATCH leaves the actor settled.
use lavalink_rs.Sink.{event}
use lavalink_rs.Event.{replaced, track_start, stopped_reason, TrackEndReason}
use lavalink_rs.PlayerModel.Consistent.{
  set_paused-track, set_paused-IsConsistent, play-IsConsistent, set_volume-IsConsistent,
  same-IsConsistent, retrack-IsConsistent,
}
use lavalink_rs.Actor.History.{Legal, Legal-snoc, key}
use lavalink_rs.Actor.Settled.{
  record_pause_transition-IsSettled, stop_track-IsSettled, emit_player_update-IsSettled,
  remodel-IsSettled, call_engine-IsSettled, actor_set_paused-IsSettled, IsSettled,
}
use lavalink_rs.Prelude.Int.{ℤ}
use lavalink_rs.Omissible.{omitted, present, Omissible}
use lavalink_rs.Actor.{
  engine_set_paused, record_pause_transition, stop_track, end_event, engine_set_filters, clear,
  clamp_start_position, play_track, engine_set_end_time, engine_seek, TrackChange, emit,
  PatchRequest, call_engine, Actor,
}
use lavalink_rs.Actor.Patch.{
  with_user_data, patch_track, or_false, apply_patch, start_track, patch_volume, patch_voice,
  patch_user_data, patch_position, patch_paused, patch_filters, patch_fields, patch_end_time,
  change_track,
}
use lavalink_rs.PlayerModel.{
  set_paused, stop, PlayerModel, set_volume, play, is_some, VoiceState, Track,
}
use mathlib.Core.Option
use lavalink_rs.Prelude.{
  ℕ, ◌≡◌, refl, ap, ◌∙◌, subst, Bool, false, ◌&&◌, Option, none, some, if_ind,
}

key-user_data :
    {JsonObject : Type 0} (u : JsonObject) (t : Option (Track JsonObject))
    → (is_some (Option.map (λ (t : Track JsonObject). record t { user_data = u }) t) ≡ is_some t)
      × (key (Option.map (λ (t : Track JsonObject). record t { user_data = u }) t) ≡ key t)
key-user_data u none = (refl, refl)
key-user_data u (some t) = (refl, refl)

none_of : {A : Type 0} (o : Option A) → is_some o ≡ false → o ≡ none
none_of none e = refl
none_of (some x) e = cc

stop-track :
    {JsonObject Filters : Type 0} (m : PlayerModel JsonObject Filters) → (stop m).1.track ≡ none
unfolding stop
stop-track m = refl

module _ {JsonObject Filters StatsEvent : Type 0} where
  patch_voice-IsSettled :
      (v : Option VoiceState) (a : Actor JsonObject Filters StatsEvent)
      → IsSettled a
      → IsSettled (patch_voice v a)
  unfolding patch_voice
  patch_voice-IsSettled none a h = h
  patch_voice-IsSettled (some v) a h =
      remodel-IsSettled (record a.model { voice = v }) a (same-IsConsistent h.consistent) refl refl
        h

  patch_paused-IsSettled :
      (now : ℕ) (now_ms : ℤ) (p : Option Bool) (a : Actor JsonObject Filters StatsEvent)
      → IsSettled a
      → IsSettled (patch_paused now now_ms p a)
  unfolding patch_paused
  patch_paused-IsSettled now now_ms none a h = h
  patch_paused-IsSettled now now_ms (some p) a h = actor_set_paused-IsSettled p now now_ms a h

  patch_user_data-IsSettled :
      (u : Option JsonObject) (a : Actor JsonObject Filters StatsEvent)
      → IsSettled a
      → IsSettled (patch_user_data u a)
  unfolding patch_user_data
  patch_user_data-IsSettled none a h = h
  patch_user_data-IsSettled (some u) a h =
      remodel-IsSettled _ a (retrack-IsConsistent _ h.consistent (key-user_data u a.model.track).0)
        (key-user_data u a.model.track).0 (key-user_data u a.model.track).1 h

  patch_volume-IsSettled :
      (v : Omissible ℤ) (a : Actor JsonObject Filters StatsEvent)
      → IsSettled a
      → IsSettled (patch_volume v a)
  unfolding patch_volume
  patch_volume-IsSettled omitted a h = h
  patch_volume-IsSettled (present v) a h =
      call_engine-IsSettled _ (record a { model = set_volume v a.model })
        (remodel-IsSettled (set_volume v a.model) a (set_volume-IsConsistent v a.model h.consistent)
          (unfold set_volume in refl) (unfold set_volume in refl) h)

  patch_position-IsSettled :
      (now_ms : ℤ) (p : Option ℤ) (a : Actor JsonObject Filters StatsEvent)
      → IsSettled a
      → IsSettled (patch_position now_ms p a)
  unfolding patch_position
  patch_position-IsSettled now_ms none a h = h
  patch_position-IsSettled now_ms (some p) a h =
      if_ind IsSettled (is_some a.model.track) _ _
        (λ e. emit_player_update-IsSettled now_ms _ (moved (clamp_start_position p))) (λ e. h)
    where
      moved : (p : ℤ) → IsSettled (record (call_engine (engine_seek p) a) { position_ms = p })
      moved p =
          let h' = call_engine-IsSettled (engine_seek p) a h in
          record { consistent = h'.consistent; active = h'.active; told = h'.told }

  patch_end_time-IsSettled :
      (t : Option (Option ℤ)) (a : Actor JsonObject Filters StatsEvent)
      → IsSettled a
      → IsSettled (patch_end_time t a)
  unfolding patch_end_time
  patch_end_time-IsSettled none a h = h
  patch_end_time-IsSettled (some t) a h = call_engine-IsSettled (engine_set_end_time t) _ (
      remodel-IsSettled (record a.model { end_time_ms = t }) a (same-IsConsistent h.consistent) refl
        refl h)

  patch_filters-IsSettled :
      (now_ms : ℤ) (f : Omissible Filters) (a : Actor JsonObject Filters StatsEvent)
      → IsSettled a
      → IsSettled (patch_filters now_ms f a)
  unfolding patch_filters
  patch_filters-IsSettled now_ms omitted a h = h
  patch_filters-IsSettled now_ms (present f) a h = emit_player_update-IsSettled now_ms _ (
      call_engine-IsSettled (engine_set_filters f) _ (
        remodel-IsSettled (record a.model { filters = f }) a (same-IsConsistent h.consistent) refl
          refl h))

  pub patch_fields-IsSettled :
      (now : ℕ) (now_ms : ℤ) (r : PatchRequest JsonObject Filters)
      (a : Actor JsonObject Filters StatsEvent)
      → IsSettled a
      → IsSettled (patch_fields now now_ms r a)
  unfolding patch_fields
  patch_fields-IsSettled now now_ms r a h = patch_filters-IsSettled now_ms r.filters _ (
      patch_end_time-IsSettled _ _ (
        patch_position-IsSettled now_ms _ _ (
          patch_volume-IsSettled r.volume _ (
            patch_user_data-IsSettled _ _
              (patch_paused-IsSettled now now_ms _ _ (patch_voice-IsSettled r.voice a h))))))

  -- A track starts in a player that has none.
  start_track-IsSettled :
      (now : ℕ) (now_ms : ℤ) (p : Bool) (r : PatchRequest JsonObject Filters) (t : Track JsonObject)
      (a : Actor JsonObject Filters StatsEvent)
      → IsSettled a
      → a.model.track ≡ none
      → IsSettled (start_track now now_ms p r t a)
  unfolding start_track call_engine emit
  start_track-IsSettled now now_ms p r t a h empty = record {
    consistent = play-IsConsistent _ p now _ (same-IsConsistent h.consistent);
    active = unfold play in refl;
    told =
        unfold play in
        Legal-snoc none none a.sent
          (event (track_start a.guild_id_str (with_user_data r.user_data t)))
          (subst (Legal none a.sent) (ap key empty) h.told) refl;
  }

  end_event-model :
      (reason : TrackEndReason) (now_ms : ℤ) (t : Option (Track JsonObject))
      (a : Actor JsonObject Filters StatsEvent)
      → (end_event reason now_ms t a).model ≡ a.model
  unfolding end_event emit
  end_event-model reason now_ms none a = refl
  end_event-model reason now_ms (some t) a = refl

  pub stop_track-track :
      (reason : TrackEndReason) (now_ms : ℤ) (a : Actor JsonObject Filters StatsEvent)
      → (stop_track reason now_ms a).model.track ≡ none
  unfolding stop_track call_engine
  stop_track-track reason now_ms a =
      ap (λ (m : PlayerModel JsonObject Filters). m.track)
        (end_event-model reason now_ms (stop a.model).0 _)
      ∙ stop-track a.model

  change_track-IsSettled :
      (now : ℕ) (now_ms : ℤ) (r : PatchRequest JsonObject Filters) (c : TrackChange JsonObject)
      (a : Actor JsonObject Filters StatsEvent)
      → IsSettled a
      → IsSettled (change_track now now_ms r c a)
  unfolding change_track
  change_track-IsSettled now now_ms r clear a h =
      let p = or_false r.paused in
      let ended = stop_track stopped_reason now_ms (record_pause_transition p now_ms a) in
      let h' =
        stop_track-IsSettled stopped_reason now_ms _
          (record_pause_transition-IsSettled p now_ms a h) in
      call_engine-IsSettled (engine_set_paused p)
        (record ended { model = set_paused p now ended.model })
        (remodel-IsSettled (set_paused p now ended.model) ended
          (set_paused-IsConsistent p now ended.model h'.consistent)
          (ap is_some (set_paused-track p now ended.model))
          (ap key (set_paused-track p now ended.model)) h')
  change_track-IsSettled now now_ms r (play_track t) a h =
      let p = or_false r.paused in
      let a' = record_pause_transition p now_ms a in
      let h' = record_pause_transition-IsSettled p now_ms a h in
      let (settled, empty) =
        if_ind (λ (b : Actor JsonObject Filters StatsEvent). IsSettled b × (b.model.track ≡ none))
          (is_some a'.model.track) (stop_track replaced now_ms a') a'
          (λ e. (stop_track-IsSettled replaced now_ms a' h', stop_track-track replaced now_ms a'))
          (λ e. (h', none_of a'.model.track e)) in
      start_track-IsSettled now now_ms p r t _ settled empty

  pub patch_track-IsSettled :
      (now : ℕ) (now_ms : ℤ) (r : PatchRequest JsonObject Filters)
      (c : Option (TrackChange JsonObject)) (a : Actor JsonObject Filters StatsEvent)
      → IsSettled a
      → IsSettled (patch_track now now_ms r c a)
  unfolding patch_track
  patch_track-IsSettled now now_ms r none a h = h
  patch_track-IsSettled now now_ms r (some c) a h =
      if_ind IsSettled (r.no_replace && is_some a.model.track) _ _ (λ e. h)
        (λ e. change_track-IsSettled now now_ms r c a h)

  pub apply_patch-IsSettled :
      (now : ℕ) (now_ms : ℤ) (r : PatchRequest JsonObject Filters)
      (a : Actor JsonObject Filters StatsEvent)
      → IsSettled a
      → IsSettled (apply_patch now now_ms r a)
  unfolding apply_patch
  apply_patch-IsSettled now now_ms r a h =
      patch_track-IsSettled now now_ms r r.track _ (patch_fields-IsSettled now now_ms r a h)

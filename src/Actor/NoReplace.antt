-- ===== src/Actor/NoReplace.antt =====
-- A PATCH that brings a track but must not replace the one that is loaded.
use lavalink_rs.Omissible.{present, Omissible, omitted}
use lavalink_rs.PlayerModel.{is_some, set_volume, VoiceState}
use lavalink_rs.Actor.Patch.{
  patch_end_time, patch_position, patch_user_data, patch_paused, patch_track, patch_fields,
  patch_volume, patch_voice, patch_filters, apply_patch,
}
use lavalink_rs.Actor.{
  TrackChange, send_message, emit_player_update, Actor, call_engine, PatchRequest,
}
use lavalink_rs.Prelude.{ℕ, ◌≡◌, refl, ap, ◌∙◌, true, Option, none, some, if_ind}
use lavalink_rs.Prelude.Int.{ℤ}

-- The request without the track and what goes with it.
abbrev pub without_track :
    {JsonObject Filters : Type 0}
    → PatchRequest JsonObject Filters
    → PatchRequest JsonObject Filters
without_track r = record r {
  track = none;
  paused = omitted;
  user_data = omitted;
  position = omitted;
  end_time = omitted;
}

module _ {JsonObject Filters StatsEvent : Type 0} where
  voice-track :
      (v : Option VoiceState) (a : Actor JsonObject Filters StatsEvent)
      → (patch_voice v a).model.track ≡ a.model.track
  unfolding patch_voice
  voice-track none a = refl
  voice-track (some v) a = refl

  volume-track :
      (v : Omissible ℤ) (a : Actor JsonObject Filters StatsEvent)
      → (patch_volume v a).model.track ≡ a.model.track
  unfolding patch_volume call_engine set_volume
  volume-track omitted a = refl
  volume-track (present v) a = refl

  filters-track :
      (now_ms : ℤ) (f : Omissible Filters) (a : Actor JsonObject Filters StatsEvent)
      → (patch_filters now_ms f a).model.track ≡ a.model.track
  unfolding patch_filters call_engine emit_player_update send_message
  filters-track now_ms omitted a = refl
  filters-track now_ms (present f) a = refl

  -- With a track loaded, a request that brings a track with `noReplace` does what the request does
  -- without the track and its pause, user data, position and end time: these are ignored as a
  -- whole, never applied to the track that goes on.
  pub no_replace-apply_patch :
      (now : ℕ) (now_ms : ℤ) (r : PatchRequest JsonObject Filters) (c : TrackChange JsonObject)
      (a : Actor JsonObject Filters StatsEvent)
      → is_some a.model.track ≡ true
      → apply_patch now now_ms (record r { track = some c; no_replace = true }) a
        ≡ apply_patch now now_ms (without_track r) a
  unfolding apply_patch patch_fields patch_track patch_paused patch_user_data patch_position
      patch_end_time
  no_replace-apply_patch now now_ms r c a loaded =
      let b = patch_filters now_ms r.filters (patch_volume r.volume (patch_voice r.voice a)) in
      let kept : is_some b.model.track ≡ true =
        ap is_some (
          filters-track now_ms r.filters (patch_volume r.volume (patch_voice r.voice a))
          ∙ volume-track r.volume (patch_voice r.voice a)
          ∙ voice-track r.voice a)
        ∙ loaded in
      if_ind (λ d. d ≡ b) (is_some b.model.track) _ _ (λ _. refl) (λ empty. absurd (cc))

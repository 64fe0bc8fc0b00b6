-- ===== src/PlayerModel.antt =====
-- The state of one player: crates/server/src/player/state.rs, with the wire types of
-- crates/protocol/src/player.rs. An instant is a number; the JSON objects and the filters, which
-- the model only hands on, are parameters.
pub mod Consistent
pub mod Requested
mod Tests
use lavalink_rs.Prelude.{
  ℕ, zero, suc, ◌+◌, ◌-◌, ◌*◌, ◌/◌, ◌%◌, ◌^◌, ◌≤◌, ◌<◌, min, max, bit_and, bit_or, ◌≡◌, refl, sym,
  ap, ap₂, ◌∙◌, subst, ◌≢◌, ◌↔◌, ◌⊎◌, inl, inr, Bool, true, false, not, ◌&&◌, ◌||◌, Option, none,
  some, List, [], ◌∷◌, ◌++◌, map, append-nil, append_assoc, arith, ltb, leb, ◌==◌, if◌then◌else◌,
  ltb→lt, lt→ltb, not_lt→ltb, leb→le, ==_iff, ==_refl, Bool-cases, Option-cases, length, get_elem?,
  take, drop, replicate, All, length-append, length-take, length-drop, length-replicate,
  take-append-drop, take-append, drop-append, take_of_le, drop_of_le, All-append, get_elem?-append,
  get_elem?-eq-none, get_elem?_lt, get_elem?-All,
}
use lavalink_rs.EncodedTrack.{TrackInfo}
use lavalink_rs.Prelude.Int.{negsuc, pos, ltb_ℤ, ℤ}
use lavalink_rs.Unicode.{Text}
use mathlib.Core.Option

pub record Track (JsonObject : Type 0) : Type 0 where
  pub encoded : Text
  pub info : TrackInfo
  pub plugin_info : JsonObject
  pub user_data : JsonObject

pub record VoiceState : Type 0 where
  pub token : Text
  pub endpoint : Text
  pub session_id : Text
  pub channel_id : Option Text

pub record PlayerState : Type 0 where
  pub time : ℤ
  pub position : ℤ
  pub connected : Bool
  pub ping : ℤ

pub record Player (JsonObject Filters : Type 0) : Type 0 where
  pub guild_id : Text
  pub track : Option (Track JsonObject)
  pub volume : ℤ
  pub paused : Bool
  pub state : PlayerState
  pub voice : VoiceState
  pub filters : Filters

pub data Playback : Type 0 where
  idle : Playback
  playing : Playback
  paused_playback : Playback
  stopped : Playback

pub data VoiceConnection : Type 0 where
  disconnected : VoiceConnection
  connecting : VoiceConnection
  connected_voice : VoiceConnection
  reconnecting : VoiceConnection

unfoldable pub is_playing : Playback → Bool
is_playing playing = true
is_playing idle = false
is_playing paused_playback = false
is_playing stopped = false

unfoldable pub is_connected : VoiceConnection → Bool
is_connected connected_voice = true
is_connected disconnected = false
is_connected connecting = false
is_connected reconnecting = false

pub record PlayerModel (JsonObject Filters : Type 0) : Type 0 where
  pub guild_id : ℕ
  pub guild_id_str : Text
  pub playback : Playback
  pub track : Option (Track JsonObject)
  pub paused : Bool
  pub volume : ℤ
  pub filters : Filters
  pub end_time_ms : Option ℤ
  pub voice : VoiceState
  pub connection : VoiceConnection
  pub ping_ms : ℤ
  pub last_progress : Option ℕ

abbrev pub is_some {ℓ} : {A : Type ℓ} → Option A → Bool
is_some none = false
is_some (some a) = true

-- `i32::clamp`.
unfoldable pub clamp : ℤ → ℤ → ℤ → ℤ
clamp z low high = if ltb_ℤ z low then low else if ltb_ℤ high z then high else z

-- The playback of a player whose track is taken away.
unfoldable pub ended : {JsonObject : Type 0} → Option (Track JsonObject) → Playback
ended (some track) = stopped
ended none = idle

module _ {JsonObject Filters : Type 0} where
  -- `PlayerModel::new`, given the decimal text of the id and the default filters.
  abbrev pub new_model : ℕ → Text → Filters → PlayerModel JsonObject Filters
  new_model guild_id text filters = record {
    guild_id = guild_id;
    guild_id_str = text;
    playback = idle;
    track = none;
    paused = false;
    volume = pos 100;
    filters = filters;
    end_time_ms = none;
    voice = record { token = []; endpoint = []; session_id = []; channel_id = none };
    connection = disconnected;
    ping_ms = negsuc 0;
    last_progress = none;
  }

  unfoldable pub play :
      Track JsonObject → Bool → ℕ → PlayerModel JsonObject Filters → PlayerModel JsonObject Filters
  play track paused now m = record m {
    track = some track;
    paused = paused;
    playback = if paused then paused_playback else playing;
    last_progress = some now;
  }

  unfoldable pub stop :
      PlayerModel JsonObject Filters → Option (Track JsonObject) × PlayerModel JsonObject Filters
  unfolding ended
  stop m = (
    m.track,
    record m { track = none; end_time_ms = none; playback = ended m.track; last_progress = none },
  )

  -- The match of `set_paused` on the playback and the flag.
  unfoldable pub transition :
      Playback → Bool → ℕ → PlayerModel JsonObject Filters → PlayerModel JsonObject Filters
  transition playing true now m = record m { playback = paused_playback }
  transition paused_playback false now m = record m { playback = playing; last_progress = some now }
  transition playing false now m = m
  transition paused_playback true now m = m
  transition idle paused now m = m
  transition stopped paused now m = m

  unfoldable pub set_paused :
      Bool → ℕ → PlayerModel JsonObject Filters → PlayerModel JsonObject Filters
  unfolding transition
  set_paused paused now m = transition m.playback paused now (record m { paused = paused })

  unfoldable pub set_volume : ℤ → PlayerModel JsonObject Filters → PlayerModel JsonObject Filters
  unfolding clamp
  set_volume volume m = record m { volume = clamp volume (pos 0) (pos 1000) }

  unfoldable pub wire_state : ℤ → ℤ → PlayerModel JsonObject Filters → PlayerState
  unfolding is_connected
  wire_state position_ms now_epoch_ms m = record {
    time = now_epoch_ms;
    position = if is_some m.track then position_ms else pos 0;
    connected = is_connected m.connection;
    ping = if is_connected m.connection then m.ping_ms else negsuc 0;
  }

  unfoldable pub snapshot : ℤ → ℤ → PlayerModel JsonObject Filters → Player JsonObject Filters
  unfolding wire_state
  snapshot position_ms now_epoch_ms m = record {
    guild_id = m.guild_id_str;
    track =
        Option.map
          (λ (t : Track JsonObject). record t { info = record t.info { position = position_ms } })
          m.track;
    volume = m.volume;
    paused = m.paused;
    state = wire_state position_ms now_epoch_ms m;
    voice = m.voice;
    filters = m.filters;
  }

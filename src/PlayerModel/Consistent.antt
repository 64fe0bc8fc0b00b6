-- ===== src/PlayerModel/Consistent.antt =====
-- What holds of a player between requests.
use lavalink_rs.Prelude.{
  ℕ, ◌≡◌, refl, sym, ap, ◌∙◌, Bool, true, false, not, Option, none, some, List, [], ◌∷◌, arith,
}
use lavalink_rs.Unicode.{Text}
use lavalink_rs.Prelude.Int.{◌≤ℤ◌, ℤ, pos}
use lavalink_rs.PlayerModel.{
  VoiceConnection, VoiceState, new_model, set_paused, is_some, clamp, Track, transition, stop,
  set_volume, play, ended, PlayerModel, Playback, playing, paused_playback, idle, stopped,
}

-- Whether a playback state has a track that runs or could go on.
unfoldable pub is_loaded : Playback → Bool
is_loaded playing = true
is_loaded paused_playback = true
is_loaded idle = false
is_loaded stopped = false

-- Whether the playback state agrees with the flag that was last requested.
unfoldable pub agrees : Playback → Bool → Bool
agrees playing paused = not paused
agrees paused_playback paused = paused
agrees idle paused = true
agrees stopped paused = true

ended_lem :
    {JsonObject : Type 0} (t : Option (Track JsonObject)) (p : Bool)
    → (is_loaded (ended t) ≡ false) × (agrees (ended t) p ≡ true)
unfolding ended is_loaded agrees
ended_lem none p = (refl, refl)
ended_lem (some t) p = (refl, refl)

module _ {JsonObject Filters : Type 0} where
  pub record IsConsistent (m : PlayerModel JsonObject Filters) : Type 0 where
    pub loaded : is_loaded m.playback ≡ is_some m.track
    pub clock : is_some m.last_progress ≡ is_some m.track
    pub flag : agrees m.playback m.paused ≡ true
    pub low : pos 0 ≤ℤ m.volume
    pub high : m.volume ≤ℤ pos 1000

  pub play-IsConsistent :
      (t : Track JsonObject) (p : Bool) (now : ℕ) (m : PlayerModel JsonObject Filters)
      → IsConsistent m
      → IsConsistent (play t p now m)
  unfolding play is_loaded agrees
  play-IsConsistent t true now m c = record {
    loaded = refl;
    clock = refl;
    flag = refl;
    low = c.low;
    high = c.high;
  }
  play-IsConsistent t false now m c = record {
    loaded = refl;
    clock = refl;
    flag = refl;
    low = c.low;
    high = c.high;
  }

  pub stop-IsConsistent :
      (m : PlayerModel JsonObject Filters) → IsConsistent m → IsConsistent (stop m).1
  unfolding stop
  stop-IsConsistent m c = record {
    loaded = (ended_lem m.track m.paused).0;
    clock = refl;
    flag = (ended_lem m.track m.paused).1;
    low = c.low;
    high = c.high;
  }

  pub transition-IsConsistent :
      (p : Playback) (b : Bool) (now : ℕ) (m : PlayerModel JsonObject Filters)
      → m.playback ≡ p
      → IsConsistent m
      → IsConsistent (transition p b now (record m { paused = b }))
  unfolding transition is_loaded agrees
  transition-IsConsistent playing true now m e c = record {
    loaded = sym (ap is_loaded e) ∙ c.loaded;
    clock = c.clock;
    flag = refl;
    low = c.low;
    high = c.high;
  }
  transition-IsConsistent paused_playback false now m e c = record {
    loaded = sym (ap is_loaded e) ∙ c.loaded;
    clock = sym (ap is_loaded e) ∙ c.loaded;
    flag = refl;
    low = c.low;
    high = c.high;
  }
  transition-IsConsistent playing false now m e c = record {
    loaded = c.loaded;
    clock = c.clock;
    flag = ap (λ (q : Playback). agrees q false) e;
    low = c.low;
    high = c.high;
  }
  transition-IsConsistent paused_playback true now m e c = record {
    loaded = c.loaded;
    clock = c.clock;
    flag = ap (λ (q : Playback). agrees q true) e;
    low = c.low;
    high = c.high;
  }
  transition-IsConsistent idle b now m e c = record {
    loaded = c.loaded;
    clock = c.clock;
    flag = ap (λ (q : Playback). agrees q b) e;
    low = c.low;
    high = c.high;
  }
  transition-IsConsistent stopped b now m e c = record {
    loaded = c.loaded;
    clock = c.clock;
    flag = ap (λ (q : Playback). agrees q b) e;
    low = c.low;
    high = c.high;
  }

  pub set_volume-IsConsistent :
      (v : ℤ) (m : PlayerModel JsonObject Filters) → IsConsistent m → IsConsistent (set_volume v m)
  unfolding set_volume clamp
  set_volume-IsConsistent v m c = record {
    loaded = c.loaded;
    clock = c.clock;
    flag = c.flag;
    low = ground arith;
    high = ground arith;
  }

-- The operations on a player.
pub data Change (JsonObject : Type 0) : Type 0 where
  on_play : Track JsonObject → Bool → ℕ → Change JsonObject
  on_stop : Change JsonObject
  on_set_paused : Bool → ℕ → Change JsonObject
  on_set_volume : ℤ → Change JsonObject

module _ {JsonObject Filters : Type 0} where
  unfoldable pub change :
      Change JsonObject → PlayerModel JsonObject Filters → PlayerModel JsonObject Filters
  change (on_play t p now) m = play t p now m
  change on_stop m = (stop m).1
  change (on_set_paused p now) m = set_paused p now m
  change (on_set_volume v) m = set_volume v m

  unfoldable pub changes :
      List (Change JsonObject) → PlayerModel JsonObject Filters → PlayerModel JsonObject Filters
  changes [] m = m
  changes (c ∷ cs) m = changes cs (change c m)

  change-IsConsistent :
      (ch : Change JsonObject) (m : PlayerModel JsonObject Filters)
      → IsConsistent m
      → IsConsistent (change ch m)
  unfolding change
  change-IsConsistent (on_play t p now) m c = play-IsConsistent t p now m c
  change-IsConsistent on_stop m c = stop-IsConsistent m c
  change-IsConsistent (on_set_paused p now) m c =
      unfold set_paused in transition-IsConsistent m.playback p now m refl c
  change-IsConsistent (on_set_volume v) m c = set_volume-IsConsistent v m c

  pub changes_keep :
      (cs : List (Change JsonObject)) (m : PlayerModel JsonObject Filters)
      → IsConsistent m
      → IsConsistent (changes cs m)
  unfolding changes
  changes_keep [] m c = c
  changes_keep (ch ∷ cs) m c = changes_keep cs (change ch m) (change-IsConsistent ch m c)

  pub new_model-IsConsistent :
      (guild_id : ℕ) (text : Text) (filters : Filters)
      → IsConsistent (new_model {JsonObject = JsonObject} guild_id text filters)
  unfolding is_loaded agrees
  new_model-IsConsistent guild_id text filters = record {
    loaded = refl;
    clock = refl;
    flag = refl;
    low = omega arith;
    high = omega arith;
  }

  pub set_paused-IsConsistent :
      (p : Bool) (now : ℕ) (m : PlayerModel JsonObject Filters)
      → IsConsistent m
      → IsConsistent (set_paused p now m)
  unfolding set_paused
  set_paused-IsConsistent p now m c = transition-IsConsistent m.playback p now m refl c

  transition-track :
      (q : Playback) (p : Bool) (now : ℕ) (m : PlayerModel JsonObject Filters)
      → (transition q p now m).track ≡ m.track
  unfolding transition
  transition-track playing true now m = refl
  transition-track paused_playback false now m = refl
  transition-track playing false now m = refl
  transition-track paused_playback true now m = refl
  transition-track idle p now m = refl
  transition-track stopped p now m = refl

  pub set_paused-track :
      (p : Bool) (now : ℕ) (m : PlayerModel JsonObject Filters)
      → (set_paused p now m).track ≡ m.track
  unfolding set_paused
  set_paused-track p now m = transition-track m.playback p now (record m { paused = p })

  -- Fields that a player is not consistent by.
  pub same-IsConsistent :
      {m : PlayerModel JsonObject Filters} {v : VoiceState} {f : Filters} {e : Option ℤ}
      {c : VoiceConnection} {p : ℤ}
      → IsConsistent m
      → IsConsistent
          (record m { voice = v; filters = f; end_time_ms = e; connection = c; ping_ms = p })
  same-IsConsistent c = record {
    loaded = c.loaded;
    clock = c.clock;
    flag = c.flag;
    low = c.low;
    high = c.high;
  }

  pub retrack-IsConsistent :
      {m : PlayerModel JsonObject Filters} (t : Option (Track JsonObject))
      → IsConsistent m
      → is_some t ≡ is_some m.track
      → IsConsistent (record m { track = t })
  retrack-IsConsistent t c e = record {
    loaded = c.loaded ∙ sym e;
    clock = c.clock ∙ sym e;
    flag = c.flag;
    low = c.low;
    high = c.high;
  }

-- ===== src/PlayerModel/Requested.antt =====
-- What a player keeps of what was requested of it.
use lavalink_rs.PlayerModel.Consistent.{
  Change, on_play, on_stop, on_set_paused, on_set_volume, change, changes, changes_keep,
  IsConsistent, new_model-IsConsistent,
}
use lavalink_rs.Prelude.{
  arith, min, ℕ, ◌≡◌, refl, ap, ◌∙◌, Bool, true, false, Option, none, some, List, [], ◌∷◌,
}
use lavalink_rs.Unicode.{Text}
use lavalink_rs.Prelude.Int.{negsuc, ℤ, pos}
use lavalink_rs.PlayerModel.{
  new_model, set_paused, clamp, Track, transition, stop, set_volume, play, PlayerModel, Playback,
  playing, paused_playback, idle, stopped,
}

-- The volume that is nearest to a requested one, of those between 0 and 1000.
unfoldable pub in_range : ℤ → ℤ
in_range (pos n) = pos (min n 1000)
in_range (negsuc n) = pos 0

clamp_lem : (v : ℤ) → clamp v (pos 0) (pos 1000) ≡ in_range v
unfolding clamp in_range
clamp_lem (pos n) = ground arith
clamp_lem (negsuc n) = ground arith

module _ {JsonObject : Type 0} where
  -- The pause, the track and the volume that were requested last.
  unfoldable pub last_paused : List (Change JsonObject) → Bool → Bool
  last_paused [] b = b
  last_paused (on_play t p now ∷ cs) b = last_paused cs p
  last_paused (on_stop ∷ cs) b = last_paused cs b
  last_paused (on_set_paused p now ∷ cs) b = last_paused cs p
  last_paused (on_set_volume v ∷ cs) b = last_paused cs b

  unfoldable pub last_track :
      List (Change JsonObject) → Option (Track JsonObject) → Option (Track JsonObject)
  last_track [] o = o
  last_track (on_play t p now ∷ cs) o = last_track cs (some t)
  last_track (on_stop ∷ cs) o = last_track cs none
  last_track (on_set_paused p now ∷ cs) o = last_track cs o
  last_track (on_set_volume v ∷ cs) o = last_track cs o

  unfoldable pub last_volume : List (Change JsonObject) → ℤ → ℤ
  last_volume [] z = z
  last_volume (on_play t p now ∷ cs) z = last_volume cs z
  last_volume (on_stop ∷ cs) z = last_volume cs z
  last_volume (on_set_paused p now ∷ cs) z = last_volume cs z
  last_volume (on_set_volume v ∷ cs) z = last_volume cs (in_range v)

module _ {JsonObject Filters : Type 0} where
  -- What a player keeps of the changes that were asked of it.
  abbrev pub HasLast :
      List (Change JsonObject)
      → PlayerModel JsonObject Filters
      → PlayerModel JsonObject Filters
      → Type 0
  HasLast cs m m' =
      (m'.paused ≡ last_paused cs m.paused)
      × (m'.track ≡ last_track cs m.track)
      × (m'.volume ≡ last_volume cs m.volume)

  transition_keeps :
      (q : Playback) (p : Bool) (now : ℕ) (m : PlayerModel JsonObject Filters)
      → ((transition q p now m).paused ≡ m.paused)
        × ((transition q p now m).track ≡ m.track)
        × ((transition q p now m).volume ≡ m.volume)
  unfolding transition
  transition_keeps playing true now m = (refl, refl, refl)
  transition_keeps paused_playback false now m = (refl, refl, refl)
  transition_keeps playing false now m = (refl, refl, refl)
  transition_keeps paused_playback true now m = (refl, refl, refl)
  transition_keeps idle p now m = (refl, refl, refl)
  transition_keeps stopped p now m = (refl, refl, refl)

  changes-HasLast :
      (cs : List (Change JsonObject)) (m : PlayerModel JsonObject Filters)
      → HasLast cs m (changes cs m)
  unfolding changes change play stop set_volume last_paused last_track last_volume
  changes-HasLast [] m = (refl, refl, refl)
  changes-HasLast (on_play t p now ∷ cs) m = changes-HasLast cs (play t p now m)
  changes-HasLast (on_stop ∷ cs) m = changes-HasLast cs (stop m).1
  changes-HasLast (on_set_volume v ∷ cs) m =
      rw (← clamp_lem v) (changes-HasLast cs (set_volume v m))
  changes-HasLast (on_set_paused p now ∷ cs) m =
      later (set_paused p now m) (changes cs (set_paused p now m))
        (unfold set_paused in transition_keeps m.playback p now (record m { paused = p }))
        (changes-HasLast cs (set_paused p now m))
    where
      later :
          (x m' : PlayerModel JsonObject Filters)
          → (x.paused ≡ p) × (x.track ≡ m.track) × (x.volume ≡ m.volume)
          → HasLast cs x m'
          → (m'.paused ≡ last_paused cs p)
            × (m'.track ≡ last_track cs m.track)
            × (m'.volume ≡ last_volume cs m.volume)
      later x m' (kept_paused, kept_track, kept_volume) (paused, track, volume) = (
        paused ∙ ap (last_paused cs) kept_paused,
        track ∙ ap (last_track cs) kept_track,
        volume ∙ ap (last_volume cs) kept_volume,
      )

  -- A new player, after any plays, stops, pauses and volume changes: it has the track, the pause
  -- and the volume, cut to 0 to 1000, that were requested last, at first none, running and 100; it
  -- is playing or paused exactly when it has a track, and then as that pause says; and the stuck
  -- clock runs exactly when it has a track.
  pub changes-IsConsistent :
      (cs : List (Change JsonObject)) (guild_id : ℕ) (text : Text) (filters : Filters)
      → let m = changes cs (new_model {JsonObject = JsonObject} guild_id text filters) in
        IsConsistent m
        × (m.paused ≡ last_paused cs false)
        × (m.track ≡ last_track cs none)
        × (m.volume ≡ last_volume cs (pos 100))
  changes-IsConsistent cs guild_id text filters =
      let (paused, track, volume) = changes-HasLast cs (new_model guild_id text filters) in
      (
        changes_keep cs (new_model guild_id text filters)
            (new_model-IsConsistent guild_id text filters),
        paused,
        track,
        volume,
      )

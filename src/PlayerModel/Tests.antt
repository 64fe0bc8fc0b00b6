-- ===== src/PlayerModel/Tests.antt =====
-- A player through concrete requests, and the instance of the theorem.
use lavalink_rs.Prelude.Int.{negsuc, pos}
use lavalink_rs.PlayerModel.{stop, transition, set_paused, clamp, set_volume, new_model}
use lavalink_rs.PlayerModel.Consistent.{
  on_set_paused, on_set_volume, change, changes, IsConsistent, Change, on_stop,
}
use lavalink_rs.PlayerModel.Requested.{changes-IsConsistent, last_paused, last_track, last_volume}
use lavalink_rs.Prelude.{none, false, ℕ, ◌≡◌, refl, true, List, [], ◌∷◌}

abbrev requested : List (Change ℕ)
requested =
    on_set_volume (pos 2000) ∷ on_set_paused true 1 ∷ on_stop ∷ on_set_volume (negsuc 4) ∷ []

volume_is_clamped : (changes requested (new_model {Filters = ℕ} 7 (b'7' ∷ []) 0)).volume ≡ pos 0
unfolding changes change set_volume clamp set_paused transition stop
volume_is_clamped = refl

changes-IsConsistent_example :
    let m = changes requested (new_model {Filters = ℕ} 7 (b'7' ∷ []) 0) in
    IsConsistent m
    × (m.paused ≡ last_paused requested false)
    × (m.track ≡ last_track requested none)
    × (m.volume ≡ last_volume requested (pos 100))
changes-IsConsistent_example = changes-IsConsistent requested 7 (b'7' ∷ []) 0

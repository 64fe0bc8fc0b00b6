-- ===== src/Actor/Tests.antt =====
-- An actor through a track that stalls and ends, and the instances of the theorems.
use lavalink_rs.Actor.NoReplace.{no_replace-apply_patch, without_track}
use lavalink_rs.Actor.Stale.{stale_report-ignored}
use lavalink_rs.Actor.Reports.{not_started, Ending-report, IsDone, stuck_once, StuckReport}
use lavalink_rs.Sink.Delivery.{deliver, essentials}
use lavalink_rs.Omissible.{present, omitted}
use lavalink_rs.FrameCounters.{default_counters}
use lavalink_rs.PlayerModel.{stop, play, set_volume, is_playing, Track, PlayerState}
use lavalink_rs.Actor.Delivery.{deliver-IsTold}
use lavalink_rs.EncodedTrack.{TrackInfo}
use lavalink_rs.Unicode.{Text}
use lavalink_rs.Sink.{stats, player_update, ready, event, essential_capacity, new_sink, Message}
use lavalink_rs.Actor.Run.{run_ends, stays, run-IsTold, run-IsSettled, IsTold}
use lavalink_rs.Actor.Settled.{IsSettled}
use lavalink_rs.Event.{
  load_failed, may_start_next, fault, Exception, finished, web_socket_closed, replaced, track_end,
  track_stuck, track_start, EmittedEvent,
}
use lavalink_rs.Actor.Arms.{
  is_active, destroy, destroy_arm, apply_engine_report, voice_arm, ends, patch_command, engine_arm,
  stuck_arm, command_arm, run, Arm,
}
use lavalink_rs.Actor.{
  start_failed, clear, voice_closed, play_track, finished_event, PatchRequest, new_actor,
  TrackChange, Actor,
}
use lavalink_rs.Actor.Patch.{with_user_data, apply_patch}
use lavalink_rs.Prelude.{
  ℕ, ◌≡◌, refl, ap, ◌⊎◌, true, false, Option, none, some, List, [], ◌∷◌, ◌++◌, map, arith, take,
}
use lavalink_rs.Prelude.Int.{pos, negsuc, wrap_i64}

abbrev info : TrackInfo
info = record {
  identifier = b'i' ∷ [];
  is_seekable = true;
  author = [];
  length_ms = pos 9000;
  is_stream = false;
  position = pos 0;
  title = [];
  uri = none;
  source_name = [];
  artwork_url = none;
  isrc = none;
}

abbrev song : Text → Track ℕ
song code = record { encoded = code; info = info; plugin_info = 0; user_data = 0 }

abbrev request : Option (TrackChange ℕ) → PatchRequest ℕ ℕ
request change = record {
  voice = none;
  paused = omitted;
  user_data = omitted;
  volume = present (pos 2000);
  position = present (negsuc 3);
  end_time = omitted;
  filters = omitted;
  track = change;
  no_replace = false;
}

abbrev play_song : ℕ → Text → Arm ℕ ℕ
play_song now code =
    command_arm now (pos now) (patch_command (request (some (play_track (song code)))))

-- A track is played, stalls and is replaced; a late report of it comes; the next track ends.
abbrev arms : List (Arm ℕ ℕ)
arms =
    play_song 5 (b'a' ∷ [])
    ∷ stuck_arm 99
    ∷ stuck_arm 100
    ∷ play_song 200 (b'b' ∷ [])
    ∷ engine_arm 210 (pos 210) (record { generation = 1; event = finished_event })
    ∷ voice_arm (pos 211) (voice_closed (pos 4014) true)
    ∷ engine_arm 220 (pos 220) (record { generation = 2; event = finished_event })
    ∷ []

abbrev guild : Text
guild = b'7' ∷ []

abbrev fresh : Actor ℕ ℕ ℕ
unfolding new_actor default_counters
fresh = new_actor 7 guild 0 50 default_counters

abbrev stories : List (EmittedEvent ℕ)
stories =
    track_start guild (song (b'a' ∷ []))
    ∷ track_stuck guild (song (b'a' ∷ [])) (pos 0)
    ∷ track_end guild (song (b'a' ∷ [])) replaced
    ∷ track_start guild (song (b'b' ∷ []))
    ∷ web_socket_closed guild (pos 4014) [] true
    ∷ track_end guild (song (b'b' ∷ [])) finished
    ∷ []

unfoldable events_of : List (Message PlayerState ℕ (EmittedEvent ℕ)) → List (EmittedEvent ℕ)
events_of [] = []
events_of (event e ∷ ms) = e ∷ events_of ms
events_of (ready resumed id ∷ ms) = events_of ms
events_of (player_update state guild_id ∷ ms) = events_of ms
events_of (stats s ∷ ms) = events_of ms

told : events_of (run arms fresh).sent ≡ stories
unfolding events_of run set_volume is_playing play fresh stop with_user_data wrap_i64
told = refl

run-IsTold_example : IsTold (run arms fresh).sent
unfolding fresh
run-IsTold_example = run-IsTold ℕ arms 7 guild 0 50 default_counters

run-IsSettled_example :
    IsSettled (run arms fresh)
    × ((run arms fresh).playing ≡ is_playing (run arms fresh).model.playback)
unfolding fresh
run-IsSettled_example =
    run-IsSettled ℕ arms 7 guild 0 50 default_counters (unfold stays ends in refl)

deliver-IsTold_example :
    ((deliver (run arms fresh).sent new_sink).essential
      ≡ take essential_capacity (essentials (run arms fresh).sent))
    × IsTold (deliver (run arms fresh).sent new_sink).essential
unfolding fresh
deliver-IsTold_example = deliver-IsTold ℕ arms 7 guild 0 50 default_counters

abbrev playing_song : Actor ℕ ℕ ℕ
playing_song = run (play_song 5 (b'a' ∷ []) ∷ []) fresh

playing_song-IsSettled : IsSettled playing_song
unfolding fresh
playing_song-IsSettled =
    (run-IsSettled ℕ (play_song 5 (b'a' ∷ []) ∷ []) 7 guild 0 50 default_counters
      (unfold stays ends in refl)).0

run_ends_example :
    let before = play_song 5 (b'a' ∷ []) ∷ [] in
    (run (before ++ destroy_arm (pos 6) ∷ arms) fresh ≡ destroy (pos 6) (run before fresh))
    × ((destroy (pos 6) (run before fresh)).sent ≡ (run before fresh).sent)
    × ((destroy (pos 6) (run before fresh)).model ≡ (stop (run before fresh).model).1)
run_ends_example =
    run_ends (play_song 5 (b'a' ∷ []) ∷ []) arms (pos 6) fresh (unfold stays ends in refl)

replaced_song : Actor ℕ ℕ ℕ
replaced_song = run (play_song 5 (b'a' ∷ []) ∷ play_song 200 (b'b' ∷ []) ∷ []) fresh

replaced_song-generation :
    (replaced_song.active_generation ≡ some 2) × (replaced_song.next_generation ≡ 3)
unfolding replaced_song run fresh set_volume is_playing play stop with_user_data
replaced_song-generation = (refl, refl)

stale_report-ignored_example :
    apply_engine_report 9
      (pos 9)
      (record { generation = 1; event = finished_event })
      (run (stuck_arm 900 ∷ play_song 1000 (b'c' ∷ []) ∷ []) replaced_song)
    ≡ run (stuck_arm 900 ∷ play_song 1000 (b'c' ∷ []) ∷ []) replaced_song
stale_report-ignored_example =
    let (active, next) = replaced_song-generation in
    stale_report-ignored (stuck_arm 900 ∷ play_song 1000 (b'c' ∷ []) ∷ []) replaced_song 1 9 (pos 9)
      finished_event (ap (λ o. is_active o 1) active) (omega (arith, next)) (omega (arith, next))

playing_song-generation : playing_song.active_generation ≡ some 1
unfolding run fresh set_volume is_playing play stop with_user_data
playing_song-generation = refl

Ending-report_example :
    let e : Exception = record {
      message = none;
      severity = fault;
      cause = [];
      cause_stack_trace = [];
    } in
    (t : Track ℕ) × (playing_song.model.track ≡ some t)
    × (may_start_next load_failed ≡ true)
    × IsDone playing_song.guild_id_str t (some e) load_failed playing_song.sent (
        apply_engine_report 7
          (pos 7)
          (record { generation = 1; event = start_failed e })
          playing_song)
Ending-report_example =
    Ending-report 7 (pos 7) 1 playing_song
      (not_started
        (record { message = none; severity = fault; cause = []; cause_stack_trace = [] }))
      playing_song-IsSettled (ap (λ o. is_active o 1) playing_song-generation)

stuck_once_example :
    (run (map stuck_arm (30 ∷ 60 ∷ 90 ∷ [])) playing_song ≡ playing_song)
    ⊎ StuckReport playing_song (run (map stuck_arm (30 ∷ 60 ∷ 90 ∷ [])) playing_song).sent
stuck_once_example = stuck_once (30 ∷ 60 ∷ 90 ∷ []) playing_song

no_replace-apply_patch_example :
    apply_patch 8
      (pos 8)
      (record (request none) { track = some clear; no_replace = true })
      playing_song
    ≡ apply_patch 8 (pos 8) (without_track (request none)) playing_song
no_replace-apply_patch_example =
    no_replace-apply_patch 8 (pos 8) (request none) clear playing_song
      (unfold run fresh set_volume is_playing play stop with_user_data in refl)

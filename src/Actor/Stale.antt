-- ===== src/Actor/Stale.antt =====
-- Which engine generations an actor listens to, and that it never comes back to an earlier one.
use lavalink_rs.Actor.Generations.{
  gens-check_stuck, gens-voice_changed, gens-emit_exception, note_end-gens, gens-stop_track,
  gens-pause, gens-patch_fields, gens,
}
use lavalink_rs.Event.{replaced, load_failed, stopped_reason, finished, TrackEndReason}
use lavalink_rs.PlayerModel.{stop, is_some, Track, is_playing}
use lavalink_rs.Actor.Patch.{
  or_false, start_track, patch_track, change_track, apply_patch, patch_fields,
}
use lavalink_rs.Actor.Arms.{
  ends, position_moved, stuck_arm, command_arm, voice_arm, engine_arm, destroy, emit_update,
  destroy_arm, snapshot_command, handle, patch_command, apply_voice, Command, Arm, turn,
  run_command, run, apply_engine_report, apply_engine_event, is_active, emit_exception,
}
use lavalink_rs.Actor.{
  load_failed_event, finished_event, progress, clear, start_failed, play_track, exception_event,
  sync_playing, TrackChange, EngineEvent, send_message, emit_player_update, emit, call_engine,
  PatchRequest, stop_track, record_pause_transition, Actor,
}
use lavalink_rs.Prelude.{
  ℕ, suc, ◌+◌, ◌%◌, ◌^◌, ◌≤◌, ◌<◌, ◌≡◌, refl, sym, ap, subst, Bool, false, ◌&&◌, Option, none, some,
  List, [], ◌∷◌, arith, ◌==◌, if◌then◌else◌, ==_iff, length, if_ind,
}
use lavalink_rs.Prelude.Int.{ℤ}

-- A generation that was handed out and is not active, when at most `n` have been handed out.
record IsStale (g n : ℕ) (gens : Option ℕ × ℕ) : Type 0 where
  pub unheard : is_active gens.0 g ≡ false
  pub used : g < gens.1
  pub few : gens.1 ≤ n

later-IsStale : (g n : ℕ) (gens : Option ℕ × ℕ) → IsStale g n gens → IsStale g (suc n) gens
later-IsStale g n gens s = record { unheard = s.unheard; used = s.used; few = omega (arith, s.few) }

dropped-IsStale :
    (g n : ℕ) (gens : Option ℕ × ℕ) → IsStale g n gens → IsStale g (suc n) (none, gens.1)
dropped-IsStale g n gens s = record { unheard = refl; used = s.used; few = omega (arith, s.few) }

other_generation : (k g : ℕ) → g < k → (k == g) ≡ false
other_generation k g h = ground (arith, ==_iff k g)

replayed-IsStale :
    (g n : ℕ) (gens : Option ℕ × ℕ)
    → suc n < 2 ^ 64
    → IsStale g n gens
    → IsStale g (suc n) (some gens.1, (gens.1 + 1) % 2 ^ 64)
replayed-IsStale g n gens fits s =
    let same : (gens.1 + 1) % 2 ^ 64 ≡ gens.1 + 1 = omega (arith, s.few) in
    record {
      unheard = other_generation gens.1 g s.used;
      used = omega (arith, s.used, same);
      few = omega (arith, s.few, same);
    }

same_gens : {g n : ℕ} {x y : Option ℕ × ℕ} → x ≡ y → IsStale g n y → IsStale g n x
same_gens {g} {n} e s = subst (IsStale g n) (sym e) s

module _ {JsonObject Filters StatsEvent : Type 0} where
  -- What a turn does to the generations that are not heard.
  abbrev Stale : ℕ → ℕ → Actor JsonObject Filters StatsEvent → Type 0
  Stale g n a = IsStale g n (gens a)

  start_track-Stale :
      (now : ℕ) (now_ms : ℤ) (p : Bool) (r : PatchRequest JsonObject Filters) (t : Track JsonObject)
      (a b : Actor JsonObject Filters StatsEvent) (g n : ℕ)
      → suc n < 2 ^ 64
      → b.next_generation ≡ a.next_generation
      → Stale g n a
      → Stale g (suc n) (start_track now now_ms p r t b)
  unfolding start_track call_engine emit send_message
  start_track-Stale now now_ms p r t a b g n fits same s =
      subst (λ k. IsStale g (suc n) (some k, (k + 1) % 2 ^ 64)) (sym same)
        (replayed-IsStale g n (gens a) fits s)

  stop_track-Stale :
      (reason : TrackEndReason) (now_ms : ℤ) (a : Actor JsonObject Filters StatsEvent) (g n : ℕ)
      → Stale g n a
      → Stale g (suc n) (stop_track reason now_ms a)
  stop_track-Stale reason now_ms a g n s =
      same_gens (gens-stop_track reason now_ms a) (dropped-IsStale g n (gens a) s)

  change_track-Stale :
      (now : ℕ) (now_ms : ℤ) (r : PatchRequest JsonObject Filters) (c : TrackChange JsonObject)
      (a : Actor JsonObject Filters StatsEvent) (g n : ℕ)
      → suc n < 2 ^ 64
      → Stale g n a
      → Stale g (suc n) (change_track now now_ms r c a)
  unfolding change_track call_engine
  change_track-Stale now now_ms r clear a g n fits s =
      stop_track-Stale stopped_reason now_ms (record_pause_transition (or_false r.paused) now_ms a)
        g n (same_gens (gens-pause (or_false r.paused) now_ms a) s)
  change_track-Stale now now_ms r (play_track t) a g n fits s =
      let p = or_false r.paused in
      let a' = record_pause_transition p now_ms a in
      start_track-Stale now now_ms p r t a'
        (if is_some a'.model.track then stop_track replaced now_ms a' else a') g n fits
        (if_ind
          (λ (b : Actor JsonObject Filters StatsEvent). b.next_generation ≡ a'.next_generation)
          (is_some a'.model.track) _ _ (λ _. ap (λ x. x.1) (gens-stop_track replaced now_ms a'))
          (λ _. refl))
        (same_gens (gens-pause p now_ms a) s)

  patch_track-Stale :
      (now : ℕ) (now_ms : ℤ) (r : PatchRequest JsonObject Filters)
      (c : Option (TrackChange JsonObject)) (a : Actor JsonObject Filters StatsEvent) (g n : ℕ)
      → suc n < 2 ^ 64
      → Stale g n a
      → Stale g (suc n) (patch_track now now_ms r c a)
  unfolding patch_track
  patch_track-Stale now now_ms r none a g n fits s = later-IsStale g n (gens a) s
  patch_track-Stale now now_ms r (some c) a g n fits s =
      if_ind (Stale g (suc n)) (r.no_replace && is_some a.model.track) _ _
        (λ _. later-IsStale g n (gens a) s) (λ _. change_track-Stale now now_ms r c a g n fits s)

  apply_patch-Stale :
      (now : ℕ) (now_ms : ℤ) (r : PatchRequest JsonObject Filters)
      (a : Actor JsonObject Filters StatsEvent) (g n : ℕ)
      → suc n < 2 ^ 64
      → Stale g n a
      → Stale g (suc n) (apply_patch now now_ms r a)
  unfolding apply_patch
  apply_patch-Stale now now_ms r a g n fits s =
      patch_track-Stale now now_ms r r.track (patch_fields now now_ms r a) g n fits
        (same_gens (gens-patch_fields now now_ms r a) s)

  apply_engine_event-Stale :
      (now : ℕ) (now_ms : ℤ) (e : EngineEvent) (a : Actor JsonObject Filters StatsEvent) (g n : ℕ)
      → Stale g n a
      → Stale g (suc n) (apply_engine_event now now_ms e a)
  unfolding apply_engine_event
  apply_engine_event-Stale now now_ms progress a g n s = later-IsStale g n (gens a) s
  apply_engine_event-Stale now now_ms finished_event a g n s =
      stop_track-Stale finished now_ms a g n s
  apply_engine_event-Stale now now_ms (exception_event e) a g n s =
      same_gens (gens-emit_exception e a.model.track a) (later-IsStale g n (gens a) s)
  apply_engine_event-Stale now now_ms load_failed_event a g n s =
      stop_track-Stale load_failed now_ms a g n s
  apply_engine_event-Stale now now_ms (start_failed e) a g n s =
      if_ind (Stale g (suc n)) (is_some a.model.track) _ _
        (λ _.
          stop_track-Stale load_failed now_ms (emit_exception e a.model.track a) g n
            (same_gens (gens-emit_exception e a.model.track a) s))
        (λ _. later-IsStale g n (gens a) s)

  run_command-Stale :
      (now : ℕ) (now_ms : ℤ) (c : Command JsonObject Filters)
      (a : Actor JsonObject Filters StatsEvent) (g n : ℕ)
      → suc n < 2 ^ 64
      → Stale g n a
      → Stale g (suc n) (run_command now now_ms c a)
  unfolding run_command emit_player_update send_message
  run_command-Stale now now_ms (patch_command r) a g n fits s =
      apply_patch-Stale now now_ms r a g n fits s
  run_command-Stale now now_ms snapshot_command a g n fits s = later-IsStale g n (gens a) s
  run_command-Stale now now_ms emit_update a g n fits s = later-IsStale g n (gens a) s

  turn-Stale :
      (arm : Arm JsonObject Filters) (a : Actor JsonObject Filters StatsEvent) (g n : ℕ)
      → suc n < 2 ^ 64
      → Stale g n a
      → Stale g (suc n) (turn arm a)
  unfolding turn sync_playing apply_engine_report apply_voice emit_player_update send_message handle
  turn-Stale (destroy_arm now_ms) a g n fits s =
      unfold destroy call_engine in
      same_gens (note_end-gens now_ms (stop a.model).0 _) (later-IsStale g n (gens a) s)
  turn-Stale (engine_arm now now_ms r) a g n fits s =
      if_ind (Stale g (suc n)) (is_active a.active_generation r.generation) _ _
        (λ _. apply_engine_event-Stale now now_ms r.event a g n s)
        (λ _. later-IsStale g n (gens a) s)
  turn-Stale (voice_arm now_ms u) a g n fits s =
      same_gens (gens-voice_changed u a) (later-IsStale g n (gens a) s)
  turn-Stale (command_arm now now_ms c) a g n fits s = run_command-Stale now now_ms c a g n fits s
  turn-Stale (stuck_arm now) a g n fits s =
      if_ind (Stale g (suc n)) (is_playing a.model.playback) _ _
        (λ _. same_gens (gens-check_stuck now a) (later-IsStale g n (gens a) s))
        (λ _. later-IsStale g n (gens a) s)
  turn-Stale (position_moved p) a g n fits s = later-IsStale g n (gens a) s

  run-Stale :
      (arms : List (Arm JsonObject Filters)) (a : Actor JsonObject Filters StatsEvent) (g n : ℕ)
      → n + length arms < 2 ^ 64
      → Stale g n a
      → is_active (run arms a).active_generation g ≡ false
  unfolding run
  run-Stale [] a g n fits s = s.unheard
  run-Stale (arm ∷ arms) a g n fits s =
      let s' = turn-Stale arm a g n (omega (arith, fits)) s in
      if_ind (λ (b : Actor JsonObject Filters StatsEvent). is_active b.active_generation g ≡ false)
        (ends arm) _ _ (λ _. s'.unheard)
        (λ _. run-Stale arms (turn arm a) g (suc n) (omega (arith, fits)) s')

  -- A generation that the engine has handed out and that is no longer active stays unheard: after
  -- any further turns, fewer than it takes to bring the counter to 2 ^ 64, whatever the engine
  -- still reports of it changes nothing.
  pub stale_report-ignored :
      (arms : List (Arm JsonObject Filters)) (a : Actor JsonObject Filters StatsEvent) (g now : ℕ)
      (now_ms : ℤ) (e : EngineEvent)
      → is_active a.active_generation g ≡ false
      → g < a.next_generation
      → a.next_generation + length arms < 2 ^ 64
      → apply_engine_report now now_ms (record { generation = g; event = e }) (run arms a)
        ≡ run arms a
  unfolding apply_engine_report
  stale_report-ignored arms a g now now_ms e unheard used fits =
      simp
        (run-Stale arms a g a.next_generation fits
          (record { unheard = unheard; used = used; few = omega arith }))
        refl

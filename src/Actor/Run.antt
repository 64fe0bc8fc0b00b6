-- ===== src/Actor/Run.antt =====
-- A whole run of the actor: what its clients are told, and how the loop ends.
use lavalink_rs.Actor.SettledRun.{new_actor-IsSettled, turn-IsSettled}
use lavalink_rs.Actor.History.{Legal, Key, key}
use lavalink_rs.FrameCounters.{FrameCounters}
use lavalink_rs.Event.{EmittedEvent}
use lavalink_rs.Unicode.{Text}
use lavalink_rs.PlayerModel.{stop, is_playing, Track, PlayerState}
use lavalink_rs.Actor.Settled.{IsSettled}
use lavalink_rs.Sink.{Message}
use lavalink_rs.Actor.Arms.{
  position_moved, stuck_arm, command_arm, voice_arm, engine_arm, check_stuck, handle, destroy_arm,
  destroy, ends, turn, run, report_stuck, note_end, Arm,
}
use lavalink_rs.Actor.{new_actor, call_engine, sync_playing, send_message, emit, Actor}
use lavalink_rs.Prelude.{
  ℕ, ◌-◌, ◌≡◌, refl, sym, subst, Bool, true, false, not, ◌&&◌, ◌||◌, Option, none, some, List, [],
  ◌∷◌, ◌++◌, ltb, if_ind,
}
use lavalink_rs.Prelude.Int.{ℤ}

-- What a client can be told of one player from its creation on.
abbrev pub IsTold :
    {JsonObject StatsEvent : Type 0}
    → List (Message PlayerState StatsEvent (EmittedEvent JsonObject))
    → Type 0
IsTold ms = (k : Option Key) × Legal none ms k

-- No arm that ends the loop.
unfoldable pub stays : {JsonObject Filters : Type 0} → List (Arm JsonObject Filters) → Bool
stays [] = true
stays (arm ∷ arms) = not (ends arm) && stays arms

and_not : (b c : Bool) → not b && c ≡ true → (b ≡ false) × (c ≡ true)
and_not true c e = absurd (cc)
and_not false c e = (refl, e)

module _ {JsonObject Filters StatsEvent : Type 0} where
  note_end-sent :
      (now_ms : ℤ) (t : Option (Track JsonObject)) (a : Actor JsonObject Filters StatsEvent)
      → (note_end now_ms t a).sent ≡ a.sent
  unfolding note_end
  note_end-sent now_ms none a = refl
  note_end-sent now_ms (some t) a = refl

  note_end-model :
      (now_ms : ℤ) (t : Option (Track JsonObject)) (a : Actor JsonObject Filters StatsEvent)
      → (note_end now_ms t a).model ≡ a.model
  unfolding note_end
  note_end-model now_ms none a = refl
  note_end-model now_ms (some t) a = refl

  pub turn-sent_end :
      (arm : Arm JsonObject Filters) (a : Actor JsonObject Filters StatsEvent)
      → ends arm ≡ true
      → (turn arm a).sent ≡ a.sent
  unfolding turn ends destroy call_engine
  turn-sent_end (destroy_arm now_ms) a e = note_end-sent now_ms (stop a.model).0 _
  turn-sent_end (engine_arm now now_ms r) a e = cc
  turn-sent_end (voice_arm now_ms u) a e = cc
  turn-sent_end (command_arm now now_ms c) a e = cc
  turn-sent_end (stuck_arm now) a e = cc
  turn-sent_end (position_moved p) a e = cc

  run_from :
      (arms : List (Arm JsonObject Filters)) (a : Actor JsonObject Filters StatsEvent)
      → IsSettled a
      → IsTold (run arms a).sent
  unfolding run
  run_from [] a h = (key a.model.track, h.told)
  run_from (arm ∷ arms) a h =
      if_ind (λ (b : Actor JsonObject Filters StatsEvent). IsTold b.sent) (ends arm) (turn arm a)
        (run arms (turn arm a))
        (λ e. (
          key a.model.track,
          subst (λ l. Legal none l (key a.model.track)) (sym (turn-sent_end arm a e)) h.told,
        ))
        (λ e. run_from arms (turn arm a) (turn-IsSettled arm a e h))

  -- The flag that the actor shares with the player's handle.
  abbrev IsSynced : Actor JsonObject Filters StatsEvent → Type 0
  IsSynced a = a.playing ≡ is_playing a.model.playback

  report_stuck-IsSynced :
      (now : ℕ) (p : Option ℕ) (t : Option (Track JsonObject))
      (a : Actor JsonObject Filters StatsEvent)
      → IsSynced a
      → IsSynced (report_stuck now p t a)
  unfolding report_stuck emit send_message
  report_stuck-IsSynced now none t a h = h
  report_stuck-IsSynced now (some p) none a h = h
  report_stuck-IsSynced now (some p) (some t) a h =
      if_ind IsSynced (ltb (now - p) a.stuck_threshold) _ _ (λ _. h) (λ _. h)

  turn-IsSynced :
      (arm : Arm JsonObject Filters) (a : Actor JsonObject Filters StatsEvent)
      → ends arm ≡ false
      → IsSynced a
      → IsSynced (turn arm a)
  unfolding turn ends sync_playing handle check_stuck
  turn-IsSynced (destroy_arm now_ms) a e h = cc
  turn-IsSynced (engine_arm now now_ms r) a e h = refl
  turn-IsSynced (voice_arm now_ms u) a e h = refl
  turn-IsSynced (command_arm now now_ms c) a e h = refl
  turn-IsSynced (stuck_arm now) a e h =
      if_ind IsSynced (is_playing a.model.playback) _ _
        (λ _.
          if_ind IsSynced (not (is_playing a.model.playback) || a.stuck_reported) _ _ (λ _. h)
            (λ _. report_stuck-IsSynced now a.model.last_progress a.model.track a h))
        (λ _. h)
  turn-IsSynced (position_moved p) a e h = h

  run_keeps :
      (arms : List (Arm JsonObject Filters)) (a : Actor JsonObject Filters StatsEvent)
      → stays arms ≡ true
      → IsSettled a
      → IsSynced a
      → IsSettled (run arms a) × IsSynced (run arms a)
  unfolding run stays
  run_keeps [] a s h sync = (h, sync)
  run_keeps (arm ∷ arms) a s h sync =
      let (stay, rest) = and_not (ends arm) (stays arms) s in
      if_ind (λ (b : Actor JsonObject Filters StatsEvent). IsSettled b × IsSynced b) (ends arm)
        (turn arm a) (run arms (turn arm a)) (λ e. cc)
        (λ e.
          run_keeps arms (turn arm a) rest (turn-IsSettled arm a e h) (turn-IsSynced arm a e sync))

  -- Nothing happens after the first destroy: the messages are those that were sent before it, the
  -- player has no track, and the arms that come later change nothing.
  pub run_ends :
      (before later : List (Arm JsonObject Filters)) (now_ms : ℤ)
      (a : Actor JsonObject Filters StatsEvent)
      → stays before ≡ true
      → (run (before ++ destroy_arm now_ms ∷ later) a ≡ destroy now_ms (run before a))
        × ((destroy now_ms (run before a)).sent ≡ (run before a).sent)
        × ((destroy now_ms (run before a)).model ≡ (stop (run before a).model).1)
  unfolding run stays ends
  run_ends [] later now_ms a s = (
    unfold turn in refl,
    unfold turn in turn-sent_end (destroy_arm now_ms) a refl,
    unfold destroy call_engine in note_end-model now_ms (stop a.model).0 _,
  )
  run_ends (arm ∷ arms) later now_ms a s =
      let (stay, rest) = and_not (ends arm) (stays arms) s in
      simp stay (run_ends arms later now_ms (turn arm a) rest)

-- Whatever a new player's actor finds ready, in any order: what it sends is in order for a client
-- that knows no track to be loaded. A track starts only when none is loaded, and the end, the
-- exceptions and the stuck reports of a track come while that track is loaded.
pub run-IsTold :
    {JsonObject Filters : Type 0} (StatsEvent : Type 0) (arms : List (Arm JsonObject Filters))
    (guild_id : ℕ) (text : Text) (filters : Filters) (threshold : ℕ) (frames : FrameCounters)
    → IsTold
        (run arms (new_actor {StatsEvent = StatsEvent} guild_id text filters threshold frames)).sent
run-IsTold StatsEvent arms guild_id text filters threshold frames =
    run_from arms _ (new_actor-IsSettled guild_id text filters threshold frames)

-- As long as it is not destroyed, whatever a new player's actor finds ready leaves it settled: the
-- player is consistent, an engine generation is active exactly when a track is loaded, the client
-- knows that track to be loaded, and the flag that it shares with the player's
-- handle, which the player counts read, says whether it plays.
pub run-IsSettled :
    {JsonObject Filters : Type 0} (StatsEvent : Type 0) (arms : List (Arm JsonObject Filters))
    (guild_id : ℕ) (text : Text) (filters : Filters) (threshold : ℕ) (frames : FrameCounters)
    → stays arms ≡ true
    → let a =
        run arms (new_actor {StatsEvent = StatsEvent} guild_id text filters threshold frames) in
      IsSettled a × (a.playing ≡ is_playing a.model.playback)
run-IsSettled StatsEvent arms guild_id text filters threshold frames s =
    run_keeps arms _ s (new_actor-IsSettled guild_id text filters threshold frames)
      (unfold new_actor is_playing in refl)

-- ===== src/Actor/Settled.antt =====
-- What holds of the actor between turns.
use lavalink_rs.Sink.{event}
use lavalink_rs.Event.{track_end, TrackEndReason}
use lavalink_rs.Prelude.{
  ℕ, ◌≡◌, refl, sym, ap, ◌∙◌, subst, Bool, Option, none, some, [], ◌∷◌, ◌++◌, if_ind,
}
use lavalink_rs.Actor.History.{key_of, key, Legal, Legal-snoc}
use lavalink_rs.Prelude.Int.{ℤ}
use lavalink_rs.PlayerModel.Consistent.{
  set_paused-track, stop-IsConsistent, set_paused-IsConsistent, IsConsistent,
}
use lavalink_rs.PlayerModel.{stop, set_paused, Track, is_some, PlayerModel}
use lavalink_rs.Actor.{
  engine_set_paused, emit, stop_track, end_event, actor_set_paused, eqb, EngineCall,
  record_pause_transition, emit_player_update, call_engine, Actor,
}

module _ {JsonObject Filters StatsEvent : Type 0} where
  -- A consistent player; a generation is active exactly when a track is loaded; and the client has
  -- been told, event by event, what is loaded.
  pub record IsSettled (a : Actor JsonObject Filters StatsEvent) : Type 0 where
    pub consistent : IsConsistent a.model
    pub active : is_some a.active_generation ≡ is_some a.model.track
    pub told : Legal none a.sent (key a.model.track)

  pub call_engine-IsSettled :
      (c : EngineCall JsonObject Filters) (a : Actor JsonObject Filters StatsEvent)
      → IsSettled a
      → IsSettled (call_engine c a)
  unfolding call_engine
  call_engine-IsSettled c a h = record {
    consistent = h.consistent;
    active = h.active;
    told = h.told;
  }

  pub emit_player_update-IsSettled :
      (now_ms : ℤ) (a : Actor JsonObject Filters StatsEvent)
      → IsSettled a
      → IsSettled (emit_player_update now_ms a)
  unfolding emit_player_update
  emit_player_update-IsSettled now_ms a h = record {
    consistent = h.consistent;
    active = h.active;
    told = Legal-snoc none (key a.model.track) a.sent _ h.told tt;
  }

  -- A change of the model that keeps the track, whatever it is called.
  pub remodel-IsSettled :
      (m : PlayerModel JsonObject Filters) (a : Actor JsonObject Filters StatsEvent)
      → IsConsistent m
      → is_some m.track ≡ is_some a.model.track
      → key m.track ≡ key a.model.track
      → IsSettled a
      → IsSettled (record a { model = m })
  remodel-IsSettled m a c some_eq key_eq h = record {
    consistent = c;
    active = h.active ∙ sym some_eq;
    told = subst (Legal none a.sent) (sym key_eq) h.told;
  }

  pub record_pause_transition-IsSettled :
      (paused : Bool) (now_ms : ℤ) (a : Actor JsonObject Filters StatsEvent)
      → IsSettled a
      → IsSettled (record_pause_transition paused now_ms a)
  unfolding record_pause_transition
  record_pause_transition-IsSettled paused now_ms a h =
      if_ind IsSettled (eqb a.model.paused paused) _ _ (λ e. h)
        (λ e. record { consistent = h.consistent; active = h.active; told = h.told })

  end_event-IsSettled :
      (reason : TrackEndReason) (now_ms : ℤ) (t : Option (Track JsonObject))
      (a : Actor JsonObject Filters StatsEvent)
      → IsConsistent a.model
      → a.active_generation ≡ none
      → a.model.track ≡ none
      → Legal none a.sent (key t)
      → IsSettled (end_event reason now_ms t a)
  unfolding end_event emit
  end_event-IsSettled reason now_ms none a c inactive empty told = record {
    consistent = c;
    active = ap is_some inactive ∙ sym (ap is_some empty);
    told = subst (Legal none a.sent) (sym (ap key empty)) told;
  }
  end_event-IsSettled reason now_ms (some t) a c inactive empty told = record {
    consistent = c;
    active = ap is_some inactive ∙ sym (ap is_some empty);
    told =
        subst (Legal none (a.sent ++ event (track_end a.guild_id_str t reason) ∷ []))
          (sym (ap key empty))
          (Legal-snoc none (some (key_of t)) a.sent (event (track_end a.guild_id_str t reason)) told
            refl);
  }

  pub stop_track-IsSettled :
      (reason : TrackEndReason) (now_ms : ℤ) (a : Actor JsonObject Filters StatsEvent)
      → IsSettled a
      → IsSettled (stop_track reason now_ms a)
  unfolding stop_track call_engine
  stop_track-IsSettled reason now_ms a h =
      end_event-IsSettled reason now_ms (stop a.model).0 _ (stop-IsConsistent a.model h.consistent)
        refl (unfold stop in refl) (unfold stop in h.told)

  pub actor_set_paused-IsSettled :
      (paused : Bool) (now : ℕ) (now_ms : ℤ) (a : Actor JsonObject Filters StatsEvent)
      → IsSettled a
      → IsSettled (actor_set_paused paused now now_ms a)
  unfolding actor_set_paused
  actor_set_paused-IsSettled paused now now_ms a h =
      let a' = record_pause_transition paused now_ms a in
      let h' = record_pause_transition-IsSettled paused now_ms a h in
      call_engine-IsSettled (engine_set_paused paused)
        (record a' { model = set_paused paused now a'.model })
        (remodel-IsSettled (set_paused paused now a'.model) a'
          (set_paused-IsConsistent paused now a'.model h'.consistent)
          (ap is_some (set_paused-track paused now a'.model))
          (ap key (set_paused-track paused now a'.model)) h')

-- ===== src/Actor/Reports.antt =====
-- What the engine's reports and the stuck check come to.
use lavalink_rs.Actor.SettledRun.{is_active-is_some}
use lavalink_rs.Actor.Settled.{IsSettled}
use lavalink_rs.Sink.{event, Message}
use lavalink_rs.Event.{
  track_stuck, track_exception, track_end, load_failed, EmittedEvent, finished, TrackEndReason,
  Exception, may_start_next,
}
use lavalink_rs.PlayerModel.{is_playing, ended, PlayerState, stop, Track, is_some}
use lavalink_rs.Actor.Arms.{
  stuck_arm, ends, turn, run, report_stuck, check_stuck, emit_exception, is_active,
  apply_engine_report, apply_engine_event,
}
use lavalink_rs.Unicode.{Text}
use lavalink_rs.Actor.{
  start_failed, send_message, load_failed_event, emit, finished_event, call_engine, Actor,
  end_event, stop_track, EngineEvent,
}
use lavalink_rs.Prelude.{
  ℕ, ◌-◌, ◌/◌, ◌≡◌, refl, sym, ap, ◌∙◌, subst, ◌⊎◌, inl, inr, true, false, not, ◌||◌, Option, none,
  some, List, [], ◌∷◌, ◌++◌, map, append_assoc, arith, ltb, if_ind,
}
use lavalink_rs.Prelude.Int.{ℤ, pos, wrap_i64}

-- The reports that end a track, with the exception and the reason that the client gets.
pub data Ending : EngineEvent → Option Exception → TrackEndReason → Type 0 where
  at_end : Ending finished_event none finished
  not_loaded : Ending load_failed_event none load_failed
  not_started : (e : Exception) → Ending (start_failed e) (some e) load_failed

-- The client of such a track may start the next one.
Ending-may_start_next :
    {ev : EngineEvent} {x : Option Exception} {r : TrackEndReason}
    → Ending ev x r
    → may_start_next r ≡ true
unfolding may_start_next
Ending-may_start_next at_end = refl
Ending-may_start_next not_loaded = refl
Ending-may_start_next (not_started e) = refl

some_of : {A : Type 0} (o : Option A) → is_some o ≡ true → (a : A) × (o ≡ some a)
some_of none e = absurd (cc)
some_of (some a) e = (a, refl)

-- The last events of a track.
abbrev pub last_events :
    {JsonObject StatsEvent : Type 0}
    → Text
    → Track JsonObject
    → Option Exception
    → TrackEndReason
    → List (Message PlayerState StatsEvent (EmittedEvent JsonObject))
last_events guild t none r = event (track_end guild t r) ∷ []
last_events guild t (some e) r =
    event (track_exception guild t e) ∷ event (track_end guild t r) ∷ []

module _ {JsonObject Filters StatsEvent : Type 0} where
  -- An actor that has done with its track.
  pub record IsDone (guild : Text) (t : Track JsonObject) (x : Option Exception)
      (r : TrackEndReason) (sent : List (Message PlayerState StatsEvent (EmittedEvent JsonObject)))
      (b : Actor JsonObject Filters StatsEvent) : Type 0 where
    pub told : b.sent ≡ sent ++ last_events guild t x r
    pub no_track : b.model.track ≡ none
    pub inactive : b.active_generation ≡ none
    pub rewound : b.position_ms ≡ pos 0
    pub silent : is_playing b.model.playback ≡ false

  stop-IsDone :
      (r : TrackEndReason) (now_ms : ℤ) (t : Track JsonObject)
      (a : Actor JsonObject Filters StatsEvent)
      → a.model.track ≡ some t
      → IsDone a.guild_id_str t none r a.sent (stop_track r now_ms a)
  unfolding stop_track stop end_event call_engine emit send_message ended is_playing
  stop-IsDone r now_ms t a e =
      simp e
        (record { told = refl; no_track = refl; inactive = refl; rewound = refl; silent = refl })

  Ending-IsDone :
      {ev : EngineEvent} {x : Option Exception} {r : TrackEndReason} (now : ℕ) (now_ms : ℤ)
      (t : Track JsonObject) (a : Actor JsonObject Filters StatsEvent)
      → Ending ev x r
      → a.model.track ≡ some t
      → IsDone a.guild_id_str t x r a.sent (apply_engine_event now now_ms ev a)
  unfolding apply_engine_event
  Ending-IsDone now now_ms t a at_end e = stop-IsDone finished now_ms t a e
  Ending-IsDone now now_ms t a not_loaded e = stop-IsDone load_failed now_ms t a e
  Ending-IsDone now now_ms t a (not_started x) e =
      unfold emit_exception emit send_message in
      simp e (
        let b = record a { sent = a.sent ++ event (track_exception a.guild_id_str t x) ∷ [] } in
        let d = stop-IsDone load_failed now_ms t b e in
        record {
          told = d.told ∙ append_assoc a.sent (event (track_exception a.guild_id_str t x) ∷ []) _;
          no_track = d.no_track;
          inactive = d.inactive;
          rewound = d.rewound;
          silent = d.silent;
        })

  -- A report of the active generation that ends its track, to a settled actor: the client gets
  -- the exception of a track that could not start, and then the end of the track with the reason of
  -- the report, one that lets it start the next track; and the player has no track and is silent.
  pub Ending-report :
      {ev : EngineEvent} {x : Option Exception} {r : TrackEndReason} (now : ℕ) (now_ms : ℤ) (g : ℕ)
      (a : Actor JsonObject Filters StatsEvent)
      → Ending ev x r
      → IsSettled a
      → is_active a.active_generation g ≡ true
      → (t : Track JsonObject) × (a.model.track ≡ some t)
        × (may_start_next r ≡ true)
        × IsDone a.guild_id_str t x r a.sent
            (apply_engine_report now now_ms (record { generation = g; event = ev }) a)
  unfolding apply_engine_report
  Ending-report {ev} {x} {r} now now_ms g a ending h active =
      let (t, e) =
        some_of a.model.track (sym h.active ∙ is_active-is_some a.active_generation g active) in
      (
        t,
        e,
        Ending-may_start_next ending,
        if_ind (IsDone a.guild_id_str t x r a.sent) (is_active a.active_generation g) _ _
            (λ _. Ending-IsDone now now_ms t a ending e) (λ quiet. absurd (cc)),
      )

  -- One report that the track of `a` is stuck.
  abbrev pub StuckReport :
      Actor JsonObject Filters StatsEvent
      → List (Message PlayerState StatsEvent (EmittedEvent JsonObject))
      → Type 0
  StuckReport a ms =
      (t : Track JsonObject) × (a.model.track ≡ some t)
      × (ms
          ≡ a.sent
            ++ event (track_stuck a.guild_id_str t (wrap_i64 (pos (a.stuck_threshold / 1000000))))
              ∷ [])

  abbrev Quiet : Actor JsonObject Filters StatsEvent → Actor JsonObject Filters StatsEvent → Type 0
  Quiet a b = (b ≡ a) ⊎ ((b.stuck_reported ≡ true) × StuckReport a b.sent)

  report_stuck-Quiet :
      (now : ℕ) (p : Option ℕ) (t : Option (Track JsonObject))
      (a : Actor JsonObject Filters StatsEvent)
      → a.model.track ≡ t
      → Quiet a (report_stuck now p t a)
  unfolding report_stuck emit send_message
  report_stuck-Quiet now none t a e = inl refl
  report_stuck-Quiet now (some p) none a e = inl refl
  report_stuck-Quiet now (some p) (some t) a e =
      if_ind (Quiet a) (ltb (now - p) a.stuck_threshold) _ _ (λ _. inl refl)
        (λ _. inr (refl, (t, e, refl)))

  check_stuck-Quiet :
      (now : ℕ) (a : Actor JsonObject Filters StatsEvent) → Quiet a (check_stuck now a)
  unfolding check_stuck
  check_stuck-Quiet now a =
      if_ind (Quiet a) (not (is_playing a.model.playback) || a.stuck_reported) _ _ (λ _. inl refl)
        (λ _. report_stuck-Quiet now a.model.last_progress a.model.track a refl)

  reported-check_stuck :
      (now : ℕ) (a : Actor JsonObject Filters StatsEvent)
      → a.stuck_reported ≡ true
      → check_stuck now a ≡ a
  unfolding check_stuck
  reported-check_stuck now a e =
      if_ind (λ b. b ≡ a) (not (is_playing a.model.playback) || a.stuck_reported) _ _ (λ _. refl)
        (λ loud. ground arith)

  reported-run :
      (times : List ℕ) (a : Actor JsonObject Filters StatsEvent)
      → a.stuck_reported ≡ true
      → run (map stuck_arm times) a ≡ a
  unfolding run turn ends
  reported-run [] a e = refl
  reported-run (now ∷ times) a e =
      ap (run (map stuck_arm times)) (
        if_ind (λ b. b ≡ a) (is_playing a.model.playback) _ _ (λ _. reported-check_stuck now a e)
          (λ _. refl))
      ∙ reported-run times a e

  -- However often the clock for stuck tracks ticks, without a report of progress in between: the
  -- client is told nothing, or once that the track that is loaded is stuck.
  pub stuck_once :
      (times : List ℕ) (a : Actor JsonObject Filters StatsEvent)
      → (run (map stuck_arm times) a ≡ a) ⊎ StuckReport a (run (map stuck_arm times) a).sent
  unfolding run turn ends
  stuck_once [] a = inl refl
  stuck_once (now ∷ times) a =
      let told : Quiet a (turn (stuck_arm now) a) =
        (if_ind (Quiet a) (is_playing a.model.playback) _ _ (λ _. check_stuck-Quiet now a)
          (λ _. inl refl)) in
      elim told [
        | inl same ↦
            subst
              (λ b.
                (run (map stuck_arm times) b ≡ a)
                ⊎ StuckReport a (run (map stuck_arm times) b).sent)
              (sym same) (stuck_once times a)
        | inr (reported, report) ↦ inr (
            subst (λ b. StuckReport a b.sent)
              (sym (reported-run times (turn (stuck_arm now) a) reported)) report)
      ]

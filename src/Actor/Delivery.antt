-- ===== src/Actor/Delivery.antt =====
-- What the actor has sent, on the sink of its session while nobody reads it.
use lavalink_rs.Sink.Delivery.{deliver, essentials, deliver-Kept}
use lavalink_rs.Actor.Run.{run-IsTold, IsTold}
use lavalink_rs.Actor.{new_actor}
use lavalink_rs.FrameCounters.{FrameCounters}
use lavalink_rs.Unicode.{Text}
use lavalink_rs.Actor.History.{after, after_event, Key, Legal}
use lavalink_rs.Actor.Arms.{run, Arm}
use lavalink_rs.Event.{EmittedEvent}
use lavalink_rs.PlayerModel.{PlayerState}
use lavalink_rs.Sink.{new_sink, event, stats, player_update, ready, essential_capacity, Message}
use lavalink_rs.Prelude.{
  zero, suc, suc, refl, ℕ, none, Option, ◌≡◌, sym, subst, List, [], ◌∷◌, arith, take,
}

module _ {JsonObject StatsEvent : Type 0} where
  essentials-Legal :
      (k l : Option Key) (ms : List (Message PlayerState StatsEvent (EmittedEvent JsonObject)))
      → Legal k ms l
      → Legal k (essentials ms) l
  unfolding Legal
  essentials-Legal k l [] h = h
  essentials-Legal k l (ready resumed id ∷ ms) h = (tt, essentials-Legal k l ms h.1)
  essentials-Legal k l (player_update state guild ∷ ms) h = essentials-Legal k l ms h.1
  essentials-Legal k l (stats s ∷ ms) h = essentials-Legal k l ms h.1
  essentials-Legal k l (event e ∷ ms) h = (h.0, essentials-Legal (after_event k e) l ms h.1)

  take-Legal :
      (n : ℕ) (k l : Option Key)
      (ms : List (Message PlayerState StatsEvent (EmittedEvent JsonObject)))
      → Legal k ms l
      → (l' : Option Key) × Legal k (take n ms) l'
  unfolding Legal
  take-Legal zero k l ms h = (k, refl)
  take-Legal (suc n) k l [] h = (k, refl)
  take-Legal (suc n) k l (m ∷ ms) h =
      let rest = take-Legal n (after k m) l ms h.1 in (rest.0, (h.0, rest.1))

-- What a new player's actor has sent, on a new sink that nobody reads: the sink holds the first 4096
-- essential messages in the order in which they were sent, and these are in order for a client that
-- knows no track to be loaded. A full sink loses the end of the story, never the middle.
pub deliver-IsTold :
    {JsonObject Filters : Type 0} (StatsEvent : Type 0) (arms : List (Arm JsonObject Filters))
    (guild_id : ℕ) (text : Text) (filters : Filters) (threshold : ℕ) (frames : FrameCounters)
    → let sent =
        (run arms
          (new_actor {StatsEvent = StatsEvent} guild_id text filters threshold frames)).sent in
      ((deliver sent new_sink).essential ≡ take essential_capacity (essentials sent))
      × IsTold (deliver sent new_sink).essential
deliver-IsTold StatsEvent arms guild_id text filters threshold frames =
    let sent =
      (run arms
        (new_actor {StatsEvent = StatsEvent} guild_id text filters threshold frames)).sent in
    let (k, legal) = run-IsTold StatsEvent arms guild_id text filters threshold frames in
    let kept = deliver-Kept sent new_sink refl (omega arith) in
    (
      kept,
      subst IsTold (sym kept) (
          take-Legal essential_capacity none k (essentials sent)
            (essentials-Legal none k sent legal)),
    )

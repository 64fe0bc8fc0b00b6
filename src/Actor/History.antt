-- ===== src/Actor/History.antt =====
-- What a client may be told: which messages may follow one another.
use lavalink_rs.EncodedTrack.{TrackInfo}
use lavalink_rs.PlayerModel.{PlayerState, Track}
use lavalink_rs.Unicode.{Text}
use lavalink_rs.Sink.{event, stats, player_update, ready, Message}
use lavalink_rs.Event.{
  web_socket_closed, track_stuck, track_exception, track_end, track_start, EmittedEvent,
}
use lavalink_rs.Prelude.{◌≡◌, sym, ap, subst, Option, none, some, List, [], ◌∷◌, ◌++◌}

-- What a track is known by; its user data may change while it is loaded.
abbrev pub Key : Type 0
Key = Text × TrackInfo

module _ {JsonObject : Type 0} where
  abbrev pub key_of : Track JsonObject → Key
  key_of t = (t.encoded, t.info)

  abbrev pub key : Option (Track JsonObject) → Option Key
  key none = none
  key (some t) = some (key_of t)

  -- What an event requires of the track that the client knows to be loaded, and leaves it with.
  abbrev pub EventAllowed : Option Key → EmittedEvent JsonObject → Type 0
  EventAllowed k (track_start guild t) = k ≡ none
  EventAllowed k (track_end guild t reason) = k ≡ some (key_of t)
  EventAllowed k (track_exception guild t e) = k ≡ some (key_of t)
  EventAllowed k (track_stuck guild t threshold) = k ≡ some (key_of t)
  EventAllowed k (web_socket_closed guild code reason by_remote) = Unit

  abbrev pub after_event : Option Key → EmittedEvent JsonObject → Option Key
  after_event k (track_start guild t) = some (key_of t)
  after_event k (track_end guild t reason) = none
  after_event k (track_exception guild t e) = k
  after_event k (track_stuck guild t threshold) = k
  after_event k (web_socket_closed guild code reason by_remote) = k

module _ {JsonObject StatsEvent : Type 0} where
  abbrev pub Allowed :
      Option Key → Message PlayerState StatsEvent (EmittedEvent JsonObject) → Type 0
  Allowed k (ready resumed id) = Unit
  Allowed k (player_update state guild) = Unit
  Allowed k (stats s) = Unit
  Allowed k (event e) = EventAllowed k e

  abbrev pub after :
      Option Key → Message PlayerState StatsEvent (EmittedEvent JsonObject) → Option Key
  after k (ready resumed id) = k
  after k (player_update state guild) = k
  after k (stats s) = k
  after k (event e) = after_event k e

  -- From a client that knows `k` to be loaded, the messages may come in this order, and then it
  -- knows `l` to be loaded.
  unfoldable pub Legal :
      Option Key
      → List (Message PlayerState StatsEvent (EmittedEvent JsonObject))
      → Option Key
      → Type 0
  Legal k [] l = k ≡ l
  Legal k (m ∷ ms) l = Allowed k m × Legal (after k m) ms l

  pub Legal-snoc :
      (k l : Option Key) (ms : List (Message PlayerState StatsEvent (EmittedEvent JsonObject)))
      (m : Message PlayerState StatsEvent (EmittedEvent JsonObject))
      → Legal k ms l
      → Allowed l m
      → Legal k (ms ++ m ∷ []) (after l m)
  unfolding Legal
  Legal-snoc k l [] m e allowed = (subst (λ x. Allowed x m) (sym e) allowed, ap (λ x. after x m) e)
  Legal-snoc k l (n ∷ ms) m (first, rest) allowed =
      (first, Legal-snoc (after k n) l ms m rest allowed)

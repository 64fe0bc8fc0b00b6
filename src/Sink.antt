-- ===== src/Sink.antt =====
-- The outbound queue of crates/server/src/sink.rs, and what it uses of `Message` in
-- crates/protocol/src/message.rs. The mutex is one state per call; the notifications, which only
-- wake the writer task, are left out, so `recv` is the `try_recv` that its loop repeats. The
-- payloads of the messages are parameters.
pub mod Queue
pub mod Coalesce
pub mod Delivery
mod Tests
use Prim.Native.Nat.{Ordering, compare}
use lavalink_rs.Prelude.{
  ℕ, Bool, true, false, ◌||◌, Option, none, some, List, [], ◌∷◌, ◌++◌, leb, if◌then◌else◌, length,
}
use lavalink_rs.Unicode.{Text}
use lavalink_rs.Outcome.{ok, err, Outcome}

pub data Message (PlayerState StatsEvent EmittedEvent : Type 0) : Type 0 where
  ready : Bool → Text → Message PlayerState StatsEvent EmittedEvent
  player_update : PlayerState → Text → Message PlayerState StatsEvent EmittedEvent
  stats : StatsEvent → Message PlayerState StatsEvent EmittedEvent
  event : EmittedEvent → Message PlayerState StatsEvent EmittedEvent

-- `CoalesceKey` and `SnapshotKey`, which differ in who owns the text.
pub data SnapshotKey : Type 0 where
  stats_key : SnapshotKey
  player_update_key : Text → SnapshotKey

pub data SendError : Type 0 where
  overflow : SendError
  closed_error : SendError

abbrev pub essential_capacity : ℕ
essential_capacity = 4096

-- The order of strings, and the derived order of the keys.
unfoldable pub then_order : Ordering → Ordering → Ordering
then_order Ordering.eq o = o
then_order Ordering.lt o = Ordering.lt
then_order Ordering.gt o = Ordering.gt

unfoldable pub compare_text : Text → Text → Ordering
unfolding then_order
compare_text [] [] = Ordering.eq
compare_text [] (d ∷ ds) = Ordering.lt
compare_text (c ∷ cs) [] = Ordering.gt
compare_text (c ∷ cs) (d ∷ ds) = then_order (compare c d) (compare_text cs ds)

unfoldable pub compare_key : SnapshotKey → SnapshotKey → Ordering
unfolding compare_text
compare_key stats_key stats_key = Ordering.eq
compare_key stats_key (player_update_key d) = Ordering.lt
compare_key (player_update_key c) stats_key = Ordering.gt
compare_key (player_update_key c) (player_update_key d) = compare_text c d

module _ {PlayerState StatsEvent EmittedEvent : Type 0} where
  -- `Message::coalesce_key`, and `SnapshotKey::of`, which copies it.
  unfoldable pub coalesce_key : Message PlayerState StatsEvent EmittedEvent → Option SnapshotKey
  coalesce_key (ready resumed id) = none
  coalesce_key (player_update state guild) = some (player_update_key guild)
  coalesce_key (stats s) = some stats_key
  coalesce_key (event e) = none

  -- `BTreeMap::insert`: the entries are in the order of their keys.
  unfoldable pub insert :
      SnapshotKey
      → Message PlayerState StatsEvent EmittedEvent
      → List (SnapshotKey × Message PlayerState StatsEvent EmittedEvent)
      → List (SnapshotKey × Message PlayerState StatsEvent EmittedEvent)
  insert k m [] = (k, m) ∷ []
  insert k m (e ∷ es) =
      let rest = insert k m es in
      elim (compare_key k e.0) [
        | Ordering.lt ↦ (k, m) ∷ e ∷ es
        | Ordering.eq ↦ (k, m) ∷ es
        | Ordering.gt ↦ e ∷ rest
      ]

pub record Inner (PlayerState StatsEvent EmittedEvent : Type 0) : Type 0 where
  pub essential : List (Message PlayerState StatsEvent EmittedEvent)
  pub snapshots : List (SnapshotKey × Message PlayerState StatsEvent EmittedEvent)
  pub paused : Bool
  pub closed : Bool

module _ {PlayerState StatsEvent EmittedEvent : Type 0} where
  abbrev pub new_sink : Inner PlayerState StatsEvent EmittedEvent
  new_sink = record { essential = []; snapshots = []; paused = false; closed = false }

  unfoldable pub send :
      Message PlayerState StatsEvent EmittedEvent
      → Inner PlayerState StatsEvent EmittedEvent
      → Outcome SendError (Unit {0}) × Inner PlayerState StatsEvent EmittedEvent
  unfolding coalesce_key insert
  send m s = if s.closed then (err closed_error, s) else queue m s (coalesce_key m)
    where
      queue :
          Message PlayerState StatsEvent EmittedEvent
          → Inner PlayerState StatsEvent EmittedEvent
          → Option SnapshotKey
          → Outcome SendError (Unit {0}) × Inner PlayerState StatsEvent EmittedEvent
      queue m s (some key) =
          if s.paused
          then (ok tt, s)
          else (ok tt, record s { snapshots = insert key m s.snapshots })
      queue m s none =
          if leb essential_capacity (length s.essential)
          then (err overflow, s)
          else (ok tt, record s { essential = s.essential ++ (m ∷ []) })

  -- The caller gives an essential message; a debug build asserts it.
  unfoldable pub send_first :
      Message PlayerState StatsEvent EmittedEvent
      → Inner PlayerState StatsEvent EmittedEvent
      → Outcome SendError (Unit {0}) × Inner PlayerState StatsEvent EmittedEvent
  send_first m s =
      if s.closed
      then (err closed_error, s)
      else if leb essential_capacity (length s.essential)
      then (err overflow, s)
      else (ok tt, record s { essential = m ∷ s.essential })

  unfoldable pub resume_with_first :
      Message PlayerState StatsEvent EmittedEvent
      → Inner PlayerState StatsEvent EmittedEvent
      → Outcome SendError (Unit {0}) × Inner PlayerState StatsEvent EmittedEvent
  resume_with_first m s =
      if s.closed
      then (err closed_error, s)
      else if leb essential_capacity (length s.essential)
      then (err overflow, s)
      else (ok tt, record s { essential = m ∷ s.essential; paused = false })

  -- The next essential message, or else the first snapshot.
  unfoldable pub pop :
      Inner PlayerState StatsEvent EmittedEvent
      → List (Message PlayerState StatsEvent EmittedEvent)
      → List (SnapshotKey × Message PlayerState StatsEvent EmittedEvent)
      → Option (Message PlayerState StatsEvent EmittedEvent)
        × Inner PlayerState StatsEvent EmittedEvent
  pop s (m ∷ ms) es = (some m, record s { essential = ms })
  pop s [] (e ∷ es) = (some e.1, record s { snapshots = es })
  pop s [] [] = (none, s)

  unfoldable pub try_recv :
      Inner PlayerState StatsEvent EmittedEvent
      → Option (Message PlayerState StatsEvent EmittedEvent)
        × Inner PlayerState StatsEvent EmittedEvent
  unfolding pop
  try_recv s = if s.paused || s.closed then (none, s) else pop s s.essential s.snapshots

  unfoldable pub pause :
      Inner PlayerState StatsEvent EmittedEvent → Inner PlayerState StatsEvent EmittedEvent
  pause s = record s { paused = true; snapshots = [] }

  unfoldable pub resume :
      Inner PlayerState StatsEvent EmittedEvent → Inner PlayerState StatsEvent EmittedEvent
  resume s = record s { paused = false }

  unfoldable pub close_sink :
      Inner PlayerState StatsEvent EmittedEvent → Inner PlayerState StatsEvent EmittedEvent
  close_sink s = record s { closed = true; essential = []; snapshots = [] }

  unfoldable pub is_overflowing : Inner PlayerState StatsEvent EmittedEvent → Bool
  is_overflowing s = leb essential_capacity (length s.essential)

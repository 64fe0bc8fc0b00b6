-- ===== src/Session.antt =====
-- One connection and its players: `Session` of crates/server/src/session.rs. The message's events,
-- `J` for JSON objects and `S` for the statistics, and the handles `H` and the voice connections `V`
-- of the players are parameters. What is shared behind an `Arc` is the record that the registry
-- holds; waiting for the players' ends is left out.
pub mod Registry
pub mod Keys
pub mod Sweep
pub mod Resume
pub mod Waiting
pub mod Players
pub mod Fresh
pub mod Lifecycle
pub mod Invariant
pub mod Reachable
mod Tests
use mathlib.Core.Option
use lavalink_rs.Outcome.{Outcome}
use lavalink_rs.Event.{EmittedEvent}
use lavalink_rs.PlayerModel.{PlayerState}
use lavalink_rs.Prelude.Assoc.{lookup_entry, insert_entry, delete_entry}
use lavalink_rs.Unicode.{Text}
use lavalink_rs.Sink.{send_first, send, SendError, new_sink, Inner, close_sink, Message}
use lavalink_rs.Prelude.{
  ℕ, zero, suc, ◌+◌, ◌-◌, ◌*◌, ◌/◌, ◌%◌, ◌^◌, ◌≤◌, ◌<◌, min, max, bit_and, bit_or, ◌≡◌, refl, sym,
  ap, ap₂, ◌∙◌, subst, ◌≢◌, ◌↔◌, ◌⊎◌, inl, inr, Bool, true, false, not, ◌&&◌, ◌||◌, Option, none,
  some, List, [], ◌∷◌, ◌++◌, map, append-nil, append_assoc, arith, ltb, leb, ◌==◌, if◌then◌else◌,
  ltb→lt, lt→ltb, not_lt→ltb, leb→le, ==_iff, ==_refl, Bool-cases, Option-cases, length, get_elem?,
  take, drop, replicate, All, length-append, length-take, length-drop, length-replicate,
  take-append-drop, take-append, drop-append, take_of_le, drop_of_le, All-append, get_elem?-append,
  get_elem?-eq-none, get_elem?_lt, get_elem?-All, if_ind,
}
use lavalink_rs.Prelude.Int.{ℤ, pos}

abbrev pub default_resume_timeout_secs : ℤ
default_resume_timeout_secs = pos 60

-- A hundred years.
abbrev pub max_sane_resume_timeout_secs : ℤ
max_sane_resume_timeout_secs = pos (100 * 365 * 24 * 60 * 60)

-- An instant is a number of nanoseconds.
pub data SessionState : Type 0 where
  open_state : SessionState
  resumable : ℕ → SessionState

pub record GuildPlayer (H V : Type 0) : Type 0 where
  pub handle : H
  pub voice : V

pub record Session (J S H V : Type 0) : Type 0 where
  pub id : Text
  pub user_id : ℕ
  pub client_name : Option Text
  pub sink : Inner PlayerState S (EmittedEvent J)
  pub resuming : Bool
  pub resume_timeout_secs : ℤ
  pub guilds : List (ℕ × GuildPlayer H V)
  pub alive : Bool

-- How many entries pass a test; the `filter` and `count` of `counts`.
unfoldable pub count_players : {H V : Type 0} → (H → Bool) → List (ℕ × GuildPlayer H V) → ℕ
count_players playing [] = 0
count_players playing (e ∷ es) =
    let rest = count_players playing es in if playing e.1.handle then rest + 1 else rest

module _ {J S H V : Type 0} where
  unfoldable pub new_session : Text → ℕ → Option Text → Session J S H V
  new_session id user_id client_name = record {
    id = id;
    user_id = user_id;
    client_name = client_name;
    sink = new_sink;
    resuming = false;
    resume_timeout_secs = default_resume_timeout_secs;
    guilds = [];
    alive = true;
  }

  unfoldable pub set_resuming : Bool → Session J S H V → Session J S H V
  set_resuming resuming s = record s { resuming = resuming }

  unfoldable pub set_resume_timeout_secs : ℤ → Session J S H V → Session J S H V
  set_resume_timeout_secs seconds s = record s { resume_timeout_secs = seconds }

  unfoldable pub session_send :
      Message PlayerState S (EmittedEvent J)
      → Session J S H V
      → Outcome SendError (Unit {0}) × Session J S H V
  session_send m s = let result = send m s.sink in (result.0, record s { sink = result.1 })

  unfoldable pub session_send_first :
      Message PlayerState S (EmittedEvent J)
      → Session J S H V
      → Outcome SendError (Unit {0}) × Session J S H V
  session_send_first m s =
      let result = send_first m s.sink in (result.0, record s { sink = result.1 })

  unfoldable pub player : ℕ → Session J S H V → Option H
  player guild_id s =
      Option.map (λ (g : GuildPlayer H V). g.handle) (lookup_entry ◌==◌ guild_id s.guilds)

  unfoldable pub voice_of : ℕ → Session J S H V → Option V
  voice_of guild_id s =
      Option.map (λ (g : GuildPlayer H V). g.voice) (lookup_entry ◌==◌ guild_id s.guilds)

  unfoldable pub players : Session J S H V → List H
  players s = map (λ (e : ℕ × GuildPlayer H V). e.1.handle) s.guilds

  unfoldable pub counts : (H → Bool) → Session J S H V → ℕ × ℕ
  unfolding count_players
  counts playing s = (length s.guilds, count_players playing s.guilds)

  -- What `or_insert_with` does with the entry that it found.
  unfoldable pub or_insert_with :
      ℕ
      → GuildPlayer H V
      → Option (GuildPlayer H V)
      → Session J S H V
      → GuildPlayer H V × Session J S H V
  or_insert_with guild_id built (some g) s = (g, s)
  or_insert_with guild_id built none s =
      (built, record s { guilds = insert_entry ◌==◌ guild_id built s.guilds })

  -- `built` is what `build` returns if it is called.
  unfoldable pub get_or_create_player :
      ℕ → GuildPlayer H V → Session J S H V → Option (GuildPlayer H V) × Session J S H V
  unfolding or_insert_with
  get_or_create_player guild_id built s =
      if not s.alive
      then (none, s)
      else (let result = or_insert_with guild_id built (lookup_entry ◌==◌ guild_id s.guilds) s in
          (some result.0, result.1))

  unfoldable pub remove_player : ℕ → Session J S H V → Option H × Session J S H V
  remove_player guild_id s = (
    Option.map (λ (g : GuildPlayer H V). g.handle) (lookup_entry ◌==◌ guild_id s.guilds),
    record s { guilds = delete_entry ◌==◌ guild_id s.guilds },
  )

  unfoldable pub take_players : Session J S H V → List H × Session J S H V
  unfolding players
  take_players s = (players s, record s { alive = false; guilds = [] })

  -- With the players that are to be destroyed.
  unfoldable pub shutdown : Session J S H V → List H × Session J S H V
  unfolding take_players
  shutdown s =
      let (handles, emptied) = take_players s in
      (handles, record emptied { sink = close_sink emptied.sink })

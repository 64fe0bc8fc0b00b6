-- ===== src/Session/Tests.antt =====
-- A session that is cut off and comes back, and the instances of the theorems.
use lavalink_rs.Session.Fresh.{IsDistinct, open_session_ends}
use lavalink_rs.Session.Sweep.{sweep_expired_lem, survivor, remove_expired_keeps}
use lavalink_rs.Session.Players.{get_or_create_player_once, held_or}
use lavalink_rs.Event.{web_socket_closed, EmittedEvent}
use lavalink_rs.Session.Reachable.{steps-can_resume, steps-IsRegistry}
use lavalink_rs.Session.Resume.{claim_for_resume_once, revived}
use lavalink_rs.Session.Waiting.{on_disconnect-sweep_expired, sends, is_filled}
use lavalink_rs.Prelude.Assoc.{insert_entry, adjust_entry, lookup_entry}
use lavalink_rs.PlayerModel.{PlayerState, is_some}
use lavalink_rs.Unicode.{Text}
use lavalink_rs.Session.Lifecycle.{
  call_send, step_disconnect, call_resuming, step_sweep, step_call, step_open, Step,
}
use lavalink_rs.Session.{
  voice_of, GuildPlayer, resumable, player, open_state, get_or_create_player, Session,
}
use lavalink_rs.Sink.{
  pause, compare_key, send, insert, coalesce_key, resume_with_first, stats, is_overflowing,
  new_sink, event, ready, Message,
}
use lavalink_rs.Session.Invariant.{step, steps, IsRegistry}
use lavalink_rs.Session.Registry.{
  from_secs, is_open, is_before_deadline, is_resumable, is_expired, resumable_now, sweep_expired,
  remove_expired, open_session, get_session, eq_text, can_resume, Registry, state_of, on_disconnect,
  claim_for_resume, Entry,
}
use lavalink_rs.Prelude.{
  not, ◌&&◌, ℕ, ◌+◌, ◌≡◌, refl, true, false, Option, none, some, List, [], ◌∷◌, ◌++◌, arith, ltb,
  if◌then◌else◌, ◌==◌,
}
use mathlib.Core.Option
use lavalink_rs.Prelude.Int.{pos}

abbrev instant_added : ℕ → ℕ → Option ℕ
instant_added now duration = some (now + duration)

abbrev name_a : Text
name_a = b'a' ∷ []

abbrev name_b : Text
name_b = b'b' ∷ []

abbrev closing : Message PlayerState ℕ (EmittedEvent ℕ)
closing = event (web_socket_closed name_b (pos 4014) [] true)

-- A session is opened although the first id is taken, asks to be kept, and is cut off.
abbrev history : List (Step ℕ ℕ ℕ ℕ)
history =
    step_open (name_a ∷ []) 1 none
    ∷ step_open (name_a ∷ name_b ∷ []) 2 none
    ∷ step_call name_b (call_resuming true)
    ∷ step_disconnect name_b 10
    ∷ step_call name_b (call_send closing)
    ∷ step_call name_b (call_send (stats 3))
    ∷ step_sweep 60000000009
    ∷ []

kept_waiting : state_of name_b (steps instant_added history []) ≡ some (resumable 60000000010)
unfolding state_of steps step lookup_entry adjust_entry insert_entry eq_text is_overflowing send
    pause
kept_waiting = refl

swept_in_time :
    state_of name_b (steps instant_added (history ++ step_sweep 60000000010 ∷ []) []) ≡ none
unfolding state_of steps step lookup_entry adjust_entry insert_entry eq_text is_overflowing send
    pause
swept_in_time = refl

told_first :
    Option.map
      (λ (s : Session ℕ ℕ ℕ ℕ). s.sink.essential)
      (claim_for_resume name_b 60000000009 (steps instant_added history [])).0
    ≡ some (ready true name_b ∷ closing ∷ [])
unfolding steps step resume_with_first coalesce_key insert compare_key lookup_entry adjust_entry
    insert_entry eq_text is_overflowing send pause
told_first = refl

steps-IsRegistry_example : IsRegistry (steps instant_added history [])
steps-IsRegistry_example = steps-IsRegistry instant_added history

steps-can_resume_example :
    is_some (claim_for_resume name_b 60000000009 (steps instant_added history [])).0
    ≡ can_resume name_b 60000000009 (steps instant_added history [])
steps-can_resume_example = steps-can_resume instant_added history name_b 60000000009

abbrev session_b : Session ℕ ℕ ℕ ℕ
session_b = record {
  id = name_b;
  user_id = 2;
  client_name = none;
  sink = record { essential = closing ∷ []; snapshots = []; paused = false; closed = false };
  resuming = true;
  resume_timeout_secs = pos 60;
  guilds = (7, record { handle = 1; voice = 2 }) ∷ [];
  alive = true;
}

abbrev waiting : Entry ℕ ℕ ℕ ℕ
waiting = record { session = session_b; state = resumable 70 }

abbrev connected : Entry ℕ ℕ ℕ ℕ
connected = record { session = session_b; state = open_state }

sweep_expired_lem_example :
    lookup_entry eq_text name_b (sweep_expired 70 ((name_b, waiting) ∷ (name_a, connected) ∷ [])).1
    ≡ survivor 70 (lookup_entry eq_text name_b ((name_b, waiting) ∷ (name_a, connected) ∷ []))
sweep_expired_lem_example =
    sweep_expired_lem name_b 70 ((name_b, waiting) ∷ (name_a, connected) ∷ [])

remove_expired_keeps_example :
    lookup_entry eq_text name_b (remove_expired (name_b ∷ []) 70 ((name_b, connected) ∷ [])).1
    ≡ some connected
remove_expired_keeps_example =
    remove_expired_keeps name_b (name_b ∷ []) 70 connected ((name_b, connected) ∷ [])
      (unfold lookup_entry eq_text in refl) (unfold is_expired is_open in refl)

claim_for_resume_once_example :
    let (claim, r') = claim_for_resume name_b 69 ((name_b, waiting) ∷ []) in
    (claim ≡ some (revived session_b))
    × (lookup_entry eq_text name_b r'
        ≡ some (record { session = revived session_b; state = open_state }))
    × (claim_for_resume name_b 70 r' ≡ (none, r'))
claim_for_resume_once_example =
    claim_for_resume_once name_b 69 70 waiting ((name_b, waiting) ∷ [])
      (unfold lookup_entry eq_text in refl) refl
      (unfold can_resume resumable_now is_resumable is_before_deadline is_overflowing lookup_entry
          eq_text in
        refl)

on_disconnect-sweep_expired_example :
    let (gone, r') = on_disconnect instant_added name_b 10 ((name_b, connected) ∷ []) in
    let r'' = steps instant_added (sends name_b (closing ∷ stats 3 ∷ [])) r' in
    let kept =
      ltb 60000000009 (10 + from_secs 60)
      && not (is_filled (closing ∷ stats 3 ∷ []) session_b.sink) in
    (gone ≡ none)
    × (can_resume name_b 60000000009 r'' ≡ kept)
    × (get_session name_b (sweep_expired 60000000009 r'').1
        ≡ (if kept then get_session name_b r'' else none))
on_disconnect-sweep_expired_example =
    on_disconnect-sweep_expired instant_added name_b 10 60000000009 60 (closing ∷ stats 3 ∷ [])
      connected ((name_b, connected) ∷ []) (unfold lookup_entry eq_text in refl) refl refl refl refl
      (omega arith) (omega arith) refl

get_or_create_player_once_example :
    let (x, s') = get_or_create_player 8 (record { handle = 3; voice = 4 }) session_b in
    (x ≡ some (held_or (record { handle = 3; voice = 4 }) (lookup_entry ◌==◌ 8 session_b.guilds)))
    × (get_or_create_player 8 (record { handle = 5; voice = 6 }) s' ≡ (x, s'))
    × (player 8 s' ≡ Option.map (λ (g : GuildPlayer ℕ ℕ). g.handle) x)
    × (voice_of 8 s' ≡ Option.map (λ (g : GuildPlayer ℕ ℕ). g.voice) x)
    × (player 7 s' ≡ player 7 session_b)
get_or_create_player_once_example =
    get_or_create_player_once 8 7 (record { handle = 3; voice = 4 })
      (record { handle = 5; voice = 6 }) session_b refl refl

open_session_ends_example :
    (s : Session ℕ ℕ ℕ ℕ) × (r' : Registry ℕ ℕ ℕ ℕ) × (open_session
        (name_b ∷ name_a ∷ [])
        3
        none
        ((name_b, connected) ∷ [])
      ≡ some (s, r'))
    × (lookup_entry eq_text s.id ((name_b, connected) ∷ []) ≡ none)
    × (lookup_entry eq_text s.id r' ≡ some (record { session = s; state = open_state }))
    × (s.sink ≡ new_sink)
    × (lookup_entry eq_text name_b r' ≡ (
        if eq_text name_b s.id
        then some (record { session = s; state = open_state })
        else lookup_entry eq_text name_b ((name_b, connected) ∷ [])))
open_session_ends_example =
    open_session_ends (name_b ∷ name_a ∷ []) 3 none name_b ((name_b, connected) ∷ [])
      (unfold IsDistinct eq_text in ((refl, tt), (tt, tt))) (omega arith)

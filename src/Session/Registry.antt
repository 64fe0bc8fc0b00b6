-- ===== src/Session/Registry.antt =====
-- `SessionRegistry` of crates/server/src/session.rs: the sessions by their ids. Each function is one
-- critical section of the registry's lock, but for `sweep_expired`, whose two phases each have
-- their own.
use lavalink_rs.PlayerModel.{is_some}
use lavalink_rs.Prelude.Assoc.{lookup_entry, insert_entry, delete_entry, adjust_entry}
use lavalink_rs.Sink.{ready, resume_with_first, SendError, pause, is_overflowing}
use lavalink_rs.Unicode.{Text}
use lavalink_rs.Session.{
  open_state, resumable, max_sane_resume_timeout_secs, shutdown, new_session, SessionState, Session,
}
use lavalink_rs.Outcome.{stuck, err, ok, Outcome}
use mathlib.Core.Option
use lavalink_rs.Prelude.{
  ◌*◌, ℕ, Bool, true, false, not, ◌&&◌, Option, none, some, List, [], ◌∷◌, map, ltb, ◌==◌,
  if◌then◌else◌,
}
use lavalink_rs.Prelude.Int.{pos_part, ltb_ℤ, ℤ, pos}

-- `==` of strings.
unfoldable pub eq_text : Text → Text → Bool
eq_text [] [] = true
eq_text [] (d ∷ ds) = false
eq_text (c ∷ cs) [] = false
eq_text (c ∷ cs) (d ∷ ds) = let rest = eq_text cs ds in if c == d then rest else false

pub record Entry (J S H V : Type 0) : Type 0 where
  pub session : Session J S H V
  pub state : SessionState

unfoldable pub is_open : SessionState → Bool
is_open open_state = true
is_open (resumable deadline) = false

-- The guard `deadline > now` of the pattern.
unfoldable pub is_before_deadline : SessionState → ℕ → Bool
is_before_deadline open_state now = false
is_before_deadline (resumable deadline) now = ltb now deadline

-- `Duration::from_secs`, in nanoseconds.
abbrev pub from_secs : ℕ → ℕ
from_secs secs = secs * 1000000000

-- The deadline of a session that asked for `requested` seconds. `checked_add` is that of
-- `Instant`.
unfoldable pub deadline_after : (ℕ → ℕ → Option ℕ) → ℕ → ℤ → ℕ
deadline_after checked_add now requested =
    if not (ltb_ℤ requested (pos 0)) && not (ltb_ℤ max_sane_resume_timeout_secs requested)
    then or_now (checked_add now (from_secs (pos_part requested)))
    else now
  where
    or_now : Option ℕ → ℕ
    or_now none = now
    or_now (some deadline) = deadline

abbrev pub Registry : Type 0 → Type 0 → Type 0 → Type 0 → Type 0
Registry J S H V = List (Text × Entry J S H V)

abbrev pub prepend : {A : Type 0} → Option A → List A → List A
prepend none xs = xs
prepend (some x) xs = x ∷ xs

module _ {J S H V : Type 0} where
  unfoldable pub is_resumable : Entry J S H V → ℕ → Bool
  unfolding is_before_deadline
  is_resumable e now = is_before_deadline e.state now && not (is_overflowing e.session.sink)

  unfoldable pub is_expired : Entry J S H V → ℕ → Bool
  unfolding is_open is_resumable
  is_expired e now = not (is_open e.state) && not (is_resumable e now)

  -- The first candidate that is not taken; `none` while all have been.
  unfoldable pub fresh_id : List Text → Registry J S H V → Option Text
  fresh_id [] r = none
  fresh_id (candidate ∷ candidates) r =
      let rest = fresh_id candidates r in
      if is_some (lookup_entry eq_text candidate r) then rest else some candidate

  -- `candidates` are what `generate_session_id` draws.
  unfoldable pub open_session :
      List Text → ℕ → Option Text → Registry J S H V → Option (Session J S H V × Registry J S H V)
  unfolding fresh_id new_session
  open_session candidates user_id client_name r =
      Option.map
        (λ (id : Text).
          let session = new_session id user_id client_name in
          (session, insert_entry eq_text id (record { session = session; state = open_state }) r))
        (fresh_id candidates r)

  unfoldable pub resumable_now : Option (Entry J S H V) → ℕ → Bool
  unfolding is_resumable
  resumable_now none now = false
  resumable_now (some e) now = is_resumable e now

  unfoldable pub can_resume : Text → ℕ → Registry J S H V → Bool
  unfolding resumable_now
  can_resume id now r = resumable_now (lookup_entry eq_text id r) now

  -- What follows `resume_with_first`, by what it returned.
  unfoldable pub claimed :
      Outcome SendError (Unit {0})
      → Session J S H V
      → Entry J S H V
      → Option (Session J S H V) × Entry J S H V
  claimed (ok u) s e = (some s, record { session = s; state = open_state })
  claimed (err error) s e = (none, record e { session = s })
  claimed stuck s e = (none, record e { session = s })

  unfoldable pub claim_entry : Entry J S H V → Option (Session J S H V) × Entry J S H V
  unfolding claimed
  claim_entry e =
      let (result, sink) = resume_with_first (ready true e.session.id) e.session.sink in
      claimed result (record e.session { sink = sink }) e

  unfoldable pub claim_found :
      Text
      → ℕ
      → Option (Entry J S H V)
      → Registry J S H V
      → Option (Session J S H V) × Registry J S H V
  unfolding claim_entry is_resumable
  claim_found id now none r = (none, r)
  claim_found id now (some e) r =
      if not (is_resumable e now)
      then (none, r)
      else ((claim_entry e).0, adjust_entry eq_text id (λ _. (claim_entry e).1) r)

  unfoldable pub claim_for_resume :
      Text → ℕ → Registry J S H V → Option (Session J S H V) × Registry J S H V
  unfolding claim_found
  claim_for_resume id now r = claim_found id now (lookup_entry eq_text id r) r

  unfoldable pub get_session : Text → Registry J S H V → Option (Session J S H V)
  get_session id r = Option.map (λ (e : Entry J S H V). e.session) (lookup_entry eq_text id r)

  unfoldable pub state_of : Text → Registry J S H V → Option SessionState
  state_of id r = Option.map (λ (e : Entry J S H V). e.state) (lookup_entry eq_text id r)

  unfoldable pub all_sessions : Registry J S H V → List (Session J S H V)
  all_sessions r = map (λ (e : Text × Entry J S H V). e.1.session) r

  -- A resuming session that is cut off.
  unfoldable pub suspend : (ℕ → ℕ → Option ℕ) → ℕ → Entry J S H V → Entry J S H V
  unfolding deadline_after
  suspend checked_add now e = record {
    session = record e.session { sink = pause e.session.sink };
    state = resumable (deadline_after checked_add now e.session.resume_timeout_secs);
  }

  unfoldable pub disconnect_found :
      (ℕ → ℕ → Option ℕ)
      → Text
      → ℕ
      → Option (Entry J S H V)
      → Registry J S H V
      → Option (Session J S H V) × Registry J S H V
  unfolding suspend is_open
  disconnect_found checked_add id now none r = (none, r)
  disconnect_found checked_add id now (some e) r =
      if not (is_open e.state)
      then (none, r)
      else if e.session.resuming
      then (none, adjust_entry eq_text id (suspend checked_add now) r)
      else (some e.session, delete_entry eq_text id r)

  unfoldable pub on_disconnect :
      (ℕ → ℕ → Option ℕ) → Text → ℕ → Registry J S H V → Option (Session J S H V) × Registry J S H V
  unfolding disconnect_found
  on_disconnect checked_add id now r =
      disconnect_found checked_add id now (lookup_entry eq_text id r) r

  -- The first phase of a sweep.
  unfoldable pub expired_ids : ℕ → Registry J S H V → List Text
  unfolding is_expired
  expired_ids now [] = []
  expired_ids now (e ∷ es) =
      let rest = expired_ids now es in if is_expired e.1 now then e.0 ∷ rest else rest

  unfoldable pub remove_found :
      Text
      → ℕ
      → Option (Entry J S H V)
      → Registry J S H V
      → Option (Session J S H V) × Registry J S H V
  unfolding is_expired
  remove_found id now none r = (none, r)
  remove_found id now (some e) r =
      if is_expired e now then (some e.session, delete_entry eq_text id r) else (none, r)

  unfoldable pub remove_if_still_expired :
      Text → ℕ → Registry J S H V → Option (Session J S H V) × Registry J S H V
  unfolding remove_found
  remove_if_still_expired id now r = remove_found id now (lookup_entry eq_text id r) r

  -- The second phase, on the registry as it is by then.
  unfoldable pub remove_expired :
      List Text → ℕ → Registry J S H V → List (Session J S H V) × Registry J S H V
  unfolding remove_if_still_expired
  remove_expired [] now r = ([], r)
  remove_expired (id ∷ ids) now r =
      let (session, r') = remove_if_still_expired id now r in
      let (sessions, r'') = remove_expired ids now r' in (prepend session sessions, r'')

  unfoldable pub sweep_expired : ℕ → Registry J S H V → List (Session J S H V) × Registry J S H V
  unfolding expired_ids remove_expired
  sweep_expired now r = remove_expired (expired_ids now r) now r

  -- With the players that are to be destroyed.
  unfoldable pub destroy_session :
      Text → Registry J S H V → Option (List H × Session J S H V) × Registry J S H V
  unfolding shutdown
  destroy_session id r = (
    Option.map (λ (e : Entry J S H V). shutdown e.session) (lookup_entry eq_text id r),
    delete_entry eq_text id r,
  )

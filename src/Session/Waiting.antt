-- ===== src/Session/Waiting.antt =====
-- Until when a session that was cut off is kept.
use lavalink_rs.Session.Lifecycle.{call_send, step_call, Step}
use lavalink_rs.Session.Invariant.{call_session, step, steps}
use lavalink_rs.Event.{EmittedEvent}
use lavalink_rs.Session.Sweep.{survivor, sweep_expired_lem}
use lavalink_rs.PlayerModel.{PlayerState}
use lavalink_rs.Session.Resume.{can_resume_lem}
use lavalink_rs.Sink.Delivery.{deliver, essentials, deliver-Kept}
use lavalink_rs.Session.Keys.{lookup-adjust}
use lavalink_rs.Prelude.Assoc.{delete_entry, lookup_entry, adjust_entry}
use lavalink_rs.Sink.{send, essential_capacity, Inner, pause, Message, is_overflowing}
use lavalink_rs.Session.Registry.{
  from_secs, is_open, suspend, is_expired, disconnect_found, sweep_expired, get_session,
  on_disconnect, eq_text, Registry, is_before_deadline, Entry, is_resumable, deadline_after,
  can_resume,
}
use lavalink_rs.Unicode.{Text}
use lavalink_rs.Session.{session_send, open_state, Session}
use lavalink_rs.Prelude.{
  length-append, length-take, ◌++◌, min, ap₂, List, [], ℕ, ◌+◌, ◌*◌, ◌≤◌, ◌≡◌, refl, sym, ap, ◌∙◌,
  subst, Bool, true, false, not, ◌&&◌, Option, none, some, ◌∷◌, arith, ltb, leb, if◌then◌else◌,
  length, if_ind,
}
use mathlib.Core.Option
use lavalink_rs.Prelude.Int.{pos}

deadline_after_lem :
    (checked_add : ℕ → ℕ → Option ℕ) (now secs deadline : ℕ)
    → secs ≤ 100 * 365 * 24 * 60 * 60
    → checked_add now (from_secs secs) ≡ some deadline
    → deadline_after checked_add now (pos secs) ≡ deadline
unfolding deadline_after
deadline_after_lem checked_add now secs deadline sane h =
    if_ind (λ d. d ≡ deadline) (not (ltb (secs + 0) 0) && not (ltb 3153600000 (secs + 0))) _ _
      (λ _. simp h refl) (λ insane. absurd (ground arith))

module _ {J S : Type 0} where
  -- Whether the queue is full once these messages were sent to it.
  abbrev pub is_filled :
      List (Message PlayerState S (EmittedEvent J)) → Inner PlayerState S (EmittedEvent J) → Bool
  is_filled ms s = leb essential_capacity (length s.essential + length (essentials ms))

  reached-is_overflowing :
      (ms : List (Message PlayerState S (EmittedEvent J)))
      (s : Inner PlayerState S (EmittedEvent J))
      → s.closed ≡ false
      → length s.essential ≤ essential_capacity
      → is_overflowing (deliver ms s) ≡ is_filled ms s
  unfolding is_overflowing
  reached-is_overflowing ms s opened fits =
      let size : length (deliver ms s).essential
          ≡ min essential_capacity (length (s.essential ++ essentials ms)) =
        ap length (deliver-Kept ms s opened fits) ∙ length-take essential_capacity _ in
      ground (arith, size, length-append s.essential (essentials ms))

module _ {J S H V : Type 0} where
  -- The steps by which messages reach a session.
  unfoldable pub sends : Text → List (Message PlayerState S (EmittedEvent J)) → List (Step J S H V)
  sends id [] = []
  sends id (m ∷ ms) = step_call id (call_send m) ∷ sends id ms

  -- The entry of a session that these messages have reached.
  abbrev reached : List (Message PlayerState S (EmittedEvent J)) → Entry J S H V → Entry J S H V
  reached ms e = record e { session = record e.session { sink = deliver ms e.session.sink } }

  lookup-sends :
      (checked_add : ℕ → ℕ → Option ℕ) (id : Text)
      (ms : List (Message PlayerState S (EmittedEvent J))) (e : Entry J S H V)
      (r : Registry J S H V)
      → lookup_entry eq_text id r ≡ some e
      → lookup_entry eq_text id (steps checked_add (sends id ms) r) ≡ some (reached ms e)
  unfolding steps step call_session session_send sends deliver
  lookup-sends checked_add id [] e r h = h
  lookup-sends checked_add id (m ∷ ms) e r h =
      lookup-sends checked_add id ms
        (record e { session = record e.session { sink = (send m e.session.sink).1 } })
        (step checked_add (step_call id (call_send m)) r)
        (lookup-adjust id
          (λ (x : Entry J S H V). record x { session = call_session (call_send m) x.session }) e r
          h)

  suspend-is_resumable :
      (checked_add : ℕ → ℕ → Option ℕ) (now later secs : ℕ)
      (ms : List (Message PlayerState S (EmittedEvent J))) (e : Entry J S H V)
      → e.session.resume_timeout_secs ≡ pos secs
      → e.session.sink.closed ≡ false
      → length e.session.sink.essential ≤ essential_capacity
      → secs ≤ 100 * 365 * 24 * 60 * 60
      → checked_add now (from_secs secs) ≡ some (now + from_secs secs)
      → is_resumable (reached ms (suspend checked_add now e)) later
        ≡ (ltb later (now + from_secs secs) && not (is_filled ms e.session.sink))
  unfolding is_resumable is_before_deadline suspend pause
  suspend-is_resumable checked_add now later secs ms e timeout opened fits sane added =
      ap₂ (λ b c. b && not c)
        (ap (ltb later) (
          ap (deadline_after checked_add now) timeout
          ∙ deadline_after_lem checked_add now secs (now + from_secs secs) sane added))
        (reached-is_overflowing ms (pause e.session.sink) opened fits)

  suspend-is_expired :
      (checked_add : ℕ → ℕ → Option ℕ) (now later : ℕ)
      (ms : List (Message PlayerState S (EmittedEvent J))) (e : Entry J S H V)
      → is_expired (reached ms (suspend checked_add now e)) later
        ≡ not (is_resumable (reached ms (suspend checked_add now e)) later)
  unfolding is_expired is_open suspend
  suspend-is_expired checked_add now later ms e = refl

  disconnect_found_lem :
      (checked_add : ℕ → ℕ → Option ℕ) (id : Text) (now : ℕ) (e : Entry J S H V)
      (r : Registry J S H V)
      → e.state ≡ open_state
      → e.session.resuming ≡ true
      → disconnect_found checked_add id now (some e) r
        ≡ (none, adjust_entry eq_text id (suspend checked_add now) r)
  unfolding disconnect_found is_open
  disconnect_found_lem checked_add id now e r opened resuming =
      ap
        (λ s.
          if not (is_open s)
          then (none, r)
          else if e.session.resuming
          then (none, adjust_entry eq_text id (suspend checked_add now) r)
          else (some e.session, delete_entry eq_text id r))
        opened
      ∙ simp resuming refl

  kept_or_gone :
      (b : Bool) (later : ℕ) (e : Entry J S H V)
      → is_expired e later ≡ not b
      → Option.map (λ (x : Entry J S H V). x.session) (if is_expired e later then none else some e)
        ≡ (if b then some e.session else none)
  kept_or_gone true later e h = simp h refl
  kept_or_gone false later e h = simp h refl

  -- An open session that asked to be kept for at most a hundred years, with an open queue of at most
  -- 4096 essential messages, is cut off, and then any messages are sent to it: it is not given up
  -- at once. At a later time it can be resumed exactly if its time is not over and its queue has not
  -- become full, counting the essential messages that were queued and those that were sent since; a
  -- sweep then leaves it if so, and otherwise removes it. `checked_add` is that of `Instant`,
  -- which can represent the end of its time.
  pub on_disconnect-sweep_expired :
      (checked_add : ℕ → ℕ → Option ℕ) (id : Text) (now later secs : ℕ)
      (ms : List (Message PlayerState S (EmittedEvent J))) (e : Entry J S H V)
      (r : Registry J S H V)
      → lookup_entry eq_text id r ≡ some e
      → e.state ≡ open_state
      → e.session.resuming ≡ true
      → e.session.resume_timeout_secs ≡ pos secs
      → e.session.sink.closed ≡ false
      → length e.session.sink.essential ≤ essential_capacity
      → secs ≤ 100 * 365 * 24 * 60 * 60
      → checked_add now (from_secs secs) ≡ some (now + from_secs secs)
      → let (gone, r') = on_disconnect checked_add id now r in
        let r'' = steps checked_add (sends id ms) r' in
        let kept = ltb later (now + from_secs secs) && not (is_filled ms e.session.sink) in
        (gone ≡ none)
        × (can_resume id later r'' ≡ kept)
        × (get_session id (sweep_expired later r'').1 ≡ (if kept then get_session id r'' else none))
  on_disconnect-sweep_expired checked_add id now later secs ms e r h opened resuming timeout is_open
        fits sane added =
      let e' : Entry J S H V = reached ms (suspend checked_add now e) in
      let r' : Registry J S H V = adjust_entry eq_text id (suspend checked_add now) r in
      let r'' : Registry J S H V = steps checked_add (sends id ms) r' in
      let kept : Bool = ltb later (now + from_secs secs) && not (is_filled ms e.session.sink) in
      let cut : on_disconnect checked_add id now r ≡ (none, r') =
        unfold on_disconnect in
        ap (λ o. disconnect_found checked_add id now o r) h
        ∙ disconnect_found_lem checked_add id now e r opened resuming in
      let known : lookup_entry eq_text id r'' ≡ some e' =
        lookup-sends checked_add id ms (suspend checked_add now e) r'
          (lookup-adjust id (suspend checked_add now) e r h) in
      let can : is_resumable e' later ≡ kept =
        suspend-is_resumable checked_add now later secs ms e timeout is_open fits sane added in
      let session = Option.map (λ (x : Entry J S H V). x.session) in
      subst
        (λ (c : Option (Session J S H V) × Registry J S H V).
          (c.0 ≡ none)
          × (can_resume id later (steps checked_add (sends id ms) c.1) ≡ kept)
          × (get_session id (sweep_expired later (steps checked_add (sends id ms) c.1)).1
              ≡ (if kept then get_session id (steps checked_add (sends id ms) c.1) else none)))
        (sym cut)
        (
          refl,
          can_resume_lem id later e' r'' known ∙ can,
          unfold get_session in
              (ap session (sweep_expired_lem id later r'' ∙ ap (survivor later) known)
                ∙ kept_or_gone kept later e'
                    (suspend-is_expired checked_add now later ms e ∙ ap not can)
                ∙ ap (λ o. if kept then o else none) (sym (ap session known))),
        )

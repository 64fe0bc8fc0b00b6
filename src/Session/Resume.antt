-- ===== src/Session/Resume.antt =====
-- Who gets a session that was cut off.
use lavalink_rs.Event.{EmittedEvent}
use lavalink_rs.PlayerModel.{PlayerState}
use lavalink_rs.Outcome.{ok, Outcome}
use lavalink_rs.Session.Keys.{lookup-adjust}
use lavalink_rs.Prelude.Assoc.{lookup_entry, adjust_entry}
use lavalink_rs.Sink.{
  essential_capacity, Inner, SendError, Message, is_overflowing, resume_with_first, ready,
}
use lavalink_rs.Session.Registry.{
  eq_text, claimed, Registry, resumable_now, is_before_deadline, Entry, is_resumable, claim_found,
  claim_for_resume, claim_entry, can_resume,
}
use lavalink_rs.Unicode.{Text}
use lavalink_rs.Session.{open_state, Session}
use lavalink_rs.Prelude.{
  ℕ, ◌≡◌, refl, sym, ap, ◌∙◌, true, false, Option, none, some, ◌∷◌, arith, leb, length, if_ind,
}

resume_lem :
    {J S : Type 0} (m : Message PlayerState S (EmittedEvent J))
    (s : Inner PlayerState S (EmittedEvent J))
    → s.closed ≡ false
    → is_overflowing s ≡ false
    → resume_with_first m s ≡ (ok tt, record s { essential = m ∷ s.essential; paused = false })
unfolding resume_with_first is_overflowing
resume_lem {J = J} {S = S} m s opened room =
    let target : Outcome SendError (Unit {0}) × Inner PlayerState S (EmittedEvent J) =
      (ok tt, record s { essential = m ∷ s.essential; paused = false }) in
    if_ind (λ p. p ≡ target) s.closed _ _ (λ shut. absurd (cc))
      (λ _.
        if_ind (λ p. p ≡ target) (leb essential_capacity (length s.essential)) _ _
          (λ full. absurd (cc)) (λ _. refl))

module _ {J S H V : Type 0} where
  -- A session with its reconnect announced in front of what it has queued, and its queue running.
  abbrev pub revived : Session J S H V → Session J S H V
  revived s = record s {
    sink = record s.sink { essential = ready true s.id ∷ s.sink.essential; paused = false };
  }

  pub can_resume_lem :
      (id : Text) (now : ℕ) (e : Entry J S H V) (r : Registry J S H V)
      → lookup_entry eq_text id r ≡ some e
      → can_resume id now r ≡ is_resumable e now
  unfolding can_resume resumable_now
  can_resume_lem id now e r h = simp h refl

  pub resumable_has_room :
      (e : Entry J S H V) (now : ℕ)
      → is_resumable e now ≡ true
      → is_overflowing e.session.sink ≡ false
  unfolding is_resumable
  resumable_has_room e now h = ground arith

  pub claim_entry_lem :
      (e : Entry J S H V)
      → e.session.sink.closed ≡ false
      → is_overflowing e.session.sink ≡ false
      → claim_entry e
        ≡ (some (revived e.session), record { session = revived e.session; state = open_state })
  unfolding claim_entry claimed
  claim_entry_lem e opened room =
      ap
        (λ (p : Outcome SendError (Unit {0}) × Inner PlayerState S (EmittedEvent J)).
          claimed p.0 (record e.session { sink = p.1 }) e)
        (resume_lem (ready true e.session.id) e.session.sink opened room)

  claim_found_lem :
      (id : Text) (now : ℕ) (e : Entry J S H V) (r : Registry J S H V)
      → e.session.sink.closed ≡ false
      → is_resumable e now ≡ true
      → claim_found id now (some e) r ≡ (
        some (revived e.session),
        adjust_entry eq_text id (λ _. record { session = revived e.session; state = open_state }) r,
      )
  unfolding claim_found
  claim_found_lem id now e r opened h = simp h (
      ap
        (λ (c : Option (Session J S H V) × Entry J S H V).
          (c.0, adjust_entry eq_text id (λ _. c.1) r))
        (claim_entry_lem e opened (resumable_has_room e now h)))

  -- An open session is not there to be claimed.
  claim_open :
      (id : Text) (now : ℕ) (s : Session J S H V) (r : Registry J S H V)
      → lookup_entry eq_text id r ≡ some (record { session = s; state = open_state })
      → claim_for_resume id now r ≡ (none, r)
  unfolding claim_for_resume claim_found is_resumable is_before_deadline
  claim_open id now s r h = simp h refl

  -- A session that can be resumed, and whose queue is not closed: the claim gets it, with the
  -- reconnect announced in front of everything that was queued for the client meanwhile and nothing
  -- of that lost; it is open from then on, and every later claim gets nothing and changes nothing.
  pub claim_for_resume_once :
      (id : Text) (now later : ℕ) (e : Entry J S H V) (r : Registry J S H V)
      → lookup_entry eq_text id r ≡ some e
      → e.session.sink.closed ≡ false
      → can_resume id now r ≡ true
      → let (claim, r') = claim_for_resume id now r in
        (claim ≡ some (revived e.session))
        × (lookup_entry eq_text id r'
            ≡ some (record { session = revived e.session; state = open_state }))
        × (claim_for_resume id later r' ≡ (none, r'))
  unfolding claim_for_resume
  claim_for_resume_once id now later e r h opened can =
      let claim : claim_for_resume id now r ≡ (
        some (revived e.session),
        adjust_entry eq_text id (λ _. record { session = revived e.session; state = open_state }) r,
      ) =
        ap (λ o. claim_found id now o r) h
        ∙ claim_found_lem id now e r opened (sym (can_resume_lem id now e r h) ∙ can) in
      let known : lookup_entry eq_text id (claim_for_resume id now r).1
          ≡ some (record { session = revived e.session; state = open_state }) =
        ap (λ (c : Option (Session J S H V) × Registry J S H V). lookup_entry eq_text id c.1) claim
        ∙ lookup-adjust id (λ _. record { session = revived e.session; state = open_state }) e r
            h in
      (
        ap (λ (c : Option (Session J S H V) × Registry J S H V). c.0) claim,
        known,
        claim_open id later (revived e.session) (claim_for_resume id now r).1 known,
      )

-- ===== src/Session/Invariant.antt =====
-- What holds of the registry at any time.
use lavalink_rs.Session.Sweep.{some_inj}
use lavalink_rs.Sink.{try_recv}
use lavalink_rs.Prelude.Assoc.{lookup_entry, delete_entry, adjust_entry}
use lavalink_rs.Unicode.{Text}
use lavalink_rs.Session.Lifecycle.{
  call_recv, step_call, call_remove, step_destroy, call_create, step_sweep, call_timeout,
  try_recv-IsSink, step_remove_expired, call_resuming, step_disconnect, send_first-IsSink,
  step_claim, send-IsSink, call_send_first, step_open, call_send, Call, IsSink, Step,
}
use lavalink_rs.Session.{
  or_insert_with, GuildPlayer, remove_player, get_or_create_player, set_resume_timeout_secs,
  set_resuming, session_send_first, session_send, Session,
}
use lavalink_rs.Session.Registry.{
  destroy_session, sweep_expired, remove_expired, is_open, on_disconnect, eq_text, claim_for_resume,
  Entry, open_session, Registry,
}
use lavalink_rs.Prelude.{
  ℕ, ◌≡◌, refl, sym, subst, inl, inr, Bool, not, Option, none, some, List, [], ◌∷◌, Bool-cases, All,
  if_ind,
}
use lavalink_rs.Session.Keys.{eq_text-IsTest}

module _ {J S H V : Type 0} where
  unfoldable pub call_session : Call J S H V → Session J S H V → Session J S H V
  unfolding session_send session_send_first set_resuming set_resume_timeout_secs
      get_or_create_player remove_player
  call_session (call_send m) s = (session_send m s).1
  call_session (call_send_first m) s = (session_send_first m s).1
  call_session call_recv s = record s { sink = (try_recv s.sink).1 }
  call_session (call_resuming resuming) s = set_resuming resuming s
  call_session (call_timeout seconds) s = set_resume_timeout_secs seconds s
  call_session (call_create guild_id built) s = (get_or_create_player guild_id built s).1
  call_session (call_remove guild_id) s = (remove_player guild_id s).1

  abbrev pub opened_registry :
      Option (Session J S H V × Registry J S H V) → Registry J S H V → Registry J S H V
  opened_registry none r = r
  opened_registry (some (s, r')) r = r'

  unfoldable pub step : (ℕ → ℕ → Option ℕ) → Step J S H V → Registry J S H V → Registry J S H V
  unfolding open_session claim_for_resume on_disconnect remove_expired sweep_expired destroy_session
      call_session
  step checked_add (step_open ids user_id name) r =
      opened_registry (open_session ids user_id name r) r
  step checked_add (step_claim id now) r = (claim_for_resume id now r).1
  step checked_add (step_disconnect id now) r = (on_disconnect checked_add id now r).1
  step checked_add (step_remove_expired ids now) r = (remove_expired ids now r).1
  step checked_add (step_sweep now) r = (sweep_expired now r).1
  step checked_add (step_destroy id) r = (destroy_session id r).1
  step checked_add (step_call id c) r =
      adjust_entry eq_text id
        (λ (e : Entry J S H V). record e { session = call_session c e.session }) r

  unfoldable pub steps :
      (ℕ → ℕ → Option ℕ) → List (Step J S H V) → Registry J S H V → Registry J S H V
  steps checked_add [] r = r
  steps checked_add (x ∷ xs) r = steps checked_add xs (step checked_add x r)

  -- A session stands under its own id, its queue is open, and it is held back exactly while the
  -- session waits for its client; a queue that is held back keeps no snapshots.
  pub record IsEntry (e : Text × Entry J S H V) : Type 0 where
    pub named : e.1.session.id ≡ e.0
    pub queue : IsSink (not (is_open e.1.state)) e.1.session.sink

  abbrev pub IsRegistry : Registry J S H V → Type 0
  IsRegistry r = All IsEntry r

  pub IsRegistry-delete :
      (id : Text) (r : Registry J S H V) → IsRegistry r → IsRegistry (delete_entry eq_text id r)
  unfolding delete_entry
  IsRegistry-delete id [] h = h
  IsRegistry-delete id (e ∷ es) h =
      if_ind IsRegistry (eq_text id e.0) (delete_entry eq_text id es)
        (e ∷ delete_entry eq_text id es) (λ _. IsRegistry-delete id es h.1)
        (λ _. (h.0, IsRegistry-delete id es h.1))

  pub IsRegistry-adjust :
      (id : Text) (f : Entry J S H V → Entry J S H V) (r : Registry J S H V)
      → ((e : Entry J S H V) → IsEntry (id, e) → IsEntry (id, f e))
      → IsRegistry r
      → IsRegistry (adjust_entry eq_text id f r)
  unfolding adjust_entry
  IsRegistry-adjust id f [] kept h = h
  IsRegistry-adjust id f (e ∷ es) kept h =
      if_ind IsRegistry (eq_text id e.0) ((e.0, f e.1) ∷ es) (e ∷ adjust_entry eq_text id f es)
        (λ here. (
          subst (λ k. IsEntry (k, f e.1)) (eq_text-IsTest.sound id e.0 here)
              (kept e.1
                (subst (λ k. IsEntry (k, e.1)) (sym (eq_text-IsTest.sound id e.0 here)) h.0)),
          h.1,
        ))
        (λ _. (h.0, IsRegistry-adjust id f es kept h.1))

  pub IsEntry-lookup :
      (id : Text) (e : Entry J S H V) (r : Registry J S H V)
      → IsRegistry r
      → lookup_entry eq_text id r ≡ some e
      → IsEntry (id, e)
  unfolding lookup_entry
  IsEntry-lookup id e [] h eq = absurd (cc)
  IsEntry-lookup id e (x ∷ xs) h eq = elim (Bool-cases (eq_text id x.0)) [
    | inl here ↦
        subst (λ k. IsEntry (k, e)) (sym (eq_text-IsTest.sound id x.0 here))
          (subst (λ y. IsEntry (x.0, y)) (some_inj (simp here at eq)) h.0)
    | inr differ ↦ IsEntry-lookup id e xs h.1 (simp differ at eq)
  ]

  insert-same :
      (guild_id : ℕ) (built : GuildPlayer H V) (o : Option (GuildPlayer H V)) (s : Session J S H V)
      → ((or_insert_with guild_id built o s).1.sink ≡ s.sink)
        × ((or_insert_with guild_id built o s).1.id ≡ s.id)
  unfolding or_insert_with
  insert-same guild_id built (some g) s = (refl, refl)
  insert-same guild_id built none s = (refl, refl)

  create-same :
      (guild_id : ℕ) (built : GuildPlayer H V) (s : Session J S H V)
      → ((get_or_create_player guild_id built s).1.sink ≡ s.sink)
        × ((get_or_create_player guild_id built s).1.id ≡ s.id)
  unfolding get_or_create_player
  create-same guild_id built s =
      if_ind
        (λ (r : Option (GuildPlayer H V) × Session J S H V). (r.1.sink ≡ s.sink) × (r.1.id ≡ s.id))
        (not s.alive) _ _ (λ _. (refl, refl)) (λ _. insert-same guild_id built _ s)

  pub call-id : (c : Call J S H V) (s : Session J S H V) → (call_session c s).id ≡ s.id
  unfolding call_session session_send session_send_first set_resuming set_resume_timeout_secs
      remove_player
  call-id (call_send m) s = refl
  call-id (call_send_first m) s = refl
  call-id call_recv s = refl
  call-id (call_resuming resuming) s = refl
  call-id (call_timeout seconds) s = refl
  call-id (call_create guild_id built) s = (create-same guild_id built s).1
  call-id (call_remove guild_id) s = refl

  pub call-IsSink :
      (p : Bool) (c : Call J S H V) (s : Session J S H V)
      → IsSink p s.sink
      → IsSink p (call_session c s).sink
  unfolding call_session session_send session_send_first set_resuming set_resume_timeout_secs
      remove_player
  call-IsSink p (call_send m) s h = send-IsSink p m s.sink h
  call-IsSink p (call_send_first m) s h = send_first-IsSink p m s.sink h
  call-IsSink p call_recv s h = try_recv-IsSink p s.sink h
  call-IsSink p (call_resuming resuming) s h = h
  call-IsSink p (call_timeout seconds) s h = h
  call-IsSink p (call_create guild_id built) s h =
      subst (IsSink p) (sym (create-same guild_id built s).0) h
  call-IsSink p (call_remove guild_id) s h = h

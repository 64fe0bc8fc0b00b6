-- ===== src/Session/Reachable.antt =====
-- The registry from its creation on.
use lavalink_rs.PlayerModel.{is_some}
use lavalink_rs.Session.Invariant.{
  call-IsSink, call-id, call_session, IsEntry-lookup, opened_registry, IsRegistry-delete,
  IsRegistry-adjust, steps, step, IsRegistry, IsEntry,
}
use lavalink_rs.Session.Resume.{resumable_has_room, claim_entry_lem}
use lavalink_rs.Prelude.Assoc.{insert_entry, lookup_entry}
use lavalink_rs.Unicode.{Text}
use lavalink_rs.Session.Lifecycle.{
  pause-IsSink, step_call, step_destroy, step_sweep, step_remove_expired, step_disconnect,
  step_claim, step_open, Step,
}
use lavalink_rs.Session.{open_state, new_session, Session}
use lavalink_rs.Session.Registry.{
  resumable_now, can_resume, fresh_id, claim_entry, is_resumable, is_expired, suspend,
  remove_if_still_expired, remove_found, expired_ids, disconnect_found, claim_found,
  destroy_session, sweep_expired, remove_expired, is_open, on_disconnect, eq_text, claim_for_resume,
  Entry, open_session, Registry,
}
use lavalink_rs.Prelude.{
  ap, true, false, ℕ, ◌≡◌, refl, sym, ◌∙◌, subst, Bool, not, Option, none, some, List, [], ◌∷◌,
  arith, if_ind,
}
use mathlib.Core.Option

not-true : (b : Bool) → not b ≡ true → b ≡ false
not-true true e = cc
not-true false e = refl

not-false : (b : Bool) → not b ≡ false → b ≡ true
not-false true e = refl
not-false false e = cc

module _ {J S H V : Type 0} where
  claim-IsRegistry :
      (id : Text) (now : ℕ) (r : Registry J S H V)
      → IsRegistry r
      → IsRegistry (claim_for_resume id now r).1
  unfolding claim_for_resume
  claim-IsRegistry id now r h = found (lookup_entry eq_text id r) refl
    where
      found :
          (o : Option (Entry J S H V))
          → lookup_entry eq_text id r ≡ o
          → IsRegistry (claim_found id now o r).1
      found none e = unfold claim_found in h
      found (some x) e =
          unfold claim_found in
          if_ind (λ (c : Option (Session J S H V) × Registry J S H V). IsRegistry c.1)
            (not (is_resumable x now)) _ _ (λ _. h)
            (λ can.
              IsRegistry-adjust id (λ _. (claim_entry x).1) r
                (λ y known.
                  let k = IsEntry-lookup id x r h e in
                  subst (λ (c : Option (Session J S H V) × Entry J S H V). IsEntry (id, c.1))
                    (sym
                      (claim_entry_lem x k.queue.opened (resumable_has_room x now (ground arith))))
                    (unfold is_open in
                      record {
                        named = k.named;
                        queue = record { opened = k.queue.opened; flag = refl; quiet = refl };
                      }))
                h)

  suspend-IsEntry :
      (checked_add : ℕ → ℕ → Option ℕ) (id : Text) (now : ℕ) (e : Entry J S H V)
      → IsEntry (id, e)
      → IsEntry (id, suspend checked_add now e)
  unfolding suspend is_open
  suspend-IsEntry checked_add id now e k = record {
    named = k.named;
    queue = pause-IsSink _ e.session.sink k.queue;
  }

  disconnect-IsRegistry :
      (checked_add : ℕ → ℕ → Option ℕ) (id : Text) (now : ℕ) (r : Registry J S H V)
      → IsRegistry r
      → IsRegistry (on_disconnect checked_add id now r).1
  unfolding on_disconnect
  disconnect-IsRegistry checked_add id now r h = found (lookup_entry eq_text id r)
    where
      kept : Option (Session J S H V) × Registry J S H V → Type 0
      kept c = IsRegistry c.1

      found : (o : Option (Entry J S H V)) → IsRegistry (disconnect_found checked_add id now o r).1
      found none = unfold disconnect_found in h
      found (some x) =
          unfold disconnect_found in
          if_ind kept (not (is_open x.state)) _ _ (λ _. h)
            (λ _.
              if_ind kept x.session.resuming _ _
                (λ _.
                  IsRegistry-adjust id (suspend checked_add now) r
                    (suspend-IsEntry checked_add id now) h)
                (λ _. IsRegistry-delete id r h))

  remove-IsRegistry :
      (id : Text) (now : ℕ) (o : Option (Entry J S H V)) (r : Registry J S H V)
      → IsRegistry r
      → IsRegistry (remove_found id now o r).1
  unfolding remove_found
  remove-IsRegistry id now none r h = h
  remove-IsRegistry id now (some x) r h =
      if_ind (λ (c : Option (Session J S H V) × Registry J S H V). IsRegistry c.1)
        (is_expired x now) _ _ (λ _. IsRegistry-delete id r h) (λ _. h)

  remove_expired-IsRegistry :
      (ids : List Text) (now : ℕ) (r : Registry J S H V)
      → IsRegistry r
      → IsRegistry (remove_expired ids now r).1
  unfolding remove_expired remove_if_still_expired
  remove_expired-IsRegistry [] now r h = h
  remove_expired-IsRegistry (id ∷ ids) now r h =
      remove_expired-IsRegistry ids now _ (remove-IsRegistry id now (lookup_entry eq_text id r) r h)

  open-IsRegistry :
      (ids : List Text) (user_id : ℕ) (name : Option Text) (r : Registry J S H V)
      → IsRegistry r
      → IsRegistry (opened_registry (open_session ids user_id name r) r)
  unfolding open_session new_session insert_entry
  open-IsRegistry ids user_id name r h = found (fresh_id ids r)
    where
      add : Text → Session J S H V × Registry J S H V
      add id =
          let session = new_session id user_id name in
          (session, insert_entry eq_text id (record { session = session; state = open_state }) r)

      found : (o : Option Text) → IsRegistry (opened_registry (Option.map add o) r)
      found none = h
      found (some id) = (
        unfold is_open in
            record { named = refl; queue = record { opened = refl; flag = refl; quiet = refl } },
        IsRegistry-delete id r h,
      )

  step-IsRegistry :
      (checked_add : ℕ → ℕ → Option ℕ) (x : Step J S H V) (r : Registry J S H V)
      → IsRegistry r
      → IsRegistry (step checked_add x r)
  unfolding step
  step-IsRegistry checked_add (step_open ids user_id name) r h =
      open-IsRegistry ids user_id name r h
  step-IsRegistry checked_add (step_claim id now) r h = claim-IsRegistry id now r h
  step-IsRegistry checked_add (step_disconnect id now) r h =
      disconnect-IsRegistry checked_add id now r h
  step-IsRegistry checked_add (step_remove_expired ids now) r h =
      remove_expired-IsRegistry ids now r h
  step-IsRegistry checked_add (step_sweep now) r h =
      unfold sweep_expired in remove_expired-IsRegistry (expired_ids now r) now r h
  step-IsRegistry checked_add (step_destroy id) r h =
      unfold destroy_session in IsRegistry-delete id r h
  step-IsRegistry checked_add (step_call id c) r h =
      IsRegistry-adjust id (λ (e : Entry J S H V). record e { session = call_session c e.session })
        r
        (λ e k. record {
          named = call-id c e.session ∙ k.named;
          queue = call-IsSink _ c e.session k.queue;
        })
        h

  steps_keep :
      (checked_add : ℕ → ℕ → Option ℕ) (xs : List (Step J S H V)) (r : Registry J S H V)
      → IsRegistry r
      → IsRegistry (steps checked_add xs r)
  unfolding steps
  steps_keep checked_add [] r h = h
  steps_keep checked_add (x ∷ xs) r h =
      steps_keep checked_add xs (step checked_add x r) (step-IsRegistry checked_add x r h)

  -- From an empty registry, through any openings, claims, disconnects, sweeps that other tasks may
  -- interrupt, destructions and calls on the sessions: every session stands under its own id, its
  -- queue is open, and it is held back exactly while the session waits for its client, with no
  -- snapshots in it then. `checked_add` is that of `Instant`.
  pub steps-IsRegistry :
      (checked_add : ℕ → ℕ → Option ℕ) (xs : List (Step J S H V))
      → IsRegistry (steps checked_add xs [])
  steps-IsRegistry checked_add xs = steps_keep checked_add xs [] tt

  -- At any such time, a client that is told that its session can be resumed gets it if its claim
  -- comes at that time, and a client that is told that it cannot gets nothing.
  pub steps-can_resume :
      (checked_add : ℕ → ℕ → Option ℕ) (xs : List (Step J S H V)) (id : Text) (now : ℕ)
      → let r = steps checked_add xs [] in
        is_some (claim_for_resume id now r).0 ≡ can_resume id now r
  unfolding claim_for_resume can_resume
  steps-can_resume checked_add xs id now =
      found (lookup_entry eq_text id (steps checked_add xs [])) refl
    where
      r : Registry J S H V
      r = steps checked_add xs []

      found :
          (o : Option (Entry J S H V))
          → lookup_entry eq_text id r ≡ o
          → is_some (claim_found id now o r).0 ≡ resumable_now o now
      found none e = unfold claim_found resumable_now in refl
      found (some x) e =
          unfold claim_found resumable_now in
          let k = IsEntry-lookup id x r (steps-IsRegistry checked_add xs) e in
          if_ind
            (λ (c : Option (Session J S H V) × Registry J S H V). is_some c.0 ≡ is_resumable x now)
            (not (is_resumable x now)) _ _ (λ cannot. sym (not-true (is_resumable x now) cannot))
            (λ can.
              ap (λ (c : Option (Session J S H V) × Entry J S H V). is_some c.0)
                (claim_entry_lem x k.queue.opened
                  (resumable_has_room x now (not-false (is_resumable x now) can)))
              ∙ sym (not-false (is_resumable x now) can))

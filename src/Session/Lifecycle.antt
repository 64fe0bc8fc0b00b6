-- ===== src/Session/Lifecycle.antt =====
-- The sessions through anything that connections, requests and the sweeper do.
use lavalink_rs.Session.{GuildPlayer}
use lavalink_rs.Event.{EmittedEvent}
use lavalink_rs.PlayerModel.{PlayerState}
use lavalink_rs.Outcome.{Outcome}
use lavalink_rs.Unicode.{Text}
use lavalink_rs.Sink.{
  essential_capacity, coalesce_key, SendError, SnapshotKey, try_recv, send_first, send, pop, pause,
  Message, Inner,
}
use lavalink_rs.Prelude.{
  ℕ, ◌≡◌, refl, inl, inr, Bool, true, false, not, ◌||◌, Option, List, [], ◌∷◌, arith, leb,
  Option-cases, length, if_ind,
}
use lavalink_rs.Prelude.Int.{ℤ}

-- What the holder of a session does with it.
pub data Call (J S H V : Type 0) : Type 0 where
  call_send : Message PlayerState S (EmittedEvent J) → Call J S H V
  call_send_first : Message PlayerState S (EmittedEvent J) → Call J S H V
  call_recv : Call J S H V
  call_resuming : Bool → Call J S H V
  call_timeout : ℤ → Call J S H V
  call_create : ℕ → GuildPlayer H V → Call J S H V
  call_remove : ℕ → Call J S H V

-- What is done with the registry.
pub data Step (J S H V : Type 0) : Type 0 where
  step_open : List Text → ℕ → Option Text → Step J S H V
  step_claim : Text → ℕ → Step J S H V
  step_disconnect : Text → ℕ → Step J S H V
  step_remove_expired : List Text → ℕ → Step J S H V
  step_sweep : ℕ → Step J S H V
  step_destroy : Text → Step J S H V
  step_call : Text → Call J S H V → Step J S H V

abbrev pub is_empty : {A : Type 0} → List A → Bool
is_empty [] = true
is_empty (x ∷ xs) = false

-- An open sink that is paused or not, and keeps no snapshots while it is.
pub record IsSink {M S E : Type 0} (paused : Bool) (s : Inner M S E) : Type 0 where
  pub opened : s.closed ≡ false
  pub flag : s.paused ≡ paused
  pub quiet : not s.paused || is_empty s.snapshots ≡ true

module _ {M S E : Type 0} where
  pub send-IsSink :
      (p : Bool) (m : Message M S E) (s : Inner M S E) → IsSink p s → IsSink p (send m s).1
  unfolding send
  send-IsSink p m s h =
      let same = λ (r : Outcome SendError (Unit {0}) × Inner M S E). IsSink p r.1 in
      if_ind same s.closed _ _ (λ _. h)
        (λ _. elim (Option-cases (coalesce_key m)) [
          | inl e ↦ simp e (
              if_ind same (leb essential_capacity (length s.essential)) _ _ (λ _. h)
                (λ _. record { opened = h.opened; flag = h.flag; quiet = h.quiet }))
          | inr (key, e) ↦ simp e (
              if_ind same s.paused _ _ (λ _. h)
                (λ runs. record { opened = h.opened; flag = h.flag; quiet = simp runs refl }))
        ])

  pub send_first-IsSink :
      (p : Bool) (m : Message M S E) (s : Inner M S E) → IsSink p s → IsSink p (send_first m s).1
  unfolding send_first
  send_first-IsSink p m s h =
      let same = λ (r : Outcome SendError (Unit {0}) × Inner M S E). IsSink p r.1 in
      if_ind same s.closed _ _ (λ _. h)
        (λ _.
          if_ind same (leb essential_capacity (length s.essential)) _ _ (λ _. h)
            (λ _. record { opened = h.opened; flag = h.flag; quiet = h.quiet }))

  pop-IsSink :
      (p : Bool) (s : Inner M S E) (ms : List (Message M S E))
      (es : List (SnapshotKey × Message M S E))
      → s.paused ≡ false
      → IsSink p s
      → IsSink p (pop s ms es).1
  unfolding pop
  pop-IsSink p s (m ∷ ms) es runs h = record { opened = h.opened; flag = h.flag; quiet = h.quiet }
  pop-IsSink p s [] (e ∷ es) runs h = record {
    opened = h.opened;
    flag = h.flag;
    quiet = simp runs refl;
  }
  pop-IsSink p s [] [] runs h = h

  pub try_recv-IsSink : (p : Bool) (s : Inner M S E) → IsSink p s → IsSink p (try_recv s).1
  unfolding try_recv
  try_recv-IsSink p s h =
      if_ind (λ (r : Option (Message M S E) × Inner M S E). IsSink p r.1) (s.paused || s.closed) _ _
        (λ _. h) (λ runs. pop-IsSink p s s.essential s.snapshots (ground arith) h)

  pub pause-IsSink : (p : Bool) (s : Inner M S E) → IsSink p s → IsSink true (pause s)
  unfolding pause
  pause-IsSink p s h = record { opened = h.opened; flag = refl; quiet = refl }

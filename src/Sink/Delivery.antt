-- ===== src/Sink/Delivery.antt =====
-- Messages sent one after the other on a sink that nobody reads.
use lavalink_rs.Outcome.{Outcome}
use lavalink_rs.Event.{EmittedEvent}
use lavalink_rs.PlayerModel.{PlayerState}
use lavalink_rs.Sink.{
  SendError, coalesce_key, SnapshotKey, event, stats, send, player_update, ready, Inner,
  essential_capacity, Message,
}
use lavalink_rs.Prelude.{
  Bool, true, false, refl, append-nil, take_of_le, some, none, ◌≤◌, ◌≡◌, sym, ap, ◌∙◌, subst, List,
  [], ◌∷◌, ◌++◌, append_assoc, arith, leb, if◌then◌else◌, length, take, length-append, take-append,
  if_ind,
}

take_full :
    {A : Type 0} (xs ys : List A)
    → length xs ≡ essential_capacity
    → take essential_capacity (xs ++ ys) ≡ xs
take_full xs ys full = subst (λ n. take n (xs ++ ys) ≡ xs) full (take-append xs ys)

if-snd : {A B : Type 0} (b : Bool) (x y : A × B) → (if b then x else y).1 ≡ (if b then x.1 else y.1)
if-snd true x y = refl
if-snd false x y = refl

module _ {JsonObject StatsEvent : Type 0} where
  -- Messages that are sent one after the other, also when one is refused.
  unfoldable pub deliver :
      List (Message PlayerState StatsEvent (EmittedEvent JsonObject))
      → Inner PlayerState StatsEvent (EmittedEvent JsonObject)
      → Inner PlayerState StatsEvent (EmittedEvent JsonObject)
  deliver [] s = s
  deliver (m ∷ ms) s = deliver ms (send m s).1

  abbrev pub essentials :
      List (Message PlayerState StatsEvent (EmittedEvent JsonObject))
      → List (Message PlayerState StatsEvent (EmittedEvent JsonObject))
  essentials [] = []
  essentials (ready resumed id ∷ ms) = ready resumed id ∷ essentials ms
  essentials (player_update state guild ∷ ms) = essentials ms
  essentials (stats s ∷ ms) = essentials ms
  essentials (event e ∷ ms) = event e ∷ essentials ms

  -- The lane after sends that were all accepted as long as there was room.
  abbrev Kept :
      List (Message PlayerState StatsEvent (EmittedEvent JsonObject))
      → Inner PlayerState StatsEvent (EmittedEvent JsonObject)
      → Type 0
  Kept ms s =
      s.closed ≡ false
      → length s.essential ≤ essential_capacity
      → (deliver ms s).essential ≡ take essential_capacity (s.essential ++ essentials ms)

  queue-Kept :
      (m : Message PlayerState StatsEvent (EmittedEvent JsonObject))
      (ms : List (Message PlayerState StatsEvent (EmittedEvent JsonObject)))
      (s : Inner PlayerState StatsEvent (EmittedEvent JsonObject))
      → ((t : Inner PlayerState StatsEvent (EmittedEvent JsonObject)) → Kept ms t)
      → s.closed ≡ false
      → length s.essential ≤ essential_capacity
      → (deliver ms (
          if leb essential_capacity (length s.essential)
          then s
          else record s { essential = s.essential ++ (m ∷ []) })).essential
        ≡ take essential_capacity (s.essential ++ m ∷ essentials ms)
  queue-Kept m ms s ih opened fits =
      if_ind
        (λ (t : Inner PlayerState StatsEvent (EmittedEvent JsonObject)).
          (deliver ms t).essential ≡ take essential_capacity (s.essential ++ m ∷ essentials ms))
        (leb essential_capacity (length s.essential)) _ _
        (λ full.
          ih s opened fits
          ∙ take_full s.essential (essentials ms) (ground (arith, full, fits))
          ∙ sym (take_full s.essential (m ∷ essentials ms) (ground (arith, full, fits))))
        (λ room.
          ih (record s { essential = s.essential ++ (m ∷ []) }) opened
            (ground (arith, room, length-append s.essential (m ∷ [])))
          ∙ ap (take essential_capacity) (append_assoc s.essential (m ∷ []) (essentials ms)))

  send_essential :
      (m : Message PlayerState StatsEvent (EmittedEvent JsonObject))
      (s : Inner PlayerState StatsEvent (EmittedEvent JsonObject))
      → s.closed ≡ false
      → coalesce_key m ≡ none
      → (send m s).1 ≡ (
          if leb essential_capacity (length s.essential)
          then s
          else record s { essential = s.essential ++ (m ∷ []) })
  unfolding send
  send_essential m s opened e =
      if_ind
        (λ (r : Outcome SendError (Unit {0})
            × Inner PlayerState StatsEvent (EmittedEvent JsonObject)).
          r.1 ≡ (
            if leb essential_capacity (length s.essential)
            then s
            else record s { essential = s.essential ++ (m ∷ []) }))
        s.closed _ _ (λ shut. absurd (cc))
        (λ _. simp e (if-snd (leb essential_capacity (length s.essential)) _ _))

  snapshot_sent :
      (m : Message PlayerState StatsEvent (EmittedEvent JsonObject)) (key : SnapshotKey)
      (s : Inner PlayerState StatsEvent (EmittedEvent JsonObject))
      → s.closed ≡ false
      → coalesce_key m ≡ some key
      → ((send m s).1.closed ≡ false) × ((send m s).1.essential ≡ s.essential)
  unfolding send
  snapshot_sent m key s opened e =
      let same =
        λ (r : Outcome SendError (Unit {0})
            × Inner PlayerState StatsEvent (EmittedEvent JsonObject)).
          (r.1.closed ≡ false) × (r.1.essential ≡ s.essential) in
      if_ind same s.closed _ _ (λ _. (opened, refl))
        (λ _. simp e (if_ind same s.paused _ _ (λ _. (opened, refl)) (λ _. (opened, refl))))

  skip-Kept :
      (m : Message PlayerState StatsEvent (EmittedEvent JsonObject)) (key : SnapshotKey)
      (ms : List (Message PlayerState StatsEvent (EmittedEvent JsonObject)))
      (s : Inner PlayerState StatsEvent (EmittedEvent JsonObject))
      → ((t : Inner PlayerState StatsEvent (EmittedEvent JsonObject)) → Kept ms t)
      → s.closed ≡ false
      → length s.essential ≤ essential_capacity
      → coalesce_key m ≡ some key
      → (deliver ms (send m s).1).essential ≡ take essential_capacity (s.essential ++ essentials ms)
  skip-Kept m key ms s ih opened fits e =
      let (opened', same) = snapshot_sent m key s opened e in
      ih (send m s).1 opened' (subst (λ l. length l ≤ essential_capacity) (sym same) fits)
      ∙ ap (λ l. take essential_capacity (l ++ essentials ms)) same

  keep-Kept :
      (m : Message PlayerState StatsEvent (EmittedEvent JsonObject))
      (ms : List (Message PlayerState StatsEvent (EmittedEvent JsonObject)))
      (s : Inner PlayerState StatsEvent (EmittedEvent JsonObject))
      → ((t : Inner PlayerState StatsEvent (EmittedEvent JsonObject)) → Kept ms t)
      → s.closed ≡ false
      → length s.essential ≤ essential_capacity
      → coalesce_key m ≡ none
      → (deliver ms (send m s).1).essential
        ≡ take essential_capacity (s.essential ++ m ∷ essentials ms)
  keep-Kept m ms s ih opened fits e =
      ap (λ (t : Inner PlayerState StatsEvent (EmittedEvent JsonObject)). (deliver ms t).essential)
        (send_essential m s opened e)
      ∙ queue-Kept m ms s ih opened fits

  pub deliver-Kept :
      (ms : List (Message PlayerState StatsEvent (EmittedEvent JsonObject)))
      (s : Inner PlayerState StatsEvent (EmittedEvent JsonObject))
      → Kept ms s
  unfolding deliver coalesce_key
  deliver-Kept [] s opened fits = sym (
      take_of_le essential_capacity (s.essential ++ [])
        (subst (λ l. length l ≤ essential_capacity) (sym (append-nil s.essential)) fits)
      ∙ append-nil s.essential)
  deliver-Kept (ready resumed id ∷ ms) s opened fits =
      keep-Kept (ready resumed id) ms s (deliver-Kept ms) opened fits refl
  deliver-Kept (player_update state guild ∷ ms) s opened fits =
      skip-Kept (player_update state guild) _ ms s (deliver-Kept ms) opened fits refl
  deliver-Kept (stats t ∷ ms) s opened fits =
      skip-Kept (stats t) _ ms s (deliver-Kept ms) opened fits refl
  deliver-Kept (event e ∷ ms) s opened fits =
      keep-Kept (event e) ms s (deliver-Kept ms) opened fits refl

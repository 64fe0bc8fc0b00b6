-- ===== src/Sink/Queue.antt =====
-- The essential lane: first in, first out, bounded, and apart from the snapshots.
use lavalink_rs.Prelude.{
  if_ind, ◌≤◌, ◌≡◌, refl, sym, ap, ◌∙◌, Bool, true, false, ◌||◌, Option, none, some, List, [], ◌∷◌,
  ◌++◌, append-nil, append_assoc, arith, leb, if◌then◌else◌, length, All, length-append, All-append,
}
use lavalink_rs.Ring.Read.{}
use lavalink_rs.Outcome.{stuck, ok, err, Outcome}
use lavalink_rs.Sink.{
  resume, try_recv, pop, pause, event, stats_key, stats, player_update_key, player_update, overflow,
  ready, essential_capacity, compare_key, closed_error, SendError, send, insert, coalesce_key,
  SnapshotKey, Message, Inner,
}
use Prim.Native.Nat.{Ordering}

module _ {PlayerState StatsEvent EmittedEvent : Type 0} where
  unfoldable pub is_essential : Message PlayerState StatsEvent EmittedEvent → Bool
  unfolding coalesce_key
  is_essential m = is_none (coalesce_key m)
    where
      is_none : Option SnapshotKey → Bool
      is_none none = true
      is_none (some key) = false

  -- Each message is in its own lane, and the essential lane is within its capacity.
  pub record IsQueue (s : Inner PlayerState StatsEvent EmittedEvent) : Type 0 where
    pub essentials :
        All (λ (m : Message PlayerState StatsEvent EmittedEvent). is_essential m ≡ true) s.essential
    pub coalesced :
        All
          (λ (e : SnapshotKey × (Message PlayerState StatsEvent EmittedEvent)).
            is_essential (e.1) ≡ false)
          s.snapshots
    pub fits : length s.essential ≤ essential_capacity

  -- The essential message that `send` has accepted.
  abbrev accepted :
      Message PlayerState StatsEvent EmittedEvent
      → Outcome SendError (Unit {0})
      → List (Message PlayerState StatsEvent EmittedEvent)
  accepted m (ok u) = if is_essential m then m ∷ [] else []
  accepted m (err e) = []
  accepted m stuck = []

  Sends :
      Message PlayerState StatsEvent EmittedEvent
      → Inner PlayerState StatsEvent EmittedEvent
      → Outcome SendError (Unit {0}) × Inner PlayerState StatsEvent EmittedEvent
      → Type 0
  Sends m s result = (result.1.essential ≡ s.essential ++ accepted m result.0) × IsQueue result.1

  essential_lem :
      (m : Message PlayerState StatsEvent EmittedEvent)
      (s : Inner PlayerState StatsEvent EmittedEvent)
      → is_essential m ≡ true
      → IsQueue s
      → Sends m s (
          if s.closed
          then (err closed_error, s)
          else if leb essential_capacity (length s.essential)
          then (err overflow, s)
          else (ok tt, record s { essential = s.essential ++ (m ∷ []) }))
  unfolding Sends
  essential_lem m s e q =
      if_ind (Sends m s) s.closed _ _ (λ c. (sym (append-nil s.essential), q))
        λ c.
          if_ind (Sends m s) (leb essential_capacity (length s.essential)) _ _
            (λ f. (sym (append-nil s.essential), q))
            (λ f. (
              ap (λ b. s.essential ++ (if b then m ∷ [] else [])) (sym e),
              record {
                essentials = All-append _ s.essential (m ∷ []) q.essentials (e, tt);
                coalesced = q.coalesced;
                fits = ground (arith, f, length-append s.essential (m ∷ []));
              },
            ))

  All-insert :
      (k : SnapshotKey) (m : Message PlayerState StatsEvent EmittedEvent)
      (es : List (SnapshotKey × (Message PlayerState StatsEvent EmittedEvent)))
      → is_essential m ≡ false
      → All
          (λ (e : SnapshotKey × (Message PlayerState StatsEvent EmittedEvent)).
            is_essential (e.1) ≡ false)
          es
      → All
          (λ (e : SnapshotKey × (Message PlayerState StatsEvent EmittedEvent)).
            is_essential (e.1) ≡ false)
          (insert k m es)
  unfolding insert
  All-insert k m [] h all = (h, tt)
  All-insert k m (e ∷ es) h all =
      elim (compare_key k e.0)
        as (λ o.
          All
            (λ (e : SnapshotKey × (Message PlayerState StatsEvent EmittedEvent)).
              is_essential (e.1) ≡ false)
            (elim o [
              | Ordering.lt ↦ (k, m) ∷ e ∷ es
              | Ordering.eq ↦ (k, m) ∷ es
              | Ordering.gt ↦ e ∷ insert k m es
            ])) [
              | Ordering.lt ↦ (h, all)
              | Ordering.eq ↦ (h, all.1)
              | Ordering.gt ↦ (all.0, All-insert k m es h all.1)
            ]

  snapshot_lem :
      (key : SnapshotKey) (m : Message PlayerState StatsEvent EmittedEvent)
      (s : Inner PlayerState StatsEvent EmittedEvent)
      → is_essential m ≡ false
      → IsQueue s
      → Sends m s (
          if s.closed
          then (err closed_error, s)
          else if s.paused
          then (ok tt, s)
          else (ok tt, record s { snapshots = insert key m s.snapshots }))
  unfolding Sends
  snapshot_lem key m s e q =
      if_ind (Sends m s) s.closed _ _ (λ c. (sym (append-nil s.essential), q))
        λ c.
          if_ind (Sends m s) s.paused _ _ (λ f. (same, q))
            (λ f. (
              same,
              record {
                essentials = q.essentials;
                coalesced = All-insert key m s.snapshots e q.coalesced;
                fits = q.fits;
              },
            ))
    where
      same : s.essential ≡ s.essential ++ (if is_essential m then m ∷ [] else [])
      same = rw e (sym (append-nil s.essential))

  send_lem :
      (m : Message PlayerState StatsEvent EmittedEvent)
      (s : Inner PlayerState StatsEvent EmittedEvent)
      → IsQueue s
      → Sends m s (send m s)
  unfolding send coalesce_key is_essential
  send_lem (ready b id) s q = essential_lem (ready b id) s refl q
  send_lem (player_update p g) s q = snapshot_lem (player_update_key g) (player_update p g) s refl q
  send_lem (stats x) s q = snapshot_lem stats_key (stats x) s refl q
  send_lem (event e) s q = essential_lem (event e) s refl q

  abbrev delivered :
      Option (Message PlayerState StatsEvent EmittedEvent)
      → List (Message PlayerState StatsEvent EmittedEvent)
  delivered none = []
  delivered (some m) = if is_essential m then m ∷ [] else []

  Receives :
      Inner PlayerState StatsEvent EmittedEvent
      → Option (Message PlayerState StatsEvent EmittedEvent)
        × Inner PlayerState StatsEvent EmittedEvent
      → Type 0
  Receives s result = (delivered result.0 ++ result.1.essential ≡ s.essential) × IsQueue result.1

  pop_lem :
      (s : Inner PlayerState StatsEvent EmittedEvent)
      (ms : List (Message PlayerState StatsEvent EmittedEvent))
      (es : List (SnapshotKey × Message PlayerState StatsEvent EmittedEvent))
      → IsQueue s
      → s.essential ≡ ms
      → All (λ (m : Message PlayerState StatsEvent EmittedEvent). is_essential m ≡ true) ms
      → All
          (λ (e : SnapshotKey × Message PlayerState StatsEvent EmittedEvent).
            is_essential (e.1) ≡ false)
          es
      → Receives s (pop s ms es)
  unfolding Receives pop
  pop_lem s (m ∷ ms) es q same all all' = (
    rw (all.0, same) refl,
    record {
      essentials = all.1;
      coalesced = q.coalesced;
      fits = omega (arith, q.fits, ap length same);
    },
  )
  pop_lem s [] (e ∷ es) q same all all' =
      (rw all'.0 refl, record { essentials = q.essentials; coalesced = all'.1; fits = q.fits })
  pop_lem s [] [] q same all all' = (refl, q)

  try_recv_lem :
      (s : Inner PlayerState StatsEvent EmittedEvent) → IsQueue s → Receives s (try_recv s)
  unfolding try_recv Receives
  try_recv_lem s q =
      if_ind (Receives s) (s.paused || s.closed) _ _ (λ c. (refl, q))
        (λ c. pop_lem s s.essential s.snapshots q refl q.essentials q.coalesced)

-- What the producers and the writer task do with a queue that stays open.
pub data Request (PlayerState StatsEvent EmittedEvent : Type 0) : Type 0 where
  on_send :
      Message PlayerState StatsEvent EmittedEvent → Request PlayerState StatsEvent EmittedEvent
  on_recv : Request PlayerState StatsEvent EmittedEvent
  on_pause : Request PlayerState StatsEvent EmittedEvent
  on_resume : Request PlayerState StatsEvent EmittedEvent

-- The essential messages that the writer task has taken and that the producers got accepted.
pub record Traffic (PlayerState StatsEvent EmittedEvent : Type 0) : Type 0 where
  pub taken : List (Message PlayerState StatsEvent EmittedEvent)
  pub given : List (Message PlayerState StatsEvent EmittedEvent)
  pub inner : Inner PlayerState StatsEvent EmittedEvent

module _ {PlayerState StatsEvent EmittedEvent : Type 0} where
  unfoldable pub request :
      Request PlayerState StatsEvent EmittedEvent
      → Inner PlayerState StatsEvent EmittedEvent
      → Traffic PlayerState StatsEvent EmittedEvent
  request (on_send m) s =
      let result = send m s in record { taken = []; given = accepted m result.0; inner = result.1 }
  request on_recv s =
      let result = try_recv s in record { taken = delivered result.0; given = []; inner = result.1 }
  request on_pause s = record { taken = []; given = []; inner = pause s }
  request on_resume s = record { taken = []; given = []; inner = resume s }

  unfoldable pub requests :
      List (Request PlayerState StatsEvent EmittedEvent)
      → Inner PlayerState StatsEvent EmittedEvent
      → Traffic PlayerState StatsEvent EmittedEvent
  requests [] s = record { taken = []; given = []; inner = s }
  requests (r ∷ rs) s =
      let first = request r s in
      let rest = requests rs first.inner in
      record {
        taken = first.taken ++ rest.taken;
        given = first.given ++ rest.given;
        inner = rest.inner;
      }

  request_fifo :
      (r : Request PlayerState StatsEvent EmittedEvent)
      (s : Inner PlayerState StatsEvent EmittedEvent)
      → IsQueue s
      → ((request r s).taken ++ (request r s).inner.essential ≡ s.essential ++ (request r s).given)
        × IsQueue (request r s).inner
  unfolding request Sends Receives
  request_fifo (on_send m) s q = send_lem m s q
  request_fifo on_recv s q =
      ((try_recv_lem s q).0 ∙ sym (append-nil s.essential), (try_recv_lem s q).1)
  request_fifo on_pause s q =
      unfold pause in
      (
        sym (append-nil s.essential),
        record { essentials = q.essentials; coalesced = tt; fits = q.fits },
      )
  request_fifo on_resume s q =
      unfold resume in
      (
        sym (append-nil s.essential),
        record { essentials = q.essentials; coalesced = q.coalesced; fits = q.fits },
      )

  -- From a well-formed queue on, through any sends, receives, pauses and resumes: the essential
  -- messages taken, followed by those that are queued, are those that were queued, followed by
  -- those that were accepted, in order; none is lost or repeated. The queue stays well-formed: at
  -- most 4096 essential messages, and every message in its own lane.
  pub requests_fifo :
      (rs : List (Request PlayerState StatsEvent EmittedEvent))
      (s : Inner PlayerState StatsEvent EmittedEvent)
      → IsQueue s
      → ((requests rs s).taken ++ (requests rs s).inner.essential
          ≡ s.essential ++ (requests rs s).given)
        × IsQueue (requests rs s).inner
  unfolding requests
  requests_fifo [] s q = (sym (append-nil s.essential), q)
  requests_fifo (r ∷ rs) s q =
      let first = request r s in
      let rest = requests rs first.inner in
      let (step, q') = request_fifo r s q in
      let (steps, q'') = requests_fifo rs first.inner q' in
      (
        append_assoc first.taken rest.taken rest.inner.essential
            ∙ ap (first.taken ++◌) steps
            ∙ sym (append_assoc first.taken first.inner.essential rest.given)
            ∙ ap (◌++ rest.given) step
            ∙ append_assoc s.essential first.given rest.given,
        q'',
      )

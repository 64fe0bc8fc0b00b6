-- ===== src/Sink/Coalesce.antt =====
-- The snapshots: an unsent one is replaced by the newer one of its key.
use lavalink_rs.Prelude.{
  ◌⊎◌, subst, ℕ, ◌≡◌, refl, sym, ap, ap₂, ◌∙◌, ◌≢◌, inl, inr, Bool, true, false, Option, none, some,
  List, [], ◌∷◌, arith, if◌then◌else◌, Bool-cases,
}
use lavalink_rs.Outcome.{ok}
use lavalink_rs.Unicode.{Text}
use lavalink_rs.Sink.{
  send, coalesce_key, Inner, then_order, insert, player_update_key, Message, compare_text,
  compare_key, SnapshotKey,
}
use lavalink_rs.Sink.{stats_key}
use Prim.Native.Nat.{Ordering, compare}

-- Looking a key up, as the map's order does.
abbrev is_eq : Ordering → Bool
is_eq Ordering.eq = true
is_eq Ordering.lt = false
is_eq Ordering.gt = false

module _ {PlayerState StatsEvent EmittedEvent : Type 0} where
  unfoldable pub lookup :
      SnapshotKey
      → List (SnapshotKey × Message PlayerState StatsEvent EmittedEvent)
      → Option (Message PlayerState StatsEvent EmittedEvent)
  lookup k [] = none
  lookup k (e ∷ es) = let rest = lookup k es in if is_eq (compare_key k e.0) then some e.1 else rest

compare_refl : (n : ℕ) → compare n n ≡ Ordering.eq
compare_refl n = ground arith

compare_text_refl : (t : Text) → compare_text t t ≡ Ordering.eq
unfolding compare_text
compare_text_refl [] = refl
compare_text_refl (c ∷ cs) =
    ap (λ (o : Ordering). then_order o (compare_text cs cs)) (compare_refl c)
    ∙ unfold then_order in compare_text_refl cs

compare_key_refl : (k : SnapshotKey) → compare_key k k ≡ Ordering.eq
unfolding compare_key
compare_key_refl stats_key = refl
compare_key_refl (player_update_key c) = compare_text_refl c

then_order_eq :
    (o r : Ordering) → is_eq (then_order o r) ≡ true → (is_eq o ≡ true) × (is_eq r ≡ true)
unfolding then_order
then_order_eq Ordering.eq r h = (refl, h)
then_order_eq Ordering.lt r h = cc
then_order_eq Ordering.gt r h = cc

compare_eq : (c d : ℕ) → is_eq (compare c d) ≡ true → c ≡ d
compare_eq c d h = ground arith

compare_text-eq : (s t : Text) → is_eq (compare_text s t) ≡ true → s ≡ t
unfolding compare_text
compare_text-eq [] [] h = refl
compare_text-eq [] (d ∷ ds) h = cc
compare_text-eq (c ∷ cs) [] h = cc
compare_text-eq (c ∷ cs) (d ∷ ds) h =
    let (first, rest) = then_order_eq (compare c d) (compare_text cs ds) h in
    ap₂ (◌∷◌) (compare_eq c d first) (compare_text-eq cs ds rest)

compare_key-eq : (k l : SnapshotKey) → is_eq (compare_key k l) ≡ true → k ≡ l
unfolding compare_key
compare_key-eq stats_key stats_key h = refl
compare_key-eq stats_key (player_update_key d) h = cc
compare_key-eq (player_update_key c) stats_key h = cc
compare_key-eq (player_update_key c) (player_update_key d) h =
    ap player_update_key (compare_text-eq c d h)

then_order_gt :
    (o r : Ordering)
    → then_order o r ≡ Ordering.gt
    → (o ≡ Ordering.gt) ⊎ ((o ≡ Ordering.eq) × (r ≡ Ordering.gt))
unfolding then_order
then_order_gt Ordering.eq r h = inr (refl, h)
then_order_gt Ordering.lt r h = cc
then_order_gt Ordering.gt r h = inl refl

compare_gt : (c d : ℕ) → compare c d ≡ Ordering.gt → compare d c ≡ Ordering.lt
compare_gt c d h = ground arith

compare_text-gt : (s t : Text) → compare_text s t ≡ Ordering.gt → compare_text t s ≡ Ordering.lt
unfolding compare_text
compare_text-gt [] [] h = cc
compare_text-gt [] (d ∷ ds) h = cc
compare_text-gt (c ∷ cs) [] h = refl
compare_text-gt (c ∷ cs) (d ∷ ds) h =
    turned (then_order_gt (compare c d) (compare_text cs ds) h) (compare_text-gt cs ds)
  where
    turned :
        ((compare c d ≡ Ordering.gt)
          ⊎ ((compare c d ≡ Ordering.eq) × (compare_text cs ds ≡ Ordering.gt)))
        → (compare_text cs ds ≡ Ordering.gt → compare_text ds cs ≡ Ordering.lt)
        → then_order (compare d c) (compare_text ds cs) ≡ Ordering.lt
    turned (inl first) rest =
        ap (λ (o : Ordering). then_order o (compare_text ds cs)) (compare_gt c d first)
        ∙ unfold then_order in refl
    turned (inr (same, later)) rest =
        ap (λ (o : Ordering). then_order o (compare_text ds cs))
          (ap (λ x. compare d x) (compare_eq c d (ap is_eq same)) ∙ compare_refl d)
        ∙ unfold then_order in rest later

compare_key-gt : (k l : SnapshotKey) → compare_key k l ≡ Ordering.gt → compare_key l k ≡ Ordering.lt
unfolding compare_key
compare_key-gt stats_key stats_key h = cc
compare_key-gt stats_key (player_update_key d) h = cc
compare_key-gt (player_update_key c) stats_key h = refl
compare_key-gt (player_update_key c) (player_update_key d) h = compare_text-gt c d h

distinct : (k l : SnapshotKey) → l ≢ k → is_eq (compare_key l k) ≡ false
distinct k l other = elim (Bool-cases (is_eq (compare_key l k))) [
  | inl e ↦ absurd (other (compare_key-eq l k e))
  | inr e ↦ e
]

module _ {PlayerState StatsEvent EmittedEvent : Type 0} where
  lookup-insert :
      (k : SnapshotKey) (m : Message PlayerState StatsEvent EmittedEvent)
      (es : List (SnapshotKey × Message PlayerState StatsEvent EmittedEvent))
      → lookup k (insert k m es) ≡ some m
  unfolding lookup insert
  lookup-insert k m [] = rw (compare_key_refl k) refl
  lookup-insert k m (e ∷ es) = placed (compare_key k e.0) refl (lookup-insert k m es)
    where
      placed :
          (o : Ordering)
          → compare_key k e.0 ≡ o
          → lookup k (insert k m es) ≡ some m
          → lookup k (elim o [
            | Ordering.lt ↦ (k, m) ∷ e ∷ es
            | Ordering.eq ↦ (k, m) ∷ es
            | Ordering.gt ↦ e ∷ insert k m es
          ])
            ≡ some m
      placed Ordering.lt p rest = rw (compare_key_refl k) refl
      placed Ordering.eq p rest = rw (compare_key_refl k) refl
      placed Ordering.gt p rest = rw p rest

  lookup-insert_other :
      (k l : SnapshotKey) (m : Message PlayerState StatsEvent EmittedEvent)
      (es : List (SnapshotKey × Message PlayerState StatsEvent EmittedEvent))
      → l ≢ k
      → lookup l (insert k m es) ≡ lookup l es
  unfolding lookup insert
  lookup-insert_other k l m [] other = rw (distinct k l other) refl
  lookup-insert_other k l m (e ∷ es) other =
      placed (compare_key k e.0) refl (lookup-insert_other k l m es other)
    where
      placed :
          (o : Ordering)
          → compare_key k e.0 ≡ o
          → lookup l (insert k m es) ≡ lookup l es
          → lookup l (elim o [
            | Ordering.lt ↦ (k, m) ∷ e ∷ es
            | Ordering.eq ↦ (k, m) ∷ es
            | Ordering.gt ↦ e ∷ insert k m es
          ])
            ≡ lookup l (e ∷ es)
      placed Ordering.lt p rest = rw (distinct k l other) refl
      placed Ordering.eq p rest =
          rw
            (
              distinct k l other,
              distinct e.0 l (λ q. other (q ∙ sym (compare_key-eq k e.0 (rw p refl)))),
            )
            refl
      placed Ordering.gt p rest = ap (λ x. if is_eq (compare_key l e.0) then some e.1 else x) rest

  -- The snapshots as the map keeps them: in the order of their keys, each key once.
  unfoldable pub Below :
      SnapshotKey → List (SnapshotKey × Message PlayerState StatsEvent EmittedEvent) → Type 0
  Below k [] = Unit
  Below k (e ∷ es) = compare_key k e.0 ≡ Ordering.lt

  unfoldable pub IsSorted :
      List (SnapshotKey × Message PlayerState StatsEvent EmittedEvent) → Type 0
  IsSorted [] = Unit
  IsSorted (e ∷ es) = Below e.0 es × IsSorted es

  Below-insert :
      (j k : SnapshotKey) (m : Message PlayerState StatsEvent EmittedEvent)
      (es : List (SnapshotKey × Message PlayerState StatsEvent EmittedEvent))
      → compare_key j k ≡ Ordering.lt
      → Below j es
      → Below j (insert k m es)
  unfolding Below insert
  Below-insert j k m [] less below = less
  Below-insert j k m (e ∷ es) less below = placed (compare_key k e.0)
    where
      placed :
          (o : Ordering)
          → Below j (elim o [
            | Ordering.lt ↦ (k, m) ∷ e ∷ es
            | Ordering.eq ↦ (k, m) ∷ es
            | Ordering.gt ↦ e ∷ insert k m es
          ])
      placed Ordering.lt = less
      placed Ordering.eq = less
      placed Ordering.gt = below

  insert-IsSorted :
      (k : SnapshotKey) (m : Message PlayerState StatsEvent EmittedEvent)
      (es : List (SnapshotKey × Message PlayerState StatsEvent EmittedEvent))
      → IsSorted es
      → IsSorted (insert k m es)
  unfolding Below IsSorted insert
  insert-IsSorted k m [] sorted = (tt, tt)
  insert-IsSorted k m (e ∷ es) sorted =
      placed (compare_key k e.0) refl (insert-IsSorted k m es sorted.1)
    where
      placed :
          (o : Ordering)
          → compare_key k e.0 ≡ o
          → IsSorted (insert k m es)
          → IsSorted (elim o [
            | Ordering.lt ↦ (k, m) ∷ e ∷ es
            | Ordering.eq ↦ (k, m) ∷ es
            | Ordering.gt ↦ e ∷ insert k m es
          ])
      placed Ordering.lt p rest = (p, sorted)
      placed Ordering.eq p rest =
          (subst (λ j. Below j es) (sym (compare_key-eq k e.0 (ap is_eq p))) sorted.0, sorted.1)
      placed Ordering.gt p rest = (Below-insert e.0 k m es (compare_key-gt k e.0 p) sorted.0, rest)

  -- In an open queue that is not paused, `send` of a message with a key succeeds, after which that
  -- key has exactly this message and every other key what it had; the essential lane is unchanged.
  -- The snapshots stay in the order of their keys, each key once.
  pub send_coalesces :
      (k : SnapshotKey) (m : Message PlayerState StatsEvent EmittedEvent)
      (s : Inner PlayerState StatsEvent EmittedEvent) (l : SnapshotKey)
      → coalesce_key m ≡ some k
      → s.closed ≡ false
      → s.paused ≡ false
      → l ≢ k
      → IsSorted s.snapshots
      → let (result, s') = send m s in
        (result ≡ ok tt)
        × (lookup k s'.snapshots ≡ some m)
        × (lookup l s'.snapshots ≡ lookup l s.snapshots)
        × (s'.essential ≡ s.essential)
        × IsSorted s'.snapshots
  send_coalesces k m s l key is_open running other sorted =
      unfold send in
      simp (key, is_open, running)
        (
          refl,
          lookup-insert k m s.snapshots,
          lookup-insert_other k l m s.snapshots other,
          refl,
          insert-IsSorted k m s.snapshots sorted,
        )

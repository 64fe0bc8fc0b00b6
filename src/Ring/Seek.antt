-- ===== src/Ring/Seek.antt =====
-- Who writes the position: a superseded ring never does, and an announced seek holds it.
use lavalink_rs.Prelude.{
  if_ind, ℕ, ◌≡◌, refl, sym, ap, ◌∙◌, ◌≢◌, ◌⊎◌, inl, inr, Bool, true, false, not, List, [], ◌∷◌,
  arith, leb, length, All,
}
use lavalink_rs.FrameCounters.Minute.{eqb_ℤ→eq}
use lavalink_rs.Ring.Read.{uncons, read_ind}
use lavalink_rs.Prelude.Int.{pos, eqb_ℤ, negsuc, ℤ}
use lavalink_rs.Ring.{
  clear_pending_seek, read_samples, ReadResult, close, advance_frames, read_silence, finish,
  read_leftover, try_write, cancel_seek, read, begin_seek, reset, refresh_position, Shared,
  RingReader,
}
use lavalink_rs.Ring.Stream.{read_call, write, call, Call, finish_call, close_call}

-- The operations of both ends.
pub data Operation : Type 0 where
  on_call : Call → Operation
  on_reset : ℤ → Operation
  on_begin_seek : ℤ → Operation
  on_cancel_seek : ℤ → Operation

unfoldable pub operate : Operation → RingReader → RingReader
operate (on_call c) r = (call c r).reader
operate (on_reset p) r = record r { shared = reset p r.shared }
operate (on_begin_seek p) r = record r { shared = begin_seek p r.shared }
operate (on_cancel_seek p) r = record r { shared = cancel_seek p r.shared }

unfoldable pub operates : List Operation → RingReader → RingReader
operates [] r = r
operates (o ∷ os) r = operates os (operate o r)

-- What reporting the position depends on.
abbrev View {ℓ} : (Bool → ℤ → ℤ → Type ℓ) → Shared → Type ℓ
View J s = J s.owns_position s.pending_seek_ms s.position_ms

module _ {ℓ} (J : Bool → ℤ → ℤ → Type ℓ)
    (refreshed : (s : Shared) → View J s → View J (refresh_position s)) where
  read-View :
      (now : ℤ) (head : ℕ) (out : List ℕ) (r : RingReader)
      → View J r.shared
      → View J (read now head out r).reader.shared
  read-View now head out r v =
      read_ind (λ result. View J result.reader.shared) now head out r v (unfold read_leftover in v)
        (λ e e'.
          unfold read_silence advance_frames in
          if_ind (λ (x : ReadResult). View J x.reader.shared) (leb 4 (length out)) _ _
            (λ h. refreshed _ v) (λ h. refreshed _ v))
        (λ e e' full.
          unfold read_samples advance_frames in
          let (sample, rest, shape) = uncons r.shared.buffer full in
          if_ind (λ (x : ReadResult). View J x.reader.shared) (leb 4 (length out)) _ _
            (λ h. refreshed _ v) (λ h. rw shape (refreshed _ v)))

  call-View : (c : Call) (r : RingReader) → View J r.shared → View J (call c r).reader.shared
  unfolding call
  call-View (write samples) r v =
      unfold try_write in
      if_ind (λ (e : (ℕ × Bool) × Shared). View J e.1) r.shared.closed _ _ (λ c. v) (λ c. v)
  call-View finish_call r v = unfold finish in v
  call-View close_call r v = unfold close in v
  call-View (read_call now head out) r v = read-View now head out r v

clear_pending_seek-position :
    (p : ℤ) (s : Shared)
    → ((clear_pending_seek p s).owns_position ≡ s.owns_position)
      × ((clear_pending_seek p s).position_ms ≡ s.position_ms)
unfolding clear_pending_seek
clear_pending_seek-position p s = ground arith

-- The ring that a reset to `p` has emptied, before it settles the announcement and the position.
abbrev emptied : ℤ → Shared → Shared
emptied p s = record s {
  buffer = [];
  finished = false;
  consumed_frames = pos 0;
  remainder_samples = pos 0;
  base_position_ms = p;
}

true-ne-false : true ≢ false
true-ne-false e = cc

Detached : ℤ → Bool → ℤ → ℤ → Type 0
Detached x owns pending position = (owns ≡ false) × (position ≡ x)

Detached-refreshed :
    (x : ℤ) (s : Shared) → View (Detached x) s → View (Detached x) (refresh_position s)
unfolding Detached refresh_position
Detached-refreshed x s (owns, at) =
    if_ind (View (Detached x)) (not s.owns_position) _ _ (λ e. (owns, at))
      (λ e. absurd (true-ne-false (sym (ap not owns) ∙ e)))

Detached-operate :
    (x : ℤ) (o : Operation) (r : RingReader)
    → View (Detached x) r.shared
    → View (Detached x) (operate o r).shared
unfolding operate Detached
Detached-operate x (on_call c) r v = call-View (Detached x) (Detached-refreshed x) c r v
Detached-operate x (on_reset p) r v =
    unfold reset in
    let (owns, position) = clear_pending_seek-position p (emptied p r.shared) in
    Detached-refreshed x (clear_pending_seek p (emptied p r.shared)) (owns ∙ v.0, position ∙ v.1)
Detached-operate x (on_begin_seek p) r v = unfold begin_seek in v
Detached-operate x (on_cancel_seek p) r v =
    unfold cancel_seek in
    let (owns, position) = clear_pending_seek-position p r.shared in (owns ∙ v.0, position ∙ v.1)

-- A ring that has given up the position never writes it, whatever its two ends do.
pub operates_detached :
    (os : List Operation) (r : RingReader)
    → r.shared.owns_position ≡ false
    → (operates os r).shared.position_ms ≡ r.shared.position_ms
unfolding operates Detached
operates_detached [] r owns = refl
operates_detached (o ∷ os) r owns =
    let (owns', position) = Detached-operate r.shared.position_ms o r (owns, refl) in
    operates_detached os (operate o r) owns' ∙ position

-- What may happen while the newest announced seek, to `q`, is in flight.
unfoldable pub OlderThan : ℤ → Operation → Type 0
OlderThan q (on_call c) = Unit
OlderThan q (on_reset p) = p ≢ q
OlderThan q (on_begin_seek p) = p ≡ q
OlderThan q (on_cancel_seek p) = p ≢ q

Announced : ℤ → ℤ → Bool → ℤ → ℤ → Type 0
Announced q x owns pending position = (pending ≡ q) × ((position ≡ x) ⊎ (position ≡ q))

true_of : (b : Bool) → not b ≡ false → b ≡ true
true_of true e = refl
true_of false e = sym e

-- An older seek that lands or fails leaves the announcement of a newer one.
Announced-clear :
    (p q x : ℤ) (s : Shared)
    → p ≢ q
    → View (Announced q x) s
    → View (Announced q x) (clear_pending_seek p s)
unfolding clear_pending_seek Announced
Announced-clear p q x s other v =
    if_ind (View (Announced q x)) (eqb_ℤ s.pending_seek_ms p) _ _
      (λ e. absurd (other (sym (eqb_ℤ→eq s.pending_seek_ms p e) ∙ v.0))) (λ e. v)

Announced-refreshed :
    (q x : ℤ)
    → q ≢ negsuc 0
    → (s : Shared) → View (Announced q x) s
    → View (Announced q x) (refresh_position s)
unfolding Announced refresh_position
Announced-refreshed q x real s (pending, position) =
    if_ind (View (Announced q x)) (not s.owns_position) _ _ (λ e. (pending, position))
      (λ e.
        if_ind (View (Announced q x)) (not (eqb_ℤ s.pending_seek_ms (negsuc 0))) _ _
          (λ e'. (pending, inr pending))
          (λ e'.
            absurd (real (sym pending ∙ eqb_ℤ→eq s.pending_seek_ms (negsuc 0) (true_of _ e')))))

Announced-operate :
    (q x : ℤ)
    → q ≢ negsuc 0
    → (o : Operation) (r : RingReader) → OlderThan q o
    → View (Announced q x) r.shared
    → View (Announced q x) (operate o r).shared
unfolding operate OlderThan Announced
Announced-operate q x real (on_call c) r older v =
    call-View (Announced q x) (Announced-refreshed q x real) c r v
Announced-operate q x real (on_reset p) r older v =
    unfold reset in
    Announced-refreshed q x real (clear_pending_seek p (emptied p r.shared))
      (Announced-clear p q x (emptied p r.shared) older v)
Announced-operate q x real (on_begin_seek p) r older v = unfold begin_seek in (older, v.1)
Announced-operate q x real (on_cancel_seek p) r older v =
    unfold cancel_seek in Announced-clear p q x r.shared older v

Announced-operates :
    (q x : ℤ)
    → q ≢ negsuc 0
    → (os : List Operation) (r : RingReader) → All (OlderThan q) os
    → View (Announced q x) r.shared
    → View (Announced q x) (operates os r).shared
unfolding operates
Announced-operates q x real [] r older v = v
Announced-operates q x real (o ∷ os) r older v =
    Announced-operates q x real os (operate o r) older.1 (Announced-operate q x real o r older.0 v)

-- From the announcement of a seek to `q` on, while that seek has not landed or failed and is not
-- superseded by a seek to another position: as long as the older seeks that land or fail meanwhile
-- went to other positions than `q`, the announcement stays, and the ring reports either the
-- position it reported at the announcement or `q`, and no other.
pub begin_seek_holds :
    (q : ℤ) (os : List Operation) (r : RingReader)
    → q ≢ negsuc 0
    → All (OlderThan q) os
    → let r' = operates os (operate (on_begin_seek q) r) in
      (r'.shared.pending_seek_ms ≡ q)
      × ((r'.shared.position_ms ≡ r.shared.position_ms) ⊎ (r'.shared.position_ms ≡ q))
begin_seek_holds q os r real older =
    unfold Announced in
    Announced-operates q r.shared.position_ms real os (operate (on_begin_seek q) r) older
      (begun q r)
  where
    begun :
        (q : ℤ) (r : RingReader)
        → View (Announced q r.shared.position_ms) (operate (on_begin_seek q) r).shared
    begun q r = unfold Announced operate begin_seek in (refl, inl refl)

-- ===== src/Ring/Position.antt =====
-- The playback position: what the reads have delivered since the last seek.
use lavalink_rs.Prelude.{
  if_ind, ℕ, suc, ◌+◌, ◌-◌, ◌*◌, ◌/◌, ◌%◌, ◌^◌, ◌≤◌, ◌<◌, min, ◌≡◌, refl, ap, ◌∙◌, ◌⊎◌, Bool, true,
  false, List, [], ◌∷◌, ◌++◌, arith, leb, length, drop, replicate, length-append, length-take,
  length-drop,
}
use lavalink_rs.Ring.Stream.{
  finish_call, close_call, read_call, write, Call, calls, call, length-to_le_bytes,
}
use lavalink_rs.FrameCounters.{FrameCounters, frame_samples}
use lavalink_rs.Ring.Read.{read_lem, Delivers, uncons, read_ind}
use lavalink_rs.Prelude.Int.{ℤ, nonneg, wrap_i64_id, ◌+ℤ◌, negsuc, pos, wrap_i64}
use lavalink_rs.Ring.{
  clear_pending_seek, reset, close, finish, try_write, to_le_bytes, read_samples, wanted_samples,
  read_silence, read_leftover, rem_i64, read, div_i64, ReadResult, mul_i64, advance_frames,
  RingReader, sample_rate, refresh_position, Shared,
}

-- `k` samples have been delivered since a seek to `base`, and the ring reports that position.
pub record Playing (s : Shared) (base k : ℕ) : Type 0 where
  pub consumed_eq : s.consumed_frames ≡ pos (k / 2)
  pub remainder_eq : s.remainder_samples ≡ pos (k % 2)
  pub base_eq : s.base_position_ms ≡ pos base
  pub owns_eq : s.owns_position ≡ true
  pub pending_eq : s.pending_seek_ms ≡ negsuc 0
  pub position_eq : s.position_ms ≡ pos (base + k / 2 * 1000 / sample_rate)

wrap_add : (a b : ℕ) → a + b < 2 ^ 63 → wrap_i64 (pos a +ℤ pos b) ≡ pos (a + b)
wrap_add a b h = rw (sum) (wrap_i64_id (pos (a + b)) (nonneg (a + b) h))
  where
    sum : pos a +ℤ pos b ≡ pos (a + b)
    sum = unfold ◌+ℤ◌ in ground arith

refresh_lem :
    (s : Shared) (base c : ℕ)
    → s.consumed_frames ≡ pos c
    → s.base_position_ms ≡ pos base
    → s.owns_position ≡ true
    → s.pending_seek_ms ≡ negsuc 0
    → base + c * 1000 < 2 ^ 63
    → refresh_position s ≡ record s { position_ms = pos (base + c * 1000 / sample_rate) }
refresh_lem s base c e e' owns pending h =
    unfold refresh_position mul_i64 div_i64 in
    rw
      (
        owns,
        pending,
        e,
        e',
        wrap_i64_id (pos (c * 1000)) (nonneg (c * 1000) (omega arith)),
        wrap_add base (c * 1000 / sample_rate) (omega arith),
      )
      refl

advance_lem :
    (s : Shared) (n base k : ℕ)
    → Playing s base k
    → base + 1000 * (k + n) < 2 ^ 63
    → advance_frames (pos n) s
      ≡ record s { consumed_frames = pos ((k + n) / 2); remainder_samples = pos ((k + n) % 2) }
advance_lem s n base k p h =
    unfold advance_frames div_i64 rem_i64 in
    rw
      (
        p.consumed_eq,
        p.remainder_eq,
        wrap_add (k % 2) n (omega arith),
        wrap_add (k / 2) ((k % 2 + n) / 2) (omega arith),
        halves,
        rest,
      )
      refl
  where
    halves : k / 2 + (k % 2 + n) / 2 ≡ (k + n) / 2
    halves = omega arith

    rest : (k % 2 + n) % 2 ≡ (k + n) % 2
    rest = omega arith

-- `n` samples more.
advanced-Playing :
    (s : Shared) (n base k : ℕ)
    → Playing s base k
    → base + 1000 * (k + n) < 2 ^ 63
    → Playing (refresh_position (advance_frames (pos n) s)) base (k + n)
advanced-Playing s n base k p h =
    rw
      (
        advance_lem s n base k p h,
        refresh_lem
            (record s {
              consumed_frames = pos ((k + n) / 2);
              remainder_samples = pos ((k + n) % 2);
            })
            base ((k + n) / 2) refl p.base_eq p.owns_eq p.pending_eq (omega arith),
      )
      (record {
        consumed_eq = refl;
        remainder_eq = refl;
        base_eq = p.base_eq;
        owns_eq = p.owns_eq;
        pending_eq = p.pending_eq;
        position_eq = refl;
      })

-- The buffer and the counters have no part in the position.
rebooked :
    (s : Shared) (b : List ℕ) (f : FrameCounters) (base k : ℕ)
    → Playing s base k
    → Playing (record s { buffer = b; frames = f }) base k
rebooked s b f base k p = record {
  consumed_eq = p.consumed_eq;
  remainder_eq = p.remainder_eq;
  base_eq = p.base_eq;
  owns_eq = p.owns_eq;
  pending_eq = p.pending_eq;
  position_eq = p.position_eq;
}

booked :
    (s : Shared) (b : List ℕ) (f : FrameCounters) (n base k : ℕ)
    → Playing s base k
    → base + 1000 * (k + n) < 2 ^ 63
    → Playing
        (record (refresh_position (advance_frames (pos n) (record s { buffer = b }))) {
          frames = f;
        })
        base
        (k + n)
booked s b f n base k p h =
    rebooked moved moved.buffer f base (k + n)
      (advanced-Playing (record s { buffer = b }) n base k (rebooked s b s.frames base k p) h)
  where
    moved : Shared
    moved = refresh_position (advance_frames (pos n) (record s { buffer = b }))

-- The samples that a read has counted, by the bytes it has moved.
Counted : RingReader → ℕ → ℕ → ReadResult → Type 0
Counted r base k result =
    (k' : ℕ) × (4 * k' + length r.leftover ≡ 4 * k + result.written + length result.reader.leftover)
    × (k ≤ k')
    × (base + 1000 * k' < 2 ^ 63 → Playing result.reader.shared base k')

split_length :
    (bytes leftover out : List ℕ)
    → length (leftover ++ drop (min (length bytes) (length out)) bytes)
      ≡ length leftover + (length bytes - min (length bytes) (length out))
split_length bytes leftover out = omega (
  arith,
  length-append leftover (drop (min (length bytes) (length out)) bytes),
  length-drop (min (length bytes) (length out)) bytes,
)

read-Counted :
    (now : ℤ) (head : ℕ) (out : List ℕ) (r : RingReader) (base k : ℕ)
    → (base + 1000 * k < 2 ^ 63 → Playing r.shared base k)
    → Counted r base k (read now head out r)
unfolding Counted
read-Counted now head out r base k p =
    read_ind (λ result. Counted r base k result) now head out r
      (k, omega arith, omega arith, λ h. p h)
      (unfold read_leftover in
        (
          k,
          omega (arith, length-drop (min (length r.leftover) (length out)) r.leftover),
          omega arith,
          λ h. p h,
        ))
      (λ e e'.
        unfold read_silence in
        if_ind (λ (x : ReadResult). Counted r base k x) (leb 4 (length out)) _ _
          (λ h. (
            k + silent,
            omega arith,
            omega arith,
            λ fits. booked r.shared r.shared.buffer _ silent base k (p (omega arith)) fits,
          ))
          (λ h. (
            k + silent,
            omega (arith, one h, split_length (replicate 4 0) r.leftover out),
            omega arith,
            λ fits. booked r.shared r.shared.buffer _ silent base k (p (omega arith)) fits,
          )))
      (λ e e' full.
        unfold read_samples in
        let (sample, rest, shape) = uncons r.shared.buffer full in
        if_ind (λ (x : ReadResult). Counted r base k x) (leb 4 (length out)) _ _
          (λ h. (
            k + n,
            omega arith,
            omega arith,
            λ fits. booked r.shared (drop n r.shared.buffer) _ n base k (p (omega arith)) fits,
          ))
          (λ h. rw shape (
            k + m rest,
            omega (
              arith,
              one_sample h rest,
              split_length (to_le_bytes sample) r.leftover out,
              length-to_le_bytes sample,
            ),
            omega arith,
            λ fits. booked r.shared rest _ (m rest) base k (p (omega arith)) fits,
          )))
  where
    silent : ℕ
    silent = min (wanted_samples out) frame_samples

    n : ℕ
    n = min (wanted_samples out) (length r.shared.buffer)

    one : leb 4 (length out) ≡ false → silent ≡ 1
    one h = ground arith

    m : List ℕ → ℕ
    m rest = min (wanted_samples out) (suc (length rest))

    one_sample : leb 4 (length out) ≡ false → (rest : List ℕ) → m rest ≡ 1
    one_sample h rest = ground arith

finish-Playing : (s : Shared) (base k : ℕ) → Playing s base k → Playing (finish s) base k
finish-Playing s base k p =
    unfold finish in
    record {
      consumed_eq = p.consumed_eq;
      remainder_eq = p.remainder_eq;
      base_eq = p.base_eq;
      owns_eq = p.owns_eq;
      pending_eq = p.pending_eq;
      position_eq = p.position_eq;
    }

close-Playing : (s : Shared) (base k : ℕ) → Playing s base k → Playing (close s) base k
close-Playing s base k p =
    unfold close in
    record {
      consumed_eq = p.consumed_eq;
      remainder_eq = p.remainder_eq;
      base_eq = p.base_eq;
      owns_eq = p.owns_eq;
      pending_eq = p.pending_eq;
      position_eq = p.position_eq;
    }

call-Counted :
    (c : Call) (r : RingReader) (base k : ℕ)
    → (base + 1000 * k < 2 ^ 63 → Playing r.shared base k)
    → (k' : ℕ) × (4 * k' + length r.leftover
        ≡ 4 * k + length (call c r).delivered + length (call c r).reader.leftover)
      × (k ≤ k')
      × (base + 1000 * k' < 2 ^ 63 → Playing (call c r).reader.shared base k')
unfolding call Counted Delivers
call-Counted (write samples) r base k p = (k, omega arith, omega arith, written)
  where
    written : base + 1000 * k < 2 ^ 63 → Playing (try_write samples r.shared).1 base k
    written h =
        unfold try_write in
        if_ind (λ (e : (ℕ × Bool) × Shared). Playing e.1 base k) r.shared.closed _ _ (λ c. p h)
          (λ c. rebooked r.shared _ r.shared.frames base k (p h))
call-Counted finish_call r base k p =
    (k, omega arith, omega arith, λ h. finish-Playing r.shared base k (p h))
call-Counted close_call r base k p =
    (k, omega arith, omega arith, λ h. close-Playing r.shared base k (p h))
call-Counted (read_call now head out) r base k p =
    let (k', count, more, playing) = read-Counted now head out r base k p in
    let (stream, fits, same, rest) = read_lem now head out r in
    (
      k',
      omega (arith, length-take (read now head out r).written (read now head out r).out),
      more,
      playing,
    )

calls-Counted :
    (cs : List Call) (r : RingReader) (base k : ℕ)
    → (base + 1000 * k < 2 ^ 63 → Playing r.shared base k)
    → (k' : ℕ) × (4 * k' + length r.leftover
        ≡ 4 * k + length (calls cs r).delivered + length (calls cs r).reader.leftover)
      × (k ≤ k')
      × (base + 1000 * k' < 2 ^ 63 → Playing (calls cs r).reader.shared base k')
unfolding calls
calls-Counted [] r base k p = (k, omega arith, omega arith, λ h. p h)
calls-Counted (c ∷ cs) r base k p =
    let (k', count, more, playing) = call-Counted c r base k p in
    let (k'', count', more', playing') = calls-Counted cs (call c r).reader base k' playing in
    (
      k'',
      omega (arith, length-append (call c r).delivered (calls cs (call c r).reader).delivered),
      omega arith,
      playing',
    )

reset-Playing :
    (s : Shared) (p : ℕ)
    → s.owns_position ≡ true
    → (s.pending_seek_ms ≡ negsuc 0) ⊎ (s.pending_seek_ms ≡ pos p)
    → p < 2 ^ 63
    → Playing (reset (pos p) s) p 0
unfolding reset
reset-Playing s p owns pending h =
    rw (refresh_lem cleared p 0 consumed based owned retired (omega arith)) (record {
      consumed_eq = consumed;
      remainder_eq = remainder;
      base_eq = based;
      owns_eq = owned;
      pending_eq = retired;
      position_eq = refl;
    })
  where
    emptied : Shared
    emptied = record s {
      buffer = [];
      finished = false;
      consumed_frames = pos 0;
      remainder_samples = pos 0;
      base_position_ms = pos p;
    }

    cleared : Shared
    cleared = clear_pending_seek (pos p) emptied

    consumed : cleared.consumed_frames ≡ pos 0
    consumed = unfold clear_pending_seek in ground arith

    remainder : cleared.remainder_samples ≡ pos 0
    remainder = unfold clear_pending_seek in ground arith

    based : cleared.base_position_ms ≡ pos p
    based = unfold clear_pending_seek in ground arith

    owned : cleared.owns_position ≡ true
    owned = unfold clear_pending_seek in ground arith

    retired : cleared.pending_seek_ms ≡ negsuc 0
    retired = unfold clear_pending_seek in ground arith

-- After a seek lands at `p` in a ring that owns the position, with no newer seek announced, and
-- after any calls on the ring that deliver `k` samples in all: the position is `p` and the time
-- that `k` samples take, in whole frames and milliseconds. Samples are counted by the bytes
-- delivered, those left over at the start taken off and those at the end added.
pub position_after_seek :
    (cs : List Call) (r : RingReader) (p k : ℕ)
    → r.shared.owns_position ≡ true
    → (r.shared.pending_seek_ms ≡ negsuc 0) ⊎ (r.shared.pending_seek_ms ≡ pos p)
    → p + 1000 * k < 2 ^ 63
    → 4 * k + length r.leftover
      ≡ length (calls cs (record r { shared = reset (pos p) r.shared })).delivered
        + length (calls cs (record r { shared = reset (pos p) r.shared })).reader.leftover
    → (calls cs (record r { shared = reset (pos p) r.shared })).reader.shared.position_ms
      ≡ pos (p + k / 2 * 1000 / sample_rate)
position_after_seek cs r p k owns pending h count =
    let (k', count', more, playing) =
      calls-Counted cs (record r { shared = reset (pos p) r.shared }) p 0
        (λ h'. reset-Playing r.shared p owns pending (omega arith)) in
    let same : k' ≡ k = omega arith in
    (playing (omega arith)).position_eq ∙ ap (λ n. pos (p + n / 2 * 1000 / sample_rate)) same

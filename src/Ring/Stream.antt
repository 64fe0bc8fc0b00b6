-- ===== src/Ring/Stream.antt =====
-- Writes and reads in any order: the ring is first in, first out, and bounded.
use lavalink_rs.Prelude.{
  if_ind, ℕ, ◌-◌, ◌≤◌, ◌<◌, min, ◌≡◌, refl, sym, ap, ◌∙◌, ◌≢◌, inl, inr, Bool, List, [], ◌∷◌, ◌++◌,
  append-nil, append_assoc, arith, leb, Bool-cases, length, take, drop, replicate, length-append,
  length-take, length-drop,
}
use lavalink_rs.Ring.Bytes.{sample_bytes-append, sample_bytes}
use lavalink_rs.Ring.Read.{uncons, advanced-buffer, read_ind, silence, read_lem, Delivers, pending}
use lavalink_rs.Prelude.Int.{pos, ℤ}
use lavalink_rs.Ring.{
  to_le_bytes, wanted_samples, ReadResult, read_samples, read_silence, read_leftover,
  advance_frames, refresh_position, read, close, finish, Shared, try_write, RingReader,
}

-- One call on the ring, by either end.
pub data Call : Type 0 where
  write : List ℕ → Call
  finish_call : Call
  close_call : Call
  read_call : ℤ → ℕ → List ℕ → Call

-- What a call takes out of the ring, what it puts in, and the ring after it.
pub record Effect : Type 0 where
  pub delivered : List ℕ
  pub added : List ℕ
  pub reader : RingReader

unfoldable pub call : Call → RingReader → Effect
call (write samples) r =
    let ((n, closed), s) = try_write samples r.shared in
    record {
      delivered = [];
      added = sample_bytes (take n samples);
      reader = record r { shared = s };
    }
call finish_call r = record {
  delivered = [];
  added = [];
  reader = record r { shared = finish r.shared };
}
call close_call r = record {
  delivered = [];
  added = [];
  reader = record r { shared = close r.shared };
}
call (read_call now head out) r =
    let result = read now head out r in
    record {
      delivered = take result.written result.out;
      added = silence out r;
      reader = result.reader;
    }

unfoldable pub calls : List Call → RingReader → Effect
calls [] r = record { delivered = []; added = []; reader = r }
calls (c ∷ cs) r =
    let first = call c r in
    let rest = calls cs first.reader in
    record {
      delivered = first.delivered ++ rest.delivered;
      added = first.added ++ rest.added;
      reader = rest.reader;
    }

write_keeps :
    (samples : List ℕ) (s : Shared)
    → let ((n, closed), s') = try_write samples s in s'.buffer ≡ s.buffer ++ take n samples
unfolding try_write
write_keeps samples s = elim (Bool-cases s.closed) [
  | inl c ↦ simp c (sym (append-nil s.buffer))
  | inr c ↦ simp c refl
]

call_fifo :
    (c : Call) (r : RingReader)
    → (call c r).delivered ++ pending (call c r).reader ≡ pending r ++ (call c r).added
unfolding call
call_fifo (write samples) r =
    unfold pending in
    rw (write_keeps samples r.shared, sample_bytes-append r.shared.buffer taken)
      (sym (append_assoc r.leftover (sample_bytes r.shared.buffer) (sample_bytes taken)))
  where
    taken : List ℕ
    taken = take (try_write samples r.shared).0.0 samples
call_fifo finish_call r =
    unfold pending finish in sym (append-nil (r.leftover ++ sample_bytes r.shared.buffer))
call_fifo close_call r =
    unfold pending close in sym (append-nil (r.leftover ++ sample_bytes r.shared.buffer))
call_fifo (read_call now head out) r = unfold Delivers in (read_lem now head out r).0

-- Whatever calls are made, in whatever order: what the reader is given, followed by what is still
-- pending, is what was pending at first, followed by what was written and the silence of the
-- starved reads, in the order of the calls.
pub calls_fifo :
    (cs : List Call) (r : RingReader)
    → (calls cs r).delivered ++ pending (calls cs r).reader ≡ pending r ++ (calls cs r).added
unfolding calls
calls_fifo [] r = sym (append-nil _)
calls_fifo (c ∷ cs) r =
    let first = call c r in
    let rest = calls cs first.reader in
    append_assoc first.delivered rest.delivered (pending rest.reader)
    ∙ ap (first.delivered ++◌) (calls_fifo cs first.reader)
    ∙ sym (append_assoc first.delivered (pending first.reader) rest.added)
    ∙ ap (◌++ rest.added) (call_fifo c r)
    ∙ append_assoc (pending r) first.added rest.added

-- The buffer never holds more than its capacity, and less than one sample is left over.
unfoldable pub Bounded : RingReader → Type 0
Bounded r = (length r.shared.buffer ≤ r.shared.capacity) × (length r.leftover < 4)

write_fits :
    (samples : List ℕ) (s : Shared)
    → length s.buffer ≤ s.capacity
    → length (try_write samples s).1.buffer ≤ (try_write samples s).1.capacity
unfolding try_write
write_fits samples s b =
    if_ind (λ (e : (ℕ × Bool) × Shared). length e.1.buffer ≤ e.1.capacity) s.closed _ _ (λ c. b)
      (λ c. omega (arith, length-append s.buffer (take n samples), length-take n samples))
  where
    n : ℕ
    n = min (s.capacity - length s.buffer) (length samples)

refresh_position-capacity :
    (n : ℕ) (s : Shared) → (refresh_position (advance_frames (pos n) s)).capacity ≡ s.capacity
unfolding refresh_position advance_frames
refresh_position-capacity n s = ground arith

fits :
    (n : ℕ) (r : RingReader) (s : Shared)
    → Bounded r
    → length s.buffer ≤ length r.shared.buffer
    → s.capacity ≡ r.shared.capacity
    → length (refresh_position (advance_frames (pos n) s)).buffer
      ≤ (refresh_position (advance_frames (pos n) s)).capacity
unfolding Bounded
fits n r s (b, l) shorter same =
    omega (arith, ap length (advanced-buffer n s), refresh_position-capacity n s)

left_over :
    (bytes leftover out : List ℕ)
    → length bytes ≡ 4
    → length leftover ≡ 0
    → length out ≢ 0
    → length (leftover ++ drop (min 4 (length out)) bytes) < 4
left_over bytes leftover out four e nonempty = omega (
  arith,
  length-append leftover (drop (min 4 (length out)) bytes),
  length-drop (min 4 (length out)) bytes,
)

pub length-to_le_bytes : (w : ℕ) → length (to_le_bytes w) ≡ 4
unfolding to_le_bytes
length-to_le_bytes w = refl

read-Bounded :
    (now : ℤ) (head : ℕ) (out : List ℕ) (r : RingReader)
    → Bounded r
    → Bounded (read now head out r).reader
unfolding Bounded
read-Bounded now head out r (b, l) =
    read_ind (λ result. Bounded result.reader) now head out r (b, l)
      (unfold read_leftover in
        (b, omega (arith, length-drop (min (length r.leftover) (length out)) r.leftover)))
      (λ e e'.
        unfold read_silence in
        if_ind (λ (x : ReadResult). Bounded x.reader) (leb 4 (length out)) _ _
          (λ h. (fits _ r r.shared (b, l) (omega arith) refl, l))
          (λ h. (
            fits _ r r.shared (b, l) (omega arith) refl,
            left_over (replicate 4 0) r.leftover out refl e' e,
          )))
      (λ e e' full.
        unfold read_samples in
        let (sample, rest, shape) = uncons r.shared.buffer full in
        if_ind (λ (x : ReadResult). Bounded x.reader) (leb 4 (length out)) _ _
          (λ h. (
            fits _ r
                (record r.shared {
                  buffer = drop (min (wanted_samples out) (length r.shared.buffer)) r.shared.buffer;
                })
                (b, l)
                (omega (
                  arith,
                  length-drop (min (wanted_samples out) (length r.shared.buffer)) r.shared.buffer,
                ))
                refl,
            l,
          ))
          (λ h. rw shape (
            fits _ r (record r.shared { buffer = rest }) (b, l) (omega (arith, ap length shape))
                refl,
            left_over (to_le_bytes sample) r.leftover out (length-to_le_bytes sample) e' e,
          )))

call-Bounded : (c : Call) (r : RingReader) → Bounded r → Bounded (call c r).reader
unfolding call Bounded
call-Bounded (write samples) r (b, l) = (write_fits samples r.shared b, l)
call-Bounded finish_call r b = unfold finish in b
call-Bounded close_call r b = unfold close in b
call-Bounded (read_call now head out) r b = read-Bounded now head out r b

-- From a new ring on, its buffer holds at most its capacity and its reader less than one sample.
pub calls-Bounded : (cs : List Call) (r : RingReader) → Bounded r → Bounded (calls cs r).reader
unfolding calls
calls-Bounded [] r b = b
calls-Bounded (c ∷ cs) r b = calls-Bounded cs (call c r).reader (call-Bounded c r b)

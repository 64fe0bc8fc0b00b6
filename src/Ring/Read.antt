-- ===== src/Ring/Read.antt =====
-- What one `read` delivers: the ring is a queue of bytes.
use lavalink_rs.Prelude.{
  if_ind, ℕ, ◌*◌, ◌≤◌, min, ◌≡◌, refl, sym, ap, ◌∙◌, subst, ◌≢◌, inl, inr, Bool, true, false, not,
  ◌&&◌, List, [], ◌∷◌, ◌++◌, append-nil, append_assoc, arith, leb, ◌==◌, if◌then◌else◌, leb→le,
  Bool-cases, length, take, drop, replicate, length-append, length-take, length-drop,
  length-replicate, take-append-drop, take-append, drop-append,
}
use lavalink_rs.FrameCounters.{frame_samples}
use lavalink_rs.Ring.Bytes.{sample_bytes-append, length-sample_bytes, copy_slices_lem, sample_bytes}
use lavalink_rs.Prelude.Int.{ℤ, pos}
use lavalink_rs.Ring.{
  read, to_le_bytes, read_samples, read_silence, read_split, wanted_samples, overwrite,
  refresh_position, read_leftover, advance_frames, Shared, RingReader, ReadResult,
}

-- The bytes that a reader still has to deliver.
unfoldable pub pending : RingReader → List ℕ
pending r = r.leftover ++ sample_bytes r.shared.buffer

unfoldable pub is_starved : List ℕ → RingReader → Bool
is_starved out r =
    not (length out == 0)
    && length r.leftover == 0
    && not r.shared.closed
    && length r.shared.buffer == 0
    && not r.shared.finished

-- The zero bytes that a starved read adds to the stream.
unfoldable pub silence : List ℕ → RingReader → List ℕ
silence out r =
    if is_starved out r then replicate (min (wanted_samples out) frame_samples * 4) 0 else []

-- A read that delivers the next bytes of the stream, and leaves the rest of `out` alone.
unfoldable pub Delivers : List ℕ → List ℕ → ReadResult → Type 0
Delivers stream out result =
    (take result.written result.out ++ pending result.reader ≡ stream)
    × (result.written ≤ length out)
    × (length result.out ≡ length out)
    × (drop result.written result.out ≡ drop result.written out)

overwritten :
    (bytes stream out : List ℕ) (r : RingReader)
    → length bytes ≤ length out
    → bytes ++ pending r ≡ stream
    → Delivers stream out (record { written = length bytes; out = overwrite bytes out; reader = r })
unfolding Delivers
overwritten bytes stream out r fits e = (
  rw (take-append bytes (drop (length bytes) out)) e,
  fits,
  omega (arith, length-append bytes (drop (length bytes) out), length-drop (length bytes) out),
  drop-append bytes (drop (length bytes) out),
)

overwritten' :
    (bytes stream out : List ℕ) (n : ℕ) (r : RingReader)
    → length bytes ≡ n
    → n ≤ length out
    → bytes ++ pending r ≡ stream
    → Delivers stream out (record { written = n; out = overwrite bytes out; reader = r })
overwritten' bytes stream out n r len fits e =
    subst (λ k. Delivers stream out (record { written = k; out = overwrite bytes out; reader = r }))
      len (overwritten bytes stream out r (omega arith) e)

nothing :
    (stream out : List ℕ) (r : RingReader)
    → pending r ≡ stream
    → Delivers stream out (record { written = 0; out = out; reader = r })
nothing stream out r e = overwritten [] stream out r (omega arith) e

split :
    (bytes stream out leftover : List ℕ) (s : Shared)
    → leftover ++ bytes ++ sample_bytes s.buffer ≡ stream
    → length leftover ≡ 0
    → Delivers stream out (read_split bytes out s leftover)
split bytes stream out [] s e h =
    overwritten' (take n bytes) stream out n (record { shared = s; leftover = drop n bytes })
      (omega (arith, length-take n bytes)) (omega arith)
      (unfold pending in
        sym (append_assoc (take n bytes) (drop n bytes) (sample_bytes s.buffer))
        ∙ ap (◌++ sample_bytes s.buffer) (take-append-drop n bytes)
        ∙ e)
  where
    n : ℕ
    n = min (length bytes) (length out)
split bytes stream out (x ∷ leftover) s e h = absurd (omega arith)

pub refresh_position-buffer : (s : Shared) → (refresh_position s).buffer ≡ s.buffer
unfolding refresh_position
refresh_position-buffer s = ground arith

pub advanced-buffer :
    (n : ℕ) (s : Shared) → (refresh_position (advance_frames (pos n) s)).buffer ≡ s.buffer
unfolding advance_frames
advanced-buffer n s = refresh_position-buffer _

leftover_lem : (out : List ℕ) (r : RingReader) → Delivers (pending r) out (read_leftover out r)
unfolding read_leftover
leftover_lem out r =
    overwritten' (take n r.leftover) (pending r) out n (record r { leftover = drop n r.leftover })
      (omega (arith, length-take n r.leftover)) (omega arith)
      (unfold pending in
        sym (append_assoc (take n r.leftover) (drop n r.leftover) _)
        ∙ ap (◌++ sample_bytes r.shared.buffer) (take-append-drop n r.leftover))
  where
    n : ℕ
    n = min (length r.leftover) (length out)

nil_of_length : (xs : List ℕ) → length xs ≡ 0 → xs ≡ []
nil_of_length [] e = refl
nil_of_length (x ∷ xs) e = absurd (omega arith)

-- An empty ring delivers the zeros as they are.
zeros_first :
    (zeros buffer : List ℕ) (r : RingReader)
    → length r.leftover ≡ 0
    → length r.shared.buffer ≡ 0
    → buffer ≡ r.shared.buffer
    → (zeros ++ (r.leftover ++ sample_bytes buffer) ≡ pending r ++ zeros)
      × (r.leftover ++ zeros ++ sample_bytes buffer ≡ pending r ++ zeros)
zeros_first zeros buffer r e e' same =
    unfold pending sample_bytes in
    rw (same, nil_of_length r.leftover e, nil_of_length r.shared.buffer e')
      (append-nil zeros, append-nil zeros)

silence_lem :
    (now : ℤ) (out : List ℕ) (r : RingReader)
    → length r.leftover ≡ 0
    → length r.shared.buffer ≡ 0
    → length out ≢ 0
    → Delivers
        (pending r ++ replicate (min (wanted_samples out) frame_samples * 4) 0)
        out
        (read_silence now out r)
unfolding read_silence pending
silence_lem now out r e e' nonempty = elim (Bool-cases (leb 4 (length out))) [
  | inl h ↦ rw h (
      overwritten' _ _ out _ _ (length-replicate _ 0) (omega (arith, leb→le 4 (length out) h))
        (zeros_first _ _ r e e' (advanced-buffer _ r.shared)).0)
  | inr h ↦
      rw (h, one h)
        (split (replicate 4 0) _ out r.leftover _
          (zeros_first _ _ r e e' (advanced-buffer _ r.shared)).1 e)
]
  where
    one : leb 4 (length out) ≡ false → min (wanted_samples out) frame_samples ≡ 1
    one h = ground arith

-- The samples that stay, after those that are copied.
samples_first :
    (n : ℕ) (buffer : List ℕ) (r : RingReader)
    → length r.leftover ≡ 0
    → buffer ≡ drop n r.shared.buffer
    → sample_bytes (take n r.shared.buffer) ++ (r.leftover ++ sample_bytes buffer) ≡ pending r
unfolding pending
samples_first n buffer r e same =
    rw (same, nil_of_length r.leftover e)
      (sym (sample_bytes-append (take n r.shared.buffer) (drop n r.shared.buffer))
        ∙ ap sample_bytes (take-append-drop n r.shared.buffer))

one_first :
    (sample : ℕ) (rest buffer leftover : List ℕ)
    → length leftover ≡ 0
    → buffer ≡ rest
    → leftover ++ to_le_bytes sample ++ sample_bytes buffer
      ≡ leftover ++ sample_bytes (sample ∷ rest)
one_first sample rest buffer leftover e same =
    unfold sample_bytes in rw (nil_of_length leftover e, same) refl

pub uncons : (xs : List ℕ) → length xs ≢ 0 → (x : ℕ) × (rest : List ℕ) × (xs ≡ x ∷ rest)
uncons [] h = absurd (h refl)
uncons (x ∷ xs) h = (x, xs, refl)

samples_lem :
    (now : ℤ) (head : ℕ) (out : List ℕ) (r : RingReader)
    → length r.leftover ≡ 0
    → length r.shared.buffer ≢ 0
    → length out ≢ 0
    → Delivers (pending r) out (read_samples now head out r)
unfolding read_samples pending
samples_lem now head out r e some_buffered nonempty =
    let (sample, rest, shape) = uncons r.shared.buffer some_buffered in
    elim (Bool-cases (leb 4 (length out))) [
      | inl h ↦
          rw
            (
              h,
              copy_slices_lem head n r.shared.buffer out (omega arith)
                  (omega (arith, leb→le 4 (length out) h)),
            )
            (overwritten' (sample_bytes (take n r.shared.buffer)) (pending r) out (n * 4) _
              (omega (
                arith,
                length-sample_bytes (take n r.shared.buffer),
                length-take n r.shared.buffer,
              ))
              (omega (arith, leb→le 4 (length out) h))
              (samples_first n _ r e
                (advanced-buffer n (record r.shared { buffer = drop n r.shared.buffer }))))
      | inr h ↦
          rw (h, shape)
            (split (to_le_bytes sample) _ out r.leftover _
              (one_first sample rest _ r.leftover e (
                advanced-buffer (min (wanted_samples out) (length (sample ∷ rest)))
                  (record r.shared { buffer = rest })))
              e)
    ]
  where
    n : ℕ
    n = min (wanted_samples out) (length r.shared.buffer)

zero_of : (n : ℕ) → (n == 0) ≡ true → n ≡ 0
zero_of n e = ground arith

nonzero_of : (n : ℕ) → (n == 0) ≡ false → n ≢ 0
nonzero_of n e = ground arith

no_silence :
    (out : List ℕ) (r : RingReader) (result : ReadResult)
    → Delivers (pending r) out result
    → Delivers (pending r ++ []) out result
no_silence out r result d = rw (append-nil (pending r)) d

-- The tests of `read`, once `out` has room and nothing is left over.
tests :
    (closed empty finished : Bool) (zeros out : List ℕ) (r : RingReader)
    (stop silent samples : ReadResult)
    → Delivers (pending r ++ []) out stop
    → (empty ≡ true → Delivers (pending r ++ zeros) out silent)
    → (empty ≡ false → Delivers (pending r ++ []) out samples)
    → Delivers
        (pending r ++ (if not closed && empty && not finished then zeros else []))
        out
        (if closed then stop else if empty then (if finished then stop else silent) else samples)
tests true empty finished zeros out r stop silent samples d d' d'' = d
tests false true true zeros out r stop silent samples d d' d'' = d
tests false true false zeros out r stop silent samples d d' d'' = d' refl
tests false false finished zeros out r stop silent samples d d' d'' = d'' refl

empty_of : (n : ℕ) → not (n == 0) ≡ false → n ≡ 0
empty_of n e = ground arith

-- A read writes a prefix of `out` and leaves the rest of it; what it writes, followed by what is
-- then pending, is what was pending, followed by the silence of a starved read. It is the same for
-- every split of the buffer into two slices.
pub read_lem :
    (now : ℤ) (head : ℕ) (out : List ℕ) (r : RingReader)
    → Delivers (pending r ++ silence out r) out (read now head out r)
unfolding read silence is_starved
read_lem now head out r = elim (Bool-cases (length out == 0)) [
  | inl e ↦ rw e (nothing _ out r (sym (append-nil (pending r))))
  | inr e ↦ rw e (elim (Bool-cases (length r.leftover == 0)) [
    | inr e' ↦ rw e' (no_silence _ _ _ (leftover_lem out r))
    | inl e' ↦ rw e' (
        tests r.shared.closed (length r.shared.buffer == 0) r.shared.finished _ out r _ _ _
          (nothing _ out r (sym (append-nil (pending r))))
          (λ b. silence_lem now out r (zero_of _ e') (zero_of _ b) (nonzero_of _ e))
          (λ b.
            no_silence _ _ _
              (samples_lem now head out r (zero_of _ e') (nonzero_of _ b) (nonzero_of _ e))))
  ])
]

-- A property of the result of `read`, proved branch by branch.
pub read_ind {ℓ} :
    (P : ReadResult → Type ℓ) (now : ℤ) (head : ℕ) (out : List ℕ) (r : RingReader)
    → P (record { written = 0; out = out; reader = r })
    → P (read_leftover out r)
    → (length out ≢ 0 → length r.leftover ≡ 0 → P (read_silence now out r))
    → (length out ≢ 0
        → length r.leftover ≡ 0
        → length r.shared.buffer ≢ 0
        → P (read_samples now head out r))
    → P (read now head out r)
unfolding read
read_ind P now head out r stop left silent samples =
    if_ind P (length out == 0) _ _ (λ e. stop)
      λ e.
        if_ind P (not (length r.leftover == 0)) _ _ (λ e'. left)
          λ e'.
            if_ind P r.shared.closed _ _ (λ c. stop)
              λ c.
                if_ind P (length r.shared.buffer == 0) _ _
                  (λ b.
                    if_ind P r.shared.finished _ _ (λ f. stop)
                      (λ f. silent (nonzero_of _ e) (empty_of _ e')))
                  (λ b. samples (nonzero_of _ e) (empty_of _ e') (nonzero_of _ b))

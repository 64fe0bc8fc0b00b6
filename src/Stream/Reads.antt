-- ===== src/Stream/Reads.antt =====
-- Whole calls of the reader, and sequences of them.
use lavalink_rs.Stream.Contiguous.{handed_out, pending, reader_read-Takes, Takes}
use lavalink_rs.Outcome.{stuck, err, ok, Outcome}
use lavalink_rs.Stream.Faithful.{
  IsU64, Continues, retry-Keeps, read_bytes, IsPrefix, Holds, Keeps, IsSource, IsFaithful,
}
use lavalink_rs.Stream.Read.{
  retry, end_or_go_on, Turn, source_read, read_step, after_retry, after_read,
}
use lavalink_rs.Stream.{
  max_reconnect_attempts, reader_read, ReadError, ResponseReader, Network, HttpMediaSource,
}
use lavalink_rs.Prelude.{
  zero, suc, ℕ, zero, suc, ◌+◌, ◌^◌, ◌<◌, ◌≡◌, refl, sym, ap, ◌∙◌, subst, Option, none, some, List,
  [], ◌++◌, arith, length, drop, if_ind,
}

-- One iteration of the outer loop.
unfoldable Steps : List ℕ → HttpMediaSource → Turn (List ℕ) × HttpMediaSource → Type 0
Steps content s (some r, s') = Continues content s.position (r, s')
Steps content s (none, s') = (s'.position ≡ s.position) × IsSource content s'

after_retry-Steps :
    (content : List ℕ) (s : HttpMediaSource) (c : Outcome ReadError (Unit {0}) × HttpMediaSource)
    → Keeps content s c.1
    → Steps content s (after_retry c.0 c.1)
unfolding after_retry Steps Continues
after_retry-Steps content s (ok u, s') k = k
after_retry-Steps content s (err e, s') k = k
after_retry-Steps content s (stuck, s') k = k

-- A read that gives nothing leaves what is pending.
left_alone :
    (content : List ℕ) (p : ℕ) (x : Outcome ReadError (List ℕ)) (r r' : ResponseReader)
    → handed_out x ≡ []
    → Takes r (x, r')
    → IsPrefix (pending r) (drop p content)
    → IsPrefix (pending r') (drop p content)
unfolding Takes
left_alone content p x r r' nothing takes whole =
    subst (λ l. IsPrefix l (drop p content)) (takes ∙ ap (λ l. l ++ pending r') nothing) whole

after_read-Steps :
    (content : List ℕ) (net : Network) (c : Outcome ReadError (List ℕ) × ResponseReader)
    (r : ResponseReader) (s : HttpMediaSource)
    → IsFaithful content net
    → length content < 2 ^ 64
    → s.position < 2 ^ 64
    → IsU64 s.length_known
    → Takes r c
    → IsPrefix (pending r) (drop s.position content)
    → Steps content s (after_read net c.0 (record s { reader = some c.1 }))
unfolding after_read Steps handed_out
after_read-Steps content net (ok bytes, r') r s faithful short fits known takes p =
    read_bytes content bytes r r' s short fits known takes p
after_read-Steps content net (err e, r') r s faithful short fits known takes p =
    let s' : HttpMediaSource = record s { reader = some r'; flag_reads = s.flag_reads + 1 } in
    let h : IsSource content s' = record {
      holds = unfold Holds in left_alone content s.position (err e) r r' refl takes p;
      fits = fits;
      sized = known;
    } in
    if_ind (Steps content s) (net.is_interrupted s.flag_reads) _ _
      (λ _. unfold Continues in (refl, h))
      (λ _.
        after_retry-Steps content s (retry (max_reconnect_attempts + 1) net e s')
          (retry-Keeps (max_reconnect_attempts + 1) content net e s' faithful h))
after_read-Steps content net (stuck, r') r s faithful short fits known takes p =
    unfold Continues in
    (
      refl,
      record {
        holds = unfold Holds in left_alone content s.position stuck r r' refl takes p;
        fits = fits;
        sized = known;
      },
    )

read_step-Steps :
    (content : List ℕ) (net : Network) (size : ℕ) (o : Option ResponseReader) (s : HttpMediaSource)
    → IsFaithful content net
    → length content < 2 ^ 64
    → IsSource content s
    → s.reader ≡ o
    → Steps content s (read_step net size o s)
unfolding read_step
read_step-Steps content net size none s faithful short h e =
    unfold Steps Continues in (refl, sym (omega arith), h)
read_step-Steps content net size (some r) s faithful short h e =
    after_read-Steps content net (reader_read size s.read_timeout r) r s faithful short h.fits
      h.sized (reader_read-Takes size s.read_timeout r)
      (unfold Holds in subst (Holds content s.position) e h.holds)

go_on-Continues :
    (content : List ℕ) (s s' : HttpMediaSource) (t : Turn (List ℕ))
    (rest : Outcome ReadError (List ℕ) × HttpMediaSource)
    → Steps content s (t, s')
    → (IsSource content s' → Continues content s'.position rest)
    → Continues content s.position (end_or_go_on t s' rest)
unfolding Steps
go_on-Continues content s s' (some r) rest k next = k
go_on-Continues content s s' none rest k next = subst (λ p. Continues content p rest) k.0 (next k.1)

-- A read of a source of a track shorter than 2 ^ 64 bytes, from a server that answers every
-- request with that track: what it gives are the next bytes of the track, the position moves by
-- as many, and an error leaves the position where it was. Reconnects on the way lose nothing and
-- repeat nothing, and the source is fit for the next read.
pub source_read-Continues :
    (fuel : ℕ) (content : List ℕ) (net : Network) (size : ℕ) (s : HttpMediaSource)
    → IsFaithful content net
    → length content < 2 ^ 64
    → IsSource content s
    → Continues content s.position (source_read fuel net size s)
unfolding source_read
source_read-Continues zero content net size s faithful short h = unfold Continues in (refl, h)
source_read-Continues (suc fuel) content net size s faithful short h =
    let step = read_step net size s.reader s in
    go_on-Continues content s step.1 step.0 (source_read fuel net size step.1)
      (read_step-Steps content net size s.reader s faithful short h refl)
      (λ h'. source_read-Continues fuel content net size step.1 faithful short h')

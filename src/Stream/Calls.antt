-- ===== src/Stream/Calls.antt =====
-- Any sequence of reads and seeks.
use lavalink_rs.Stream.Reads.{source_read-Continues}
use lavalink_rs.Prelude.{
  ℕ, ◌+◌, ◌^◌, ◌<◌, false, not, Option, none, some, List, [], ◌∷◌, arith, ◌==◌, length, All, if_ind,
}
use mathlib.Core.Option
use lavalink_rs.Prelude.Int.{ℤ, pos, negsuc}
use lavalink_rs.Stream.Faithful.{accept-Connects, Continues}
use lavalink_rs.Prelude.Int.{negsuc, pos, ℤ}
use lavalink_rs.Outcome.{stuck, err, ok, Outcome}
use lavalink_rs.Stream.Faithful.{Connects, IsU64, Holds, IsSource, IsFaithful}
use lavalink_rs.Stream.Read.{
  source_seek, open_source, from_end, from_current, from_start, seek_to, seek_target,
  saturating_add_signed, SeekFrom, source_read,
}
use lavalink_rs.Stream.{
  accept, connect, SourceError, max_reconnect_attempts, ReadError, Network, HttpMediaSource,
}

Connects-IsSource :
    (content : List ℕ) (offset : ℕ) (s : HttpMediaSource)
    (c : Outcome SourceError (Unit {0}) × HttpMediaSource)
    → Connects content offset s c
    → IsSource content c.1
Connects-IsSource content offset s (ok u, s') h = h.1
Connects-IsSource content offset s (err e, s') h = h.1
Connects-IsSource content offset s (stuck, s') h = absurd h

connect-IsSource :
    (content : List ℕ) (net : Network) (offset : ℕ) (s : HttpMediaSource)
    → IsFaithful content net
    → offset < 2 ^ 64
    → IsSource content s
    → IsSource content (connect net offset s).1
unfolding connect
connect-IsSource content net offset s faithful fits h =
    let s' : HttpMediaSource = record s { requests = s.requests + 1 } in
    Connects-IsSource content offset s' (accept offset (net.respond s.requests offset) s') (
      accept-Connects content offset (net.respond s.requests offset) s' fits
        (faithful s.requests offset) (record { holds = h.holds; fits = h.fits; sized = h.sized }))

-- An offset that a `SeekFrom` can hold.
unfoldable pub IsSeek : SeekFrom → Type 0
IsSeek (from_start offset) = offset < 2 ^ 64
IsSeek (from_current delta) = Unit
IsSeek (from_end delta) = Unit

saturating_add_signed_lem : (n : ℕ) (z : ℤ) → n < 2 ^ 64 → saturating_add_signed n z < 2 ^ 64
unfolding saturating_add_signed
saturating_add_signed_lem n (pos d) h = omega arith
saturating_add_signed_lem n (negsuc d) h = omega (arith, h)

from_end_lem :
    (delta : ℤ) (o : Option ℕ)
    → IsU64 o
    → IsU64 (Option.map (λ (length : ℕ). saturating_add_signed length delta) o)
from_end_lem delta none h = tt
from_end_lem delta (some n) h = saturating_add_signed_lem n delta h

seek_target-IsU64 :
    (content : List ℕ) (from : SeekFrom) (s : HttpMediaSource)
    → IsSeek from
    → IsSource content s
    → IsU64 (seek_target from s)
unfolding seek_target IsSeek
seek_target-IsU64 content (from_start offset) s fits h = fits
seek_target-IsU64 content (from_current delta) s fits h =
    saturating_add_signed_lem s.position delta h.fits
seek_target-IsU64 content (from_end delta) s fits h = from_end_lem delta s.length_known h.sized

seek_to-IsSource :
    (content : List ℕ) (net : Network) (target : Option ℕ) (s : HttpMediaSource)
    → IsFaithful content net
    → IsU64 target
    → IsSource content s
    → IsSource content (seek_to net target s).1
unfolding seek_to
seek_to-IsSource content net none s faithful fits h = h
seek_to-IsSource content net (some target) s faithful fits h =
    let Q = λ (c : Outcome ReadError ℕ × HttpMediaSource). IsSource content c.1 in
    if_ind Q (target == s.position) _ _ (λ _. h)
      (λ _.
        if_ind Q (not s.seekable) _ _ (λ _. h)
          (λ _. connect-IsSource content net target s faithful fits h))

Continues-IsSource :
    (content : List ℕ) (p : ℕ) (c : Outcome ReadError (List ℕ) × HttpMediaSource)
    → Continues content p c
    → IsSource content c.1
unfolding Continues
Continues-IsSource content p (ok bytes, s') h = h.2
Continues-IsSource content p (err e, s') h = h.1
Continues-IsSource content p (stuck, s') h = h.1

-- What the decoder does with a source.
pub data SourceCall : Type 0 where
  call_read : ℕ → SourceCall
  call_seek : SeekFrom → SourceCall

unfoldable pub IsCall : SourceCall → Type 0
unfolding IsSeek
IsCall (call_read size) = Unit
IsCall (call_seek from) = IsSeek from

-- More than the reconnects that are allowed in a row.
abbrev pub enough : ℕ
enough = max_reconnect_attempts + 2

unfoldable pub perform : Network → SourceCall → HttpMediaSource → HttpMediaSource
unfolding source_read source_seek
perform net (call_read size) s = (source_read enough net size s).1
perform net (call_seek from) s = (source_seek net from s).1

unfoldable pub performs : Network → List SourceCall → HttpMediaSource → HttpMediaSource
performs net [] s = s
performs net (c ∷ cs) s = performs net cs (perform net c s)

perform-IsSource :
    (content : List ℕ) (net : Network) (c : SourceCall) (s : HttpMediaSource)
    → IsFaithful content net
    → length content < 2 ^ 64
    → IsCall c
    → IsSource content s
    → IsSource content (perform net c s)
unfolding perform IsCall source_seek
perform-IsSource content net (call_read size) s faithful short fits h =
    Continues-IsSource content s.position (source_read enough net size s)
      (source_read-Continues enough content net size s faithful short h)
perform-IsSource content net (call_seek from) s faithful short fits h =
    seek_to-IsSource content net (seek_target from s) s faithful
      (seek_target-IsU64 content from s fits h) h

performs-IsSource :
    (content : List ℕ) (net : Network) (cs : List SourceCall) (s : HttpMediaSource)
    → IsFaithful content net
    → length content < 2 ^ 64
    → All IsCall cs
    → IsSource content s
    → IsSource content (performs net cs s)
unfolding performs
performs-IsSource content net [] s faithful short fits h = h
performs-IsSource content net (c ∷ cs) s faithful short fits h =
    performs-IsSource content net cs (perform net c s) faithful short fits.1
      (perform-IsSource content net c s faithful short fits.0 h)

-- A source of a track shorter than 2 ^ 64 bytes, from a server that answers every request with
-- that track as its status says, after any reads and seeks: the next read gives the bytes of the
-- track that follow the position and moves the position by as many, or fails and leaves the
-- position where it was. Reconnects on the way lose nothing and repeat nothing.
pub performs-Continues :
    (content : List ℕ) (net : Network) (read_timeout size : ℕ) (cs : List SourceCall)
    → IsFaithful content net
    → length content < 2 ^ 64
    → All IsCall cs
    → let s = performs net cs (open_source net read_timeout).1 in
      Continues content s.position (source_read enough net size s)
performs-Continues content net read_timeout size cs faithful short fits =
    let closed : HttpMediaSource = record {
      length_known = none;
      seekable = false;
      position = 0;
      reader = none;
      reconnect_attempts = 0;
      read_timeout = read_timeout;
      requests = 0;
      flag_reads = 0;
    } in
    let h : IsSource content closed = record {
      holds = unfold Holds in tt;
      fits = omega arith;
      sized = tt;
    } in
    let opened : IsSource content (open_source net read_timeout).1 =
      unfold open_source in connect-IsSource content net 0 closed faithful (omega arith) h in
    source_read-Continues enough content net size (performs net cs (open_source net read_timeout).1)
      faithful short
      (performs-IsSource content net cs (open_source net read_timeout).1 faithful short fits opened)

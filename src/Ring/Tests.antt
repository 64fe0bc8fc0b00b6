-- ===== src/Ring/Tests.antt =====
-- The ring on concrete calls, and the instances of the theorems.
use lavalink_rs.Prelude.{
  ℕ, ◌+◌, ◌*◌, ◌≡◌, refl, ◌⊎◌, inr, List, [], ◌∷◌, ◌++◌, arith, length, replicate,
}
use lavalink_rs.Ring.Position.{position_after_seek}
use lavalink_rs.FrameCounters.{default_counters}
use lavalink_rs.Prelude.Int.{pos, wrap_i64, ◌+ℤ◌}
use lavalink_rs.Ring.Seek.{
  OlderThan, begin_seek_holds, on_begin_seek, operate, operates_detached, on_cancel_seek, on_call,
  on_reset, operates,
}
use lavalink_rs.Ring.{
  advance_frames, clear_pending_seek, refresh_position, read_silence, to_le_bytes, copy_samples,
  copy_slices, reset, read_samples, detach_position, channel, begin_seek, read, new_reader,
  RingReader, div_i64, mul_i64,
}
use lavalink_rs.Ring.Read.{read_lem, silence, pending, Delivers}
use lavalink_rs.Ring.Stream.{
  call, calls_fifo, write, read_call, calls-Bounded, calls, Call, Bounded, finish_call, close_call,
}

-- Three samples are buffered, one byte is left over, and the buffer's head is at its second sample.
abbrev playing : RingReader
playing = record {
  shared = record (channel 20 (pos 0) default_counters) { buffer = 1065353216 ∷ 5 ∷ 258 ∷ [] };
  leftover = [];
}

abbrev room : List ℕ
room = replicate 10 255

played : (read (pos 0) 1 room playing).out ≡ 0 ∷ 0 ∷ 128 ∷ 63 ∷ 5 ∷ 0 ∷ 0 ∷ 0 ∷ 255 ∷ 255 ∷ []
unfolding read read_samples copy_slices copy_samples to_le_bytes channel
played = refl

read_lem_example :
    Delivers (pending playing ++ silence room playing) room (read (pos 0) 1 room playing)
read_lem_example = read_lem (pos 0) 1 room playing

abbrev session : List Call
session =
    write (7 ∷ 8 ∷ 9 ∷ [])
    ∷ read_call (pos 0) 2 (replicate 9 0)
    ∷ read_call (pos 20) 0 (replicate 3 0)
    ∷ read_call (pos 40) 0 (replicate 40 0)
    ∷ finish_call
    ∷ close_call
    ∷ []

calls_fifo_example :
    (calls session playing).delivered ++ pending (calls session playing).reader
    ≡ pending playing ++ (calls session playing).added
calls_fifo_example = calls_fifo session playing

calls-Bounded_example : Bounded (calls session playing).reader
calls-Bounded_example =
    calls-Bounded session playing (unfold Bounded channel in (omega arith, omega arith))

-- A starved read of 960 samples after a seek to one minute: 480 frames are 10 ms.
abbrev starved : List Call
starved = read_call (pos 0) 0 (replicate 3840 0) ∷ []

abbrev opened : RingReader
opened = new_reader (begin_seek (pos 60000) (channel 400 (pos 0) default_counters))

starved_bytes :
    4 * 960 + length opened.leftover
    ≡ length (calls starved (record opened { shared = reset (pos 60000) opened.shared })).delivered
      + length
          (calls starved
            (record opened { shared = reset (pos 60000) opened.shared })).reader.leftover
unfolding calls call read read_silence reset refresh_position clear_pending_seek begin_seek channel
    advance_frames
starved_bytes = refl

position_after_seek_example :
    (calls starved
      (record opened { shared = reset (pos 60000) opened.shared })).reader.shared.position_ms
    ≡ pos 60010
position_after_seek_example =
    position_after_seek starved opened 60000 960 (unfold begin_seek channel in refl)
      (unfold begin_seek channel in inr refl) (omega arith) starved_bytes

operates_detached_example :
    let superseded = new_reader (detach_position playing.shared) in
    (operates
      (on_reset (pos 5) ∷ on_call (read_call (pos 0) 0 room) ∷ [])
      superseded).shared.position_ms
    ≡ pos 0
unfolding detach_position channel
operates_detached_example =
    operates_detached (on_reset (pos 5) ∷ on_call (read_call (pos 0) 0 room) ∷ [])
      (new_reader (detach_position playing.shared)) refl

begin_seek_holds_example :
    let r' =
      operates
        (on_reset (pos 1000) ∷ on_call (read_call (pos 0) 0 room) ∷ on_cancel_seek (pos 2000) ∷ [])
        (operate (on_begin_seek (pos 3000)) playing) in
    (r'.shared.pending_seek_ms ≡ pos 3000)
    × ((r'.shared.position_ms ≡ pos 0) ⊎ (r'.shared.position_ms ≡ pos 3000))
unfolding channel OlderThan
begin_seek_holds_example =
    begin_seek_holds (pos 3000)
      (on_reset (pos 1000) ∷ on_call (read_call (pos 0) 0 room) ∷ on_cancel_seek (pos 2000) ∷ [])
      playing (λ e. cc) ((λ e. ground (arith, e)), (tt, ((λ e. ground (arith, e)), tt)))

-- Of three seeks, the first and the last to the same position, the first two land. The landing of
-- the first retires the announcement of the last, which is in flight: the second is reported.
retired_by_older :
    (operates
      (on_begin_seek (pos 5000)
        ∷ on_begin_seek (pos 8000)
        ∷ on_begin_seek (pos 5000)
        ∷ on_reset (pos 5000)
        ∷ on_reset (pos 8000)
        ∷ [])
      playing).shared.position_ms
    ≡ pos 8000
unfolding operates operate begin_seek reset clear_pending_seek refresh_position channel wrap_i64
    ◌+ℤ◌ div_i64 mul_i64
retired_by_older = refl

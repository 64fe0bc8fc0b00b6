-- ===== src/Stream/Tests.antt =====
-- A server whose every answer breaks off after two bytes, and the instances of the theorems.
use lavalink_rs.Stream.Contiguous.{body}
use lavalink_rs.Stream.Ends.{source_read-ne-stuck}
use lavalink_rs.Outcome.{stuck, ok}
use lavalink_rs.Stream.Read.{from_end, open_source, source_read}
use lavalink_rs.Stream.Calls.{
  IsSeek, IsCall, performs-Continues, call_seek, perform, enough, call_read, performs, SourceCall,
}
use lavalink_rs.Stream.{max_reconnect_attempts, is_success, chunk_error, chunk, Network}
use lavalink_rs.Stream.Faithful.{IsPrefix, is_served, Continues, Serves, IsFaithful}
use lavalink_rs.Prelude.{
  ◌-◌, ◌+◌, ◌≤◌, ◌||◌, if◌then◌else◌, ℕ, ◌≡◌, refl, ◌∙◌, ◌≢◌, Bool, true, false, ◌||◌, some, List,
  [], ◌∷◌, append_assoc, arith, ◌==◌, if◌then◌else◌, take, drop, take-append-drop,
}
use lavalink_rs.Prelude.Int.{negsuc}

abbrev melody : List ℕ
melody = 11 ∷ 12 ∷ 13 ∷ 14 ∷ 15 ∷ []

abbrev flaky : Network
flaky = record {
  respond = λ n offset. some (record {
    status = 206;
    accept_bytes = true;
    total_length = some 5;
    chunks = chunk (take 2 (drop offset melody)) 0 ∷ chunk_error ∷ [];
    arrived = 0;
  });
  is_interrupted = λ n. false;
}

either : {A : Type 0} (b : Bool) → A → (if b || true then A else Unit)
either true a = a
either false a = a

flaky-IsFaithful : IsFaithful melody flaky
flaky-IsFaithful n offset =
    unfold Serves is_served is_success IsPrefix body in
    (
      omega arith,
      either (offset == 0) (
        drop 2 (drop offset melody),
        append_assoc (take 2 (drop offset melody)) [] (drop 2 (drop offset melody))
            ∙ take-append-drop 2 (drop offset melody),
      ),
    )

-- Two reads, the second after a reconnect, and a seek to the last byte.
abbrev played : List SourceCall
played = call_read 9 ∷ call_read 9 ∷ call_seek (from_end (negsuc 0)) ∷ []

last_byte :
    (source_read enough flaky 9 (performs flaky played (open_source flaky 100).1)).0 ≡ ok (15 ∷ [])
unfolding source_read performs perform open_source
last_byte = refl

performs-Continues_example :
    let s = performs flaky played (open_source flaky 100).1 in
    Continues melody s.position (source_read enough flaky 9 s)
performs-Continues_example =
    performs-Continues melody flaky 100 9 played flaky-IsFaithful (omega arith)
      (unfold IsCall IsSeek in (tt, (tt, (tt, tt))))

source_read-ne-stuck_example :
    let s = (open_source flaky 100).1 in
    let (result, s') = source_read enough flaky 9 s in
    (result ≢ stuck) × (s'.requests ≤ s.requests + (max_reconnect_attempts - s.reconnect_attempts))
source_read-ne-stuck_example =
    source_read-ne-stuck enough flaky 9 (open_source flaky 100).1 (omega arith)

-- ===== src/Stream/Ends.antt =====
-- A read ends: only so many reconnects in a row are tried.
use lavalink_rs.Stream.Read.{
  source_read, read_step, after_retry, after_read, end_or_go_on, Turn, retry_step, retry,
  reconnected,
}
use lavalink_rs.Stream.{
  chunk_error, min_window_bytes, chunk, Chunk, check_window, ResponseReader, reader_read,
  next_chunk, hand_out, lengths_differ, reconnect_failed, is_success, past_known_end,
  max_reconnect_attempts, connect, SourceError, HttpMediaSource, Response, ReadError, Network,
  accept,
}
use lavalink_rs.Outcome.{err, stuck, ok, Outcome}
use lavalink_rs.Prelude.{
  ◌≤◌, ◌^◌, ◌%◌, length, List, [], ◌∷◌, ℕ, zero, suc, ◌+◌, ◌-◌, ◌<◌, ◌≡◌, refl, subst, ◌≢◌, not,
  ◌&&◌, ◌||◌, Option, none, some, arith, ltb, leb, ◌==◌, if_ind,
}

accept-attempts :
    (offset : ℕ) (response : Option Response) (s : HttpMediaSource)
    → ((accept offset response s).1.reconnect_attempts ≡ s.reconnect_attempts)
      × ((accept offset response s).1.requests ≡ s.requests)
      × ((accept offset response s).0 ≢ stuck)
unfolding accept
accept-attempts offset none s = (refl, refl, λ e. cc)
accept-attempts offset (some x) s =
    let Q = λ (c : Outcome SourceError (Unit {0}) × HttpMediaSource).
      (c.1.reconnect_attempts ≡ s.reconnect_attempts)
      × (c.1.requests ≡ s.requests)
      × (c.0 ≢ stuck) in
    if_ind Q (ltb 0 offset && ((x.status == 416) && past_known_end offset s.length_known)) _ _
      (λ _. (refl, refl, λ e. cc))
      (λ _.
        if_ind Q (not (is_success x.status)) _ _ (λ _. (refl, refl, λ e. cc))
          (λ _.
            if_ind Q (ltb 0 offset && not (x.status == 206)) _ _ (λ _. (refl, refl, λ e. cc))
              (λ _.
                if_ind Q (ltb 0 offset && lengths_differ s.length_known x.total_length) _ _
                  (λ _. (refl, refl, λ e. cc)) (λ _. (refl, refl, λ e. cc)))))

-- The requests that were made and those that may still be made before something is read.
abbrev budget : HttpMediaSource → ℕ
budget s = s.requests + (max_reconnect_attempts - s.reconnect_attempts)

-- What a reconnect comes to: it counts, and it is not tried too often.
unfoldable Counts : ℕ → ℕ → Outcome ReadError (Unit {0}) × HttpMediaSource → Type 0
Counts n b (ok u, s') = (n < max_reconnect_attempts) × (n < s'.reconnect_attempts) × (budget s' ≤ b)
Counts n b (err e, s') = s'.requests ≤ b
Counts n b (stuck, s') = ⊥

connected :
    (fuel n b : ℕ) (net : Network) (error : ReadError) (result : Outcome SourceError (Unit {0}))
    (s' : HttpMediaSource)
    → n < max_reconnect_attempts
    → s'.reconnect_attempts ≡ n + 1
    → budget s' ≤ b
    → result ≢ stuck
    → Counts (n + 1) b (retry fuel net (reconnected error result).1 s')
    → Counts n b (
        end_or_go_on
          (reconnected error result).0
          s'
          (retry fuel net (reconnected error result).1 s'))
unfolding reconnected Counts
connected fuel n b net error (ok u) s' few e within sure rest = (few, omega (arith, e), within)
connected fuel n b net error (err x) s' few e within sure rest =
    later (retry fuel net (reconnect_failed x) s') rest
  where
    later : (c : Outcome ReadError (Unit {0}) × HttpMediaSource) → Counts (n + 1) b c → Counts n b c
    later (ok u, t) (few', more, left) = (few, omega (arith, more), left)
    later (err y, t) h = h
    later (stuck, t) h = h
connected fuel n b net error stuck s' few e within sure rest = absurd (sure refl)

retry-Counts :
    (fuel : ℕ) (net : Network) (error : ReadError) (s : HttpMediaSource)
    → max_reconnect_attempts - s.reconnect_attempts < fuel
    → Counts s.reconnect_attempts (budget s) (retry fuel net error s)
unfolding retry retry_step connect
retry-Counts zero net error s h = absurd (omega (arith, h))
retry-Counts (suc fuel) net error s h =
    let s1 : HttpMediaSource = record s {
      reconnect_attempts = s.reconnect_attempts + 1;
      requests = s.requests + 1;
      flag_reads = s.flag_reads + 1;
    } in
    let (same, made, sure) = accept-attempts s.position (net.respond s.requests s.position) s1 in
    let s2 = (accept s.position (net.respond s.requests s.position) s1).1 in
    let result = (accept s.position (net.respond s.requests s.position) s1).0 in
    let Q = λ (c : (Turn (Unit {0}) × ReadError) × HttpMediaSource).
      Counts s.reconnect_attempts (budget s) (end_or_go_on c.0.0 c.1 (retry fuel net c.0.1 c.1)) in
    if_ind Q (not s.seekable || leb max_reconnect_attempts s.reconnect_attempts) _ _
      (λ _. unfold Counts in omega arith)
      (λ go.
        if_ind Q (net.is_interrupted s.flag_reads) _ _ (λ _. unfold Counts in omega arith)
          (λ _.
            let few : s.reconnect_attempts < max_reconnect_attempts = ground arith in
            let spent : budget s2 ≡ budget s = omega (arith, few, same, made) in
            connected fuel s.reconnect_attempts (budget s) net error result s2 few same
              (omega (arith, spent)) sure
              (subst
                (λ b.
                  Counts (s.reconnect_attempts + 1) b
                    (retry fuel net (reconnected error result).1 s2))
                spent
                (subst (λ n. Counts n (budget s2) (retry fuel net (reconnected error result).1 s2))
                  same
                  (retry-Counts fuel net (reconnected error result).1 s2
                    (omega (arith, h, few, same)))))))

-- What an iteration of the outer loop comes to.
unfoldable Advances : ℕ → ℕ → Turn (List ℕ) × HttpMediaSource → Type 0
Advances n b (some (ok bytes), s') = s'.requests ≤ b
Advances n b (some (err e), s') = s'.requests ≤ b
Advances n b (some stuck, s') = ⊥
Advances n b (none, s') =
    (n < max_reconnect_attempts) × (n < s'.reconnect_attempts) × (budget s' ≤ b)

after_retry-Advances :
    (n b : ℕ) (c : Outcome ReadError (Unit {0}) × HttpMediaSource)
    → Counts n b c
    → Advances n b (after_retry c.0 c.1)
unfolding after_retry Advances Counts
after_retry-Advances n b (ok u, s') h = h
after_retry-Advances n b (err e, s') h = h
after_retry-Advances n b (stuck, s') h = absurd h

hand_out-ne-stuck : (size : ℕ) (r : ResponseReader) → (hand_out size r).0 ≢ stuck
unfolding hand_out
hand_out-ne-stuck size r e = cc

next_chunk-ne-stuck :
    (size timeout : ℕ) (cs : List Chunk) (r : ResponseReader)
    → (next_chunk size timeout cs r).0 ≢ stuck
unfolding next_chunk check_window hand_out
next_chunk-ne-stuck size timeout [] r = λ e. cc
next_chunk-ne-stuck size timeout (chunk_error ∷ cs) r = λ e. cc
next_chunk-ne-stuck size timeout (chunk bytes now ∷ cs) r =
    let Q = λ (c : Outcome ReadError (List ℕ) × ResponseReader). c.0 ≢ stuck in
    if_ind Q (ltb (now - r.window_start) timeout) _ _ (λ _. λ e. cc)
      (λ _.
        if_ind Q (ltb ((r.window_bytes + length bytes) % 2 ^ 64) min_window_bytes) _ _
          (λ _. λ e. cc) (λ _. λ e. cc))

reader_read-ne-stuck :
    (size timeout : ℕ) (r : ResponseReader) → (reader_read size timeout r).0 ≢ stuck
unfolding reader_read
reader_read-ne-stuck size timeout r =
    if_ind (λ (c : Outcome ReadError (List ℕ) × ResponseReader). c.0 ≢ stuck)
      (leb (length r.leftover) r.leftover_pos) _ _ (λ _. next_chunk-ne-stuck size timeout r.rest r)
      (λ _. hand_out-ne-stuck size r)

after_read-Advances :
    (net : Network) (x : Outcome ReadError (List ℕ)) (s : HttpMediaSource)
    → x ≢ stuck
    → Advances s.reconnect_attempts (budget s) (after_read net x s)
unfolding after_read
after_read-Advances net (ok bytes) s sure = unfold Advances in omega arith
after_read-Advances net (err e) s sure =
    let asked : HttpMediaSource = record s { flag_reads = s.flag_reads + 1 } in
    if_ind (Advances s.reconnect_attempts (budget s)) (net.is_interrupted s.flag_reads) _ _
      (λ _. unfold Advances in omega arith)
      (λ _.
        after_retry-Advances s.reconnect_attempts (budget s)
          (retry (max_reconnect_attempts + 1) net e asked)
          (retry-Counts (max_reconnect_attempts + 1) net e asked (omega arith)))
after_read-Advances net stuck s sure = absurd (sure refl)

read_step-Advances :
    (net : Network) (size : ℕ) (o : Option ResponseReader) (s : HttpMediaSource)
    → Advances s.reconnect_attempts (budget s) (read_step net size o s)
unfolding read_step
read_step-Advances net size none s = unfold Advances in omega arith
read_step-Advances net size (some r) s =
    let (x, r') = reader_read size s.read_timeout r in
    after_read-Advances net x (record s { reader = some r' })
      (reader_read-ne-stuck size s.read_timeout r)

-- A read that returns, with at most so many requests made by then.
abbrev Returns : ℕ → Outcome ReadError (List ℕ) × HttpMediaSource → Type 0
Returns b c = (c.0 ≢ stuck) × (c.1.requests ≤ b)

go_on-Returns :
    (n b fuel : ℕ) (c : Turn (List ℕ) × HttpMediaSource) (net : Network) (size : ℕ)
    → max_reconnect_attempts - n < suc fuel
    → Advances n b c
    → ((s : HttpMediaSource)
        → max_reconnect_attempts - s.reconnect_attempts < fuel
        → Returns (budget s) (source_read fuel net size s))
    → Returns b (end_or_go_on c.0 c.1 (source_read fuel net size c.1))
unfolding Advances
go_on-Returns n b fuel (some (ok bytes), s') net size h a next = (λ e. cc, a)
go_on-Returns n b fuel (some (err x), s') net size h a next = (λ e. cc, a)
go_on-Returns n b fuel (some stuck, s') net size h a next = absurd a
go_on-Returns n b fuel (none, s') net size h (few, more, left) next =
    let (ends, made) = next s' (omega (arith, h, few, more)) in (ends, omega (arith, made, left))

-- A read returns, whatever the network does, and fuel for one iteration more than reconnects are
-- left of the three in a row is enough; it makes no more requests than that many reconnects.
pub source_read-ne-stuck :
    (fuel : ℕ) (net : Network) (size : ℕ) (s : HttpMediaSource)
    → max_reconnect_attempts - s.reconnect_attempts < fuel
    → let (result, s') = source_read fuel net size s in
      (result ≢ stuck)
      × (s'.requests ≤ s.requests + (max_reconnect_attempts - s.reconnect_attempts))
unfolding source_read
source_read-ne-stuck zero net size s h = absurd (omega (arith, h))
source_read-ne-stuck (suc fuel) net size s h =
    go_on-Returns s.reconnect_attempts (budget s) fuel (read_step net size s.reader s) net size h
      (read_step-Advances net size s.reader s) (λ s' h'. source_read-ne-stuck fuel net size s' h')

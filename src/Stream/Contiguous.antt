-- ===== src/Stream/Contiguous.antt =====
-- No reconnect loses a byte of the track or gives one twice.
use lavalink_rs.Outcome.{stuck, err, ok, Outcome}
use lavalink_rs.Stream.{
  chunk_error, min_window_bytes, chunk, ReadError, reader_read, next_chunk, hand_out, check_window,
  ResponseReader, Chunk,
}
use lavalink_rs.Prelude.{
  ℕ, zero, suc, ◌+◌, ◌-◌, ◌%◌, ◌^◌, min, ◌≡◌, refl, sym, ap, ap₂, ◌∙◌, List, [], ◌∷◌, ◌++◌,
  append_assoc, arith, ltb, leb, length, take, drop, take-append-drop, drop_of_le, if_ind,
}

drop_nil : (n : ℕ) → drop {A = ℕ} n [] ≡ []
drop_nil zero = refl
drop_nil (suc n) = refl

pub drop_add : (m n : ℕ) (l : List ℕ) → drop (m + n) l ≡ drop n (drop m l)
drop_add zero n l = ap (λ k. drop k l) (omega arith)
drop_add (suc m) n [] = drop_nil (suc m + n) ∙ sym (drop_nil n)
drop_add (suc m) n (x ∷ xs) =
    let next : suc m + n ≡ suc (m + n) = omega arith in
    ap (λ k. drop k (x ∷ xs)) next ∙ drop_add m n xs

unfoldable pub body : List Chunk → List ℕ
body [] = []
body (chunk bytes now ∷ cs) = bytes ++ body cs
body (chunk_error ∷ cs) = body cs

-- What a reader has received or is going to, before the caller has got it.
unfoldable pub pending : ResponseReader → List ℕ
pending r = drop r.leftover_pos r.leftover ++ body r.rest

unfoldable pub handed_out : Outcome ReadError (List ℕ) → List ℕ
handed_out (ok bytes) = bytes
handed_out (err e) = []
handed_out stuck = []

-- A read takes what it gives from the front of what is pending.
unfoldable pub Takes : ResponseReader → Outcome ReadError (List ℕ) × ResponseReader → Type 0
Takes r (result, r') = pending r ≡ handed_out result ++ pending r'

hand_out-Takes : (size : ℕ) (r : ResponseReader) → Takes r (hand_out size r)
unfolding hand_out Takes pending handed_out
hand_out-Takes size r =
    let available = drop r.leftover_pos r.leftover in
    let n = min (length available) size in
    ap (λ l. l ++ body r.rest) (sym (take-append-drop n available))
    ∙ append_assoc (take n available) (drop n available) (body r.rest)
    ∙ ap (λ l. take n available ++ (l ++ body r.rest)) (sym (drop_add r.leftover_pos n r.leftover))

check_window-Takes :
    (size timeout now : ℕ) (r : ResponseReader) → Takes r (check_window size timeout now r)
unfolding check_window Takes pending handed_out
check_window-Takes size timeout now r =
    if_ind (Takes r) (ltb (now - r.window_start) timeout) _ _ (λ _. hand_out-Takes size r)
      (λ _.
        if_ind (Takes r) (ltb r.window_bytes min_window_bytes) _ _ (λ _. refl)
          (λ _. hand_out-Takes size (record r { window_start = now; window_bytes = 0 })))

next_chunk-Takes :
    (size timeout : ℕ) (cs : List Chunk) (r : ResponseReader)
    → drop r.leftover_pos r.leftover ≡ []
    → r.rest ≡ cs
    → Takes r (next_chunk size timeout cs r)
unfolding next_chunk Takes
next_chunk-Takes size timeout [] r used e = unfold Takes handed_out in refl
next_chunk-Takes size timeout (chunk_error ∷ cs) r used e =
    unfold Takes pending handed_out body in ap (λ l. drop r.leftover_pos r.leftover ++ body l) e
next_chunk-Takes size timeout (chunk bytes now ∷ cs) r used e =
    let r1 : ResponseReader = record r {
      rest = cs;
      leftover = bytes;
      leftover_pos = 0;
      window_bytes = (r.window_bytes + length bytes) % 2 ^ 64;
    } in
    let same : pending r ≡ pending r1 = unfold pending body in ap₂ ◌++◌ used (ap body e) in
    (same ∙ check_window-Takes size timeout now r1)

pub reader_read-Takes :
    (size timeout : ℕ) (r : ResponseReader) → Takes r (reader_read size timeout r)
unfolding reader_read
reader_read-Takes size timeout r =
    if_ind (Takes r) (leb (length r.leftover) r.leftover_pos) _ _
      (λ used.
        next_chunk-Takes size timeout r.rest r (drop_of_le r.leftover_pos r.leftover (ground arith))
          refl)
      (λ _. hand_out-Takes size r)

-- ===== src/Stream/Faithful.antt =====
-- Every read continues where the last one ended, whatever the network does in between.
use lavalink_rs.Stream.Contiguous.{handed_out}
use lavalink_rs.Stream.Read.{end_or_go_on, retry_step, retry, Turn}
use lavalink_rs.Stream.Contiguous.{drop_add, Takes, pending, body}
use lavalink_rs.Outcome.{stuck, err, ok, Outcome}
use lavalink_rs.Stream.{
  length_after, max_reconnect_attempts, connect, ReadError, Network, lengths_differ, SourceError,
  past_known_end, is_success, accept, ResponseReader, Response, HttpMediaSource,
}
use lavalink_rs.Prelude.{
  zero, suc, drop-append, take-append, length-drop, length-append, ◌-◌, ap, append_assoc, sym, ◌%◌,
  leb, ◌∙◌, ◌+◌, length, take, suc, ℕ, ◌^◌, ◌<◌, ◌≡◌, refl, Bool, true, false, not, ◌&&◌, ◌||◌,
  Option, none, some, List, ◌++◌, arith, ltb, ◌==◌, if◌then◌else◌, drop, if_ind,
}

-- One list is the beginning of another.
unfoldable pub IsPrefix : List ℕ → List ℕ → Type 0
IsPrefix xs ys = (zs : List ℕ) × (xs ++ zs ≡ ys)

-- Whether a response brings the bytes from an offset on, by its status.
unfoldable pub is_served : ℕ → Response → Bool
is_served offset response =
    is_success response.status && ((offset == 0) || (response.status == 206))

abbrev pub IsU64 : Option ℕ → Type 0
IsU64 none = Unit
IsU64 (some n) = n < 2 ^ 64

-- A length that a response tells is an u64, and a response that says so brings the bytes of the track from the offset on, perhaps not all of them.
unfoldable pub Serves : List ℕ → ℕ → Option Response → Type 0
unfolding is_served
Serves content offset none = Unit
Serves content offset (some response) =
    IsU64 response.total_length
    × (if is_served offset response
        then IsPrefix (body response.chunks) (drop offset content)
        else Unit)

-- What is pending in a source is the beginning of what follows its position.
unfoldable pub Holds : List ℕ → ℕ → Option ResponseReader → Type 0
Holds content position none = Unit
Holds content position (some r) = IsPrefix (pending r) (drop position content)

pub record IsSource (content : List ℕ) (s : HttpMediaSource) : Type 0 where
  pub holds : Holds content s.position s.reader
  pub fits : s.position < 2 ^ 64
  pub sized : IsU64 s.length_known

-- A connect that succeeds leaves the source at the offset, one that fails where it was.
abbrev pub Connects :
    List ℕ → ℕ → HttpMediaSource → Outcome SourceError (Unit {0}) × HttpMediaSource → Type 0
Connects content offset s (ok u, s') = (s'.position ≡ offset) × IsSource content s'
Connects content offset s (err e, s') = (s'.position ≡ s.position) × IsSource content s'
Connects content offset s (stuck, s') = ⊥

pass_if : {A : Type 0} (b : Bool) → b ≡ true → (if b then A else Unit) → A
pass_if true e a = a
pass_if false e a = absurd (cc)

served :
    (offset : ℕ) (x : Response)
    → not (is_success x.status) ≡ false
    → (ltb 0 offset && not (x.status == 206)) ≡ false
    → is_served offset x ≡ true
unfolding is_served
served offset x good ranged = ground arith

Serves-body :
    (content : List ℕ) (offset : ℕ) (x : Response)
    → is_served offset x ≡ true
    → Serves content offset (some x)
    → IsPrefix (body x.chunks) (drop offset content)
unfolding Serves
Serves-body content offset x e serves = pass_if (is_served offset x) e serves.1

length_after-IsU64 :
    (o : Option ℕ) (x : Response) → IsU64 o → IsU64 x.total_length → IsU64 (length_after o x)
unfolding length_after
length_after-IsU64 none x known told = told
length_after-IsU64 (some n) x known told = known

pub accept-Connects :
    (content : List ℕ) (offset : ℕ) (response : Option Response) (s : HttpMediaSource)
    → offset < 2 ^ 64
    → Serves content offset response
    → IsSource content s
    → Connects content offset s (accept offset response s)
unfolding accept
accept-Connects content offset none s fits serves h = (refl, h)
accept-Connects content offset (some x) s fits serves h =
    let Q = Connects content offset s in
    if_ind Q (ltb 0 offset && ((x.status == 416) && past_known_end offset s.length_known)) _ _
      (λ _. (refl, record { holds = unfold Holds in tt; fits = fits; sized = h.sized }))
      (λ _.
        if_ind Q (not (is_success x.status)) _ _ (λ _. (refl, h))
          (λ good.
            if_ind Q (ltb 0 offset && not (x.status == 206)) _ _ (λ _. (refl, h))
              (λ ranged.
                if_ind Q (ltb 0 offset && lengths_differ s.length_known x.total_length) _ _
                  (λ _. (refl, record { holds = h.holds; fits = h.fits; sized = h.sized }))
                  (λ _. (
                    refl,
                    record {
                      holds =
                          unfold Holds pending in
                          Serves-body content offset x (served offset x good ranged) serves;
                      fits = fits;
                      sized = unfold Serves in length_after-IsU64 s.length_known x h.sized serves.0;
                    },
                  )))))

abbrev pub Keeps : List ℕ → HttpMediaSource → HttpMediaSource → Type 0
Keeps content s s' = (s'.position ≡ s.position) × IsSource content s'

Connects-Keeps :
    (content : List ℕ) (s : HttpMediaSource) (c : Outcome SourceError (Unit {0}) × HttpMediaSource)
    → Connects content s.position s c
    → Keeps content s c.1
Connects-Keeps content s (ok u, s') h = h
Connects-Keeps content s (err e, s') h = h
Connects-Keeps content s (stuck, s') h = absurd h

-- The server answers every request with the track that it had at first.
abbrev pub IsFaithful : List ℕ → Network → Type 0
IsFaithful content net = (n offset : ℕ) → Serves content offset (net.respond n offset)

retry_step-Keeps :
    (content : List ℕ) (net : Network) (error : ReadError) (s : HttpMediaSource)
    → IsFaithful content net
    → IsSource content s
    → Keeps content s (retry_step net error s).1
unfolding retry_step connect
retry_step-Keeps content net error s faithful h =
    let Q = λ (c : (Turn (Unit {0}) × ReadError) × HttpMediaSource). Keeps content s c.1 in
    let again : HttpMediaSource = record s {
      reconnect_attempts = s.reconnect_attempts + 1;
      requests = s.requests + 1;
      flag_reads = s.flag_reads + 1;
    } in
    if_ind Q (not s.seekable || leb max_reconnect_attempts s.reconnect_attempts) _ _
      (λ _. (refl, h))
      (λ _.
        if_ind Q (net.is_interrupted s.flag_reads) _ _
          (λ _. (refl, record { holds = h.holds; fits = h.fits; sized = h.sized }))
          (λ _.
            Connects-Keeps content again
              (accept s.position (net.respond s.requests s.position) again)
              (accept-Connects content s.position (net.respond s.requests s.position) again h.fits
                (faithful s.requests s.position)
                (record { holds = h.holds; fits = h.fits; sized = h.sized }))))

go_on-Keeps :
    {A : Type 0} (content : List ℕ) (s s' : HttpMediaSource) (t : Turn A)
    (rest : Outcome ReadError A × HttpMediaSource)
    → Keeps content s s'
    → Keeps content s' rest.1
    → Keeps content s (end_or_go_on t s' rest).1
go_on-Keeps content s s' (some r) rest k k' = k
go_on-Keeps content s s' none rest k k' = (k'.0 ∙ k.0, k'.1)

pub retry-Keeps :
    (fuel : ℕ) (content : List ℕ) (net : Network) (error : ReadError) (s : HttpMediaSource)
    → IsFaithful content net
    → IsSource content s
    → Keeps content s (retry fuel net error s).1
unfolding retry
retry-Keeps zero content net error s faithful h = (refl, h)
retry-Keeps (suc fuel) content net error s faithful h =
    let k = retry_step-Keeps content net error s faithful h in
    let step = retry_step net error s in
    go_on-Keeps content s step.1 step.0.0 (retry fuel net step.0.1 step.1) k
      (retry-Keeps fuel content net step.0.1 step.1 faithful k.1)

-- What a read from position `p` comes to: the next bytes of the track, or an error that leaves the
-- position where it was.
unfoldable pub Continues : List ℕ → ℕ → Outcome ReadError (List ℕ) × HttpMediaSource → Type 0
Continues content p (ok bytes, s') =
    (bytes ≡ take (length bytes) (drop p content))
    × (s'.position ≡ p + length bytes)
    × IsSource content s'
Continues content p (err e, s') = (s'.position ≡ p) × IsSource content s'
Continues content p (stuck, s') = (s'.position ≡ p) × IsSource content s'

pub read_bytes :
    (content bytes : List ℕ) (r r' : ResponseReader) (s : HttpMediaSource)
    → length content < 2 ^ 64
    → s.position < 2 ^ 64
    → IsU64 s.length_known
    → Takes r (ok bytes, r')
    → IsPrefix (pending r) (drop s.position content)
    → Continues content s.position (
      ok bytes,
      record s {
        position = (s.position + length bytes) % 2 ^ 64;
        reader = some r';
        reconnect_attempts = 0;
      },
    )
unfolding Continues IsPrefix Takes handed_out
read_bytes content bytes r r' s short fits known takes (zs, e) =
    let whole : bytes ++ (pending r' ++ zs) ≡ drop s.position content =
      sym (append_assoc bytes (pending r') zs) ∙ ap (λ l. l ++ zs) (sym takes) ∙ e in
    let size : length bytes + length (pending r' ++ zs) ≡ length content - s.position =
      sym (length-append bytes (pending r' ++ zs))
      ∙ ap length whole
      ∙ length-drop s.position content in
    let moved : (s.position + length bytes) % 2 ^ 64 ≡ s.position + length bytes =
      omega (arith, size, short, fits) in
    (
      sym (take-append bytes (pending r' ++ zs)) ∙ ap (take (length bytes)) whole,
      moved,
      record {
        holds =
            unfold Holds in
            (
              zs,
              sym (drop-append bytes (pending r' ++ zs))
                  ∙ ap (drop (length bytes)) whole
                  ∙ sym (drop_add s.position (length bytes) content)
                  ∙ ap (λ n. drop n content) (sym moved),
            );
        fits = omega (arith, size, short, fits, moved);
        sized = known;
      },
    )

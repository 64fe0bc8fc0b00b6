-- ===== src/ModifiedUtf8/Decode.antt =====
-- What the decoding loop does on the encoder's bytes, and on any bytes at all.
use lavalink_rs.Prelude.{
  ◌^◌, All-append, ◌⊎◌, min, get_elem?_lt, bit_or, ℕ, zero, suc, ◌+◌, ◌*◌, ◌/◌, ◌%◌, ◌<◌, ◌≤◌, ◌≡◌,
  refl, sym, ap, ap₂, ◌∙◌, inl, inr, true, List, [], ◌∷◌, ◌++◌, append-nil, append_assoc, All,
  length, length-append, get_elem?, get_elem?-append, get_elem?-eq-none, some, Option-cases,
  Bool-cases, arith, ltb, leb, ◌==◌, ◌&&◌, bit_and,
}
use lavalink_rs.Prelude.Bits.{or_fields, and_mask, passes_below, passes_below_lem}
use lavalink_rs.Outcome.{Outcome, ok, err}
use lavalink_rs.Unicode.Utf16.{IsU16}
use lavalink_rs.ModifiedUtf8.{continuation, read_unit, decode_loop}
use lavalink_rs.ModifiedUtf8.Encode.{unit_bytes, units_bytes}

-- A byte of the form 10xxxxxx carries its low six bits.
continuation-ok :
    (bytes : List ℕ) (i c : ℕ)
    → c < 64
    → get_elem? bytes i ≡ some (128 + c)
    → continuation bytes i ≡ ok c
unfolding continuation
continuation-ok bytes i c h e = rw (e, tagged) (rw (and_mask 6 (128 + c)) (ap ok (omega arith)))
  where
    table : passes_below (λ x. bit_and (128 + x) 0xC0 == 0x80) 64 ≡ true
    table = unfold passes_below in refl

    tagged : (bit_and (128 + c) 0xC0 == 0x80) ≡ true
    tagged = passes_below_lem _ 64 c h table

one_byte : (bytes : List ℕ) (i u : ℕ) → u < 128 → read_unit bytes i u ≡ ok (u, i + 1)
unfolding read_unit
one_byte bytes i u h = ground arith

two_bytes :
    (bytes : List ℕ) (i hi lo : ℕ)
    → hi < 32
    → lo < 64
    → get_elem? bytes (i + 1) ≡ some (128 + lo)
    → read_unit bytes i (192 + hi) ≡ ok (hi * 64 + lo, i + 2)
unfolding read_unit
two_bytes bytes i hi lo p q e =
    ground (arith, continuation-ok bytes (i + 1) lo q e, and_mask 5 (192 + hi), or_fields 6 hi lo)

three_bytes :
    (bytes : List ℕ) (i hi mid lo : ℕ)
    → hi < 16
    → mid < 64
    → lo < 64
    → get_elem? bytes (i + 1) ≡ some (128 + mid)
    → get_elem? bytes (i + 2) ≡ some (128 + lo)
    → read_unit bytes i (224 + hi) ≡ ok (hi * 4096 + mid * 64 + lo, i + 3)
unfolding read_unit
three_bytes bytes i hi mid lo p q r e e' = ground (
  arith,
  continuation-ok bytes (i + 1) mid q e,
  continuation-ok bytes (i + 2) lo r e',
  and_mask 4 (224 + hi),
  or_fields 12 hi (mid * 64),
  or_fields 6 (hi * 64 + mid) lo,
)

abbrev Reads : List ℕ → ℕ → ℕ → ℕ → Type 0
Reads bytes i u size =
    (b : ℕ) × (get_elem? bytes i ≡ some b) × (read_unit bytes i b ≡ ok (u, i + size))

data Shape (u : ℕ) (bs : List ℕ) : Type 0 where
  single : u < 128 → bs ≡ u ∷ [] → Shape u bs
  double :
      (hi lo : ℕ)
      → hi < 32
      → lo < 64
      → u ≡ hi * 64 + lo
      → bs ≡ (192 + hi) ∷ (128 + lo) ∷ []
      → Shape u bs
  triple :
      (hi mid lo : ℕ)
      → hi < 16
      → mid < 64
      → lo < 64
      → u ≡ hi * 4096 + mid * 64 + lo
      → bs ≡ (224 + hi) ∷ (128 + mid) ∷ (128 + lo) ∷ []
      → Shape u bs

unit_bytes-Shape : (u : ℕ) → IsU16 u → Shape u (unit_bytes u)
unfolding unit_bytes
unit_bytes-Shape u h = elim (Bool-cases (leb 1 u && ltb u 128)) [
  | inl e ↦ single (ground arith) (rw e)
  | inr e ↦ elim (Bool-cases (ltb u 2048)) [
    | inl e' ↦ double (u / 64) (u % 64) (ground arith) (omega arith) (omega arith) (rw (e, e'))
    | inr e' ↦
        triple (u / 4096) (u / 64 % 64) (u % 64) (omega arith) (omega arith) (omega arith)
          (omega arith) (rw (e, e'))
  ]
]

-- One round reads back the unit whose bytes stand at the index.
Shape-Reads :
    (front bs rest : List ℕ) (u : ℕ)
    → Shape u bs
    → Reads (front ++ (bs ++ rest)) (length front) u (length bs)
Shape-Reads front bs rest u (single h e) = rw e (u, at 0, one_byte _ (length front) u h)
  where
    at : (k : ℕ) → get_elem? (front ++ (u ∷ rest)) (length front) ≡ some u
    at k = get_elem?-append front (u ∷ rest) (length front) 0 (omega arith)
Shape-Reads front bs rest u (double hi lo p q e e') =
    rw (e, e')
      (
        192 + hi,
        get_elem?-append front _ (length front) 0 (omega arith),
        two_bytes _ (length front) hi lo p q (get_elem?-append front _ (length front + 1) 1 refl),
      )
Shape-Reads front bs rest u (triple hi mid lo p q r e e') =
    rw (e, e')
      (
        224 + hi,
        get_elem?-append front _ (length front) 0 (omega arith),
        three_bytes _ (length front) hi mid lo p q r
            (get_elem?-append front _ (length front + 1) 1 refl)
            (get_elem?-append front _ (length front + 2) 2 refl),
      )

read_unit-unit_bytes :
    (front rest : List ℕ) (u : ℕ)
    → IsU16 u
    → Reads (front ++ (unit_bytes u ++ rest)) (length front) u (length (unit_bytes u))
read_unit-unit_bytes front rest u h = Shape-Reads front (unit_bytes u) rest u (unit_bytes-Shape u h)

unit_bytes_nonempty : (u : ℕ) → 0 < length (unit_bytes u)
unfolding unit_bytes
unit_bytes_nonempty u = ground arith

-- A round of the loop, with `read_unit` shut.
decode_loop_step :
    (fuel : ℕ) (bytes : List ℕ) (i b u next : ℕ) (units : List ℕ)
    → get_elem? bytes i ≡ some b
    → read_unit bytes i b ≡ ok (u, next)
    → decode_loop (suc fuel) bytes i units ≡ decode_loop fuel bytes next (units ++ (u ∷ []))
unfolding decode_loop
decode_loop_step fuel bytes i b u next units e e' = ground arith

decode_loop_end :
    (fuel : ℕ) (bytes : List ℕ) (i : ℕ) (units : List ℕ)
    → length bytes ≤ i
    → decode_loop fuel bytes i units ≡ ok units
unfolding decode_loop
decode_loop_end zero bytes i units h = ground arith
decode_loop_end (suc fuel) bytes i units h = ground (arith, get_elem?-eq-none bytes i)

-- The loop reads back all units that were written behind `front`.
pub decode_loop-units_bytes :
    (us : List ℕ) (fuel : ℕ) (front units : List ℕ)
    → All IsU16 us
    → length (units_bytes us) ≤ fuel
    → decode_loop fuel (front ++ units_bytes us) (length front) units ≡ ok (units ++ us)
unfolding units_bytes
decode_loop-units_bytes [] fuel front units h hf =
    decode_loop_end fuel (front ++ []) (length front) units
      (omega (arith, ap length (append-nil front)))
    ∙ ap ok (sym (append-nil units))
decode_loop-units_bytes (u ∷ us) zero front units h hf =
    absurd (omega (arith, unit_bytes_nonempty u, length-append (unit_bytes u) (units_bytes us)))
decode_loop-units_bytes (u ∷ us) (suc fuel) front units (hu, hs) hf =
    let (b, got, reads) = read_unit-unit_bytes front (units_bytes us) u hu in
    decode_loop_step fuel _ (length front) b u _ units got reads
    ∙ ap₂ (λ bytes i. decode_loop fuel bytes i (units ++ (u ∷ [])))
        (sym (append_assoc front (unit_bytes u) (units_bytes us)))
        (sym (length-append front (unit_bytes u)))
    ∙ decode_loop-units_bytes us fuel (front ++ unit_bytes u) (units ++ (u ∷ [])) hs shorter
    ∙ ap ok (append_assoc units (u ∷ []) us)
  where
    shorter : length (units_bytes us) ≤ fuel
    shorter = omega (arith, unit_bytes_nonempty u, length-append (unit_bytes u) (units_bytes us))

-- A continuation byte gives six bits; anything else is refused at an offset within the input.
abbrev Continues : List ℕ → Outcome ℕ ℕ → Type 0
Continues bytes r = ((c : ℕ) × (c < 64) × (r ≡ ok c)) ⊎ ((e : ℕ) × (e ≤ length bytes) × (r ≡ err e))

continuation-Continues : (bytes : List ℕ) (i : ℕ) → Continues bytes (continuation bytes i)
unfolding continuation
continuation-Continues bytes i = elim (Option-cases (get_elem? bytes i)) [
  | inl e ↦ inr (min i (length bytes), omega arith, rw e)
  | inr (b, e) ↦ elim (Bool-cases (bit_and b 0xC0 == 0x80)) [
    | inl e' ↦ inl (bit_and b 0x3F, rw (and_mask 6 b) (omega arith), rw (e, e'))
    | inr e' ↦ inr (min i (length bytes), omega arith, rw (e, e'))
  ]
]

-- A round moves forward and gives a code unit, or it fails at an offset within the input.
abbrev Rounds : List ℕ → ℕ → Outcome ℕ (ℕ × ℕ) → Type 0
Rounds bytes i r =
    ((u : ℕ) × (next : ℕ) × (i < next) × IsU16 u × (r ≡ ok (u, next)))
    ⊎ ((e : ℕ) × (e ≤ length bytes) × (r ≡ err e))

two_bytes-IsU16 : (b c : ℕ) → c < 64 → IsU16 (bit_or (bit_and b 0x1F * 2 ^ 6) c)
two_bytes-IsU16 b c h = rw (and_mask 5 b, or_fields 6 (b % 32) c h) (omega arith)

three_bytes-IsU16 :
    (b c d : ℕ) → c < 64 → d < 64 → IsU16 (bit_or (bit_or (bit_and b 0x0F * 2 ^ 12) (c * 2 ^ 6)) d)
three_bytes-IsU16 b c d p q = omega (
  arith,
  ap (λ x. bit_or (bit_or (x * 2 ^ 12) (c * 2 ^ 6)) d) (and_mask 4 b),
  ap (λ x. bit_or x d) (or_fields 12 (b % 16) (c * 64) (omega arith)),
  ap (λ x. bit_or x d) regroup,
  or_fields 6 (b % 16 * 64 + c) d q,
)
  where
    regroup : b % 16 * 2 ^ 12 + c * 64 ≡ (b % 16 * 64 + c) * 2 ^ 6
    regroup = omega arith

read_unit-Rounds :
    (bytes : List ℕ) (i b : ℕ) → i < length bytes → Rounds bytes i (read_unit bytes i b)
unfolding read_unit
read_unit-Rounds bytes i b h = elim (Bool-cases (leb b 0x7F)) [
  | inl e ↦ inl (b, i + 1, omega arith, ground arith, rw e)
  | inr e ↦ elim (Bool-cases (leb 0xC0 b && leb b 0xDF)) [
    | inl e' ↦ elim (continuation-Continues bytes (i + 1)) [
      | inl (c, p, r) ↦ inl (_, i + 2, omega arith, two_bytes-IsU16 b c p, rw (e, e', r))
      | inr (k, p, r) ↦ inr (k, p, rw (e, e', r))
    ]
    | inr e' ↦ elim (Bool-cases (leb 0xE0 b && leb b 0xEF)) [
      | inl e'' ↦ elim (continuation-Continues bytes (i + 1)) [
        | inl (c, p, r) ↦ elim (continuation-Continues bytes (i + 2)) [
          | inl (d, q, r') ↦
              inl (_, i + 3, omega arith, three_bytes-IsU16 b c d p q, rw (e, e', e'', r, r'))
          | inr (k, q, r') ↦ inr (k, q, rw (e, e', e'', r, r'))
        ]
        | inr (k, p, r) ↦ inr (k, p, rw (e, e', e'', r))
      ]
      | inr e'' ↦ inr (i, omega arith, rw (e, e', e''))
    ]
  ]
]

-- The loop ends with code units, or with an error at an offset within the input.
abbrev pub Loops : List ℕ → Outcome ℕ (List ℕ) → Type 0
Loops bytes r =
    ((us : List ℕ) × All IsU16 us × (r ≡ ok us)) ⊎ ((e : ℕ) × (e ≤ length bytes) × (r ≡ err e))

pub decode_loop-Loops :
    (fuel : ℕ) (bytes : List ℕ) (i : ℕ) (units : List ℕ)
    → length bytes ≤ fuel + i
    → All IsU16 units
    → Loops bytes (decode_loop fuel bytes i units)
unfolding decode_loop
decode_loop-Loops zero bytes i units h hu =
    inl (units, hu, decode_loop_end zero bytes i units (omega arith))
decode_loop-Loops (suc fuel) bytes i units h hu = elim (Option-cases (get_elem? bytes i)) [
  | inl e ↦ inl (units, hu, ground arith)
  | inr (b, e) ↦ elim (read_unit-Rounds bytes i b (get_elem?_lt bytes i b e)) [
    | inl (u, next, p, q, r) ↦ rw (decode_loop_step fuel bytes i b u next units e r) (
        decode_loop-Loops fuel bytes next (units ++ (u ∷ [])) (omega arith)
          (All-append IsU16 units (u ∷ []) hu (q, tt)))
    | inr (k, p, r) ↦ inr (k, p, ground arith)
  ]
]

-- ASCII bytes are code units as they stand.
pub decode_loop-ascii :
    (bs : List ℕ) (fuel : ℕ) (front units : List ℕ)
    → All (λ b. b < 0x80) bs
    → length bs ≤ fuel
    → decode_loop fuel (front ++ bs) (length front) units ≡ ok (units ++ bs)
decode_loop-ascii [] fuel front units h hf =
    decode_loop_end fuel (front ++ []) (length front) units
      (omega (arith, ap length (append-nil front)))
    ∙ ap ok (sym (append-nil units))
decode_loop-ascii (b ∷ bs) zero front units h hf = absurd (omega arith)
decode_loop-ascii (b ∷ bs) (suc fuel) front units (hb, hs) hf =
    decode_loop_step fuel _ (length front) b b _ units
      (get_elem?-append front (b ∷ bs) (length front) 0 (omega arith))
      (one_byte (front ++ (b ∷ bs)) (length front) b hb)
    ∙ ap₂ (λ bytes i. decode_loop fuel bytes i (units ++ (b ∷ [])))
        (sym (append_assoc front (b ∷ []) bs)) (sym (length-append front (b ∷ [])))
    ∙ decode_loop-ascii bs fuel (front ++ (b ∷ [])) (units ++ (b ∷ [])) hs (omega arith)
    ∙ ap ok (append_assoc units (b ∷ []) bs)

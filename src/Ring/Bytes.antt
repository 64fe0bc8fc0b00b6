-- ===== src/Ring/Bytes.antt =====
-- The copy of samples into the caller's buffer.
use lavalink_rs.Ring.{overwrite, to_le_bytes, copy_slices, copy_samples}
use lavalink_rs.Prelude.{
  ℕ, zero, suc, ◌+◌, ◌-◌, ◌*◌, ◌≤◌, min, ◌≡◌, refl, List, [], ◌∷◌, ◌++◌, arith, length, take, drop,
  length-take, length-drop, take_of_le,
}

-- The bytes of a list of samples.
unfoldable pub sample_bytes : List ℕ → List ℕ
sample_bytes [] = []
sample_bytes (sample ∷ samples) = to_le_bytes sample ++ sample_bytes samples

pub length-sample_bytes : (samples : List ℕ) → length (sample_bytes samples) ≡ length samples * 4
unfolding sample_bytes to_le_bytes
length-sample_bytes [] = refl
length-sample_bytes (sample ∷ samples) = omega (arith, length-sample_bytes samples)

pub sample_bytes-append :
    (xs ys : List ℕ) → sample_bytes (xs ++ ys) ≡ sample_bytes xs ++ sample_bytes ys
unfolding sample_bytes to_le_bytes
sample_bytes-append [] ys = refl
sample_bytes-append (x ∷ xs) ys = rw (sample_bytes-append xs ys) refl

copy_samples_lem :
    (source out : List ℕ)
    → length source * 4 ≤ length out
    → copy_samples source out ≡ overwrite (sample_bytes source) out
unfolding copy_samples sample_bytes to_le_bytes
copy_samples_lem [] out h = refl
copy_samples_lem (s ∷ source) [] h = absurd (omega arith)
copy_samples_lem (s ∷ source) (a ∷ []) h = absurd (omega arith)
copy_samples_lem (s ∷ source) (a ∷ b ∷ []) h = absurd (omega arith)
copy_samples_lem (s ∷ source) (a ∷ b ∷ c ∷ []) h = absurd (omega arith)
copy_samples_lem (s ∷ source) (a ∷ b ∷ c ∷ d ∷ out) h =
    rw (copy_samples_lem source out (omega arith)) refl

-- Two slices, one after the other.
slices :
    (front back out : List ℕ)
    → (length front + length back) * 4 ≤ length out
    → take (length front * 4) (copy_samples front out)
        ++ copy_samples back (drop (length front * 4) (copy_samples front out))
      ≡ overwrite (sample_bytes (front ++ back)) out
unfolding copy_samples sample_bytes to_le_bytes
slices [] back out h = copy_samples_lem back out (omega arith)
slices (s ∷ front) back [] h = absurd (omega arith)
slices (s ∷ front) back (a ∷ []) h = absurd (omega arith)
slices (s ∷ front) back (a ∷ b ∷ []) h = absurd (omega arith)
slices (s ∷ front) back (a ∷ b ∷ c ∷ []) h = absurd (omega arith)
slices (s ∷ front) back (a ∷ b ∷ c ∷ d ∷ out) h =
    rw (four, slices front back out (omega arith)) refl
  where
    four : suc (length front) * 4 ≡ suc (suc (suc (suc (length front * 4))))
    four = omega arith

-- What is taken from the two slices is a prefix of the whole.
take_slices :
    (head n : ℕ) (xs : List ℕ)
    → take (min n (length (take head xs))) (take head xs)
        ++ take (n - min n (length (take head xs))) (drop head xs)
      ≡ take n xs
take_slices zero n xs = rw (zero_min, all) refl
  where
    zero_min : min n 0 ≡ 0
    zero_min = omega arith

    all : n - 0 ≡ n
    all = omega arith
take_slices (suc head) zero [] = refl
take_slices (suc head) (suc n) [] =
    rw
      (
        take_of_le {A = ℕ} (min (suc n) 0) [] (omega arith),
        take_of_le {A = ℕ} (suc n - min (suc n) 0) [] (omega arith),
      )
      refl
take_slices (suc head) zero (x ∷ xs) = rw (none) refl
  where
    none : min zero (suc (length (take head xs))) ≡ 0
    none = omega arith
take_slices (suc head) (suc n) (x ∷ xs) = rw (more, rest, take_slices head n xs) refl
  where
    more : min (suc n) (suc (length (take head xs))) ≡ suc (min n (length (take head xs)))
    more = omega arith

    rest : suc n - suc (min n (length (take head xs))) ≡ n - min n (length (take head xs))
    rest = omega arith

pub copy_slices_lem :
    (head n : ℕ) (buffer out : List ℕ)
    → n ≤ length buffer
    → n * 4 ≤ length out
    → copy_slices head n buffer out ≡ overwrite (sample_bytes (take n buffer)) out
unfolding copy_slices
copy_slices_lem head n buffer out enough fits =
    rw
      (
        slices front back out (
            omega (
              arith,
              taken,
              length-take (n - min n (length (take head buffer))) (drop head buffer),
              length-drop head buffer,
              length-take head buffer,
            )),
        take_slices head n buffer,
      )
      refl
  where
    front : List ℕ
    front = take (min n (length (take head buffer))) (take head buffer)

    back : List ℕ
    back = take (n - min n (length (take head buffer))) (drop head buffer)

    taken : length front ≡ min n (length (take head buffer))
    taken = omega (arith, length-take (min n (length (take head buffer))) (take head buffer))

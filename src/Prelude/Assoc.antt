-- ===== src/Prelude/Assoc.antt =====
-- A `HashMap` as a list of its entries. The order of the entries stands for the order of its
-- iteration, which the code does not rely on.
use mathlib.Core.Option
use lavalink_rs.Prelude.{
  ◌≡◌, refl, ap, subst, inl, inr, Bool, true, false, Option, none, some, List, [], ◌∷◌,
  if◌then◌else◌, Bool-cases, if_ind,
}

module _ {ℓ κ} {K : Type ℓ} {A : Type κ} (same : K → K → Bool) where
  unfoldable pub lookup_entry : K → List (K × A) → Option A
  lookup_entry k [] = none
  lookup_entry k (e ∷ es) = let rest = lookup_entry k es in if same k e.0 then some e.1 else rest

  unfoldable pub delete_entry : K → List (K × A) → List (K × A)
  delete_entry k [] = []
  delete_entry k (e ∷ es) = let rest = delete_entry k es in if same k e.0 then rest else e ∷ rest

  unfoldable pub insert_entry : K → A → List (K × A) → List (K × A)
  unfolding delete_entry
  insert_entry k a es = (k, a) ∷ delete_entry k es

  -- A change of the value that `get_mut` finds.
  unfoldable pub adjust_entry : K → (A → A) → List (K × A) → List (K × A)
  adjust_entry k f [] = []
  adjust_entry k f (e ∷ es) =
      let rest = adjust_entry k f es in if same k e.0 then (e.0, f e.1) ∷ es else e ∷ rest

-- A test that decides equality.
pub record IsTest {ℓ} {K : Type ℓ} (same : K → K → Bool) : Type ℓ where
  pub sound : (j k : K) → same j k ≡ true → j ≡ k
  pub complete : (k : K) → same k k ≡ true

-- Keys that are the same differ from the same others.
test_of_other {ℓ} :
    {K : Type ℓ} (same : K → K → Bool)
    → IsTest same
    → (j k l : K) → same j l ≡ true
    → same k j ≡ false
    → same k l ≡ false
test_of_other same test j k l e differ = subst (λ x. same k x ≡ false) (test.sound j l e) differ

module _ {ℓ κ} {K : Type ℓ} {A : Type κ} (same : K → K → Bool) (test : IsTest same) where
  pub lookup_entry-delete_entry_same :
      (k : K) (es : List (K × A)) → lookup_entry same k (delete_entry same k es) ≡ none
  unfolding lookup_entry delete_entry
  lookup_entry-delete_entry_same k [] = refl
  lookup_entry-delete_entry_same k (e ∷ es) =
      if_ind (λ l. lookup_entry same k l ≡ none) (same k e.0) (delete_entry same k es)
        (e ∷ delete_entry same k es) (λ _. lookup_entry-delete_entry_same k es)
        (λ differ. simp differ (lookup_entry-delete_entry_same k es))

  pub lookup_entry-delete_entry_other :
      (j k : K) (es : List (K × A))
      → same k j ≡ false
      → lookup_entry same k (delete_entry same j es) ≡ lookup_entry same k es
  unfolding lookup_entry delete_entry
  lookup_entry-delete_entry_other j k [] differ = refl
  lookup_entry-delete_entry_other j k (e ∷ es) differ =
      if_ind
        (λ l. lookup_entry same k l ≡ (if same k e.0 then some e.1 else lookup_entry same k es))
        (same j e.0) (delete_entry same j es) (e ∷ delete_entry same j es)
        (λ here.
          simp (test_of_other same test j k e.0 here differ)
            (lookup_entry-delete_entry_other j k es differ))
        (λ _.
          ap (λ o. if same k e.0 then some e.1 else o)
            (lookup_entry-delete_entry_other j k es differ))

  pub lookup_entry-insert_entry_same :
      (k : K) (a : A) (es : List (K × A)) → lookup_entry same k (insert_entry same k a es) ≡ some a
  unfolding lookup_entry insert_entry
  lookup_entry-insert_entry_same k a es = simp (test.complete k) refl

  pub lookup_entry-insert_entry_other :
      (j k : K) (a : A) (es : List (K × A))
      → same k j ≡ false
      → lookup_entry same k (insert_entry same j a es) ≡ lookup_entry same k es
  unfolding lookup_entry insert_entry
  lookup_entry-insert_entry_other j k a es differ =
      simp differ (lookup_entry-delete_entry_other j k es differ)

  pub lookup_entry-adjust_entry_same :
      (k : K) (f : A → A) (a : A) (es : List (K × A))
      → lookup_entry same k es ≡ some a
      → lookup_entry same k (adjust_entry same k f es) ≡ some (f a)
  unfolding lookup_entry adjust_entry
  lookup_entry-adjust_entry_same k f a [] h = cc
  lookup_entry-adjust_entry_same k f a (e ∷ es) h = elim (Bool-cases (same k e.0)) [
    | inl here ↦ simp here (ap (Option.map f) (simp here at h))
    | inr differ ↦ simp differ (lookup_entry-adjust_entry_same k f a es (simp differ at h))
  ]

  pub lookup_entry-adjust_entry_other :
      (j k : K) (f : A → A) (es : List (K × A))
      → same k j ≡ false
      → lookup_entry same k (adjust_entry same j f es) ≡ lookup_entry same k es
  unfolding lookup_entry adjust_entry
  lookup_entry-adjust_entry_other j k f [] differ = refl
  lookup_entry-adjust_entry_other j k f (e ∷ es) differ =
      if_ind
        (λ l. lookup_entry same k l ≡ (if same k e.0 then some e.1 else lookup_entry same k es))
        (same j e.0) ((e.0, f e.1) ∷ es) (e ∷ adjust_entry same j f es)
        (λ here. simp (test_of_other same test j k e.0 here differ) refl)
        (λ _.
          ap (λ o. if same k e.0 then some e.1 else o)
            (lookup_entry-adjust_entry_other j k f es differ))

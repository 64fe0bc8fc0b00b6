-- ===== src/Session/Sweep.antt =====
-- What a sweep removes, and what it leaves, other tasks' turns between its phases included.
use lavalink_rs.Session.Keys.{eq_text-IsTest}
use lavalink_rs.Session.{Session}
use lavalink_rs.Prelude.Assoc.{
  lookup_entry-delete_entry_same, lookup_entry-delete_entry_other, lookup_entry,
}
use lavalink_rs.Unicode.{Text}
use lavalink_rs.Session.Registry.{
  sweep_expired, expired_ids, remove_found, is_expired, eq_text, Registry, remove_if_still_expired,
  remove_expired, Entry,
}
use lavalink_rs.Prelude.{
  ℕ, ◌≡◌, refl, sym, ap, ◌∙◌, subst, inl, inr, Bool, true, false, Option, none, some, List, [], ◌∷◌,
  if◌then◌else◌, Bool-cases, if_ind,
}

listed : Text → List Text → Bool
listed id [] = false
listed id (k ∷ ks) = let rest = listed id ks in if eq_text id k then true else rest

pub some_inj : {A : Type 0} {a b : A} → some a ≡ some b → a ≡ b
some_inj e = cc

module _ {J S H V : Type 0} where
  -- What a sweep makes of one entry.
  abbrev pub survivor : ℕ → Option (Entry J S H V) → Option (Entry J S H V)
  survivor now none = none
  survivor now (some e) = if is_expired e now then none else some e

  remove_same :
      (id : Text) (now : ℕ) (r : Registry J S H V)
      → lookup_entry eq_text id (remove_if_still_expired id now r).1
        ≡ survivor now (lookup_entry eq_text id r)
  unfolding remove_if_still_expired
  remove_same id now r = found (lookup_entry eq_text id r) refl
    where
      found :
          (o : Option (Entry J S H V))
          → lookup_entry eq_text id r ≡ o
          → lookup_entry eq_text id (remove_found id now o r).1 ≡ survivor now o
      found none e = unfold remove_found in e
      found (some x) e =
          unfold remove_found in
          if_ind
            (λ (p : Option (Session J S H V) × Registry J S H V).
              lookup_entry eq_text id p.1 ≡ (if is_expired x now then none else some x))
            (is_expired x now) _ _
            (λ gone. simp gone (lookup_entry-delete_entry_same eq_text eq_text-IsTest id r))
            (λ stays. simp stays e)

  remove_other :
      (id k : Text) (now : ℕ) (r : Registry J S H V)
      → eq_text id k ≡ false
      → lookup_entry eq_text id (remove_if_still_expired k now r).1 ≡ lookup_entry eq_text id r
  unfolding remove_if_still_expired
  remove_other id k now r differ = found (lookup_entry eq_text k r)
    where
      found :
          (o : Option (Entry J S H V))
          → lookup_entry eq_text id (remove_found k now o r).1 ≡ lookup_entry eq_text id r
      found none = unfold remove_found in refl
      found (some x) =
          unfold remove_found in
          if_ind
            (λ (p : Option (Session J S H V) × Registry J S H V).
              lookup_entry eq_text id p.1 ≡ lookup_entry eq_text id r)
            (is_expired x now) _ _
            (λ _. lookup_entry-delete_entry_other eq_text eq_text-IsTest k id r differ) (λ _. refl)

  survivor_twice :
      (now : ℕ) (o : Option (Entry J S H V)) → survivor now (survivor now o) ≡ survivor now o
  survivor_twice now none = refl
  survivor_twice now (some e) = elim (Bool-cases (is_expired e now)) [
    | inl gone ↦ simp gone refl
    | inr stays ↦ simp stays refl
  ]

  settled :
      (b : Bool) (now : ℕ) (o : Option (Entry J S H V))
      → (if b then survivor now (survivor now o) else survivor now o) ≡ survivor now o
  settled true now o = survivor_twice now o
  settled false now o = refl

  -- After the second phase, for whatever ids the first one found.
  remove_expired_lem :
      (id : Text) (ids : List Text) (now : ℕ) (r : Registry J S H V)
      → lookup_entry eq_text id (remove_expired ids now r).1 ≡ (
          if listed id ids
          then survivor now (lookup_entry eq_text id r)
          else lookup_entry eq_text id r)
  unfolding remove_expired listed
  remove_expired_lem id [] now r = refl
  remove_expired_lem id (k ∷ ks) now r =
      let r' = (remove_if_still_expired k now r).1 in
      elim (Bool-cases (eq_text id k)) [
        | inl here ↦ simp here (
            remove_expired_lem id ks now r'
            ∙ ap (λ o. if listed id ks then survivor now o else o)
                (subst
                  (λ x.
                    lookup_entry eq_text id (remove_if_still_expired x now r).1
                    ≡ survivor now (lookup_entry eq_text id r))
                  (eq_text-IsTest.sound id k here) (remove_same id now r))
            ∙ settled (listed id ks) now (lookup_entry eq_text id r))
        | inr differ ↦ simp differ (
            remove_expired_lem id ks now r'
            ∙ ap (λ o. if listed id ks then survivor now o else o) (remove_other id k now r differ))
      ]

  listed-expired_ids :
      (id : Text) (now : ℕ) (e : Entry J S H V) (r : Registry J S H V)
      → lookup_entry eq_text id r ≡ some e
      → is_expired e now ≡ true
      → listed id (expired_ids now r) ≡ true
  unfolding expired_ids lookup_entry listed
  listed-expired_ids id now e [] h gone = cc
  listed-expired_ids id now e (x ∷ xs) h gone = elim (Bool-cases (eq_text id x.0)) [
    | inl here ↦
        simp (subst (λ y. is_expired y now ≡ true) (sym (some_inj (simp here at h))) gone)
          (simp here refl)
    | inr differ ↦
        let ih = listed-expired_ids id now e xs (simp differ at h) gone in
        if_ind (λ l. listed id l ≡ true) (is_expired x.1 now) (x.0 ∷ expired_ids now xs)
          (expired_ids now xs) (λ _. simp differ ih) (λ _. ih)
  ]

  not_removed :
      (b : Bool) (now : ℕ) (o : Option (Entry J S H V))
      → ((e : Entry J S H V) → o ≡ some e → is_expired e now ≡ true → b ≡ true)
      → (if b then survivor now o else o) ≡ survivor now o
  not_removed true now o h = refl
  not_removed false now none h = refl
  not_removed false now (some e) h = elim (Bool-cases (is_expired e now)) [
    | inl gone ↦ absurd (cc (h e refl gone))
    | inr stays ↦ simp stays refl
  ]

  -- A sweep that is not interrupted removes exactly the entries that have expired: whatever the
  -- registry knew under an id, it knows afterwards unless it has expired.
  pub sweep_expired_lem :
      (id : Text) (now : ℕ) (r : Registry J S H V)
      → lookup_entry eq_text id (sweep_expired now r).1 ≡ survivor now (lookup_entry eq_text id r)
  unfolding sweep_expired
  sweep_expired_lem id now r =
      remove_expired_lem id (expired_ids now r) now r
      ∙ not_removed (listed id (expired_ids now r)) now (lookup_entry eq_text id r)
          (λ e h gone. listed-expired_ids id now e r h gone)

  -- The second phase of a sweep decides again: for whatever ids the first phase has found, it
  -- leaves every entry that is open, or that can be resumed, by then.
  pub remove_expired_keeps :
      (id : Text) (ids : List Text) (now : ℕ) (e : Entry J S H V) (r : Registry J S H V)
      → lookup_entry eq_text id r ≡ some e
      → is_expired e now ≡ false
      → lookup_entry eq_text id (remove_expired ids now r).1 ≡ some e
  remove_expired_keeps id ids now e r h stays =
      remove_expired_lem id ids now r ∙ simp h (simp stays (either (listed id ids)))
    where
      either : (b : Bool) → (if b then some e else some e) ≡ some e
      either true = refl
      either false = refl

-- ===== src/Session/Fresh.antt =====
-- `SessionRegistry::open` finds an id that is not taken.
use lavalink_rs.Sink.{new_sink}
use lavalink_rs.Session.{new_session, open_state, Session}
use lavalink_rs.Session.Keys.{eq_text-IsTest}
use lavalink_rs.PlayerModel.{is_some}
use lavalink_rs.Prelude.Assoc.{
  lookup_entry-insert_entry_other, lookup_entry-insert_entry_same, insert_entry,
  lookup_entry-delete_entry_other, lookup_entry, delete_entry,
}
use lavalink_rs.Unicode.{Text}
use lavalink_rs.Session.Registry.{open_session, Entry, fresh_id, eq_text, Registry}
use lavalink_rs.Prelude.{
  sym, subst, if◌then◌else◌, refl, Option-cases, none, some, ◌⊎◌, Option, ℕ, suc, ◌≤◌, ◌<◌, ◌≡◌, ap,
  ◌∙◌, inl, inr, true, false, List, [], ◌∷◌, arith, Bool-cases, length, All, if_ind,
}

-- No candidate comes twice.
unfoldable pub IsDistinct : List Text → Type 0
IsDistinct [] = Unit
IsDistinct (c ∷ cs) = All (λ d. eq_text d c ≡ false) cs × IsDistinct cs

module _ {J S H V : Type 0} where
  IsTaken : Registry J S H V → Text → Type 0
  IsTaken r c = is_some (lookup_entry eq_text c r) ≡ true

  length-delete : (c : Text) (r : Registry J S H V) → length (delete_entry eq_text c r) ≤ length r
  unfolding delete_entry
  length-delete c [] = omega arith
  length-delete c (e ∷ es) =
      if_ind (λ l. length l ≤ suc (length es)) (eq_text c e.0) (delete_entry eq_text c es)
        (e ∷ delete_entry eq_text c es) (λ _. omega (arith, length-delete c es))
        (λ _. omega (arith, length-delete c es))

  length-delete-IsTaken :
      (c : Text) (r : Registry J S H V) → IsTaken r c → length (delete_entry eq_text c r) < length r
  unfolding delete_entry lookup_entry IsTaken
  length-delete-IsTaken c [] h = cc
  length-delete-IsTaken c (e ∷ es) h = elim (Bool-cases (eq_text c e.0)) [
    | inl here ↦ simp here (omega (arith, length-delete c es))
    | inr differ ↦ simp differ (omega (arith, length-delete-IsTaken c es (simp differ at h)))
  ]

  -- More distinct keys than entries are not all taken.
  too_many :
      (cs : List Text) (r : Registry J S H V)
      → IsDistinct cs
      → All (IsTaken r) cs
      → length cs ≤ length r
  unfolding IsDistinct
  too_many [] r d all = omega arith
  too_many (c ∷ cs) r d all =
      let rest = too_many cs (delete_entry eq_text c r) d.1 (still cs d.0 all.1) in
      omega (arith, rest, length-delete-IsTaken c r all.0)
    where
      still :
          (ds : List Text)
          → All (λ d. eq_text d c ≡ false) ds
          → All (IsTaken r) ds
          → All (IsTaken (delete_entry eq_text c r)) ds
      still [] away held = tt
      still (x ∷ xs) away held = (
        unfold IsTaken in
            ap is_some (lookup_entry-delete_entry_other eq_text eq_text-IsTest c x r away.0)
            ∙ held.0,
        still xs away.1 held.1,
      )

  fresh_found :
      (cs : List Text) (r : Registry J S H V)
      → All (IsTaken r) cs
        ⊎ ((id : Text) × (fresh_id cs r ≡ some id) × (lookup_entry eq_text id r ≡ none))
  unfolding fresh_id IsTaken
  fresh_found [] r = inl tt
  fresh_found (c ∷ cs) r = found (Option-cases (lookup_entry eq_text c r)) (fresh_found cs r)
    where
      found :
          ((lookup_entry eq_text c r ≡ none)
            ⊎ ((e : Entry J S H V) × (lookup_entry eq_text c r ≡ some e)))
          → (All (IsTaken r) cs
              ⊎ ((id : Text) × (fresh_id cs r ≡ some id) × (lookup_entry eq_text id r ≡ none)))
          → All (IsTaken r) (c ∷ cs)
            ⊎ ((id : Text) × (fresh_id (c ∷ cs) r ≡ some id) × (lookup_entry eq_text id r ≡ none))
      found (inl none_there) rest = inr (c, simp none_there refl, none_there)
      found (inr (e, there)) (inl all) = inl (ap is_some there, all)
      found (inr (e, there)) (inr (id, eq, none_there)) = inr (id, simp there eq, none_there)

  found_after :
      (id known : Text) (e : Entry J S H V) (r : Registry J S H V)
      → lookup_entry eq_text known (insert_entry eq_text id e r)
        ≡ (if eq_text known id then some e else lookup_entry eq_text known r)
  found_after id known e r = elim (Bool-cases (eq_text known id)) [
    | inl same ↦
        subst (λ k. lookup_entry eq_text k (insert_entry eq_text id e r) ≡ some e)
          (sym (eq_text-IsTest.sound known id same))
          (lookup_entry-insert_entry_same eq_text eq_text-IsTest id e r)
        ∙ simp same refl
    | inr differ ↦
        lookup_entry-insert_entry_other eq_text eq_text-IsTest id known e r differ
        ∙ simp differ refl
  ]

  -- Once `generate_session_id` has drawn more distinct candidates than there are sessions, the loop
  -- of `open` has ended: it opens a session under an id that was not taken, new and with an empty
  -- queue; that id then finds this session, and every other id what it found before.
  pub open_session_ends :
      (cs : List Text) (user_id : ℕ) (client_name : Option Text) (known : Text)
      (r : Registry J S H V)
      → IsDistinct cs
      → length r < length cs
      → (s : Session J S H V) × (r' : Registry J S H V) × (open_session cs user_id client_name r
          ≡ some (s, r'))
        × (lookup_entry eq_text s.id r ≡ none)
        × (lookup_entry eq_text s.id r' ≡ some (record { session = s; state = open_state }))
        × (s.sink ≡ new_sink)
        × (lookup_entry eq_text known r' ≡ (
            if eq_text known s.id
            then some (record { session = s; state = open_state })
            else lookup_entry eq_text known r))
  open_session_ends cs user_id client_name known r d enough = elim (fresh_found cs r) [
    | inl all ↦ absurd (omega (arith, too_many cs r d all, enough))
    | inr (id, fresh, free) ↦
        let s = new_session {J = J} {S = S} {H = H} {V = V} id user_id client_name in
        (
          s,
          insert_entry eq_text id (record { session = s; state = open_state }) r,
          unfold open_session new_session in simp fresh refl,
          unfold new_session in free,
          unfold new_session in lookup_entry-insert_entry_same eq_text eq_text-IsTest id _ r,
          unfold new_session in refl,
          unfold new_session in found_after id known _ r,
        )
  ]

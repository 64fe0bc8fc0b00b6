-- ===== src/Session/Keys.antt =====
-- Ids are the same exactly when they are equal, and what the registry's map is asked for.
use lavalink_rs.Session.Registry.{Registry, Entry, eq_text}
use lavalink_rs.Unicode.{Text}
use lavalink_rs.Prelude.Assoc.{lookup_entry-adjust_entry_same, adjust_entry, lookup_entry, IsTest}
use lavalink_rs.Prelude.{
  ◌≡◌, refl, ap₂, inl, inr, true, some, [], ◌∷◌, ◌==◌, ==_iff, ==_refl, Bool-cases,
}

eq_text_sound : (c d : Text) → eq_text c d ≡ true → c ≡ d
unfolding eq_text
eq_text_sound [] [] e = refl
eq_text_sound [] (d ∷ ds) e = cc
eq_text_sound (c ∷ cs) [] e = cc
eq_text_sound (c ∷ cs) (d ∷ ds) e = elim (Bool-cases (c == d)) [
  | inl same ↦ ap₂ ◌∷◌ ((==_iff c d).0 same) (eq_text_sound cs ds (simp same at e))
  | inr differ ↦ absurd (cc (simp differ at e))
]

eq_text_complete : (c : Text) → eq_text c c ≡ true
unfolding eq_text
eq_text_complete [] = refl
eq_text_complete (c ∷ cs) = simp (==_refl c) (eq_text_complete cs)

pub eq_text-IsTest : IsTest eq_text
eq_text-IsTest = record { sound = eq_text_sound; complete = eq_text_complete }

pub ==-IsTest : IsTest ◌==◌
==-IsTest = record { sound = λ j k e. (==_iff j k).0 e; complete = ==_refl }

module _ {J S H V : Type 0} where
  pub lookup-adjust :
      (id : Text) (f : Entry J S H V → Entry J S H V) (e : Entry J S H V) (r : Registry J S H V)
      → lookup_entry eq_text id r ≡ some e
      → lookup_entry eq_text id (adjust_entry eq_text id f r) ≡ some (f e)
  lookup-adjust id f e r h = lookup_entry-adjust_entry_same eq_text eq_text-IsTest id f e r h

-- ===== src/Session/Players.antt =====
-- The players of a session: one for each guild.
use lavalink_rs.Prelude.Assoc.{
  lookup_entry-insert_entry_other, lookup_entry-insert_entry_same, insert_entry, lookup_entry,
}
use lavalink_rs.Session.{
  or_insert_with, voice_of, player, get_or_create_player, players, Session, take_players,
  GuildPlayer,
}
use lavalink_rs.Prelude.{ℕ, ◌≡◌, refl, sym, ap, subst, true, false, Option, none, some, [], ◌==◌}
use mathlib.Core.Option
use lavalink_rs.Session.Keys.{==-IsTest}

-- The player that a guild has from then on: its own, or the one that is built for it.
abbrev pub held_or : {H V : Type 0} → GuildPlayer H V → Option (GuildPlayer H V) → GuildPlayer H V
held_or built (some g) = g
held_or built none = built

module _ {J S H V : Type 0} where
  -- What a caller got, and what the session is then good for.
  abbrev IsShared :
      ℕ
      → ℕ
      → GuildPlayer H V
      → GuildPlayer H V
      → Session J S H V
      → Option (GuildPlayer H V) × Session J S H V
      → Type 0
  IsShared guild other first second s (x, s') =
      (x ≡ some (held_or first (lookup_entry ◌==◌ guild s.guilds)))
      × (get_or_create_player guild second s' ≡ (x, s'))
      × (player guild s' ≡ Option.map (λ (g : GuildPlayer H V). g.handle) x)
      × (voice_of guild s' ≡ Option.map (λ (g : GuildPlayer H V). g.voice) x)
      × (player other s' ≡ player other s)

  live_get :
      (guild : ℕ) (built : GuildPlayer H V) (o : Option (GuildPlayer H V)) (s : Session J S H V)
      → s.alive ≡ true
      → lookup_entry ◌==◌ guild s.guilds ≡ o
      → get_or_create_player guild built s
        ≡ (some (or_insert_with guild built o s).0, (or_insert_with guild built o s).1)
  unfolding get_or_create_player
  live_get guild built o s live h = simp live (
      ap
        (λ (o : Option (GuildPlayer H V)).
          (some (or_insert_with guild built o s).0, (or_insert_with guild built o s).1))
        h)

  found-IsShared :
      (guild other : ℕ) (built second g : GuildPlayer H V) (s t : Session J S H V)
      → s.alive ≡ true
      → lookup_entry ◌==◌ guild s.guilds ≡ some g
      → g ≡ held_or built (lookup_entry ◌==◌ guild t.guilds)
      → player other s ≡ player other t
      → IsShared guild other built second t (some g, s)
  found-IsShared guild other built second g s t live h held others = (
    ap some held,
    unfold or_insert_with in live_get guild second (some g) s live h,
    unfold player in ap (Option.map (λ (g : GuildPlayer H V). g.handle)) h,
    unfold voice_of in ap (Option.map (λ (g : GuildPlayer H V). g.voice)) h,
    others,
  )

  got-IsShared :
      (guild other : ℕ) (first second : GuildPlayer H V) (o : Option (GuildPlayer H V))
      (s : Session J S H V)
      → s.alive ≡ true
      → (other == guild) ≡ false
      → lookup_entry ◌==◌ guild s.guilds ≡ o
      → IsShared guild other first second s
          (some (or_insert_with guild first o s).0, (or_insert_with guild first o s).1)
  unfolding or_insert_with
  got-IsShared guild other first second (some g) s live differ h =
      found-IsShared guild other first second g s s live h (sym (ap (held_or first) h)) refl
  got-IsShared guild other first second none s live differ h =
      found-IsShared guild other first second first
        (record s { guilds = insert_entry ◌==◌ guild first s.guilds }) s live
        (lookup_entry-insert_entry_same ◌==◌ ==-IsTest guild first s.guilds)
        (sym (ap (held_or first) h))
        (unfold player in
          ap (Option.map (λ (g : GuildPlayer H V). g.handle))
            (lookup_entry-insert_entry_other ◌==◌ ==-IsTest guild other first s.guilds differ))

  -- In a live session, a caller that wants the player of a guild gets the one that the guild has,
  -- or else the one built for the call; a second caller gets the same one and changes nothing; from
  -- then on the guild has this player, with the voice connection that belongs to it, and every other
  -- guild has what it had.
  pub get_or_create_player_once :
      (guild other : ℕ) (first second : GuildPlayer H V) (s : Session J S H V)
      → s.alive ≡ true
      → (other == guild) ≡ false
      → let (x, s') = get_or_create_player guild first s in
        (x ≡ some (held_or first (lookup_entry ◌==◌ guild s.guilds)))
        × (get_or_create_player guild second s' ≡ (x, s'))
        × (player guild s' ≡ Option.map (λ (g : GuildPlayer H V). g.handle) x)
        × (voice_of guild s' ≡ Option.map (λ (g : GuildPlayer H V). g.voice) x)
        × (player other s' ≡ player other s)
  get_or_create_player_once guild other first second s live differ =
      let o = lookup_entry ◌==◌ guild s.guilds in
      subst (IsShared guild other first second s) (sym (live_get guild first o s live refl))
        (got-IsShared guild other first second o s live differ refl)

  -- never gets another one, also not by a request that was under way.
  pub take_players-get_or_create_player :
      (guild : ℕ) (built : GuildPlayer H V) (s : Session J S H V)
      → let (taken, s') = take_players s in
        (taken ≡ players s) × (players s' ≡ []) × (get_or_create_player guild built s' ≡ (none, s'))
  unfolding take_players players get_or_create_player
  take_players-get_or_create_player guild built s = (refl, refl, refl)

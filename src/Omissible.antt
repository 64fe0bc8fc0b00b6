-- ===== src/Omissible.antt =====
-- A field that a request may leave out: crates/protocol/src/omissible.rs, without serialization.
use lavalink_rs.Prelude.{Bool, Option, none, some, if◌then◌else◌}

pub data Omissible {ℓ} (A : Type ℓ) : Type ℓ where
  omitted : Omissible A
  present : A → Omissible A

module _ {ℓ} {A : Type ℓ} where
  abbrev pub into_option : Omissible A → Option A
  into_option omitted = none
  into_option (present a) = some a

  abbrev pub take_if : Bool → Omissible A → Option A
  take_if condition o = if condition then into_option o else none

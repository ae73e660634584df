-- ===== src/Controller/Names.antt =====
-- `deviceProcessName`. Names are ASCII, as the API server admits no other, so that a byte is a
-- character.
pub mod Laws
use praetor.Base.{
  ℕ, ◌-◌, Bool, true, ◌&&◌, ltb, leb, eqb, List, [], ◌∷◌, String, ◌==◌, if◌then◌else◌, join,
}
use praetor.Base.Text.{text_length, text_take, trim}
use praetor.Controller.Env.{Env}
use Prim.Native.Char.{Char, code}

-- validation.DNS1123SubdomainMaxLength
abbrev pub max_length : ℕ
max_length = 253

unfoldable pub is_dash : Char → Bool
is_dash c = eqb (code c) 45

module _ {W : Type 0} (env : Env W) where
  unfoldable pub name_hash : String → String → String
  unfolding join text_take
  name_hash deployment device = text_take 10 (env.sha1_hex (join (deployment ∷ ":" ∷ device ∷ [])))

  -- The prefix of a hashed name, for a hash of the length.
  unfoldable pub name_prefix : ℕ → String → String
  unfolding text_length text_take is_dash
  name_prefix hash_length deployment =
      let longest = max_length - hash_length - 1 in
      let lower = env.to_lower deployment in
      let cut = if ltb longest (text_length lower) then text_take longest lower else lower in
      let trimmed = trim is_dash cut in if trimmed == "" then "dpd" else trimmed

  unfoldable pub device_process_name : String → String → String
  unfolding join text_length name_hash name_prefix
  device_process_name deployment device =
      let base = env.to_lower (join (deployment ∷ "-" ∷ device ∷ [])) in
      let hash = name_hash deployment device in
      if env.is_dns1123_subdomain base && leb (text_length base) max_length
      then base
      else join (name_prefix (text_length hash) deployment ∷ "-" ∷ hash ∷ [])

-- ===== src/Controller/Names/Laws.antt =====
-- The names of DeviceProcesses.
use praetor.Base.{
  ℕ, ◌≤◌, ◌+◌, ◌-◌, ◌≡◌, true, ltb, [], ◌∷◌, String, ◌==◌, arith, if◌then◌else◌, join, Bool-cases,
  inl, inr,
}
use text.Mathlib.TextLemmas.{append-nil, append_assoc}
use praetor.Base.Text.{text_length, text_take, trim}
use praetor.Base.TextLength.{text_length-append, text_length-take, text_length-trim}
use praetor.Controller.Env.{Env}
use praetor.Controller.Names.{is_dash, name_hash, name_prefix, device_process_name}

text_length-pair :
    (a b c : String)
    → text_length (join (a ∷ b ∷ c ∷ [])) ≡ text_length a + (text_length b + text_length c)
unfolding join text_length
text_length-pair a b c = omega (
  arith,
  text_length-append a (join (b ∷ c ∷ [])),
  text_length-append b (join (c ∷ [])),
  text_length-append c (join []),
)

module _ {W : Type 0} (env : Env W) where
  name_prefix-le :
      (n : ℕ) (deployment : String) → n ≤ 10 → text_length (name_prefix env n deployment) ≤ 252 - n
  unfolding name_prefix text_length
  name_prefix-le n deployment h =
      let lower = env.to_lower deployment in
      let longest = 253 - n - 1 in
      let cut = if ltb longest (text_length lower) then text_take longest lower else lower in
      let short : text_length cut ≤ longest = ground (arith, text_length-take longest lower) in
      let trimmed = text_length-trim is_dash cut in
      elim (Bool-cases (trim is_dash cut == "")) [
        | inl e ↦ rw e (omega arith)
        | inr e ↦ rw e (omega arith)
      ]

  -- The name of a process has at most 253 characters, whatever the names that it is made of.
  pub device_process_name-length :
      (deployment device : String) → text_length (device_process_name env deployment device) ≤ 253
  unfolding device_process_name name_hash
  device_process_name-length deployment device =
      let hash = name_hash env deployment device in
      let ten = text_length-take 10 (env.sha1_hex (join (deployment ∷ ":" ∷ device ∷ []))) in
      let pair = text_length-pair (name_prefix env (text_length hash) deployment) "-" hash in
      let prefix = name_prefix-le (text_length hash) deployment ten in
      ground (arith, ten, pair, prefix)

  join_dashes :
      (a b c : String)
      → join (join (a ∷ "-" ∷ b ∷ []) ∷ "-" ∷ c ∷ [])
        ≡ join (a ∷ "-" ∷ join (b ∷ "-" ∷ c ∷ []) ∷ [])
  unfolding join
  join_dashes a b c = simp (append-nil, append_assoc)

  -- Deployments of two names may want one name for the processes of two devices: where the name
  -- is valid, `a-b` on the device `c` and `a` on the device `b-c` have the same.
  pub names_collide :
      (a b c : String)
      → env.is_dns1123_subdomain (env.to_lower (join (a ∷ "-" ∷ join (b ∷ "-" ∷ c ∷ []) ∷ [])))
        ≡ true
      → text_length (env.to_lower (join (a ∷ "-" ∷ join (b ∷ "-" ∷ c ∷ []) ∷ []))) ≤ 253
      → device_process_name env (join (a ∷ "-" ∷ b ∷ [])) c
        ≡ device_process_name env a (join (b ∷ "-" ∷ c ∷ []))
  unfolding device_process_name
  names_collide a b c valid short = rw (join_dashes a b c) (rw valid (ground (arith, short)))

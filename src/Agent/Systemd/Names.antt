-- ===== src/Agent/Systemd/Names.antt =====
-- The names of units.
use Prim.Native.String.{String, [], ◌∷◌}
use mathlib.Core.List.{List}
use praetor.Base.{
  ◌≡◌, ◌≤◌, ◌-◌, refl, true, ◌==◌, arith, join, trim_space, inl, inr, Bool-cases, leb,
  if◌then◌else◌,
}
use praetor.Base.Text.{text_length, text_take, trim}
use praetor.Base.TextLength.{text_length-append, text_length-take}
use praetor.Base.TextChars.{all_chars, all_chars-join, all_chars-take, all_chars-trim}
use praetor.Agent.Env.{Env}
use praetor.Agent.Systemd.{
  is_valid, is_dash, replace_invalid, sanitize, shorten, full_base, sanitized_base,
}

replace_invalid_lem : (s : String) → all_chars is_valid (replace_invalid s) ≡ true
unfolding all_chars replace_invalid
replace_invalid_lem [] = refl
replace_invalid_lem (c ∷ s) = elim (Bool-cases (is_valid c)) [
  | inl e ↦ rw e (rw e (replace_invalid_lem s))
  | inr e ↦ rw e (replace_invalid_lem s)
]

module _ {W : Type 0} (env : Env W) where
  sanitize_lem : (s : String) → all_chars is_valid (sanitize env s) ≡ true
  unfolding sanitize all_chars
  sanitize_lem s =
      let clean = replace_invalid (trim_space (env.to_lower s)) in
      elim (Bool-cases (trim is_dash clean == "")) [
        | inl e ↦ rw e refl
        | inr e ↦ rw e (
            all_chars-trim is_valid is_dash clean
              (replace_invalid_lem (trim_space (env.to_lower s))))
      ]

  full_base_lem :
      (namespace name : String) → all_chars is_valid (full_base env namespace name) ≡ true
  unfolding full_base all_chars
  full_base_lem namespace name =
      all_chars-join is_valid
        (List.◌∷◌ "apollo-"
          (List.◌∷◌ (sanitize env namespace) (List.◌∷◌ "-" (List.◌∷◌ (sanitize env name) List.[]))))
        (refl, (sanitize_lem namespace, (refl, (sanitize_lem name, tt))))

  shorten_lem :
      (base : String)
      → all_chars is_valid base ≡ true
      → all_chars is_valid (env.sha256_hex base) ≡ true
      → all_chars is_valid (shorten env base) ≡ true
  unfolding shorten all_chars
  shorten_lem base h hex =
      let suffix = text_take 8 (env.sha256_hex base) in
      let room = 80 - text_length suffix - 1 in
      let keep = if leb 1 room then room else 1 in
      all_chars-join is_valid
        (List.◌∷◌ (text_take keep base) (List.◌∷◌ "-" (List.◌∷◌ suffix List.[])))
        (
          all_chars-take is_valid keep base h,
          (refl, (all_chars-take is_valid 8 (env.sha256_hex base) hex, tt)),
        )

  shorten-length : (base : String) → text_length (shorten env base) ≤ 80
  unfolding shorten text_length join
  shorten-length base =
      let suffix = text_take 8 (env.sha256_hex base) in
      let eight = text_length-take 8 (env.sha256_hex base) in
      let keep = if leb 1 (80 - text_length suffix - 1) then 80 - text_length suffix - 1 else 1 in
      let a = text_length-take keep base in
      let b =
        text_length-append (text_take keep base) (join (List.◌∷◌ "-" (List.◌∷◌ suffix List.[]))) in
      let c = text_length-append "-" (join (List.◌∷◌ suffix List.[])) in
      let d = text_length-append suffix "" in ground (arith, eight, a, b, c, d)

  bounds_of :
      (base : String)
      → all_chars is_valid base ≡ true
      → all_chars is_valid (env.sha256_hex base) ≡ true
      → (text_length (if leb (text_length base) 80 then base else shorten env base) ≤ 80)
        × (all_chars is_valid (if leb (text_length base) 80 then base else shorten env base) ≡ true)
  bounds_of base h hex = elim (Bool-cases (leb (text_length base) 80)) [
    | inl e ↦ rw e (ground arith, h)
    | inr e ↦ rw e (shorten-length base, shorten_lem base h hex)
  ]

  -- The base of a unit's name has at most 80 characters, all of them letters, digits, dashes, dots or
  -- underscores, where a digest in hexadecimal has such characters only: the name is one element of a
  -- path, whatever the namespace and the name of the process.
  pub sanitized_base_bounds :
      (namespace name : String)
      → ((s : String) → all_chars is_valid (env.sha256_hex s) ≡ true)
      → (text_length (sanitized_base env namespace name) ≤ 80)
        × (all_chars is_valid (sanitized_base env namespace name) ≡ true)
  unfolding sanitized_base
  sanitized_base_bounds namespace name hex =
      let base = full_base env namespace name in
      bounds_of base (full_base_lem namespace name) (hex base)

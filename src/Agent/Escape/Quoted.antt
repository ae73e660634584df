-- ===== src/Agent/Escape/Quoted.antt =====
-- What a reader of a quoted text gets back.
use Prim.Native.Char.{Char, code}
use Prim.Native.String
use Prim.Native.String.{String, [], ◌∷◌}
use mathlib.Core.Path.{◌≡◌, refl}
use mathlib.Core.Bool.{Bool, true, false, ◌||◌}
use mathlib.Core.Logic.{inl, inr}
use mathlib.Core.Option.{Option, none, some}
use native.Mathlib.Omega.{arith}
use text.Mathlib.TextLemmas.{nil-append, cons-append}
use praetor.Base.Tests.{eqb, if◌then◌else◌, Bool-cases}
use praetor.Agent.Escape.{put_backslash, escape}

-- A character in front of the value that was read.
push : Char → Option (String × String) → Option (String × String)
push c none = none
push c (some (v, rest)) = some (c ∷ v, rest)

-- Reads up to the closing quote: a backslash stands for the character behind it. The flag tells that a
-- backslash was read. The value, and what follows the quote.
unfoldable pub read_quoted : Bool → String → Option (String × String)
unfolding push
read_quoted escaped [] = none
read_quoted true (c ∷ s) = push c (read_quoted false s)
read_quoted false (c ∷ s) =
    let plain = read_quoted false s in
    let behind = read_quoted true s in
    if eqb (code c) b'"' then some ([], s) else if eqb (code c) b'\\' then behind else push c plain

escape-cons :
    (c : Char) (v : String)
    → escape (c ∷ v)
      ≡ (if eqb (code c) b'\\' || eqb (code c) b'"' then "\\" ∷ c ∷ escape v else c ∷ escape v)
unfolding escape put_backslash
escape-cons c v = ground arith

-- One character that is read back in front of the rest.
read_escape-cons :
    (c : Char) (v tail : String) (value : Option (String × String))
    → read_quoted false (String.◌++◌ (escape v) tail) ≡ value
    → read_quoted false (String.◌++◌ (escape (c ∷ v)) tail) ≡ push c value
unfolding read_quoted push
read_escape-cons c v tail value again = elim (Bool-cases (eqb (code c) b'\\')) [
  | inl e ↦ rw (escape-cons c v) (rw e (rw cons-append (rw cons-append (rw again refl))))
  | inr e ↦ elim (Bool-cases (eqb (code c) b'"')) [
    | inl q ↦ rw (escape-cons c v) (rw e (rw q (rw cons-append (rw cons-append (rw again refl)))))
    | inr q ↦
        rw (escape-cons c v)
          (rw e (rw q (rw cons-append (rw (e, read_quoted) (rw (q, read_quoted) (rw again refl))))))
  ]
]

-- Behind an opening quote a reader gets the value back from what was escaped, up to the closing quote,
-- whatever the value holds and whatever follows.
pub read_quoted-escape :
    (v rest : String)
    → read_quoted false (String.◌++◌ (escape v) (String.◌∷◌ "\"" rest)) ≡ some (v, rest)
unfolding read_quoted escape put_backslash push
read_quoted-escape [] rest = rw nil-append refl
read_quoted-escape (c ∷ v) rest =
    read_escape-cons c v (String.◌∷◌ "\"" rest) (some (v, rest)) (read_quoted-escape v rest)

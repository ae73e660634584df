-- ===== src/Agent/Keys/Laws.antt =====
-- The round trip of a key.
use Prim.Native.String.{String, [], ◌∷◌}
use mathlib.Core.Path.{◌≡◌, refl, ap}
use mathlib.Core.Bool.{false}
use mathlib.Core.Option.{some}
use native.Mathlib.Omega.{arith}
use text.Mathlib.Text.{◌==◌}
use text.Mathlib.TextLemmas.{nil-append, cons-append}
use praetor.Base.Result.{ok}
use praetor.Agent.Escape.{contains_any}
use praetor.Agent.Keys.{is_slash, item_key, push, cut, check_parts, split_key}

cut-item_key :
    (ns name : String) → contains_any is_slash ns ≡ false → cut (item_key ns name) ≡ some (ns, name)
unfolding cut item_key contains_any
cut-item_key [] name h = rw nil-append (rw cons-append (rw nil-append refl))
cut-item_key (c ∷ ns) name h =
    let plain : is_slash c ≡ false = ground arith in
    rw cons-append (rw (plain, cut) (ap (push c) (cut-item_key ns name (ground arith))))

-- A key of a namespace without a slash is split into the namespace and the name that it was made of,
-- where neither is empty.
pub split_key-item_key :
    (ns name : String)
    → contains_any is_slash ns ≡ false
    → (ns == "" ≡ false)
    → (name == "" ≡ false)
    → split_key (item_key ns name) ≡ ok (ns, name)
unfolding split_key check_parts
split_key-item_key ns name h e f = rw (cut-item_key ns name h) (rw e (rw f refl))

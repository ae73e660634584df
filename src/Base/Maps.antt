-- ===== src/Base/Maps.antt =====
-- Go's maps with string keys, as association lists. `insert` keeps one entry for each key, so a
-- `range` loop over the map is a recursion on the list; Go leaves the order of such a loop open.
use Prim.Native.String.{String}
use mathlib.Core.Path.{◌≡◌, refl}
use mathlib.Core.Bool.{Bool, not}
use mathlib.Core.Option.{Option, none, some}
use mathlib.Core.List.{List, [], ◌∷◌}
use native.Mathlib.Omega.{arith}
use text.Mathlib.Text.{◌==◌}
use text.Mathlib.TextEquality.{eq_iff}
use text.Mathlib.TextPositions.{eq_refl}
use praetor.Base.Tests.{is_nil, if◌then◌else◌}

abbrev pub Map {ℓ} : Type ℓ → Type ℓ
Map V = List (String × V)

module _ {ℓ} {V : Type ℓ} where
  -- v, ok := m[k]
  unfoldable pub lookup : String → Map V → Option V
  lookup k [] = none
  lookup k ((j, v) ∷ m) = let rest = lookup k m in if j == k then some v else rest

  -- m[k] = v
  unfoldable pub insert : String → V → Map V → Map V
  insert k v [] = (k, v) ∷ []
  insert k v ((j, w) ∷ m) = let rest = insert k v m in if j == k then (k, v) ∷ m else (j, w) ∷ rest

  -- After a write every key but the written one reads as before.
  pub lookup-insert :
      (written asked : String) (value : V) (entries : Map V)
      → lookup asked (insert written value entries)
        ≡ (if written == asked then some value else lookup asked entries)
  unfolding lookup insert
  lookup-insert written asked value [] = refl
  lookup-insert written asked value ((other, held) ∷ entries) =
      let rest = lookup-insert written asked value entries in
      ground (arith, rest, eq_iff other written, eq_iff other asked, eq_iff written asked)

  pub lookup-insert_self : (k : String) (v : V) (m : Map V) → lookup k (insert k v m) ≡ some v
  lookup-insert_self k v m = simp (lookup-insert, eq_refl)

  -- for k, v := range extras { result[k] = v }
  unfoldable pub insert_all : Map V → Map V → Map V
  insert_all [] result = result
  insert_all ((k, v) ∷ extras) result = insert_all extras (insert k v result)

  -- The last entry of `extras` with the key decides, and `result` where there is none.
  unfoldable pub last : String → Map V → Option V → Option V
  last k [] d = d
  last k ((j, v) ∷ m) d = last k m (if j == k then some v else d)

  pub lookup-insert_all :
      (k : String) (extras result : Map V)
      → lookup k (insert_all extras result) ≡ last k extras (lookup k result)
  unfolding insert_all last
  lookup-insert_all k [] result = refl
  lookup-insert_all k ((j, v) ∷ extras) result =
      rw (lookup-insert_all k extras (insert j v result)) (rw lookup-insert refl)

module _ {ℓ} {V : Type ℓ} where
  -- A map with one entry for each key.
  abbrev pub HasUniqueKeys : Map V → Type ℓ
  HasUniqueKeys [] = Unit
  HasUniqueKeys ((k, v) ∷ m) = (lookup k m ≡ none) × HasUniqueKeys m

  abbrev pub or_else : Option V → Option V → Option V
  or_else none d = d
  or_else (some v) d = some v

  last_of_absent : (k : String) (m : Map V) (d : Option V) → lookup k m ≡ none → last k m d ≡ d
  unfolding last lookup
  last_of_absent k [] d h = refl
  last_of_absent k ((j, v) ∷ m) d h = ground (arith, last_of_absent k m d)

  -- On a map with one entry for each key the last entry is the first.
  pub last-eq-lookup :
      (k : String) (m : Map V) (d : Option V)
      → HasUniqueKeys m
      → last k m d ≡ or_else (lookup k m) d
  unfolding last lookup
  last-eq-lookup k [] d h = refl
  last-eq-lookup k ((j, v) ∷ m) d h =
      ground (arith, eq_iff j k, last-eq-lookup k m d h.1, last_of_absent k m (some v))

  pub insert-HasUniqueKeys :
      (k : String) (v : V) (m : Map V) → HasUniqueKeys m → HasUniqueKeys (insert k v m)
  unfolding insert lookup
  insert-HasUniqueKeys k v [] h = (refl, tt)
  insert-HasUniqueKeys k v ((j, w) ∷ m) h =
      ground (arith, eq_iff j k, eq_iff k j, insert-HasUniqueKeys k v m h.1, lookup-insert k j v m)

  pub insert_all-HasUniqueKeys :
      (extras result : Map V) → HasUniqueKeys result → HasUniqueKeys (insert_all extras result)
  unfolding insert_all
  insert_all-HasUniqueKeys [] result h = h
  insert_all-HasUniqueKeys ((k, v) ∷ extras) result h =
      insert_all-HasUniqueKeys extras (insert k v result) (insert-HasUniqueKeys k v result h)

  -- _, ok := m[k]
  abbrev pub has_key : String → Map V → Bool
  has_key k m = not (is_nil (lookup k m))

-- ===== src/Controller/Labels/Keys.antt =====
-- Sets of label keys.
use praetor.Base.{◌≡◌, refl, false, ◌||◌, List, [], ◌∷◌, String, ◌==◌, eq_iff, arith}
use praetor.Controller.Labels.{insert_key, insert_keys, has}

pub has-insert_key :
    (k j : String) (keys : List String) → has j (insert_key k keys) ≡ (k == j) || has j keys
unfolding has insert_key
has-insert_key k j [] = refl
has-insert_key k j (i ∷ keys) =
    ground (arith, has-insert_key k j keys, eq_iff k i, eq_iff k j, eq_iff i j)

pub has-insert_keys :
    (ks keys : List String) (j : String) → has j (insert_keys ks keys) ≡ has j ks || has j keys
unfolding has insert_keys
has-insert_keys [] keys j = refl
has-insert_keys (k ∷ ks) keys j =
    ground (arith, has-insert_keys ks (insert_key k keys) j, has-insert_key k j keys)

-- Each key once.
abbrev pub IsDistinct : List String → Type 0
IsDistinct [] = Unit
IsDistinct (k ∷ keys) = (has k keys ≡ false) × IsDistinct keys

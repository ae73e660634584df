-- ===== src/Gateway/Desired/Order.antt =====
-- The order of the items in the desired state.
use mathlib.Core.List.{Permᴰ}
use mathlib.Core.List.Permᴰ.{refl as perm_refl}
use mathlib.Core.Path.{subst, subst₂, ap₂}
use praetor.Base.{
  ◌≡◌, refl, sym, ap, ◌∙◌, true, false, List, [], ◌∷◌, map, eq_iff, arith, All, Bool-cases, inl,
  inr,
}
use praetor.Base.TextOrder.{text_ltb_asymm, text_ltb_cotrans, text_ltb_connex}
use praetor.Api.{DeviceProcess}
use praetor.Gateway.Types.{DesiredItem}
use praetor.Gateway.Env.{Env}
use praetor.Gateway.Desired.{
  item_ltb, insert_item, sort_items, desired_item, desired_items, hash_desired,
}

-- Two items of different namespaced names.
abbrev Apart : DesiredItem → DesiredItem → Type 0
Apart a b = ¬ ((a.namespace ≡ b.namespace) × (a.name ≡ b.name))

item_ltb_asymm : (a b : DesiredItem) → item_ltb a b ≡ true → item_ltb b a ≡ false
unfolding item_ltb
item_ltb_asymm a b h = ground (
  arith,
  eq_iff a.namespace b.namespace,
  eq_iff b.namespace a.namespace,
  text_ltb_asymm a.name b.name,
  text_ltb_asymm a.namespace b.namespace,
)

item_ltb_cotrans :
    (a b c : DesiredItem) → item_ltb a b ≡ true → item_ltb a c ≡ false → item_ltb c b ≡ true
unfolding item_ltb
item_ltb_cotrans a b c h k = ground (
  arith,
  eq_iff a.namespace b.namespace,
  eq_iff a.namespace c.namespace,
  eq_iff c.namespace b.namespace,
  text_ltb_cotrans a.name b.name c.name,
  text_ltb_cotrans a.namespace b.namespace c.namespace,
  text_ltb_connex a.namespace c.namespace,
  text_ltb_asymm a.namespace c.namespace,
  text_ltb_asymm c.namespace a.namespace,
)

item_ltb_connex : (a b : DesiredItem) → Apart a b → item_ltb a b ≡ false → item_ltb b a ≡ true
unfolding item_ltb
item_ltb_connex a b apart h = ground (
  arith,
  eq_iff a.namespace b.namespace,
  eq_iff b.namespace a.namespace,
  text_ltb_connex a.name b.name,
  text_ltb_connex a.namespace b.namespace,
)

insert_comm_step :
    (a b x : DesiredItem) (xs : List DesiredItem)
    → Apart a b
    → insert_item a (insert_item b xs) ≡ insert_item b (insert_item a xs)
    → insert_item a (insert_item b (x ∷ xs)) ≡ insert_item b (insert_item a (x ∷ xs))
unfolding insert_item
insert_comm_step a b x xs apart ih = ground (
  arith,
  item_ltb_asymm a b,
  item_ltb_asymm b a,
  item_ltb_connex a b apart,
  item_ltb_cotrans x a b,
  item_ltb_cotrans x b a,
  item_ltb_asymm x a,
  item_ltb_asymm x b,
)

insert_comm :
    (a b : DesiredItem) (xs : List DesiredItem)
    → Apart a b
    → insert_item a (insert_item b xs) ≡ insert_item b (insert_item a xs)
unfolding insert_item
insert_comm a b [] apart =
    ground (arith, item_ltb_asymm a b, item_ltb_asymm b a, item_ltb_connex a b apart)
insert_comm a b (x ∷ xs) apart = insert_comm_step a b x xs apart (insert_comm a b xs apart)

abbrev AreApart : List DesiredItem → Type 0
AreApart [] = Unit
AreApart (a ∷ xs) = All (Apart a) xs × AreApart xs

module _ {A : Type 0} (P : A → Type 0) where
  All-perm : {xs ys : List A} → Permᴰ xs ys → All P xs → All P ys
  All-perm Permᴰ.nil h = tt
  All-perm (Permᴰ.cons e p) (h, hs) = (subst P e h, All-perm p hs)
  All-perm (Permᴰ.swap e f) (h, (k, hs)) = (subst P f k, (subst P e h, hs))
  All-perm (Permᴰ.trans p q) h = All-perm q (All-perm p h)

AreApart-perm : {xs ys : List DesiredItem} → Permᴰ xs ys → AreApart xs → AreApart ys
AreApart-perm Permᴰ.nil h = tt
AreApart-perm (Permᴰ.cons {a = a} {l₂ = ys} e p) (h, hs) =
    (subst (λ b. All (Apart b) ys) e (All-perm (Apart a) p h), AreApart-perm p hs)
AreApart-perm (Permᴰ.swap {l = l} e f) ((h, hs), (k, ks)) = (
  (
    subst₂ (λ x y. Apart x y) f e (λ same. h (sym same.0, sym same.1)),
    subst (λ b. All (Apart b) l) f k,
  ),
  (subst (λ b. All (Apart b) l) e hs, ks),
)
AreApart-perm (Permᴰ.trans p q) h = AreApart-perm q (AreApart-perm p h)

sort-perm : {xs ys : List DesiredItem} → Permᴰ xs ys → AreApart xs → sort_items xs ≡ sort_items ys
unfolding sort_items
sort-perm Permᴰ.nil h = refl
sort-perm (Permᴰ.cons e p) (h, hs) = ap₂ insert_item e (sort-perm p hs)
sort-perm (Permᴰ.swap {a = a} {b = b} {l = l} e f) ((h, hs), (k, ks)) =
    insert_comm a b (sort_items l) h ∙ ap₂ (λ x y. insert_item x (insert_item y (sort_items l))) f e
sort-perm (Permᴰ.trans p q) h = sort-perm p h ∙ sort-perm q (AreApart-perm p h)

map-perm : {A B : Type 0} (f : A → B) {xs ys : List A} → Permᴰ xs ys → Permᴰ (map f xs) (map f ys)
map-perm f Permᴰ.nil = Permᴰ.nil
map-perm f (Permᴰ.cons e p) = Permᴰ.cons (ap f e) (map-perm f p)
map-perm f (Permᴰ.swap e g) = Permᴰ.swap (ap f e) (ap f g)
map-perm f (Permᴰ.trans p q) = Permᴰ.trans (map-perm f p) (map-perm f q)

-- No two processes of the list have the same namespace and name.
abbrev pub HaveDistinctNames : List DeviceProcess → Type 0
HaveDistinctNames [] = Unit
HaveDistinctNames (p ∷ ps) =
    All
      (λ q. ¬ ((p.metadata.namespace ≡ q.metadata.namespace) × (p.metadata.name ≡ q.metadata.name)))
      ps
    × HaveDistinctNames ps

-- The items in sorted order: no item stands behind a greater one.
abbrev pub AreSorted : List DesiredItem → Type 0
AreSorted [] = Unit
AreSorted (a ∷ xs) = All (λ b. item_ltb b a ≡ false) xs × AreSorted xs

module _ {W : Type 0} (env : Env W) where
  Apart-of_names :
      (p : DeviceProcess) (ps : List DeviceProcess)
      → All
          (λ q.
            ¬ ((p.metadata.namespace ≡ q.metadata.namespace) × (p.metadata.name ≡ q.metadata.name)))
          ps
      → All (Apart (desired_item env p)) (map (desired_item env) ps)
  unfolding desired_item
  Apart-of_names p [] h = tt
  Apart-of_names p (q ∷ ps) (h, hs) = (h, Apart-of_names p ps hs)

  AreApart-of_names :
      (ps : List DeviceProcess) → HaveDistinctNames ps → AreApart (map (desired_item env) ps)
  AreApart-of_names [] h = tt
  AreApart-of_names (p ∷ ps) (h, hs) = (Apart-of_names p ps h, AreApart-of_names ps hs)

  -- The items and their ETag do not depend on the order in which the processes are listed, where no
  -- two of them share their namespace and name.
  pub desired_order_independent :
      {ps qs : List DeviceProcess}
      → Permᴰ ps qs
      → HaveDistinctNames ps
      → (desired_items env ps ≡ desired_items env qs)
        × (hash_desired env (desired_items env ps) ≡ hash_desired env (desired_items env qs))
  unfolding desired_items
  desired_order_independent {ps} {qs} p h =
      let same : desired_items env ps ≡ desired_items env qs =
        sort-perm (map-perm (desired_item env) p) (AreApart-of_names ps h) in
      (same, ap (hash_desired env) same)

insert-All :
    (P : DesiredItem → Type 0) (a : DesiredItem) (xs : List DesiredItem)
    → P a
    → All P xs
    → All P (insert_item a xs)
unfolding insert_item
insert-All P a [] h hs = (h, tt)
insert-All P a (x ∷ xs) h (k, hs) = elim (Bool-cases (item_ltb x a)) [
  | inl lt ↦ rw (lt, insert_item) (k, insert-All P a xs h hs)
  | inr ge ↦ rw (ge, insert_item) (h, (k, hs))
]

above :
    (a x : DesiredItem) (xs : List DesiredItem)
    → item_ltb x a ≡ false
    → All (λ b. item_ltb b x ≡ false) xs
    → All (λ b. item_ltb b a ≡ false) xs
above a x [] h hs = tt
above a x (b ∷ xs) h (k, hs) = (
  elim (Bool-cases (item_ltb b a)) [ inl lt ↦ cc (item_ltb_cotrans b a x lt k) | inr ge ↦ ge ],
  above a x xs h hs,
)

insert-AreSorted :
    (a : DesiredItem) (xs : List DesiredItem) → AreSorted xs → AreSorted (insert_item a xs)
unfolding insert_item
insert-AreSorted a [] h = (tt, tt)
insert-AreSorted a (x ∷ xs) (h, hs) = elim (Bool-cases (item_ltb x a)) [
  | inl lt ↦
      rw (lt, insert_item)
        (
          insert-All (λ b. item_ltb b x ≡ false) a xs (item_ltb_asymm x a lt) h,
          insert-AreSorted a xs hs,
        )
  | inr ge ↦ rw (ge, insert_item) ((ge, above a x xs ge h), (h, hs))
]

insert-perm : (a : DesiredItem) (xs : List DesiredItem) → Permᴰ (insert_item a xs) (a ∷ xs)
unfolding insert_item
insert-perm a [] = Permᴰ.cons refl Permᴰ.nil
insert-perm a (x ∷ xs) = elim (Bool-cases (item_ltb x a)) [
  | inl lt ↦
      rw (lt, insert_item) (Permᴰ.trans (Permᴰ.cons refl (insert-perm a xs)) (Permᴰ.swap refl refl))
  | inr ge ↦ rw (ge, insert_item) (perm_refl (a ∷ x ∷ xs))
]

-- The items that are answered are sorted, and are the given items in another order.
pub sort_items_sorts :
    (xs : List DesiredItem) → AreSorted (sort_items xs) × Permᴰ (sort_items xs) xs
unfolding sort_items
sort_items_sorts [] = (tt, Permᴰ.nil)
sort_items_sorts (a ∷ xs) =
    let (sorted, perm) = sort_items_sorts xs in
    (
      insert-AreSorted a (sort_items xs) sorted,
      Permᴰ.trans (insert-perm a (sort_items xs)) (Permᴰ.cons refl perm),
    )

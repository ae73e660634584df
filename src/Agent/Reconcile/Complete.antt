-- ===== src/Agent/Reconcile/Complete.antt =====
-- The items that `reconcile` reports and manages.
use praetor.Base.{
  ◌≡◌, refl, ◌∙◌, Bool, true, false, ◌||◌, List, [], ◌∷◌, String, ◌==◌, arith, lookup, insert,
  has_key, Map, lookup-insert,
}
use praetor.Gateway.Types.{DesiredItem, Observation}
use praetor.Agent.Env.{Env, ManagedItem}
use praetor.Agent.Keys.{item_key}
use praetor.Agent.Running.Observed.{IsAbout, IsSettled}
use praetor.Agent.Reconcile.{reconcile_item, reconcile_items}
use praetor.Agent.Reconcile.Observed.{reconcile_item-Reports}

-- An observation that is about a desired item, and settled.
pub record Answers (item : DesiredItem) (obs : Observation) : Type 0 where
  pub about : IsAbout item.namespace item.name item.spec_hash obs
  pub settled : IsSettled obs

-- One observation for each item, in the same order.
abbrev pub AnswersAll : List DesiredItem → List Observation → Type 0
AnswersAll [] [] = Unit
AnswersAll [] (obs ∷ more) = ⊥
AnswersAll (item ∷ items) [] = ⊥
AnswersAll (item ∷ items) (obs ∷ more) = Answers item obs × AnswersAll items more

-- Whether a key is that of a desired item.
abbrev pub is_desired : String → List DesiredItem → Bool
is_desired key [] = false
is_desired key (item ∷ items) = (item_key item.namespace item.name == key) || is_desired key items

module _ {W : Type 0} (env : Env W) where
  -- `reconcile` reports each desired item once, in their order: the observation has the namespace, the
  -- name and the hash of the item, and says either that the process is up and healthy, with a process
  -- id above 0, or that it is down and not healthy, with no process id and no start. No failure of a
  -- fetch, of the files or of systemctl leaves an item out.
  pub reconcile_items_answers :
      (old : Map ManagedItem) (items : List DesiredItem) (now : Map ManagedItem) (w : W)
      → AnswersAll items (reconcile_items env old items now w).0.0
  unfolding reconcile_items
  reconcile_items_answers old [] now w = tt
  reconcile_items_answers old (item ∷ items) now w =
      let key = item_key item.namespace item.name in
      let m = reconcile_item env (lookup key old) item in
      let r = (reconcile_item-Reports env (lookup key old) item).at w in
      (
        record { about = r.about; settled = r.settled },
        reconcile_items_answers old items (insert key (m w).0.managed now) (m w).1,
      )

  or_swap : (a b c : Bool) → (a || (b || c)) ≡ ((b || a) || c)
  or_swap true true c = refl
  or_swap true false c = refl
  or_swap false true c = refl
  or_swap false false c = refl

  has_key-insert :
      (key written : String) (m : ManagedItem) (now : Map ManagedItem)
      → has_key key (insert written m now) ≡ ((written == key) || has_key key now)
  has_key-insert key written m now = rw (lookup-insert written key m now) (ground arith)

  -- The items that are managed behind `reconcile_items` are the desired ones and those it was handed.
  pub has_key-reconcile_items :
      (old : Map ManagedItem) (items : List DesiredItem) (now : Map ManagedItem) (w : W)
      (key : String)
      → has_key key (reconcile_items env old items now w).0.1
        ≡ (is_desired key items || has_key key now)
  unfolding reconcile_items
  has_key-reconcile_items old [] now w key = refl
  has_key-reconcile_items old (item ∷ items) now w key =
      let k = item_key item.namespace item.name in
      let m = reconcile_item env (lookup k old) item in
      let rest = has_key-reconcile_items old items (insert k (m w).0.managed now) (m w).1 key in
      rest
      ∙ (rw (has_key-insert key k (m w).0.managed now)
          (or_swap (is_desired key items) (k == key) (has_key key now)))

-- ===== src/Gateway/Desired.antt =====
-- The desired state of a device: `listDeviceProcesses`, `computeDesired`, `hashSpec`, `hashDesired`.
pub mod Order
use praetor.Base.{
  ◌≡◌, Bool, List, [], ◌∷◌, map, String, ◌==◌, select, if◌then◌else◌, text_ltb, join,
}
use praetor.Base.Int.{ℤ}
use praetor.Base.Decimal.{format_int}
use praetor.Api.{DeviceProcess, DeviceProcessSpec}
use praetor.Gateway.Types.{DesiredItem}
use praetor.Gateway.Env.{Env, Act, call, pure, ◌>>=◌}

module _ {W : Type 0} (env : Env W) where
  unfoldable pub hash_spec : DeviceProcessSpec → String
  unfolding join
  hash_spec spec = join ("sha256:" ∷ env.sha256_hex (env.marshal_spec spec) ∷ [])

  -- The field selector of the list call is checked once more.
  unfoldable pub list_device_processes : String → Act W (List DeviceProcess)
  list_device_processes device = do
    items ← call (env.list_processes device)
    pure (select (λ p. p.spec.device_ref.name == device) items)

  unfoldable pub desired_item : DeviceProcess → DesiredItem
  unfolding hash_spec
  desired_item proc = record {
    uid = proc.metadata.uid;
    namespace = proc.metadata.namespace;
    name = proc.metadata.name;
    generation = proc.metadata.generation;
    spec = proc.spec;
    spec_hash = hash_spec proc.spec;
  }

-- The order of `sort.Slice`: by namespace, then by name.
unfoldable pub item_ltb : DesiredItem → DesiredItem → Bool
item_ltb a b =
    if a.namespace == b.namespace then text_ltb a.name b.name else text_ltb a.namespace b.namespace

-- `sort.Slice` leaves open which sorted order it gives to items that the test holds equal; this
-- insertion keeps the later of two such items behind the earlier.
unfoldable pub insert_item : DesiredItem → List DesiredItem → List DesiredItem
insert_item a [] = a ∷ []
insert_item a (b ∷ items) =
    let rest = insert_item a items in if item_ltb b a then b ∷ rest else a ∷ b ∷ items

unfoldable pub sort_items : List DesiredItem → List DesiredItem
unfolding insert_item
sort_items [] = []
sort_items (a ∷ items) = insert_item a (sort_items items)

-- The text that is hashed: namespace/name/generation/hash; for each item.
unfoldable pub item_line : DesiredItem → String
unfolding join
item_line item = join (
    item.namespace
    ∷ "/"
    ∷ item.name
    ∷ "/"
    ∷ format_int item.generation
    ∷ "/"
    ∷ item.spec_hash
    ∷ ";"
    ∷ [])

module _ {W : Type 0} (env : Env W) where
  unfoldable pub hash_desired : List DesiredItem → String
  unfolding item_line join
  hash_desired items = join ("\"" ∷ env.sha256_hex (join (map item_line items)) ∷ "\"" ∷ [])

  -- The items of the response, sorted.
  unfoldable pub desired_items : List DeviceProcess → List DesiredItem
  unfolding desired_item sort_items
  desired_items procs = sort_items (map (desired_item env) procs)

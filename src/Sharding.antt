-- ===== src/Sharding.antt =====
-- sharding/consistent_hash.go: the ring that assigns keys to nodes. `none` is a panic.
pub mod Clockwise
pub mod Adding
pub mod Removal
pub mod Leaving
pub mod Collision
use distributed_system_proje.Prelude.{
  ℕ, zero, suc, ◌+◌, ◌≤◌, ◌<◌, ◌≡◌, Bytes, Bool, true, false, ◌||◌, ◌&&◌, Option, none, some, List,
  [], ◌∷◌, ◌++◌, ◌==◌, ltb, if◌then◌else◌, length, take, drop, get_elem?, All,
}

abbrev pub IsAscending : List ℕ → Type 0
IsAscending [] = Unit
IsAscending (x ∷ xs) = All (λ y. x ≤ y) xs × IsAscending xs

abbrev pub mem : ℕ → List ℕ → Bool
mem k [] = false
mem k (x ∷ xs) = k == x || mem k xs

-- What the ring uses of other packages: its hash function (a `HashFunc`, by default hash/crc32), the
-- format `%d%s` of fmt, and Ints and SearchInts of sort, with what is documented of the last two.
pub record Helpers : Type 0 where
  pub hash_func : Bytes → ℕ
  pub virtual_node_name : ℕ → Bytes → Bytes
  pub ints : List ℕ → List ℕ
  pub search_ints : List ℕ → ℕ → ℕ
  pub ints-IsAscending : (xs : List ℕ) → IsAscending (ints xs)
  pub mem-ints : (k : ℕ) (xs : List ℕ) → mem k (ints xs) ≡ mem k xs
  pub search_range : (xs : List ℕ) (x : ℕ) → search_ints xs x ≤ length xs
  pub search_below :
      (xs : List ℕ) (x : ℕ) → IsAscending xs → All (λ y. y < x) (take (search_ints xs x) xs)
  pub search_above :
      (xs : List ℕ) (x : ℕ) → IsAscending xs → All (λ y. x ≤ y) (drop (search_ints xs x) xs)

-- `map[int]string`: the latest entry of a position counts.
abbrev pub HashMap : Type 0
HashMap = List (ℕ × Bytes)

unfoldable pub node_at : ℕ → HashMap → Option Bytes
node_at k [] = none
node_at k ((j, n) ∷ m) = if k == j then some n else node_at k m

unfoldable pub drop_at : ℕ → HashMap → HashMap
drop_at k [] = []
drop_at k ((j, n) ∷ m) = let rest = drop_at k m in if k == j then rest else (j, n) ∷ rest

-- `ConsistentHashRing`, less its hash function
pub record ConsistentHashRing : Type 0 where
  pub replicas : ℕ
  pub keys : List ℕ
  pub hash_map : HashMap

-- `New`
unfoldable pub new : ℕ → ConsistentHashRing
new replicas = record { replicas = replicas; keys = []; hash_map = [] }

-- `IsEmpty`
unfoldable pub is_empty : ConsistentHashRing → Bool
is_empty r = length r.keys == 0

-- `hashMap[position]`, which is the empty string where there is no such entry
abbrev pub node_or_empty : Option Bytes → Bytes
node_or_empty none = []
node_or_empty (some n) = n

module _ (h : Helpers) where
  -- Where the i-th virtual node of a node stands
  abbrev pub position : Bytes → ℕ → ℕ
  position node i = h.hash_func (h.virtual_node_name i node)

  -- The loop of AddNode over `n` more virtual nodes from the i-th on
  unfoldable pub add_virtual : ℕ → ℕ → Bytes → ConsistentHashRing → ConsistentHashRing
  add_virtual zero i node r = r
  add_virtual (suc n) i node r = add_virtual n (suc i) node (record r {
    keys = r.keys ++ (position node i ∷ []);
    hash_map = (position node i, node) ∷ r.hash_map;
  })

  -- The loop of AddNode over the nodes
  unfoldable pub add_nodes : List Bytes → ConsistentHashRing → ConsistentHashRing
  unfolding add_virtual
  add_nodes [] r = r
  add_nodes (node ∷ nodes) r = add_nodes nodes (add_virtual r.replicas 0 node r)

  -- `AddNode`
  unfoldable pub add_node : ConsistentHashRing → List Bytes → ConsistentHashRing
  unfolding add_nodes
  add_node r nodes = let r' = add_nodes nodes r in record r' { keys = h.ints r'.keys }

  -- `r.keys = append(r.keys[:idx], r.keys[idx+1:]...)`, where the search finds the position
  unfoldable pub drop_key : ℕ → List ℕ → List ℕ
  drop_key k keys =
      let idx = h.search_ints keys k in
      elim (get_elem? keys idx) [
        | none ↦ keys
        | some x ↦ if x == k then take idx keys ++ drop (suc idx) keys else keys
      ]

  -- The loop of RemoveNode over `n` more virtual nodes from the i-th on
  unfoldable pub remove_virtual : ℕ → ℕ → Bytes → ConsistentHashRing → ConsistentHashRing
  unfolding drop_key drop_at
  remove_virtual zero i node r = r
  remove_virtual (suc n) i node r = remove_virtual n (suc i) node (record r {
    keys = drop_key (position node i) r.keys;
    hash_map = drop_at (position node i) r.hash_map;
  })

  -- `RemoveNode`
  unfoldable pub remove_node : ConsistentHashRing → Bytes → ConsistentHashRing
  unfolding remove_virtual
  remove_node r node = remove_virtual r.replicas 0 node r

  -- `GetNode`
  unfoldable pub get_node : ConsistentHashRing → Bytes → Option Bytes
  unfolding is_empty node_at
  get_node r key =
      if is_empty r
      then some []
      else (let found = h.search_ints r.keys (h.hash_func key) in
          let idx = if found == length r.keys then 0 else found in
          elim (get_elem? r.keys idx) [
            | none ↦ none
            | some k ↦ some (node_or_empty (node_at k r.hash_map))
          ])

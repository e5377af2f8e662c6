-- ===== src/Proxy/Joined.antt =====
-- The route /add-node of cmd/proxy/main.go, with the migration that it starts.
use distributed_system_proje.Prelude.{
  ◌<◌, ◌≡◌, Bytes, true, false, some, List, [], ◌∷◌, arith, All, All-both, bytes_equal, length, inl,
  inr, Bool-cases, ◌==◌,
}
use distributed_system_proje.Sharding
use distributed_system_proje.Sharding.{Helpers, ConsistentHashRing, IsAscending, is_empty}
use distributed_system_proje.Sharding.Adding.{IsRing, add_node-IsRing}
use distributed_system_proje.Sharding.Clockwise.{get_node-Clockwise}
use distributed_system_proje.Proxy.{
  Proxy, AddNodeRequest, added, add_node, get_node, get_nodes, handle_add_node, migrate_data,
}
use distributed_system_proje.Proxy.Network.{HttpClient, Nodes, ReadsWhole, put_url, delete_url}
use distributed_system_proje.Proxy.Migration.{Holds, Returns, put_and_delete-Holds}
use distributed_system_proje.Proxy.Moving.{migrate_data-Returns}

-- GetNode does not panic on a ring whose positions ascend.
ring_routes :
    (hs : Helpers) (r : ConsistentHashRing) (key : Bytes)
    → IsAscending r.keys
    → (t : Bytes) × (Sharding.get_node hs r key ≡ some t)
unfolding Sharding.get_node is_empty
ring_routes hs r key asc = elim (Bool-cases (length r.keys == 0)) [
  | inl empty ↦ ([], ground arith)
  | inr full ↦ (let (p, c, e) = get_node-Clockwise hs r key asc (ground arith) in (_, e))
]

pub proxy_routes :
    (hs : Helpers) (p : Proxy) (key : Bytes)
    → IsRing hs p.ring
    → (t : Bytes) × (get_node hs p key ≡ some t)
unfolding get_node
proxy_routes hs p key ring = ring_routes hs p.ring key ring.ascending

-- The address that a request to /add-node names
abbrev pub named_node : HttpClient → AddNodeRequest → Bytes
named_node net r = net.trim_right_slash (net.trim_space r.query_node)

-- http.NewRequest takes the addresses that a migration to a node posts to.
abbrev pub TakesUrls : HttpClient → List Bytes → Bytes → Type 0
TakesUrls net old_nodes new_node =
    (net.new_request (put_url new_node) ≡ true)
    × All (λ n. net.new_request (delete_url n) ≡ true) old_nodes

pub handle_add_node-added :
    (hs : Helpers) (net : HttpClient) (p : Proxy) (r : AddNodeRequest)
    → r.is_post ≡ true
    → 0 < length r.query_node
    → handle_add_node hs net p r
      ≡ (added, (add_node hs p (named_node net r), some (p.nodes, named_node net r)))
unfolding handle_add_node get_nodes
handle_add_node-added hs net p r is_post some_node = ground arith

pub added-IsRing :
    (hs : Helpers) (p : Proxy) (node : Bytes)
    → IsRing hs p.ring
    → IsRing hs (add_node hs p node).ring
unfolding add_node
added-IsRing hs p node ring = add_node-IsRing hs p.ring (node ∷ []) ring

module _ (hs : Helpers) (net : HttpClient) (servers : Nodes net) (reads : ReadsWhole net) where
  open net use {State}

  -- A POST to /add-node whose URL names a node that the proxy does not have adds it and keeps the
  -- invariant of the ring, and the migration that it starts returns: where one member of the cluster
  -- has a key with a value and none has it with another, that is so behind the migration, whichever
  -- requests failed. The new node and those of the proxy are members, different servers that
  -- replicate nothing to each other; http.NewRequest takes the addresses that the migration posts
  -- to; no body of a value is cut off while it is read; keys and values need no escaping and no
  -- trimming; nothing but the migration changes the ring or the nodes while it runs.
  pub handle_add_node-Keeps :
      (p : Proxy) (r : AddNodeRequest) (k v : Bytes) (st : State)
      → IsRing hs p.ring
      → r.is_post ≡ true
      → 0 < length r.query_node
      → TakesUrls net p.nodes (named_node net r)
      → servers.IsMember (named_node net r)
      → All servers.IsMember p.nodes
      → All (λ n. bytes_equal (named_node net r) n ≡ false) p.nodes
      → Holds net servers k v st
      → (p' : Proxy) × ((handle_add_node hs net p r
            ≡ (added, (p', some (p.nodes, named_node net r))))
          × IsRing hs p'.ring
          × Returns (Holds net servers k v) (migrate_data hs net p' p.nodes (named_node net r) st))
  handle_add_node-Keeps p r k v st ring is_post some_node (url, urls) member members apart h =
      let new_node = named_node net r in
      let p' = add_node hs p new_node in
      let ring' = added-IsRing hs p new_node ring in
      let CanLeave : Bytes → Type 0 =
        λ n. (net.new_request (delete_url n) ≡ true) × (bytes_equal new_node n ≡ false) in
      (
        p',
        (
          handle_add_node-added hs net p r is_post some_node,
          ring',
          migrate_data-Returns net servers hs p' new_node (λ key. proxy_routes hs p' key ring')
              reads (Holds net servers k v) CanLeave
              (λ old_node key value st m (url', other) q q' e h.
                put_and_delete-Holds net servers k v old_node new_node key value st url url' m
                  member q q' e other h)
              p.nodes st members (All-both _ _ p.nodes urls apart) h,
        ),
      )

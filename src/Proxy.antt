-- ===== src/Proxy.antt =====
-- cmd/proxy/main.go: the proxy, which routes each key to the node of the ring that has it, adds nodes,
-- and moves the keys of a new node to it. `none` is a panic. The lock orders the calls on the proxy, so
-- each is one step.
pub mod Network
pub mod Migration
pub mod Moving
pub mod Joined
pub mod Confined
pub mod Readded
use distributed_system_proje.Prelude.{
  ℕ, Bytes, Bool, true, false, not, ◌==◌, Option, none, some, List, [], ◌∷◌, ◌++◌, length,
  bytes_equal, if◌then◌else◌, ◌>>=◌,
}
use distributed_system_proje.Sharding
use distributed_system_proje.Sharding.{Helpers, ConsistentHashRing}
use Network.{
  HttpClient, HttpReply, failed_request, response, keys_url, get_url, put_url, delete_url, put_body,
  delete_body,
}

-- `Proxy`, less its lock
pub record Proxy : Type 0 where
  pub ring : ConsistentHashRing
  pub nodes : List Bytes

-- `NewProxy`
unfoldable pub new_proxy : Proxy
new_proxy = record { ring = Sharding.new 10; nodes = [] }

-- What a route answers: an error with its status, the forwarding to a node, or a node that is added
pub data Answer : Type 0 where
  refused : ℕ → Answer
  forwarded : Bytes → Answer
  added : Answer

-- A request to /add-node: whether it is a POST, and `node` in the query of its URL and in its form. What
-- is missing is the empty string; the handler reads the query only.
pub record AddNodeRequest : Type 0 where
  pub is_post : Bool
  pub query_node : Bytes
  pub form_node : Bytes

module _ (net : HttpClient) where
  open net use {State}

  -- Whether a request came back with 200
  abbrev pub succeeded : HttpReply → Bool
  succeeded failed_request = false
  succeeded (response status body) = status == 200

  -- The put to the new node, and the deletion from the old one where that succeeded
  unfoldable pub put_and_delete : Bytes → Bytes → Bytes → Bytes → State → Option State
  put_and_delete old_node new_node key value st =
      if net.new_request (put_url new_node)
      then (let (st', put_resp) = net.post st (put_url new_node) (put_body key value) in
          if succeeded put_resp
          then (if net.new_request (delete_url old_node)
              then some (net.post st' (delete_url old_node) (delete_body key)).0
              else none)
          else some st')
      else none

  -- The keys that an old node lists; none where the request fails or its body does not decode
  unfoldable pub fetch_keys : State → Bytes → List Bytes
  fetch_keys st old_node = elim (net.get st (keys_url old_node)) [
    | failed_request ↦ []
    | response status body ↦ (elim (net.decode_keys body) [ none ↦ [] | some keys ↦ keys ])
  ]

module _ (h : Helpers) where
  -- `AddNode`
  unfoldable pub add_node : Proxy → Bytes → Proxy
  add_node p node = record {
    ring = Sharding.add_node h p.ring (node ∷ []);
    nodes = p.nodes ++ (node ∷ []);
  }

  -- `GetNode`
  unfoldable pub get_node : Proxy → Bytes → Option Bytes
  get_node p key = Sharding.get_node h p.ring key

  -- `GetNodes`: a copy
  unfoldable pub get_nodes : Proxy → List Bytes
  get_nodes p = p.nodes

  -- The handler of /get, /put and /delete, for the key of the form and that of the query
  unfoldable pub handler : Proxy → Bytes → Bytes → Option Answer
  unfolding get_node
  handler p form_key query_key =
      let key = if length form_key == 0 then query_key else form_key in
      if length key == 0 then some (refused 400) else (do
        target_node ← get_node p key
        some (if length target_node == 0 then refused 500 else forwarded target_node))

  module _ (net : HttpClient) where
    open net use {State}

    -- The handler of /add-node: its answer, the proxy, and the migration that it starts, if any, from
    -- the nodes of before to the new one
    unfoldable pub handle_add_node :
        Proxy → AddNodeRequest → Answer × (Proxy × Option (List Bytes × Bytes))
    unfolding get_nodes add_node
    handle_add_node p r =
        if not r.is_post
        then (refused 405, (p, none))
        else if length r.query_node == 0
        then (refused 400, (p, none))
        else (let new_node = net.trim_right_slash (net.trim_space r.query_node) in
            (added, (add_node p new_node, some (get_nodes p, new_node))))

    -- The body of the loop over the keys of an old node. What can be read of the value is taken, whether
    -- it is whole or not.
    unfoldable pub migrate_key : Proxy → Bytes → Bytes → Bytes → State → Option State
    unfolding put_and_delete get_node
    migrate_key p old_node new_node key st = elim (get_node p key) [
      | none ↦ none
      | some target ↦
          if bytes_equal target new_node
          then (elim (net.get st (get_url old_node key)) [
            | failed_request ↦ some st
            | response status body ↦
                if status == 200
                then put_and_delete net old_node new_node key (net.trim_space body.bytes) st
                else some st
          ])
          else some st
    ]

    unfoldable pub migrate_keys : Proxy → Bytes → Bytes → List Bytes → State → Option State
    unfolding migrate_key
    migrate_keys p old_node new_node [] st = some st
    migrate_keys p old_node new_node (key ∷ keys) st =
        elim (migrate_key p old_node new_node key st) [
          | none ↦ none
          | some st' ↦ migrate_keys p old_node new_node keys st'
        ]

    -- `migrateData`, while the ring stays as it is
    unfoldable pub migrate_data : Proxy → List Bytes → Bytes → State → Option State
    unfolding migrate_keys fetch_keys
    migrate_data p [] new_node st = some st
    migrate_data p (old_node ∷ old_nodes) new_node st =
        elim (migrate_keys p old_node new_node (fetch_keys net st old_node) st) [
          | none ↦ none
          | some st' ↦ migrate_data p old_nodes new_node st'
        ]

-- ===== src/Proxy/Readded.antt =====
-- The route /add-node of cmd/proxy/main.go for a node that the proxy has already.
use distributed_system_proje.Prelude.{
  ◌<◌, ◌≡◌, refl, sym, ◌∙◌, subst, Bytes, true, none, some, List, [], ◌∷◌, ◌++◌, All, All-right,
  bytes_equal_refl, length, inl, inr,
}
use distributed_system_proje.Sharding.{Helpers}
use distributed_system_proje.Sharding.Adding.{IsRing}
use distributed_system_proje.Proxy.{
  Proxy, AddNodeRequest, added, succeeded, get_node, add_node, handle_add_node, put_and_delete,
  migrate_key, migrate_keys, migrate_data, fetch_keys,
}
use distributed_system_proje.Proxy.Network.{
  Body, HttpClient, Nodes, ReadsWhole, response, get_url, put_url, delete_url, put_body,
  delete_body,
}
use distributed_system_proje.Proxy.Migration.{Returns, put_and_delete-Returns, put_both}
use distributed_system_proje.Proxy.Moving.{
  moved, next_key, next_node, fetch_keys-IsPlain, migrate_key-Returns, migrate_keys-Returns,
  migrate_data-Returns,
}
use distributed_system_proje.Proxy.Confined.{
  Confined, Gone, Confined-Gone, Confined-put, Confined-delete, value_there, at_key, Gone-put,
  Gone-delete,
}
use distributed_system_proje.Proxy.Joined.{
  proxy_routes, named_node, TakesUrls, handle_add_node-added, added-IsRing,
}

module _ (net : HttpClient) (servers : Nodes net) where
  open net use {State}

  -- The node is up: it lists the key and gives it out while it has it, takes a put of what it has, and
  -- does as a deletion says.
  pub record Answers (node k : Bytes) : Type 0 where
    pub lists :
        (st : State) (w : Bytes)
        → servers.stores st node k ≡ some w
        → (before : List Bytes) × ((after : List Bytes) × (fetch_keys net st node
              ≡ before ++ (k ∷ after)))
    pub gives :
        (st : State) (w : Bytes)
        → servers.stores st node k ≡ some w
        → (body : Body) × (net.get st (get_url node k) ≡ response 200 body)
    pub takes :
        (st : State) (w : Bytes)
        → servers.stores st node k ≡ some w
        → succeeded net (net.post st (put_url node) (put_body k w)).1 ≡ true
    pub drops :
        (st : State)
        → servers.stores (net.post st (delete_url node) (delete_body k)).0 node k ≡ none

  module _ (node k v : Bytes) (member : servers.IsMember node) where
    module _ (hs : Helpers) (p : Proxy)
        (routes : (key : Bytes) → (t : Bytes) × (get_node hs p key ≡ some t))
        (reads : ReadsWhole net) (url : net.new_request (put_url node) ≡ true)
        (routed : get_node hs p k ≡ some node) (up : Answers node k) where
      abbrev DeletesAt : Bytes → Type 0
      DeletesAt n = net.new_request (delete_url n) ≡ true

      moves-Confined :
          (old_node key value : Bytes) (st : State)
          → servers.IsMember old_node
          → DeletesAt old_node
          → servers.IsPlain key
          → servers.IsPlain value
          → servers.stores st old_node key ≡ some value
          → Confined net servers node k v st
          → Returns (Confined net servers node k v) (put_and_delete net old_node node key value st)
      moves-Confined old_node key value st m u q q' e h =
          let h' =
            Confined-put net servers node k v member key value st q q'
              (λ at.
                value_there net servers node k v member old_node value st m h
                  (at_key net servers node k v member old_node key value st at e))
              h in
          put_and_delete-Returns net (Confined net servers node k v) old_node node key value st url
            u h' (λ t. Confined-delete net servers node k v member old_node key _ m q h')

      moves-Gone :
          (old_node key value : Bytes) (st : State)
          → servers.IsMember old_node
          → DeletesAt old_node
          → servers.IsPlain key
          → servers.IsPlain value
          → servers.stores st old_node key ≡ some value
          → Gone net servers k st
          → Returns (Gone net servers k) (put_and_delete net old_node node key value st)
      moves-Gone old_node key value st m u q q' e h =
          let h' = Gone-put net servers node k v member old_node key value st m q q' e h in
          put_and_delete-Returns net (Gone net servers k) old_node node key value st url u h'
            (λ t. Gone-delete net servers node k v member old_node key _ m q h')

      -- The migration of the key from the node to itself
      key_moves :
          (st : State)
          → DeletesAt node
          → servers.IsPlain k
          → servers.stores st node k ≡ some v
          → Confined net servers node k v st
          → Returns (Gone net servers k) (migrate_key hs net p node node k st)
      key_moves st u q e h =
          let (body, got) = up.gives st v e in
          let value = net.trim_space body.bytes in
          let (stored, plain) =
            servers.got st node k body member q got (reads st node k body got) in
          let out = net.post st (put_url node) (put_body k value) in
          let h' = Confined-delete net servers node k v member node k out.0 member q (
            Confined-put net servers node k v member k value st q plain
              (λ at. value_there net servers node k v member node value st member h stored) h) in
          (
            (net.post out.0 (delete_url node) (delete_body k)).0,
            (
              moved net servers hs p node node k st node body routed (bytes_equal_refl node) got
                  ∙ put_both net node node k value st url u (up.takes st value stored),
              Confined-Gone net servers node k v member _ h' (up.drops out.0),
            ),
          )

      key-Gone :
          (st : State)
          → DeletesAt node
          → servers.IsPlain k
          → Confined net servers node k v st
          → Returns (Gone net servers k) (migrate_key hs net p node node k st)
      key-Gone st u q h = elim (h node member) [
        | inl nothing ↦
            migrate_key-Returns net servers hs p node routes reads (Gone net servers k) DeletesAt
              moves-Gone node k st member u q
              (Confined-Gone net servers node k v member st h nothing)
        | inr (here, one) ↦ key_moves st u q one h
      ]

      keys-Gone :
          (before after : List Bytes) (st : State)
          → DeletesAt node
          → All servers.IsPlain (before ++ (k ∷ after))
          → Confined net servers node k v st
          → Returns
              (Gone net servers k)
              (migrate_keys hs net p node node (before ++ (k ∷ after)) st)
      keys-Gone [] after st u (q, qs) h =
          let (st', (run, h')) = key-Gone st u q h in
          subst (Returns (Gone net servers k))
            (sym (next_key net servers hs p node node k after st st' run))
            (migrate_keys-Returns net servers hs p node routes reads (Gone net servers k) DeletesAt
              moves-Gone node after st' member u qs h')
      keys-Gone (key ∷ before) after st u (q, qs) h =
          let (st', (run, h')) =
            migrate_key-Returns net servers hs p node routes reads (Confined net servers node k v)
              DeletesAt moves-Confined node key st member u q h in
          subst (Returns (Gone net servers k))
            (sym (next_key net servers hs p node node key _ st st' run))
            (keys-Gone before after st' u qs h')

      node-Gone :
          (st : State)
          → DeletesAt node
          → Confined net servers node k v st
          → Returns
              (Gone net servers k)
              (migrate_keys hs net p node node (fetch_keys net st node) st)
      node-Gone st u h =
          let plain = fetch_keys-IsPlain net servers hs p node st node _ _ member refl refl in
          elim (h node member) [
            | inl nothing ↦
                migrate_keys-Returns net servers hs p node routes reads (Gone net servers k)
                  DeletesAt moves-Gone node (fetch_keys net st node) st member u plain
                  (Confined-Gone net servers node k v member st h nothing)
            | inr (here, one) ↦
                (let (before, (after, e)) = up.lists st v one in
                  subst
                    (λ keys. Returns (Gone net servers k) (migrate_keys hs net p node node keys st))
                    (sym e) (keys-Gone before after st u (subst (All servers.IsPlain) e plain) h))
          ]

      pub data-Gone :
          (before after : List Bytes) (st : State)
          → All servers.IsMember (before ++ (node ∷ after))
          → All DeletesAt (before ++ (node ∷ after))
          → Confined net servers node k v st
          → Returns (Gone net servers k) (migrate_data hs net p (before ++ (node ∷ after)) node st)
      data-Gone [] after st (m, ms) (u, us) h =
          let (st', (run, h')) = node-Gone st u h in
          subst (Returns (Gone net servers k))
            (sym (next_node net servers hs p node node after st st' run))
            (migrate_data-Returns net servers hs p node routes reads (Gone net servers k) DeletesAt
              moves-Gone after st' ms us h')
      data-Gone (old_node ∷ before) after st (m, ms) (u, us) h =
          let (st', (run, h')) =
            migrate_keys-Returns net servers hs p node routes reads (Confined net servers node k v)
              DeletesAt moves-Confined old_node (fetch_keys net st old_node) st m u
              (fetch_keys-IsPlain net servers hs p node st old_node _ _ m refl refl) h in
          subst (Returns (Gone net servers k))
            (sym (next_node net servers hs p node old_node _ st st' run))
            (data-Gone before after st' ms us h')

module _ (hs : Helpers) (net : HttpClient) (servers : Nodes net) (reads : ReadsWhole net) where
  open net use {State}

  -- A POST to /add-node whose URL names a node that the proxy has already adds it again, and the
  -- migration that it starts returns and loses every key that the ring then routes to that node and
  -- that the node had alone: no member has the key behind it. The node answers while the migration
  -- runs; the nodes of the proxy are members, different servers that replicate nothing to each other;
  -- http.NewRequest takes the addresses that the migration posts to; no body of a value is cut off
  -- while it is read; keys and values need no escaping and no trimming; nothing but the migration
  -- changes the ring or the nodes while it runs.
  pub readded_node_loses_keys :
      (p : Proxy) (r : AddNodeRequest) (before after : List Bytes) (k v : Bytes) (st : State)
      → IsRing hs p.ring
      → r.is_post ≡ true
      → 0 < length r.query_node
      → p.nodes ≡ before ++ (named_node net r ∷ after)
      → TakesUrls net p.nodes (named_node net r)
      → All servers.IsMember p.nodes
      → Answers net servers (named_node net r) k
      → get_node hs (add_node hs p (named_node net r)) k ≡ some (named_node net r)
      → Confined net servers (named_node net r) k v st
      → (p' : Proxy) × ((handle_add_node hs net p r
            ≡ (added, (p', some (p.nodes, named_node net r))))
          × Returns (Gone net servers k) (migrate_data hs net p' p.nodes (named_node net r) st))
  readded_node_loses_keys p r before after k v st ring is_post some_node has (url, urls) members up
        routed h =
      let node = named_node net r in
      let p' = add_node hs p node in
      let members' = subst (All servers.IsMember) has members in
      (
        p',
        (
          handle_add_node-added hs net p r is_post some_node,
          subst (λ nodes. Returns (Gone net servers k) (migrate_data hs net p' nodes node st))
              (sym has)
              (data-Gone net servers node k v
                (All-right servers.IsMember before (node ∷ after) members').0 hs p'
                (λ key. proxy_routes hs p' key (added-IsRing hs p node ring)) reads url routed up
                before after st members'
                (subst (All (λ n. net.new_request (delete_url n) ≡ true)) has urls) h),
        ),
      )

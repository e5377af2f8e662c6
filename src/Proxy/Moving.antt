-- ===== src/Proxy/Moving.antt =====
-- migrateData of cmd/proxy/main.go: its loops over the keys and the nodes.
use distributed_system_proje.Prelude.{
  ◌≡◌, refl, ap, sym, ◌∙◌, subst, Bytes, true, false, Option, none, some, List, [], ◌∷◌, arith, All,
  bytes_equal, inl, inr, Bool-cases,
}
use distributed_system_proje.Sharding.{Helpers}
use distributed_system_proje.Proxy.{
  Proxy, get_node, succeeded, put_and_delete, migrate_key, migrate_keys, fetch_keys, migrate_data,
}
use distributed_system_proje.Proxy.Network.{
  Body, HttpClient, Nodes, HttpReply, failed_request, response, keys_url, get_url, ReadsWhole,
}
use distributed_system_proje.Proxy.Migration.{Returns, succeeded-reply}

module _ (net : HttpClient) (servers : Nodes net) where
  open net use {State}

  module _ (hs : Helpers) (p : Proxy) (new_node : Bytes) where
    not_moved :
        (old_node key : Bytes) (st : State) (t : Bytes)
        → get_node hs p key ≡ some t
        → bytes_equal t new_node ≡ false
        → migrate_key hs net p old_node new_node key st ≡ some st
    unfolding migrate_key
    not_moved old_node key st t r other = ground (arith, r)

    not_read :
        (old_node key : Bytes) (st : State) (t : Bytes) (reply : HttpReply)
        → get_node hs p key ≡ some t
        → net.get st (get_url old_node key) ≡ reply
        → succeeded net reply ≡ false
        → migrate_key hs net p old_node new_node key st ≡ some st
    unfolding migrate_key
    not_read old_node key st t failed_request r e f = ground (arith, r, e)
    not_read old_node key st t (response status body) r e f = ground (arith, r, e, f)

    pub moved :
        (old_node key : Bytes) (st : State) (t : Bytes) (body : Body)
        → get_node hs p key ≡ some t
        → bytes_equal t new_node ≡ true
        → net.get st (get_url old_node key) ≡ response 200 body
        → migrate_key hs net p old_node new_node key st
          ≡ put_and_delete net old_node new_node key (net.trim_space body.bytes) st
    unfolding migrate_key
    moved old_node key st t body r here got = ground (arith, r, here, got)

    pub next_key :
        (old_node key : Bytes) (keys : List Bytes) (st st' : State)
        → migrate_key hs net p old_node new_node key st ≡ some st'
        → migrate_keys hs net p old_node new_node (key ∷ keys) st
          ≡ migrate_keys hs net p old_node new_node keys st'
    unfolding migrate_keys
    next_key old_node key keys st st' run = ground arith

    pub next_node :
        (old_node : Bytes) (old_nodes : List Bytes) (st st' : State)
        → migrate_keys hs net p old_node new_node (fetch_keys net st old_node) st ≡ some st'
        → migrate_data hs net p (old_node ∷ old_nodes) new_node st
          ≡ migrate_data hs net p old_nodes new_node st'
    unfolding migrate_data
    next_node old_node old_nodes st st' run = ground arith

    abbrev decoded : HttpReply → Option (List Bytes)
    decoded failed_request = none
    decoded (response status body) = net.decode_keys body

    abbrev list_or : Option (List Bytes) → List Bytes
    list_or none = []
    list_or (some keys) = keys

    fetched :
        (st : State) (old_node : Bytes) (keys : Option (List Bytes))
        → decoded (net.get st (keys_url old_node)) ≡ keys
        → fetch_keys net st old_node ≡ list_or keys
    unfolding fetch_keys
    fetched st old_node keys e = ground arith

    pub fetch_keys-IsPlain :
        (st : State) (old_node : Bytes) (reply : HttpReply) (keys : Option (List Bytes))
        → servers.IsMember old_node
        → net.get st (keys_url old_node) ≡ reply
        → decoded reply ≡ keys
        → All servers.IsPlain (fetch_keys net st old_node)
    fetch_keys-IsPlain st old_node failed_request keys m e d =
        subst (All servers.IsPlain) (sym (fetched st old_node none (ap decoded e))) tt
    fetch_keys-IsPlain st old_node (response status body) none m e d =
        subst (All servers.IsPlain) (sym (fetched st old_node none (ap decoded e ∙ d))) tt
    fetch_keys-IsPlain st old_node (response status body) (some keys) m e d =
        subst (All servers.IsPlain) (sym (fetched st old_node (some keys) (ap decoded e ∙ d)))
          (servers.listed st old_node body status keys m e d)

    -- A property that the put and the deletion of one key keep, where the old node has the key, is kept
    -- by the whole migration.
    module _ (routes : (key : Bytes) → (t : Bytes) × (get_node hs p key ≡ some t))
        (reads : ReadsWhole net) (Q : State → Type 0) (CanLeave : Bytes → Type 0)
        (moves : (old_node key value : Bytes) (st : State)
          → servers.IsMember old_node
          → CanLeave old_node
          → servers.IsPlain key
          → servers.IsPlain value
          → servers.stores st old_node key ≡ some value
          → Q st
          → Returns Q (put_and_delete net old_node new_node key value st)) where
      pub migrate_key-Returns :
          (old_node key : Bytes) (st : State)
          → servers.IsMember old_node
          → CanLeave old_node
          → servers.IsPlain key
          → Q st
          → Returns Q (migrate_key hs net p old_node new_node key st)
      migrate_key-Returns old_node key st m c q h =
          let (t, r) = routes key in
          elim (Bool-cases (bytes_equal t new_node)) [
            | inr other ↦ (st, (not_moved old_node key st t r other, h))
            | inl here ↦ elim (Bool-cases (succeeded net (net.get st (get_url old_node key)))) [
              | inr unread ↦ (st, (not_read old_node key st t _ r refl unread, h))
              | inl read ↦
                  (let (body, got) = succeeded-reply net _ read in
                    let (stored, plain) =
                      servers.got st old_node key body m q got (reads st old_node key body got) in
                    subst (Returns Q) (sym (moved old_node key st t body r here got))
                      (moves old_node key (net.trim_space body.bytes) st m c q plain stored h))
            ]
          ]

      pub migrate_keys-Returns :
          (old_node : Bytes) (keys : List Bytes) (st : State)
          → servers.IsMember old_node
          → CanLeave old_node
          → All servers.IsPlain keys
          → Q st
          → Returns Q (migrate_keys hs net p old_node new_node keys st)
      migrate_keys-Returns old_node [] st m c q h = (st, (unfold migrate_keys in refl, h))
      migrate_keys-Returns old_node (key ∷ keys) st m c (q, qs) h =
          let (st', (run, h')) = migrate_key-Returns old_node key st m c q h in
          subst (Returns Q) (sym (next_key old_node key keys st st' run))
            (migrate_keys-Returns old_node keys st' m c qs h')

      pub migrate_data-Returns :
          (old_nodes : List Bytes) (st : State)
          → All servers.IsMember old_nodes
          → All CanLeave old_nodes
          → Q st
          → Returns Q (migrate_data hs net p old_nodes new_node st)
      migrate_data-Returns [] st ms cs h = (st, (unfold migrate_data in refl, h))
      migrate_data-Returns (old_node ∷ old_nodes) st (m, ms) (c, cs) h =
          let (st', (run, h')) =
            migrate_keys-Returns old_node (fetch_keys net st old_node) st m c
              (fetch_keys-IsPlain st old_node _ _ m refl refl) h in
          subst (Returns Q) (sym (next_node old_node old_nodes st st' run))
            (migrate_data-Returns old_nodes st' ms cs h')

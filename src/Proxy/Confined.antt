-- ===== src/Proxy/Confined.antt =====
-- migrateData of cmd/proxy/main.go: a key that one node alone has, and what puts to that node and
-- deletions leave of it.
use distributed_system_proje.Prelude.{
  ◌≡◌, ◌⊎◌, ap, ◌∙◌, Bytes, true, none, some, bytes_equal, bytes_equal-eq, inl, inr,
}
use distributed_system_proje.Proxy.Network.{
  HttpClient, Nodes, put_url, delete_url, put_body, delete_body,
}

module _ (net : HttpClient) (servers : Nodes net) where
  open net use {State}

  -- No member but the node has the key, and the node has it with no other value.
  abbrev pub Confined : Bytes → Bytes → Bytes → State → Type 0
  Confined node k v st =
      (n : Bytes)
      → servers.IsMember n
      → (servers.stores st n k ≡ none)
        ⊎ ((bytes_equal n node ≡ true) × (servers.stores st n k ≡ some v))

  -- No member has the key.
  abbrev pub Gone : Bytes → State → Type 0
  Gone k st = (n : Bytes) → servers.IsMember n → servers.stores st n k ≡ none

  module _ (node k v : Bytes) (member : servers.IsMember node) where
    pub Confined-Gone :
        (st : State) → Confined node k v st → servers.stores st node k ≡ none → Gone k st
    Confined-Gone st h e n m = elim (h n m) [
      | inl nothing ↦ nothing
      | inr (here, one) ↦ ap (λ x. servers.stores st x k) (bytes_equal-eq n node here) ∙ e
    ]

    pub Confined-put :
        (key value : Bytes) (st : State)
        → servers.IsPlain key
        → servers.IsPlain value
        → (bytes_equal k key ≡ true → value ≡ v)
        → Confined node k v st
        → Confined node k v (net.post st (put_url node) (put_body key value)).0
    Confined-put key value st q q' same h n m =
        elim (servers.put st node key value n k member m q q') [
          | inr (here, at, new) ↦ inr (here, new ∙ ap some (same at))
          | inl still ↦ elim (h n m) [
            | inl nothing ↦ inl (still ∙ nothing)
            | inr (here, one) ↦ inr (here, still ∙ one)
          ]
        ]

    pub Confined-delete :
        (old_node key : Bytes) (st : State)
        → servers.IsMember old_node
        → servers.IsPlain key
        → Confined node k v st
        → Confined node k v (net.post st (delete_url old_node) (delete_body key)).0
    Confined-delete old_node key st m' q h n m = elim (servers.deleted st old_node key n k m' m q) [
      | inr (here, at, gone) ↦ inl gone
      | inl still ↦ elim (h n m) [
        | inl nothing ↦ inl (still ∙ nothing)
        | inr (here, one) ↦ inr (here, still ∙ one)
      ]
    ]

    -- A value of the key at a member
    pub value_there :
        (n w : Bytes) (st : State)
        → servers.IsMember n
        → Confined node k v st
        → servers.stores st n k ≡ some w
        → w ≡ v
    value_there n w st m h e = elim (h n m) [
      | inl nothing ↦ absurd (cc (nothing, e))
      | inr (here, one) ↦ cc (one, e)
    ]

    pub at_key :
        (n key value : Bytes) (st : State)
        → bytes_equal k key ≡ true
        → servers.stores st n key ≡ some value
        → servers.stores st n k ≡ some value
    at_key n key value st at e = ap (servers.stores st n) (bytes_equal-eq k key at) ∙ e

    pub Gone-put :
        (old_node key value : Bytes) (st : State)
        → servers.IsMember old_node
        → servers.IsPlain key
        → servers.IsPlain value
        → servers.stores st old_node key ≡ some value
        → Gone k st
        → Gone k (net.post st (put_url node) (put_body key value)).0
    Gone-put old_node key value st m' q q' e h n m =
        elim (servers.put st node key value n k member m q q') [
          | inl still ↦ still ∙ h n m
          | inr (here, at, new) ↦ absurd (cc (h old_node m', at_key old_node key value st at e))
        ]

    pub Gone-delete :
        (old_node key : Bytes) (st : State)
        → servers.IsMember old_node
        → servers.IsPlain key
        → Gone k st
        → Gone k (net.post st (delete_url old_node) (delete_body key)).0
    Gone-delete old_node key st m' q h n m = elim (servers.deleted st old_node key n k m' m q) [
      | inl still ↦ still ∙ h n m
      | inr (here, at, gone) ↦ gone
    ]

-- ===== src/Proxy/Migration.antt =====
-- migrateData of cmd/proxy/main.go: what the put and the deletion of one key do.
use distributed_system_proje.Prelude.{
  ◌≡◌, ap, ◌∙◌, Bytes, true, false, Option, none, some, arith, bytes_equal, bytes_equal-eq, ◌⊎◌,
  inl, inr, Bool-cases, ==_iff,
}
use distributed_system_proje.Proxy.{succeeded, put_and_delete}
use distributed_system_proje.Proxy.Network.{
  Body, HttpClient, Nodes, HttpReply, failed_request, response, put_url, delete_url, put_body,
  delete_body,
}

pub succeeded-reply :
    (net : HttpClient) (r : HttpReply)
    → succeeded net r ≡ true
    → (body : Body) × (r ≡ response 200 body)
succeeded-reply net failed_request e = absurd (cc)
succeeded-reply net (response status body) e =
    (body, ap (λ n. response n body) ((==_iff status 200).0 e))

-- A step of the migration returns, in a state with the property.
abbrev pub Returns : {S : Type 0} → (S → Type 0) → Option S → Type 0
Returns {S} Q out = (st : S) × ((out ≡ some st) × Q st)

module _ (net : HttpClient) where
  open net use {State}

  put_only :
      (old_node new_node key value : Bytes) (st : State)
      → net.new_request (put_url new_node) ≡ true
      → succeeded net (net.post st (put_url new_node) (put_body key value)).1 ≡ false
      → put_and_delete net old_node new_node key value st
        ≡ some (net.post st (put_url new_node) (put_body key value)).0
  unfolding put_and_delete
  put_only old_node new_node key value st url f = ground (arith, url)

  pub put_both :
      (old_node new_node key value : Bytes) (st : State)
      → net.new_request (put_url new_node) ≡ true
      → net.new_request (delete_url old_node) ≡ true
      → succeeded net (net.post st (put_url new_node) (put_body key value)).1 ≡ true
      → put_and_delete net old_node new_node key value st
        ≡ some
            (net.post
              (net.post st (put_url new_node) (put_body key value)).0
              (delete_url old_node)
              (delete_body key)).0
  unfolding put_and_delete
  put_both old_node new_node key value st url url' f = ground (arith, url, url')

  -- What holds behind the put, and behind the deletion where the put has succeeded
  pub put_and_delete-Returns :
      (Q : State → Type 0) (old_node new_node key value : Bytes) (st : State)
      → net.new_request (put_url new_node) ≡ true
      → net.new_request (delete_url old_node) ≡ true
      → (let out = net.post st (put_url new_node) (put_body key value) in
          Q out.0
          → (succeeded net out.1 ≡ true
              → Q (net.post out.0 (delete_url old_node) (delete_body key)).0)
          → Returns Q (put_and_delete net old_node new_node key value st))
  put_and_delete-Returns Q old_node new_node key value st url url' behind_put behind_delete =
      let out = net.post st (put_url new_node) (put_body key value) in
      elim (Bool-cases (succeeded net out.1)) [
        | inr f ↦ (out.0, (put_only old_node new_node key value st url f, behind_put))
        | inl t ↦ (
          (net.post out.0 (delete_url old_node) (delete_body key)).0,
          (put_both old_node new_node key value st url url' t, behind_delete t),
        )
      ]

module _ (net : HttpClient) (servers : Nodes net) where
  open net use {State}

  -- Some member has the key with the value, and none has it with another.
  pub record Holds (k v : Bytes) (st : State) : Type 0 where
    pub one : (n : Bytes) × (servers.IsMember n × (servers.stores st n k ≡ some v))
    pub no_other :
        (n : Bytes)
        → servers.IsMember n
        → (servers.stores st n k ≡ none) ⊎ (servers.stores st n k ≡ some v)

  -- A value that a member has of the key is that one.
  same_value :
      (k v w n : Bytes) (st : State)
      → servers.IsMember n
      → Holds k v st
      → servers.stores st n k ≡ some w
      → w ≡ v
  same_value k v w n st m h e = elim (h.no_other n m) [
    | inl nothing ↦ absurd (cc (nothing, e))
    | inr same ↦ cc (same, e)
  ]

  -- A put of what is held already, and of any other key
  Holds-put :
      (k v node key value : Bytes) (st : State)
      → servers.IsMember node
      → servers.IsPlain key
      → servers.IsPlain value
      → (bytes_equal k key ≡ true → value ≡ v)
      → Holds k v st
      → Holds k v (net.post st (put_url node) (put_body key value)).0
  Holds-put k v node key value st m p q same h = record {
    one = (
      h.one.0,
      (
        h.one.1.0,
        elim (servers.put st node key value h.one.0 k m h.one.1.0 p q) [
          | inl still ↦ still ∙ h.one.1.1
          | inr (here, at, new) ↦ new ∙ ap some (same at)
        ],
      ),
    );
    no_other = λ n m'. elim (servers.put st node key value n k m m' p q) [
      | inl still ↦ elim (h.no_other n m') [
        | inl nothing ↦ inl (still ∙ nothing)
        | inr some_v ↦ inr (still ∙ some_v)
      ]
      | inr (here, at, new) ↦ inr (new ∙ ap some (same at))
    ];
  }

  -- A deletion from one member, where another one has the key too
  Holds-delete :
      (k v node key n : Bytes) (st : State)
      → servers.IsMember node
      → servers.IsMember n
      → servers.IsPlain key
      → (bytes_equal k key ≡ true → (bytes_equal n node ≡ false) × (servers.stores st n k ≡ some v))
      → Holds k v st
      → Holds k v (net.post st (delete_url node) (delete_body key)).0
  Holds-delete k v node key n st m m' p other h = record {
    one = elim (Bool-cases (bytes_equal k key)) [
      | inl at ↦ (
        n,
        (
          m',
          elim (servers.deleted st node key n k m m' p) [
            | inl still ↦ still ∙ (other at).1
            | inr (here, at2, gone) ↦ absurd (cc (here, (other at).0))
          ],
        ),
      )
      | inr elsewhere ↦ (
        h.one.0,
        (
          h.one.1.0,
          elim (servers.deleted st node key h.one.0 k m h.one.1.0 p) [
            | inl still ↦ still ∙ h.one.1.1
            | inr (here, at, gone) ↦ absurd (cc (at, elsewhere))
          ],
        ),
      )
    ];
    no_other = λ n' m''. elim (servers.deleted st node key n' k m m'' p) [
      | inl still ↦ elim (h.no_other n' m'') [
        | inl nothing ↦ inl (still ∙ nothing)
        | inr some_v ↦ inr (still ∙ some_v)
      ]
      | inr (here, at, gone) ↦ inl gone
    ];
  }

  -- A put and the deletion behind it, on two members
  pub put_and_delete-Holds :
      (k v old_node new_node key value : Bytes) (st : State)
      → net.new_request (put_url new_node) ≡ true
      → net.new_request (delete_url old_node) ≡ true
      → servers.IsMember old_node
      → servers.IsMember new_node
      → servers.IsPlain key
      → servers.IsPlain value
      → servers.stores st old_node key ≡ some value
      → bytes_equal new_node old_node ≡ false
      → Holds k v st
      → Returns (Holds k v) (put_and_delete net old_node new_node key value st)
  put_and_delete-Holds k v old_node new_node key value st url url' m m' p q e apart h =
      let out = net.post st (put_url new_node) (put_body key value) in
      let same : bytes_equal k key ≡ true → value ≡ v = λ at.
        same_value k v value old_node st m h
          (ap (servers.stores st old_node) (bytes_equal-eq k key at) ∙ e) in
      let h' = Holds-put k v new_node key value st m' p q same h in
      put_and_delete-Returns net (Holds k v) old_node new_node key value st url url' h' (λ t.
        let (body, ok_reply) = succeeded-reply net out.1 t in
        Holds-delete k v old_node key new_node out.0 m m' p
          (λ at. (
            apart,
            ap (servers.stores out.0 new_node) (bytes_equal-eq k key at)
                ∙ servers.done st out.0 new_node key value body m' p q
                    (ap (λ r. (out.0, r)) ok_reply)
                ∙ ap some (same at),
          ))
          h')

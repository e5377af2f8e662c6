-- ===== src/Tests/Readding.antt =====
-- cmd/proxy/main.go at a proxy of the node 6, which is added again, and a network of that node, which
-- has the key 1 with the value 1 or has no key.
use distributed_system_proje.Prelude.{
  ◌≡◌, ◌⊎◌, refl, sym, ap, subst, ◌∙◌, Bytes, Bool, true, false, not, ◌&&◌, Option, none, some, [],
  ◌∷◌, All, arith, bytes_equal, bytes_equal-eq, if◌then◌else◌, inl, inr, Bool-cases,
}
use distributed_system_proje.Sharding
use distributed_system_proje.Sharding.{new}
use distributed_system_proje.Sharding.Adding.{IsRing, new-IsRing, add_node-IsRing}
use distributed_system_proje.Proxy.{
  Proxy, AddNodeRequest, added, new_proxy, add_node, get_node, handle_add_node, migrate_data,
  fetch_keys,
}
use distributed_system_proje.Proxy.Network.{
  Body, HttpClient, Nodes, ReadsWhole, response, put_url, delete_url,
}
use distributed_system_proje.Proxy.Migration.{Returns}
use distributed_system_proje.Proxy.Confined.{Confined, Gone}
use distributed_system_proje.Proxy.Readded.{Answers, readded_node_loses_keys}
use distributed_system_proje.Tests.Hashing.{digits, sort, insert, search_from}
use distributed_system_proje.Tests.Network.{whole, or_empty}

abbrev holds_one : Bool → Bytes → Option Bytes
holds_one has k = if has && bytes_equal k (1 ∷ []) then some (1 ∷ []) else none

abbrev one_server : HttpClient
one_server = record {
  State = Bool;
  get = λ has url. if has then response 200 (whole (1 ∷ [])) else response 404 (whole []);
  post = λ has url body. (not (bytes_equal url (delete_url (6 ∷ []))), response 200 (whole []));
  new_request = λ url. true;
  decode_keys = λ body. some ((1 ∷ []) ∷ []);
  trim_space = λ s. s;
  trim_right_slash = λ s. s;
}

reply_whole :
    (has : Bool) (body : Body)
    → (if has then response 200 (whole (1 ∷ [])) else response 404 (whole [])) ≡ response 200 body
    → (has ≡ true) × (whole (1 ∷ []) ≡ body)
reply_whole true body e = (refl, ground arith)
reply_whole Bool.false body e = absurd (ground arith)

one_server-ReadsWhole : ReadsWhole one_server
one_server-ReadsWhole st node key body e = sym (ap (λ b. b.is_whole) (reply_whole st body e).1)

abbrev IsSix : Bytes → Type 0
IsSix n = n ≡ 6 ∷ []

abbrev IsOne : Bytes → Type 0
IsOne k = k ≡ 1 ∷ []

put_at : (node : Bytes) → IsSix node → not (bytes_equal (put_url node) (delete_url (6 ∷ []))) ≡ true
unfolding bytes_equal
put_at node six =
    subst (λ n. not (bytes_equal (put_url n) (delete_url (6 ∷ []))) ≡ true) (sym six) refl

delete_at :
    (node : Bytes) → IsSix node → not (bytes_equal (delete_url node) (delete_url (6 ∷ []))) ≡ false
unfolding bytes_equal
delete_at node six =
    subst (λ n. not (bytes_equal (delete_url n) (delete_url (6 ∷ []))) ≡ false) (sym six) refl

two_six : (n node : Bytes) → IsSix n → IsSix node → bytes_equal n node ≡ true
unfolding bytes_equal
two_six n node a b =
    subst (λ x. bytes_equal x node ≡ true) (sym a)
      (subst (λ x. bytes_equal (6 ∷ []) x ≡ true) (sym b) refl)

nothing_elsewhere :
    (has : Bool) (k : Bytes) → bytes_equal k (1 ∷ []) ≡ false → holds_one has k ≡ none
nothing_elsewhere Bool.false k e = refl
nothing_elsewhere true k e = rw e refl

value_at : (has : Bool) (k : Bytes) → has ≡ true → IsOne k → holds_one has k ≡ some (1 ∷ [])
unfolding bytes_equal
value_at has k e one = ap (λ b. holds_one b k) e ∙ ap (holds_one true) one

put_one :
    (st st' : Bool) (node key value n k : Bytes)
    → bytes_equal n node ≡ true
    → st' ≡ true
    → IsOne key
    → IsOne value
    → (holds_one st' k ≡ holds_one st k)
      ⊎ ((bytes_equal n node ≡ true) × (bytes_equal k key ≡ true) × (holds_one st' k ≡ some value))
put_one st st' node key value n k here e one plain = elim (Bool-cases (bytes_equal k (1 ∷ []))) [
  | inl at ↦ inr (
    here,
    subst (λ x. bytes_equal k x ≡ true) (sym one) at,
    value_at st' k e (bytes_equal-eq k (1 ∷ []) at) ∙ ap some (sym plain),
  )
  | inr other ↦ inl (nothing_elsewhere st' k other ∙ sym (nothing_elsewhere st k other))
]

delete_one :
    (st st' : Bool) (node key n k : Bytes)
    → bytes_equal n node ≡ true
    → st' ≡ false
    → IsOne key
    → (holds_one st' k ≡ holds_one st k)
      ⊎ ((bytes_equal n node ≡ true) × (bytes_equal k key ≡ true) × (holds_one st' k ≡ none))
delete_one st st' node key n k here e one = elim (Bool-cases (bytes_equal k (1 ∷ []))) [
  | inl at ↦ inr (here, subst (λ x. bytes_equal k x ≡ true) (sym one) at, ap (λ b. holds_one b k) e)
  | inr other ↦ inl (nothing_elsewhere st' k other ∙ sym (nothing_elsewhere st k other))
]

unfoldable one_server-Nodes : Nodes one_server
one_server-Nodes = record {
  stores = λ has node k. holds_one has k;
  IsPlain = IsOne;
  IsMember = IsSix;
  listed = λ st node body status keys m e d. subst (All IsOne) (ap or_empty d) (refl, tt);
  got = λ st node key body m one e w.
      (let (has, answered) = reply_whole st body e in
        let same : 1 ∷ [] ≡ body.bytes = ap (λ b. b.bytes) answered in
        (value_at st key has one ∙ ap some same, sym same));
  done = λ st st' node key value body m one plain e.
      value_at st' key (sym (ap (λ x. x.0) e) ∙ put_at node m) one ∙ ap some (sym plain);
  put = λ st node key value n k m m' one plain.
      put_one st _ node key value n k (two_six n node m' m) (put_at node m) one plain;
  deleted = λ st node key n k m m' one.
      delete_one st _ node key n k (two_six n node m' m) (delete_at node m) one;
}

abbrev the_proxy : Proxy
the_proxy = add_node digits new_proxy (6 ∷ [])

abbrev add_six : AddNodeRequest
add_six = record { is_post = true; query_node = 6 ∷ []; form_node = [] }

the_proxy-IsRing : IsRing digits the_proxy.ring
unfolding add_node new_proxy
the_proxy-IsRing = add_node-IsRing digits (new 10) ((6 ∷ []) ∷ []) (new-IsRing digits 10)

listed_keys : (st : Bool) → fetch_keys one_server st (6 ∷ []) ≡ (1 ∷ []) ∷ []
unfolding fetch_keys
listed_keys true = refl
listed_keys Bool.false = refl

given :
    (st : Bool) (w : Bytes)
    → holds_one st (1 ∷ []) ≡ some w
    → (body : Body) × ((if st then response 200 (whole (1 ∷ [])) else response 404 (whole []))
        ≡ response 200 body)
given true w e = (whole (1 ∷ []), refl)
given Bool.false w e = absurd cc

the_node-Answers : Answers one_server one_server-Nodes (6 ∷ []) (1 ∷ [])
unfolding one_server-Nodes
the_node-Answers = record {
  lists = λ st w e. ([], ([], listed_keys st));
  gives = given;
  takes = λ st w e. refl;
  drops = λ st. ap (λ b. holds_one b (1 ∷ [])) (delete_at (6 ∷ []) refl);
}

the_key-Confined : Confined one_server one_server-Nodes (6 ∷ []) (1 ∷ []) (1 ∷ []) true
unfolding bytes_equal one_server-Nodes
the_key-Confined n six = inr (two_six n (6 ∷ []) six refl, refl)

readded_node_loses_keys_example :
    (p' : Proxy) × ((handle_add_node digits one_server the_proxy add_six
        ≡ (added, (p', some ((6 ∷ []) ∷ [], 6 ∷ []))))
      × Returns
          (Gone one_server one_server-Nodes (1 ∷ []))
          (migrate_data digits one_server p' ((6 ∷ []) ∷ []) (6 ∷ []) true))
unfolding add_node new_proxy get_node Sharding.add_node Sharding.add_nodes Sharding.add_virtual
    Sharding.new Sharding.get_node Sharding.is_empty Sharding.node_at sort insert search_from
    bytes_equal one_server-Nodes
readded_node_loses_keys_example =
    readded_node_loses_keys digits one_server one_server-Nodes one_server-ReadsWhole the_proxy
      add_six [] [] (1 ∷ []) (1 ∷ []) true the_proxy-IsRing refl (omega arith) refl
      (refl, (refl, tt)) (refl, tt) the_node-Answers refl the_key-Confined

-- ===== src/Tests/Routing.antt =====
-- cmd/proxy/main.go at a concrete proxy and two nodes.
use distributed_system_proje.Prelude.{
  ◌≡◌, refl, true, none, some, [], ◌∷◌, arith, inl, inr, bytes_equal, if◌then◌else◌, Bool-cases,
}
use distributed_system_proje.Sharding.{new}
use distributed_system_proje.Sharding.Adding.{IsRing, new-IsRing, add_node-IsRing}
use distributed_system_proje.Proxy.{
  Proxy, AddNodeRequest, refused, added, new_proxy, add_node, handle_add_node, migrate_data,
}
use distributed_system_proje.Proxy.Migration.{Returns, Holds}
use distributed_system_proje.Proxy.Joined.{handle_add_node-Keeps}
use distributed_system_proje.Tests.Hashing.{digits}
use distributed_system_proje.Tests.Network.{two_nodes-ReadsWhole, Store, two_nodes, two_nodes-Nodes}

-- A proxy of the node 5, which has the key 1 with the value 1
abbrev one_node : Proxy
one_node = add_node digits new_proxy (5 ∷ [])

abbrev old_store : Store
old_store n k =
    if bytes_equal n (5 ∷ [])
    then (if bytes_equal k (1 ∷ []) then some (1 ∷ []) else none)
    else none

one_node-IsRing : IsRing digits one_node.ring
unfolding add_node new_proxy
one_node-IsRing = add_node-IsRing digits (new 10) ((5 ∷ []) ∷ []) (new-IsRing digits 10)

old_store-Holds : Holds two_nodes two_nodes-Nodes (1 ∷ []) (1 ∷ []) old_store
unfolding two_nodes-Nodes bytes_equal
old_store-Holds = record {
  one = (5 ∷ [], (tt, refl));
  no_other = λ n m. elim (Bool-cases (bytes_equal n (5 ∷ []))) [
    | inl five ↦ inr (rw five refl)
    | inr other ↦ inl (rw other refl)
  ];
}

abbrev add_six : AddNodeRequest
add_six = record { is_post = true; query_node = 6 ∷ []; form_node = [] }

handle_add_node-Keeps_example :
    (p' : Proxy) × ((handle_add_node digits two_nodes one_node add_six
        ≡ (added, (p', some ((5 ∷ []) ∷ [], 6 ∷ []))))
      × IsRing digits p'.ring
      × Returns
          (Holds two_nodes two_nodes-Nodes (1 ∷ []) (1 ∷ []))
          (migrate_data digits two_nodes p' ((5 ∷ []) ∷ []) (6 ∷ []) old_store))
unfolding add_node new_proxy bytes_equal two_nodes-Nodes
handle_add_node-Keeps_example =
    handle_add_node-Keeps digits two_nodes two_nodes-Nodes two_nodes-ReadsWhole one_node add_six
      (1 ∷ []) (1 ∷ []) old_store one_node-IsRing refl (omega arith) (refl, (refl, tt)) tt (tt, tt)
      (refl, tt) old_store-Holds

-- A node that is named in the form of the request, and not in its URL, is refused.
form_node_is_refused :
    handle_add_node digits two_nodes one_node
      (record { is_post = true; query_node = []; form_node = 6 ∷ [] })
    ≡ (refused 400, (one_node, none))
unfolding handle_add_node
form_node_is_refused = refl

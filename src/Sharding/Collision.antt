-- ===== src/Sharding/Collision.antt =====
-- RemoveNode (sharding/consistent_hash.go) on two nodes whose virtual nodes stand at one position.
use distributed_system_proje.Prelude.{
  ◌<◌, ◌≡◌, ◌≢◌, ap, Bytes, some, [], ◌∷◌, inl, inr, arith, length,
}
use distributed_system_proje.Sharding.{
  Helpers, new, position, node_at, add_node, add_nodes, add_virtual, remove_node, get_node,
}
use distributed_system_proje.Sharding.Leaving.{get_node-listed, remove_virtual-node_at}

module _ (h : Helpers) where
  -- Where two nodes join a new ring of one replica at one position, removing the first takes the
  -- second from every key too: GetNode returns it no more, although it never left.
  pub removal_takes_both :
      (a b key : Bytes)
      → position h a 0 ≡ position h b 0
      → 0 < length b
      → get_node h (remove_node h (add_node h (new 1) (a ∷ b ∷ [])) a) key ≢ some b
  unfolding remove_node add_node add_nodes add_virtual new node_at
  removal_takes_both a b key same named e =
      elim (get_node-listed h (remove_node h (add_node h (new 1) (a ∷ b ∷ [])) a) key b e) [
        | inl nameless ↦ omega (arith, ap length nameless)
        | inr (k, at) ↦
            ground
              (arith, at, same, remove_virtual-node_at h 1 0 a (add_node h (new 1) (a ∷ b ∷ [])) k)
      ]

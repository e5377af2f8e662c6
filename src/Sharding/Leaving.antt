-- ===== src/Sharding/Leaving.antt =====
-- RemoveNode (sharding/consistent_hash.go): what becomes of the keys when a node leaves the ring.
use distributed_system_proje.Prelude.{
  ℕ, zero, suc, ◌<◌, ◌≡◌, ◌≢◌, refl, ap, sym, ◌∙◌, subst, Bytes, true, not, ◌&&◌, none, some, [],
  ◌==◌, ◌⊎◌, inl, inr, arith, if◌then◌else◌, length, get_elem?, Bool-cases, Option-cases,
}
use distributed_system_proje.Sharding.{
  Helpers, ConsistentHashRing, mem, node_at, drop_at, drop_key, position, node_or_empty,
  remove_virtual, remove_node, get_node, is_empty,
}
use distributed_system_proje.Sharding.Clockwise.{
  Clockwise-unique, Clockwise-fewer, get_node-Clockwise,
}
use distributed_system_proje.Sharding.Adding.{
  IsRing, virtual_positions, virtual_positions-mem, mem-virtual_positions, get_node-empty,
  Zero-cases, mem-length, mem-empty, empty-by-mem,
}
use distributed_system_proje.Sharding.Removal.{
  IsDistinct, IsDistinct-IsAscending, drop_key-IsDistinct, mem-drop_key, node_at-drop_at,
}

module _ (h : Helpers) where
  pub remove_virtual-node_at :
      (n i : ℕ) (node : Bytes) (r : ConsistentHashRing) (k : ℕ)
      → node_at k (remove_virtual h n i node r).hash_map
        ≡ (if mem k (virtual_positions h n i node) then none else node_at k r.hash_map)
  unfolding remove_virtual
  remove_virtual-node_at zero i node r k = refl
  remove_virtual-node_at (suc n) i node r k =
      remove_virtual-node_at n (suc i) node _ k
      ∙ ground (arith, node_at-drop_at (position h node i) k r.hash_map)

  remove_virtual-keys :
      (n i : ℕ) (node : Bytes) (r : ConsistentHashRing)
      → IsDistinct r.keys
      → IsDistinct (remove_virtual h n i node r).keys
        × ((k : ℕ)
            → mem k (remove_virtual h n i node r).keys
              ≡ (mem k r.keys && not (mem k (virtual_positions h n i node))))
  unfolding remove_virtual
  remove_virtual-keys zero i node r d = (d, λ k. ground arith)
  remove_virtual-keys (suc n) i node r d =
      let (distinct, inside) =
        remove_virtual-keys n (suc i) node
          (record r {
            keys = drop_key h (position h node i) r.keys;
            hash_map = drop_at (position h node i) r.hash_map;
          })
          (drop_key-IsDistinct h (position h node i) r.keys d) in
      (distinct, λ k. inside k ∙ ground (arith, mem-drop_key h (position h node i) k r.keys d))

  -- GetNode returns the node of a position, or the empty string.
  pub get_node-listed :
      (r : ConsistentHashRing) (key n : Bytes)
      → get_node h r key ≡ some n
      → (n ≡ []) ⊎ ((k : ℕ) × (node_at k r.hash_map ≡ some n))
  unfolding get_node
  get_node-listed r key n e = elim (Bool-cases (is_empty r)) [
    | inl z ↦
        (let out : get_node h r key ≡ some [] = rw (get_node, z) refl in
          inl (ap node_or_empty (sym e ∙ out)))
    | inr full ↦
        (let found = h.search_ints r.keys (h.hash_func key) in
          let idx = if found == length r.keys then 0 else found in
          elim (Option-cases (get_elem? r.keys idx)) [
            | inl past ↦
                (let out : get_node h r key ≡ none = rw (get_node, full, past) refl in
                  absurd (cc (out, e)))
            | inr (k, g) ↦
                (let out : get_node h r key ≡ some (node_or_empty (node_at k r.hash_map)) =
                    rw (get_node, full, g) refl in
                  elim (Option-cases (node_at k r.hash_map)) [
                    | inl m ↦
                        inl (ap node_or_empty (sym e ∙ out ∙ ap (λ o. some (node_or_empty o)) m))
                    | inr (x, m) ↦
                        inr (k, m ∙ sym (ap (λ o. some (node_or_empty o)) m) ∙ sym out ∙ e)
                  ])
          ])
  ]

  -- On a ring with one virtual node at each position where the node that leaves stands at its own,
  -- RemoveNode moves no key of another node.
  pub remove_node-keeps :
      (r : ConsistentHashRing) (node key n : Bytes)
      → IsRing h r
      → IsDistinct r.keys
      → ((i : ℕ) → i < r.replicas → node_at (position h node i) r.hash_map ≡ some node)
      → get_node h r key ≡ some n
      → n ≢ node
      → get_node h (remove_node h r node) key ≡ some n
  unfolding remove_node
  remove_node-keeps r node key n v d own e ne =
      let r' = remove_virtual h r.replicas 0 node r in
      let ps = virtual_positions h r.replicas 0 node in
      let (d', inside) = remove_virtual-keys r.replicas 0 node r d in
      elim (Zero-cases (length r.keys)) [
        | inl z ↦
            get_node-empty h r' key
              (empty-by-mem r'.keys (λ k. inside k ∙ ground (arith, mem-empty k r.keys z)))
            ∙ sym (get_node-empty h r key z)
            ∙ e
        | inr full ↦
            (let (p, c, g) = get_node-Clockwise h r key v.ascending full in
              elim (Bool-cases (mem p ps)) [
                | inl its_own ↦
                    (let (j, b, q) = mem-virtual_positions h r.replicas 0 p node its_own in
                      absurd (
                        ne (
                          ap node_or_empty (
                            sym e
                            ∙ g
                            ∙ ap (λ o. some (node_or_empty o))
                                (ap (λ x. node_at x r.hash_map) q ∙ own j (omega (arith, b)))))))
                | inr other ↦
                    (let here : mem p r'.keys ≡ true =
                        inside p ∙ ground (arith, c.on_ring, other) in
                      let (q, c', g') =
                        get_node-Clockwise h r' key (IsDistinct-IsAscending r'.keys d')
                          (mem-length p r'.keys here) in
                      let same : q ≡ p = Clockwise-unique r'.keys (h.hash_func key) q p c' (
                        Clockwise-fewer r.keys r'.keys (h.hash_func key) p c here
                          (λ k m. ground (arith, inside k, m))) in
                      let kept : node_at p r'.hash_map ≡ node_at p r.hash_map =
                        remove_virtual-node_at r.replicas 0 node r p ∙ rw other refl in
                      g'
                      ∙ ap (λ o. some (node_or_empty o))
                          (ap (λ x. node_at x r'.hash_map) same ∙ kept)
                      ∙ sym g
                      ∙ e)
              ])
      ]

  -- A node that has left a ring is found for no key: behind RemoveNode, GetNode does not return it.
  pub remove_node-leaves :
      (r : ConsistentHashRing) (node key : Bytes)
      → IsRing h r
      → 0 < length node
      → get_node h (remove_node h r node) key ≢ some node
  unfolding remove_node
  remove_node-leaves r node key v named e =
      elim (get_node-listed (remove_virtual h r.replicas 0 node r) key node e) [
        | inl nameless ↦ omega (arith, ap length nameless)
        | inr (k, at) ↦
            (let after = remove_virtual-node_at r.replicas 0 node r k in
              elim (Bool-cases (mem k (virtual_positions h r.replicas 0 node))) [
                | inl its_own ↦
                    let gone : node_at k (remove_virtual h r.replicas 0 node r).hash_map ≡ none =
                      after ∙ rw its_own refl in
                    absurd (cc (at, gone))
                | inr other ↦
                    (let before : node_at k r.hash_map ≡ some node = rw other at (sym after) ∙ at in
                      let (i, b, q) = v.nodes.owned k node before in
                      let mine : mem k (virtual_positions h r.replicas 0 node) ≡ true =
                        subst (λ x. mem x (virtual_positions h r.replicas 0 node) ≡ true) (sym q)
                          (virtual_positions-mem h r.replicas 0 i node (omega arith)
                            (omega (arith, b))) in
                      absurd (cc (mine, other)))
              ])
      ]

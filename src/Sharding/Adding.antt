-- ===== src/Sharding/Adding.antt =====
-- AddNode (sharding/consistent_hash.go): what it does to the positions and to the nodes of keys.
use distributed_system_proje.Prelude.{
  ℕ, zero, suc, ◌+◌, ◌≤◌, ◌<◌, ◌≡◌, refl, ap, sym, ◌∙◌, subst, Bytes, Bool, true, false, ◌||◌,
  Option, none, some, List, [], ◌∷◌, ◌++◌, ◌==◌, ==_iff, ◌⊎◌, inl, inr, arith, if◌then◌else◌,
  length, Bool-cases,
}
use distributed_system_proje.Sharding.{
  Helpers, ConsistentHashRing, IsAscending, mem, node_at, position, node_or_empty, is_empty,
  add_virtual, add_nodes, add_node, get_node, new,
}
use distributed_system_proje.Sharding.Clockwise.{
  Clockwise-unique, Clockwise-fewer, mem-append, get_node-Clockwise,
}

abbrev pub is_some : Option Bytes → Bool
is_some none = false
is_some (some n) = true

pub mem-length : (k : ℕ) (xs : List ℕ) → mem k xs ≡ true → 0 < length xs
mem-length k [] e = absurd (cc)
mem-length k (x ∷ xs) e = omega arith

pub Zero-cases : (n : ℕ) → (n ≡ 0) ⊎ (0 < n)
Zero-cases zero = inl refl
Zero-cases (suc n) = inr (omega arith)

pub mem-empty : (k : ℕ) (xs : List ℕ) → length xs ≡ 0 → mem k xs ≡ false
mem-empty k [] e = refl
mem-empty k (x ∷ xs) e = absurd (omega (arith, e))

pub empty-by-mem : (xs : List ℕ) → ((k : ℕ) → mem k xs ≡ false) → length xs ≡ 0
empty-by-mem [] none_in = refl
empty-by-mem (x ∷ xs) none_in = ground (arith, none_in x)

module _ (h : Helpers) where
  -- Where the `n` virtual nodes of a node from the i-th on stand
  abbrev pub virtual_positions : ℕ → ℕ → Bytes → List ℕ
  virtual_positions zero i node = []
  virtual_positions (suc n) i node = position h node i ∷ virtual_positions n (suc i) node

  pub virtual_positions-mem :
      (n i j : ℕ) (node : Bytes)
      → i ≤ j
      → j < i + n
      → mem (position h node j) (virtual_positions n i node) ≡ true
  virtual_positions-mem zero i j node a b = absurd (omega arith)
  virtual_positions-mem (suc n) i j node a b = elim (Bool-cases (i == j)) [
    | inl same ↦
        subst (λ x. mem (position h node x) (virtual_positions (suc n) i node) ≡ true)
          ((==_iff i j).0 same) (ground arith)
    | inr other ↦
        ground (arith, virtual_positions-mem n (suc i) j node (ground arith) (omega arith))
  ]

  pub mem-virtual_positions :
      (n i k : ℕ) (node : Bytes)
      → mem k (virtual_positions n i node) ≡ true
      → (j : ℕ) × (j < i + n) × (k ≡ position h node j)
  mem-virtual_positions zero i k node e = absurd (cc)
  mem-virtual_positions (suc n) i k node e = elim (Bool-cases (k == position h node i)) [
    | inl same ↦ (i, omega arith, (==_iff k (position h node i)).0 same)
    | inr other ↦
        (let (j, b, q) = mem-virtual_positions n (suc i) k node (ground arith) in
          (j, omega (arith, b), q))
  ]

  -- The positions of a ring are those of its map, and each belongs to a virtual node of its node.
  pub record IsMapped (r : ConsistentHashRing) : Type 0 where
    pub mapped : (k : ℕ) → mem k r.keys ≡ is_some (node_at k r.hash_map)
    pub owned :
        (k : ℕ) (n : Bytes)
        → node_at k r.hash_map ≡ some n
        → (i : ℕ) × (i < r.replicas) × (k ≡ position h n i)

  -- What every ring is: its positions also ascend.
  pub record IsRing (r : ConsistentHashRing) : Type 0 where
    pub ascending : IsAscending r.keys
    pub nodes : IsMapped r

  -- The ring `r'` is `r` with `n` more virtual nodes of a node, but for the order of its positions.
  pub record HasAdded (r r' : ConsistentHashRing) (positions : List ℕ) (node : Bytes) : Type 0 where
    pub replicas_kept : r'.replicas ≡ r.replicas
    pub mem_after : (k : ℕ) → mem k r'.keys ≡ (mem k r.keys || mem k positions)
    pub node_after :
        (k : ℕ)
        → node_at k r'.hash_map ≡ (if mem k positions then some node else node_at k r.hash_map)

  add_virtual-HasAdded :
      (n i : ℕ) (node : Bytes) (r : ConsistentHashRing)
      → HasAdded r (add_virtual h n i node r) (virtual_positions n i node) node
  unfolding add_virtual node_at
  add_virtual-HasAdded zero i node r = record {
    replicas_kept = refl;
    mem_after = λ k. ground arith;
    node_after = λ k. refl;
  }
  add_virtual-HasAdded (suc n) i node r =
      let r' : ConsistentHashRing = record r {
        keys = r.keys ++ (position h node i ∷ []);
        hash_map = (position h node i, node) ∷ r.hash_map;
      } in
      let rest = add_virtual-HasAdded n (suc i) node r' in
      record {
        replicas_kept = rest.replicas_kept;
        mem_after =
            λ k. rest.mem_after k ∙ ground (arith, mem-append k r.keys (position h node i ∷ []));
        node_after = λ k. rest.node_after k ∙ ground arith;
      }

  node-new :
      (r r' : ConsistentHashRing) (ps : List ℕ) (node : Bytes) (k : ℕ)
      → HasAdded r r' ps node
      → mem k ps ≡ true
      → node_at k r'.hash_map ≡ some node
  node-new r r' ps node k a e = a.node_after k ∙ rw e refl

  node-kept :
      (r r' : ConsistentHashRing) (ps : List ℕ) (node : Bytes) (k : ℕ)
      → HasAdded r r' ps node
      → mem k ps ≡ false
      → node_at k r'.hash_map ≡ node_at k r.hash_map
  node-kept r r' ps node k a e = a.node_after k ∙ rw e refl

  HasAdded-IsMapped :
      (r r' : ConsistentHashRing) (node : Bytes)
      → HasAdded r r' (virtual_positions r.replicas 0 node) node
      → IsMapped r
      → IsMapped r'
  HasAdded-IsMapped r r' node a v = record {
    mapped = λ k. ground (arith, a.mem_after k, a.node_after k, v.mapped k);
    owned = λ k n e. elim (Bool-cases (mem k (virtual_positions r.replicas 0 node))) [
      | inl new_one ↦
          (let (j, b, q) = mem-virtual_positions r.replicas 0 k node new_one in
            let same : node ≡ n =
              ap node_or_empty
                (sym (node-new r r' (virtual_positions r.replicas 0 node) node k a new_one) ∙ e) in
            (j, omega (arith, b, a.replicas_kept), q ∙ ap (λ x. position h x j) same))
      | inr old_one ↦
          (let (j, b, q) = v.owned k n (ground (arith, a.node_after k, e)) in
            (j, omega (arith, b, a.replicas_kept), q))
    ];
  }

  add_nodes-IsMapped :
      (nodes : List Bytes) (r : ConsistentHashRing) → IsMapped r → IsMapped (add_nodes h nodes r)
  unfolding add_nodes
  add_nodes-IsMapped [] r v = v
  add_nodes-IsMapped (node ∷ nodes) r v =
      add_nodes-IsMapped nodes _
        (HasAdded-IsMapped r _ node (add_virtual-HasAdded r.replicas 0 node r) v)

  -- AddNode makes a ring of a ring: the positions ascend and are those of the map, and each of them is
  -- a virtual node of the node it stands for.
  pub add_node-IsRing :
      (r : ConsistentHashRing) (nodes : List Bytes) → IsRing r → IsRing (add_node h r nodes)
  unfolding add_node
  add_node-IsRing r nodes v =
      let added = add_nodes h nodes r in
      let w = add_nodes-IsMapped nodes r v.nodes in
      record {
        ascending = h.ints-IsAscending added.keys;
        nodes = record { mapped = λ k. h.mem-ints k added.keys ∙ w.mapped k; owned = w.owned };
      }

  pub new-IsRing : (replicas : ℕ) → IsRing (new replicas)
  unfolding new node_at
  new-IsRing replicas = record {
    ascending = tt;
    nodes = record { mapped = λ k. refl; owned = λ k n e. absurd (cc) };
  }

  pub get_node-empty :
      (r : ConsistentHashRing) (key : Bytes) → length r.keys ≡ 0 → get_node h r key ≡ some []
  unfolding get_node is_empty
  get_node-empty r key e = ground (arith, e)

  added_one :
      (r : ConsistentHashRing) (node : Bytes)
      → HasAdded r (add_node h r (node ∷ [])) (virtual_positions r.replicas 0 node) node
  unfolding add_node add_nodes
  added_one r node =
      let a = add_virtual-HasAdded r.replicas 0 node r in
      record {
        replicas_kept = a.replicas_kept;
        mem_after = λ k. h.mem-ints k (add_virtual h r.replicas 0 node r).keys ∙ a.mem_after k;
        node_after = a.node_after;
      }

  -- A node that joins a ring takes keys over, and moves no key between the others: behind AddNode a
  -- key is with the new node, or with the node that it was with.
  pub add_node-moves :
      (r : ConsistentHashRing) (node key : Bytes)
      → IsRing r
      → (get_node h (add_node h r (node ∷ [])) key ≡ some node)
        ⊎ (get_node h (add_node h r (node ∷ [])) key ≡ get_node h r key)
  add_node-moves r node key v =
      let r' = add_node h r (node ∷ []) in
      let a = added_one r node in
      elim (Zero-cases (length r'.keys)) [
        | inl none_left ↦ inr (
            get_node-empty r' key none_left
            ∙ sym (
                get_node-empty r key (
                  empty-by-mem r.keys
                    (λ k. ground (arith, a.mem_after k, mem-empty k r'.keys none_left)))))
        | inr some_left ↦
            (let (p, c, g) =
                get_node-Clockwise h r' key (add_node-IsRing r (node ∷ []) v).ascending some_left in
              elim (Bool-cases (mem p (virtual_positions r.replicas 0 node))) [
                | inl new_one ↦ inl (
                    g
                    ∙ ap (λ o. some (node_or_empty o))
                        (node-new r r' (virtual_positions r.replicas 0 node) node p a new_one))
                | inr old_one ↦
                    (let here : mem p r.keys ≡ true = ground (arith, a.mem_after p, c.on_ring) in
                      let (q, d, g') =
                        get_node-Clockwise h r key v.ascending (mem-length p r.keys here) in
                      let same : p ≡ q =
                        Clockwise-unique r.keys (h.hash_func key) p q
                          (Clockwise-fewer r'.keys r.keys (h.hash_func key) p c here
                            (λ k e. ground (arith, a.mem_after k, e)))
                          d in
                      inr (
                        g
                        ∙ ap (λ o. some (node_or_empty o))
                            (node-kept r r' (virtual_positions r.replicas 0 node) node p a old_one
                              ∙ ap (λ x. node_at x r.hash_map) same)
                        ∙ sym g'))
              ])
      ]

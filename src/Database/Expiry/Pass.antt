-- ===== src/Database/Expiry/Pass.antt =====
-- DeleteExpiredKeys (db.go): what one scan collects, and what the loop over its positions keeps.
use distributed_system_proje.Prelude.{
  ℕ, zero, suc, ◌+◌, ◌≡◌, refl, ap, sym, ◌∙◌, Bytes, Bool, true, false, not, leb, Option, none,
  some, List, [], ◌∷◌, ◌++◌, append_assoc, append-nil, arith, All, length, length-append, take, map,
  if◌then◌else◌, bytes_equal, bytes_equal-eq, bytes_less, inl, inr, Bool-cases,
}
use distributed_system_proje.Prelude.Int.{ℤ}
use distributed_system_proje.Errors.{Error}
use distributed_system_proje.Record.{LogRecord, ChunkPosition, is_expired, decode_log_record}
use distributed_system_proje.Index.Item.{Item, keep, visit, find_item}
use distributed_system_proje.Index.Api.{visitor}
use distributed_system_proje.Store.{Env, Db, free, writing}
use distributed_system_proje.Store.Log.{answer}
use distributed_system_proje.Database.Walk.{visit_step}
use distributed_system_proje.Database.Expiry.{
  collect_position, scan_positions, expire_positions, expire_loop, delete_expired_keys, finished,
}

pub All-take {ℓ κ} :
    {A : Type ℓ} (P : A → Type κ) (n : ℕ) (xs : List A) → All P xs → All P (take n xs)
All-take P zero xs h = tt
All-take P (suc n) [] h = tt
All-take P (suc n) (x ∷ xs) h = (h.0, All-take P n xs h.1)

abbrev pub positions_of : List Item → List (Option ChunkPosition)
positions_of xs = map (λ x. x.pos) xs

-- The collecting handler stops behind the position that makes a hundred.
collect_position-goes_on :
    (n : ℕ) (go : Bool) (x : Item) (acc : List (Option ChunkPosition))
    → n + length acc ≡ 99
    → leb 1 n ≡ go
    → visitor collect_position x acc ≡ (go, acc ++ (x.pos ∷ []))
unfolding visitor collect_position
collect_position-goes_on n go x acc h g = ground (arith, length-append acc (x.pos ∷ []))

visit-collect_position :
    (n : ℕ) (xs : List Item) (acc : List (Option ChunkPosition))
    → n + length acc ≡ 99
    → visit (visitor collect_position) xs acc ≡ acc ++ positions_of (take (suc n) xs)
visit-collect_position n [] acc h = unfold visit in sym (append-nil acc)
visit-collect_position zero (x ∷ xs) acc h =
    visit_step (visitor collect_position) x xs acc _ _
      (collect_position-goes_on 0 false x acc h refl)
visit-collect_position (suc n) (x ∷ xs) acc h =
    visit_step (visitor collect_position) x xs acc _ _
      (collect_position-goes_on (suc n) true x acc h (ground arith))
    ∙ visit-collect_position n xs (acc ++ (x.pos ∷ []))
        (omega (arith, length-append acc (x.pos ∷ [])))
    ∙ append_assoc acc (x.pos ∷ []) _

-- From a key on: the items that AscendGreaterOrEqual visits
abbrev pub from : Bytes → List Item → List Item
from lo xs = keep (λ x. not (bytes_less x.key lo)) xs

-- An item that is found, at its key or behind it, is visited.
pub from-find_item :
    (key lo : Bytes) (xs : List Item) (it : Item)
    → find_item key xs ≡ some it
    → bytes_less key lo ≡ false
    → (y : Item) × ((ys : List Item) × (from lo xs ≡ y ∷ ys))
unfolding keep find_item
from-find_item key lo [] it e h = absurd (cc)
from-find_item key lo (x ∷ xs) it e h = elim (Bool-cases (bytes_less x.key lo)) [
  | inr kept ↦ (x, (from lo xs, rw kept refl))
  | inl dropped ↦ elim (Bool-cases (bytes_equal key x.key)) [
    | inl same ↦ absurd (cc (dropped, h, ap (λ k. bytes_less k lo) (bytes_equal-eq key x.key same)))
    | inr other ↦
        (let later : find_item key xs ≡ some it = ground arith in
          let (y, (ys, rest)) = from-find_item key lo xs it later h in (y, (ys, rw dropped rest)))
  ]
]

module _ (env : Env) where
  -- One scan collects the positions of the first hundred items from the cursor on.
  pub scan_positions_lem :
      (db : Db env) (cursor : Bytes)
      → scan_positions env db cursor
        ≡ positions_of (take 100 (from cursor (env.indexer.entries db.index)))
  unfolding scan_positions
  scan_positions_lem db cursor =
      env.indexer.ascend_greater_or_equal-entries _ db.index cursor collect_position []
      ∙ visit-collect_position 99 _ [] refl

  abbrev pub with_index : env.indexer.Index → Db env → Db env
  with_index i db = record db { index = i }

  -- The goroutine goes through the loop once it has the lock.
  pub delete_expired_keys-expire_loop :
      (fuel : ℕ) (db : Db env) (now : ℤ) (cursor : Bytes)
      → db.mu ≡ free
      → delete_expired_keys env fuel db now cursor
        ≡ expire_loop env fuel (record db { mu = writing }) now cursor
  unfolding delete_expired_keys
  delete_expired_keys-expire_loop fuel db now cursor e = ground arith

  -- A scan that finds nothing ends the loop, and a pass without an error leads to the next scan.
  pub expire_loop_end :
      (fuel : ℕ) (db : Db env) (now : ℤ) (cursor : Bytes)
      → scan_positions env db cursor ≡ []
      → expire_loop env (suc fuel) db now cursor ≡ finished none (record db { mu = free }) []
  unfolding expire_loop
  expire_loop_end fuel db now cursor e = ground arith

  pub expire_loop_pass :
      (fuel : ℕ) (db db' : Db env) (now : ℤ) (cursor cursor' : Bytes) (pos : Option ChunkPosition)
      (rest : List (Option ChunkPosition))
      → scan_positions env db cursor ≡ pos ∷ rest
      → expire_positions env db now cursor (scan_positions env db cursor)
        ≡ some (none, (db', cursor'))
      → expire_loop env (suc fuel) db now cursor ≡ expire_loop env fuel db' now cursor'
  unfolding expire_loop
  expire_loop_pass fuel db db' now cursor cursor' pos rest e run = ground arith

  -- An item whose record is read, has a key that `P` holds of, and whose removal, where it is expired,
  -- keeps `J`
  pub record Expirable (db : Db env) (now : ℤ) (J : env.indexer.Index → Type 0) (P : Bytes → Type 0)
      (x : Item) : Type 0 where
    pub at : ChunkPosition
    pub placed : x.pos ≡ some at
    pub chunk : Bytes
    pub reads : env.wal.read db.data_files at ≡ answer chunk
    pub content : LogRecord
    pub decodes : decode_log_record chunk ≡ some content
    pub wanted : P content.key
    pub kept :
        (i : env.indexer.Index)
        → is_expired content now ≡ true
        → J i
        → J (env.indexer.delete i content.key).0

  module _ (db : Db env) (now : ℤ) (J : env.indexer.Index → Type 0) (P : Bytes → Type 0) where
    -- What a loop that keeps `J` and `P` answers
    abbrev pub Keeps : Option (Option Error × (Db env × Bytes)) → Type 0
    Keeps out =
        (i : env.indexer.Index) × ((cursor : Bytes) × (out ≡ some (none, (with_index i db, cursor)))
          × J i
          × P cursor)

    removed :
        (i : env.indexer.Index) (r : LogRecord)
        → ((i : env.indexer.Index)
            → is_expired r now ≡ true
            → J i
            → J (env.indexer.delete i r.key).0)
        → J i
        → J (if is_expired r now then (env.indexer.delete i r.key).0 else i)
    removed i r kept j = elim (Bool-cases (is_expired r now)) [
      | inl old ↦ rw old (kept i old j)
      | inr fresh ↦ rw fresh j
    ]

    step :
        (i : env.indexer.Index) (cursor : Bytes) (xs : List Item) (x : Item)
        → (e : Expirable db now J P x)
        → expire_positions env (with_index i db) now cursor (positions_of (x ∷ xs))
          ≡ expire_positions env
              (with_index
                (if is_expired e.content now then (env.indexer.delete i e.content.key).0 else i)
                db)
              now
              e.content.key
              (positions_of xs)
    unfolding expire_positions
    step i cursor xs x e = ground (arith, e.placed, e.reads, e.decodes)

    pub expire_positions-Keeps :
        (xs : List Item) (i : env.indexer.Index) (cursor : Bytes)
        → All (Expirable db now J P) xs
        → J i
        → P cursor
        → Keeps (expire_positions env (with_index i db) now cursor (positions_of xs))
    expire_positions-Keeps [] i cursor h j p = unfold expire_positions in (i, (cursor, refl, j, p))
    expire_positions-Keeps (x ∷ xs) i cursor (e, h) j p =
        let (i', (cursor', run, j', p')) =
          expire_positions-Keeps xs _ e.content.key h (removed i e.content e.kept j) e.wanted in
        (i', (cursor', step i cursor xs x e ∙ run, j', p'))

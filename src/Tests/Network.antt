-- ===== src/Tests/Network.antt =====
-- Two nodes for the tests of cmd/proxy/main.go: the node 5 gives out its keys, and the node 6 takes the
-- key 1 with the value 1.
use distributed_system_proje.Prelude.{
  ℕ, ◌≡◌, ◌⊎◌, refl, ap, sym, ◌∙◌, subst, Bytes, Bool, true, false, ◌&&◌, Option, none, some, List,
  [], ◌∷◌, arith, All, bytes_equal, bytes_equal-eq, bytes_equal_refl, if◌then◌else◌, inl, inr,
  Bool-cases,
}
use mathlib.Core.List.{append_cancel_right}
use distributed_system_proje.Proxy.Network.{
  Body, ReadsWhole, HttpClient, Nodes, HttpReply, failed_request, response, keys_url, get_url,
  put_url, delete_url, put_body, delete_body,
}

abbrev pub Store : Type 0
Store = Bytes → Bytes → Option Bytes

abbrev pub write : Store → Bytes → Option Bytes → Store
write st node value n k = if bytes_equal n node && bytes_equal k (1 ∷ []) then value else st n k

-- A body that can be read to its end
abbrev pub whole : Bytes → Body
whole bytes = record { bytes = bytes; is_whole = true }

abbrev pub reply_of : Option Bytes → HttpReply
reply_of none = response 404 (whole [])
reply_of (some value) =
    if bytes_equal value (1 ∷ []) then response 200 (whole value) else response 500 (whole [])

abbrev pub get_reply : Store → Bytes → HttpReply
get_reply st url =
    if bytes_equal url (get_url (5 ∷ []) (1 ∷ []))
    then reply_of (st (5 ∷ []) (1 ∷ []))
    else if bytes_equal url (keys_url (5 ∷ []))
    then response 200 (whole (1 ∷ []))
    else failed_request

abbrev pub replied : Bool → Store → Store → Store × HttpReply
replied true st st' = (st', response 200 (whole []))
replied false st st' = (st, failed_request)

abbrev pub post_reply : Store → Bytes → Bytes → Store × HttpReply
post_reply st url body =
    if bytes_equal body (put_body (1 ∷ []) (1 ∷ []))
    then replied (bytes_equal url (put_url (6 ∷ []))) st (write st (6 ∷ []) (some (1 ∷ [])))
    else replied (bytes_equal body (delete_body (1 ∷ [])) && bytes_equal url (delete_url (5 ∷ [])))
        st (write st (5 ∷ []) none)

abbrev pub two_nodes : HttpClient
two_nodes = record {
  State = Store;
  get = get_reply;
  post = post_reply;
  new_request = λ url. true;
  decode_keys = λ body. some (body.bytes ∷ []);
  trim_space = λ s. s;
  trim_right_slash = λ s. s;
}

abbrev pub IsOne : Bytes → Type 0
IsOne x = x ≡ 1 ∷ []

-- The last byte of an address
last_byte : ℕ → Bytes → ℕ
last_byte d [] = d
last_byte d (x ∷ xs) = last_byte x xs

last_byte-get_url : (d : ℕ) (node : Bytes) → last_byte d (get_url node (1 ∷ [])) ≡ 1
unfolding last_byte
last_byte-get_url d [] = refl
last_byte-get_url d (x ∷ node) = last_byte-get_url x node

last_byte-keys_url : (d : ℕ) (node : Bytes) → last_byte d (keys_url node) ≡ 115
unfolding last_byte
last_byte-keys_url d [] = refl
last_byte-keys_url d (x ∷ node) = last_byte-keys_url x node

no_keys_url : (node : Bytes) → bytes_equal (get_url node (1 ∷ [])) (keys_url (5 ∷ [])) ≡ false
unfolding last_byte
no_keys_url node = elim (Bool-cases (bytes_equal (get_url node (1 ∷ [])) (keys_url (5 ∷ [])))) [
  | inr other ↦ other
  | inl same ↦ absurd (cc (last_byte-get_url 0 node, ap (last_byte 0) (bytes_equal-eq _ _ same)))
]

no_get_url : (node : Bytes) → bytes_equal (keys_url node) (get_url (5 ∷ []) (1 ∷ [])) ≡ false
unfolding last_byte
no_get_url node = elim (Bool-cases (bytes_equal (keys_url node) (get_url (5 ∷ []) (1 ∷ [])))) [
  | inr other ↦ other
  | inl same ↦ absurd (cc (last_byte-keys_url 0 node, ap (last_byte 0) (bytes_equal-eq _ _ same)))
]

value_at :
    (o : Option Bytes) (body : Body)
    → reply_of o ≡ response 200 body
    → (o ≡ some body.bytes) × IsOne body.bytes
value_at none body e = absurd (ground arith)
value_at (some v) body e = elim (Bool-cases (bytes_equal v (1 ∷ []))) [
  | inl one ↦
      (let answered : whole v ≡ body = ground arith in
        let same : v ≡ body.bytes = ap (λ b. b.bytes) answered in
        (ap some same, sym same ∙ bytes_equal-eq _ _ one))
  | inr other ↦ absurd (ground arith)
]

pub got_lem :
    (st : Store) (node key : Bytes) (body : Body)
    → IsOne key
    → get_reply st (get_url node key) ≡ response 200 body
    → (st node key ≡ some body.bytes) × IsOne body.bytes
got_lem st node key body one e =
    subst (λ k. (st node k ≡ some body.bytes) × IsOne body.bytes) (sym one)
      (got_one st node body (ap (λ k. get_reply st (get_url node k)) (sym one) ∙ e))
  where
    got_one :
        (st : Store) (node : Bytes) (body : Body)
        → get_reply st (get_url node (1 ∷ [])) ≡ response 200 body
        → (st node (1 ∷ []) ≡ some body.bytes) × IsOne body.bytes
    got_one st node body e =
        elim (Bool-cases (bytes_equal (get_url node (1 ∷ [])) (get_url (5 ∷ []) (1 ∷ [])))) [
          | inl same ↦
              (let five : node ≡ 5 ∷ [] =
                  append_cancel_right node (5 ∷ []) _ (bytes_equal-eq _ _ same) in
                let (stored, plain) = value_at (st (5 ∷ []) (1 ∷ [])) body (ground arith) in
                (ap (λ n. st n (1 ∷ [])) five ∙ stored, plain))
          | inr other ↦ absurd (ground (arith, no_keys_url node))
        ]

pub listed_lem :
    (st : Store) (node : Bytes) (body : Body) (status : ℕ)
    → get_reply st (keys_url node) ≡ response status body
    → IsOne body.bytes
listed_lem st node body status e =
    elim (Bool-cases (bytes_equal (keys_url node) (keys_url (5 ∷ [])))) [
      | inl same ↦ ground (arith, no_get_url node)
      | inr other ↦ absurd (ground (arith, no_get_url node))
    ]

-- What a put and a deletion of the key 1 come to
posted :
    (st : Store) (node : Bytes)
    → post_reply st (put_url node) (put_body (1 ∷ []) (1 ∷ []))
      ≡ replied
          (bytes_equal (put_url node) (put_url (6 ∷ [])))
          st
          (write st (6 ∷ []) (some (1 ∷ [])))
posted st node = rw (bytes_equal_refl (put_body (1 ∷ []) (1 ∷ []))) refl

deletion :
    (st : Store) (node : Bytes)
    → post_reply st (delete_url node) (delete_body (1 ∷ []))
      ≡ replied (bytes_equal (delete_url node) (delete_url (5 ∷ []))) st (write st (5 ∷ []) none)
unfolding bytes_equal
deletion st node = refl

pub done_lem :
    (st st' : Store) (node : Bytes) (body : Body)
    → post_reply st (put_url node) (put_body (1 ∷ []) (1 ∷ [])) ≡ (st', response 200 body)
    → st' node (1 ∷ []) ≡ some (1 ∷ [])
unfolding bytes_equal
done_lem st st' node body e = elim (Bool-cases (bytes_equal (put_url node) (put_url (6 ∷ [])))) [
  | inr other ↦
      (let f =
          subst (λ b. replied b st (write st (6 ∷ []) (some (1 ∷ []))) ≡ (st', response 200 body))
            other (sym (posted st node) ∙ e) in
        absurd (cc (ap (λ x. x.1) f)))
  | inl same ↦
      (let f =
          subst (λ b. replied b st (write st (6 ∷ []) (some (1 ∷ []))) ≡ (st', response 200 body))
            same (sym (posted st node) ∙ e) in
        let six : node ≡ 6 ∷ [] = append_cancel_right node (6 ∷ []) _ (bytes_equal-eq _ _ same) in
        ap (λ x. x.0 node (1 ∷ [])) (sym f)
        ∙ subst (λ n. write st (6 ∷ []) (some (1 ∷ [])) n (1 ∷ []) ≡ some (1 ∷ [])) (sym six) refl)
]

written :
    (o : Option Bytes) (hit : Bool) (st : Store) (node n k : Bytes)
    → ((replied hit st (write st node o)).0 n k ≡ st n k)
      ⊎ ((bytes_equal n node ≡ true)
          × (bytes_equal k (1 ∷ []) ≡ true)
          × (hit ≡ true)
          × ((replied hit st (write st node o)).0 n k ≡ o))
written o false st node n k = inl refl
written o true st node n k = elim (Bool-cases (bytes_equal n node)) [
  | inr elsewhere ↦ inl (rw elsewhere refl)
  | inl here ↦ elim (Bool-cases (bytes_equal k (1 ∷ []))) [
    | inr other ↦ inl (rw (here, other) refl)
    | inl one ↦ inr (here, one, refl, rw (here, one) refl)
  ]
]

-- What is written at the node 6
pub put_lem :
    (st : Store) (node n k : Bytes)
    → ((post_reply st (put_url node) (put_body (1 ∷ []) (1 ∷ []))).0 n k ≡ st n k)
      ⊎ ((bytes_equal n node ≡ true)
          × (bytes_equal k (1 ∷ []) ≡ true)
          × ((post_reply st (put_url node) (put_body (1 ∷ []) (1 ∷ []))).0 n k ≡ some (1 ∷ [])))
put_lem st node n k =
    elim (written (some (1 ∷ [])) (bytes_equal (put_url node) (put_url (6 ∷ []))) st (6 ∷ []) n k) [
      | inl same ↦ inl (ap (λ x. x.0 n k) (posted st node) ∙ same)
      | inr (here, one, hit, new) ↦
          (let six : node ≡ 6 ∷ [] = append_cancel_right node (6 ∷ []) _ (bytes_equal-eq _ _ hit) in
            inr (
              subst (λ m. bytes_equal n m ≡ true) (sym six) here,
              one,
              ap (λ x. x.0 n k) (posted st node) ∙ new,
            ))
    ]

pub deleted_lem :
    (st : Store) (node n k : Bytes)
    → ((post_reply st (delete_url node) (delete_body (1 ∷ []))).0 n k ≡ st n k)
      ⊎ ((bytes_equal n node ≡ true)
          × (bytes_equal k (1 ∷ []) ≡ true)
          × ((post_reply st (delete_url node) (delete_body (1 ∷ []))).0 n k ≡ none))
deleted_lem st node n k =
    elim (written none (bytes_equal (delete_url node) (delete_url (5 ∷ []))) st (5 ∷ []) n k) [
      | inl same ↦ inl (ap (λ x. x.0 n k) (deletion st node) ∙ same)
      | inr (here, one, hit, gone) ↦
          (let five : node ≡ 5 ∷ [] =
              append_cancel_right node (5 ∷ []) _ (bytes_equal-eq _ _ hit) in
            inr (
              subst (λ m. bytes_equal n m ≡ true) (sym five) here,
              one,
              ap (λ x. x.0 n k) (deletion st node) ∙ gone,
            ))
    ]

abbrev pub PutLaw : Store → Bytes → Bytes → Bytes → Bytes → Bytes → Type 0
PutLaw st node n k key value =
    ((post_reply st (put_url node) (put_body key value)).0 n k ≡ st n k)
    ⊎ ((bytes_equal n node ≡ true)
        × (bytes_equal k key ≡ true)
        × ((post_reply st (put_url node) (put_body key value)).0 n k ≡ some value))

abbrev pub DeleteLaw : Store → Bytes → Bytes → Bytes → Bytes → Type 0
DeleteLaw st node n k key =
    ((post_reply st (delete_url node) (delete_body key)).0 n k ≡ st n k)
    ⊎ ((bytes_equal n node ≡ true)
        × (bytes_equal k key ≡ true)
        × ((post_reply st (delete_url node) (delete_body key)).0 n k ≡ none))

abbrev pub or_empty : Option (List Bytes) → List Bytes
or_empty none = []
or_empty (some keys) = keys

unfoldable pub two_nodes-Nodes : Nodes two_nodes
two_nodes-Nodes = record {
  stores = λ st node key. st node key;
  IsPlain = IsOne;
  IsMember = λ node. Unit;
  listed = λ st node body status keys m e d.
      subst (All IsOne) (ap or_empty d) (listed_lem st node body status e, tt);
  got = λ st node key body m one e w. got_lem st node key body one e;
  done = λ st st' node key value body m one plain e.
      (let e' =
          ap (λ x. post_reply st (put_url node) (put_body (1 ∷ []) x)) (sym plain)
          ∙ ap (λ x. post_reply st (put_url node) (put_body x value)) (sym one)
          ∙ e in
        ap (λ x. st' node x) one ∙ done_lem st st' node body e' ∙ ap some (sym plain));
  put = λ st node key value n k m m' one plain.
      subst (λ x. PutLaw st node n k key x) (sym plain)
        (subst (λ x. PutLaw st node n k x (1 ∷ [])) (sym one) (put_lem st node n k));
  deleted =
      λ st node key n k m m' one. subst (DeleteLaw st node n k) (sym one) (deleted_lem st node n k);
}

reply_of-whole :
    (o : Option Bytes) (body : Body) → reply_of o ≡ response 200 body → body.is_whole ≡ true
reply_of-whole none body e = absurd (ground arith)
reply_of-whole (some v) body e = elim (Bool-cases (bytes_equal v (1 ∷ []))) [
  | inl one ↦ (let answered : whole v ≡ body = ground arith in sym (ap (λ b. b.is_whole) answered))
  | inr other ↦ absurd (ground arith)
]

pub two_nodes-ReadsWhole : ReadsWhole two_nodes
two_nodes-ReadsWhole st node key body e =
    elim (Bool-cases (bytes_equal (get_url node key) (get_url (5 ∷ []) (1 ∷ [])))) [
      | inl same ↦ reply_of-whole (st (5 ∷ []) (1 ∷ [])) body (ground arith)
      | inr other ↦ elim (Bool-cases (bytes_equal (get_url node key) (keys_url (5 ∷ [])))) [
        | inl keys ↦
            (let answered : whole (1 ∷ []) ≡ body = ground arith in
              sym (ap (λ b. b.is_whole) answered))
        | inr neither ↦ absurd (ground arith)
      ]
    ]

-- ===== src/Proxy/Network.antt =====
-- What cmd/proxy/main.go uses of net/http, encoding/json and strings: requests to the nodes.
use distributed_system_proje.Prelude.{
  ℕ, ◌≡◌, Bytes, Bool, true, Option, none, some, List, [], ◌∷◌, ◌++◌, All, bytes_equal, ◌⊎◌,
}

-- A body as far as it can be read: it is whole where reading ends with no error.
pub record Body : Type 0 where
  pub bytes : Bytes
  pub is_whole : Bool

-- What a request comes to: an error, or the status and the body of a response
pub data HttpReply : Type 0 where
  failed_request : HttpReply
  response : ℕ → Body → HttpReply

-- `/keys`, `/get?key=`, `/put` and `/delete` behind the address of a node
abbrev pub keys_url : Bytes → Bytes
keys_url node = node ++ (47 ∷ 107 ∷ 101 ∷ 121 ∷ 115 ∷ [])

abbrev pub get_url : Bytes → Bytes → Bytes
get_url node key = node ++ ((47 ∷ 103 ∷ 101 ∷ 116 ∷ 63 ∷ 107 ∷ 101 ∷ 121 ∷ 61 ∷ []) ++ key)

abbrev pub put_url : Bytes → Bytes
put_url node = node ++ (47 ∷ 112 ∷ 117 ∷ 116 ∷ [])

abbrev pub delete_url : Bytes → Bytes
delete_url node = node ++ (47 ∷ 100 ∷ 101 ∷ 108 ∷ 101 ∷ 116 ∷ 101 ∷ [])

-- `key=%s` and `key=%s&value=%s`
abbrev pub delete_body : Bytes → Bytes
delete_body key = (107 ∷ 101 ∷ 121 ∷ 61 ∷ []) ++ key

abbrev pub put_body : Bytes → Bytes → Bytes
put_body key value = delete_body key ++ ((38 ∷ 118 ∷ 97 ∷ 108 ∷ 117 ∷ 101 ∷ 61 ∷ []) ++ value)

-- The state of the network is all that its nodes hold. `new_request` says whether http.NewRequest takes
-- an address.
pub record HttpClient : Type 1 where
  pub State : Type 0
  pub get : State → Bytes → HttpReply
  pub post : State → Bytes → Bytes → State × HttpReply
  pub new_request : Bytes → Bool
  pub decode_keys : Body → Option (List Bytes)
  pub trim_space : Bytes → Bytes
  pub trim_right_slash : Bytes → Bytes

-- What the proxy relies on of its nodes, where keys and values need no escaping and values have no
-- white space at their ends. Members are the addresses of different servers, none of which is a slave
-- of another, so that no request to one of them writes at another; slaves of theirs are none. A 200 of
-- /get whose body is whole has the stored value, a 200 of /put has stored it, and no request touches
-- another key. A put that fails may have been done all the same.
pub record Nodes (net : HttpClient) : Type 1 where
  pub stores : net.State → Bytes → Bytes → Option Bytes
  pub IsPlain : Bytes → Type 0
  pub IsMember : Bytes → Type 0
  pub listed :
      (st : net.State) (node : Bytes) (body : Body) (status : ℕ) (keys : List Bytes)
      → IsMember node
      → net.get st (keys_url node) ≡ response status body
      → net.decode_keys body ≡ some keys
      → All IsPlain keys
  pub got :
      (st : net.State) (node key : Bytes) (body : Body)
      → IsMember node
      → IsPlain key
      → net.get st (get_url node key) ≡ response 200 body
      → body.is_whole ≡ true
      → (stores st node key ≡ some (net.trim_space body.bytes))
        × IsPlain (net.trim_space body.bytes)
  pub done :
      (st st' : net.State) (node key value : Bytes) (body : Body)
      → IsMember node
      → IsPlain key
      → IsPlain value
      → net.post st (put_url node) (put_body key value) ≡ (st', response 200 body)
      → stores st' node key ≡ some value
  pub put :
      (st : net.State) (node key value n k : Bytes)
      → IsMember node
      → IsMember n
      → IsPlain key
      → IsPlain value
      → (stores (net.post st (put_url node) (put_body key value)).0 n k ≡ stores st n k)
        ⊎ ((bytes_equal n node ≡ true)
            × (bytes_equal k key ≡ true)
            × (stores (net.post st (put_url node) (put_body key value)).0 n k ≡ some value))
  pub deleted :
      (st : net.State) (node key n k : Bytes)
      → IsMember node
      → IsMember n
      → IsPlain key
      → (stores (net.post st (delete_url node) (delete_body key)).0 n k ≡ stores st n k)
        ⊎ ((bytes_equal n node ≡ true)
            × (bytes_equal k key ≡ true)
            × (stores (net.post st (delete_url node) (delete_body key)).0 n k ≡ none))

-- No body of a value is cut off while it is read.
abbrev pub ReadsWhole : HttpClient → Type 0
ReadsWhole net =
    (st : net.State) (node key : Bytes) (body : Body)
    → net.get st (get_url node key) ≡ response 200 body
    → body.is_whole ≡ true

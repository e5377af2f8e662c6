-- ===== src/Server.antt =====
-- server/server.go and server/replication.go: the handlers of the HTTP API over a database, and the
-- requests that a master sends to its slaves. `none` is a panic, or a call that waits for the lock.
pub mod Serving
pub mod Sending
pub mod Slave
use distributed_system_proje.Prelude.{
  ℕ, zero, suc, ◌+◌, ◌≡◌, Bytes, Bool, true, false, not, ◌||◌, ◌&&◌, Option, none, some, List, [],
  ◌∷◌, ◌++◌, ◌==◌, if◌then◌else◌, length, bytes_equal, map, ◌>>=◌,
}
use distributed_system_proje.Prelude.Int.{ℤ}
use distributed_system_proje.Errors.{Error}
use distributed_system_proje.Store.{Env, Db, Reply, ok, err}
use distributed_system_proje.Failover.{Role, master, slave}
use distributed_system_proje.Database
use distributed_system_proje.Database.Iterate

-- `r.Method`
pub data Method : Type 0 where
  method_get method_post method_delete method_other : Method

abbrev pub is_get : Method → Bool
is_get method_get = true
is_get m = false

abbrev pub is_post : Method → Bool
is_post method_post = true
is_post m = false

abbrev pub is_delete : Method → Bool
is_delete method_delete = true
is_delete m = false

-- What the handlers read of a request: `r.FormValue`, `r.URL.Query().Get`, the header X-Sync-Key, and
-- the body, `none` where reading it fails. What is missing is the empty string.
pub record Request : Type 0 where
  pub method : Method
  pub form_key : Bytes
  pub form_value : Bytes
  pub query_key : Bytes
  pub sync_header : Bytes
  pub body : Option Bytes

-- A request of a client to /put, /delete or /get, with the clock, and the id of its batch
pub data Call : Type 0 where
  call_put call_delete call_get : Request → ℤ → ℕ → Call

-- What the handlers write: their texts, the text of an error, a value, or the keys as JSON
pub data Text : Type 0 where
  only_master method_not_allowed missing_key_or_value missing_key unauthorized : Text
  failed_to_read_body invalid_json ok_line sync_ok_line : Text
  error_text : Error → Text
  value_line : Bytes → Text
  json_keys : List Bytes → Text

pub record Response : Type 0 where
  pub status : ℕ
  pub text : Text

-- The action of a SyncRequest: "put", "delete", or another string
pub data Action : Type 0 where
  sync_put sync_delete sync_other : Action

-- `SyncRequest`
pub record SyncRequest : Type 0 where
  pub action : Action
  pub key : Bytes
  pub value : Bytes

-- encoding/json on a SyncRequest: what Marshal wrote is read back.
pub record Json : Type 0 where
  pub marshal : SyncRequest → Bytes
  pub unmarshal : Bytes → Option SyncRequest
  pub unmarshal-marshal : (q : SyncRequest) → unmarshal (marshal q) ≡ some q

-- `Replicator`
pub record Replicator : Type 0 where
  pub slaves : List Bytes
  pub sync_key : Bytes

-- A goroutine that broadcast starts for a slave, by the variables that it closes over. An empty sync
-- key sets no header.
pub record SyncTask : Type 0 where
  pub url : Bytes
  pub sync_key : Bytes
  pub payload : Bytes

module _ (json : Json) where
  -- `broadcast`: it starts a goroutine for each slave.
  unfoldable pub broadcast : Replicator → SyncRequest → List SyncTask
  broadcast r req =
      map (λ url. record { url = url; sync_key = r.sync_key; payload = json.marshal req }) r.slaves

  -- `SyncPut` and `SyncDelete`, where the server has a replicator
  unfoldable pub replicate_put : Option Replicator → Bytes → Bytes → List SyncTask
  unfolding broadcast
  replicate_put none key value = []
  replicate_put (some r) key value =
      broadcast r (record { action = sync_put; key = key; value = value })

  unfoldable pub replicate_delete : Option Replicator → Bytes → List SyncTask
  unfolding broadcast
  replicate_delete none key = []
  replicate_delete (some r) key =
      broadcast r (record { action = sync_delete; key = key; value = [] })

-- `%s/sync`
abbrev pub sync_url : Bytes → Bytes
sync_url url = url ++ (47 ∷ 115 ∷ 121 ∷ 110 ∷ 99 ∷ [])

-- Whether client.Do came back with the status 200
abbrev pub is_success : Option ℕ → Bool
is_success none = false
is_success (some status) = status == 200

-- The loop of a goroutine from attempt i on, with the attempts that it has left. `new_request` says
-- whether http.NewRequest takes an address, and `replies` what client.Do comes to in each attempt,
-- `none` an error and else a status. The answer tells how many POSTs were sent, and whether the last
-- one got the status 200.
unfoldable pub send : (Bytes → Bool) → SyncTask → (ℕ → Option ℕ) → ℕ → ℕ → ℕ × Bool
send new_request task replies i zero = (0, false)
send new_request task replies i (suc tries) =
    let (n, done) = send new_request task replies (suc i) tries in
    if new_request (sync_url task.url)
    then (if is_success (replies i) then (1, true) else (suc n, done))
    else (0, false)

abbrev pub max_retries : ℕ
max_retries = 3

module _ (env : Env) where
  -- `Server`, less its mux and start time
  pub record Server : Type 0 where
    pub db : Db env
    pub replicator : Option Replicator
    pub sync_key : Bytes
    pub role : Role

  -- What a handler answers, the server behind it, and the goroutines that it has started
  abbrev pub Handled : Type 0
  Handled = Option (Response × Server × List SyncTask)

  abbrev pub is_master : Role → Bool
  is_master master = true
  is_master slave = false

  -- `http.Error`
  abbrev pub refuse : Server → ℕ → Text → Handled
  refuse s status text = some (record { status = status; text = text }, s, [])

  -- The end of the writing handlers
  abbrev pub answered : Option Error → Server → Text → List SyncTask → Handled
  answered (some e) s text tasks = refuse s 500 (error_text e)
  answered none s text tasks = some (record { status = 200; text = text }, s, tasks)

  module _ (json : Json) where
    -- `handlePut`
    unfoldable pub handle_put : Server → Request → ℤ → ℕ → Handled
    handle_put s r now id =
        if not (is_master s.role)
        then refuse s 403 only_master
        else if not (is_post r.method)
        then refuse s 405 method_not_allowed
        else if length r.form_key == 0 || length r.form_value == 0
        then refuse s 400 missing_key_or_value
        else (do
          (e, db) ← Database.put env s.db r.form_key r.form_value now id
          answered e (record s { db = db }) ok_line
              (replicate_put json s.replicator r.form_key r.form_value))

    -- `handleDelete`
    unfoldable pub handle_delete : Server → Request → ℤ → ℕ → Handled
    handle_delete s r now id =
        let key = if length r.form_key == 0 then r.query_key else r.form_key in
        if not (is_master s.role)
        then refuse s 403 only_master
        else if not (is_delete r.method) && not (is_post r.method)
        then refuse s 405 method_not_allowed
        else if length key == 0
        then refuse s 400 missing_key
        else (do
          (e, db) ← Database.delete env s.db key now id
          answered e (record s { db = db }) ok_line (replicate_delete json s.replicator key))

    -- The database call of handleSync: another action is none.
    unfoldable pub apply_sync : Db env → SyncRequest → ℤ → ℕ → Option (Option Error × Db env)
    apply_sync db q now id = elim q.action [
      | sync_put ↦ Database.put env db q.key q.value now id
      | sync_delete ↦ Database.delete env db q.key now id
      | sync_other ↦ some (none, db)
    ]

    -- `handleSync`
    unfoldable pub handle_sync : Server → Request → ℤ → ℕ → Handled
    unfolding apply_sync
    handle_sync s r now id =
        if not (is_post r.method)
        then refuse s 405 method_not_allowed
        else if not (length s.sync_key == 0) && not (bytes_equal r.sync_header s.sync_key)
        then refuse s 401 unauthorized
        else (elim r.body [
          | none ↦ refuse s 400 failed_to_read_body
          | some body ↦ (elim (json.unmarshal body) [
            | none ↦ refuse s 400 invalid_json
            | some q ↦ (do
              (e, db) ← apply_sync s.db q now id
              answered e (record s { db = db }) sync_ok_line [])
          ])
        ])

  -- `handleGet`
  unfoldable pub handle_get : Server → Request → ℤ → Handled
  handle_get s r now =
      if not (is_get r.method)
      then refuse s 405 method_not_allowed
      else if length r.query_key == 0
      then refuse s 400 missing_key
      else (do
        (reply, db) ← Database.get env s.db r.query_key now
        elim reply [
          | err e ↦ refuse (record s { db = db }) 404 (error_text e)
          | ok value ↦
              some (record { status = 200; text = value_line value }, record s { db = db }, [])
        ])

  module _ (json : Json) where
    -- The routes of `NewServer` for them
    unfoldable pub serve : Server → Call → Handled
    unfolding handle_put handle_delete handle_get
    serve s (call_put r now id) = handle_put json s r now id
    serve s (call_delete r now id) = handle_delete json s r now id
    serve s (call_get r now id) = handle_get s r now

    -- One call after another: the statuses of the answers, the server behind them, and the goroutines
    -- that they have started
    unfoldable pub serve_all : Server → List Call → Option (List ℕ × Server × List SyncTask)
    unfolding serve
    serve_all s [] = some ([], s, [])
    serve_all s (call ∷ calls) = do
      (response, s', tasks) ← serve s call
      (statuses, s'', more) ← serve_all s' calls
      some (response.status ∷ statuses, s'', tasks ++ more)

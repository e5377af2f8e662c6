-- ===== src/Server/Serving.antt =====
-- The handlers of server/server.go on a ready database: what a write answers and what a later read of
-- the same key answers, on the master and on a slave that got its sync request.
use distributed_system_proje.Prelude.{
  ℕ, ◌<◌, ◌≡◌, refl, ap, ◌∙◌, Bytes, false, not, ◌||◌, ◌&&◌, Option, none, some, List, [], ◌==◌,
  ◌⊎◌, inl, inr, arith, if◌then◌else◌, length, bytes_equal, bytes_equal_refl,
}
use distributed_system_proje.Prelude.Int.{ℤ, zero_ℤ, ◌≤ℤ◌}
use distributed_system_proje.Errors.{Error}
use distributed_system_proje.Record.{log_record_normal}
use distributed_system_proje.Record.RoundTrip.{IsEncodable}
use distributed_system_proje.Store.{Env, Db, Reply, ok, err}
use distributed_system_proje.Batch.Sound.{stored_reply}
use distributed_system_proje.Batch.Commit.{end_record}
use distributed_system_proje.Failover.{master}
use distributed_system_proje.Database
use distributed_system_proje.Database.Held.{IsReady, reply_if}
use distributed_system_proje.Database.Writes.{put_atomic}
use distributed_system_proje.Database.Reads.{get_atomic}
use distributed_system_proje.Server.{
  answered, is_get, is_post, is_master, Text, Server, Request, Response, SyncTask, Json, Handled,
  method_get, method_post, sync_put, ok_line, sync_ok_line, value_line, error_text, replicate_put,
  handle_put, handle_get, handle_sync, apply_sync,
}

-- What handleGet answers for a reply of the database
abbrev pub response_of : Reply Bytes → Response
response_of (ok value) = record { status = 200; text = value_line value }
response_of (err e) = record { status = 404; text = error_text e }

module _ (env : Env) where
  -- A write answered with 200 or with 500: the database is ready behind it, and replies the value or
  -- what it did before.
  pub record Stored (s : Server env) (key value : Bytes) (later : ℤ) (out : Handled env)
      (tasks : List SyncTask) : Type 0 where
    pub response : Response
    pub server : Server env
    pub run : out ≡ some (response, server, if response.status == 200 then tasks else [])
    pub answered_ok : (response.status ≡ 200) ⊎ (response.status ≡ 500)
    pub same_role : server.role ≡ s.role
    pub ready : IsReady env server.db
    pub replies :
        stored_reply env server.db key later
        ≡ (if response.status == 200 then some (ok value) else stored_reply env s.db key later)

  answered-Stored :
      (s : Server env) (key value : Bytes) (later : ℤ) (e : Option Error) (db' : Db env)
      (text : Text) (tasks : List SyncTask) (out : Handled env)
      → out ≡ answered env e (record s { db = db' }) text tasks
      → IsReady env db'
      → stored_reply env db' key later
        ≡ reply_if e (bytes_equal key key) (ok value) (stored_reply env s.db key later)
      → Stored s key value later out tasks
  answered-Stored s key value later none db' text tasks out run ready same = record {
    response = record { status = 200; text = text };
    server = record s { db = db' };
    run = run;
    answered_ok = inl refl;
    same_role = refl;
    ready = ready;
    replies = same ∙ rw (bytes_equal_refl key) refl;
  }
  answered-Stored s key value later (some x) db' text tasks out run ready same = record {
    response = record { status = 500; text = error_text x };
    server = record s { db = db' };
    run = run;
    answered_ok = inr refl;
    same_role = refl;
    ready = ready;
    replies = same;
  }

  module _ (json : Json) (s : Server env) (r : Request) (now later : ℤ) (id : ℕ)
      (ready : IsReady env s.db) (le : now ≤ℤ later)
      (end_fits : IsEncodable (end_record (env.id_bytes id))) where
    -- A POST to /put with a nonempty key and a nonempty value, at a master with a ready database and for
    -- a record that fits, is answered with 200 or with 500. With 200 the database from then on replies
    -- the value under the key, and a goroutine has been started for every slave to send it the sync
    -- request of the put; with 500 the database replies under the key what it did before and none has
    -- been started.
    pub handle_put-Stored :
        s.role ≡ master
        → r.method ≡ method_post
        → 0 < length r.form_key
        → 0 < length r.form_value
        → IsEncodable (record {
          key = r.form_key;
          value = r.form_value;
          record_type = log_record_normal;
          batch_id = id;
          expire = zero_ℤ;
        })
        → Stored s r.form_key r.form_value later
            (handle_put env json s r now id)
            (replicate_put json s.replicator r.form_key r.form_value)
    unfolding handle_put
    handle_put-Stored role post k v fit =
        let (e, (db', run, ready', same)) =
          put_atomic env s.db r.form_key r.form_key now later id ready k k le end_fits r.form_value
            fit in
        let its_master : not (is_master env s.role) ≡ false =
          ap (λ x. not (is_master env x)) role in
        let is_a_post : not (is_post r.method) ≡ false = ap (λ m. not (is_post m)) post in
        let complete : (length r.form_key == 0 || length r.form_value == 0) ≡ false =
          ground arith in
        let out : handle_put env json s r now id
            ≡ answered env e (record s { db = db' }) ok_line
                (replicate_put json s.replicator r.form_key r.form_value) =
          rw (handle_put, its_master, is_a_post, complete, run) refl in
        answered-Stored s r.form_key r.form_value later e db' ok_line _ _ out ready' same

    -- The sync request of such a write, with the sync key of a server that has one, or to a server that
    -- has none, is answered by that server, whatever its role, with 200 or with 500, and its database
    -- replies the value, or what it did before.
    pub handle_sync-Stored :
        (key value : Bytes)
        → 0 < length key
        → r.method ≡ method_post
        → (length s.sync_key ≡ 0) ⊎ (r.sync_header ≡ s.sync_key)
        → r.body ≡ some (json.marshal (record { action = sync_put; key = key; value = value }))
        → IsEncodable (record {
          key = key;
          value = value;
          record_type = log_record_normal;
          batch_id = id;
          expire = zero_ℤ;
        })
        → Stored s key value later (handle_sync env json s r now id) []
    unfolding handle_sync apply_sync
    handle_sync-Stored key value k post allowed body fit =
        let (e, (db', run, ready', same)) =
          put_atomic env s.db key key now later id ready k k le end_fits value fit in
        let is_a_post : not (is_post r.method) ≡ false = ap (λ m. not (is_post m)) post in
        let authorized : (not (length s.sync_key == 0)
              && not (bytes_equal r.sync_header s.sync_key))
            ≡ false =
          elim allowed [
            | inl keyless ↦ ground (arith, keyless)
            | inr q ↦
                ground (arith, ap (λ x. bytes_equal x s.sync_key) q ∙ bytes_equal_refl s.sync_key)
          ] in
        let out : handle_sync env json s r now id
            ≡ answered env e (record s { db = db' }) sync_ok_line [] =
          rw (handle_sync, is_a_post, authorized, body, json.unmarshal-marshal _, run) refl in
        answered-Stored s key value later e db' sync_ok_line [] _ out ready' same

  pub handle_get-answer :
      (s : Server env) (r : Request) (now : ℤ) (reply : Reply Bytes) (db' : Db env)
      → r.method ≡ method_get
      → 0 < length r.query_key
      → Database.get env s.db r.query_key now ≡ some (reply, db')
      → handle_get env s r now ≡ some (response_of reply, record s { db = db' }, [])
  unfolding handle_get
  handle_get-answer s r now (ok value) db' get k run =
      let is_a_get : not (is_get r.method) ≡ false = ap (λ m. not (is_get m)) get in
      let complete : (length r.query_key == 0) ≡ false = ground arith in
      rw (handle_get, is_a_get, complete, run) refl
  handle_get-answer s r now (err e) db' get k run =
      let is_a_get : not (is_get r.method) ≡ false = ap (λ m. not (is_get m)) get in
      let complete : (length r.query_key == 0) ≡ false = ground arith in
      rw (handle_get, is_a_get, complete, run) refl

  -- A server with a ready database answers a GET of /get for a nonempty key with 200 and the stored
  -- value, or with 404 and the stored error; its database stays ready and replies what it did before.
  pub handle_get-stored :
      (s : Server env) (r : Request) (now later : ℤ) (other : Bytes)
      → IsReady env s.db
      → r.method ≡ method_get
      → 0 < length r.query_key
      → now ≤ℤ later
      → (reply : Reply Bytes) × ((s' : Server env) × (stored_reply env s.db r.query_key now
            ≡ some reply)
          × (handle_get env s r now ≡ some (response_of reply, s', []))
          × IsReady env s'.db
          × (stored_reply env s'.db other later ≡ stored_reply env s.db other later))
  handle_get-stored s r now later other ready get k le =
      let (reply, (db', run, stored, ready', same)) =
        get_atomic env s.db r.query_key other now later ready k le in
      (
        reply,
        (
          record s { db = db' },
          stored,
          handle_get-answer s r now reply db' get k run,
          ready',
          same,
        ),
      )

-- ===== src/Tests/Answering.antt =====
-- The handlers of server/server.go at concrete inputs.
use distributed_system_proje.Prelude.{
  ℕ, zero, suc, ◌≡◌, refl, ap, Bytes, Option, true, none, some, List, [], ◌∷◌, ◌++◌, arith, length,
  take, drop, inr,
}
use distributed_system_proje.Prelude.Int.{pos}
use distributed_system_proje.Failover.{master, slave}
use distributed_system_proje.Server.{
  send, max_retries, serve_all, Call, call_put, call_get, call_delete, SyncTask, Server, Request,
  Json, SyncRequest, Action, sync_put, sync_delete, sync_other, method_post, method_get,
  replicate_put, handle_put, handle_sync,
}
use distributed_system_proje.Server.Serving.{Stored, handle_put-Stored, handle_sync-Stored}
use distributed_system_proje.Server.Sending.{Sent, send-Sent}
use distributed_system_proje.Server.Slave.{AreSlaveStatuses, slave_serves}
use distributed_system_proje.Batch.Sound.{stored_reply}
use distributed_system_proje.Database.Held.{IsReady}
use distributed_system_proje.Tests.Engine.{test_env}
use distributed_system_proje.Tests.Storing.{stored_db, stored_db-IsReady, end_3-IsEncodable}

-- A code of the action, the length of the key, the key and the value
abbrev code_of : Action → ℕ
code_of sync_put = 0
code_of sync_delete = 1
code_of sync_other = 2

abbrev action_of : ℕ → Action
action_of zero = sync_put
action_of (suc zero) = sync_delete
action_of (suc (suc n)) = sync_other

abbrev write_request : SyncRequest → Bytes
write_request q = code_of q.action ∷ length q.key ∷ (q.key ++ q.value)

abbrev read_request : Bytes → Option SyncRequest
read_request [] = none
read_request (a ∷ []) = none
read_request (a ∷ n ∷ rest) =
    some (record { action = action_of a; key = take n rest; value = drop n rest })

action_of-code : (a : Action) → action_of (code_of a) ≡ a
action_of-code sync_put = refl
action_of-code sync_delete = refl
action_of-code sync_other = refl

take-key : (xs ys : Bytes) → take (length xs) (xs ++ ys) ≡ xs
take-key [] ys = refl
take-key (x ∷ xs) ys = ap (◌∷◌ x) (take-key xs ys)

drop-key : (xs ys : Bytes) → drop (length xs) (xs ++ ys) ≡ ys
drop-key [] ys = refl
drop-key (x ∷ xs) ys = drop-key xs ys

read-write_request : (q : SyncRequest) → read_request (write_request q) ≡ some q
read-write_request q =
    rw (action_of-code q.action, take-key q.key q.value, drop-key q.key q.value) refl

abbrev byte_json : Json
byte_json = record {
  marshal = write_request;
  unmarshal = read_request;
  unmarshal-marshal = read-write_request;
}

-- A master with one slave
abbrev one_master : Server test_env
one_master = record {
  db = stored_db;
  replicator = some (record { slaves = (8 ∷ []) ∷ []; sync_key = 6 ∷ [] });
  sync_key = 6 ∷ [];
  role = master;
}

abbrev one_slave : Server test_env
one_slave = record one_master { replicator = none; role = slave }

abbrev a_post : Request
a_post = record {
  method = method_post;
  form_key = 1 ∷ [];
  form_value = 9 ∷ [];
  query_key = 1 ∷ [];
  sync_header = 6 ∷ [];
  body = some (write_request (record { action = sync_put; key = 1 ∷ []; value = 9 ∷ [] }));
}

handle_put-Stored_example :
    Stored test_env one_master
      (1 ∷ [])
      (9 ∷ [])
      (pos 9)
      (handle_put test_env byte_json one_master a_post (pos 5) 3)
      (replicate_put byte_json one_master.replicator (1 ∷ []) (9 ∷ []))
handle_put-Stored_example =
    handle_put-Stored test_env byte_json one_master a_post (pos 5) (pos 9) 3 stored_db-IsReady
      (omega arith) end_3-IsEncodable refl refl (omega arith) (omega arith)
      (record { batch = omega arith; expiry = omega arith; size = omega arith })

handle_sync-Stored_example :
    Stored test_env one_slave
      (1 ∷ [])
      (9 ∷ [])
      (pos 9)
      (handle_sync test_env byte_json one_slave a_post (pos 5) 3)
      []
handle_sync-Stored_example =
    handle_sync-Stored test_env byte_json one_slave a_post (pos 5) (pos 9) 3 stored_db-IsReady
      (omega arith) end_3-IsEncodable (1 ∷ []) (9 ∷ []) (omega arith) refl (inr refl) refl
      (record { batch = omega arith; expiry = omega arith; size = omega arith })

abbrev a_get : Request
a_get = record a_post { method = method_get; body = none }

abbrev three_calls : List Call
three_calls =
    call_put a_post (pos 5) 3 ∷ call_get a_get (pos 6) 4 ∷ call_delete a_post (pos 7) 5 ∷ []

slave_serves_example :
    (statuses : List ℕ) × ((s' : Server test_env) × (serve_all test_env byte_json one_slave
          three_calls
        ≡ some (statuses, s', []))
      × AreSlaveStatuses three_calls statuses
      × (s'.role ≡ slave)
      × IsReady test_env s'.db
      × (stored_reply test_env s'.db (1 ∷ []) (pos 9)
          ≡ stored_reply test_env one_slave.db (1 ∷ []) (pos 9)))
slave_serves_example =
    slave_serves test_env byte_json one_slave three_calls (1 ∷ []) (pos 9) stored_db-IsReady refl
      (omega arith, (omega arith, (omega arith, tt)))

-- A goroutine whose second POST gets the status 200
abbrev second_works : ℕ → Option ℕ
second_works zero = none
second_works (suc n) = some 200

abbrev a_task : SyncTask
a_task = record { url = 8 ∷ []; sync_key = 6 ∷ []; payload = 1 ∷ [] }

send-Sent_example :
    Sent
      (λ url. true)
      a_task
      second_works
      0
      max_retries
      (send (λ url. true) a_task second_works 0 max_retries)
send-Sent_example = send-Sent (λ url. true) a_task second_works

second_attempt : send (λ url. true) a_task second_works 0 max_retries ≡ (2, true)
unfolding send
second_attempt = refl

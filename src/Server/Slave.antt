-- ===== src/Server/Slave.antt =====
-- What the clients of a slave can do (server/server.go): its handlers over a list of calls.
use distributed_system_proje.Prelude.{
  ℕ, ◌≡◌, refl, ap, ◌∙◌, Bytes, true, false, not, some, List, [], ◌∷◌, ◌==◌, ◌⊎◌, inl, inr, arith,
  length, All, Bool-cases,
}
use distributed_system_proje.Prelude.Int.{ℤ, ◌≤ℤ◌}
use distributed_system_proje.Store.{Env, Reply, ok, err}
use distributed_system_proje.Batch.Sound.{stored_reply}
use distributed_system_proje.Failover.{slave}
use distributed_system_proje.Database.Held.{IsReady}
use distributed_system_proje.Database.Reads.{get_atomic}
use distributed_system_proje.Server.{
  Server, Request, Json, Call, call_put, call_delete, call_get, only_master, handle_put,
  handle_delete, handle_get, is_master, is_get, serve, serve_all, Response, Method, method_get,
  method_post, method_delete, method_other, method_not_allowed, missing_key,
}
use distributed_system_proje.Server.Serving.{response_of, handle_get-answer}

abbrev pub clock : Call → ℤ
clock (call_put r now id) = now
clock (call_delete r now id) = now
clock (call_get r now id) = now

-- What a slave may answer: 403 to a put and to a deletion
abbrev pub IsSlaveStatus : Call → ℕ → Type 0
IsSlaveStatus (call_put r now id) status = status ≡ 403
IsSlaveStatus (call_delete r now id) status = status ≡ 403
IsSlaveStatus (call_get r now id) status =
    (status ≡ 200) ⊎ (status ≡ 404) ⊎ (status ≡ 400) ⊎ (status ≡ 405)

abbrev pub AreSlaveStatuses : List Call → List ℕ → Type 0
AreSlaveStatuses [] [] = Unit
AreSlaveStatuses (call ∷ calls) (status ∷ statuses) =
    IsSlaveStatus call status × AreSlaveStatuses calls statuses
AreSlaveStatuses _ _ = ⊥

module _ (env : Env) (json : Json) where
  refused_put :
      (s : Server env) (r : Request) (now : ℤ) (id : ℕ)
      → s.role ≡ slave
      → serve env json s (call_put r now id)
        ≡ some (record { status = 403; text = only_master }, s, [])
  unfolding serve handle_put
  refused_put s r now id role =
      let no_master : not (is_master env s.role) ≡ true = ap (λ x. not (is_master env x)) role in
      rw (handle_put, no_master) refl

  refused_delete :
      (s : Server env) (r : Request) (now : ℤ) (id : ℕ)
      → s.role ≡ slave
      → serve env json s (call_delete r now id)
        ≡ some (record { status = 403; text = only_master }, s, [])
  unfolding serve handle_delete
  refused_delete s r now id role =
      let no_master : not (is_master env s.role) ≡ true = ap (λ x. not (is_master env x)) role in
      rw (handle_delete, no_master) refl

  refused_get :
      (s : Server env) (r : Request) (now : ℤ)
      → not (is_get r.method) ≡ true
      → handle_get env s r now ≡ some (record { status = 405; text = method_not_allowed }, s, [])
  unfolding handle_get
  refused_get s r now e = rw (handle_get, e) refl

  keyless_get :
      (s : Server env) (r : Request) (now : ℤ)
      → not (is_get r.method) ≡ false
      → (length r.query_key == 0) ≡ true
      → handle_get env s r now ≡ some (record { status = 400; text = missing_key }, s, [])
  unfolding handle_get
  keyless_get s r now e k = rw (handle_get, e, k) refl

  a_get : (m : Method) → not (is_get m) ≡ false → m ≡ method_get
  a_get method_get e = refl
  a_get method_post e = absurd cc
  a_get method_delete e = absurd cc
  a_get method_other e = absurd cc

  get_status :
      (r : Request) (now : ℤ) (id : ℕ) (reply : Reply Bytes)
      → IsSlaveStatus (call_get r now id) (response_of reply).status
  get_status r now id (ok value) = inl refl
  get_status r now id (err e) = inr (inl refl)

  -- One call: its status, and a slave behind it whose replies to Gets of the key are the same
  record Undisturbed (s : Server env) (call : Call) (k : Bytes) (later : ℤ) : Type 0 where
    response : Response
    server : Server env
    run : serve env json s call ≡ some (response, server, [])
    its_status : IsSlaveStatus call response.status
    still_slave : server.role ≡ slave
    ready : IsReady env server.db
    same : stored_reply env server.db k later ≡ stored_reply env s.db k later

  serve-Undisturbed :
      (s : Server env) (call : Call) (k : Bytes) (later : ℤ)
      → IsReady env s.db
      → s.role ≡ slave
      → clock call ≤ℤ later
      → Undisturbed s call k later
  serve-Undisturbed s (call_put r now id) k later ready role le = record {
    response = record { status = 403; text = only_master };
    server = s;
    run = refused_put s r now id role;
    its_status = refl;
    still_slave = role;
    ready = ready;
    same = refl;
  }
  serve-Undisturbed s (call_delete r now id) k later ready role le = record {
    response = record { status = 403; text = only_master };
    server = s;
    run = refused_delete s r now id role;
    its_status = refl;
    still_slave = role;
    ready = ready;
    same = refl;
  }
  serve-Undisturbed s (call_get r now id) k later ready role le =
      elim (Bool-cases (not (is_get r.method))) [
        | inl no_get ↦ record {
          response = record { status = 405; text = method_not_allowed };
          server = s;
          run = unfold serve in refused_get s r now no_get;
          its_status = inr (inr (inr refl));
          still_slave = role;
          ready = ready;
          same = refl;
        }
        | inr get ↦ elim (Bool-cases (length r.query_key == 0)) [
          | inl keyless ↦ record {
            response = record { status = 400; text = missing_key };
            server = s;
            run = unfold serve in keyless_get s r now get keyless;
            its_status = inr (inr (inl refl));
            still_slave = role;
            ready = ready;
            same = refl;
          }
          | inr keyed ↦
              (let (reply, (db', run, stored, ready', same)) =
                  get_atomic env s.db r.query_key k now later ready (ground (arith, keyed)) le in
                record {
                  response = response_of reply;
                  server = record s { db = db' };
                  run =
                      unfold serve in
                      handle_get-answer env s r now reply db' (a_get r.method get)
                        (ground (arith, keyed)) run;
                  its_status = get_status r now id reply;
                  still_slave = role;
                  ready = ready';
                  same = same;
                })
        ]
      ]

  next_call :
      (s : Server env) (call : Call) (calls : List Call) (response : Response) (s' s'' : Server env)
      (statuses : List ℕ)
      → serve env json s call ≡ some (response, s', [])
      → serve_all env json s' calls ≡ some (statuses, s'', [])
      → serve_all env json s (call ∷ calls) ≡ some (response.status ∷ statuses, s'', [])
  unfolding serve_all
  next_call s call calls response s' s'' statuses e f = rw (e, f) refl

  -- Whatever list of calls to /put, /delete and /get the clients of a slave with a ready database make,
  -- none panics. Each put and each deletion is answered with 403, each get with 200, 404, 400 or 405.
  -- Behind them the server is a slave with a ready database, no goroutine to replicate anything has
  -- been started, and a Get of any key replies what it would have replied without them, from the
  -- latest of their clocks on.
  pub slave_serves :
      (s : Server env) (calls : List Call) (k : Bytes) (later : ℤ)
      → IsReady env s.db
      → s.role ≡ slave
      → All (λ call. clock call ≤ℤ later) calls
      → (statuses : List ℕ) × ((s' : Server env) × (serve_all env json s calls
            ≡ some (statuses, s', []))
          × AreSlaveStatuses calls statuses
          × (s'.role ≡ slave)
          × IsReady env s'.db
          × (stored_reply env s'.db k later ≡ stored_reply env s.db k later))
  slave_serves s [] k later ready role le =
      ([], (s, unfold serve_all in refl, tt, role, ready, refl))
  slave_serves s (call ∷ calls) k later ready role (le, les) =
      let u = serve-Undisturbed s call k later ready role le in
      let (statuses, (s', run, right, role', ready', same)) =
        slave_serves u.server calls k later u.ready u.still_slave les in
      (
        u.response.status ∷ statuses,
        (
          s',
          next_call s call calls u.response u.server s' statuses u.run run,
          (u.its_status, right),
          role',
          ready',
          same ∙ u.same,
        ),
      )

-- ===== src/Failover.antt =====
-- server/failover.go: the worker that probes the master at every tick and promotes its own node.
pub mod Promotion
use distributed_system_proje.Prelude.{ℕ, ◌+◌, Bool, true, false, List, [], ◌∷◌, leb, if◌then◌else◌}

-- The role of the server: the string "MASTER", or another one
pub data Role : Type 0 where
  master slave : Role

-- What a probe of the master's health finds: no connection, a payload that is no health response, or
-- a health response, whose status is "OK" or not
pub data Probe : Type 0 where
  no_connection : Probe
  bad_payload : Probe
  health : Bool → Probe

-- The worker: it has counted failures in a row, or it has returned
pub data Worker : Type 0 where
  running : ℕ → Worker
  returned : Worker

-- One more failure; the third in a row promotes the node, and the worker returns.
unfoldable pub fail : Role → ℕ → Role × Worker
fail role consecutive_failures =
    if leb 3 (consecutive_failures + 1)
    then (master, returned)
    else (role, running (consecutive_failures + 1))

-- The body of the loop over the ticks of `StartHeartbeatWorker`
unfoldable pub tick : Role → ℕ → Probe → Role × Worker
unfolding fail
tick master consecutive_failures probe = (master, returned)
tick slave consecutive_failures no_connection = fail slave consecutive_failures
tick slave consecutive_failures bad_payload = fail slave consecutive_failures
tick slave consecutive_failures (health true) = (slave, running 0)
tick slave consecutive_failures (health false) = fail slave consecutive_failures

-- The loop: a worker that has returned probes no more.
unfoldable pub heartbeat : Role → Worker → List Probe → Role × Worker
unfolding tick
heartbeat role returned probes = (role, returned)
heartbeat role (running n) [] = (role, running n)
heartbeat role (running n) (p ∷ probes) =
    let (role', worker) = tick role n p in heartbeat role' worker probes

-- ===== src/Tests/Probing.antt =====
-- The heartbeat of server/failover.go at concrete inputs.
use distributed_system_proje.Prelude.{◌≡◌, refl, true, false, List, [], ◌∷◌}
use distributed_system_proje.Failover.{
  slave, Probe, no_connection, bad_payload, health, running, heartbeat,
}
use distributed_system_proje.Failover.Promotion.{is_master, three_in_a_row, heartbeat_promotes}

-- Two failures, a good answer, and three failures of three kinds
abbrev probes : List Probe
probes =
    no_connection ∷ no_connection ∷ health true ∷ bad_payload ∷ health false ∷ no_connection ∷ []

heartbeat-probes : is_master (heartbeat slave (running 0) probes).0 ≡ true
unfolding heartbeat
heartbeat-probes = refl

heartbeat_promotes_example :
    is_master (heartbeat slave (running 0) probes).0 ≡ three_in_a_row probes
heartbeat_promotes_example = heartbeat_promotes probes

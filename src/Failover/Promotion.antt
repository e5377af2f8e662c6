-- ===== src/Failover/Promotion.antt =====
-- When the worker of server/failover.go promotes its node.
use distributed_system_proje.Prelude.{
  ℕ, ◌≡◌, refl, sym, ◌∙◌, Bool, true, false, ◌&&◌, ◌||◌, List, [], ◌∷◌, arith,
}
use distributed_system_proje.Failover.{
  Role, master, slave, Probe, no_connection, bad_payload, health, running, heartbeat,
}

-- A probe that the worker takes for a failure
abbrev pub is_failure : Probe → Bool
is_failure no_connection = true
is_failure bad_payload = true
is_failure (health true) = false
is_failure (health false) = true

-- Somewhere three probes in a row fail.
unfoldable pub three_in_a_row : List Probe → Bool
three_in_a_row (a ∷ b ∷ c ∷ ps) =
    (is_failure a && is_failure b && is_failure c) || three_in_a_row (b ∷ c ∷ ps)
three_in_a_row _ = false

abbrev pub is_master : Role → Bool
is_master master = true
is_master slave = false

abbrev promoted : ℕ → List Probe → Bool
promoted n ps = is_master (heartbeat slave (running n) ps).0

skip_good : (ps : List Probe) → three_in_a_row (health true ∷ ps) ≡ three_in_a_row ps
unfolding three_in_a_row
skip_good [] = refl
skip_good (a ∷ []) = refl
skip_good (a ∷ b ∷ ps) = refl

skip_two : (f : Probe) (ps : List Probe) → three_in_a_row (f ∷ health true ∷ ps) ≡ three_in_a_row ps
unfolding three_in_a_row
skip_two f [] = refl
skip_two f (a ∷ ps) = ground (arith, skip_good (a ∷ ps))

skip_three :
    (f g : Probe) (ps : List Probe) → three_in_a_row (f ∷ g ∷ health true ∷ ps) ≡ three_in_a_row ps
unfolding three_in_a_row
skip_three f g ps = ground (arith, skip_two g ps)

-- The worker's count stands for the failures just before.
promoted_lem :
    (ps : List Probe) (f g : Probe)
    → is_failure f ≡ true
    → is_failure g ≡ true
    → (promoted 0 ps ≡ three_in_a_row ps)
      × (promoted 1 ps ≡ three_in_a_row (f ∷ ps))
      × (promoted 2 ps ≡ three_in_a_row (f ∷ g ∷ ps))
unfolding three_in_a_row heartbeat
promoted_lem [] f g hf hg = (refl, refl, refl)
promoted_lem (health true ∷ ps) f g hf hg =
    let (e, _, _) = promoted_lem ps f g hf hg in
    (e ∙ sym (skip_good ps), e ∙ sym (skip_two f ps), e ∙ sym (skip_three f g ps))
promoted_lem (no_connection ∷ ps) f g hf hg = (
  (promoted_lem ps no_connection no_connection refl refl).1,
  (promoted_lem ps f no_connection hf refl).2,
  ground arith,
)
promoted_lem (bad_payload ∷ ps) f g hf hg = (
  (promoted_lem ps bad_payload bad_payload refl refl).1,
  (promoted_lem ps f bad_payload hf refl).2,
  ground arith,
)
promoted_lem (health false ∷ ps) f g hf hg = (
  (promoted_lem ps (health false) (health false) refl refl).1,
  (promoted_lem ps f (health false) hf refl).2,
  ground arith,
)

-- A slave whose worker starts with no failure counted ends as the master exactly where somewhere
-- among its probes three in a row fail.
pub heartbeat_promotes :
    (probes : List Probe) → is_master (heartbeat slave (running 0) probes).0 ≡ three_in_a_row probes
heartbeat_promotes probes = (promoted_lem probes no_connection no_connection refl refl).0

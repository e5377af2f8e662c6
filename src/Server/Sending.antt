-- ===== src/Server/Sending.antt =====
-- The retries of a goroutine of broadcast (server/replication.go).
use distributed_system_proje.Prelude.{
  ℕ, zero, suc, ◌+◌, ◌≤◌, ◌<◌, ◌≡◌, refl, Bytes, Bool, true, false, Option, ◌⊎◌, inl, inr, arith,
  Bool-cases, sym, subst, ap, ◌∙◌, ◌==◌, ==_iff,
}
use distributed_system_proje.Server.{SyncTask, sync_url, is_success, send, max_retries}

-- How the attempts from i on end: where http.NewRequest takes the address, with the first POST that
-- gets the status 200, or else behind the last attempt; where it does not, at once.
abbrev pub Sent : (Bytes → Bool) → SyncTask → (ℕ → Option ℕ) → ℕ → ℕ → ℕ × Bool → Type 0
Sent new_request task replies i tries (n, done) =
    ((new_request (sync_url task.url) ≡ false) × (n ≡ 0) × (done ≡ false))
    ⊎ ((new_request (sync_url task.url) ≡ true)
        × (((done ≡ true)
              × ((m : ℕ) × (n + i ≡ suc m)
                  × (i ≤ m)
                  × (m < i + tries)
                  × (is_success (replies m) ≡ true)
                  × ((j : ℕ) → i ≤ j → j < m → is_success (replies j) ≡ false)))
            ⊎ ((done ≡ false)
                × (n ≡ tries)
                × ((j : ℕ) → i ≤ j → j < i + tries → is_success (replies j) ≡ false))))

module _ (new_request : Bytes → Bool) (task : SyncTask) (replies : ℕ → Option ℕ) where
  earlier :
      (i m : ℕ)
      → is_success (replies i) ≡ false
      → ((j : ℕ) → suc i ≤ j → j < m → is_success (replies j) ≡ false)
      → (j : ℕ) → i ≤ j
      → j < m
      → is_success (replies j) ≡ false
  earlier i m here later j le lt = elim (Bool-cases (j == i)) [
    | inl at ↦ ap (λ x. is_success (replies x)) ((==_iff j i).0 at) ∙ here
    | inr behind ↦ later j (ground (arith, behind, le)) lt
  ]

  stopped :
      (i tries : ℕ)
      → new_request (sync_url task.url) ≡ false
      → send new_request task replies i (suc tries) ≡ (0, false)
  unfolding send
  stopped i tries e = rw e refl

  succeeded :
      (i tries : ℕ)
      → new_request (sync_url task.url) ≡ true
      → is_success (replies i) ≡ true
      → send new_request task replies i (suc tries) ≡ (1, true)
  unfolding send
  succeeded i tries e f = rw (e, f) refl

  continued :
      (i tries : ℕ)
      → new_request (sync_url task.url) ≡ true
      → is_success (replies i) ≡ false
      → send new_request task replies i (suc tries) ≡ (
        suc (send new_request task replies (suc i) tries).0,
        (send new_request task replies (suc i) tries).1,
      )
  unfolding send
  continued i tries e f = rw (e, f) refl

  later-Sent :
      (i tries : ℕ) (x : ℕ × Bool)
      → new_request (sync_url task.url) ≡ true
      → is_success (replies i) ≡ false
      → Sent new_request task replies (suc i) tries x
      → Sent new_request task replies i (suc tries) (suc x.0, x.1)
  later-Sent i tries (n, done) accepted failure (inl (refused, _, _)) =
      absurd (cc (accepted, refused))
  later-Sent i tries (n, done) accepted failure (inr (_, inl (d, (m, e, le, lt, s, h)))) = inr (
    accepted,
    inl (d, (m, omega (arith, e), omega (arith, le), omega (arith, lt), s, earlier i m failure h)),
  )
  later-Sent i tries (n, done) accepted failure (inr (_, inr (d, e, h))) = inr (
    accepted,
    inr (
      d,
      omega (arith, e),
      λ j le lt.
          earlier i (i + suc tries) failure (λ j' le' lt'. h j' le' (omega (arith, lt'))) j le lt,
    ),
  )

  send_from-Sent :
      (i tries : ℕ) → Sent new_request task replies i tries (send new_request task replies i tries)
  unfolding send
  send_from-Sent i zero = elim (Bool-cases (new_request (sync_url task.url))) [
    | inl accepted ↦ inr (accepted, inr (refl, refl, λ j le lt. absurd (omega (arith, le, lt))))
    | inr refused ↦ inl (refused, refl, refl)
  ]
  send_from-Sent i (suc tries) =
      let rest = send new_request task replies (suc i) tries in
      elim (Bool-cases (new_request (sync_url task.url))) [
        | inr refused ↦
            subst (Sent new_request task replies i (suc tries)) (sym (stopped i tries refused))
              (inl (refused, refl, refl))
        | inl accepted ↦ elim (Bool-cases (is_success (replies i))) [
          | inl success ↦
              subst (Sent new_request task replies i (suc tries))
                (sym (succeeded i tries accepted success))
                (inr (
                  accepted,
                  inl (
                    refl,
                    (
                      i,
                      omega arith,
                      omega arith,
                      omega arith,
                      success,
                      λ j le lt. absurd (omega (arith, le, lt)),
                    ),
                  ),
                ))
          | inr failure ↦
              subst (Sent new_request task replies i (suc tries))
                (sym (continued i tries accepted failure))
                (later-Sent i tries rest accepted failure (send_from-Sent (suc i) tries))
        ]
      ]

  -- A goroutine of broadcast sends no POST where http.NewRequest refuses its address. Else it sends one
  -- after the other up to the first that gets the status 200, and succeeds, or it sends exactly three,
  -- none of which gets the status 200, and gives up.
  pub send-Sent :
      Sent new_request task replies 0 max_retries (send new_request task replies 0 max_retries)
  send-Sent = send_from-Sent 0 max_retries

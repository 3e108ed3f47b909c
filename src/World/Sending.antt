-- ===== src/World/Sending.antt =====
-- internal/registry/registry.go: what a send to a job's harness has done.
use hairpin.Base.{
  true, false, arith, ◌+◌, ◌≡◌, refl, ◌⊎◌, inl, inr, none, some, [], ◌∷◌, ◌++◌, Bool-cases, Bytes,
  lookup, ok, err, Error, not_connected, external, Option-cases,
}
use hairpin.Proto.{ControlEvent}
use hairpin.Registry.{Session}
use hairpin.World.{World, Env, stream_send, session_send, registry_send, has_closed}

module _ (env : Env) (id : Bytes) (ev : ControlEvent) (w : World) where
  -- The event went out on the job's session.
  abbrev pub Delivers : Session → Type 0
  Delivers s =
      (lookup id w.registry ≡ some s)
      × (has_closed w.closed s ≡ false)
      × (registry_send env id ev w
          ≡ (ok tt, record w { sends = w.sends + 1; sent = w.sent ++ (s, ev) ∷ [] }))

  -- No session is registered for the job, or the one that is was closed.
  abbrev pub IsAway : Type 0
  IsAway = (s : Session) → lookup id w.registry ≡ some s → has_closed w.closed s ≡ true

  pub registry_send-cases :
      env.send_error w.sends ≡ none
      → (IsAway × (registry_send env id ev w ≡ (err not_connected, w)))
        ⊎ ((s : Session) × Delivers s)
  unfolding registry_send session_send stream_send
  registry_send-cases q = elim (Option-cases (lookup id w.registry)) [
    | inl e ↦ inl (λ s f. ground (arith, e, f), rw (e, registry_send) refl)
    | inr (s, e) ↦ elim (Bool-cases (has_closed w.closed s)) [
      | inl c ↦ inl (λ t f. ground (arith, e, f, c), rw (e, registry_send) (rw c refl))
      | inr c ↦ inr (s, (e, c, rw (e, registry_send) (rw c (rw (q, stream_send) refl))))
    ]
  ]

  -- A send that fails changes no store and leaves nothing sent.
  pub registry_send-outcome :
      ((e : Error) × (v : World) × (registry_send env id ev w ≡ (err e, v))
        × (v.store ≡ w.store)
        × (v.sent ≡ w.sent))
      ⊎ ((s : Session) × Delivers s)
  unfolding registry_send session_send stream_send
  registry_send-outcome = elim (Option-cases (env.send_error w.sends)) [
    | inl q ↦ elim (registry_send-cases q) [
      | inl (away, gone) ↦ inl (not_connected, w, gone, refl, refl)
      | inr sent ↦ inr sent
    ]
    | inr (t, q) ↦ elim (Option-cases (lookup id w.registry)) [
      | inl e ↦ inl (not_connected, w, rw (e, registry_send) refl, refl, refl)
      | inr (s, e) ↦ elim (Bool-cases (has_closed w.closed s)) [
        | inl c ↦ inl (not_connected, w, rw (e, registry_send) (rw c refl), refl, refl)
        | inr c ↦ inl (
          external t,
          record w { sends = w.sends + 1 },
          rw (e, registry_send) (rw c (rw (q, stream_send) refl)),
          refl,
          refl,
        )
      ]
    ]
  ]

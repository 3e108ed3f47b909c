-- ===== src/TokenIssuer/Claims.antt =====
-- internal/tokenissuer/issuer.go behind internal/controlplane/pump.go: what a token that a harness gets says.
use hairpin.Base.{
  ℕ, ◌+◌, ◌<◌, ◌≡◌, refl, ◌⊎◌, inl, inr, Bool, true, false, Option, none, some, List, [], ◌∷◌, ◌++◌,
  Bytes, ok, length, ltb, leb, arith, ap, sym, ◌∙◌, Bool-cases, Option-cases,
}
use hairpin.Job.{Time}
use hairpin.Proto.{HarnessEvent, ControlEvent}
use hairpin.World.{World, Env, session_send, stream_send, has_closed}
use hairpin.Controlplane.{Handler, EventPump, max_request_id_bytes, max_sandbox_token_requests}
use hairpin.Controlplane.Answer.{
  token_response, send_token_response, mint_and_send, issue_token, handle_sandbox_token_request,
  sandbox_token_issuance_failure,
}
use hairpin.TokenIssuer.{Token, Key, Issuer, new_issuer, claims, mint}

-- The environment whose token issuer is `i`, with the issuer's clock and random bytes.
abbrev pub issuing : Issuer → (ℕ → Time) → (ℕ → Option Bytes) → Env → Env
issuing i clock random env = record env {
  mint = λ n sub scope. mint i (clock n) (random n) sub scope;
}

-- A refusal without a token, or a signed token for this job.
abbrev pub Answers : Key → Bytes → Bytes → EventPump → ControlEvent → Type 0
Answers key issuer audience p r =
    ((r.is_error ≡ some true) × (r.token ≡ []))
    ⊎ ((t : Token) × (key.sign t ≡ some r.token)
        × (r.is_error ≡ some false)
        × (t.sub ≡ p.job_id)
        × (t.aud ≡ audience)
        × (t.iss ≡ issuer)
        × (t.repos ≡ some p.repo_scope)
        × (r.expires_at ≡ some t.exp))

-- Nothing went out, or one answer on the pump's session.
abbrev pub SentOne : (ControlEvent → Type 0) → EventPump → World → World → Type 0
SentOne P p w v =
    (v.sent ≡ w.sent) ⊎ ((r : ControlEvent) × (v.sent ≡ w.sent ++ (p.session, r) ∷ []) × P r)

module _ (env : Env) where
  sent-session_send :
      (p : EventPump) (r : ControlEvent) (w : World)
      → ((session_send env p.session r w).1.sent ≡ w.sent)
        ⊎ ((session_send env p.session r w).1.sent ≡ w.sent ++ (p.session, r) ∷ [])
  unfolding session_send stream_send
  sent-session_send p r w = elim (Bool-cases (has_closed w.closed p.session)) [
    | inl c ↦ inl (rw (c, session_send) refl)
    | inr o ↦ elim (Option-cases (env.send_error w.sends)) [
      | inr (bad, f) ↦ inl (rw (o, session_send) (rw (f, stream_send) refl))
      | inl f ↦ inr (rw (o, session_send) (rw (f, stream_send) refl))
    ]
  ]

  sent-send_token_response :
      (P : ControlEvent → Type 0) (p : EventPump) (id token : Bytes) (at : Time) (e : Bool)
      (reason : Bytes) (w v : World)
      → v.sent ≡ w.sent
      → P (token_response id token at e reason)
      → SentOne P p w (send_token_response env p id token at e reason v)
  unfolding send_token_response
  sent-send_token_response P p id token at e reason w v same h =
      let r = token_response id token at e reason in
      elim (sent-session_send p r v) [
        | inl f ↦ inl (f ∙ same)
        | inr f ↦ inr (r, f ∙ ap (λ l. l ++ (p.session, r) ∷ []) same, h)
      ]

module _ (env : Env) (key : Key) (issuer audience : Bytes) (ttl : ℕ) (i : Issuer) (clock : ℕ → Time)
    (random : ℕ → Option Bytes) (made : new_issuer (some key) issuer audience ttl ≡ ok i) where
  issuer_made :
      (i.priv ≡ key) × (i.issuer ≡ issuer) × (i.audience ≡ audience) × (i.ttl ≡ ttl) × (0 < ttl)
  unfolding new_issuer
  issuer_made = elim (Bool-cases key.is_p256) [
    | inr f ↦ absurd (ground arith)
    | inl t ↦ elim (Option-cases key.key_id) [
      | inl e ↦ absurd (ground arith)
      | inr (kid, e) ↦ elim (Option-cases key.jwks_document) [
        | inl d ↦ absurd (ground arith)
        | inr (doc, d) ↦ (ground arith, ground arith, ground arith, ground arith, ground arith)
      ]
    ]
  ]

  minted :
      (now : Time) (jti : Option Bytes) (sub : Bytes) (scope : List Bytes) (token : Bytes)
      (at : Time)
      → mint i now jti sub scope ≡ some (token, at)
      → (j : Bytes) × (key.sign (claims i now j sub scope) ≡ some token) × (at ≡ now + ttl)
  unfolding mint
  minted now none sub scope token at h = cc
  minted now (some j) sub scope token at h =
      let (same, a, b, c, d) = issuer_made in
      elim (Option-cases (i.priv.sign (claims i now j sub scope))) [
        | inl f ↦ absurd (ground arith)
        | inr (signed, f) ↦ (
          j,
          ap (λ k. k.sign (claims i now j sub scope)) (sym same) ∙ f ∙ ground arith,
          ground arith,
        )
      ]

  minted-Answers :
      (p : EventPump) (id : Bytes) (now : Time) (j token : Bytes)
      → key.sign (claims i now j p.job_id p.repo_scope) ≡ some token
      → Answers key issuer audience p (token_response id token (now + ttl) false [])
  unfolding claims
  minted-Answers p id now j token h =
      let (same, a, b, c, d) = issuer_made in
      inr (claims i now j p.job_id p.repo_scope, h, refl, refl, b, a, refl, ground arith)

  sent-mint_and_send :
      (p : EventPump) (id : Bytes) (w : World)
      → SentOne
          (Answers key issuer audience p)
          p
          w
          (mint_and_send (issuing i clock random env) p id w)
  unfolding mint_and_send
  sent-mint_and_send p id w =
      let e = issuing i clock random env in
      elim (Option-cases (mint i (clock w.mints) (random w.mints) p.job_id p.repo_scope)) [
        | inl f ↦
            rw (f, mint_and_send)
              (sent-send_token_response e _ p id [] 0 true sandbox_token_issuance_failure w _ refl
                (inl (refl, refl)))
        | inr ((token, at), f) ↦
            let (j, signed, expiry) = minted _ _ _ _ token at f in
            rw (f, mint_and_send)
              (rw expiry (
                sent-send_token_response e _ p id token _ false [] w _ refl
                  (minted-Answers p id (clock w.mints) j token signed)))
      ]

  -- Behind an issuer that was made from this key, issuer name, audience and lifetime, a token request sends at
  -- most one answer, on the pump's own session: a refusal without a token, or a token that this key signed, whose
  -- subject is the pump's job, whose audience and issuer are the configured ones whatever the harness asked
  -- for, whose repository claim is there and is the job's scope, and whose expiry is the one that the answer names.
  pub handle_sandbox_token_request-SentOne :
      (h : Handler) (ev : HarnessEvent) (p : EventPump) (w : World)
      → SentOne
          (Answers key issuer audience p)
          p
          w
          (handle_sandbox_token_request (issuing i clock random env) h ev p w).1
  unfolding handle_sandbox_token_request issue_token
  handle_sandbox_token_request-SentOne h ev p w =
      let e = issuing i clock random env in
      let refused = λ (reason : Bytes).
        sent-send_token_response e (Answers key issuer audience p) p ev.request_id [] 0 true reason
          w w refl (inl (refl, refl)) in
      elim (Bool-cases (ltb max_request_id_bytes (length ev.request_id))) [
        | inl long ↦ rw long (inl refl)
        | inr short ↦ elim (Option-cases h.issuer) [
          | inl none_set ↦ rw short (rw none_set (refused _))
          | inr (aud, set) ↦ elim (Bool-cases p.sandbox_identity_declared) [
            | inr bare ↦ rw short (rw set (rw bare (refused _)))
            | inl declared ↦ elim (Bool-cases (leb max_sandbox_token_requests p.sandbox_tokens)) [
              | inl over ↦ rw short (rw set (rw declared (rw over (refused _))))
              | inr under ↦ rw short (
                  rw set (
                    rw declared (
                      rw under (
                        sent-mint_and_send (record p { sandbox_tokens = p.sandbox_tokens + 1 })
                          ev.request_id w))))
            ]
          ]
        ]
      ]

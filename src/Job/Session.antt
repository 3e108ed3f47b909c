-- ===== src/Job/Session.antt =====
-- internal/job/job.go: the session string round trip, and what the status functions return.
use hairpin.Base.{
  ◌≡◌, refl, ◌≢◌, true, [], ◌∷◌, ◌++◌, arith, Bytes, text, bytes_eq_iff, bytes_eq_refl,
  is_empty_iff,
}
use hairpin.Job.{
  Job, all_alnum, valid_id, parse_session, session_string, accepts_token, status_text,
  status_of_text,
}

-- No byte of the text is a dot.
abbrev pub NoDot : Bytes → Type 0
NoDot [] = Unit
NoDot (c ∷ cs) = (c ≢ b'.') × NoDot cs

pub parse_session-NoDot : (s : Bytes) → NoDot s → parse_session s ≡ (s, [])
unfolding parse_session
parse_session-NoDot [] h = refl
parse_session-NoDot (c ∷ cs) h = ground (arith, h.0, parse_session-NoDot cs h.1)

pub parse_session-dot : (s t : Bytes) → NoDot s → parse_session (s ++ b'.' ∷ t) ≡ (s, t)
unfolding parse_session
parse_session-dot [] t h = refl
parse_session-dot (c ∷ cs) t h = ground (arith, h.0, parse_session-dot cs t h.1)

all_alnum-NoDot : (s : Bytes) → all_alnum s ≡ true → NoDot s
unfolding all_alnum
all_alnum-NoDot [] h = tt
all_alnum-NoDot (c ∷ cs) h = (λ e. ground arith, all_alnum-NoDot cs (ground arith))

pub valid_id-NoDot : (s : Bytes) → valid_id s ≡ true → NoDot s
unfolding valid_id
valid_id-NoDot [] h = cc
valid_id-NoDot (a ∷ []) h = cc
valid_id-NoDot (a ∷ b ∷ []) h = cc
valid_id-NoDot (a ∷ b ∷ c ∷ r) h =
    (λ e. ground arith, (λ e. ground arith, (λ e. ground arith, all_alnum-NoDot r (ground arith))))

parse_session-session_string :
    (j : Job) → NoDot j.id → parse_session (session_string j) ≡ (j.id, j.harness_token)
unfolding session_string
parse_session-session_string j v = ground (
  arith,
  is_empty_iff j.harness_token,
  parse_session-NoDot j.id v,
  parse_session-dot j.id j.harness_token v,
)

-- A harness that echoes the session string of a job with a well-formed ID is read back as that
-- job's ID with that job's token, and the job accepts the token.
pub session_roundtrip :
    (j : Job)
    → valid_id j.id ≡ true
    → (parse_session (session_string j) ≡ (j.id, j.harness_token))
      × (accepts_token j (parse_session (session_string j)).1 ≡ true)
unfolding accepts_token
session_roundtrip j v =
    let e = parse_session-session_string j (valid_id-NoDot j.id v) in
    (e, rw e (bytes_eq_refl j.harness_token))

-- What a cut that found a token has cut.
parse_session-inv :
    (s : Bytes) → (parse_session s).1 ≢ [] → s ≡ (parse_session s).0 ++ b'.' ∷ (parse_session s).1
unfolding parse_session
parse_session-inv [] h = absurd (h refl)
parse_session-inv (c ∷ cs) h = ground (arith, parse_session-inv cs)

-- A job with a token accepts no presented string but its own session string: whatever text is
-- cut into the job's ID and an accepted token is `session_string j`.
pub session_unique :
    (j : Job) (s : Bytes)
    → j.harness_token ≢ []
    → (parse_session s).0 ≡ j.id
    → accepts_token j (parse_session s).1 ≡ true
    → s ≡ session_string j
unfolding accepts_token session_string
session_unique j s some_token same accepted = ground (
  arith,
  is_empty_iff j.harness_token,
  bytes_eq_iff j.harness_token (parse_session s).1,
  parse_session-inv s,
)

-- Whatever text a stored record holds as its status, reading it and writing it back changes nothing.
pub status_text-status_of_text : (t : Bytes) → status_text (status_of_text t) ≡ t
unfolding status_of_text status_text
status_text-status_of_text t = ground (
  arith,
  bytes_eq_iff t (text "queued"),
  bytes_eq_iff t (text "launching"),
  bytes_eq_iff t (text "awaiting_harness"),
  bytes_eq_iff t (text "running"),
  bytes_eq_iff t (text "succeeded"),
  bytes_eq_iff t (text "failed"),
  bytes_eq_iff t (text "cancelled"),
)

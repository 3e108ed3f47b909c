-- ===== src/Registry.antt =====
-- internal/registry/registry.go: which job has a live harness session. A session is known by a number,
-- which stands for the pointer that the source compares.
use hairpin.Base.{
  ℕ, ◌≡◌, Bool, true, false, none, some, List, [], ◌∷◌, arith, Bytes, bytes_eq, bytes_eq_iff, Assoc,
  lookup, insert, erase, lookup-insert, lookup-erase, Result, ok, err, already_connected, ◌==◌,
  if◌then◌else◌,
}

abbrev pub Session : Type 0
Session = ℕ

abbrev pub Registry : Type 0
Registry = Assoc Session

unfoldable pub register : Bytes → Session → Registry → Result (Unit {0}) × Registry
register id s r = elim (lookup id r) [
  | some _ ↦ (err already_connected, r)
  | none ↦ (ok tt, insert id s r)
]

unfoldable pub unregister : Bytes → Session → Registry → Registry
unregister id s r = elim (lookup id r) [ none ↦ r | some cur ↦ if cur == s then erase id r else r ]

unfoldable pub job_ids : Registry → List Bytes
job_ids [] = []
job_ids ((id, s) ∷ r) = id ∷ job_ids r

unfoldable pub connected : Bytes → Registry → Bool
connected id r = elim (lookup id r) [ none ↦ false | some _ ↦ true ]

-- A session that claims a job with a live one is refused and the registry stays as it was; otherwise
-- it gets the job, and no other job's session changes.
pub lookup-register :
    (id x : Bytes) (s : Session) (r : Registry)
    → lookup x (register id s r).1
      ≡ (if connected id r then lookup x r else if bytes_eq id x then some s else lookup x r)
unfolding register connected
lookup-register id x s r = ground (arith, lookup-insert id x s r)

-- A session that ends takes only its own entry away: a job that another session has taken over
-- keeps that session, and so do the other jobs.
pub lookup-unregister :
    (id x : Bytes) (s : Session) (r : Registry)
    → lookup x (unregister id s r) ≡ (
        if bytes_eq id x
        then elim (lookup x r) [ none ↦ none | some cur ↦ if cur == s then none else some cur ]
        else lookup x r)
unfolding unregister
lookup-unregister id x s r = ground (arith, lookup-erase id x r, bytes_eq_iff id x)

-- ===== src/Redis/Keys.antt =====
-- internal/store/redisstore/redisstore.go: the keys of different jobs are different, and so are the keys of one job.
use hairpin.Base.{
  ◌≡◌, refl, ◌≢◌, ap, true, false, none, some, [], ◌∷◌, ◌++◌, Bytes, text, bytes_eq, bytes_eq_iff,
  Assoc, lookup, length, length-append, arith, bytes_eq_refl,
}
use hairpin.Job.{valid_id}
use hairpin.Store.Mem.Valid.{contains}
use hairpin.Redis.{job_key, events_key, perms_key, has_fields}

pub bytes_eq-job_key : (a b : Bytes) → bytes_eq (job_key a) (job_key b) ≡ bytes_eq a b
unfolding job_key text bytes_eq
bytes_eq-job_key a b = refl

valid_id-length : (id : Bytes) → valid_id id ≡ true → length id ≡ 29
unfolding valid_id
valid_id-length (h ∷ p ∷ d ∷ rest) v = ground arith
valid_id-length [] v = cc
valid_id-length (a ∷ []) v = cc
valid_id-length (a ∷ b ∷ []) v = cc

bytes_ne_length : (a b : Bytes) → length a ≢ length b → bytes_eq a b ≡ false
bytes_ne_length a b h = ground (arith, bytes_eq_iff a b, h, ap (λ (l : Bytes). length l))

-- A job's own keys are the key of no other job's hash.
pub contains-job_key :
    (a b : Bytes)
    → valid_id a ≡ true
    → valid_id b ≡ true
    → contains (job_key b) (job_key a ∷ events_key a ∷ perms_key a ∷ []) ≡ bytes_eq a b
unfolding contains job_key events_key perms_key text bytes_eq
contains-job_key a b va vb =
    let la = valid_id-length a va in
    let lb = valid_id-length b vb in
    let events =
      bytes_ne_length (a ++ text ":events") b (omega (arith, length-append a (text ":events"))) in
    let perms =
      bytes_ne_length (a ++ text ":perms") b (omega (arith, length-append a (text ":perms"))) in
    ground (arith, events, perms)

-- Hashes with the same fields.
abbrev pub SameFields : Assoc Bytes → Assoc Bytes → Type 0
SameFields a b = (f : Bytes) → lookup f a ≡ lookup f b

pub has_fields-some : (fs : Assoc Bytes) (f v : Bytes) → lookup f fs ≡ some v → has_fields fs ≡ true
unfolding lookup
has_fields-some [] f v h = cc
has_fields-some (e ∷ fs) f v h = refl

pub has_fields-none :
    (fs : Assoc Bytes) → ((f : Bytes) → lookup f fs ≡ none) → has_fields fs ≡ false
unfolding lookup
has_fields-none [] h = refl
has_fields-none ((k, v) ∷ fs) h = absurd (ground (arith, h k, bytes_eq_refl k))

pub has_fields-SameFields : (a b : Assoc Bytes) → SameFields a b → has_fields a ≡ has_fields b
unfolding lookup
has_fields-SameFields [] [] h = refl
has_fields-SameFields [] ((k, v) ∷ b) h = absurd (ground (arith, h k, bytes_eq_refl k))
has_fields-SameFields ((k, v) ∷ a) [] h = absurd (ground (arith, h k, bytes_eq_refl k))
has_fields-SameFields (x ∷ a) (y ∷ b) h = refl

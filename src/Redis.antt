-- ===== src/Redis.antt =====
-- internal/store/redisstore/redisstore.go: the store that keeps its records in Redis. The server and the client
-- library are the record Client; what the store sends and what it makes of the replies is modelled.
pub mod Fields
pub mod Keys
pub mod Jobs
pub mod Timeline
use hairpin.Base.{
  ℕ, ◌+◌, ◌≡◌, ◌≢◌, Bool, true, false, not, ◌||◌, Option, none, some, List, [], ◌∷◌, ◌++◌, Bytes,
  text, bytes_eq, is_empty, Assoc, lookup, Result, ok, err, Error, tx_failed, if◌then◌else◌,
}
use hairpin.Job.{Time, is_zero}
use hairpin.Store.Mem.Valid.{contains}

-- Redis commands on the server's data, and what happens around the n-th command that the store
-- sends: what other clients do just before it, which keys they touch, and whether it fails. A command that fails may
-- have been applied all the same. The codecs are time.RFC3339Nano and encoding/json,
-- for times and valid UTF-8 texts that they can write.
pub record Client : Type 1 where
  pub Server : Type 0
  pub hgetall : Bytes → Server → Assoc Bytes
  pub hset : Bytes → Assoc Bytes → Server → Server
  pub hdel : Bytes → List Bytes → Server → Server
  pub exists : Bytes → Server → Bool
  pub del : List Bytes → Server → Server
  pub zadd : Bytes → Bytes → Server → Server
  pub zrem : Bytes → Bytes → Server → Server
  pub zrevrange : Bytes → Option Bytes → ℕ → Server → List Bytes
  pub others : ℕ → Server → Server
  pub touched : ℕ → Bytes → Bool
  pub fault : ℕ → Option (Error × Bool)
  pub format_time : Time → Bytes
  pub parse_time : Bytes → Option Time
  pub encode_scope : List Bytes → Bytes
  pub decode_scope : Bytes → Option (List Bytes)

abbrev pub has_fields : Assoc Bytes → Bool
has_fields [] = false
has_fields (f ∷ fs) = true

-- What Redis and the codecs document: HSET writes the fields that it names and no others, HDEL removes
-- those that it names, a hash exists as long as it has a field, DEL removes keys, sorted sets are other keys, a key that no
-- client touches stays as it is, and what is encoded is decoded.
pub record Laws (c : Client) : Type 0 where
  pub hgetall_hset :
      (x k f : Bytes) (fs : Assoc Bytes) (s : c.Server)
      → lookup f (c.hgetall k (c.hset x fs s)) ≡ (
          if bytes_eq x k
          then elim (lookup f fs) [ some v ↦ some v | none ↦ lookup f (c.hgetall k s) ]
          else lookup f (c.hgetall k s))
  pub hgetall_hdel :
      (x k f : Bytes) (names : List Bytes) (s : c.Server)
      → lookup f (c.hgetall k (c.hdel x names s)) ≡ (
          if bytes_eq x k
          then (if contains f names then none else lookup f (c.hgetall k s))
          else lookup f (c.hgetall k s))
  pub hgetall_del :
      (keys : List Bytes) (k f : Bytes) (s : c.Server)
      → lookup f (c.hgetall k (c.del keys s))
        ≡ (if contains k keys then none else lookup f (c.hgetall k s))
  pub hgetall_zadd :
      (z member k f : Bytes) (s : c.Server)
      → lookup f (c.hgetall k (c.zadd z member s)) ≡ lookup f (c.hgetall k s)
  pub hgetall_zrem :
      (z member k f : Bytes) (s : c.Server)
      → lookup f (c.hgetall k (c.zrem z member s)) ≡ lookup f (c.hgetall k s)
  pub exists_fields : (k : Bytes) (s : c.Server) → c.exists k s ≡ has_fields (c.hgetall k s)
  pub untouched :
      (n : ℕ) (k : Bytes) (s : c.Server)
      → c.touched n k ≡ false
      → c.hgetall k (c.others n s) ≡ c.hgetall k s
  pub parse-format : (t : Time) → is_zero t ≡ false → c.parse_time (c.format_time t) ≡ some t
  pub format-filled : (t : Time) → is_empty (c.format_time t) ≡ false
  pub decode-encode :
      (p : Bytes) (ps : List Bytes) → c.decode_scope (c.encode_scope (p ∷ ps)) ≡ some (p ∷ ps)
  pub encode-filled : (p : Bytes) (ps : List Bytes) → is_empty (c.encode_scope (p ∷ ps)) ≡ false

-- The connection: the server's data and how many commands were sent.
pub record Conn (c : Client) : Type 0 where
  pub server : c.Server
  pub commands : ℕ

module _ (c : Client) where
  module _ {A : Type 0} where
    abbrev replied : ℕ → Option (Error × Bool) → c.Server → A × c.Server → Result A × Conn c
    replied n none t (a, u) = (ok a, record { server = u; commands = n + 1 })
    replied n (some (e, true)) t (a, u) = (err e, record { server = u; commands = n + 1 })
    replied n (some (e, false)) t (a, u) = (err e, record { server = t; commands = n + 1 })

    -- One command, or one MULTI/EXEC pipeline.
    unfoldable pub command : (c.Server → A × c.Server) → Conn c → Result A × Conn c
    command f s =
        let t = c.others s.commands s.server in replied s.commands (c.fault s.commands) t (f t)

  abbrev pub executed : Result Bool × Conn c → Result (Unit {0}) × Conn c
  executed (err e, s) = (err e, s)
  executed (ok true, s) = (err tx_failed, s)
  executed (ok false, s) = (ok tt, s)

  -- EXEC of a transaction that watches a key: `lost` says whether the key was touched since WATCH.
  unfoldable pub exec : Bool → (c.Server → c.Server) → Conn c → Result (Unit {0}) × Conn c
  unfolding command
  exec lost f s = executed (command (λ t. (lost, if lost then t else f t)) s)

-- The keys.
unfoldable pub jobs_index_key : Bytes
jobs_index_key = text "hairpin:jobs"

unfoldable pub job_key : Bytes → Bytes
job_key id = text "hairpin:job:" ++ id

unfoldable pub events_key : Bytes → Bytes
unfolding job_key
events_key id = job_key id ++ text ":events"

unfoldable pub perms_key : Bytes → Bytes
unfolding job_key
perms_key id = job_key id ++ text ":perms"

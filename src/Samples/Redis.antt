-- ===== src/Samples/Redis.antt =====
-- Concrete uses of the theorems on the Redis store: a server as an association list of hashes, alone and in contention.
use hairpin.Base.{
  ℕ, zero, suc, ◌≡◌, refl, inl, inr, Bool, false, ◌&&◌, Option, none, some, List, [], ◌∷◌, ap, ◌∙◌,
  arith, Bytes, text, bytes_eq, bytes_eq_iff, is_empty, Assoc, lookup, insert, erase, lookup-insert,
  lookup-erase, Result, ok, err, if◌then◌else◌, ◌==◌, Bool-cases,
}
use hairpin.Job.{queued, Time, Job, valid_id, status_text, status_of_text, running}
use hairpin.Store.Mem.{entries, new_mem_store}
use hairpin.Store.Mem.Valid.{contains}
use hairpin.Redis.{Client, Laws, Conn, has_fields, job_key}
use hairpin.Redis.Fields.{job_from_fields, write_job}
use hairpin.Redis.Fields.Roundtrip.{job_from_fields-write_job}
use hairpin.Redis.Jobs
use hairpin.Redis.Jobs.Commit.{IsCommitted, update_job-IsCommitted}
use hairpin.Redis.Jobs.Representation.{Represents, IsQuiet}
use hairpin.Lifecycle.{start_running, settle_closed, cancel_now}
use hairpin.Redis.Jobs.Callbacks.{updates-IsAllowed}
use hairpin.Redis.Jobs.Refinement.{
  Operation, creates, gets, updates, deletes, run_memory, run_redis, run_redis-run_memory,
}
use hairpin.Samples.{an_id, a_job}

-- The hashes and the sorted sets.
abbrev Server : Type 0
Server = Assoc (Assoc Bytes) × Assoc (List Bytes)

abbrev get_all : Bytes → Server → Assoc Bytes
get_all k s = entries (lookup k s.0)

set_all : Assoc Bytes → Assoc Bytes → Assoc Bytes
set_all [] h = h
set_all ((f, v) ∷ fs) h = insert f v (set_all fs h)

erase_all : {V : Type 0} → List Bytes → Assoc V → Assoc V
erase_all [] h = h
erase_all (n ∷ ns) h = erase n (erase_all ns h)

put_hash : Bytes → Assoc Bytes → Server → Server
put_hash k h s = (insert k h s.0, s.1)

-- Each byte one up, and a 0 behind each entry.
scope_entry : Bytes → Bytes → Bytes
scope_entry [] rest = 0 ∷ rest
scope_entry (c ∷ cs) rest = suc c ∷ scope_entry cs rest

encoded : List Bytes → Bytes
unfolding scope_entry
encoded [] = []
encoded (p ∷ ps) = scope_entry p (encoded ps)

abbrev entry_head : ℕ → List Bytes → List Bytes
entry_head c [] = (c ∷ []) ∷ []
entry_head c (p ∷ ps) = (c ∷ p) ∷ ps

decoded : Bytes → List Bytes
decoded [] = []
decoded (zero ∷ cs) = [] ∷ decoded cs
decoded (suc c ∷ cs) = entry_head c (decoded cs)

abbrev first_byte : Bytes → Option Time
first_byte [] = none
first_byte (t ∷ ts) = some t

module _ (others : ℕ → Server → Server) (touched : ℕ → Bytes → Bool) where
  abbrev a_client : Client
  a_client = record {
    Server = Server;
    hgetall = get_all;
    hset = λ k fs s. put_hash k (set_all fs (get_all k s)) s;
    hdel = λ k names s. put_hash k (erase_all names (get_all k s)) s;
    exists = λ k s. has_fields (get_all k s);
    del = λ keys s. (erase_all keys s.0, s.1);
    zadd = λ z x s. (s.0, insert z (x ∷ entries (lookup z s.1)) s.1);
    zrem = λ z x s. (s.0, insert z [] s.1);
    zrevrange = λ z start n s. entries (lookup z s.1);
    others = others;
    touched = touched;
    fault = λ n. none;
    format_time = λ t. t ∷ [];
    parse_time = first_byte;
    encode_scope = encoded;
    decode_scope = λ b. some (decoded b);
  }

lookup-set_all :
    (f : Bytes) (fs h : Assoc Bytes)
    → lookup f (set_all fs h) ≡ elim (lookup f fs) [ some v ↦ some v | none ↦ lookup f h ]
unfolding set_all lookup
lookup-set_all f [] h = refl
lookup-set_all f ((g, v) ∷ fs) h = elim (Bool-cases (bytes_eq g f)) [
  | inl e ↦ lookup-insert g f v (set_all fs h) ∙ rw e refl
  | inr e ↦ lookup-insert g f v (set_all fs h) ∙ rw e (lookup-set_all f fs h)
]

lookup-erase_all :
    {V : Type 0} (f : Bytes) (names : List Bytes) (h : Assoc V)
    → lookup f (erase_all names h) ≡ (if contains f names then none else lookup f h)
unfolding erase_all contains
lookup-erase_all f [] h = refl
lookup-erase_all f (n ∷ ns) h =
    lookup-erase n f (erase_all ns h) ∙ ground (arith, lookup-erase_all f ns h)

put_hash_lem :
    (x k : Bytes) (h : Assoc Bytes) (s : Server)
    → get_all k (put_hash x h s) ≡ (if bytes_eq x k then h else get_all k s)
unfolding put_hash
put_hash_lem x k h s = ap entries (lookup-insert x k h s.0) ∙ ground arith

decoded-scope_entry : (p rest : Bytes) → decoded (scope_entry p rest) ≡ p ∷ decoded rest
unfolding decoded scope_entry
decoded-scope_entry [] rest = refl
decoded-scope_entry (c ∷ cs) rest = rw (decoded-scope_entry cs rest) refl

decoded-encoded : (ps : List Bytes) → decoded (encoded ps) ≡ ps
unfolding decoded encoded
decoded-encoded [] = refl
decoded-encoded (p ∷ ps) = decoded-scope_entry p (encoded ps) ∙ ap (λ l. p ∷ l) (decoded-encoded ps)

encoded-filled : (p : Bytes) (ps : List Bytes) → is_empty (encoded (p ∷ ps)) ≡ false
unfolding encoded scope_entry is_empty
encoded-filled [] ps = refl
encoded-filled (c ∷ cs) ps = refl

hset_law :
    (x k f : Bytes) (fs : Assoc Bytes) (s : Server)
    → lookup f (get_all k (put_hash x (set_all fs (get_all x s)) s)) ≡ (
        if bytes_eq x k
        then elim (lookup f fs) [ some v ↦ some v | none ↦ lookup f (get_all k s) ]
        else lookup f (get_all k s))
hset_law x k f fs s = elim (Bool-cases (bytes_eq x k)) [
  | inl e ↦
      ap (lookup f) (put_hash_lem x k (set_all fs (get_all x s)) s)
      ∙ rw e (
          lookup-set_all f fs (get_all x s)
          ∙ ap (λ y. elim (lookup f fs) [ some v ↦ some v | none ↦ lookup f (get_all y s) ])
              ((bytes_eq_iff x k).0 e))
  | inr e ↦ ap (lookup f) (put_hash_lem x k (set_all fs (get_all x s)) s) ∙ rw e refl
]

hdel_law :
    (x k f : Bytes) (names : List Bytes) (s : Server)
    → lookup f (get_all k (put_hash x (erase_all names (get_all x s)) s)) ≡ (
        if bytes_eq x k
        then (if contains f names then none else lookup f (get_all k s))
        else lookup f (get_all k s))
hdel_law x k f names s = elim (Bool-cases (bytes_eq x k)) [
  | inl e ↦
      ap (lookup f) (put_hash_lem x k (erase_all names (get_all x s)) s)
      ∙ rw e (
          lookup-erase_all f names (get_all x s)
          ∙ ap (λ y. if contains f names then none else lookup f (get_all y s))
              ((bytes_eq_iff x k).0 e))
  | inr e ↦ ap (lookup f) (put_hash_lem x k (erase_all names (get_all x s)) s) ∙ rw e refl
]

del_law :
    (keys : List Bytes) (k f : Bytes) (s : Server)
    → lookup f (get_all k (erase_all keys s.0, s.1))
      ≡ (if contains k keys then none else lookup f (get_all k s))
unfolding lookup
del_law keys k f s = ap (λ o. lookup f (entries o)) (lookup-erase_all k keys s.0) ∙ ground arith

module _ (others : ℕ → Server → Server) (touched : ℕ → Bytes → Bool)
    (untouched : (n : ℕ) (k : Bytes) (s : Server)
      → touched n k ≡ false
      → get_all k (others n s) ≡ get_all k s) where
  a_client-Laws : Laws (a_client others touched)
  unfolding is_empty
  a_client-Laws = record {
    hgetall_hset = λ x k f fs s. hset_law x k f fs s;
    hgetall_hdel = λ x k f names s. hdel_law x k f names s;
    hgetall_del = λ keys k f s. del_law keys k f s;
    hgetall_zadd = λ z x k f s. refl;
    hgetall_zrem = λ z x k f s. refl;
    exists_fields = λ k s. refl;
    untouched = untouched;
    parse-format = λ t h. refl;
    format-filled = λ t. refl;
    decode-encode = λ p ps. ap some (decoded-encoded (p ∷ ps));
    encode-filled = encoded-filled;
  }

-- No other client.
abbrev alone : Client
alone = a_client (λ n s. s) (λ n k. false)

alone-Laws : Laws alone
alone-Laws = a_client-Laws (λ n s. s) (λ n k. false) (λ n k s h. refl)

alone-IsQuiet : IsQuiet alone
alone-IsQuiet = record { alone = λ n s. refl; untouched = λ n k. refl; reliable = λ n. refl }

abbrev a_server : Server
a_server = ([], [])

job_from_fields-write_job_example :
    job_from_fields alone
      (alone.hgetall (job_key an_id) (write_job alone (job_key an_id) a_job a_server))
    ≡ ok a_job
unfolding status_of_text status_text bytes_eq text
job_from_fields-write_job_example =
    job_from_fields-write_job alone alone-Laws (job_key an_id) a_job a_server refl

-- The update of a job that starts it.
abbrev starts : Job → Result (Job × Unit {0})
starts j = ok (record j { status = running }, tt)

abbrev job_or : Job → Result (Job × Unit {0}) → Job
job_or j (ok (k, u)) = k
job_or j (err e) = j

abbrev some_operations : List Operation
some_operations =
    creates a_job
    ∷ creates a_job
    ∷ updates _ an_id (start_running 1)
    ∷ updates _ an_id (settle_closed [] [] 1 2)
    ∷ updates _ an_id (cancel_now 1)
    ∷ gets an_id
    ∷ deletes an_id
    ∷ gets an_id
    ∷ []

an_empty_server : Represents alone a_server []
unfolding lookup
an_empty_server = record { present = λ id v. refl; decodes = λ id v. refl }

abbrev a_connection : Conn alone
a_connection = record { server = a_server; commands = 0 }

run_redis-run_memory_example :
    ((run_redis alone some_operations a_connection).0
      ≡ (run_memory some_operations (new_mem_store 0)).0)
    × Represents alone
        (run_redis alone some_operations a_connection).1.server
        (run_memory some_operations (new_mem_store 0)).1.jobs
unfolding new_mem_store valid_id text status_of_text status_text bytes_eq
run_redis-run_memory_example =
    let own = updates-IsAllowed an_id 1 2 [] [] [] queued queued refl refl in
    run_redis-run_memory alone alone-Laws alone-IsQuiet some_operations a_connection
      (new_mem_store 0) an_empty_server
      (
        (refl, refl),
        (
          (refl, refl),
          (own.0, (own.1.1.1.1.0, (own.1.1.1.1.1.1.1.1.0, (refl, (refl, (refl, tt)))))),
        ),
      )

-- Another client writes the job's error between the read and the write of the first attempt.
abbrev interferes : ℕ → Server → Server
interferes n s =
    if n == 2
    then put_hash (job_key an_id) ((text "error", text "e") ∷ get_all (job_key an_id) s) s
    else s

abbrev touches : ℕ → Bytes → Bool
touches n k = n == 2 && bytes_eq (job_key an_id) k

interferes-untouched :
    (n : ℕ) (k : Bytes) (s : Server)
    → touches n k ≡ false
    → get_all k (interferes n s) ≡ get_all k s
interferes-untouched n k s h = elim (Bool-cases (n == 2)) [
  | inl e ↦ rw e (put_hash_lem (job_key an_id) k _ s ∙ rw (rw e at h) refl)
  | inr e ↦ rw e refl
]

abbrev contended : Client
contended = a_client interferes touches

abbrev a_stored_job : Conn contended
a_stored_job = record { server = write_job contended (job_key an_id) a_job a_server; commands = 0 }

abbrev after_start : Result (Job × Unit {0}) × Conn contended
after_start = Jobs.update_job contended an_id starts a_stored_job

abbrev started_job : Job
started_job = record a_job { status = running; error = text "e" }

update_job-IsCommitted_example : IsCommitted contended an_id starts started_job tt after_start.1
unfolding Jobs.update_job put_hash set_all erase_all encoded decoded scope_entry lookup text
    bytes_eq insert erase is_empty
update_job-IsCommitted_example =
    update_job-IsCommitted contended an_id starts
      (a_client-Laws interferes touches interferes-untouched) a_stored_job after_start.1 started_job
      tt refl

-- The first attempt was lost.
commands_sent : after_start.1.commands ≡ 6
unfolding Jobs.update_job put_hash set_all erase_all encoded decoded scope_entry lookup text
    bytes_eq insert erase is_empty
commands_sent = refl

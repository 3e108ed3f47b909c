-- ===== src/Samples/Jobs.antt =====
-- Concrete uses of the theorems on jobs, on the store and on IDs.
use mathlib.Core.List.{Perm}
use hairpin.Base.{
  Bytes, suc, ◌≡◌, refl, ◌-◌, true, List, [], ◌∷◌, text, ok, err, take, length, lookup, insert,
  bytes_eq, arith, index_out_of_range,
}
use hairpin.Job.{valid_id, parse_session, session_string, accepts_token}
use hairpin.Job.Session.{session_unique, session_roundtrip}
use hairpin.Lifecycle.Outcome.{
  Change, started, finished, cancelled_now, seen, changes, Evolves, changes-Evolves,
}
use hairpin.Lifecycle.Coherence.{IsCoherent, changes-IsCoherent}
use hairpin.Store.{PermissionRequest, PermissionState, pending, allowed}
use hairpin.Store.Mem.Permissions.{list_permissions, values}
use hairpin.Store.Mem.Permissions.Sorted.{IsSorted, list_permissions-IsSorted}
use hairpin.Store.Mem.{entries, MemStore, new_mem_store, create_job}
use hairpin.Store.Mem.Valid.{IsValid, create_job-IsValid, new_mem_store-IsValid}
use hairpin.Store.Mem.Runs.{creates, deletes, calls, reachable-IsValid}
use hairpin.Store.Mem.Listing.{scan_index, list_jobs, next_token}
use hairpin.Store.Mem.Listing.Pages.{
  newest, page_size, list_jobs_first, list_jobs_resumed, list_jobs_panics,
}
use hairpin.Samples.{an_id, a_token, a_job, a_store}

session_unique_example : text "hp-00000000000000000000000001.t" ≡ session_string a_job
unfolding parse_session accepts_token text bytes_eq
session_unique_example =
    session_unique a_job (text "hp-00000000000000000000000001.t") (ground arith) refl refl

session_roundtrip_example :
    (parse_session (session_string a_job) ≡ (an_id, a_token))
    × (accepts_token a_job (parse_session (session_string a_job)).1 ≡ true)
unfolding valid_id text
session_roundtrip_example = session_roundtrip a_job refl

abbrev some_changes : List Change
some_changes = started 3 ∷ seen 4 ∷ finished (text "success") [] [] 5 ∷ cancelled_now 6 ∷ []

changes-Evolves_example : Evolves a_job (changes some_changes a_job)
changes-Evolves_example = changes-Evolves some_changes a_job

a_job-IsCoherent : IsCoherent a_job
unfolding text
a_job-IsCoherent = record {
  ended_at = λ h. absurd (ground arith);
  open_at = λ h. refl;
  open_reason = λ h. refl;
  open_text = λ h. refl;
  success_reason = λ h. absurd (ground arith);
  reason_success = λ h. absurd (ground arith);
  running_start = λ h. absurd (ground arith);
}

changes-IsCoherent_example : IsCoherent (changes some_changes a_job)
changes-IsCoherent_example =
    changes-IsCoherent some_changes a_job (omega arith, (tt, (omega arith, (omega arith, tt))))
      a_job-IsCoherent

reachable-IsValid_example :
    IsValid (calls (creates a_job ∷ deletes an_id ∷ creates a_job ∷ []) (new_mem_store 0))
reachable-IsValid_example =
    reachable-IsValid 0 (creates a_job ∷ deletes an_id ∷ creates a_job ∷ []) tt

pub a_store-IsValid : IsValid a_store
unfolding create_job new_mem_store lookup insert
a_store-IsValid = create_job-IsValid a_job (new_mem_store 10) (new_mem_store-IsValid 10)

list_jobs_first_example :
    list_jobs 1 [] a_store
    ≡ ok (
      take (page_size 1) (newest a_store (length a_store.order)),
      next_token (length a_store.order - page_size 1),
    )
list_jobs_first_example = list_jobs_first 1 a_store a_store-IsValid

list_jobs_resumed_example :
    list_jobs 1 (next_token (suc 0)) a_store
    ≡ ok (take (page_size 1) (newest a_store (suc 0)), next_token (suc 0 - page_size 1))
list_jobs_resumed_example =
    list_jobs_resumed 1 0 a_store a_store-IsValid (omega arith) (omega arith)

list_jobs_panics_example : list_jobs 1 (text "7") a_store ≡ err index_out_of_range
unfolding text scan_index
list_jobs_panics_example = list_jobs_panics 1 7 (text "7") a_store (ground arith) refl (omega arith)

abbrev pub a_request : Bytes → PermissionState → PermissionRequest
a_request id state = record {
  request_id = id;
  tool_name = text "shell";
  input_json = [];
  state = state;
  reason = [];
  requested_at = 2;
  answered_at = 0;
}

abbrev an_asking_store : MemStore
an_asking_store = record a_store {
  perms =
      (
        an_id,
        (text "a", a_request (text "a") allowed) ∷ (text "b", a_request (text "b") pending) ∷ [],
      )
      ∷ [];
}

list_permissions-IsSorted_example :
    IsSorted (list_permissions an_id an_asking_store)
    × Perm
        (list_permissions an_id an_asking_store)
        (values (entries (lookup an_id an_asking_store.perms)))
list_permissions-IsSorted_example = list_permissions-IsSorted an_id an_asking_store

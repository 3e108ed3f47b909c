-- ===== src/Web/Pages.antt =====
-- internal/web/handlers.go, web.go, notfound.go and the start of sse.go: what each request of the operator's pages does and
-- how it is answered. A form is what was parsed from it; `none` is a form that ParseForm refuses.
pub mod Guards
use hairpin.Base.{
  ℕ, Bool, true, false, not, ◌&&◌, ◌||◌, Option, none, some, List, [], ◌∷◌, ◌++◌, map, Bytes, text,
  bytes_eq, is_empty, Result, ok, err, Error, not_found, error_text, ltb, leb, ◌==◌, length,
  if◌then◌else◌,
}
use hairpin.Job.{Job}
use hairpin.Store.{Event, PermissionRequest}
use hairpin.Store.Mem.{MemStore}
use hairpin.Store.Mem.Listing.{list_jobs}
use hairpin.World.{World, Env}
use hairpin.Service.{get, cancel, answer_permission, list_permissions_of}
use hairpin.Service.Watch.{Followed, watch}
use hairpin.Service.Submit.{Settings, Fresh, SubmitParams, submit}

-- The pages, with what their templates are given.
pub data Page : Type 0 where
  index_page : List Job → Bytes → Page
  detail_page : Job → List PermissionRequest → Page
  error_page : Bytes → Page
  redirect : Bytes → Page
  event_stream : Followed → Page
  plain_text : Bytes → Page

pub record Response : Type 0 where
  pub status : ℕ
  pub page : Page

abbrev pub render_error : ℕ → Bytes → Response
render_error status message = record { status = status; page = error_page message }

abbrev pub render_page : Page → Response
render_page p = record { status = 200; page = p }

abbrev pub see_other : Bytes → Response
see_other path = record { status = 303; page = redirect path }

abbrev pub job_list_limit : ℕ
job_list_limit = 50

unfoldable pub all_ulid : Bytes → Bool
all_ulid [] = true
all_ulid (c ∷ cs) = ((leb b'0' c && leb c b'9') || (leb b'a' c && leb c b'z')) && all_ulid cs

-- jobIDPattern, `^hp-[0-9a-z]{26}$`.
unfoldable pub valid_job_id : Bytes → Bool
unfolding all_ulid
valid_job_id (h ∷ p ∷ d ∷ rest) =
    h == b'h' && p == b'p' && d == b'-' && length rest == 26 && all_ulid rest
valid_job_id _ = false

-- The page for an error of the service: an unknown job, or anything else.
unfoldable pub failed_page : Error → Bytes → Bytes → Response
failed_page not_found missing other = render_error 404 missing
failed_page e missing other = render_error 500 other

-- The fields of the submit form.
pub record FormValues : Type 0 where
  pub prompt : Bytes
  pub profile : Bytes
  pub run_config_json : Bytes

-- `blank` is whether strings.TrimSpace leaves nothing.
module _ (env : Env) (s : Settings) (blank : Bytes → Bool) where
  abbrev pub index_of : ℕ → Bytes → Result (List Job × Bytes) → Response
  index_of status message (err e) = render_error 500 (text "failed to list jobs")
  index_of status message (ok (jobs, next)) = record {
    status = status;
    page = index_page jobs message;
  }

  -- renderIndex, and index.
  unfoldable pub render_index : ℕ → Bytes → World → Response
  render_index status message w = index_of status message (list_jobs job_list_limit [] w.store)

  abbrev pub form_params : FormValues → SubmitParams
  form_params form = record {
    prompt = form.prompt;
    profile = form.profile;
    run_config_json = form.run_config_json;
    repo_scope = [];
  }

  abbrev pub submitted_page : Result Job × World → Response × World
  submitted_page (err e, w) = (render_index 400 (error_text e) w, w)
  submitted_page (ok j, w) = (see_other (text "/jobs/" ++ j.id), w)

  unfoldable pub submit_form : Fresh → Option FormValues → World → Response × World
  unfolding render_index submit
  submit_form f none w = (render_index 400 (text "invalid form submission") w, w)
  submit_form f (some form) w =
      if blank form.prompt && blank form.run_config_json
      then (render_index 400 (text "prompt or run config JSON is required") w, w)
      else submitted_page (submit env s f (form_params form) w)

  abbrev pub detail_with : Job → Result (List PermissionRequest) → Response
  detail_with j (err e) = render_error 500 (text "failed to load permission requests")
  detail_with j (ok perms) = render_page (detail_page j perms)

  abbrev pub detail_of : Bytes → World → Result Job → Response
  detail_of id w (err e) = failed_page e (text "job not found") (text "failed to load job")
  detail_of id w (ok j) = detail_with j (list_permissions_of id w)

  unfoldable pub detail : Bytes → World → Response
  unfolding valid_job_id failed_page get list_permissions_of
  detail id w =
      if not (valid_job_id id)
      then render_error 400 (text "invalid job id")
      else detail_of id w (get id w)

  abbrev pub cancelled_page : Bytes → Result Job × World → Response × World
  cancelled_page id (err e, w) =
      (failed_page e (text "job not found") (text "failed to cancel job"), w)
  cancelled_page id (ok j, w) = (see_other (text "/jobs/" ++ id), w)

  unfoldable pub cancel_page : Bytes → World → Response × World
  unfolding valid_job_id failed_page cancel
  cancel_page id w =
      if not (valid_job_id id)
      then (render_error 400 (text "invalid job id"), w)
      else cancelled_page id (cancel env id w)

  abbrev pub answered_page : Bytes → Result PermissionRequest × World → Response × World
  answered_page id (err e, w) = (
    failed_page e (text "permission request not found")
        (text "failed to answer permission request"),
    w,
  )
  answered_page id (ok p, w) = (see_other (text "/jobs/" ++ id), w)

  -- The form has the values of "allow" and "reason".
  unfoldable pub answer_page : Bytes → Bytes → Option (Bytes × Bytes) → World → Response × World
  unfolding valid_job_id failed_page answer_permission
  answer_page id request_id form w =
      if not (valid_job_id id) || is_empty request_id
      then (render_error 400 (text "invalid permission request"), w)
      else elim form [
        | none ↦ (render_error 400 (text "invalid form submission"), w)
        | some (allow, reason) ↦
            answered_page id
              (answer_permission env id request_id (bytes_eq allow (text "true")) reason w)
      ]

  abbrev pub followed_page : World → Result Followed × MemStore → Response × World
  followed_page w (err e, m) =
      (failed_page e (text "job not found") (text "failed to watch job"), record w { store = m })
  followed_page w (ok f, m) = (render_page (event_stream f), record w { store = m })

  -- events, up to the stream's start: the cursor of a reconnect goes before the one in the query.
  unfoldable pub events_page : Bytes → Bytes → Bytes → World → Response × World
  unfolding valid_job_id failed_page watch
  events_page id last_event_id after w =
      if not (valid_job_id id)
      then (render_error 400 (text "invalid job id"), w)
      else followed_page w
          (watch id (if is_empty last_event_id then after else last_event_id) w.store w.store)

-- A request as ServeMux hands it on; one that matches no route, or a route with another method, has no handler.
pub data Request : Type 0 where
  get_index : Request
  post_submit : Fresh → Option FormValues → Request
  get_detail : Bytes → Request
  get_events : Bytes → Bytes → Bytes → Request
  post_cancel : Bytes → Request
  post_permission : Bytes → Bytes → Option (Bytes × Bytes) → Request
  unmatched : Request
  wrong_method : Request

-- errorRewriter: a 404 or 405 from anywhere below it becomes the shared page with a message of its own.
unfoldable pub rewrite_error : Response → Response
rewrite_error r =
    if r.status == 404
    then render_error 404 (text "page not found")
    else if r.status == 405
    then render_error 405 (text "method not allowed")
    else r

-- The headers that the same-origin check reads: whether the method is GET or HEAD, Origin, and Host. `host_of` is the host that
-- url.Parse finds.
pub record Headers : Type 0 where
  pub safe_method : Bool
  pub origin : Bytes
  pub host : Bytes

unfoldable pub cross_origin : (Bytes → Option Bytes) → Headers → Bool
cross_origin host_of h =
    not h.safe_method
    && not (is_empty h.origin)
    && elim (host_of h.origin) [ none ↦ true | some host ↦ not (bytes_eq host h.host) ]

abbrev pub rewritten : Response × World → Response × World
rewritten (r, w) = (rewrite_error r, w)

module _ (env : Env) (s : Settings) (blank : Bytes → Bool) (host_of : Bytes → Option Bytes) where
  unfoldable pub route : Request → World → Response × World
  unfolding render_index submit_form detail cancel_page answer_page events_page
  route get_index w = (render_index env s blank 200 [] w, w)
  route (post_submit f form) w = submit_form env s blank f form w
  route (get_detail id) w = (detail env s blank id w, w)
  route (get_events id last after) w = events_page env s blank id last after w
  route (post_cancel id) w = cancel_page env s blank id w
  route (post_permission id request_id form) w = answer_page env s blank id request_id form w
  route unmatched w = (record { status = 404; page = plain_text (text "404 page not found") }, w)
  route wrong_method w = (record { status = 405; page = plain_text (text "Method Not Allowed") }, w)

  -- protectUI around the interceptor around the routes.
  unfoldable pub serve : Headers → Request → World → Response × World
  unfolding cross_origin rewrite_error route
  serve h r w =
      if cross_origin host_of h
      then (record { status = 403; page = plain_text (text "cross-origin request rejected") }, w)
      else rewritten (route r w)

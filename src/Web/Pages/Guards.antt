-- ===== src/Web/Pages/Guards.antt =====
-- internal/web: which requests are let through, and what the shared error page leaves of a message.
use hairpin.Base.{
  ◌≡◌, refl, Bool, false, Option, some, Bytes, text, bytes_eq, is_empty, ◌==◌, arith, Bool-cases,
  inl, inr,
}
use hairpin.World.{World, Env}
use hairpin.Service.Submit.{Settings}
use hairpin.Web.Pages.{error_page, Response, Headers, Request, cross_origin, rewrite_error, serve}

-- Whatever a handler says with a 404, for example that a job is unknown, the page says that it was not found itself.
rewrite_error-not_found :
    (r : Response)
    → (rewrite_error r).status ≡ 404
    → (rewrite_error r).page ≡ error_page (text "page not found")
unfolding rewrite_error
rewrite_error-not_found r h = elim (Bool-cases (r.status == 404)) [
  | inl e ↦ rw e refl
  | inr e ↦ elim (Bool-cases (r.status == 405)) [
    | inl f ↦ absurd (ground arith)
    | inr f ↦ absurd (ground arith)
  ]
]

module _ (env : Env) (s : Settings) (blank : Bytes → Bool) (host_of : Bytes → Option Bytes) where
  -- A request from another origin that is not a GET or HEAD is refused and changes nothing.
  pub serve-cross_origin :
      (h : Headers) (r : Request) (w : World) (other : Bytes)
      → h.safe_method ≡ false
      → is_empty h.origin ≡ false
      → host_of h.origin ≡ some other
      → bytes_eq other h.host ≡ false
      → ((serve env s blank host_of h r w).1 ≡ w)
        × ((serve env s blank host_of h r w).0.status ≡ 403)
  unfolding serve cross_origin
  serve-cross_origin h r w other method origin parsed differs =
      rw method (rw origin (rw parsed (rw differs (refl, refl))))

-- ===== src/Acquisition/Serving.antt =====
-- No request of a fetch goes to a host whose addresses were not checked just before, and what is
-- returned keeps to the policy.
use omniverse_v.Prelude.{
  ℕ, zero, suc, ◌≤◌, ◌≡◌, true, Option, none, some, ◌∷◌, any, leb, ltb, length, if◌then◌else◌,
  Bool-cases, inl, inr, within,
}
use omniverse_v.Context.{Text}
use omniverse_v.Acquisition.{
  Failure, raise, return, body_exceeds, is_recoverable, Result, ok, error, AcquisitionPolicy,
  HttpResponse, BrowserResult, requested, rendered, Log, Web, Fetch, same_text, is_success,
  is_redirect, location, ◌>>=◌,
}
use omniverse_v.Acquisition.Service.{
  validate_url, receive, get, redirect, accept, follow, fetch_http, fall_back, or_browser,
  acquire_with_fallback,
}
use omniverse_v.Acquisition.Triples.{Post, Runs, Post-after, Runs-bind, Post-lift, Post-then}
use omniverse_v.Acquisition.Guards.{Guarded, Ready, validate_url-Ready}

-- What the policy asks of a response.
abbrev pub Accepted : Web → AcquisitionPolicy → HttpResponse → Type 0
Accepted web policy r =
    (is_success r.status ≡ true)
    × (length r.body ≤ policy.max_body_bytes)
    × (any (same_text (web.media_type r.content_type)) policy.allowed_content_types ≡ true)

module _ (web : Web) (policy : AcquisitionPolicy) where
  -- The response that `fetch_http` returns.
  abbrev pub Served : Text × HttpResponse → Log → Type 0
  Served (url, r) log = Accepted web policy r × Guarded web policy log

  abbrev Stays : {A : Type 0} → A → Log → Type 0
  Stays a log = Guarded web policy log

  get-Guarded :
      (url : Text) → Runs (Ready web policy url) (get web policy url) Stays (Guarded web policy)
  unfolding get ◌>>=◌
  get-Guarded url log (v, g) =
      Post-then Stays (Guarded web policy) (web.stream log url) (requested url ∷ log) _
        (λ s e.
          Post-lift Stays (Guarded web policy) (receive web policy.max_body_bytes s)
            (requested url ∷ log) (λ r e. (v, g)) (v, g))
        (v, g)

  accept-Served :
      (current : Text) (r : HttpResponse)
      → Runs (Guarded web policy) (accept web policy current r) Served (Guarded web policy)
  accept-Served current r log g = elim (Bool-cases (is_success r.status)) [
    | inr failed ↦ rw failed g
    | inl success ↦ elim (Bool-cases (ltb policy.max_body_bytes (length r.body))) [
      | inl large ↦ rw (success, large) g
      | inr small ↦
          elim (Bool-cases
            (any (same_text (web.media_type r.content_type)) policy.allowed_content_types)) [
              | inr odd ↦ rw (success, small, odd) g
              | inl usual ↦
                  let fits = within policy.max_body_bytes (length r.body) small in
                  rw (success, small, usual) ((success, fits, usual), g)
            ]
    ]
  ]

  redirect-Served :
      (again : Text → Fetch (Text × HttpResponse)) (count : ℕ) (current : Text) (l : Option Text)
      → ((url : Text) → Runs (Ready web policy url) (again url) Served (Guarded web policy))
      → Runs
          (Guarded web policy)
          (redirect web policy again count current l)
          Served
          (Guarded web policy)
  unfolding ◌>>=◌
  redirect-Served again count current none h log g = g
  redirect-Served again count current (some l) h log g =
      elim (Bool-cases (leb policy.max_redirects count)) [
        | inl last ↦ rw last g
        | inr more ↦
            let on =
              Post-then Served (Guarded web policy) (web.urljoin current l) log
                (λ url. validate_url web policy url >>= again)
                (λ url e.
                  Post-after (Ready web policy) Served (Guarded web policy)
                    (validate_url web policy url log) again
                    (validate_url-Ready web policy url log g) h)
                g in
            rw more on
      ]

  follow-Served :
      (left count : ℕ) (current : Text)
      → Runs
          (Ready web policy current)
          (follow web policy left count current)
          Served
          (Guarded web policy)
  unfolding follow
  follow-Served zero count current log (v, g) = g
  follow-Served (suc left) count current log v =
      Runs-bind (Ready web policy current) Stays Served (Guarded web policy)
        (get web policy current) _ (get-Guarded current)
        (λ r log g. elim (Bool-cases (is_redirect r.status)) [
          | inl moved ↦ rw moved (
              redirect-Served (follow web policy left (suc count)) count current (location r)
                (follow-Served left (suc count)) log g)
          | inr here ↦ rw here (accept-Served current r log g)
        ])
        log v

  -- If every URL that was requested or rendered so far went to a host that had just been resolved
  -- to addresses which the policy allows, one at least, then so does every request of
  -- `fetch_http`, those after redirects included, and a response that it returns has a status from
  -- 200 to 299, a body within the limit and an allowed content type.
  pub fetch_http-Served :
      (url : Text) (log : Log)
      → Guarded web policy log
      → Post Served (Guarded web policy) (fetch_http web policy url log)
  unfolding fetch_http
  fetch_http-Served url =
      Runs-bind (Guarded web policy) (Ready web policy) Served (Guarded web policy)
        (validate_url web policy url) _ (validate_url-Ready web policy url)
        (follow-Served (suc policy.max_redirects) 0)

  -- The document of `acquire_with_fallback`, whose body is within the limit.
  abbrev pub Fits : Text × Text → Log → Type 0
  Fits (body, text) log = (length body ≤ policy.max_body_bytes) × Guarded web policy log

  fall_back-Fits :
      (url : Text) (e : Failure) (b : Option (Log → Text → Result BrowserResult)) (log : Log)
      → Guarded web policy log
      → Post Fits (Guarded web policy) (fall_back web policy url e b log)
  unfolding ◌>>=◌
  fall_back-Fits url e none log g = g
  fall_back-Fits url e (some browser) log g =
      Post-after (Ready web policy) Fits (Guarded web policy) (validate_url web policy url log) _
        (validate_url-Ready web policy url log g)
        (λ canonical l v.
          Post-then Fits (Guarded web policy) (browser l canonical) (rendered canonical ∷ l) _
            (λ page e.
              Post-after (Ready web policy) Fits (Guarded web policy)
                (validate_url web policy page.final_url (rendered canonical ∷ l)) _
                (validate_url-Ready web policy page.final_url (rendered canonical ∷ l) v)
                (λ final m w. fits_page page m w.1))
            v)
    where
      fits_page :
          (page : BrowserResult) (l : Log)
          → Guarded web policy l
          → Post Fits (Guarded web policy) (
              (if ltb policy.max_body_bytes (length page.body)
                  then raise body_exceeds
                  else return (page.body, page.content_type))
                l)
      fits_page page l g = elim (Bool-cases (ltb policy.max_body_bytes (length page.body))) [
        | inl large ↦ rw large g
        | inr small ↦
            let fits = within policy.max_body_bytes (length page.body) small in rw small (fits, g)
      ]

  or_browser-Fits :
      (url : Text) (r : Result (Text × HttpResponse) × Log)
      → Post Served (Guarded web policy) r
      → Post Fits (Guarded web policy) (or_browser web policy url r)
  or_browser-Fits url (ok (final, r), log) ((s, fits, t), g) = (fits, g)
  or_browser-Fits url (error e, log) g = elim (Bool-cases (is_recoverable e)) [
    | inl y ↦ rw y (fall_back-Fits url e web.browser log g)
    | inr n ↦ rw n g
  ]

  -- If every URL that was requested or rendered so far went to a host that had just been resolved to
  -- addresses which the policy allows, one at least, then so does every URL of `acquire_with_fallback`,
  -- with its redirects and its browser, and a body that it returns is within the limit.
  pub acquire_with_fallback-Fits :
      (url : Text) (log : Log)
      → Guarded web policy log
      → Post Fits (Guarded web policy) (acquire_with_fallback web policy url log)
  unfolding acquire_with_fallback ◌>>=◌
  acquire_with_fallback-Fits url log g =
      Post-after Fits Fits (Guarded web policy)
        (or_browser web policy url (fetch_http web policy url log)) _
        (or_browser-Fits url (fetch_http web policy url log) (fetch_http-Served url log g))
        (λ found l f.
          Post-then Fits (Guarded web policy) (web.extract_document found.0 found.1) l _
            (λ extract e. f) f.1)

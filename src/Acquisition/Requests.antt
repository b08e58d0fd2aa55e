-- ===== src/Acquisition/Requests.antt =====
-- How many requests a fetch of Acquisition.antt makes.
use omniverse_v.Prelude.{
  ℕ, zero, suc, ◌+◌, ◌≤◌, Option, none, some, [], ◌∷◌, ltb, leb, length, any, Bool-cases, inl, inr,
  arith,
}
use omniverse_v.Context.{Text}
use omniverse_v.Acquisition.{
  Result, ok, error, AcquisitionPolicy, HttpResponse, resolved, requested, rendered, Log, Web,
  Fetch, is_redirect, is_success, same_text, check_host, location, ◌>>=◌,
}
use omniverse_v.Acquisition.Service.{
  host_of, canonicalize_url, resolve, validate_url, receive, get, redirect, accept, follow,
  fetch_http,
}
use omniverse_v.Acquisition.Triples.{
  Post, Runs, Post-after, Runs-bind, Post-lift, Post-then, Post-logged,
}

unfoldable pub requests : Log → ℕ
requests [] = 0
requests (resolved host addresses ∷ log) = requests log
requests (requested url ∷ log) = suc (requests log)
requests (rendered url ∷ log) = requests log

-- At most so many requests, whatever the result.
abbrev Few : {A : Type 0} → ℕ → A → Log → Type 0
Few b a log = requests log ≤ b

abbrev Most : ℕ → Log → Type 0
Most b log = requests log ≤ b

relax :
    {A : Type 0} (r : Result A × Log) (a b c : ℕ)
    → b ≤ c
    → Post (Few a) (Most b) r
    → Post (Few a) (Most c) r
relax (ok x, log) a b c le h = h
relax (error e, log) a b c le h = omega arith

total : {A : Type 0} (r : Result A × Log) (c : ℕ) → Post (Few c) (Most c) r → requests r.1 ≤ c
total (ok x, log) c h = h
total (error e, log) c h = h

module _ (web : Web) (policy : AcquisitionPolicy) where
  validate_url-Few :
      (b : ℕ) (url : Text) → Runs (Most b) (validate_url web policy url) (Few b) (Most b)
  unfolding validate_url ◌>>=◌ requests
  validate_url-Few b url log g =
      Post-then (Few b) (Most b) (canonicalize_url web url) log _
        (λ canonical e.
          Post-then (Few b) (Most b) (host_of web (web.urlsplit canonical)) log _
            (λ host h.
              Post-after (Few b) (Few b) (Most b) (resolve web host log) _
                (Post-logged (Few b) (Most b) (web.resolve log host) log (resolved host)
                  (λ addresses. g) g)
                (λ addresses l r.
                  Post-then (Few b) (Most b) (check_host policy.allow_private addresses) l _
                    (λ x c. r) r))
            g)
        g

  get-Few : (b : ℕ) (url : Text) → Runs (Most b) (get web policy url) (Few (suc b)) (Most (suc b))
  unfolding get ◌>>=◌ requests
  get-Few b url log g =
      let one_more : requests (requested url ∷ log) ≤ suc b = omega arith in
      Post-then (Few (suc b)) (Most (suc b)) (web.stream log url) (requested url ∷ log) _
        (λ s e.
          Post-lift (Few (suc b)) (Most (suc b)) (receive web policy.max_body_bytes s)
            (requested url ∷ log) (λ r e. one_more) one_more)
        one_more

  accept-Few :
      (b : ℕ) (current : Text) (r : HttpResponse)
      → Runs (Most b) (accept web policy current r) (Few b) (Most b)
  accept-Few b current r log g = elim (Bool-cases (is_success r.status)) [
    | inr failed ↦ rw failed g
    | inl success ↦ elim (Bool-cases (ltb policy.max_body_bytes (length r.body))) [
      | inl large ↦ rw (success, large) g
      | inr small ↦
          elim (Bool-cases
            (any (same_text (web.media_type r.content_type)) policy.allowed_content_types)) [
              | inr odd ↦ rw (success, small, odd) g
              | inl usual ↦ rw (success, small, usual) g
            ]
    ]
  ]

  redirect-Few :
      (again : Text → Fetch (Text × HttpResponse)) (b c count : ℕ) (current : Text)
      (l : Option Text)
      → b ≤ c
      → ((url : Text) → Runs (Most b) (again url) (Few c) (Most c))
      → Runs (Most b) (redirect web policy again count current l) (Few c) (Most c)
  unfolding ◌>>=◌
  redirect-Few again b c count current none le h log g = omega arith
  redirect-Few again b c count current (some l) le h log g =
      let at_most : requests log ≤ c = omega arith in
      elim (Bool-cases (leb policy.max_redirects count)) [
        | inl last ↦ rw last at_most
        | inr more ↦
            let on =
              Post-then (Few c) (Most c) (web.urljoin current l) log
                (λ url. validate_url web policy url >>= again) (λ url e. resumed url) at_most in
            rw more on
      ]
    where
      resumed : (url : Text) → Post (Few c) (Most c) ((validate_url web policy url >>= again) log)
      resumed url =
          Post-after (Few b) (Few c) (Most c) (validate_url web policy url log) again
            (relax (validate_url web policy url log) b b c le (validate_url-Few b url log g)) h

  follow-Few :
      (left b c count : ℕ) (current : Text)
      → b + left ≤ c
      → Runs (Most b) (follow web policy left count current) (Few c) (Most c)
  unfolding follow
  follow-Few zero b c count current le log g = omega arith
  follow-Few (suc left) b c count current le log h =
      Runs-bind (Most b) (Few (suc b)) (Few c) (Most c) (get web policy current) _
        (λ log g.
          let room : suc b ≤ c = omega arith in
          relax (get web policy current log) (suc b) (suc b) c room (get-Few b current log g))
        (λ r log g.
          let room : suc b ≤ c = omega arith in
          let rest : suc b + left ≤ c = omega arith in
          let at_most : requests log ≤ c = omega arith in
          elim (Bool-cases (is_redirect r.status)) [
            | inl moved ↦ rw moved (
                redirect-Few (follow web policy left (suc count)) (suc b) c count current
                  (location r) room (λ url. follow-Few left (suc b) c (suc count) url rest) log g)
            | inr here ↦ rw here (accept-Few c current r log at_most)
          ])
        log h

  -- `fetch_http` adds at most `max_redirects` + 1 requests to the log, whatever comes of it.
  pub requests-fetch_http :
      (url : Text) (log : Log)
      → requests (fetch_http web policy url log).1 ≤ requests log + suc policy.max_redirects
  unfolding fetch_http
  requests-fetch_http url log =
      let b = requests log in
      let c = b + suc policy.max_redirects in
      total (fetch_http web policy url log) c (
        Runs-bind (Most b) (Few b) (Few c) (Most c) (validate_url web policy url) _
          (λ l g.
            relax (validate_url web policy url l) b b c (omega arith) (validate_url-Few b url l g))
          (λ canonical. follow-Few (suc policy.max_redirects) b c 0 canonical (omega arith)) log
          (omega arith))

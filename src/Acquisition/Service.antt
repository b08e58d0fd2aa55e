-- ===== src/Acquisition/Service.antt =====
-- AcquisitionService of backend/app/v2/acquisition.py, with its URL policy and its transport.
use omniverse_v.Prelude.{
  ℕ, zero, suc, not, ◌||◌, Option, none, some, List, [], ◌∷◌, any, ltb, leb, length, if◌then◌else◌,
  is_empty,
}
use omniverse_v.Context.{Text, take}
use omniverse_v.Acquisition.{
  bad_url, missing_location, redirect_limit, body_exceeds, bad_content_type, non_success,
  other_error, AcquisitionPolicy, Address, BrowserResult, Failure, Fetch, HttpResponse, Log, Result,
  ok, error, Stream, UrlParts, Web, check_host, is_recoverable, is_redirect, is_success, is_web,
  lift, location, logged, or_slash, raise, read_body, rendered, requested, resolved, return,
  same_text, shown_port, ◌>>=◌,
}

module _ (web : Web) where
  abbrev pub with_port : UrlParts → Result (Option ℕ) → Result Text
  with_port p (ok port) =
      ok (web.urlunsplit p.scheme p.hostname (shown_port p.scheme port) (or_slash p.path) p.query)
  with_port p (error e) = error e

  -- `canonicalize_url`, once the URL is split.
  abbrev pub canonical_parts : Result UrlParts → Result Text
  canonical_parts (error e) = error e
  canonical_parts (ok p) =
      if not (is_web p.scheme)
        || (is_empty p.hostname || (not (is_empty p.username) || not (is_empty p.password)))
      then error bad_url
      else with_port p p.port

  abbrev pub canonicalize_url : Text → Result Text
  canonicalize_url url = canonical_parts (web.urlsplit url)

  -- `urlsplit(canonical).hostname`, with the assertion.
  abbrev pub host_of : Result UrlParts → Result Text
  host_of (error e) = error e
  host_of (ok p) = if is_empty p.hostname then error other_error else ok p.hostname

  abbrev pub resolve : Text → Fetch (List Address)
  resolve host log = logged (web.resolve log host, log) (resolved host)

  -- `_get` of the transport, once the stream is open.
  abbrev pub receive : ℕ → Stream → Result HttpResponse
  receive max_bytes s =
      if leb 400 s.status
      then error (non_success s.status)
      else elim (read_body max_bytes [] s.chunks) [
        | ok body ↦ ok (record {
          status = s.status;
          headers = s.headers;
          body = body;
          content_type = s.content_type;
        })
        | error e ↦ error e
      ]

  abbrev pub send : Text → Fetch Stream
  send url log = (web.stream log url, requested url ∷ log)

  abbrev pub render : (Log → Text → Result BrowserResult) → Text → Fetch BrowserResult
  render browser url log = (browser log url, rendered url ∷ log)

  module _ (policy : AcquisitionPolicy) where
    -- `_validate_url`.
    unfoldable pub validate_url : Text → Fetch Text
    validate_url url = lift (canonicalize_url url) >>= λ canonical.
        lift (host_of (web.urlsplit canonical)) >>= λ host. resolve host >>= λ addresses.
        lift (check_host policy.allow_private addresses) >>= λ _. return canonical

    -- `get` of the transport.
    unfoldable pub get : Text → Fetch HttpResponse
    get url = send url >>= λ s. lift (receive policy.max_body_bytes s)

    -- A redirect in the loop of `fetch_http`.
    abbrev pub redirect : {A : Type 0} → (Text → Fetch A) → ℕ → Text → Option Text → Fetch A
    redirect again redirect_count current none = raise missing_location
    redirect again redirect_count current (some l) =
        if leb policy.max_redirects redirect_count
        then raise redirect_limit
        else lift (web.urljoin current l) >>= λ url. validate_url url >>= again

    -- A response that is no redirect.
    abbrev pub accept : Text → HttpResponse → Fetch (Text × HttpResponse)
    accept current r =
        if not (is_success r.status)
        then raise (non_success r.status)
        else if ltb policy.max_body_bytes (length r.body)
        then raise body_exceeds
        else if not (any (same_text (web.media_type r.content_type)) policy.allowed_content_types)
        then raise bad_content_type
        else return (current, r)

    -- The loop of `fetch_http`, with the turns that are left.
    unfoldable pub follow : ℕ → ℕ → Text → Fetch (Text × HttpResponse)
    follow zero redirect_count current = raise redirect_limit
    follow (suc left) redirect_count current = get current >>= λ r.
        if is_redirect r.status
        then redirect (follow left (suc redirect_count)) redirect_count current (location r)
        else accept current r

    unfoldable pub fetch_http : Text → Fetch (Text × HttpResponse)
    fetch_http url = validate_url url >>= follow (suc policy.max_redirects) 0

    -- The browser in place of the transport.
    abbrev pub fall_back :
        Text → Failure → Option (Log → Text → Result BrowserResult) → Fetch (Text × Text)
    fall_back url e none = raise e
    fall_back url e (some browser) = validate_url url >>= λ canonical.
        render browser canonical >>= λ page. validate_url page.final_url >>= λ _.
        if ltb policy.max_body_bytes (length page.body)
        then raise body_exceeds
        else return (page.body, page.content_type)

    abbrev pub or_browser : Text → Result (Text × HttpResponse) × Log → Result (Text × Text) × Log
    or_browser url (ok (final, r), log) = (ok (r.body, r.content_type), log)
    or_browser url (error e, log) =
        if is_recoverable e then fall_back url e web.browser log else (error e, log)

    abbrev pub excerpt : Text → Text → Text
    excerpt body [] = take 4000 (web.decode body)
    excerpt body (c ∷ cs) = take 4000 (c ∷ cs)

    unfoldable pub acquire_with_fallback : Text → Fetch (Text × Text)
    acquire_with_fallback url = (λ log. or_browser url (fetch_http url log)) >>= λ found.
        lift (web.extract_document found.0 found.1) >>= λ extract.
        return (found.0, excerpt found.0 extract)

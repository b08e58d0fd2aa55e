-- ===== src/Acquisition/Tests.antt =====
-- A fetch that follows one redirect, by a small model of the web: URLs of one number, hosts 1 and 2.
use omniverse_v.Prelude.{
  zero, suc, ◌+◌, ◌≤◌, ◌≡◌, refl, true, false, none, some, List, [], ◌∷◌, any,
}
use omniverse_v.Context.{Text}
use omniverse_v.Acquisition.{
  ok, error, non_public, https, UrlParts, Address, ip, AcquisitionPolicy, HttpResponse, Stream,
  bytes, location_lower, Web, check_addresses, read_body, header, same_text, ◌>>=◌,
}
use omniverse_v.Acquisition.Service.{validate_url, get, follow, fetch_http, acquire_with_fallback}
use omniverse_v.Acquisition.Triples.{Post}
use omniverse_v.Acquisition.Guards.{Guarded}
use omniverse_v.Acquisition.Serving.{Served, Fits, fetch_http-Served, acquire_with_fallback-Fits}
use omniverse_v.Acquisition.Requests.{requests, requests-fetch_http}

abbrev policy : AcquisitionPolicy
policy = record {
  max_redirects = 1;
  max_body_bytes = 2;
  allowed_content_types = (7 ∷ []) ∷ [];
  allow_private = false;
}

abbrev parts : Text → UrlParts
parts host = record {
  scheme = https;
  hostname = host;
  username = [];
  password = [];
  port = ok (some 443);
  path = [];
  query = [];
}

abbrev answer : Text → Stream
answer (suc zero ∷ rest) = record {
  status = 302;
  headers = (location_lower, 2 ∷ []) ∷ [];
  content_type = [];
  chunks = [];
}
answer url = record {
  status = 200;
  headers = [];
  content_type = 7 ∷ [];
  chunks = bytes (5 ∷ []) ∷ bytes (6 ∷ []) ∷ [];
}

-- The host 3 has a private address.
abbrev addresses_of : Text → List Address
addresses_of (suc (suc (suc zero)) ∷ rest) = ip false ∷ []
addresses_of host = ip true ∷ []

abbrev small_web : Web
small_web = record {
  urlsplit = λ url. ok (parts url);
  urlunsplit = λ scheme host port path query. host;
  urljoin = λ base url. ok url;
  media_type = λ t. t;
  resolve = λ log host. ok (addresses_of host);
  stream = λ log url. ok (answer url);
  browser = none;
  extract_document = λ body t. ok [];
  decode = λ body. body;
}

abbrev page : HttpResponse
page = record { status = 200; headers = []; body = 5 ∷ 6 ∷ []; content_type = 7 ∷ [] }

fetched : (fetch_http small_web policy (1 ∷ []) []).0 ≡ ok (2 ∷ [], page)
unfolding fetch_http validate_url get follow check_addresses read_body header same_text ◌>>=◌ any
fetched = refl

private_refused : (fetch_http small_web policy (3 ∷ []) []).0 ≡ error non_public
unfolding fetch_http validate_url get follow check_addresses read_body header same_text ◌>>=◌ any
private_refused = refl

fetch_http-Served_example :
    Post
      (Served small_web policy)
      (Guarded small_web policy)
      (fetch_http small_web policy (1 ∷ []) [])
fetch_http-Served_example = fetch_http-Served small_web policy (1 ∷ []) [] tt

acquire_with_fallback-Fits_example :
    Post
      (Fits small_web policy)
      (Guarded small_web policy)
      (acquire_with_fallback small_web policy (1 ∷ []) [])
acquire_with_fallback-Fits_example = acquire_with_fallback-Fits small_web policy (1 ∷ []) [] tt

requests-fetch_http_example :
    requests (fetch_http small_web policy (1 ∷ []) []).1 ≤ requests [] + suc policy.max_redirects
requests-fetch_http_example = requests-fetch_http small_web policy (1 ∷ []) []

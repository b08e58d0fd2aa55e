-- ===== src/Acquisition.antt =====
-- Fetching a document, backend/app/v2/acquisition.py: the URL policy, the transport, the loop over
-- redirects and the browser as a fallback. A text or a body is a list of numbers. The record `Web` holds
-- the code of other parts: the URL functions of Python, name resolution, the HTTP client, the browser and
-- the extraction of text. What it answers may depend on the log, the exchanges so far, latest first.
pub mod Service
pub mod Triples
pub mod Guards
pub mod Serving
pub mod Requests
mod Tests
use omniverse_v.Prelude.{
  ℕ, zero, suc, ◌+◌, ◌==◌, Bool, true, false, not, ◌&&◌, ◌||◌, Option, none, some, List, [], ◌∷◌,
  ◌++◌, any, ltb, leb, length, if◌then◌else◌,
}
use omniverse_v.Context.{Text, take}

-- UrlPolicyError by its message, the exceptions that the browser may make up for (ConnectionError,
-- IndexError, OSError, RuntimeError, TimeoutError), ValueError and the rest.
pub data Failure : Type 0 where
  bad_url did_not_resolve invalid_address non_public missing_location redirect_limit body_exceeds
        bad_content_type :
      Failure
  non_success : ℕ → Failure
  recoverable_error value_error other_error : Failure

pub data Result (A : Type 0) : Type 0 where
  ok : A → Result A
  error : Failure → Result A

pub data Scheme : Type 0 where
  http https other_scheme : Scheme

-- What `urlsplit` makes of a URL, with the scheme and the host in lower case. `port` is an error for
-- a port that is not one.
pub record UrlParts : Type 0 where
  pub scheme : Scheme
  pub hostname : Text
  pub username : Text
  pub password : Text
  pub port : Result (Option ℕ)
  pub path : Text
  pub query : Text

-- What `ipaddress.ip_address` makes of an address, with `is_global`.
pub data Address : Type 0 where
  not_an_address : Address
  ip : Bool → Address

pub data HeaderName : Type 0 where
  location_lower location_title : HeaderName
  other_header : ℕ → HeaderName

pub record AcquisitionPolicy : Type 0 where
  pub max_redirects : ℕ
  pub max_body_bytes : ℕ
  pub allowed_content_types : List Text
  pub allow_private : Bool

pub record HttpResponse : Type 0 where
  pub status : ℕ
  pub headers : List (HeaderName × Text)
  pub body : Text
  pub content_type : Text

pub record BrowserResult : Type 0 where
  pub body : Text
  pub final_url : Text
  pub content_type : Text

pub data Chunk : Type 0 where
  bytes : Text → Chunk
  broken : Failure → Chunk

-- A response of the HTTP client as it opens its stream: status, headers, content type, chunks.
pub record Stream : Type 0 where
  pub status : ℕ
  pub headers : List (HeaderName × Text)
  pub content_type : Text
  pub chunks : List Chunk

pub data Exchange : Type 0 where
  resolved : Text → List Address → Exchange
  requested rendered : Text → Exchange

abbrev pub Log : Type 0
Log = List Exchange

pub record Web : Type 0 where
  pub urlsplit : Text → Result UrlParts
  pub urlunsplit : Scheme → Text → Option ℕ → Text → Text → Text
  pub urljoin : Text → Text → Result Text
  pub media_type : Text → Text
  pub resolve : Log → Text → Result (List Address)
  pub stream : Log → Text → Result Stream
  pub browser : Option (Log → Text → Result BrowserResult)
  pub extract_document : Text → Text → Result Text
  pub decode : Text → Text

abbrev pub Fetch : Type 0 → Type 0
Fetch A = Log → Result A × Log

abbrev pub return : {A : Type 0} → A → Fetch A
return a log = (ok a, log)

abbrev pub raise : {A : Type 0} → Failure → Fetch A
raise e log = (error e, log)

abbrev pub lift : {A : Type 0} → Result A → Fetch A
lift r log = (r, log)

abbrev pub after : {A B : Type 0} → Result A × Log → (A → Fetch B) → Result B × Log
after (ok a, log) f = f a log
after (error e, log) f = (error e, log)

infixl 5 ◌>>=◌
unfoldable pub ◌>>=◌ : {A B : Type 0} → Fetch A → (A → Fetch B) → Fetch B
m >>= f = λ log. after (m log) f

-- A side effect that is logged once it was made.
abbrev pub logged : {A : Type 0} → Result A × Log → (A → Exchange) → Result A × Log
logged (ok a, log) f = (ok a, f a ∷ log)
logged (error e, log) f = (error e, log)

unfoldable pub same_text : Text → Text → Bool
same_text [] [] = true
same_text (a ∷ t) (b ∷ u) = a == b && same_text t u
same_text [] (b ∷ u) = false
same_text (a ∷ t) [] = false

abbrev pub is_web : Scheme → Bool
is_web http = true
is_web https = true
is_web other_scheme = false

-- The port that stays in the URL.
abbrev pub shown_port : Scheme → Option ℕ → Option ℕ
shown_port scheme none = none
shown_port http (some port) = if port == 80 then none else some port
shown_port https (some port) = if port == 443 then none else some port
shown_port other_scheme (some port) = some port

abbrev pub or_slash : Text → Text
or_slash [] = 47 ∷ []
or_slash (c ∷ cs) = c ∷ cs

-- `header or header`, where an empty text counts as none.
abbrev pub or_text : Option Text → Option Text → Option Text
or_text (some (c ∷ cs)) b = some (c ∷ cs)
or_text (some []) b = b
or_text none b = b

abbrev pub unless_empty : Option Text → Option Text
unless_empty t = or_text t none

abbrev pub same_header : HeaderName → HeaderName → Bool
same_header location_lower location_lower = true
same_header location_title location_title = true
same_header (other_header a) (other_header b) = a == b
same_header _ _ = false

unfoldable pub header : HeaderName → List (HeaderName × Text) → Option Text
header name [] = none
header name ((n, value) ∷ rest) = if same_header n name then some value else header name rest

abbrev pub location : HttpResponse → Option Text
location r =
    or_text (header location_lower r.headers) (unless_empty (header location_title r.headers))

abbrev pub is_redirect : ℕ → Bool
is_redirect status = leb 300 status && ltb status 400

abbrev pub is_success : ℕ → Bool
is_success status = leb 200 status && ltb status 300

-- The addresses of a host, one after another.
unfoldable pub check_addresses : Bool → List Address → Result Bool
check_addresses allow_private [] = ok true
check_addresses allow_private (not_an_address ∷ rest) = error invalid_address
check_addresses allow_private (ip is_global ∷ rest) =
    if not allow_private && not is_global
    then error non_public
    else check_addresses allow_private rest

abbrev pub check_host : Bool → List Address → Result Bool
check_host allow_private [] = error did_not_resolve
check_host allow_private (a ∷ rest) = check_addresses allow_private (a ∷ rest)

-- The loop of `_get` over the chunks of a body.
unfoldable pub read_body : ℕ → Text → List Chunk → Result Text
read_body max_bytes body [] = ok body
read_body max_bytes body (broken e ∷ rest) = error e
read_body max_bytes body (bytes chunk ∷ rest) =
    if ltb max_bytes (length (body ++ chunk))
    then error body_exceeds
    else read_body max_bytes (body ++ chunk) rest

-- The exceptions for which `acquire_with_fallback` asks the browser.
abbrev pub is_recoverable : Failure → Bool
is_recoverable recoverable_error = true
is_recoverable _ = false

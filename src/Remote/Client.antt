-- ===== src/Remote/Client.antt =====
-- internal/remote/client.go, and `ReportHealth` of internal/remote/health.go. The network, the
-- building of a request by net/http and encoding/json are parameters.
pub mod Addresses
pub mod Fetching
mod Examples
use zeus_gslb.Prelude.{
  ℕ, Text, text, take, length, ◌*◌, ◌^◌, leb, ltb, Bool, true, false, ◌&&◌, ◌||◌, Option, none,
  second, some, List, [], ◌∷◌, ◌++◌, ◌==◌, if◌then◌else◌,
}
use zeus_gslb.Prelude.Result.{Result, ok, err, ◌>>=◌}
use zeus_gslb.Remote.Url.{query_escape}
use zeus_gslb.Remote.Reporter.{HealthReport}

-- `maxBundleBytes`
unfoldable pub max_bundle_bytes : ℕ
max_bundle_bytes = 16 * 2 ^ 20

-- An `http.Client` by its `Timeout` in nanoseconds, which is none at zero.
pub record HttpClient : Type 0 where
  pub timeout : ℕ

pub record Client : Type 0 where
  pub base_url : Text
  pub cluster : Text
  pub token : Text
  pub http_client : HttpClient
  pub stream_client : HttpClient

-- `strings.TrimRight(s, "/")`
abbrev pub all_slashes : Text → Bool
all_slashes [] = true
all_slashes (c ∷ s) = c == b'/' && all_slashes s

unfoldable pub trim_slashes : Text → Text
trim_slashes [] = []
trim_slashes (c ∷ s) = if all_slashes (c ∷ s) then [] else c ∷ trim_slashes s

unfoldable pub new_client : Text → Text → Text → Client
new_client base_url cluster token = record {
  base_url = trim_slashes base_url;
  cluster = cluster;
  token = token;
  http_client = record { timeout = 15 * second };
  stream_client = record { timeout = 0 };
}

unfoldable pub bundle_url : Client → Text
bundle_url c =
    c.base_url ++ (text "/api/global-endpoints/bundle?cluster=" ++ query_escape c.cluster)

unfoldable pub events_url : Client → Text
events_url c =
    c.base_url ++ (text "/api/global-endpoints/events?cluster=" ++ query_escape c.cluster)

unfoldable pub health_url : Client → Text
health_url c = c.base_url ++ text "/api/global-endpoints/health"

pub record Request : Type 0 where
  pub method : Text
  pub url : Text
  pub headers : List (Text × Text)
  pub content : Text

-- The status, and what reading the body gives: its bytes, and behind them an error where it is
-- `broken`, the end of the body otherwise.
pub record Response : Type 0 where
  pub status : ℕ
  pub body : Text
  pub broken : Bool

-- What the client meets: whether `NewRequestWithContext` takes a method and a URL, and what `Do`
-- gives on a request, none for an error.
pub record Net : Type 0 where
  pub builds : Text → Text → Bool
  pub exchange : HttpClient → Request → Option Response

-- The errors by the words in front of them.
pub data ClientError : Type 0 where
  marshal_report build_request transport read_body : ClientError
  unexpected_status : ℕ → Text → ClientError

unfoldable pub truncate : Text → ℕ → Text
truncate b n = if leb (length b) n then b else take n b ++ 226 ∷ 128 ∷ 166 ∷ []

-- `io.ReadAll(io.LimitReader(body, n))`
unfoldable pub read_limited : ℕ → Response → Result ClientError Text
read_limited n r = if r.broken && ltb (length r.body) n then err read_body else ok (take n r.body)

-- The body for an error's text, `body, _ := io.ReadAll(io.LimitReader(body, 200))`.
unfoldable pub read_excerpt : Response → Text
read_excerpt r = truncate (take 200 r.body) 200

-- `NewRequestWithContext`, the headers and `Do`.
unfoldable pub send : Net → HttpClient → Request → Result ClientError Response
send net http r =
    if net.builds r.method r.url
    then elim (net.exchange http r) [ none ↦ err transport | some a ↦ ok a ]
    else err build_request

-- The header `Authorization` and one more.
unfoldable pub headers_with : Client → Text → Text → List (Text × Text)
headers_with c name value = (text "Authorization", text "Bearer " ++ c.token) ∷ (name, value) ∷ []

unfoldable pub bundle_request : Client → Request
bundle_request c = record {
  method = text "GET";
  url = bundle_url c;
  headers = headers_with c (text "Accept") (text "application/json");
  content = [];
}

-- `FetchBundle` behind `Do`.
unfoldable pub bundle_of : Response → Result ClientError Text
bundle_of r = read_limited max_bundle_bytes r >>= λ body.
    if r.status == 200 then ok body else err (unexpected_status r.status (truncate body 200))

unfoldable pub fetch_bundle : Net → Client → Result ClientError Text
fetch_bundle net c = send net c.http_client (bundle_request c) >>= bundle_of

unfoldable pub report_request : Client → Text → Request
report_request c body = record {
  method = text "POST";
  url = health_url c;
  headers = headers_with c (text "Content-Type") (text "application/json");
  content = body;
}

-- `ReportHealth` behind `Do`.
unfoldable pub accepted : Response → Result ClientError Text
accepted r =
    if ltb r.status 200 || leb 300 r.status
    then err (unexpected_status r.status (read_excerpt r))
    else ok []

-- `ReportHealth` behind `json.Marshal`.
unfoldable pub post_report : Net → Client → Text → Result ClientError Text
post_report net c body = send net c.http_client (report_request c body) >>= accepted

abbrev pub marshalled : Option Text → Result ClientError Text
marshalled none = err marshal_report
marshalled (some body) = ok body

-- `ReportHealth`, with the empty text for the error nil.
unfoldable pub report_health :
    (HealthReport → Option Text) → Net → Client → HealthReport → Result ClientError Text
report_health marshal net c report = marshalled (marshal report) >>= post_report net c

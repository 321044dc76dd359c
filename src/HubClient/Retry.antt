-- ===== src/HubClient/Retry.antt =====
-- `doWithRetry` of internal/hubclient/client.go and what it uses. `net/http` and the timer are a
-- parameter: the link to the hub, with a state of its own. Times are milliseconds, a body is bytes.
use Prim.Native.Nat.{◌*◌, ◌^◌}
use bear_sync.Prelude.{
  ℕ, zero, suc, String, Bool, true, false, not, ◌||◌, Option, none, some, List, ◌==◌, ltb, nat_eq,
  take, if◌then◌else◌,
}
use Prim.Native.String.{◌++◌ as ◌<>◌}

abbrev pub max_retries : ℕ
max_retries = 3

abbrev pub base_delay : ℕ
base_delay = 500

abbrev pub max_delay : ℕ
max_delay = 10000

pub record HttpRequest : Type 0 where
  pub method : String
  pub url : String
  pub authorization : String
  pub content_type : Option String
  pub body : Option (List ℕ)

-- An answer of the hub. If `cut_off`, reading its body ends with an error after these bytes.
pub record Response : Type 0 where
  pub status_code : ℕ
  pub body : List ℕ
  pub cut_off : Bool

-- What `httpClient.Do` returns: an error, which may be that of the context, or an answer.
pub data Exchange : Type 0 where
  broken : Bool → String → Exchange
  responds : Response → Exchange

-- `NewRequestWithContext` is `accepts`; `sleep` returns whether the context ended the wait; `error_of`
-- is the field `error` of a JSON object.
pub record HubLink : Type 1 where
  pub State : Type 0
  pub accepts : HttpRequest → Bool
  pub send : State → HttpRequest → State × Exchange
  pub sleep : State → ℕ → State × Bool
  pub error_of : List ℕ → Option String
  pub text_of : List ℕ → String

-- The last error of the attempts, which is nil at first.
pub data Cause : Type 0 where
  no_cause : Cause
  transport : String → Cause
  api_error : ℕ → String → Cause

pub data HubError : Type 0 where
  marshal_failed bad_request retry_wait decode_failed read_failed : HubError
  request_ended : String → HubError
  exhausted : Cause → HubError
  answered_error : Cause → HubError
  too_large : String → HubError

pub data Outcome {ℓ} (A : Type ℓ) : Type ℓ where
  failed : HubError → Outcome A
  returned : A → Outcome A

unfoldable pub backoff_delay : ℕ → ℕ
backoff_delay attempt =
    let delay = base_delay * (2 ^ attempt) in if ltb max_delay delay then max_delay else delay

unfoldable pub is_transient_status : ℕ → Bool
is_transient_status code = nat_eq code 429 || nat_eq code 502 || nat_eq code 503 || nat_eq code 504

module _ (L : HubLink) where
  -- `parseErrorResponse`, which reads 4096 bytes.
  unfoldable pub parse_error_response : Response → Cause
  parse_error_response r =
      let body = take 4096 r.body in
      elim (L.error_of body) [
        | none ↦ api_error r.status_code (L.text_of body)
        | some e ↦
            if e == "" then api_error r.status_code (L.text_of body) else api_error r.status_code e
      ]

  -- The wait before the next attempt.
  abbrev pub wait :
      ℕ
      → (Cause → L.State → L.State × Outcome Response)
      → Cause
      → L.State
      → L.State × Outcome Response
  wait attempt next cause s =
      let (s', ended) = L.sleep s (backoff_delay attempt) in
      if ended then (s', failed retry_wait) else next cause s'

  -- What the body of the loop does with the answer; `next` is the rest of the loop.
  abbrev pub judge :
      ℕ
      → (Cause → L.State → L.State × Outcome Response)
      → L.State × Exchange
      → L.State × Outcome Response
  judge attempt next (s, broken true e) = (s, failed (request_ended e))
  judge attempt next (s, broken false e) = wait attempt next (transport e) s
  judge attempt next (s, responds r) =
      if is_transient_status r.status_code
      then wait attempt next (parse_error_response r) s
      else (s, returned r)

  -- The attempts that are left, from the one with this number on.
  unfoldable pub attempts : HttpRequest → ℕ → ℕ → Cause → L.State → L.State × Outcome Response
  unfolding backoff_delay is_transient_status parse_error_response
  attempts req zero attempt last s = (s, failed (exhausted last))
  attempts req (suc left) attempt last s =
      let next = attempts req left (suc attempt) in
      if L.accepts req then judge attempt next (L.send s req) else (s, failed bad_request)

-- `HTTPClient`
pub record HttpClient : Type 0 where
  pub base_url : String
  pub token : String

abbrev pub is_sent : Option (List ℕ) → String → Bool
is_sent none method = false
is_sent (some body) method = not (method == "GET")

unfoldable pub do_with_retry :
    (L : HubLink)
    → HttpClient
    → String
    → String
    → Option (List ℕ)
    → L.State
    → L.State × Outcome Response
unfolding attempts
do_with_retry L c method path body s =
    attempts L
      (record {
        method = method;
        url = c.base_url <> path;
        authorization = "Bearer " <> c.token;
        content_type = if is_sent body method then some "application/json" else none;
        body = body;
      })
      max_retries 0 no_cause s

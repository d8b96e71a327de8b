-- ===== src/Proxy/Session.antt =====
-- proxy/pd_proxy.py: sessions, their metrics, and what is sent to both engines. Times are numbers.
-- The values of a JSON body that the code looks into are a value, a list or an object of such;
-- numbers are natural.
pub mod Routing
pub mod Records
pub mod Bodies
use mtsc.Common.{
  ◌>>◌, ◌>>=◌, text_append, nat_eq, string_eq, ◌∷◌, ◌||◌, ◌>>=◌, ◌==◌, ◌++◌, ℕ, value_error,
  type_error, true, str, some, remove, raise, put, or_else, ok, num, not, none, min, length,
  is_some, if◌then◌else◌, has, guard, get, false, bool, [], Value, String, Result, Option, List,
  Dict,
}

pub record PrefillEndpoint : Type 0 where
  pub api_url : String
  pub engine_id : String
  pub bootstrap_addr : String
  pub dp_rank : Option ℕ

pub record DecodeEndpoint : Type 0 where
  pub api_url : String

pub data Json : Type 0 where
  scalar : Value → Json
  array : List Value → Json
  object : Dict String Value → Json

abbrev pub Body : Type 0
Body = Dict String Json

-- The fields that the code decides by; the other times only go into the record.
pub record RequestMetrics : Type 0 where
  pub request_id : String
  pub client_request_id : Option String
  pub transfer_id : String
  pub endpoint : String
  pub prefill : PrefillEndpoint
  pub decode : DecodeEndpoint
  pub request_end_at : Option ℕ
  pub outcome : String
  pub error_stage : Option String
  pub error_type : Option String
  pub error_message : Option String

pub record TransferSession : Type 0 where
  pub request_id : String
  pub transfer_id : String
  pub prefill : PrefillEndpoint
  pub decode : DecodeEndpoint
  pub metrics : RequestMetrics

-- A cycle is the list of its elements from the next one on. `records` is what was handed to the
-- metrics writer, the last one first.
pub record PdProxy : Type 0 where
  pub prefill_cycle : List PrefillEndpoint
  pub decode_cycle : List DecodeEndpoint
  pub backend_token : Option String
  pub sessions : Dict String TransferSession
  pub records : List RequestMetrics

-- next(itertools.cycle(...))
unfoldable pub next_of {ℓ} : {A : Type ℓ} → List A → Option (A × List A)
next_of [] = none
next_of (x ∷ xs) = some (x, xs ++ x ∷ [])

-- PDProxy.__init__
unfoldable pub new_proxy :
    List PrefillEndpoint → List DecodeEndpoint → Option String → ℕ → Result PdProxy
new_proxy prefill decode backend_token first_token_timeout = do
  guard (not (length prefill == 0 || length decode == 0))
      (value_error "At least one Prefill and one Decode endpoint are required")
  guard (not (first_token_timeout == 0)) (value_error "first_token_timeout must be positive")
  ok (record {
    prefill_cycle = prefill;
    decode_cycle = decode;
    backend_token = backend_token;
    sessions = [];
    records = [];
  })

new_metrics : String → Option String → String → PrefillEndpoint → DecodeEndpoint → RequestMetrics
new_metrics request_id client_request_id route prefill decode = record {
  request_id = request_id;
  client_request_id = client_request_id;
  transfer_id = text_append "xfer-" request_id;
  endpoint = route;
  prefill = prefill;
  decode = decode;
  request_end_at = none;
  outcome = "running";
  error_stage = none;
  error_type = none;
  error_message = none;
}

-- `_new_session`; the request id is a fresh one. The empty cycles do not occur, see `new_proxy`.
unfoldable pub new_session :
    PdProxy → String → Option String → String → Option (TransferSession × PdProxy)
unfolding new_metrics next_of
new_session p request_id client_request_id route = elim (next_of p.prefill_cycle) [
  | none ↦ none
  | some (prefill, prefills) ↦ elim (next_of p.decode_cycle) [
    | none ↦ none
    | some (decode, decodes) ↦
        let metrics = new_metrics request_id client_request_id route prefill decode in
        let session : TransferSession = record {
          request_id = request_id;
          transfer_id = metrics.transfer_id;
          prefill = prefill;
          decode = decode;
          metrics = metrics;
        } in
        some (
          session,
          record p {
            prefill_cycle = prefills;
            decode_cycle = decodes;
            sessions = put p.sessions request_id session;
          },
        )
  ]
]

abbrev pub with_authorization : Dict String String → Option String → Dict String String
with_authorization headers none = headers
with_authorization headers (some value) =
    if value == "" then headers else put headers "Authorization" value

unfoldable pub authorization_of : Option String → Option String → Option String
authorization_of none authorization = authorization
authorization_of (some token) authorization =
    if token == "" then authorization else some (text_append "Bearer " token)

-- `authorization` is the header of the client's request.
unfoldable pub headers : PdProxy → TransferSession → Option String → Dict String String
unfolding authorization_of
headers p session authorization =
    with_authorization
      (("Content-Type", "application/json") ∷ ("X-Request-Id", session.request_id) ∷ [])
      (authorization_of p.backend_token authorization)

-- min(value, 1): a text, a list or an object has no order with a number.
unfoldable pub at_most_one : Json → Result Json
at_most_one (scalar (num n)) = ok (scalar (num (min n 1)))
at_most_one (scalar (bool b)) = ok (scalar (bool b))
at_most_one _ = raise (type_error "'<' not supported")

unfoldable pub prefill_params : TransferSession → Dict String Value
prefill_params session =
    ("do_remote_decode", bool true)
    ∷ ("do_remote_prefill", bool false)
    ∷ ("transfer_id", str session.transfer_id)
    ∷ []

unfoldable pub cap_min_tokens : Body → Result Body
unfolding at_most_one
cap_min_tokens body = elim (get body "min_tokens") [
  | none ↦ ok body
  | some value ↦ at_most_one value >>= λ capped. ok (put body "min_tokens" capped)
]

unfoldable pub prefill_body : Body → TransferSession → Result Body
unfolding cap_min_tokens prefill_params
prefill_body body session = do
  result ← cap_min_tokens (
      put (remove (put body "stream" (scalar (bool false))) "stream_options") "max_tokens"
        (scalar (num 1)))
  let capped =
      if has result "max_completion_tokens"
      then put result "max_completion_tokens" (scalar (num 1))
      else result
  ok (put capped "kv_transfer_params" (object (prefill_params session)))

unfoldable pub decode_params : TransferSession → Dict String Value
decode_params session =
    ("do_remote_decode", bool false)
    ∷ ("do_remote_prefill", bool true)
    ∷ ("remote_engine_id", str session.prefill.engine_id)
    ∷ ("remote_bootstrap_addr", str session.prefill.bootstrap_addr)
    ∷ ("remote_dp_rank", num (or_else session.prefill.dp_rank 0))
    ∷ ("transfer_id", str session.transfer_id)
    ∷ []

unfoldable pub decode_body : Body → TransferSession → Body
unfolding decode_params
decode_body body session = put body "kv_transfer_params" (object (decode_params session))

-- The error of a failed request: the name of its class and its message.
pub record Failure : Type 0 where
  pub name : String
  pub message : String

unfoldable pub close_metrics :
    RequestMetrics → ℕ → String → Option Failure → Option String → RequestMetrics
close_metrics m now outcome none stage = record m { request_end_at = some now; outcome = outcome }
close_metrics m now outcome (some failure) stage = record m {
  request_end_at = some now;
  outcome = outcome;
  error_stage = stage;
  error_type = some failure.name;
  error_message = some failure.message;
}

-- `_finish`
unfoldable pub finish :
    PdProxy
    → RequestMetrics
    → ℕ
    → String
    → Option Failure
    → Option String
    → RequestMetrics × PdProxy
unfolding close_metrics
finish p m now outcome failure stage =
    if is_some m.request_end_at
    then (m, p)
    else let closed = close_metrics m now outcome failure stage in
      (closed, record p { sessions = remove p.sessions m.request_id; records = closed ∷ p.records })

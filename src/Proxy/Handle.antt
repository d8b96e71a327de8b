-- ===== src/Proxy/Handle.antt =====
-- proxy/pd_proxy.py: `_handle`, from a client's request to the answer or to the stream. What the tasks
-- and waits come to is an argument; the calls of `_finish` are noted in their order. That the client
-- goes away while the last handler winds up is not modelled.
pub mod Finished
use mtsc.Proxy.Stream.{timeout, other, cancelled, Raised}
use mtsc.Proxy.Session.Records.{finish_all, FinishCall}
use mtsc.Common.{
  string_eq, ◌∷◌, ◌&&◌, ℕ, to_text, text_append, some, raise, ok, num, none, ltb, leb,
  if◌then◌else◌, [], String, Result, Option, List, Error, Bool,
}
use mtsc.Proxy.Session.{
  prefill_body, object, TransferSession, RequestMetrics, PdProxy, Failure, Body,
}

-- What `raw_request.json()` comes to; `except Exception` does not catch a CancelledError.
pub data Payload : Type 0 where
  cancelled_body : Payload
  invalid : Failure → Payload
  not_object : Payload
  body_of : Body → Payload

-- A client's request; `http_exception` is FastAPI's exception for a status and a detail.
pub record RawRequest : Type 0 where
  pub is_json : Bool
  pub payload : Payload
  pub http_exception : ℕ → String → Failure

-- How the decode engine's headers end: by an exception, or with a status.
pub data HeadersEnd : Type 0 where
  no_headers : Raised → HeadersEnd
  got_status : ℕ → HeadersEnd

-- What happens between both engines and the proxy: an exception of the first wait; the prefill when
-- that wait ends, if it is done; the headers; the payload of an error with the text of its first 512 bytes,
-- or the exception of reading it and of winding up; and the prefill once the headers are there, if it is done.
pub record Exchange : Type 0 where
  pub now : ℕ
  pub wait_error : Option Raised
  pub prefill_first : Option (Option Raised)
  pub headers_end : HeadersEnd
  pub payload_end : String × String × Option Raised
  pub prefill_then : Option (Option Raised)

-- What the client gets: FastAPI's exception, a JSON answer, the decode engine's answer passed on, the
-- stream, an exception that a handler passes on, one that no handler sees, or, when the request was
-- cancelled while its body was read, nothing.
pub data Reply : Type 0 where
  http_error : ℕ → Reply
  json_response : ℕ → String → Reply
  passed_on : ℕ → String → Reply
  streaming : ℕ → Reply
  reraised : Raised → Reply
  unhandled : Error → Reply
  abandoned : Reply

-- The class of an exception and its text.
abbrev raised_failure : Raised → Failure
raised_failure cancelled = record { name = "CancelledError"; message = "" }
raised_failure timeout = record { name = "TimeoutError"; message = "" }
raised_failure (other failure) = failure

abbrev call : ℕ → String → Failure → String → FinishCall
call now outcome failure stage = (now, outcome, some failure, some stage)

abbrev bad_gateway : Raised → Reply
bad_gateway exc = json_response 502 (raised_failure exc).message

-- The last handler: what else goes wrong is taken for an error of the decode engine.
unfoldable pub decode_failed : ℕ → Raised → Reply × List FinishCall
decode_failed now cancelled =
    (reraised cancelled, call now "decode_error" (raised_failure cancelled) "decode" ∷ [])
decode_failed now timeout =
    (bad_gateway timeout, call now "timeout" (raised_failure timeout) "decode" ∷ [])
decode_failed now (other failure) =
    (bad_gateway (other failure), call now "decode_error" failure "decode" ∷ [])

-- The prefill failed before the headers came: a cancellation goes on to the last handler.
unfoldable pub prefill_failed : ℕ → Raised → Reply × List FinishCall
prefill_failed now cancelled =
    let (reply, calls) = decode_failed now cancelled in
    (reply, call now "prefill_error" (raised_failure cancelled) "prefill" ∷ calls)
prefill_failed now exc =
    (bad_gateway exc, call now "prefill_error" (raised_failure exc) "prefill" ∷ [])

unfoldable pub pass_on : ℕ → ℕ → String × String × Option Raised → Reply × List FinishCall
pass_on now status (payload, excerpt, some exc) = decode_failed now exc
pass_on now status (payload, excerpt, none) = (
  passed_on status payload,
  call now "decode_error"
        (record {
          name = "RuntimeError";
          message =
              text_append "Decode returned HTTP "
                (text_append (to_text (num status)) (text_append ": " excerpt));
        })
        "decode"
      ∷ [],
)

unfoldable pub start_stream : ℕ → ℕ → Option (Option Raised) → Reply × List FinishCall
start_stream now status (some (some exc)) =
    (bad_gateway exc, call now "prefill_error" (raised_failure exc) "prefill" ∷ [])
start_stream now status _ = (streaming status, [])

unfoldable pub await_headers : Exchange → HeadersEnd → Reply × List FinishCall
await_headers e (no_headers exc) = decode_failed e.now exc
await_headers e (got_status status) =
    if leb 200 status && ltb status 300
    then start_stream e.now status e.prefill_then
    else pass_on e.now status e.payload_end

unfoldable pub after_wait : Exchange → Option (Option Raised) → Reply × List FinishCall
after_wait e (some (some exc)) = prefill_failed e.now exc
after_wait e _ = await_headers e e.headers_end

unfoldable pub exchange : Exchange → Option Raised → Reply × List FinishCall
exchange e (some exc) = decode_failed e.now exc
exchange e none = after_wait e e.prefill_first

-- Both bodies are built before a task is started.
unfoldable pub forward : Exchange → Result Body → Reply × List FinishCall
forward e (raise problem) = (unhandled problem, [])
forward e (ok p_body) = exchange e e.wait_error

unfoldable pub respond_body :
    TransferSession → RawRequest → Exchange → Payload → Reply × List FinishCall
respond_body session raw e cancelled_body = (abandoned, [])
respond_body session raw e (invalid failure) =
    (json_response 400 "invalid JSON", call e.now "proxy_error" failure "request" ∷ [])
respond_body session raw e not_object = (
  http_error 400,
  call e.now "proxy_error" (raw.http_exception 400 "JSON object required") "request" ∷ [],
)
respond_body session raw e (body_of body) = forward e (prefill_body body session)

unfoldable pub respond : TransferSession → RawRequest → Exchange → Reply × List FinishCall
respond session raw e = if raw.is_json then respond_body session raw e raw.payload else (
  http_error 415,
  call e.now "proxy_error" (raw.http_exception 415 "application/json required") "request" ∷ [],
)

-- `_handle` of a request for which this session was opened.
unfoldable pub handle :
    TransferSession → PdProxy → RawRequest → Exchange → Reply × (RequestMetrics × PdProxy)
handle session opened raw e =
    let (reply, calls) = respond session raw e in (reply, finish_all opened session.metrics calls)

-- ===== src/Tests/Handle.antt =====
-- Runs of the proxy's handler: the first wait is interrupted, and a body that it does not get past.
use mtsc.Proxy.Session.Records.{finish_all}
use mtsc.Proxy.Handle.Finished.{handle-IsHandled, IsHandled}
use mtsc.Proxy.Handle.{
  cancelled_body, abandoned, unhandled, respond_body, respond, passed_on, pass_on, handle,
  got_status, forward, exchange, body_of, await_headers, after_wait, RawRequest, Exchange,
}
use mtsc.Common.{
  nat_eq, string_eq, ◌≡◌, ◌∷◌, true, remove, refl, raise, put, null, none, get, [], Error,
}
use mtsc.Proxy.Session.{
  scalar, prefill_body, cap_min_tokens, at_most_one, TransferSession, RequestMetrics, PdProxy, Body,
}

abbrev metrics_h : RequestMetrics
metrics_h = record {
  request_id = "h";
  client_request_id = none;
  transfer_id = "xfer-h";
  endpoint = "/v1/completions";
  prefill = record { api_url = "p"; engine_id = "p1"; bootstrap_addr = "b"; dp_rank = none };
  decode = record { api_url = "d" };
  request_end_at = none;
  outcome = "running";
  error_stage = none;
  error_type = none;
  error_message = none;
}

abbrev session_h : TransferSession
session_h = record {
  request_id = "h";
  transfer_id = "xfer-h";
  prefill = metrics_h.prefill;
  decode = metrics_h.decode;
  metrics = metrics_h;
}

abbrev opened_h : PdProxy
opened_h = record {
  prefill_cycle = [];
  decode_cycle = [];
  backend_token = none;
  sessions = ("h", session_h) ∷ [];
  records = [];
}

abbrev asks : Body → RawRequest
asks body = record {
  is_json = true;
  payload = body_of body;
  http_exception = λ status detail. record { name = "HTTPException"; message = detail };
}

-- The decode engine answers 503 while the prefill runs.
abbrev unavailable : Exchange
unavailable = record {
  now = 7;
  wait_error = none;
  prefill_first = none;
  headers_end = got_status 503;
  payload_end = ("busy", "busy", none);
  prefill_then = none;
}

handle-IsHandled_example :
    IsHandled session_h opened_h
      (handle session_h opened_h (asks []) unavailable).0
      (handle session_h opened_h (asks []) unavailable).1
    × ((problem : Error)
        → (handle session_h opened_h (asks []) unavailable).0 ≡ unhandled problem
        → (body : Body) × ((asks []).payload ≡ body_of body)
          × (prefill_body body session_h ≡ raise problem))
    × ((handle session_h opened_h (asks []) unavailable).0 ≡ abandoned
        → (asks []).payload ≡ cancelled_body)
handle-IsHandled_example = handle-IsHandled session_h opened_h (asks []) unavailable refl

passes_on : (handle session_h opened_h (asks []) unavailable).0 ≡ passed_on 503 "busy"
unfolding handle respond respond_body forward exchange after_wait await_headers pass_on prefill_body
    cap_min_tokens get put remove
passes_on = refl

-- `"min_tokens": null` has no order with 1: the session stays, and nothing is recorded.
abbrev null_min_tokens : Body
null_min_tokens = ("min_tokens", scalar null) ∷ []

leaks_session :
    (handle session_h opened_h (asks null_min_tokens) unavailable).1 ≡ (metrics_h, opened_h)
unfolding handle respond respond_body forward prefill_body cap_min_tokens at_most_one get put remove
    finish_all
leaks_session = refl

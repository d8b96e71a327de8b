-- ===== src/Tests/Proxy.antt =====
-- Tests of proxy/pd_proxy.py.
use mtsc.Scheduler.Admission.{validate_transfer_params}
use mtsc.Proxy.Session.Records.{first_record, finish_all-once, finish_all}
use mtsc.Proxy.Session.Bodies.{is_cappable, decode_params-validate_transfer_params}
use mtsc.Proxy.Session.Routing.{serve-at_turn, serve, prefill_of, decode_of, at_turn}
use mtsc.Scheduler.State.{params_of, Request}
use mtsc.Common.{
  map_option, nat_eq, string_eq, ◌≡◌, ◌∷◌, ◌↔◌, ◌==◌, truthy, true, str, some, refl, param, ok, num,
  none, is_blank, if◌then◌else◌, get_elem?, get, false, bool, arith, [], String, Option, List,
}
use mtsc.Proxy.Stream.{
  stream_outcome, StreamEnd, stream_decode-IsRelayed, stream_decode, stop_iteration, read_chunk,
  end_stream, done, data_chunk, await_prefill, Wait, IsRelayed,
}
use mtsc.Proxy.Session.{
  scalar, prefill_params, decode_params, TransferSession, RequestMetrics, PrefillEndpoint, PdProxy,
  Body,
}

abbrev first_prefill : PrefillEndpoint
first_prefill = record {
  api_url = "http://p1:8000";
  engine_id = "p1";
  bootstrap_addr = "http://p1:8998";
  dp_rank = none;
}

abbrev second_prefill : PrefillEndpoint
second_prefill = record first_prefill {
  api_url = "http://p2:8000";
  engine_id = "p2";
  dp_rank = some 1;
}

abbrev proxy : PdProxy
proxy = record {
  prefill_cycle = first_prefill ∷ second_prefill ∷ [];
  decode_cycle = (record { api_url = "http://d:8000" }) ∷ [];
  backend_token = none;
  sessions = [];
  records = [];
}

abbrev three_requests : List (String × Option String × String)
three_requests =
    ("a", none, "/v1/completions")
    ∷ ("b", none, "/v1/completions")
    ∷ ("c", some "client", "/v1/chat/completions")
    ∷ []

serve-at_turn_example :
    (prefill_of (get_elem? (serve proxy three_requests).0 2) ≡ at_turn proxy.prefill_cycle 2)
    × (decode_of (get_elem? (serve proxy three_requests).0 2) ≡ at_turn proxy.decode_cycle 2)
serve-at_turn_example =
    serve-at_turn proxy three_requests 2 (omega arith) (omega arith) (omega arith)

abbrev first_metrics : RequestMetrics
first_metrics = record {
  request_id = "a";
  client_request_id = none;
  transfer_id = "xfer-a";
  endpoint = "/v1/completions";
  prefill = first_prefill;
  decode = record { api_url = "http://d:8000" };
  request_end_at = none;
  outcome = "running";
  error_stage = none;
  error_type = none;
  error_message = none;
}

abbrev first_session : TransferSession
first_session = record {
  request_id = "a";
  transfer_id = "xfer-a";
  prefill = first_prefill;
  decode = record { api_url = "http://d:8000" };
  metrics = first_metrics;
}

abbrev client_body : Body
client_body =
    ("model", scalar (str "m"))
    ∷ ("stream", scalar (bool true))
    ∷ ("min_tokens", scalar (num 5))
    ∷ ("max_completion_tokens", scalar (num 100))
    ∷ []

cappable_body : is_cappable (get client_body "min_tokens") ≡ true
unfolding get
cappable_body = refl

abbrev sending : Request
sending = record {
  request_id = "a";
  num_prompt_tokens = 2;
  prompt_token_ids = some (1 ∷ 2 ∷ []);
  prompt_embeds = none;
  all_token_ids = 1 ∷ 2 ∷ [];
  max_tokens = 1;
  block_hashes = [];
  kv_transfer_params = some (prefill_params first_session);
  finished_length_capped = false;
}

abbrev pulling : Request
pulling = record sending { kv_transfer_params = some (decode_params first_session) }

decode_params-validate_transfer_params_example :
    (truthy (param (params_of sending) "do_remote_decode") ≡ true)
    × (truthy (param (params_of sending) "do_remote_prefill") ≡ false)
    × (truthy (param (params_of pulling) "do_remote_decode") ≡ false)
    × (truthy (param (params_of pulling) "do_remote_prefill") ≡ true)
    × (param (params_of sending) "transfer_id" ≡ param (params_of pulling) "transfer_id")
    × ((validate_transfer_params pulling ≡ ok tt)
        ↔ ((is_blank "p1" ≡ false) × (is_blank "http://p1:8998" ≡ false)))
decode_params-validate_transfer_params_example =
    decode_params-validate_transfer_params first_session sending pulling refl refl

finish_all-once_example :
    let closed = first_record first_metrics 7 "success" none none in
    let (m', p') =
      finish_all proxy first_metrics
        ((7, "success", none, none) ∷ (8, "client_cancelled", none, some "client") ∷ []) in
    (m' ≡ closed)
    × (p'.records ≡ closed ∷ [])
    × ((request_id : String)
        → get p'.sessions request_id
          ≡ (if "a" == request_id then none else get proxy.sessions request_id))
finish_all-once_example =
    finish_all-once proxy first_metrics 7 "success" none none
      ((8, "client_cancelled", none, some "client") ∷ []) refl

abbrev two_chunks : List Wait
two_chunks =
    done none (some (data_chunk "x")) stop_iteration
    ∷ done (some none) none (data_chunk "y")
    ∷ done none (some stop_iteration) stop_iteration
    ∷ []

streamed :
    stream_decode true two_chunks none
    ≡ some ("x" ∷ "y" ∷ [], record { failure_stage = "decode"; raised = none })
unfolding stream_decode await_prefill read_chunk end_stream
streamed = refl

stream_decode-IsRelayed_example : IsRelayed true two_chunks none ("x" ∷ "y" ∷ [])
stream_decode-IsRelayed_example =
    stream_decode-IsRelayed true two_chunks none ("x" ∷ "y" ∷ [])
      (record { failure_stage = "decode"; raised = none }) streamed refl

-- The prefill ends while the last read is under way: the stream has sent everything, and yet it ends
-- as an error of the decode engine.
late_end :
    map_option
      (λ (result : List String × StreamEnd). stream_outcome result.1)
      (stream_decode true
        (done none (some (data_chunk "x")) stop_iteration
          ∷ done (some none) none stop_iteration
          ∷ [])
        none)
    ≡ some ("decode_error", some "decode")
unfolding stream_decode await_prefill read_chunk end_stream stream_outcome
late_end = refl

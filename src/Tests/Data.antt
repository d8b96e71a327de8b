-- ===== src/Tests/Data.antt =====
-- Test data: a scheduler of a prefill and decode engine with blocks of 16 tokens.
use mtsc.Scheduler.Saves.{SchedulerOutput}
use mtsc.Common.{
  nat_eq, string_eq, ◌∷◌, ◌==◌, ℕ, true, str, some, replicate, raise, pos, ok, none, min,
  if◌then◌else◌, false, bool, arith, [], String, Result,
}
use mtsc.Protocol.{MtscConnectorMetadata}
use mtsc.Scheduler.Admission.Decisions.{LookupLaws}
use mtsc.Scheduler.State.{init, TrackedRequest, Scheduler, Request, LookupOps, Config}

-- A Store that has the first `hit` tokens of every prompt.
abbrev pub prefix_ops : LookupOps ℕ
prefix_ops = record {
  lookup = λ hit id tokens hashes asynchronous. (some (min hit tokens), hit);
  discard = λ hit id. hit;
}

pub prefix_laws : LookupLaws prefix_ops (λ client id tokens. Unit)
prefix_laws = record {
  bounded = λ client client' id tokens hashes asynchronous hit fits h. ground (arith, h);
  lookup_fits = λ client id other_id tokens bound hashes asynchronous more fits. tt;
  discard_fits = λ client id other_id bound fits. tt;
}

abbrev pub both_roles : Config
both_roles = record {
  is_producer = true;
  is_consumer = true;
  decode_save = true;
  lookup_async = false;
  block_size = 16;
  group_block_sizes = 16 ∷ [];
  blocks_per_sliding_window = 0 ∷ [];
  has_mamba = false;
  expected_load_workers = 1;
}

-- A prompt of 40 tokens that decode worker `d` pulls from a prefill worker.
abbrev pub pulling : Request
pulling = record {
  request_id = "d";
  num_prompt_tokens = 40;
  prompt_token_ids = none;
  prompt_embeds = none;
  all_token_ids = replicate 40 7;
  max_tokens = 100;
  block_hashes = (1 ∷ []) ∷ (2 ∷ []) ∷ [];
  kv_transfer_params = some (
      ("do_remote_prefill", bool true)
      ∷ ("transfer_id", str "x-d")
      ∷ ("remote_bootstrap_addr", str "http://p:8998")
      ∷ ("remote_engine_id", str "p-0")
      ∷ []);
  finished_length_capped = false;
}

-- The prefill side of such a request, stopped after its one token.
abbrev pub prefilled : Request
prefilled = record pulling {
  request_id = "p";
  kv_transfer_params = some (("do_remote_decode", bool true) ∷ ("transfer_id", str "x-d") ∷ []);
  finished_length_capped = true;
}

abbrev pub object_of : String → Request
object_of id = if id == "p" then prefilled else record pulling { request_id = id }

abbrev pub tracked_p : TrackedRequest
tracked_p = record {
  request = "p";
  block_ids = (pos 3 ∷ pos 4 ∷ pos 5 ∷ []) ∷ [];
  saved_tokens = 0;
  is_decode = false;
}

-- Request "p" runs, "q" waits to be loaded.
abbrev pub running : Scheduler ℕ
running = record (init both_roles 32) {
  tracked_requests = ("p", tracked_p) ∷ ("q", record tracked_p { request = "q" }) ∷ [];
  next_load_id = 4;
  batch_pool_loads =
      (record {
        request_id = "q";
        block_ids = (pos 8 ∷ pos 9 ∷ []) ∷ [];
        block_hashes = (1 ∷ []) ∷ (2 ∷ []) ∷ [];
        start_token = 0;
        end_token = 32;
        load_id = 4;
      })
      ∷ [];
}

abbrev pub one_step : SchedulerOutput
one_step = record {
  scheduled_new_reqs = [];
  cached = (record { req_id = "p"; new_block_ids = none; num_computed_tokens = 0 }) ∷ [];
  num_scheduled_tokens = ("p", 40) ∷ [];
  finished_req_ids = [];
  preempted_req_ids = some ("q" ∷ []);
}

abbrev pub no_metadata : MtscConnectorMetadata
no_metadata = record {
  pool_loads = [];
  pool_saves = [];
  transfer_plans = [];
  transfer_states = [];
  finished_waits = [];
  finished_request_ids = [];
  preempted_request_ids = [];
}

-- The value of a call that does not raise.
abbrev pub value_or {ℓ} : {A : Type ℓ} → A → Result A → A
value_or d (ok a) = a
value_or d (raise e) = d

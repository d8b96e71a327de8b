-- ===== src/Scheduler/State.antt =====
-- mtsc/scheduler.py: the state of `MTSCScheduler`, and what it reads of vLLM's requests.
-- A request object is named by its identifier; the state refers to it by that name, and an
-- operation that reads it later is given the objects as they are then.
use mtsc.Common.{
  ℕ, String, Bool, Option, none, some, List, [], ◌∷◌, Dict, Value, ℤ, string_eq, put, length,
}
use mtsc.Protocol.{
  BlockIds, BlockHash, KvPoolLoadSpec, KvPoolLoadRequest, KvPoolSaveRequest, KvTransferPlan,
  KvTransferSourceState, FinishedWait, MtscLoadReport,
}

-- The fields of vLLM's `Request` that the scheduler uses; `num_tokens` is the property
-- `len(_all_token_ids)`.
pub record Request : Type 0 where
  pub request_id : String
  pub num_prompt_tokens : ℕ
  pub prompt_token_ids : Option (List ℕ)
  pub prompt_embeds : Option (List ℕ)
  pub all_token_ids : List ℕ
  pub max_tokens : ℕ
  pub block_hashes : List BlockHash
  pub kv_transfer_params : Option (Dict String Value)
  pub finished_length_capped : Bool

abbrev pub num_tokens : Request → ℕ
num_tokens request = length request.all_token_ids

-- request.kv_transfer_params or {}
abbrev pub params_of : Request → Dict String Value
params_of request = elim request.kv_transfer_params [ none ↦ [] | some params ↦ params ]

write_param : Option (Dict String Value) → String → Value → Option (Dict String Value)
write_param none name value = none
write_param (some []) name value = some []
write_param (some (entry ∷ params)) name value = some (put (entry ∷ params) name value)

-- params[name] = value; a dictionary made by `or {}` is not the request's
unfoldable pub set_param : Request → String → Value → Request
unfolding write_param
set_param request name value = record request {
  kv_transfer_params = write_param request.kv_transfer_params name value;
}

pub record TransferSpec : Type 0 where
  pub computed_tokens : ℕ
  pub pool_hit_tokens : ℕ
  pub target_tokens : ℕ

-- `request` names the request object.
pub record TrackedRequest : Type 0 where
  pub request : String
  pub block_ids : BlockIds
  pub saved_tokens : ℕ
  pub is_decode : Bool

pub record LoadTrace : Type 0 where
  pub load_id : ℕ
  pub role : String
  pub prompt_tokens : ℕ
  pub target_tokens : ℕ
  pub transfer_id : Value
  pub reports : Dict ℕ MtscLoadReport

-- What a block table comes as: a tuple or list of groups, or one flat list.
pub data BlockTable : Type 0 where
  grouped : BlockIds → BlockTable
  flat : List ℤ → BlockTable

unfoldable pub groups : BlockTable → BlockIds
groups (grouped ids) = ids
groups (flat ids) = ids ∷ []

-- What `__init__` computes from the configuration.
pub record Config : Type 0 where
  pub is_producer : Bool
  pub is_consumer : Bool
  pub decode_save : Bool
  pub lookup_async : Bool
  pub block_size : ℕ
  pub group_block_sizes : List ℕ
  pub blocks_per_sliding_window : List ℕ
  pub has_mamba : Bool
  pub expected_load_workers : ℕ

-- What the scheduler asks of its lookup client, whose state is a `C`.
pub record LookupOps (C : Type 0) : Type 0 where
  pub lookup : C → String → ℕ → List BlockHash → Bool → Option ℕ × C
  pub discard : C → String → C

pub record Scheduler (C : Type 0) : Type 0 where
  pub config : Config
  pub open config use *
  pub lookup_client : C
  pub tracked_requests : Dict String TrackedRequest
  pub load_traces : Dict String LoadTrace
  pub next_load_id : ℕ
  pub transfer_decisions : Dict String TransferSpec
  pub load_decisions : Dict String KvPoolLoadSpec
  pub batch_pool_saves : List KvPoolSaveRequest
  pub batch_pool_loads : List KvPoolLoadRequest
  pub batch_transfers : List KvTransferPlan
  pub batch_transfer_state : List KvTransferSourceState
  pub finished_waits : Dict String FinishedWait
  pub saving_requests : List String
  pub transferring_requests : List String
  pub delayed_releases : List String

-- The dictionaries and lists that `__init__` makes.
unfoldable pub init : {C : Type 0} → Config → C → Scheduler C
init config client = record {
  config = config;
  lookup_client = client;
  tracked_requests = [];
  load_traces = [];
  next_load_id = 0;
  transfer_decisions = [];
  load_decisions = [];
  batch_pool_saves = [];
  batch_pool_loads = [];
  batch_transfers = [];
  batch_transfer_state = [];
  finished_waits = [];
  saving_requests = [];
  transferring_requests = [];
  delayed_releases = [];
}

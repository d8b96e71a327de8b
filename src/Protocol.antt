-- ===== src/Protocol.antt =====
-- mtsc/protocol.py: the metadata that the scheduler and the worker exchange, and the requests and
-- responses between a decode worker and a prefill worker. Tuples of lists are lists of lists; times
-- are numbers of milliseconds.
use mtsc.Common.{ℕ, String, Bool, Option, List, ◌++◌, Dict, Value, ℤ}

-- One list of block identifiers for each KV cache group.
abbrev pub BlockIds : Type 0
BlockIds = List (List ℤ)

-- The bytes of a hash.
abbrev pub BlockHash : Type 0
BlockHash = List ℕ

pub record KvPoolLoadSpec : Type 0 where
  pub computed_tokens : ℕ
  pub pool_hit_tokens : ℕ

pub record KvPoolLoadRequest : Type 0 where
  pub request_id : String
  pub block_ids : BlockIds
  pub block_hashes : List BlockHash
  pub start_token : ℕ
  pub end_token : ℕ
  pub load_id : ℕ

pub record KvPoolSaveRequest : Type 0 where
  pub request_id : String
  pub block_ids : BlockIds
  pub block_hashes : List BlockHash
  pub start_token : ℕ
  pub end_token : ℕ
  pub prompt_tokens : Option ℕ

pub record KvTransferPlan : Type 0 where
  pub request_id : String
  pub transfer_id : String
  pub computed_tokens : ℕ
  pub pool_hit_tokens : ℕ
  pub target_tokens : ℕ
  pub all_block_ids : BlockIds
  pub external_block_ids : BlockIds
  pub group_block_sizes : List ℕ
  pub blocks_per_sliding_window : List ℕ
  pub transfer_params : Dict String Value
  pub load_id : ℕ

-- `store_tokens` and `pd_tokens` are differences of token counts, which stop at 0 here.
pub record MtscLoadReport : Type 0 where
  pub request_id : String
  pub load_id : ℕ
  pub worker_rank : ℕ
  pub local_tokens : ℕ
  pub store_tokens : ℕ
  pub pd_tokens : ℕ
  pub store_ms : ℕ
  pub pd_ms : ℕ
  pub total_ms : ℕ
  pub store_status : String
  pub status : String

pub record MtscWorkerMetadata : Type 0 where
  pub load_reports : List MtscLoadReport

pub aggregate : MtscWorkerMetadata → MtscWorkerMetadata → MtscWorkerMetadata
aggregate self other = record { load_reports = self.load_reports ++ other.load_reports }

pub record KvTransferSourceState : Type 0 where
  pub request_id : String
  pub transfer_id : String
  pub source_block_ids : BlockIds
  pub ready : Bool
  pub cancelled : Bool

pub record FinishedWait : Type 0 where
  pub store_save : Bool
  pub kv_transfer : Bool

pub record MtscConnectorMetadata : Type 0 where
  pub pool_loads : List KvPoolLoadRequest
  pub pool_saves : List KvPoolSaveRequest
  pub transfer_plans : List KvTransferPlan
  pub transfer_states : List KvTransferSourceState
  pub finished_waits : Dict String FinishedWait
  pub finished_request_ids : List String
  pub preempted_request_ids : List String

pub data KvTransferStatus : Type 0 where
  finish continue error : KvTransferStatus

pub record KvTransferRequest : Type 0 where
  pub remote_hostname : String
  pub remote_port : ℕ
  pub remote_tp_size : ℕ
  pub remote_tp_rank : ℕ
  pub req_blocks : Dict String (String × BlockIds)
  pub kv_caches_base_addr : List ℕ
  pub block_lens : List ℕ

pub record KvTransferResponse : Type 0 where
  pub status : KvTransferStatus
  pub ok_reqs : Option (List String)
  pub err_reqs : Option (List String)
  pub err_msg : Option String

-- ===== src/Worker/State.antt =====
-- mtsc/worker.py: the state of `MTSCWorker`, and the events and results that it exchanges with the
-- pool and the transfer (mtsc/kv_cache_pool.py, mtsc/kv_transfer.py).
use mtsc.Common.{int_eq, nat_eq, string_eq, ◌||◌, ◌&&◌, ℤ, ℕ, not, String, Option, List, Dict, Bool}
use mtsc.Protocol.{
  MtscLoadReport, KvTransferPlan, KvPoolSaveRequest, KvPoolLoadRequest, FinishedWait, BlockIds,
  BlockHash,
}

pub record LoadEvent : Type 0 where
  pub request_id : String
  pub block_ids : BlockIds
  pub block_hashes : List BlockHash
  pub start_load : ℕ
  pub end_load : ℕ

-- `ready_event` names a device event.
pub record SaveEvent : Type 0 where
  pub request_id : String
  pub block_ids : BlockIds
  pub block_hashes : List BlockHash
  pub start_save : ℕ
  pub end_save : ℕ
  pub ready_event : Option (List ℕ)
  pub prompt_tokens : Option ℕ

pub record LoadResult : Type 0 where
  pub request_id : String
  pub loaded_tokens : ℕ
  pub error : Option String
  pub elapsed_ms : ℕ

pub record SaveResult : Type 0 where
  pub request_id : String
  pub error : Option String

pub record SendEvent : Type 0 where
  pub request_id : String
  pub transfer_id : String
  pub block_ids : BlockIds

pub record RecvEvent : Type 0 where
  pub request_id : String
  pub transfer_id : String
  pub block_ids : BlockIds
  pub bootstrap_addr : String
  pub remote_engine_id : String
  pub remote_dp_rank : ℕ

pub record TransferResult : Type 0 where
  pub request_id : String
  pub error : Option String

pub data Stage : Type 0 where
  pool_loading pool_done transfer_loading : Stage

pub record TransferState : Type 0 where
  pub plan : KvTransferPlan
  pub stage : Stage
  pub suffix_block_ids : BlockIds
  pub load_started_at : ℕ
  pub store_ms : ℕ
  pub store_status : String
  pub pd_started_at : ℕ
  pub actual_pool_prefix : ℕ

pub record FinishedWaitState : Type 0 where
  pub wait_for : FinishedWait
  pub pool_save_done : Bool
  pub kv_transfer_done : Bool

unfoldable pub is_finished : FinishedWaitState → Bool
is_finished state =
    (not state.wait_for.store_save || state.pool_save_done)
    && (not state.wait_for.kv_transfer || state.kv_transfer_done)

-- What the worker has handed to the pool and the transfer, in order.
pub data BackendCall : Type 0 where
  pool_load : LoadEvent → BackendCall
  pool_save : SaveEvent → BackendCall
  pool_preempt : String → BackendCall
  transfer_recv : List RecvEvent → BackendCall
  transfer_send : SendEvent → BackendCall
  transfer_prepare : String → String → BackendCall
  transfer_cancel : String → String → BackendCall
  transfer_preempt : String → BackendCall

-- `calls` records the calls of `self.pool` and `self.transfer`.
pub record Worker : Type 0 where
  pub calls : List BackendCall
  pub on_load_requests : Dict String KvPoolLoadRequest
  pub on_save_requests : Dict String KvPoolSaveRequest
  pub on_transfer : Dict String TransferState
  pub finished_waits : Dict String FinishedWaitState
  pub load_errors : List ℤ
  pub worker_rank : ℕ
  pub completed_load_reports : List MtscLoadReport

-- What one round of polling brings: the results and invalid blocks of both backends.
pub record Polled : Type 0 where
  pub loads : List LoadResult
  pub saves : List SaveResult
  pub pool_errors : List ℤ
  pub recvs : List TransferResult
  pub sends : List TransferResult
  pub transfer_errors : List ℤ

-- ===== src/Scheduler/Release.antt =====
-- mtsc/scheduler.py: `request_finished`, which says whether the blocks of a request must wait, and
-- `update_connector_output`, which takes in what the workers report.
pub mod Delay
use mtsc.Common.{
  ℕ, String, Bool, true, false, not, ◌&&◌, ◌||◌, Option, none, some, List, [], ◌∷◌, ◌++◌, Dict,
  truthy, param, to_text, any_of, length, if◌then◌else◌, get, put, remove, remove_all, add, discard,
  difference, member, string_eq, nat_eq, ◌==◌,
}
use mtsc.Protocol.{
  BlockIds, KvTransferSourceState, FinishedWait, MtscLoadReport, MtscWorkerMetadata,
}
use mtsc.Scheduler.State.{Request, Scheduler, LoadTrace, params_of}

abbrev is_nonempty {ℓ} : {A : Type ℓ} → List A → Bool
is_nonempty [] = false
is_nonempty (x ∷ xs) = true

-- any(block_ids): some group has a block
abbrev pub has_blocks : BlockIds → Bool
has_blocks = any_of is_nonempty

-- A prefill request that a decode worker may pull from.
abbrev pub is_source : {C : Type 0} → Scheduler C → Request → Bool
is_source s r =
    s.is_producer
    && truthy (param (params_of r) "transfer_id")
    && truthy (param (params_of r) "do_remote_decode")

-- The last word on the source: its blocks, or that there are none to read.
final_source : Request → BlockIds → Bool → KvTransferSourceState
final_source r block_ids readable = record {
  request_id = r.request_id;
  transfer_id = to_text (param (params_of r) "transfer_id");
  source_block_ids = if readable then block_ids else [];
  ready = readable;
  cancelled = not readable;
}

-- A trace is complete, and is dropped, when every worker has reported.
settle : ℕ → Dict String LoadTrace → String → LoadTrace → Dict String LoadTrace
settle workers traces id trace =
    if length trace.reports == workers then remove traces id else put traces id trace

-- A report of an attempt other than the current one is dropped.
record_report :
    ℕ → Dict String LoadTrace → MtscLoadReport → Option LoadTrace → Dict String LoadTrace
unfolding settle
record_report workers traces report none = traces
record_report workers traces report (some trace) =
    if trace.load_id == report.load_id
    then settle workers traces report.request_id
        (record trace { reports = put trace.reports report.worker_rank report })
    else traces

record_reports : ℕ → Dict String LoadTrace → List MtscLoadReport → Dict String LoadTrace
unfolding record_report
record_reports workers traces [] = traces
record_reports workers traces (report ∷ reports) =
    record_reports workers (record_report workers traces report (get traces report.request_id))
      reports

reports_of : Option MtscWorkerMetadata → List MtscLoadReport
reports_of none = []
reports_of (some metadata) = metadata.load_reports

-- output.finished_sending or set()
abbrev pub completed_ids : Option (List String) → List String
completed_ids none = []
completed_ids (some ids) = ids

module _ {C : Type 0} where
  forget_request : Scheduler C → String → Scheduler C
  forget_request s id = record s {
    load_traces = remove s.load_traces id;
    tracked_requests = remove s.tracked_requests id;
    saving_requests = discard s.saving_requests id;
    transferring_requests = discard s.transferring_requests id;
  }

  delay_release : Scheduler C → String → FinishedWait → Scheduler C
  delay_release s id wait = record s {
    finished_waits = put s.finished_waits id wait;
    delayed_releases = add s.delayed_releases id;
  }

  -- true: the blocks stay until the worker reports that it has finished sending
  unfoldable pub request_finished : Scheduler C → Request → BlockIds → Bool × Scheduler C
  unfolding forget_request delay_release final_source
  request_finished s r block_ids =
      let readable = r.finished_length_capped && has_blocks block_ids in
      let transfer_delay = is_source s r && readable in
      let s' =
        if is_source s r
        then record s {
          batch_transfer_state = s.batch_transfer_state ++ final_source r block_ids readable ∷ [];
        }
        else s in
      let save_delay = member r.request_id s.saving_requests && has_blocks block_ids in
      if save_delay || transfer_delay
      then (
        true,
        delay_release s' r.request_id
            (record { store_save = save_delay; kv_transfer = transfer_delay }),
      )
      else (false, forget_request s' r.request_id)

  unfoldable pub update_connector_output :
      Scheduler C → Option MtscWorkerMetadata → Option (List String) → Scheduler C
  unfolding record_reports reports_of
  update_connector_output s metadata finished_sending =
      let completed = completed_ids finished_sending in
      record s {
        load_traces =
            remove_all (record_reports s.expected_load_workers s.load_traces (reports_of metadata))
              completed;
        finished_waits = remove_all s.finished_waits completed;
        delayed_releases = difference s.delayed_releases completed;
        tracked_requests = remove_all s.tracked_requests completed;
        saving_requests = difference s.saving_requests completed;
        transferring_requests = difference s.transferring_requests completed;
      }

  pub has_pending_push_work : Scheduler C → Bool
  has_pending_push_work s = is_nonempty s.delayed_releases

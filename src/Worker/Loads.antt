-- ===== src/Worker/Loads.antt =====
-- mtsc/worker.py: the two stages of a decode load, from the Store and then from the prefill worker.
pub mod Frame
use mtsc.Scheduler.Allocation.Plan.{started}
use mtsc.Scheduler.State.{groups}
use mtsc.Worker.State.{
  transfer_recv, transfer_loading, pool_loading, pool_done, Worker, TransferState, TransferResult,
  RecvEvent, LoadResult,
}
use mtsc.Common.{
  key_error, type_error, ◌>>=◌, str, raise, ok, null, not, bool, Result, int_eq, nat_eq, string_eq,
  ◌∷◌, ◌==◌, ◌-◌, ◌++◌, ℤ, ℕ, update, to_text, some, slice, remove, put, param, num, none, min, ltb,
  length, keep_if, is_natural, if◌then◌else◌, has, get, drop, cdiv, add, [], Value, String, Option,
  List, Dict,
}
use mtsc.Protocol.{error, MtscLoadReport, KvTransferPlan, KvPoolLoadRequest, BlockIds}

-- group[start:end] with `end` cut at the group's length
candidate_blocks : ℕ → ℕ → ℕ → List ℤ → List ℤ
candidate_blocks computed hit block_size group_ids =
    let start = cdiv computed block_size in
    let end = min (cdiv hit block_size) (length group_ids) in slice start end group_ids

-- The zip of the plan's groups with their block sizes.
candidate_groups : ℕ → ℕ → BlockIds → List ℕ → List ℤ
unfolding candidate_blocks
candidate_groups computed hit (group ∷ groups) (size ∷ sizes) =
    candidate_blocks computed hit size group ++ candidate_groups computed hit groups sizes
candidate_groups computed hit _ _ = []

-- The blocks that the pool stage writes; the same failures are left to the transfer.
unfoldable pub pool_candidate_block_ids : KvTransferPlan → List ℤ
unfolding candidate_groups
pool_candidate_block_ids plan =
    candidate_groups plan.computed_tokens plan.pool_hit_tokens plan.all_block_ids
      plan.group_block_sizes

-- `suffix[-window:]` if there is a window
unfoldable pub last_window : ℕ → List ℤ → List ℤ
last_window window suffix = if window == 0 then suffix else drop (length suffix - window) suffix

unfoldable pub suffix_groups : ℕ → BlockIds → List ℕ → List ℕ → BlockIds
unfolding last_window
suffix_groups offset (group ∷ groups) (size ∷ sizes) (window ∷ windows) =
    last_window window (drop (cdiv offset size) group) ∷ suffix_groups offset groups sizes windows
suffix_groups offset _ _ _ = []

-- The blocks that the Store has not filled.
unfoldable pub suffix_blocks : KvTransferPlan → ℕ → BlockIds
suffix_blocks plan actual_pool_prefix =
    suffix_groups (actual_pool_prefix - plan.computed_tokens) plan.external_block_ids
      plan.group_block_sizes plan.blocks_per_sliding_window

-- params[name]
param_at : Dict String Value → String → Result Value
param_at params name = elim (get params name) [
  | none ↦ raise (key_error name)
  | some value ↦ ok value
]

-- int(value); what Python reads from a text is an argument.
int_of : (String → Result ℕ) → Value → Result ℕ
int_of int_of_text null = raise (type_error "int() argument must not be None")
int_of int_of_text (bool b) = ok (if b then 1 else 0)
int_of int_of_text (num n) = ok n
int_of int_of_text (str text) = int_of_text text

-- int(params.get("remote_dp_rank", 0))
dp_rank_of : (String → Result ℕ) → Dict String Value → Result ℕ
unfolding int_of
dp_rank_of int_of_text params = elim (get params "remote_dp_rank") [
  | none ↦ ok 0
  | some value ↦ int_of int_of_text value
]

recv_event : (String → Result ℕ) → KvTransferPlan → BlockIds → Result RecvEvent
unfolding param_at dp_rank_of
recv_event int_of_text plan suffix = do
  addr ← param_at plan.transfer_params "remote_bootstrap_addr"
  engine ← param_at plan.transfer_params "remote_engine_id"
  rank ← dp_rank_of int_of_text plan.transfer_params
  ok (record {
    request_id = plan.request_id;
    transfer_id = plan.transfer_id;
    block_ids = suffix;
    bootstrap_addr = to_text addr;
    remote_engine_id = to_text engine;
    remote_dp_rank = rank;
  })

-- The rest of a start, once the event is made or its making has raised. `now` is the reading of the
-- clock.
begin_transfer : ℕ → TransferState → Result RecvEvent → TransferState × Result RecvEvent
begin_transfer now state (raise problem) = (state, raise problem)
begin_transfer now state (ok event) =
    (record state { stage = transfer_loading; pd_started_at = now }, ok event)

unfoldable pub start_transfer :
    (String → Result ℕ) → ℕ → TransferState → ℕ → TransferState × Result RecvEvent
unfolding recv_event begin_transfer
start_transfer int_of_text now state actual_pool_prefix =
    let suffix = suffix_blocks state.plan actual_pool_prefix in
    begin_transfer now
      (record state { suffix_block_ids = suffix; actual_pool_prefix = actual_pool_prefix })
      (recv_event int_of_text state.plan suffix)

-- {result.request_id: result for result in results}
unfoldable pub by_request : List LoadResult → Dict String LoadResult
by_request results = index [] results
  where
    index : Dict String LoadResult → List LoadResult → Dict String LoadResult
    index d [] = d
    index d (result ∷ rest) = index (put d result.request_id result) rest

abbrev status_of : Option String → String
status_of none = "ok"
status_of (some problem) = if problem == "" then "ok" else "error"

pool_report : ℕ → KvPoolLoadRequest → LoadResult → MtscLoadReport
pool_report rank load result = record {
  request_id = result.request_id;
  load_id = load.load_id;
  worker_rank = rank;
  local_tokens = load.start_token;
  store_tokens = result.loaded_tokens - load.start_token;
  pd_tokens = 0;
  store_ms = result.elapsed_ms;
  pd_ms = 0;
  total_ms = result.elapsed_ms;
  store_status = status_of result.error;
  status = status_of result.error;
}

report_if : ℕ → Option KvPoolLoadRequest → LoadResult → List MtscLoadReport
unfolding pool_report
report_if rank none result = []
report_if rank (some load) result = pool_report rank load result ∷ []

-- A pool load that no transfer follows is done; its result is reported.
unfoldable pub finish_load : Worker × List String → String × LoadResult → Worker × List String
unfolding report_if
finish_load (w, finished) (id, result) =
    let w' = record w { on_load_requests = remove w.on_load_requests id } in
    if has w.on_transfer id then (w', finished) else (
      record w' {
        completed_load_reports =
            w.completed_load_reports ++ report_if w.worker_rank (get w.on_load_requests id) result;
      },
      add finished id,
    )

start_loaded :
    (String → Result ℕ)
    → ℕ
    → TransferState
    → Option LoadResult
    → Option (TransferState × Result RecvEvent)
start_loaded int_of_text now state none = none
start_loaded int_of_text now state (some result) = some (
    start_transfer int_of_text now
      (record state { store_ms = result.elapsed_ms; store_status = status_of result.error })
      result.loaded_tokens)

-- A transfer starts when it has no pool stage, or when the result of that stage is in.
unfoldable pub advance :
    (String → Result ℕ)
    → ℕ
    → Dict String LoadResult
    → String
    → TransferState
    → Option (TransferState × Result RecvEvent)
unfolding start_loaded
advance int_of_text now results id state = elim state.stage [
  | pool_done ↦ some (start_transfer int_of_text now state state.plan.computed_tokens)
  | pool_loading ↦ start_loaded int_of_text now state (get results id)
  | transfer_loading ↦ none
]

-- The transfers and the events, with one more transfer in front. An exception leaves the transfers
-- after it as they were.
add_started :
    String
    → TransferState × Result RecvEvent
    → Dict String TransferState
    → Dict String TransferState × Result (List RecvEvent)
    → Dict String TransferState × Result (List RecvEvent)
add_started id (state, raise problem) states later = ((id, state) ∷ states, raise problem)
add_started id (state, ok event) states (states', events) =
    ((id, state) ∷ states', events >>= λ rest. ok (event ∷ rest))

-- One pass over the transfers: those that start change their stage and emit their event.
unfoldable pub start_ready :
    (String → Result ℕ)
    → ℕ
    → Dict String LoadResult
    → Dict String TransferState
    → Dict String TransferState × Result (List RecvEvent)
unfolding advance add_started
start_ready int_of_text now results [] = ([], ok [])
start_ready int_of_text now results ((id, state) ∷ states) =
    let later = start_ready int_of_text now results states in
    elim (advance int_of_text now results id state) [
      | none ↦ ((id, state) ∷ later.0, later.1)
      | some entry ↦ add_started id entry states later
    ]

transfer_report : ℕ → ℕ → String → TransferState → Option String → MtscLoadReport
transfer_report rank now id state problem = record {
  request_id = id;
  load_id = state.plan.load_id;
  worker_rank = rank;
  local_tokens = state.plan.computed_tokens;
  store_tokens = state.actual_pool_prefix - state.plan.computed_tokens;
  pd_tokens = state.plan.target_tokens - state.actual_pool_prefix;
  store_ms = state.store_ms;
  pd_ms = now - state.pd_started_at;
  total_ms = now - state.load_started_at;
  store_status = state.store_status;
  status = status_of problem;
}

-- {block for group in groups for block in group if block >= 0}
unfoldable pub natural_blocks : BlockIds → List ℤ
natural_blocks [] = []
natural_blocks (group ∷ groups) = keep_if is_natural group ++ natural_blocks groups

-- The blocks of a failed transfer are load errors.
failed_blocks : TransferState → Option String → List ℤ
failed_blocks state none = []
failed_blocks state (some problem) = natural_blocks state.suffix_block_ids

unfoldable pub finish_transfer :
    ℕ → Worker × List String → TransferResult → Option TransferState → Worker × List String
unfolding transfer_report failed_blocks
finish_transfer now (w, finished) result none = (w, finished)
finish_transfer now (w, finished) result (some state) = (
  record w {
    on_transfer = remove w.on_transfer result.request_id;
    completed_load_reports =
        w.completed_load_reports
        ++ transfer_report w.worker_rank now result.request_id state result.error ∷ [];
    load_errors = update w.load_errors (failed_blocks state result.error);
  },
  if ltb state.plan.computed_tokens state.plan.target_tokens
      then add finished result.request_id
      else finished,
)

unfoldable pub finish_loads : Worker × List String → Dict String LoadResult → Worker × List String
unfolding finish_load
finish_loads acc [] = acc
finish_loads acc (entry ∷ entries) = finish_loads (finish_load acc entry) entries

unfoldable pub finish_transfers :
    ℕ → Worker × List String → List TransferResult → Worker × List String
unfolding finish_transfer
finish_transfers now acc [] = acc
finish_transfers now (w, finished) (result ∷ results) =
    finish_transfers now
      (finish_transfer now (w, finished) result (get w.on_transfer result.request_id)) results

-- `if recv_events:` the transfer is called once with all of them
unfoldable pub receive : Worker → List RecvEvent → Worker
receive w [] = w
receive w (event ∷ events) = record w { calls = w.calls ++ transfer_recv (event ∷ events) ∷ [] }

-- The events that were made before an exception are lost with it.
unfoldable pub receive_all : Worker → Result (List RecvEvent) → Worker × Result (Unit {0})
unfolding receive
receive_all w (raise problem) = (w, raise problem)
receive_all w (ok events) = (receive w events, ok tt)

unfoldable pub start_transfers :
    (String → Result ℕ) → ℕ → Dict String LoadResult → Worker → Worker × Result (Unit {0})
unfolding start_ready receive_all
start_transfers int_of_text now results w =
    let (states, events) = start_ready int_of_text now results w.on_transfer in
    receive_all (record w { on_transfer = states }) events

-- Nothing is finished where a start has raised.
unfoldable pub finish_started :
    ℕ
    → List String
    → List TransferResult
    → Worker × Result (Unit {0})
    → Worker × Result (List String)
unfolding finish_transfers
finish_started finished_at finished recvs (w, raise problem) = (w, raise problem)
finish_started finished_at finished recvs (w, ok done) =
    let (w', received) = finish_transfers finished_at (w, finished) recvs in (w', ok received)

-- The clock is read once for the transfers that start and once for those that end.
unfoldable pub aggregate_recv_finished :
    (String → Result ℕ)
    → ℕ
    → ℕ
    → Worker
    → List LoadResult
    → List TransferResult
    → Worker × Result (List String)
unfolding by_request finish_loads start_transfers finish_started
aggregate_recv_finished int_of_text starts_at ends_at w loads recvs =
    let results = by_request loads in
    let (w', finished) = finish_loads (w, []) results in
    finish_started ends_at finished recvs (start_transfers int_of_text starts_at results w')

-- ===== src/Pool/Loads.antt =====
-- mtsc/kv_cache_pool.py: the loads that run, their results and the blocks they leave invalid, and
-- preemption. What a thread has come to is an argument.
pub mod Results
use mtsc.Tests.Data.{running}
use mtsc.Pool.Chunks.{range_blocks, loaded_prefix}
use mtsc.Scheduler.State.{groups}
use mtsc.Pool.Saves.{save, poll_saves, SaveState, Outcome}
use mtsc.Worker.State.{SaveResult, SaveEvent, LoadResult, LoadEvent}
use mtsc.Common.{
  int_eq, nat_eq, string_eq, ◌∷◌, ◌||◌, ◌>>◌, ◌==◌, ◌-◌, ◌++◌, ℤ, ℕ, value_error, update, true,
  some, slice, remove, raise, put, pos, ok, not, none, negsuc, min, length, leb, keep_if,
  is_natural, if◌then◌else◌, has, guard, false, cdiv, any_of, [], String, Result, Option, List,
  Dict, Bool,
}
use mtsc.Protocol.{BlockIds}

pub record LoadOutcome : Type 0 where
  pub loaded_tokens : ℕ
  pub error : Option String
  pub invalid : List ℤ

pub record LoadState : Type 0 where
  pub event : LoadEvent
  pub started_at : ℕ
  pub timed_out : Bool

-- The pool as `load`, `save`, `poll`, `take_errors` and `preempt` change it.
pub record Pool : Type 0 where
  pub block_sizes : List ℕ
  pub num_blocks : ℕ
  pub load_timeout : ℕ
  pub loads : Dict String LoadState
  pub save_states : Dict String SaveState
  pub invalid : Dict String (List ℤ)

-- A block past the registered memory.
outside : ℕ → ℤ → Bool
outside num_blocks (pos n) = leb num_blocks n
outside num_blocks (negsuc n) = false

-- The pool is open and registered, and token numbers are not negative.
unfoldable pub validate : Pool → BlockIds → ℕ → ℕ → Result (Unit {0})
unfolding outside
validate pool block_ids start end =
    guard (leb start end) (value_error "Invalid KV token range")
    >> guard (length block_ids == length pool.block_sizes)
        (value_error "KV group count does not match registered layout")
    >> guard (not (any_of (any_of (outside pool.num_blocks)) block_ids))
        (value_error "KV block ID exceeds registered memory")

unfoldable pub load : ℕ → Pool → LoadEvent → Result Pool
load now pool event =
    validate pool event.block_ids event.start_load event.end_load
    >> (if has pool.loads event.request_id || has pool.invalid event.request_id
        then raise (value_error "Uncollected load for the request")
        else ok (record pool {
          loads =
              put pool.loads event.request_id
                (record { event = event; started_at = now; timed_out = false });
        }))

-- The blocks that the load was to write; the end is cut at the group.
unfoldable pub request_load_blocks : LoadEvent → BlockIds → List ℕ → List ℤ
request_load_blocks event (ids ∷ groups) (size ∷ sizes) =
    keep_if is_natural
      (slice (cdiv event.start_load size) (min (cdiv event.end_load size) (length ids)) ids)
    ++ request_load_blocks event groups sizes
request_load_blocks event _ _ = []

flatten : BlockIds → List ℤ
flatten [] = []
flatten (group ∷ groups) = group ++ flatten groups

-- What the Store said of a load: the blocks that failed, or the text of an exception.
pub data StoreAnswer : Type 0 where
  failed_blocks : List ℤ → StoreAnswer
  store_error : String → StoreAnswer

outcome_of : List ℕ → LoadEvent → List ℤ → Option String → LoadOutcome
unfolding flatten
outcome_of block_sizes event failed error =
    let actual = loaded_prefix event block_sizes failed in
    record {
      loaded_tokens = actual;
      error = error;
      invalid =
          update [] (flatten (range_blocks event.block_ids block_sizes actual event.end_load));
    }

miss_of : List ℤ → Option String
miss_of [] = none
miss_of (block ∷ blocks) = some "Mooncake load missed or failed"

unfoldable pub load_work : List ℕ → LoadEvent → StoreAnswer → LoadOutcome
unfolding outcome_of miss_of
load_work block_sizes event (failed_blocks failed) =
    outcome_of block_sizes event failed (miss_of failed)
load_work block_sizes event (store_error problem) =
    outcome_of block_sizes event (request_load_blocks event event.block_ids block_sizes)
      (some problem)

-- The outcome of a load that has ended; one that ran out of time counts as failed as a whole.
unfoldable pub final_outcome : List ℕ → LoadState → LoadOutcome → LoadOutcome
final_outcome block_sizes state outcome =
    if state.timed_out
    then record {
      loaded_tokens = state.event.start_load;
      error = some "Mooncake load timed out (I/O fenced)";
      invalid = update [] (request_load_blocks state.event state.event.block_ids block_sizes);
    }
    else outcome

-- A load that runs on may run out of time.
unfoldable pub poll_running : ℕ → ℕ → LoadState → LoadState
poll_running now load_timeout state =
    if leb load_timeout (now - state.started_at) then record state { timed_out = true } else state

-- The blocks of a request that are not to be used, if any.
unfoldable pub note_invalid : Dict String (List ℤ) → String → List ℤ → Dict String (List ℤ)
note_invalid invalid id [] = invalid
note_invalid invalid id (block ∷ blocks) = put invalid id (block ∷ blocks)

unfoldable pub load_result : ℕ → String → LoadState → LoadOutcome → LoadResult
load_result now id state outcome = record {
  request_id = id;
  loaded_tokens = outcome.loaded_tokens;
  error = outcome.error;
  elapsed_ms = now - state.started_at;
}

-- `answers` has what the thread of each load has come to.
unfoldable pub poll_loads :
    ℕ
    → Pool
    → (String → Option LoadOutcome)
    → Dict String LoadState
    → Dict String (List ℤ)
    → Dict String LoadState × Dict String (List ℤ) × List LoadResult
unfolding note_invalid load_result
poll_loads now pool answers [] invalid = ([], invalid, [])
poll_loads now pool answers ((id, state) ∷ loads) invalid =
    let noted = elim (answers id) as (λ _. Dict String (List ℤ)) [
      | none ↦ invalid
      | some outcome ↦
          note_invalid invalid id (final_outcome pool.block_sizes state outcome).invalid
    ] in
    let (running, invalid', results) = poll_loads now pool answers loads noted in
    elim (answers id) [
      | none ↦ ((id, poll_running now pool.load_timeout state) ∷ running, invalid', results)
      | some outcome ↦ (
        running,
        invalid',
        load_result now id state (final_outcome pool.block_sizes state outcome) ∷ results,
      )
    ]

unfoldable pub poll :
    ℕ
    → (String → Option LoadOutcome)
    → (String → Outcome)
    → Pool
    → Pool × List LoadResult × List SaveResult
poll now answers outcomes pool =
    let (running, invalid, loads) = poll_loads now pool answers pool.loads pool.invalid in
    let (states, saves) = poll_saves outcomes pool.save_states in
    (record pool { loads = running; invalid = invalid; save_states = states }, loads, saves)

all_blocks : Dict String (List ℤ) → List ℤ
all_blocks [] = []
all_blocks ((id, blocks) ∷ invalid) = blocks ++ all_blocks invalid

unfoldable pub take_errors : Pool → Pool × List ℤ
unfolding all_blocks
take_errors pool = (record pool { invalid = [] }, update [] (all_blocks pool.invalid))

-- What still runs is waited for; its result is dropped.
unfoldable pub preempt : Pool → String → Pool
preempt pool request_id = record pool {
  loads = remove pool.loads request_id;
  save_states = remove pool.save_states request_id;
  invalid = remove pool.invalid request_id;
}

unfoldable pub submit_save : Outcome → Pool → SaveEvent → Result Pool
submit_save outcome pool event =
    validate pool event.block_ids event.start_save event.end_save
    >> ok (record pool { save_states = save pool.block_sizes outcome pool.save_states event })

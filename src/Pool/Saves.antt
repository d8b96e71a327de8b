-- ===== src/Pool/Saves.antt =====
-- mtsc/kv_cache_pool.py: the queue of saves of each request. The threads that run them are not
-- modelled: what a running save has come to is an argument of the operations that look at it.
pub mod Coverage
use mtsc.Worker.State.{SaveResult, SaveEvent}
use mtsc.Common.{
  list_eq, int_eq, nat_eq, string_eq, ◌∷◌, ◌==◌, ◌++◌, ◌&&◌, ℕ, update, true, text_append, some,
  put, not, none, min, max, ltb, length, leb, is_prefix, if◌then◌else◌, get, false, cdiv, [],
  String, Option, List, Dict, Bool,
}
use mtsc.Protocol.{error, BlockIds}

-- What a running save has come to: none while it runs, then the text of its exception, if any.
abbrev pub Outcome : Type 0
Outcome = Option (Option String)

-- The times of a state are only logged.
pub record SaveState : Type 0 where
  pub running : Option SaveEvent
  pub pending : List SaveEvent
  pub errors : List String
  pub start_token : ℕ
  pub end_token : ℕ

same_prompt : Option ℕ → Option ℕ → Bool
same_prompt none none = true
same_prompt (some a) (some b) = a == b
same_prompt _ _ = false

-- Every group of the new event has the blocks up to `end`, and begins with those of the old one.
-- The zip of the groups, which both have one of for each size.
blocks_extend : ℕ → BlockIds → BlockIds → List ℕ → Bool
blocks_extend end (older ∷ olds) (newer ∷ news) (size ∷ sizes) =
    leb (cdiv end size) (length newer) && is_prefix older newer && blocks_extend end olds news sizes
blocks_extend end _ _ _ = true

unfoldable pub can_merge : SaveEvent → SaveEvent → List ℕ → Bool
unfolding same_prompt blocks_extend
can_merge old new block_sizes =
    same_prompt old.prompt_tokens new.prompt_tokens
    && leb (max old.start_save new.start_save) (min old.end_save new.end_save)
    && not (ltb new.end_save (max old.end_save new.end_save))
    && not (ltb (length new.block_hashes) (length old.block_hashes))
    && is_prefix old.block_hashes new.block_hashes
    && blocks_extend (max old.end_save new.end_save) old.block_ids new.block_ids block_sizes

signals_of : Option (List ℕ) → List ℕ
signals_of none = []
signals_of (some signals) = signals

ready_signals : List ℕ → Option (List ℕ)
ready_signals [] = none
ready_signals (signal ∷ signals) = some (signal ∷ signals)

-- Two saves as one that waits for the signals of both.
unfoldable pub merge : SaveEvent → SaveEvent → List ℕ → Option SaveEvent
unfolding signals_of ready_signals
merge old new block_sizes =
    if can_merge old new block_sizes
    then some (record new {
      start_save = min old.start_save new.start_save;
      end_save = max old.end_save new.end_save;
      ready_event =
          ready_signals
            (update (update [] (signals_of old.ready_event)) (signals_of new.ready_event));
    })
    else none

-- The last save that waits takes the new one up, or it waits behind it.
unfoldable pub enqueue : List ℕ → List SaveEvent → SaveEvent → List SaveEvent
enqueue sizes [] event = event ∷ []
enqueue sizes (old ∷ []) event = elim (merge old event sizes) [
  | none ↦ old ∷ event ∷ []
  | some merged ↦ merged ∷ []
]
enqueue sizes (old ∷ next ∷ rest) event = old ∷ enqueue sizes (next ∷ rest) event

-- The first save that waits starts.
start_next : SaveState → SaveState
start_next state = elim state.pending [
  | [] ↦ state
  | event ∷ pending ↦ record state { running = some event; pending = pending }
]

add_error : List String → Option String → List String
add_error errors none = errors
add_error errors (some problem) = errors ++ problem ∷ []

unfoldable pub advance_save : Outcome → SaveState → SaveState
unfolding start_next add_error
advance_save outcome state = elim state.running [
  | none ↦ start_next state
  | some event ↦ elim outcome [
    | none ↦ state
    | some problem ↦
        start_next (record state { running = none; errors = add_error state.errors problem })
  ]
]

new_state : SaveEvent → SaveState
new_state event = record {
  running = none;
  pending = [];
  errors = [];
  start_token = event.start_save;
  end_token = event.end_save;
}

widen : SaveEvent → SaveState → SaveState
widen event state = record state {
  start_token = min state.start_token event.start_save;
  end_token = max state.end_token event.end_save;
}

-- The state of the request, which a first save creates, with the event in its queue.
unfoldable pub queued : List ℕ → SaveEvent → Option SaveState → SaveState
unfolding new_state widen
queued sizes event none = record (new_state event) { pending = enqueue sizes [] event }
queued sizes event (some state) = record (widen event state) {
  pending = enqueue sizes state.pending event;
}

-- An event that `_validate` has let through.
unfoldable pub save : List ℕ → Outcome → Dict String SaveState → SaveEvent → Dict String SaveState
save sizes outcome states event =
    put states event.request_id
      (advance_save outcome (queued sizes event (get states event.request_id)))

-- "; ".join(errors) or None
join_errors : List String → Option String
join_errors errors = let text = joined errors in if text == "" then none else some text
  where
    joined : List String → String
    joined [] = ""
    joined (x ∷ []) = x
    joined (x ∷ y ∷ xs) = text_append x (text_append "; " (joined (y ∷ xs)))

unfoldable pub is_idle : SaveState → Bool
is_idle state = elim state.running [
  | some event ↦ false
  | none ↦ elim state.pending [ [] ↦ true | event ∷ pending ↦ false ]
]

-- Each state advances; the idle ones are reported and dropped.
unfoldable pub poll_saves :
    (String → Outcome) → Dict String SaveState → Dict String SaveState × List SaveResult
unfolding join_errors
poll_saves outcomes [] = ([], [])
poll_saves outcomes ((id, state) ∷ states) =
    let (kept, results) = poll_saves outcomes states in
    let state' = advance_save (outcomes id) state in
    if is_idle state'
    then (kept, record { request_id = id; error = join_errors state'.errors } ∷ results)
    else ((id, state') ∷ kept, results)

-- ===== src/Pool/Loads/Results.antt =====
-- mtsc/kv_cache_pool.py: what a poll reports of the loads.
use mtsc.Lookup.Keys.Present.{answers}
use mtsc.Worker.State.{LoadResult}
use mtsc.Pool.Loads.{
  poll_running, note_invalid, load_result, poll_loads, final_outcome, Pool, LoadState, LoadOutcome,
}
use mtsc.Common.{
  ◌||◌, ◌-◌, leb, inr, inl, arith, Option-cases, int_eq, nat_eq, string_eq, ◌≡◌, ◌∷◌, ◌==◌, ℤ, ℕ,
  some, refl, none, if◌then◌else◌, get, [], Unique, String, Option, List, Dict,
}

-- The tokens that the results report for a request, and the error.
abbrev pub reported : String → List LoadResult → Option (ℕ × Option String)
reported id [] = none
reported id (result ∷ results) =
    let rest = reported id results in
    if result.request_id == id then some (result.loaded_tokens, result.error) else rest

-- What a poll does to a load: it runs on, or it ends, as failed if it had run out of time.
abbrev pub ended : LoadState → LoadOutcome → ℕ × Option String
ended state outcome =
    if state.timed_out
    then (state.event.start_load, some "Mooncake load timed out (I/O fenced)")
    else (outcome.loaded_tokens, outcome.error)

abbrev pub load_step :
    ℕ → ℕ → Option LoadOutcome → Option LoadState → Option (ℕ × Option String) × Option LoadState
load_step now load_timeout answer none = (none, none)
load_step now load_timeout none (some state) = (
  none,
  some (record state { timed_out = state.timed_out || leb load_timeout (now - state.started_at) }),
)
load_step now load_timeout (some outcome) (some state) = (some (ended state outcome), none)

-- A poll reports a load exactly if its thread has ended, and then forgets it. A load that an
-- earlier poll found to have run out of time is reported as having loaded nothing, with an error,
-- whatever its thread came to. Any other load runs on, and has run out of time once the time since
-- its start reaches the limit.
pub poll_loads_lem :
    (now : ℕ) (pool : Pool) (answers : String → Option LoadOutcome) (loads : Dict String LoadState)
    (invalid : Dict String (List ℤ)) (id : String)
    → Unique loads
    → (
      reported id (poll_loads now pool answers loads invalid).2,
      get (poll_loads now pool answers loads invalid).0 id,
    )
      ≡ load_step now pool.load_timeout (answers id) (get loads id)
unfolding poll_loads get final_outcome load_result poll_running
poll_loads_lem now pool answers [] noted id u = refl
poll_loads_lem now pool answers ((j, state) ∷ loads) noted id u = elim (Option-cases (answers j)) [
  | inl going ↦ ground (
    arith,
    going,
    poll_loads_lem now pool answers loads noted id u.1,
    string_eq.beq_iff j id,
    u.0,
  )
  | inr (outcome, ends) ↦ ground (
    arith,
    ends,
    string_eq.beq_iff j id,
    u.0,
    poll_loads_lem now pool answers loads
        (note_invalid noted j (final_outcome pool.block_sizes state outcome).invalid) id u.1,
  )
]

-- ===== src/Tests/Pool.antt =====
-- Tests of mtsc/kv_cache_pool.py.
use mtsc.Pool.Loads.Results.{reported, poll_loads_lem, load_step}
use mtsc.Pool.Loads.{poll_loads, Pool, LoadState, LoadOutcome}
use mtsc.Worker.Loads.{suffix_groups, suffix_blocks, last_window}
use mtsc.Protocol.{KvTransferPlan}
use mtsc.Pool.Handover.{suffix_blocks-loaded_prefix, no_windows, IsPulled}
use mtsc.Pool.Saves.{save}
use mtsc.Pool.Saves.Coverage.{left}
use mtsc.Pool.Chunks.{loaded_prefix, groups_prefix, group_prefix, first_failed}
use mtsc.Pool.Saves.Coverage.{save-left, poll_saves_lem, asks, after_poll}
use mtsc.Pool.Saves.{poll_saves, merge, enqueue, can_merge, SaveState}
use mtsc.Worker.State.{SaveResult, SaveEvent, LoadEvent}
use mtsc.Common.{
  true, Option, nat_eq, string_eq, ◌≤◌, ◌≡◌, ◌∷◌, ◌||◌, ◌==◌, update, some, refl, pos, none, member,
  map, is_prefix, get, false, arith, add, [], Unique, String, Dict,
}
use mtsc.Pool.Chunks.Prefix.{loaded_prefix-AllClean, AllClean}

abbrev two_blocks : LoadEvent
two_blocks = record {
  request_id = "d";
  block_ids = (pos 3 ∷ pos 4 ∷ pos 5 ∷ []) ∷ [];
  block_hashes = (1 ∷ []) ∷ (2 ∷ []) ∷ (3 ∷ []) ∷ [];
  start_load = 16;
  end_load = 48;
}

-- Block 5 failed: the tokens before it are loaded.
reached : loaded_prefix two_blocks (16 ∷ []) (pos 5 ∷ []) ≡ 32
unfolding loaded_prefix groups_prefix group_prefix first_failed member
reached = refl

loaded_prefix-AllClean_example :
    (16 ≤ loaded_prefix two_blocks (16 ∷ []) (pos 5 ∷ []))
    × (loaded_prefix two_blocks (16 ∷ []) (pos 5 ∷ []) ≤ 48)
    × AllClean two_blocks
        (pos 5 ∷ [])
        two_blocks.block_ids
        (16 ∷ [])
        (loaded_prefix two_blocks (16 ∷ []) (pos 5 ∷ []))
loaded_prefix-AllClean_example =
    loaded_prefix-AllClean two_blocks (16 ∷ []) (pos 5 ∷ []) (omega arith, tt) (omega arith)

abbrev first_part : SaveEvent
first_part = record {
  request_id = "p";
  block_ids = (pos 3 ∷ []) ∷ [];
  block_hashes = (1 ∷ []) ∷ [];
  start_save = 0;
  end_save = 16;
  ready_event = some (7 ∷ []);
  prompt_tokens = some 40;
}

abbrev second_part : SaveEvent
second_part = record first_part {
  block_ids = (pos 3 ∷ pos 4 ∷ []) ∷ [];
  block_hashes = (1 ∷ []) ∷ (2 ∷ []) ∷ [];
  start_save = 16;
  end_save = 32;
  ready_event = some (8 ∷ []);
}

-- One save runs and one waits.
abbrev saving : Dict String SaveState
saving =
    (
      "p",
      record {
        running = some (record first_part { end_save = 0 });
        pending = first_part ∷ [];
        errors = [];
        start_token = 0;
        end_token = 16;
      },
    )
    ∷ []

-- The second part is merged into the one that waits.
merged :
    enqueue (16 ∷ []) (first_part ∷ []) second_part
    ≡ record second_part { start_save = 0; ready_event = some (7 ∷ 8 ∷ []) } ∷ []
unfolding enqueue merge can_merge update add member is_prefix
merged = refl

save-left_example :
    (left 5 none (get (save (16 ∷ []) none saving second_part) "p")
      ≡ (left 5 none (get saving "p") || asks 5 second_part))
    × ((id : String)
        → ("p" == id) ≡ false
        → get (save (16 ∷ []) none saving second_part) id ≡ get saving id)
save-left_example = save-left (16 ∷ []) none saving second_part 5

saving-Unique : Unique saving
unfolding get
saving-Unique = (refl, tt)

poll_saves_lem_example :
    (
      member "p" (
          map (λ (result : SaveResult). result.request_id) (poll_saves (λ id. some none) saving).1),
      get (poll_saves (λ id. some none) saving).0 "p",
    )
    ≡ after_poll (some none) (get saving "p")
poll_saves_lem_example = poll_saves_lem (λ id. some none) saving "p" saving-Unique

-- The load of `two_blocks` is followed by a transfer up to token 64.
abbrev plan_after : KvTransferPlan
plan_after = record {
  request_id = "d";
  transfer_id = "x-d";
  load_id = 1;
  computed_tokens = 16;
  pool_hit_tokens = 48;
  target_tokens = 48;
  all_block_ids = (pos 3 ∷ pos 4 ∷ pos 5 ∷ []) ∷ [];
  external_block_ids = (pos 4 ∷ pos 5 ∷ []) ∷ [];
  group_block_sizes = 16 ∷ [];
  blocks_per_sliding_window = 0 ∷ [];
  transfer_params = [];
}

only_the_last : suffix_blocks plan_after 32 ≡ (pos 5 ∷ []) ∷ []
unfolding suffix_blocks suffix_groups last_window
only_the_last = refl

no_window : 0 ∷ [] ≡ no_windows plan_after.external_block_ids
unfolding no_windows
no_window = refl

suffix_blocks-loaded_prefix_example :
    IsPulled
      (pos 5 ∷ [])
      plan_after.external_block_ids
      (suffix_blocks plan_after (loaded_prefix two_blocks (16 ∷ []) (pos 5 ∷ [])))
suffix_blocks-loaded_prefix_example =
    suffix_blocks-loaded_prefix two_blocks plan_after (pos 5 ∷ []) refl (omega arith) no_window
      (omega arith, (1, refl, refl), tt)

-- A load that has run out of time, and the pool that runs it.
abbrev late : LoadState
late = record { event = two_blocks; started_at = 0; timed_out = true }

abbrev busy : Pool
busy = record {
  block_sizes = 16 ∷ [];
  num_blocks = 10;
  load_timeout = 180000;
  loads = ("d", late) ∷ [];
  save_states = [];
  invalid = [];
}

abbrev all_loaded : String → Option LoadOutcome
all_loaded id = some (record { loaded_tokens = 48; error = none; invalid = [] })

late-Unique : Unique busy.loads
unfolding get
late-Unique = (refl, tt)

poll_loads_lem_example :
    (
      reported "d" (poll_loads 200000 busy all_loaded busy.loads []).2,
      get (poll_loads 200000 busy all_loaded busy.loads []).0 "d",
    )
    ≡ load_step 200000 180000 (all_loaded "d") (get busy.loads "d")
poll_loads_lem_example = poll_loads_lem 200000 busy all_loaded busy.loads [] "d" late-Unique

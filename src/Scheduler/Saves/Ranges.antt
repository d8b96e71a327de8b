-- ===== src/Scheduler/Saves/Ranges.antt =====
-- The token ranges that `_build_save_meta` hands to the Store over the life of a request.
use mtsc.Common.{
  ℕ, ◌≤◌, ◌<◌, ◌≡◌, ◌⊎◌, inl, inr, refl, min, Bool, true, false, none, some, List, [], Option, ◌∷◌,
  align, align-le, le-cdiv, leb, arith, Bool-cases,
}
use mtsc.Protocol.{KvPoolSaveRequest}
use mtsc.Scheduler.State.{Request, TrackedRequest, num_tokens}
use mtsc.Scheduler.Saves.{build_save_meta, save_start}

-- What is true of one save: a range of whole blocks that begins where the last one ended or later
-- and ends within the tokens that are scheduled and known.
pub record IsSave (block_size saved token_count : ℕ) (r : Request) (save : KvPoolSaveRequest)
    : Type 0 where
  pub after_last : saved ≤ save.start_token
  pub proper : save.start_token < save.end_token
  pub scheduled : save.end_token ≤ token_count
  pub known : save.end_token ≤ num_tokens r
  pub aligned : save.end_token ≡ align (min token_count (num_tokens r)) block_size

-- A decode request saves nothing of its prompt; any other goes on where its last save ended.
abbrev pub Begins : Bool → ℕ → Request → KvPoolSaveRequest → Type 0
Begins decode saved r save =
    (decode ≡ true → r.num_prompt_tokens ≤ save.start_token)
    × (decode ≡ false → save.start_token ≡ saved)

module _ (block_size : ℕ) (positive : 0 < block_size) (t : TrackedRequest) (r : Request) (count : ℕ)
    (decode : Bool) where
  complete : ℕ
  complete = align (min count (num_tokens r)) block_size

  complete-le : (complete ≤ count) × (complete ≤ num_tokens r)
  unfolding complete
  complete-le = (
    omega (arith, align-le (min count (num_tokens r)) block_size),
    omega (arith, align-le (min count (num_tokens r)) block_size),
  )

  save_start_bounds :
      (t.saved_tokens ≤ save_start block_size r t.saved_tokens decode)
      × (decode ≡ true → r.num_prompt_tokens ≤ save_start block_size r t.saved_tokens decode)
      × (decode ≡ false → save_start block_size r t.saved_tokens decode ≡ t.saved_tokens)
  unfolding save_start
  save_start_bounds = (
    ground arith,
    λ h. ground (arith, le-cdiv r.num_prompt_tokens block_size positive),
    λ h. ground arith,
  )

  -- A save is a proper range of whole blocks past all earlier saves and, for a decode request,
  -- past the prompt, for any other right after them; the entry then counts its end as saved. There is none exactly when no whole
  -- block is new, and then the entry is as it was.
  pub build_save_meta_lem :
      ((save : KvPoolSaveRequest) × (build_save_meta block_size t r count decode
          ≡ (some save, record t { saved_tokens = save.end_token }))
        × IsSave block_size t.saved_tokens count r save
        × Begins decode t.saved_tokens r save)
      ⊎ ((build_save_meta block_size t r count decode ≡ (none, t))
          × (align (min count (num_tokens r)) block_size
              ≤ save_start block_size r t.saved_tokens decode))
  unfolding build_save_meta complete
  build_save_meta_lem =
      elim (Bool-cases (leb complete (save_start block_size r t.saved_tokens decode))) [
        | inl old ↦ inr (rw (old, build_save_meta), ground arith)
        | inr new ↦ inl (
          record {
            request_id = r.request_id;
            block_ids = t.block_ids;
            block_hashes = r.block_hashes;
            start_token = save_start block_size r t.saved_tokens decode;
            end_token = complete;
            prompt_tokens = some r.num_prompt_tokens;
          },
          rw (new, build_save_meta),
          record {
            after_last = save_start_bounds.0;
            proper = ground arith;
            scheduled = complete-le.0;
            known = complete-le.1;
            aligned = refl;
          },
          (save_start_bounds.1, save_start_bounds.2),
        )
      ]

-- What happens to the tracked entry of a request: a step of the engine plans a save, from the request
-- object as it then is and the number of tokens that are scheduled; or the request was preempted, which
-- drops its entry, and is allocated again, which makes a new one.
pub data EntryStep : Type 0 where
  plans_save : Request → ℕ → EntryStep
  allocated_again : TrackedRequest → EntryStep

prepend :
    Option KvPoolSaveRequest → List (Option KvPoolSaveRequest) → List (Option KvPoolSaveRequest)
prepend none saves = saves
prepend (some save) saves = some save ∷ saves

-- The saves of one request, and `none` for each new entry, which has saved nothing.
pub saves_of : ℕ → Bool → TrackedRequest → List EntryStep → List (Option KvPoolSaveRequest)
unfolding prepend
saves_of block_size decode t [] = []
saves_of block_size decode t (plans_save r count ∷ steps) =
    let (save, t') = build_save_meta block_size t r count decode in
    prepend save (saves_of block_size decode t' steps)
saves_of block_size decode t (allocated_again entry ∷ steps) =
    none ∷ saves_of block_size decode (record entry { saved_tokens = 0 }) steps

-- Ranges that follow one another, without a gap unless the request decodes; a new entry starts again.
abbrev pub Successive : Bool → ℕ → List (Option KvPoolSaveRequest) → Type 0
Successive decode from [] = Unit
Successive decode from (none ∷ saves) = Successive decode 0 saves
Successive decode from (some save ∷ saves) =
    (from ≤ save.start_token)
    × (decode ≡ false → save.start_token ≡ from)
    × (save.start_token < save.end_token)
    × Successive decode save.end_token saves

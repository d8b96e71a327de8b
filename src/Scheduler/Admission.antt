-- ===== src/Scheduler/Admission.antt =====
-- mtsc/scheduler.py: validation, truncation for Mamba models and `get_num_new_matched_tokens`.
pub mod Decisions
pub mod Asking
use mtsc.Common.{
  int_eq, ℕ, ◌-◌, Bool, true, false, not, ◌&&◌, Option, none, some, List, Value, bool, str, ℤ, pos,
  value_error, Result, ok, ◌>>◌, guard, truthy, param, is_blank, sub_ℕ, align, ltb, if◌then◌else◌,
  put, remove, pop_last, string_eq, nat_eq,
}
use mtsc.Scheduler.State.{Request, Config, Scheduler, LookupOps, params_of, set_param}

-- request.num_prompt_tokens > 1 and the other tests of `_truncate_mamba_prefill`
abbrev truncates : Config → Request → Bool
truncates c r =
    c.has_mamba
    && not (truthy (param (params_of r) "_mtsc_p_truncated"))
    && ltb 1 r.num_prompt_tokens

shorten : Request → Request
shorten r = set_param shorter "_mtsc_p_truncated" (bool true)
  where
    shorter : Request
    shorter = record r {
      all_token_ids = pop_last r.all_token_ids;
      num_prompt_tokens = r.num_prompt_tokens - 1;
      max_tokens = 1;
    }

-- the prompt is a list of tokens or of embeddings
drop_prompt_token : Request → Option (List ℕ) → Option (List ℕ) → Request
unfolding shorten
drop_prompt_token r (some ids) embeds =
    shorten (record r { prompt_token_ids = some (pop_last ids) })
drop_prompt_token r none (some rows) = shorten (record r { prompt_embeds = some (pop_last rows) })
drop_prompt_token r none none = r

pub truncate_mamba_prefill : Config → Request → Request
unfolding drop_prompt_token
truncate_mamba_prefill c r =
    if truncates c r then drop_prompt_token r r.prompt_token_ids r.prompt_embeds else r

-- isinstance(value, str) and value.strip()
abbrev pub is_nonempty_text : Value → Bool
is_nonempty_text (str s) = not (is_blank s)
is_nonempty_text _ = false

unfoldable pub validate_transfer_params : Request → Result (Unit {0})
validate_transfer_params r =
    guard
      (is_nonempty_text (param (params_of r) "remote_bootstrap_addr")
        && is_nonempty_text (param (params_of r) "remote_engine_id"))
      (value_error "MTSC remote prefill requires non-empty string transfer parameters")

-- The tokens to load: all, but for the last one of a Mamba prompt.
unfoldable pub target_of : Config → Request → ℕ
target_of c r = r.num_prompt_tokens - (if c.has_mamba && ltb 1 r.num_prompt_tokens then 1 else 0)

module _ {C : Type 0} where
  note_load : Scheduler C → Request → ℕ → ℕ → Scheduler C
  note_load s r computed hit =
      let cleared = remove s.load_decisions r.request_id in
      record s {
        load_decisions =
            if ltb computed hit
            then put cleared r.request_id
                (record { computed_tokens = computed; pool_hit_tokens = hit })
            else cleared;
      }

  note_transfer : Scheduler C → Request → ℕ → ℕ → ℕ → Scheduler C
  note_transfer s r computed hit target = record s {
    transfer_decisions =
        put (remove s.transfer_decisions r.request_id) r.request_id
          (record { computed_tokens = computed; pool_hit_tokens = hit; target_tokens = target });
  }

  -- The decision once the Store has answered: what is loaded from outside, and if anything is.
  decide : Scheduler C → Request → ℕ → ℕ → ℕ → (ℤ × Bool) × Scheduler C
  unfolding note_load note_transfer
  decide s r computed target hit =
      if s.is_consumer && truthy (param (params_of r) "do_remote_prefill")
      then (
        (sub_ℕ target computed, ltb computed target),
        note_transfer (note_load s r computed hit) r computed hit target,
      )
      else ((pos (hit - computed), ltb computed hit), note_load s r computed hit)

  after_lookup : Scheduler C → Request → ℕ → ℕ → Option ℕ × C → (Option ℤ × Bool) × Scheduler C
  unfolding decide
  after_lookup s r computed target (none, client) =
      ((none, false), record s { lookup_client = client })
  after_lookup s r computed target (some hit, client) =
      let ((external, is_external), s') =
        decide (record s { lookup_client = client }) r computed target hit in
      ((some external, is_external), s')

-- the answer, the request and the state
abbrev pub Admitted : Type 0 → Type 0
Admitted C = (Option ℤ × Bool) × Request × Scheduler C

module _ {C : Type 0} where
  -- A decode request that is to pull must say from where.
  check_params : Scheduler C → Request → Result (Unit {0})
  check_params s r =
      if s.is_consumer && truthy (param (params_of r) "do_remote_prefill")
      then validate_transfer_params r
      else ok tt

  -- A prefill request of a Mamba model loses its last prompt token.
  pub prepare : Scheduler C → Request → Request
  unfolding truncate_mamba_prefill
  prepare s r =
      if s.is_producer && truthy (param (params_of r) "do_remote_decode")
      then truncate_mamba_prefill s.config r
      else r

module _ {C : Type 0} (ops : LookupOps C) where
  -- The Store prefix in tokens; `none` while the answer is pending.
  find_pool_hit : Scheduler C → Request → ℕ → Option ℕ × C
  find_pool_hit s r target =
      let tokens = align target s.block_size in
      if ltb tokens s.block_size
      then (some 0, s.lookup_client)
      else ops.lookup s.lookup_client r.request_id tokens r.block_hashes s.lookup_async

  answer_for : Scheduler C → Request → ℕ → Admitted C
  unfolding after_lookup find_pool_hit
  answer_for s r computed =
      let target = target_of s.config r in
      let (answer, s') = after_lookup s r computed target (find_pool_hit s r target) in
      (answer, r, s')

  unfoldable pub get_num_new_matched_tokens : Scheduler C → Request → ℕ → Result (Admitted C)
  unfolding answer_for check_params prepare
  get_num_new_matched_tokens s r computed = do
    check_params s r
    ok (answer_for s (prepare s r) computed)

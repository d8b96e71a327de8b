-- ===== src/Tests/Lookup.antt =====
-- Runs of the Store lookup, and its theorems at them.
use mtsc.Lookup.Keys.Asked.{IsVoid, IsPresent}
use mtsc.Lookup.Bytes.{to_bytes, from_bytes, digits}
use mtsc.Lookup.Blob.{join, blob_length, blob_hashes}
use mtsc.Lookup.Masks.{masks_from, find_longest_cache_hit, search_of, longest}
use mtsc.Lookup.Coordinator.Hit.{find_hit_blocks-settles}
use mtsc.Lookup.Client.{client_ops}
use mtsc.Lookup.EndToEnd.{call_lookup_complete, pool_owner}
use mtsc.Lookup.Keys.Present.{answers}
use mtsc.Lookup.Rpc.RoundTrip.{serve-lookup_frames, Sendable}
use mtsc.Lookup.Rpc.{
  accept, serve_lookup, width_of, settle, served_by, serve, reply_hit, lookup_frames, call_lookup,
  Owner,
}
use mtsc.Lookup.Coordinator.Rounds.{ManagerLaws}
use mtsc.Scheduler.Admission.Decisions.{LookupLaws}
use mtsc.Common.{
  inr, inl, In, put, member, get, ◌∙◌, zero, sym, suc, ok-injective, align-le, list_eq, nat_eq,
  nat_eq, string_eq, ◌≡◌, ◌∷◌, ◌==◌, ◌<◌, ◌/◌, ◌-◌, ◌*◌, ℕ, true, some, replicate, refl, ok, none,
  min, length, false, arith, [], Result, List,
}
use mtsc.Lookup.Client.Laws.{client_laws, FutureFits}
use mtsc.Lookup.Keys.{
  search_present, present_from, found_at, all_found, pool_lookup, lookup_queries, is_empty, in_mask,
  group_queries, all_keys, LookupGroup, KeyMetadata, ExternalPool,
}
use mtsc.Lookup.Coordinator.{
  truncate_group, truncate, store_hits, is_simple_hybrid, find_single, cached_hit, visit_groups,
  visit_group, search_group, find_in_groups, find_hybrid, converge, first_length, find_hit_blocks,
  Search, Manager, Hits, Coordinator,
}
use mtsc.Protocol.{BlockHash}

-- A pool with one full-attention group of blocks of 16 tokens and one hash of two bytes per block, and
-- a Store that has the first `have` blocks of a prompt.
abbrev full_manager : Manager ℕ ExternalPool
full_manager = record {
  block_size = λ size. size;
  is_full = λ size. true;
  find = λ size pool hashes bound drop alignment. replicate (min bound 32 / size) true ∷ [];
}

abbrev hash_a : BlockHash
hash_a = 1 ∷ 2 ∷ []

abbrev hash_b : BlockHash
hash_b = 3 ∷ 4 ∷ []

abbrev prompt : List BlockHash
prompt = hash_a ∷ hash_b ∷ []

prompt-Sendable : Sendable 40 prompt
unfolding width_of
prompt-Sendable = record {
  count_fits = omega arith;
  width_fits = omega arith;
  one_width = (refl, (refl, tt));
  not_empty = (omega arith, (omega arith, tt));
}

-- A pool that finds as many tokens as its state says.
abbrev counting_owner : Owner ℕ
counting_owner = record {
  lookup = λ s token_count hashes. ok (min s (length hashes * 16));
  wait_for_all_saves = λ s. (ok tt, s);
  remove_all = λ s. (ok tt, 0);
}

serve-lookup_frames_example :
    (frames : List (List ℕ)) × (lookup_frames 40 prompt ≡ ok frames)
    × (serve counting_owner 100 frames ≡ ok (reply_hit (ok 32), 100))
serve-lookup_frames_example = serve-lookup_frames counting_owner 100 40 prompt prompt-Sendable

-- The whole lookup finds both blocks, and a Store that fails is a miss.
abbrev one_group : Coordinator ℕ
one_group = record {
  kv_cache_groups = 16 ∷ [];
  lcm_block_size = 16;
  hash_block_size = 16;
  attention_groups = record { spec = 16; group_ids = 0 ∷ [] } ∷ [];
  eagle_attn_group_indices = [];
}

length-replicate : (n : ℕ) → length (replicate n true) ≡ n
length-replicate zero = refl
length-replicate (suc n) = ground (arith, length-replicate n)

full_manager-laws : ManagerLaws full_manager
unfolding first_length
full_manager-laws = record {
  bounded = λ size pool hashes bound drop alignment blocks h.
      let whole = min bound 32 in
      let same : blocks ≡ whole / size = sym (ok-injective h) ∙ length-replicate (whole / size) in
      rw same (omega (arith, align-le whole size));
}

abbrev rank_0 : KeyMetadata
rank_0 = record {
  model_name = "m";
  tp_rank = 0;
  pcp_rank = 0;
  dcp_rank = 0;
  pp_rank = 0;
  group_id = 0;
}

abbrev groups_of : List BlockHash → List LookupGroup
groups_of hashes =
    record { block_size = 16; group_hashes = hashes; metadata = rank_0 ∷ []; mask = none } ∷ []

abbrev whole_pool : Owner ℕ
whole_pool =
    pool_owner full_manager one_group (λ w keys. ok (answers (λ k. true) keys)) (λ w. false) 1
      groups_of (λ w. (ok tt, w)) (λ w. (ok tt, 0))

call_lookup_complete_example :
    let result = settle (call_lookup (served_by whole_pool 0) 40 prompt) in
    (IsVoid 40 prompt (groups_of prompt) → result ≡ 0)
    × (¬ IsVoid 40 prompt (groups_of prompt)
        → (blocks : List (ℕ × BlockHash)) × ((n : ℕ) (h : BlockHash)
            → (In (n, h) blocks → IsPresent (λ k. true) 40 (groups_of prompt) n h)
              × (IsPresent (λ k. true) 40 (groups_of prompt) n h → In (n, h) blocks))
          × (result ≡ settle (longest full_manager one_group prompt 40 (some blocks))))
call_lookup_complete_example =
    call_lookup_complete full_manager one_group (λ w k. true) 1 groups_of (λ w. (ok tt, w))
      (λ w. (ok tt, 0)) 0 40 prompt full_manager-laws prompt-Sendable (refl, tt) (omega arith, tt)

-- There is something to ask for: the first block has a key.
prompt-asks : ¬ IsVoid 40 prompt (groups_of prompt)
prompt-asks h = elim h [
  | inl no_tokens ↦ omega (arith, no_tokens)
  | inr others ↦ elim others [
    | inl no_hashes ↦ omega (arith, no_hashes)
    | inr no_keys ↦ cc (
        no_keys 0 hash_a
          (record { block_size = 16; group_hashes = prompt; metadata = rank_0 ∷ []; mask = none })
          (refl, (0, refl, omega arith, tt)))
  ]
]

client_laws_example : LookupLaws (client_ops (served_by whole_pool 0)) FutureFits
client_laws_example = client_laws (served_by whole_pool 0)

-- Managers that always find one block less than there is room for: the rounds go down to nothing.
abbrev shrinking : Manager ℕ ExternalPool
shrinking = record {
  block_size = λ size. size;
  is_full = λ size. size == 16;
  find = λ size pool hashes bound drop alignment. replicate (bound / size - 1) true ∷ [];
}

abbrev three_groups : Coordinator ℕ
three_groups = record {
  kv_cache_groups = 16 ∷ 8 ∷ 4 ∷ [];
  lcm_block_size = 16;
  hash_block_size = 4;
  attention_groups =
      record { spec = 16; group_ids = 0 ∷ [] }
      ∷ record { spec = 8; group_ids = 1 ∷ [] }
      ∷ record { spec = 4; group_ids = 2 ∷ [] }
      ∷ [];
  eagle_attn_group_indices = [];
}

abbrev shrinking_search : Search ExternalPool
shrinking_search = search_of shrinking three_groups prompt 64 none true

find_hit_blocks-settles_example :
    (out : Result (ℕ × Hits)) × ((fuel : ℕ)
      → 64 < fuel
      → find_hit_blocks shrinking three_groups shrinking_search fuel ≡ some out)
find_hit_blocks-settles_example = find_hit_blocks-settles shrinking three_groups shrinking_search

whole_lookup : settle (call_lookup (served_by whole_pool 0) 40 prompt) ≡ 32
unfolding settle call_lookup lookup_frames served_by serve serve_lookup pool_lookup lookup_queries
    to_bytes width_of accept reply_hit from_bytes digits blob_hashes blob_length join is_empty
    all_keys group_queries in_mask search_present present_from all_found found_at
    find_longest_cache_hit masks_from find_in_groups find_single store_hits first_length get put
    member
whole_lookup = refl

shrunk :
    find_hit_blocks shrinking three_groups shrinking_search 65
    ≡ some (ok (0, (0, []) ∷ (1, []) ∷ (2, []) ∷ []))
unfolding find_in_groups find_hybrid converge visit_groups visit_group search_group cached_hit
    first_length store_hits get put member is_simple_hybrid truncate_group truncate
shrunk = refl

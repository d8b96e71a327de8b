-- ===== src/Transfer/Receiver/Collect.antt =====
-- mtsc/kv_transfer.py: what the engine collects from the receiver, and the fence before blocks are
-- used again.
use mtsc.Worker.State.{TransferResult, RecvEvent}
use mtsc.Transfer.Receiver.{
  process_pulling_result, finish_receive, answer_one, answer_all, wake_all, start_receive,
  lose_peer, PullState, check_receive_error, ReceiverState,
}
use mtsc.Protocol.{KvTransferResponse, BlockIds}
use mtsc.Common.{
  ◌∙◌, inr, inl, Result-cases, ◌≡◌, ◌==◌, ◌<◌, true, runtime_error, refl, length, arith, int_eq,
  nat_eq, string_eq, ◌∷◌, ℤ, ℕ, update, some, remove, raise, put, pos, ok, not, none, negsuc,
  member, keys, key_error, if◌then◌else◌, get, false, discard, difference, add, [], String, Result,
  Option, List, Dict, Bool, ◌>>◌, ◌>>=◌,
}

abbrev pub natural_blocks : List ℤ → List ℕ
natural_blocks [] = []
natural_blocks (pos block ∷ blocks) = block ∷ natural_blocks blocks
natural_blocks (negsuc n ∷ blocks) = natural_blocks blocks

-- {block for ids in event.block_ids for block in ids if block >= 0}
unfoldable pub invalid_blocks : BlockIds → List ℕ
invalid_blocks [] = []
invalid_blocks (ids ∷ block_ids) = update (natural_blocks ids) (invalid_blocks block_ids)

-- One finished request of `fetch_finished_recving_reqs`.
unfoldable pub collect_one : ReceiverState → RecvEvent → String → TransferResult × ReceiverState
unfolding invalid_blocks
collect_one s event request_id =
    let failed = member request_id s.failed_recv in
    (
      record {
        request_id = request_id;
        error = if failed then some "Transfer receive failed" else none;
      },
      record {
        recv_events = remove s.recv_events request_id;
        receive_futures = remove s.receive_futures request_id;
        failed_recv = discard s.failed_recv request_id;
        finished_recving_reqs = s.finished_recving_reqs;
        retired_recvs = add s.retired_recvs event.transfer_id;
        invalid =
            if failed then put s.invalid request_id (invalid_blocks event.block_ids) else s.invalid;
        receive_error = s.receive_error;
      },
    )

unfoldable pub collect : ReceiverState → List String → Result (List TransferResult × ReceiverState)
unfolding collect_one
collect s [] = ok ([], s)
collect s (request_id ∷ request_ids) = elim (get s.recv_events request_id) [
  | none ↦ raise (key_error request_id)
  | some event ↦
      collect (collect_one s event request_id).1 request_ids
      >>= λ (rest : List TransferResult × ReceiverState).
          ok ((collect_one s event request_id).0 ∷ rest.0, rest.1)
]

unfoldable pub fetch_finished_recving_reqs :
    ReceiverState → Result (List TransferResult × ReceiverState)
unfolding check_receive_error collect
fetch_finished_recving_reqs s = do
  check_receive_error s
  collect (record s { finished_recving_reqs = [] }) s.finished_recving_reqs

unfoldable pub all_invalid : Dict String (List ℕ) → List ℕ
all_invalid [] = []
all_invalid ((request_id, blocks) ∷ invalid) = update blocks (all_invalid invalid)

unfoldable pub take_receive_errors : ReceiverState → Result (List ℕ × ReceiverState)
unfolding check_receive_error all_invalid
take_receive_errors s = do
  check_receive_error s
  ok (all_invalid s.invalid, record s { invalid = [] })

-- The futures that the fence waits for; `none` stands for all requests.
unfoldable pub fenced : ReceiverState → Option (List String) → List String
fenced s none = keys s.receive_futures
fenced s (some request_ids) = request_ids

abbrev pub is_awaited : ReceiverState → String → Bool
is_awaited s request_id = elim (get s.receive_futures request_id) [
  | none ↦ false
  | some done ↦ not done
]

-- for request_id in request_ids
unfoldable pub forget_receives : ReceiverState → List String → ReceiverState
forget_receives s [] = s
forget_receives s (request_id ∷ request_ids) =
    forget_receives
      (record s {
        receive_futures = remove s.receive_futures request_id;
        recv_events = remove s.recv_events request_id;
        retired_recvs = elim (get s.recv_events request_id) [
          | none ↦ s.retired_recvs
          | some event ↦ add s.retired_recvs event.transfer_id
        ];
        invalid = remove s.invalid request_id;
      })
      request_ids

-- The rest of `_wait_for_receives` once its futures are done: `request_ids` are the ones from before
-- the wait.
unfoldable pub fence_receives : ReceiverState → List String → Bool → Result ReceiverState
unfolding check_receive_error forget_receives
fence_receives s request_ids drain_all = do
  check_receive_error s
  let s' = forget_receives s request_ids
  ok (record s' {
    finished_recving_reqs = difference s'.finished_recving_reqs request_ids;
    failed_recv = difference s'.failed_recv request_ids;
    invalid = if drain_all then [] else s'.invalid;
    retired_recvs = if drain_all then [] else s'.retired_recvs;
  })

-- The state lets nothing go: every way to start, to collect and to pass the fence raises.
pub record IsBlocked (s : ReceiverState) (lost : String) : Type 0 where
  pub starts : (events : List RecvEvent) → start_receive s events ≡ raise (runtime_error lost)
  pub fetches : fetch_finished_recving_reqs s ≡ raise (runtime_error lost)
  pub takes : take_receive_errors s ≡ raise (runtime_error lost)
  pub fences :
      (request_ids : List String) (drain_all : Bool)
      → fence_receives s request_ids drain_all ≡ raise (runtime_error lost)

receive_error-IsBlocked :
    (s : ReceiverState) (lost : String) → s.receive_error ≡ some lost → IsBlocked s lost
unfolding start_receive fetch_finished_recving_reqs take_receive_errors fence_receives
    check_receive_error
receive_error-IsBlocked s lost set = record {
  starts = λ events. rw (set, start_receive, check_receive_error) refl;
  fetches = rw (set, fetch_finished_recving_reqs, check_receive_error) refl;
  takes = rw (set, take_receive_errors, check_receive_error) refl;
  fences = λ request_ids drain_all. rw (set, fence_receives, check_receive_error) refl;
}

get-wake_all :
    (futures : Dict String Bool) (request_id : String)
    → elim (get (wake_all futures) request_id) [ none ↦ false | some done ↦ not done ] ≡ false
unfolding get
get-wake_all [] request_id = refl
get-wake_all ((other, done) ∷ futures) request_id = ground (arith, get-wake_all futures request_id)

-- The error that a lost peer leaves: the first one stays.
abbrev pub first_error : Option String → String → String
first_error none lost = lost
first_error (some before) lost = before

-- When a peer is lost that was asked and still holds a request, nothing can be started, collected or
-- let go any more, whatever had finished before, and no fence waits.
pub lose_peer-IsBlocked :
    (lost : String) (p : PullState) (remaining : List String)
    → 0 < length remaining
    → IsBlocked (lose_peer true lost p remaining).loop (first_error p.loop.receive_error lost)
      × ((request_id : String)
          → is_awaited (lose_peer true lost p remaining).loop request_id ≡ false)
unfolding lose_peer
lose_peer-IsBlocked lost p remaining held =
    let test : (length remaining == 0) ≡ false = ground (arith, held) in
    rw (test, lose_peer)
      (
        receive_error-IsBlocked _ (first_error p.loop.receive_error lost) (ground arith),
        λ request_id. get-wake_all p.loop.receive_futures request_id,
      )

answer_one-receive_error :
    (p : PullState) (request_id : String)
    → (answer_one p request_id).1.loop.receive_error ≡ p.loop.receive_error
unfolding answer_one finish_receive
answer_one-receive_error p request_id = ground arith

answer_all-receive_error :
    (p : PullState) (request_ids : List String)
    → (answer_all p request_ids).1.loop.receive_error ≡ p.loop.receive_error
unfolding answer_all
answer_all-receive_error p [] = refl
answer_all-receive_error p (request_id ∷ request_ids) =
    let p' = (answer_one p request_id).1 in
    let kept = answer_one-receive_error p request_id in
    elim (Result-cases (answer_one p request_id).0) [
      | inl (done, at) ↦ rw (at, answer_all) (answer_all-receive_error p' request_ids ∙ kept)
      | inr (problem, at) ↦ rw (at, answer_all) kept
    ]

-- No answer of another peer takes the block back.
pub process_pulling_result-IsBlocked :
    (response : KvTransferResponse) (p : PullState) (remaining : List String) (lost : String)
    → p.loop.receive_error ≡ some lost
    → IsBlocked (process_pulling_result response p remaining).2.loop lost
unfolding process_pulling_result
process_pulling_result-IsBlocked response p remaining lost set =
    receive_error-IsBlocked _ lost (answer_all-receive_error _ _ ∙ set)

-- ===== src/Transfer/Sender/Responses.antt =====
-- mtsc/kv_transfer.py: what `send_kv_to_decode` answers, round by round, and `_build_transfer_params`.
pub mod Fitting
use mtsc.Transfer.Receiver.Counts.{times}
use mtsc.Scheduler.Allocation.Plan.{planned}
use mtsc.Transfer.Sender.{start_reads, SenderState}
use mtsc.Protocol.{finish, error, continue, KvTransferResponse}
use mtsc.Transfer.Runs.{Copy}
use mtsc.Common.{
  value_error, runtime_error, assertion_error, key_error, index_error, zero_division_error,
  type_error, overflow_error, timeout_error, int_eq, nat_eq, string_eq, ◌≡◌, ◌∷◌, ◌==◌, ◌+◌, ◌++◌,
  ◌&&◌, ℤ, ℕ, true, to_text, timeout_error, text_append, suc, some, raise, pos, overflow_error, ok,
  num, not, none, negsuc, member, map, ltb, length, keep_if, if◌then◌else◌, false, [], String,
  Result, Option, List, Error, Bool,
}

-- str(exc)
unfoldable pub error_text : Error → String
error_text (value_error text) = text
error_text (runtime_error text) = text
error_text (assertion_error text) = text
error_text (key_error text) = text
error_text (index_error text) = text
error_text (zero_division_error text) = text
error_text (type_error text) = text
error_text (overflow_error text) = text
error_text (timeout_error text) = text

-- The copies of a round, and the requests that could not be planned.
pub record Batch : Type 0 where
  pub copies : List Copy
  pub err_reqs : List String
  pub err_msg : Option String

-- Each request is planned on its own; the first problem is the one that is told.
unfoldable pub build_transfer_params : (String × ℕ → Result (List Copy)) → List (String × ℕ) → Batch
build_transfer_params build [] = record { copies = []; err_reqs = []; err_msg = none }
build_transfer_params build ((d_req_id, ref) ∷ ready) =
    let rest = build_transfer_params build ready in
    elim (build (d_req_id, ref)) [
      | raise problem ↦ record rest {
        err_reqs = d_req_id ∷ rest.err_reqs;
        err_msg = some (error_text problem);
      }
      | ok copies ↦ record rest { copies = copies ++ rest.copies }
    ]

-- What a round has come to, once its copies are written.
pub record Sent : Type 0 where
  pub ok_reqs : List String
  pub err_reqs : List String
  pub err_msg : Option String

abbrev int_text : ℤ → String
int_text (pos n) = to_text (num n)
int_text (negsuc n) = text_append "-" (to_text (num (suc n)))

abbrev pub ids_of : List (String × ℕ) → List String
ids_of = map (λ entry. entry.0)

-- The requests that were planned are done if the engine returns 0, and fail otherwise.
unfoldable pub write_batch : List (String × ℕ) → Batch → ℤ → Sent
write_batch ready batch ret =
    let planned = keep_if (λ id. not (member id batch.err_reqs)) (ids_of ready) in
    if ltb 0 (length batch.copies) && not (ret == pos 0)
    then record {
      ok_reqs = [];
      err_reqs = batch.err_reqs ++ planned;
      err_msg = some (text_append "Mooncake transfer engine returned " (int_text ret));
    }
    else record { ok_reqs = planned; err_reqs = batch.err_reqs; err_msg = batch.err_msg }

-- reqs or None
unfoldable pub or_none : List String → Option (List String)
or_none [] = none
or_none (id ∷ ids) = some (id ∷ ids)

abbrev expired_msg : List String → Option String
expired_msg [] = none
expired_msg (id ∷ ids) = some "Source request is no longer available."

-- The answer of a round: those of its requests that are ready, and those whose source is gone.
unfoldable pub round_response : Bool → Sent → List String → KvTransferResponse
round_response more sent expired = record {
  status = if more then continue else finish;
  ok_reqs = or_none sent.ok_reqs;
  err_reqs = or_none (sent.err_reqs ++ expired);
  err_msg = elim sent.err_msg [
    | some text ↦ if text == "" then expired_msg expired else some text
    | none ↦ expired_msg expired
  ];
}

abbrev pub timeout_response : List String → KvTransferResponse
timeout_response pending = record {
  status = finish;
  ok_reqs = none;
  err_reqs = some pending;
  err_msg = some "Timeout waiting for P side ready.";
}

abbrev pub error_response : Error → KvTransferResponse
error_response problem = record {
  status = error;
  ok_reqs = none;
  err_reqs = none;
  err_msg = some (error_text problem);
}

-- A round over the requests whose wait has ended, while others may still wait.
unfoldable pub serve_round :
    ℕ
    → SenderState
    → (String × ℕ → Result (List Copy))
    → ℤ
    → Bool
    → List (String × ℕ)
    → KvTransferResponse
serve_round ranks s build ret more done =
    let (ready, expired, _) = start_reads ranks s done in
    round_response more (write_batch ready (build_transfer_params build ready) ret) expired

abbrev pub is_waiting : List (String × ℕ) → Bool
is_waiting [] = false
is_waiting (entry ∷ entries) = true

-- Every wait is over or goes on.
abbrev pub Splits : List (String × ℕ) → List (String × ℕ) → List (String × ℕ) → Type 0
Splits waiting done left =
    (id : String) → times id (ids_of done) + times id (ids_of left) ≡ times id (ids_of waiting)

-- The answers to the requests that wait, if no exception ends the task: `asyncio.wait` ends with
-- some of them, in any order and any state of the sender, or by its timeout.
pub data Serves : List (String × ℕ) → List KvTransferResponse → Type 0 where
  all_served : Serves [] []
  ran_out :
      (waiting : List (String × ℕ))
      → is_waiting waiting ≡ true
      → Serves waiting (timeout_response (ids_of waiting) ∷ [])
  answered :
      (ranks : ℕ) (s : SenderState) (build : String × ℕ → Result (List Copy)) (ret : ℤ)
      (waiting done left : List (String × ℕ)) (responses : List KvTransferResponse)
      → is_waiting done ≡ true
      → Splits waiting done left
      → Serves left responses
      → Serves waiting (serve_round ranks s build ret (is_waiting left) done ∷ responses)

-- All that a pull request is answered: an error where it does not pair with this rank.
pub data Replies : List (String × ℕ) → List KvTransferResponse → Type 0 where
  unpaired :
      (waiting : List (String × ℕ)) (problem : Error)
      → Replies waiting (error_response problem ∷ [])
  served :
      (waiting : List (String × ℕ)) (responses : List KvTransferResponse)
      → Serves waiting responses
      → Replies waiting responses

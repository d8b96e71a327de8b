-- ===== src/Transfer/Sender.antt =====
-- mtsc/kv_transfer.py: the sources that a prefill worker offers. Each function is what runs on the
-- sender's event loop between two waits. A `SendBlockMeta` is an object that a waiting request, a
-- running write and a cancellation share, so it lives in a store and is known by its reference.
pub mod System
pub mod Responses
use mtsc.Worker.State.{TransferResult, SendEvent}
use mtsc.Common.{
  nat_eq, string_eq, ◌∷◌, ◌==◌, ◌-◌, ◌+◌, ◌++◌, ◌&&◌, ℕ, true, suc, some, remove, put, not, none,
  modify, member, map, ltb, if◌then◌else◌, has, get, false, discard, add, [], String, Option, List,
  Dict, Bool,
}
use mtsc.Protocol.{error, BlockIds}

pub record SendBlockMeta : Type 0 where
  pub p_req_id : String
  pub transfer_id : String
  pub local_block_ids : BlockIds
  pub ready : Bool
  pub expire_time : Option ℕ
  pub need_send : ℕ
  pub sent : ℕ
  pub sending : ℕ

-- `reqs_need_send` leads from transfers to references; `expire_time` none is infinity.
pub record SenderState : Type 0 where
  pub metas : Dict ℕ SendBlockMeta
  pub next_ref : ℕ
  pub reqs_need_send : Dict String ℕ
  pub finished_sending_reqs : List String

unfoldable pub new_meta : String → String → SendBlockMeta
new_meta request_id transfer_id = record {
  p_req_id = request_id;
  transfer_id = transfer_id;
  local_block_ids = [];
  ready = false;
  expire_time = none;
  need_send = 0;
  sent = 0;
  sending = 0;
}

-- self.reqs_need_send.setdefault(transfer_id, SendBlockMeta(request_id, transfer_id))
unfoldable pub entry_for : SenderState → String → String → ℕ × SenderState
unfolding new_meta
entry_for s request_id transfer_id = elim (get s.reqs_need_send transfer_id) [
  | some ref ↦ (ref, s)
  | none ↦ (
    s.next_ref,
    record s {
      metas = put s.metas s.next_ref (new_meta request_id transfer_id);
      next_ref = suc s.next_ref;
      reqs_need_send = put s.reqs_need_send transfer_id s.next_ref;
    },
  )
]

unfoldable pub prepare_send : SenderState → String → String → ℕ × SenderState
prepare_send s request_id transfer_id =
    let (ref, s') = entry_for s request_id transfer_id in
    (ref, record s' { metas = modify s'.metas ref (λ meta. record meta { p_req_id = request_id }) })

unfoldable pub publish_send : ℕ → ℕ → SenderState → SendEvent → SenderState
publish_send now timeout s event =
    let (ref, s') = prepare_send s event.request_id event.transfer_id in
    record s' {
      metas = modify s'.metas ref (λ meta. record meta {
        local_block_ids = event.block_ids;
        expire_time = some (now + timeout);
        ready = true;
      });
    }

-- The entries that a pull request waits for: its request ids with their references.
unfoldable pub await_entries :
    SenderState → List (String × String) → List (String × ℕ) × SenderState
await_entries s [] = ([], s)
await_entries s ((d_req_id, transfer_id) ∷ req_blocks) =
    let (ref, s') = entry_for s "" transfer_id in
    let (waiting, s'') = await_entries s' req_blocks in ((d_req_id, ref) ∷ waiting, s'')

-- self.reqs_need_send.get(send_meta.transfer_id) is send_meta
unfoldable pub is_offered : SenderState → ℕ → SendBlockMeta → Bool
is_offered s ref meta = elim (get s.reqs_need_send meta.transfer_id) [
  | none ↦ false
  | some current ↦ current == ref
]

unfoldable pub start_read : ℕ → SendBlockMeta → SendBlockMeta
start_read ranks meta = record meta {
  sending = suc meta.sending;
  need_send = if meta.need_send == 0 then ranks else meta.need_send;
}

unfoldable pub starts : SenderState → ℕ → Bool
unfolding is_offered
starts s ref = elim (get s.metas ref) [ none ↦ false | some meta ↦ is_offered s ref meta ]

-- The requests whose wait is over: those to be read, and those whose source is gone.
unfoldable pub start_reads :
    ℕ → SenderState → List (String × ℕ) → List (String × ℕ) × List String × SenderState
unfolding start_read
start_reads ranks s [] = ([], [], s)
start_reads ranks s ((d_req_id, ref) ∷ done) =
    let going = starts s ref in
    let s' = if going then record s { metas = modify s.metas ref (start_read ranks) } else s in
    let (ready, expired, s'') = start_reads ranks s' done in
    if going then ((d_req_id, ref) ∷ ready, expired, s'') else (ready, d_req_id ∷ expired, s'')

-- All peers have been served: the source is no longer offered, and its request is finished.
unfoldable pub retire : SendBlockMeta → SenderState → SenderState
retire meta s =
    if meta.sent == meta.need_send && has s.reqs_need_send meta.transfer_id
    then record s {
      reqs_need_send = remove s.reqs_need_send meta.transfer_id;
      finished_sending_reqs = add s.finished_sending_reqs meta.p_req_id;
    }
    else s

unfoldable pub count_sent : ℕ → SenderState → SenderState
unfolding retire
count_sent ref s = elim (get s.metas ref) [
  | none ↦ s
  | some meta ↦
      retire (record meta { sent = suc meta.sent })
        (record s { metas = modify s.metas ref (λ m. record m { sent = suc m.sent }) })
]

unfoldable pub note_sent : List String → SenderState → List (String × ℕ) → SenderState
unfolding count_sent
note_sent err_reqs s [] = s
note_sent err_reqs s ((d_req_id, ref) ∷ ready) =
    note_sent err_reqs (if member d_req_id err_reqs then s else count_sent ref s) ready

unfoldable pub stop_reads : Dict ℕ SendBlockMeta → List (String × ℕ) → Dict ℕ SendBlockMeta
stop_reads metas [] = metas
stop_reads metas ((d_req_id, ref) ∷ ready) =
    stop_reads (modify metas ref (λ meta. record meta { sending = meta.sending - 1 })) ready

-- How the write of a batch ended: with the requests that could not be planned, with a return code
-- that is not 0, which fails all of them, or with an exception, after which nothing is answered.
pub data WriteOutcome : Type 0 where
  written : List String → WriteOutcome
  refused : WriteOutcome
  raised : WriteOutcome

unfoldable pub finish_reads : WriteOutcome → SenderState → List (String × ℕ) → SenderState
finish_reads (written err_reqs) s ready =
    let s' = note_sent err_reqs s ready in record s' { metas = stop_reads s'.metas ready }
finish_reads refused s ready = record s { metas = stop_reads s.metas ready }
finish_reads raised s ready = record s { metas = stop_reads s.metas ready }

unfoldable pub is_expired : ℕ → SendBlockMeta → Bool
is_expired now meta =
    not (meta.p_req_id == "")
    && (elim meta.expire_time [ none ↦ false | some at ↦ ltb at now ])
    && meta.sending == 0

timed_out : String → TransferResult
timed_out request_id = record { request_id = request_id; error = some "Transfer timed out" }

-- The entries that stay, and the results of those that have expired.
unfoldable pub expire :
    ℕ → Dict ℕ SendBlockMeta → Dict String ℕ → Dict String ℕ × List TransferResult
unfolding timed_out
expire now metas [] = ([], [])
expire now metas ((transfer_id, ref) ∷ entries) =
    let (kept, results) = expire now metas entries in
    elim (get metas ref) [
      | none ↦ ((transfer_id, ref) ∷ kept, results)
      | some meta ↦
          if is_expired now meta
          then (kept, timed_out meta.p_req_id ∷ results)
          else ((transfer_id, ref) ∷ kept, results)
    ]

succeeded : String → TransferResult
succeeded request_id = record { request_id = request_id; error = none }

unfoldable pub fetch_finished_sending_reqs : ℕ → SenderState → List TransferResult × SenderState
unfolding succeeded
fetch_finished_sending_reqs now s =
    let (kept, expired) = expire now s.metas s.reqs_need_send in
    (
      map succeeded s.finished_sending_reqs ++ expired,
      record s { reqs_need_send = kept; finished_sending_reqs = [] },
    )

-- `_cancel_send` up to its wait, and the object whose reads it waits for.
unfoldable pub cancel_send : SenderState → String → Option ℕ × SenderState
cancel_send s transfer_id = elim (get s.reqs_need_send transfer_id) [
  | none ↦ (none, s)
  | some ref ↦ (
    some ref,
    record s {
      reqs_need_send = remove s.reqs_need_send transfer_id;
      metas = modify s.metas ref (λ meta. record meta { ready = true });
    },
  )
]

-- The rest of `_cancel_send`.
unfoldable pub cancelled_send : SenderState → String → SenderState
cancelled_send s request_id = record s {
  finished_sending_reqs = discard s.finished_sending_reqs request_id;
}

-- The transfers that a preemption cancels: those that were published.
unfoldable pub published_by : SenderState → String → Dict String ℕ → List String
published_by s request_id [] = []
published_by s request_id ((transfer_id, ref) ∷ entries) =
    let rest = published_by s request_id entries in
    elim (get s.metas ref) [
      | none ↦ rest
      | some meta ↦ if meta.p_req_id == request_id && meta.ready then transfer_id ∷ rest else rest
    ]

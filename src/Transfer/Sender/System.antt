-- ===== src/Transfer/Sender/System.antt =====
-- mtsc/kv_transfer.py: the sender's event loop as a system. Between two waits one function of the
-- loop runs; which one is next is up to the peers, the scheduler and the engine.
pub mod Readers
pub mod Steps
pub mod Safety
pub mod Entries
use mtsc.Worker.State.{SendEvent}
use mtsc.Transfer.Sender.{
  start_reads, publish_send, prepare_send, finish_reads, fetch_finished_sending_reqs,
  cancelled_send, cancel_send, await_entries, WriteOutcome, SenderState, SendBlockMeta,
}
use mtsc.Common.{
  nat_eq, string_eq, ◌≡◌, ◌∷◌, ◌==◌, ◌+◌, ◌++◌, ℕ, true, some, none, if◌then◌else◌, get, false, [],
  String, Option, List, Dict,
}

-- The loop, the batches whose WRITE runs, and the cancellations that wait: a request and its object.
pub record System : Type 0 where
  pub loop : SenderState
  pub in_flight : List (List (String × ℕ))
  pub cancelling : List (String × ℕ)

abbrev pub initial : System
initial = record {
  loop = record { metas = []; next_ref = 0; reqs_need_send = []; finished_sending_reqs = [] };
  in_flight = [];
  cancelling = [];
}

-- Every object whose wait is over has its event set.
abbrev pub AllReady : Dict ℕ SendBlockMeta → List (String × ℕ) → Type 0
AllReady metas [] = Unit
AllReady metas ((d_req_id, ref) ∷ done) =
    (elim (get metas ref) [ none ↦ false | some meta ↦ meta.ready ] ≡ true) × AllReady metas done

abbrev pub add_cancelling : String → Option ℕ → List (String × ℕ) → List (String × ℕ)
add_cancelling request_id none cancelling = cancelling
add_cancelling request_id (some ref) cancelling = (request_id, ref) ∷ cancelling

-- Reads of an object by the batches in flight.
abbrev pub uses : ℕ → List (String × ℕ) → ℕ
uses ref [] = 0
uses ref ((d_req_id, other) ∷ batch) = (if other == ref then 1 else 0) + uses ref batch

abbrev pub readers : ℕ → List (List (String × ℕ)) → ℕ
readers ref [] = 0
readers ref (batch ∷ batches) = uses ref batch + readers ref batches

abbrev pub sending_of : Option SendBlockMeta → ℕ
sending_of none = 0
sending_of (some meta) = meta.sending

pub data Step (s : System) : System → Type 0 where
  prepare :
      (request_id transfer_id : String)
      → Step s (record s { loop = (prepare_send s.loop request_id transfer_id).1 })
  publish :
      (now timeout : ℕ) (event : SendEvent)
      → Step s (record s { loop = publish_send now timeout s.loop event })
  request :
      (req_blocks : List (String × String))
      → Step s (record s { loop = (await_entries s.loop req_blocks).1 })
  start :
      (ranks : ℕ) (done : List (String × ℕ))
      → AllReady s.loop.metas done
      → Step s (record s {
        loop = (start_reads ranks s.loop done).2;
        in_flight = (start_reads ranks s.loop done).0 ∷ s.in_flight;
      })
  finish :
      (outcome : WriteOutcome) (batch : List (String × ℕ)) (before after : List (List (String × ℕ)))
      → s.in_flight ≡ before ++ batch ∷ after
      → Step s (record s { loop = finish_reads outcome s.loop batch; in_flight = before ++ after })
  fetch : (now : ℕ) → Step s (record s { loop = (fetch_finished_sending_reqs now s.loop).1 })
  cancel :
      (request_id transfer_id : String)
      → Step s (record s {
        loop = (cancel_send s.loop transfer_id).1;
        cancelling = add_cancelling request_id (cancel_send s.loop transfer_id).0 s.cancelling;
      })
  cancelled :
      (request_id : String) (ref : ℕ) (before after : List (String × ℕ))
      → s.cancelling ≡ before ++ (request_id, ref) ∷ after
      → sending_of (get s.loop.metas ref) ≡ 0
      → Step s (record s { loop = cancelled_send s.loop request_id; cancelling = before ++ after })

pub data Reach : System → Type 0 where
  here : Reach initial
  next : {s t : System} → Reach s → Step s t → Reach t

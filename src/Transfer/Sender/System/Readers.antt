-- ===== src/Transfer/Sender/System/Readers.antt =====
-- mtsc/kv_transfer.py: the counter `sending` of an object is the number of its reads in flight.
use mtsc.Transfer.Sender.System.{uses, sending_of}
use mtsc.Worker.State.{SendEvent}
use mtsc.Transfer.Sender.{
  written, stop_reads, starts, start_reads, start_read, retire, refused, raised, publish_send,
  prepare_send, note_sent, new_meta, finish_reads, entry_for, count_sent, cancel_send,
  await_entries, WriteOutcome, SenderState, SendBlockMeta,
}
use mtsc.Transfer.Sender.System.Entries.{entry_for-IsWf, IsWf}
use mtsc.Common.{
  nat_eq, string_eq, ◌≡◌, ◌∷◌, ◌∙◌, ◌==◌, ◌-◌, ◌+◌, ℕ, true, suc, some, refl, none, nat_eq, modify,
  member, map_option, inr, inl, if◌then◌else◌, get-put, get-modify, get, false, arith, ap, [],
  String, Option-cases, Option, List, Dict, Bool-cases, Bool,
}

-- A state with as many reads under way of each object.
abbrev pub SameReads : Dict ℕ SendBlockMeta → Dict ℕ SendBlockMeta → Type 0
SameReads before after = (ref : ℕ) → sending_of (get after ref) ≡ sending_of (get before ref)

modify-SameReads :
    (metas : Dict ℕ SendBlockMeta) (ref : ℕ) (f : SendBlockMeta → SendBlockMeta)
    → ((meta : SendBlockMeta) → (f meta).sending ≡ meta.sending)
    → SameReads metas (modify metas ref f)
modify-SameReads metas ref f keeps other =
    ap sending_of (get-modify metas ref other f) ∙ go (ref == other) (get metas other)
  where
    go :
        (here : Bool) (found : Option SendBlockMeta)
        → sending_of (if here then map_option f found else found) ≡ sending_of found
    go false found = refl
    go true none = refl
    go true (some meta) = keeps meta

pub entry_for-SameReads :
    (s : SenderState) (request_id transfer_id : String)
    → IsWf s
    → SameReads s.metas (entry_for s request_id transfer_id).1.metas
unfolding entry_for new_meta
entry_for-SameReads s request_id transfer_id wf ref = ground (
  arith,
  get-put s.metas s.next_ref ref (new_meta request_id transfer_id),
  wf.fresh s.next_ref (omega arith),
  nat_eq.beq_iff s.next_ref ref,
)

pub prepare_send-SameReads :
    (s : SenderState) (request_id transfer_id : String)
    → IsWf s
    → SameReads s.metas (prepare_send s request_id transfer_id).1.metas
unfolding prepare_send
prepare_send-SameReads s request_id transfer_id wf ref =
    modify-SameReads (entry_for s request_id transfer_id).1.metas
      (entry_for s request_id transfer_id).0 (λ meta. record meta { p_req_id = request_id })
      (λ meta. refl) ref
    ∙ entry_for-SameReads s request_id transfer_id wf ref

pub publish_send-SameReads :
    (now timeout : ℕ) (s : SenderState) (event : SendEvent)
    → IsWf s
    → SameReads s.metas (publish_send now timeout s event).metas
unfolding publish_send
publish_send-SameReads now timeout s event wf ref =
    modify-SameReads (prepare_send s event.request_id event.transfer_id).1.metas
      (prepare_send s event.request_id event.transfer_id).0 _ (λ meta. refl) ref
    ∙ prepare_send-SameReads s event.request_id event.transfer_id wf ref

pub await_entries-SameReads :
    (req_blocks : List (String × String)) (s : SenderState)
    → IsWf s
    → SameReads s.metas (await_entries s req_blocks).1.metas
unfolding await_entries
await_entries-SameReads [] s wf ref = refl
await_entries-SameReads ((d_req_id, transfer_id) ∷ req_blocks) s wf ref =
    await_entries-SameReads req_blocks (entry_for s "" transfer_id).1
      (entry_for-IsWf s "" transfer_id wf) ref
    ∙ entry_for-SameReads s "" transfer_id wf ref

pub cancel_send-SameReads :
    (s : SenderState) (transfer_id : String) → SameReads s.metas (cancel_send s transfer_id).1.metas
unfolding cancel_send
cancel_send-SameReads s transfer_id ref = elim (Option-cases (get s.reqs_need_send transfer_id)) [
  | inl missing ↦ ground (arith, missing)
  | inr (found_ref, found) ↦ ground (
    arith,
    found,
    modify-SameReads s.metas found_ref (λ (meta : SendBlockMeta). record meta { ready = true })
        (λ meta. refl) ref,
  )
]

-- What a start adds, for each object, and what the end of a write takes away again.
pub stop_reads-sending :
    (batch : List (String × ℕ)) (metas : Dict ℕ SendBlockMeta) (ref : ℕ)
    → sending_of (get (stop_reads metas batch) ref) ≡ sending_of (get metas ref) - uses ref batch
unfolding stop_reads
stop_reads-sending [] metas ref = omega arith
stop_reads-sending ((d_req_id, other) ∷ batch) metas ref = ground (
  arith,
  stop_reads-sending batch (modify metas other (λ meta. record meta { sending = meta.sending - 1 }))
      ref,
  get-modify metas other ref (λ (meta : SendBlockMeta). record meta { sending = meta.sending - 1 }),
)

one_start :
    (ranks : ℕ) (s : SenderState) (ref other : ℕ)
    → starts s other ≡ true
    → sending_of (get (modify s.metas other (start_read ranks)) ref)
      ≡ (if other == ref then 1 else 0) + sending_of (get s.metas ref)
unfolding starts start_read
one_start ranks s ref other h =
    ground (arith, h, get-modify s.metas other ref (start_read ranks), nat_eq.beq_iff other ref)

pub start_reads-sending :
    (ranks : ℕ) (done : List (String × ℕ)) (s : SenderState) (ref : ℕ)
    → sending_of (get (start_reads ranks s done).2.metas ref)
      ≡ uses ref (start_reads ranks s done).0 + sending_of (get s.metas ref)
unfolding start_reads
start_reads-sending ranks [] s ref = omega arith
start_reads-sending ranks ((d_req_id, other) ∷ done) s ref = elim (Bool-cases (starts s other)) [
  | inl going ↦ ground (
    arith,
    going,
    one_start ranks s ref other going,
    start_reads-sending ranks done (record s { metas = modify s.metas other (start_read ranks) })
        ref,
  )
  | inr gone ↦ ground (arith, gone, start_reads-sending ranks done s ref)
]

count_sent-SameReads : (ref : ℕ) (s : SenderState) → SameReads s.metas (count_sent ref s).metas
unfolding count_sent retire
count_sent-SameReads ref s other = elim (Option-cases (get s.metas ref)) [
  | inl missing ↦ ground (arith, missing)
  | inr (meta, found) ↦ ground (
    arith,
    found,
    modify-SameReads s.metas ref (λ (m : SendBlockMeta). record m { sent = suc m.sent }) (λ m. refl)
        other,
  )
]

note_sent-SameReads :
    (err_reqs : List String) (batch : List (String × ℕ)) (s : SenderState)
    → SameReads s.metas (note_sent err_reqs s batch).metas
unfolding note_sent
note_sent-SameReads err_reqs [] s ref = refl
note_sent-SameReads err_reqs ((d_req_id, other) ∷ batch) s ref = ground (
  arith,
  count_sent-SameReads other s ref,
  note_sent-SameReads err_reqs batch (if member d_req_id err_reqs then s else count_sent other s)
      ref,
)

pub finish_reads-sending :
    (outcome : WriteOutcome) (s : SenderState) (batch : List (String × ℕ)) (ref : ℕ)
    → sending_of (get (finish_reads outcome s batch).metas ref)
      ≡ sending_of (get s.metas ref) - uses ref batch
unfolding finish_reads
finish_reads-sending (written err_reqs) s batch ref =
    stop_reads-sending batch (note_sent err_reqs s batch).metas ref
    ∙ ap (λ n. n - uses ref batch) (note_sent-SameReads err_reqs batch s ref)
finish_reads-sending refused s batch ref = stop_reads-sending batch s.metas ref
finish_reads-sending raised s batch ref = stop_reads-sending batch s.metas ref

-- ===== src/Tests/Sender.antt =====
-- Tests of the sender of mtsc/kv_transfer.py.
use mtsc.Protocol.{KvTransferResponse}
use mtsc.Transfer.Sender.Responses.Fitting.{Replies-AllFit, AllFit}
use mtsc.Transfer.Sender.Responses.{
  timeout_response, serve_round, ran_out, Replies, answered, served,
}
use mtsc.Transfer.Sender.{
  cancelled_send, cancel_send, stop_reads, starts, start_reads, start_read, raised, publish_send,
  prepare_send, new_meta, is_offered, is_expired, finish_reads, fetch_finished_sending_reqs, expire,
  entry_for, await_entries,
}
use mtsc.Common.{
  sym, member, inl, In, subst, ◌==◌, ℕ, true, ok, false, arith, String, List, put, modify, nat_eq,
  string_eq, ◌≡◌, ◌∷◌, some, refl, pos, none, get, [],
}
use mtsc.Worker.State.{SendEvent}
use mtsc.Transfer.Sender.System.{
  cancelled, cancel, add_cancelling, publish, finish, start, sending_of, request, readers, next,
  initial, here, System, Reach, AllReady,
}
use mtsc.Transfer.Sender.System.Safety.{
  start_reads-published, fetch-quiet, cancelled-quiet, AllPublished,
}

abbrev source : SendEvent
source = record { request_id = "p"; transfer_id = "t"; block_ids = (pos 4 ∷ []) ∷ [] }

abbrev offered : System
offered = record initial { loop = publish_send 5 10 initial.loop source }

-- A peer asks for the source before the other, and both are served.
abbrev asked : System
asked = record offered { loop = (await_entries offered.loop (("d", "t") ∷ [])).1 }

abbrev reading : System
reading = record {
  loop = (start_reads 2 asked.loop (("d", 0) ∷ [])).2;
  in_flight = (start_reads 2 asked.loop (("d", 0) ∷ [])).0 ∷ [];
  cancelling = [];
}

abbrev failed : System
failed = record reading { loop = finish_reads raised reading.loop (("d", 0) ∷ []); in_flight = [] }

entry_is_ready : AllReady asked.loop.metas (("d", 0) ∷ [])
unfolding get put modify publish_send prepare_send entry_for new_meta await_entries
entry_is_ready = (refl, tt)

reads_once : reading.in_flight ≡ (("d", 0) ∷ []) ∷ []
unfolding get put modify publish_send prepare_send entry_for new_meta await_entries start_reads
    starts is_offered start_read
reads_once = refl

Reach-offered : Reach offered
Reach-offered = next here (publish 5 10 source)

Reach-asked : Reach asked
Reach-asked = next Reach-offered (request (("d", "t") ∷ []))

Reach-reading : Reach reading
Reach-reading = next Reach-asked (start 2 (("d", 0) ∷ []) entry_is_ready)

Reach-failed : Reach failed
Reach-failed = next Reach-reading (finish raised (("d", 0) ∷ []) [] [] reads_once)

idle : sending_of (get failed.loop.metas 0) ≡ 0
unfolding get put modify publish_send prepare_send entry_for new_meta await_entries start_reads
    starts is_offered start_read finish_reads stop_reads
idle = refl

still_offered : get failed.loop.reqs_need_send "t" ≡ some 0
unfolding get put modify publish_send prepare_send entry_for new_meta await_entries start_reads
    starts is_offered start_read finish_reads stop_reads
still_offered = refl

expired : get (fetch_finished_sending_reqs 20 failed.loop).1.reqs_need_send "t" ≡ none
unfolding get put modify publish_send prepare_send entry_for new_meta await_entries start_reads
    starts is_offered start_read finish_reads stop_reads fetch_finished_sending_reqs expire
    is_expired
expired = refl

-- The request of the source is cancelled after its read has failed.
abbrev waits_for_reads : System
waits_for_reads = record failed {
  loop = (cancel_send failed.loop "t").1;
  cancelling = add_cancelling "p" (cancel_send failed.loop "t").0 failed.cancelling;
}

waits_for_object : waits_for_reads.cancelling ≡ ("p", 0) ∷ []
unfolding get put modify publish_send prepare_send entry_for new_meta await_entries start_reads
    starts is_offered start_read finish_reads stop_reads cancel_send
waits_for_object = refl

reads_ended : sending_of (get waits_for_reads.loop.metas 0) ≡ 0
unfolding get put modify publish_send prepare_send entry_for new_meta await_entries start_reads
    starts is_offered start_read finish_reads stop_reads cancel_send
reads_ended = refl

abbrev cancelled_p : System
cancelled_p = record waits_for_reads {
  loop = cancelled_send waits_for_reads.loop "p";
  cancelling = [];
}

cancelled-quiet_example :
    (readers 0 cancelled_p.in_flight ≡ 0)
    × (member "p" cancelled_p.loop.finished_sending_reqs ≡ false)
cancelled-quiet_example =
    cancelled-quiet "p" 0 (next Reach-failed (cancel "p" "t"))
      (cancelled "p" 0 [] [] waits_for_object reads_ended)
      (subst (In ("p", 0)) (sym waits_for_object) (inl refl)) (λ h. h)

fetch-quiet_example : readers 0 failed.in_flight ≡ 0
fetch-quiet_example = fetch-quiet 20 "t" 0 Reach-failed still_offered expired

start_reads-published_example :
    AllPublished asked.loop.metas (start_reads 2 asked.loop (("d", 0) ∷ [])).0
start_reads-published_example = start_reads-published 2 (("d", 0) ∷ []) Reach-asked entry_is_ready

-- A pull of two requests: the first one is answered, and the wait for the second one runs out.
abbrev two_wait : List (String × ℕ)
two_wait = ("d", 0) ∷ ("e", 1) ∷ []

abbrev two_replies : List KvTransferResponse
two_replies =
    serve_round 1 asked.loop (λ entry. ok []) (pos 0) true (("d", 0) ∷ [])
    ∷ timeout_response ("e" ∷ [])
    ∷ []

two_replies-Replies : Replies two_wait two_replies
two_replies-Replies = served two_wait two_replies (
    answered 1 asked.loop (λ entry. ok []) (pos 0) two_wait (("d", 0) ∷ []) (("e", 1) ∷ [])
      (timeout_response ("e" ∷ []) ∷ []) refl (λ id. omega arith) (ran_out (("e", 1) ∷ []) refl))

e-after-d : (id : String) → ("d" == id) ≡ true → ("e" == id) ≡ false
e-after-d id h = subst (λ (x : String). ("e" == x) ≡ false) ((string_eq.beq_iff "d" id).0 h) refl

Replies-AllFit_example : AllFit two_replies ("d" ∷ "e" ∷ [])
Replies-AllFit_example =
    Replies-AllFit two_wait two_replies two_replies-Replies (λ id. ground (arith, e-after-d id))

-- ===== src/Transfer/Sender/System/Safety.antt =====
-- mtsc/kv_transfer.py: a source is given back only when no WRITE reads it.
use mtsc.Transfer.Sender.System.Readers.{
  start_reads-sending, publish_send-SameReads, prepare_send-SameReads, finish_reads-sending,
  cancel_send-SameReads, await_entries-SameReads,
}
use mtsc.Transfer.Sender.System.Steps.{
  start_reads-IsWf, start_read-IsWf, finished-IsWf, get-expire, finish_reads-IsWf, fetch-IsWf,
  cancel_send-IsWf, after_expiry,
}
use mtsc.Transfer.Sender.{
  starts, start_reads, start_read, is_offered, SenderState, is_expired, fetch_finished_sending_reqs,
  SendBlockMeta, cancelled_send,
}
use mtsc.Transfer.Sender.System.{
  add_cancelling, AllReady, uses, start, sending_of, request, readers, publish, prepare, next,
  initial, here, finish, fetch, cancelled, cancel, System, Step, Reach,
}
use mtsc.Transfer.Sender.System.Entries.{
  publish_send-IsWf, prepare_send-IsWf, await_entries-IsWf, IsWf,
}
use mtsc.Common.{
  ◌⊎◌, subst, member-discard, member, In, true, modify, is_some, inr, inl, get-modify, false,
  Bool-cases, Bool, nat_eq, string_eq, ◌≡◌, ◌∷◌, ◌∙◌, ◌+◌, ◌++◌, ℕ, sym, some, refl, none, get,
  arith, ap, [], String, Option, List, Dict,
}

pub record IsSafe (s : System) : Type 0 where
  pub wf : IsWf s.loop
  pub counted : (ref : ℕ) → sending_of (get s.loop.metas ref) ≡ readers ref s.in_flight

initial-IsSafe : IsSafe initial
unfolding get
initial-IsSafe = record {
  wf = record { unique = tt; fresh = λ ref le. refl; entries = λ transfer_id. refl };
  counted = λ ref. refl;
}

readers-middle :
    (ref : ℕ) (before after : List (List (String × ℕ))) (batch : List (String × ℕ))
    → readers ref (before ++ batch ∷ after) ≡ readers ref (before ++ after) + uses ref batch
readers-middle ref [] after batch = omega arith
readers-middle ref (b ∷ before) after batch = omega (arith, readers-middle ref before after batch)

Step-IsSafe : {s t : System} → Step s t → IsSafe s → IsSafe t
unfolding fetch_finished_sending_reqs cancelled_send
Step-IsSafe {s} (prepare request_id transfer_id) safe = record {
  wf = prepare_send-IsWf s.loop request_id transfer_id safe.wf;
  counted =
      λ ref. prepare_send-SameReads s.loop request_id transfer_id safe.wf ref ∙ safe.counted ref;
}
Step-IsSafe {s} (publish now timeout event) safe = record {
  wf = publish_send-IsWf now timeout s.loop event safe.wf;
  counted = λ ref. publish_send-SameReads now timeout s.loop event safe.wf ref ∙ safe.counted ref;
}
Step-IsSafe {s} (request req_blocks) safe = record {
  wf = await_entries-IsWf req_blocks s.loop safe.wf;
  counted = λ ref. await_entries-SameReads req_blocks s.loop safe.wf ref ∙ safe.counted ref;
}
Step-IsSafe {s} (start ranks done ready) safe = record {
  wf = start_reads-IsWf ranks done s.loop safe.wf;
  counted = λ ref. omega (arith, start_reads-sending ranks done s.loop ref, safe.counted ref);
}
Step-IsSafe {s} (finish outcome batch before after at) safe = record {
  wf = finish_reads-IsWf outcome s.loop batch safe.wf;
  counted = λ ref. omega (
    arith,
    finish_reads-sending outcome s.loop batch ref,
    safe.counted ref,
    ap (readers ref) at,
    readers-middle ref before after batch,
  );
}
Step-IsSafe {s} (fetch now) safe = record {
  wf = fetch-IsWf now s.loop safe.wf;
  counted = safe.counted;
}
Step-IsSafe {s} (cancel request_id transfer_id) safe = record {
  wf = cancel_send-IsWf s.loop transfer_id safe.wf;
  counted = λ ref. cancel_send-SameReads s.loop transfer_id ref ∙ safe.counted ref;
}
Step-IsSafe {s} (cancelled request_id ref before after at quiet) safe = record {
  wf = finished-IsWf s.loop _ safe.wf;
  counted = safe.counted;
}

pub Reach-IsSafe : {s : System} → Reach s → IsSafe s
Reach-IsSafe here = initial-IsSafe
Reach-IsSafe (next reach step) = Step-IsSafe step (Reach-IsSafe reach)

idle-quiet :
    {s : System} (ref : ℕ)
    → Reach s
    → sending_of (get s.loop.metas ref) ≡ 0
    → readers ref s.in_flight ≡ 0
idle-quiet ref reach quiet = sym ((Reach-IsSafe reach).counted ref) ∙ quiet

In-split :
    (x y : String × ℕ) (before after : List (String × ℕ))
    → In x (before ++ y ∷ after)
    → (x ≡ y) ⊎ In x (before ++ after)
In-split x y [] after h = h
In-split x y (z ∷ before) after h = elim h [
  | inl same ↦ inr (inl same)
  | inr later ↦ elim (In-split x y before after later) [ inl e ↦ inl e | inr l ↦ inr (inr l) ]
]

In-add_cancelling :
    (x : String × ℕ) (request_id : String) (found : Option ℕ) (cancelling : List (String × ℕ))
    → In x cancelling
    → In x (add_cancelling request_id found cancelling)
In-add_cancelling x request_id none cancelling h = h
In-add_cancelling x request_id (some ref) cancelling h = inr h

cancelled-by :
    {s : System} (request_id id : String) (ref at : ℕ) (before after : List (String × ℕ))
    → Reach s
    → s.cancelling ≡ before ++ (id, at) ∷ after
    → sending_of (get s.loop.metas at) ≡ 0
    → In (request_id, ref) s.cancelling
    → ¬ In (request_id, ref) (before ++ after)
    → (readers ref s.in_flight ≡ 0)
      × (member request_id (cancelled_send s.loop id).finished_sending_reqs ≡ false)
unfolding cancelled_send
cancelled-by {s} request_id id ref at before after reach split quiet waits over =
    elim (In-split (request_id, ref) (id, at) before after
      (subst (In (request_id, ref)) split waits)) [
        | inl same ↦
            let same_id : request_id ≡ id = ap (λ (p : String × ℕ). p.0) same in
            let same_ref : ref ≡ at = ap (λ (p : String × ℕ). p.1) same in
            (
              subst (λ r. readers r s.in_flight ≡ 0) (sym same_ref) (idle-quiet at reach quiet),
              ground (
                arith,
                member-discard id request_id s.loop.finished_sending_reqs,
                (string_eq.beq_iff id request_id).1 (sym same_id),
              ),
            )
        | inr still ↦ absurd (over still)
      ]

-- In every state that the sender can reach, a step that ends the wait of a cancellation, so that its
-- request and object are no longer among those that wait, leaves no WRITE in flight that reads the
-- object, and the request is not reported as sent.
pub cancelled-quiet :
    {s t : System} (request_id : String) (ref : ℕ)
    → Reach s
    → Step s t
    → In (request_id, ref) s.cancelling
    → ¬ In (request_id, ref) t.cancelling
    → (readers ref t.in_flight ≡ 0) × (member request_id t.loop.finished_sending_reqs ≡ false)
cancelled-quiet request_id ref reach (prepare _ _) waits over = absurd (over waits)
cancelled-quiet request_id ref reach (publish _ _ _) waits over = absurd (over waits)
cancelled-quiet request_id ref reach (request _) waits over = absurd (over waits)
cancelled-quiet request_id ref reach (start _ _ _) waits over = absurd (over waits)
cancelled-quiet request_id ref reach (finish _ _ _ _ _) waits over = absurd (over waits)
cancelled-quiet request_id ref reach (fetch _) waits over = absurd (over waits)
cancelled-quiet request_id ref reach (cancel id transfer_id) waits over =
    absurd (over (In-add_cancelling (request_id, ref) id _ _ waits))
cancelled-quiet request_id ref reach (cancelled id at before after split quiet) waits over =
    cancelled-by request_id id ref at before after reach split quiet waits over

expired-idle :
    (now : ℕ) (metas : Dict ℕ SendBlockMeta) (ref : ℕ) (found : Option SendBlockMeta)
    → get metas ref ≡ found
    → after_expiry now metas (some ref) ≡ none
    → sending_of (get metas ref) ≡ 0
unfolding is_expired
expired-idle now metas ref found at gone = ground (arith, at, gone)

-- In every state that the sender can reach, a source that a poll withdraws as expired is read by no
-- WRITE in flight.
pub fetch-quiet :
    {s : System} (now : ℕ) (transfer_id : String) (ref : ℕ)
    → Reach s
    → get s.loop.reqs_need_send transfer_id ≡ some ref
    → get (fetch_finished_sending_reqs now s.loop).1.reqs_need_send transfer_id ≡ none
    → readers ref s.in_flight ≡ 0
unfolding fetch_finished_sending_reqs
fetch-quiet {s} now transfer_id ref reach found gone =
    let safe = Reach-IsSafe reach in
    idle-quiet ref reach (
      expired-idle now s.loop.metas ref (get s.loop.metas ref) refl (
        ap (after_expiry now s.loop.metas) (sym found)
        ∙ sym (get-expire now s.loop.metas s.loop.reqs_need_send transfer_id safe.wf.unique)
        ∙ gone))

abbrev pub is_published : Option SendBlockMeta → Bool
is_published none = false
is_published (some meta) = is_some meta.expire_time

abbrev pub is_ready : Option SendBlockMeta → Bool
is_ready none = false
is_ready (some meta) = meta.ready

start_read-same :
    (ranks : ℕ) (metas : Dict ℕ SendBlockMeta) (ref other : ℕ)
    → (is_published (get (modify metas ref (start_read ranks)) other)
        ≡ is_published (get metas other))
      × (is_ready (get (modify metas ref (start_read ranks)) other) ≡ is_ready (get metas other))
unfolding start_read
start_read-same ranks metas ref other =
    ground (arith, get-modify metas ref other (start_read ranks))

starts-published :
    (s : SenderState) (ref : ℕ) (found : Option SendBlockMeta)
    → IsWf s
    → get s.metas ref ≡ found
    → starts s ref ≡ true
    → is_ready found ≡ true
    → is_published found ≡ true
unfolding starts is_offered
starts-published s ref none wf at going ready = ready
starts-published s ref (some meta) wf at going ready =
    ground (arith, at, going, ready, wf.entries meta.transfer_id)

-- The requests of a batch whose source was published.
abbrev pub AllPublished : Dict ℕ SendBlockMeta → List (String × ℕ) → Type 0
AllPublished metas [] = Unit
AllPublished metas ((d_req_id, ref) ∷ batch) =
    (is_published (get metas ref) ≡ true) × AllPublished metas batch

AllReady-start :
    (ranks : ℕ) (metas : Dict ℕ SendBlockMeta) (ref : ℕ) (done : List (String × ℕ))
    → AllReady metas done
    → AllReady (modify metas ref (start_read ranks)) done
AllReady-start ranks metas ref [] ready = tt
AllReady-start ranks metas ref ((d_req_id, other) ∷ done) ready = (
  (start_read-same ranks metas ref other).1 ∙ ready.0,
  AllReady-start ranks metas ref done ready.1,
)

AllPublished-start :
    (ranks : ℕ) (metas : Dict ℕ SendBlockMeta) (ref : ℕ) (batch : List (String × ℕ))
    → AllPublished (modify metas ref (start_read ranks)) batch
    → AllPublished metas batch
AllPublished-start ranks metas ref [] published = tt
AllPublished-start ranks metas ref ((d_req_id, other) ∷ batch) published = (
  sym (start_read-same ranks metas ref other).0 ∙ published.0,
  AllPublished-start ranks metas ref batch published.1,
)

start_reads-AllPublished :
    (ranks : ℕ) (done : List (String × ℕ)) (s : SenderState)
    → IsWf s
    → AllReady s.metas done
    → AllPublished s.metas (start_reads ranks s done).0
unfolding start_reads
start_reads-AllPublished ranks [] s wf ready = tt
start_reads-AllPublished ranks ((d_req_id, ref) ∷ done) s wf ready =
    elim (Bool-cases (starts s ref)) [
      | inl going ↦ rw going (
        starts-published s ref (get s.metas ref) wf refl going ready.0,
        AllPublished-start ranks s.metas ref _ (
            start_reads-AllPublished ranks done
              (record s { metas = modify s.metas ref (start_read ranks) })
              (start_read-IsWf ranks s ref wf) (AllReady-start ranks s.metas ref done ready.1)),
      )
      | inr gone ↦ rw gone (start_reads-AllPublished ranks done s wf ready.1)
    ]

-- In every state that the sender can reach, of the requests whose wait is over only those are read
-- whose source was published, so not those that a cancellation woke.
pub start_reads-published :
    {s : System} (ranks : ℕ) (done : List (String × ℕ))
    → Reach s
    → AllReady s.loop.metas done
    → AllPublished s.loop.metas (start_reads ranks s.loop done).0
start_reads-published {s} ranks done reach ready =
    start_reads-AllPublished ranks done s.loop (Reach-IsSafe reach).wf ready

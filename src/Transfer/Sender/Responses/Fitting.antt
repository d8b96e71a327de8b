-- ===== src/Transfer/Sender/Responses/Fitting.antt =====
-- The answers of a sender fit what the receiver holds: each request is answered once.
use mtsc.Scheduler.Allocation.Plan.{planned}
use mtsc.Transfer.Receiver.{is_final, err_of, ok_of}
use mtsc.Transfer.Receiver.Counts.{times-append, times, member-times}
use mtsc.Transfer.Sender.Responses.{
  unpaired, served, error_response, Replies, ran_out, answered, timeout_response, is_waiting,
  all_served, Serves, write_batch, serve_round, round_response, or_none, ids_of,
  build_transfer_params,
}
use mtsc.Transfer.Sender.{starts, start_reads, start_read, SenderState}
use mtsc.Protocol.{KvTransferResponse}
use mtsc.Transfer.Receiver.Progress.{times-rest, Distinct, rest_of-final, rest_of, Fits}
use mtsc.Transfer.Runs.{Copy}
use mtsc.Common.{
  ◌∙◌, true, sym, false, ap, ==_refl, int_eq, nat_eq, string_eq, ◌≤◌, ◌≡◌, ◌∷◌, ◌==◌, ◌+◌, ◌++◌,
  ◌&&◌, ℤ, ℕ, string_eq, refl, pos, or_else, not, modify, member, ltb, length, keep_if, inr, inl,
  if◌then◌else◌, arith, [], String, Result-cases, Result, List, Bool-cases, Bool,
}

-- Each response fits what is left when it comes, and after the last one nothing is left.
abbrev pub AllFit : List KvTransferResponse → List String → Type 0
AllFit [] remaining = remaining ≡ []
AllFit (response ∷ responses) remaining =
    Fits response remaining × AllFit responses (rest_of response remaining)

or_none-or_else : (ids : List String) → or_else (or_none ids) [] ≡ ids
unfolding or_none
or_none-or_else [] = refl
or_none-or_else (id ∷ ids) = refl

-- The requests of a round are ready or expired.
start_reads-times :
    (id : String) (ranks : ℕ) (s : SenderState) (entries : List (String × ℕ))
    → times id (ids_of (start_reads ranks s entries).0) + times id (start_reads ranks s entries).1
      ≡ times id (ids_of entries)
unfolding start_reads
start_reads-times id ranks s [] = omega arith
start_reads-times id ranks s ((d_req_id, ref) ∷ entries) = elim (Bool-cases (starts s ref)) [
  | inl going ↦
      let s' = record s { metas = modify s.metas ref (start_read ranks) } in
      rw (going, start_reads) (omega (arith, start_reads-times id ranks s' entries))
  | inr gone ↦ rw (gone, start_reads) (omega (arith, start_reads-times id ranks s entries))
]

build-times :
    (id : String) (build : String × ℕ → Result (List Copy)) (ready : List (String × ℕ))
    → times id (build_transfer_params build ready).err_reqs ≤ times id (ids_of ready)
unfolding build_transfer_params
build-times id build [] = omega arith
build-times id build ((d_req_id, ref) ∷ ready) = elim (Result-cases (build (d_req_id, ref))) [
  | inl (copies, planned) ↦
      rw (planned, build_transfer_params) (omega (arith, build-times id build ready))
  | inr (problem, stops) ↦
      rw (stops, build_transfer_params) (omega (arith, build-times id build ready))
]

times-keep_if :
    (id : String) (errs ids : List String)
    → times id (keep_if (λ i. not (member i errs)) ids)
      ≡ (if member id errs then 0 else times id ids)
times-keep_if id errs [] = ground arith
times-keep_if id errs (x ∷ ids) = ground (arith, times-keep_if id errs ids, string_eq.beq_iff x id)

-- With each request once, those that are ready are done or have failed.
write_batch-times :
    (id : String) (build : String × ℕ → Result (List Copy)) (ret : ℤ) (ready : List (String × ℕ))
    → times id (ids_of ready) ≤ 1
    → let sent = write_batch ready (build_transfer_params build ready) ret in
      times id sent.ok_reqs + times id sent.err_reqs ≡ times id (ids_of ready)
unfolding write_batch
write_batch-times id build ret ready once =
    let batch = build_transfer_params build ready in
    let kept = keep_if (λ i. not (member i batch.err_reqs)) (ids_of ready) in
    let facts : times id kept + times id batch.err_reqs ≡ times id (ids_of ready) = ground (
      arith,
      once,
      build-times id build ready,
      times-keep_if id batch.err_reqs (ids_of ready),
      member-times id batch.err_reqs,
    ) in
    elim (Bool-cases (ltb 0 (length batch.copies) && not (ret == pos 0))) [
      | inl refusal ↦ rw refusal (omega (arith, facts, times-append id batch.err_reqs kept))
      | inr written_all ↦ rw written_all facts
    ]

serve_round-times :
    (id : String) (ranks : ℕ) (s : SenderState) (build : String × ℕ → Result (List Copy)) (ret : ℤ)
    (more : Bool) (entries : List (String × ℕ))
    → times id (ids_of entries) ≤ 1
    → let response = serve_round ranks s build ret more entries in
      times id (ok_of response) + times id (or_else response.err_reqs [])
      ≡ times id (ids_of entries)
unfolding serve_round round_response
serve_round-times id ranks s build ret more entries once =
    let ready = (start_reads ranks s entries).0 in
    let expired = (start_reads ranks s entries).1 in
    let sent = write_batch ready (build_transfer_params build ready) ret in
    let split = start_reads-times id ranks s entries in
    rw (or_none-or_else sent.ok_reqs) (
      rw (or_none-or_else (sent.err_reqs ++ expired)) (
        omega (
          arith,
          split,
          write_batch-times id build ret ready (omega (arith, split, once)),
          times-append id sent.err_reqs expired,
        )))

-- Lists that name the same requests, each once.
abbrev Same : List String → List String → Type 0
Same remaining waiting =
    (id : String) → (times id remaining ≡ times id waiting) × (times id waiting ≤ 1)

no-times : (xs : List String) → ((id : String) → times id xs ≡ 0) → xs ≡ []
no-times [] none_left = refl
no-times (x ∷ xs) none_left = ground (arith, none_left x, ==_refl x)

serve_round-final :
    (ranks : ℕ) (s : SenderState) (build : String × ℕ → Result (List Copy)) (ret : ℤ) (more : Bool)
    (entries : List (String × ℕ))
    → is_final (serve_round ranks s build ret more entries).status ≡ not more
unfolding serve_round round_response
serve_round-final ranks s build ret true entries = refl
serve_round-final ranks s build ret false entries = refl

none-left :
    (left : List (String × ℕ)) (id : String) → is_waiting left ≡ false → times id (ids_of left) ≡ 0
none-left [] id h = refl
none-left (entry ∷ left) id h = cc h

-- A round that answers for `over` leaves the receiver with what is left.
module _ (response : KvTransferResponse) (remaining : List String) (over left : List (String × ℕ))
    (answers_over : (id : String)
      → times id (ok_of response) + times id (or_else response.err_reqs [])
        ≡ times id (ids_of over))
    (splits : (id : String) → times id (ids_of over) + times id (ids_of left) ≡ times id remaining)
    (distinct : Distinct remaining) where
  last-leaves :
      is_final response.status ≡ true
      → is_waiting left ≡ false
      → Fits response remaining
        × ((id : String) → times id (rest_of response remaining) ≡ times id (ids_of left))
  last-leaves final no_more = (
    λ id. rw final (omega (arith, answers_over id, splits id)),
    λ id. ap (times id) (rest_of-final response remaining final) ∙ sym (none-left left id no_more),
  )

  round-leaves :
      is_final response.status ≡ false
      → Fits response remaining
        × ((id : String) → times id (rest_of response remaining) ≡ times id (ids_of left))
  round-leaves open_still =
      let fits : Fits response remaining =
        λ id. rw open_still (omega (arith, answers_over id, splits id)) in
      let errs : err_of response remaining ≡ or_else response.err_reqs [] = rw open_still refl in
      (
        fits,
        λ id. omega (
          arith,
          answers_over id,
          splits id,
          times-rest response remaining id distinct fits,
          times-append id (ok_of response) (err_of response remaining),
          ap (times id) errs,
        ),
      )

Serves-AllFit :
    (waiting : List (String × ℕ)) (responses : List KvTransferResponse) (remaining : List String)
    → Serves waiting responses
    → Same remaining (ids_of waiting)
    → AllFit responses remaining
Serves-AllFit waiting responses remaining all_served same = no-times remaining (λ id. (same id).0)
Serves-AllFit waiting responses remaining (ran_out _ some_wait) same =
    (λ id. omega arith, rest_of-final (timeout_response (ids_of waiting)) remaining refl)
Serves-AllFit waiting responses remaining
      (answered ranks s build ret _ over left later _ splits rest) same =
    let more = is_waiting left in
    let response = serve_round ranks s build ret more over in
    let answers_over : (id : String)
        → times id (ok_of response) + times id (or_else response.err_reqs [])
          ≡ times id (ids_of over) =
      λ id.
        serve_round-times id ranks s build ret more over (omega (arith, splits id, (same id).1)) in
    let splits' : (id : String)
        → times id (ids_of over) + times id (ids_of left) ≡ times id remaining =
      λ id. splits id ∙ sym (same id).0 in
    let distinct : Distinct remaining = λ id. omega (arith, same id) in
    let final : is_final response.status ≡ not more =
      serve_round-final ranks s build ret more over in
    let (fits, leaves) : Fits response remaining
        × ((id : String) → times id (rest_of response remaining) ≡ times id (ids_of left)) =
      elim (Bool-cases more) [
        | inl goes_on ↦
            round-leaves response remaining over left answers_over splits' distinct
              (final ∙ ap not goes_on)
        | inr ends ↦
            last-leaves response remaining over left answers_over splits' distinct
              (final ∙ ap not ends) ends
      ] in
    (
      fits,
      Serves-AllFit left later (rest_of response remaining) rest
          (λ id. (leaves id, omega (arith, splits id, (same id).1))),
    )

-- Whatever the order in which the sources become ready, whatever happens to them meanwhile, and
-- whether the request pairs with this rank, its blocks can be planned, the engine writes them or the
-- wait runs out: every answer to a pull of distinct requests names requests that the receiver still
-- waits for, each once, and after the last answer it waits for none.
pub Replies-AllFit :
    (waiting : List (String × ℕ)) (responses : List KvTransferResponse)
    → Replies waiting responses
    → Distinct (ids_of waiting)
    → AllFit responses (ids_of waiting)
Replies-AllFit waiting responses (unpaired _ problem) distinct =
    (λ id. omega arith, rest_of-final (error_response problem) (ids_of waiting) refl)
Replies-AllFit waiting responses (served _ _ run) distinct =
    Serves-AllFit waiting responses (ids_of waiting) run (same distinct)
  where
    same : Distinct (ids_of waiting) → Same (ids_of waiting) (ids_of waiting)
    same distinct id = (refl, distinct id)

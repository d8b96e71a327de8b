-- ===== src/Transfer/Receiver/Progress.antt =====
-- mtsc/kv_transfer.py: when a pull is finished.
use mtsc.Transfer.Receiver.{process_pulling_result, ok_of, is_final, err_of, answer_all, PullState}
use mtsc.Common.{
  sym, ap, ℕ, ltb, not, keep_if, false, Bool, ==_refl, nat_eq, string_eq, ◌≤◌, ◌≡◌, ◌∷◌, ◌∙◌, ◌||◌,
  ◌==◌, ◌+◌, ◌++◌, ◌&&◌, update, true, refl, or_else, ok, member-update, member, if◌then◌else◌,
  difference, arith, [], String, List,
}
use mtsc.Protocol.{KvTransferResponse}
use mtsc.Transfer.Receiver.Counts.{
  times-difference, times-append, times, member-times, holders, count_of, answer_all-AreAnswered,
  IsReceiving, AreAnswered,
}

-- The counts are right for the peers that have not answered everything.
abbrev pub IsCounted : PullState → List (List String) → Type 0
IsCounted p peers = (id : String) → count_of p.metas id ≡ holders id peers

abbrev pub Distinct : List String → Type 0
Distinct ids = (id : String) → times id ids ≤ 1

-- A response of a peer names requests that the peer still holds, each once.
abbrev pub Fits : KvTransferResponse → List String → Type 0
Fits response remaining =
    (id : String)
    → times id (ok_of response)
        + (if is_final response.status then 0 else times id (or_else response.err_reqs []))
      ≤ times id remaining

abbrev pub answers : KvTransferResponse → List String → List String
answers response remaining = ok_of response ++ err_of response remaining

pub times-answers :
    (response : KvTransferResponse) (remaining : List String) (id : String)
    → Fits response remaining
    → times id (answers response remaining) ≤ times id remaining
times-answers response remaining id fits = ground (
  arith,
  fits id,
  times-append id (ok_of response) (err_of response remaining),
  times-difference id remaining (ok_of response),
  member-times id (ok_of response),
)

-- What the peer still holds afterwards.
abbrev pub rest_of : KvTransferResponse → List String → List String
rest_of response remaining =
    difference (difference remaining (ok_of response)) (err_of response remaining)

pub times-rest :
    (response : KvTransferResponse) (remaining : List String) (id : String)
    → Distinct remaining
    → Fits response remaining
    → times id (rest_of response remaining) + times id (answers response remaining)
      ≡ times id remaining
times-rest response remaining id distinct fits = ground (
  arith,
  distinct id,
  times-answers response remaining id fits,
  times-append id (ok_of response) (err_of response remaining),
  times-difference id (difference remaining (ok_of response)) (err_of response remaining),
  times-difference id remaining (ok_of response),
  member-times id (ok_of response),
  member-times id (err_of response remaining),
)

holders-middle :
    (id : String) (before after : List (List String)) (remaining : List String)
    → holders id (before ++ remaining ∷ after) ≡ holders id (before ++ after) + times id remaining
holders-middle id [] after remaining = omega arith
holders-middle id (peer ∷ before) after remaining =
    omega (arith, holders-middle id before after remaining)

-- The state in which the answers are counted.
abbrev pub with_failures : KvTransferResponse → PullState → List String → PullState
with_failures response p remaining = record p {
  loop = record p.loop { failed_recv = update p.loop.failed_recv (err_of response remaining) };
}

process-AreAnswered :
    (response : KvTransferResponse) (p : PullState) (remaining : List String)
    (before after : List (List String))
    → IsCounted p (before ++ remaining ∷ after)
    → IsReceiving p
    → Fits response remaining
    → ((answer_all (with_failures response p remaining) (answers response remaining)).0 ≡ ok tt)
      × AreAnswered
          (with_failures response p remaining)
          (answers response remaining)
          (answer_all (with_failures response p remaining) (answers response remaining)).1
process-AreAnswered response p remaining before after counted receiving fits =
    answer_all-AreAnswered (with_failures response p remaining) (answers response remaining)
      receiving
      (λ id. omega (
        arith,
        times-answers response remaining id fits,
        counted id,
        holders-middle id before after remaining,
      ))

-- What a response leaves.
pub record IsProcessed (p : PullState) (remaining err_reqs : List String) (p' : PullState)
    (peers : List (List String)) : Type 0 where
  pub counts : IsCounted p' peers
  pub finishes :
      (id : String)
      → member id p'.loop.finished_recving_reqs
        ≡ (member id p.loop.finished_recving_reqs || (member id remaining && holders id peers == 0))
  pub fails :
      (id : String)
      → member id p'.loop.failed_recv ≡ (member id p.loop.failed_recv || member id err_reqs)

finish_test :
    (known : Bool) (answered' rest held count left : ℕ)
    → count ≡ left
    → rest + answered' ≡ held
    → rest ≤ left
    → (known || (ltb 0 answered' && count == 0)) ≡ (known || (ltb 0 held && left == 0))
finish_test known answered' rest held count left same sum le = ground arith

-- When a peer answers requests that it still holds, each once, no exception is raised. The counts of
-- the pull stay the numbers of the peers that hold a request, a request becomes finished exactly if
-- this was the last peer to hold it, and it has failed exactly if it had before or this answer fails
-- it.
pub process_pulling_result_lem :
    (response : KvTransferResponse) (p : PullState) (remaining : List String)
    (before after : List (List String))
    → IsCounted p (before ++ remaining ∷ after)
    → IsReceiving p
    → Distinct remaining
    → Fits response remaining
    → let (outcome, remaining', p') = process_pulling_result response p remaining in
      (outcome ≡ ok tt)
      × IsProcessed p remaining (err_of response remaining) p' (before ++ remaining' ∷ after)
unfolding process_pulling_result
process_pulling_result_lem response p remaining before after counted receiving distinct fits =
    let p' = (answer_all (with_failures response p remaining) (answers response remaining)).1 in
    let peers = before ++ rest_of response remaining ∷ after in
    let (done, answered') =
      process-AreAnswered response p remaining before after counted receiving fits in
    let counts : IsCounted p' peers = λ id. omega (
      arith,
      answered'.counts id,
      counted id,
      times-rest response remaining id distinct fits,
      holders-middle id before after remaining,
      holders-middle id before after (rest_of response remaining),
    ) in
    rw (done, process_pulling_result)
      (
        refl,
        record {
          counts = counts;
          finishes = λ id.
              answered'.finishes id
              ∙ finish_test (member id p.loop.finished_recving_reqs)
                  (times id (answers response remaining)) (times id (rest_of response remaining))
                  (times id remaining) (count_of p'.metas id) (holders id peers) (counts id)
                  (times-rest response remaining id distinct fits)
                  (omega (arith, holders-middle id before after (rest_of response remaining)))
              ∙ ap
                  (λ held.
                    member id p.loop.finished_recving_reqs || (held && holders id peers == 0))
                  (sym (member-times id remaining));
          fails = λ id.
              answered'.fails id ∙ member-update id p.loop.failed_recv (err_of response remaining);
        },
      )

keep_if-none :
    (q : String → Bool) (xs : List String)
    → ((id : String) → member id xs ≡ true → q id ≡ false)
    → keep_if q xs ≡ []
unfolding member
keep_if-none q [] absent = refl
keep_if-none q (x ∷ xs) absent =
    rw (absent x (ground (arith, ==_refl x)), keep_if)
      (keep_if-none q xs (λ id among. absent id (ground (arith, among))))

-- After a peer's last answer it holds nothing.
pub rest_of-final :
    (response : KvTransferResponse) (remaining : List String)
    → is_final response.status ≡ true
    → rest_of response remaining ≡ []
unfolding difference
rest_of-final response remaining final =
    let left = difference remaining (ok_of response) in
    rw final (keep_if-none (λ id. not (member id left)) left (λ id among. ground (arith, among)))

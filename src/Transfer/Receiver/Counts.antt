-- ===== src/Transfer/Receiver/Counts.antt =====
-- mtsc/kv_transfer.py: `pull_tasks_count` is the number of the peers that have not answered.
use mtsc.Worker.State.{RecvEvent}
use mtsc.Transfer.Receiver.{answer_all, finish_receive, PullReqMeta, answer_one, Pulls, PullState}
use mtsc.Common.{
  ◌≤◌, ◌∙◌, ap, ==_refl, ◌-◌, member-add, inr, inl, get-put, Option-cases, nat_eq, string_eq, ◌≡◌,
  ◌∷◌, ◌||◌, ◌==◌, ◌<◌, ◌+◌, ◌++◌, ◌&&◌, ℕ, string_eq, some, refl, ok, none, member, ltb,
  if◌then◌else◌, get, difference, arith, [], String, List,
}

-- Answers to a request.
abbrev pub times : String → List String → ℕ
times request_id [] = 0
times request_id (other ∷ request_ids) =
    (if other == request_id then 1 else 0) + times request_id request_ids

abbrev pub count_of : Pulls → String → ℕ
count_of metas request_id = elim (get metas request_id) [
  | none ↦ 0
  | some meta ↦ meta.pull_tasks_count
]

-- The peers that still hold a request.
abbrev pub holders : String → List (List String) → ℕ
holders request_id [] = 0
holders request_id (remaining ∷ peers) = times request_id remaining + holders request_id peers

pub times-append :
    (id : String) (xs ys : List String) → times id (xs ++ ys) ≡ times id xs + times id ys
times-append id [] ys = omega arith
times-append id (x ∷ xs) ys = omega (arith, times-append id xs ys)

pub times-difference :
    (id : String) (xs ys : List String)
    → times id (difference xs ys) ≡ (if member id ys then 0 else times id xs)
unfolding difference
times-difference id [] ys = ground arith
times-difference id (x ∷ xs) ys = ground (arith, times-difference id xs ys, string_eq.beq_iff x id)

pub member-times : (id : String) (xs : List String) → member id xs ≡ ltb 0 (times id xs)
unfolding member
member-times id [] = refl
member-times id (x ∷ xs) = ground (arith, member-times id xs)

-- Everything that has an answer to come is being received.
abbrev pub IsReceiving : PullState → Type 0
IsReceiving p =
    (id : String)
    → 0 < count_of p.metas id
    → (event : RecvEvent) × (get p.loop.recv_events id ≡ some event) × (event.request_id ≡ id)

-- What one answer does to the counts and to what is finished.
pub record IsAnswered (p : PullState) (id : String) (p' : PullState) : Type 0 where
  pub counts :
      (other : String)
      → count_of p'.metas other + (if id == other then 1 else 0) ≡ count_of p.metas other
  pub finishes :
      (other : String)
      → member other p'.loop.finished_recving_reqs ≡ (
          member other p.loop.finished_recving_reqs
          || (id == other && count_of p'.metas other == 0))
  pub events : p'.loop.recv_events ≡ p.loop.recv_events
  pub fails : (other : String) → member other p'.loop.failed_recv ≡ member other p.loop.failed_recv

count_of-found :
    (metas : Pulls) (id : String)
    → 0 < count_of metas id
    → (meta : PullReqMeta) × (get metas id ≡ some meta)
count_of-found metas id positive = elim (Option-cases (get metas id)) [
  | inl missing ↦ ground (arith, positive, missing)
  | inr found ↦ found
]

module _ (p : PullState) (id : String) (meta : PullReqMeta) (event : RecvEvent)
    (found : get p.metas id ≡ some meta) (positive : 0 < meta.pull_tasks_count)
    (at : get p.loop.recv_events id ≡ some event) (same : event.request_id ≡ id) where
  answer_one-ok : (answer_one p id).0 ≡ ok tt
  unfolding answer_one
  answer_one-ok = ground (arith, found, at)

  answer_one-counts :
      (other : String)
      → count_of (answer_one p id).1.metas other + (if id == other then 1 else 0)
        ≡ count_of p.metas other
  unfolding answer_one
  answer_one-counts other = ground (
    arith,
    found,
    positive,
    at,
    get-put p.metas id other (record meta { pull_tasks_count = meta.pull_tasks_count - 1 }),
    string_eq.beq_iff id other,
  )

  answer_one-finishes :
      (other : String)
      → member other (answer_one p id).1.loop.finished_recving_reqs ≡ (
          member other p.loop.finished_recving_reqs
          || (id == other && count_of (answer_one p id).1.metas other == 0))
  unfolding answer_one finish_receive
  answer_one-finishes other = ground (
    arith,
    found,
    positive,
    at,
    same,
    member-add other id p.loop.finished_recving_reqs,
    get-put p.metas id other (record meta { pull_tasks_count = meta.pull_tasks_count - 1 }),
    string_eq.beq_iff id other,
  )

  answer_one-fails :
      (other : String)
      → member other (answer_one p id).1.loop.failed_recv ≡ member other p.loop.failed_recv
  unfolding answer_one finish_receive
  answer_one-fails other =
      ground
        (arith, found, at, same, member-add other id p.loop.failed_recv, string_eq.beq_iff id other)

  answer_one-events : (answer_one p id).1.loop.recv_events ≡ p.loop.recv_events
  unfolding answer_one finish_receive
  answer_one-events = ground (arith, found, at)

answer_one-IsAnswered :
    (p : PullState) (id : String)
    → IsReceiving p
    → 0 < count_of p.metas id
    → ((answer_one p id).0 ≡ ok tt) × IsAnswered p id (answer_one p id).1
answer_one-IsAnswered p id receiving positive =
    let (meta, found) = count_of-found p.metas id positive in
    let (event, at, same) = receiving id positive in
    let more : 0 < meta.pull_tasks_count = ground (arith, positive, found) in
    (
      answer_one-ok p id meta event found more at same,
      record {
        counts = answer_one-counts p id meta event found more at same;
        finishes = answer_one-finishes p id meta event found more at same;
        events = answer_one-events p id meta event found more at same;
        fails = answer_one-fails p id meta event found more at same;
      },
    )

IsAnswered-IsReceiving :
    (p : PullState) (id : String) (p' : PullState)
    → IsAnswered p id p'
    → IsReceiving p
    → IsReceiving p'
IsAnswered-IsReceiving p id p' one receiving other positive =
    let (event, at, same) = receiving other (omega (arith, positive, one.counts other)) in
    (event, ap (λ events. get events other) one.events ∙ at, same)

-- What a list of answers does to the counts and to what is finished.
pub record AreAnswered (p : PullState) (ids : List String) (p' : PullState) : Type 0 where
  pub counts : (other : String) → count_of p'.metas other + times other ids ≡ count_of p.metas other
  pub finishes :
      (other : String)
      → member other p'.loop.finished_recving_reqs ≡ (
          member other p.loop.finished_recving_reqs
          || (ltb 0 (times other ids) && count_of p'.metas other == 0))
  pub events : p'.loop.recv_events ≡ p.loop.recv_events
  pub fails : (other : String) → member other p'.loop.failed_recv ≡ member other p.loop.failed_recv

AreAnswered-next :
    (p : PullState) (id : String) (p' : PullState) (ids : List String) (p'' : PullState)
    → IsAnswered p id p'
    → AreAnswered p' ids p''
    → AreAnswered p (id ∷ ids) p''
AreAnswered-next p id p' ids p'' one rest = record {
  counts = λ other. omega (arith, one.counts other, rest.counts other);
  finishes = λ other.
      ground (arith, one.finishes other, rest.finishes other, one.counts other, rest.counts other);
  events = rest.events ∙ one.events;
  fails = λ other. rest.fails other ∙ one.fails other;
}

pub answer_all-AreAnswered :
    (p : PullState) (ids : List String)
    → IsReceiving p
    → ((id : String) → times id ids ≤ count_of p.metas id)
    → ((answer_all p ids).0 ≡ ok tt) × AreAnswered p ids (answer_all p ids).1
unfolding answer_all
answer_all-AreAnswered p [] receiving few = (
  refl,
  record {
    counts = λ other. omega arith;
    finishes = λ other. ground arith;
    fails = λ other. refl;
    events = refl;
  },
)
answer_all-AreAnswered p (id ∷ ids) receiving few =
    let p' = (answer_one p id).1 in
    let (done, one) = answer_one-IsAnswered p id receiving (ground (arith, few id, ==_refl id)) in
    let (done', rest) =
      answer_all-AreAnswered p' ids (IsAnswered-IsReceiving p id p' one receiving)
        (λ other. omega (arith, few other, one.counts other)) in
    rw (done, answer_all) (done', AreAnswered-next p id p' ids (answer_all p' ids).1 one rest)

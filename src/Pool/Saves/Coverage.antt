-- ===== src/Pool/Saves/Coverage.antt =====
-- mtsc/kv_cache_pool.py: no token that is to be saved is forgotten.
use mtsc.Worker.State.{SaveResult, SaveEvent}
use mtsc.Common.{
  if◌then◌else◌, ◌++◌, put, ◌∙◌, get-put, ap, ==_refl, nat_eq, string_eq, ◌≡◌, ◌∷◌, ◌||◌, ◌==◌,
  ◌&&◌, ℕ, true, string_eq, some, refl, none, min, member, max, map, ltb, leb, inr, inl, get, false,
  arith, any_of, [], Unique, String, Option, List, Dict, Bool-cases, Bool,
}
use mtsc.Pool.Saves.{
  is_idle, queued, poll_saves, merge, enqueue, can_merge, advance_save, SaveState, Outcome, save,
}

-- Whether the event asks for a token.
abbrev pub asks : ℕ → SaveEvent → Bool
asks t event = leb event.start_save t && ltb t event.end_save

-- Whether a state has yet to save a token, when its running save has come to `outcome`.
abbrev pub left_running : ℕ → Outcome → Option SaveEvent → Bool
left_running t none (some event) = asks t event
left_running t _ _ = false

abbrev pub left : ℕ → Outcome → Option SaveState → Bool
left t outcome none = false
left t outcome (some state) = left_running t outcome state.running || any_of (asks t) state.pending

-- Merging neither loses nor adds a token.
merge-asks :
    (old new : SaveEvent) (sizes : List ℕ) (t : ℕ)
    → can_merge old new sizes ≡ true
    → (leb (min old.start_save new.start_save) t && ltb t (max old.end_save new.end_save))
      ≡ (asks t old || asks t new)
unfolding can_merge
merge-asks old new sizes t h = grind (arith, h)

enqueue-asks :
    (sizes : List ℕ) (pending : List SaveEvent) (event : SaveEvent) (t : ℕ)
    → any_of (asks t) (enqueue sizes pending event) ≡ (any_of (asks t) pending || asks t event)
unfolding enqueue merge
enqueue-asks sizes [] event t = ground arith
enqueue-asks sizes (old ∷ []) event t = elim (Bool-cases (can_merge old event sizes)) [
  | inl whole ↦ ground (arith, whole, merge-asks old event sizes t whole)
  | inr apart ↦ ground (arith, apart)
]
enqueue-asks sizes (old ∷ next ∷ rest) event t =
    ground (arith, enqueue-asks sizes (next ∷ rest) event t)

advance_save-left :
    (t : ℕ) (outcome : Outcome) (state : SaveState)
    → left t none (some (advance_save outcome state)) ≡ left t outcome (some state)
unfolding advance_save
advance_save-left t outcome state = ground arith

queued-left :
    (sizes : List ℕ) (outcome : Outcome) (event : SaveEvent) (t : ℕ) (found : Option SaveState)
    → left t outcome (some (queued sizes event found)) ≡ (left t outcome found || asks t event)
unfolding queued
queued-left sizes none event t none = enqueue-asks sizes [] event t
queued-left sizes (some problem) event t none = enqueue-asks sizes [] event t
queued-left sizes outcome event t (some state) =
    ground (arith, enqueue-asks sizes state.pending event t)

get-own :
    (states : Dict String SaveState) (id : String) (state : SaveState)
    → get (put states id state) id ≡ some state
get-own states id state = ground (arith, get-put states id id state, ==_refl id)

-- After a save is submitted, a token is left to be saved for its request exactly if the request had
-- it left before, by what its running save has come to, or the new event asks for it; the states
-- of the other requests stay as they are.
pub save-left :
    (sizes : List ℕ) (outcome : Outcome) (states : Dict String SaveState) (event : SaveEvent)
    (t : ℕ)
    → (left t none (get (save sizes outcome states event) event.request_id)
        ≡ (left t outcome (get states event.request_id) || asks t event))
      × ((id : String)
          → (event.request_id == id) ≡ false
          → get (save sizes outcome states event) id ≡ get states id)
unfolding save
save-left sizes outcome states event t =
    let id = event.request_id in
    let state = queued sizes event (get states id) in
    (
      ap (left t none) (get-own states id (advance_save outcome state))
          ∙ advance_save-left t outcome state
          ∙ queued-left sizes outcome event t (get states id),
      λ j other. ground (arith, other, get-put states id j (advance_save outcome state)),
    )

-- The first save that waits now runs; if none waits, the request is reported and forgotten.
abbrev pub take_up : SaveState → List String → List SaveEvent → Bool × Option SaveState
take_up state problems [] = (true, none)
take_up state problems (event ∷ rest) =
    (false, some (record state { running = some event; pending = rest; errors = problems }))

-- What a poll does to the saves of a request, by its running save and what that has come to.
abbrev pub after_poll_of : Option SaveEvent → Outcome → SaveState → Bool × Option SaveState
after_poll_of (some event) none state = (false, some state)
after_poll_of (some event) (some none) state = take_up state state.errors state.pending
after_poll_of (some event) (some (some text)) state =
    take_up state (state.errors ++ text ∷ []) state.pending
after_poll_of none outcome state = take_up state state.errors state.pending

abbrev pub after_poll : Outcome → Option SaveState → Bool × Option SaveState
after_poll outcome none = (false, none)
after_poll outcome (some state) = after_poll_of state.running outcome state

-- The step that the code takes, looking for an idle state.
abbrev advanced : Outcome → Option SaveState → Bool × Option SaveState
advanced outcome none = (false, none)
advanced outcome (some state) =
    let state' = advance_save outcome state in
    if is_idle state' then (true, none) else (false, some state')

advance_save-after_poll :
    (running : Option SaveEvent) (outcome : Outcome) (pending : List SaveEvent) (state : SaveState)
    → state.running ≡ running
    → state.pending ≡ pending
    → advanced outcome (some state) ≡ after_poll outcome (some state)
unfolding advance_save is_idle
advance_save-after_poll none outcome [] state at waits = ground (arith, at, waits)
advance_save-after_poll none outcome (e ∷ rest) state at waits = ground (arith, at, waits)
advance_save-after_poll (some event) none pending state at waits = ground (arith, at, waits)
advance_save-after_poll (some event) (some none) [] state at waits = ground (arith, at, waits)
advance_save-after_poll (some event) (some none) (e ∷ rest) state at waits =
    ground (arith, at, waits)
advance_save-after_poll (some event) (some (some text)) [] state at waits =
    ground (arith, at, waits)
advance_save-after_poll (some event) (some (some text)) (e ∷ rest) state at waits =
    ground (arith, at, waits)

advanced-after_poll :
    (outcome : Outcome) (found : Option SaveState)
    → advanced outcome found ≡ after_poll outcome found
advanced-after_poll outcome none = refl
advanced-after_poll outcome (some state) =
    advance_save-after_poll state.running outcome state.pending state refl refl

poll_saves-advanced :
    (outcomes : String → Outcome) (states : Dict String SaveState) (id : String)
    → Unique states
    → (
      member id (map (λ (result : SaveResult). result.request_id) (poll_saves outcomes states).1),
      get (poll_saves outcomes states).0 id,
    )
      ≡ advanced (outcomes id) (get states id)
unfolding poll_saves get member
poll_saves-advanced outcomes [] id u = refl
poll_saves-advanced outcomes ((j, state) ∷ states) id u =
    ground (arith, poll_saves-advanced outcomes states id u.1, string_eq.beq_iff j id, u.0)

-- A poll leaves the saves of a request as they are while its running save has not ended. When that
-- has ended, or none ran, the error it ended with, if any, is added to those of the request; then the
-- first save that waits runs and no longer waits, or, if none waits, the request is reported and
-- forgotten. It is reported in no other case.
pub poll_saves_lem :
    (outcomes : String → Outcome) (states : Dict String SaveState) (id : String)
    → Unique states
    → (
      member id (map (λ (result : SaveResult). result.request_id) (poll_saves outcomes states).1),
      get (poll_saves outcomes states).0 id,
    )
      ≡ after_poll (outcomes id) (get states id)
poll_saves_lem outcomes states id u =
    poll_saves-advanced outcomes states id u ∙ advanced-after_poll (outcomes id) (get states id)

-- ===== src/Proxy/Stream.antt =====
-- proxy/pd_proxy.py: `_stream_decode`, which relays the decode engine's answer while the prefill may
-- still run. What each wait of its loop comes to is an argument; that the client goes away while it is
-- handed a chunk is not modelled.
use mtsc.Proxy.Session.{Failure}
use mtsc.Common.{
  ◌∙◌, refl, ap, ◌≡◌, if◌then◌else◌, arith, string_eq, ◌∷◌, true, text_append, some, none, false,
  [], String, Option, List, Bool,
}

-- An exception, as far as the handlers tell them apart.
pub data Raised : Type 0 where
  cancelled : Raised
  timeout : Raised
  other : Failure → Raised

-- What reading a chunk comes to.
pub data ChunkResult : Type 0 where
  data_chunk : String → ChunkResult
  stop_iteration : ChunkResult
  broken : Raised → ChunkResult

-- What a wait comes to: nothing within its time, an exception of its own, or tasks that are done. Of
-- the prefill it is known whether it ended just then, and how; a chunk that is not done is awaited
-- next, and comes to the last argument.
pub data Wait : Type 0 where
  nothing : Wait
  interrupted : Raised → Wait
  done : Option (Option Raised) → Option ChunkResult → ChunkResult → Wait

-- How a stream ends: the stage that failed, and the exception, if there is one.
pub record StreamEnd : Type 0 where
  pub failure_stage : String
  pub raised : Option Raised

-- How far the wait has got with the prefill: it still runs, it is done, or it has failed.
pub data PrefillState : Type 0 where
  runs : PrefillState
  ended : PrefillState
  failed : Raised → PrefillState

unfoldable pub await_prefill : Bool → Option (Option Raised) → PrefillState
await_prefill false result = ended
await_prefill true none = runs
await_prefill true (some none) = ended
await_prefill true (some (some exc)) = failed exc

abbrev pub is_running : PrefillState → Bool
is_running runs = true
is_running _ = false

abbrev pub stopped : String → Raised → Option (List String × StreamEnd)
stopped stage exc = some ([], record { failure_stage = stage; raised = some exc })

abbrev pub relay : String → Option (List String × StreamEnd) → Option (List String × StreamEnd)
relay text none = none
relay text (some (chunks, end)) = some (text ∷ chunks, end)

-- A chunk that is awaited is awaited outside of the handler that ends the loop, so the end of the
-- stream is then an exception like any other.
abbrev pub fetched : Option ChunkResult → ChunkResult → ChunkResult
fetched (some chunk) awaited = chunk
fetched none stop_iteration = broken (other (record { name = "StopAsyncIteration"; message = "" }))
fetched none (data_chunk text) = data_chunk text
fetched none (broken exc) = broken exc

-- After the last chunk: the prefill is awaited if it still runs, and comes to `last`.
unfoldable pub end_stream : Bool → Option Raised → Option (List String × StreamEnd)
end_stream false last = some ([], record { failure_stage = "decode"; raised = none })
end_stream true none = some ([], record { failure_stage = "prefill"; raised = none })
end_stream true (some exc) = stopped "prefill" exc

-- One round once the prefill has been looked at; `rest` is what the later rounds come to.
unfoldable pub read_chunk :
    Bool
    → ChunkResult
    → Option Raised
    → Option (List String × StreamEnd)
    → Option (List String × StreamEnd)
unfolding end_stream
read_chunk pending (data_chunk text) last rest = relay text rest
read_chunk pending stop_iteration last rest = end_stream pending last
read_chunk pending (broken exc) last rest = stopped "decode" exc

-- The chunks that are relayed, and the end; none if the waits do not reach it. `pending` tells that
-- the prefill is still waited for.
unfoldable pub stream_decode : Bool → List Wait → Option Raised → Option (List String × StreamEnd)
unfolding await_prefill read_chunk
stream_decode pending [] last = none
stream_decode pending (nothing ∷ waits) last = stopped "decode" timeout
stream_decode pending (interrupted exc ∷ waits) last = stopped "decode" exc
stream_decode pending (done prefill chunk awaited ∷ waits) last =
    let state = await_prefill pending prefill in
    let rest = stream_decode (is_running state) waits last in
    elim state [
      | runs ↦ read_chunk true (fetched chunk awaited) last rest
      | ended ↦ read_chunk false (fetched chunk awaited) last rest
      | failed exc ↦ stopped "prefill" exc
    ]

-- The outcome and the stage that the handlers hand to `_finish`.
unfoldable pub stream_outcome : StreamEnd → String × Option String
stream_outcome end = elim end.raised [
  | none ↦ ("success", none)
  | some exc ↦ elim exc [
    | cancelled ↦ ("client_cancelled", some "client")
    | timeout ↦ ("timeout", some end.failure_stage)
    | other failure ↦ (text_append end.failure_stage "_error", some end.failure_stage)
  ]
]

-- The chunks and the end of the prefill that a round adds to those of the later rounds.
abbrev pub add_chunk : ChunkResult → List String → List String
add_chunk (data_chunk text) chunks = text ∷ chunks
add_chunk stop_iteration chunks = []
add_chunk (broken exc) chunks = []

abbrev pub later_end : ChunkResult → Option Raised → Option Raised → Option Raised
later_end (data_chunk text) rest last = rest
later_end stop_iteration rest last = last
later_end (broken exc) rest last = last

-- The chunks that the decode engine sent before its stream ended.
abbrev pub sent_chunks : List Wait → List String
sent_chunks [] = []
sent_chunks (nothing ∷ waits) = []
sent_chunks (interrupted exc ∷ waits) = []
sent_chunks (done prefill chunk awaited ∷ waits) =
    add_chunk (fetched chunk awaited) (sent_chunks waits)

-- How the prefill ended, seen from the waits up to the end of the stream, or else `last`.
abbrev pub prefill_end : List Wait → Option Raised → Option Raised
prefill_end [] last = last
prefill_end (nothing ∷ waits) last = last
prefill_end (interrupted exc ∷ waits) last = last
prefill_end (done (some result) chunk awaited ∷ waits) last = result
prefill_end (done none chunk awaited ∷ waits) last =
    later_end (fetched chunk awaited) (prefill_end waits last) last

-- What a stream that ends without an exception has done.
abbrev pub IsRelayed : Bool → List Wait → Option Raised → List String → Type 0
IsRelayed pending waits last chunks =
    (chunks ≡ sent_chunks waits) × ((if pending then prefill_end waits last else none) ≡ none)

relay-some :
    (text : String) (rest : Option (List String × StreamEnd)) (chunks : List String)
    (end : StreamEnd)
    → relay text rest ≡ some (chunks, end)
    → (later : List String) × (rest ≡ some (later, end)) × (chunks ≡ text ∷ later)
relay-some text none chunks end h = ground (arith, h)
relay-some text (some (later, end')) chunks end h = (later, cc, cc)

read_chunk-relayed :
    (pending : Bool) (chunk : ChunkResult) (waits : List Wait) (last : Option Raised)
    (chunks : List String) (end : StreamEnd)
    → ((later : List String)
        → stream_decode pending waits last ≡ some (later, end)
        → IsRelayed pending waits last later)
    → read_chunk pending chunk last (stream_decode pending waits last) ≡ some (chunks, end)
    → end.raised ≡ none
    → (chunks ≡ add_chunk chunk (sent_chunks waits))
      × ((if pending then later_end chunk (prefill_end waits last) last else none) ≡ none)
unfolding read_chunk end_stream
read_chunk-relayed pending (data_chunk text) waits last chunks end later h fine =
    let (before, at, all) = relay-some text (stream_decode pending waits last) chunks end h in
    let (same, prefill) = later before at in (all ∙ ap (◌∷◌ text) same, prefill)
read_chunk-relayed false stop_iteration waits last chunks end later h fine = (cc, refl)
read_chunk-relayed true stop_iteration waits none chunks end later h fine = (cc, refl)
read_chunk-relayed true stop_iteration waits (some exc) chunks end later h fine =
    ground (arith, h, fine)
read_chunk-relayed pending (broken exc) waits last chunks end later h fine = ground (arith, h, fine)

-- When a stream ends without an exception, every chunk that the decode engine sent was relayed, in
-- order, and the prefill has ended without an exception.
pub stream_decode-IsRelayed :
    (pending : Bool) (waits : List Wait) (last : Option Raised) (chunks : List String)
    (end : StreamEnd)
    → stream_decode pending waits last ≡ some (chunks, end)
    → end.raised ≡ none
    → IsRelayed pending waits last chunks
unfolding stream_decode await_prefill
stream_decode-IsRelayed pending [] last chunks end h fine = ground (arith, h)
stream_decode-IsRelayed pending (nothing ∷ waits) last chunks end h fine = ground (arith, h, fine)
stream_decode-IsRelayed pending (interrupted exc ∷ waits) last chunks end h fine =
    ground (arith, h, fine)
stream_decode-IsRelayed false (done prefill chunk awaited ∷ waits) last chunks end h fine =
    read_chunk-relayed false (fetched chunk awaited) waits last chunks end
      (λ later at. stream_decode-IsRelayed false waits last later end at fine) h fine
stream_decode-IsRelayed true (done none chunk awaited ∷ waits) last chunks end h fine =
    read_chunk-relayed true (fetched chunk awaited) waits last chunks end
      (λ later at. stream_decode-IsRelayed true waits last later end at fine) h fine
stream_decode-IsRelayed true (done (some none) chunk awaited ∷ waits) last chunks end h fine =
    read_chunk-relayed false (fetched chunk awaited) waits last chunks end
      (λ later at. stream_decode-IsRelayed false waits last later end at fine) h fine
stream_decode-IsRelayed true (done (some (some exc)) chunk awaited ∷ waits) last chunks end h fine =
    ground (arith, h, fine)

-- ===== src/Lookup/Client.antt =====
-- `StoreLookupClient`: one future per request, on an executor that calls `_lookup`.
pub mod Laws
use mtsc.Lookup.Rpc.{settle, call_lookup, Network}
use mtsc.Scheduler.State.{LookupOps}
use mtsc.Common.{
  discard, nat_eq, string_eq, ◌&&◌, ℕ, some, set_default, remove, or_else, not, none, modify,
  is_some, if◌then◌else◌, get, String, Result, Option, List, Dict, Bool,
}
use mtsc.Protocol.{BlockHash}

-- A call that was submitted, with its outcome once the executor has run it.
pub record Future : Type 0 where
  pub token_count : ℕ
  pub hashes : List BlockHash
  pub outcome : Option (Result ℕ)

pub record LookupClient : Type 0 where
  pub futures : Dict String Future

-- future.result(), which waits for the call.
unfoldable pub future_result : Network → Future → Result ℕ
future_result network f = or_else f.outcome (call_lookup network f.token_count f.hashes)

unfoldable pub future_of : LookupClient → String → ℕ → List BlockHash → Future
future_of client id token_count hashes =
    or_else (get client.futures id)
      (record { token_count = token_count; hashes = hashes; outcome = none })

-- `lookup`
unfoldable pub client_lookup :
    Network → LookupClient → String → ℕ → List BlockHash → Bool → Option ℕ × LookupClient
client_lookup network client id token_count hashes asynchronous =
    let f = future_of client id token_count hashes in
    if asynchronous && not (is_some f.outcome)
    then (none, record client { futures = set_default client.futures id f })
    else (
      some (settle (future_result network f)),
      record client { futures = remove client.futures id },
    )

-- `discard`
abbrev pub client_discard : LookupClient → String → LookupClient
client_discard client id = record client { futures = remove client.futures id }

-- The executor runs the call of a request.
unfoldable pub run_call : Network → LookupClient → String → LookupClient
run_call network client id = record client {
  futures = modify client.futures id (λ f. record f { outcome = some (future_result network f) });
}

abbrev pub client_ops : Network → LookupOps LookupClient
client_ops network = record { lookup = client_lookup network; discard = client_discard }

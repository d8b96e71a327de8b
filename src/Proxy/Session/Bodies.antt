-- ===== src/Proxy/Session/Bodies.antt =====
-- proxy/pd_proxy.py: the bodies that both engines receive.
use mtsc.Scheduler.Admission.{validate_transfer_params}
use mtsc.Tests.Data.{pulling}
use mtsc.Scheduler.State.{params_of, Request}
use mtsc.Common.{
  ◌↔◌, truthy, param, is_blank, inr, inl, has, Option-cases, nat_eq, string_eq, ◌≡◌, ◌==◌, values,
  type_error, true, string_eq, str, some, remove, refl, raise, put, ok, num, null, none, min,
  map_option, if◌then◌else◌, get-remove, get-put, get, false, bool, arith, String, Option, Bool,
}
use mtsc.Proxy.Session.{
  decode_params, prefill_body, scalar, prefill_params, object, cap_min_tokens, at_most_one, array,
  TransferSession, Json, Body,
}

-- `min_tokens` of the prefill request, if it can be capped.
abbrev pub capped : Json → Json
capped (scalar (num n)) = scalar (num (min n 1))
capped value = value

abbrev pub is_cappable : Option Json → Bool
is_cappable none = true
is_cappable (some (scalar (num n))) = true
is_cappable (some (scalar (bool b))) = true
is_cappable (some value) = false

-- The prefill request, field by field: it computes one token, answers at once and keeps its cache.
abbrev pub prefill_field : Body → TransferSession → String → Option Json
prefill_field body session name =
    if "kv_transfer_params" == name
    then some (object (prefill_params session))
    else if "max_completion_tokens" == name
    then map_option (λ value. scalar (num 1)) (get body name)
    else if "min_tokens" == name
    then map_option capped (get body name)
    else if "max_tokens" == name
    then some (scalar (num 1))
    else if "stream_options" == name
    then none
    else if "stream" == name
    then some (scalar (bool false))
    else get body name

-- The body before the tokens are capped.
abbrev pub short_body : Body → Body
short_body body =
    put (remove (put body "stream" (scalar (bool false))) "stream_options") "max_tokens"
      (scalar (num 1))

get-short_body :
    (body : Body) (name : String)
    → get (short_body body) name ≡ (
        if "max_tokens" == name
        then some (scalar (num 1))
        else if "stream_options" == name
        then none
        else if "stream" == name
        then some (scalar (bool false))
        else get body name)
get-short_body body name =
    let streamed = put body "stream" (scalar (bool false)) in
    ground (
      arith,
      get-put (remove streamed "stream_options") "max_tokens" name (scalar (num 1)),
      get-remove streamed "stream_options" name,
      get-put body "stream" name (scalar (bool false)),
    )

at_most_one-capped :
    (value : Json)
    → at_most_one value ≡ (
        if is_cappable (some value)
        then ok (capped value)
        else raise (type_error "'<' not supported"))
unfolding at_most_one
at_most_one-capped (scalar null) = refl
at_most_one-capped (scalar (bool b)) = refl
at_most_one-capped (scalar (num n)) = refl
at_most_one-capped (scalar (str s)) = refl
at_most_one-capped (array values) = refl
at_most_one-capped (object entries) = refl

cap_min_tokens-capped :
    (body : Body) (found : Option Json)
    → get body "min_tokens" ≡ found
    → is_cappable found ≡ true
    → (result : Body) × (cap_min_tokens body ≡ ok result)
      × ((name : String)
          → get result name
            ≡ (if "min_tokens" == name then map_option capped found else get body name))
unfolding cap_min_tokens
cap_min_tokens-capped body none at able = (
  body,
  rw (at, cap_min_tokens) refl,
  λ name. ground (arith, at, string_eq.beq_iff "min_tokens" name),
)
cap_min_tokens-capped body (some value) at able =
    let capping : at_most_one value ≡ ok (capped value) =
      ground (arith, able, at_most_one-capped value) in
    (
      put body "min_tokens" (capped value),
      rw (at, capping, cap_min_tokens) refl,
      λ name. get-put body "min_tokens" name (capped value),
    )

abbrev pub cap_limit : Body → Body
cap_limit body =
    if has body "max_completion_tokens"
    then put body "max_completion_tokens" (scalar (num 1))
    else body

get-cap_limit :
    (body : Body) (name : String)
    → get (cap_limit body) name ≡ (
        if "max_completion_tokens" == name
        then map_option (λ value. scalar (num 1)) (get body name)
        else get body name)
get-cap_limit body name = elim (Option-cases (get body "max_completion_tokens")) [
  | inl missing ↦ ground (arith, missing, string_eq.beq_iff "max_completion_tokens" name)
  | inr (value, found) ↦ ground (
    arith,
    found,
    string_eq.beq_iff "max_completion_tokens" name,
    get-put body "max_completion_tokens" name (scalar (num 1)),
  )
]

apart : (a b name : String) → (a == b) ≡ false → (a == name) ≡ true → (b == name) ≡ false
apart a b name differ same =
    ground (
      arith,
      differ,
      same,
      string_eq.beq_iff a name,
      string_eq.beq_iff b name,
      string_eq.beq_iff a b,
    )

-- A body whose `min_tokens`, if any, is a number becomes a prefill request in which every field is
-- as the prefill needs it and any other is as the client sent it.
pub prefill_body_lem :
    (body : Body) (session : TransferSession)
    → is_cappable (get body "min_tokens") ≡ true
    → (result : Body) × (prefill_body body session ≡ ok result)
      × ((name : String) → get result name ≡ prefill_field body session name)
unfolding prefill_body
prefill_body_lem body session able =
    let same : get (short_body body) "min_tokens" ≡ get body "min_tokens" =
      get-short_body body "min_tokens" in
    let (result, capping, fields) =
      cap_min_tokens-capped (short_body body) (get body "min_tokens") same able in
    let params = object (prefill_params session) in
    (
      put (cap_limit result) "kv_transfer_params" params,
      rw (capping, prefill_body) refl,
      λ name. ground (
        arith,
        get-put (cap_limit result) "kv_transfer_params" name params,
        get-cap_limit result name,
        fields name,
        get-short_body body name,
        apart "max_completion_tokens" "min_tokens" name refl,
        apart "max_completion_tokens" "max_tokens" name refl,
        apart "max_completion_tokens" "stream_options" name refl,
        apart "max_completion_tokens" "stream" name refl,
        string_eq.beq_iff "min_tokens" name,
        string_eq.beq_iff "max_completion_tokens" name,
        string_eq.beq_iff "max_tokens" name,
        string_eq.beq_iff "stream_options" name,
        string_eq.beq_iff "stream" name,
        string_eq.beq_iff "kv_transfer_params" name,
      ),
    )

-- The scheduler's view of both requests of a session: the prefill request is to be sent and not
-- received, the decode request the other way round, both name the same transfer, and the decode
-- request passes the scheduler's check exactly if neither the engine's name nor its address is blank.
pub decode_params-validate_transfer_params :
    (session : TransferSession) (sending pulling : Request)
    → sending.kv_transfer_params ≡ some (prefill_params session)
    → pulling.kv_transfer_params ≡ some (decode_params session)
    → (truthy (param (params_of sending) "do_remote_decode") ≡ true)
      × (truthy (param (params_of sending) "do_remote_prefill") ≡ false)
      × (truthy (param (params_of pulling) "do_remote_decode") ≡ false)
      × (truthy (param (params_of pulling) "do_remote_prefill") ≡ true)
      × (param (params_of sending) "transfer_id" ≡ param (params_of pulling) "transfer_id")
      × ((validate_transfer_params pulling ≡ ok tt) ↔ (
          (is_blank session.prefill.engine_id ≡ false)
          × (is_blank session.prefill.bootstrap_addr ≡ false)))
unfolding prefill_params decode_params validate_transfer_params get
decode_params-validate_transfer_params session sending pulling ps ds =
    rw (ps, ds, validate_transfer_params) (refl, refl, refl, refl, refl, ground arith)

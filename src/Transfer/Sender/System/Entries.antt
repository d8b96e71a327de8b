-- ===== src/Transfer/Sender/System/Entries.antt =====
-- mtsc/kv_transfer.py: the table of offered sources is sound.
use mtsc.Worker.State.{SendEvent}
use mtsc.Common.{
  ◌⊎◌, ◌∷◌, remove-Unique, remove, get-remove, ap, [], Option-cases, List, nat_eq, string_eq, ◌≤◌,
  ◌≡◌, ◌||◌, ◌==◌, ◌&&◌, ℕ, true, sym, suc, subst, some, refl, put-Unique, put, not, none, nat_eq,
  modify, map_option, is_some, inr, inl, if◌then◌else◌, get-put, get-modify, get, false, arith,
  Unique, String, Option, Dict, Bool-cases, Bool, ==_refl,
}
use mtsc.Transfer.Sender.{
  publish_send, prepare_send, entry_for, await_entries, SenderState, SendBlockMeta, new_meta,
}

-- An entry of the table leads to an object of its transfer; one that is ready was published.
abbrev pub is_sound : SendBlockMeta → Bool
is_sound meta = not meta.ready || is_some meta.expire_time

abbrev pub leads_to : String → Option SendBlockMeta → Bool
leads_to transfer_id none = false
leads_to transfer_id (some meta) = meta.transfer_id == transfer_id && is_sound meta

abbrev pub entry_ok : String → Dict ℕ SendBlockMeta → Option ℕ → Bool
entry_ok transfer_id metas none = true
entry_ok transfer_id metas (some ref) = leads_to transfer_id (get metas ref)

pub record IsWf (s : SenderState) : Type 0 where
  pub unique : Unique s.reqs_need_send
  pub fresh : (ref : ℕ) → s.next_ref ≤ ref → get s.metas ref ≡ none
  pub entries :
      (transfer_id : String)
      → entry_ok transfer_id s.metas (get s.reqs_need_send transfer_id) ≡ true

-- A change of an object that keeps what the table relies on.
abbrev pub Keeps : (SendBlockMeta → SendBlockMeta) → Type 0
Keeps f =
    (meta : SendBlockMeta)
    → ((f meta).transfer_id ≡ meta.transfer_id) × (is_sound meta ≡ true → is_sound (f meta) ≡ true)

get-other :
    (d : Dict String ℕ) (k j : String) (v : ℕ) → (k == j) ≡ false → get d j ≡ get (put d k v) j
get-other d k j v h = ground (arith, h, get-put d k j v)

modify-fresh :
    (metas : Dict ℕ SendBlockMeta) (ref other : ℕ) (f : SendBlockMeta → SendBlockMeta)
    → get metas other ≡ none
    → get (modify metas ref f) other ≡ none
modify-fresh metas ref other f h = ground (arith, h, get-modify metas ref other f)

modify-entry_ok :
    (transfer_id : String) (metas : Dict ℕ SendBlockMeta) (ref : ℕ)
    (f : SendBlockMeta → SendBlockMeta) (entry : Option ℕ)
    → Keeps f
    → entry_ok transfer_id metas entry ≡ true
    → entry_ok transfer_id (modify metas ref f) entry ≡ true
modify-entry_ok transfer_id metas ref f none keeps h = refl
modify-entry_ok transfer_id metas ref f (some other) keeps h =
    subst (λ found. leads_to transfer_id found ≡ true) (sym (get-modify metas ref other f))
      (go (ref == other) (get metas other) h)
  where
    go :
        (here : Bool) (found : Option SendBlockMeta)
        → leads_to transfer_id found ≡ true
        → leads_to transfer_id (if here then map_option f found else found) ≡ true
    go false found h = h
    go true none h = h
    go true (some meta) h = ground (arith, h, keeps meta)

pub modify-IsWf :
    (s : SenderState) (ref : ℕ) (f : SendBlockMeta → SendBlockMeta)
    → Keeps f
    → IsWf s
    → IsWf (record s { metas = modify s.metas ref f })
modify-IsWf s ref f keeps wf = record {
  unique = wf.unique;
  fresh = λ other le. modify-fresh s.metas ref other f (wf.fresh other le);
  entries =
      λ transfer_id. modify-entry_ok transfer_id s.metas ref f _ keeps (wf.entries transfer_id);
}

put-entry_ok :
    (transfer_id : String) (metas : Dict ℕ SendBlockMeta) (ref : ℕ) (meta : SendBlockMeta)
    (entry : Option ℕ)
    → get metas ref ≡ none
    → entry_ok transfer_id metas entry ≡ true
    → entry_ok transfer_id (put metas ref meta) entry ≡ true
put-entry_ok transfer_id metas ref meta none missing h = refl
put-entry_ok transfer_id metas ref meta (some other) missing h =
    ground (arith, missing, h, get-put metas ref other meta, nat_eq.beq_iff ref other)

new-IsWf :
    (s : SenderState) (request_id transfer_id : String)
    → IsWf s
    → IsWf (record s {
      metas = put s.metas s.next_ref (new_meta request_id transfer_id);
      next_ref = suc s.next_ref;
      reqs_need_send = put s.reqs_need_send transfer_id s.next_ref;
    })
unfolding new_meta
new-IsWf s request_id transfer_id wf =
    let meta = new_meta request_id transfer_id in
    record {
      unique = put-Unique s.reqs_need_send transfer_id s.next_ref wf.unique;
      fresh = λ ref le. ground (
        arith,
        wf.fresh ref,
        le,
        get-put s.metas s.next_ref ref meta,
        nat_eq.beq_iff s.next_ref ref,
      );
      entries = λ other. elim (Bool-cases (transfer_id == other)) [
        | inl same ↦ ground (
          arith,
          same,
          get-put s.reqs_need_send transfer_id other s.next_ref,
          get-put s.metas s.next_ref s.next_ref meta,
          ==_refl s.next_ref,
        )
        | inr different ↦
            subst (λ entry. entry_ok other (put s.metas s.next_ref meta) entry ≡ true)
              (get-other s.reqs_need_send transfer_id other s.next_ref different)
              (put-entry_ok other s.metas s.next_ref meta (get s.reqs_need_send other)
                (wf.fresh s.next_ref (omega arith)) (wf.entries other))
      ];
    }

entry_for-cases :
    (s : SenderState) (request_id transfer_id : String)
    → ((ref : ℕ) × (get s.reqs_need_send transfer_id ≡ some ref)
        × (entry_for s request_id transfer_id ≡ (ref, s)))
      ⊎ ((get s.reqs_need_send transfer_id ≡ none)
          × (entry_for s request_id transfer_id ≡ (
            s.next_ref,
            record s {
              metas = put s.metas s.next_ref (new_meta request_id transfer_id);
              next_ref = suc s.next_ref;
              reqs_need_send = put s.reqs_need_send transfer_id s.next_ref;
            },
          )))
unfolding entry_for
entry_for-cases s request_id transfer_id = elim (Option-cases (get s.reqs_need_send transfer_id)) [
  | inl missing ↦ inr (missing, ground (arith, missing))
  | inr (ref, found) ↦ inl (ref, found, ground (arith, found))
]

pub entry_for-IsWf :
    (s : SenderState) (request_id transfer_id : String)
    → IsWf s
    → IsWf (entry_for s request_id transfer_id).1
entry_for-IsWf s request_id transfer_id wf = elim (entry_for-cases s request_id transfer_id) [
  | inl (ref, found, same) ↦ subst (λ t. IsWf t) (sym (ap (λ p. p.1) same)) wf
  | inr (missing, new) ↦
      subst (λ t. IsWf t) (sym (ap (λ p. p.1) new)) (new-IsWf s request_id transfer_id wf)
]

pub prepare_send-IsWf :
    (s : SenderState) (request_id transfer_id : String)
    → IsWf s
    → IsWf (prepare_send s request_id transfer_id).1
unfolding prepare_send
prepare_send-IsWf s request_id transfer_id wf =
    modify-IsWf (entry_for s request_id transfer_id).1 (entry_for s request_id transfer_id).0
      (λ meta. record meta { p_req_id = request_id }) (λ meta. ground arith)
      (entry_for-IsWf s request_id transfer_id wf)

pub publish_send-IsWf :
    (now timeout : ℕ) (s : SenderState) (event : SendEvent)
    → IsWf s
    → IsWf (publish_send now timeout s event)
unfolding publish_send
publish_send-IsWf now timeout s event wf =
    modify-IsWf (prepare_send s event.request_id event.transfer_id).1
      (prepare_send s event.request_id event.transfer_id).0 _ (λ meta. ground arith)
      (prepare_send-IsWf s event.request_id event.transfer_id wf)

pub await_entries-IsWf :
    (req_blocks : List (String × String)) (s : SenderState)
    → IsWf s
    → IsWf (await_entries s req_blocks).1
unfolding await_entries
await_entries-IsWf [] s wf = wf
await_entries-IsWf ((d_req_id, transfer_id) ∷ req_blocks) s wf =
    await_entries-IsWf req_blocks (entry_for s "" transfer_id).1
      (entry_for-IsWf s "" transfer_id wf)

pub remove-IsWf :
    (s : SenderState) (transfer_id : String)
    → IsWf s
    → IsWf (record s { reqs_need_send = remove s.reqs_need_send transfer_id })
remove-IsWf s transfer_id wf = record {
  unique = remove-Unique s.reqs_need_send transfer_id wf.unique;
  fresh = wf.fresh;
  entries =
      λ other. ground (arith, wf.entries other, get-remove s.reqs_need_send transfer_id other);
}

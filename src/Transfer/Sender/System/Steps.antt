-- ===== src/Transfer/Sender/System/Steps.antt =====
-- mtsc/kv_transfer.py: the reads and the ends of a source keep the table sound.
use mtsc.Transfer.Sender.{
  written, refused, raised, note_sent, is_expired, finish_reads, fetch_finished_sending_reqs,
  expire, count_sent, cancel_send, WriteOutcome, stop_reads, starts, start_reads, start_read,
  retire, SenderState, SendBlockMeta,
}
use mtsc.Transfer.Sender.System.Entries.{leads_to, entry_ok, remove-IsWf, modify-IsWf, IsWf}
use mtsc.Common.{
  subst, remove-Unique, remove, get-remove, true, refl, none, member, if◌then◌else◌, get-modify,
  false, Unique, Option-cases, Option, Dict, nat_eq, string_eq, ◌≡◌, ◌∷◌, ◌==◌, ◌-◌, ◌&&◌, ℕ, suc,
  some, modify, inr, inl, has, get, arith, [], String, List, Bool-cases,
}

pub start_read-IsWf :
    (ranks : ℕ) (s : SenderState) (ref : ℕ)
    → IsWf s
    → IsWf (record s { metas = modify s.metas ref (start_read ranks) })
unfolding start_read
start_read-IsWf ranks s ref wf = modify-IsWf s ref (start_read ranks) (λ meta. ground arith) wf

pub finished-IsWf :
    (s : SenderState) (finished : List String)
    → IsWf s
    → IsWf (record s { finished_sending_reqs = finished })
finished-IsWf s finished wf = record { unique = wf.unique; fresh = wf.fresh; entries = wf.entries }

pub start_reads-IsWf :
    (ranks : ℕ) (done : List (String × ℕ)) (s : SenderState)
    → IsWf s
    → IsWf (start_reads ranks s done).2
unfolding start_reads
start_reads-IsWf ranks [] s wf = wf
start_reads-IsWf ranks ((d_req_id, ref) ∷ done) s wf = elim (Bool-cases (starts s ref)) [
  | inl going ↦ rw going (
      start_reads-IsWf ranks done (record s { metas = modify s.metas ref (start_read ranks) })
        (start_read-IsWf ranks s ref wf))
  | inr gone ↦ rw gone (start_reads-IsWf ranks done s wf)
]

stop_reads-IsWf :
    (batch : List (String × ℕ)) (s : SenderState)
    → IsWf s
    → IsWf (record s { metas = stop_reads s.metas batch })
unfolding stop_reads
stop_reads-IsWf [] s wf = wf
stop_reads-IsWf ((d_req_id, ref) ∷ batch) s wf =
    stop_reads-IsWf batch
      (record s { metas = modify s.metas ref (λ meta. record meta { sending = meta.sending - 1 }) })
      (modify-IsWf s ref _ (λ meta. ground arith) wf)

retire-IsWf : (meta : SendBlockMeta) (s : SenderState) → IsWf s → IsWf (retire meta s)
unfolding retire
retire-IsWf meta s wf =
    elim (Bool-cases (meta.sent == meta.need_send && has s.reqs_need_send meta.transfer_id)) [
      | inl done ↦ rw done (finished-IsWf _ _ (remove-IsWf s meta.transfer_id wf))
      | inr open_still ↦ rw open_still wf
    ]

count_sent-IsWf : (ref : ℕ) (s : SenderState) → IsWf s → IsWf (count_sent ref s)
unfolding count_sent
count_sent-IsWf ref s wf = elim (Option-cases (get s.metas ref)) [
  | inl missing ↦ rw (missing, count_sent) wf
  | inr (meta, found) ↦
      rw (found, count_sent)
        (retire-IsWf (record meta { sent = suc meta.sent })
          (record s { metas = modify s.metas ref (λ m. record m { sent = suc m.sent }) })
          (modify-IsWf s ref _ (λ m. ground arith) wf))
]

note_sent-IsWf :
    (err_reqs : List String) (batch : List (String × ℕ)) (s : SenderState)
    → IsWf s
    → IsWf (note_sent err_reqs s batch)
unfolding note_sent
note_sent-IsWf err_reqs [] s wf = wf
note_sent-IsWf err_reqs ((d_req_id, ref) ∷ batch) s wf =
    elim (Bool-cases (member d_req_id err_reqs)) [
      | inl failed ↦ rw failed (note_sent-IsWf err_reqs batch s wf)
      | inr sent ↦
          rw sent (note_sent-IsWf err_reqs batch (count_sent ref s) (count_sent-IsWf ref s wf))
    ]

pub finish_reads-IsWf :
    (outcome : WriteOutcome) (s : SenderState) (batch : List (String × ℕ))
    → IsWf s
    → IsWf (finish_reads outcome s batch)
unfolding finish_reads
finish_reads-IsWf (written err_reqs) s batch wf =
    stop_reads-IsWf batch (note_sent err_reqs s batch) (note_sent-IsWf err_reqs batch s wf)
finish_reads-IsWf refused s batch wf = stop_reads-IsWf batch s wf
finish_reads-IsWf raised s batch wf = stop_reads-IsWf batch s wf

-- An entry that stays is as it was, and one that goes had expired.
abbrev pub after_expiry : ℕ → Dict ℕ SendBlockMeta → Option ℕ → Option ℕ
after_expiry now metas none = none
after_expiry now metas (some ref) = elim (get metas ref) [
  | none ↦ some ref
  | some meta ↦ if is_expired now meta then none else some ref
]

pub get-expire :
    (now : ℕ) (metas : Dict ℕ SendBlockMeta) (entries : Dict String ℕ) (transfer_id : String)
    → Unique entries
    → get (expire now metas entries).0 transfer_id
      ≡ after_expiry now metas (get entries transfer_id)
unfolding expire get
get-expire now metas [] transfer_id u = refl
get-expire now metas ((other, ref) ∷ entries) transfer_id u =
    ground (
      arith,
      u.0,
      get-expire now metas entries transfer_id u.1,
      string_eq.beq_iff other transfer_id,
    )

expire-Unique :
    (now : ℕ) (metas : Dict ℕ SendBlockMeta) (entries : Dict String ℕ)
    → Unique entries
    → Unique (expire now metas entries).0
unfolding expire
expire-Unique now metas [] u = tt
expire-Unique now metas ((other, ref) ∷ entries) u =
    ground (arith, u.0, expire-Unique now metas entries u.1, get-expire now metas entries other u.1)

pub fetch-IsWf : (now : ℕ) (s : SenderState) → IsWf s → IsWf (fetch_finished_sending_reqs now s).1
unfolding fetch_finished_sending_reqs
fetch-IsWf now s wf = record {
  unique = expire-Unique now s.metas s.reqs_need_send wf.unique;
  fresh = wf.fresh;
  entries = λ transfer_id. ground (
    arith,
    wf.entries transfer_id,
    get-expire now s.metas s.reqs_need_send transfer_id wf.unique,
  );
}

same_transfer :
    (a b : String) (found : Option SendBlockMeta)
    → leads_to a found ≡ true
    → leads_to b found ≡ true
    → (a == b) ≡ true
same_transfer a b none h k = ground (arith, h)
same_transfer a b (some meta) h k = ground (
  arith,
  h,
  k,
  string_eq.beq_iff meta.transfer_id a,
  string_eq.beq_iff meta.transfer_id b,
  string_eq.beq_iff a b,
)

other_object :
    (s : SenderState) (transfer_id other : String) (ref there : ℕ)
    → (transfer_id == other) ≡ false
    → leads_to transfer_id (get s.metas ref) ≡ true
    → leads_to other (get s.metas there) ≡ true
    → (ref == there) ≡ false
other_object s transfer_id other ref there different leads h = elim (Bool-cases (ref == there)) [
  | inl same ↦ ground (
    arith,
    different,
    same_transfer transfer_id other (get s.metas there)
        (subst (λ at. leads_to transfer_id (get s.metas at) ≡ true) (ground (arith, same)) leads) h,
  )
  | inr no_alias ↦ no_alias
]

cancelled-entry :
    (s : SenderState) (transfer_id other : String) (ref : ℕ) (entry : Option ℕ)
    → (transfer_id == other) ≡ false
    → leads_to transfer_id (get s.metas ref) ≡ true
    → entry_ok other s.metas entry ≡ true
    → entry_ok other (modify s.metas ref (λ meta. record meta { ready = true })) entry ≡ true
cancelled-entry s transfer_id other ref none different leads h = refl
cancelled-entry s transfer_id other ref (some there) different leads h = ground (
  arith,
  h,
  other_object s transfer_id other ref there different leads h,
  get-modify s.metas ref there (λ (meta : SendBlockMeta). record meta { ready = true }),
)

withdrawn-IsWf :
    (s : SenderState) (transfer_id : String) (ref : ℕ)
    → get s.reqs_need_send transfer_id ≡ some ref
    → IsWf s
    → IsWf (record s {
      reqs_need_send = remove s.reqs_need_send transfer_id;
      metas = modify s.metas ref (λ meta. record meta { ready = true });
    })
withdrawn-IsWf s transfer_id ref found wf = record {
  unique = remove-Unique s.reqs_need_send transfer_id wf.unique;
  fresh = λ other le. ground (
    arith,
    wf.fresh other le,
    get-modify s.metas ref other (λ (meta : SendBlockMeta). record meta { ready = true }),
  );
  entries = λ other. elim (Bool-cases (transfer_id == other)) [
    | inl same ↦ ground (arith, same, get-remove s.reqs_need_send transfer_id other)
    | inr different ↦
        subst
          (λ entry.
            entry_ok other (modify s.metas ref (λ meta. record meta { ready = true })) entry ≡ true)
          (ground (arith, different, get-remove s.reqs_need_send transfer_id other))
          (cancelled-entry s transfer_id other ref (get s.reqs_need_send other) different
            (ground (arith, found, wf.entries transfer_id)) (wf.entries other))
  ];
}

pub cancel_send-IsWf :
    (s : SenderState) (transfer_id : String) → IsWf s → IsWf (cancel_send s transfer_id).1
unfolding cancel_send
cancel_send-IsWf s transfer_id wf = elim (Option-cases (get s.reqs_need_send transfer_id)) [
  | inl missing ↦ rw (missing, cancel_send) wf
  | inr (ref, found) ↦ rw (found, cancel_send) (withdrawn-IsWf s transfer_id ref found wf)
]

-- ===== src/Observability/Retention.antt =====
-- The audit trail keeps the latest events, without control characters.
use holdfast.Base.{
  ◌==◌, Bool-cases, Bytes, length, drop, All, length-append, length-drop, ℕ, zero, suc, ◌+◌, ◌-◌,
  ◌≤◌, min, ◌≡◌, refl, sym, ap, ◌∙◌, inl, inr, List, [], ◌∷◌, ◌++◌, append-nil, append_assoc, arith,
}
use holdfast.Observability.{AuditEvent}
use holdfast.Observability.Sanitizing.{sanitize_event}
use holdfast.Observability.Safety.{texts_of, IsSafeText, sanitize_event-safe}
use holdfast.Observability.Recorder.{
  default_audit_capacity, AuditRecord, AuditRing, Observability, new, push_record, record_event,
  audit_events,
}

abbrev pub IsSafeRecord : AuditRecord → Type 0
IsSafeRecord entry = All IsSafeText (texts_of entry.event)

-- The events of a log, each with the time at which it is recorded.
unfoldable pub record_all : Observability → List (ℕ × AuditEvent) → Observability
record_all o [] = o
record_all o ((now_ms, event) ∷ rest) = record_all (record_event o now_ms event) rest

-- What the trail is to show of a log.
unfoldable pub trail : Bytes → List (ℕ × AuditEvent) → List AuditRecord
trail server_id [] = []
trail server_id ((now_ms, event) ∷ rest) =
    record { timestamp_ms = now_ms; server_id = server_id; event = sanitize_event event }
    ∷ trail server_id rest

drop-append_some :
    {A : Type 0} (n : ℕ) (xs ys : List A) → n ≤ length xs → drop n xs ++ ys ≡ drop n (xs ++ ys)
drop-append_some zero xs ys small = refl
drop-append_some (suc n) [] ys small = absurd (omega (arith, small))
drop-append_some (suc n) (x ∷ xs) ys small = drop-append_some n xs ys (omega (arith, small))

drop_one-drop : {A : Type 0} (n : ℕ) (xs : List A) → drop 1 (drop n xs) ≡ drop (suc n) xs
drop_one-drop zero xs = refl
drop_one-drop (suc n) [] = refl
drop_one-drop (suc n) (x ∷ xs) = drop_one-drop n xs

drop_everything : {A : Type 0} (n : ℕ) (xs : List A) → length xs ≤ n → drop n xs ≡ []
drop_everything zero [] large = refl
drop_everything zero (x ∷ xs) large = absurd (omega (arith, large))
drop_everything (suc n) [] large = refl
drop_everything (suc n) (x ∷ xs) large = drop_everything n xs (omega (arith, large))

-- The latest records of a list, as many as the ring can hold.
latest_of : ℕ → List AuditRecord → List AuditRecord
latest_of capacity past = drop (length past - capacity) past

latest_of-append :
    (n : ℕ) (capacity : ℕ) (entry : AuditRecord) (past : List AuditRecord)
    → length past + 1 - capacity ≡ n
    → n ≤ length past
    → drop n past ++ entry ∷ [] ≡ latest_of capacity (past ++ entry ∷ [])
unfolding latest_of
latest_of-append n capacity entry past e small =
    let count = length-append past (entry ∷ []) in
    let same : length (past ++ entry ∷ []) - capacity ≡ n = omega (arith, count, e) in
    drop-append_some n past (entry ∷ []) small ∙ ap (λ k. drop k (past ++ entry ∷ [])) (sym same)

push_record-latest :
    (ring : AuditRing) (entry : AuditRecord) (past : List AuditRecord)
    → ring.records ≡ latest_of ring.capacity past
    → (push_record ring entry).records ≡ latest_of ring.capacity (past ++ entry ∷ [])
unfolding push_record latest_of
push_record-latest ring entry past v =
    let k = length past - ring.capacity in
    let held : length ring.records ≡ length past - k = ap length v ∙ length-drop k past in
    elim (Bool-cases (ring.capacity == 0)) [
      | inl closed ↦
          let none_held : ring.records ≡ [] = v ∙ drop_everything k past (ground (arith, closed)) in
          let none_due : drop (length (past ++ entry ∷ []) - ring.capacity) (past ++ entry ∷ [])
              ≡ [] =
            drop_everything _ (past ++ entry ∷ []) (ground (arith, closed)) in
          ground (arith, closed, none_held, none_due)
      | inr open_ring ↦ elim (Bool-cases (length ring.records == ring.capacity)) [
        | inl full ↦
            let shifted : drop 1 ring.records ≡ drop (suc k) past =
              ap (drop 1) v ∙ drop_one-drop k past in
            let next =
              latest_of-append (suc k) ring.capacity entry past
                (ground (arith, held, full, open_ring)) (ground (arith, held, full, open_ring)) in
            ground (arith, open_ring, full, shifted, next)
        | inr room ↦
            let none_dropped : k ≡ 0 = ground (arith, held, room) in
            let all_there : ring.records ≡ past = v ∙ ap (λ n. drop n past) none_dropped in
            let next =
              latest_of-append 0 ring.capacity entry past (ground (arith, held, room))
                (omega arith) in
            ground (arith, open_ring, room, all_there, next)
      ]
    ]

-- What the recorder shows, after some events and before more of them.
record Shows (o : Observability) (server_id : Bytes) (capacity : ℕ) (past : List AuditRecord)
    : Type 0 where
  named : o.server_id ≡ server_id
  bounded : o.audit.capacity ≡ capacity
  latest : o.audit.records ≡ latest_of capacity past

recorded : Bytes → ℕ → AuditEvent → AuditRecord
recorded server_id now_ms event = record {
  timestamp_ms = now_ms;
  server_id = server_id;
  event = sanitize_event event;
}

push_record-capacity :
    (ring : AuditRing) (entry : AuditRecord) → (push_record ring entry).capacity ≡ ring.capacity
unfolding push_record
push_record-capacity ring entry = ground arith

record_event-Shows :
    (o : Observability) (server_id : Bytes) (capacity : ℕ) (past : List AuditRecord) (now_ms : ℕ)
    (event : AuditEvent)
    → Shows o server_id capacity past
    → Shows
        (record_event o now_ms event)
        server_id
        capacity
        (past ++ recorded server_id now_ms event ∷ [])
unfolding record_event recorded
record_event-Shows o server_id capacity past now_ms event v =
    let entry = recorded server_id now_ms event in
    let same : recorded o.server_id now_ms event ≡ entry =
      ap (λ i. recorded i now_ms event) v.named in
    let start : o.audit.records ≡ latest_of o.audit.capacity past =
      v.latest ∙ ap (λ c. latest_of c past) (sym v.bounded) in
    record {
      named = v.named;
      bounded = push_record-capacity o.audit _ ∙ v.bounded;
      latest =
          ap (λ x. (push_record o.audit x).records) same
          ∙ push_record-latest o.audit entry past start
          ∙ ap (λ c. latest_of c (past ++ entry ∷ [])) v.bounded;
    }

record_all-Shows :
    (o : Observability) (server_id : Bytes) (capacity : ℕ) (past : List AuditRecord)
    (log : List (ℕ × AuditEvent))
    → Shows o server_id capacity past
    → Shows (record_all o log) server_id capacity (past ++ trail server_id log)
unfolding record_all trail recorded
record_all-Shows o server_id capacity past [] v = rw (append-nil past) v
record_all-Shows o server_id capacity past ((now_ms, event) ∷ rest) v =
    let entry = recorded server_id now_ms event in
    rw⁻¹ (append_assoc past (entry ∷ []) (trail server_id rest)) (
      record_all-Shows (record_event o now_ms event) server_id capacity (past ++ entry ∷ []) rest
        (record_event-Shows o server_id capacity past now_ms event v))

All-drop : {A : Type 0} (P : A → Type 0) (n : ℕ) (xs : List A) → All P xs → All P (drop n xs)
All-drop P zero xs h = h
All-drop P (suc n) [] h = tt
All-drop P (suc n) (x ∷ xs) h = All-drop P n xs h.1

trail-safe :
    (server_id : Bytes) (log : List (ℕ × AuditEvent)) → All IsSafeRecord (trail server_id log)
unfolding trail
trail-safe server_id [] = tt
trail-safe server_id ((now_ms, event) ∷ rest) =
    (sanitize_event-safe event, trail-safe server_id rest)

-- Whatever is recorded, the trail shows exactly the latest events in order, as many as the capacity allows
-- and never more than 4096, and no text in it has a control character or more than 128 characters.
pub trail_latest :
    (server_id : Bytes) (audit_capacity : ℕ) (log : List (ℕ × AuditEvent))
    → let shown = audit_events (record_all (new server_id audit_capacity) log) in
      (shown
        ≡ drop
            (length (trail server_id log) - min audit_capacity default_audit_capacity)
            (trail server_id log))
      × (length shown ≤ default_audit_capacity)
      × All IsSafeRecord shown
unfolding audit_events new latest_of
trail_latest server_id audit_capacity log =
    let n = min audit_capacity default_audit_capacity in
    let start : Shows (new server_id audit_capacity) server_id n [] = record {
      named = refl;
      bounded = refl;
      latest = sym (drop_everything (0 - n) [] (omega arith));
    } in
    let v = (record_all-Shows (new server_id audit_capacity) server_id n [] log start).latest in
    let k = length (trail server_id log) - n in
    (
      v,
      omega (arith, ap length v, length-drop k (trail server_id log)),
      rw v (All-drop IsSafeRecord k (trail server_id log) (trail-safe server_id log)),
    )

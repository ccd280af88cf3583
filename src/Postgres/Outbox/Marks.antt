-- ===== src/Postgres/Outbox/Marks.antt =====
-- The end of an event: only the holder of its lock can mark it, and a finished event is never
-- claimed again.
use frimo_messenger.Base.{
  ◌⊎◌, ◌≡◌, ◌≢◌, refl, Bool, true, false, ◌&&◌, none, some, List, [], ◌∷◌, ◌==◌, update, count,
  exists, All, arith, String, Bool-cases, inl, inr, ==→≡, ==-refl, ap, sym, ◌∙◌, is_null,
}
use frimo_messenger.Base.Table.Laws.{
  All-map, count-update_same, count-zero, count-congr, update-congr, update-none, count_eq_implies,
}
use frimo_messenger.Errors.{ok, err, wrap, sentinel, lease_lost}
use frimo_messenger.Domain.{Uuid, Time, Event}
use frimo_messenger.Postgres.Schema.{Db, OutboxRow}
use frimo_messenger.Postgres.Link.{Fault, up, statement}
use frimo_messenger.Postgres.Outbox.{
  held_by, claim_next, mark_processed, schedule_retry, mark_failed, is_held, is_pending, affected,
  process_row, retry_row, fail_row, is_claimable, update_outbox,
}
use frimo_messenger.Postgres.Outbox.Actions.{Actions, Keeps, Actions-Keeps}
use frimo_messenger.Postgres.Outbox.Claims.{
  claim_next-selects, first_by_time-All, first_by_time-passes, is_ready,
}

unheld_here :
    (event_id lock_id : Uuid) (o : OutboxRow)
    → (o.id ≡ event_id → o.lock_id ≢ some lock_id)
    → ((o.id == event_id) && held_by lock_id o) ≡ false
unheld_here event_id lock_id o h = elim (Bool-cases (o.id == event_id)) [
  | inr miss ↦ rw miss
  | inl hit ↦ let differs = h (==→≡ o.id event_id hit) in ground (arith, hit, differs)
]

-- A row that a lock other than its own does not match is not updated.
unheld_row :
    (event_id lock_id : Uuid) (os : List OutboxRow)
    → All (λ (o : OutboxRow). o.id ≡ event_id → o.lock_id ≢ some lock_id) os
    → (exists (is_held event_id lock_id) os ≡ false)
      × (exists (is_pending event_id lock_id) os ≡ false)
unfolding exists
unheld_row event_id lock_id [] all = (refl, refl)
unheld_row event_id lock_id (o ∷ os) all =
    let differs = unheld_here event_id lock_id o all.0 in
    let rest = unheld_row event_id lock_id os all.1 in
    (ground (arith, differs, rest), ground (arith, differs, rest))

-- With the server up, each of the three marks answers a worker that does not hold the event's lock
-- with `ErrLeaseLost`, and changes nothing.
pub marks_fenced :
    (event_id lock_id : Uuid) (at : Time) (message : String) (db : Db)
    → All (λ (o : OutboxRow). o.id ≡ event_id → o.lock_id ≢ some lock_id) db.outbox
    → (mark_processed up event_id lock_id at db
        ≡ (err (wrap "mark outbox event processed" (sentinel lease_lost)), db))
      × (schedule_retry up event_id lock_id at message db
          ≡ (err (wrap "schedule outbox retry" (sentinel lease_lost)), db))
      × (mark_failed up event_id lock_id at message db
          ≡ (err (wrap "mark outbox event failed" (sentinel lease_lost)), db))
unfolding mark_processed schedule_retry mark_failed
marks_fenced event_id lock_id at message db all =
    let (h, p) = unheld_row event_id lock_id db.outbox all in
    (
      rw (count-zero _ db.outbox h, update-none _ (process_row at) db.outbox h),
      rw (count-zero _ db.outbox p, update-none _ (retry_row at message) db.outbox p),
      rw (count-zero _ db.outbox h, update-none _ (fail_row at message) db.outbox h),
    )

-- Processed or failed, and not locked.
abbrev pub IsFinished : OutboxRow → Type 0
IsFinished o = ((is_null o.processed_at && is_null o.failed_at) ≡ false) × (o.lock_id ≡ none)

finished_unclaimable :
    (now before : Time) (o : OutboxRow) → is_claimable now before o ≡ true → IsFinished o → ⊥
finished_unclaimable now before o c q = ground arith

finished_unheld :
    (lock_id : Uuid) (o : OutboxRow)
    → (held_by lock_id o && is_null o.processed_at) ≡ true
    → IsFinished o
    → ⊥
finished_unheld lock_id o h q = ground arith

-- An update that reaches every row of the event finishes them.
update-hits :
    (event_id : Uuid) (p : OutboxRow → Bool) (g : OutboxRow → OutboxRow) (os : List OutboxRow)
    → ((o : OutboxRow) → (g o).id ≡ o.id)
    → ((o : OutboxRow) → IsFinished (g o))
    → All (λ o. (o.id == event_id) ≡ true → p o ≡ true) os
    → All (λ o. o.id ≡ event_id → IsFinished o) (update p g os)
unfolding update
update-hits event_id p g [] keep finish all = tt
update-hits event_id p g (o ∷ os) keep finish all = (
  elim (Bool-cases (p o)) [
    | inl hit ↦ rw hit (λ _. finish o)
    | inr miss ↦
        rw miss (λ same. cc (miss, all.0 (ap (λ k. k == event_id) same ∙ ==-refl event_id)))
  ],
  update-hits event_id p g os keep finish all.1,
)

module _ (event_id : Uuid) (message : String) (f : Fault) (db db' : Db) (p : OutboxRow → Bool)
    (g : OutboxRow → OutboxRow) (own : (o : OutboxRow) → p o ≡ true → (o.id == event_id) ≡ true)
    (keep : (o : OutboxRow) → (g o).id ≡ o.id) (finish : (o : OutboxRow) → IsFinished (g o))
    (one : count (λ o. o.id == event_id) db.outbox ≡ 1) where
  -- A mark that succeeds has met the only row of the event.
  affected-IsFinished :
      affected message (statement f db (update_outbox p g db)) ≡ (ok tt, db')
      → Keeps event_id IsFinished db'
  affected-IsFinished h =
      let hits : count p db.outbox ≡ 1 = ground arith in
      let tables : db' ≡ record db { outbox = update p g db.outbox } = ground arith in
      rw tables (record {
        one = count-update_same _ p g db.outbox (λ o. rw (keep o)) ∙ one;
        rows =
            update-hits event_id p g db.outbox keep finish
              (count_eq_implies p (λ o. o.id == event_id) db.outbox own (hits ∙ sym one));
      })

-- Delivery ends: after an event with a distinct identifier was marked as processed or as failed, no
-- claim returns it, whatever workers and registrations do in between.
pub finished_never_claimed :
    (f g : Fault) (event_id lock_id held other : Uuid) (at since now before : Time)
    (message : String) (busy : Uuid → Bool) (db db' last final : Db) (e : Event)
    → (mark_processed f event_id lock_id at db ≡ (ok tt, db'))
      ⊎ (mark_failed f event_id lock_id at message db ≡ (ok tt, db'))
    → count (λ o. o.id == event_id) db.outbox ≡ 1
    → Actions held since db' last
    → claim_next busy g other now before last ≡ (ok e, final)
    → e.id ≢ event_id
unfolding mark_processed mark_failed
finished_never_claimed f g event_id lock_id held other at since now before message busy db db' last
      final e done one acts h same =
    let finished : Keeps event_id IsFinished db' = elim done [
      | inl m ↦
          affected-IsFinished event_id "mark outbox event processed" f db db'
            (is_held event_id lock_id) (process_row at) (λ o t. ground arith) (λ o. refl)
            (λ o. (refl, refl)) one m
      | inr m ↦
          affected-IsFinished event_id "mark outbox event failed" f db db'
            (is_held event_id lock_id) (fail_row at message) (λ o t. ground arith) (λ o. refl)
            (λ o. (ground arith, refl)) one m
    ] in
    let v =
      Actions-Keeps held since IsFinished (λ t b o _ c q. finished_unclaimable t b o c q)
        (λ l o _ c q. finished_unheld l o c q) event_id acts finished in
    let (o, found, event, _) = claim_next-selects busy g other now before last final e h in
    let passes = first_by_time-passes (is_ready busy now before) last.outbox o found in
    let l = first_by_time-All (λ r. r.id ≡ event_id → IsFinished r) _ last.outbox o v.rows found in
    finished_unclaimable now before o (ground (arith, passes))
      (l (ap (λ (x : Event). x.id) (sym event) ∙ same))

-- An update of the only row of an identifier.
pub only_updated :
    (event_id : Uuid) (c : OutboxRow) (g : OutboxRow → OutboxRow) (os : List OutboxRow)
    → All (λ o. o.id ≡ event_id → o ≡ c) os
    → All (λ o. o.id ≡ event_id → o ≡ g c) (update (λ o. o.id == event_id) g os)
unfolding update
only_updated event_id c g [] all = tt
only_updated event_id c g (o ∷ os) all = (
  elim (Bool-cases (o.id == event_id)) [
    | inl hit ↦ rw hit (λ _. ap g (all.0 (==→≡ o.id event_id hit)))
    | inr miss ↦ rw miss (λ same. cc (miss, ap (λ k. k == event_id) same, ==-refl event_id))
  ],
  only_updated event_id c g os all.1,
)

-- A mark of the only row of an event, by a test that the row passes.
module _ (event_id : Uuid) (message : String) (db : Db) (c : OutboxRow) (p : OutboxRow → Bool)
    (g : OutboxRow → OutboxRow) (own : (o : OutboxRow) → p o ≡ true → (o.id == event_id) ≡ true)
    (passes : p c ≡ true) (keep : (o : OutboxRow) → (g o).id ≡ o.id)
    (only : Keeps event_id (λ o. o ≡ c) db) where
  test_agrees : (o : OutboxRow) → (o.id ≡ event_id → o ≡ c) → p o ≡ (o.id == event_id)
  test_agrees o same = elim (Bool-cases (o.id == event_id)) [
    | inl hit ↦ let e = same (==→≡ o.id event_id hit) in cc (hit, e, passes, ap p e)
    | inr miss ↦ elim (Bool-cases (p o)) [ inl t ↦ cc (own o t, miss) | inr t ↦ cc (t, miss) ]
  ]

  rows_agree : All (λ o. p o ≡ (o.id == event_id)) db.outbox
  rows_agree = All-map (λ o. o.id ≡ event_id → o ≡ c) _ db.outbox test_agrees only.rows

  pub mark_succeeds :
      (affected message (statement up db (update_outbox p g db))
        ≡ (ok tt, record db { outbox = update (λ o. o.id == event_id) g db.outbox }))
      × Keeps event_id
          (λ o. o ≡ g c)
          (record db { outbox = update (λ o. o.id == event_id) g db.outbox })
  mark_succeeds = (
    rw (
      count-congr p (λ o. o.id == event_id) db.outbox rows_agree,
      update-congr p (λ o. o.id == event_id) g db.outbox rows_agree,
      only.one,
    ),
    record {
      one = count-update_same _ (λ o. o.id == event_id) g db.outbox (λ o. rw (keep o)) ∙ only.one;
      rows = only_updated event_id c g db.outbox only.rows;
    },
  )

-- With the server up, each of the three marks succeeds on the only row of an event, if its lock is
-- the one given and it was neither processed nor failed.
module _ (event_id lock_id : Uuid) (at : Time) (db : Db) (c : OutboxRow) (own : c.id ≡ event_id)
    (locked : c.lock_id ≡ some lock_id) (unprocessed : c.processed_at ≡ none)
    (unfailed : c.failed_at ≡ none) (only : Keeps event_id (λ o. o ≡ c) db) where
  abbrev pub with_row : (OutboxRow → OutboxRow) → Db
  with_row g = record db { outbox = update (λ o. o.id == event_id) g db.outbox }

  pub holder_processes :
      (mark_processed up event_id lock_id at db ≡ (ok tt, with_row (process_row at)))
      × Keeps event_id (λ o. o ≡ process_row at c) (with_row (process_row at))
  unfolding mark_processed
  holder_processes =
      mark_succeeds event_id "mark outbox event processed" db c (is_held event_id lock_id)
        (process_row at) (λ o h. ground arith)
        (ground (arith, own, locked, unprocessed, ==-refl event_id, ==-refl lock_id)) (λ o. refl)
        only

  pub holder_fails :
      (message : String)
      → (mark_failed up event_id lock_id at message db ≡ (ok tt, with_row (fail_row at message)))
        × Keeps event_id (λ o. o ≡ fail_row at message c) (with_row (fail_row at message))
  unfolding mark_failed
  holder_fails message =
      mark_succeeds event_id "mark outbox event failed" db c (is_held event_id lock_id)
        (fail_row at message) (λ o h. ground arith)
        (ground (arith, own, locked, unprocessed, ==-refl event_id, ==-refl lock_id)) (λ o. refl)
        only

  pub holder_retries :
      (message : String)
      → (schedule_retry up event_id lock_id at message db
          ≡ (ok tt, with_row (retry_row at message)))
        × Keeps event_id (λ o. o ≡ retry_row at message c) (with_row (retry_row at message))
  unfolding schedule_retry
  holder_retries message =
      mark_succeeds event_id "schedule outbox retry" db c (is_pending event_id lock_id)
        (retry_row at message) (λ o h. ground arith)
        (ground (arith, own, locked, unprocessed, unfailed, ==-refl event_id, ==-refl lock_id))
        (λ o. refl) only

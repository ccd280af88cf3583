-- ===== src/Postgres/Outbox/Leases.antt =====
-- The lease of a claimed event: no other worker gets the event before the lease runs out, and its
-- holder can finish it.
use frimo_messenger.Base.{
  ◌+◌, ◌-◌, ◌≤◌, ◌≡◌, ◌≢◌, refl, Bool, true, ◌&&◌, none, some, List, [], ◌∷◌, ◌==◌, update, count,
  All, arith, Bool-cases, inl, inr, ==→≡, ==-refl, ap, sym, ◌∙◌, is_null,
}
use frimo_messenger.Base.Table.Laws.{All-map, count-update_same, count-congr, update-congr}
use frimo_messenger.Errors.{ok}
use frimo_messenger.Domain.{Uuid, Time, Duration, Event}
use frimo_messenger.Postgres.Schema.{Db, OutboxRow}
use frimo_messenger.Postgres.Link.{Fault, up}
use frimo_messenger.Postgres.Outbox.{
  held_by, claim_row, claim_next, mark_processed, is_held, process_row, is_claimable,
}
use frimo_messenger.Postgres.Outbox.Actions.{Actions, Keeps, Actions-Keeps}
use frimo_messenger.Postgres.Outbox.Claims.{
  claim_next-selects, first_by_time-All, first_by_time-only, first_by_time-passes, is_ready,
}

-- Locked by `held` since `since`, and neither processed nor failed.
abbrev pub IsLeased : Uuid → Time → OutboxRow → Type 0
IsLeased held since o =
    (o.lock_id ≡ some held)
    × (o.locked_at ≡ some since)
    × (o.processed_at ≡ none)
    × (o.failed_at ≡ none)

leased_unclaimable :
    (held : Uuid) (since now before : Time) (o : OutboxRow)
    → before ≤ since
    → is_claimable now before o ≡ true
    → IsLeased held since o
    → ⊥
leased_unclaimable held since now before o le c l = ground arith

leased_unheld :
    (held : Uuid) (since : Time) (lock_id : Uuid) (o : OutboxRow)
    → lock_id ≢ held
    → (held_by lock_id o && is_null o.processed_at) ≡ true
    → IsLeased held since o
    → ⊥
leased_unheld held since lock_id o differs h l = ground arith

Actions-IsLeased :
    (event_id held : Uuid) (since : Time) {db db' : Db}
    → Actions held since db db'
    → Keeps event_id (IsLeased held since) db
    → Keeps event_id (IsLeased held since) db'
Actions-IsLeased event_id held since =
    Actions-Keeps held since (IsLeased held since) (leased_unclaimable held since)
      (leased_unheld held since) event_id

-- The update of a claim leaves the rows of its event leased.
IsLeased-claimed :
    (event_id held : Uuid) (now before : Time) (busy : Uuid → Bool) (id : Uuid)
    (os : List OutboxRow)
    → id ≡ event_id
    → All (λ r. r.id ≡ event_id → is_ready busy now before r ≡ true) os
    → All
        (λ r. r.id ≡ event_id → IsLeased held now r)
        (update (λ r. r.id == id) (claim_row held now) os)
unfolding update
IsLeased-claimed event_id held now before busy id [] own all = tt
IsLeased-claimed event_id held now before busy id (o ∷ os) own all = (
  λ same. elim (Bool-cases (o.id == id)) [
    | inl hit ↦
        let ready = all.0 (==→≡ o.id id hit ∙ own) in
        (
          ground (arith, hit),
          ground (arith, hit),
          ground (arith, hit, ready),
          ground (arith, hit, ready),
        )
    | inr miss ↦ absurd (ground (arith, miss, own, same))
  ],
  IsLeased-claimed event_id held now before busy id os own all.1,
)

-- A claim leases its event, if identifiers are distinct.
claim_next-IsLeased :
    (busy : Uuid → Bool) (f : Fault) (held : Uuid) (now before : Time) (db db' : Db) (e : Event)
    → claim_next busy f held now before db ≡ (ok e, db')
    → count (λ o. o.id == e.id) db.outbox ≡ 1
    → Keeps e.id (IsLeased held now) db'
claim_next-IsLeased busy f held now before db db' e h one =
    let (o, found, event, tables) = claim_next-selects busy f held now before db db' e h in
    let own : o.id ≡ e.id = ap (λ (x : Event). x.id) (sym event) in
    rw tables (record {
      one = count-update_same _ _ _ db.outbox (λ r. refl) ∙ one;
      rows = IsLeased-claimed e.id held now before busy o.id db.outbox own (
          first_by_time-only _ (is_ready busy now before) e.id db.outbox o
            (first_by_time-passes (is_ready busy now before) db.outbox o found) one found own);
    })

-- The lease is exclusive: after a claim of an event whose identifier is distinct, while the others
-- act under other locks and take over only locks from before the claim, no claim returns the event
-- until `lease` has passed.
pub lease_exclusive :
    (busy busy' : Uuid → Bool) (f g : Fault) (held other : Uuid) (now before later : Time)
    (lease : Duration) (db db' last final : Db) (e e' : Event)
    → claim_next busy f held now before db ≡ (ok e, db')
    → count (λ o. o.id == e.id) db.outbox ≡ 1
    → Actions held now db' last
    → later ≤ now + lease
    → claim_next busy' g other later (later - lease) last ≡ (ok e', final)
    → e'.id ≢ e.id
lease_exclusive busy busy' f g held other now before later lease db db' last final e e' h one acts
      soon h' =
    let v =
      Actions-IsLeased e.id held now acts
        (claim_next-IsLeased busy f held now before db db' e h one) in
    let (o, found, event, _) =
      claim_next-selects busy' g other later (later - lease) last final e' h' in
    let passes = first_by_time-passes (is_ready busy' later (later - lease)) last.outbox o found in
    let l =
      first_by_time-All (λ r. r.id ≡ e.id → IsLeased held now r) _ last.outbox o v.rows found in
    λ same.
      leased_unclaimable held now later (later - lease) o (omega arith) (ground (arith, passes))
        (l (ap (λ (x : Event). x.id) (sym event) ∙ same))

held-leased :
    (event_id held : Uuid) (since : Time) (r : OutboxRow)
    → (r.id ≡ event_id → IsLeased held since r)
    → is_held event_id held r ≡ (r.id == event_id)
held-leased event_id held since r l = elim (Bool-cases (r.id == event_id)) [
  | inr miss ↦ rw miss
  | inl hit ↦ let facts = l (==→≡ r.id event_id hit) in ground (arith, facts, hit, ==-refl held)
]

-- The holder is not disturbed: after a claim, under any fault, of an event whose identifier one row
-- has, and while the others take over only locks from before it, the holder's `MarkProcessed` succeeds
-- with the server up and updates the row of the event.
pub lease_kept :
    (busy : Uuid → Bool) (f : Fault) (held : Uuid) (now before done : Time) (db db' last : Db)
    (e : Event)
    → claim_next busy f held now before db ≡ (ok e, db')
    → count (λ o. o.id == e.id) db.outbox ≡ 1
    → Actions held now db' last
    → mark_processed up e.id held done last
      ≡ (ok tt, record last { outbox = update (λ o. o.id == e.id) (process_row done) last.outbox })
unfolding mark_processed
lease_kept busy f held now before done db db' last e h one acts =
    let v =
      Actions-IsLeased e.id held now acts
        (claim_next-IsLeased busy f held now before db db' e h one) in
    let agree =
      All-map (λ r. r.id ≡ e.id → IsLeased held now r) (λ r. is_held e.id held r ≡ (r.id == e.id))
        last.outbox (λ r l. held-leased e.id held now r l) v.rows in
    rw (
      count-congr _ _ last.outbox agree,
      update-congr _ _ (process_row done) last.outbox agree,
      v.one,
    )

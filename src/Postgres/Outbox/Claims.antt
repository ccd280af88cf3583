-- ===== src/Postgres/Outbox/Claims.antt =====
-- `ClaimNext`: which event a worker gets.
use mathlib.Core.List.{Mem, mem-cons_self, mem-cons_of_mem}
use frimo_messenger.Base.{
  ◌≡◌, ◌⊎◌, ◌↔◌, inl, inr, refl, Bool, true, false, ◌&&◌, not, none, some, List, [], ◌∷◌, ◌==◌,
  update, exists, All, arith, Bool-cases, Option-cases, ==-refl, ap, count, subst, sym,
}
use frimo_messenger.Base.Table.Laws.{exists-of_count_zero, All-map, All-not_exists}
use frimo_messenger.Errors.{ok, err, sentinel, no_events}
use frimo_messenger.Domain.{Uuid, Time, Event}
use frimo_messenger.Postgres.Schema.{Db, OutboxRow}
use frimo_messenger.Postgres.Link.{Fault, up}
use frimo_messenger.Postgres.Outbox.{
  is_claimable, comes_before, first_by_time, to_event, claim_row, claim_next,
}

-- The row that the candidate query selects: it may be claimed, is not held by a statement of
-- another connection, and no such row comes before it.
pub record IsNext (busy : Uuid → Bool) (now before : Time) (o : OutboxRow) (os : List OutboxRow)
    : Type 0 where
  pub there : Mem o os
  pub claimable : is_claimable now before o ≡ true
  pub idle : busy o.id ≡ false
  pub least :
      All (λ r. (is_claimable now before r && (not (busy r.id) && comes_before r o)) ≡ false) os

module _ (p : OutboxRow → Bool) where
  pub first_by_time-none : (os : List OutboxRow) → first_by_time p os ≡ none → exists p os ≡ false
  unfolding first_by_time exists
  first_by_time-none [] h = refl
  first_by_time-none (o ∷ os) h = ground (arith, first_by_time-none os)

  first_by_time-skips :
      (os : List OutboxRow) → All (λ o. p o ≡ false) os → first_by_time p os ≡ none
  unfolding first_by_time
  first_by_time-skips [] all = refl
  first_by_time-skips (o ∷ os) all = ground (arith, all.0, first_by_time-skips os all.1)

  pub first_by_time-passes :
      (os : List OutboxRow) (o : OutboxRow) → first_by_time p os ≡ some o → p o ≡ true
  unfolding first_by_time
  first_by_time-passes [] o h = cc
  first_by_time-passes (x ∷ os) o h = elim (Option-cases (first_by_time p os)) [
    | inl e ↦ ground (arith, e)
    | inr (y, e) ↦ ground (arith, e, first_by_time-passes os y e)
  ]

  -- The head is selected, or what the rest selects.
  pub first_by_time-cons :
      (x : OutboxRow) (os : List OutboxRow) (o : OutboxRow)
      → first_by_time p (x ∷ os) ≡ some o
      → ((o ≡ x) × ((y : OutboxRow) → first_by_time p os ≡ some y → comes_before y x ≡ false))
        ⊎ ((first_by_time p os ≡ some o) × (p x ≡ true → comes_before o x ≡ true))
  unfolding first_by_time
  first_by_time-cons x os o h = elim (Option-cases (first_by_time p os)) [
    | inl e ↦ inl (ground (arith, e), λ y h'. cc (e, h'))
    | inr (y, e) ↦ elim (Bool-cases (p x)) [
      | inr skip ↦ inr (ground (arith, e), λ px. cc)
      | inl take ↦ elim (Bool-cases (comes_before y x)) [
        | inl first ↦ inr (ground (arith, e), λ _. ground (arith, e))
        | inr later ↦ inl (ground (arith, e), λ z h'. ground (arith, e, h'))
      ]
    ]
  ]

  pub first_by_time-Mem :
      (os : List OutboxRow) (o : OutboxRow) → first_by_time p os ≡ some o → Mem o os
  unfolding first_by_time
  first_by_time-Mem [] o h = cc
  first_by_time-Mem (x ∷ os) o h = elim (first_by_time-cons x os o h) [
    | inl (e, _) ↦ rw e mem-cons_self
    | inr (e, _) ↦ mem-cons_of_mem x (first_by_time-Mem os o e)
  ]

  pub first_by_time-least :
      (os : List OutboxRow) (o : OutboxRow)
      → first_by_time p os ≡ some o
      → All (λ r. p r ≡ true → comes_before r o ≡ false) os
  unfolding first_by_time
  first_by_time-least [] o h = tt
  first_by_time-least (x ∷ os) o h = elim (first_by_time-cons x os o h) [
    | inr (e, first) ↦ (λ px. ground (arith, first px), first_by_time-least os o e)
    | inl (e, later) ↦ rw e (
      λ px. ground arith,
      elim (Option-cases (first_by_time p os)) [
        | inl none_left ↦
            All-map (λ r. p r ≡ false) _ os (λ r h' h''. cc (h', h''))
              (All-not_exists p os (first_by_time-none os none_left))
        | inr (y, found) ↦
            All-map (λ r. p r ≡ true → comes_before r y ≡ false) _ os
              (λ r h' pr. ground (arith, h' pr, later y found)) (first_by_time-least os y found)
      ],
    )
  ]

abbrev pub is_ready : (Uuid → Bool) → Time → Time → OutboxRow → Bool
is_ready busy now before o = is_claimable now before o && not (busy o.id)

pub claim_next-selects :
    (busy : Uuid → Bool) (f : Fault) (lock_id : Uuid) (now before : Time) (db db' : Db) (e : Event)
    → claim_next busy f lock_id now before db ≡ (ok e, db')
    → (o : OutboxRow) × (first_by_time (is_ready busy now before) db.outbox ≡ some o)
      × (e ≡ to_event (claim_row lock_id now o))
      × (db' ≡ record db { outbox = update (λ r. r.id == o.id) (claim_row lock_id now) db.outbox })
unfolding claim_next
claim_next-selects busy f lock_id now before db db' e h =
    elim (Option-cases (first_by_time (is_ready busy now before) db.outbox)) [
      | inl missing ↦ absurd (ground (arith, missing))
      | inr (o, found) ↦ (o, found, ground (arith, found), ground (arith, found))
    ]

-- A claim that succeeds, under any fault, takes a row that can be claimed, that no other statement
-- holds, and that no other such row precedes: it is locked by the worker, one more attempt is counted,
-- and no row of another identifier changes. The event is that row.
pub claim_next-ok :
    (busy : Uuid → Bool) (f : Fault) (lock_id : Uuid) (now before : Time) (db db' : Db) (e : Event)
    → claim_next busy f lock_id now before db ≡ (ok e, db')
    → (o : OutboxRow) × IsNext busy now before o db.outbox
      × (e ≡ to_event (claim_row lock_id now o))
      × (db' ≡ record db { outbox = update (λ r. r.id == o.id) (claim_row lock_id now) db.outbox })
claim_next-ok busy f lock_id now before db db' e h =
    let (o, found, event, tables) = claim_next-selects busy f lock_id now before db db' e h in
    let ready = is_ready busy now before in
    let passes : ready o ≡ true = first_by_time-passes ready db.outbox o found in
    (
      o,
      record {
        there = first_by_time-Mem ready db.outbox o found;
        claimable = ground (arith, passes);
        idle = ground (arith, passes);
        least =
            All-map _ _ db.outbox (λ r h'. ground (arith, h'))
              (first_by_time-least ready db.outbox o found);
      },
      event,
      tables,
    )

-- With the server up, a worker is told that there is no event exactly when no row can be claimed.
pub claim_next-no_events :
    (busy : Uuid → Bool) (lock_id : Uuid) (now before : Time) (db : Db)
    → ((claim_next busy up lock_id now before db).0 ≡ err (sentinel no_events))
      ↔ All (λ o. (is_claimable now before o && not (busy o.id)) ≡ false) db.outbox
unfolding claim_next
claim_next-no_events busy lock_id now before db = (
  λ h. elim (Option-cases (first_by_time ready db.outbox)) [
    | inl missing ↦ All-not_exists ready db.outbox (first_by_time-none ready db.outbox missing)
    | inr (o, found) ↦ absurd (ground (arith, found, h))
  ],
  λ all. ground (arith, first_by_time-skips ready db.outbox all),
)
  where
    ready : OutboxRow → Bool
    ready o = is_claimable now before o && not (busy o.id)

-- What holds of every row holds of the one that is selected.
pub first_by_time-All {κ} :
    (Q : OutboxRow → Type κ) (p : OutboxRow → Bool) (os : List OutboxRow) (o : OutboxRow)
    → All Q os
    → first_by_time p os ≡ some o
    → Q o
unfolding first_by_time
first_by_time-All Q p [] o all h = cc
first_by_time-All Q p (x ∷ os) o all h = elim (first_by_time-cons p x os o h) [
  | inl (e, _) ↦ subst Q (sym e) all.0
  | inr (e, _) ↦ first_by_time-All Q p os o all.1 e
]

-- Whatever the fault, the queue is as before, or the selected row is locked.
pub claim_next_cases {ℓ} :
    (P : Db → Type ℓ) (busy : Uuid → Bool) (f : Fault) (lock_id : Uuid) (now before : Time)
    (db : Db)
    → P db
    → ((o : OutboxRow)
        → first_by_time (is_ready busy now before) db.outbox ≡ some o
        → is_claimable now before o ≡ true
        → P (record db { outbox = update (λ r. r.id == o.id) (claim_row lock_id now) db.outbox }))
    → P (claim_next busy f lock_id now before db).1
unfolding claim_next
claim_next_cases P busy f lock_id now before db same taken =
    elim (Option-cases (first_by_time (is_ready busy now before) db.outbox)) [
      | inl missing ↦ ground (arith, missing)
      | inr (o, found) ↦
          let updated =
            taken o found
              (ground (arith, first_by_time-passes (is_ready busy now before) db.outbox o found)) in
          ground (arith, found, updated)
    ]

-- With distinct identifiers the selected row is the only one of its identifier.
pub first_by_time-only {κ} :
    (Q : OutboxRow → Type κ) (p : OutboxRow → Bool) (k : Uuid) (os : List OutboxRow) (o : OutboxRow)
    → Q o
    → count (λ r. r.id == k) os ≡ 1
    → first_by_time p os ≡ some o
    → o.id ≡ k
    → All (λ r. r.id ≡ k → Q r) os
unfolding count
first_by_time-only Q p k [] o q one h same = tt
first_by_time-only Q p k (x ∷ os) o q one h same = elim (Bool-cases (x.id == k)) [
  | inr miss ↦ elim (first_by_time-cons p x os o h) [
    | inl (e, _) ↦ cc (miss, ==-refl k, ap (λ (r : OutboxRow). r.id == k) e, ap (λ j. j == k) same)
    | inr (e, _) ↦ (
      λ own. cc (miss, ==-refl k, ap (λ j. j == k) own),
      first_by_time-only Q p k os o q (ground (arith, miss)) e same,
    )
  ]
  | inl hit ↦
      let others : All (λ r. (r.id == k) ≡ false) os =
        All-not_exists (λ r. r.id == k) os
          (exists-of_count_zero (λ r. r.id == k) os (ground (arith, hit))) in
      elim (first_by_time-cons p x os o h) [
        | inl (e, _) ↦ (
          λ _. subst Q e q,
          All-map _ _ os (λ r differs own. cc (differs, ==-refl k, ap (λ j. j == k) own)) others,
        )
        | inr (e, _) ↦ cc (
          first_by_time-All (λ r. (r.id == k) ≡ false) p os o others e,
          ==-refl k,
          ap (λ j. j == k) same,
        )
      ]
]

-- With the server up, the selected row is claimed.
pub claim_next-found :
    (busy : Uuid → Bool) (lock_id : Uuid) (now before : Time) (db : Db) (o : OutboxRow)
    → first_by_time (is_ready busy now before) db.outbox ≡ some o
    → claim_next busy up lock_id now before db ≡ (
      ok (to_event (claim_row lock_id now o)),
      record db { outbox = update (λ r. r.id == o.id) (claim_row lock_id now) db.outbox },
    )
unfolding claim_next
claim_next-found busy lock_id now before db o found = ground (arith, found)

-- ===== src/Postgres/Outbox/Order.antt =====
-- `ClaimNext` and the order of the rows: a table has none, its list of rows does.
use mathlib.Core.Bool.{Bool-set}
use mathlib.Core.List.{Mem, not-mem-nil, forall_mem-cons, Perm, map}
use mathlib.Core.List.Perm
use mathlib.Mathlib.Data.Multiset.Defs.{Multiset, of_list, coe-eq-coe}
use frimo_messenger.Base.{
  ◌≡◌, refl, sym, ap, ◌∙◌, Bool, true, false, ◌&&◌, none, some, List, [], ◌∷◌, ◌==◌, All, arith,
  Option-cases, inl, inr, update, if◌then◌else◌,
}
use frimo_messenger.Base.Table.Laws.{All-map, All-not_exists}
use frimo_messenger.Domain.{Uuid, Time}
use frimo_messenger.Postgres.Schema.{Db, OutboxRow}
use frimo_messenger.Postgres.Link.{Fault}
use frimo_messenger.Postgres.Outbox.{comes_before, first_by_time, claim, claim_next, claim_row}
use frimo_messenger.Postgres.Outbox.Claims.{
  is_ready, first_by_time-passes, first_by_time-Mem, first_by_time-least, first_by_time-none,
}

-- What holds of every row holds of each that is there.
row_of_every :
    (f : OutboxRow → Bool) (os : List OutboxRow)
    → All (λ r. f r ≡ false) os
    → (o : OutboxRow) → Mem o os
    → f o ≡ false
row_of_every f [] all = λ o m. absurd (not-mem-nil m)
row_of_every f (x ∷ os) (head, all) =
    (forall_mem-cons {p = λ r. f r ≡ false} (λ r. Bool-set (f r) false)).1
      (head, row_of_every f os all)

-- No two of the rows that pass the test are alike in both times.
abbrev pub NoTies : (OutboxRow → Bool) → List OutboxRow → Type 0
NoTies p os =
    (a b : OutboxRow)
    → Mem a os
    → Mem b os
    → p a ≡ true
    → p b ≡ true
    → comes_before a b ≡ false
    → comes_before b a ≡ false
    → a ≡ b

module _ (p : OutboxRow → Bool) where
  -- Nothing that passes comes before what is selected.
  never_before :
      (os : List OutboxRow) (o r : OutboxRow)
      → first_by_time p os ≡ some o
      → Mem r os
      → p r ≡ true
      → comes_before r o ≡ false
  never_before os o r found there pass =
      let all =
        All-map _ (λ x. (p x && comes_before x o) ≡ false) os (λ x h. ground (arith, h))
          (first_by_time-least p os o found) in
      let none_before = row_of_every (λ x. p x && comes_before x o) os all r there in
      ground (arith, none_before, pass)

  never_missed :
      (os : List OutboxRow) (r : OutboxRow) → first_by_time p os ≡ none → Mem r os → p r ≡ false
  never_missed os r missing there =
      row_of_every p os (All-not_exists p os (first_by_time-none p os missing)) r there

  selects_same :
      (os os' : List OutboxRow)
      → Perm os os'
      → NoTies p os
      → first_by_time p os ≡ first_by_time p os'
  selects_same os os' perm apart = elim (Option-cases (first_by_time p os)) [
    | inl missing ↦ elim (Option-cases (first_by_time p os')) [
      | inl missing' ↦ missing ∙ sym missing'
      | inr (o', found') ↦ cc (
        never_missed os o' missing ((Perm.mem_iff perm).1 (first_by_time-Mem p os' o' found')),
        first_by_time-passes p os' o' found',
      )
    ]
    | inr (o, found) ↦ elim (Option-cases (first_by_time p os')) [
      | inl missing' ↦ cc (
        never_missed os' o missing' ((Perm.mem_iff perm).0 (first_by_time-Mem p os o found)),
        first_by_time-passes p os o found,
      )
      | inr (o', found') ↦
          let there = first_by_time-Mem p os o found in
          let there' = (Perm.mem_iff perm).1 (first_by_time-Mem p os' o' found') in
          let pass = first_by_time-passes p os o found in
          let pass' = first_by_time-passes p os' o' found' in
          found
          ∙ ap some (
              apart o o' there there' pass pass'
                (never_before os' o' o found' ((Perm.mem_iff perm).0 there) pass)
                (never_before os o o' found there' pass'))
          ∙ sym found'
    ]
  ]

-- An UPDATE is a map, and so keeps which rows there are.
update-map :
    (p : OutboxRow → Bool) (g : OutboxRow → OutboxRow) (os : List OutboxRow)
    → update p g os ≡ map (λ o. if p o then g o else o) os
unfolding update map
update-map p g [] = refl
update-map p g (o ∷ os) = ap (λ l. (if p o then g o else o) ∷ l) (update-map p g os)

update_unordered :
    (p : OutboxRow → Bool) (g : OutboxRow → OutboxRow) (os os' : List OutboxRow)
    → Perm os os'
    → Perm (update p g os) (update p g os')
update_unordered p g os os' perm =
    rw (update-map p g os, update-map p g os') (Perm.map (λ o. if p o then g o else o) perm)

claimed_unordered :
    (busy : Uuid → Bool) (f : Fault) (lock_id : Uuid) (now before : Time) (db db' : Db)
    → Perm db.outbox db'.outbox
    → first_by_time (is_ready busy now before) db.outbox
      ≡ first_by_time (is_ready busy now before) db'.outbox
    → Perm
        (claim_next busy f lock_id now before db).1.outbox
        (claim_next busy f lock_id now before db').1.outbox
unfolding claim_next claim
claimed_unordered busy f lock_id now before db db' perm selected =
    elim (Option-cases (first_by_time (is_ready busy now before) db.outbox)) [
      | inl missing ↦
          let missing' = sym selected ∙ missing in ground (arith, missing, missing', perm)
      | inr (o, found) ↦
          let found' = sym selected ∙ found in
          let updated =
            update_unordered (λ r. r.id == o.id) (claim_row lock_id now) db.outbox db'.outbox
              perm in
          ground (arith, found, found', perm, updated)
    ]

-- `ClaimNext` does not depend on the order of the list that stands for the table. For two tables
-- whose queues have the same rows, as multisets, and the same fault, it answers alike and leaves
-- queues with the same rows, if no two rows that may be claimed are alike in both times.
pub claim_next_unordered :
    (busy : Uuid → Bool) (f : Fault) (lock_id : Uuid) (now before : Time) (db db' : Db)
    → ◌≡◌ {A = Multiset OutboxRow} (of_list db.outbox) (of_list db'.outbox)
    → NoTies (is_ready busy now before) db.outbox
    → ((claim_next busy f lock_id now before db).0 ≡ (claim_next busy f lock_id now before db').0)
      × ◌≡◌ {A = Multiset OutboxRow}
          (of_list (claim_next busy f lock_id now before db).1.outbox)
          (of_list (claim_next busy f lock_id now before db').1.outbox)
unfolding claim_next claim
claim_next_unordered busy f lock_id now before db db' same apart =
    let perm : Perm db.outbox db'.outbox = coe-eq-coe.0 same in
    let ready = is_ready busy now before in
    let selected = selects_same ready db.outbox db'.outbox perm apart in
    (
      ground (arith, selected),
      coe-eq-coe.1 (claimed_unordered busy f lock_id now before db db' perm selected),
    )

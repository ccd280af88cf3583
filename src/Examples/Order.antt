-- ===== src/Examples/Order.antt =====
-- `ClaimNext` on two lists of the same two mails.
use text.Mathlib.TextEquality.{IsScalar-prop}
use mathlib.Core.List.{Mem, not-mem-nil, forall_mem-cons}
use mathlib.Core.List.Perm
use mathlib.Mathlib.Data.Multiset.Defs.{Multiset, of_list, coe-eq-coe}
use frimo_messenger.Base.{◌≡◌, refl, [], ◌∷◌, false}
use frimo_messenger.Postgres.Schema.{Db, OutboxRow}
use frimo_messenger.Postgres.Link.{up}
use frimo_messenger.Postgres.Outbox.{claim_next, comes_before}
use frimo_messenger.Postgres.Outbox.Claims.{is_ready}
use frimo_messenger.Postgres.Outbox.Order.{NoTies, claim_next_unordered}
use frimo_messenger.Examples.{queue_db, mail_row}

OutboxRow-set : IsSet OutboxRow
OutboxRow-set = hlevel (IsScalar-prop)

abbrev later_row : OutboxRow
later_row = record mail_row { id = 41; available_at = 150 }

abbrev one_way : Db
one_way = record queue_db { outbox = mail_row ∷ later_row ∷ [] }

abbrev other_way : Db
other_way = record queue_db { outbox = later_row ∷ mail_row ∷ [] }

both :
    (P : OutboxRow → Type 0)
    → ((r : OutboxRow) → IsProp (P r))
    → P mail_row
    → P later_row
    → (r : OutboxRow) → Mem r one_way.outbox
    → P r
both P prop a b =
    (forall_mem-cons {p = P} prop).1
      (a, (forall_mem-cons {p = P} prop).1 (b, λ r m. absurd (not-mem-nil m)))

abbrev Apart : OutboxRow → OutboxRow → Type 0
Apart a b = comes_before a b ≡ false → comes_before b a ≡ false → a ≡ b

Apart-prop : (a b : OutboxRow) → IsProp (Apart a b)
Apart-prop a b = hlevel (OutboxRow-set)

no_ties : NoTies (is_ready (λ id. false) 200 0) one_way.outbox
no_ties a b in_a in_b ready_a ready_b =
    both (λ x. Apart x b) (λ x. Apart-prop x b)
      (both (Apart mail_row) (Apart-prop mail_row) (λ h h'. refl) (λ h h'. cc) b in_b)
      (both (Apart later_row) (Apart-prop later_row) (λ h h'. cc) (λ h h'. refl) b in_b) a in_a

claim_next_unordered_example :
    ((claim_next (λ id. false) up 60 200 0 one_way).0
      ≡ (claim_next (λ id. false) up 60 200 0 other_way).0)
    × ◌≡◌ {A = Multiset OutboxRow}
        (of_list (claim_next (λ id. false) up 60 200 0 one_way).1.outbox)
        (of_list (claim_next (λ id. false) up 60 200 0 other_way).1.outbox)
claim_next_unordered_example =
    claim_next_unordered (λ id. false) up 60 200 0 one_way other_way
      (coe-eq-coe.1 (Perm.swap later_row mail_row [])) no_ties

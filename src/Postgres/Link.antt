-- ===== src/Postgres/Link.antt =====
-- The connection to PostgreSQL: what may become of one round trip of a call, and a transaction.
-- A call gets its faults as a function of the round trip's number, from 0 for its first.
use frimo_messenger.Base.{ℕ, String, Option, none, some, if◌then◌else◌}
use frimo_messenger.Errors.{Error, Sentinel, sentinel, no_rows, wrap, is, Result, ok, err}
use frimo_messenger.Postgres.Schema.{Db}

-- `up`: the server answers. `down e`: the driver reports `e`, and nothing was done. `lost e`: the
-- driver reports `e`, and the server did what was asked, since only the answer was lost; of a
-- statement in a transaction nothing stays then either.
pub data Fault : Type 0 where
  up : Fault
  down lost : Error → Fault

abbrev pub Faults : Type 0
Faults = ℕ → Fault

-- A query or a statement within a transaction, or a query that only reads.
abbrev pub reply {ℓ} : {A : Type ℓ} → Fault → Result A → Result A
reply up r = r
reply (down e) r = err e
reply (lost e) r = err e

-- A statement outside a transaction commits by itself.
abbrev pub statement {ℓ} : {A : Type ℓ} → Fault → Db → A × Db → Result A × Db
statement up db (a, db') = (ok a, db')
statement (down e) db (a, db') = (err e, db)
statement (lost e) db (a, db') = (err e, db')

-- COMMIT of the changes from `db` to `db'`; `message` is the text put before its error.
abbrev pub commit {ℓ} : {A : Type ℓ} → Fault → String → A → Db → Db → Result A × Db
commit up message a db db' = (ok a, db')
commit (down e) message a db db' = (err (wrap message e), db)
commit (lost e) message a db db' = (err (wrap message e), db')

-- The end of a transaction that began at `db`: a body that returned early is rolled back.
abbrev pub finish {ℓ} : {A : Type ℓ} → Fault → String → Db → Result (A × Db) → Result A × Db
finish f message db (ok (a, db')) = commit f message a db db'
finish f message db (err e) = (err e, db)

-- `QueryRow(...).Scan(...)`: a query with no row is `pgx.ErrNoRows`.
abbrev pub query_row {ℓ} : {A : Type ℓ} → Fault → Option A → Result A
query_row f (some a) = reply f (ok a)
query_row f none = reply f (err (sentinel no_rows))

-- `if errors.Is(err, pgx.ErrNoRows) { return s }`, and any other error is wrapped.
abbrev pub or_no_rows {ℓ} : {A : Type ℓ} → Sentinel → String → Result A → Result A
or_no_rows s message (ok a) = ok a
or_no_rows s message (err e) = if is e no_rows then err (sentinel s) else err (wrap message e)

abbrev pub no_faults : Faults
no_faults i = up

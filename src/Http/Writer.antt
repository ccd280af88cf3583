-- ===== src/Http/Writer.antt =====
-- `responseWriter` of middleware.go, which lets one status through and remembers it.
use frimo_messenger.Base.{
  ℕ, ◌≡◌, refl, ◌∙◌, Bool, true, false, Option, some, none, List, [], ◌∷◌, ◌++◌, if◌then◌else◌, ap,
  sym,
}
use mathlib.Core.List.{append_assoc, append-nil}
use frimo_messenger.Http.{Op, Body, content_type, write_header, write}

-- `inner` has the calls that reached the wrapped writer.
pub record ResponseWriter : Type 0 where
  pub inner : List Op
  pub status : ℕ
  pub wrote_header : Bool

abbrev append : Op → ResponseWriter → ResponseWriter
append op w = record w { inner = w.inner ++ (op ∷ []) }

-- `WriteHeader`.
abbrev pub set_status : ℕ → ResponseWriter → ResponseWriter
set_status status w =
    if w.wrote_header
    then w
    else append (write_header status) (record w { status = status; wrote_header = true })

-- `Header().Set`, `WriteHeader` and `Write`.
unfoldable pub apply_op : Op → ResponseWriter → ResponseWriter
apply_op (content_type t) w = append (content_type t) w
apply_op (write_header status) w = set_status status w
apply_op (write body) w = append (write body) (if w.wrote_header then w else set_status 200 w)

unfoldable pub apply_ops : List Op → ResponseWriter → ResponseWriter
apply_ops [] w = w
apply_ops (op ∷ ops) w = apply_ops ops (apply_op op w)

-- The writer that `RequestLoggingMiddleware` makes.
abbrev pub fresh_writer : ResponseWriter
fresh_writer = record { inner = []; status = 200; wrote_header = false }

-- The statuses and the bodies of a sequence of calls.
unfoldable pub statuses : List Op → List ℕ
statuses [] = []
statuses (content_type t ∷ ops) = statuses ops
statuses (write_header s ∷ ops) = s ∷ statuses ops
statuses (write b ∷ ops) = statuses ops

unfoldable pub bodies : List Op → List Body
bodies [] = []
bodies (content_type t ∷ ops) = bodies ops
bodies (write_header s ∷ ops) = bodies ops
bodies (write b ∷ ops) = b ∷ bodies ops

-- The status that a handler chooses: that of its first `WriteHeader`, or 200 by a `Write` before it.
unfoldable pub chosen : List Op → Option ℕ
chosen [] = none
chosen (content_type t ∷ ops) = chosen ops
chosen (write_header s ∷ ops) = some s
chosen (write b ∷ ops) = some 200

abbrev pub status_or : ℕ → Option ℕ → ℕ
status_or d none = d
status_or d (some s) = s

abbrev pub as_list : Option ℕ → List ℕ
as_list none = []
as_list (some s) = s ∷ []

statuses-append : (a b : List Op) → statuses (a ++ b) ≡ statuses a ++ statuses b
unfolding statuses
statuses-append [] b = refl
statuses-append (content_type t ∷ a) b = statuses-append a b
statuses-append (write_header s ∷ a) b = ap (λ l. s ∷ l) (statuses-append a b)
statuses-append (write x ∷ a) b = statuses-append a b

pub bodies-append : (a b : List Op) → bodies (a ++ b) ≡ bodies a ++ bodies b
unfolding bodies
bodies-append [] b = refl
bodies-append (content_type t ∷ a) b = bodies-append a b
bodies-append (write_header s ∷ a) b = bodies-append a b
bodies-append (write x ∷ a) b = ap (λ l. x ∷ l) (bodies-append a b)

-- Once the status was sent, no other passes.
after_header :
    (ops inner : List Op) (status : ℕ)
    → let out = apply_ops ops (record { inner = inner; status = status; wrote_header = true }) in
      (out.status ≡ status)
      × (statuses out.inner ≡ statuses inner)
      × (bodies out.inner ≡ bodies inner ++ bodies ops)
unfolding apply_ops apply_op statuses bodies
after_header [] inner status = (refl, refl, sym (append-nil _))
after_header (content_type t ∷ ops) inner status =
    let (a, b, c) = after_header ops (inner ++ (content_type t ∷ [])) status in
    (a, b ∙ statuses-append inner _ ∙ append-nil _, c ∙ simp (bodies-append, append-nil))
after_header (write_header s ∷ ops) inner status = after_header ops inner status
after_header (write x ∷ ops) inner status =
    let (a, b, c) = after_header ops (inner ++ (write x ∷ [])) status in
    (a, b ∙ statuses-append inner _ ∙ append-nil _, c ∙ simp (bodies-append, append_assoc))

before_header :
    (ops inner : List Op) (status : ℕ)
    → let out = apply_ops ops (record { inner = inner; status = status; wrote_header = false }) in
      (out.status ≡ status_or status (chosen ops))
      × (statuses out.inner ≡ statuses inner ++ as_list (chosen ops))
      × (bodies out.inner ≡ bodies inner ++ bodies ops)
unfolding apply_ops apply_op statuses bodies chosen
before_header [] inner status = (refl, sym (append-nil _), sym (append-nil _))
before_header (content_type t ∷ ops) inner status =
    let (a, b, c) = before_header ops (inner ++ (content_type t ∷ [])) status in
    (a, b ∙ simp (statuses-append, append-nil), c ∙ simp (bodies-append, append-nil))
before_header (write_header s ∷ ops) inner status =
    let (a, b, c) = after_header ops (inner ++ (write_header s ∷ [])) s in
    (a, b ∙ statuses-append inner _, c ∙ simp (bodies-append, append-nil))
before_header (write x ∷ ops) inner status =
    let (a, b, c) = after_header ops ((inner ++ (write_header 200 ∷ [])) ++ (write x ∷ [])) 200 in
    (a, b ∙ simp (statuses-append, append-nil), c ∙ simp (bodies-append, append-nil, append_assoc))

-- A fresh writer remembers the status that the handler chose, or 200; it sends that status once and
-- no other, and passes on every body.
pub apply_ops-fresh :
    (ops : List Op)
    → let out = apply_ops ops fresh_writer in
      (out.status ≡ status_or 200 (chosen ops))
      × (statuses out.inner ≡ as_list (chosen ops))
      × (bodies out.inner ≡ bodies ops)
unfolding statuses bodies
apply_ops-fresh ops = before_header ops [] 200

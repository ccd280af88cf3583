-- ===== src/Dispatcher/Delivery.antt =====
-- The dispatcher over the PostgreSQL repository: which mails it sends, and that it leaves the tables
-- alone, as the worker needs it.
use frimo_messenger.Base.{
  ◌<◌, ◌≡◌, ◌⊎◌, inl, inr, refl, String, some, none, Bytes, find, ◌==◌, arith, Option-cases,
  Bool-cases, sym, ltb, str_eq,
}
use frimo_messenger.Errors.{Result, ok, err}
use frimo_messenger.Domain.{
  Uuid, Time, DeliveryData, Event, Payload, requested, empty_object, mistyped,
  email_verification_requested_type,
}
use frimo_messenger.Postgres.Schema.{Db, VerificationRow}
use frimo_messenger.Postgres.Link.{Faults}
use frimo_messenger.Postgres.Auth.{get_for_delivery, bytes_of}
use frimo_messenger.Dispatcher.{
  VerificationMessage, Dispatcher, message_of, handle, handle_email_verification_requested, deliver,
  send_token,
}

module _ (S : Type 0) (f : Faults) (send : VerificationMessage → S → Result (Unit {0}) × S)
    (clock : S → Time × S) (decrypt : Bytes → Uuid → Result String) (base_url : String)
    (query_escape quoted : String → String) where
  -- The dispatcher with the tables beside a state of the clock and the sender.
  abbrev pub dispatcher : Dispatcher (Db × S)
  dispatcher = record {
    get_for_delivery = λ id w. (get_for_delivery f id w.0, w);
    send_verification = λ m w. let (r, s) = send m w.1 in (r, (w.0, s));
    decrypt = decrypt;
    now = λ w. let (t, s) = clock w.1 in (t, (w.0, s));
    base_url = base_url;
    query_escape = query_escape;
    quoted = quoted;
  }

  -- What `GetForDelivery` returns is a row of the table, neither used nor revoked.
  record IsDelivery (id : Uuid) (db : Db) (v : VerificationRow) (x : DeliveryData) : Type 0 where
    row : find (λ r. r.id == id) db.verifications ≡ some v
    unused : v.used_at ≡ none
    unrevoked : v.revoked_at ≡ none
    same : x ≡ record {
      id = v.id;
      token_ciphertext = bytes_of v.token_ciphertext;
      expires_at = v.expires_at;
    }

  get_for_delivery-ok :
      (id : Uuid) (db : Db) (x : DeliveryData)
      → get_for_delivery f id db ≡ ok x
      → (v : VerificationRow) × IsDelivery id db v x
  unfolding get_for_delivery
  get_for_delivery-ok id db x h = elim (Option-cases (find (λ r. r.id == id) db.verifications)) [
    | inl e ↦ absurd (ground (arith, e))
    | inr (v, e) ↦ (
      v,
      record {
        row = e;
        unused = ground (arith, e);
        unrevoked = ground (arith, e);
        same = ground (arith, e);
      },
    )
  ]

  -- The token of `v` may be sent at the time of `s`.
  pub record IsDue (v : VerificationRow) (raw : String) (id : Uuid) (db : Db) (s : S) : Type 0 where
    pub row : find (λ r. r.id == id) db.verifications ≡ some v
    pub unused : v.used_at ≡ none
    pub unrevoked : v.revoked_at ≡ none
    pub unexpired : (clock s).0 < v.expires_at
    pub token : decrypt (bytes_of v.token_ciphertext) v.id ≡ ok raw

  -- The state after the handler: as before, as after the clock was read, or with one mail more, of
  -- a token that may be sent.
  abbrev pub Outcome : Payload → Db → S → Db × S → Type 0
  Outcome payload db s after =
      (after ≡ (db, s))
      ⊎ ((after ≡ (db, (clock s).1))
          ⊎ ((id : Uuid) × (recipient : String) × (v : VerificationRow) × (raw : String) × (payload
                ≡ requested id recipient)
              × IsDue v raw id db s
              × (after ≡ (db, (send (message_of dispatcher recipient raw) (clock s).1).1))))

  sent-Outcome :
      (id : Uuid) (recipient : String) (db : Db) (s : S) (v : VerificationRow) (x : DeliveryData)
      → IsDelivery id db v x
      → (clock s).0 < x.expires_at
      → (r : Result String) → decrypt x.token_ciphertext x.id ≡ r
      → Outcome
          (requested id recipient)
          db
          s
          (send_token dispatcher recipient r (db, (clock s).1)).1
  sent-Outcome id recipient db s v x found soon (err e) h = inr (inl refl)
  sent-Outcome id recipient db s v x found soon (ok raw) h = inr (
      inr (
        id,
        recipient,
        v,
        raw,
        refl,
        record {
          row = found.row;
          unused = found.unused;
          unrevoked = found.unrevoked;
          unexpired = ground (arith, found.same, soon);
          token = rw (sym h, found.same) refl;
        },
        ground arith,
      ))

  deliver-Outcome :
      (id : Uuid) (recipient : String) (db : Db) (s : S) (r : Result DeliveryData)
      → get_for_delivery f id db ≡ r
      → Outcome (requested id recipient) db s (deliver dispatcher recipient (r, (db, s))).1
  deliver-Outcome id recipient db s (err e) h = inl (ground arith)
  deliver-Outcome id recipient db s (ok x) h =
      let (v, found) = get_for_delivery-ok id db x h in
      elim (Bool-cases (ltb (clock s).0 x.expires_at)) [
        | inr late ↦ inr (inl (rw late refl))
        | inl soon ↦ rw soon (
            sent-Outcome id recipient db s v x found (ground arith)
              (decrypt x.token_ciphertext x.id) refl)
      ]

  payload-Outcome :
      (payload : Payload) (db : Db) (s : S)
      → Outcome payload db s (handle_email_verification_requested dispatcher payload (db, s)).1
  unfolding handle_email_verification_requested
  payload-Outcome (mistyped m) db s = inl refl
  payload-Outcome empty_object db s = inl refl
  payload-Outcome (requested id recipient) db s = elim (Bool-cases (id == 0)) [
    | inl e ↦ rw e (inl refl)
    | inr e ↦ elim (Bool-cases (str_eq recipient "")) [
      | inl g ↦ rw (e, g) (inl refl)
      | inr g ↦ rw (e, g) (deliver-Outcome id recipient db s (get_for_delivery f id db) refl)
    ]
  ]

  -- The handler sends at most one mail, and only the mail of its event's token, while that token is
  -- unused, unrevoked and unexpired; the tables stay as they were, whatever the faults.
  pub handle-Outcome :
      (event : Event) (db : Db) (s : S)
      → Outcome event.payload db s (handle dispatcher event (db, s)).1
  unfolding handle
  handle-Outcome event db s =
      elim (Bool-cases (str_eq event.event_type email_verification_requested_type)) [
        | inl e ↦ rw e (payload-Outcome event.payload db s)
        | inr e ↦ rw e (inl refl)
      ]

  pub handle_leaves_tables :
      (event : Event) (db : Db) (s : S) → (handle dispatcher event (db, s)).1.0 ≡ db
  unfolding handle handle_email_verification_requested
  handle_leaves_tables event db s = ground arith

-- ===== src/Server/Mail.antt =====
-- What the worker mails, and `ConfirmEmail` confirms, on the tables after a registration.
use frimo_messenger.Base.{
  suc, ◌≡◌, refl, ap, ◌∙◌, false, String, Bytes, str_eq, ltb, ◌==◌, ==-refl, bytes_eq_refl,
  if◌then◌else◌, exists, find, Bool-cases, inl, inr,
}
use frimo_messenger.Base.Table.Laws.{count-zero, count-cons_hit, find-cons_hit}
use frimo_messenger.Errors.{Result, ok, err, sentinel, expired_token}
use frimo_messenger.Domain.{
  Uuid, Time, CreateUserInput, Event, requested, email_verification_requested_type,
}
use frimo_messenger.Postgres.Schema.{Db}
use frimo_messenger.Postgres.Link.{no_faults}
use frimo_messenger.Postgres.Auth.{
  is_empty, confirm_email, get_for_delivery, verification_row, user_row,
}
use frimo_messenger.Postgres.Auth.Registration.{registered}
use frimo_messenger.Postgres.Auth.Confirmation.{confirmed, confirm_email_decides}
use frimo_messenger.Dispatcher.{
  Dispatcher, VerificationMessage, message_of, sent, handle, handle_email_verification_requested,
}
use frimo_messenger.Config.{Config}
use frimo_messenger.Server.Worker.{worker_dispatcher}

-- A confirmation by the token of a registration.
pub confirm-registered :
    (input : CreateUserInput) (db : Db) (later : Time)
    → exists (λ r. r.id == input.id) db.users ≡ false
    → confirm_email no_faults input.verification.token_hash later (registered input db) ≡ (
        if ltb later input.verification.expires_at
        then (ok tt, confirmed input.id input.verification.token_hash later (registered input db))
        else (err (sentinel expired_token), registered input db))
confirm-registered input db later free =
    confirm_email_decides input.verification.token_hash later (registered input db)
      (verification_row input.id input.created_at input.verification) (user_row input)
      (find-cons_hit _ _ _ (bytes_eq_refl input.verification.token_hash))
      (find-cons_hit _ _ _ (==-refl input.id))
      (count-cons_hit _ _ _ (==-refl input.id) ∙ ap suc (count-zero _ db.users free))
    ∙ elim (Bool-cases (ltb later input.verification.expires_at)) [
      | inl e ↦ rw e refl
      | inr e ↦ rw e refl
    ]

module _ (S : Type 0) (send : VerificationMessage → S → Result (Unit {0}) × S)
    (clock : S → Time × S) (decrypt : Bytes → Uuid → Result String) (cfg : Config)
    (query_escape quoted : String → String) where
  -- The worker's dispatcher, with the server up.
  abbrev pub worker : Dispatcher (Db × S)
  worker = worker_dispatcher S cfg no_faults send clock decrypt query_escape quoted

  -- What the dispatcher does for the event of a registration at the time of `s`.
  abbrev pub mail : String → String → Time → Db → S → Result (Unit {0}) × (Db × S)
  mail recipient raw expires db s =
      if ltb (clock s).0 expires
      then sent worker
          (worker.send_verification (message_of worker recipient raw) (db, (clock s).1))
      else (ok tt, (db, (clock s).1))

  get_for_delivery-registered :
      (input : CreateUserInput) (db : Db)
      → is_empty input.verification.token_ciphertext ≡ false
      → get_for_delivery no_faults input.verification.id (registered input db)
        ≡ ok (record {
          id = input.verification.id;
          token_ciphertext = input.verification.token_ciphertext;
          expires_at = input.verification.expires_at;
        })
  unfolding get_for_delivery find
  get_for_delivery-registered input db full = rw (==-refl input.verification.id, full) refl

  pub handle-registered :
      (input : CreateUserInput) (recipient raw : String) (db : Db) (s : S) (event : Event)
      → is_empty input.verification.token_ciphertext ≡ false
      → decrypt input.verification.token_ciphertext input.verification.id ≡ ok raw
      → (input.verification.id == 0) ≡ false
      → str_eq recipient "" ≡ false
      → event.event_type ≡ email_verification_requested_type
      → event.payload ≡ requested input.verification.id recipient
      → handle worker event (registered input db, s)
        ≡ mail recipient raw input.verification.expires_at (registered input db) s
  unfolding handle handle_email_verification_requested
  handle-registered input recipient raw db s event full token a b c e =
      rw (c, e, a, b, get_for_delivery-registered input db full, token)
        (elim (Bool-cases (ltb (clock s).0 input.verification.expires_at)) [
          | inl t ↦ rw t refl
          | inr t ↦ rw t refl
        ])

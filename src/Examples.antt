-- ===== src/Examples.antt =====
-- Small tables and inputs, on which the children run the code of the other modules.
pub mod Sessions
pub mod Delivery
pub mod Queue
pub mod Accounts
pub mod Service
pub mod Redis
pub mod Security
pub mod Http
pub mod Server
pub mod Journey
pub mod Silence
pub mod Theft
pub mod Login
pub mod Config
pub mod Programs
pub mod Jwt
pub mod Retry
pub mod Order
pub mod Texts
pub mod Checks
use frimo_messenger.Base.{String, Bool, none, some, [], ◌∷◌, Bytes, ◌+◌, ◌*◌}
use frimo_messenger.Domain.{
  minute, hour, User, CreateUserInput, ResendVerificationInput, VerificationInput, Event, requested,
  email_verification_requested_type, Session, RefreshToken, ExtendSessionInput, Identity,
}
use frimo_messenger.Postgres.Schema.{Db, UserRow, OutboxRow}

abbrev pub empty_db : Db
empty_db = record {
  users = [];
  verifications = [];
  outbox = [];
  sessions = [];
  refresh_tokens = [];
}

abbrev pub ann : UserRow
ann = record {
  id = 1;
  email = "ann@example.org";
  password_hash = "hash";
  email_verified_at = some 5;
  created_at = 1;
}

abbrev pub ann_db : Db
ann_db = record empty_db { users = ann ∷ [] }

abbrev pub laptop : Session
laptop = record {
  id = 10;
  user_id = 1;
  device_name = "laptop";
  created_ip = "192.0.2.1";
  last_ip = "192.0.2.1";
  created_at = 100;
  last_seen_at = 100;
  expires_at = 100 + hour;
}

abbrev pub first_token : RefreshToken
first_token = record { id = 20; token_hash = 7 ∷ 1 ∷ []; created_at = 100 }

-- A refresh with the first token at the time 200.
abbrev pub first_refresh : ExtendSessionInput
first_refresh = record {
  operation_id = 30;
  old_refresh_token_hash = 7 ∷ 1 ∷ [];
  new_refresh_token = record { id = 21; token_hash = 7 ∷ 2 ∷ []; created_at = 200 };
  session_lifetime = hour;
}

-- The same token again under another operation.
abbrev pub stolen_refresh : ExtendSessionInput
stolen_refresh = record {
  operation_id = 31;
  old_refresh_token_hash = 7 ∷ 1 ∷ [];
  new_refresh_token = record { id = 22; token_hash = 7 ∷ 3 ∷ []; created_at = 300 };
  session_lifetime = hour;
}

-- The first refresh sent again.
abbrev pub repeated_refresh : ExtendSessionInput
repeated_refresh = record stolen_refresh { operation_id = 30 }

abbrev pub phone : Session
phone = record laptop { id = 11; device_name = "phone" }

abbrev pub phone_token : RefreshToken
phone_token = record { id = 23; token_hash = 7 ∷ 4 ∷ []; created_at = 400 }

abbrev pub phone_refresh : ExtendSessionInput
phone_refresh = record {
  operation_id = 32;
  old_refresh_token_hash = 7 ∷ 4 ∷ [];
  new_refresh_token = record { id = 24; token_hash = 7 ∷ 5 ∷ []; created_at = 500 };
  session_lifetime = hour;
}

abbrev pub phone_identity : Identity
phone_identity = record { user_id = 1; session_id = 11 }

abbrev pub laptop_identity : Identity
laptop_identity = record { user_id = 1; session_id = 10 }

abbrev pub mail : Event
mail = record {
  id = 40;
  event_type = email_verification_requested_type;
  payload = requested 50 "bob@example.org";
  created_at = 100;
  available_at = 100;
  attempts = 0;
}

abbrev pub bob_token : VerificationInput
bob_token = record {
  id = 50;
  token_hash = 9 ∷ 1 ∷ [];
  token_ciphertext = 8 ∷ [];
  expires_at = 100 + hour;
}

abbrev pub bob : CreateUserInput
bob = record {
  id = 2;
  email = "bob@example.org";
  password_hash = "hash";
  created_at = 100;
  verification = bob_token;
  outbox_event = mail;
}

abbrev pub bob_user : User
bob_user = record { id = 2; email = "bob@example.org"; created_at = 100 }

-- Two minutes after the registration, a new token.
abbrev pub bob_again : ResendVerificationInput
bob_again = record {
  email = "bob@example.org";
  requested_at = 100 + 2 * minute;
  verification = record {
    id = 51;
    token_hash = 9 ∷ 2 ∷ [];
    token_ciphertext = 8 ∷ [];
    expires_at = 100 + 2 * hour;
  };
  outbox_event = record mail { id = 41; payload = requested 51 "bob@example.org" };
}

abbrev pub mail_row : OutboxRow
mail_row = record {
  id = 40;
  event_type = email_verification_requested_type;
  payload = requested 50 "bob@example.org";
  created_at = 100;
  available_at = 100;
  locked_at = none;
  lock_id = none;
  processed_at = none;
  failed_at = none;
  attempts = 0;
  last_error = none;
}

abbrev pub queue_db : Db
queue_db = record empty_db { outbox = mail_row ∷ [] }

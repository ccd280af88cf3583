-- ===== src/Service/Memory.antt =====
-- internal/service/auth/memory_repository.go: users in a map from emails. The lock makes the calls of
-- `Create` follow one another.
use Prim.Native.Nat.{◌^◌}
use frimo_messenger.Base.{
  ℕ, ◌+◌, ◌%◌, ◌≡◌, refl, String, Bool, Option, none, some, List, [], ◌∷◌, length, str_eq, exists,
  arith, if◌then◌else◌, All, Bool-cases, inl, inr,
}
use frimo_messenger.Errors.{Error, sentinel, Result, ok, err, email_already_exists}
use frimo_messenger.Domain.{Uuid, Time, User}

pub record MemoryUser : Type 0 where
  pub user : User
  pub password_hash : String

-- `counter` is a `uint64`.
pub record MemoryRepository : Type 0 where
  pub users : List (String × MemoryUser)
  pub counter : ℕ

abbrev pub new_memory_repository : MemoryRepository
new_memory_repository = record { users = []; counter = 0 }

-- Whether the map has a user under the email.
abbrev pub has_user : String → MemoryRepository → Bool
has_user email mr = exists (λ e. str_eq e.0 email) mr.users

abbrev created_user : Uuid → Time → String → User
created_user id now email = record { id = id; email = email; created_at = now }

-- `Create`, with what `ctx.Err()` gives before and under the lock, the new UUID and the time.
unfoldable pub create :
    Option Error
    → Option Error
    → Uuid
    → Time
    → String
    → String
    → MemoryRepository
    → Result User × MemoryRepository
create (some e) locked id now email password_hash mr = (err e, mr)
create none (some e) id now email password_hash mr = (err e, mr)
create none none id now email password_hash mr =
    if has_user email mr then (err (sentinel email_already_exists), mr) else (
      ok (created_user id now email),
      record {
        users =
            (email, record { user = created_user id now email; password_hash = password_hash })
            ∷ mr.users;
        counter = (mr.counter + 1) % 2 ^ 64;
      },
    )

-- Every user stands under its own email, and the counter is the number of users.
pub record IsConsistent (mr : MemoryRepository) : Type 0 where
  pub emails : All (λ e. e.1.user.email ≡ e.0) mr.users
  pub counted : mr.counter ≡ length mr.users % 2 ^ 64

create-IsConsistent :
    (before locked : Option Error) (id : Uuid) (now : Time) (email password_hash : String)
    (mr : MemoryRepository)
    → IsConsistent mr
    → IsConsistent (create before locked id now email password_hash mr).1
unfolding create length
create-IsConsistent (some e) locked id now email password_hash mr v = v
create-IsConsistent none (some e) id now email password_hash mr v = v
create-IsConsistent none none id now email password_hash mr v =
    elim (Bool-cases (has_user email mr)) [
      | inl taken ↦ rw taken v
      | inr free ↦
          rw free (record { emails = (refl, v.emails); counted = omega (arith, v.counted) })
    ]

-- ===== src/Postgres/Users.antt =====
-- internal/adapter/repository/postgres/user_repository.go, and internal/service/user/service.go over
-- it.
use frimo_messenger.Base.{◌==◌, find}
use frimo_messenger.Errors.{Result, ok, ◌>>=◌, context, profile_not_found}
use frimo_messenger.Domain.{Uuid, User}
use frimo_messenger.Postgres.Schema.{Db}
use frimo_messenger.Postgres.Link.{Faults, query_row, or_no_rows}

-- `UserRepository.GetUserByID`.
unfoldable pub select_user_by_id : Faults → Uuid → Db → Result User
select_user_by_id f user_id db = do
  u ←
      or_no_rows profile_not_found "failed to get user by ID"
        (query_row (f 0) (find (λ u. u.id == user_id) db.users))
  ok (record { id = user_id; email = u.email; created_at = u.created_at })

-- `Service.GetUserByID` of the user service.
unfoldable pub get_user_by_id : Faults → Uuid → Db → Result User
unfolding select_user_by_id
get_user_by_id f user_id db = context "failed to get user by ID" (select_user_by_id f user_id db)

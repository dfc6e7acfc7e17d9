-- ===== src/User/Guarded.antt =====
-- Sequences of the requests of pkg/handlers/auth.go and user_admin.go.
use ifritah_go.Prelude.{ℕ, List, [], ◌∷◌, ◌≡◌, false, All}
use ifritah_go.User.Table.{Db, Services, Query, Faults}
use ifritah_go.User.Requests.{
  Request, login_request, refresh_request, logout_request, forgot_request, reset_request,
  register_request, create_request, update_request, delete_request, admin_reset_request, Call,
  answer, run,
}
use ifritah_go.User.Rules.{Becomes, IsGuarded, Becomes-IsGuarded}
use ifritah_go.User.Effects.{
  login-Handled, refresh-Handled, logout-Handled, forgot_password-Handled, reset_password-Handled,
  admin_reset_user_password-Handled,
}
use ifritah_go.User.Guards.{
  create_user-Handled, register-Handled, update_user-Handled, delete_user-Handled,
}

-- Whatever the request, the table user becomes what the rules allow, when GetUserRole does not fail.
pub answer-Becomes :
    (s : Services) (now : ℕ) (f : Faults) (request : Request) (db : Db)
    → f Query.get_user_role ≡ false
    → Becomes s db (answer s now f request db).1
unfolding answer
answer-Becomes s now f (login_request body) db runs = login-Handled s db f now body
answer-Becomes s now f (refresh_request token) db runs = refresh-Handled s db f now token
answer-Becomes s now f (logout_request user) db runs = logout-Handled s db f user
answer-Becomes s now f (forgot_request random body) db runs =
    forgot_password-Handled s db f now random body
answer-Becomes s now f (reset_request body) db runs = reset_password-Handled s db f now body
answer-Becomes s now f (register_request body) db runs = register-Handled s db f body
answer-Becomes s now f (create_request caller body) db runs = create_user-Handled s db f caller body
answer-Becomes s now f (update_request param body) db runs =
    update_user-Handled s db f param body runs
answer-Becomes s now f (delete_request caller param) db runs =
    delete_user-Handled s db f caller param
answer-Becomes s now f (admin_reset_request param body) db runs =
    admin_reset_user_password-Handled s db f param body

abbrev pub RoleLookupRuns : Call → Type 0
RoleLookupRuns call = call.failing Query.get_user_role ≡ false

-- Requests one after another, whatever other statements fail, keep the users' ids and names distinct,
-- the ids below the next one and the roles in the list, and leave an active admin, provided that this
-- holds before and that no GetUserRole fails.
pub run-IsGuarded :
    (s : Services) (calls : List Call) (db : Db)
    → All RoleLookupRuns calls
    → IsGuarded s db
    → IsGuarded s (run s calls db)
unfolding run
run-IsGuarded s [] db runs g = g
run-IsGuarded s (call ∷ calls) db runs g =
    run-IsGuarded s calls _ runs.1
      (Becomes-IsGuarded s db _ (answer-Becomes s call.now call.failing call.request db runs.0) g)

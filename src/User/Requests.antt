-- ===== src/User/Requests.antt =====
-- The requests that pkg/handlers/auth.go and user_admin.go answer, and a sequence of them.
use ifritah_go.Prelude.{ℕ, String, Option, List, [], ◌∷◌, ℤ}
use ifritah_go.User.Table.{Db, Services, Faults}
use ifritah_go.User.Sessions.{Reply, LoginRequest, login, refresh, logout}
use ifritah_go.User.Passwords.{
  ResetRequest, forgot_password, reset_password, admin_reset_user_password,
}
use ifritah_go.User.Accounts.{CreateUserRequest, RegisterRequest, create_user, register}
use ifritah_go.User.Changes.{UpdateUserRequest, update_user, delete_user}

pub data Request : Type 0 where
  login_request : Option LoginRequest → Request
  refresh_request : Option String → Request
  logout_request : ℤ → Request
  forgot_request : Option String → Option String → Request
  reset_request : Option ResetRequest → Request
  register_request : Option RegisterRequest → Request
  create_request : ℤ → Option CreateUserRequest → Request
  update_request : Option ℤ → Option UpdateUserRequest → Request
  delete_request : ℤ → Option ℤ → Request
  admin_reset_request : Option ℤ → Option String → Request

-- A request with its moment and the statements that fail during it.
pub record Call : Type 0 where
  pub now : ℕ
  pub failing : Faults
  pub request : Request

unfoldable pub answer : Services → ℕ → Faults → Request → Db → Reply × Db
answer s now f (login_request body) db = login s f now body db
answer s now f (refresh_request token) db = refresh s f now token db
answer s now f (logout_request user) db = logout f user db
answer s now f (forgot_request random body) db = forgot_password s f now random body db
answer s now f (reset_request body) db = reset_password s f now body db
answer s now f (register_request body) db = register s f body db
answer s now f (create_request caller body) db = create_user s f caller body db
answer s now f (update_request param body) db = update_user f param body db
answer s now f (delete_request caller param) db = delete_user f caller param db
answer s now f (admin_reset_request param body) db = admin_reset_user_password s f param body db

-- One request after another.
unfoldable pub run : Services → List Call → Db → Db
unfolding answer
run s [] db = db
run s (call ∷ calls) db = run s calls (answer s call.now call.failing call.request db).1

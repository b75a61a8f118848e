-- ===== src/Accounts/Login.antt =====
-- Logging in, and the checks of the role: internal/service/auth/service.go and
-- internal/api/middleware/rbac.go. `compare hash password` is bcrypt's comparison, `sign` the signing
-- of a JWT under the service's secret, `lower` strings.ToLower.
pub mod Newcomer
use apime.Common.{
  ℕ, ◌+◌, ◌/◌, ◌*◌, String, Bool, true, false, not, ◌||◌, Option, none, some, List, ◌==◌, Result,
  ok, err, if◌then◌else◌,
}
use apime.Common.Text.{trim_space}
use apime.Common.Table.{first}
use apime.Common.Time.{hour, second}
use apime.Accounts.Users.{User, UserFaults, has_user_id, has_email}
use apime.Accounts.Auth.{Identity, user_jwt, api_token, instance_token}

-- jwt.MapClaims; instants are in seconds.
pub record Claims : Type 0 where
  pub sub : String
  pub email : String
  pub role : String
  pub exp : ℕ
  pub iat : ℕ

pub data LoginError : Type 0 where
  invalid_credentials : LoginError
  signing : String → LoginError

-- userRepo.GetByEmail
unfoldable pub get_by_email : UserFaults → String → List User → Option User
unfolding has_email
get_by_email f email t = if f.gets then none else first (has_email email) t

unfoldable pub claims_of : ℕ → ℕ → User → Claims
claims_of now exp_hours user = record {
  sub = user.id;
  email = user.email;
  role = user.role;
  exp = (now + exp_hours * hour) / second;
  iat = now / second;
}

abbrev pub signed : Result String String → Result LoginError String
signed (ok token) = ok token
signed (err message) = err (signing message)

unfoldable pub login :
    (String → String)
    → (String → String → Bool)
    → (Claims → Result String String)
    → UserFaults
    → ℕ
    → ℕ
    → String
    → String
    → List User
    → Result LoginError String
login lower compare sign f now exp_hours given password t =
    let email = trim_space (lower given) in
    if email == "" || password == ""
    then err invalid_credentials
    else elim (get_by_email f email t) [
      | none ↦ err invalid_credentials
      | some user ↦
          if not (compare user.password_hash password)
          then err invalid_credentials
          else signed (sign (claims_of now exp_hours user))
    ]

-- The userID that AuthWithOptions sets for the handlers.
unfoldable pub user_id_of : Identity → Option String
user_id_of (user_jwt sub) = sub
user_id_of (api_token user_id) = some user_id
user_id_of (instance_token _) = none

-- userRepo.GetByID
unfoldable pub get_user : UserFaults → String → List User → Option User
unfolding has_user_id
get_user f id t = if f.gets then none else first (has_user_id id) t

-- What a role check does with a request: on to the handler with the role set, or 401, or 403.
pub data Admission : Type 0 where
  admits : String → Admission
  not_authenticated user_unknown forbidden : Admission

unfoldable pub require_role : UserFaults → String → Option String → List User → Admission
require_role f required_role none t = not_authenticated
require_role f required_role (some id) t = elim (get_user f id t) [
  | none ↦ user_unknown
  | some user ↦ if not (user.role == required_role) then forbidden else admits user.role
]

unfoldable pub require_admin : UserFaults → Option String → List User → Admission
require_admin f none t = not_authenticated
require_admin f (some id) t = elim (get_user f id t) [
  | none ↦ user_unknown
  | some user ↦ if not (user.role == "admin") then forbidden else admits user.role
]

-- The role and the email that are set; the request always goes on.
unfoldable pub add_user_info : UserFaults → Option String → List User → Option (String × String)
add_user_info f none t = none
add_user_info f (some id) t = elim (get_user f id t) [
  | none ↦ none
  | some user ↦ some (user.role, user.email)
]

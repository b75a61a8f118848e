-- ===== src/Accounts/Users.antt =====
-- internal/service/user/service.go over internal/storage/sqlite/user_repo.go: creating and deleting
-- users. Nothing else runs between the statements of one call.
pub mod Admins
use apime.Common.{
  ℕ, String, Bool, true, false, not, ◌&&◌, ◌||◌, Option, none, some, List, [], ◌∷◌, ◌++◌, ◌==◌, leb,
  eqb, Result, ok, err, if◌then◌else◌, ltb, length,
}
use apime.Common.Table.{first, count_where, select, delete_where, update_where}
use apime.Common.Text.{trim_space, contains, codes}
use apime.Common.Time.{rfc3339}
use apime.Accounts.InstanceRepo.{Instance, World, Faults}
use apime.Accounts.Instances.{Service, delete}

pub record User : Type 0 where
  pub id : String
  pub email : String
  pub password_hash : String
  pub role : String
  pub created_at : ℕ

pub data UserError : Type 0 where
  invalid_email invalid_password delete_last_admin last_admin user_missing user_database hashing :
      UserError

-- Which statements on the users the database refuses.
pub record UserFaults : Type 0 where
  pub gets : Bool
  pub lists : Bool
  pub inserts : Bool
  pub updates : Bool
  pub reads_role : Bool
  pub counts : Bool
  pub deletes : Bool

unfoldable pub has_user_id : String → User → Bool
has_user_id id u = u.id == id

unfoldable pub is_admin : User → Bool
is_admin u = u.role == "admin"

unfoldable pub owned_by : String → Instance → Bool
owned_by id i = i.owner_user_id == id

unfoldable pub has_email : String → User → Bool
has_email email u = u.email == email

-- A duplicate id or email is what the table's constraints refuse.
unfoldable pub create_user :
    UserFaults → String → ℕ → User → List User → Result UserError User × List User
unfolding has_user_id has_email
create_user f fresh now u t =
    let row = record u { id = if u.id == "" then fresh else u.id; created_at = rfc3339 now } in
    if f.inserts
      || not (eqb (count_where (has_user_id row.id) t) 0)
      || not (eqb (count_where (has_email row.email) t) 0)
    then (err user_database, t)
    else (ok row, t ++ (row ∷ []))

unfoldable pub set_password : String → User → User
set_password hash u = record u { password_hash = hash }

unfoldable pub update_password_row :
    UserFaults → String → String → List User → Option UserError × List User
unfolding has_user_id set_password
update_password_row f id hash t =
    if f.updates
    then (some user_database, t)
    else if eqb (count_where (has_user_id id) t) 0
    then (some user_missing, t)
    else (none, update_where (has_user_id id) (set_password hash) t)

unfoldable pub delete_user_row : UserFaults → String → List User → Option UserError × List User
unfolding has_user_id
delete_user_row f id t =
    if f.deletes
    then (some user_database, t)
    else if eqb (count_where (has_user_id id) t) 0
    then (some user_missing, t)
    else (none, delete_where (has_user_id id) t)

-- userRepo.Delete
unfoldable pub delete_user : UserFaults → String → List User → Option UserError × List User
unfolding delete_user_row has_user_id is_admin
delete_user f id t =
    if f.reads_role then (some user_database, t) else elim (first (has_user_id id) t) [
      | none ↦ (some user_missing, t)
      | some u ↦
          if is_admin u
          then (if f.counts
              then (some user_database, t)
              else if leb (count_where is_admin t) 1
              then (some last_admin, t)
              else delete_user_row f id t)
          else delete_user_row f id t
    ]

pub record CreateInput : Type 0 where
  pub email : String
  pub password : String
  pub role : String

-- Service.Create without the token that it asks the token service for. `lower` is strings.ToLower,
-- `size` the length in bytes, and `hash` is hashPassword.
unfoldable pub create :
    (String → String)
    → (String → ℕ)
    → (String → Option String)
    → UserFaults
    → String
    → ℕ
    → CreateInput
    → List User
    → Result UserError User × List User
unfolding create_user
create lower size hash f fresh now input t =
    let email = trim_space (lower input.email) in
    let role = trim_space input.role in
    if email == "" || not (contains email "@")
    then (err invalid_email, t)
    else if ltb (size input.password) 8
    then (err invalid_password, t)
    else elim (hash input.password) [
      | none ↦ (err hashing, t)
      | some h ↦
          create_user f fresh now
            (record {
              id = "";
              email = email;
              password_hash = h;
              role = if role == "" then "admin" else role;
              created_at = 0;
            })
            t
    ]

unfoldable pub update_password :
    (String → ℕ)
    → (String → Option String)
    → UserFaults
    → String
    → String
    → List User
    → Option UserError × List User
unfolding update_password_row
update_password size hash f id password t =
    if ltb (size password) 8
    then (some invalid_password, t)
    else elim (hash password) [ none ↦ (some hashing, t) | some h ↦ update_password_row f id h t ]

-- The loop over the user's instances; an error of Delete is dropped.
unfoldable pub delete_all : Service → Faults → List Instance → World → World
unfolding delete
delete_all s f [] w = w
delete_all s f (i ∷ is) w = delete_all s f is (delete s f i.id w).1

unfoldable pub delete_instances : Service → Faults → Bool → String → World → World
unfolding delete_all owned_by
delete_instances s f lists id w =
    if lists then w else delete_all s f (select (owned_by id) w.instances) w

unfoldable pub disown : Instance → Instance
disown i = record i { owner_user_id = "" }

-- The instances go first, then the row of the user. The foreign key then clears the owner of an
-- instance that stayed: "" stands for NULL. The user's tokens go too, which is left out here.
unfoldable pub delete_user_and_instances :
    Service
    → Faults
    → Bool
    → UserFaults
    → String
    → List User
    → World
    → Option UserError × List User × World
unfolding delete_user delete_instances owned_by disown
delete_user_and_instances s fi lists f id t w =
    let (e, t') = delete_user f id t in
    let w' = delete_instances s fi lists id w in
    (
      e,
      t',
      elim e [
        | none ↦ record w' { instances = update_where (owned_by id) disown w'.instances }
        | some _ ↦ w'
      ],
    )

-- Service.Delete; `lists` says that listing the instances fails, and then they stay.
unfoldable pub remove :
    Service
    → Faults
    → Bool
    → UserFaults
    → String
    → List User
    → World
    → Option UserError × List User × World
unfolding delete_user_and_instances has_user_id is_admin
remove s fi lists f id t w =
    if f.gets then (some user_database, t, w) else elim (first (has_user_id id) t) [
      | none ↦ (some user_missing, t, w)
      | some u ↦
          if is_admin u
          then (if f.lists
              then (some user_database, t, w)
              else if leb (count_where is_admin t) 1
              then (some delete_last_admin, t, w)
              else delete_user_and_instances s fi lists f id t w)
          else delete_user_and_instances s fi lists f id t w
    ]

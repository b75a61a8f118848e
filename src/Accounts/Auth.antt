-- ===== src/Accounts/Auth.antt =====
-- Who a request comes from: internal/service/api_token/service.go over
-- internal/storage/sqlite/api_token_repo.go, and internal/api/middleware/auth.go. `hash` is the hex
-- SHA-256; `jwt` is jwt.Parse with the secret: the `sub` of the claims, if the token is valid.
pub mod Tokens
use Prim.Native.String.{◌++◌}
use text.Mathlib.Text.{starts_with}
use apime.Common.{
  ℕ, zero, suc, ◌*◌, String, Bool, true, false, not, ◌&&◌, ◌||◌, Option, none, some, List, [], ◌∷◌,
  ◌==◌, ltb, eqb, Result, ok, err, if◌then◌else◌,
}
use mathlib.Core.List.{◌++◌ as append}
use apime.Common.Table.{first, count_where, delete_where, update_where}
use apime.Common.Time.{second, rfc3339}
use apime.Accounts.InstanceRepo.{Instance}

pub record ApiToken : Type 0 where
  pub id : String
  pub name : String
  pub token_hash : String
  pub user_id : String
  pub last_used_at : Option ℕ
  pub expires_at : Option ℕ
  pub is_active : Bool
  pub created_at : ℕ
  pub updated_at : ℕ

pub data TokenError : Type 0 where
  token_not_found token_inactive token_expired token_database : TokenError

-- Which statements the database refuses.
pub record TokenFaults : Type 0 where
  pub gets : Bool
  pub inserts : Bool
  pub updates : Bool
  pub deletes : Bool
  pub gets_instance : Bool

unfoldable pub has_hash : String → ApiToken → Bool
has_hash h t = t.token_hash == h

unfoldable pub has_token_id : String → ApiToken → Bool
has_token_id id t = t.id == id

-- The UPDATE leaves the hash, the user and the time of creation.
unfoldable pub used : ℕ → ApiToken → ApiToken → ApiToken
used now t row = record row {
  name = t.name;
  last_used_at = t.last_used_at;
  expires_at = t.expires_at;
  is_active = t.is_active;
  updated_at = rfc3339 now;
}

-- `fresh` is a new UUID for the id, `uuid` the one inside the token.
unfoldable pub plain_token : String → String
plain_token uuid = "apime_" ++ uuid

-- A duplicate id or hash is what the table's constraints refuse.
unfoldable pub create_token :
    (String → String)
    → TokenFaults
    → ℕ
    → String
    → String
    → String
    → String
    → Option ℕ
    → List ApiToken
    → Result TokenError String × List ApiToken
unfolding plain_token has_token_id has_hash
create_token hash f now fresh uuid user_id name expires_at t =
    if f.inserts
      || not (eqb (count_where (has_token_id fresh) t) 0)
      || not (eqb (count_where (has_hash (hash (plain_token uuid))) t) 0)
    then (err token_database, t)
    else (
      ok (plain_token uuid),
      append t (
          record {
            id = fresh;
            name = name;
            token_hash = hash (plain_token uuid);
            user_id = user_id;
            last_used_at = none;
            expires_at = expires_at;
            is_active = true;
            created_at = rfc3339 now;
            updated_at = rfc3339 now;
          }
          ∷ []),
    )

abbrev pub is_past : ℕ → Option ℕ → Bool
is_past now none = false
is_past now (some e) = ltb (e * second) now

-- A refused UPDATE of the last use is ignored.
unfoldable pub validate_token :
    (String → String)
    → TokenFaults
    → ℕ
    → String
    → List ApiToken
    → Result TokenError ApiToken × List ApiToken
unfolding has_hash has_token_id used
validate_token hash f now plain t =
    if f.gets then (err token_not_found, t) else elim (first (has_hash (hash plain)) t) [
      | none ↦ (err token_not_found, t)
      | some token ↦
          if not token.is_active
          then (err token_inactive, t)
          else if is_past now token.expires_at
          then (err token_expired, t)
          else (let token' = record token { last_used_at = some (rfc3339 now) } in
              (
                ok token',
                if f.updates then t else update_where (has_token_id token.id) (used now token') t,
              ))
    ]

unfoldable pub delete_token :
    TokenFaults → String → List ApiToken → Option TokenError × List ApiToken
unfolding has_token_id
delete_token f id t =
    if f.deletes
    then (some token_database, t)
    else if eqb (count_where (has_token_id id) t) 0
    then (some token_not_found, t)
    else (none, delete_where (has_token_id id) t)

-- What the middleware sets for the handlers.
pub data Identity : Type 0 where
  user_jwt : Option String → Identity
  api_token : String → Identity
  instance_token : String → Identity

pub data AuthError : Type 0 where
  missing_token invalid_token : AuthError

unfoldable pub skip : ℕ → String → String
skip zero s = s
skip (suc n) String.[] = String.[]
skip (suc n) (String.◌∷◌ c s) = skip n s

unfoldable pub instance_hash : String → Instance → Bool
instance_hash h i = i.token_hash == h

-- The row that GetByTokenHash scans; a NULL owner, the empty text, does not scan.
unfoldable pub scanned_instance : Option Instance → Option Instance
scanned_instance none = none
scanned_instance (some i) = if i.owner_user_id == "" then none else some i

unfoldable pub auth_instance :
    (String → String) → TokenFaults → Bool → String → List Instance → Result AuthError Identity
unfolding instance_hash scanned_instance
auth_instance hash f has_instances token is =
    if not has_instances || f.gets_instance
    then err invalid_token
    else elim (scanned_instance (first (instance_hash (hash token)) is)) [
      | none ↦ err invalid_token
      | some i ↦ if i.id == "" then err invalid_token else ok (instance_token i.id)
    ]

unfoldable pub auth_token :
    (String → String)
    → TokenFaults
    → Bool
    → Bool
    → ℕ
    → String
    → List ApiToken
    → List Instance
    → Result AuthError Identity × List ApiToken
unfolding validate_token auth_instance
auth_token hash f has_tokens has_instances now token t is =
    if has_tokens
    then (let (found, t') = validate_token hash f now token t in
        elim found [
          | ok row ↦ (ok (api_token row.user_id), t')
          | err e ↦ (auth_instance hash f has_instances token is, t')
        ])
    else (auth_instance hash f has_instances token is, t)

-- AuthWithOptions; `ok` goes on to the route's handler.
unfoldable pub authenticate :
    (String → String)
    → (String → Option (Option String))
    → TokenFaults
    → Bool
    → Bool
    → ℕ
    → String
    → List ApiToken
    → List Instance
    → Result AuthError Identity × List ApiToken
unfolding auth_token skip
authenticate hash jwt f has_tokens has_instances now header t is =
    if not (starts_with header "Bearer ")
    then (err missing_token, t)
    else (let token = skip 7 header in
        elim (jwt token) [
          | some sub ↦ (ok (user_jwt sub), t)
          | none ↦ auth_token hash f has_tokens has_instances now token t is
        ])

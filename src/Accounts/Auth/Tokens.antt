-- ===== src/Accounts/Auth/Tokens.antt =====
-- Which tokens let a request in.
use apime.Common.{
  ℕ, String, ◌≡◌, ◌⊎◌, eq_refl, refl, ap, ◌∙◌, Bool, true, false, Option, none, some, List, [], ◌∷◌,
  ◌++◌, ◌==◌, arith, Result, ok, err, Option-cases, Bool-cases, inl, inr,
}
use mathlib.Core.Path.{subst}
use text.Mathlib.Text.{starts_with}
use apime.Common.Table.{first, first-append, delete_where}
use apime.Common.Time.{rfc3339}
use apime.Accounts.InstanceRepo.{Instance}
use apime.Accounts.Auth.{
  ApiToken, TokenError, TokenFaults, token_not_found, has_hash, has_token_id, is_past, plain_token,
  create_token, validate_token, delete_token, api_token, skip, auth_instance, auth_token,
  authenticate,
}

-- The token is in the table, active and not past its expiry, and belongs to the user.
pub record Lives (hash : String → String) (now : ℕ) (token user_id : String) (t : List ApiToken)
    : Type 0 where
  pub row : ApiToken
  pub found : first (has_hash (hash token)) t ≡ some row
  pub active : row.is_active ≡ true
  pub unexpired : is_past now row.expires_at ≡ false
  pub owner : row.user_id ≡ user_id

validated-Lives :
    (hash : String → String) (f : TokenFaults) (now : ℕ) (token : String) (t : List ApiToken)
    (row : ApiToken)
    → (validate_token hash f now token t).0 ≡ ok row
    → Lives hash now token row.user_id t
unfolding validate_token
validated-Lives hash f now token t row h = elim (Option-cases (first (has_hash (hash token)) t)) [
  | inl missing ↦ absurd (ground (arith, h, missing))
  | inr (r, found) ↦ record {
    row = r;
    found = found;
    active = ground (arith, h, found);
    unexpired = ground (arith, h, found);
    owner = ground (arith, h, found);
  }
]

instance_by_token :
    (hash : String → String) (f : TokenFaults) (has_instances : Bool) (token user_id : String)
    (is : List Instance)
    → ¬ (auth_instance hash f has_instances token is ≡ ok (api_token user_id))
unfolding auth_instance
instance_by_token hash f has_instances token user_id is h = ground (arith, h)

Result-cases :
    (r : Result TokenError ApiToken)
    → ((row : ApiToken) × (r ≡ ok row)) ⊎ ((e : TokenError) × (r ≡ err e))
Result-cases (ok row) = inl (row, refl)
Result-cases (err e) = inr (e, refl)

Lives-auth :
    (hash : String → String) (f : TokenFaults) (has_tokens has_instances : Bool) (now : ℕ)
    (token user_id : String) (t : List ApiToken) (is : List Instance)
    → (auth_token hash f has_tokens has_instances now token t is).0 ≡ ok (api_token user_id)
    → Lives hash now token user_id t
unfolding auth_token
Lives-auth hash f has_tokens has_instances now token user_id t is h =
    elim (Result-cases (validate_token hash f now token t).0) [
      | inl (row, valid) ↦ elim (Bool-cases has_tokens) [
        | inl on ↦
            subst (λ (u : String). Lives hash now token u t) (ground (arith, h, on, valid))
              (validated-Lives hash f now token t row valid)
        | inr off ↦
            absurd
              (instance_by_token hash f has_instances token user_id is (ground (arith, h, off)))
      ]
      | inr (e, invalid) ↦
          absurd
            (instance_by_token hash f has_instances token user_id is (ground (arith, h, invalid)))
    ]

-- A request that comes in as a user by an API token carries a token that is in the table, active,
-- not past its expiry, and that user's: in particular no deleted, disabled or expired token.
pub authenticated_by_token :
    (hash : String → String) (jwt : String → Option (Option String)) (f : TokenFaults)
    (has_tokens has_instances : Bool) (now : ℕ) (header user_id : String) (t : List ApiToken)
    (is : List Instance)
    → (authenticate hash jwt f has_tokens has_instances now header t is).0 ≡ ok (api_token user_id)
    → Lives hash now (skip 7 header) user_id t
unfolding authenticate
authenticated_by_token hash jwt f has_tokens has_instances now header user_id t is h =
    Lives-auth hash f has_tokens has_instances now (skip 7 header) user_id t is
      (elim (Bool-cases (starts_with header "Bearer ")) [
        | inl bearer ↦ elim (Option-cases (jwt (skip 7 header))) [
          | inl no_jwt ↦ ground (arith, h, bearer, no_jwt)
          | inr (sub, is_jwt) ↦ absurd (ground (arith, h, bearer, is_jwt))
        ]
        | inr other ↦ absurd (ground (arith, h, other))
      ])

first_last :
    (p : ApiToken → Bool) (t : List ApiToken) (row : ApiToken)
    → first p t ≡ none
    → p row ≡ true
    → first p (t ++ (row ∷ [])) ≡ some row
unfolding first
first_last p t row missing found = ground (arith, missing, found, first-append p t (row ∷ []))

first-deleted_last :
    (p q : ApiToken → Bool) (t : List ApiToken) (row : ApiToken)
    → first p t ≡ none
    → q row ≡ true
    → first p (delete_where q (t ++ (row ∷ []))) ≡ none
unfolding first delete_where
first-deleted_last p q [] row missing dropped = ground (arith, dropped)
first-deleted_last p q (x ∷ t) row missing dropped =
    ground (arith, missing, first-deleted_last p q t row)

new_token : (String → String) → ℕ → String → String → String → String → Option ℕ → ApiToken
new_token hash now fresh uuid user_id name expires_at = record {
  id = fresh;
  name = name;
  token_hash = hash (plain_token uuid);
  user_id = user_id;
  last_used_at = none;
  expires_at = expires_at;
  is_active = true;
  created_at = rfc3339 now;
  updated_at = rfc3339 now;
}

created_token :
    (hash : String → String) (f : TokenFaults) (now : ℕ) (fresh uuid user_id name plain : String)
    (expires_at : Option ℕ) (t : List ApiToken)
    → (create_token hash f now fresh uuid user_id name expires_at t).0 ≡ ok plain
    → (plain_token uuid ≡ plain)
      × ((create_token hash f now fresh uuid user_id name expires_at t).1
          ≡ t ++ (new_token hash now fresh uuid user_id name expires_at ∷ []))
unfolding create_token new_token
created_token hash f now fresh uuid user_id name plain expires_at t h = ground (arith, h)

validate_found :
    (hash : String → String) (f : TokenFaults) (now : ℕ) (plain : String) (t : List ApiToken)
    (row : ApiToken)
    → first (has_hash (hash plain)) t ≡ some row
    → f.gets ≡ false
    → row.is_active ≡ true
    → is_past now row.expires_at ≡ false
    → (validate_token hash f now plain t).0 ≡ ok (record row { last_used_at = some (rfc3339 now) })
unfolding validate_token
validate_found hash f now plain t row found gets active unexpired =
    ground (arith, found, gets, active, unexpired)

validate_missing :
    (hash : String → String) (f : TokenFaults) (now : ℕ) (plain : String) (t : List ApiToken)
    → first (has_hash (hash plain)) t ≡ none
    → (validate_token hash f now plain t).0 ≡ err token_not_found
unfolding validate_token
validate_missing hash f now plain t missing = ground (arith, missing)

deleted_rows :
    (f : TokenFaults) (id : String) (t : List ApiToken)
    → (delete_token f id t).0 ≡ none
    → (delete_token f id t).1 ≡ delete_where (has_token_id id) t
unfolding delete_token
deleted_rows f id t h = ground (arith, h)

-- A token that was created lets its user in until it expires, and no more once it is deleted, if no
-- other token has its hash and the database runs the statements.
pub token_life :
    (hash : String → String) (f : TokenFaults) (now later : ℕ)
    (fresh uuid user_id name plain : String) (expires_at : Option ℕ) (t : List ApiToken)
    → first (has_hash (hash plain)) t ≡ none
    → f.gets ≡ false
    → is_past later expires_at ≡ false
    → (create_token hash f now fresh uuid user_id name expires_at t).0 ≡ ok plain
    → (delete_token f fresh (create_token hash f now fresh uuid user_id name expires_at t).1).0
      ≡ none
    → let t' = (create_token hash f now fresh uuid user_id name expires_at t).1 in
      (row : ApiToken) × ((validate_token hash f later plain t').0 ≡ ok row)
      × (row.user_id ≡ user_id)
      × ((validate_token hash f later plain (delete_token f fresh t').1).0 ≡ err token_not_found)
unfolding new_token has_hash has_token_id
token_life hash f now later fresh uuid user_id name plain expires_at t free gets unexpired created
      done =
    let row = new_token hash now fresh uuid user_id name expires_at in
    let (is_plain, made) =
      created_token hash f now fresh uuid user_id name plain expires_at t created in
    let found : first (has_hash (hash plain)) (t ++ (row ∷ [])) ≡ some row =
      first_last (has_hash (hash plain)) t row free
        (ap (λ (token : String). hash token == hash plain) is_plain ∙ eq_refl (hash plain)) in
    let used_row : ApiToken = record row { last_used_at = some (rfc3339 later) } in
    (
      used_row,
      ap (λ (u : List ApiToken). (validate_token hash f later plain u).0) made
          ∙ validate_found hash f later plain (t ++ (row ∷ [])) row found gets refl unexpired,
      refl,
      validate_missing hash f later plain _ (
          ap (λ (u : List ApiToken). first (has_hash (hash plain)) u)
            (deleted_rows f fresh _ done ∙ ap (delete_where (has_token_id fresh)) made)
          ∙ first-deleted_last (has_hash (hash plain)) (has_token_id fresh) t row free
              (eq_refl fresh)),
    )

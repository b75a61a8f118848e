-- ===== src/Examples/Auth.antt =====
-- Runs of the authentication.
use apime.Common.{String, ◌≡◌, refl, true, false, Option, none, some, [], ◌∷◌, ok, err}
use apime.Common.Table.{first, count_where}
use apime.Accounts.Auth.{
  ApiToken, TokenFaults, token_not_found, has_hash, create_token, validate_token, delete_token,
  authenticate, skip,
}
use apime.Accounts.Auth.Tokens.{Lives, authenticated_by_token, token_life}

abbrev healthy : TokenFaults
healthy = record {
  gets = false;
  inserts = false;
  updates = false;
  deletes = false;
  gets_instance = false;
}

abbrev digest : String → String
digest s = s

abbrev no_jwt : String → Option (Option String)
no_jwt s = none

abbrev row : ApiToken
row = record {
  id = "1";
  name = "n";
  token_hash = "apime_x";
  user_id = "ana";
  last_used_at = none;
  expires_at = some 5;
  is_active = true;
  created_at = 0;
  updated_at = 0;
}

authenticated_by_token_example : Lives digest 9 (skip 7 "Bearer apime_x") "ana" (row ∷ [])
unfolding authenticate first skip
authenticated_by_token_example =
    authenticated_by_token digest no_jwt healthy true true 9 "Bearer apime_x" "ana" (row ∷ []) []
      refl

token_life_example :
    (r : ApiToken) × ((validate_token digest healthy 9 "apime_y"
        (create_token digest healthy 3 "2" "y" "eva" "n" none (row ∷ [])).1).0
      ≡ ok r)
    × (r.user_id ≡ "eva")
    × ((validate_token digest healthy 9 "apime_y"
          (delete_token healthy "2"
            (create_token digest healthy 3 "2" "y" "eva" "n" none (row ∷ [])).1).1).0
        ≡ err token_not_found)
unfolding create_token delete_token first has_hash count_where
token_life_example =
    token_life digest healthy 3 9 "2" "y" "eva" "n" "apime_y" none (row ∷ []) refl refl refl refl
      refl

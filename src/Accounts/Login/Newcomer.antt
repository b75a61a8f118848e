-- ===== src/Accounts/Login/Newcomer.antt =====
-- From the creation of a user to a request on an administrator's route.
use Prim.Native.String.{◌++◌}
use mathlib.Core.Path.{subst}
use mathlib.Core.List.{◌++◌ as append}
use text.Mathlib.TextPositions.{starts_with-append}
use text.Mathlib.TextLemmas.{cons-append, nil-append}
use apime.Common.{
  ℕ, suc, String, ◌≡◌, refl, ap, ◌∙◌, sym, Bool, true, false, not, ◌||◌, Option, some, List, [],
  ◌∷◌, ◌==◌, ltb, eqb, eqb_iff, eq_iff, eq_refl, Result, ok, err, if◌then◌else◌, arith, Bool-cases,
  Option-cases, inl, inr,
}
use apime.Common.Text.{trim_space, contains, text_length}
use apime.Common.Table.{first, first-append, first-count_where, count_where}
use apime.Common.Time.{rfc3339}
use apime.Accounts.Users.{
  User, UserError, user_database, invalid_email, invalid_password, hashing, UserFaults, CreateInput,
  has_user_id, has_email, create_user, create,
}
use apime.Accounts.InstanceRepo.{Instance}
use apime.Accounts.Auth.{ApiToken, TokenFaults, user_jwt, skip, authenticate}
use apime.Accounts.Login.{
  Claims, login, claims_of, get_by_email, get_user, user_id_of, Admission, admits, forbidden,
  require_admin,
}

-- The row that Create adds is found by its email and by its id.
record Added (email role hash : String) (u : User) (t : List User) : Type 0 where
  by_email : first (has_email email) t ≡ some u
  by_id : first (has_user_id u.id) t ≡ some u
  hashed : u.password_hash ≡ hash
  as_role : u.role ≡ role

first_added :
    (p : User → Bool) (u : User) (t : List User)
    → count_where p t ≡ 0
    → p u ≡ true
    → first p (append t (u ∷ [])) ≡ some u
unfolding first
first_added p u t fresh it = first-append p t (u ∷ []) ∙ rw (first-count_where p t fresh, it) refl

Added-row :
    (row u : User) (t t' : List User)
    → row ≡ u
    → append t (row ∷ []) ≡ t'
    → count_where (has_user_id row.id) t ≡ 0
    → count_where (has_email row.email) t ≡ 0
    → Added row.email row.role row.password_hash u t'
unfolding has_user_id has_email
Added-row row u t t' is_row table no_id no_email =
    subst (λ x. Added row.email row.role row.password_hash x t') is_row
      (subst (λ x. Added row.email row.role row.password_hash row x) table
        (record {
          by_email = first_added (has_email row.email) row t no_email (eq_refl row.email);
          by_id = first_added (has_user_id row.id) row t no_id (eq_refl row.id);
          hashed = refl;
          as_role = refl;
        }))

abbrev value_or : User → Result UserError User → User
value_or u (ok v) = v
value_or u (err _) = u

settled :
    (refused : Bool) (row u : User) (t t' : List User)
    → ◌≡◌ {A = Result UserError User × List User}
        (if refused then (err user_database, t) else (ok row, append t (row ∷ [])))
        (ok u, t')
    → (refused ≡ false) × ((row ≡ u) × (append t (row ∷ []) ≡ t'))
settled true row u t t' h = absurd (ground (arith, ap (λ x. x.0) h))
settled false row u t t' h = (refl, (ap (λ x. value_or row x.0) h, ap (λ x. x.1) h))

none_refused : (a b c : Bool) → (a || not b || not c) ≡ false → (b ≡ true) × (c ≡ true)
none_refused a b c h = (ground (arith, h), ground (arith, h))

created :
    (f : UserFaults) (fresh : String) (now : ℕ) (new : User) (t t' : List User) (u : User)
    → create_user f fresh now new t ≡ (ok u, t')
    → Added new.email new.role new.password_hash u t'
unfolding create_user
created f fresh now new t t' u h =
    let row : User = record new {
      id = if new.id == "" then fresh else new.id;
      created_at = rfc3339 now;
    } in
    let ids = count_where (has_user_id row.id) t in
    let emails = count_where (has_email row.email) t in
    let (accepted, (is_row, table)) =
      settled (f.inserts || not (eqb ids 0) || not (eqb emails 0)) row u t t' h in
    let (no_id, no_email) = none_refused f.inserts (eqb ids 0) (eqb emails 0) accepted in
    Added-row row u t t' is_row table ((eqb_iff ids 0).0 no_id) ((eqb_iff emails 0).0 no_email)

abbrev pub role_of : CreateInput → String
role_of input = if trim_space input.role == "" then "admin" else trim_space input.role

never_ok :
    (e : UserError) (t : List User) (u : User) (t' : List User)
    → ¬ (◌≡◌ {A = Result UserError User × List User} (err e, t) (ok u, t'))
never_ok e t u t' h = ground (arith, ap (λ x. x.0) h)

left_false : (a b : Bool) → (a || b) ≡ false → a ≡ false
left_false a b h = ground (arith, h)

abbrev admission : String → Admission
admission role = if not (role == "admin") then forbidden else admits role

admission_of :
    (role : String) → admission role ≡ (if role == "admin" then admits "admin" else forbidden)
admission_of role = elim (Bool-cases (role == "admin")) [
  | inl admin ↦ rw ((eq_iff role "admin").0 admin) refl
  | inr user ↦ rw user refl
]

skip-prefix : (s t : String) → skip (text_length s) (s ++ t) ≡ t
unfolding skip text_length
skip-prefix String.[] t = nil-append t
skip-prefix (String.◌∷◌ c s) t =
    ap (skip (suc (text_length s))) (cons-append c s t) ∙ skip-prefix s t

module _ (lower : String → String) (size : String → ℕ) (hash : String → Option String)
    (compare : String → String → Bool) where
  -- What Create requires of its input, and what it stores.
  create_adds :
      (f : UserFaults) (fresh : String) (now : ℕ) (input : CreateInput) (t t' : List User)
      (u : User)
      → create lower size hash f fresh now input t ≡ (ok u, t')
      → ((trim_space (lower input.email) == "") ≡ false)
        × ((h : String) × ((hash input.password ≡ some h)
              × Added (trim_space (lower input.email)) (role_of input) h u t'))
  unfolding create
  create_adds f fresh now input t t' u h =
      let email = trim_space (lower input.email) in
      elim (Bool-cases (email == "" || not (contains email "@"))) [
        | inl bad ↦ absurd (never_ok invalid_email t u t' (sym (rw (bad, create) refl) ∙ h))
        | inr good ↦ elim (Bool-cases (ltb (size input.password) 8)) [
          | inl short ↦
              absurd (never_ok invalid_password t u t' (sym (rw (good, short, create) refl) ∙ h))
          | inr long ↦ elim (Option-cases (hash input.password)) [
            | inl fails ↦
                absurd (never_ok hashing t u t' (sym (rw (good, long, fails, create) refl) ∙ h))
            | inr (hashed, e) ↦ (
              left_false (email == "") _ good,
              (
                hashed,
                (
                  e,
                  created f fresh now
                      (record {
                        id = "";
                        email = email;
                        password_hash = hashed;
                        role = role_of input;
                        created_at = 0;
                      })
                      t t' u (sym (rw (good, long, e, create) refl) ∙ h),
                ),
              ),
            )
          ]
        ]
      ]

  -- A user that Create made logs in with the same password and any email that is lowered and trimmed
  -- to the same text, and the token lets a request through RequireAdmin just if the role is admin:
  -- else it is forbidden. It is assumed that bcrypt accepts the password it hashed, that the claims of
  -- this login are signed, as a token that at the request is still valid and carries the user's id, and
  -- that the database answers.
  pub newcomer_is_admitted :
      (sha : String → String) (jwt : String → Option (Option String))
      (sign : Claims → Result String String) (f : UserFaults) (f' : TokenFaults)
      (has_tokens has_instances : Bool) (fresh email : String) (now later then_ exp_hours : ℕ)
      (input : CreateInput) (t t' : List User) (tokens : List ApiToken) (is : List Instance)
      (u : User) (token : String)
      → f.gets ≡ false
      → create lower size hash f fresh now input t ≡ (ok u, t')
      → trim_space (lower email) ≡ trim_space (lower input.email)
      → (input.password == "") ≡ false
      → ((p h : String) → hash p ≡ some h → compare h p ≡ true)
      → sign (claims_of later exp_hours u) ≡ ok token
      → jwt token ≡ some (some u.id)
      → (login lower compare sign f later exp_hours email input.password t' ≡ ok token)
        × ((authenticate sha jwt f' has_tokens has_instances then_ ("Bearer " ++ token) tokens is).0
            ≡ ok (user_jwt (some u.id)))
        × (require_admin f (user_id_of (user_jwt (some u.id))) t'
            ≡ (if role_of input == "admin" then admits "admin" else forbidden))
  unfolding user_id_of get_by_email get_user login authenticate require_admin claims_of
  newcomer_is_admitted sha jwt sign f f' has_tokens has_instances fresh email now later then_
        exp_hours input t t' tokens is u token answers made same filled accepts signs parses =
      let (some_email, (h, (hashed, added))) = create_adds f fresh now input t t' u made in
      let found : get_by_email f (trim_space (lower input.email)) t' ≡ some u =
        rw (answers, get_by_email) added.by_email in
      let known : get_user f u.id t' ≡ some u = rw (answers, get_user) added.by_id in
      let right : compare u.password_hash input.password ≡ true =
        ap (λ x. compare x input.password) added.hashed ∙ accepts input.password h hashed in
      let bearer : skip 7 ("Bearer " ++ token) ≡ token =
        unfold text_length in skip-prefix "Bearer " token in
      (
        rw (same, some_email, filled, found, right, signs, login) refl,
        rw (starts_with-append "Bearer " token, bearer, parses, authenticate) refl,
        rw (known, require_admin) (ap admission added.as_role ∙ admission_of (role_of input)),
      )

-- ===== src/Accounts/Users/Admins.antt =====
-- The administrators that the operations of internal/service/user/service.go leave.
use mathlib.Core.Path.{subst}
use apime.Common.Text.{trim_space, contains}
use apime.Common.Time.{rfc3339}
use apime.Common.{
  ℕ, ◌+◌, ◌≤◌, String, ◌≡◌, ◌⊎◌, refl, sym, ap, ◌∙◌, ltb, Bool, false, not, ◌||◌, Option, some,
  List, [], ◌∷◌, ◌++◌, ◌==◌, eq_iff, arith, eqb, if◌then◌else◌, Option-cases, Bool-cases, inl, inr,
}
use apime.Common.Table.{
  first, count_where, delete_where, update_where, count_where-append, count_where-update_where,
}
use apime.Accounts.InstanceRepo.{World, Faults}
use apime.Accounts.Instances.{Service}
use apime.Accounts.Users.{
  User, UserFaults, has_user_id, has_email, is_admin, create_user, set_password,
  update_password_row, delete_user_row, delete_user, CreateInput, create, update_password,
  delete_user_and_instances, remove,
}

-- The ids are different: the PRIMARY KEY of the table.
abbrev pub IsKeyed : List User → Type 0
IsKeyed t = (id : String) → count_where (has_user_id id) t ≤ 1

-- A request to the service on the users.
pub data Op : Type 0 where
  creates : UserFaults → String → ℕ → CreateInput → Op
  changes_password : UserFaults → String → String → Op
  removes : Service → Faults → Bool → UserFaults → String → World → Op

module _ (lower : String → String) (size : String → ℕ) (hash : String → Option String) where
  unfoldable pub step : Op → List User → List User
  unfolding create update_password remove
  step (creates f fresh now input) t = (create lower size hash f fresh now input t).1
  step (changes_password f id password) t = (update_password size hash f id password t).1
  step (removes s fi lists f id w) t = (remove s fi lists f id t w).1

  unfoldable pub steps : List Op → List User → List User
  unfolding step
  steps [] t = t
  steps (op ∷ ops) t = steps ops (step op t)

-- Deleting the rows of one id takes away at most that id's count of administrators.
admins-delete :
    (id : String) (t : List User)
    → count_where is_admin t
      ≤ count_where is_admin (delete_where (has_user_id id) t) + count_where (has_user_id id) t
unfolding count_where delete_where
admins-delete id [] = omega arith
admins-delete id (u ∷ t) = ground (arith, admins-delete id t)

admins-delete_plain :
    (id : String) (t : List User) (u : User)
    → first (has_user_id id) t ≡ some u
    → is_admin u ≡ false
    → count_where (has_user_id id) t ≤ 1
    → count_where is_admin t ≤ count_where is_admin (delete_where (has_user_id id) t)
unfolding count_where delete_where first
admins-delete_plain id [] u found plain one = absurd (ground (arith, found))
admins-delete_plain id (x ∷ t) u found plain one = elim (Bool-cases (has_user_id id x)) [
  | inl here ↦ ground (arith, here, found, plain, one, admins-delete id t)
  | inr away ↦ ground (arith, away, found, plain, one, admins-delete_plain id t u)
]

ids-delete :
    (id j : String) (t : List User)
    → count_where (has_user_id j) (delete_where (has_user_id id) t) ≤ count_where (has_user_id j) t
unfolding count_where delete_where
ids-delete id j [] = omega arith
ids-delete id j (u ∷ t) = ground (arith, ids-delete id j t)

admins-delete_user :
    (f : UserFaults) (id : String) (t : List User)
    → 1 ≤ count_where is_admin t
    → count_where (has_user_id id) t ≤ 1
    → 1 ≤ count_where is_admin (delete_user f id t).1
unfolding delete_user delete_user_row
admins-delete_user f id t some_admin one = elim (Option-cases (first (has_user_id id) t)) [
  | inl missing ↦ ground (arith, missing, some_admin)
  | inr (u, found) ↦ elim (Bool-cases (is_admin u)) [
    | inl admin ↦ ground (arith, found, admin, some_admin, one, admins-delete id t)
    | inr plain ↦
        ground (arith, found, plain, some_admin, admins-delete_plain id t u found plain one)
  ]
]

ids-delete_user :
    (f : UserFaults) (id j : String) (t : List User)
    → count_where (has_user_id j) (delete_user f id t).1 ≤ count_where (has_user_id j) t
unfolding delete_user delete_user_row
ids-delete_user f id j t = ground (arith, ids-delete id j t)

-- What Service.Delete leaves is what the repository's Delete leaves, or everything.
remove-users :
    (s : Service) (fi : Faults) (lists : Bool) (f : UserFaults) (id : String) (t : List User)
    (w : World)
    → ((remove s fi lists f id t w).1 ≡ t)
      ⊎ ((remove s fi lists f id t w).1 ≡ (delete_user f id t).1)
unfolding remove delete_user_and_instances
remove-users s fi lists f id t w = ground arith

-- The table has an administrator, and its ids are different.
abbrev pub IsValid : List User → Type 0
IsValid t = (1 ≤ count_where is_admin t) × IsKeyed t

created_users :
    (f : UserFaults) (fresh : String) (now : ℕ) (u : User) (t : List User)
    → ((create_user f fresh now u t).1 ≡ t)
      ⊎ ((row : User) × ((create_user f fresh now u t).1 ≡ t ++ (row ∷ []))
          × (count_where (has_user_id row.id) t ≡ 0))
unfolding create_user
created_users f fresh now u t =
    let row : User = record u {
      id = if u.id == "" then fresh else u.id;
      created_at = rfc3339 now;
    } in
    let taken =
      f.inserts
      || not (eqb (count_where (has_user_id row.id) t) 0)
      || not (eqb (count_where (has_email row.email) t) 0) in
    elim (Bool-cases taken) [
      | inl refused ↦ inl (rw refused refl)
      | inr free ↦ inr (row, rw free refl, ground (arith, free))
    ]

append-IsValid :
    (t : List User) (row : User)
    → IsValid t
    → count_where (has_user_id row.id) t ≡ 0
    → IsValid (t ++ (row ∷ []))
unfolding count_where has_user_id
append-IsValid t row (some_admin, keyed) free = (
  ground (arith, some_admin, count_where-append is_admin t (row ∷ [])),
  λ j. elim (Bool-cases (row.id == j)) [
    | inl same ↦
        let is_j : row.id ≡ j = ground (arith, same, eq_iff row.id j) in
        let free_j : count_where (has_user_id j) t ≡ 0 =
          ap (λ (k : String). count_where (has_user_id k) t) (sym is_j) ∙ free in
        ground (arith, free_j, same, count_where-append (has_user_id j) t (row ∷ []))
    | inr other ↦ ground (arith, other, keyed j, count_where-append (has_user_id j) t (row ∷ []))
  ],
)

create_user-IsValid :
    (f : UserFaults) (fresh : String) (now : ℕ) (u : User) (t : List User)
    → IsValid t
    → IsValid (create_user f fresh now u t).1
create_user-IsValid f fresh now u t valid = elim (created_users f fresh now u t) [
  | inl same ↦ subst IsValid (sym same) valid
  | inr (row, added, free) ↦ subst IsValid (sym added) (append-IsValid t row valid free)
]

keep-IsValid :
    (t t' : List User)
    → IsValid t
    → count_where is_admin t' ≡ count_where is_admin t
    → ((j : String) → count_where (has_user_id j) t' ≡ count_where (has_user_id j) t)
    → IsValid t'
keep-IsValid t t' (some_admin, keyed) admins ids =
    (ground (arith, some_admin, admins), λ j. ground (arith, keyed j, ids j))

module _ (lower : String → String) (size : String → ℕ) (hash : String → Option String) where
  create-IsValid :
      (f : UserFaults) (fresh : String) (now : ℕ) (input : CreateInput) (t : List User)
      → IsValid t
      → IsValid (create lower size hash f fresh now input t).1
  unfolding create
  create-IsValid f fresh now input t valid =
      let email = trim_space (lower input.email) in
      elim (Bool-cases (email == "" || not (contains email "@"))) [
        | inl bad ↦ rw bad valid
        | inr good ↦ elim (Bool-cases (ltb (size input.password) 8)) [
          | inl short ↦ rw (good, short) valid
          | inr long ↦ elim (Option-cases (hash input.password)) [
            | inl fails ↦ rw (good, long, fails) valid
            | inr (h, hashed) ↦
                rw (good, long, hashed)
                  (create_user-IsValid f fresh now
                    (record {
                      id = "";
                      email = email;
                      password_hash = h;
                      role = if trim_space input.role == "" then "admin" else trim_space input.role;
                      created_at = 0;
                    })
                    t valid)
          ]
        ]
      ]

  password-IsValid :
      (f : UserFaults) (id password : String) (t : List User)
      → IsValid t
      → IsValid (update_password size hash f id password t).1
  unfolding update_password update_password_row is_admin has_user_id set_password
  password-IsValid f id password t valid = elim (Bool-cases (ltb (size password) 8)) [
    | inl short ↦ rw short valid
    | inr long ↦ elim (Option-cases (hash password)) [
      | inl fails ↦ rw (long, fails) valid
      | inr (h, hashed) ↦
          rw (long, hashed)
            (elim (Bool-cases f.updates) [
              | inl refused ↦ rw refused valid
              | inr runs ↦ elim (Bool-cases (eqb (count_where (has_user_id id) t) 0)) [
                | inl missing ↦ rw (runs, missing) valid
                | inr there ↦
                    rw (runs, there)
                      (keep-IsValid t (update_where (has_user_id id) (set_password h) t) valid
                        (count_where-update_where is_admin (has_user_id id) (set_password h) t
                          (λ u. refl))
                        (λ j.
                          count_where-update_where (has_user_id j) (has_user_id id) (set_password h)
                            t (λ u. refl)))
              ]
            ])
    ]
  ]

  remove-IsValid :
      (s : Service) (fi : Faults) (lists : Bool) (f : UserFaults) (id : String) (t : List User)
      (w : World)
      → IsValid t
      → IsValid (remove s fi lists f id t w).1
  remove-IsValid s fi lists f id t w (some_admin, keyed) = elim (remove-users s fi lists f id t w) [
    | inl same ↦ subst IsValid (sym same) (some_admin, keyed)
    | inr deleted ↦ subst IsValid (sym deleted) (
      admins-delete_user f id t some_admin (keyed id),
      λ j. ground (arith, keyed j, ids-delete_user f id j t),
    )
  ]

  -- No sequence of requests to create, change or delete users, whatever the database refuses, takes
  -- away the last administrator, or gives two users one id.
  pub admin_stays :
      (ops : List Op) (t : List User) → IsValid t → IsValid (steps lower size hash ops t)
  unfolding steps step
  admin_stays [] t valid = valid
  admin_stays (creates f fresh now input ∷ ops) t valid =
      admin_stays ops _ (create-IsValid f fresh now input t valid)
  admin_stays (changes_password f id password ∷ ops) t valid =
      admin_stays ops _ (password-IsValid f id password t valid)
  admin_stays (removes s fi lists f id w ∷ ops) t valid =
      admin_stays ops _ (remove-IsValid s fi lists f id t w valid)

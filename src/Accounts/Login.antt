-- ===== src/Accounts/Login.antt =====
-- What logins and new accounts guarantee.
use amocrm_analytics.Base.{
  ℕ, ◌+◌, ◌≤◌, ◌==◌, ◌≡◌, refl, Bool, true, Option, none, some, List, [], ◌∷◌, length, arith,
  if◌then◌else◌, Bool-cases, inl, inr,
}
use amocrm_analytics.Accounts.{
  Role, User, State, logged_in, created, find_user, login_as, login, create_as, create_user,
}

-- The number of the users with an email.
abbrev pub email_count : ℕ → List User → ℕ
email_count email [] = 0
email_count email (u ∷ us) = (if u.email == email then 1 else 0) + email_count email us

not_found : (email : ℕ) (us : List User) → find_user email us ≡ none → email_count email us ≡ 0
not_found email [] h = refl
not_found email (u ∷ us) h =
    let later : find_user email us ≡ none → email_count email us ≡ 0 = not_found email us in
    ground arith

module _ (lower : ℕ → ℕ) (hash : ℕ → ℕ) (compare_hash : (password stored : ℕ) → Bool)
    (sign : (user_id : ℕ) → Role → ℕ) where
  -- Who is logged in, and with what token.
  abbrev pub IsLogin : (email password : ℕ) → State → (token : ℕ) → User → Type 0
  IsLogin email password s token user =
      (find_user (lower email) s.users ≡ some user)
      × (user.is_active ≡ true)
      × (compare_hash password user.password_hash ≡ true)
      × (token ≡ sign user.id user.role)

  login_as-IsLogin :
      (email password : ℕ) (s : State) (token : ℕ) (user : User) (found : Option User)
      → (login_as lower hash compare_hash sign (lower email) password s found).1
        ≡ logged_in token user
      → (found ≡ some user)
        × (user.is_active ≡ true)
        × (compare_hash password user.password_hash ≡ true)
        × (token ≡ sign user.id user.role)
  login_as-IsLogin email password s token user none h = cc
  login_as-IsLogin email password s token user (some u) h = ground arith

  -- A token is given only to the user with the email, in lower case, who is active and whose stored
  -- hash fits the password, and it is signed for the identifier and the role of that user.
  pub login-IsLogin :
      (email password : ℕ) (s : State) (token : ℕ) (user : User)
      → (login lower hash compare_hash sign email password s).1 ≡ logged_in token user
      → IsLogin email password s token user
  unfolding login
  login-IsLogin email password s token user h =
      login_as-IsLogin email password s token user (find_user (lower email) s.users) h

  created_login :
      (id email name password : ℕ) (role : Role) (actor : Option ℕ) (s : State) (user : User)
      (other_email : ℕ) (found : Option User)
      → (create_as lower hash compare_hash sign id email name password role actor s found).1
        ≡ created user
      → lower other_email ≡ lower email
      → compare_hash password (hash password) ≡ true
      → (login_as lower hash compare_hash sign
          (lower other_email)
          password
          (create_as lower hash compare_hash sign id email name password role actor s found).0
          (find_user
            (lower other_email)
            (create_as lower hash compare_hash sign id email name password role actor s
              found).0.users)).1
        ≡ logged_in (sign id role) user
  created_login id email name password role actor s user other_email (some u) h same fits = cc
  created_login id email name password role actor s user other_email none h same fits =
      let here : (lower email == lower other_email) ≡ true = ground arith in
      rw here (rw fits (ground arith))

  -- An account that was created can log in at once: with its password, if the stored hash fits the
  -- password it was made from, and with any spelling of its email that has the same lower case.
  pub login-create_user :
      (id email name password : ℕ) (role : Role) (actor : Option ℕ) (s : State) (user : User)
      (other_email : ℕ)
      → (create_user lower hash compare_hash sign id email name password role actor s).1
        ≡ created user
      → lower other_email ≡ lower email
      → compare_hash password (hash password) ≡ true
      → (login lower hash compare_hash sign other_email password
          (create_user lower hash compare_hash sign id email name password role actor s).0).1
        ≡ logged_in (sign id role) user
  unfolding login create_user
  login-create_user id email name password role actor s user other_email h same fits =
      created_login id email name password role actor s user other_email
        (find_user (lower email) s.users) h same fits

  -- No two users share an email.
  abbrev pub IsUnique : State → Type 0
  IsUnique s = (email : ℕ) → email_count email s.users ≤ 1

  create_as-IsUnique :
      (id email name password : ℕ) (role : Role) (actor : Option ℕ) (s : State)
      (found : Option User)
      → find_user (lower email) s.users ≡ found
      → IsUnique s
      → (other : ℕ)
      → email_count other
          (create_as lower hash compare_hash sign id email name password role actor s found).0.users
        ≤ 1
  create_as-IsUnique id email name password role actor s (some u) h unique other = unique other
  create_as-IsUnique id email name password role actor s none h unique other =
      let none_yet = not_found (lower email) s.users h in
      let others : email_count other s.users ≤ 1 = unique other in
      elim (Bool-cases (lower email == other)) [
        | inl same ↦
            let e : lower email ≡ other = ground arith in
            let none_there : email_count other s.users ≡ 0 = rw (← e) none_yet in
            rw same (rw none_there (omega arith))
        | inr different ↦ rw different (omega (arith, others))
      ]

  -- Whatever the request, if no two users shared an email before it, then none do after it.
  pub create_user-IsUnique :
      (id email name password : ℕ) (role : Role) (actor : Option ℕ) (s : State) (other : ℕ)
      → IsUnique s
      → email_count other
          (create_user lower hash compare_hash sign id email name password role actor s).0.users
        ≤ 1
  unfolding create_user
  create_user-IsUnique id email name password role actor s other unique =
      create_as-IsUnique id email name password role actor s (find_user (lower email) s.users) refl
        unique other

  one_record :
      (email password : ℕ) (s : State) (found : Option User)
      → (length (login_as lower hash compare_hash sign email password s found).0.audit
          ≡ length s.audit + 1)
        × ((login_as lower hash compare_hash sign email password s found).0.users ≡ s.users)
  one_record email password s none = (omega arith, refl)
  one_record email password s (some u) = ground arith

  -- Every login, refused or not, leaves exactly one record in the audit log and changes no user.
  pub login-audit :
      (email password : ℕ) (s : State)
      → (length (login lower hash compare_hash sign email password s).0.audit ≡ length s.audit + 1)
        × ((login lower hash compare_hash sign email password s).0.users ≡ s.users)
  unfolding login
  login-audit email password s =
      one_record (lower email) password s (find_user (lower email) s.users)

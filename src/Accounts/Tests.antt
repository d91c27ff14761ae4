-- ===== src/Accounts/Tests.antt =====
-- An account that is created and logs in; letters are numbers and capitals lie a hundred above.
use amocrm_analytics.Base.{ℕ, ◌+◌, ◌%◌, ◌≡◌, refl, ◌==◌, Bool, none, [], arith}
use amocrm_analytics.Accounts.{
  admin, Role, User, State, logged_in, created, new_user, login, create_user,
}
use amocrm_analytics.Accounts.Login.{login-create_user, IsUnique}

abbrev small : ℕ → ℕ
small email = email % 100

abbrev add_seven : ℕ → ℕ
add_seven password = password + 7

abbrev fits : ℕ → ℕ → Bool
fits password stored = password + 7 == stored

abbrev token_of : ℕ → Role → ℕ
token_of id role = 1000 + id

abbrev nobody : State
nobody = record { users = []; audit = [] }

abbrev ann : User
ann = new_user small add_seven fits token_of 1 142 5 9 admin

abbrev with_ann : State
with_ann = (create_user small add_seven fits token_of 1 142 5 9 admin none nobody).0

ann_created :
    (create_user small add_seven fits token_of 1 142 5 9 admin none nobody).1 ≡ created ann
unfolding create_user
ann_created = refl

ann_logs_in : (login small add_seven fits token_of 42 9 with_ann).1 ≡ logged_in 1001 ann
ann_logs_in =
    login-create_user small add_seven fits token_of 1 142 5 9 admin none nobody ann 42 ann_created
      refl refl

nobody-IsUnique : IsUnique small add_seven fits token_of nobody
nobody-IsUnique email = omega arith

-- ===== src/Accounts.antt =====
-- Users and their login (`AuthService` of apps/api/src/auth/auth.service.ts). The password hash and the
-- signature of a token are parameters; texts are numbers, and `lower` is `toLowerCase` on them. The
-- state is the table of users, the newest first, and the audit log, the newest record first.
pub mod Login
mod Tests
use amocrm_analytics.Base.{
  ℕ, ◌+◌, ◌==◌, Bool, true, false, not, Option, none, some, List, [], ◌∷◌, if◌then◌else◌,
}

pub data Role : Type 0 where
  admin rop_role : Role

pub data BusinessRole : Type 0 where
  owner rop manager : BusinessRole

pub record User : Type 0 where
  pub id : ℕ
  pub email : ℕ
  pub name : ℕ
  pub role : Role
  pub business_role : BusinessRole
  pub is_active : Bool
  pub password_hash : ℕ

pub data FailureReason : Type 0 where
  not_found_or_inactive bad_password : FailureReason

pub data AuditRecord : Type 0 where
  login_failed : (user_id : Option ℕ) (email : ℕ) (reason : FailureReason) → AuditRecord
  login_success : (user_id email : ℕ) → AuditRecord
  user_create : (actor : Option ℕ) (user_id email : ℕ) → AuditRecord

pub record State : Type 0 where
  pub users : List User
  pub audit : List AuditRecord

-- What a login returns; the refusal is the same whatever failed.
pub data LoginResult : Type 0 where
  unauthorized : LoginResult
  logged_in : (access_token : ℕ) (user : User) → LoginResult

pub data CreateResult : Type 0 where
  conflict : CreateResult
  created : User → CreateResult

-- `findUnique` by the email.
abbrev pub find_user : ℕ → List User → Option User
find_user email [] = none
find_user email (u ∷ us) = if u.email == email then some u else find_user email us

abbrev pub log_audit : AuditRecord → State → State
log_audit r s = record s { audit = r ∷ s.audit }

module _ (lower : ℕ → ℕ) (hash : ℕ → ℕ) (compare_hash : (password stored : ℕ) → Bool)
    (sign : (user_id : ℕ) → Role → ℕ) where
  abbrev pub login_as : (email password : ℕ) → State → Option User → State × LoginResult
  login_as email password s none =
      (log_audit (login_failed none email not_found_or_inactive) s, unauthorized)
  login_as email password s (some user) =
      if not user.is_active
      then (log_audit (login_failed none email not_found_or_inactive) s, unauthorized)
      else if not (compare_hash password user.password_hash)
      then (log_audit (login_failed (some user.id) email bad_password) s, unauthorized)
      else (log_audit (login_success user.id email) s, logged_in (sign user.id user.role) user)

  unfoldable pub login : (email password : ℕ) → State → State × LoginResult
  login email password s = login_as (lower email) password s (find_user (lower email) s.users)

  -- The row that the database makes: an account is active and a manager's from its start, and `id` is its new key.
  abbrev pub new_user : (id email name password : ℕ) → Role → User
  new_user id email name password role = record {
    id = id;
    email = lower email;
    name = name;
    role = role;
    business_role = manager;
    is_active = true;
    password_hash = hash password;
  }

  abbrev pub create_as :
      (id email name password : ℕ) (role : Role) (actor : Option ℕ)
      → State
      → Option User
      → State × CreateResult
  create_as id email name password role actor s (some existing) = (s, conflict)
  create_as id email name password role actor s none = (
    log_audit (user_create actor id (lower email))
        (record s { users = new_user id email name password role ∷ s.users }),
    created (new_user id email name password role),
  )

  unfoldable pub create_user :
      (id email name password : ℕ) (role : Role) (actor : Option ℕ) → State → State × CreateResult
  create_user id email name password role actor s =
      create_as id email name password role actor s (find_user (lower email) s.users)

-- `findUnique` by the identifier; the hash of the password is not among the fields that are read.
unfoldable pub me : ℕ → List User → Option User
me user_id [] = none
me user_id (u ∷ us) = if u.id == user_id then some u else me user_id us

-- The users in the order of their creation, before those of `later`.
unfoldable pub list_users_before : List User → (later : List User) → List User
list_users_before [] later = later
list_users_before (u ∷ us) later = list_users_before us (u ∷ later)

unfoldable pub list_users : State → List User
list_users s = list_users_before s.users []

abbrev same_role : Role → Role → Bool
same_role admin admin = true
same_role rop_role rop_role = true
same_role _ _ = false

abbrev has_role : Role → List Role → Bool
has_role role [] = false
has_role role (r ∷ rs) = if same_role r role then true else has_role role rs

-- `RolesGuard.canActivate` of apps/api/src/auth/guards/roles.guard.ts: the roles that a route asks for,
-- and the role of the user of the request.
unfoldable pub can_activate : (roles : Option (List Role)) (user_role : Option Role) → Bool
can_activate none role = true
can_activate (some []) role = true
can_activate (some (r ∷ rs)) none = false
can_activate (some (r ∷ rs)) (some role) = has_role role (r ∷ rs)

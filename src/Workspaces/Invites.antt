-- ===== src/Workspaces/Invites.antt =====
-- Invitations of prepared managers (`WorkspaceOnboardingService.invite` and `accept` of
-- apps/api/src/workspaces/workspace-onboarding.service.ts) and the change of an account
-- (`WorkspacesService.updateAccount` of apps/api/src/workspaces/workspaces.service.ts). Tokens, their
-- hashes and passwords are numbers; both hashes are parameters. The login at the end of `accept` is
-- that of Accounts. Employees and departments are read as they are at the time
-- of an operation; the first read of `accept` and its transaction, which tests again what it tests,
-- find the same tables.
pub mod Account
pub mod Spent
pub mod Once
mod Tests
use amocrm_analytics.Base.{
  ℕ, ◌+◌, ◌*◌, ltb, leb, ◌==◌, Bool, true, false, ◌&&◌, ◌||◌, not, Option, none, some, List, [],
  ◌∷◌, any, filter, length, if◌then◌else◌,
}
use amocrm_analytics.Workspaces.{
  UserRole, admin_user, rop_user, BusinessRole, owner, rop_role, manager_role, is_given,
}

pub record Member : Type 0 where
  pub id : ℕ
  pub role : UserRole
  pub business_role : BusinessRole
  pub is_active : Bool
  pub department_key : Option ℕ
  pub crm_user_id : Option ℕ
  pub password_hash : ℕ
  pub access_version : ℕ

-- `user_id` and `token_hash` are unique in the table.
pub record WorkspaceInvite : Type 0 where
  pub user_id : ℕ
  pub token_hash : ℕ
  pub expires_at : ℕ
  pub access_version : ℕ
  pub used_at : Option ℕ

pub data Audited : Type 0 where
  manager_prepared invite_created invite_accepted access_updated : (actor entity : ℕ) → Audited

pub record State : Type 0 where
  pub members : List Member
  pub invites : List WorkspaceInvite
  pub trail : List Audited

pub record Employee : Type 0 where
  pub is_active : Bool
  pub group_id : Option ℕ

-- The rows of amoCRM's employees and of the departments.
pub record Directory : Type 0 where
  pub employee : ℕ → Option Employee
  pub department_group : ℕ → Option ℕ

abbrev is_manager_role : BusinessRole → Bool
is_manager_role manager_role = true
is_manager_role _ = false

abbrev same_group : Option ℕ → Option ℕ → Bool
same_group (some a) (some b) = a == b
same_group _ _ = false

abbrev pub find_member : ℕ → List Member → Option Member
find_member id [] = none
find_member id (m ∷ ms) = if m.id == id then some m else find_member id ms

abbrev pub find_invite : (token_hash : ℕ) → List WorkspaceInvite → Option WorkspaceInvite
find_invite h [] = none
find_invite h (i ∷ is) = if i.token_hash == h then some i else find_invite h is

-- The upsert by the user.
abbrev pub put_invite : WorkspaceInvite → List WorkspaceInvite → List WorkspaceInvite
put_invite i [] = i ∷ []
put_invite i (j ∷ js) = if j.user_id == i.user_id then i ∷ js else j ∷ put_invite i js

abbrev is_prepared : ℕ → Audited → Bool
is_prepared id (manager_prepared actor entity) = entity == id
is_prepared id _ = false

pub data InviteResult : Type 0 where
  invited : (token expires_at : ℕ) → InviteResult
  not_admin not_invitable token_taken : InviteResult

-- Whether another user has the hash, which the unique index refuses.
abbrev pub hash_taken : (user_id token_hash : ℕ) → List WorkspaceInvite → Bool
hash_taken user_id h invites = any (λ j. j.token_hash == h && not (j.user_id == user_id)) invites

abbrev pub may_invite : Member → State → Bool
may_invite m s =
    is_manager_role m.business_role && (not m.is_active && any (λ a. is_prepared m.id a) s.trail)

abbrev invite_ms : ℕ
invite_ms = 72 * 3_600_000

abbrev pub new_invite : Member → (token_hash now : ℕ) → WorkspaceInvite
new_invite m h now = record {
  user_id = m.id;
  token_hash = h;
  expires_at = now + invite_ms;
  access_version = m.access_version;
  used_at = none;
}

module _ (token_hash : ℕ → ℕ) where
  abbrev pub invite_found : (actor now token id : ℕ) → Option Member → State → State × InviteResult
  invite_found actor now token id none s = (s, not_invitable)
  invite_found actor now token id (some m) s =
      if not (may_invite m s)
      then (s, not_invitable)
      else if hash_taken m.id (token_hash token) s.invites
      then (s, token_taken)
      else (
        record {
          members = s.members;
          invites = put_invite (new_invite m (token_hash token) now) s.invites;
          trail = invite_created actor id ∷ s.trail;
        },
        invited token (now + invite_ms),
      )

  unfoldable pub invite :
      (actor : ℕ) (is_admin : Bool) (now token id : ℕ) → State → State × InviteResult
  invite actor is_admin now token id s =
      if not is_admin
      then (s, not_admin)
      else invite_found actor now token id (find_member id s.members) s

pub data AcceptResult : Type 0 where
  accepted : (user_id : ℕ) → AcceptResult
  bad_input bad_invite department_changed already_used access_changed : AcceptResult

-- The checks of the transaction of `accept` on an invitation and its user.
unfoldable pub may_accept : Directory → (now : ℕ) → WorkspaceInvite → Member → Bool
may_accept directory now i m =
    not (is_given i.used_at)
    && (leb now i.expires_at
        && (not m.is_active
            && (is_manager_role m.business_role
                && (i.access_version == m.access_version && elim m.crm_user_id [
                  | none ↦ false
                  | some c ↦ elim (directory.employee c) [ none ↦ false | some e ↦ e.is_active ]
                ]))))

-- The employee is in the group of the department of the account.
abbrev pub in_department : Directory → Member → Bool
in_department directory m = elim m.department_key [
  | none ↦ false
  | some key ↦ elim m.crm_user_id [
    | none ↦ false
    | some c ↦ elim (directory.employee c) [
      | none ↦ false
      | some e ↦ same_group e.group_id (directory.department_group key)
    ]
  ]
]

abbrev pub is_unused_of : (user_id : ℕ) → WorkspaceInvite → Bool
is_unused_of user_id j = j.user_id == user_id && not (is_given j.used_at)

abbrev pub use_invite : (now user_id : ℕ) → WorkspaceInvite → WorkspaceInvite
use_invite now user_id j = record {
  user_id = j.user_id;
  token_hash = j.token_hash;
  expires_at = j.expires_at;
  access_version = j.access_version;
  used_at = if is_unused_of user_id j then some now else j.used_at;
}

abbrev pub use_invites : (now user_id : ℕ) → List WorkspaceInvite → List WorkspaceInvite
use_invites now user_id [] = []
use_invites now user_id (j ∷ js) = use_invite now user_id j ∷ use_invites now user_id js

abbrev pub is_awaited : (user_id access_version : ℕ) → Member → Bool
is_awaited user_id version m = m.id == user_id && (not m.is_active && m.access_version == version)

abbrev activate : (user_id access_version password_hash : ℕ) → List Member → List Member
activate user_id version h [] = []
activate user_id version h (m ∷ ms) =
    (if is_awaited user_id version m
      then record {
        id = m.id;
        role = m.role;
        business_role = m.business_role;
        is_active = true;
        department_key = m.department_key;
        crm_user_id = m.crm_user_id;
        password_hash = h;
        access_version = m.access_version + 1;
      }
      else m)
    ∷ activate user_id version h ms

-- The writes of the transaction.
abbrev pub consume : (now password_hash : ℕ) → WorkspaceInvite → State → State × AcceptResult
consume now h i s =
    if not (length (filter (λ j. is_unused_of i.user_id j) s.invites) == 1)
    then (s, already_used)
    else if not (any (λ m. is_awaited i.user_id i.access_version m) s.members)
    then (s, access_changed)
    else (
      record {
        members = activate i.user_id i.access_version h s.members;
        invites = use_invites now i.user_id s.invites;
        trail = invite_accepted i.user_id i.user_id ∷ s.trail;
      },
      accepted i.user_id,
    )

abbrev pub accept_found :
    Directory
    → (now password_hash : ℕ) → WorkspaceInvite
    → Option Member
    → State
    → State × AcceptResult
accept_found directory now h i none s = (s, bad_invite)
accept_found directory now h i (some m) s =
    if not (may_accept directory now i m)
    then (s, bad_invite)
    else if not (in_department directory m)
    then (s, department_changed)
    else consume now h i s

abbrev pub accept_invite :
    Directory → (now password_hash : ℕ) → Option WorkspaceInvite → State → State × AcceptResult
accept_invite directory now h none s = (s, bad_invite)
accept_invite directory now h (some i) s =
    accept_found directory now h i (find_member i.user_id s.members) s

-- The read before the password is hashed.
abbrev pub can_be_asked : (asked_at : ℕ) → Option WorkspaceInvite → Bool
can_be_asked asked_at none = false
can_be_asked asked_at (some i) = not (is_given i.used_at) && ltb asked_at i.expires_at

module _ (token_hash password_hash : ℕ → ℕ) where
  -- `is_well_formed` is whether token and password are texts of the lengths that are asked for.
  unfoldable pub accept :
      Directory
      → (is_well_formed : Bool) (asked_at now token password : ℕ) → State
      → State × AcceptResult
  accept directory is_well_formed asked_at now token password s =
      let found = find_invite (token_hash token) s.invites in
      if not is_well_formed
      then (s, bad_input)
      else if not (can_be_asked asked_at found)
      then (s, bad_invite)
      else accept_invite directory now (password_hash password) found s

-- ===== src/Workspaces/Invites/Account.antt =====
-- The change of an account by an administrator (`WorkspacesService.updateAccount` of
-- apps/api/src/workspaces/workspaces.service.ts).
use amocrm_analytics.Base.{
  ℕ, ◌+◌, ◌==◌, Bool, true, false, ◌&&◌, ◌||◌, not, Option, none, some, List, [], ◌∷◌,
  if◌then◌else◌,
}
use amocrm_analytics.Workspaces.{admin_user, rop_user, BusinessRole, owner, manager_role, is_given}
use amocrm_analytics.Workspaces.Invites.{
  Member, access_updated, State, Directory, Employee, find_member,
}

-- `business_role` is `none` for a role that does not exist, and `password_fits` the test of its length.
pub record AccountInput : Type 0 where
  pub business_role : Option BusinessRole
  pub department_key : ℕ
  pub crm_user_id : Option ℕ
  pub is_active : Bool
  pub password : Option ℕ
  pub password_fits : Bool
  pub version : ℕ

pub data UpdateResult : Type 0 where
  updated only_admin unknown_role choose_department choose_employee no_employee : UpdateResult
  own_access bad_password no_account changed_by_other : UpdateResult

abbrev is_owner : BusinessRole → Bool
is_owner owner = true
is_owner _ = false

abbrev is_manager_role : BusinessRole → Bool
is_manager_role manager_role = true
is_manager_role _ = false

abbrev is_found : Option Employee → Bool
is_found none = false
is_found (some e) = true

abbrev employee_exists : Directory → Option ℕ → Bool
employee_exists directory none = true
employee_exists directory (some c) = is_found (directory.employee c)

module _ (password_hash : ℕ → ℕ) where
  abbrev pub changed_member : AccountInput → BusinessRole → Member → Member
  changed_member body role m = record {
    id = m.id;
    role = if is_owner role then admin_user else rop_user;
    business_role = role;
    is_active = body.is_active;
    department_key = if is_owner role then none else some body.department_key;
    crm_user_id = body.crm_user_id;
    password_hash = elim body.password [ none ↦ m.password_hash | some p ↦ password_hash p ];
    access_version = m.access_version + 1;
  }

  abbrev change_member : ℕ → AccountInput → BusinessRole → List Member → List Member
  change_member id body role [] = []
  change_member id body role (m ∷ ms) =
      if m.id == id then changed_member body role m ∷ ms else m ∷ change_member id body role ms

  abbrev pub update_found :
      (actor id : ℕ) → AccountInput → BusinessRole → Option Member → State → State × UpdateResult
  update_found actor id body role none s = (s, no_account)
  update_found actor id body role (some old) s =
      if not (old.access_version == body.version) then (s, changed_by_other) else (
        record {
          members = change_member id body role s.members;
          invites = s.invites;
          trail = access_updated actor id ∷ s.trail;
        },
        updated,
      )

  abbrev pub update_role :
      Directory → (actor id : ℕ) → AccountInput → Option BusinessRole → State → State × UpdateResult
  update_role directory actor id body none s = (s, unknown_role)
  update_role directory actor id body (some role) s =
      if not (is_owner role) && not (is_given (directory.department_group body.department_key))
      then (s, choose_department)
      else if is_manager_role role && not (is_given body.crm_user_id)
      then (s, choose_employee)
      else if not (employee_exists directory body.crm_user_id)
      then (s, no_employee)
      else if id == actor && (not body.is_active || not (is_owner role))
      then (s, own_access)
      else if is_given body.password && not body.password_fits
      then (s, bad_password)
      else update_found actor id body role (find_member id s.members) s

  unfoldable pub update_account :
      Directory
      → (actor : ℕ) (is_admin : Bool) (id : ℕ) → AccountInput
      → State
      → State × UpdateResult
  update_account directory actor is_admin id body s =
      if not is_admin
      then (s, only_admin)
      else update_role directory actor id body body.business_role s

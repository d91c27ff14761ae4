-- ===== src/Workspaces.antt =====
-- Who may see what (`WorkspaceAccessService` of apps/api/src/workspaces/workspace-access.service.ts).
-- Identifiers and keys are numbers, and `none` stands for null and for an empty text. The database
-- is the functions that look up and list its rows, and the hash of a scope is a parameter.
pub mod Confined
pub mod Shipments
pub mod Sales
pub mod Period
pub mod Invites
mod Tests
use amocrm_analytics.Base.{
  ℕ, ◌==◌, ltb, Bool, true, false, ◌&&◌, ◌||◌, not, Option, none, some, List, [], ◌∷◌, ◌++◌, any,
  if◌then◌else◌,
}

pub data UserRole : Type 0 where
  admin_user rop_user : UserRole

pub data BusinessRole : Type 0 where
  owner rop_role manager_role : BusinessRole

pub data ScopeRole : Type 0 where
  admin rop manager : ScopeRole

pub record AccountRow : Type 0 where
  pub id : ℕ
  pub role : UserRole
  pub business_role : BusinessRole
  pub is_active : Bool
  pub department_key : Option ℕ
  pub crm_user_id : Option ℕ
  pub crm_user_is_active : Bool
  pub access_version : ℕ

pub record WorkspaceScope : Type 0 where
  pub user_id : ℕ
  pub role : ScopeRole
  pub department_key : Option ℕ
  pub manager_id : Option ℕ
  pub version : ℕ

pub record Department : Type 0 where
  pub key : ℕ
  pub group_id : ℕ

pub data Refusal : Type 0 where
  account_off no_department no_crm_user choose_department other_department : Refusal
  department_not_configured other_manager not_in_department : Refusal

pub data Access {ℓ} (A : Type ℓ) : Type ℓ where
  allowed : A → Access A
  forbidden : Refusal → Access A

unfoldable pub scope_role : UserRole → BusinessRole → ScopeRole
scope_role admin_user b = admin
scope_role rop_user owner = admin
scope_role rop_user rop_role = rop
scope_role rop_user _ = manager

abbrev pub is_admin : ScopeRole → Bool
is_admin admin = true
is_admin _ = false

abbrev pub is_manager : ScopeRole → Bool
is_manager manager = true
is_manager _ = false

abbrev pub is_given : Option ℕ → Bool
is_given none = false
is_given (some n) = true

abbrev pub scope_of : AccountRow → WorkspaceScope
scope_of user = record {
  user_id = user.id;
  role = scope_role user.role user.business_role;
  department_key = user.department_key;
  manager_id =
      if is_manager (scope_role user.role user.business_role) then user.crm_user_id else none;
  version = user.access_version;
}

abbrev pub resolve_row : Option AccountRow → Access WorkspaceScope
resolve_row none = forbidden account_off
resolve_row (some user) =
    if not user.is_active
    then forbidden account_off
    else if not (is_admin (scope_role user.role user.business_role))
        && not (is_given user.department_key)
    then forbidden no_department
    else if is_manager (scope_role user.role user.business_role)
        && (not (is_given user.crm_user_id) || not user.crm_user_is_active)
    then forbidden no_crm_user
    else allowed (scope_of user)

abbrev pub or_else : Option ℕ → Option ℕ → Option ℕ
or_else none b = b
or_else (some a) b = some a

abbrev pub same : Option ℕ → ℕ → Bool
same none n = false
same (some m) n = m == n

abbrev pub configured : Option Department → Access Department
configured none = forbidden department_not_configured
configured (some d) = allowed d

abbrev insert : ℕ → List ℕ → List ℕ
insert n [] = n ∷ []
insert n (m ∷ ms) = if ltb n m then n ∷ m ∷ ms else if n == m then m ∷ ms else m ∷ insert n ms

-- The set of the numbers, sorted.
unfoldable pub sorted_set : List ℕ → List ℕ
sorted_set [] = []
sorted_set (n ∷ ns) = insert n (sorted_set ns)

abbrev pub includes : ℕ → List ℕ → Bool
includes n ns = any (λ m. m == n) ns

module _ (account : ℕ → Option AccountRow) where
  unfoldable pub resolve : ℕ → Access WorkspaceScope
  resolve id = resolve_row (account id)

module _ (department_row : ℕ → Option Department) where
  abbrev pub department_by : WorkspaceScope → Option ℕ → Access Department
  department_by scope none = forbidden choose_department
  department_by scope (some key) =
      if not (is_admin scope.role) && not (same scope.department_key key)
      then forbidden other_department
      else configured (department_row key)

  unfoldable pub department : WorkspaceScope → (requested : Option ℕ) → Access Department
  department scope requested = department_by scope (or_else requested scope.department_key)

module _ (users_of_group : ℕ → List ℕ) (linked_managers : ℕ → List ℕ) where
  abbrev pub department_ids : Department → List ℕ
  department_ids d = sorted_set (users_of_group d.group_id ++ linked_managers d.key)

  abbrev own_id : Option ℕ → List ℕ
  own_id none = []
  own_id (some m) = m ∷ []

  abbrev pub ids_for : ScopeRole → Option ℕ → Department → Option ℕ → Access (List ℕ)
  ids_for manager own d none = allowed (own_id own)
  ids_for manager own d (some r) =
      if not (same own r) then forbidden other_manager else allowed (own_id own)
  ids_for _ own d none = allowed (department_ids d)
  ids_for _ own d (some r) =
      if not (includes r (department_ids d)) then forbidden not_in_department else allowed (r ∷ [])

  unfoldable pub manager_ids :
      WorkspaceScope → Department → (requested : Option ℕ) → Access (List ℕ)
  manager_ids scope d requested = ids_for scope.role scope.manager_id d requested

-- What the tests of the address of a request say, in the order of the tests.
pub record Route : Type 0 where
  pub changes_user_link : Bool
  pub changes_mailing : Bool
  pub is_removed : Bool
  pub is_session : Bool
  pub is_cabinet : Bool

pub data Passage : Type 0 where
  passed gone not_resolved own_sections_only : Passage

abbrev boundary_for : Route → Access WorkspaceScope → Passage
boundary_for route (forbidden r) = if route.is_session then passed else not_resolved
boundary_for route (allowed scope) =
    if not (is_admin scope.role) && not route.is_cabinet then own_sections_only else passed

-- `WorkspaceBoundaryInterceptor.intercept` of
-- apps/api/src/workspaces/workspace-boundary.interceptor.ts; `user` is the scope of the request's user.
unfoldable pub boundary : Route → (user : Option (Access WorkspaceScope)) → Passage
boundary route user =
    if route.changes_user_link
    then gone
    else if route.changes_mailing
    then gone
    else if route.is_removed
    then gone
    else elim user [ none ↦ passed | some access ↦ boundary_for route access ]

-- ===== src/Workspaces/Confined.antt =====
-- Nobody but an administrator sees another department, and a manager sees only the own records.
use amocrm_analytics.Base.{
  ℕ, ◌≡◌, ◌⊎◌, inl, inr, refl, sym, ap, ◌∙◌, Bool, true, false, ◌&&◌, not, Option, none, some, List,
  [], ◌∷◌, arith, if◌then◌else◌,
}
use amocrm_analytics.Workspaces.{
  AccountRow, WorkspaceScope, Department, Refusal, Access, allowed, forbidden, ScopeRole, admin,
  rop, manager, scope_role, is_admin, is_manager, is_given, resolve_row, or_else, same, includes,
  resolve, department_by, configured, department, department_ids, ids_for, manager_ids,
}

-- The row that a scope was made from.
pub record IsResolved (row : Option AccountRow) (scope : WorkspaceScope) (user : AccountRow)
    : Type 0 where
  pub found : row ≡ some user
  pub active : user.is_active ≡ true
  pub role : scope.role ≡ scope_role user.role user.business_role
  pub same_department : scope.department_key ≡ user.department_key
  pub own_id : is_manager scope.role ≡ true → scope.manager_id ≡ user.crm_user_id
  pub has_crm_user :
      is_manager scope.role ≡ true
      → (is_given user.crm_user_id ≡ true) × (user.crm_user_is_active ≡ true)

allowed_row :
    (user : AccountRow) (scope : WorkspaceScope)
    → resolve_row (some user) ≡ allowed scope
    → IsResolved (some user) scope user
unfolding scope_role
allowed_row user scope h = ground arith

resolve_row-IsResolved :
    (row : Option AccountRow) (scope : WorkspaceScope)
    → resolve_row row ≡ allowed scope
    → (user : AccountRow) × IsResolved row scope user
resolve_row-IsResolved none scope h = cc
resolve_row-IsResolved (some user) scope h = (user, allowed_row user scope h)

same_key : (o : Option ℕ) (k : ℕ) → same o k ≡ true → o ≡ some k
same_key none k h = cc
same_key (some m) k h = ground arith

row_of : (row : Option Department) (d : Department) → configured row ≡ allowed d → row ≡ some d
row_of none d h = cc
row_of (some e) d h = cc

not_refused {ℓ} :
    {A : Type ℓ} (b : Bool) (r : Refusal) (x : Access A) (a : A)
    → (if b then forbidden r else x) ≡ allowed a
    → (b ≡ false) × (x ≡ allowed a)
not_refused true r x a h = cc
not_refused false r x a h = (refl, h)

both_needed : (a b : Bool) → a ≡ false → not a && not b ≡ false → b ≡ true
both_needed a b h k = ground arith

department_by-key :
    (department_row : ℕ → Option Department) (scope : WorkspaceScope) (key : Option ℕ)
    (d : Department)
    → ((k : ℕ) (row : Department) → department_row k ≡ some row → row.key ≡ k)
    → is_admin scope.role ≡ false
    → department_by department_row scope key ≡ allowed d
    → scope.department_key ≡ some d.key
department_by-key department_row scope none d keyed other h = cc
department_by-key department_row scope (some k) d keyed other h =
    let (allowed_key, found) = not_refused _ _ (configured (department_row k)) d h in
    let own =
      same_key scope.department_key k (both_needed (is_admin scope.role) _ other allowed_key) in
    let key : d.key ≡ k = keyed k d (row_of (department_row k) d found) in own ∙ ap some (sym key)

-- Whoever is not an administrator and is allowed a department, whatever was asked for, is an active user
-- whose own department it is, if the database returns a department under its key.
pub department-resolve :
    (account : ℕ → Option AccountRow) (department_row : ℕ → Option Department) (id : ℕ)
    (requested : Option ℕ) (scope : WorkspaceScope) (d : Department)
    → ((k : ℕ) (row : Department) → department_row k ≡ some row → row.key ≡ k)
    → resolve account id ≡ allowed scope
    → is_admin scope.role ≡ false
    → department department_row scope requested ≡ allowed d
    → (user : AccountRow) × (account id ≡ some user)
      × (user.is_active ≡ true)
      × (user.department_key ≡ some d.key)
unfolding resolve department
department-resolve account department_row id requested scope d keyed resolved other h =
    let (user, r) = resolve_row-IsResolved (account id) scope resolved in
    (
      user,
      r.found,
      r.active,
      sym r.same_department
          ∙ department_by-key department_row scope (or_else requested scope.department_key) d keyed
              other h,
    )

given : (o : Option ℕ) → is_given o ≡ true → (n : ℕ) × (o ≡ some n)
given none h = cc
given (some n) h = (n, refl)

own_only :
    (users_of_group linked_managers : ℕ → List ℕ) (m : ℕ) (d : Department) (requested : Option ℕ)
    (ids : List ℕ)
    → ids_for users_of_group linked_managers manager (some m) d requested ≡ allowed ids
    → ids ≡ m ∷ []
own_only users_of_group linked_managers m d none ids h = cc
own_only users_of_group linked_managers m d (some r) ids h = ground arith

-- A manager is allowed the records of one employee only, whatever was asked for: the active one of the
-- CRM that the manager's own account is linked to.
pub manager_ids-resolve :
    (account : ℕ → Option AccountRow) (users_of_group linked_managers : ℕ → List ℕ) (id : ℕ)
    (scope : WorkspaceScope) (d : Department) (requested : Option ℕ) (ids : List ℕ)
    → resolve account id ≡ allowed scope
    → scope.role ≡ manager
    → manager_ids users_of_group linked_managers scope d requested ≡ allowed ids
    → (user : AccountRow) × (m : ℕ) × (account id ≡ some user)
      × (user.crm_user_id ≡ some m)
      × (user.crm_user_is_active ≡ true)
      × (ids ≡ m ∷ [])
unfolding resolve manager_ids
manager_ids-resolve account users_of_group linked_managers id scope d requested ids resolved is h =
    let (user, r) = resolve_row-IsResolved (account id) scope resolved in
    let role : is_manager scope.role ≡ true = ap is_manager is in
    let (linked, active) = r.has_crm_user role in
    let (m, own) = given user.crm_user_id linked in
    let h' : ids_for users_of_group linked_managers manager (some m) d requested ≡ allowed ids =
      sym (ap (λ r. ids_for users_of_group linked_managers r (some m) d requested) is)
      ∙ sym (
          ap (λ o. ids_for users_of_group linked_managers scope.role o d requested)
            (r.own_id role ∙ own))
      ∙ h in
    (user, m, r.found, own, active, own_only users_of_group linked_managers m d requested ids h')

asked :
    (users_of_group linked_managers : ℕ → List ℕ) (role : ScopeRole) (own : Option ℕ)
    (d : Department) (r : ℕ) (ids : List ℕ)
    → ids_for users_of_group linked_managers role own d (some r) ≡ allowed ids
    → (ids ≡ r ∷ [])
      × ((role ≡ manager) ⊎ (includes r (department_ids users_of_group linked_managers d) ≡ true))
asked users_of_group linked_managers admin own d r ids h =
    let (found, e) = not_refused _ _ (allowed (r ∷ [])) ids h in (cc, inr (ground arith))
asked users_of_group linked_managers rop own d r ids h =
    let (found, e) = not_refused _ _ (allowed (r ∷ [])) ids h in (cc, inr (ground arith))
asked users_of_group linked_managers manager none d r ids h = cc
asked users_of_group linked_managers manager (some m) d r ids h = (ground arith, inl refl)

-- Whoever asks for one employee and is allowed gets exactly that one, and to others than managers it
-- is an employee of the department: of its group, or linked to a shipment of it.
pub manager_ids-requested :
    (users_of_group linked_managers : ℕ → List ℕ) (scope : WorkspaceScope) (d : Department) (r : ℕ)
    (ids : List ℕ)
    → manager_ids users_of_group linked_managers scope d (some r) ≡ allowed ids
    → (ids ≡ r ∷ [])
      × ((scope.role ≡ manager)
          ⊎ (includes r (department_ids users_of_group linked_managers d) ≡ true))
unfolding manager_ids
manager_ids-requested users_of_group linked_managers scope d r ids h =
    asked users_of_group linked_managers scope.role scope.manager_id d r ids h

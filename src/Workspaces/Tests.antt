-- ===== src/Workspaces/Tests.antt =====
-- A manager and a head of department 7.
use amocrm_analytics.Base.{
  ℕ, ◌≡◌, refl, ◌==◌, true, false, Option, none, some, List, [], ◌∷◌, if◌then◌else◌, arith,
}
use amocrm_analytics.Workspaces.{
  AccountRow, Department, allowed, forbidden, other_department, rop_user, rop_role, manager_role,
  manager, scope_of, scope_role, is_admin, resolve, department, manager_ids, sorted_set,
}
use amocrm_analytics.Workspaces.Confined.{department-resolve, manager_ids-resolve}

abbrev head : AccountRow
head = record {
  id = 1;
  role = rop_user;
  business_role = rop_role;
  is_active = true;
  department_key = some 7;
  crm_user_id = none;
  crm_user_is_active = false;
  access_version = 1;
}

abbrev seller : AccountRow
seller = record head {
  id = 2;
  business_role = manager_role;
  crm_user_id = some 20;
  crm_user_is_active = true;
}

abbrev accounts : ℕ → Option AccountRow
accounts id = if id == 1 then some head else some seller

abbrev departments : ℕ → Option Department
departments key = some (record { key = key; group_id = 3 })

abbrev group : ℕ → List ℕ
group g = 21 ∷ 20 ∷ []

abbrev linked : ℕ → List ℕ
linked key = 22 ∷ 20 ∷ []

access : Unit {0}
unfolding scope_role resolve department manager_ids sorted_set
access = tt

departments_keyed : (k : ℕ) (row : Department) → departments k ≡ some row → row.key ≡ k
departments_keyed k row h = ground arith

head_resolved : resolve accounts 1 ≡ allowed (scope_of head)
unfolding access
head_resolved = refl

head_is_no_admin : is_admin (scope_of head).role ≡ false
unfolding access
head_is_no_admin = refl

head_allowed :
    department departments (scope_of head) none ≡ allowed (record { key = 7; group_id = 3 })
unfolding access
head_allowed = refl

-- Another department is refused.
head_test : department departments (scope_of head) (some 8) ≡ forbidden other_department
unfolding access
head_test = refl

department-resolve_example :
    (user : AccountRow) × (accounts 1 ≡ some user)
    × (user.is_active ≡ true)
    × (user.department_key ≡ some 7)
department-resolve_example =
    department-resolve accounts departments 1 none (scope_of head)
      (record { key = 7; group_id = 3 }) departments_keyed head_resolved head_is_no_admin
      head_allowed

seller_resolved : resolve accounts 2 ≡ allowed (scope_of seller)
unfolding access
seller_resolved = refl

seller_is_manager : (scope_of seller).role ≡ manager
unfolding access
seller_is_manager = refl

seller_ids :
    manager_ids group linked (scope_of seller) (record { key = 7; group_id = 3 }) none
    ≡ allowed (20 ∷ [])
unfolding access
seller_ids = refl

manager_ids-resolve_example :
    (user : AccountRow) × (m : ℕ) × (accounts 2 ≡ some user)
    × (user.crm_user_id ≡ some m)
    × (user.crm_user_is_active ≡ true)
    × (20 ∷ [] ≡ m ∷ [])
manager_ids-resolve_example =
    manager_ids-resolve accounts group linked 2 (scope_of seller) (record { key = 7; group_id = 3 })
      none (20 ∷ []) seller_resolved seller_is_manager seller_ids

head_ids :
    (manager_ids group linked (scope_of head) (record { key = 7; group_id = 3 }) none
      ≡ allowed (20 ∷ 21 ∷ 22 ∷ []))
    × (manager_ids group linked (scope_of head) (record { key = 7; group_id = 3 }) (some 22)
        ≡ allowed (22 ∷ []))
unfolding access
head_ids = (refl, refl)

abbrev asked_id : List ℕ
asked_id = 22 ∷ []

-- ===== src/Workspaces/Invites/Tests.antt =====
-- Runs of an invitation: sent, accepted, and refused the second time, after the account was changed.
use amocrm_analytics.Base.{ℕ, ◌+◌, ◌≡◌, refl, true, false, none, some, [], ◌∷◌}
use amocrm_analytics.Workspaces.{rop_user, manager_role}
use amocrm_analytics.Workspaces.Invites.{
  Member, State, manager_prepared, Directory, invite, invited, may_accept, accept, accepted,
  bad_invite, department_changed,
}
use amocrm_analytics.Workspaces.Invites.Account.{AccountInput, update_account}
use amocrm_analytics.Workspaces.Invites.Once.{updates, invites, is_accepted, run, accept-once}

abbrev hash : ℕ → ℕ
hash token = token + 1

abbrev bob : Member
bob = record {
  id = 5;
  role = rop_user;
  business_role = manager_role;
  is_active = false;
  department_key = some 2;
  crm_user_id = some 8;
  password_hash = 0;
  access_version = 1;
}

abbrev prepared : State
prepared = record { members = bob ∷ []; invites = []; trail = manager_prepared 1 5 ∷ [] }

abbrev office : Directory
office = record {
  employee = λ c. some (record { is_active = true; group_id = some 3 });
  department_group = λ key. some 3;
}

abbrev moved : Directory
moved = record {
  employee = λ c. some (record { is_active = true; group_id = some 4 });
  department_group = λ key. some 3;
}

abbrev sent : State
sent = (invite hash 1 true 100 77 5 prepared).0

abbrev turned_off : AccountInput
turned_off = record {
  business_role = some manager_role;
  department_key = 2;
  crm_user_id = some 8;
  is_active = false;
  password = none;
  password_fits = false;
  version = 2;
}

computed : Unit {0}
unfolding invite may_accept accept update_account
computed = tt

invite_lasts_three_days : (invite hash 1 true 100 77 5 prepared).1 ≡ invited 77 259_200_100
unfolding computed
invite_lasts_three_days = refl

bob_joins : (accept hash hash office true 150 160 77 9 sent).1 ≡ accepted 5
unfolding computed
bob_joins = refl

-- On the last millisecond the first test of the end refuses, where the second would accept.
last_millisecond : (accept hash hash office true 259_200_100 259_200_100 77 9 sent).1 ≡ bad_invite
unfolding computed
last_millisecond = refl

other_department : (accept hash hash moved true 150 160 77 9 sent).1 ≡ department_changed
unfolding computed
other_department = refl

void_after_change :
    (accept hash hash office true 150 160 77 9
      (update_account hash office 1 true 5
        (record {
          business_role = some manager_role;
          department_key = 2;
          crm_user_id = some 8;
          is_active = false;
          password = none;
          password_fits = false;
          version = 1;
        })
        sent).0).1
    ≡ bad_invite
unfolding computed
void_after_change = refl

bob_is_accepted : is_accepted (accept hash hash office true 150 160 77 9 sent).1 ≡ true
unfolding computed
bob_is_accepted = refl

accept-once_example :
    is_accepted
      (accept hash hash office true 300 310 77 10 (
        run hash hash
          (updates office 1 true 5 turned_off ∷ invites 1 true 200 78 5 ∷ [])
          (accept hash hash office true 150 160 77 9 sent).0)).1
    ≡ false
unfolding invite
accept-once_example =
    accept-once hash hash office office true true 150 160 77 9 300 310 10 sent
      (updates office 1 true 5 turned_off ∷ invites 1 true 200 78 5 ∷ []) refl bob_is_accepted refl

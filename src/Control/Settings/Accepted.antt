-- ===== src/Control/Settings/Accepted.antt =====
-- What the settings that are accepted can be relied on for.
use amocrm_analytics.Base.{
  ℕ, ◌≡◌, refl, Bool, true, false, ◌&&◌, not, Option, none, some, List, [], ◌∷◌, ◌++◌, ◌==◌, any,
  all, arith, if◌then◌else◌, Bool-cases, inl, inr,
}
use amocrm_analytics.Control.Inputs.{Department, sales, csm, StageChoice, absent, unset, chosen}
use amocrm_analytics.Control.Settings.{
  Pipeline, RuleEntry, SettingsScope, Settings, SettingsError, no_scopes, find_pipeline,
  has_working_stage, allows, choices, rules_error, scope_error, scope_with, scopes_error,
  selected_types, types_error, config_error, or_else, is_empty, accepted_settings,
}
use amocrm_analytics.Control.Settings.Issues.{
  Issue, nothing_selected, pipeline_gone, stage_unavailable, rules_outside, types_not_set,
  deadlines_not_set, needed, has_outside, lacks_types, lacks_deadlines, choice_issues,
  all_choice_issues, issue_if, pipeline_issues, scopes_issues, configuration_issues,
}

-- The remark says that the settings do not fit the pipelines, and not that something is left to be set.
abbrev pub is_misfit : Issue → Bool
is_misfit pipeline_gone = true
is_misfit stage_unavailable = true
is_misfit rules_outside = true
is_misfit _ = false

any-append :
    (p : Issue → Bool) (xs ys : List Issue)
    → any p xs ≡ false
    → any p ys ≡ false
    → any p (xs ++ ys) ≡ false
any-append p [] ys h k = k
any-append p (x ∷ xs) ys h k = ground (arith, any-append p xs ys)

rules_error-working :
    (pipeline : Pipeline) (rules : List RuleEntry)
    → rules_error pipeline rules ≡ none
    → any (λ r. not (has_working_stage pipeline r.stage_id)) rules ≡ false
unfolding rules_error
rules_error-working pipeline [] h = refl
rules_error-working pipeline (r ∷ rs) h = ground (arith, rules_error-working pipeline rs)

choice_issues-misfit :
    (pipeline : Pipeline) (c : StageChoice)
    → allows pipeline c ≡ true
    → any is_misfit (choice_issues pipeline c) ≡ false
choice_issues-misfit pipeline absent h = refl
choice_issues-misfit pipeline unset h = refl
choice_issues-misfit pipeline (chosen id) h = rw h refl

all_choice_issues-misfit :
    (pipeline : Pipeline) (cs : List StageChoice)
    → all (allows pipeline) cs ≡ true
    → any is_misfit (all_choice_issues pipeline cs) ≡ false
all_choice_issues-misfit pipeline [] h = refl
all_choice_issues-misfit pipeline (c ∷ cs) h =
    any-append is_misfit (choice_issues pipeline c) (all_choice_issues pipeline cs)
      (choice_issues-misfit pipeline c (ground arith))
      (all_choice_issues-misfit pipeline cs (ground arith))

needed-allowed :
    (pipeline : Pipeline) (scope : SettingsScope) (department : Option Department)
    → all (allows pipeline) (choices scope) ≡ true
    → all (allows pipeline) (needed scope department) ≡ true
needed-allowed pipeline scope none h = ground arith
needed-allowed pipeline scope (some sales) h = ground arith
needed-allowed pipeline scope (some csm) h = ground arith

issue_if-misfit :
    (test : Bool) (issue : Issue)
    → is_misfit issue ≡ false
    → any is_misfit (issue_if test issue) ≡ false
issue_if-misfit true issue h = rw h refl
issue_if-misfit false issue h = refl

rest_misfit :
    (choices_part : List Issue) (outside types deadlines : Bool)
    → any is_misfit choices_part ≡ false
    → outside ≡ false
    → any is_misfit (
        choices_part
        ++ issue_if outside rules_outside
        ++ issue_if types types_not_set
        ++ issue_if deadlines deadlines_not_set)
      ≡ false
rest_misfit [] outside types deadlines h k = rw k (
    any-append is_misfit (issue_if types types_not_set) (issue_if deadlines deadlines_not_set)
      (issue_if-misfit types types_not_set refl) (issue_if-misfit deadlines deadlines_not_set refl))
rest_misfit (c ∷ cs) outside types deadlines h k =
    ground (arith, rest_misfit cs outside types deadlines)

pipeline_issues-misfit :
    (pipeline : Pipeline) (scope : SettingsScope)
    → all (allows pipeline) (choices scope) ≡ true
    → rules_error pipeline scope.rules ≡ none
    → any is_misfit (pipeline_issues scope (some pipeline)) ≡ false
unfolding pipeline_issues
pipeline_issues-misfit pipeline scope h k =
    rest_misfit (all_choice_issues pipeline (needed scope scope.department))
      (has_outside pipeline scope) (lacks_types pipeline scope) (lacks_deadlines pipeline scope)
      (all_choice_issues-misfit pipeline (needed scope scope.department)
        (needed-allowed pipeline scope scope.department h))
      (rules_error-working pipeline scope.rules k)

scope_with-fits :
    (scope : SettingsScope) (seen : Bool) (found : Option Pipeline)
    → scope_with scope seen found ≡ none
    → (any is_misfit (pipeline_issues scope found) ≡ false) × (seen ≡ false)
scope_with-fits scope seen none h = cc
scope_with-fits scope seen (some pipeline) h =
    (pipeline_issues-misfit pipeline scope (ground arith) (ground arith), ground arith)

scope_error-fits :
    (pipelines : List Pipeline) (scope : SettingsScope) (seen : List ℕ)
    → scope_error pipelines scope seen ≡ none
    → (any is_misfit (pipeline_issues scope (find_pipeline scope.pipeline_id pipelines)) ≡ false)
      × (any (λ id. id == scope.pipeline_id) seen ≡ false)
unfolding scope_error
scope_error-fits pipelines scope seen h =
    scope_with-fits scope (any (λ id. id == scope.pipeline_id) seen)
      (find_pipeline scope.pipeline_id pipelines) (ground arith)

or_else-none : (a b : Option SettingsError) → or_else a b ≡ none → (a ≡ none) × (b ≡ none)
or_else-none none b h = (refl, h)
or_else-none (some e) b h = cc

-- No pipeline is among those before it.
abbrev pub AreDistinct : List SettingsScope → (seen : List ℕ) → Type 0
AreDistinct [] seen = Unit
AreDistinct (scope ∷ scopes) seen =
    (any (λ id. id == scope.pipeline_id) seen ≡ false)
    × AreDistinct scopes (scope.pipeline_id ∷ seen)

scopes_error-fits :
    (pipelines : List Pipeline) (scopes : List SettingsScope) (seen : List ℕ)
    → scopes_error pipelines scopes seen ≡ none
    → (any is_misfit (scopes_issues pipelines scopes) ≡ false) × AreDistinct scopes seen
unfolding scopes_error
scopes_error-fits pipelines [] seen h = (refl, tt)
scopes_error-fits pipelines (scope ∷ scopes) seen h =
    let (first, later) = or_else-none _ _ h in
    let (fits, fresh) = scope_error-fits pipelines scope seen first in
    let (rest, distinct) = scopes_error-fits pipelines scopes (scope.pipeline_id ∷ seen) later in
    (
      any-append is_misfit (pipeline_issues scope (find_pipeline scope.pipeline_id pipelines))
          (scopes_issues pipelines scopes) fits rest,
      (fresh, distinct),
    )

config_error-scopes :
    (pipelines : List Pipeline) (catalog : Option (List ℕ)) (value : Settings)
    → config_error pipelines catalog value ≡ none
    → (scopes_error pipelines value.scopes [] ≡ none)
      × (types_error catalog (selected_types value.scopes) ≡ none)
unfolding config_error
config_error-scopes pipelines catalog value h =
    let tail : or_else (scopes_error pipelines value.scopes []) (
          or_else (types_error catalog (selected_types value.scopes))
            (if value.enabled && is_empty value.scopes then some no_scopes else none))
        ≡ none =
      ground arith in
    let (scopes, later) = or_else-none _ _ tail in (scopes, (or_else-none _ _ later).0)

-- The type of a task is in the catalog.
abbrev pub is_known : Option (List ℕ) → ℕ → Bool
is_known none t = false
is_known (some known) t = any (λ k. k == t) known

types_error-known :
    (catalog : Option (List ℕ)) (ts : List ℕ)
    → types_error catalog ts ≡ none
    → all (is_known catalog) ts ≡ true
unfolding types_error
types_error-known catalog [] h = refl
types_error-known none (t ∷ ts) h = cc
types_error-known (some known) (t ∷ ts) h =
    elim (Bool-cases (all (λ u. any (λ k. k == u) known) (t ∷ ts))) [
      | inl y ↦ y
      | inr n ↦ absurd (ground arith)
    ]

-- Settings that are accepted fit the pipelines: while these stay as they are, no remark says that a
-- pipeline is gone, that a chosen stage is not a working one, or that a rule is for another stage; no
-- pipeline is chosen twice; and every type of task that is selected is in the catalog.
pub config_error-AreDistinct :
    (pipelines : List Pipeline) (catalog : Option (List ℕ)) (value : Settings)
    → config_error pipelines catalog value ≡ none
    → (any is_misfit (configuration_issues (accepted_settings value) pipelines) ≡ false)
      × (AreDistinct value.scopes []
          × (all (is_known catalog) (selected_types value.scopes) ≡ true))
unfolding configuration_issues
config_error-AreDistinct pipelines catalog value h =
    let (scopes, types) = config_error-scopes pipelines catalog value h in
    let (fits, distinct) = scopes_error-fits pipelines value.scopes [] scopes in
    (
      any-append is_misfit (issue_if (is_empty value.scopes) nothing_selected)
          (scopes_issues pipelines value.scopes)
          (issue_if-misfit (is_empty value.scopes) nothing_selected refl) fits,
      (distinct, types_error-known catalog (selected_types value.scopes) types),
    )

-- ===== src/Control/Inputs/Open.antt =====
-- Which tasks a check sees: one for each subject that has an open task, the last one that is listed.
use amocrm_analytics.Base.{
  ℕ, ◌+◌, ◌≡◌, refl, ◌∙◌, ap, Bool, not, Option, none, some, List, [], ◌∷◌, ◌==◌, filter, arith,
  if◌then◌else◌, Bool-both,
}
use amocrm_analytics.Control.Inputs.{Task, task_subject, put_task, put_tasks, active_tasks}

-- The number of the tasks of a subject in a list, and the first of them.
abbrev pub subject_count : ℕ → List Task → ℕ
subject_count s [] = 0
subject_count s (t ∷ ts) = (if task_subject t == s then 1 else 0) + subject_count s ts

abbrev pub first_of : ℕ → List Task → Option Task
first_of s [] = none
first_of s (t ∷ ts) = if task_subject t == s then some t else first_of s ts

-- The last open task of the subject, or `found` if there is none.
abbrev pub last_open : ℕ → List Task → Option Task → Option Task
last_open s [] found = found
last_open s (t ∷ ts) found =
    last_open s ts (if t.is_completed then found else if task_subject t == s then some t else found)

abbrev pub number_of : Option Task → ℕ
number_of none = 0
number_of (some t) = 1

first_of-put_task :
    (s : ℕ) (t : Task) (entries : List Task)
    → first_of s (put_task t entries) ≡ (if task_subject t == s then some t else first_of s entries)
unfolding put_task
first_of-put_task s t [] = refl
first_of-put_task s t (u ∷ us) =
    let ih : first_of s (put_task t us) ≡ (if task_subject t == s then some t else first_of s us) =
      first_of-put_task s t us in
    ground arith

subject_count-put_task :
    (s : ℕ) (t : Task) (entries : List Task)
    → subject_count s (put_task t entries) ≡ (
        if task_subject t == s
        then (if subject_count s entries == 0 then 1 else subject_count s entries)
        else subject_count s entries)
unfolding put_task
subject_count-put_task s t [] = ground arith
subject_count-put_task s t (u ∷ us) =
    let ih : subject_count s (put_task t us) ≡ (
        if task_subject t == s
        then (if subject_count s us == 0 then 1 else subject_count s us)
        else subject_count s us) =
      subject_count-put_task s t us in
    ground arith

-- A subject has at most one entry.
abbrev Single : ℕ → List Task → Type 0
Single s entries = subject_count s entries ≡ number_of (first_of s entries)

number_of-Single :
    (o : Option Task) (b : Bool) (t : Task) (n : ℕ)
    → n ≡ number_of o
    → (if b then (if n == 0 then 1 else n) else n) ≡ number_of (if b then some t else o)
number_of-Single none b t n h = ground arith
number_of-Single (some u) b t n h = ground arith

Single-put_task :
    (s : ℕ) (t : Task) (entries : List Task) → Single s entries → Single s (put_task t entries)
Single-put_task s t entries h =
    subject_count-put_task s t entries
    ∙ rw (first_of-put_task s t entries)
        (number_of-Single (first_of s entries) (task_subject t == s) t _ h)

Single-put_tasks :
    (s : ℕ) (ts entries : List Task) → Single s entries → Single s (put_tasks ts entries)
unfolding put_tasks
Single-put_tasks s [] entries h = h
Single-put_tasks s (t ∷ ts) entries h =
    Single-put_tasks s ts (put_task t entries) (Single-put_task s t entries h)

abbrev is_open : Task → Bool
is_open t = not t.is_completed

first_of-put_tasks :
    (s : ℕ) (ts entries : List Task)
    → first_of s (put_tasks (filter is_open ts) entries) ≡ last_open s ts (first_of s entries)
unfolding put_tasks
first_of-put_tasks s [] entries = refl
first_of-put_tasks s (t ∷ ts) entries =
    Bool-both
      (λ done.
        first_of s
          (put_tasks (if not done then t ∷ filter is_open ts else filter is_open ts) entries)
        ≡ last_open s ts (
            if done
            then first_of s entries
            else if task_subject t == s
            then some t
            else first_of s entries))
      (first_of-put_tasks s ts entries)
      (first_of-put_tasks s ts (put_task t entries)
        ∙ ap (last_open s ts) (first_of-put_task s t entries))
      t.is_completed

-- Of each subject the check sees its last open task, and it sees no other task of the subject.
pub active_tasks-last_open :
    (s : ℕ) (tasks : List Task)
    → (first_of s (active_tasks tasks) ≡ last_open s tasks none)
      × (subject_count s (active_tasks tasks) ≡ number_of (last_open s tasks none))
unfolding active_tasks
active_tasks-last_open s tasks =
    let first = first_of-put_tasks s tasks [] in
    (first, Single-put_tasks s (filter is_open tasks) [] refl ∙ ap number_of first)

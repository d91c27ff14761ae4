-- ===== src/Sync/Inbox/Grouped.antt =====
-- The groups of a batch hold its events, each once, and an event goes with those of its key.
use amocrm_analytics.Base.{
  ℕ, zero, suc, ◌+◌, ◌≤◌, ◌≡◌, refl, ◌∙◌, Bool, true, false, ◌&&◌, not, List, [], ◌∷◌, ◌++◌, ◌==◌,
  all, filter, leb, arith, if◌then◌else◌, Bool-cases, inl, inr,
}
use amocrm_analytics.Sync.Inbox.{
  InboxEvent, Key, by_external, by_event, same_key, key_of, WebhookEventGroup, put_event,
  add_events, group_webhook_events, batch_of, insert_event, insert_all, take_events,
  raw_events_ready,
}

abbrev pub one_if : Bool → ℕ
one_if b = if b then 1 else 0

abbrev pub occurs : (x : ℕ) → List ℕ → ℕ
occurs x [] = 0
occurs x (y ∷ ys) = one_if (y == x) + occurs x ys

abbrev pub event_count : (id : ℕ) → List InboxEvent → ℕ
event_count x [] = 0
event_count x (e ∷ es) = one_if (e.id == x) + event_count x es

abbrev pub group_count : (id : ℕ) → List WebhookEventGroup → ℕ
group_count x [] = 0
group_count x (g ∷ gs) = occurs x g.ids + group_count x gs

occurs-append : (x : ℕ) (xs ys : List ℕ) → occurs x (xs ++ ys) ≡ occurs x xs + occurs x ys
occurs-append x [] ys = omega arith
occurs-append x (y ∷ xs) ys = omega (arith, occurs-append x xs ys)

put_event-group_count :
    (x : ℕ) (e : InboxEvent) (gs : List WebhookEventGroup)
    → group_count x (put_event e gs) ≡ group_count x gs + one_if (e.id == x)
put_event-group_count x e [] = omega arith
put_event-group_count x e (g ∷ gs) = elim (Bool-cases (same_key g.key (key_of e))) [
  | inl same ↦ rw same (omega (arith, occurs-append x g.ids (e.id ∷ [])))
  | inr other ↦ rw other (omega (arith, put_event-group_count x e gs))
]

add_events-group_count :
    (x : ℕ) (es : List InboxEvent) (gs : List WebhookEventGroup)
    → group_count x (add_events es gs) ≡ group_count x gs + event_count x es
add_events-group_count x [] gs = omega arith
add_events-group_count x (e ∷ es) gs =
    omega (arith, add_events-group_count x es (put_event e gs), put_event-group_count x e gs)

-- Each event is in the groups as often as in the batch.
pub group_webhook_events-group_count :
    (x : ℕ) (es : List InboxEvent) → group_count x (group_webhook_events es) ≡ event_count x es
unfolding group_webhook_events
group_webhook_events-group_count x es = omega (arith, add_events-group_count x es [])

insert_event-event_count :
    (x : ℕ) (e : InboxEvent) (fs : List InboxEvent)
    → event_count x (insert_event e fs) ≡ one_if (e.id == x) + event_count x fs
insert_event-event_count x e [] = refl
insert_event-event_count x e (f ∷ fs) = elim (Bool-cases (leb f.received_at e.received_at)) [
  | inl after ↦ rw after (omega (arith, insert_event-event_count x e fs))
  | inr before ↦ rw before refl
]

insert_all-event_count :
    (x : ℕ) (es sorted : List InboxEvent)
    → event_count x (insert_all es sorted) ≡ event_count x es + event_count x sorted
insert_all-event_count x [] sorted = omega arith
insert_all-event_count x (e ∷ es) sorted = omega (
  arith,
  insert_all-event_count x es (insert_event e sorted),
  insert_event-event_count x e sorted,
)

take_events-event_count :
    (x n : ℕ) (es : List InboxEvent) → event_count x (take_events n es) ≤ event_count x es
take_events-event_count x zero es = omega arith
take_events-event_count x (suc n) [] = omega arith
take_events-event_count x (suc n) (e ∷ es) = omega (arith, take_events-event_count x n es)

filter-event_count :
    (x : ℕ) (p : InboxEvent → Bool) (es : List InboxEvent)
    → event_count x (filter p es) ≤ event_count x es
filter-event_count x p [] = omega arith
filter-event_count x p (e ∷ es) = elim (Bool-cases (p e)) [
  | inl y ↦ rw y (omega (arith, filter-event_count x p es))
  | inr n ↦ rw n (omega (arith, filter-event_count x p es))
]

pub batch_of-event_count :
    (x now : ℕ) (inbox : List InboxEvent) → event_count x (batch_of now inbox) ≤ event_count x inbox
unfolding batch_of
batch_of-event_count x now inbox =
    let ready = filter (λ e. raw_events_ready now e) inbox in
    omega (
      arith,
      take_events-event_count x 100 (insert_all ready []),
      insert_all-event_count x ready [],
      filter-event_count x (λ e. raw_events_ready now e) inbox,
    )

-- No other group has the key.
abbrev pub lacks_key : Key → List WebhookEventGroup → Bool
lacks_key k gs = all (λ g. not (same_key g.key k)) gs

abbrev pub have_own_keys : List WebhookEventGroup → Bool
have_own_keys [] = true
have_own_keys (g ∷ gs) = lacks_key g.key gs && have_own_keys gs

same_key_sym : (j k : Key) → same_key j k ≡ same_key k j
same_key_sym (by_external e i) (by_external f j) = ground arith
same_key_sym (by_event e i) (by_event f j) = ground arith
same_key_sym (by_external e i) (by_event f j) = refl
same_key_sym (by_event e i) (by_external f j) = refl

put_event-lacks_key :
    (k : Key) (e : InboxEvent) (gs : List WebhookEventGroup)
    → lacks_key k gs ≡ true
    → same_key (key_of e) k ≡ false
    → lacks_key k (put_event e gs) ≡ true
put_event-lacks_key k e [] h n = ground arith
put_event-lacks_key k e (g ∷ gs) h n =
    let later = put_event-lacks_key k e gs (ground arith) n in ground arith

put_event-have_own_keys :
    (e : InboxEvent) (gs : List WebhookEventGroup)
    → have_own_keys gs ≡ true
    → have_own_keys (put_event e gs) ≡ true
put_event-have_own_keys e [] h = refl
put_event-have_own_keys e (g ∷ gs) h = elim (Bool-cases (same_key g.key (key_of e))) [
  | inl same ↦ rw same h
  | inr other ↦
      let lacks =
        put_event-lacks_key g.key e gs (ground arith) (same_key_sym (key_of e) g.key ∙ other) in
      let later = put_event-have_own_keys e gs (ground arith) in rw other (ground arith)
]

add_events-have_own_keys :
    (es : List InboxEvent) (gs : List WebhookEventGroup)
    → have_own_keys gs ≡ true
    → have_own_keys (add_events es gs) ≡ true
add_events-have_own_keys [] gs h = h
add_events-have_own_keys (e ∷ es) gs h =
    add_events-have_own_keys es (put_event e gs) (put_event-have_own_keys e gs h)

-- Among the groups and among the events of a key.
abbrev pub keyed_group_count : Key → (id : ℕ) → List WebhookEventGroup → ℕ
keyed_group_count k x [] = 0
keyed_group_count k x (g ∷ gs) =
    (if same_key g.key k then occurs x g.ids else 0) + keyed_group_count k x gs

abbrev pub keyed_event_count : Key → (id : ℕ) → List InboxEvent → ℕ
keyed_event_count k x [] = 0
keyed_event_count k x (e ∷ es) =
    one_if (same_key (key_of e) k && e.id == x) + keyed_event_count k x es

same_key_trans : (a b k : Key) → same_key a b ≡ true → same_key a k ≡ same_key b k
same_key_trans (by_external a i) (by_external b j) (by_external c k) h = ground arith
same_key_trans (by_external a i) (by_external b j) (by_event c k) h = refl
same_key_trans (by_event a i) (by_event b j) (by_event c k) h = ground arith
same_key_trans (by_event a i) (by_event b j) (by_external c k) h = refl
same_key_trans (by_external a i) (by_event b j) k h = cc
same_key_trans (by_event a i) (by_external b j) k h = cc

put_event-keyed_count :
    (k : Key) (x : ℕ) (e : InboxEvent) (gs : List WebhookEventGroup)
    → keyed_group_count k x (put_event e gs)
      ≡ keyed_group_count k x gs + one_if (same_key (key_of e) k && e.id == x)
put_event-keyed_count k x e [] = ground arith
put_event-keyed_count k x e (g ∷ gs) = elim (Bool-cases (same_key g.key (key_of e))) [
  | inl same ↦
      let keys = same_key_trans g.key (key_of e) k same in
      let longer = occurs-append x g.ids (e.id ∷ []) in rw same (ground arith)
  | inr other ↦ rw other (omega (arith, put_event-keyed_count k x e gs))
]

add_events-keyed_count :
    (k : Key) (x : ℕ) (es : List InboxEvent) (gs : List WebhookEventGroup)
    → keyed_group_count k x (add_events es gs) ≡ keyed_group_count k x gs + keyed_event_count k x es
add_events-keyed_count k x [] gs = omega arith
add_events-keyed_count k x (e ∷ es) gs =
    omega (arith, add_events-keyed_count k x es (put_event e gs), put_event-keyed_count k x e gs)

-- The groups of a batch: no two have the same key, and the group of a key has exactly the events of the key,
-- each as often as the batch has it.
pub group_webhook_events-keyed_count :
    (es : List InboxEvent) (k : Key) (x : ℕ)
    → (have_own_keys (group_webhook_events es) ≡ true)
      × (keyed_group_count k x (group_webhook_events es) ≡ keyed_event_count k x es)
unfolding group_webhook_events
group_webhook_events-keyed_count es k x =
    (add_events-have_own_keys es [] refl, omega (arith, add_events-keyed_count k x es []))

-- ===== src/Sync/Inbox/Settled.antt =====
-- What a job makes of the rows: each event of the batch is tried once, and none is lost.
use amocrm_analytics.Base.{
  ℕ, ◌+◌, ◌≤◌, ◌≡◌, refl, Bool, true, false, some, List, [], ◌∷◌, leb, ◌==◌, ◌&&◌, not, all,
  IsAmong, at_head, in_tail, arith, Bool-cases, inl, inr,
}
use amocrm_analytics.Sync.Inbox.{
  InboxEvent, EventStatus, WebhookEventGroup, group_webhook_events, has_id, batch_of, awaits,
  is_given, raw_events_ready, mark_raw_amo_event, GroupOutcome, status_of, process_groups,
  update_all, run_webhook_job,
}
use amocrm_analytics.Sync.Inbox.Grouped.{
  occurs, event_count, group_count, group_webhook_events-group_count, batch_of-event_count,
}

-- After the job: a row that is not of the batch is the same. One of the batch is in a group, was tried once
-- more when the request of that group ended, and is then over, or not: it then is ready from the minute on
-- that follows, and not before. It is over just if it has no id or the request returns.
pub data After (outcome : WebhookEventGroup → GroupOutcome) (groups : List WebhookEventGroup)
    (batch : List InboxEvent) (e : InboxEvent) : InboxEvent → Type 0 where
  unchanged : event_count e.id batch ≡ 0 → After outcome groups batch e e
  settled :
      {e' : InboxEvent} (g : WebhookEventGroup)
      → IsAmong g groups
      → has_id g.ids e.id ≡ true
      → (is_given g.external_id && not (outcome g).returns) ≡ false
      → event_count e.id batch ≡ 1
      → e'.id ≡ e.id
      → e'.attempts ≡ e.attempts + 1
      → awaits e'.status ≡ false
      → e'.applied_at ≡ some (outcome g).at
      → After outcome groups batch e e'
  postponed :
      {e' : InboxEvent} (g : WebhookEventGroup)
      → IsAmong g groups
      → has_id g.ids e.id ≡ true
      → (is_given g.external_id && not (outcome g).returns) ≡ true
      → event_count e.id batch ≡ 1
      → e'.id ≡ e.id
      → e'.attempts ≡ e.attempts + 1
      → raw_events_ready ((outcome g).at + 59_999) e' ≡ false
      → raw_events_ready ((outcome g).at + 60_000) e' ≡ true
      → After outcome groups batch e e'

has_id-occurs : (ids : List ℕ) (x : ℕ) → has_id ids x ≡ true → 1 ≤ occurs x ids
has_id-occurs [] x h = cc
has_id-occurs (i ∷ ids) x h = elim (Bool-cases (i == x)) [
  | inl y ↦ ground arith
  | inr n ↦ let later = has_id-occurs ids x (ground arith) in ground arith
]

lacks_id-occurs : (ids : List ℕ) (x : ℕ) → has_id ids x ≡ false → occurs x ids ≡ 0
lacks_id-occurs [] x h = refl
lacks_id-occurs (i ∷ ids) x h = let later = lacks_id-occurs ids x (ground arith) in ground arith

-- The rows before and after, one by one.
abbrev pub Rows :
    (WebhookEventGroup → GroupOutcome)
    → List WebhookEventGroup
    → (batch before after : List InboxEvent) → Type 0
Rows outcome groups batch [] [] = Unit {0}
Rows outcome groups batch (e ∷ es) (e' ∷ es') =
    After outcome groups batch e e' × Rows outcome groups batch es es'
Rows outcome groups batch _ _ = ⊥

mark_raw_amo_event-id :
    (ids : List ℕ) (status : EventStatus) (at : ℕ) (e : InboxEvent)
    → (mark_raw_amo_event ids status at e).id ≡ e.id
unfolding mark_raw_amo_event
mark_raw_amo_event-id ids status at e = ground arith

mark_raw_amo_event-other :
    (ids : List ℕ) (status : EventStatus) (at : ℕ) (e : InboxEvent)
    → has_id ids e.id ≡ false
    → mark_raw_amo_event ids status at e ≡ e
unfolding mark_raw_amo_event
mark_raw_amo_event-other ids status at e n = rw n refl

mark_raw_amo_event-After :
    (outcome : WebhookEventGroup → GroupOutcome) (groups : List WebhookEventGroup)
    (batch : List InboxEvent) (g : WebhookEventGroup) (e : InboxEvent)
    → IsAmong g groups
    → event_count e.id batch ≡ 1
    → has_id g.ids e.id ≡ true
    → After outcome groups batch e
        (mark_raw_amo_event g.ids (status_of g (outcome g).returns) (outcome g).at e)
unfolding mark_raw_amo_event raw_events_ready
mark_raw_amo_event-After outcome groups batch g e among one y =
    elim (Bool-cases (is_given g.external_id)) [
      | inr n ↦ rw (y, n) (settled g among y (rw n refl) one refl refl refl refl)
      | inl given ↦ elim (Bool-cases (outcome g).returns) [
        | inl r ↦ rw (y, given, r) (settled g among y (rw (given, r) refl) one refl refl refl refl)
        | inr f ↦
            rw (y, given, f)
              (postponed g among y (rw (given, f) refl) one refl refl (ground arith) (ground arith))
      ]
    ]

module _ (outcome : WebhookEventGroup → GroupOutcome) where
  process_groups-unchanged :
      (gs : List WebhookEventGroup) (e : InboxEvent)
      → group_count e.id gs ≡ 0
      → process_groups outcome gs e ≡ e
  unfolding process_groups mark_raw_amo_event
  process_groups-unchanged [] e h = refl
  process_groups-unchanged (g ∷ gs) e h = elim (Bool-cases (has_id g.ids e.id)) [
    | inl y ↦ let here = has_id-occurs g.ids e.id y in absurd (omega arith)
    | inr n ↦ rw n (process_groups-unchanged gs e (omega arith))
  ]

  process_groups-After :
      (groups : List WebhookEventGroup) (batch : List InboxEvent) (gs : List WebhookEventGroup)
      (e : InboxEvent)
      → ((g : WebhookEventGroup) → IsAmong g gs → IsAmong g groups)
      → event_count e.id batch ≡ 1
      → group_count e.id gs ≡ 1
      → After outcome groups batch e (process_groups outcome gs e)
  unfolding process_groups
  process_groups-After groups batch [] e among one h = absurd (omega arith)
  process_groups-After groups batch (g ∷ gs) e among one h = elim (Bool-cases (has_id g.ids e.id)) [
    | inl y ↦
        let here = has_id-occurs g.ids e.id y in
        let marked = mark_raw_amo_event g.ids (status_of g (outcome g).returns) (outcome g).at e in
        let same : marked.id ≡ e.id =
          mark_raw_amo_event-id g.ids (status_of g (outcome g).returns) (outcome g).at e in
        let gone : group_count marked.id gs ≡ 0 = rw same (omega arith) in
        rw (process_groups-unchanged gs marked gone)
          (mark_raw_amo_event-After outcome groups batch g e (among g at_head) one y)
    | inr n ↦
        let none_here = lacks_id-occurs g.ids e.id n in
        let same : mark_raw_amo_event g.ids (status_of g (outcome g).returns) (outcome g).at e ≡ e =
          mark_raw_amo_event-other g.ids (status_of g (outcome g).returns) (outcome g).at e n in
        rw same
          (process_groups-After groups batch gs e (λ k m. among k (in_tail m)) one (omega arith))
  ]

  update_all-Rows :
      (batch rest : List InboxEvent)
      → all (λ e. leb (event_count e.id batch) 1) rest ≡ true
      → Rows outcome
          (group_webhook_events batch)
          batch
          rest
          (update_all outcome (group_webhook_events batch) rest)
  update_all-Rows batch [] h = tt
  update_all-Rows batch (e ∷ es) h =
      let groups = group_webhook_events-group_count e.id batch in
      (
        elim (Bool-cases (event_count e.id batch == 0)) [
          | inl y ↦
              let zero_count : event_count e.id batch ≡ 0 = ground arith in
              rw (process_groups-unchanged (group_webhook_events batch) e (omega arith))
                (unchanged zero_count)
          | inr n ↦
              process_groups-After (group_webhook_events batch) batch (group_webhook_events batch) e
                (λ g m. m) (ground arith) (ground arith)
        ],
        update_all-Rows batch es (ground arith),
      )

-- The rows have different ids.
abbrev pub have_own_ids : (inbox rest : List InboxEvent) → Bool
have_own_ids inbox rest = all (λ e. event_count e.id inbox == 1) rest

at_most_once :
    (now : ℕ) (inbox rest : List InboxEvent)
    → have_own_ids inbox rest ≡ true
    → all (λ e. leb (event_count e.id (batch_of now inbox)) 1) rest ≡ true
at_most_once now inbox [] h = refl
at_most_once now inbox (e ∷ es) h =
    let fewer = batch_of-event_count e.id now inbox in
    let later = at_most_once now inbox es (ground arith) in ground arith

-- Whatever the requests of the groups do, a job tries each event of its batch once and touches no other row;
-- an event whose group has an id and fails is ready again just a minute after its group failed, and any
-- other that it tried is over, applied when its group ended; if the rows have different ids.
pub run_webhook_job-Rows :
    (outcome : WebhookEventGroup → GroupOutcome) (started_at : ℕ) (inbox : List InboxEvent)
    → have_own_ids inbox inbox ≡ true
    → Rows outcome
        (group_webhook_events (batch_of started_at inbox))
        (batch_of started_at inbox)
        inbox
        (run_webhook_job outcome started_at inbox)
unfolding run_webhook_job
run_webhook_job-Rows outcome started_at inbox h =
    update_all-Rows outcome (batch_of started_at inbox) inbox
      (at_most_once started_at inbox inbox h)

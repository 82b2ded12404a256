-- ===== src/Notifier/Once.antt =====
-- services/notifier/app.py: an event is told of once.
use delivery_time_prediction.Prelude.{
  suc, ◌≤◌, String, ◌≡◌, refl, true, false, some, List, [], ◌∷◌, ◌++◌, ◌==◌, eq_refl, eq_iff, arith,
  any, count, map, if◌then◌else◌, Bool-cases, Option-cases, inl, inr,
}
use delivery_time_prediction.Notifier.{
  Notification, Payload, NotifierService, notification_for, handle_event,
}

-- The events that the notifications tell of.
abbrev pub told : NotifierService → List String
told s = map (λ n. n.event_id) s.notifications

-- What has been told of is what has been processed, each event once.
unfoldable pub IsOnce : NotifierService → Type 0
IsOnce s =
    (i : String)
    → (count i (told s) ≡ count i s.processed_events) × (count i s.processed_events ≤ 1)

count-any : (i : String) (is : List String) → any (λ j. j == i) is ≡ false → count i is ≡ 0
count-any i [] h = refl
count-any i (j ∷ is) h = ground (arith, count-any i is)

count-told_append :
    (i : String) (n : Notification) (ns : List Notification)
    → count i (map (λ m. m.event_id) (ns ++ n ∷ [])) ≡ (
        if n.event_id == i
        then suc (count i (map (λ m. m.event_id) ns))
        else count i (map (λ m. m.event_id) ns))
count-told_append i n [] = ground arith
count-told_append i n (m ∷ ns) = ground (arith, count-told_append i n ns)

module _ {E : Type 0} (str : E → String) (event_type event_id : String) (payload : Payload E) where
  notification_for-event_id :
      (n : Notification)
      → notification_for str event_type event_id payload ≡ some n
      → n.event_id ≡ event_id
  unfolding notification_for
  notification_for-event_id n h = ground arith

  -- If every event has been processed at most once, and told of as often as it was processed, then
  -- that is still so after any further event.
  pub handle_event-IsOnce :
      (s : NotifierService) → IsOnce s → IsOnce (handle_event str event_type event_id payload s).1
  unfolding handle_event IsOnce
  handle_event-IsOnce s h i = elim (Bool-cases (any (λ j. j == event_id) s.processed_events)) [
    | inl seen ↦ rw seen (h i)
    | inr new ↦ elim (Option-cases (notification_for str event_type event_id payload)) [
      | inl q ↦ rw (new, q) (h i)
      | inr (n, q) ↦
          rw (new, q)
            (ground (
              arith,
              h i,
              count-told_append i n s.notifications,
              notification_for-event_id n q,
              eq_iff event_id i,
              count-any event_id s.processed_events new,
            ))
    ]
  ]

  -- An event that sent a notification sends none again, whatever type and payload it comes with.
  pub handle_event_again :
      (s : NotifierService) (other_type : String) (other : Payload E)
      → (handle_event str event_type event_id payload s).0 ≡ true
      → handle_event str other_type event_id other
          (handle_event str event_type event_id payload s).1
        ≡ (false, (handle_event str event_type event_id payload s).1)
  unfolding handle_event
  handle_event_again s other_type other h = ground (arith, eq_refl event_id)

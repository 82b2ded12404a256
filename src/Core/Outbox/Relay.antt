-- ===== src/Core/Outbox/Relay.antt =====
-- core/outbox.py: what `OutboxRelay.relay_batch` does to the rows, whatever the broker does.
use Prim.Native.Nat.{min}
use delivery_time_prediction.Prelude.{
  ℕ, zero, suc, ◌+◌, ◌*◌, ◌-◌, ◌≤◌, ◌<◌, ◌≡◌, ◌≢◌, refl, Bool, true, false, none, List, [], ◌∷◌,
  All, arith, if◌then◌else◌, ◌⊎◌, inl, inr,
}
use delivery_time_prediction.Core.Outbox.{
  OutboxStatus, pending, published, failed, OutboxEvent, StreamBroker, relay_entry, relay_rows,
  relay_batch, max_retries, after_failure, after_success,
}

-- A row that is PENDING has attempts left; one that is FAILED has none; one that is PUBLISHED has
-- its time.
unfoldable pub IsSound : OutboxEvent → Type 0
IsSound e = elim e.status [
  | pending ↦ e.retry_count < max_retries
  | failed ↦ max_retries ≤ e.retry_count
  | published ↦ e.published_at ≢ none
]

-- How many rows are PENDING, and PUBLISHED.
pub count_pending : List OutboxEvent → ℕ
count_pending [] = 0
count_pending (e ∷ rows) = elim e.status [
  | pending ↦ suc (count_pending rows)
  | _ ↦ count_pending rows
]

pub count_published : List OutboxEvent → ℕ
count_published [] = 0
count_published (e ∷ rows) = elim e.status [
  | published ↦ suc (count_published rows)
  | _ ↦ count_published rows
]

-- The attempts that are left over all the PENDING rows.
unfoldable pub attempts_left : List OutboxEvent → ℕ
attempts_left [] = 0
attempts_left (e ∷ rows) = elim e.status [
  | pending ↦ max_retries - e.retry_count + attempts_left rows
  | _ ↦ attempts_left rows
]

OutboxStatus-cases : (s : OutboxStatus) → (s ≡ pending) ⊎ (s ≡ published) ⊎ (s ≡ failed)
OutboxStatus-cases pending = inl refl
OutboxStatus-cases published = inr (inl refl)
OutboxStatus-cases failed = inr (inr refl)

count_pending_le :
    (rows : List OutboxEvent) → All IsSound rows → count_pending rows ≤ attempts_left rows
unfolding count_pending attempts_left IsSound
count_pending_le [] h = omega arith
count_pending_le (e ∷ rows) h = ground (arith, count_pending_le rows h.1, h.0)

attempts_left_le : (rows : List OutboxEvent) → attempts_left rows ≤ max_retries * count_pending rows
unfolding count_pending attempts_left
attempts_left_le [] = omega arith
attempts_left_le (e ∷ rows) = ground (arith, attempts_left_le rows)

-- What a batch of size `n` does to the rows.
abbrev pub Progress : {W : Type 0} → ℕ → Bool → List OutboxEvent → ℕ × List OutboxEvent × W → Type 0
Progress n true rows (k, rows', w) =
    All IsSound rows'
    × (count_published rows' ≡ k + count_published rows)
    × (attempts_left rows' + min n (count_pending rows) ≤ attempts_left rows)
Progress n false rows (k, rows', w) = rows' ≡ rows

module _ {W : Type 0} (broker : StreamBroker W) where
  -- The two ways in which an attempt ends.
  relay_entry-cases :
      (e : OutboxEvent) (w : W)
      → ((relay_entry broker e w).0 ≡ true)
          × ((relay_entry broker e w).1 ≡ after_success (broker.clock (relay_entry broker e w).2) e)
        ⊎ ((relay_entry broker e w).0 ≡ false) × ((relay_entry broker e w).1 ≡ after_failure e)
  unfolding relay_entry
  relay_entry-cases e w = ground arith

  relay_rows-pending :
      (n : ℕ) (e : OutboxEvent) (rows : List OutboxEvent) (w : W)
      → e.status ≡ pending
      → relay_rows broker (suc n) (e ∷ rows) w ≡ (
          let (sent, e', w') = relay_entry broker e w in
          let (k, rows', w'') = relay_rows broker n rows w' in
          (if sent then suc k else k, e' ∷ rows', w''))
  unfolding relay_rows
  relay_rows-pending n e rows w p = ground arith

  relay_rows-skip :
      (n : ℕ) (e : OutboxEvent) (rows : List OutboxEvent) (w : W)
      → e.status ≢ pending
      → relay_rows broker (suc n) (e ∷ rows) w
        ≡ (let (k, rows', w') = relay_rows broker (suc n) rows w in (k, e ∷ rows', w'))
  unfolding relay_rows
  relay_rows-skip n e rows w p = ground arith

  relay_entry-IsSound :
      (e : OutboxEvent) (w : W)
      → e.status ≡ pending
      → IsSound e
      → IsSound (relay_entry broker e w).1
  unfolding IsSound
  relay_entry-IsSound e w p h = elim (relay_entry-cases e w) [
    | inl (_, q) ↦ rw q (λ c. cc)
    | inr (_, q) ↦ rw q (ground arith)
  ]

  -- Whatever the broker does, a batch keeps the rows sound.
  relay_rows-IsSound :
      (n : ℕ) (rows : List OutboxEvent) (w : W)
      → All IsSound rows
      → All IsSound (relay_rows broker n rows w).1
  unfolding relay_rows
  relay_rows-IsSound zero rows w h = h
  relay_rows-IsSound (suc n) [] w h = tt
  relay_rows-IsSound (suc n) (e ∷ rows) w h = elim (OutboxStatus-cases e.status) [
    | inl p ↦
        rw (relay_rows-pending n e rows w p)
          (relay_entry-IsSound e w p h.0, relay_rows-IsSound n rows _ h.1)
    | inr (inl p) ↦ rw (relay_rows-skip n e rows w cc) (h.0, relay_rows-IsSound (suc n) rows w h.1)
    | inr (inr p) ↦ rw (relay_rows-skip n e rows w cc) (h.0, relay_rows-IsSound (suc n) rows w h.1)
  ]

  relay_rows-published :
      (n : ℕ) (rows : List OutboxEvent) (w : W)
      → count_published (relay_rows broker n rows w).1
        ≡ (relay_rows broker n rows w).0 + count_published rows
  unfolding relay_rows count_published
  relay_rows-published zero rows w = omega arith
  relay_rows-published (suc n) [] w = omega arith
  relay_rows-published (suc n) (e ∷ rows) w = ground (
    arith,
    relay_entry-cases e w,
    relay_rows-published n rows (relay_entry broker e w).2,
    relay_rows-published (suc n) rows w,
  )

  relay_rows-attempts :
      (n : ℕ) (rows : List OutboxEvent) (w : W)
      → All IsSound rows
      → attempts_left (relay_rows broker n rows w).1 + min n (count_pending rows)
        ≤ attempts_left rows
  unfolding relay_rows attempts_left count_pending IsSound
  relay_rows-attempts zero rows w h = ground arith
  relay_rows-attempts (suc n) [] w h = ground arith
  relay_rows-attempts (suc n) (e ∷ rows) w h = ground (
    arith,
    relay_entry-cases e w,
    relay_rows-attempts n rows (relay_entry broker e w).2 h.1,
    relay_rows-attempts (suc n) rows w h.1,
    h.0,
  )

  -- A batch that is committed keeps sound rows sound, returns by how many the PUBLISHED rows have
  -- become more, and takes at least one of the attempts that are left for each PENDING row that fits
  -- in the batch, whatever the broker does. A batch whose commit fails leaves the rows as they were.
  pub relay_batch-Progress :
      (n : ℕ) (commits : Bool) (rows : List OutboxEvent) (w : W)
      → All IsSound rows
      → Progress n commits rows (relay_batch broker n commits rows w)
  unfolding relay_batch
  relay_batch-Progress n true rows w h =
      (relay_rows-IsSound n rows w h, relay_rows-published n rows w, relay_rows-attempts n rows w h)
  relay_batch-Progress n false rows w h = refl

  -- The background thread: batch after batch.
  pub relay_batches : ℕ → ℕ → List OutboxEvent → W → List OutboxEvent × W
  relay_batches n zero rows w = (rows, w)
  relay_batches n (suc m) rows w =
      let (k, rows', w') = relay_batch broker n true rows w in relay_batches n m rows' w'

  -- Whatever the broker does, as many committed batches of a positive size as there are attempts
  -- left, or more, leave no row PENDING: every event is then PUBLISHED or FAILED.
  pub relay_batches_drain :
      (n m : ℕ) (rows : List OutboxEvent) (w : W)
      → All IsSound rows
      → attempts_left rows ≤ m
      → count_pending (relay_batches (suc n) m rows w).0 ≡ 0
  unfolding relay_batches
  relay_batches_drain n zero rows w h le = omega (arith, count_pending_le rows h)
  relay_batches_drain n (suc m) rows w h le =
      let (sound, _, less) = relay_batch-Progress (suc n) true rows w h in
      relay_batches_drain n m _ _ sound (omega (arith, attempts_left_le rows))

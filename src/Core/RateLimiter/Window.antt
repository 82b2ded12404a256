-- ===== src/Core/RateLimiter/Window.antt =====
-- core/rate_limiter.py: no window admits more than the limit, and keys do not interfere.
use mathlib.Core.List.{append-nil, append_assoc}
use delivery_time_prediction.Prelude.{
  ℕ, ◌+◌, ◌*◌, ◌≤◌, ◌<◌, String, ◌≡◌, refl, sym, ap, subst, ◌∙◌, Bool, true, false, ◌&&◌, none,
  some, List, [], ◌∷◌, ◌++◌, arith, ◌==◌, eq_refl, eq_iff, length, length-append, select,
  Bool-cases, inl, inr, if◌then◌else◌, ltb, leb,
}
use delivery_time_prediction.Prelude.Dict.{lookup, insert, lookup-insert}
use delivery_time_prediction.Core.RateLimiter.{
  SlidingWindowRateLimiter, timestamps, set_timestamps, window, is_recent, cleanup, check,
}

select-append :
    {A : Type 0} (p : A → Bool) (xs ys : List A) → select p (xs ++ ys) ≡ select p xs ++ select p ys
select-append p [] ys = refl
select-append p (x ∷ xs) ys = ground (arith, select-append p xs ys)

-- A later window keeps nothing that an earlier one has dropped.
select-recent :
    (w last now : ℕ) (ts : List ℕ)
    → last ≤ now
    → select (λ t. ltb now (t + w)) (select (λ t. ltb last (t + w)) ts)
      ≡ select (λ t. ltb now (t + w)) ts
select-recent w last now [] h = refl
select-recent w last now (t ∷ ts) h = ground (arith, select-recent w last now ts h)

-- The times in a window of `w` ticks that begins behind `a`.
abbrev pub in_window : ℕ → ℕ → ℕ → Bool
in_window w a t = ltb a t && leb t (a + w)

count_le :
    (w a now : ℕ) (ts : List ℕ)
    → now ≤ a + w
    → a < now
    → length (select (in_window w a) ts) ≤ length (select (λ t. ltb now (t + w)) ts)
count_le w a now [] h k = omega arith
count_le w a now (t ∷ ts) h k = ground (arith, count_le w a now ts h k)

module _ (second : ℕ) where
  -- The times of the calls under the key `k` that are admitted.
  unfoldable pub admitted : String → List (String × ℕ) → SlidingWindowRateLimiter → List ℕ
  admitted k [] l = []
  admitted k ((j, now) ∷ calls) l =
      let (r, l') = check second j now l in
      let rest = admitted k calls l' in if j == k && r.allowed then now ∷ rest else rest

  -- The limiter knows the times `admitted_times` of the key `k` as far as they are recent, and they
  -- keep the limit in every window.
  record OnTrack (k : String) (last : ℕ) (admitted_times : List ℕ) (l : SlidingWindowRateLimiter)
      : Type 0 where
    known : timestamps k l ≡ select (is_recent second l last) admitted_times
    bounded :
        (a : ℕ) → length (select (in_window (window second l) a) admitted_times) ≤ l.max_requests

  set_timestamps-same :
      (k : String) (ts : List ℕ) (l : SlidingWindowRateLimiter)
      → timestamps k (set_timestamps k ts l) ≡ ts
  set_timestamps-same k ts l =
      let found : lookup k (insert k ts l.requests) ≡ some ts =
        lookup-insert k k ts l.requests ∙ rw eq_refl refl in
      ap (λ o. elim o [ none ↦ [] | some ts ↦ ts ]) found

  set_timestamps-other :
      (j k : String) (ts : List ℕ) (l : SlidingWindowRateLimiter)
      → (j == k) ≡ false
      → timestamps k (set_timestamps j ts l) ≡ timestamps k l
  set_timestamps-other j k ts l e =
      let found : lookup k (insert j ts l.requests) ≡ lookup k l.requests =
        lookup-insert j k ts l.requests ∙ rw e refl in
      ap (λ o. elim o [ none ↦ [] | some ts ↦ ts ]) found

  abbrev is_full : String → ℕ → SlidingWindowRateLimiter → Bool
  is_full k now l = leb l.max_requests (length (select (is_recent second l now) (timestamps k l)))

  abbrev kept : String → ℕ → SlidingWindowRateLimiter → List ℕ
  kept k now l = select (is_recent second l now) (timestamps k l)

  -- The limiter after a check, up to what is recorded under the key.
  check-full :
      (k : String) (now : ℕ) (l : SlidingWindowRateLimiter)
      → is_full k now l ≡ true
      → ((check second k now l).0.allowed ≡ false)
        × ((check second k now l).1 ≡ set_timestamps k (kept k now l) l)
  unfolding check cleanup
  check-full k now l e =
      let same = set_timestamps-same k (kept k now l) l in rw (check, same, e) (refl, refl)

  check-free :
      (k : String) (now : ℕ) (l : SlidingWindowRateLimiter)
      → is_full k now l ≡ false
      → ((check second k now l).0.allowed ≡ true)
        × ((check second k now l).1
            ≡ set_timestamps k (kept k now l ++ now ∷ []) (set_timestamps k (kept k now l) l))
  unfolding check cleanup
  check-free k now l e =
      let same = set_timestamps-same k (kept k now l) l in rw (check, same, e) (refl, refl)

  module _ (k : String) (last now : ℕ) (H : List ℕ) (l : SlidingWindowRateLimiter) where
    kept-known : OnTrack k last H l → last ≤ now → kept k now l ≡ select (is_recent second l now) H
    kept-known t h = rw t.known (select-recent (window second l) last now H h)

    OnTrack-refused :
        OnTrack k last H l → last ≤ now → OnTrack k now H (set_timestamps k (kept k now l) l)
    OnTrack-refused t h = record {
      known = set_timestamps-same k (kept k now l) l ∙ kept-known t h;
      bounded = t.bounded;
    }

    one_more :
        OnTrack k last H l
        → last ≤ now
        → is_full k now l ≡ false
        → (a : ℕ) → length (select (in_window (window second l) a) (H ++ now ∷ [])) ≤ l.max_requests
    one_more t h free a =
        let room : length (select (is_recent second l now) H) < l.max_requests =
          let f = rw (kept-known t h) at free in ground (arith, f) in
        rw (select-append, length-append)
          (ground (arith, room, t.bounded a, count_le (window second l) a now H))

    OnTrack-admitted :
        0 < window second l
        → OnTrack k last H l
        → last ≤ now
        → is_full k now l ≡ false
        → OnTrack k now
            (H ++ now ∷ [])
            (set_timestamps k (kept k now l ++ now ∷ []) (set_timestamps k (kept k now l) l))
    OnTrack-admitted pos t h free =
        let now_recent : is_recent second l now now ≡ true = ground (arith, pos) in
        let only : select (is_recent second l now) (now ∷ []) ≡ now ∷ [] = rw now_recent refl in
        record {
          known =
              set_timestamps-same k _ (set_timestamps k (kept k now l) l)
              ∙ (ap (λ ts. ts ++ now ∷ []) (kept-known t h)
                  ∙ sym (
                      select-append (is_recent second l now) H (now ∷ [])
                      ∙ ap (λ ts. select (is_recent second l now) H ++ ts) only));
          bounded = one_more t h free;
        }

  -- The calls come in the order of their times.
  unfoldable pub InOrder : ℕ → List (String × ℕ) → Type 0
  InOrder last [] = Unit
  InOrder last ((j, now) ∷ calls) = (last ≤ now) × InOrder now calls

  InOrder-earlier :
      (a b : ℕ) (calls : List (String × ℕ)) → a ≤ b → InOrder b calls → InOrder a calls
  unfolding InOrder
  InOrder-earlier a b [] h o = tt
  InOrder-earlier a b ((j, now) ∷ calls) h o = (omega (arith, h, o.0), o.1)

  OnTrack-other :
      (j k : String) (last now : ℕ) (H : List ℕ) (l : SlidingWindowRateLimiter)
      → (j == k) ≡ false
      → OnTrack k last H l
      → OnTrack k last H (check second j now l).1
  OnTrack-other j k last now H l e t = elim (Bool-cases (is_full j now l)) [
    | inl full ↦
        rw (check-full j now l full).1
          (record { known = set_timestamps-other j k _ l e ∙ t.known; bounded = t.bounded })
    | inr free ↦ rw (check-free j now l free).1 (record {
      known =
          set_timestamps-other j k _ (set_timestamps j (kept j now l) l) e
          ∙ (set_timestamps-other j k _ l e ∙ t.known);
      bounded = t.bounded;
    })
  ]

  check-fields :
      (j : String) (now : ℕ) (l : SlidingWindowRateLimiter)
      → ((check second j now l).1.max_requests ≡ l.max_requests)
        × ((check second j now l).1.window_seconds ≡ l.window_seconds)
  check-fields j now l = elim (Bool-cases (is_full j now l)) [
    | inl full ↦ rw (check-full j now l full).1 (refl, refl)
    | inr free ↦ rw (check-free j now l free).1 (refl, refl)
  ]

  OnTrack-admitted_all :
      (k : String) (calls : List (String × ℕ)) (last : ℕ) (H : List ℕ)
      (l : SlidingWindowRateLimiter)
      → 0 < window second l
      → OnTrack k last H l
      → InOrder last calls
      → (a : ℕ)
      → length (select (in_window (window second l) a) (H ++ admitted k calls l)) ≤ l.max_requests
  unfolding admitted InOrder
  OnTrack-admitted_all k [] last H l pos t o a = rw append-nil (t.bounded a)
  OnTrack-admitted_all k ((j, now) ∷ calls) last H l pos t o a = elim (Bool-cases (j == k)) [
    | inr e ↦
        let (limit, seconds) = check-fields j now l in
        let l' = (check second j now l).1 in
        let same : window second l' ≡ window second l = ap (λ s. s * second) seconds in
        rw e (
          rw (limit, same) at
            (OnTrack-admitted_all k calls last H l' (subst (λ n. 0 < n) (sym same) pos)
              (OnTrack-other j k last now H l e t) (InOrder-earlier last now calls o.0 o.1) a))
    | inl e ↦
        let same : j ≡ k = (eq_iff j k).0 e in
        elim (Bool-cases (is_full k now l)) [
          | inl full ↦
              let (refused, next) = check-full k now l full in
              rw (same, eq_refl, refused, next)
                (OnTrack-admitted_all k calls now H _ pos (OnTrack-refused k last now H l t o.0) o.1
                  a)
          | inr free ↦
              let (allowed, next) = check-free k now l free in
              rw (same, eq_refl, allowed, next)
                (rw append_assoc at (
                  OnTrack-admitted_all k calls now (H ++ now ∷ []) _ pos
                    (OnTrack-admitted k last now H l pos t o.0 free) o.1 a))
        ]
  ]

-- The calls of all callers come in the order of their times, and the limiter knows of no earlier call
-- under the key `k`. Then in every window, wherever it begins, at most `max_requests` of the calls
-- under `k` are admitted, if the window is not empty.
pub check_limit :
    (second : ℕ) (k : String) (calls : List (String × ℕ)) (l : SlidingWindowRateLimiter)
    → 0 < window second l
    → timestamps k l ≡ []
    → InOrder second 0 calls
    → (a : ℕ)
    → length (select (in_window (window second l) a) (admitted second k calls l)) ≤ l.max_requests
check_limit second k calls l pos none_yet o a =
    OnTrack-admitted_all second k calls 0 [] l pos
      (record { known = none_yet; bounded = λ b. omega arith }) o a

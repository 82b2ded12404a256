-- ===== src/Core/Idempotency.antt =====
-- core/idempotency.py: the cache of responses by idempotency key, and the derivation of keys.
use Prim.Native.String.{◌++◌ as str_append}
use delivery_time_prediction.Prelude.Dict.{Dict, lookup, insert, lookup-insert}
use delivery_time_prediction.Prelude.{
  ℕ, String, ◌≡◌, refl, Bool, true, false, Option, none, some, List, [], ◌∷◌, ◌==◌, if◌then◌else◌,
}

-- One value of `_store`; `cached_at` is the reading of the clock.
pub record Entry (R : Type 0) : Type 0 where
  pub response : R
  pub status_code : ℕ
  pub cached_at : ℕ

pub record IdempotencyStore (R : Type 0) : Type 0 where
  store : Dict (Entry R)

module _ {R : Type 0} where
  pub empty : IdempotencyStore R
  empty = record { store = [] }

  -- An entry is a dict with three keys, so it is true in a test whenever it is there.
  pub get : IdempotencyStore R → String → Option (Entry R)
  get s key = lookup key s.store

  pub set : IdempotencyStore R → String → R → ℕ → ℕ → IdempotencyStore R
  set s key response status_code now = record {
    store =
        insert key (record { response = response; status_code = status_code; cached_at = now })
          s.store;
  }

  exists : IdempotencyStore R → String → Bool
  unfolding get
  exists s key = elim (get s key) [ none ↦ false | some _ ↦ true ]

  pub clear : IdempotencyStore R → IdempotencyStore R
  clear s = record { store = [] }

  pub get-empty : (k : String) → get empty k ≡ none
  unfolding get empty lookup
  get-empty k = refl

  -- A key that was set answers with what was set last under it; no other key is touched.
  pub get-set :
      (s : IdempotencyStore R) (k j : String) (response : R) (code now : ℕ)
      → get (set s k response code now) j ≡ (
          if k == j
          then some (record { response = response; status_code = code; cached_at = now })
          else get s j)
  unfolding get set
  get-set s k j response code now = lookup-insert k j _ s.store

-- ":".join(parts)
unfoldable pub join : List String → String
join [] = ""
join (p ∷ []) = p
join (p ∷ q ∷ ps) = str_append p (str_append ":" (join (q ∷ ps)))

-- `digest` is hashlib.sha256(...).hexdigest()[:32], which is not this program's code.
unfoldable pub generate_idempotency_key : (String → String) → List String → String
unfolding join
generate_idempotency_key digest parts = digest (join parts)

-- ===== src/Prelude/Float.antt =====
-- Python's floats, as far as the modelled code uses them: it stores, compares and negates them. A
-- finite double is an integer multiple of 2^-1074, and on these integers the comparisons and the
-- negation are exact. (Rounded sums and quotients of floats are not modelled.)
use Prim.Native.Nat.{ℕ, ◌*◌, ◌^◌}
use delivery_time_prediction.Prelude.Int.{ℤ, pos}

abbrev pub Float : Type 0
Float = ℤ

-- The float of a literal such as `32.0`.
unfoldable pub float : ℕ → Float
float n = pos (n * 2 ^ 1074)

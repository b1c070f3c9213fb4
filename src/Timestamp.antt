-- ===== src/Timestamp.antt =====
-- time.Time in UTC, and its text under time.RFC3339Nano, in which the database of internal/store
-- keeps and compares every time.
pub mod Order
use joyrun.Base.{
  ℕ, zero, suc, ◌+◌, ◌*◌, ◌/◌, ◌%◌, ◌<◌, Bool, true, false, ◌&&◌, ◌||◌, List, [], ◌∷◌, ◌++◌, not,
  ltb, leb, nat_eq, if◌then◌else◌,
}

-- Seconds since the zero `time.Time` (1 January of year 1, UTC), and nanoseconds within the second.
pub record Timestamp : Type 0 where
  pub sec : ℕ
  pub nano : ℕ

abbrev pub billion : ℕ
billion = 1_000_000_000

-- `t.IsZero()`
unfoldable pub is_zero : Timestamp → Bool
is_zero t = nat_eq t.sec 0 && nat_eq t.nano 0

-- `t.Add(d)`, the duration in nanoseconds
unfoldable pub add : Timestamp → ℕ → Timestamp
add t d = record { sec = t.sec + (t.nano + d) / billion; nano = (t.nano + d) % billion }

-- The true order of times.
unfoldable pub before : Timestamp → Timestamp → Bool
before a b = ltb a.sec b.sec || (nat_eq a.sec b.sec && ltb a.nano b.nano)

-- The last `k` decimal digits of `n`, as bytes, the highest first.
unfoldable pub padded : ℕ → ℕ → List ℕ
padded zero n = []
padded (suc k) n = padded k (n / 10) ++ (b'0' + n % 10) ∷ []

-- The layout's ".999999999" drops trailing zeros.
unfoldable pub trim_zeros : List ℕ → List ℕ
trim_zeros [] = []
trim_zeros (c ∷ s) = keep c (trim_zeros s)
  where
    keep : ℕ → List ℕ → List ℕ
    keep c [] = if nat_eq c b'0' then [] else c ∷ []
    keep c (d ∷ s) = c ∷ d ∷ s

-- What follows the 19 bytes "2006-01-02T15:04:05": the fraction, if it is not zero, and "Z".
unfoldable pub tail_text : ℕ → List ℕ
unfolding padded trim_zeros
tail_text n = if nat_eq n 0 then b'Z' ∷ [] else b'.' ∷ (trim_zeros (padded 9 n) ++ b'Z' ∷ [])

-- SQLite compares TEXT values byte by byte (memcmp; a proper prefix is smaller).
unfoldable pub bytes_lt : List ℕ → List ℕ → Bool
bytes_lt [] [] = false
bytes_lt [] (y ∷ t) = true
bytes_lt (x ∷ s) [] = false
bytes_lt (x ∷ s) (y ∷ t) = ltb x y || (nat_eq x y && bytes_lt s t)

-- `a < b` on the texts. The first 19 bytes have a fixed width, highest unit first, so they
-- compare as the seconds do (years 1 to 9999).
unfoldable pub text_lt : Timestamp → Timestamp → Bool
unfolding tail_text bytes_lt
text_lt a b =
    ltb a.sec b.sec || (nat_eq a.sec b.sec && bytes_lt (tail_text a.nano) (tail_text b.nano))

-- `a <= b` on the texts
unfoldable pub text_le : Timestamp → Timestamp → Bool
unfolding text_lt
text_le a b = not (text_lt b a)

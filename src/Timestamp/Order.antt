-- ===== src/Timestamp/Order.antt =====
-- How the order of the stored texts relates to the order of the times.
use joyrun.Base.{ℕ, ◌<◌, ◌≡◌, refl, true, false, List, [], ◌∷◌, arith, ◌⊎◌, inl, inr}
use joyrun.Timestamp.{Timestamp, before, bytes_lt, text_lt, tail_text}

-- Of two times in different seconds, the text of the earlier one compares below that of the later
-- one, and not the other way round.
pub text_lt-seconds :
    (a b : Timestamp) → a.sec < b.sec → (text_lt a b ≡ true) × (text_lt b a ≡ false)
unfolding text_lt
text_lt-seconds a b h = ground arith

-- Every time inside a second compares below the start of that second, although it is later.
pub fraction-before-whole :
    (s n : ℕ)
    → 0 < n
    → (text_lt (record { sec = s; nano = n }) (record { sec = s; nano = 0 }) ≡ true)
      × (before (record { sec = s; nano = 0 }) (record { sec = s; nano = n }) ≡ true)
unfolding text_lt before
fraction-before-whole s n h = ground arith

pub bytes_lt_irrefl : (s : List ℕ) → bytes_lt s s ≡ false
unfolding bytes_lt
bytes_lt_irrefl [] = refl
bytes_lt_irrefl (x ∷ s) = ground (arith, bytes_lt_irrefl s)

pub bytes_lt_trans :
    (s t u : List ℕ) → bytes_lt s t ≡ true → bytes_lt t u ≡ true → bytes_lt s u ≡ true
unfolding bytes_lt
bytes_lt_trans [] [] u p q = ground arith
bytes_lt_trans [] (y ∷ t) [] p q = ground arith
bytes_lt_trans [] (y ∷ t) (z ∷ u) p q = refl
bytes_lt_trans (x ∷ s) [] u p q = ground arith
bytes_lt_trans (x ∷ s) (y ∷ t) [] p q = ground arith
bytes_lt_trans (x ∷ s) (y ∷ t) (z ∷ u) p q = ground (arith, bytes_lt_trans s t u)

-- A text between two others is above the one or below the other.
pub bytes_lt-split :
    (s t u : List ℕ) → bytes_lt s u ≡ true → (bytes_lt s t ≡ true) ⊎ (bytes_lt t u ≡ true)
unfolding bytes_lt
bytes_lt-split [] [] u p = inr p
bytes_lt-split [] (y ∷ t) u p = inl refl
bytes_lt-split (x ∷ s) t [] p = ground arith
bytes_lt-split (x ∷ s) [] (z ∷ u) p = inr refl
bytes_lt-split (x ∷ s) (y ∷ t) (z ∷ u) p = ground (arith, bytes_lt-split s t u)

-- The order of the stored texts is a strict weak order: irreflexive, asymmetric and split by any
-- third text.
pub text_lt_irrefl : (a : Timestamp) → text_lt a a ≡ false
unfolding text_lt
text_lt_irrefl a = ground (arith, bytes_lt_irrefl (tail_text a.nano))

pub bytes_lt-asym : (s t : List ℕ) → bytes_lt s t ≡ true → bytes_lt t s ≡ false
unfolding bytes_lt
bytes_lt-asym [] [] h = refl
bytes_lt-asym [] (y ∷ t) h = refl
bytes_lt-asym (x ∷ s) [] h = ground arith
bytes_lt-asym (x ∷ s) (y ∷ t) h = ground (arith, bytes_lt-asym s t)

pub text_lt-asym : (a b : Timestamp) → text_lt a b ≡ true → text_lt b a ≡ false
unfolding text_lt
text_lt-asym a b h = ground (arith, bytes_lt-asym (tail_text a.nano) (tail_text b.nano))

pub text_lt-split :
    (a b c : Timestamp) → text_lt a c ≡ true → (text_lt a b ≡ true) ⊎ (text_lt b c ≡ true)
unfolding text_lt
text_lt-split a b c h =
    ground (arith, bytes_lt-split (tail_text a.nano) (tail_text b.nano) (tail_text c.nano))

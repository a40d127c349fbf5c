-- ===== src/Base/Stamp.antt =====
-- Timestamps. A time is a count of nanoseconds; the database stores its RFC 3339 text and compares
-- those texts, which `time.RFC3339Nano` prints without the trailing zeros of the fraction.
use Prim.Native.Nat.{ℕ, zero, suc, ◌+◌, ◌*◌, ◌/◌, ◌%◌, ◌^◌, ◌<◌}
use mathlib.Core.Path.{◌≡◌}
use mathlib.Core.Bool.{Bool, true, false, ◌&&◌, ◌||◌}
use mathlib.Core.List.{List, [], ◌∷◌, ◌++◌}
use native.Mathlib.Omega.{arith}
use readsync.Base.Tests.{ltb, ◌==◌, if◌then◌else◌}

abbrev pub second : ℕ
second = 1_000_000_000

-- The `k` low decimal digits of `n`, less their trailing zeros.
fraction : ℕ → ℕ → List ℕ
fraction zero n = []
fraction (suc k) n =
    let d = n / 10 ^ k in
    let rest = fraction k (n % 10 ^ k) in if n == 0 then [] else (b'0' + d) ∷ rest

-- The text behind the seconds: "Z", or a point, the fraction and "Z".
tail_text : ℕ → List ℕ
tail_text n = if n == 0 then b'Z' ∷ [] else b'.' ∷ (fraction 9 n ++ b'Z' ∷ [])

-- The order of texts by bytes.
text_le : List ℕ → List ℕ → Bool
text_le [] t = true
text_le (c ∷ s) [] = false
text_le (c ∷ s) (d ∷ t) = ltb c d || ((c == d) && text_le s t)

fraction_before_whole : (n : ℕ) → 0 < n → text_le (tail_text n) (tail_text 0) ≡ true
unfolding text_le tail_text
fraction_before_whole n h = ground arith

whole_before_fraction : (n : ℕ) → 0 < n → text_le (tail_text 0) (tail_text n) ≡ false
unfolding text_le tail_text
whole_before_fraction n h = ground arith

-- `a <= b` on stored stamps. The seconds have one width, so their texts are ordered as they are.
pub stamp_le : ℕ → ℕ → Bool
stamp_le a b =
    ltb (a / second) (b / second)
    || ((a / second == b / second) && text_le (tail_text (a % second)) (tail_text (b % second)))

-- Between two whole seconds the texts are ordered like the times.
pub stamp_le-of_seconds_lt : (a b : ℕ) → a / second < b / second → stamp_le a b ≡ true
unfolding stamp_le
stamp_le-of_seconds_lt a b h = ground arith

-- A stamp with a fraction sorts before the whole second that it follows.
pub stamp_le_fraction :
    (s n : ℕ)
    → 0 < n
    → n < second
    → (stamp_le (s * second + n) (s * second) ≡ true)
      × (stamp_le (s * second) (s * second + n) ≡ false)
unfolding stamp_le
stamp_le_fraction s n h k =
    let a : (s * second + n) / second ≡ s = omega arith in
    let b : (s * second + n) % second ≡ n = omega arith in
    let c : s * second / second ≡ s = omega arith in
    let d : s * second % second ≡ 0 = omega arith in
    rw (a, b, c, d)
      (ground (arith, fraction_before_whole n h), ground (arith, whole_before_fraction n h))

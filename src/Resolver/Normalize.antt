-- ===== src/Resolver/Normalize.antt =====
-- internal/resolver/resolver.go: `normalize`. The tables of the package `unicode` are a parameter.
pub mod Trim
use readsync.Base.{ℕ, Bool, ◌||◌, ◌&&◌, ◌+◌, [], ◌∷◌, map, Text, leb, ◌==◌, if◌then◌else◌, select}
use mathlib.Core.List.{reverse}

pub record Unicode : Type 0 where
  pub to_lower : ℕ → ℕ
  pub is_letter : ℕ → Bool
  pub is_digit : ℕ → Bool
  pub is_space : ℕ → Bool

abbrev pub trim_left : Unicode → Text → Text
trim_left u [] = []
trim_left u (c ∷ s) = if u.is_space c then trim_left u s else c ∷ s

-- `strings.TrimSpace`.
abbrev pub trim_space : Unicode → Text → Text
trim_space u s = reverse (trim_left u (reverse (trim_left u s)))

unfoldable pub normalize : Unicode → Text → Text
normalize u s =
    trim_space u (select (λ r. u.is_letter r || u.is_digit r || r == b' ') (map u.to_lower s))

-- The tables on ASCII.
abbrev pub ascii : Unicode
ascii = record {
  to_lower = λ c. if leb b'A' c && leb c b'Z' then c + 32 else c;
  is_letter = λ c. (leb b'A' c && leb c b'Z') || (leb b'a' c && leb c b'z');
  is_digit = λ c. leb b'0' c && leb c b'9';
  is_space = λ c. c == 32 || (leb 9 c && leb c 13);
}

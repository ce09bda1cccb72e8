-- ===== src/Version.antt =====
-- Versions (crates/linyaps-core/src/version.rs). A version string is a list of bytes. The `semver`
-- crate is a parameter: its parser and the order of its pre-releases, with the laws of an order.
pub mod Numeric
pub mod V1
pub mod Fallback
pub mod V2
pub mod Parse
pub mod Compare
pub mod Tests
use linyaps_rust.Common.{
  ℕ, zero, suc, ◌+◌, ◌-◌, ◌*◌, ◌<◌, ◌≤◌, ◌^◌, ◌%◌, ◌/◌, ◌≡◌, ◌==◌, ltb, leb, Text, codes, text_eq,
  is_empty, starts_with, Option, none, some, List, [], ◌∷◌, ◌++◌, Bool, true, false, not, ◌&&◌,
  ◌||◌, all, length, compare, Ordering, reverse_order, if◌then◌else◌, Result, ok, err, ensure,
  ◌>>=◌, ◌>>◌,
}

pub data VersionError : Type 0 where
  invalid : Text → VersionError
  overflow : Text → VersionError

-- `value > i64::MAX as u64`.
abbrev pub i64_max : ℕ
i64_max = 9223372036854775807

abbrev pub u64_limit : ℕ
u64_limit = 18446744073709551616

abbrev pub is_digit : ℕ → Bool
is_digit c = leb b'0' c && leb c b'9'

-- The number that a list of digits writes, behind the digits read before.
unfoldable pub value_from : ℕ → Text → ℕ
value_from a [] = a
value_from a (c ∷ s) = value_from (a * 10 + (c - b'0')) s

-- `str::parse::<u64>`, which the code calls on digits only.
unfoldable pub parse_u64 : Text → Option ℕ
unfolding value_from
parse_u64 s =
    let n = value_from 0 s in
    if all is_digit s && not (is_empty s) && ltb n u64_limit then some n else none

-- `part.len() > 1 && part.starts_with('0')`.
abbrev pub has_leading_zero : Text → Bool
has_leading_zero [] = false
has_leading_zero (c ∷ []) = false
has_leading_zero (c ∷ d ∷ s) = c == b'0'

abbrev pub is_malformed : Text → Bool
is_malformed part = is_empty part || has_leading_zero part || not (all is_digit part)

unfoldable pub parse_numeric : Text → Result VersionError ℕ
unfolding parse_u64
parse_numeric part = if is_malformed part then err (invalid part) else (elim (parse_u64 part) [
  | none ↦ err (overflow part)
  | some n ↦ if ltb i64_max n then err (overflow part) else ok n
])

-- `Display` of a number. The fuel `n + 1` is more than the number of its digits.
unfoldable pub show_fuel : ℕ → ℕ → Text
show_fuel zero n = []
show_fuel (suc f) n = elim (ltb n 10) [
  | true ↦ (b'0' + n) ∷ []
  | false ↦ show_fuel f (n / 10) ++ (b'0' + n % 10) ∷ []
]

unfoldable pub show_u64 : ℕ → Text
unfolding show_fuel
show_u64 n = show_fuel (suc n) n

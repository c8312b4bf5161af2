-- ===== src/Strconv.antt =====
-- The parts of Go's packages strconv and strings that the program uses.
pub mod Decimal
pub mod Split
pub mod Dots
use mathlib.Core.List.{reverse}
use supaback.Prelude.{
  ℕ, zero, suc, ◌+◌, ◌-◌, ◌*◌, ◌/◌, ◌%◌, ◌^◌, Text, codes, List, [], ◌∷◌, ◌++◌, Bool, true, false,
  ◌&&◌, ◌||◌, ltb, leb, ◌==◌, text_eq, if◌then◌else◌,
}
use supaback.Prelude.Int.{ℤ, pos, negsuc}

-- `FormatBool`.
abbrev pub format_bool : Bool → Text
format_bool true = codes "true"
format_bool false = codes "false"

-- The value that `ParseBool` returns; on a text that it refuses the value is false.
unfoldable pub parse_bool : Text → Bool
parse_bool s =
    text_eq s (codes "1")
    || text_eq s (codes "t")
    || text_eq s (codes "T")
    || text_eq s (codes "true")
    || text_eq s (codes "TRUE")
    || text_eq s (codes "True")

-- The digits of `n` before `acc`, on fuel; `n + 1` is fuel enough, since each step divides by ten.
unfoldable pub print_digits : ℕ → ℕ → Text → Text
print_digits zero n acc = acc
print_digits (suc f) n acc =
    let rest = print_digits f (n / 10) ((b'0' + n % 10) ∷ acc) in
    if ltb n 10 then (b'0' + n) ∷ acc else rest

unfoldable pub print_ℕ : ℕ → Text
print_ℕ n = print_digits (suc n) n []

-- `Itoa`.
unfoldable pub itoa : ℤ → Text
itoa (pos n) = print_ℕ n
itoa (negsuc n) = b'-' ∷ print_ℕ (suc n)

-- What became of a number in a text: its value, or the kind of the error.
pub data Parsed : Type 0 where
  number : ℕ → Parsed
  syntax range : Parsed

abbrev pub max_uint64 : ℕ
max_uint64 = 2 ^ 64 - 1

-- The loop of `ParseUint(s, 10, 64)`, which stops at the first bad character and at the first
-- digit that takes the value out of range.
unfoldable pub parse_digits : ℕ → Text → Parsed
parse_digits n [] = number n
parse_digits n (c ∷ s) =
    let m = n * 10 + (c - b'0') in
    let rest = parse_digits m s in
    if leb b'0' c && leb c b'9' then (if ltb max_uint64 m then range else rest) else syntax

unfoldable pub parse_uint : Text → Parsed
parse_uint [] = syntax
parse_uint (c ∷ s) = parse_digits 0 (c ∷ s)

-- The magnitude as an `int64`: `ParseInt` returns 0 on bad syntax, and the nearest bound where the
-- value is out of range. The flag says whether the error is nil.
unfoldable pub as_pos : Parsed → ℤ × Bool
as_pos (number n) = if ltb n (2 ^ 63) then (pos n, true) else (pos (2 ^ 63 - 1), false)
as_pos syntax = (pos 0, false)
as_pos range = (pos (2 ^ 63 - 1), false)

unfoldable pub as_neg : Parsed → ℤ × Bool
as_neg (number zero) = (pos 0, true)
as_neg (number (suc n)) = if ltb n (2 ^ 63) then (negsuc n, true) else (negsuc (2 ^ 63 - 1), false)
as_neg syntax = (pos 0, false)
as_neg range = (negsuc (2 ^ 63 - 1), false)

-- `ParseInt(s, 10, 64)`, and `Atoi` on a 64-bit machine.
unfoldable pub parse_int : Text → ℤ × Bool
parse_int [] = (pos 0, false)
parse_int (c ∷ s) =
    if c == b'-'
    then as_neg (parse_uint s)
    else if c == b'+'
    then as_pos (parse_uint s)
    else as_pos (parse_uint (c ∷ s))

-- `strings.Split(s, sep)` at one byte.
with_head : ℕ → List Text → List Text
with_head c [] = (c ∷ []) ∷ []
with_head c (x ∷ xs) = (c ∷ x) ∷ xs

unfoldable pub split : ℕ → Text → List Text
unfolding with_head
split sep [] = [] ∷ []
split sep (c ∷ s) = let rest = split sep s in if c == sep then [] ∷ rest else with_head c rest

-- `strings.Join(xs, sep)`.
unfoldable pub join : ℕ → List Text → Text
join sep [] = []
join sep (x ∷ []) = x
join sep (x ∷ y ∷ ys) = x ++ (sep ∷ join sep (y ∷ ys))

-- `strings.Contains(s, "..")`.
unfoldable pub starts_with_dots : Text → Bool
starts_with_dots [] = false
starts_with_dots (c ∷ []) = false
starts_with_dots (c ∷ d ∷ s) = c == b'.' && d == b'.'

unfoldable pub has_dots : Text → Bool
has_dots [] = false
has_dots (c ∷ s) = starts_with_dots (c ∷ s) || has_dots s

-- The spaces of Unicode, as UTF-8 writes them: in one byte, in two, or in three.
is_space : ℕ → Bool
is_space c = c == b' ' || (leb 9 c && leb c 13)

is_space_of_two : ℕ → ℕ → Bool
is_space_of_two a b = a == 194 && (b == 133 || b == 160)

is_space_of_three : ℕ → ℕ → ℕ → Bool
is_space_of_three a b c =
    (a == 225 && (b == 154 && c == 128))
    || ((a == 226
          && ((b == 128 && ((leb 128 c && leb c 138) || (c == 168 || (c == 169 || c == 175))))
              || (b == 129 && c == 159)))
        || (a == 227 && (b == 128 && c == 128)))

-- The bytes of the space that a text starts with, none where it starts with another rune.
size_of_three : Text → ℕ
unfolding is_space_of_three
size_of_three (a ∷ b ∷ c ∷ s) = if is_space_of_three a b c then 3 else 0
size_of_three s = 0

size_of_two : Text → ℕ
unfolding is_space_of_two size_of_three
size_of_two (a ∷ b ∷ s) = if is_space_of_two a b then 2 else size_of_three (a ∷ b ∷ s)
size_of_two s = 0

space_size : Text → ℕ
unfolding is_space size_of_two
space_size [] = 0
space_size (a ∷ s) = if is_space a then 1 else size_of_two (a ∷ s)

-- The same of the space that a text ends with, read from its end.
end_size_of_three : Text → ℕ
unfolding is_space_of_three
end_size_of_three (c ∷ b ∷ a ∷ s) = if is_space_of_three a b c then 3 else 0
end_size_of_three s = 0

end_size_of_two : Text → ℕ
unfolding is_space_of_two end_size_of_three
end_size_of_two (b ∷ a ∷ s) = if is_space_of_two a b then 2 else end_size_of_three (b ∷ a ∷ s)
end_size_of_two s = 0

end_space_size : Text → ℕ
unfolding is_space end_size_of_two
end_space_size [] = 0
end_space_size (a ∷ s) = if is_space a then 1 else end_size_of_two (a ∷ s)

-- Drops the rest of a space, and the spaces after it.
drop_spaces : (Text → ℕ) → ℕ → Text → Text
drop_spaces size skip [] = []
drop_spaces size (suc skip) (c ∷ s) = drop_spaces size skip s
drop_spaces size zero (c ∷ s) = elim (size (c ∷ s)) [
  | zero ↦ c ∷ s
  | suc rest ↦ drop_spaces size rest s
]

-- `strings.TrimSpace`.
unfoldable pub trim_space : Text → Text
unfolding drop_spaces space_size end_space_size
trim_space s = reverse (drop_spaces end_space_size 0 (reverse (drop_spaces space_size 0 s)))

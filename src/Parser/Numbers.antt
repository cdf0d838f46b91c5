-- ===== src/Parser/Numbers.antt =====
-- `Parse_int` of src/parser.c, with `strtol` in base 10 and the conversion of its `long` to `int`.
use libinject.Base.{
  ℕ, ◌+◌, ◌-◌, ◌*◌, Bool, true, false, not, ◌&&◌, ◌||◌, [], ◌∷◌, ◌==◌, if◌then◌else◌, ltb, leb,
  length, Text, ℤ, pos, negsuc, to_int, to_unsigned, u64_mod,
}
use libinject.Parser.Elements.{skip_spaces}
use libinject.Parser.{Message, ParserElement, succeed, refuse}

abbrev pub is_digit : ℕ → Bool
is_digit c = leb b'0' c && leb c b'9'

-- The number that the digits at the front spell after those read so far.
unfoldable pub digits_value : ℕ → Text → ℕ
digits_value acc [] = acc
digits_value acc (c ∷ cs) =
    let rest = digits_value (acc * 10 + (c - b'0')) cs in if is_digit c then rest else acc

unfoldable pub skip_digits : Text → Text
skip_digits [] = []
skip_digits (c ∷ cs) = if is_digit c then skip_digits cs else c ∷ cs

abbrev pub starts_with_digit : Text → Bool
starts_with_digit [] = false
starts_with_digit (c ∷ cs) = is_digit c

-- `LONG_MAX` and `LONG_MIN` on overflow
abbrev pub clamp_long : Bool → ℕ → ℤ
clamp_long false n = if ltb n 0x8000_0000_0000_0000 then pos n else pos 0x7fff_ffff_ffff_ffff
clamp_long true n =
    if n == 0
    then pos 0
    else if ltb 0x8000_0000_0000_0000 n
    then negsuc 0x7fff_ffff_ffff_ffff
    else negsuc (n - 1)

abbrev pub is_negative : Text → Bool
is_negative [] = false
is_negative (c ∷ cs) = c == b'-'

-- The text behind an optional sign.
abbrev pub skip_sign : Text → Text
skip_sign [] = []
skip_sign (c ∷ cs) = if c == b'-' || c == b'+' then cs else c ∷ cs

-- `strtol(text, &end, 10)`: the value, and the text at `end`; with no digits `end` is `text`.
unfoldable pub strtol : Text → ℤ × Text
unfolding digits_value skip_digits
strtol text =
    let body = skip_spaces text in
    let digits = skip_sign body in
    if starts_with_digit digits
    then (clamp_long (is_negative body) (digits_value 0 digits), skip_digits digits)
    else (pos 0, text)

abbrev pub not_integer : Message
not_integer = record { function = "Parse_int"; error = "Not an integer value" }

module _ {ℓ} {S : Type ℓ} where
  -- The destination is written before the end of the number is looked at.
  parse_number : (ℤ → S → S) → ParserElement S
  parse_number put from dest status =
      let (value, end) = strtol from in
      let dest' = put (to_int (to_unsigned u64_mod value)) dest in
      if length end == length from
      then refuse from dest' status not_integer
      else succeed end dest' status

  -- `**from != '-' && !isdigit(**from)`
  unfoldable pub parse_int : (ℤ → S → S) → ParserElement S
  unfolding parse_number
  parse_int put from dest status =
      if not (is_negative from) && not (starts_with_digit from)
      then refuse from dest status not_integer
      else parse_number put from dest status

-- ===== src/Parser/Elements.antt =====
-- The elements of src/parser.c that read text: words, lines, spaces, constants, enumerated values.
use Prim.Native.String.{String}
use Prim.Native.Nat.{min}
use libinject.Base.{
  ℕ, suc, ◌+◌, Bool, true, false, not, ◌&&◌, ◌||◌, Option, none, some, List, [], ◌∷◌, ◌==◌,
  if◌then◌else◌, ltb, leb, length, take, drop, Text, text_eq, codes, ℤ, pos,
}
use libinject.Parser.{Message, set_status, ParserElement, succeed, refuse}

abbrev pub because : String → String → Message
because function error = record { function = function; error = error }

-- `while (*tmp != *chars && *tmp != '\0') ++tmp`: how far it goes
unfoldable pub stop_at : ℕ → Text → ℕ
stop_at stop [] = 0
stop_at stop (c ∷ cs) = if c == stop then 0 else suc (stop_at stop cs)

-- The do-while loop over the characters that stop: the least of these.
unfoldable pub nearest : ℕ → Text → Text → ℕ
unfolding stop_at
nearest stop [] from = stop_at stop from
nearest stop (next ∷ stops) from = min (stop_at stop from) (nearest next stops from)

-- `" \t\r\n<>[][()\"\'"`
abbrev pub word_stops : Text
word_stops = codes "\t\r\n<>[][()\"'"

-- `" \t\r\n<>[][()\"\'.:;!?"`
abbrev pub enum_stops : Text
enum_stops = codes "\t\r\n<>[][()\"'.:;!?"

-- The setter of a `char**`, or `none` for NULL.
abbrev pub StringDest {ℓ} : Type ℓ → Type ℓ
StringDest S = Option (Option Text → S → S)

abbrev pub is_constant : Option Text → Text → ℕ → Bool
is_constant none from matched = true
is_constant (some constant) from matched =
    length constant == matched && text_eq (take (length constant) from) constant

abbrev pub constant_length : Option Text → ℕ
constant_length none = 0
constant_length (some constant) = length constant

-- `isspace` of the C locale
abbrev pub is_space : ℕ → Bool
is_space c = c == b' ' || (leb 9 c && leb c 13)

unfoldable pub skip_spaces : Text → Text
skip_spaces [] = []
skip_spaces (c ∷ cs) = if is_space c then skip_spaces cs else c ∷ cs

abbrev pub is_one_of : Text → ℕ → Bool
is_one_of [] c = false
is_one_of (t ∷ ts) c = if c == t then true else is_one_of ts c

abbrev pub bools : List (Text × ℤ)
bools = (codes "true", pos 1) ∷ (codes "false", pos 0) ∷ []

module _ {ℓ} {S : Type ℓ} where
  abbrev pub store_string : StringDest S → Option Text → S → S
  store_string none text s = s
  store_string (some put) text s = put text s

  -- `Parse_until`; `stop ∷ stops` is `chars`, which is never empty.
  unfoldable pub parse_until : StringDest S → Option Text → ℕ → Text → ParserElement S
  unfolding nearest
  parse_until target constant stop stops from dest status =
      let dest' = store_string target none dest in
      let len = constant_length constant in
      let matched = len + nearest stop stops (drop len from) in
      if ltb (length from) len
      then refuse from dest' status (because "Parse_until" "Constant not found")
      else if matched == 0
      then refuse from dest' status (because "Parse_until" "Reading an empty word")
      else if not (is_constant constant from matched)
      then refuse from dest' status (because "Parse_until" "Word do not match expected constant")
      else succeed (drop matched from) (store_string target (some (take matched from)) dest') status

  unfoldable pub parse_word : StringDest S → Option Text → ParserElement S
  parse_word target constant = parse_until target constant b' ' word_stops

  unfoldable pub parse_line : StringDest S → Option Text → ParserElement S
  parse_line target constant = parse_until target constant b'\r' (b'\n' ∷ [])

  -- `Parse_not`; the constraint is `stop ∷ stops`.
  unfoldable pub parse_not : StringDest S → ℕ → Text → ParserElement S
  parse_not target stop stops = parse_until target none stop stops

  unfoldable pub parse_space : ParserElement S
  unfolding skip_spaces
  parse_space [] dest status = refuse [] dest status (because "Parse_space" "Space expected")
  parse_space (c ∷ cs) dest status =
      if is_space c
      then succeed (skip_spaces cs) dest status
      else refuse (c ∷ cs) dest status (because "Parse_space" "Space expected")

  unfoldable pub parse_eob : ParserElement S
  parse_eob [] dest status = succeed [] dest status
  parse_eob (c ∷ cs) dest status =
      refuse (c ∷ cs) dest status (because "Parse_eob" "Not at end of buffer")

  -- `Parse_char`; the constraint is the list of characters.
  unfoldable pub parse_char : Text → ParserElement S
  parse_char test [] dest status =
      refuse [] dest status (because "Parse_char" "Character not found")
  parse_char test (c ∷ cs) dest status =
      if is_one_of test c
      then succeed cs dest status
      else refuse (c ∷ cs) dest status (because "Parse_char" "Character not found")

  -- `Parse_enum`: a table of constants with their values, the value beside the closing NULL, and
  -- the setter of the destination.
  unfoldable pub parse_enum {κ} : {V : Type κ} → List (Text × V) → V → (V → S → S) → ParserElement S
  parse_enum [] last put from dest status = record {
    ok = false;
    from = from;
    dest = put last dest;
    status = set_status status from (because "Parse_enum" "No enumerated value found") true;
  }
  parse_enum ((constant, value) ∷ table) last put from dest status =
      let r = parse_until none (some constant) b' ' enum_stops from dest status in
      elim r.ok [
        | true ↦ record r { dest = put value r.dest }
        | false ↦ parse_enum table last put r.from r.dest r.status
      ]

  unfoldable pub parse_bool : (ℤ → S → S) → ParserElement S
  parse_bool = parse_enum bools (pos 0)

-- ===== src/Read/Combine.antt =====
-- How the readers of src/actions.c, src/conditions and src/actions put elements together.
use libinject.Base.{true, false, Option, none, some, List, [], ◌∷◌, if◌then◌else◌, Text, text_eq}
use libinject.Parser
use libinject.Parser.Elements.{parse_word, parse_space}
use libinject.Parser.{ParserElement, Parsed, Parser, element, sub, suite, add}

-- `Parser_addSpaced`
abbrev pub add_spaced {ℓ} : {S : Type ℓ} → Parser S → ParserElement S → Parser S
add_spaced p e = add p (sub suite (add (add Parser.init (element e)) (element parse_space)))

-- `Parser_addSpacedConstant`
abbrev pub add_spaced_constant {ℓ} : {S : Type ℓ} → Parser S → Text → Parser S
add_spaced_constant p constant = add_spaced p (parse_word none (some constant))

-- `a && b && …` on a local `source`: `*from` moves only if all succeed.
unfoldable pub chain {ℓ} : {S : Type ℓ} → List (ParserElement S) → Text → ParserElement S
chain [] start source dest status = record {
  ok = true;
  from = source;
  dest = dest;
  status = status;
}
chain (e ∷ es) start source dest status =
    let r = e source dest status in
    elim r.ok [ true ↦ chain es start r.from r.dest r.status | false ↦ record r { from = start } ]

-- The `argument` of a condition or of an action, which may be NULL.
abbrev pub Argument : Type 0 → Type 0
Argument S = Option (ParserElement S)

-- What a table gives for a name: a type, and the argument that follows it.
abbrev pub Entry : Type 0 → Type 0 → Type 0
Entry V S = V × Argument S

unfoldable pub argument : {S : Type 0} → Argument S → Text → ParserElement S
argument none start source dest status = record {
  ok = true;
  from = source;
  dest = dest;
  status = status;
}
argument (some e) start source dest status = chain (parse_space ∷ e ∷ []) start source dest status

-- The entry of a table whose name is the word.
unfoldable pub named : {V : Type 0} → List (Text × V) → Option Text → Option V
named table none = none
named [] (some word) = none
named ((name, v) ∷ table) (some word) =
    if text_eq word name then some v else named table (some word)

-- An element on a part of a structure: the pointer that it is given points there.
abbrev pub focus {ℓ κ} :
    {A : Type ℓ} {S : Type κ} → (S → A) → (A → S → S) → ParserElement A → ParserElement S
focus get put p from dest status =
    let r = p from (get dest) status in
    record { ok = r.ok; from = r.from; dest = put r.dest dest; status = r.status }

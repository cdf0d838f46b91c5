-- ===== src/Config/Rules.antt =====
-- `Config_init` of src/conffile.c ends on every file.
use libinject.Base.{
  ℕ, zero, suc, ◌+◌, ◌<◌, ◌≤◌, Bool, true, false, ◌||◌, Option, none, some, [], ◌∷◌, ◌≡◌, ◌≢◌, inl,
  inr, refl, arith, length, Text, ℤ, pos, negsuc, ltb, if◌then◌else◌, ◌==◌, Bool-cases,
  Option-cases,
}
use libinject.Config.{
  starts_with, Reading, Section, rules, runtime, unknown, fgets, rule_line, section_line,
  runtime_line, config_line, config_lines, config_init, line_of_section, start, trim_end,
}
use libinject.Outcome.{Outcome, Fault, out_of_bounds, done, fault, out_of_fuel, null_pointer, ◌>>=◌}
use libinject.Queue.{ActionQueue, line_at, place, put}
use libinject.Read.Arguments.{Beyond}
use libinject.Read.Hosts.{Resolver}
use libinject.Rule.{Action}

abbrev is_end : Fault → Bool
is_end out_of_fuel = false
is_end _ = true

-- A run that does not run out of fuel.
abbrev HasEnd : {A : Type 0} → Outcome A → Type 0
HasEnd (done a) = Unit
HasEnd (fault e) = is_end e ≡ true

HasEnd-ne : {A : Type 0} (m : Outcome A) → HasEnd m → m ≢ fault out_of_fuel
HasEnd-ne (done a) h = λ e. cc
HasEnd-ne (fault x) h = λ e. absurd (cc)

HasEnd->>= :
    {A B : Type 0} (m : Outcome A) (f : A → Outcome B)
    → HasEnd m
    → ((a : A) → HasEnd (f a))
    → HasEnd (m >>= f)
HasEnd->>= (done a) f h k = k a
HasEnd->>= (fault e) f h k = h

HasEnd-if :
    {A : Type 0} (c : Bool) (m n : Outcome A) → HasEnd m → HasEnd n → HasEnd (if c then m else n)
HasEnd-if true m n h k = h
HasEnd-if false m n h k = k

fgets-le : (room : ℕ) (file : Text) → length (fgets room file).rest ≤ length file
unfolding fgets
fgets-le zero file = omega arith
fgets-le (suc room) [] = omega arith
fgets-le (suc room) (c ∷ file) = ground (arith, fgets-le room file)

-- A call of `fgets` that does not meet the end of the file takes something from it.
fgets-lt :
    (room : ℕ) (file : Text)
    → (fgets (suc room) file).at_end ≡ false
    → length (fgets (suc room) file).rest < length file
unfolding fgets
fgets-lt room [] h = cc
fgets-lt room (c ∷ file) h = ground (arith, fgets-le room file)

place-HasEnd : (q : ActionQueue) (line : ℤ) → HasEnd (place q line)
place-HasEnd q (pos i) = HasEnd-if (ltb i (length q)) (done i) (fault out_of_bounds) tt refl
place-HasEnd q (negsuc i) = refl

put-HasEnd : (q : ActionQueue) (o : Option Action) → HasEnd (put q o true false)
unfolding put
put-HasEnd q none = tt
put-HasEnd q (some a) =
    HasEnd->>= (place q a.pos) _ (place-HasEnd q a.pos)
      (λ i. elim (Option-cases (line_at q i)) [ inl e ↦ rw e tt | inr (old, e) ↦ rw e tt ])

module _ (resolver : Resolver) (beyond : Beyond) (time : ℕ) (memory : Action) where
  rule_line-HasEnd :
      (line : Text) (r : Reading) → HasEnd (rule_line resolver beyond time memory line r)
  unfolding rule_line
  rule_line-HasEnd line r =
      HasEnd->>= (put r.config.queue _ true false) _ (put-HasEnd r.config.queue _) (λ p. tt)

  section_line-HasEnd :
      (line : Text) (r : Reading) → HasEnd (section_line resolver beyond time memory line r)
  unfolding section_line
  section_line-HasEnd line r = HasEnd-if _ (fault null_pointer) (done _) refl tt

  runtime_line-HasEnd :
      (line : Text) (r : Reading) → HasEnd (runtime_line resolver beyond time memory line r)
  unfolding runtime_line
  runtime_line-HasEnd line r = HasEnd-if _ (fault null_pointer) (done _) refl tt

  line_of_section-HasEnd :
      (s : Section) (line : Text) (r : Reading)
      → HasEnd (line_of_section resolver beyond time memory s line r)
  line_of_section-HasEnd rules line r = rule_line-HasEnd line r
  line_of_section-HasEnd runtime line r = runtime_line-HasEnd line r
  line_of_section-HasEnd unknown line r = tt

  config_line-HasEnd :
      (line : Text) (r : Reading) → HasEnd (config_line resolver beyond time memory line r)
  unfolding config_line
  config_line-HasEnd line r =
      let bracket = section_line resolver beyond time memory line r in
      let other = line_of_section resolver beyond time memory r.locals.section line r in
      HasEnd-if (length line == 0 || starts_with b';' line) (done (some r))
        (if starts_with b'[' line then bracket else other) tt
        (HasEnd-if (starts_with b'[' line) bracket other (section_line-HasEnd line r)
          (line_of_section-HasEnd r.locals.section line r))

  config_lines-HasEnd :
      (rounds : ℕ) (buffer file : Text) (r : Reading)
      → length file < rounds
      → HasEnd (config_lines resolver beyond time memory rounds buffer file r)
  unfolding config_lines
  config_lines-HasEnd zero buffer file r h = absurd (omega arith)
  config_lines-HasEnd (suc rounds) buffer file r h =
      let l = fgets 1022 file in
      let line = trim_end (if length l.got == 0 then buffer else l.got) in
      HasEnd->>= (config_line resolver beyond time memory line r) _ (config_line-HasEnd line r)
        (λ o. elim (Option-cases o) [
          | inl n ↦ rw n tt
          | inr (r', s) ↦ elim (Bool-cases l.at_end) [
            | inl e ↦ rw (s, e) tt
            | inr e ↦
                let lt = fgets-lt 1021 file e in
                rw (s, e) (config_lines-HasEnd rounds line l.rest r' (omega arith))
          ]
        ])

  -- `Config_init` needs as many rounds as the file has characters, and one more: it ends on every
  -- file, with a configuration, without one or with another fault.
  pub config_init-ends :
      (program : Text) (port : ℤ) (raw : Text) (file : Option Text)
      → config_init resolver beyond time memory program port raw file ≢ fault out_of_fuel
  unfolding config_init
  config_init-ends program port raw none = λ e. cc
  config_init-ends program port raw (some file) =
      let first = start resolver beyond time memory port in
      HasEnd-ne _ (
        HasEnd->>= (config_lines resolver beyond time memory (length file + 1) raw file first) _
          (config_lines-HasEnd (length file + 1) raw file first (omega arith)) (λ o. tt))

-- ===== src/Threads/Edits.antt =====
-- A step of the thread that changes the table keeps the shape of the shared memory, and faults only
-- where it first looks at its line.
use libinject.Base.{
  ℕ, ◌≤◌, ◌<◌, Bool, true, false, Option, none, some, ltb, ◌≡◌, ◌≢◌, refl, sym, ◌∙◌, subst, ap,
  arith, ℤ, pos, negsuc, ltb_ℤ, length, eq_or_ne, Bool-cases, Option-cases, inl, inr,
  get_or-set_cases,
}
use libinject.Outcome.{Outcome, done, fault, out_of_bounds, ◌>>=◌}
use libinject.Rule.{Action}
use libinject.Threads.{
  Memory, line_of, write_rule, Edit, removal, storage, Editor, idle, ordered, inside, emptying,
  waiting, sleeping, emptied, changing, finishing, as_new, stored, destroyed, index, released, look,
  in_slot, acquire, marked, edit, put_to_sleep,
}
use libinject.Threads.Seeks.{IfReady, load-live}
use libinject.Threads.Shape.{
  Counted, IsLive, IsLiveOption, Shape, holds_lock, Claimed, IsFree, IsClaimed, rules-written,
  rules-other, Counted-write, Shape-asleep, Claimed-asleep, IsAwaited, IsLive-write, Shape-write,
  Shape-lock, IsFree-lock,
}

-- The shape but for one line.
record ShapeBeside (i : ℕ) (m : Memory) (locked : Bool) (uses : ℕ → ℕ) (readers : ℕ) : Type 0 where
  readers_counted : m.readers ≡ readers
  writer : m.has_writer ≡ locked
  exclusive : locked ≡ true → readers ≡ 0
  counted : (a : ℕ) → Counted (m.rules a) (uses a)
  listed : (j a : ℕ) → i ≢ j → line_of m j ≡ some a → IsLive m a
  apart : (j k a : ℕ) → line_of m j ≡ some a → line_of m k ≡ some a → j ≡ k
  unborn : (a : ℕ) → m.fresh ≤ a → m.rules a ≡ none

beside : (i : ℕ) (m : Memory) (w : Bool) (u : ℕ → ℕ) (n : ℕ) → Shape m w u n → ShapeBeside i m w u n
beside i m w u n s = record {
  readers_counted = s.readers_counted;
  writer = s.writer;
  exclusive = s.exclusive;
  counted = s.counted;
  listed = λ j a h e. s.listed j a e;
  apart = s.apart;
  unborn = s.unborn;
}

stored-none :
    (i : ℕ) (m : Memory) (w : Bool) (u : ℕ → ℕ) (n : ℕ)
    → ShapeBeside i m w u n
    → Shape (stored m i none) w u n
stored-none i m w u n s = record {
  readers_counted = s.readers_counted;
  writer = s.writer;
  exclusive = s.exclusive;
  counted = s.counted;
  listed = λ j a e. elim (get_or-set_cases m.table i j none a e) [
    | inl (_, bad) ↦ cc
    | inr (other, h) ↦ s.listed j a other h
  ];
  apart = λ j k a e f. elim (get_or-set_cases m.table i j none a e) [
    | inl (_, bad) ↦ cc
    | inr (_, h) ↦ elim (get_or-set_cases m.table i k none a f) [
      | inl (_, bad) ↦ cc
      | inr (_, g) ↦ s.apart j k a h g
    ]
  ];
  unborn = s.unborn;
}

stored-some :
    (i : ℕ) (m : Memory) (w : Bool) (u : ℕ → ℕ) (n : ℕ) (r : Action)
    → ShapeBeside i m w u n
    → Shape (stored m i (some r)) w u n
stored-some i m w u n r s =
    let free : u m.fresh ≡ 0 =
      subst (λ o. Counted o (u m.fresh)) (s.unborn m.fresh (omega arith)) (s.counted m.fresh) in
    let old : (j a : ℕ) → i ≢ j → line_of m j ≡ some a → m.fresh ≢ a = λ j a other e same.
      let (q, live) = s.listed j a other e in
      let gone : m.rules a ≡ none = s.unborn a (omega arith) in cc in
    record {
      readers_counted = s.readers_counted;
      writer = s.writer;
      exclusive = s.exclusive;
      counted =
          Counted-write m u u m.fresh (some (as_new r)) s.counted (ap pos (sym free)) (λ b h. refl);
      listed = λ j a e. elim (get_or-set_cases m.table i j (some m.fresh) a e) [
        | inl (_, new) ↦
            subst (IsLiveOption (stored m i (some r))) new
              (as_new r, rules-written m m.fresh (some (as_new r)))
        | inr (other, h) ↦ IsLive-write m m.fresh a (as_new r) (s.listed j a other h)
      ];
      apart = λ j k a e f. elim (get_or-set_cases m.table i j (some m.fresh) a e) [
        | inl (j_here, new) ↦ elim (get_or-set_cases m.table i k (some m.fresh) a f) [
          | inl (k_here, _) ↦ sym j_here ∙ k_here
          | inr (other, g) ↦ absurd (old k a other g (cc))
        ]
        | inr (other, h) ↦ elim (get_or-set_cases m.table i k (some m.fresh) a f) [
          | inl (k_here, new) ↦ absurd (old j a other h (cc))
          | inr (_, g) ↦ s.apart j k a h g
        ]
      ];
      unborn =
          λ a h. rules-other m m.fresh a (some (as_new r)) (omega arith) ∙ s.unborn a (omega arith);
    }

stored-Shape :
    (i : ℕ) (m : Memory) (w : Bool) (u : ℕ → ℕ) (n : ℕ) (v : Option Action)
    → ShapeBeside i m w u n
    → Shape (stored m i v) w u n
stored-Shape i m w u n none s = stored-none i m w u n s
stored-Shape i m w u n (some r) s = stored-some i m w u n r s

-- Where a first look can fail: there is no such line, or no rule in it.
abbrev pub Excuse : Memory → Editor → Type 0
Excuse m (inside (removal line)) = index m line ≡ fault out_of_bounds
Excuse m (inside (storage r _)) = index m r.pos ≡ fault out_of_bounds
Excuse m (emptying i _) = line_of m i ≡ none
Excuse m _ = false ≡ true

abbrev pub EndsFor : {A : Type 0} → Memory → Editor → (A → Type 0) → Outcome A → Type 0
EndsFor m e P (done a) = P a
EndsFor m e P (fault f) = Excuse m e

EndsFor->>= :
    {A B : Type 0} (mem : Memory) (e : Editor) (P : A → Type 0) (Q : B → Type 0) (m : Outcome A)
    (f : A → Outcome B)
    → EndsFor mem e P m
    → ((a : A) → P a → EndsFor mem e Q (f a))
    → EndsFor mem e Q (m >>= f)
EndsFor->>= mem e P Q (done a) f h k = k a h
EndsFor->>= mem e P Q (fault g) f h k = h

not_used : (n : ℕ) → ltb_ℤ (pos 0) (pos n) ≡ false → n ≡ 0
not_used n h = ground arith

ltb_ℤ-pos : (n : ℕ) → ltb_ℤ (pos 0) (pos n) ≡ true → 0 < n
ltb_ℤ-pos n h = ground arith

pub in_slot-Claimed :
    (m : Memory) (i : ℕ) (c : Claimed m i) → in_slot m i ≡ done (c.address, c.rule)
in_slot-Claimed m i c = rw (in_slot, c.at_line, load-live m c.address c.rule c.at_address) refl

module _ (m : Memory) (u : ℕ → ℕ) (n : ℕ) where
  abbrev pub Fits : Memory × Editor → Type 0
  Fits r = Shape r.0 (holds_lock r.1) u n × IsClaimed r.0 u r.1

  released-Shape : Shape m true u n → Shape (released m) false u n
  released-Shape s =
      subst (λ k. Shape (released m) false u k) s.readers_counted
        (Shape-lock m true u u n m.readers false s (λ bad. cc) (λ a. refl))

  -- The lock for writing is taken.
  taken-Shape :
      Shape m false u n → ltb 0 m.readers ≡ false → Shape (record m { has_writer = true }) true u n
  taken-Shape s none_in =
      let alone : m.readers ≡ 0 = ground (arith, none_in) in
      subst (λ k. Shape (record m { has_writer = true }) true u k) s.readers_counted
        (Shape-lock m false u u n m.readers true s (λ _. alone) (λ a. refl))

  acquire-Fits :
      (e e' : Editor)
      → Shape m false u n
      → holds_lock e' ≡ true
      → IsClaimed (record m { has_writer = true }) u e'
      → IfReady (EndsFor m e Fits) (acquire m e')
  acquire-Fits e e' s locks claim = elim (Bool-cases m.has_writer) [
    | inl y ↦ rw (acquire, y) tt
    | inr free ↦ elim (Bool-cases (ltb 0 m.readers)) [
      | inl y ↦ rw (acquire, free, y) tt
      | inr none_in ↦
          rw (acquire, free, none_in)
            (
              subst (λ b. Shape (record m { has_writer = true }) b u n) (sym locks)
                  (taken-Shape s none_in),
              claim,
            )
    ]
  ]

  look-Fits :
      (i : ℕ) (r : Action) (replace : Bool) (o : Option ℕ)
      → Shape m true u n
      → Fits (look m i r replace o)
  look-Fits i r replace none s = (stored-Shape i m true u n (some r) (beside i m true u n s), tt)
  look-Fits i r true (some a) s = (released-Shape s, tt)
  look-Fits i r false (some a) s = (s, tt)

  -- The rule of a line is freed, which no other line holds.
  destroyed-beside :
      (i : ℕ)
      → Shape m true u n
      → (c : Claimed m i) → u c.address ≡ 0
      → ShapeBeside i (write_rule m c.address none) true u n
  destroyed-beside i s c free = record {
    readers_counted = s.readers_counted;
    writer = s.writer;
    exclusive = s.exclusive;
    counted = Counted-write m u u c.address none s.counted free (λ b h. refl);
    listed = λ j a other e.
        let (r, live) = s.listed j a e in
        let elsewhere : c.address ≢ a =
          λ same. other (s.apart i j a (subst (λ k. line_of m i ≡ some k) same c.at_line) e) in
        (r, rules-other m c.address a none elsewhere ∙ live);
    apart = s.apart;
    unborn = λ a h. elim (eq_or_ne c.address a) [
      | inl same ↦
          subst (λ k. (write_rule m c.address none).rules k ≡ none) same
            (rules-written m c.address none)
      | inr elsewhere ↦ rules-other m c.address a none elsewhere ∙ s.unborn a h
    ];
  }

  -- Any index, or the excuse that there is none.
  index-Excuse :
      (e : Editor) (line : ℤ)
      → (index m line ≡ fault out_of_bounds → Excuse m e)
      → EndsFor m e (λ i. Unit {0}) (index m line)
  index-Excuse e (pos i) h = elim (Bool-cases (ltb i (length m.table))) [
    | inl y ↦ rw (index, y) tt
    | inr out ↦
        let bad : index m (pos i) ≡ fault out_of_bounds = rw (index, out) refl in
        subst (EndsFor m e (λ i. Unit {0})) (sym bad) (h bad)
  ]
  index-Excuse e (negsuc i) h = h refl

  inside-Fits :
      (e : Edit) → Shape m true u n → IfReady (EndsFor m (inside e) Fits) (edit m (inside e))
  unfolding edit
  inside-Fits (removal line) s =
      EndsFor->>= m (inside (removal line)) (λ _. Unit {0}) Fits (index m line) _
        (index-Excuse (inside (removal line)) line (λ h. h)) (λ i _. (released-Shape s, tt))
  inside-Fits (storage r replace) s =
      EndsFor->>= m (inside (storage r replace)) (λ _. Unit {0}) Fits (index m r.pos) _
        (index-Excuse (inside (storage r replace)) r.pos (λ h. h))
        (λ i _. look-Fits i r replace (line_of m i) s)

  -- The rule of a line is marked as being emptied.
  emptying-Fits :
      (i : ℕ) (v : Option Action)
      → Shape m false u n
      → IfReady (EndsFor m (emptying i v) Fits) (edit m (emptying i v))
  unfolding edit
  emptying-Fits i v s = elim (Option-cases (line_of m i)) [
    | inl e ↦ rw (in_slot, e) e
    | inr (a, e) ↦
        let (r, live) = s.listed i a e in
        rw (in_slot, e, load-live m a r live)
          (
            Shape-write m false u u n a r (marked r) s live
                (subst (λ o. Counted o (u a)) live (s.counted a)) (λ b h. refl),
            record {
              address = a;
              rule = marked r;
              at_line = e;
              at_address = rules-written m a (some (marked r));
              marked = refl;
            },
          )
  ]

  waiting-Fits :
      (i : ℕ) (v : Option Action)
      → Shape m false u n
      → Claimed m i
      → IfReady (EndsFor m (waiting i v) Fits) (edit m (waiting i v))
  unfolding edit
  waiting-Fits i v s c =
      let slot : in_slot m i ≡ done (c.address, c.rule) = in_slot-Claimed m i c in
      let counted : c.rule.accessors ≡ pos (u c.address) =
        subst (λ o. Counted o (u c.address)) c.at_address (s.counted c.address) in
      rw slot (elim (Bool-cases (ltb_ℤ (pos 0) c.rule.accessors)) [
        | inl y ↦
            let used : 0 < u c.address =
              ltb_ℤ-pos (u c.address) (subst (λ k. ltb_ℤ (pos 0) k ≡ true) counted y) in
            let d = Claimed-asleep m i (put_to_sleep m c.address).asleep c in
            rw y
              (Shape-asleep m false u n (put_to_sleep m c.address).asleep s, (d.0, d.1, λ _. used))
        | inr free ↦
            let zero_uses : u c.address ≡ 0 =
              not_used (u c.address) (subst (λ k. ltb_ℤ (pos 0) k ≡ false) counted free) in
            rw free (s, (c, zero_uses))
      ])

  sleeping-Fits :
      (i a : ℕ) (v : Option Action)
      → Shape m false u n
      → IsAwaited m u i a
      → IfReady (EndsFor m (sleeping i a v) Fits) (edit m (sleeping i a v))
  unfolding edit
  sleeping-Fits i a v s c = elim (Bool-cases (m.asleep a)) [
    | inl y ↦ rw y tt
    | inr awake ↦ rw awake (s, c.0)
  ]

  changing-Fits :
      (i : ℕ) (v : Option Action)
      → Shape m true u n
      → IsFree m u i
      → IfReady (EndsFor m (changing i v) Fits) (edit m (changing i v))
  unfolding edit
  changing-Fits i v s (c, free) =
      rw (c.at_line, destroyed, load-live m c.address c.rule c.at_address)
        (stored-Shape i (write_rule m c.address none) true u n v (destroyed-beside i s c free), tt)

  -- A step of the editor keeps the shape; only a first look can fault.
  pub edit-Fits :
      (e : Editor)
      → Shape m (holds_lock e) u n
      → IsClaimed m u e
      → IfReady (EndsFor m e Fits) (edit m e)
  unfolding edit
  edit-Fits idle s c = tt
  edit-Fits (ordered e) s c = acquire-Fits (ordered e) (inside e) s refl tt
  edit-Fits (inside e) s c = inside-Fits e s
  edit-Fits (emptying i v) s c = emptying-Fits i v s
  edit-Fits (waiting i v) s c = waiting-Fits i v s c
  edit-Fits (sleeping i a v) s c = sleeping-Fits i a v s c
  edit-Fits (emptied i v) s c =
      acquire-Fits (emptied i v) (changing i v) s refl
        (IsFree-lock m u u m.readers true i (λ a. refl) c)
  edit-Fits (changing i v) s c = changing-Fits i v s c
  edit-Fits finishing s c = (released-Shape s, tt)

-- ===== src/Threads/Seeks.antt =====
-- A step of a thread that looks for rules keeps the shape of the shared memory, and faults only where
-- its search does: it starts before the table, or `Action_match` faults on a rule.
use libinject.Base.{
  ℕ, zero, suc, ◌+◌, ◌-◌, ◌≤◌, ◌<◌, ◌⊎◌, ℤ, negsuc, Bool, true, false, Option, none, some, List,
  if◌then◌else◌, ◌≡◌, ◌≢◌, refl, sym, ◌∙◌, subst, ap, arith, pos, set, get_elem?, decrement_ℤ,
  increment_ℤ, length, Bool-cases, Option-cases, inl, inr,
}
use libinject.Outcome.{Outcome, Fault, done, fault, out_of_bounds, ◌>>=◌}
use libinject.Queue.{lock_action}
use libinject.Rule.{Action}
use libinject.Threads.{
  Memory, line_of, write_rule, load, Search, Phase, resting, asking, reading, leaving, unlocking,
  Seeker, scan, locked, kept_if, found, unlocked_rule, seek, Editor, scan_from, after_signal,
}
use libinject.Threads.Counts.{total, total-set, total-ge, uses, reads}
use libinject.Threads.Shape.{
  Counted, IsLive, IsLiveOption, Shape, holds_lock, IsClaimed, Shape-write, IsClaimed-write,
  Shape-asleep, Shape-lock, IsClaimed-lock,
}

-- A run that ends with a value for which `P` holds, or with a fault for which `F` holds.
abbrev pub Returns : {A : Type 0} → (Fault → Type 0) → (A → Type 0) → Outcome A → Type 0
Returns F P (done a) = P a
Returns F P (fault f) = F f

abbrev pub IfReady : {A : Type 0} → (Outcome A → Type 0) → Option (Outcome A) → Type 0
IfReady P none = Unit
IfReady P (some r) = P r

pub Returns->>= :
    {A B : Type 0} (F : Fault → Type 0) (P : A → Type 0) (Q : B → Type 0) (m : Outcome A)
    (f : A → Outcome B)
    → Returns F P m
    → ((a : A) → P a → Returns F Q (f a))
    → Returns F Q (m >>= f)
Returns->>= F P Q (done a) f h k = k a h
Returns->>= F P Q (fault e) f h k = h

-- The faults of a search: it starts before the table, or the test of a rule of the table faults.
abbrev pub SearchFault : Memory → Search → Fault → Type 0
SearchFault m s f =
    ((n : ℕ) × (s.start ≡ negsuc n) × (f ≡ out_of_bounds))
    ⊎ ((i : ℕ) × (a : ℕ) × (r : Action) × (line_of m i ≡ some a)
        × (m.rules a ≡ some r)
        × (s.test i r ≡ fault f))

-- What a seeker in a phase can fault with.
abbrev pub Blamed : Memory → Phase → Fault → Type 0
Blamed m (reading s) f = SearchFault m s f
Blamed m _ f = false ≡ true

-- The threads that look, beside one editor.
pub record Inv (m : Memory) (e : Editor) (xs : List Seeker) : Type 0 where
  pub shape : Shape m (holds_lock e) (λ a. total (uses a) xs) (total reads xs)
  pub claim : IsClaimed m (λ a. total (uses a) xs) e

abbrev AllLive : Memory → Type 0
AllLive m = (i a : ℕ) → line_of m i ≡ some a → IsLive m a

pub load-live : (m : Memory) (a : ℕ) (r : Action) → m.rules a ≡ some r → load m a ≡ done r
load-live m a r e = rw (load, e) refl

tested :
    (m : Memory) (s : Search) (i a : ℕ) (r : Action) (rest : Outcome (Option ℕ))
    → line_of m i ≡ some a
    → m.rules a ≡ some r
    → Returns (SearchFault m s) (IsLiveOption m) rest
    → (o : Outcome Bool) → s.test i r ≡ o
    → Returns (SearchFault m s) (IsLiveOption m) (o >>= λ b. if b then done (some a) else rest)
tested m s i a r rest e live h (fault f) t = inr (i, a, r, e, live, t)
tested m s i a r rest e live h (done true) t = (r, live)
tested m s i a r rest e live h (done false) t = h

scan-Returns :
    (n : ℕ) (s : Search) (m : Memory) (i : ℕ)
    → AllLive m
    → Returns (SearchFault m s) (IsLiveOption m) (scan n s.test m i)
unfolding scan
scan-Returns zero s m i all = tt
scan-Returns (suc n) s m i all = elim (Option-cases (line_of m i)) [
  | inl e ↦ rw (scan, e) (scan-Returns n s m (i + 1) all)
  | inr (a, e) ↦
      let (r, live) = all i a e in
      rw (scan, e, load-live m a r live)
        (tested m s i a r (scan n s.test m (i + 1)) e live (scan-Returns n s m (i + 1) all)
          (s.test i r) refl)
]

scan_from-Returns :
    (m : Memory) (s : Search)
    → AllLive m
    → (start : ℤ) → s.start ≡ start
    → Returns (SearchFault m s) (IsLiveOption m) (scan_from m s.test start)
scan_from-Returns m s all (pos i) e = scan-Returns (length m.table - i) s m i all
scan_from-Returns m s all (negsuc n) e = inl (n, e, refl)

abbrev entered : Action → Action
entered r = record r { accessors = increment_ℤ r.accessors }

-- What `LOCK_ACTION` makes of the shared memory.
abbrev Locks : Memory → Option ℕ × Memory → Type 0
Locks m (none, m') = m' ≡ m
Locks m (some a, m') =
    (r : Action) × (m.rules a ≡ some r)
    × (r.emptying ≡ false)
    × (m' ≡ write_rule m a (some (entered r)))

lock_action-entered : (r : Action) → r.emptying ≡ false → lock_action true r ≡ some (entered r)
lock_action-entered r e = ap (λ b. if b then none else some (entered r)) e

locked-Returns :
    (F : Fault → Type 0) (m : Memory) (o : Option ℕ)
    → IsLiveOption m o
    → Returns F (Locks m) (locked m o)
locked-Returns F m none live = refl
locked-Returns F m (some a) (r, live) =
    rw (locked, load-live m a r live)
      (elim (Bool-cases r.emptying) [
        | inl y ↦
            subst (λ o. Locks m (kept_if m a o))
              (sym (ap (λ b. if b then none else some (entered r)) y)) refl
        | inr free ↦
            subst (λ o. Locks m (kept_if m a o)) (sym (lock_action-entered r free))
              (r, live, free, refl)
      ])

found-Returns :
    (m : Memory) (s : Search) → AllLive m → Returns (SearchFault m s) (Locks m) (found m s)
found-Returns m s all =
    Returns->>= (SearchFault m s) (IsLiveOption m) (Locks m) (scan_from m s.test s.start) _
      (scan_from-Returns m s all s.start refl) (locked-Returns (SearchFault m s) m)

pub Counted-live : (o : Option Action) (n : ℕ) → Counted o n → 1 ≤ n → (r : Action) × (o ≡ some r)
Counted-live none n h k = absurd (omega arith)
Counted-live (some r) n h k = (r, refl)

-- A thread that is still asleep after an unlock waits for another user.
signal_wakes :
    (a : ℕ) (r : Action) (asleep : ℕ → Bool) (n : ℕ)
    → r.accessors ≡ pos n
    → r.emptying ≡ true
    → after_signal a r asleep a ≡ true
    → 0 < n
signal_wakes a r asleep zero counted mark h = ground arith
signal_wakes a r asleep (suc n) counted mark h = omega arith

module _ (m : Memory) (e : Editor) (xs : List Seeker) (inv : Inv m e xs) (i : ℕ) where
  abbrev After : Memory × Seeker → Type 0
  After r = Inv r.0 e (set xs i r.1)

  abbrev count : ℕ → ℕ
  count a = total (uses a) xs

  abbrev seeker : Option ℕ → Phase → Seeker
  seeker held phase = record { held = held; phase = phase }

  -- The lock is taken or given back by a reader.
  lock-After :
      (x x' : Seeker) (k : ℕ)
      → get_elem? xs i ≡ some x
      → ((a : ℕ) → uses a x' ≡ uses a x)
      → k ≡ total reads (set xs i x')
      → (holds_lock e ≡ true → k ≡ 0)
      → After (record m { readers = k; has_writer = holds_lock e }, x')
  lock-After x x' k at same readers alone =
      let uses_same : (a : ℕ) → total (uses a) (set xs i x') ≡ count a =
        λ a. omega (arith, total-set (uses a) xs i x x' at, same a) in
      record {
        shape =
            subst
              (Shape (record m { readers = k; has_writer = holds_lock e }) (holds_lock e)
                (λ a. total (uses a) (set xs i x')))
              readers
              (Shape-lock m (holds_lock e) count _ (total reads xs) k (holds_lock e) inv.shape alone
                uses_same);
        claim = IsClaimed-lock m count _ k (holds_lock e) e uses_same inv.claim;
      }

  -- The memory stays as it is.
  pub stay-After :
      (x x' : Seeker)
      → get_elem? xs i ≡ some x
      → ((a : ℕ) → uses a x' ≡ uses a x)
      → reads x' ≡ reads x
      → After (m, x')
  stay-After x x' at same same_lock =
      subst (λ b. After (record m { has_writer = b }, x')) (sym inv.shape.writer)
        (lock-After x x' m.readers at same
          (omega (arith, inv.shape.readers_counted, total-set reads xs i x x' at, same_lock))
          (λ h. inv.shape.readers_counted ∙ inv.shape.exclusive h))

  asking-After :
      (held : Option ℕ) (s : Search)
      → get_elem? xs i ≡ some (seeker held (asking s))
      → IfReady (Returns (Blamed m (asking s)) After) (seek m held (asking s))
  unfolding seek
  asking-After held s at = elim (Bool-cases m.has_writer) [
    | inl y ↦ rw y tt
    | inr free ↦
        let shut : holds_lock e ≡ false = sym inv.shape.writer ∙ free in
        rw free (
          subst
            (λ b.
              After (record m { readers = m.readers + 1; has_writer = b }, seeker held (reading s)))
            shut
            (lock-After (seeker held (asking s)) (seeker held (reading s)) (m.readers + 1) at
              (λ a. refl)
              (omega (
                arith,
                inv.shape.readers_counted,
                total-set reads xs i (seeker held (asking s)) (seeker held (reading s)) at,
              ))
              (λ bad. cc)))
  ]

  leaving-After :
      (held next : Option ℕ)
      → get_elem? xs i ≡ some (seeker held (leaving next))
      → IfReady (Returns (Blamed m (leaving next)) After) (seek m held (leaving next))
  unfolding seek
  leaving-After held next at =
      subst
        (λ b.
          After
            (record m { readers = m.readers - 1; has_writer = b }, seeker held (unlocking next)))
        (sym inv.shape.writer)
        (lock-After (seeker held (leaving next)) (seeker held (unlocking next)) (m.readers - 1) at
          (λ a. refl)
          (omega (
            arith,
            inv.shape.readers_counted,
            total-set reads xs i (seeker held (leaving next)) (seeker held (unlocking next)) at,
            total-ge reads xs i (seeker held (leaving next)) at,
          ))
          (λ h. omega (arith, inv.shape.exclusive h, inv.shape.readers_counted)))

  -- A rule is written again, with its users counted again.
  write-After :
      (x x' : Seeker) (a : ℕ) (r r' : Action) (f : ℕ → Bool)
      → get_elem? xs i ≡ some x
      → m.rules a ≡ some r
      → r'.accessors ≡ pos (total (uses a) (set xs i x'))
      → (r'.emptying ≡ r.emptying)
      → (r.emptying ≡ true → uses a x' ≤ uses a x)
      → ((b : ℕ) → a ≢ b → uses b x' ≡ uses b x)
      → reads x' ≡ reads x
      → ((b : ℕ) → a ≢ b → f b ≡ m.asleep b)
      → (r.emptying ≡ true → f a ≡ true → 0 < total (uses a) (set xs i x'))
      → After (record (write_rule m a (some r')) { asleep = f }, x')
  write-After x x' a r r' f at live counted mark less others same sleep wakes =
      let others' : (b : ℕ) → a ≢ b → total (uses b) (set xs i x') ≡ count b =
        λ b h. omega (arith, total-set (uses b) xs i x x' at, others b h) in
      record {
        shape =
            subst
              (Shape (record (write_rule m a (some r')) { asleep = f }) (holds_lock e)
                (λ b. total (uses b) (set xs i x')))
              (omega (arith, total-set reads xs i x x' at, same))
              (Shape-asleep (write_rule m a (some r')) (holds_lock e) _ (total reads xs) f (
                Shape-write m (holds_lock e) count _ (total reads xs) a r r' inv.shape live counted
                  others'));
        claim =
            IsClaimed-write m count _ e a r r' f live (λ h. mark ∙ h)
              (λ h. omega (arith, total-set (uses a) xs i x x' at, less h)) others' sleep wakes
              inv.claim;
      }

  entered-accessors :
      (r : Action) (n : ℕ) → r.accessors ≡ pos n → (entered r).accessors ≡ pos (n + 1)
  entered-accessors r n h = ap increment_ℤ h

  -- The users of the rule that a search found are one more.
  Locks-After :
      (held : Option ℕ) (s : Search)
      → get_elem? xs i ≡ some (seeker held (reading s))
      → (o : Option ℕ) (m' : Memory) → Locks m (o, m')
      → After (m', seeker held (leaving o))
  Locks-After held s at none m' same =
      subst (λ n. After (n, seeker held (leaving none))) (sym same)
        (stay-After (seeker held (reading s)) (seeker held (leaving none)) at (λ a. refl) refl)
  Locks-After held s at (some a) m' (r, live, free, same) =
      let x = seeker held (reading s) in
      let x' = seeker held (leaving (some a)) in
      let counted : r.accessors ≡ pos (count a) =
        subst (λ o. Counted o (count a)) live (inv.shape.counted a) in
      let more : count a + 1 ≡ total (uses a) (set xs i x') =
        ground (arith, total-set (uses a) xs i x x' at) in
      subst (λ n. After (n, x')) (sym same)
        (write-After x x' a r (entered r) m.asleep at live
          (entered-accessors r (count a) counted ∙ ap pos more) refl (λ bad. cc)
          (λ b h. ground arith) refl (λ b h. refl) (λ bad. cc))

  reading-After :
      (held : Option ℕ) (s : Search)
      → get_elem? xs i ≡ some (seeker held (reading s))
      → IfReady (Returns (SearchFault m s) After) (seek m held (reading s))
  unfolding seek
  reading-After held s at =
      Returns->>= (SearchFault m s) (Locks m) After (found m s) _
        (found-Returns m s inv.shape.listed) (λ r h. Locks-After held s at r.0 r.1 h)

  unlocking-After :
      (held next : Option ℕ)
      → get_elem? xs i ≡ some (seeker held (unlocking next))
      → IfReady (Returns (Blamed m (unlocking next)) After) (seek m held (unlocking next))
  unfolding seek
  unlocking-After none next at =
      stay-After (seeker none (unlocking next)) (seeker next resting) at (λ a. omega arith) refl
  unlocking-After (some a) next at =
      let x = seeker (some a) (unlocking next) in
      let x' = seeker next resting in
      let used : 1 ≤ count a = ground (arith, total-ge (uses a) xs i x at) in
      let (r, live) = Counted-live (m.rules a) (count a) (inv.shape.counted a) used in
      let counted : r.accessors ≡ pos (count a) =
        subst (λ o. Counted o (count a)) live (inv.shape.counted a) in
      let one_less : count a ≡ suc (total (uses a) (set xs i x')) =
        ground (arith, total-set (uses a) xs i x x' at) in
      let left : (unlocked_rule r).accessors ≡ pos (total (uses a) (set xs i x')) =
        ap decrement_ℤ (counted ∙ ap pos one_less) in
      rw (load-live m a r live) (
        write-After x x' a r (unlocked_rule r) (after_signal a (unlocked_rule r) m.asleep) at live
          left refl (λ _. ground arith) (λ b h. ground arith) refl (λ b h. ground arith)
          (λ mark h. signal_wakes a (unlocked_rule r) m.asleep _ left mark h))

  seek_phase :
      (held : Option ℕ) (p : Phase)
      → get_elem? xs i ≡ some (seeker held p)
      → IfReady (Returns (Blamed m p) After) (seek m held p)
  unfolding seek
  seek_phase held resting at = tt
  seek_phase held (asking s) at = asking-After held s at
  seek_phase held (reading s) at = reading-After held s at
  seek_phase held (leaving next) at = leaving-After held next at
  seek_phase held (unlocking next) at = unlocking-After held next at

  -- A step of any seeker ends, with all as it should be.
  pub seek-After :
      (x : Seeker)
      → get_elem? xs i ≡ some x
      → IfReady (Returns (Blamed m x.phase) After) (seek m x.held x.phase)
  seek-After x at = seek_phase x.held x.phase at

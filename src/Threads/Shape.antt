-- ===== src/Threads/Shape.antt =====
-- What holds of the shared memory between two steps: the accessors of a rule are the threads that use
-- it, no rule in the table is freed, and no two lines share one.
use libinject.Base.{
  ℕ, ◌≤◌, Bool, true, false, Option, none, some, ◌≡◌, ◌≢◌, refl, sym, ◌∙◌, subst, arith, pos,
  eq_or_ne, lt_or_le, ◌<◌, inl, inr,
}
use libinject.Rule.{Action}
use libinject.Threads.{
  Memory, line_of, write_rule, Editor, idle, ordered, inside, emptying, waiting, sleeping, emptied,
  changing, finishing,
}

abbrev pub Counted : Option Action → ℕ → Type 0
Counted none n = n ≡ 0
Counted (some r) n = r.accessors ≡ pos n

abbrev pub IsLive : Memory → ℕ → Type 0
IsLive m a = (r : Action) × (m.rules a ≡ some r)

abbrev pub IsLiveOption : Memory → Option ℕ → Type 0
IsLiveOption m none = Unit
IsLiveOption m (some a) = IsLive m a

-- `uses a` threads use the rule at `a`, and `readers` hold the lock for reading.
pub record Shape (m : Memory) (locked : Bool) (uses : ℕ → ℕ) (readers : ℕ) : Type 0 where
  pub readers_counted : m.readers ≡ readers
  pub writer : m.has_writer ≡ locked
  pub exclusive : locked ≡ true → readers ≡ 0
  pub counted : (a : ℕ) → Counted (m.rules a) (uses a)
  pub listed : (i a : ℕ) → line_of m i ≡ some a → IsLive m a
  pub apart : (i j a : ℕ) → line_of m i ≡ some a → line_of m j ≡ some a → i ≡ j
  pub unborn : (a : ℕ) → m.fresh ≤ a → m.rules a ≡ none

abbrev pub holds_lock : Editor → Bool
holds_lock (inside _) = true
holds_lock (changing _ _) = true
holds_lock finishing = true
holds_lock _ = false

abbrev IsMarked : Option Action → Type 0
IsMarked none = Unit
IsMarked (some r) = r.emptying ≡ true

-- A line whose rule is being emptied.
pub record Claimed (m : Memory) (i : ℕ) : Type 0 where
  pub address : ℕ
  pub rule : Action
  pub at_line : line_of m i ≡ some address
  pub at_address : m.rules address ≡ some rule
  pub marked : rule.emptying ≡ true

-- Nobody uses the rule of the line any more.
abbrev pub IsFree : Memory → (ℕ → ℕ) → ℕ → Type 0
IsFree m u i = (c : Claimed m i) × (u c.address ≡ 0)

-- Who sleeps until nobody uses the rule of the line is not left asleep by the last user.
abbrev pub IsAwaited : Memory → (ℕ → ℕ) → ℕ → ℕ → Type 0
IsAwaited m u i a = (c : Claimed m i) × (c.address ≡ a) × (m.asleep a ≡ true → 0 < u a)

-- What an editor relies on while it is at work.
abbrev pub IsClaimed : Memory → (ℕ → ℕ) → Editor → Type 0
IsClaimed m uses (waiting i _) = Claimed m i
IsClaimed m uses (sleeping i a _) = IsAwaited m uses i a
IsClaimed m uses (emptied i _) = IsFree m uses i
IsClaimed m uses (changing i _) = IsFree m uses i
IsClaimed m uses _ = Unit

-- Reading after a write.
pub rules-written : (m : Memory) (a : ℕ) (v : Option Action) → (write_rule m a v).rules a ≡ v
rules-written m a v = ground arith

pub rules-other :
    (m : Memory) (a b : ℕ) (v : Option Action) → a ≢ b → (write_rule m a v).rules b ≡ m.rules b
rules-other m a b v h = ground arith

-- Every address is counted again after a write at one.
pub Counted-write :
    (m : Memory) (u u' : ℕ → ℕ) (a : ℕ) (v : Option Action)
    → ((b : ℕ) → Counted (m.rules b) (u b))
    → Counted v (u' a)
    → ((b : ℕ) → a ≢ b → u' b ≡ u b)
    → (b : ℕ) → Counted ((write_rule m a v).rules b) (u' b)
Counted-write m u u' a v s here others b = elim (eq_or_ne a b) [
  | inl same ↦
      subst (λ k. Counted ((write_rule m a v).rules k) (u' k)) same
        (subst (λ o. Counted o (u' a)) (sym (rules-written m a v)) here)
  | inr apart ↦
      subst (λ o. Counted o (u' b)) (sym (rules-other m a b v apart))
        (subst (Counted (m.rules b)) (sym (others b apart)) (s b))
]

-- A rule that is written again as a rule is live, and so are the others.
pub IsLive-write :
    (m : Memory) (a b : ℕ) (r : Action) → IsLive m b → IsLive (write_rule m a (some r)) b
IsLive-write m a b r (q, e) = elim (eq_or_ne a b) [
  | inl same ↦
      (r, subst (λ k. (write_rule m a (some r)).rules k ≡ some r) same (rules-written m a (some r)))
  | inr apart ↦ (q, rules-other m a b (some r) apart ∙ e)
]

pub live-born :
    (m : Memory) (a : ℕ) → ((b : ℕ) → m.fresh ≤ b → m.rules b ≡ none) → IsLive m a → (a < m.fresh)
live-born m a h (r, e) = elim (lt_or_le a m.fresh) [
  | inl below ↦ below
  | inr above ↦ let gone : m.rules a ≡ none = h a above in cc
]

-- The rule at an address is written again, still a rule.
pub Shape-write :
    (m : Memory) (w : Bool) (u u' : ℕ → ℕ) (n a : ℕ) (r r' : Action)
    → Shape m w u n
    → m.rules a ≡ some r
    → r'.accessors ≡ pos (u' a)
    → ((b : ℕ) → a ≢ b → u' b ≡ u b)
    → Shape (write_rule m a (some r')) w u' n
Shape-write m w u u' n a r r' s e count others = record {
  readers_counted = s.readers_counted;
  writer = s.writer;
  exclusive = s.exclusive;
  counted = Counted-write m u u' a (some r') s.counted count others;
  listed = λ i b f. IsLive-write m a b r' (s.listed i b f);
  apart = s.apart;
  unborn = λ b h.
      let born = live-born m a s.unborn (r, e) in
      rules-other m a b (some r') (omega arith) ∙ s.unborn b h;
}

Claimed-write :
    (m : Memory) (i a : ℕ) (r r' : Action)
    → m.rules a ≡ some r
    → (r.emptying ≡ true → r'.emptying ≡ true)
    → (c : Claimed m i) → (d : Claimed (write_rule m a (some r')) i) × (d.address ≡ c.address)
Claimed-write m i a r r' e keeps c = elim (eq_or_ne a c.address) [
  | inl same ↦
      let own : some r ≡ some c.rule =
        sym e ∙ subst (λ k. m.rules k ≡ some c.rule) (sym same) c.at_address in
      let marked : r.emptying ≡ true = subst (IsMarked) (sym own) c.marked in
      (
        record {
          address = c.address;
          rule = r';
          at_line = c.at_line;
          at_address =
              subst (λ k. (write_rule m a (some r')).rules k ≡ some r') same
                (rules-written m a (some r'));
          marked = keeps marked;
        },
        refl,
      )
  | inr apart ↦ (
    record {
      address = c.address;
      rule = c.rule;
      at_line = c.at_line;
      at_address = rules-other m a c.address (some r') apart ∙ c.at_address;
      marked = c.marked;
    },
    refl,
  )
]

IsFree-write :
    (m : Memory) (u u' : ℕ → ℕ) (i a : ℕ) (r r' : Action)
    → m.rules a ≡ some r
    → (r.emptying ≡ true → r'.emptying ≡ true)
    → (r.emptying ≡ true → u' a ≤ u a)
    → ((b : ℕ) → a ≢ b → u' b ≡ u b)
    → IsFree m u i
    → IsFree (write_rule m a (some r')) u' i
IsFree-write m u u' i a r r' e keeps less others (c, zero_uses) =
    let (d, same) = Claimed-write m i a r r' e keeps c in
    (
      d,
      subst (λ k. u' k ≡ 0) (sym same)
          (elim (eq_or_ne a c.address) [
            | inr apart ↦ others c.address apart ∙ zero_uses
            | inl here ↦
                let own : some r ≡ some c.rule =
                  sym e ∙ subst (λ k. m.rules k ≡ some c.rule) (sym here) c.at_address in
                let bound : u' a ≤ u a = less (subst IsMarked (sym own) c.marked) in
                subst (λ k. u' k ≡ 0) here
                  (let none_left : u a ≡ 0 = subst (λ k. u k ≡ 0) (sym here) zero_uses in
                    omega arith)
          ]),
    )

pub Shape-asleep :
    (m : Memory) (w : Bool) (u : ℕ → ℕ) (n : ℕ) (f : ℕ → Bool)
    → Shape m w u n
    → Shape (record m { asleep = f }) w u n
Shape-asleep m w u n f s = record {
  readers_counted = s.readers_counted;
  writer = s.writer;
  exclusive = s.exclusive;
  counted = s.counted;
  listed = s.listed;
  apart = s.apart;
  unborn = s.unborn;
}

pub Claimed-asleep :
    (m : Memory) (i : ℕ) (f : ℕ → Bool)
    → (c : Claimed m i) → (d : Claimed (record m { asleep = f }) i) × (d.address ≡ c.address)
Claimed-asleep m i f c = (
  record {
    address = c.address;
    rule = c.rule;
    at_line = c.at_line;
    at_address = c.at_address;
    marked = c.marked;
  },
  refl,
)

IsFree-asleep :
    (m : Memory) (u : ℕ → ℕ) (i : ℕ) (f : ℕ → Bool)
    → IsFree m u i
    → IsFree (record m { asleep = f }) u i
unfolding Claimed-asleep
IsFree-asleep m u i f (c, free) = ((Claimed-asleep m i f c).0, free)

-- A rule is written again, and its sleeper is awake if nobody uses it any more.
IsAwaited-write :
    (m : Memory) (u u' : ℕ → ℕ) (i b a : ℕ) (r r' : Action) (f : ℕ → Bool)
    → m.rules a ≡ some r
    → (r.emptying ≡ true → r'.emptying ≡ true)
    → ((b : ℕ) → a ≢ b → u' b ≡ u b)
    → ((b : ℕ) → a ≢ b → f b ≡ m.asleep b)
    → (r.emptying ≡ true → f a ≡ true → 0 < u' a)
    → IsAwaited m u i b
    → IsAwaited (record (write_rule m a (some r')) { asleep = f }) u' i b
IsAwaited-write m u u' i b a r r' f e keeps others same_sleep wakes (c, at, used) =
    let (d, same) = Claimed-write m i a r r' e keeps c in
    let d' = Claimed-asleep (write_rule m a (some r')) i f d in
    (
      d'.0,
      d'.1 ∙ same ∙ at,
      elim (eq_or_ne a b) [
        | inr apart ↦
            λ h. subst (λ k. 0 < k) (sym (others b apart)) (used (sym (same_sleep b apart) ∙ h))
        | inl here ↦
            let own : some r ≡ some c.rule =
              sym e ∙ subst (λ k. m.rules k ≡ some c.rule) (at ∙ sym here) c.at_address in
            subst (λ k. f k ≡ true → 0 < u' k) here (wakes (subst IsMarked (sym own) c.marked))
      ],
    )

-- A rule that is being emptied gets no new user.
pub IsClaimed-write :
    (m : Memory) (u u' : ℕ → ℕ) (e : Editor) (a : ℕ) (r r' : Action) (f : ℕ → Bool)
    → m.rules a ≡ some r
    → (r.emptying ≡ true → r'.emptying ≡ true)
    → (r.emptying ≡ true → u' a ≤ u a)
    → ((b : ℕ) → a ≢ b → u' b ≡ u b)
    → ((b : ℕ) → a ≢ b → f b ≡ m.asleep b)
    → (r.emptying ≡ true → f a ≡ true → 0 < u' a)
    → IsClaimed m u e
    → IsClaimed (record (write_rule m a (some r')) { asleep = f }) u' e
IsClaimed-write m u u' idle a r r' f h keeps less others sleep wakes c = tt
IsClaimed-write m u u' (ordered e) a r r' f h keeps less others sleep wakes c = tt
IsClaimed-write m u u' (inside e) a r r' f h keeps less others sleep wakes c = tt
IsClaimed-write m u u' (emptying i v) a r r' f h keeps less others sleep wakes c = tt
IsClaimed-write m u u' (waiting i v) a r r' f h keeps less others sleep wakes c =
    (Claimed-asleep (write_rule m a (some r')) i f (Claimed-write m i a r r' h keeps c).0).0
IsClaimed-write m u u' (sleeping i b v) a r r' f h keeps less others sleep wakes c =
    IsAwaited-write m u u' i b a r r' f h keeps others sleep wakes c
IsClaimed-write m u u' (emptied i v) a r r' f h keeps less others sleep wakes c =
    IsFree-asleep (write_rule m a (some r')) u' i f
      (IsFree-write m u u' i a r r' h keeps less others c)
IsClaimed-write m u u' (changing i v) a r r' f h keeps less others sleep wakes c =
    IsFree-asleep (write_rule m a (some r')) u' i f
      (IsFree-write m u u' i a r r' h keeps less others c)
IsClaimed-write m u u' finishing a r r' f h keeps less others sleep wakes c = tt

-- Only the lock changes.
pub Shape-lock :
    (m : Memory) (w : Bool) (u u' : ℕ → ℕ) (n k : ℕ) (b : Bool)
    → Shape m w u n
    → (b ≡ true → k ≡ 0)
    → ((a : ℕ) → u' a ≡ u a)
    → Shape (record m { readers = k; has_writer = b }) b u' k
Shape-lock m w u u' n k b s alone same = record {
  readers_counted = refl;
  writer = refl;
  exclusive = alone;
  counted = λ a. subst (Counted (m.rules a)) (sym (same a)) (s.counted a);
  listed = s.listed;
  apart = s.apart;
  unborn = s.unborn;
}

Claimed-lock :
    (m : Memory) (k : ℕ) (b : Bool) (i : ℕ)
    → (c : Claimed m i)
    → (d : Claimed (record m { readers = k; has_writer = b }) i) × (d.address ≡ c.address)
Claimed-lock m k b i c = (
  record {
    address = c.address;
    rule = c.rule;
    at_line = c.at_line;
    at_address = c.at_address;
    marked = c.marked;
  },
  refl,
)

pub IsFree-lock :
    (m : Memory) (u u' : ℕ → ℕ) (k : ℕ) (b : Bool) (i : ℕ)
    → ((a : ℕ) → u' a ≡ u a)
    → IsFree m u i
    → IsFree (record m { readers = k; has_writer = b }) u' i
IsFree-lock m u u' k b i same (c, free) =
    let (d, at) = Claimed-lock m k b i c in
    (d, subst (λ a. u' a ≡ 0) (sym at) (same c.address ∙ free))

pub IsClaimed-lock :
    (m : Memory) (u u' : ℕ → ℕ) (k : ℕ) (b : Bool) (e : Editor)
    → ((a : ℕ) → u' a ≡ u a)
    → IsClaimed m u e
    → IsClaimed (record m { readers = k; has_writer = b }) u' e
IsClaimed-lock m u u' k b idle same c = tt
IsClaimed-lock m u u' k b (ordered e) same c = tt
IsClaimed-lock m u u' k b (inside e) same c = tt
IsClaimed-lock m u u' k b (emptying i v) same c = tt
IsClaimed-lock m u u' k b (waiting i v) same c = (Claimed-lock m k b i c).0
IsClaimed-lock m u u' k b (sleeping i a v) same (c, at, used) =
    let d = Claimed-lock m k b i c in
    (d.0, d.1 ∙ at, λ h. subst (λ n. 0 < n) (sym (same a)) (used h))
IsClaimed-lock m u u' k b (emptied i v) same c = IsFree-lock m u u' k b i same c
IsClaimed-lock m u u' k b (changing i v) same c = IsFree-lock m u u' k b i same c
IsClaimed-lock m u u' k b finishing same c = tt

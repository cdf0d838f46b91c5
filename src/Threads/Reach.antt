-- ===== src/Threads/Reach.antt =====
-- Every state that a table of unused rules, one editor and any number of seekers come to keeps the
-- shape of the shared memory.
use libinject.Base.{
  ℕ, zero, suc, ◌+◌, ◌≤◌, false, Option, none, some, List, [], ◌∷◌, ◌≡◌, refl, sym, ◌∙◌, subst, ap,
  arith, pos, set, get_or, get_elem?, length, replicate,
}
use libinject.Outcome.{Outcome, done, fault}
use libinject.Queue.{ActionQueue, line_at}
use libinject.Rule.{Action}
use libinject.Threads.{
  Memory, line_of, Seeker, Phase, resting, asking, reading, leaving, unlocking, seek, Edit, Editor,
  idle, ordered, inside, emptying, waiting, sleeping, emptied, changing, finishing, edit, System,
  Turn, seeks, starts, lets_go, edits, orders, wakes, wakes_up, with_seeker, with_editor, then_in,
  begins, begins_edit, of_thread, advance, turn, Steps, here, next, addresses, memory_of, newcomer,
  system_of,
}
use libinject.Threads.Counts.{total, total-replicate, uses, reads}
use libinject.Threads.Edits.{edit-Fits, EndsFor, Fits}
use libinject.Threads.Seeks.{Inv, seek-After, stay-After, Returns, IfReady, Blamed}
use libinject.Threads.Shape.{Counted, Shape, holds_lock, IsClaimed}

-- The state of one editor and the seekers.
pub record SystemInv (s : System) : Type 0 where
  pub editor : Editor
  pub alone : s.editors ≡ editor ∷ []
  pub inv : Inv s.memory editor s.seekers

then_in-some :
    {A : Type 0} (f : A → System) (o : Option (Outcome A)) (t : System)
    → then_in f o ≡ some (done t)
    → (a : A) × (o ≡ some (done a)) × (t ≡ f a)
then_in-some f none t e = cc
then_in-some f (some (fault g)) t e = cc
then_in-some f (some (done a)) t e = (a, refl, cc)

pub of_thread-some :
    {A : Type 0} (f : A → Option (Outcome System)) (o : Option A) (r : Outcome System)
    → of_thread f o ≡ some r
    → (x : A) × (o ≡ some x) × (f x ≡ some r)
of_thread-some f none r e = cc
of_thread-some f (some x) r e = (x, refl, e)

begins-some :
    (s : System) (i : ℕ) (p : Phase) (held : Option ℕ) (q : Phase) (t : System)
    → begins s i p (record { held = held; phase = q }) ≡ some (done t)
    → (q ≡ resting) × (t ≡ with_seeker s i (s.memory, record { held = held; phase = p }))
begins-some s i p held resting t e = (refl, cc)
begins-some s i p held (asking _) t e = cc
begins-some s i p held (reading _) t e = cc
begins-some s i p held (leaving _) t e = cc
begins-some s i p held (unlocking _) t e = cc

begins_edit-some :
    (s : System) (j : ℕ) (e : Edit) (d : Editor) (t : System)
    → begins_edit s j e d ≡ some (done t)
    → (d ≡ idle) × (t ≡ with_editor s j (s.memory, ordered e))
begins_edit-some s j e idle t h = (refl, cc)
begins_edit-some s j e (ordered _) t h = cc
begins_edit-some s j e (inside _) t h = cc
begins_edit-some s j e (emptying _ _) t h = cc
begins_edit-some s j e (waiting _ _) t h = cc
begins_edit-some s j e (sleeping _ _ _) t h = cc
begins_edit-some s j e (emptied _ _) t h = cc
begins_edit-some s j e (changing _ _) t h = cc
begins_edit-some s j e finishing t h = cc

wakes_up-some :
    (s : System) (j : ℕ) (d : Editor) (t : System)
    → wakes_up s j d ≡ some (done t)
    → (i : ℕ) × (a : ℕ) × (v : Option Action) × (d ≡ sleeping i a v)
      × (t ≡ with_editor s j (s.memory, waiting i v))
wakes_up-some s j idle t h = cc
wakes_up-some s j (ordered _) t h = cc
wakes_up-some s j (inside _) t h = cc
wakes_up-some s j (emptying _ _) t h = cc
wakes_up-some s j (waiting _ _) t h = cc
wakes_up-some s j (sleeping i a v) t h = (i, a, v, refl, cc)
wakes_up-some s j (emptied _ _) t h = cc
wakes_up-some s j (changing _ _) t h = cc
wakes_up-some s j finishing t h = cc

-- The only editor is the first.
pub only_editor :
    (e d : Editor) (es : List Editor) (j : ℕ)
    → es ≡ e ∷ []
    → get_elem? es j ≡ some d
    → (j ≡ 0) × (e ≡ d)
only_editor e d es j alone at = only e d j (subst (λ l. get_elem? l j ≡ some d) alone at)
  where
    only : (e d : Editor) (j : ℕ) → get_elem? (e ∷ []) j ≡ some d → (j ≡ 0) × (e ≡ d)
    only e d zero at = (refl, cc)
    only e d (suc j) at = cc

-- A value that a step leaves, where its result is known.
pub result-holds :
    {A : Type 0} (P : Outcome A → Type 0) (o : Option (Outcome A)) (r : Outcome A)
    → IfReady P o
    → o ≡ some r
    → P r
result-holds P o r h e = subst (IfReady P) e h

module _ (s t : System) (si : SystemInv s) where
  seeker-Inv :
      (i : ℕ) (r : Memory × Seeker)
      → Inv r.0 si.editor (set s.seekers i r.1)
      → t ≡ with_seeker s i r
      → SystemInv t
  seeker-Inv i r inv e =
      subst SystemInv (sym e) (record { editor = si.editor; alone = si.alone; inv = inv })

  editor-Inv : (r : Memory × Editor) → Inv r.0 r.1 s.seekers → t ≡ with_editor s 0 r → SystemInv t
  editor-Inv r inv e =
      subst SystemInv (sym e)
        (record { editor = r.1; alone = ap (λ l. set l 0 r.1) si.alone; inv = inv })

  begun-Inv :
      (i : ℕ) (p : Phase)
      → ((a : ℕ) (held : Option ℕ)
          → uses a (record { held = held; phase = p })
            ≡ uses a (record { held = held; phase = resting }))
      → ((held : Option ℕ) → reads (record { held = held; phase = p }) ≡ 0)
      → of_thread (begins s i p) (get_elem? s.seekers i) ≡ some (done t)
      → SystemInv t
  begun-Inv i p same unread e =
      let (x, at, f) = of_thread-some (begins s i p) (get_elem? s.seekers i) (done t) e in
      let (rests, g) = begins-some s i p x.held x.phase t f in
      let was : Seeker = record { held = x.held; phase = resting } in
      let at' : get_elem? s.seekers i ≡ some was =
        at ∙ ap (λ q. some (record { held = x.held; phase = q })) rests in
      seeker-Inv i (s.memory, record { held = x.held; phase = p })
        (stay-After s.memory si.editor s.seekers si.inv i was (record { held = x.held; phase = p })
          at' (λ a. same a x.held) (unread x.held))
        g

  advance-Inv : (k : Turn) → advance k s ≡ some (done t) → SystemInv t
  unfolding advance
  advance-Inv (seeks i) e =
      let (x, at, f) = of_thread-some _ (get_elem? s.seekers i) (done t) e in
      let (r, g, h) = then_in-some (with_seeker s i) (seek s.memory x.held x.phase) t f in
      seeker-Inv i r
        (result-holds
          (Returns (Blamed s.memory x.phase) (λ r. Inv r.0 si.editor (set s.seekers i r.1))) _
          (done r) (seek-After s.memory si.editor s.seekers si.inv i x at) g)
        h
  advance-Inv (starts i q) e = begun-Inv i (asking q) (λ a held. refl) (λ held. refl) e
  advance-Inv (lets_go i) e = begun-Inv i (unlocking none) (λ a held. refl) (λ held. refl) e
  advance-Inv (edits j) e =
      let (d, at, f) = of_thread-some _ (get_elem? s.editors j) (done t) e in
      let (first, same) = only_editor si.editor d s.editors j si.alone at in
      let (r, g, h) = then_in-some (with_editor s j) (edit s.memory d) t f in
      let count : ℕ → ℕ = λ a. total (uses a) s.seekers in
      let fits =
        result-holds (EndsFor s.memory si.editor (Fits s.memory count (total reads s.seekers)))
          (edit s.memory si.editor) (done r)
          (edit-Fits s.memory count (total reads s.seekers) si.editor si.inv.shape si.inv.claim)
          (ap (edit s.memory) same ∙ g) in
      editor-Inv r (record { shape = fits.0; claim = fits.1 })
        (h ∙ ap (λ j. with_editor s j r) first)
  advance-Inv (orders j o) e =
      let (d, at, f) = of_thread-some _ (get_elem? s.editors j) (done t) e in
      let (first, same) = only_editor si.editor d s.editors j si.alone at in
      let (was_idle, h) = begins_edit-some s j o d t f in
      let count : ℕ → ℕ = λ a. total (uses a) s.seekers in
      let shape : Shape s.memory false count (total reads s.seekers) =
        subst (λ d. Shape s.memory (holds_lock d) count (total reads s.seekers)) (same ∙ was_idle)
          si.inv.shape in
      editor-Inv (s.memory, ordered o) (record { shape = shape; claim = tt })
        (h ∙ ap (λ j. with_editor s j (s.memory, ordered o)) first)
  advance-Inv (wakes j) e =
      let (d, at, f) = of_thread-some _ (get_elem? s.editors j) (done t) e in
      let (first, same) = only_editor si.editor d s.editors j si.alone at in
      let (i, a, v, slept, h) = wakes_up-some s j d t f in
      let count : ℕ → ℕ = λ a. total (uses a) s.seekers in
      let asleep : si.editor ≡ sleeping i a v = same ∙ slept in
      let shape : Shape s.memory false count (total reads s.seekers) =
        subst (λ d. Shape s.memory (holds_lock d) count (total reads s.seekers)) asleep
          si.inv.shape in
      let claim : IsClaimed s.memory count (sleeping i a v) =
        subst (IsClaimed s.memory count) asleep si.inv.claim in
      editor-Inv (s.memory, waiting i v) (record { shape = shape; claim = claim.0 })
        (h ∙ ap (λ j. with_editor s j (s.memory, waiting i v)) first)

pub Steps-Inv : {s t : System} → SystemInv s → Steps s t → SystemInv t
Steps-Inv h here = h
Steps-Inv h (next {t} {u} r (turn k e)) = advance-Inv t u (Steps-Inv h r) k e

-- The rules as they were read from the file: nobody uses them.
abbrev pub AreUnused : ActionQueue → Type 0
AreUnused q = (i : ℕ) (r : Action) → line_at q i ≡ some r → r.accessors ≡ pos 0

address-line :
    (k : ℕ) (q : ActionQueue) (i a : ℕ)
    → get_or (addresses k q) i none ≡ some a
    → (a ≡ k + i) × (r : Action) × (line_at q i ≡ some r)
address-line k [] i a e = cc
address-line k (none ∷ q) zero a e = cc
address-line k (some r ∷ q) zero a e =
    let same : k ≡ a = ap (λ o. elim o [ none ↦ k | some b ↦ b ]) e in (omega arith, r, refl)
address-line k (none ∷ q) (suc i) a e =
    let (at, r, h) = address-line (k + 1) q i a e in (omega arith, r, h)
address-line k (some _ ∷ q) (suc i) a e =
    let (at, r, h) = address-line (k + 1) q i a e in (omega arith, r, h)

beyond : (q : ActionQueue) (a : ℕ) → length q ≤ a → line_at q a ≡ none
beyond [] a h = refl
beyond (x ∷ q) zero h = absurd (omega arith)
beyond (x ∷ q) (suc a) h = beyond q a (omega arith)

Counted-unused :
    (o : Option Action) → ((r : Action) → o ≡ some r → r.accessors ≡ pos 0) → Counted o 0
Counted-unused none h = refl
Counted-unused (some r) h = h r refl

pub memory_of-Inv :
    (q : ActionQueue) (n : ℕ) → AreUnused q → Inv (memory_of q) idle (replicate n newcomer)
memory_of-Inv q n unused =
    let m = memory_of q in
    let live : (i a : ℕ) → line_of m i ≡ some a → (a ≡ i) × (r : Action) × (line_at q i ≡ some r) =
      λ i a e. let (at, r, h) = address-line 0 q i a e in (omega arith, r, h) in
    record {
      shape = record {
        readers_counted = sym (total-replicate reads n newcomer refl);
        writer = refl;
        exclusive = λ bad. cc;
        counted = λ a.
            subst (Counted (line_at q a)) (sym (total-replicate (uses a) n newcomer refl))
              (Counted-unused (line_at q a) (unused a));
        listed = λ i a e.
            let (at, r, h) = live i a e in (r, subst (λ k. line_at q k ≡ some r) (sym at) h);
        apart = λ i j a e f. sym (live i a e).0 ∙ (live j a f).0;
        unborn = λ a h. beyond q a h;
      };
      claim = tt;
    }

pub system_of-Inv : (q : ActionQueue) (n : ℕ) → AreUnused q → SystemInv (system_of q n)
system_of-Inv q n unused = record { editor = idle; alone = refl; inv = memory_of-Inv q n unused }

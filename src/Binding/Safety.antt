-- ===== src/Binding/Safety.antt =====
-- The table of sockets of src/binding.c and the infos that it points to: what holds between two
-- calls, during one, and what the operations of the table and the heap do to it.
use libinject.Base.{
  ℕ, zero, suc, ◌<◌, false, Option, none, some, List, [], ◌∷◌, ◌++◌, ◌≡◌, ◌≢◌, inl, inr, refl, sym,
  ap, ◌∙◌, arith, get_or, get_or-set, get_or-set_ne, length-set, set, length, length-append, ℤ, pos,
  eq_or_ne,
}
use libinject.Binding.{Attached}
use libinject.LigHt.{LigHt, hit, capacity, search_from}
use libinject.LigHt.Slots.{datum_in}

abbrev pub Heap : Type 0
Heap = List (Option Attached)

-- The pointer is to an info that was not freed, is not to be destroyed, and has `n` references.
abbrev pub Counts : Heap → ℕ → ℕ → Type 0
Counts heap p n =
    (a : Attached) × (get_or heap p none ≡ some a)
    × (a.info.sem ≡ pos n)
    × (a.info.to_destroy ≡ false)

-- No info is behind two slots.
abbrev pub AreApart : LigHt ℕ → Type 0
AreApart t = (i j p : ℕ) → datum_in t i ≡ some p → datum_in t j ≡ some p → i ≡ j

-- Between two calls: every pointer of the table is to an info that nobody uses.
pub record IsSafe (t : LigHt ℕ) (heap : Heap) : Type 0 where
  pub sized : 0 < capacity t
  pub at_rest : (i p : ℕ) → datum_in t i ≡ some p → Counts heap p 0
  pub apart : AreApart t

-- The same but for the slot of a key.
pub record IsSafeBut (t : LigHt ℕ) (heap : Heap) (key : ℤ) : Type 0 where
  pub sized : 0 < capacity t
  pub below : (i p : ℕ) → datum_in t i ≡ some p → p < length heap
  pub at_rest : (i p : ℕ) → datum_in t i ≡ some p → search_from t key ≢ hit i → Counts heap p 0
  pub apart : AreApart t

-- During a call on a key: the info of the call has one reference, and is behind no other key.
pub record IsHeld (t : LigHt ℕ) (heap : Heap) (key : ℤ) (held : ℕ) : Type 0 where
  pub sized : 0 < capacity t
  pub at_rest : (i p : ℕ) → datum_in t i ≡ some p → p ≢ held → Counts heap p 0
  pub apart : AreApart t
  pub here : (i : ℕ) → datum_in t i ≡ some held → search_from t key ≡ hit i
  pub locked : Counts heap held 1

get_or-lt : (heap : Heap) (p : ℕ) (a : Attached) → get_or heap p none ≡ some a → p < length heap
get_or-lt [] p a h = cc
get_or-lt (x ∷ heap) zero a h = omega arith
get_or-lt (x ∷ heap) (suc p) a h = omega (arith, get_or-lt heap p a h)

get_or-append :
    (heap more : Heap) (p : ℕ) → p < length heap → get_or (heap ++ more) p none ≡ get_or heap p none
get_or-append [] more p h = absurd (omega arith)
get_or-append (x ∷ heap) more zero h = refl
get_or-append (x ∷ heap) more (suc p) h = get_or-append heap more p (omega arith)

pub get_or-append_end :
    (heap : Heap) (x : Option Attached) → get_or (heap ++ x ∷ []) (length heap) none ≡ x
get_or-append_end [] x = refl
get_or-append_end (y ∷ heap) x = get_or-append_end heap x

pub Counts-append :
    (heap : Heap) (x : Option Attached) (p n : ℕ) → Counts heap p n → Counts (heap ++ x ∷ []) p n
Counts-append heap x p n (a, e, c, k) =
    (a, get_or-append heap (x ∷ []) p (get_or-lt heap p a e) ∙ e, c, k)

pub Counts-set :
    (heap : Heap) (x : Option Attached) (p q n : ℕ)
    → q ≢ p
    → Counts heap p n
    → Counts (set heap q x) p n
Counts-set heap x p q n ne (a, e, c, k) = (a, get_or-set_ne heap q p x none ne ∙ e, c, k)

pub get_or-set_live :
    (heap : Heap) (p : ℕ) (a : Attached) (x : Option Attached)
    → get_or heap p none ≡ some a
    → get_or (set heap p x) p none ≡ x
get_or-set_live heap p a x e = get_or-set heap p p x none (get_or-lt heap p a e) ∙ ground arith

-- What is written where an info is.
pub Counts-set_self :
    (heap : Heap) (p m n : ℕ) (a : Attached)
    → Counts heap p m
    → a.info.sem ≡ pos n
    → a.info.to_destroy ≡ false
    → Counts (set heap p (some a)) p n
Counts-set_self heap p m n a (b, e, _, _) c k = (a, get_or-set_live heap p b (some a) e, c, k)

pub IsSafe-IsSafeBut : (t : LigHt ℕ) (heap : Heap) (key : ℤ) → IsSafe t heap → IsSafeBut t heap key
IsSafe-IsSafeBut t heap key s = record {
  sized = s.sized;
  below = λ i p e. let (a, f, _, _) = s.at_rest i p e in get_or-lt heap p a f;
  at_rest = λ i p e _. s.at_rest i p e;
  apart = s.apart;
}

pub IsSafe-append :
    (t : LigHt ℕ) (heap : Heap) (x : Option Attached) → IsSafe t heap → IsSafe t (heap ++ x ∷ [])
IsSafe-append t heap x s = record {
  sized = s.sized;
  at_rest = λ i p e. Counts-append heap x p 0 (s.at_rest i p e);
  apart = s.apart;
}

-- The info behind the slot of the key may be freed.
pub IsSafeBut-set :
    (t : LigHt ℕ) (heap : Heap) (key : ℤ) (i p : ℕ) (x : Option Attached)
    → IsSafe t heap
    → search_from t key ≡ hit i
    → datum_in t i ≡ some p
    → IsSafeBut t (set heap p x) key
IsSafeBut-set t heap key i p x s found at = record {
  sized = s.sized;
  below = λ j q e.
      let (a, f, _, _) = s.at_rest j q e in
      let lt = get_or-lt heap q a f in omega (arith, length-set heap p x);
  at_rest = λ j q e other.
      Counts-set heap x q p 0 (λ same. other (ground (arith, s.apart i j p at))) (s.at_rest j q e);
  apart = s.apart;
}

pub IsSafeBut-append :
    (t : LigHt ℕ) (heap : Heap) (key : ℤ) (x : Option Attached)
    → IsSafeBut t heap key
    → IsSafeBut t (heap ++ x ∷ []) key
IsSafeBut-append t heap key x s = record {
  sized = s.sized;
  below = λ i p e. let lt = s.below i p e in omega (arith, length-append heap (x ∷ []));
  at_rest = λ i p e other. Counts-append heap x p 0 (s.at_rest i p e other);
  apart = s.apart;
}

-- The info behind the slot of the key is locked.
pub IsSafe-lock :
    (t : LigHt ℕ) (heap : Heap) (key : ℤ) (i p : ℕ) (a : Attached)
    → IsSafe t heap
    → search_from t key ≡ hit i
    → datum_in t i ≡ some p
    → a.info.sem ≡ pos 1
    → a.info.to_destroy ≡ false
    → IsHeld t (set heap p (some a)) key p
IsSafe-lock t heap key i p a s found at c k = record {
  sized = s.sized;
  at_rest = λ j q e ne. Counts-set heap (some a) q p 0 (λ h. ne (sym h)) (s.at_rest j q e);
  apart = s.apart;
  here = λ j e. found ∙ ap hit (s.apart i j p at e);
  locked = Counts-set_self heap p 0 1 a (s.at_rest i p at) c k;
}

-- The info of a call is changed, but for its references.
pub IsHeld-set :
    (t : LigHt ℕ) (heap : Heap) (key : ℤ) (p : ℕ) (a : Attached)
    → IsHeld t heap key p
    → a.info.sem ≡ pos 1
    → a.info.to_destroy ≡ false
    → IsHeld t (set heap p (some a)) key p
IsHeld-set t heap key p a s c k = record {
  sized = s.sized;
  at_rest = λ j q e ne. Counts-set heap (some a) q p 0 (λ h. ne (sym h)) (s.at_rest j q e ne);
  apart = s.apart;
  here = s.here;
  locked = Counts-set_self heap p 1 1 a s.locked c k;
}

-- The reference is given back.
pub IsHeld-release :
    (t : LigHt ℕ) (heap : Heap) (key : ℤ) (p : ℕ) (a : Attached)
    → IsHeld t heap key p
    → a.info.sem ≡ pos 0
    → a.info.to_destroy ≡ false
    → IsSafe t (set heap p (some a))
IsHeld-release t heap key p a s c k = record {
  sized = s.sized;
  at_rest = λ j q e. elim (eq_or_ne q p) [
    | inl same ↦ rw same (Counts-set_self heap p 1 0 a s.locked c k)
    | inr ne ↦ Counts-set heap (some a) q p 0 (λ h. ne (sym h)) (s.at_rest j q e ne)
  ];
  apart = s.apart;
}

-- The info that no slot points to any more may be freed.
pub IsHeld-free :
    (t : LigHt ℕ) (heap : Heap) (key : ℤ) (p : ℕ) (x : Option Attached)
    → IsHeld t heap key p
    → ((i : ℕ) → datum_in t i ≢ some p)
    → IsSafe t (set heap p x)
IsHeld-free t heap key p x s gone = record {
  sized = s.sized;
  at_rest = λ j q e.
      let ne : q ≢ p = λ h. gone j (rw h at e) in
      Counts-set heap x q p 0 (λ h. ne (sym h)) (s.at_rest j q e ne);
  apart = s.apart;
}

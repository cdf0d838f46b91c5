-- ===== src/LigHt/Put.antt =====
-- LigHT_init, LigHT_put, LigHT_get and LigHT_contains are a map from keys other than -1, with room
-- for as many keys as there are slots.
use libinject.Base.{
  ℕ, zero, suc, ◌<◌, Bool, true, false, Option, none, [], ◌≡◌, ◌≢◌, ◌⊎◌, ◌↔◌, inl, inr, refl, sym,
  ◌∙◌, ap, arith, if◌then◌else◌, set, length-set, pos, replicate, get_or-replicate,
  length-replicate, ℤ, eq_ℤ, eq_ℤ_iff, minus_one, u64_mod, Bool-cases,
}
use libinject.LigHt.Store.{
  IsValid, StopsAt, occupied-replicate, occupied_full, occupied-le, occupied-set, search_from_ends,
  search_from-hit, search_from-free_slot, search_from-nowhere, slot-store, search-store_self,
  search-store_iff, store-IsValid,
}
use libinject.LigHt.{
  LigHt, LigHtEntry, Found, hit, free_slot, nowhere, out_of_fuel, vacant, slot, capacity,
  search_from, store, put, get, contains, init, find_entry,
}

pub Found-cases :
    (f : Found)
    → (((i : ℕ) × (f ≡ hit i)) ⊎ ((i : ℕ) × (f ≡ free_slot i)))
      ⊎ ((f ≡ nowhere) ⊎ (f ≡ out_of_fuel))
Found-cases (hit i) = inl (inl (i, refl))
Found-cases (free_slot i) = inl (inr (i, refl))
Found-cases nowhere = inr (inl refl)
Found-cases out_of_fuel = inr (inr refl)

module _ {ℓ} {V : Type ℓ} where
  -- What `put` does, by where the search for the key ends.
  data Outcome (t : LigHt V) (key : ℤ) (datum : Option V) (replace : Bool) : Type ℓ where
    kept :
        contains t key ≡ true
        → replace ≡ false
        → put t key datum replace ≡ (t, false)
        → Outcome t key datum replace
    stored :
        (i : ℕ)
        → StopsAt t key i
        → ((contains t key ≡ true) × (replace ≡ true))
          ⊎ ((contains t key ≡ false) × (t.count < capacity t))
        → put t key datum replace ≡ (store t i key datum, true)
        → Outcome t key datum replace
    full :
        contains t key ≡ false
        → t.count ≡ capacity t
        → put t key datum replace ≡ (t, false)
        → Outcome t key datum replace

  count-full :
      (t : LigHt V) (key : ℤ) → IsValid t → search_from t key ≡ nowhere → t.count ≡ capacity t
  count-full t key v e =
      v.counted ∙ occupied_full t.entries (λ j hj. (search_from-nowhere t key j v.sized e hj).0)

  count-lt :
      (t : LigHt V) (key : ℤ) (i : ℕ)
      → IsValid t
      → search_from t key ≡ free_slot i
      → t.count < capacity t
  count-lt t key i v e =
      let free = search_from-free_slot t key i v.sized e in
      let full : LigHtEntry V = record { key = pos 0; datum = none } in
      ground (
        arith,
        v.counted,
        free,
        occupied-set t.entries i full,
        occupied-le (set t.entries i full),
        length-set t.entries i full,
      )

  put-Outcome :
      (t : LigHt V) (key : ℤ) (datum : Option V) (replace : Bool)
      → IsValid t
      → key ≢ minus_one
      → Outcome t key datum replace
  unfolding put contains find_entry
  put-Outcome t key datum replace v ne = elim (Found-cases (search_from t key)) [
    | inl (inl (i, e)) ↦ elim (Bool-cases replace) [
      | inl r ↦
          stored i (inl e) (inl (rw e, r))
            (rw (e, r) (ground (arith, search_from-hit t key i v.sized e)))
      | inr r ↦ kept (rw e) r (
          rw (e, r)
            (ground
              (arith, search_from-hit t key i v.sized e, eq_ℤ_iff (slot t.entries i).key key)))
    ]
    | inl (inr (i, e)) ↦ stored i (inr e) (inr (rw e, count-lt t key i v e)) (
        rw e (
          ground
            (arith, search_from-free_slot t key i v.sized e, eq_ℤ_iff (slot t.entries i).key key)))
    | inr (inl e) ↦ full (rw e) (count-full t key v e) (rw e)
    | inr (inr e) ↦ absurd (search_from_ends t key v.sized e)
  ]

  -- `put` of a key that is not -1 keeps a valid table valid, whatever it returns.
  pub put-IsValid :
      (t : LigHt V) (key : ℤ) (datum : Option V) (replace : Bool)
      → IsValid t
      → key ≢ minus_one
      → IsValid (put t key datum replace).0
  put-IsValid t key datum replace v ne = elim (put-Outcome t key datum replace v ne) [
    | kept _ _ e ↦ rw e v
    | stored i stop _ e ↦ rw e (store-IsValid t i key datum v ne stop)
    | full _ _ e ↦ rw e v
  ]

  get-hit :
      (t : LigHt V) (key : ℤ) (i : ℕ)
      → search_from t key ≡ hit i
      → (get t key ≡ (slot t.entries i).datum) × (contains t key ≡ true)
  unfolding get contains find_entry
  get-hit t key i e = rw e (refl, refl)

  get-miss :
      (t : LigHt V) (key : ℤ)
      → ((i : ℕ) → search_from t key ≢ hit i)
      → (get t key ≡ none) × (contains t key ≡ false)
  unfolding get contains find_entry
  get-miss t key h = elim (Found-cases (search_from t key)) [
    | inl (inl (i, e)) ↦ absurd (h i e)
    | inl (inr (i, e)) ↦ rw e (refl, refl)
    | inr (inl e) ↦ rw e (refl, refl)
    | inr (inr e) ↦ rw e (refl, refl)
  ]

  -- Whether the search finds the key.
  pub hit_or_miss :
      (t : LigHt V) (key : ℤ)
      → ((i : ℕ) × (search_from t key ≡ hit i)) ⊎ ((i : ℕ) → search_from t key ≢ hit i)
  hit_or_miss t key = elim (Found-cases (search_from t key)) [
    | inl (inl (i, e)) ↦ inl (i, e)
    | inl (inr (i, e)) ↦ inr (λ j h. cc)
    | inr (inl e) ↦ inr (λ j h. cc)
    | inr (inr e) ↦ inr (λ j h. cc)
  ]

  module _ (t : LigHt V) (i : ℕ) (key : ℤ) (datum : Option V) (v : IsValid t) (ne : key ≢ minus_one)
      (stop : StopsAt t key i) where
    get-store_self :
        (get (store t i key datum) key ≡ datum) × (contains (store t i key datum) key ≡ true)
    get-store_self =
        let (g, c) =
          get-hit (store t i key datum) key i (search-store_self t i key datum v ne stop) in
        (g ∙ ground (arith, slot-store t i key datum v ne stop i), c)

    get-store_other :
        (other : ℤ)
        → other ≢ minus_one
        → other ≢ key
        → (get (store t i key datum) other ≡ get t other)
          × (contains (store t i key datum) other ≡ contains t other)
    get-store_other other o apart = elim (hit_or_miss t other) [
      | inl (j, e) ↦
          let (g, c) = get-hit t other j e in
          let e' = (search-store_iff t i key datum v ne stop other j o apart).1 e in
          let (g', c') = get-hit (store t i key datum) other j e' in
          let sized = (store-IsValid t i key datum v ne stop).sized in
          let same : (slot (store t i key datum).entries j).datum ≡ (slot t.entries j).datum =
            ground (
              arith,
              slot-store t i key datum v ne stop j,
              search_from-hit (store t i key datum) other j sized e',
            ) in
          (g' ∙ same ∙ sym g, c' ∙ sym c)
      | inr m ↦
          let (g, c) = get-miss t other m in
          let (g', c') =
            get-miss (store t i key datum) other
              (λ j h. m j ((search-store_iff t i key datum v ne stop other j o apart).0 h)) in
          (g' ∙ sym g, c' ∙ sym c)
    ]

  -- What a table reads as: the datum stored under each key, if one is.
  abbrev pub read : LigHt V → ℤ → Bool × Option V
  read t key = (contains t key, get t key)

  -- After a `put` into a valid table that returned true, the key reads as the datum, and every other
  -- key as before; -1, the mark of an empty slot, is no key.
  pub read-put :
      (t : LigHt V) (key other : ℤ) (datum : Option V) (replace : Bool)
      → IsValid t
      → key ≢ minus_one
      → other ≢ minus_one
      → (put t key datum replace).1 ≡ true
      → read (put t key datum replace).0 other
        ≡ (if eq_ℤ other key then (true, datum) else read t other)
  read-put t key other datum replace v ne o done = elim (put-Outcome t key datum replace v ne) [
    | kept _ _ e ↦ ground arith
    | full _ _ e ↦ ground arith
    | stored i stop _ e ↦ rw e (elim (Bool-cases (eq_ℤ other key)) [
      | inl q ↦
          rw (q, (eq_ℤ_iff other key).0 q) (ground (arith, get-store_self t i key datum v ne stop))
      | inr q ↦ rw q (
          ground (
            arith,
            eq_ℤ_iff other key,
            get-store_other t i key datum v ne stop other o
                (λ p. ground (arith, eq_ℤ_iff other key)),
          ))
    ])
  ]

  -- On a valid table and a key that is not -1, `put` returns false exactly if the key is there and must not be replaced, or is not there and
  -- every slot is taken.
  pub put_refused :
      (t : LigHt V) (key : ℤ) (datum : Option V) (replace : Bool)
      → IsValid t
      → key ≢ minus_one
      → ((put t key datum replace).1 ≡ false) ↔ (
          ((contains t key ≡ true) × (replace ≡ false))
          ⊎ ((contains t key ≡ false) × (t.count ≡ capacity t)))
  put_refused t key datum replace v ne = elim (put-Outcome t key datum replace v ne) [
    | kept c r e ↦ (λ _. inl (c, r), λ _. rw e)
    | stored i stop room e ↦ rw e (ground arith, ground arith)
    | full c n e ↦ (λ _. inr (c, n), λ _. rw e)
  ]

  pub put_unchanged :
      (t : LigHt V) (key : ℤ) (datum : Option V) (replace : Bool)
      → IsValid t
      → key ≢ minus_one
      → (put t key datum replace).1 ≡ false
      → (put t key datum replace).0 ≡ t
  put_unchanged t key datum replace v ne h = elim (put-Outcome t key datum replace v ne) [
    | kept _ _ e ↦ rw e
    | full _ _ e ↦ rw e
    | stored i stop _ e ↦ ground arith
  ]

  blank : ℕ → Bool → LigHt V
  blank n has_free = record {
    entries = replicate n vacant;
    count = 0;
    has_free = has_free;
    freed = [];
  }

  init-blank : (n : ℕ) (has_free : Bool) → init {V = V} n has_free ≡ blank n has_free
  unfolding init blank
  init-blank zero has_free = refl
  init-blank (suc n) has_free = ground arith

  blank-IsValid : (n : ℕ) (has_free : Bool) → 0 < n → n < u64_mod → IsValid (blank n has_free)
  unfolding blank
  blank-IsValid n has_free lo hi = record {
    sized = omega (arith, length-replicate n (vacant {V = V}));
    bounded = omega (arith, length-replicate n (vacant {V = V}));
    counted = sym (occupied-replicate vacant n refl);
    reachable =
        λ i _ o. absurd (o (ap (λ (x : LigHtEntry V). x.key) (get_or-replicate n i vacant)));
  }

  blank-read :
      (n : ℕ) (has_free : Bool)
      → 0 < n
      → n < u64_mod
      → (key : ℤ) → key ≢ minus_one
      → read (blank n has_free) key ≡ (false, none)
  blank-read n has_free lo hi key ne =
      let (g, c) = get-miss (blank n has_free) key (λ i h. ne (
        sym (search_from-hit (blank n has_free) key i (blank-IsValid n has_free lo hi).sized h).0
        ∙ unfold blank in ap (λ (x : LigHtEntry V). x.key) (get_or-replicate n i vacant))) in
      ground arith

  -- A new table is valid, and holds no key.
  pub init-IsValid :
      (n : ℕ) (has_free : Bool)
      → 0 < n
      → n < u64_mod
      → IsValid (init {V = V} n has_free)
        × (capacity (init {V = V} n has_free) ≡ n)
        × ((key : ℤ) → key ≢ minus_one → read (init {V = V} n has_free) key ≡ (false, none))
  unfolding blank
  init-IsValid n has_free lo hi =
      rw init-blank
        (blank-IsValid n has_free lo hi, length-replicate n vacant, blank-read n has_free lo hi)

  -- Every slot of a new table is empty.
  pub slot-init : (n i : ℕ) (has_free : Bool) → slot (init {V = V} n has_free).entries i ≡ vacant
  unfolding blank
  slot-init n i has_free = rw init-blank (get_or-replicate n i vacant)

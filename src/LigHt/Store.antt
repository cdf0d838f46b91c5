-- ===== src/LigHt/Store.antt =====
-- The validity of a table of src/ligHT.c, and what the write of one entry at the slot where the
-- search for its key stopped does to every other search.
use libinject.Base.{
  ℕ, zero, suc, ◌+◌, ◌<◌, ◌≤◌, Option, List, [], ◌∷◌, ◌≡◌, ◌≢◌, ◌⊎◌, ◌↔◌, inl, inr, refl, sym, ◌∙◌,
  ap, subst, arith, ◌==◌, if◌then◌else◌, length, set, set-set, replicate, get_or-set, length-set, ℤ,
  eq_ℤ, eq_ℤ_iff, minus_one, u64_mod, eq_or_ne,
}
use libinject.LigHt.Probe.{
  probe_ends, probe-hit, probe-free_slot, probe-nowhere, probe-set_other, probe-set_self,
}
use libinject.LigHt.{
  LigHt, LigHtEntry, hit, free_slot, nowhere, out_of_fuel, vacant, slot, capacity, get_offset,
  search_from, store,
}

module _ {ℓ} {V : Type ℓ} where
  abbrev pub is_occupied : LigHtEntry V → ℕ
  is_occupied e = if eq_ℤ e.key minus_one then 0 else 1

  abbrev pub occupied : List (LigHtEntry V) → ℕ
  occupied [] = 0
  occupied (e ∷ es) = is_occupied e + occupied es

  pub occupied-set :
      (es : List (LigHtEntry V)) (i : ℕ) (e : LigHtEntry V)
      → i < length es
      → occupied (set es i e) + is_occupied (slot es i) ≡ occupied es + is_occupied e
  occupied-set [] i e h = absurd (omega arith)
  occupied-set (x ∷ es) zero e h = omega arith
  occupied-set (x ∷ es) (suc i) e h = omega (arith, occupied-set es i e)

  pub occupied-replicate :
      (e : LigHtEntry V) (n : ℕ) → is_occupied e ≡ 0 → occupied (replicate n e) ≡ 0
  occupied-replicate e zero h = refl
  occupied-replicate e (suc n) h = omega (arith, occupied-replicate e n h)

  pub occupied_full :
      (es : List (LigHtEntry V))
      → ((j : ℕ) → j < length es → (slot es j).key ≢ minus_one)
      → occupied es ≡ length es
  occupied_full [] h = refl
  occupied_full (x ∷ es) h = ground (
    arith,
    occupied_full es (λ j lt. h (suc j) (omega arith)),
    h 0 (omega arith),
    eq_ℤ_iff x.key minus_one,
  )

  pub occupied-le : (es : List (LigHtEntry V)) → occupied es ≤ length es
  occupied-le [] = omega arith
  occupied-le (x ∷ es) = ground (arith, occupied-le es)

-- The count is that of the full slots, and each key is found where it stands.
pub record IsValid {ℓ} {V : Type ℓ} (t : LigHt V) : Type ℓ where
  pub sized : 0 < capacity t
  pub bounded : capacity t < u64_mod
  pub counted : t.count ≡ occupied t.entries
  pub reachable :
      (i : ℕ)
      → i < capacity t
      → (slot t.entries i).key ≢ minus_one
      → search_from t (slot t.entries i).key ≡ hit i

module _ {ℓ} {V : Type ℓ} where
  pub offset-lt : (t : LigHt V) (key : ℤ) → 0 < capacity t → get_offset t key < capacity t
  offset-lt t key h = omega arith

  -- The search of a table with slots never runs out of fuel.
  pub search_from_ends : (t : LigHt V) (key : ℤ) → 0 < capacity t → search_from t key ≢ out_of_fuel
  search_from_ends t key h =
      let o = offset-lt t key h in
      probe_ends (capacity t) t.entries key (get_offset t key) (get_offset t key) o o (ground arith)

  pub search_from-hit :
      (t : LigHt V) (key : ℤ) (i : ℕ)
      → 0 < capacity t
      → search_from t key ≡ hit i
      → ((slot t.entries i).key ≡ key) × (i < capacity t)
  search_from-hit t key i h =
      probe-hit (capacity t) t.entries key (get_offset t key) (get_offset t key) i
        (offset-lt t key h)

  pub search_from-free_slot :
      (t : LigHt V) (key : ℤ) (i : ℕ)
      → 0 < capacity t
      → search_from t key ≡ free_slot i
      → ((slot t.entries i).key ≡ minus_one) × (i < capacity t)
  search_from-free_slot t key i h =
      probe-free_slot (capacity t) t.entries key (get_offset t key) (get_offset t key) i
        (offset-lt t key h)

  -- A search ends at neither the key nor an empty slot only if the table is full.
  pub search_from-nowhere :
      (t : LigHt V) (key : ℤ) (j : ℕ)
      → 0 < capacity t
      → search_from t key ≡ nowhere
      → j < capacity t
      → ((slot t.entries j).key ≢ minus_one) × ((slot t.entries j).key ≢ key)
  search_from-nowhere t key j h e hj =
      probe-nowhere (capacity t) t.entries key (get_offset t key) (get_offset t key) j
        (offset-lt t key h) e hj (ground (arith, offset-lt t key h))

  -- What the search stops at, if it stops at a slot.
  abbrev pub StopsAt : LigHt V → ℤ → ℕ → Type 0
  StopsAt t key i = (search_from t key ≡ hit i) ⊎ (search_from t key ≡ free_slot i)

  pub StopsAt-lt :
      (t : LigHt V) (key : ℤ) (i : ℕ) → 0 < capacity t → StopsAt t key i → i < capacity t
  StopsAt-lt t key i h (inl e) = (search_from-hit t key i h e).1
  StopsAt-lt t key i h (inr e) = (search_from-free_slot t key i h e).1

  -- `store` replaces one slot.
  pub store-entries :
      (t : LigHt V) (i : ℕ) (key : ℤ) (datum : Option V)
      → (store t i key datum).entries ≡ set t.entries i (record { key = key; datum = datum })
  unfolding store
  store-entries t i key datum =
      ground (arith, set-set t.entries i vacant (record { key = key; datum = datum }))

  store-count :
      (t : LigHt V) (i : ℕ) (key : ℤ) (datum : Option V)
      → IsValid t
      → i < capacity t
      → key ≢ minus_one
      → (store t i key datum).count
        ≡ occupied (set t.entries i (record { key = key; datum = datum }))
  unfolding store
  store-count t i key datum v hi full = ground (
    arith,
    occupied-set t.entries i (record { key = key; datum = datum }),
    occupied-le (set t.entries i (record { key = key; datum = datum })),
    length-set t.entries i (record { key = key; datum = datum }),
    occupied-le t.entries,
    eq_ℤ_iff key minus_one,
  )

  -- The searches of the table after `store` at the slot where the search for `key` stopped.
  module _ (t : LigHt V) (i : ℕ) (key : ℤ) (datum : Option V) (v : IsValid t)
      (full : key ≢ minus_one) (stop : StopsAt t key i) where
    inside : i < capacity t
    inside = StopsAt-lt t key i v.sized stop

    pub capacity-store : capacity (store t i key datum) ≡ capacity t
    capacity-store = ap length (store-entries t i key datum) ∙ length-set t.entries i _

    pub slot-store :
        (j : ℕ)
        → slot (store t i key datum).entries j
          ≡ (if i == j then record { key = key; datum = datum } else slot t.entries j)
    slot-store j =
        rw store-entries
          (get_or-set t.entries i j (record { key = key; datum = datum }) vacant inside)

    key-store :
        (j : ℕ)
        → (slot (store t i key datum).entries j).key
          ≡ (if i == j then key else (slot t.entries j).key)
    key-store j = rw (slot-store j) (ground arith)

    pub search-store_self : search_from (store t i key datum) key ≡ hit i
    search-store_self =
        rw (store-entries, length-set)
          (probe-set_self (capacity t) t.entries key (get_offset t key) (get_offset t key) i
            (record { key = key; datum = datum }) (offset-lt t key v.sized) inside refl stop)

    -- the slot was empty, or held `key`
    was : (other : ℤ) → other ≢ minus_one → other ≢ key → (slot t.entries i).key ≢ other
    was other o ne = elim stop [
      | inl e ↦ ground (arith, search_from-hit t key i v.sized e)
      | inr e ↦ ground (arith, search_from-free_slot t key i v.sized e)
    ]

    search-store_other :
        (other : ℤ) (j : ℕ)
        → other ≢ minus_one
        → other ≢ key
        → search_from t other ≡ hit j
        → search_from (store t i key datum) other ≡ hit j
    search-store_other other j o ne h =
        rw (store-entries, length-set)
          (probe-set_other (capacity t) t.entries other (get_offset t other) (get_offset t other) j
            i (record { key = key; datum = datum }) (offset-lt t other v.sized) inside full
            (λ e. ne (sym e)) (was other o ne) h)

    -- a slot other than `i` does not hold `key`
    elsewhere : (j : ℕ) → j < capacity t → i ≢ j → (slot t.entries j).key ≢ key
    elsewhere j hj ne e =
        let r = v.reachable j hj (λ m. full (sym e ∙ m)) in
        elim stop [ inl p ↦ ground (arith, rw e at r) | inr p ↦ ground (arith, rw e at r) ]

    abbrev IsReachable : ℕ → Type 0
    IsReachable j =
        search_from (store t i key datum) (slot (store t i key datum).entries j).key ≡ hit j

    IsReachable-here : (j : ℕ) → i ≡ j → IsReachable j
    IsReachable-here j e =
        let p : (slot (store t i key datum).entries j).key ≡ key = ground (arith, key-store j) in
        subst (λ k. search_from (store t i key datum) k ≡ hit j) (sym p)
          (subst (λ m. search_from (store t i key datum) key ≡ hit m) e search-store_self)

    IsReachable-there :
        (j : ℕ)
        → j < capacity t
        → i ≢ j
        → (slot (store t i key datum).entries j).key ≢ minus_one
        → IsReachable j
    IsReachable-there j hj ne o =
        let p : (slot (store t i key datum).entries j).key ≡ (slot t.entries j).key =
          ground (arith, key-store j) in
        let o' : (slot t.entries j).key ≢ minus_one = λ m. o (p ∙ m) in
        subst (λ k. search_from (store t i key datum) k ≡ hit j) (sym p)
          (search-store_other (slot t.entries j).key j o' (elsewhere j hj ne) (v.reachable j hj o'))

    pub store-IsValid : IsValid (store t i key datum)
    store-IsValid = record {
      sized = omega (arith, capacity-store, v.sized);
      bounded = omega (arith, capacity-store, v.bounded);
      counted =
          store-count t i key datum v inside full ∙ ap occupied (sym (store-entries t i key datum));
      reachable = λ j hj o. elim (eq_or_ne i j) [
        | inl e ↦ IsReachable-here j e
        | inr ne ↦ IsReachable-there j (omega (arith, capacity-store)) ne o
      ];
    }

    -- Every other key is found afterwards exactly if it was found before, and where it was.
    pub search-store_iff :
        (other : ℤ) (j : ℕ)
        → other ≢ minus_one
        → other ≢ key
        → (search_from (store t i key datum) other ≡ hit j) ↔ (search_from t other ≡ hit j)
    search-store_iff other j o ne = (back, search-store_other other j o ne)
      where
        back : search_from (store t i key datum) other ≡ hit j → search_from t other ≡ hit j
        back h =
            let (at, lt) = search_from-hit (store t i key datum) other j store-IsValid.sized h in
            let p : (slot t.entries j).key ≡ other = ground (arith, key-store j) in
            subst (λ k. search_from t k ≡ hit j) p
              (v.reachable j (omega (arith, capacity-store)) (λ m. o (sym p ∙ m)))

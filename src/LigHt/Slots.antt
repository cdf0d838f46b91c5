-- ===== src/LigHt/Slots.antt =====
-- The slots of a table of src/ligHT.c seen as pointers: what LigHT_get, LigHT_put and LigHT_remove do
-- to them, on any table, also one that removals have left keys unreachable in.
use libinject.Base.{
  ℕ, ◌<◌, true, Option, none, some, ◌≡◌, ◌≢◌, ◌⊎◌, inl, inr, refl, sym, ◌∙◌, ap, arith, ◌==◌,
  if◌then◌else◌, get_or-set, length-set, set, ℤ, minus_one, Option-cases, eq_or_ne,
}
use libinject.LigHt.Probe.{probe-set_self}
use libinject.LigHt.Limits.{free_entry-entries}
use libinject.LigHt.Put.{Found-cases}
use libinject.LigHt.Store.{
  StopsAt, StopsAt-lt, store-entries, search_from-hit, offset-lt, search_from_ends,
}
use libinject.LigHt.{
  LigHt, LigHtEntry, hit, vacant, slot, capacity, get_offset, search_from, store, put, get, remove,
  find_entry, remove_at,
}

module _ {ℓ} {V : Type ℓ} where
  abbrev pub datum_in : LigHt V → ℕ → Option V
  datum_in t i = (slot t.entries i).datum

  -- A write of one slot.
  datum-set :
      (t t' : LigHt V) (i : ℕ) (e : LigHtEntry V)
      → i < capacity t
      → t'.entries ≡ set t.entries i e
      → (j : ℕ) → datum_in t' j ≡ (if i == j then e.datum else datum_in t j)
  datum-set t t' i e lt s j =
      ap (λ es. (slot es j).datum) s
      ∙ ap (λ (x : LigHtEntry V). x.datum) (get_or-set t.entries i j e vacant lt)
      ∙ ground arith

  -- The two tables differ in one slot at most.
  abbrev pub ChangedAt : LigHt V → LigHt V → ℕ → Option V → Type ℓ
  ChangedAt t t' i datum = (j : ℕ) → datum_in t' j ≡ (if i == j then datum else datum_in t j)

  -- Where a pointer of the changed table comes from.
  pub ChangedAt-cases :
      (t t' : LigHt V) (i j : ℕ) (datum : Option V) (v : V)
      → ChangedAt t t' i datum
      → datum_in t' j ≡ some v
      → ((i ≡ j) × (datum ≡ some v)) ⊎ ((i ≢ j) × (datum_in t j ≡ some v))
  ChangedAt-cases t t' i j datum v changed e = elim (eq_or_ne i j) [
    | inl same ↦ inl (same, ground (arith, changed j))
    | inr ne ↦ inr (ne, ground (arith, changed j))
  ]

  pub get-search :
      (t : LigHt V) (key : ℤ)
      → ((get t key ≡ none) × ((i : ℕ) → search_from t key ≡ hit i → datum_in t i ≡ none))
        ⊎ ((i : ℕ) × (v : V) × (search_from t key ≡ hit i)
            × (get t key ≡ some v)
            × (datum_in t i ≡ some v))
  unfolding get find_entry
  get-search t key = elim (Found-cases (search_from t key)) [
    | inl (inl (i, e)) ↦ elim (Option-cases (datum_in t i)) [
      | inl n ↦ inl (rw (e, n), λ k f. ground (arith, n))
      | inr (v, n) ↦ inr (i, v, e, rw (e, n), n)
    ]
    | inl (inr (i, e)) ↦ inl (rw e, λ k f. cc)
    | inr (inl e) ↦ inl (rw e, λ k f. cc)
    | inr (inr e) ↦ inl (rw e, λ k f. cc)
  ]

  -- Where a `put` with `replace` went: into the slot that the search for its key finds afterwards,
  -- or nowhere, for want of a slot for a key that is not there.
  pub data Placed (t t' : LigHt V) (key : ℤ) (datum : Option V) : Type ℓ where
    placed :
        (i : ℕ)
        → search_from t' key ≡ hit i
        → ((k : ℕ) → search_from t key ≡ hit k → k ≡ i)
        → ChangedAt t t' i datum
        → Placed t t' key datum
    refused : t' ≡ t → ((k : ℕ) → search_from t key ≢ hit k) → Placed t t' key datum

  store-Placed :
      (t : LigHt V) (key : ℤ) (datum : Option V) (i : ℕ)
      → 0 < capacity t
      → StopsAt t key i
      → ((k : ℕ) → search_from t key ≡ hit k → k ≡ i)
      → (0 < capacity (store t i key datum)) × Placed t (store t i key datum) key datum
  store-Placed t key datum i h stop only =
      let lt = StopsAt-lt t key i h stop in
      let entry : LigHtEntry V = record { key = key; datum = datum } in
      let found =
        probe-set_self (capacity t) t.entries key (get_offset t key) (get_offset t key) i entry
          (offset-lt t key h) lt refl stop in
      (
        rw (store-entries, length-set) h,
        placed i (rw (store-entries, length-set) found) only
            (datum-set t (store t i key datum) i entry lt (store-entries t i key datum)),
      )

  pub put-Placed :
      (t : LigHt V) (key : ℤ) (datum : Option V)
      → 0 < capacity t
      → key ≢ minus_one
      → (0 < capacity (put t key datum true).0) × Placed t (put t key datum true).0 key datum
  unfolding put find_entry
  put-Placed t key datum h ne = elim (Found-cases (search_from t key)) [
    | inl (inl (i, e)) ↦
        let same = search_from-hit t key i h e in
        let stored : (put t key datum true).0 ≡ store t i key datum = rw e (ground arith) in
        rw stored (store-Placed t key datum i h (inl e) (λ k f. ground arith))
    | inl (inr (i, e)) ↦
        let stored : (put t key datum true).0 ≡ store t i key datum = rw e (ground arith) in
        rw stored (store-Placed t key datum i h (inr e) (λ k f. cc))
    | inr (inl e) ↦ rw e (h, refused refl (λ k f. cc))
    | inr (inr e) ↦ absurd (search_from_ends t key h e)
  ]

  pub remove-slots :
      (t : LigHt V) (key : ℤ) (i : ℕ)
      → 0 < capacity t
      → key ≢ minus_one
      → search_from t key ≡ hit i
      → (0 < capacity (remove t key).0) × ChangedAt t (remove t key).0 i none
  unfolding remove find_entry
  remove-slots t key i h ne e =
      let (same, lt) = search_from-hit t key i h e in
      let removed : (remove t key).0.entries ≡ set t.entries i vacant =
        rw (e, remove_at) (free_entry-entries t i (λ q. ne (sym same ∙ q))) in
      (rw (removed, length-set) h, datum-set t (remove t key).0 i vacant lt removed)

  pub remove-miss :
      (t : LigHt V) (key : ℤ) → ((i : ℕ) → search_from t key ≢ hit i) → (remove t key).0 ≡ t
  unfolding remove find_entry
  remove-miss t key h = elim (Found-cases (search_from t key)) [
    | inl (inl (i, e)) ↦ absurd (h i e)
    | inl (inr (i, e)) ↦ rw (e, remove_at) refl
    | inr (inl e) ↦ rw (e, remove_at) refl
    | inr (inr e) ↦ rw (e, remove_at) refl
  ]

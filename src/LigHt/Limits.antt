-- ===== src/LigHt/Limits.antt =====
-- LigHT_remove and LigHT_clear of src/ligHT.c, and what they lose.
use libinject.Base.{
  ℕ, zero, suc, ◌+◌, ◌<◌, ◌≤◌, false, List, ◌≡◌, ◌≢◌, inl, inr, refl, sym, ◌∙◌, arith, ltb, set,
  length-set, get_or-set, get_or-set_ne, ℤ, eq_ℤ, eq_ℤ_iff, minus_one, u64_mod, Bool-cases,
}
use libinject.LigHt.Probe.{probe-set-vacant}
use libinject.LigHt.Put.{Found-cases}
use libinject.LigHt.Store.{IsValid, search_from-hit, search_from_ends, offset-lt}
use libinject.LigHt.{
  remove_at, is_found, resolve, LigHt, LigHtEntry, hit, vacant, slot, capacity, search_from,
  contains, find_entry, free_entry, remove, clear, clear_from, get_offset, probe,
}

module _ {ℓ} {V : Type ℓ} where
  pub free_entry-entries :
      (t : LigHt V) (i : ℕ)
      → (slot t.entries i).key ≢ minus_one
      → (free_entry t i).entries ≡ set t.entries i vacant
  unfolding free_entry
  free_entry-entries t i h = ground (arith, eq_ℤ_iff (slot t.entries i).key minus_one)

  -- A key whose home slot is empty is not found, wherever it stands.
  contains_empty_home :
      (es : List (LigHtEntry V)) (key : ℤ) (fuel home expected : ℕ)
      → key ≢ minus_one
      → (slot es home).key ≡ minus_one
      → is_found (resolve false (probe fuel es key expected home)) ≡ false
  unfolding probe
  contains_empty_home es key zero home expected ne e = refl
  contains_empty_home es key (suc fuel) home expected ne e =
      rw e (ground (arith, eq_ℤ_iff minus_one key))

  -- On a valid table and a key that is not -1, `remove` reports whether the key was there, and the
  -- key is not found afterwards.
  pub contains-remove :
      (t : LigHt V) (key : ℤ)
      → IsValid t
      → key ≢ minus_one
      → ((remove t key).1 ≡ contains t key) × (contains (remove t key).0 key ≡ false)
  unfolding contains find_entry remove
  contains-remove t key v ne = elim (Found-cases (search_from t key)) [
    | inl (inl (i, e)) ↦
        let (p, lt) = search_from-hit t key i v.sized e in
        (
          rw e,
          rw (e, free_entry-entries t i (λ q. ne (sym p ∙ q)), length-set)
              (rw (
                probe-set-vacant (capacity t) t.entries key (get_offset t key) (get_offset t key) i
                  (offset-lt t key v.sized) lt ne e)),
        )
    | inl (inr (i, e)) ↦ (rw e, rw (e, remove_at, e))
    | inr (inl e) ↦ (rw e, rw (e, remove_at, e))
    | inr (inr e) ↦ absurd (search_from_ends t key v.sized e)
  ]

  -- A removal empties the slot and leaves no mark, so the searches that went past it now stop
  -- there: once a key is removed from its home slot, every other key of that home (neither of them
  -- being -1) is not found.
  pub remove_loses :
      (t : LigHt V) (key other : ℤ)
      → 0 < capacity t
      → key ≢ minus_one
      → other ≢ minus_one
      → get_offset t other ≡ get_offset t key
      → search_from t key ≡ hit (get_offset t key)
      → contains (remove t key).0 other ≡ false
  unfolding contains find_entry remove
  remove_loses t key other h ne o home e =
      let (p, lt) = search_from-hit t key (get_offset t key) h e in
      rw
        (
          e,
          remove_at,
          free_entry-entries t (get_offset t key) (λ q. ne (sym p ∙ q)),
          length-set,
          home,
        )
        (contains_empty_home (set t.entries (get_offset t key) vacant) other (capacity t)
          (get_offset t key) (get_offset t key) o
          (ground
            (arith, get_or-set t.entries (get_offset t key) (get_offset t key) vacant vacant)))

  free_entry-slot_ne :
      (t : LigHt V) (i j : ℕ) → i ≢ j → slot (free_entry t i).entries j ≡ slot t.entries j
  unfolding free_entry
  free_entry-slot_ne t i j ne = elim (Bool-cases (eq_ℤ (slot t.entries i).key minus_one)) [
    | inl e ↦ rw e
    | inr e ↦ rw e (get_or-set_ne t.entries i j vacant vacant ne)
  ]

  clear_from-slot :
      (fuel i j : ℕ) (t : LigHt V)
      → t.count ≤ j
      → t.count < u64_mod
      → slot (clear_from fuel i t).entries j ≡ slot t.entries j
  unfolding clear_from free_entry
  clear_from-slot zero i j t h lt = refl
  clear_from-slot (suc fuel) i j t h lt = elim (Bool-cases (ltb i t.count)) [
    | inr stop ↦ rw stop
    | inl more ↦ rw more (
        clear_from-slot fuel (i + 1) j (free_entry t i) (ground arith) (ground arith)
        ∙ free_entry-slot_ne t i j (ground arith))
  ]

  -- `clear` looks only at as many slots as the table has keys, if these are fewer than 2^64: what
  -- stands behind them stays.
  pub clear_survivors :
      (t : LigHt V) (j : ℕ)
      → t.count ≤ j
      → t.count < u64_mod
      → slot (clear t).entries j ≡ slot t.entries j
  unfolding clear
  clear_survivors t j = clear_from-slot t.count 0 j t

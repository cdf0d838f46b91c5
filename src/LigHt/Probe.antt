-- ===== src/LigHt/Probe.antt =====
-- LigHT_findEntry: where the search ends, and that it ends.
use libinject.Base.{
  ℕ, zero, suc, ◌+◌, ◌-◌, ◌<◌, ◌≤◌, List, ◌≡◌, ◌≢◌, ◌⊎◌, inl, inr, arith, if◌then◌else◌, ltb,
  length, set, get_or-set, length-set, ℤ, eq_ℤ_iff, minus_one, eq_or_ne,
}
use libinject.LigHt.{LigHtEntry, hit, free_slot, nowhere, out_of_fuel, vacant, slot, advance, probe}

-- The slots that the search still has to look at when it stands at `offset`.
abbrev pub slots_left : ℕ → ℕ → ℕ → ℕ
slots_left size expected offset =
    if ltb offset expected then expected - offset else size - offset + expected

module _ {ℓ} {V : Type ℓ} where
  -- With one unit of fuel for each slot the loop ends by itself.
  pub probe_ends :
      (fuel : ℕ) (es : List (LigHtEntry V)) (key : ℤ) (expected offset : ℕ)
      → expected < length es
      → offset < length es
      → slots_left (length es) expected offset ≤ fuel
      → probe fuel es key expected offset ≢ out_of_fuel
  unfolding probe
  probe_ends zero es key expected offset he ho h = absurd (ground arith)
  probe_ends (suc fuel) es key expected offset he ho h =
      ground (arith, probe_ends fuel es key expected (advance (length es) offset))

  -- A hit is at the key, and a free slot is empty.
  pub probe-hit :
      (fuel : ℕ) (es : List (LigHtEntry V)) (key : ℤ) (expected offset i : ℕ)
      → offset < length es
      → probe fuel es key expected offset ≡ hit i
      → ((slot es i).key ≡ key) × (i < length es)
  unfolding probe
  probe-hit zero es key expected offset i ho h = absurd (ground arith)
  probe-hit (suc fuel) es key expected offset i ho h = ground (
    arith,
    probe-hit fuel es key expected (advance (length es) offset) i,
    eq_ℤ_iff (slot es offset).key key,
  )

  pub probe-free_slot :
      (fuel : ℕ) (es : List (LigHtEntry V)) (key : ℤ) (expected offset i : ℕ)
      → offset < length es
      → probe fuel es key expected offset ≡ free_slot i
      → ((slot es i).key ≡ minus_one) × (i < length es)
  unfolding probe
  probe-free_slot zero es key expected offset i ho h = absurd (ground arith)
  probe-free_slot (suc fuel) es key expected offset i ho h = ground (
    arith,
    probe-free_slot fuel es key expected (advance (length es) offset) i,
    eq_ℤ_iff (slot es offset).key minus_one,
  )

  -- A search that gives up has seen every slot ahead of it, and each holds another key.
  pub probe-nowhere :
      (fuel : ℕ) (es : List (LigHtEntry V)) (key : ℤ) (expected offset j : ℕ)
      → offset < length es
      → probe fuel es key expected offset ≡ nowhere
      → j < length es
      → slots_left (length es) expected j ≤ slots_left (length es) expected offset
      → ((slot es j).key ≢ minus_one) × ((slot es j).key ≢ key)
  unfolding probe
  probe-nowhere zero es key expected offset j ho h hj le = absurd (ground arith)
  probe-nowhere (suc fuel) es key expected offset j ho h hj le = elim (eq_or_ne j offset) [
    | inl here ↦
        rw here (
          ground
            (arith, eq_ℤ_iff (slot es offset).key minus_one, eq_ℤ_iff (slot es offset).key key))
    | inr there ↦ ground (arith, probe-nowhere fuel es key expected (advance (length es) offset) j)
  ]

  -- A write of another key into a slot that did not hold `key` leaves a hit where it was, if the
  -- slot was full or the search did not need it.
  pub probe-set_other :
      (fuel : ℕ) (es : List (LigHtEntry V)) (key : ℤ) (expected offset i at : ℕ) (e : LigHtEntry V)
      → offset < length es
      → at < length es
      → e.key ≢ minus_one
      → (e.key ≡ key → ⊥)
      → (slot es at).key ≢ key
      → probe fuel es key expected offset ≡ hit i
      → probe fuel (set es at e) key expected offset ≡ hit i
  unfolding probe
  probe-set_other zero es key expected offset i at e ho ha full other was h = h
  probe-set_other (suc fuel) es key expected offset i at e ho ha full other was h =
      rw (length-set, get_or-set es at offset e vacant ha)
        (ground (
          arith,
          eq_ℤ_iff e.key key,
          eq_ℤ_iff e.key minus_one,
          eq_ℤ_iff (slot es at).key key,
          eq_ℤ_iff (slot es offset).key key,
          probe-set_other fuel es key expected (advance (length es) offset) i at e,
        ))

  -- After `key` is written into the slot where its search stopped, the search finds it there.
  pub probe-set_self :
      (fuel : ℕ) (es : List (LigHtEntry V)) (key : ℤ) (expected offset i : ℕ) (e : LigHtEntry V)
      → offset < length es
      → i < length es
      → e.key ≡ key
      → (probe fuel es key expected offset ≡ hit i)
        ⊎ (probe fuel es key expected offset ≡ free_slot i)
      → probe fuel (set es i e) key expected offset ≡ hit i
  unfolding probe
  probe-set_self zero es key expected offset i e ho hi ek h = absurd (ground arith)
  probe-set_self (suc fuel) es key expected offset i e ho hi ek h =
      rw (length-set, get_or-set es i offset e vacant hi)
        (ground (
          arith,
          eq_ℤ_iff e.key key,
          probe-set_self fuel es key expected (advance (length es) offset) i e,
        ))

  -- After the slot of `key` is emptied the search stops there.
  pub probe-set-vacant :
      (fuel : ℕ) (es : List (LigHtEntry V)) (key : ℤ) (expected offset i : ℕ)
      → offset < length es
      → i < length es
      → key ≢ minus_one
      → probe fuel es key expected offset ≡ hit i
      → probe fuel (set es i vacant) key expected offset ≡ free_slot i
  unfolding probe
  probe-set-vacant zero es key expected offset i ho hi ne h = absurd (ground arith)
  probe-set-vacant (suc fuel) es key expected offset i ho hi ne h =
      rw (length-set, get_or-set es i offset vacant vacant hi)
        (ground (
          arith,
          eq_ℤ_iff minus_one key,
          probe-set-vacant fuel es key expected (advance (length es) offset) i,
        ))

-- ===== src/LigHt.antt =====
-- src/ligHT.c: the open-addressing hash table from `int` to pointers. A pointer is an `Option`,
-- `none` for NULL; the slots are a list whose length is the capacity. The read-write lock orders
-- whole calls, so each call is one function here; `malloc` and `realloc` are taken to succeed.
-- The children prove the laws: Probe of the search, Store of one write, Put of the
-- operations on a table that nothing was removed from, Limits of what removals lose.
pub mod Probe
pub mod Store
pub mod Put
pub mod Limits
pub mod Slots
use libinject.Base.{
  ℕ, zero, suc, ◌+◌, ◌-◌, ◌%◌, Bool, true, false, not, ◌&&◌, Option, none, some, List, ◌++◌, [],
  ◌∷◌, ◌==◌, if◌then◌else◌, ltb, length, get_or, set, replicate, ℤ, pos, eq_ℤ, minus_one,
  to_unsigned, u32_mod, u64_mod,
}

pub record LigHtEntry {ℓ} (V : Type ℓ) : Type ℓ where
  pub key : ℤ
  pub datum : Option V

-- `freed` lists the data that the callback was called on, and `has_free` says that there is one.
pub record LigHt {ℓ} (V : Type ℓ) : Type ℓ where
  pub entries : List (LigHtEntry V)
  pub count : ℕ
  pub has_free : Bool
  pub freed : List (Option V)

-- What the search for a key ends with: the key's slot, an empty slot, or neither after a round.
pub data Found : Type 0 where
  hit : ℕ → Found
  free_slot : ℕ → Found
  nowhere : Found
  out_of_fuel : Found

-- `++offset == capacity` and the wrap to 0
abbrev pub advance : ℕ → ℕ → ℕ
advance size offset = if offset + 1 == size then 0 else offset + 1

-- `size_t` arithmetic of the length
abbrev pub increment : ℕ → ℕ
increment n = (n + 1) % u64_mod

abbrev pub decrement : ℕ → ℕ
decrement n = (n + (u64_mod - 1)) % u64_mod

-- What `LigHT_findEntry` returns: the slot's index, or `none` for NULL.
abbrev pub resolve : Bool → Found → Option ℕ
resolve force (hit i) = some i
resolve force (free_slot i) = if force then some i else none
resolve force nowhere = none
resolve force out_of_fuel = none

abbrev pub is_found : Option ℕ → Bool
is_found none = false
is_found (some i) = true

module _ {ℓ} {V : Type ℓ} where
  abbrev pub vacant : LigHtEntry V
  vacant = record { key = minus_one; datum = none }

  abbrev pub slot : List (LigHtEntry V) → ℕ → LigHtEntry V
  slot es i = get_or es i vacant

  abbrev pub capacity : LigHt V → ℕ
  capacity t = length t.entries

  -- `GET_OFFSET`
  abbrev pub get_offset : LigHt V → ℤ → ℕ
  get_offset t key = to_unsigned u32_mod key % capacity t

  -- The do-while loop of `LigHT_findEntry`.
  unfoldable pub probe : ℕ → List (LigHtEntry V) → ℤ → ℕ → ℕ → Found
  probe zero es key expected offset = out_of_fuel
  probe (suc fuel) es key expected offset =
      let next = advance (length es) offset in
      let rest = probe fuel es key expected next in
      if eq_ℤ (slot es offset).key key
      then hit offset
      else if eq_ℤ (slot es offset).key minus_one
      then free_slot offset
      else if next == expected
      then nowhere
      else rest

  abbrev pub search_from : LigHt V → ℤ → Found
  search_from t key = probe (capacity t) t.entries key (get_offset t key) (get_offset t key)

  unfoldable pub find_entry : LigHt V → ℤ → Bool → Option ℕ
  find_entry t key force = resolve force (search_from t key)

  -- `FREE_ENTRY` on slot `i`
  unfoldable pub free_entry : LigHt V → ℕ → LigHt V
  free_entry t i = if eq_ℤ (slot t.entries i).key minus_one then t else record t {
    entries = set t.entries i vacant;
    count = decrement t.count;
    freed = if t.has_free then t.freed ++ (slot t.entries i).datum ∷ [] else t.freed;
  }

  -- Store into the slot that was found, after `FREE_ENTRY`.
  unfoldable pub store : LigHt V → ℕ → ℤ → Option V → LigHt V
  unfolding free_entry
  store t i key datum =
      let u = free_entry t i in
      record u {
        entries = set u.entries i (record { key = key; datum = datum });
        count = increment u.count;
      }

  abbrev put_at : LigHt V → ℤ → Option V → Bool → Option ℕ → LigHt V × Bool
  put_at t key datum replace none = (t, false)
  put_at t key datum replace (some i) =
      if eq_ℤ (slot t.entries i).key key && not replace
      then (t, false)
      else (store t i key datum, true)

  unfoldable pub put : LigHt V → ℤ → Option V → Bool → LigHt V × Bool
  unfolding find_entry store
  put t key datum replace = put_at t key datum replace (find_entry t key true)

  unfoldable pub contains : LigHt V → ℤ → Bool
  unfolding find_entry
  contains t key = is_found (find_entry t key false)

  abbrev pub datum_at : LigHt V → Option ℕ → Option V
  datum_at t none = none
  datum_at t (some i) = (slot t.entries i).datum

  unfoldable pub get : LigHt V → ℤ → Option V
  unfolding find_entry
  get t key = datum_at t (find_entry t key false)

  abbrev pub remove_at : LigHt V → Option ℕ → LigHt V × Bool
  remove_at t none = (t, false)
  remove_at t (some i) = (free_entry t i, true)

  unfoldable pub remove : LigHt V → ℤ → LigHt V × Bool
  unfolding find_entry free_entry
  remove t key = remove_at t (find_entry t key false)

  -- `for (i = 0 ; i < table->length ; ++i) FREE_ENTRY(table->data + i)`; the length is read anew in
  -- each round.
  clear_from : ℕ → ℕ → LigHt V → LigHt V
  clear_from zero i t = t
  clear_from (suc fuel) i t =
      let rest = clear_from fuel (i + 1) (free_entry t i) in if ltb i t.count then rest else t

  -- The length does not grow in the loop, so it bounds the rounds.
  unfoldable pub clear : LigHt V → LigHt V
  unfolding clear_from free_entry
  clear t = clear_from t.count 0 t

  -- The inner `while` of `LigHT_grow`; `key` is the variable of that name, an `unsigned int`.
  move_entry : ℕ → ℕ → ℕ → ℕ → List (LigHtEntry V) → Option (List (LigHtEntry V))
  move_entry zero size at key es = none
  move_entry (suc fuel) size at key es =
      let next = key % size in
      let rest =
        move_entry fuel size next (to_unsigned u32_mod (slot es next).key)
          (set es next (slot es at)) in
      if eq_ℤ (slot es at).key minus_one then some es else if next == at then some es else rest

  -- The loop over the old slots.
  move_entries : ℕ → ℕ → ℕ → ℕ → List (LigHtEntry V) → Option (List (LigHtEntry V))
  move_entries zero i fuel size es = some es
  move_entries (suc rounds) i fuel size es =
      elim (move_entry fuel size i (to_unsigned u32_mod (slot es i).key) es) [
        | none ↦ none
        | some fs ↦ move_entries rounds (i + 1) fuel size fs
      ]

  regrown : LigHt V → Option (List (LigHtEntry V)) → Option (LigHt V)
  regrown t none = none
  regrown t (some es) = some (record t { entries = es })

  -- `none` if the fuel of a `while` runs out.
  unfoldable pub grow : ℕ → LigHt V → ℕ → Option (LigHt V)
  unfolding regrown move_entries move_entry
  grow fuel t new_cap =
      if ltb (capacity t) new_cap
      then regrown t (
          move_entries (capacity t) 0 fuel new_cap
            (t.entries ++ replicate (new_cap - capacity t) vacant))
      else some t

  -- The table that `LigHT_init` hands to `LigHT_grow`.
  abbrev pub no_entries : Bool → LigHt V
  no_entries has_free = record { entries = []; count = 0; has_free = has_free; freed = [] }

  abbrev grown_or : LigHt V → Option (LigHt V) → LigHt V
  grown_or t none = t
  grown_or t (some u) = u

  -- The table has no entries to move, so no fuel is needed and `none` is not met.
  unfoldable pub init : ℕ → Bool → LigHt V
  unfolding grow
  init initial_cap has_free =
      grown_or (no_entries has_free) (grow 0 (no_entries has_free) initial_cap)

  -- What the callback was called on when the table is gone.
  unfoldable pub destroy : LigHt V → List (Option V)
  unfolding clear
  destroy t = (clear t).freed

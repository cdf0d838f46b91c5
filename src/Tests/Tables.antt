-- ===== src/Tests/Tables.antt =====
-- The hash table of src/ligHT.c on tables of five slots.
use libinject.Base.{ℕ, true, false, some, ◌≡◌, ◌≢◌, ◌⊎◌, ◌↔◌, refl, arith, pos, minus_one}
use libinject.LigHt
use libinject.LigHt.Limits.{contains-remove, remove_loses, clear_survivors}
use libinject.LigHt.Put.{put-IsValid, read-put, put_refused, put_unchanged, init-IsValid, read}
use libinject.LigHt.Store.{IsValid, search_from_ends}
use libinject.LigHt.{
  LigHt, capacity, put, remove, contains, clear, slot, search_from, out_of_fuel, hit, get_offset,
}

abbrev empty_table : LigHt ℕ
empty_table = LigHt.init 5 false

-- 3 and 8 have the same home.
abbrev one_key : LigHt ℕ
one_key = (put empty_table (pos 3) (some 70) false).0

abbrev two_keys : LigHt ℕ
two_keys = (put one_key (pos 8) (some 71) false).0

empty_table-IsValid : IsValid empty_table
empty_table-IsValid = (init-IsValid 5 false (omega arith) (omega arith)).0

minus-ne : (n : ℕ) → pos n ≢ minus_one
minus-ne n = λ e. cc

one_key-IsValid : IsValid one_key
one_key-IsValid = put-IsValid empty_table (pos 3) (some 70) false empty_table-IsValid (minus-ne 3)

two_keys-IsValid : IsValid two_keys
two_keys-IsValid = put-IsValid one_key (pos 8) (some 71) false one_key-IsValid (minus-ne 8)

two_keys_count : two_keys.count ≡ 2
unfolding put LigHt.probe LigHt.init
two_keys_count = refl

search_from_ends_example : search_from two_keys (pos 13) ≢ out_of_fuel
search_from_ends_example = search_from_ends two_keys (pos 13) two_keys-IsValid.sized

put-IsValid_example : IsValid two_keys
put-IsValid_example = put-IsValid one_key (pos 8) (some 71) false one_key-IsValid (minus-ne 8)

read-put_example : read two_keys (pos 3) ≡ read one_key (pos 3)
unfolding put LigHt.probe LigHt.init
read-put_example =
    read-put one_key (pos 8) (pos 3) (some 71) false one_key-IsValid (minus-ne 8) (minus-ne 3) refl

put_unchanged_example : (put one_key (pos 3) (some 72) false).0 ≡ one_key
unfolding put LigHt.probe LigHt.init
put_unchanged_example =
    put_unchanged one_key (pos 3) (some 72) false one_key-IsValid (minus-ne 3) refl

put_refused_example : ((put one_key (pos 3) (some 72) false).1 ≡ false) ↔ (
    ((contains one_key (pos 3) ≡ true) × (false ≡ false))
    ⊎ ((contains one_key (pos 3) ≡ false) × (one_key.count ≡ capacity one_key)))
put_refused_example = put_refused one_key (pos 3) (some 72) false one_key-IsValid (minus-ne 3)

contains-remove_example :
    ((remove two_keys (pos 3)).1 ≡ contains two_keys (pos 3))
    × (contains (remove two_keys (pos 3)).0 (pos 3) ≡ false)
contains-remove_example = contains-remove two_keys (pos 3) two_keys-IsValid (minus-ne 3)

remove_loses_example : contains (remove two_keys (pos 3)).0 (pos 8) ≡ false
unfolding put LigHt.probe LigHt.init
remove_loses_example =
    remove_loses two_keys (pos 3) (pos 8) two_keys-IsValid.sized (minus-ne 3) (minus-ne 8) refl refl

clear_survivors_example : slot (clear two_keys).entries 4 ≡ slot two_keys.entries 4
clear_survivors_example =
    clear_survivors two_keys 4 (omega (arith, two_keys_count)) (omega (arith, two_keys_count))

-- ===== src/Binding/Table.antt =====
-- LigHT_put and LigHT_remove on the table of sockets of src/binding.c, between two calls and during
-- one.
use libinject.Base.{ℕ, true, none, some, ◌≢◌, inl, inr, sym, ap, subst, ◌∙◌, arith, ℤ, minus_one}
use libinject.LigHt.{LigHt, hit, put, remove}
use libinject.LigHt.Put.{hit_or_miss}
use libinject.LigHt.Slots.{
  ChangedAt, ChangedAt-cases, datum_in, placed, refused, put-Placed, remove-slots, remove-miss,
}
use libinject.Binding.Safety.{Heap, Counts, AreApart, IsSafe, IsSafeBut, IsHeld}

AreApart-none : (t t' : LigHt ℕ) (i : ℕ) → ChangedAt t t' i none → AreApart t → AreApart t'
AreApart-none t t' i changed apart j k p e f = elim (ChangedAt-cases t t' i j none p changed e) [
  | inl (_, bad) ↦ cc
  | inr (_, e') ↦ elim (ChangedAt-cases t t' i k none p changed f) [
    | inl (_, bad) ↦ cc
    | inr (_, f') ↦ apart j k p e' f'
  ]
]

AreApart-new :
    (t t' : LigHt ℕ) (i held : ℕ)
    → ChangedAt t t' i (some held)
    → ((j : ℕ) → datum_in t j ≢ some held)
    → AreApart t
    → AreApart t'
AreApart-new t t' i held changed new apart j k p e f =
    elim (ChangedAt-cases t t' i j (some held) p changed e) [
      | inl (a, same) ↦ elim (ChangedAt-cases t t' i k (some held) p changed f) [
        | inl (b, _) ↦ cc
        | inr (_, f') ↦ absurd (new k (cc))
      ]
      | inr (_, e') ↦ elim (ChangedAt-cases t t' i k (some held) p changed f) [
        | inl (_, same) ↦ absurd (new j (cc))
        | inr (_, f') ↦ apart j k p e' f'
      ]
    ]

-- NULL put under the key.
pub IsSafe-put :
    (t : LigHt ℕ) (heap : Heap) (key : ℤ)
    → key ≢ minus_one
    → IsSafeBut t heap key
    → IsSafe (put t key none true).0 heap
IsSafe-put t heap key ne s =
    let t' = (put t key none true).0 in
    let (sized, where_to) = put-Placed t key none s.sized ne in
    elim where_to [
      | placed i found only changed ↦ record {
        sized = sized;
        at_rest = λ j p e. elim (ChangedAt-cases t t' i j none p changed e) [
          | inl (_, bad) ↦ cc
          | inr (other, e') ↦ s.at_rest j p e' (λ h. other (sym (only j h)))
        ];
        apart = AreApart-none t t' i changed s.apart;
      }
      | refused same miss ↦
          subst (λ u. IsSafe u heap) (sym same)
            (record {
              sized = s.sized;
              at_rest = λ j p e. s.at_rest j p e (miss j);
              apart = s.apart;
            })
    ]

-- An info that no slot points to, put under the key.
pub IsHeld-put :
    (t : LigHt ℕ) (heap : Heap) (key : ℤ) (held : ℕ)
    → key ≢ minus_one
    → IsSafeBut t heap key
    → ((i : ℕ) → datum_in t i ≢ some held)
    → Counts heap held 1
    → IsHeld (put t key (some held) true).0 heap key held
IsHeld-put t heap key held ne s new locked =
    let t' = (put t key (some held) true).0 in
    let (sized, where_to) = put-Placed t key (some held) s.sized ne in
    elim where_to [
      | placed i found only changed ↦ record {
        sized = sized;
        at_rest = λ j p e other. elim (ChangedAt-cases t t' i j (some held) p changed e) [
          | inl (_, same) ↦ absurd (other (cc))
          | inr (apart, e') ↦ s.at_rest j p e' (λ h. apart (sym (only j h)))
        ];
        apart = AreApart-new t t' i held changed new s.apart;
        here = λ j e. elim (ChangedAt-cases t t' i j (some held) held changed e) [
          | inl (same, _) ↦ found ∙ ap hit same
          | inr (_, e') ↦ absurd (new j e')
        ];
        locked = locked;
      }
      | refused same miss ↦
          subst (λ u. IsHeld u heap key held) (sym same)
            (record {
              sized = s.sized;
              at_rest = λ j p e _. s.at_rest j p e (miss j);
              apart = s.apart;
              here = λ j e. absurd (new j e);
              locked = locked;
            })
    ]

-- The slot of the key is emptied.
pub IsHeld-remove :
    (t : LigHt ℕ) (heap : Heap) (key : ℤ) (p : ℕ)
    → key ≢ minus_one
    → IsHeld t heap key p
    → IsHeld (remove t key).0 heap key p × ((i : ℕ) → datum_in (remove t key).0 i ≢ some p)
IsHeld-remove t heap key p ne s = elim (hit_or_miss t key) [
  | inl (i, found) ↦
      let t' = (remove t key).0 in
      let (sized, changed) = remove-slots t key i s.sized ne found in
      let gone : (j : ℕ) → datum_in t' j ≢ some p = λ j e.
        elim (ChangedAt-cases t t' i j none p changed e) [
          | inl (_, bad) ↦ cc
          | inr (other, e') ↦ let h = s.here j e' in other (ground arith)
        ] in
      (
        record {
          sized = sized;
          at_rest = λ j q e other. elim (ChangedAt-cases t t' i j none q changed e) [
            | inl (_, bad) ↦ cc
            | inr (_, e') ↦ s.at_rest j q e' other
          ];
          apart = AreApart-none t t' i changed s.apart;
          here = λ j e. absurd (gone j e);
          locked = s.locked;
        },
        gone,
      )
  | inr miss ↦
      let same = remove-miss t key miss in
      (
        subst (λ u. IsHeld u heap key p) (sym same) s,
        subst (λ u. (i : ℕ) → datum_in u i ≢ some p) (sym same) (λ i e. miss i (s.here i e)),
      )
]

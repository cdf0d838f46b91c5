-- ===== src/Threads/View.antt =====
-- The table of rules that the shared memory of src/actions.c stands for.
use libinject.Base.{
  ℕ, zero, suc, Option, none, some, List, [], ◌∷◌, ◌≡◌, ◌≢◌, refl, ◌∙◌, ap, arith, set, get_or,
  length,
}
use libinject.Queue.{line_at}
use libinject.Rule.{Action}
use libinject.Threads.{Memory, line_of, rule_in, view, view_lines}

pub length-view : (m : Memory) (t : List (Option ℕ)) → length (view_lines m t) ≡ length t
length-view m [] = refl
length-view m (x ∷ t) = ap suc (length-view m t)

pub line-view :
    (m : Memory) (t : List (Option ℕ)) (i : ℕ)
    → line_at (view_lines m t) i ≡ rule_in m (get_or t i none)
line-view m [] i = refl
line-view m (x ∷ t) zero = refl
line-view m (x ∷ t) (suc i) = line-view m t i

view-same :
    (m m' : Memory) (t : List (Option ℕ))
    → ((j : ℕ) → rule_in m' (get_or t j none) ≡ rule_in m (get_or t j none))
    → view_lines m' t ≡ view_lines m t
view-same m m' [] h = refl
view-same m m' (x ∷ t) h =
    ap (λ o. o ∷ view_lines m' t) (h 0) ∙ ap (◌∷◌ (rule_in m x)) (view-same m m' t (λ j. h (suc j)))

-- One line is written, and no rule of another line changes.
pub view-set :
    (m m' : Memory) (t : List (Option ℕ)) (i : ℕ) (x : Option ℕ) (v : Option Action)
    → rule_in m' x ≡ v
    → ((j : ℕ) → i ≢ j → rule_in m' (get_or t j none) ≡ rule_in m (get_or t j none))
    → view_lines m' (set t i x) ≡ set (view_lines m t) i v
view-set m m' [] i x v here others = refl
view-set m m' (y ∷ t) zero x v here others =
    ap (λ o. o ∷ view_lines m' t) here
    ∙ ap (◌∷◌ v) (view-same m m' t (λ j. others (suc j) (omega arith)))
view-set m m' (y ∷ t) (suc i) x v here others =
    ap (λ o. o ∷ view_lines m' (set t i x)) (others 0 (omega arith))
    ∙ ap (◌∷◌ (rule_in m y)) (view-set m m' t i x v here (λ j h. others (suc j) (omega arith)))

pub line_at-view :
    (m : Memory) (i a : ℕ) (r : Action)
    → line_of m i ≡ some a
    → m.rules a ≡ some r
    → line_at (view m) i ≡ some r
line_at-view m i a r e live = line-view m m.table i ∙ ap (rule_in m) e ∙ live

pub line_at-view-none : (m : Memory) (i : ℕ) → line_of m i ≡ none → line_at (view m) i ≡ none
line_at-view-none m i e = line-view m m.table i ∙ ap (rule_in m) e

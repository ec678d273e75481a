-- ===== src/Ui/Stacking.antt =====
-- The stacking order of the windows: what is found under a point, and what `bring_to_front` does.
use mathlib.Core.Path.{subst}
use mathlib.Core.Option.{some-injective}
use meu_so_baremetal.Prelude.{
  some_pair, ℕ, zero, suc, ◌+◌, ◌≤◌, ◌<◌, ◌≡◌, ◌⊎◌, inl, inr, Bool, true, false, ◌&&◌, List, [],
  ◌∷◌, Option, none, some, ltb, get_elem?, arith, refl, sym, Bool-cases,
}
use meu_so_baremetal.Ui.{Window, contains, find_top, id_of, find_clicked_window, top_window}

-- An open window that the test accepts.
abbrev pub Meets : (Window → Bool) → Window → Type 0
Meets test w = (w.is_open && test w) ≡ true

-- No window that meets the test is above `z`.
abbrev pub NoneAbove : (Window → Bool) → List Window → ℕ → Type 0
NoneAbove test ws z = (j : ℕ) (w : Window) → get_elem? ws j ≡ some w → Meets test w → w.z_index ≤ z

abbrev pub NoneMeets : (Window → Bool) → List Window → Type 0
NoneMeets test ws = (j : ℕ) (w : Window) → get_elem? ws j ≡ some w → Meets test w → ⊥

-- The window at index `k` of the whole table meets the test and is at `z`; `ws` starts at `i`.
abbrev pub IsAt : (Window → Bool) → ℕ → List Window → ℕ → ℕ → Type 0
IsAt test i ws k z =
    (j : ℕ) × (w : Window) × (k ≡ i + j)
    × (get_elem? ws j ≡ some w)
    × Meets test w
    × (w.z_index ≡ z)

-- What a search over `ws` from index `i` comes to, when `b` is the best before.
abbrev pub Best : (Window → Bool) → ℕ → List Window → Option (ℕ × ℕ) → Option (ℕ × ℕ) → Type 0
Best test i ws b none = (b ≡ none) × NoneMeets test ws
Best test i ws b (some (k, z)) =
    ((b ≡ some (k, z)) ⊎ IsAt test i ws k z)
    × NoneAbove test ws z
    × ((k' z' : ℕ) → b ≡ some (k', z') → z' ≤ z)

module _ (test : Window → Bool) (i : ℕ) (w : Window) (ws : List Window) where
  later : (k z : ℕ) → IsAt test (i + 1) ws k z → IsAt test i (w ∷ ws) k z
  later k z (j, v, e, g, m, p) = (suc j, v, omega arith, g, m, p)

  none_above :
      (z : ℕ) → (Meets test w → w.z_index ≤ z) → NoneAbove test ws z → NoneAbove test (w ∷ ws) z
  none_above z h t zero v e m = let f : w ≡ v = some-injective _ _ e in rw (← f) (h (rw (← f) at m))
  none_above z h t (suc j) v e m = t j v e m

  none_meets : (Meets test w → ⊥) → NoneMeets test ws → NoneMeets test (w ∷ ws)
  none_meets h t zero v e m =
      let f : w ≡ v = some-injective _ _ e in h (subst (Meets test) (sym f) m)
  none_meets h t (suc j) v e m = t j v e m

  -- A window that does not meet the test is passed over.
  skip :
      (w.is_open && test w) ≡ false
      → (b r : Option (ℕ × ℕ)) → Best test (i + 1) ws b r
      → Best test i (w ∷ ws) b r
  skip h b none (e, n) = (e, none_meets (λ m. cc) n)
  skip h b (some (k, z)) (o, n, l) = (
    elim o [ inl e ↦ inl e | inr at' ↦ inr (later k z at') ],
    none_above z (λ m. absurd (cc)) n,
    l,
  )

  -- A window that meets it and is above the best so far takes its place.
  replace :
      Meets test w
      → (b r : Option (ℕ × ℕ)) → ((k z : ℕ) → b ≡ some (k, z) → z < w.z_index)
      → Best test (i + 1) ws (some (i, w.z_index)) r
      → Best test i (w ∷ ws) b r
  replace h b none below (e, n) = absurd (cc)
  replace h b (some (k, z)) below (o, n, l) = (
    inr (elim o [
      | inl e ↦ let (ek, ez) = some_pair e in (0, w, omega (arith, ek), refl, h, ez)
      | inr at' ↦ later k z at'
    ]),
    none_above z (λ m. l i w.z_index refl) n,
    λ k' z' e. omega (arith, below k' z' e, l i w.z_index refl),
  )

  -- One that is not above it does not.
  keep :
      (k z : ℕ) (r : Option (ℕ × ℕ))
      → w.z_index ≤ z
      → Best test (i + 1) ws (some (k, z)) r
      → Best test i (w ∷ ws) (some (k, z)) r
  keep k z none h (e, n) = absurd (cc)
  keep k z (some (k', z')) h (o, n, l) = (
    elim o [ inl e ↦ inl e | inr at' ↦ inr (later k' z' at') ],
    none_above z' (λ m. omega (arith, l k z refl)) n,
    l,
  )

pub find_top-Best :
    (test : Window → Bool) (i : ℕ) (ws : List Window) (b : Option (ℕ × ℕ))
    → Best test i ws b (find_top test i ws b)
unfolding find_top
find_top-Best test i [] none = (refl, λ j w e m. absurd (cc))
find_top-Best test i [] (some (k, z)) =
    (inl refl, λ j w e m. absurd (cc), λ k' z' e. omega (arith, (some_pair e).1))
find_top-Best test i (w ∷ ws) none = elim (Bool-cases (w.is_open && test w)) [
  | inr h ↦ rw h (skip test i w ws h none _ (find_top-Best test (i + 1) ws none))
  | inl h ↦ rw h (
      replace test i w ws h none _ (λ k z e. absurd (cc))
        (find_top-Best test (i + 1) ws (some (i, w.z_index))))
]
find_top-Best test i (w ∷ ws) (some (k, z)) = elim (Bool-cases (w.is_open && test w)) [
  | inr h ↦ rw h (skip test i w ws h (some (k, z)) _ (find_top-Best test (i + 1) ws (some (k, z))))
  | inl h ↦ elim (Bool-cases (ltb z w.z_index)) [
    | inl l ↦
        rw (h, l)
          (replace test i w ws h (some (k, z)) _ (λ k' z' e. ground (arith, some_pair e))
            (find_top-Best test (i + 1) ws (some (i, w.z_index))))
    | inr l ↦
        rw (h, l)
          (keep test i w ws k z _ (ground arith) (find_top-Best test (i + 1) ws (some (k, z))))
  ]
]

-- The answer is the topmost of the open windows that meet the test, and none only if none does.
abbrev pub IsTopmost : (Window → Bool) → List Window → Option ℕ → Type 0
IsTopmost test ws none = NoneMeets test ws
IsTopmost test ws (some k) =
    (w : Window) × (get_elem? ws k ≡ some w) × Meets test w × NoneAbove test ws w.z_index

Best-IsTopmost :
    (test : Window → Bool) (ws : List Window) (r : Option (ℕ × ℕ))
    → Best test 0 ws none r
    → IsTopmost test ws (id_of r)
Best-IsTopmost test ws none (e, n) = n
Best-IsTopmost test ws (some (k, z)) (o, n, l) = elim o [
  | inl e ↦ absurd (cc)
  | inr (j, w, e, g, m, p) ↦
      let ek : j ≡ k = omega (arith, e) in (w, rw (← ek) g, m, subst (NoneAbove test ws) (sym p) n)
]

-- `find_clicked_window` returns the open window that contains the point and that no other such
-- window lies above; it returns -1 only if no open window contains the point.
pub find_clicked_window-IsTopmost :
    (mx my : ℕ) (ws : List Window) → IsTopmost (contains mx my) ws (find_clicked_window mx my ws)
unfolding find_clicked_window
find_clicked_window-IsTopmost mx my ws =
    Best-IsTopmost (contains mx my) ws _ (find_top-Best (contains mx my) 0 ws none)

pub top_window-IsTopmost : (ws : List Window) → IsTopmost (λ w. true) ws (top_window ws)
unfolding top_window
top_window-IsTopmost ws = Best-IsTopmost (λ w. true) ws _ (find_top-Best (λ w. true) 0 ws none)

-- ===== src/Ui/Front.antt =====
-- `bring_to_front` of src/ui.c: the window comes on top of all others, for clicks and for keys.
use mathlib.Core.Path.{subst}
use mathlib.Core.Option.{some-injective}
use meu_so_baremetal.Prelude.{
  ℕ, zero, suc, ◌+◌, ◌≤◌, ◌≡◌, ◌≢◌, ◌⊎◌, inl, inr, ◌∙◌, Bool, true, List, [], ◌∷◌, Option, none,
  some, get_elem?, arith, refl, sym, ap, ℕ_discrete,
}
use meu_so_baremetal.Ui.{
  Window, Stack, raise, change, bring_to_front, contains, find_clicked_window, top_window,
}
use meu_so_baremetal.Ui.Stacking.{IsTopmost, find_clicked_window-IsTopmost, top_window-IsTopmost}

-- No two windows share a `z_index`, and none is above `top_z_index`.
pub record IsOrdered (s : Stack) : Type 0 where
  pub bounded : (i : ℕ) (w : Window) → get_elem? s.windows i ≡ some w → w.z_index ≤ s.top_z_index
  pub distinct :
      (i j : ℕ) (v w : Window)
      → get_elem? s.windows i ≡ some v
      → get_elem? s.windows j ≡ some w
      → v.z_index ≡ w.z_index
      → i ≡ j

pub get-change_self :
    (f : Window → Window) (i : ℕ) (ws : List Window) (w : Window)
    → get_elem? ws i ≡ some w
    → get_elem? (change f i ws) i ≡ some (f w)
unfolding change
get-change_self f i [] w e = absurd (cc)
get-change_self f zero (v ∷ ws) w e = ap (λ (u : Window). some (f u)) (some-injective _ _ e)
get-change_self f (suc i) (v ∷ ws) w e = get-change_self f i ws w e

pub get-change_ne :
    (f : Window → Window) (i j : ℕ) (ws : List Window)
    → i ≢ j
    → get_elem? (change f i ws) j ≡ get_elem? ws j
unfolding change
get-change_ne f i j [] h = refl
get-change_ne f zero zero (v ∷ ws) h = absurd (h refl)
get-change_ne f zero (suc j) (v ∷ ws) h = refl
get-change_ne f (suc i) zero (v ∷ ws) h = refl
get-change_ne f (suc i) (suc j) (v ∷ ws) h = get-change_ne f i j ws (λ e. h (ap suc e))

module _ (id : ℕ) (s : Stack) (w : Window) (it : get_elem? s.windows id ≡ some w)
    (o : IsOrdered s) where
  -- A window of the new table is the raised one or an old one.
  raised_or_old :
      (j : ℕ) (v : Window)
      → get_elem? (bring_to_front id s).windows j ≡ some v
      → ((j ≡ id) × (v ≡ raise (s.top_z_index + 1) w))
        ⊎ ((j ≢ id) × (get_elem? s.windows j ≡ some v))
  unfolding bring_to_front
  raised_or_old j v e = elim (ℕ_discrete id j) [
    | yes p ↦ inl (
      sym p,
      some-injective _ _ (
          sym (
            subst
              (λ (t : ℕ). get_elem? (change (raise (s.top_z_index + 1)) id s.windows) t ≡ some v)
              (sym p) e)
          ∙ get-change_self (raise (s.top_z_index + 1)) id s.windows w it),
    )
    | no n ↦
        inr (λ p. n (sym p), sym (get-change_ne (raise (s.top_z_index + 1)) id j s.windows n) ∙ e)
  ]

  old_below :
      (j : ℕ) (v : Window)
      → get_elem? (bring_to_front id s).windows j ≡ some v
      → (j ≡ id) ⊎ (v.z_index ≤ s.top_z_index)
  old_below j v e = elim (raised_or_old j v e) [
    | inl (p, q) ↦ inl p
    | inr (n, g) ↦ inr (o.bounded j v g)
  ]

  raised_there : get_elem? (bring_to_front id s).windows id ≡ some (raise (s.top_z_index + 1) w)
  unfolding bring_to_front
  raised_there = get-change_self (raise (s.top_z_index + 1)) id s.windows w it

  topmost_is_raised :
      (test : Window → Bool) (r : Option ℕ)
      → test (raise (s.top_z_index + 1) w) ≡ true
      → IsTopmost test (bring_to_front id s).windows r
      → r ≡ some id
  topmost_is_raised test none t n = absurd (n id (raise (s.top_z_index + 1) w) raised_there t)
  topmost_is_raised test (some k) t (v, g, m, above) =
      let high : s.top_z_index + 1 ≤ v.z_index =
        above id (raise (s.top_z_index + 1) w) raised_there t in
      elim (old_below k v g) [
        | inl p ↦ ap (λ (u : ℕ). some u) p
        | inr low ↦ absurd (omega (arith, high, low))
      ]

  pub kept_IsOrdered : IsOrdered (bring_to_front id s)
  unfolding bring_to_front
  kept_IsOrdered = record {
    bounded = λ i v e. elim (raised_or_old i v e) [
      | inl (p, q) ↦ omega (arith, ap (λ (u : Window). u.z_index) q)
      | inr (n, g) ↦ omega (arith, o.bounded i v g)
    ];
    distinct = λ i j u v eu ev ez. elim (raised_or_old i u eu) [
      | inl (p, q) ↦ elim (raised_or_old j v ev) [
        | inl (p', q') ↦ p ∙ sym p'
        | inr (n, g) ↦ absurd (omega (arith, ap (λ (t : Window). t.z_index) q, ez, o.bounded j v g))
      ]
      | inr (n, g) ↦ elim (raised_or_old j v ev) [
        | inl (p, q) ↦ absurd (omega (arith, ap (λ (t : Window). t.z_index) q, ez, o.bounded i u g))
        | inr (n', g') ↦ o.distinct i j u v g g' ez
      ]
    ];
  }

-- `bring_to_front` of a window of the table: it is then the one that gets the keys, and a click
-- anywhere in it finds it, whatever other windows lie there; the order stays strict.
pub bring_to_front_lem :
    (id : ℕ) (s : Stack) (w : Window)
    → get_elem? s.windows id ≡ some w
    → IsOrdered s
    → (top_window (bring_to_front id s).windows ≡ some id)
      × ((mx my : ℕ)
          → contains mx my w ≡ true
          → find_clicked_window mx my (bring_to_front id s).windows ≡ some id)
      × IsOrdered (bring_to_front id s)
unfolding contains
bring_to_front_lem id s w it o = (
  topmost_is_raised id s w it o (λ v. true) _ refl
      (top_window-IsTopmost (bring_to_front id s).windows),
  λ mx my inside.
      topmost_is_raised id s w it o (contains mx my) _ inside
        (find_clicked_window-IsTopmost mx my (bring_to_front id s).windows),
  kept_IsOrdered id s w it o,
)

-- ===== src/Vfs/Listing.antt =====
-- Which bytes `vfs_list` and `vfs_list_custom_format` of src/vfs.c write.
use meu_so_baremetal.Prelude.{
  ℕ, ◌+◌, ◌≤◌, ◌<◌, ◌≡◌, ◌∙◌, ◌⊎◌, inl, inr, refl, Bool, true, ◌&&◌, List, [], ◌∷◌, ltb, ◌==◌,
  arith, Bool-cases,
}
use meu_so_baremetal.Klibc.{ByteMem, store_chunk, kstrcpy, kstrlen}
use meu_so_baremetal.Klibc.Strings.{NoNul, kstrlen_lem, kstrcpy_outside}
use meu_so_baremetal.Vfs.Custom.{prefix, base_lines, list_lines, vfs_list_custom_format}
use meu_so_baremetal.Vfs.{Linked, Range, base_files, list_assets, vfs_list}

-- The names of the assets are C strings.
abbrev pub Named : List (List ℕ × Range) → Type 0
Named [] = Unit {0}
Named ((name, r) ∷ assets) = NoNul name × Named assets

list_assets_outside :
    (assets : List (List ℕ × Range)) (out len max_len : ℕ) (m : ByteMem) (x : ℕ)
    → Named assets
    → (x < out) ⊎ (out + max_len ≤ x)
    → list_assets assets out len max_len m x ≡ m x
unfolding list_assets
list_assets_outside [] out len max_len m x v off = refl
list_assets_outside ((name, r) ∷ assets) out len max_len m x v off =
    let n = kstrlen_lem name v.0 in
    let m1 = store_chunk 1 (out + len + kstrlen name) 32 (kstrcpy (out + len) name m) in
    let m2 =
      store_chunk 1 (out + len + kstrlen name + 2) 0
        (store_chunk 1 (out + len + kstrlen name + 1) 32 m1) in
    let listed = list_assets_outside assets out (len + kstrlen name + 2) max_len m2 x v.1 off in
    let rest = list_assets_outside assets out len max_len m x v.1 off in
    elim (Bool-cases (ltb (len + kstrlen name + 3) max_len)) [
      | inl room ↦
          let copied = kstrcpy_outside name (out + len) x m (ground (arith, n, room, off)) in
          rw room (listed ∙ ground (arith, n, room, off, copied))
      | inr full ↦ rw full rest
    ]

abbrev all_positive : List ℕ → Bool
all_positive [] = true
all_positive (c ∷ cs) = ltb 0 c && all_positive cs

NoNul-all_positive : (s : List ℕ) → all_positive s ≡ true → NoNul s
NoNul-all_positive [] e = tt
NoNul-all_positive (c ∷ cs) e = (ground (arith, e), NoNul-all_positive cs (ground (arith, e)))

base_files-NoNul : NoNul base_files
base_files-NoNul = NoNul-all_positive base_files refl

vfs_list_outside :
    (linked : Linked) (out max_len : ℕ) (m : ByteMem) (x : ℕ)
    → Named linked.assets
    → (x < out) ⊎ (out + max_len ≤ x)
    → vfs_list linked out max_len m x ≡ m x
unfolding vfs_list
vfs_list_outside linked out max_len m x v off =
    let n = kstrlen_lem base_files base_files-NoNul in
    let m0 = store_chunk 1 out 0 m in
    let full =
      list_assets_outside linked.assets out (kstrlen base_files) max_len (kstrcpy out base_files m0)
        x v off in
    let bare = list_assets_outside linked.assets out 0 max_len m0 x v off in
    elim (Bool-cases (out == 0)) [
      | inl null ↦ rw null refl
      | inr ok ↦ elim (Bool-cases (max_len == 0)) [
        | inl empty ↦ rw (ok, empty) refl
        | inr some_room ↦ elim (Bool-cases (ltb (kstrlen base_files) max_len)) [
          | inl room ↦
              let copied = kstrcpy_outside base_files out x m0 (ground (arith, n, room, off)) in
              rw (ok, some_room, room) (full ∙ copied ∙ ground (arith, some_room, off))
          | inr small ↦ rw (ok, some_room, small) (bare ∙ ground (arith, some_room, off))
        ]
      ]
    ]

prefix-NoNul : NoNul prefix
prefix-NoNul = NoNul-all_positive prefix refl

base_lines-NoNul : NoNul base_lines
base_lines-NoNul = NoNul-all_positive base_lines refl

list_lines_outside :
    (assets : List (List ℕ × Range)) (out len max_len : ℕ) (m : ByteMem) (x : ℕ)
    → Named assets
    → (x < out) ⊎ (out + max_len ≤ x)
    → list_lines assets out len max_len m x ≡ m x
unfolding list_lines
list_lines_outside [] out len max_len m x v off = refl
list_lines_outside ((name, r) ∷ assets) out len max_len m x v off =
    let n = kstrlen_lem name v.0 in
    let k = kstrlen_lem prefix prefix-NoNul in
    let m0 = kstrcpy (out + len) prefix m in
    let m1 = kstrcpy (out + len + 7) name m0 in
    let m2 =
      store_chunk 1 (out + len + 7 + kstrlen name + 1) 0
        (store_chunk 1 (out + len + 7 + kstrlen name) 10 m1) in
    let listed = list_lines_outside assets out (len + 7 + kstrlen name + 1) max_len m2 x v.1 off in
    let rest = list_lines_outside assets out len max_len m x v.1 off in
    elim (Bool-cases (ltb (len + (7 + kstrlen name + 1)) max_len)) [
      | inl room ↦
          let first = kstrcpy_outside prefix (out + len) x m (ground (arith, k, room, off)) in
          let copied = kstrcpy_outside name (out + len + 7) x m0 (ground (arith, n, room, off)) in
          rw room (listed ∙ ground (arith, n, room, off, copied) ∙ first)
      | inr full ↦ rw full rest
    ]

vfs_list_custom_format_outside :
    (linked : Linked) (out max_len : ℕ) (m : ByteMem) (x : ℕ)
    → Named linked.assets
    → (x < out) ⊎ (out + max_len ≤ x)
    → vfs_list_custom_format linked out max_len m x ≡ m x
unfolding vfs_list_custom_format
vfs_list_custom_format_outside linked out max_len m x v off =
    let n = kstrlen_lem base_lines base_lines-NoNul in
    let m0 = store_chunk 1 out 0 m in
    let full =
      list_lines_outside linked.assets out (kstrlen base_lines) max_len (kstrcpy out base_lines m0)
        x v off in
    let bare = list_lines_outside linked.assets out 0 max_len m0 x v off in
    elim (Bool-cases (out == 0)) [
      | inl null ↦ rw null refl
      | inr ok ↦ elim (Bool-cases (max_len == 0)) [
        | inl empty ↦ rw (ok, empty) refl
        | inr some_room ↦ elim (Bool-cases (ltb (kstrlen base_lines) max_len)) [
          | inl room ↦
              let copied = kstrcpy_outside base_lines out x m0 (ground (arith, n, room, off)) in
              rw (ok, some_room, room) (full ∙ copied ∙ ground (arith, some_room, off))
          | inr small ↦ rw (ok, some_room, small) (bare ∙ ground (arith, some_room, off))
        ]
      ]
    ]

-- Whatever the assets are, as long as their names are C strings, neither `vfs_list` nor
-- `vfs_list_custom_format` changes a byte outside of the `max_len` bytes at `out`.
pub vfs_lists_stay_inside :
    (linked : Linked) (out max_len : ℕ) (m : ByteMem) (x : ℕ)
    → Named linked.assets
    → (x < out) ⊎ (out + max_len ≤ x)
    → (vfs_list linked out max_len m x ≡ m x)
      × (vfs_list_custom_format linked out max_len m x ≡ m x)
vfs_lists_stay_inside linked out max_len m x v off = (
  vfs_list_outside linked out max_len m x v off,
  vfs_list_custom_format_outside linked out max_len m x v off,
)

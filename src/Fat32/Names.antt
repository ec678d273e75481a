-- ===== src/Fat32/Names.antt =====
-- The 8.3 names that `fat32_read_file` of src/fat32.c looks for, and the search for an entry.
use meu_so_baremetal.Prelude.{
  ℕ, zero, suc, ◌+◌, ◌-◌, ◌*◌, Bool, true, false, ◌&&◌, ◌||◌, Option, none, some, List, [], ◌∷◌,
  leb, ◌==◌, if◌then◌else◌,
}
use meu_so_baremetal.Klibc.{ByteMem}
use meu_so_baremetal.Fat32.{is_used}

abbrev pub upper : ℕ → ℕ
upper c = if leb 97 c && leb c 122 then c - 32 else c

abbrev pub update : (ℕ → ℕ) → ℕ → ℕ → ℕ → ℕ
update f i v j = if j == i then v else f j

-- Up to eight characters before a dot, and what is left of the name.
unfoldable pub copy_base : List ℕ → ℕ → (ℕ → ℕ) → List ℕ × (ℕ → ℕ)
copy_base [] p buf = ([], buf)
copy_base (c ∷ cs) p buf =
    let rest = copy_base cs (suc p) (update buf p (upper c)) in
    if c == 0 || c == 46 || leb 8 p then (c ∷ cs, buf) else rest

-- The rest of the name up to a dot.
unfoldable pub skip_base : List ℕ → List ℕ
skip_base [] = []
skip_base (c ∷ cs) = let rest = skip_base cs in if c == 0 || c == 46 then c ∷ cs else rest

-- The characters after the dot, from place `p` on.
unfoldable pub copy_extension : List ℕ → ℕ → (ℕ → ℕ) → ℕ → ℕ
copy_extension [] p buf = buf
copy_extension (c ∷ cs) p buf =
    let rest = copy_extension cs (suc p) (update buf p (upper c)) in
    if c == 0 || leb 11 p then buf else rest

-- The extension, if a dot stands at the head.
abbrev pub after_dot : List ℕ → (ℕ → ℕ) → ℕ → ℕ
after_dot [] buf = buf
after_dot (c ∷ cs) buf = if c == 46 then copy_extension cs 8 buf else buf

unfoldable pub fat_name : List ℕ → ℕ → ℕ
fat_name filename =
    let (rest, buf) = copy_base filename 0 (λ i. 32) in after_dot (skip_base rest) buf

-- The places of entry `e`, `k` of them to the end, are those of the name.
unfoldable pub matches_from : (k place e : ℕ) → ByteMem → (ℕ → ℕ) → Bool
matches_from zero place e m name = true
matches_from (suc k) place e m name =
    let rest = matches_from k (suc place) e m name in
    if upper (m (32 * e + place)) == name place then rest else false

-- The first used entry with the name, of the `k` from `e` on.
unfoldable pub find_entry : (k e : ℕ) → ByteMem → (ℕ → ℕ) → Option ℕ
find_entry zero e m name = none
find_entry (suc k) e m name =
    let rest = find_entry k (suc e) m name in
    if is_used e m && matches_from 11 0 e m name then some e else rest

-- The first entry that is not used, of the `k` from `e` on.
unfoldable pub find_free : (k e : ℕ) → ByteMem → Option ℕ
find_free zero e m = none
find_free (suc k) e m = let rest = find_free k (suc e) m in if is_used e m then rest else some e

-- ===== src/Fat32/Lost.antt =====
-- Names with a dot in src/fat32.c, as they are stored and as they are looked for.
use mathlib.Core.Path.{subst}
use meu_so_baremetal.Prelude.{
  ℕ, zero, suc, ◌+◌, ◌-◌, ◌*◌, ◌<◌, ◌≡◌, ◌≢◌, ◌∙◌, refl, sym, ap, Bool, true, false, ◌||◌, List, [],
  ◌∷◌, ◌++◌, length, leb, ◌==◌, if◌then◌else◌, arith,
}
use meu_so_baremetal.Klibc.{ByteMem, fast_memset}
use meu_so_baremetal.Fat32.{put8, put_bytes}
use meu_so_baremetal.Fat32.Names.{
  update, upper, copy_base, skip_base, copy_extension, after_dot, fat_name, matches_from,
}
use meu_so_baremetal.Fat32.Files.{raw_name, set_entry}

-- No byte is 0 or a dot.
abbrev pub Plain : List ℕ → Type 0
Plain [] = Unit {0}
Plain (c ∷ cs) = (c ≢ 0) × (c ≢ 46) × Plain cs

copy_extension_low :
    (cs : List ℕ) (p i : ℕ) (buf : ℕ → ℕ) → i < p → copy_extension cs p buf i ≡ buf i
unfolding copy_extension
copy_extension_low [] p i buf lt = refl
copy_extension_low (c ∷ cs) p i buf lt =
    ground (arith, lt, copy_extension_low cs (suc p) i (update buf p (upper c)) (omega arith))

else_branch {ℓ} : {A : Type ℓ} (b : Bool) (x y : A) → b ≡ false → (if b then x else y) ≡ y
else_branch b x y e = rw e refl

-- The base is copied, and the copy stops at the dot.
copy_base_stops :
    (b ext : List ℕ) (p : ℕ) (buf : ℕ → ℕ)
    → Plain b
    → p + length b < 8
    → ((copy_base (b ++ (46 ∷ ext)) p buf).0 ≡ 46 ∷ ext)
      × ((copy_base (b ++ (46 ∷ ext)) p buf).1 (p + length b) ≡ buf (p + length b))
unfolding copy_base
copy_base_stops [] ext p buf pl lt = (refl, refl)
copy_base_stops (c ∷ cs) ext p buf pl lt =
    let ih = copy_base_stops cs ext (suc p) (update buf p (upper c)) pl.2 (omega arith) in
    let go : (c == 0 || c == 46 || leb 8 p) ≡ false = ground (arith, pl.0, pl.1, lt) in
    let rest = copy_base (cs ++ (46 ∷ ext)) (suc p) (update buf p (upper c)) in
    let step = else_branch _ (c ∷ (cs ++ (46 ∷ ext)), buf) rest go in
    let place : p + suc (length cs) ≡ suc p + length cs = omega arith in
    (
      ap (λ (q : List ℕ × (ℕ → ℕ)). q.0) step ∙ ih.0,
      ap (λ (q : List ℕ × (ℕ → ℕ)). q.1 (p + suc (length cs))) step
          ∙ ap rest.1 place
          ∙ ih.1
          ∙ ground arith,
    )

fat_name_dot :
    (b ext : List ℕ) → Plain b → length b < 8 → fat_name (b ++ (46 ∷ ext)) (length b) ≡ 32
unfolding fat_name skip_base
fat_name_dot b ext pl lt =
    let r = copy_base_stops b ext 0 (λ i. 32) pl (omega arith) in
    let buf = (copy_base (b ++ (46 ∷ ext)) 0 (λ i. 32)).1 in
    let place : length b ≡ 0 + length b = omega arith in
    ap (λ l. after_dot (skip_base l) buf (length b)) r.0
    ∙ copy_extension_low ext 8 (length b) buf lt
    ∙ ap buf place
    ∙ r.1

raw_name_dot :
    (b ext : List ℕ) (k : ℕ)
    → Plain b
    → length b < k
    → raw_name k (b ++ (46 ∷ ext)) ≡ b ++ (46 ∷ raw_name (k - suc (length b)) ext)
raw_name_dot b ext zero pl lt = absurd (omega arith)
raw_name_dot [] ext (suc k) pl lt =
    let e : k ≡ suc k - 1 = omega arith in ap (λ n. 46 ∷ raw_name n ext) e
raw_name_dot (c ∷ cs) ext (suc k) pl lt =
    let nz : (c == 0) ≡ false = ground (arith, pl.0) in
    let left : k - suc (length cs) ≡ suc k - suc (suc (length cs)) = omega arith in
    else_branch (c == 0) [] (c ∷ raw_name k (cs ++ (46 ∷ ext))) nz
    ∙ ap (λ l. c ∷ l) (raw_name_dot cs ext k pl.2 (omega arith))
    ∙ ap (λ n. c ∷ (cs ++ (46 ∷ raw_name n ext))) left

put_bytes_below : (bs : List ℕ) (a x : ℕ) (m : ByteMem) → x < a → put_bytes a bs m x ≡ m x
put_bytes_below [] a x m lt = refl
put_bytes_below (b ∷ bs) a x m lt =
    put_bytes_below bs (suc a) x (put8 a b m) (omega arith) ∙ ground (arith, lt)

put_bytes_at :
    (b rest : List ℕ) (v a : ℕ) (m : ByteMem)
    → v < 256
    → put_bytes a (b ++ (v ∷ rest)) m (a + length b) ≡ v
put_bytes_at [] rest v a m lt =
    put_bytes_below rest (suc a) (a + 0) (put8 a v m) (omega arith) ∙ ground (arith, lt)
put_bytes_at (c ∷ cs) rest v a m lt =
    let e : a + suc (length cs) ≡ suc a + length cs = omega arith in
    ap (put_bytes (suc a) (cs ++ (v ∷ rest)) (put8 a c m)) e
    ∙ put_bytes_at cs rest v (suc a) (put8 a c m) lt

both_false : (b : Bool) → (if b then false else false) ≡ false
both_false true = refl
both_false false = refl

matches_from_fails :
    (k place d e : ℕ) (m : ByteMem) (name : ℕ → ℕ)
    → d < k
    → upper (m (32 * e + (place + d))) ≢ name (place + d)
    → matches_from k place e m name ≡ false
unfolding matches_from
matches_from_fails zero place d e m name lt ne = absurd (omega arith)
matches_from_fails (suc k) place zero e m name lt ne =
    let here : place + 0 ≡ place = omega arith in
    let differs = subst (λ x. upper (m (32 * e + x)) ≢ name x) here ne in
    let no : (upper (m (32 * e + place)) == name place) ≡ false = ground (arith, differs) in
    else_branch _ (matches_from k (suc place) e m name) false no
matches_from_fails (suc k) place (suc d) e m name lt ne =
    let next : place + suc d ≡ suc place + d = omega arith in
    let ih =
      matches_from_fails k (suc place) d e m name (omega arith)
        (subst (λ x. upper (m (32 * e + x)) ≢ name x) next ne) in
    ap (λ r. if upper (m (32 * e + place)) == name place then r else false) ih
    ∙ both_false (upper (m (32 * e + place)) == name place)

-- The dot of the name stands in the entry.
set_entry_dot :
    (e size : ℕ) (b ext : List ℕ) (m : ByteMem)
    → Plain b
    → length b < 8
    → set_entry e (b ++ (46 ∷ ext)) size m (32 * e + length b) ≡ 46
unfolding set_entry
set_entry_dot e size b ext m pl lt =
    let name = raw_name_dot b ext 11 pl (omega arith) in
    let stored =
      put_bytes_at b (raw_name (11 - suc (length b)) ext) 46 (32 * e) (fast_memset (32 * e) 32 11 m)
        (omega arith) in
    let found =
      ap (λ l. put_bytes (32 * e) l (fast_memset (32 * e) 32 11 m) (32 * e + length b)) name
      ∙ stored in
    ground (arith, lt, found)

-- A name with a dot after fewer than eight characters, which are not 0 and no dots, does not match
-- the entry that a write under that same name has set.
pub dotted_name_lost :
    (e size : ℕ) (b ext : List ℕ) (m : ByteMem)
    → Plain b
    → length b < 8
    → matches_from 11 0 e (set_entry e (b ++ (46 ∷ ext)) size m) (fat_name (b ++ (46 ∷ ext)))
      ≡ false
dotted_name_lost e size b ext m pl lt =
    let entry = set_entry e (b ++ (46 ∷ ext)) size m in
    let name = fat_name (b ++ (46 ∷ ext)) in
    let place : 0 + length b ≡ length b = omega arith in
    let dot = ap (λ x. entry (32 * e + x)) place ∙ set_entry_dot e size b ext m pl lt in
    let space = ap name place ∙ fat_name_dot b ext pl lt in
    matches_from_fails 11 0 (length b) e entry name (omega arith)
      (λ same. ground (arith, sym (ap upper dot) ∙ same ∙ space))

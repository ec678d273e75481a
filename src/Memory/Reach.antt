-- ===== src/Memory/Reach.antt =====
-- Every heap that `memory_init`, `kmalloc` and `kfree` can lead to, when only live pointers are
-- freed. A live pointer is one that `kmalloc` returned and that has not been freed since.
use mathlib.Core.Path.{subst, subst₂}
use meu_so_baremetal.Prelude.{
  ℕ, ◌+◌, ◌-◌, ◌<◌, ◌≡◌, ◌≢◌, ◌∙◌, sym, refl, true, false, List, [], ◌∷◌, Option, some, none, arith,
  ◌==◌, if◌then◌else◌, some_pair,
}
use meu_so_baremetal.Memory.{
  Heap, header_size, overhead, heap_size, align_up, memory_init, kmalloc, kfree,
}
use meu_so_baremetal.Memory.Layout.{Block, IsHeap}
use meu_so_baremetal.Memory.Spec.{carve, coalesce, mark_free, block_at}
use meu_so_baremetal.Memory.SpecLaws.{first_fit-Grant}
use meu_so_baremetal.Memory.Malloc.{request, Mallocs, kmalloc_refines}
use meu_so_baremetal.Memory.Free.{kfree_refines}
use meu_so_baremetal.Memory.RoundTrip.{request-first_fit}
use meu_so_baremetal.Memory.Lifetime.{memory_init-IsHeap}
use meu_so_baremetal.Memory.Owners.{block_at-carve, block_at-mark_free, block_at-coalesce}

-- `rest` is `live` without one occurrence of `p`.
pub data Removes (p : ℕ) : List ℕ → List ℕ → Type 0 where
  here : {live : List ℕ} → Removes p (p ∷ live) live
  there : {x : ℕ} {live rest : List ℕ} → Removes p live rest → Removes p (x ∷ live) (x ∷ rest)

abbrev pub granted : ℕ → List ℕ → List ℕ
granted p live = if p == 0 then live else p ∷ live

pub data Reach (kernel_end : ℕ) : Heap → List ℕ → Type 0 where
  boot : (h : Heap) → Reach kernel_end (memory_init kernel_end h) []
  malloc :
      {h g : Heap} {live : List ℕ} (size p : ℕ)
      → Reach kernel_end h live
      → kmalloc size h ≡ some (p, g)
      → Reach kernel_end g (granted p live)
  free :
      {h : Heap} {live rest : List ℕ} (p : ℕ)
      → Reach kernel_end h live
      → Removes p live rest
      → Reach kernel_end (kfree p h) rest

-- The used block behind a live pointer.
pub record Used (first : ℕ) (bs : List Block) (p : ℕ) : Type 0 where
  pub at : ℕ
  pub size : ℕ
  pub behind : p ≡ at + header_size
  pub used : block_at at first bs ≡ some (size, false)

abbrev pub AllUsed : ℕ → List Block → List ℕ → Type 0
AllUsed first bs [] = Unit {0}
AllUsed first bs (p ∷ live) = Used first bs p × AllUsed first bs live

abbrev pub Fresh : ℕ → List ℕ → Type 0
Fresh p [] = Unit {0}
Fresh p (x ∷ live) = (p ≢ x) × Fresh p live

abbrev pub Distinct : List ℕ → Type 0
Distinct [] = Unit {0}
Distinct (p ∷ live) = Fresh p live × Distinct live

pub record Sound (h : Heap) (live : List ℕ) : Type 0 where
  pub blocks : List Block
  pub heap : IsHeap h blocks
  pub used : AllUsed h.heap_first blocks live
  pub distinct : Distinct live

AllUsed-mono :
    (a b : ℕ) (bs bs' : List Block) (live : List ℕ)
    → ((p : ℕ) → Used a bs p → Used b bs' p)
    → AllUsed a bs live
    → AllUsed b bs' live
AllUsed-mono a b bs bs' [] k u = tt
AllUsed-mono a b bs bs' (p ∷ live) k u = (k p u.0, AllUsed-mono a b bs bs' live k u.1)

Used-carve : (size a : ℕ) (bs : List Block) (p : ℕ) → Used a bs p → Used a (carve size bs) p
Used-carve size a bs p u = record {
  at = u.at;
  size = u.size;
  behind = u.behind;
  used = block_at-carve size u.at a u.size bs u.used;
}

-- A block that is free belongs to no live pointer.
Fresh-of_free :
    (q a n : ℕ) (bs : List Block) (live : List ℕ)
    → block_at q a bs ≡ some (n, true)
    → AllUsed a bs live
    → Fresh (q + header_size) live
Fresh-of_free q a n bs [] e u = tt
Fresh-of_free q a n bs (p ∷ live) e u = (
  (λ same. let at : u.0.at ≡ q = omega (arith, u.0.behind) in cc (rw at at u.0.used)),
  Fresh-of_free q a n bs live e u.1,
)

Fresh-Removes :
    (x p : ℕ) (live rest : List ℕ) → Removes p live rest → Fresh x live → (x ≢ p) × Fresh x rest
Fresh-Removes x p live rest here fr = fr
Fresh-Removes x p live rest (there {live = l} {rest = r} rm) fr =
    let (ne, more) = Fresh-Removes x p l r rm fr.1 in (ne, (fr.0, more))

Distinct-Removes :
    (p : ℕ) (live rest : List ℕ)
    → Removes p live rest
    → Distinct live
    → Fresh p rest × Distinct rest
Distinct-Removes p live rest here d = d
Distinct-Removes p live rest (there {x} {live = l} {rest = r} rm) d =
    let (fr, more) = Distinct-Removes p l r rm d.1 in
    let (ne, fx) = Fresh-Removes x p l r rm d.0 in (((λ e. ne (sym e)), fr), (fx, more))

Used-Removes :
    (first p : ℕ) (bs : List Block) (live rest : List ℕ)
    → Removes p live rest
    → AllUsed first bs live
    → Used first bs p × AllUsed first bs rest
Used-Removes first p bs live rest here u = u
Used-Removes first p bs live rest (there {live = l} {rest = r} rm) u =
    let (up, ur) = Used-Removes first p bs l r rm u.1 in (up, (u.0, ur))

-- The other live pointers keep their blocks.
AllUsed-release :
    (q a : ℕ) (bs : List Block) (live : List ℕ)
    → Fresh (q + header_size) live
    → AllUsed a bs live
    → AllUsed a (coalesce (mark_free q a bs)) live
AllUsed-release q a bs [] fr u = tt
AllUsed-release q a bs (p ∷ live) fr u =
    let o = u.0 in
    let ne : q ≢ o.at = λ e. fr.0 (omega (arith, o.behind)) in
    (
      record {
        at = o.at;
        size = o.size;
        behind = o.behind;
        used =
            block_at-coalesce o.at a o.size (mark_free q a bs)
              (block_at-mark_free q o.at a o.size bs ne o.used);
      },
      AllUsed-release q a bs live fr.1 u.1,
    )

granted_behind : (q : ℕ) (live : List ℕ) → granted (q + header_size) live ≡ (q + header_size) ∷ live
granted_behind q live = ground arith

module _ (h : Heap) (live : List ℕ) (s : Sound h live) where
  Sound-malloc :
      (size p : ℕ) (g : Heap) (o : Option ℕ)
      → request size h.heap_first s.blocks ≡ o
      → Mallocs size h s.blocks o
      → kmalloc size h ≡ some (p, g)
      → Sound g (granted p live)
  Sound-malloc size p g none r m e =
      let (ep, eg) = some_pair (sym m ∙ e) in subst₂ (λ x y. Sound y (granted x live)) ep eg s
  Sound-malloc size p g (some q) r (g', runs, is, same) e =
      let a = h.heap_first in
      let bs' = carve (align_up size) s.blocks in
      let (ep, eg) = some_pair (sym runs ∙ e) in
      let grant =
        first_fit-Grant (align_up size) a q s.blocks s.heap.aligned
          (request-first_fit size a q s.blocks r) in
      let new : Used a bs' (q + header_size) = record {
        at = q;
        size = grant.new;
        behind = refl;
        used = grant.is_used;
      } in
      let old = AllUsed-mono a a s.blocks bs' live (Used-carve (align_up size) a s.blocks) s.used in
      let apart = Fresh-of_free q a grant.old s.blocks live grant.was_free s.used in
      subst₂ (λ x y. Sound y (granted x live)) ep eg
        (record {
          blocks = bs';
          heap = is;
          used =
              subst (λ x. AllUsed x bs' (granted (q + header_size) live)) (sym same)
                (subst (AllUsed a bs') (sym (granted_behind q live)) (new, old));
          distinct = subst Distinct (sym (granted_behind q live)) (apart, s.distinct);
        })

  Sound-free : (p : ℕ) (rest : List ℕ) → Removes p live rest → Sound (kfree p h) rest
  Sound-free p rest rm =
      let a = h.heap_first in
      let (u, others) = Used-Removes a p s.blocks live rest rm s.used in
      let (fr, d) = Distinct-Removes p live rest rm s.distinct in
      let (is, same) = kfree_refines u.at u.size s.heap u.used in
      rw u.behind (record {
        blocks = coalesce (mark_free u.at a s.blocks);
        heap = is;
        used = rw same (AllUsed-release u.at a s.blocks rest (rw u.behind at fr) others);
        distinct = d;
      })

-- From the boot on, after any calls of `kmalloc` and any `kfree` of live pointers, the heap is well
-- formed, and the live pointers are distinct and point behind the headers of used blocks.
pub Reach-Sound :
    (kernel_end : ℕ) {h : Heap} {live : List ℕ}
    → 0 < kernel_end
    → Reach kernel_end h live
    → Sound h live
Reach-Sound k pos (boot h) = record {
  blocks = (heap_size - overhead, true) ∷ [];
  heap = memory_init-IsHeap k h pos;
  used = tt;
  distinct = tt;
}
Reach-Sound k pos (malloc {h} {g} {live} size p r e) =
    let s = Reach-Sound k pos r in
    Sound-malloc h live s size p g (request size h.heap_first s.blocks) refl
      (kmalloc_refines s.heap size) e
Reach-Sound k pos (free {h} {live} {rest} p r rm) =
    Sound-free h live (Reach-Sound k pos r) p rest rm

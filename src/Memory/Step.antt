-- ===== src/Memory/Step.antt =====
-- A change of the heap that turns the suffix of the chain at `a` from one list into another and
-- keeps the counters in step.
use meu_so_baremetal.Prelude.{ℕ, ◌+◌, ◌*◌, ◌<◌, ◌≡◌, ◌∙◌, refl, Bool, List, [], ◌∷◌, length, arith}
use meu_so_baremetal.Memory.{Heap, header_size, overhead}
use meu_so_baremetal.Memory.Layout.{Block, Chain, link, used_bytes, free_bytes}
use meu_so_baremetal.Memory.Frame.{SameBelow}

pub record Step (h g : Heap) (prev a : ℕ) (bs bs' : List Block) : Type 0 where
  pub below : SameBelow a h g
  pub chain : Chain g prev a bs'
  pub first : g.heap_first ≡ h.heap_first
  pub allocated : g.total_allocated + used_bytes bs ≡ h.total_allocated + used_bytes bs'
  pub count : g.block_count + length bs ≡ h.block_count + length bs'
  pub free :
      g.total_free + free_bytes bs + overhead * length bs
      ≡ h.total_free + free_bytes bs' + overhead * length bs'

pub Step-trans :
    (h g k : Heap) (prev a : ℕ) (bs bs' bs'' : List Block)
    → Step h g prev a bs bs'
    → Step g k prev a bs' bs''
    → Step h k prev a bs bs''
Step-trans h g k prev a bs bs' bs'' s t = record {
  below = λ x lt. ((t.below x lt).0 ∙ (s.below x lt).0, (t.below x lt).1 ∙ (s.below x lt).1);
  chain = t.chain;
  first = t.first ∙ s.first;
  allocated = omega (arith, s.allocated, t.allocated);
  count = omega (arith, s.count, t.count);
  free = omega (arith, s.free, t.free);
}

link_of_length :
    (a : ℕ) (bs bs' : List Block) → 0 < length bs → 0 < length bs' → link a bs' ≡ link a bs
link_of_length a [] bs' p q = absurd (omega arith)
link_of_length a (b ∷ bs) [] p q = absurd (omega arith)
link_of_length a (b ∷ bs) (b' ∷ bs') p q = refl

-- A block in front stays as it is.
pub Step-cons :
    (h g : Heap) (prev a n : ℕ) (f : Bool) (bs bs' : List Block)
    → Chain h prev a ((n, f) ∷ bs)
    → 0 < length bs
    → 0 < length bs'
    → Step h g a (a + overhead + n) bs bs'
    → Step h g prev a ((n, f) ∷ bs) ((n, f) ∷ bs')
Step-cons h g prev a n f bs bs' c ne ne' s = record {
  below = λ x lt. s.below x (omega arith);
  chain = (
    (s.below a (omega arith)).0 ∙ c.0 ∙ rw (link_of_length (a + overhead + n) bs bs' ne ne'),
    (s.below (a + header_size + n) (omega arith)).1 ∙ c.1,
    s.chain,
  );
  first = s.first;
  allocated = omega (arith, s.allocated);
  count = omega (arith, s.count);
  free = omega (arith, s.free);
}

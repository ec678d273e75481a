-- ===== src/Idt/Gates.antt =====
-- `idt_init` and `pic_remap` of src/idt.c: which handler each vector gets.
-- The addresses of the assembly stubs are arguments.
use meu_so_baremetal.Prelude.{
  ℕ, zero, suc, ◌+◌, ◌*◌, ◌^◌, ◌&&◌, ◌∷◌, ltb, leb, ◌==◌, if◌then◌else◌, ◌≡◌, arith, ap, ◌∙◌, ◌<◌,
}
use meu_so_baremetal.Prelude.Events.{Trace, outb}
use meu_so_baremetal.Idt.{IdtEntry, bit, gate_entry, idt_set_gate}

pub record Stubs : Type 0 where
  pub default_irq_stub : ℕ
  pub isr0_stub : ℕ
  pub isr8_stub : ℕ
  pub isr13_stub : ℕ
  pub isr14_stub : ℕ
  pub irq0_stub : ℕ
  pub irq1_stub : ℕ
  pub irq12_stub : ℕ

-- The loop over the vectors from `i` on.
unfoldable pub set_defaults : ℕ → ℕ → ℕ → (ℕ → IdtEntry) → ℕ → IdtEntry
set_defaults zero i base idt = idt
set_defaults (suc k) i base idt = set_defaults k (suc i) base (idt_set_gate i base 0x08 0x8E idt)

unfoldable pub pic_remap : Trace → Trace
pic_remap trace =
    outb 0xA1 0xEF
    ∷ outb 0x21 0xF8
    ∷ outb 0xA1 0x01
    ∷ outb 0x21 0x01
    ∷ outb 0xA1 0x02
    ∷ outb 0x21 0x04
    ∷ outb 0xA1 0x28
    ∷ outb 0x21 0x20
    ∷ outb 0xA0 0x11
    ∷ outb 0x20 0x11
    ∷ trace

-- The table and the events of `idt_init`, for what `inb(0x60)` returns when the mouse is set up.
unfoldable pub idt_init : Stubs → ℕ → (ℕ → IdtEntry) × Trace → (ℕ → IdtEntry) × Trace
idt_init stubs status (idt, trace) =
    let gate = λ (num base : ℕ) (t : ℕ → IdtEntry). idt_set_gate num base 0x08 0x8E t in
    let t1 = set_defaults 256 0 stubs.default_irq_stub idt in
    let t2 =
      gate 14 stubs.isr14_stub
        (gate 13 stubs.isr13_stub (gate 8 stubs.isr8_stub (gate 0 stubs.isr0_stub t1))) in
    let st = if bit 2 status then status else status + 2 in
    (
      gate 44 stubs.irq12_stub (gate 33 stubs.irq1_stub (gate 32 stubs.irq0_stub t2)),
      outb 0x60 0xF4
          ∷ outb 0x64 0xD4
          ∷ outb 0x60 st
          ∷ outb 0x64 0x60
          ∷ outb 0x64 0x20
          ∷ outb 0x64 0xA8
          ∷ pic_remap trace,
    )

-- The address that the processor reads off an entry.
abbrev pub gate_base : IdtEntry → ℕ
gate_base e = e.base_low + 2 ^ 16 * e.base_mid + 2 ^ 32 * e.base_high

-- The handler that vector `i` is meant for.
abbrev pub handler : Stubs → ℕ → ℕ
handler stubs i =
    if i == 0
    then stubs.isr0_stub
    else if i == 8
    then stubs.isr8_stub
    else if i == 13
    then stubs.isr13_stub
    else if i == 14
    then stubs.isr14_stub
    else if i == 32
    then stubs.irq0_stub
    else if i == 33
    then stubs.irq1_stub
    else if i == 44
    then stubs.irq12_stub
    else stubs.default_irq_stub

set_defaults_lem :
    (k i base : ℕ) (idt : ℕ → IdtEntry) (j : ℕ)
    → set_defaults k i base idt j
      ≡ (if leb i j && ltb j (i + k) then gate_entry base 0x08 0x8E else idt j)
unfolding set_defaults idt_set_gate
set_defaults_lem zero i base idt j = ground arith
set_defaults_lem (suc k) i base idt j =
    set_defaults_lem k (suc i) base (idt_set_gate i base 0x08 0x8E idt) j ∙ ground arith

gate_entry_base :
    (base sel flags : ℕ) → base < 2 ^ 64 → gate_base (gate_entry base sel flags) ≡ base
gate_entry_base base sel flags lt = omega arith

-- A gate that is set gives the processor the whole 64-bit address, and no other gate changes.
pub idt_set_gate_lem :
    (num base sel flags : ℕ) (idt : ℕ → IdtEntry) (i : ℕ)
    → base < 2 ^ 64
    → gate_base (idt_set_gate num base sel flags idt i)
      ≡ (if i == num then base else gate_base (idt i))
unfolding idt_set_gate
idt_set_gate_lem num base sel flags idt i lt = ground (arith, gate_entry_base base sel flags lt)

idt_init-entry :
    (stubs : Stubs) (status : ℕ) (idt : ℕ → IdtEntry) (trace : Trace) (i : ℕ)
    → i < 256
    → (idt_init stubs status (idt, trace)).0 i ≡ gate_entry (handler stubs i) 0x08 0x8E
unfolding idt_init idt_set_gate
idt_init-entry stubs status idt trace i lt =
    ground (arith, set_defaults_lem 256 0 stubs.default_irq_stub idt i)

-- After `idt_init` each of the 256 vectors leads to its handler: exceptions 0, 8, 13 and 14, the
-- timer at 32, the keyboard at 33, the mouse at 44, and the default handler everywhere else.
pub idt_init_lem :
    (stubs : Stubs) (status : ℕ) (idt : ℕ → IdtEntry) (trace : Trace) (i : ℕ)
    → ((j : ℕ) → handler stubs j < 2 ^ 64)
    → i < 256
    → gate_base ((idt_init stubs status (idt, trace)).0 i) ≡ handler stubs i
idt_init_lem stubs status idt trace i fits lt =
    ap gate_base (idt_init-entry stubs status idt trace i lt)
    ∙ gate_entry_base (handler stubs i) 0x08 0x8E (fits i)

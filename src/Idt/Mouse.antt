-- ===== src/Idt/Mouse.antt =====
-- `mouse_handler_main` of src/idt.c: packets of three bytes, and the pointer.
use mathlib.Core.Path.{subst, sym}
use meu_so_baremetal.Prelude.{
  ℕ, ◌-◌, Bool, true, false, ◌&&◌, ◌∷◌, ltb, ◌==◌, if◌then◌else◌, ◌≡◌, ◌⊎◌, inl, inr, refl, arith,
  ◌<◌,
}
use meu_so_baremetal.Prelude.Int.{ℤ, pos, negsuc, ◌+ℤ◌, ◌-ℤ◌, ltb_ℤ, leb_ℤ, ◌≤ℤ◌, ◌<ℤ◌}
use meu_so_baremetal.Prelude.Events.{Trace, outb}
use meu_so_baremetal.Idt.{bit}

-- The bytes of `mouse_byte` are kept as they come; `signed` reads one as an `int8_t`.
pub record Mouse : Type 0 where
  pub mouse_x : ℤ
  pub mouse_y : ℤ
  pub mouse_left_clicked : Bool
  pub mouse_cycle : ℕ
  pub byte0 : ℕ
  pub byte1 : ℕ
  pub byte2 : ℕ
  pub trace : Trace

abbrev pub signed : ℕ → ℤ
signed b = if ltb b 128 then pos b else negsuc (255 - b)

-- `if (v < 0) v = 0; if (v >= limit) v = limit - 1;`
abbrev pub clamp : ℕ → ℤ → ℤ
clamp limit v =
    let v1 = if ltb_ℤ v (pos 0) then pos 0 else v in
    if leb_ℤ (pos limit) v1 then pos (limit - 1) else v1

-- The third byte of a packet moves the pointer.
unfoldable pub apply_packet : Mouse → Mouse
apply_packet s = record s {
  mouse_left_clicked = bit 1 s.byte0;
  mouse_x = clamp 1024 (s.mouse_x +ℤ signed s.byte1);
  mouse_y = clamp 768 (s.mouse_y -ℤ signed s.byte2);
}

unfoldable pub mouse_byte : ℕ → Mouse → Mouse
mouse_byte byte s =
    if s.mouse_cycle == 0
    then (if bit 8 byte then record s { byte0 = byte; mouse_cycle = 1 } else s)
    else if s.mouse_cycle == 1
    then record s { byte1 = byte; mouse_cycle = 2 }
    else if s.mouse_cycle == 2
    then apply_packet (record s { byte2 = byte; mouse_cycle = 0 })
    else s

unfoldable pub mouse_handler_main : (status byte : ℕ) → Mouse → Mouse
mouse_handler_main status byte s =
    let s1 = if bit 1 status && bit 32 status then mouse_byte byte s else s in
    record s1 { trace = outb 0x20 0x20 ∷ outb 0xA0 0x20 ∷ s1.trace }

-- The pointer is on the screen of 1024 by 768, and the handler waits for one of three bytes.
pub record IsValid (s : Mouse) : Type 0 where
  pub left : pos 0 ≤ℤ s.mouse_x
  pub right : s.mouse_x <ℤ pos 1024
  pub top : pos 0 ≤ℤ s.mouse_y
  pub bottom : s.mouse_y <ℤ pos 768
  pub cycle : s.mouse_cycle < 3

clamp-low : (limit : ℕ) (v : ℤ) → pos 0 ≤ℤ clamp limit v
clamp-low limit v = ground arith

clamp-high : (limit : ℕ) (v : ℤ) → 0 < limit → clamp limit v <ℤ pos limit
clamp-high limit v h = ground arith

IsValid-if : (b : Bool) (s t : Mouse) → IsValid s → IsValid t → IsValid (if b then s else t)
IsValid-if true s t v w = v
IsValid-if false s t v w = w

apply_packet-IsValid : (s : Mouse) → s.mouse_cycle < 3 → IsValid (apply_packet s)
unfolding apply_packet
apply_packet-IsValid s lt = record {
  left = clamp-low 1024 (s.mouse_x +ℤ signed s.byte1);
  right = clamp-high 1024 (s.mouse_x +ℤ signed s.byte1) (omega arith);
  top = clamp-low 768 (s.mouse_y -ℤ signed s.byte2);
  bottom = clamp-high 768 (s.mouse_y -ℤ signed s.byte2) (omega arith);
  cycle = lt;
}

mouse_byte-IsValid : (byte : ℕ) (s : Mouse) → IsValid s → IsValid (mouse_byte byte s)
unfolding mouse_byte
mouse_byte-IsValid byte s v =
    let s0 : Mouse = record s { byte0 = byte; mouse_cycle = 1 } in
    let s1 : Mouse = record s { byte1 = byte; mouse_cycle = 2 } in
    let s2 : Mouse = record s { byte2 = byte; mouse_cycle = 0 } in
    IsValid-if (s.mouse_cycle == 0) (if bit 8 byte then s0 else s) _
      (IsValid-if (bit 8 byte) s0 s (moved s0 1 refl refl refl (omega arith)) v)
      (IsValid-if (s.mouse_cycle == 1) s1 _ (moved s1 2 refl refl refl (omega arith)) (
        IsValid-if (s.mouse_cycle == 2) (apply_packet s2) s (apply_packet-IsValid s2 (omega arith))
          v))
  where
    moved :
        (t : Mouse) (n : ℕ)
        → t.mouse_x ≡ s.mouse_x
        → t.mouse_y ≡ s.mouse_y
        → t.mouse_cycle ≡ n
        → n < 3
        → IsValid t
    moved t n x y c lt = record {
      left = subst (λ a. pos 0 ≤ℤ a) (sym x) v.left;
      right = subst (λ a. a <ℤ pos 1024) (sym x) v.right;
      top = subst (λ a. pos 0 ≤ℤ a) (sym y) v.top;
      bottom = subst (λ a. a <ℤ pos 768) (sym y) v.bottom;
      cycle = omega (arith, c, lt);
    }

-- Whatever the ports give, the handler keeps the pointer on the screen and the packet state valid.
pub mouse_handler_main-IsValid :
    (status byte : ℕ) (s : Mouse) → IsValid s → IsValid (mouse_handler_main status byte s)
unfolding mouse_handler_main
mouse_handler_main-IsValid status byte s v =
    let w = IsValid-if (bit 1 status && bit 32 status) _ _ (mouse_byte-IsValid byte s v) v in
    record { left = w.left; right = w.right; top = w.top; bottom = w.bottom; cycle = w.cycle }

-- At the start of a packet a byte without bit 3, and at any time an interrupt without mouse data,
-- leaves the pointer, the button and the packet state as they are.
pub mouse_handler_main_ignores :
    (status byte : ℕ) (s : Mouse)
    → (((s.mouse_cycle ≡ 0) × (bit 8 byte ≡ false)) ⊎ ((bit 1 status && bit 32 status) ≡ false))
    → mouse_handler_main status byte s
      ≡ record s { trace = outb 0x20 0x20 ∷ outb 0xA0 0x20 ∷ s.trace }
unfolding mouse_handler_main mouse_byte
mouse_handler_main_ignores status byte s (inl (start, no_sync)) = ground (arith, start, no_sync)
mouse_handler_main_ignores status byte s (inr no_data) = ground (arith, no_data)

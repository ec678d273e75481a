-- ===== src/Gfx/Init.antt =====
-- `gfx_init` of src/gfx.c: the video mode, the search for the frame buffer, the back buffer from the
-- heap, and the first picture. `pci slot offset` is what the PCI configuration space holds.
use meu_so_baremetal.Prelude.{
  ℕ, zero, suc, ◌+◌, ◌*◌, ◌/◌, ◌%◌, ◌^◌, ◌<◌, ◌≡◌, ◌≢◌, inl, ◌∙◌, false, ◌&&◌, ◌||◌, not, ◌∷◌, ◌==◌,
  if◌then◌else◌, arith, refl, Option, none, some,
}
use meu_so_baremetal.Prelude.Events.{Trace, outw}
use meu_so_baremetal.Memory.{Heap, kmalloc}
use meu_so_baremetal.Gfx.{
  Gfx, gfx_clear, gfx_swap_buffers, gfx_mark_dirty, widen, low_end, high_end,
}
use meu_so_baremetal.Gfx.Lines.{kmemset128_color_lem}
use meu_so_baremetal.Gfx.Draw.{gfx_mark_dirty-words}
use meu_so_baremetal.Gfx.Valid.{AreApart, IsValid}
use meu_so_baremetal.Gfx.Swap.{gfx_swap_buffers-Shows}

abbrev pub color_dark_slate : ℕ
color_dark_slate = 0x1E1E2E

unfoldable pub bga_write_register : ℕ → ℕ → Trace → Trace
bga_write_register index value t = outw 0x01CF value ∷ outw 0x01CE index ∷ t

unfoldable pub bga_set_video_mode : (w h bpp : ℕ) → Trace → Trace
bga_set_video_mode w h bpp t = bga_write_register 4 0x41 (
    bga_write_register 3 (bpp % 2 ^ 16) (
      bga_write_register 2 (h % 2 ^ 16)
        (bga_write_register 1 (w % 2 ^ 16) (bga_write_register 4 0 t))))

-- What `gfx_init` reads of `multiboot_info_t`; `physbase` is that of the structure at
-- `vbe_mode_info`.
pub record MultibootInfo : Type 0 where
  pub flags : ℕ
  pub framebuffer_addr : ℕ
  pub vbe_mode_info : ℕ
  pub physbase : ℕ

-- The address that the boot loader gives, 0 if it gives none.
unfoldable pub boot_framebuffer : Option MultibootInfo → ℕ
boot_framebuffer none = 0
boot_framebuffer (some mbi) =
    if (mbi.flags / 2 ^ 12 % 2 == 1) && not (mbi.framebuffer_addr == 0)
    then mbi.framebuffer_addr
    else if (mbi.flags / 2 ^ 11 % 2 == 1) && not (mbi.vbe_mode_info == 0)
    then mbi.physbase
    else 0

-- The PCI slots from `slot` on, `n` of them: the base address of the first display adapter.
unfoldable pub pci_framebuffer : (ℕ → ℕ → ℕ) → ℕ → ℕ → ℕ
pci_framebuffer pci slot zero = 0
pci_framebuffer pci slot (suc n) =
    let later = pci_framebuffer pci (slot + 1) n in
    let id = pci slot 0 % 2 ^ 16 in
    let base = pci slot 0x10 / 16 * 16 in
    if ((id == 0x1234) || (id == 0x8086)) && not (base == 0) then base else later

unfoldable pub find_framebuffer : Option MultibootInfo → (ℕ → ℕ → ℕ) → ℕ
find_framebuffer mbi pci =
    let boot = boot_framebuffer mbi in
    let found = pci_framebuffer pci 0 32 in
    if not (boot == 0) then boot else if not (found == 0) then found else 0xFD000000

-- The static variables before `gfx_init`.
unfoldable pub static_state : (ℕ → ℕ) → Gfx
static_state words = record {
  framebuffer = 0;
  active_buffer = 0;
  active_width = 1024;
  active_height = 768;
  back_buffer = 0;
  width = 1024;
  height = 768;
  total_pixels_64 = 1024 * 768;
  dirty_min_x = 1024;
  dirty_min_y = 768;
  dirty_max_x = 0;
  dirty_max_y = 0;
  dirty_active = false;
  words = words;
}

unfoldable pub first_state : ℕ → ℕ → Gfx → Gfx
first_state framebuffer back g = record g {
  framebuffer = framebuffer;
  active_buffer = back;
  active_width = 1024;
  active_height = 768;
  back_buffer = back;
  width = 1024;
  height = 768;
  total_pixels_64 = 1024 * 768;
}

-- The buffer from `kmalloc`, a byte address, is used as words.
unfoldable pub start_drawing : ℕ → Trace → Gfx → Option (ℕ × Heap) → Option (Gfx × Heap × Trace)
start_drawing framebuffer t g none = none
start_drawing framebuffer t g (some (p, h)) = some (
  gfx_swap_buffers (gfx_clear color_dark_slate (first_state (framebuffer / 4) (p / 4) g)),
  h,
  bga_set_video_mode 1024 768 32 t,
)

unfoldable pub gfx_init :
    Option MultibootInfo → (ℕ → ℕ → ℕ) → Heap → Trace → Gfx → Option (Gfx × Heap × Trace)
gfx_init mbi pci heap t g =
    start_drawing (find_framebuffer mbi pci) t g (kmalloc (1024 * 768 * 4) heap)

module _ (framebuffer back : ℕ) (words : ℕ → ℕ) (screen : framebuffer ≢ 0) (set : back ≢ 0)
    (apart : AreApart framebuffer (768 * 1024) back (768 * 1024)) where
  cleared-IsValid :
      IsValid (gfx_clear color_dark_slate (first_state framebuffer back (static_state words)))
  unfolding gfx_clear first_state static_state gfx_mark_dirty widen low_end high_end
  cleared-IsValid = record {
    screen = screen;
    back = set;
    total = refl;
    quads = refl;
    apart = apart;
    target = inl (refl, refl, refl);
    max_x = omega arith;
    max_y = omega arith;
    idle = λ e. absurd (ground arith);
    synced = λ c r hc hr d. absurd (ground arith);
  }

  cleared_words :
      (c r : ℕ)
      → c < 1024
      → r < 768
      → (gfx_clear color_dark_slate (first_state framebuffer back (static_state words))).words
          (back + (r * 1024 + c))
        ≡ color_dark_slate
  unfolding gfx_clear first_state static_state
  cleared_words c r hc hr = rw gfx_mark_dirty-words (
      ground (
        arith,
        kmemset128_color_lem back color_dark_slate (1024 * 768 * 4 / 16) words
            (back + (r * 1024 + c)) set,
      ))

-- The screen of 1024 by 768 at `framebuffer` has one colour.
abbrev pub IsFilled : ℕ → ℕ → (ℕ → ℕ) → Type 0
IsFilled color framebuffer words =
    (c r : ℕ) → c < 1024 → r < 768 → words (framebuffer + (r * 1024 + c)) ≡ color

-- If `kmalloc` gives a back buffer that is apart from the frame buffer found, `gfx_init` sets the
-- video mode and leaves a valid state, and the whole screen is dark slate.
pub gfx_init_lem :
    (mbi : Option MultibootInfo) (pci : ℕ → ℕ → ℕ) (heap h : Heap) (t : Trace) (words : ℕ → ℕ)
    (p : ℕ)
    → kmalloc (1024 * 768 * 4) heap ≡ some (p, h)
    → find_framebuffer mbi pci / 4 ≢ 0
    → p / 4 ≢ 0
    → AreApart (find_framebuffer mbi pci / 4) (768 * 1024) (p / 4) (768 * 1024)
    → (g : Gfx) × (gfx_init mbi pci heap t (static_state words)
        ≡ some (g, h, bga_set_video_mode 1024 768 32 t))
      × IsValid g
      × IsFilled color_dark_slate (find_framebuffer mbi pci / 4) g.words
unfolding gfx_init start_drawing
gfx_init_lem mbi pci heap h t words p alloc screen set apart =
    let fb : ℕ = find_framebuffer mbi pci / 4 in
    let v = cleared-IsValid fb (p / 4) words screen set apart in
    let (s, _, v') = gfx_swap_buffers-Shows _ v in
    (
      _,
      rw alloc refl,
      v',
      λ c r hc hr.
          unfold gfx_clear first_state static_state gfx_mark_dirty widen in
          s.shown c r hc hr ∙ cleared_words fb (p / 4) words screen set apart c r hc hr,
    )

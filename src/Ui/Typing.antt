-- ===== src/Ui/Typing.antt =====
-- What typing does to the text of the field that has the keys.
use meu_so_baremetal.Prelude.{
  ℕ, ◌+◌, ◌≡◌, ◌≢◌, inl, inr, false, List, [], ◌∷◌, ◌++◌, ltb, ◌==◌, if◌then◌else◌, length, arith,
  refl, Bool-cases,
}
use meu_so_baremetal.Ui.Fields.{
  Field, type_into, text_of, bytes_from, but_last, append-text, erase-text,
}
use meu_so_baremetal.Ui.Shell.{Services}
use meu_so_baremetal.Ui.State.{Ui}
use meu_so_baremetal.Ui.Keyboard.{top_app, pad_key, handle_key, ui_handle_keyboard}

-- A backspace takes the last character away, and another one is put behind the text while that is
-- shorter than `limit`.
abbrev pub edit : ℕ → ℕ → List ℕ → List ℕ
edit limit c text =
    if c == 8 then but_last text else if ltb (length text) limit then text ++ (c ∷ []) else text

length-bytes_from : (b : ℕ → ℕ) (i n : ℕ) → length (bytes_from b i n) ≡ n
length-bytes_from b i ℕ.zero = refl
length-bytes_from b i (ℕ.suc n) = omega (arith, length-bytes_from b (i + 1) n)

type_into-text :
    (limit c : ℕ) (f : Field)
    → (c == 8) ≡ false
    → text_of (type_into limit c f) ≡ edit limit c (text_of f)
unfolding type_into
type_into-text limit c f h =
    rw (h, length-bytes_from f.buffer 0 f.index)
      (elim (Bool-cases (ltb f.index limit)) [ inl l ↦ rw l (append-text c f) | inr l ↦ rw l refl ])

-- With the pad on top a key edits the text of the pad, a line feed as a space, and no other field.
pub keyboard_edits_pad :
    (v : Services) (s : Ui)
    → s.last_key_pressed ≢ 0
    → top_app s.stack.windows ≡ 12
    → (text_of (ui_handle_keyboard v s).pad
        ≡ edit 240 (if s.last_key_pressed == 10 then b' ' else s.last_key_pressed) (text_of s.pad))
      × ((ui_handle_keyboard v s).input ≡ s.input)
      × ((ui_handle_keyboard v s).serial_guest ≡ s.serial_guest)
      × ((ui_handle_keyboard v s).last_key_pressed ≡ 0)
unfolding ui_handle_keyboard handle_key pad_key
keyboard_edits_pad v s k top =
    let some_key : (s.last_key_pressed == 0) ≡ false = ground arith in
    elim (Bool-cases (s.last_key_pressed == 8)) [
      | inl e ↦
          let n : (s.last_key_pressed == 10) ≡ false = ground arith in
          rw (some_key, top, n, e) (erase-text s.pad, refl, refl, refl)
      | inr e ↦
          let c : ℕ = if s.last_key_pressed == 10 then b' ' else s.last_key_pressed in
          let p : text_of (type_into 240 c s.pad) ≡ edit 240 c (text_of s.pad) =
            type_into-text 240 c s.pad (ground arith) in
          rw (some_key, top, e) (p, refl, refl, refl)
    ]

-- ===== src/Serial/Log.antt =====
-- The log of src/serial.c as a list of bytes.
use mathlib.Core.Path.{subst}
use native.Mathlib.Decide.{dec_lt}
use meu_so_baremetal.Prelude.{
  ℕ, zero, suc, ◌+◌, ◌-◌, ◌<◌, ◌≡◌, ◌∙◌, refl, sym, ap, ◌&&◌, List, [], ◌∷◌, ◌++◌, length, drop,
  length-append, arith, ltb, leb, if◌then◌else◌,
}
use meu_so_baremetal.Serial.{Serial, update, shift_down, log_append_char, serial_log_size}

-- The `n` bytes of a buffer from index `i` on.
abbrev pub slice : ℕ → ℕ → (ℕ → ℕ) → List ℕ
slice zero i buf = []
slice (suc n) i buf = buf i ∷ slice n (suc i) buf

-- The string that `serial_get_log` returns.
abbrev pub contents : Serial → List ℕ
contents s = slice s.serial_log_pos 0 s.serial_log_buf

-- The position is in the buffer, and a zero byte stands at it.
pub record IsLog (s : Serial) : Type 0 where
  pub in_bounds : s.serial_log_pos < serial_log_size
  pub terminated : s.serial_log_buf s.serial_log_pos ≡ 0

shift_down_lem :
    (k i : ℕ) (buf : ℕ → ℕ) (j : ℕ)
    → shift_down k i buf j ≡ (if leb i j && ltb j (i + k) then buf (j + 1) else buf j)
unfolding shift_down
shift_down_lem zero i buf j = ground arith
shift_down_lem (suc k) i buf j =
    shift_down_lem k (suc i) (update buf i (buf (i + 1))) j ∙ ground arith

pub slice-cong :
    (n i j : ℕ) (f g : ℕ → ℕ)
    → ((d : ℕ) → d < n → f (i + d) ≡ g (j + d))
    → slice n i f ≡ slice n j g
slice-cong zero i j f g e = refl
slice-cong (suc n) i j f g e =
    let head : f i ≡ g j = ap f (omega arith) ∙ e 0 (omega arith) ∙ ap g (omega arith) in
    let tail =
      slice-cong n (suc i) (suc j) f g
        (λ d lt. ap f (omega arith) ∙ e (suc d) (omega arith) ∙ ap g (omega arith)) in
    rw head (rw tail refl)

pub slice-snoc : (n i : ℕ) (f : ℕ → ℕ) → slice (suc n) i f ≡ slice n i f ++ (f (i + n) ∷ [])
slice-snoc zero i f = ap (λ x. f x ∷ []) (omega arith)
slice-snoc (suc n) i f =
    ap (λ xs. f i ∷ xs)
      (slice-snoc n (suc i) f ∙ ap (λ x. slice n (suc i) f ++ (f x ∷ [])) (omega arith))

-- At most the last `n` elements of a list.
abbrev pub keep : ℕ → List ℕ → List ℕ
keep n xs = drop (length xs - n) xs

pub length-slice : (n i : ℕ) (f : ℕ → ℕ) → length (slice n i f) ≡ n
length-slice zero i f = refl
length-slice (suc n) i f = ap suc (length-slice n (suc i) f)

append_full :
    (n : ℕ) (buf buf' : ℕ → ℕ) (c : ℕ)
    → ((d : ℕ) → d < n → buf' d ≡ buf (1 + d))
    → buf' n ≡ c
    → slice (suc n) 0 buf' ≡ drop 1 (slice (suc n) 0 buf ++ (c ∷ []))
append_full n buf buf' c moved last =
    slice-snoc n 0 buf'
    ∙ ap (λ xs. xs ++ (buf' (0 + n) ∷ []))
        (slice-cong n 0 1 buf' buf (λ d lt. ap buf' (omega arith) ∙ moved d lt))
    ∙ ap (λ x. slice n 1 buf ++ (x ∷ [])) (ap buf' (omega arith) ∙ last)

pub append_room :
    (n : ℕ) (buf buf' : ℕ → ℕ) (c : ℕ)
    → ((d : ℕ) → d < n → buf' d ≡ buf d)
    → buf' n ≡ c
    → slice (suc n) 0 buf' ≡ slice n 0 buf ++ (c ∷ [])
append_room n buf buf' c kept last =
    slice-snoc n 0 buf'
    ∙ ap (λ xs. xs ++ (buf' (0 + n) ∷ []))
        (slice-cong n 0 0 buf' buf
          (λ d lt. ap buf' (omega arith) ∙ kept d lt ∙ ap buf (omega arith)))
    ∙ ap (λ x. slice n 0 buf ++ (x ∷ [])) (ap buf' (omega arith) ∙ last)

length-snoc : (xs : List ℕ) (c : ℕ) → length (xs ++ (c ∷ [])) ≡ length xs + 1
length-snoc xs c = length-append xs (c ∷ []) ∙ omega arith

keep-drop : (n d : ℕ) (xs : List ℕ) → length xs - n ≡ d → keep n xs ≡ drop d xs
keep-drop n d xs e = ap (λ k. drop k xs) e

-- What a byte appended to the log does: the log is cut to its last 4095 bytes, the state stays
-- well formed, and nothing but the log changes.
pub record Appended (c : ℕ) (s s' : Serial) : Type 0 where
  pub log : contents s' ≡ keep 4095 (contents s ++ (c ∷ []))
  pub ok : IsLog s'
  pub line : (s'.rx_idx ≡ s.rx_idx) × (s'.rx_buf ≡ s.rx_buf)

log_append_char_room :
    (c : ℕ) (s : Serial) → IsLog s → s.serial_log_pos < 4095 → Appended c s (log_append_char c s)
unfolding log_append_char
log_append_char_room c s v lt =
    let n = s.serial_log_pos in
    let buf' = update (update s.serial_log_buf n c) (n + 1) 0 in
    let s' : Serial = record s { serial_log_buf = buf'; serial_log_pos = n + 1 } in
    let shape : log_append_char c s ≡ s' = ground (arith, lt) in
    let one : n + 1 ≡ suc n = omega arith in
    subst (Appended c s) (sym shape) (record {
      log =
          ap (λ k. slice k 0 buf') one
          ∙ append_room n s.serial_log_buf buf' c (λ d below. ground (arith, below)) (ground arith)
          ∙ sym (
              keep-drop 4095 0 (contents s ++ (c ∷ []))
                (omega (arith, length-snoc (contents s) c, length-slice n 0 s.serial_log_buf, lt)));
      ok = record { in_bounds = omega arith; terminated = ground arith };
      line = (refl, refl);
    })

log_append_char_full :
    (n c : ℕ) (s : Serial)
    → IsLog s
    → s.serial_log_pos ≡ suc n
    → n ≡ 4094
    → Appended c s (log_append_char c s)
unfolding log_append_char
log_append_char_full n c s v e f =
    let buf = s.serial_log_buf in
    let buf' = update (update (shift_down 4094 0 buf) 4094 c) 4095 0 in
    let s' : Serial = record s { serial_log_buf = buf' } in
    let shape : log_append_char c s ≡ s' = ground (arith, e, f) in
    subst (Appended c s) (sym shape) (record {
      log =
          ap (λ k. slice k 0 buf') e
          ∙ append_full n buf buf' c
              (λ d below. ground (arith, below, f, shift_down_lem 4094 0 buf d)) (ground (arith, f))
          ∙ ap (λ k. drop 1 (slice k 0 buf ++ (c ∷ []))) (sym e)
          ∙ sym (
              keep-drop 4095 1 (contents s ++ (c ∷ [])) (
                omega
                  (arith, length-snoc (contents s) c, length-slice s.serial_log_pos 0 buf, e, f)));
      ok = record { in_bounds = v.in_bounds; terminated = ground (arith, e, f) };
      line = (refl, refl);
    })

-- A byte appended to a well-formed log stands at its end, the log keeps at most its last 4095
-- bytes, it stays in bounds and terminated, and the line editor's state is untouched.
pub log_append_char-Appended : (c : ℕ) (s : Serial) → IsLog s → Appended c s (log_append_char c s)
log_append_char-Appended c s v = elim (dec_lt s.serial_log_pos 4095) [
  | yes lt ↦ log_append_char_room c s v lt
  | no ge ↦
      log_append_char_full (s.serial_log_pos - 1) c s v (omega (arith, ge))
        (omega (arith, ge, v.in_bounds))
]

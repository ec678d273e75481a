-- ===== src/Serial/Editing.antt =====
-- The line editor of src/serial.c against what each byte does to the line.
use meu_so_baremetal.Prelude.{
  ℕ, zero, suc, ◌+◌, ◌-◌, ◌≤◌, ◌≡◌, ◌∙◌, refl, sym, ap, Bool, true, false, some, List, [], ◌∷◌,
  ◌++◌, length, take, drop, arith, ltb, ◌==◌, if◌then◌else◌,
}
use meu_so_baremetal.Serial.{Serial, update, serial_write}
use meu_so_baremetal.Serial.Log.{slice, length-slice, append_room, IsLog}
use meu_so_baremetal.Serial.Writes.{serial_write-Logged}
use meu_so_baremetal.Serial.Commands.{
  crlf, trim, cat_strings, send_strings, usage_strings, write_all, app_serial_process_host_command,
  serial_send_custom, cat, read_file, skip_spaces,
}
use meu_so_baremetal.Serial.Line.{
  line, is_enter, is_erase, enter, receive, serial_poll, IsValid, edit,
}

write_all-IsLog :
    (empty : ℕ → Bool) (strs : List (List ℕ)) (s : Serial)
    → IsLog s
    → IsLog (write_all empty strs s)
write_all-IsLog empty [] s v = v
write_all-IsLog empty (str ∷ strs) s v =
    write_all-IsLog empty strs (serial_write empty str s) (serial_write-Logged empty str s v).ok

cat-IsLog :
    (empty : ℕ → Bool) (filename : List ℕ) (s : Serial) → IsLog s → IsLog (cat empty filename s)
unfolding cat
cat-IsLog empty filename s v = write_all-IsLog empty (cat_strings filename (read_file filename)) s v

if-IsLog : (b : Bool) (s t : Serial) → IsLog s → IsLog t → IsLog (if b then s else t)
if-IsLog true s t v w = v
if-IsLog false s t v w = w

command-IsLog :
    (empty : ℕ → Bool) (cmd : List ℕ) (s : Serial)
    → IsLog s
    → IsLog (app_serial_process_host_command empty cmd s)
unfolding app_serial_process_host_command serial_send_custom
command-IsLog empty cmd s v =
    let p = skip_spaces 256 cmd in
    if-IsLog _ _ _ (cat-IsLog empty (trim (drop 4 p)) s v) (
      if-IsLog _ _ _ (write_all-IsLog empty (send_strings (drop 5 p)) s v)
        (write_all-IsLog empty (usage_strings p) s v))

enter-IsValid : (empty : ℕ → Bool) (s : Serial) → IsValid s → IsValid (enter empty s)
unfolding enter
enter-IsValid empty s v =
    let s1 : Serial = record s { rx_buf = update s.rx_buf s.rx_idx 0 } in
    let w : IsLog s1 = record {
      in_bounds = v.log_ok.in_bounds;
      terminated = v.log_ok.terminated;
    } in
    let s2 = serial_write empty crlf s1 in
    let c = command-IsLog empty (line s2) s2 (serial_write-Logged empty crlf s1 w).ok in
    record {
      log_ok = record { in_bounds = c.in_bounds; terminated = c.terminated };
      fits = omega arith;
    }

-- The state after an echo: the line that was set, and a well-formed log.
echo-Edited :
    (empty : ℕ → Bool) (str : List ℕ) (s : Serial)
    → IsValid s
    → IsValid (serial_write empty str s) × (line (serial_write empty str s) ≡ line s)
echo-Edited empty str s v =
    let w = serial_write-Logged empty str s v.log_ok in
    (
      record { log_ok = w.ok; fits = omega (arith, w.line.0, v.fits) },
      ap (λ k. slice k 0 (serial_write empty str s).rx_buf) w.line.0
          ∙ ap (λ (f : ℕ → ℕ). slice s.rx_idx 0 f) w.line.1,
    )

take-slice : (n k i : ℕ) (f : ℕ → ℕ) → n ≤ k → take n (slice k i f) ≡ slice n i f
take-slice zero k i f le = refl
take-slice (suc n) zero i f le = absurd (omega arith)
take-slice (suc n) (suc k) i f le = ap (λ xs. f i ∷ xs) (take-slice n k (suc i) f (omega arith))

Edited : (ℕ → Bool) → ℕ → Serial → Serial → Type 0
Edited empty c s s' = IsValid s' × (line s' ≡ edit c (line s))

Edited-if :
    (empty : ℕ → Bool) (c : ℕ) (s : Serial) (b : Bool) (t u : Serial)
    → ((b ≡ true) → Edited empty c s t)
    → ((b ≡ false) → Edited empty c s u)
    → Edited empty c s (if b then t else u)
Edited-if empty c s true t u x y = x refl
Edited-if empty c s false t u x y = y refl

line-enter : (empty : ℕ → Bool) (s : Serial) → line (enter empty s) ≡ []
unfolding enter
line-enter empty s = refl

edit_enter : (c : ℕ) (l : List ℕ) → (c == 0) ≡ false → is_enter c ≡ true → edit c l ≡ []
edit_enter c l z e = rw (z, e) refl

edit_erase :
    (c : ℕ) (l : List ℕ)
    → (c == 0) ≡ false
    → is_enter c ≡ false
    → is_erase c ≡ true
    → edit c l ≡ take (length l - 1) l
edit_erase c l z e f = rw (z, e, f) refl

edit_plain :
    (c : ℕ) (l : List ℕ)
    → (c == 0) ≡ false
    → is_enter c ≡ false
    → is_erase c ≡ false
    → edit c l ≡ (if ltb (length l) 255 then l ++ (c ∷ []) else l)
edit_plain c l z e f = rw (z, e, f) refl

no_line : (s : Serial) → ltb 0 s.rx_idx ≡ false → line s ≡ []
no_line s e = let z : s.rx_idx ≡ 0 = ground (arith, e) in ap (λ k. slice k 0 s.rx_buf) z

shorter : (s : Serial) → slice (s.rx_idx - 1) 0 s.rx_buf ≡ take (length (line s) - 1) (line s)
shorter s =
    sym (take-slice (s.rx_idx - 1) s.rx_idx 0 s.rx_buf (omega arith))
    ∙ ap (λ k. take (k - 1) (line s)) (sym (length-slice s.rx_idx 0 s.rx_buf))

longer :
    (c : ℕ) (s : Serial) → slice (s.rx_idx + 1) 0 (update s.rx_buf s.rx_idx c) ≡ line s ++ (c ∷ [])
longer c s =
    let e : s.rx_idx + 1 ≡ suc s.rx_idx = omega arith in
    ap (λ k. slice k 0 (update s.rx_buf s.rx_idx c)) e
    ∙ append_room s.rx_idx s.rx_buf (update s.rx_buf s.rx_idx c) c (λ d lt. ground (arith, lt))
        (ground arith)

fits_line :
    (s : Serial)
    → ltb s.rx_idx 255 ≡ true
    → (l m : List ℕ) → (if ltb (length (line s)) 255 then l else m) ≡ l
fits_line s room l m =
    ap (λ k. if ltb k 255 then l else m) (length-slice s.rx_idx 0 s.rx_buf) ∙ rw room refl

full_line :
    (s : Serial)
    → ltb s.rx_idx 255 ≡ false
    → (l m : List ℕ) → (if ltb (length (line s)) 255 then l else m) ≡ m
full_line s full l m =
    ap (λ k. if ltb k 255 then l else m) (length-slice s.rx_idx 0 s.rx_buf) ∙ rw full refl

-- A byte received edits the line as `edit` says, and keeps the line of at most 255 bytes and the
-- log in bounds.
pub serial_poll-edit :
    (empty : ℕ → Bool) (c : ℕ) (s : Serial)
    → IsValid s
    → IsValid (serial_poll empty (some c) s)
      × (line (serial_poll empty (some c) s) ≡ edit c (line s))
unfolding serial_poll receive Edited
serial_poll-edit empty c s v =
    Edited-if empty c s (c == 0) s _ (λ nul. (v, rw nul refl))
      (λ nonzero.
        Edited-if empty c s (is_enter c) _ _
          (λ ent.
            Edited-if empty c s (ltb 0 s.rx_idx) _ _
              (λ some_line. (
                enter-IsValid empty s v,
                line-enter empty s ∙ sym (edit_enter c (line s) nonzero ent),
              ))
              (λ empty_line. (v, no_line s empty_line ∙ sym (edit_enter c (line s) nonzero ent))))
          (λ not_ent.
            Edited-if empty c s (is_erase c) _ _
              (λ era.
                Edited-if empty c s (ltb 0 s.rx_idx) _ _
                  (λ some_line.
                    let t : Serial = record s { rx_idx = s.rx_idx - 1 } in
                    let w : IsValid t = record {
                      log_ok = record {
                        in_bounds = v.log_ok.in_bounds;
                        terminated = v.log_ok.terminated;
                      };
                      fits = omega (arith, v.fits);
                    } in
                    let r = echo-Edited empty (8 ∷ 32 ∷ 8 ∷ []) t w in
                    (r.0, r.1 ∙ shorter s ∙ sym (edit_erase c (line s) nonzero not_ent era)))
                  (λ empty_line. (
                    v,
                    no_line s empty_line
                        ∙ sym (
                            edit_erase c (line s) nonzero not_ent era
                            ∙ ap (λ l. take (length l - 1) l) (no_line s empty_line)),
                  )))
              (λ not_era.
                Edited-if empty c s (ltb s.rx_idx 255) _ _
                  (λ room.
                    let t : Serial = record s {
                      rx_buf = update s.rx_buf s.rx_idx c;
                      rx_idx = s.rx_idx + 1;
                    } in
                    let w : IsValid t = record {
                      log_ok = record {
                        in_bounds = v.log_ok.in_bounds;
                        terminated = v.log_ok.terminated;
                      };
                      fits = ground (arith, room);
                    } in
                    let r = echo-Edited empty (c ∷ []) t w in
                    (
                      r.0,
                      r.1
                          ∙ longer c s
                          ∙ sym (
                              edit_plain c (line s) nonzero not_ent not_era ∙ fits_line s room _ _),
                    ))
                  (λ full. (
                    v,
                    sym (edit_plain c (line s) nonzero not_ent not_era ∙ full_line s full _ _),
                  )))))

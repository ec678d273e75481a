-- ===== src/Serial/Writes.antt =====
-- `serial_write` of src/serial.c: the log after a whole string.
use mathlib.Core.Path.{subst}
use meu_so_baremetal.Prelude.{
  ℕ, zero, suc, ◌+◌, ◌-◌, ◌≤◌, ◌≡◌, ◌∙◌, refl, sym, ap, Bool, List, [], ◌∷◌, ◌++◌, length,
  length-append, length-drop, drop, arith, ◌==◌, if◌then◌else◌, Bool-cases, inl, inr,
}
use mathlib.Core.List.{append-nil, append_assoc}
use meu_so_baremetal.Serial.{
  Serial, log_append_char, send, serial_write_char, write_one, write_from, serial_write,
}
use meu_so_baremetal.Serial.Log.{length-slice, contents, IsLog, keep, log_append_char-Appended}

drop-append : (a : ℕ) (xs ys : List ℕ) → a ≤ length xs → drop a (xs ++ ys) ≡ drop a xs ++ ys
drop-append zero xs ys le = refl
drop-append (suc a) [] ys le = absurd (omega arith)
drop-append (suc a) (x ∷ xs) ys le = drop-append a xs ys (omega arith)

drop_nil : (k : ℕ) → ◌≡◌ {A = List ℕ} (drop k []) []
drop_nil zero = refl
drop_nil (suc k) = refl

drop-drop : (a b : ℕ) (xs : List ℕ) → drop b (drop a xs) ≡ drop (a + b) xs
drop-drop zero b xs = let e : b ≡ 0 + b = omega arith in ap (λ k. drop k xs) e
drop-drop (suc a) b [] = drop_nil b ∙ sym (drop_nil (suc a + b))
drop-drop (suc a) b (x ∷ xs) =
    let e : suc (a + b) ≡ suc a + b = omega arith in drop-drop a b xs ∙ ap (λ k. drop k (x ∷ xs)) e

-- What is cut off stays cut off.
keep-append : (n : ℕ) (xs ys : List ℕ) → keep n (keep n xs ++ ys) ≡ keep n (xs ++ ys)
keep-append n xs ys =
    let a = length xs - n in
    let total = length (drop a xs ++ ys) - n in
    let same : a + total ≡ length (xs ++ ys) - n =
      omega (arith, length-append xs ys, length-append (drop a xs) ys, length-drop a xs) in
    ap (drop total) (sym (drop-append a xs ys (omega arith)))
    ∙ drop-drop a total (xs ++ ys)
    ∙ ap (λ k. drop k (xs ++ ys)) same

-- The UART has its own part of the state.
send_shape :
    (empty : ℕ → Bool) (k c : ℕ) (s : Serial)
    → send empty k c s
      ≡ record s { polls = (send empty k c s).polls; trace = (send empty k c s).trace }
unfolding send
send_shape empty zero c s = refl
send_shape empty (suc k) c s = elim (Bool-cases (empty s.polls)) [
  | inl yes' ↦ rw yes' refl
  | inr no' ↦ rw no' (send_shape empty k c (record s { polls = s.polls + 1 }))
]

-- The bytes that a string leaves in the log: at most its first `k`, up to the terminator, each
-- line feed with a carriage return before it.
abbrev pub sent : ℕ → List ℕ → List ℕ
sent zero str = []
sent (suc k) [] = []
sent (suc k) (c ∷ cs) = if c == 0 then [] else if c == 10 then 13 ∷ c ∷ sent k cs else c ∷ sent k cs

-- A log that `xs` has been appended to.
pub record Logged (xs : List ℕ) (s s' : Serial) : Type 0 where
  pub log : contents s' ≡ keep 4095 (contents s ++ xs)
  pub ok : IsLog s'
  pub line : (s'.rx_idx ≡ s.rx_idx) × (s'.rx_buf ≡ s.rx_buf)

write_one-Logged :
    (empty : ℕ → Bool) (c : ℕ) (s : Serial) → IsLog s → Logged (c ∷ []) s (write_one empty c s)
unfolding serial_write_char
write_one-Logged empty c s v =
    let t : Serial = record s {
      polls = (send empty 50000 c s).polls;
      trace = (send empty 50000 c s).trace;
    } in
    let w : IsLog t = record { in_bounds = v.in_bounds; terminated = v.terminated } in
    let a = log_append_char-Appended c t w in
    subst (λ (u : Serial). Logged (c ∷ []) s (log_append_char c u))
      (sym (send_shape empty 50000 c s)) (record { log = a.log; ok = a.ok; line = a.line })

Logged-nil : (s : Serial) → IsLog s → Logged [] s s
Logged-nil s v = record {
  log =
      sym (append-nil (contents s))
      ∙ sym (
          ap (λ k. drop k (contents s ++ []))
            (let fits : length (contents s ++ []) - 4095 ≡ 0 = omega (
              arith,
              length-append (contents s) [],
              length-slice s.serial_log_pos 0 s.serial_log_buf,
              v.in_bounds,
            ) in
              fits));
  ok = v;
  line = (refl, refl);
}

Logged-trans :
    (xs ys : List ℕ) (s t u : Serial) → Logged xs s t → Logged ys t u → Logged (xs ++ ys) s u
Logged-trans xs ys s t u a b = record {
  log =
      b.log
      ∙ ap (λ l. keep 4095 (l ++ ys)) a.log
      ∙ keep-append 4095 (contents s ++ xs) ys
      ∙ ap (keep 4095) (append_assoc (contents s) xs ys);
  ok = b.ok;
  line = (b.line.0 ∙ a.line.0, b.line.1 ∙ a.line.1);
}

write_from-Logged :
    (empty : ℕ → Bool) (k : ℕ) (str : List ℕ) (s : Serial)
    → IsLog s
    → Logged (sent k str) s (write_from empty k str s)
unfolding write_from
write_from-Logged empty zero str s v = Logged-nil s v
write_from-Logged empty (suc k) [] s v = Logged-nil s v
write_from-Logged empty (suc k) (c ∷ cs) s v = elim (Bool-cases (c == 0)) [
  | inl nul ↦ rw nul (Logged-nil s v)
  | inr more ↦ elim (Bool-cases (c == 10)) [
    | inl feed ↦
        let a = write_one-Logged empty 13 s v in
        let b = write_one-Logged empty c (write_one empty 13 s) a.ok in
        let r = write_from-Logged empty k cs (write_one empty c (write_one empty 13 s)) b.ok in
        rw (more, feed)
          (Logged-trans (13 ∷ []) (c ∷ sent k cs) s _ _ a
            (Logged-trans (c ∷ []) (sent k cs) _ _ _ b r))
    | inr plain ↦
        let b = write_one-Logged empty c s v in
        let r = write_from-Logged empty k cs (write_one empty c s) b.ok in
        rw (more, plain) (Logged-trans (c ∷ []) (sent k cs) s _ _ b r)
  ]
]

-- Whatever the UART does, `serial_write` appends to the log the first 4096 characters of the
-- string, or all up to its terminator if there are fewer, with a carriage return before each line
-- feed. The log keeps the last 4095 bytes, in bounds and terminated, and the line that is being
-- typed is left alone.
pub serial_write-Logged :
    (empty : ℕ → Bool) (str : List ℕ) (s : Serial)
    → IsLog s
    → Logged (sent 4096 str) s (serial_write empty str s)
unfolding serial_write
serial_write-Logged empty str s v = write_from-Logged empty 4096 str s v

-- ===== src/Images/Stored.antt =====
-- The bytes of the pixels that `bmp_export` of src/bmp.c stores.
use meu_so_baremetal.Prelude.{
  ℕ, zero, suc, ◌+◌, ◌-◌, ◌*◌, ◌/◌, ◌%◌, ◌^◌, ◌≤◌, ◌<◌, ◌≡◌, ◌⊎◌, inl, inr, ◌∙◌, ◌==◌,
  if◌then◌else◌, arith, refl, ap,
}
use meu_so_baremetal.Klibc.{ByteMem}
use meu_so_baremetal.Images.{row_size}
use meu_so_baremetal.Images.Export.{store_pixel, export_row, export_rows}

-- Byte `k` of a pixel.
abbrev pub byte_of : ℕ → ℕ → ℕ
byte_of color k =
    if k == 0 then color % 256 else if k == 1 then color / 2 ^ 8 % 256 else color / 2 ^ 16 % 256

store_pixel_hit :
    (a v k i : ℕ) (m : ByteMem) → k < 3 → i ≡ a + k → store_pixel a v m i ≡ byte_of v k
store_pixel_hit a v k i m h e = ground arith

store_pixel_miss : (a v i : ℕ) (m : ByteMem) → (i < a) ⊎ (a + 3 ≤ i) → store_pixel a v m i ≡ m i
store_pixel_miss a v i m (inl h) = ground arith
store_pixel_miss a v i m (inr h) = ground arith

module _ (canvas : ℕ → ℕ) where
  export_row_outside :
      (src a x n i : ℕ) (m : ByteMem)
      → (i < a + x * 3) ⊎ (a + (x + n) * 3 ≤ i)
      → export_row canvas src a x n m i ≡ m i
  unfolding export_row
  export_row_outside src a x zero i m out = refl
  export_row_outside src a x (suc n) i m (inl h) =
      export_row_outside src a (x + 1) n i (store_pixel (a + x * 3) (canvas (src + x)) m)
        (inl (omega arith))
      ∙ store_pixel_miss (a + x * 3) (canvas (src + x)) i m (inl h)
  export_row_outside src a x (suc n) i m (inr h) =
      export_row_outside src a (x + 1) n i (store_pixel (a + x * 3) (canvas (src + x)) m)
        (inr (omega arith))
      ∙ store_pixel_miss (a + x * 3) (canvas (src + x)) i m (inr (omega arith))

  export_row_inside :
      (src a x n d k i : ℕ) (m : ByteMem)
      → k < 3
      → d < n
      → i ≡ a + (x + d) * 3 + k
      → export_row canvas src a x n m i ≡ byte_of (canvas (src + (x + d))) k
  unfolding export_row
  export_row_inside src a x zero d k i m hk hd e = ground arith
  export_row_inside src a x (suc n) zero k i m hk hd e =
      export_row_outside src a (x + 1) n i (store_pixel (a + x * 3) (canvas (src + x)) m)
        (inl (omega arith))
      ∙ store_pixel_hit (a + x * 3) (canvas (src + x)) k i m hk (omega arith)
      ∙ ap (λ j. byte_of (canvas (src + j)) k) (omega arith)
  export_row_inside src a x (suc n) (suc d) k i m hk hd e =
      export_row_inside src a (x + 1) n d k i (store_pixel (a + x * 3) (canvas (src + x)) m) hk
        (omega arith) (omega arith)
      ∙ ap (λ j. byte_of (canvas (src + j)) k) (omega arith)

  next_row : (y r : ℕ) → (y + 1) * r ≡ y * r + r
  next_row y r = ground arith

  pub export_rows_before :
      (w h pixels y n i : ℕ) (m : ByteMem)
      → i < pixels + y * row_size w 24
      → export_rows canvas w h pixels y n m i ≡ m i
  unfolding export_rows
  export_rows_before w h pixels y zero i m hi = refl
  export_rows_before w h pixels y (suc n) i m hi =
      let e = next_row y (row_size w 24) in
      export_rows_before w h pixels (y + 1) n i _ (omega arith)
      ∙ export_row_outside ((h - 1 - y) * w) (pixels + y * row_size w 24) 0 w i m
          (inl (omega arith))

  row_size_fits : (w : ℕ) → w * 3 ≤ row_size w 24
  row_size_fits w = omega arith

  pub export_rows_inside :
      (w h pixels y n d c k i : ℕ) (m : ByteMem)
      → k < 3
      → c < w
      → d < n
      → i ≡ pixels + (y + d) * row_size w 24 + (c * 3 + k)
      → export_rows canvas w h pixels y n m i ≡ byte_of (canvas ((h - 1 - (y + d)) * w + c)) k
  unfolding export_rows
  export_rows_inside w h pixels y zero d c k i m hk hc hd e = ground arith
  export_rows_inside w h pixels y (suc n) zero c k i m hk hc hd e =
      let e' = next_row y (row_size w 24) in
      let f = row_size_fits w in
      let e0 : (y + 0) * row_size w 24 ≡ y * row_size w 24 =
        ap (λ j. j * row_size w 24) (omega arith) in
      export_rows_before w h pixels (y + 1) n i _ (omega arith)
      ∙ export_row_inside ((h - 1 - y) * w) (pixels + y * row_size w 24) 0 w c k i m hk hc
          (omega arith)
      ∙ ap (λ j. byte_of (canvas ((h - 1 - y) * w + j)) k) ((omega arith))
      ∙ ap (λ j. byte_of (canvas ((h - 1 - j) * w + c)) k) (omega arith)
  export_rows_inside w h pixels y (suc n) (suc d) c k i m hk hc hd e =
      export_rows_inside w h pixels (y + 1) n d c k i _ hk hc (omega arith)
        (e ∙ ap (λ j. pixels + j * row_size w 24 + (c * 3 + k)) (omega arith))
      ∙ ap (λ j. byte_of (canvas ((h - 1 - j) * w + c)) k) (omega arith)

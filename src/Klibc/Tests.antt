-- ===== src/Klibc/Tests.antt =====
-- Runs of src/klibc.c on short strings and a small memory.
use meu_so_baremetal.Prelude.{ℕ, ◌≡◌, inl, List, [], ◌∷◌, arith}
use meu_so_baremetal.Klibc.{ByteMem, fast_memcpy}
use meu_so_baremetal.Klibc.Chunks.{fast_memcpy_lem}
use meu_so_baremetal.Klibc.Strings.{NoNul}

abbrev abc : List ℕ
abc = 97 ∷ 98 ∷ 99 ∷ []

abbrev abd : List ℕ
abd = 97 ∷ 98 ∷ 100 ∷ []

abbrev counting : ByteMem
counting a = a

abc-NoNul : NoNul abc
abc-NoNul = (omega arith, (omega arith, (omega arith, tt)))

abd-NoNul : NoNul abd
abd-NoNul = (omega arith, (omega arith, (omega arith, tt)))

fast_memcpy_lem_example : fast_memcpy 100 50 13 counting 112 ≡ 62
fast_memcpy_lem_example = fast_memcpy_lem 100 50 13 counting 112 (inl (omega arith))

-- ===== src/Prelude/Text.antt =====
-- Text literals as the bytes of C strings.
use Prim.Native.Char.{code}
use Prim.Native.String.{String}
use meu_so_baremetal.Prelude.{ℕ, List, [], ◌∷◌}

abbrev pub codes : String → List ℕ
codes String.[] = []
codes (String.◌∷◌ c s) = code c ∷ codes s

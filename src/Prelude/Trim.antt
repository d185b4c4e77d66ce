-- ===== src/Prelude/Trim.antt =====
-- `s.trim()`.
use Prim.Native.Nat.{ℕ}
use Prim.Native.Char.{code}
use Prim.Native.String.{String}
use mathlib.Core.Bool.{Bool, ◌&&◌, ◌||◌}
use mediavault_backend.Prelude.Basics.{if◌then◌else◌, eqb, leb}

-- The white space and line ends that `trim` removes.
is_space : ℕ → Bool
is_space c =
    (leb 9 c && leb c 13)
    || eqb c 32
    || eqb c 160
    || eqb c 5760
    || (leb 8192 c && leb c 8202)
    || eqb c 8232
    || eqb c 8233
    || eqb c 8239
    || eqb c 8287
    || eqb c 12288
    || eqb c 65279

unfoldable pub trim_start : String → String
unfolding is_space
trim_start String.[] = String.[]
trim_start (String.◌∷◌ c s) =
    let rest = trim_start s in if is_space (code c) then rest else String.◌∷◌ c s

prepend_unless_blank : Bool → String → String → String
prepend_unless_blank space s String.[] = if space then String.[] else s
prepend_unless_blank space s (String.◌∷◌ c t) = s

unfoldable pub trim_end : String → String
unfolding is_space prepend_unless_blank
trim_end String.[] = String.[]
trim_end (String.◌∷◌ c s) =
    let rest = trim_end s in prepend_unless_blank (is_space (code c)) (String.◌∷◌ c rest) rest

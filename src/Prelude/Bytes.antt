-- ===== src/Prelude/Bytes.antt =====
-- Go strings and byte slices: lists of bytes. A text literal stands for its bytes.
use Prim.Native.Nat.{ℕ}
use Prim.Native.Char.{code}
use Prim.Native.String.{String}
use mathlib.Core.Path.{◌≡◌, refl, ap}
use mathlib.Core.Logic.{◌↔◌, ◌≢◌}
use mathlib.Core.Bool.{Bool, true, false, ◌&&◌}
use mathlib.Core.List.{List, [], ◌∷◌, ◌++◌}
use native.Mathlib.Omega.{arith}
use marbles_game.Prelude.Tests.{◌==◌, Eq}
use marbles_game.Prelude.Lists.{length, length-append}

abbrev pub Str : Type 0
Str = List ℕ

abbrev pub codes : String → Str
codes String.[] = []
codes (String.◌∷◌ c s) = code c ∷ codes s

unfoldable pub str_eq : Str → Str → Bool
str_eq [] [] = true
str_eq [] (y ∷ ys) = false
str_eq (x ∷ xs) [] = false
str_eq (x ∷ xs) (y ∷ ys) = x == y && str_eq xs ys

pub str_eq_iff : (s t : Str) → (str_eq s t ≡ true) ↔ (s ≡ t)
unfolding str_eq
str_eq_iff [] [] = (λ _. refl, λ _. refl)
str_eq_iff [] (y ∷ ys) = (λ e. cc, λ e. cc)
str_eq_iff (x ∷ xs) [] = (λ e. cc, λ e. cc)
str_eq_iff (x ∷ xs) (y ∷ ys) =
    (λ e. ground (arith, str_eq_iff xs ys), λ e. ground (arith, str_eq_iff xs ys))

instance abbrev pub str_eq_inst : Eq Str
str_eq_inst = record { beq = str_eq; beq_iff = str_eq_iff }

-- `s == ""`
abbrev pub is_empty : Str → Bool
is_empty [] = true
is_empty (c ∷ s) = false

-- A non-empty suffix makes another string.
pub append-ne : (s : Str) (c : ℕ) (t : Str) → s ++ c ∷ t ≢ s
append-ne s c t e = absurd (omega (arith, ap length e, length-append s (c ∷ t)))

-- Different suffixes make different strings.
pub append-cancel : (s t u : Str) → s ++ t ≡ s ++ u → t ≡ u
append-cancel [] t u e = e
append-cancel (c ∷ s) t u e = append-cancel s t u (cc)

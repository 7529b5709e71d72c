-- ===== src/Prelude/Texts.antt =====
-- Texts as lists of characters.
use Prim.Native.Nat.{ℕ, zero, suc}
use Prim.Native.String.{String, [], ◌∷◌}

-- `text[:n]`
unfoldable pub cut : ℕ → String → String
cut zero text = []
cut (suc n) [] = []
cut (suc n) (c ∷ text) = let rest = cut n text in c ∷ rest

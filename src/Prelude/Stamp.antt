-- ===== src/Prelude/Stamp.antt =====
-- `latest_first` of core/projection/facts.py compares `(created_at, id)` pairs: a time, as a count
-- of microseconds, and then a text by its code points.
use Prim.Native.Nat.{ℕ, ◌≤◌}
use Prim.Native.Char.{code}
use Prim.Native.String.{String}
use mathlib.Core.Path.{◌≡◌, refl}
use mathlib.Core.Bool.{Bool, true, false}
use native.Mathlib.Omega.{arith}
use civicpatch_tools.Prelude.Tests.{ltb, if◌then◌else◌}
use civicpatch_tools.Prelude.Sort.{IsOrder}

-- `s <= t` on texts.
unfoldable pub text_leb : String → String → Bool
text_leb String.[] t = true
text_leb (String.◌∷◌ c s) String.[] = false
text_leb (String.◌∷◌ c s) (String.◌∷◌ d t) =
    let rest = text_leb s t in
    if ltb (code c) (code d) then true else if ltb (code d) (code c) then false else rest

text_leb_total : (s t : String) → text_leb s t ≡ false → text_leb t s ≡ true
unfolding text_leb
text_leb_total String.[] t h = absurd (cc)
text_leb_total (String.◌∷◌ c s) String.[] h = refl
text_leb_total (String.◌∷◌ c s) (String.◌∷◌ d t) h = ground (arith, text_leb_total s t)

text_leb_trans : (s t u : String) → text_leb s t ≡ true → text_leb t u ≡ true → text_leb s u ≡ true
unfolding text_leb
text_leb_trans String.[] t u h k = refl
text_leb_trans (String.◌∷◌ c s) String.[] u h k = absurd (cc)
text_leb_trans (String.◌∷◌ c s) (String.◌∷◌ d t) String.[] h k = absurd (cc)
text_leb_trans (String.◌∷◌ c s) (String.◌∷◌ d t) (String.◌∷◌ b u) h k =
    ground (arith, text_leb_trans s t u)

pub text_leb-IsOrder : IsOrder text_leb
text_leb-IsOrder = record { total = text_leb_total; trans = text_leb_trans }

abbrev pub Stamp : Type 0
Stamp = ℕ × String

unfoldable pub stamp_leb : Stamp → Stamp → Bool
stamp_leb a b = if ltb a.0 b.0 then true else if ltb b.0 a.0 then false else text_leb a.1 b.1

stamp_leb_total : (a b : Stamp) → stamp_leb a b ≡ false → stamp_leb b a ≡ true
unfolding stamp_leb
stamp_leb_total a b h = ground (arith, text_leb_total a.1 b.1)

stamp_leb_trans :
    (a b c : Stamp) → stamp_leb a b ≡ true → stamp_leb b c ≡ true → stamp_leb a c ≡ true
unfolding stamp_leb
stamp_leb_trans a b c h k = ground (arith, text_leb_trans a.1 b.1 c.1)

-- A sort key gives an order on what carries it.
pub by_stamp-IsOrder : {A : Type 0} (key : A → Stamp) → IsOrder (λ a b. stamp_leb (key a) (key b))
by_stamp-IsOrder key = record {
  total = λ a b. stamp_leb_total (key a) (key b);
  trans = λ a b c. stamp_leb_trans (key a) (key b) (key c);
}

-- A later stamp is at no earlier a time.
pub stamp_leb→le : (a b : Stamp) → stamp_leb a b ≡ true → a.0 ≤ b.0
unfolding stamp_leb
stamp_leb→le a b h = ground arith

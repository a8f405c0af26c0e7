-- ===== src/Common/Chars.antt =====
-- Texts that a test inspects: the list of their UTF-16 code units. Which units `trim` takes for
-- white space is an argument.
use Prim.Native.Nat.{ℕ}
use mathlib.Core.Path.{◌≡◌, refl}
use mathlib.Core.Bool.{Bool, true, false, ◌&&◌}
use mathlib.Core.List.{List, [], ◌∷◌}
use native.Mathlib.Omega.{arith}
use food_delivery_api.Common.Tests.{if◌then◌else◌, ◌==◌}

abbrev pub Text : Type 0
Text = List ℕ

abbrev pub same_text : Text → Text → Bool
same_text [] [] = true
same_text [] (b ∷ t) = false
same_text (a ∷ s) [] = false
same_text (a ∷ s) (b ∷ t) = (a == b) && same_text s t

abbrev pub is_blank : Text → Bool
is_blank [] = true
is_blank (c ∷ s) = false

module _ (space : ℕ → Bool) where
  abbrev trim_start : Text → Text
  trim_start [] = []
  trim_start (c ∷ s) = if space c then trim_start s else c ∷ s

  abbrev trim_end : Text → Text
  trim_end [] = []
  trim_end (c ∷ s) = let rest = trim_end s in if space c && is_blank rest then [] else c ∷ rest

  -- `text.trim()`
  abbrev pub trim : Text → Text
  trim s = trim_end (trim_start s)

  -- Without white space at its ends.
  abbrev pub is_trimmed : Text → Bool
  is_trimmed s = same_text (trim s) s

  trim_end_twice : (s : Text) → trim_end (trim_end s) ≡ trim_end s
  trim_end_twice [] = refl
  trim_end_twice (c ∷ s) = ground (arith, trim_end_twice s)

  -- What is left of a text that starts with a visible unit starts with it.
  trim_start-trim_end : (s : Text) → trim_start (trim_end (trim_start s)) ≡ trim_end (trim_start s)
  trim_start-trim_end [] = refl
  trim_start-trim_end (c ∷ s) = ground (arith, trim_start-trim_end s)

  pub trim_twice : (s : Text) → trim (trim s) ≡ trim s
  trim_twice s = ground (arith, trim_start-trim_end s, trim_end_twice (trim_start s))

pub same_text_refl : (s : Text) → same_text s s ≡ true
same_text_refl [] = refl
same_text_refl (a ∷ s) = ground (arith, same_text_refl s)

pub same_text-same : (s t : Text) → same_text s t ≡ true → s ≡ t
same_text-same [] [] h = refl
same_text-same [] (b ∷ t) h = ground arith
same_text-same (a ∷ s) [] h = ground arith
same_text-same (a ∷ s) (b ∷ t) h = ground (arith, same_text-same s t)

pub trim-is_trimmed : (space : ℕ → Bool) (s : Text) → is_trimmed space (trim space s) ≡ true
trim-is_trimmed space s = ground (arith, trim_twice space s, same_text_refl (trim space s))

-- ===== src/Common/Text.antt =====
-- Texts, their equality, and objects whose keys are texts.
use Prim.Native.String.{String, ◌++◌}
use text.Mathlib.Text.{◌==◌}
use text.Mathlib.TextEquality.{eq_iff}
use mathlib.Core.Path.{◌≡◌, refl}
use mathlib.Core.Logic.{◌↔◌}
use mathlib.Core.Bool.{Bool, true}
use mathlib.Core.List.{List, [], ◌∷◌}
use mathlib.Core.Option.{Option, none, some}
use native.Mathlib.Omega.{arith}
use food_delivery_api.Common.Tests.{if◌then◌else◌}

abbrev pub text_eq : String → String → Bool
text_eq s t = s == t

pub text_eq_iff : (s t : String) → (text_eq s t ≡ true) ↔ (s ≡ t)
text_eq_iff s t = eq_iff s t

-- `${s}${t}`
abbrev pub concat : String → String → String
concat s t = s ++ t

-- `text.length === 0`
abbrev pub is_empty : String → Bool
is_empty s = text_eq s ""

module _ {ℓ} {V : Type ℓ} where
  -- `object[key]`; `none` is `undefined`.
  abbrev pub lookup : String → List (String × V) → Option V
  lookup key [] = none
  lookup key ((name, v) ∷ entries) = if text_eq name key then some v else lookup key entries

  -- `object[key] = value`: a key that is there keeps its place.
  abbrev pub put : String → V → List (String × V) → List (String × V)
  put key v [] = (key, v) ∷ []
  put key v ((name, w) ∷ entries) =
      if text_eq name key then (name, v) ∷ entries else (name, w) ∷ put key v entries

  pub lookup-put :
      (key other : String) (v : V) (entries : List (String × V))
      → lookup other (put key v entries)
        ≡ (if text_eq key other then some v else lookup other entries)
  lookup-put key other v [] = refl
  lookup-put key other v ((name, w) ∷ entries) = ground (
    arith,
    text_eq_iff key other,
    text_eq_iff name key,
    text_eq_iff name other,
    lookup-put key other v entries,
  )

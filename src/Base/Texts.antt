-- ===== src/Base/Texts.antt =====
-- Strings: equality as a Boolean test, suffixes, and maps from strings as association lists.
use Prim.Native.String.{String}
use Prim.Native.Char.{Char, code}
use mathlib.Core.Path.{◌≡◌, refl}
use mathlib.Core.Bool.{Bool, ◌&&◌, ◌||◌}
use mathlib.Core.Option.{Option, none, some}
use mathlib.Core.List.{List, [], ◌∷◌}
use native.Mathlib.Omega.{arith}
pub use text.Mathlib.Text.{◌==◌ as str_eq}
pub use text.Mathlib.TextEquality.{eq_iff}
use model_bridge.Base.Tests.{if◌then◌else◌, leb, ◌==◌}

-- `strings.TrimSuffix`
unfoldable pub trim_suffix : String → String → String
trim_suffix suffix String.[] = String.[]
trim_suffix suffix (String.◌∷◌ c s) =
    let rest = trim_suffix suffix s in
    if str_eq (String.◌∷◌ c s) suffix then String.[] else String.◌∷◌ c rest

-- `strings.TrimSpace`, over the white space of ASCII and Latin-1.
unfoldable pub is_space : Char → Bool
is_space c = let n = code c in (leb 9 n && leb n 13) || n == 32 || n == 133 || n == 160

unfoldable pub trim_left : String → String
unfolding is_space
trim_left String.[] = String.[]
trim_left (String.◌∷◌ c s) = if is_space c then trim_left s else String.◌∷◌ c s

-- The last characters go while nothing but white space follows them.
unfoldable pub keep_unless_blank : Char → String → String
unfolding is_space
keep_unless_blank c rest =
    if is_space c && str_eq rest String.[] then String.[] else String.◌∷◌ c rest

unfoldable pub trim_right : String → String
unfolding keep_unless_blank
trim_right String.[] = String.[]
trim_right (String.◌∷◌ c s) = keep_unless_blank c (trim_right s)

unfoldable pub trim_space : String → String
unfolding trim_left trim_right
trim_space s = trim_left (trim_right s)

-- A Go map keyed by strings, in the order in which its keys were first written.
abbrev pub Map {ℓ} : Type ℓ → Type ℓ
Map V = List (String × V)

module _ {ℓ} {V : Type ℓ} where
  abbrev pub lookup : String → Map V → Option V
  lookup key [] = none
  lookup key ((other, value) ∷ rest) = if str_eq other key then some value else lookup key rest

  abbrev pub insert : String → V → Map V → Map V
  insert key value [] = (key, value) ∷ []
  insert key value ((other, old) ∷ rest) =
      if str_eq other key then (key, value) ∷ rest else (other, old) ∷ insert key value rest

  pub lookup-insert :
      (written asked : String) (value : V) (map : Map V)
      → lookup asked (insert written value map)
        ≡ (if str_eq written asked then some value else lookup asked map)
  lookup-insert written asked value [] = refl
  lookup-insert written asked value ((other, old) ∷ rest) = ground (
    arith,
    lookup-insert written asked value rest,
    eq_iff written asked,
    eq_iff other written,
    eq_iff other asked,
  )

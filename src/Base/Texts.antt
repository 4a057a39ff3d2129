-- ===== src/Base/Texts.antt =====
-- Texts as lists of UTF-16 code units, the view that JavaScript's string methods have of them.
use Prim.Native.Char.{code}
use Prim.Native.String.{String}
use Prim.Native.Nat.{ℕ}
use mathlib.Core.Path.{◌≡◌, refl}
use mathlib.Core.Bool.{Bool, true, false, ◌&&◌, ◌||◌}
use mathlib.Core.List.{List, [], ◌∷◌, reverse}
use native.Mathlib.Omega.{arith}
use multi_tenant_cloud_obser.Base.Tests.{leb, ◌==◌, if◌then◌else◌}

abbrev pub Text : Type 0
Text = List ℕ

-- The code units of a literal, which is ASCII wherever it is used.
abbrev pub codes : String → Text
codes String.[] = []
codes (String.◌∷◌ c s) = code c ∷ codes s

unfoldable pub text_eq : Text → Text → Bool
text_eq [] [] = true
text_eq [] (y ∷ ys) = false
text_eq (x ∷ xs) [] = false
text_eq (x ∷ xs) (y ∷ ys) = x == y && text_eq xs ys

pub text_eq_refl : (t : Text) → text_eq t t ≡ true
unfolding text_eq
text_eq_refl [] = refl
text_eq_refl (x ∷ xs) = ground (arith, text_eq_refl xs)

pub text_eq_sound : (s t : Text) → text_eq s t ≡ true → s ≡ t
unfolding text_eq
text_eq_sound [] [] h = refl
text_eq_sound [] (y ∷ ys) h = cc
text_eq_sound (x ∷ xs) [] h = cc
text_eq_sound (x ∷ xs) (y ∷ ys) h = ground (arith, text_eq_sound xs ys)

-- `texts.includes(t)`.
unfoldable pub includes : List Text → Text → Bool
includes [] t = false
includes (x ∷ xs) t = text_eq x t || includes xs t

-- `t.startsWith(prefix)`.
unfoldable pub starts_with : Text → Text → Bool
starts_with t [] = true
starts_with [] (p ∷ ps) = false
starts_with (c ∷ t) (p ∷ ps) = c == p && starts_with t ps

pub text_eq_sym : (s t : Text) → text_eq s t ≡ text_eq t s
unfolding text_eq
text_eq_sym [] [] = refl
text_eq_sym [] (y ∷ t) = refl
text_eq_sym (x ∷ s) [] = refl
text_eq_sym (x ∷ s) (y ∷ t) = ground (arith, text_eq_sym s t)

-- `t.endsWith(suffix)`.
unfoldable pub ends_with : Text → Text → Bool
ends_with [] suffix = text_eq [] suffix
ends_with (c ∷ t) suffix = text_eq (c ∷ t) suffix || ends_with t suffix

-- `t.includes(c)`, of one code unit.
unfoldable pub has_unit : ℕ → Text → Bool
has_unit d [] = false
has_unit d (c ∷ t) = c == d || has_unit d t

-- A piece in front of the pieces of the rest of a text, which are never none.
abbrev pub extend : ℕ → List Text → List Text
extend c [] = (c ∷ []) ∷ []
extend c (piece ∷ pieces) = (c ∷ piece) ∷ pieces

-- `t.split(d)`, of one code unit.
unfoldable pub split : ℕ → Text → List Text
split d [] = [] ∷ []
split d (c ∷ t) = let pieces = split d t in if c == d then [] ∷ pieces else extend c pieces

-- `t.split(d, 1)[0]`.
unfoldable pub before : ℕ → Text → Text
before d [] = []
before d (c ∷ t) = let rest = before d t in if c == d then [] else c ∷ rest

-- The rest of a text behind a prefix of it.
unfoldable pub drop_prefix : Text → Text → Text
drop_prefix t [] = t
drop_prefix [] (p ∷ ps) = []
drop_prefix (c ∷ t) (p ∷ ps) = drop_prefix t ps

-- `t.replace(pattern, '')`: the first place where the pattern stands is cut out.
unfoldable pub cut_first : Text → Text → Text
cut_first [] pattern = []
cut_first (c ∷ t) pattern =
    let later = c ∷ cut_first t pattern in
    if starts_with (c ∷ t) pattern then drop_prefix (c ∷ t) pattern else later

abbrev pub is_blank : Text → Bool
is_blank [] = true
is_blank (c ∷ t) = false

-- The white space and line ends of ECMAScript.
abbrev pub is_space : ℕ → Bool
is_space c =
    (leb 9 c && leb c 13)
    || (c == 0x20
        || c == 0xa0
        || c == 0x1680
        || (leb 0x2000 c && leb c 0x200a)
        || c == 0x2028
        || c == 0x2029
        || c == 0x202f
        || c == 0x205f
        || c == 0x3000
        || c == 0xfeff)

unfoldable pub trim_start : Text → Text
trim_start [] = []
trim_start (c ∷ t) = let rest = trim_start t in if is_space c then rest else c ∷ t

-- `t.trim()`.
unfoldable pub trim : Text → Text
trim t = reverse (trim_start (reverse (trim_start t)))

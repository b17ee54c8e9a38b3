-- ===== src/Common/Strings.antt =====
-- JavaScript strings as lists of code points, with the string functions that the source calls.
use Prim.Native.Nat.{ℕ, zero, suc, ◌+◌, ◌/◌, ◌%◌}
use Prim.Native.Char.{code}
use Prim.Native.String.{String}
use mathlib.Core.Path.{◌≡◌, refl}
use mathlib.Core.Logic.{◌↔◌}
use mathlib.Core.Option.{Option, none, some}
use mathlib.Core.Bool.{Bool, true, false, ◌&&◌, ◌||◌}
use mathlib.Core.List.{List, [], ◌∷◌, ◌++◌, map, reverse, reverse_aux, reverse-reverse}
use native.Mathlib.Omega.{arith}
use smart_platform_services.Common.Tests.{ltb, nat_eq_iff, leb, nat_eq, if◌then◌else◌, Eq}

abbrev pub Text : Type 0
Text = List ℕ

-- The code points of a literal.
abbrev pub text : String → Text
text String.[] = []
text (String.◌∷◌ c s) = code c ∷ text s

unfoldable pub same_text : Text → Text → Bool
same_text [] [] = true
same_text (a ∷ s) (b ∷ t) = nat_eq a b && same_text s t
same_text _ _ = false

pub same_text_iff : (s t : Text) → (same_text s t ≡ true) ↔ (s ≡ t)
unfolding same_text
same_text_iff [] [] = (λ _. refl, λ _. refl)
same_text_iff [] (b ∷ t) = (λ e. cc, λ e. cc)
same_text_iff (a ∷ s) [] = (λ e. cc, λ e. cc)
same_text_iff (a ∷ s) (b ∷ t) = let ih = same_text_iff s t in ground (arith, ih)

instance abbrev pub text_Eq : Eq Text
text_Eq = record { test = same_text; decides = same_text_iff }

-- WhiteSpace and LineTerminator of ECMAScript.
unfoldable pub is_space : ℕ → Bool
is_space c =
    (leb 9 c && leb c 13)
    || nat_eq c 32
    || nat_eq c 0xa0
    || nat_eq c 0x1680
    || (leb 0x2000 c && leb c 0x200a)
    || nat_eq c 0x2028
    || nat_eq c 0x2029
    || nat_eq c 0x202f
    || nat_eq c 0x205f
    || nat_eq c 0x3000
    || nat_eq c 0xfeff

trim_start : Text → Text
unfolding is_space
trim_start [] = []
trim_start (c ∷ s) = let rest = trim_start s in if is_space c then rest else c ∷ s

-- `String.prototype.trim`
unfoldable pub trim : Text → Text
unfolding trim_start
trim s = reverse (trim_start (reverse (trim_start s)))

-- A pattern that every character of the text matches.
abbrev pub all_characters : (ℕ → Bool) → Text → Bool
all_characters p [] = true
all_characters p (c ∷ s) = p c && all_characters p s

-- No character of the text is white space.
abbrev pub Solid : Text → Type 0
Solid [] = Unit
Solid (c ∷ s) = (is_space c ≡ false) × Solid s

pub digit_solid : (c : ℕ) → (leb b'0' c && leb c b'9') ≡ true → is_space c ≡ false
unfolding is_space
digit_solid c h = ground arith

pub plus_solid : (c : ℕ) → nat_eq c b'+' ≡ true → is_space c ≡ false
unfolding is_space
plus_solid c h = ground arith

reverse_aux-Solid : (s t : Text) → Solid s → Solid t → Solid (reverse_aux s t)
reverse_aux-Solid [] t h k = k
reverse_aux-Solid (c ∷ s) t h k = reverse_aux-Solid s (c ∷ t) h.1 (h.0, k)

trim_start-Solid : (s : Text) → Solid s → trim_start s ≡ s
unfolding trim_start
trim_start-Solid [] h = refl
trim_start-Solid (c ∷ s) h = rw h.0 refl

pub trim-Solid : (s : Text) → Solid s → trim s ≡ s
unfolding trim
trim-Solid s h =
    rw (trim_start-Solid s h, trim_start-Solid (reverse s) (reverse_aux-Solid s [] h tt))
      (reverse-reverse s)

abbrev lower_char : ℕ → ℕ
lower_char c = if leb b'A' c && leb c b'Z' then c + 32 else c

-- `String.prototype.toLowerCase` and the `lower` of SQL, on ASCII.
unfoldable pub to_lower_case : Text → Text
to_lower_case = map lower_char

-- `String.prototype.split` at one character.
abbrev add_to_first : ℕ → List Text → List Text
add_to_first c [] = (c ∷ []) ∷ []
add_to_first c (s ∷ parts) = (c ∷ s) ∷ parts

unfoldable pub split : ℕ → Text → List Text
split d [] = [] ∷ []
split d (c ∷ s) = let rest = split d s in if nat_eq c d then [] ∷ rest else add_to_first c rest

-- `slice(0, n)`
unfoldable pub slice : ℕ → Text → Text
slice zero s = []
slice (suc n) [] = []
slice (suc n) (c ∷ s) = c ∷ slice n s

-- No character of the text is `d`.
abbrev pub Lacks : ℕ → Text → Type 0
Lacks d [] = Unit
Lacks d (c ∷ s) = (nat_eq c d ≡ false) × Lacks d s

pub split-Lacks : (d : ℕ) (s : Text) → Lacks d s → split d s ≡ s ∷ []
unfolding split
split-Lacks d [] h = refl
split-Lacks d (c ∷ s) h = rw (split-Lacks d s h.1, h.0) refl

-- A text up to the first separator is the first part.
pub split-append : (d : ℕ) (s t : Text) → Lacks d s → split d (s ++ (d ∷ t)) ≡ s ∷ split d t
unfolding split
split-append d [] t h = ground (arith, nat_eq_iff d d)
split-append d (c ∷ s) t h = rw (split-append d s t h.1, h.0) refl

-- `value.replace(/\s+/gu, ' ')`
unfoldable pub collapse_spaces : Text → Text
unfolding is_space
collapse_spaces [] = []
collapse_spaces (c ∷ []) = if is_space c then b' ' ∷ [] else c ∷ []
collapse_spaces (c ∷ d ∷ s) =
    let rest = collapse_spaces (d ∷ s) in
    if is_space c then (if is_space d then rest else b' ' ∷ rest) else c ∷ rest

-- `'*'.repeat(n)`
unfoldable pub stars : ℕ → Text
stars zero = []
stars (suc n) = b'*' ∷ stars n

-- `Boolean(value)` of a string that may be null, and `value || null`.
abbrev pub is_truthy : Option Text → Bool
is_truthy none = false
is_truthy (some []) = false
is_truthy (some (c ∷ s)) = true

abbrev pub or_null : Text → Option Text
or_null [] = none
or_null (c ∷ s) = some (c ∷ s)

-- `toString()` of a number that has `places` decimal digits at most: no zeros in front.
unfoldable pub decimal : ℕ → ℕ → Text
decimal zero n = []
decimal (suc places) n =
    let rest = decimal places (n / 10) in
    if ltb n 10 then ((b'0' + n) ∷ []) else rest ++ ((b'0' + n % 10) ∷ [])

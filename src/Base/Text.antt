-- ===== src/Base/Text.antt =====
-- What the source uses of JavaScript strings. A string is its code points; `<` and `includes`
-- compare them, which for texts of the basic plane is what comparing UTF-16 units gives.
use Prim.Native.Nat.{ℕ, zero, suc, Ordering}
use Prim.Native.Char.{Char, code}
use Prim.Native.String
use Prim.Native.String.{String, [], ◌∷◌}
use mathlib.Core.Bool.{Bool, true, false, not, ◌&&◌, ◌||◌}
use mathlib.Core.Option.{Option, none, some}
use mathlib.Core.List.{List}
use text.Mathlib.Text.{◌==◌}
use cogni_cash.Base.Tests.{leb, ltb, nat_eq, if◌then◌else◌}

-- `!!s`
abbrev pub truthy : String → Bool
truthy s = not (s == "")

-- `!!s` of a value that may be null or undefined.
abbrev pub present : Option String → Bool
present none = false
present (some s) = truthy s

-- `s || d`
abbrev pub text_or : Option String → String → String
text_or none d = d
text_or (some s) d = if truthy s then s else d

-- `s === t` where s may be null or undefined.
abbrev pub is_text : Option String → String → Bool
is_text none t = false
is_text (some s) t = s == t

-- `s < t` and `s <= t`
abbrev pub text_lt : String → String → Bool
text_lt s t = elim (String.compare s t) [ Ordering.lt ↦ true | _ ↦ false ]

abbrev pub text_le : String → String → Bool
text_le s t = not (text_lt t s)

-- `s.includes(t)`: `find` answers past the end where there is no occurrence.
abbrev pub includes : String → String → Bool
includes s t = leb (String.find s t) (String.len s)

-- `s.slice(0, n)`
unfoldable pub take_text : ℕ → String → String
take_text zero s = []
take_text (suc n) [] = []
take_text (suc n) (c ∷ s) = c ∷ take_text n s

-- `s.slice(n)`
unfoldable pub drop_text : ℕ → String → String
drop_text zero s = s
drop_text (suc n) [] = []
drop_text (suc n) (c ∷ s) = drop_text n s

-- `s.startsWith(t)`
unfoldable pub starts_with : String → String → Bool
unfolding take_text
starts_with s t = take_text (String.count t) s == t

-- White space and line terminators of ECMAScript, which `trim` removes.
abbrev pub is_space : Char → Bool
is_space c =
    let n = code c in
    (leb 9 n && leb n 13)
    || nat_eq n 32
    || nat_eq n 160
    || nat_eq n 0x1680
    || (leb 0x2000 n && leb n 0x200A)
    || nat_eq n 0x2028
    || nat_eq n 0x2029
    || nat_eq n 0x202F
    || nat_eq n 0x205F
    || nat_eq n 0x3000
    || nat_eq n 0xFEFF

-- `!s.trim()`
unfoldable pub is_blank : String → Bool
is_blank [] = true
is_blank (c ∷ s) = is_space c && is_blank s

unfoldable pub trim_start : String → String
trim_start [] = []
trim_start (c ∷ s) = if is_space c then trim_start s else c ∷ s

unfoldable pub trim_end : String → String
unfolding is_blank
trim_end [] = []
trim_end (c ∷ s) = if is_blank (c ∷ s) then [] else c ∷ trim_end s

unfoldable pub trim : String → String
unfolding trim_start trim_end
trim s = trim_end (trim_start s)

-- `s.replace(c, d)` for single characters: the first occurrence.
unfoldable pub replace_char : ℕ → String → String → String
replace_char a b [] = []
replace_char a b (c ∷ s) = if nat_eq (code c) a then String.◌++◌ b s else c ∷ replace_char a b s

-- `s.split(c)` for a single character.
unfoldable pub split_char : ℕ → String → String → List String
split_char a cur [] = List.◌∷◌ cur List.[]
split_char a cur (c ∷ s) =
    let closed = List.◌∷◌ cur (split_char a "" s) in
    let longer = split_char a (String.◌++◌ cur (c ∷ [])) s in
    if nat_eq (code c) a then closed else longer

unfoldable pub is_digit : Char → Bool
is_digit c = leb b'0' (code c) && leb (code c) b'9'

-- The regular expressions of the source that describe dates: `d` stands for `\d`, any other
-- character for itself. True if the text begins with the shape.
unfoldable pub has_shape : String → String → Bool
unfolding is_digit
has_shape [] s = true
has_shape (p ∷ ps) [] = false
has_shape (p ∷ ps) (c ∷ s) =
    (if nat_eq (code p) b'd' then is_digit c else nat_eq (code p) (code c)) && has_shape ps s

-- `/^shape$/`
unfoldable pub is_shape : String → String → Bool
unfolding has_shape
is_shape p s = has_shape p s && nat_eq (String.count s) (String.count p)

-- `String(n).padStart(2, '0')` of a number below 100 with its digits given.
abbrev pub pad_two : String → String
pad_two s = if ltb (String.count s) 2 then String.◌++◌ "0" s else s

-- ===== src/Base/Text.antt =====
-- The functions of Go's packages `strings` and `fmt` that the program calls, by code point.
pub mod Trim
pub mod Cutting
pub mod Affixes
use Prim.Native.Nat.{ℕ, zero, suc, ◌+◌, ◌-◌, ◌/◌, ◌%◌}
use Prim.Native.Char.{Char, code}
use Prim.Native.String
use Prim.Native.String.{String, [], ◌∷◌, slice}
use mathlib.Core.Path.{◌≡◌, refl}
use mathlib.Core.Bool.{Bool, true, false, ◌&&◌, ◌||◌}
use mathlib.Core.List.{List}
use text.Mathlib.Text.{◌==◌}
use dapr_mcp.Base.Tests.{if◌then◌else◌, ltb, leb, nat_eq}

-- `unicode.IsSpace`.
unfoldable pub is_space : ℕ → Bool
is_space c =
    (leb 9 c && leb c 13)
    || nat_eq c 32
    || nat_eq c 0x85
    || nat_eq c 0xA0
    || nat_eq c 0x1680
    || (leb 0x2000 c && leb c 0x200A)
    || nat_eq c 0x2028
    || nat_eq c 0x2029
    || nat_eq c 0x202F
    || nat_eq c 0x205F
    || nat_eq c 0x3000

pub trim_left : String → String
trim_left [] = []
trim_left (c ∷ s) = if is_space (code c) then trim_left s else c ∷ s

unfoldable pub trim_right : String → String
trim_right [] = []
trim_right (c ∷ s) =
    let rest = trim_right s in if is_space (code c) && (rest == "") then "" else c ∷ rest

-- `strings.TrimSpace`.
unfoldable pub trim_space : String → String
unfolding trim_left trim_right is_space
trim_space s = trim_right (trim_left s)

-- Puts a character before the first of the parts.
abbrev pub prepend : Char → List String → List String
prepend c List.[] = List.◌∷◌ (c ∷ "") List.[]
prepend c (List.◌∷◌ p ps) = List.◌∷◌ (c ∷ p) ps

-- `strings.Split` by a separator of one code point.
unfoldable pub split : ℕ → String → List String
split sep [] = List.◌∷◌ "" List.[]
split sep (c ∷ s) =
    let rest = split sep s in if nat_eq (code c) sep then List.◌∷◌ "" rest else prepend c rest

-- `strings.Cut` by a separator of one code point: before it, after it, and whether it occurs.
unfoldable pub cut : ℕ → String → String × String × Bool
cut sep [] = ("", "", false)
cut sep (c ∷ s) =
    let rest = cut sep s in
    if nat_eq (code c) sep then ("", s, true) else (c ∷ rest.0, rest.1, rest.2)

-- `strings.HasPrefix`.
unfoldable pub has_prefix : String → String → Bool
has_prefix s [] = true
has_prefix [] (d ∷ p) = false
has_prefix (c ∷ s) (d ∷ p) = nat_eq (code c) (code d) && has_prefix s p

-- What follows a prefix.
pub after_prefix : String → String → String
after_prefix s [] = s
after_prefix [] (d ∷ p) = []
after_prefix (c ∷ s) (d ∷ p) = after_prefix s p

-- `strings.TrimPrefix`.
unfoldable pub trim_prefix : String → String → String
unfolding has_prefix after_prefix
trim_prefix s p = if has_prefix s p then after_prefix s p else s

-- `strings.HasSuffix`.
unfoldable pub has_suffix : String → String → Bool
has_suffix [] suffix = suffix == ""
has_suffix (c ∷ s) suffix = (c ∷ s) == suffix || has_suffix s suffix

-- `strings.TrimSuffix`.
unfoldable pub trim_suffix : String → String → String
trim_suffix [] suffix = []
trim_suffix (c ∷ s) suffix = if (c ∷ s) == suffix then "" else c ∷ trim_suffix s suffix

-- `strings.Contains`.
unfoldable pub contains : String → String → Bool
unfolding has_prefix
contains [] part = has_prefix [] part
contains (c ∷ s) part = has_prefix (c ∷ s) part || contains s part

-- `strings.Join`.
unfoldable pub join : List String → String → String
join List.[] sep = ""
join (List.◌∷◌ p List.[]) sep = p
join (List.◌∷◌ p (List.◌∷◌ q ps)) sep = String.◌++◌ p (String.◌++◌ sep (join (List.◌∷◌ q ps) sep))

-- The text that `fmt.Sprintf` makes of its pieces, in their order.
unfoldable pub format : List String → String
format List.[] = ""
format (List.◌∷◌ p ps) = String.◌++◌ p (format ps)

-- `strings.ToLower`; `lower` is the table of package `unicode` beyond ASCII.
unfoldable pub to_lower : (ℕ → String) → String → String
to_lower lower [] = []
to_lower lower (c ∷ s) =
    let rest = to_lower lower s in
    let i = code c - b'A' in
    if leb b'A' (code c) && leb (code c) b'Z'
    then String.◌++◌ (slice "abcdefghijklmnopqrstuvwxyz" i (i + 1)) rest
    else if ltb (code c) 128
    then c ∷ rest
    else String.◌++◌ (lower (code c)) rest

-- `strings.ToUpper`; `upper` is the table of package `unicode` beyond ASCII.
unfoldable pub to_upper : (ℕ → String) → String → String
to_upper upper [] = []
to_upper upper (c ∷ s) =
    let rest = to_upper upper s in
    let i = code c - b'a' in
    if leb b'a' (code c) && leb (code c) b'z'
    then String.◌++◌ (slice "ABCDEFGHIJKLMNOPQRSTUVWXYZ" i (i + 1)) rest
    else if ltb (code c) 128
    then c ∷ rest
    else String.◌++◌ (upper (code c)) rest

decimal_from : ℕ → ℕ → String → String
decimal_from zero n out = String.◌++◌ (slice "0123456789" n (n + 1)) out
decimal_from (suc fuel) n out =
    let digit = slice "0123456789" (n % 10) (n % 10 + 1) in
    let rest = decimal_from fuel (n / 10) (String.◌++◌ digit out) in
    if ltb n 10 then String.◌++◌ digit out else rest

-- `%d` of a number that is not negative. A number has no more digits than its value, so the fuel
-- is never used up.
unfoldable pub decimal : ℕ → String
unfolding decimal_from
decimal n = decimal_from n n ""

split_test : split b',' "a,b,,c" ≡ List.◌∷◌ "a" (List.◌∷◌ "b" (List.◌∷◌ "" (List.◌∷◌ "c" List.[])))
unfolding split
split_test = refl

trim_test : trim_space " \t a b  " ≡ "a b"
unfolding trim_space
trim_test = refl

cut_test : cut b'=' "k=v=w" ≡ ("k", "v=w", true)
unfolding cut
cut_test = refl

lower_test : to_lower (λ c. "") "OIdC-9" ≡ "oidc-9"
unfolding to_lower
lower_test = refl

upper_test : to_upper (λ c. "") "wArn-9" ≡ "WARN-9"
unfolding to_upper
upper_test = refl

decimal_test : format (List.◌∷◌ (decimal 0) (List.◌∷◌ (decimal 4294967295) List.[])) ≡ "04294967295"
unfolding decimal format
decimal_test = refl

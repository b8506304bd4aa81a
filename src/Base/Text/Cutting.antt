-- ===== src/Base/Text/Cutting.antt =====
-- `strings.Split` and `strings.Cut` undo the joining of parts that lack the separator.
use Prim.Native.Nat.{ℕ}
use Prim.Native.Char.{Char, code}
use Prim.Native.String.{String, [], ◌∷◌, ◌++◌}
use mathlib.Core.Path.{◌≡◌, refl, ap}
use mathlib.Core.Bool.{true, false}
use mathlib.Core.Logic.{◌≢◌}
use mathlib.Core.List.{List}
use native.Mathlib.Omega.{arith}
use text.Mathlib.TextLemmas.{nil-append, cons-append}
use dapr_mcp.Base.Lists.{All}
use dapr_mcp.Base.Text.{is_space, split, cut, join}
use dapr_mcp.Base.Text.Trim.{AllSpace}

-- The code point does not occur.
abbrev pub Lacks : ℕ → String → Type 0
Lacks sep [] = Unit
Lacks sep (c ∷ s) = (code c ≢ sep) × Lacks sep s

pub Lacks-append : (sep : ℕ) (s t : String) → Lacks sep s → Lacks sep t → Lacks sep (s ++ t)
Lacks-append sep [] t h k = rw nil-append k
Lacks-append sep (c ∷ s) t h k = rw cons-append (h.0, Lacks-append sep s t h.1 k)

-- White space holds no separator that is no white space itself.
pub Lacks-AllSpace : (sep : ℕ) (s : String) → is_space sep ≡ false → AllSpace s → Lacks sep s
Lacks-AllSpace sep [] n h = tt
Lacks-AllSpace sep (c ∷ s) n h = ((λ e. cc (ap is_space e, h.0)), Lacks-AllSpace sep s n h.1)

pub cut-append :
    (sep : ℕ) (c : Char) (s t : String)
    → code c ≡ sep
    → Lacks sep s
    → cut sep (s ++ (c ∷ t)) ≡ (s, t, true)
unfolding cut
cut-append sep c [] t e h = rw nil-append (ground arith)
cut-append sep c (d ∷ s) t e h = rw (cons-append, cut-append sep c s t e h.1) (ground arith)

pub cut-Lacks : (sep : ℕ) (s : String) → Lacks sep s → cut sep s ≡ (s, "", false)
unfolding cut
cut-Lacks sep [] h = refl
cut-Lacks sep (c ∷ s) h = rw (cut-Lacks sep s h.1) (ground arith)

split-Lacks : (sep : ℕ) (s : String) → Lacks sep s → split sep s ≡ List.◌∷◌ s List.[]
unfolding split
split-Lacks sep [] h = refl
split-Lacks sep (c ∷ s) h = rw (split-Lacks sep s h.1) (ground arith)

split-append :
    (sep : ℕ) (c : Char) (s t : String)
    → code c ≡ sep
    → Lacks sep s
    → split sep (s ++ (c ∷ t)) ≡ List.◌∷◌ s (split sep t)
unfolding split
split-append sep c [] t e h = rw nil-append (ground arith)
split-append sep c (d ∷ s) t e h = rw (cons-append, split-append sep c s t e h.1) (ground arith)

-- Splitting gives back the parts that were joined.
pub split-join :
    (sep : ℕ) (c : Char) (p : String) (ps : List String)
    → code c ≡ sep
    → Lacks sep p
    → All (Lacks sep) ps
    → split sep (join (List.◌∷◌ p ps) (c ∷ "")) ≡ List.◌∷◌ p ps
unfolding join
split-join sep c p List.[] e h k = split-Lacks sep p h
split-join sep c p (List.◌∷◌ q ps) e h k =
    let later = join (List.◌∷◌ q ps) (c ∷ "") in
    rw (cons-append c "" later, nil-append later, split-append sep c p later e h)
      (ap (List.◌∷◌ p) (split-join sep c q ps e k.0 k.1))

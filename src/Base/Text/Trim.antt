-- ===== src/Base/Text/Trim.antt =====
-- `strings.TrimSpace` removes the white space around a word, and leaves the word.
use Prim.Native.Char.{code}
use Prim.Native.String.{String, [], ◌∷◌, ◌++◌}
use mathlib.Core.Path.{◌≡◌, refl, sym, ◌∙◌, ap}
use mathlib.Core.Bool.{true, false, ◌&&◌}
use mathlib.Core.Logic.{◌≢◌, ◌⊎◌, inl, inr}
use native.Mathlib.Omega.{arith}
use text.Mathlib.Text.{◌==◌}
use text.Mathlib.TextEquality.{eq_iff}
use text.Mathlib.TextLemmas.{
  nil-append, cons-append, append_assoc, append-nil, append-ne-nil_of_right_ne-nil, cons-ne-nil,
}
use dapr_mcp.Base.Tests.{Bool-cases}
use dapr_mcp.Base.Text.{is_space, trim_left, trim_right, trim_space}

abbrev pub AllSpace : String → Type 0
AllSpace [] = Unit
AllSpace (c ∷ s) = (is_space (code c) ≡ true) × AllSpace s

abbrev pub StartsSolid : String → Type 0
StartsSolid [] = ⊥
StartsSolid (c ∷ s) = is_space (code c) ≡ false

-- Not empty, and with no white space at either end.
pub record IsWord (s : String) : Type 0 where
  pub solid : StartsSolid s
  pub trimmed : trim_right s ≡ s

pub ne-nil_of_StartsSolid : (s : String) → StartsSolid s → s ≢ ""
ne-nil_of_StartsSolid [] h = absurd h
ne-nil_of_StartsSolid (c ∷ s) h = cons-ne-nil c s

trim_left-append : (l s : String) → AllSpace l → trim_left (l ++ s) ≡ trim_left s
unfolding trim_left
trim_left-append [] s h = rw nil-append
trim_left-append (c ∷ l) s h = rw (cons-append, h.0) (trim_left-append l s h.1)

trim_left-eq_self : (s : String) → StartsSolid s → trim_left s ≡ s
unfolding trim_left
trim_left-eq_self [] h = refl
trim_left-eq_self (c ∷ s) h = rw h

trim_right-AllSpace : (r : String) → AllSpace r → trim_right r ≡ ""
unfolding trim_right
trim_right-AllSpace [] h = refl
trim_right-AllSpace (c ∷ r) h = rw (h.0, trim_right-AllSpace r h.1)

trim_right-append : (s r : String) → AllSpace r → trim_right (s ++ r) ≡ trim_right s
unfolding trim_right
trim_right-append [] r h = rw nil-append (trim_right-AllSpace r h)
trim_right-append (c ∷ s) r h = rw (cons-append, trim_right-append s r h)

trim_left-AllSpace : (l : String) → AllSpace l → trim_left l ≡ ""
unfolding trim_left
trim_left-AllSpace [] h = refl
trim_left-AllSpace (c ∷ l) h = rw h.0 (trim_left-AllSpace l h.1)

pub trim_space-AllSpace : (l : String) → AllSpace l → trim_space l ≡ ""
unfolding trim_space
trim_space-AllSpace l h = rw (trim_left-AllSpace l h)

StartsSolid-append : (s t : String) → StartsSolid s → StartsSolid (s ++ t)
StartsSolid-append [] t h = absurd h
StartsSolid-append (c ∷ s) t h = rw cons-append h

-- A word between white space is found by trimming.
pub trim_space-padded :
    (l s r : String) → AllSpace l → IsWord s → AllSpace r → trim_space (l ++ (s ++ r)) ≡ s
unfolding trim_space
trim_space-padded l s r hl w hr =
    ap trim_right (trim_left-append l (s ++ r) hl)
    ∙ ap trim_right (trim_left-eq_self (s ++ r) (StartsSolid-append s r w.solid))
    ∙ trim_right-append s r hr
    ∙ w.trimmed

trim_right-append_right : (s t : String) → t ≢ "" → trim_right t ≡ t → trim_right (s ++ t) ≡ s ++ t
unfolding trim_right
trim_right-append_right [] t n h = rw nil-append h
trim_right-append_right (c ∷ s) t n h =
    rw (cons-append, trim_right-append_right s t n h)
      (ground (arith, eq_iff (s ++ t) "", append-ne-nil_of_right_ne-nil s n))

-- What begins with a word and ends with a word is a word.
pub IsWord-append : (s t u : String) → IsWord s → IsWord u → IsWord (s ++ (t ++ u))
IsWord-append s t u ws wu = record {
  solid = StartsSolid-append s (t ++ u) ws.solid;
  trimmed =
      rw (← append_assoc s t u)
        (trim_right-append_right (s ++ t) u (ne-nil_of_StartsSolid u wu.solid) wu.trimmed);
}

trim_right_idem : (s : String) → trim_right (trim_right s) ≡ trim_right s
unfolding trim_right
trim_right_idem [] = refl
trim_right_idem (c ∷ s) = elim (Bool-cases (is_space (code c) && (trim_right s == ""))) [
  | inl e ↦ rw e
  | inr e ↦ rw e (rw (trim_right_idem s) (rw e))
]

trim_left-cases : (s : String) → (trim_left s ≡ "") ⊎ StartsSolid (trim_left s)
unfolding trim_left
trim_left-cases [] = inl refl
trim_left-cases (c ∷ s) = ground (arith, trim_left-cases s)

trim_right-StartsSolid : (s : String) → StartsSolid s → StartsSolid (trim_right s)
unfolding trim_right
trim_right-StartsSolid [] h = h
trim_right-StartsSolid (c ∷ s) h = rw h h

-- What is left of trimming is a word, unless it is empty.
pub trim_space-IsWord : (s : String) → trim_space s ≢ "" → IsWord (trim_space s)
unfolding trim_space
trim_space-IsWord s n = record {
  solid = elim (trim_left-cases s) [
    | inl e ↦ absurd (n (ap trim_right e))
    | inr h ↦ trim_right-StartsSolid (trim_left s) h
  ];
  trimmed = trim_right_idem (trim_left s);
}

pub trim_space-append_right : (s r : String) → IsWord s → AllSpace r → trim_space (s ++ r) ≡ s
trim_space-append_right s r w h =
    ap trim_space (sym (nil-append (s ++ r))) ∙ trim_space-padded [] s r tt w h

pub trim_space-append_left : (l s : String) → AllSpace l → IsWord s → trim_space (l ++ s) ≡ s
trim_space-append_left l s h w =
    ap (λ t. trim_space (l ++ t)) (sym (append-nil s)) ∙ trim_space-padded l s [] h w tt

-- A text with no white space around it is left as it is.
pub trim_space-eq_self : (s : String) → IsWord s → trim_space s ≡ s
trim_space-eq_self s w = ap trim_space (sym (append-nil s)) ∙ trim_space-append_right s [] w tt

-- ===== src/Telemetry/Headers.antt =====
-- What `parseHeaders` reads: entries between commas, as in the configuration of the workflow apps.
use Prim.Native.String.{String, ◌++◌}
use mathlib.Core.List
use text.Mathlib.TextLemmas.{append_assoc, cons-append}
use dapr_mcp.Base.{
  sym, true, Bool-cases, inl, inr, List, [], ◌∷◌, map, Dict, insert, cut, join, split, ◌≡◌, refl,
  ap, subst, ◌∙◌, All, AllSpace, Lacks-append, Lacks-AllSpace, cut-append, cut-Lacks, split-join,
  trim_space-padded, IsMap, is_space, ◌==◌, arith, eq_iff,
}
use dapr_mcp.Workflow.Config.Entries.{
  Piece, blank, entry, equals, comma, written, pairs, IsPiece, LacksComma-written,
  All-Lacks-written, insert_new, has_key_middle,
}
use dapr_mcp.Telemetry.{add_header, add_headers, parse_headers}

-- The text `""` is split into one pair that is no header.
parse_headers-eq : (raw : String) → parse_headers raw ≡ add_headers (split b',' raw) []
unfolding parse_headers add_headers split cut
parse_headers-eq raw = elim (Bool-cases (raw == "")) [
  | inl h ↦ rw h (ap (λ s. add_headers (split b',' s) []) (sym ((eq_iff raw "").0 h)))
  | inr h ↦ rw h refl
]

cut-written :
    (l id m n addr r : String)
    → IsPiece (entry l id m n addr r)
    → cut b'=' (written (entry l id m n addr r)) ≡ (l ++ (id ++ m), n ++ (addr ++ r), true)
unfolding is_space
cut-written l id m n addr r (hs, hi, ha) =
    simp (append_assoc, cons-append)
      (rw (← append_assoc l id (m ++ (String.◌∷◌ equals (n ++ (addr ++ r))))) (
        rw (← append_assoc (l ++ id) m (String.◌∷◌ equals (n ++ (addr ++ r)))) (
          cut-append b'=' equals ((l ++ id) ++ m) (n ++ (addr ++ r)) refl (
            Lacks-append b'=' (l ++ id) m
              (Lacks-append b'=' l id (Lacks-AllSpace b'=' l refl hs.0) hi.1)
              (Lacks-AllSpace b'=' m refl hs.1))
          ∙ ap (λ s. (s, n ++ (addr ++ r), true)) (append_assoc l id m))))

add_header-written :
    (l id m n addr r : String) (headers : Dict String)
    → IsPiece (entry l id m n addr r)
    → add_header (cut b'=' (written (entry l id m n addr r))) headers ≡ insert id addr headers
add_header-written l id m n addr r headers h = ground (
  arith,
  cut-written l id m n addr r h,
  trim_space-padded l id m h.0.0 h.1.0 h.0.1,
  trim_space-padded n addr r h.0.2 h.2.0 h.0.3,
)

-- White space alone has no `=` and is no header.
add_header-blank :
    (l : String) (headers : Dict String) → AllSpace l → add_header (cut b'=' l) headers ≡ headers
unfolding is_space
add_header-blank l headers h =
    ap (λ c. add_header c headers) (cut-Lacks b'=' l (Lacks-AllSpace b'=' l refl h))

add_headers-written :
    (ps : List Piece) (headers : Dict String)
    → All IsPiece ps
    → IsMap (List.◌++◌ headers (pairs ps))
    → add_headers (map written ps) headers ≡ List.◌++◌ headers (pairs ps)
unfolding add_headers
add_headers-written [] headers h d = sym (List.append-nil headers)
add_headers-written (blank l ∷ ps) headers h d =
    ap (λ m. add_headers (map written ps) m) (add_header-blank l headers h.0)
    ∙ add_headers-written ps headers h.1 d
add_headers-written (entry l id m n addr r ∷ ps) headers h d =
    let shift : List.◌++◌ (List.◌++◌ headers ((id, addr) ∷ [])) (pairs ps)
        ≡ List.◌++◌ headers ((id, addr) ∷ pairs ps) =
      List.append_assoc headers ((id, addr) ∷ []) (pairs ps) in
    let added : add_header (cut b'=' (written (entry l id m n addr r))) headers
        ≡ List.◌++◌ headers ((id, addr) ∷ []) =
      add_header-written l id m n addr r headers h.0
      ∙ insert_new id addr headers (has_key_middle id addr headers (pairs ps) d) in
    ap (λ hs. add_headers (map written ps) hs) added
    ∙ add_headers-written ps (List.◌++◌ headers ((id, addr) ∷ [])) h.1 (subst IsMap (sym shift) d)
    ∙ shift

-- Headers that are written as `key=value` with commas between them are read back in their order.
-- Each piece is such an entry or blank; white space may stand around an entry, its key and its
-- value. Keys and values are not empty, have no white space at their ends and hold no comma; a key
-- holds no `=`, and none is given twice.
pub parse_headers-written :
    (p : Piece) (ps : List Piece)
    → All IsPiece (p ∷ ps)
    → IsMap (pairs (p ∷ ps))
    → parse_headers (join (map written (p ∷ ps)) ",") ≡ pairs (p ∷ ps)
parse_headers-written p ps h d =
    parse_headers-eq (join (map written (p ∷ ps)) ",")
    ∙ ap (λ parts. add_headers parts [])
        (split-join b',' comma (written p) (map written ps) refl (LacksComma-written p h.0)
          (All-Lacks-written ps h.1))
    ∙ add_headers-written (p ∷ ps) [] h d

-- ===== src/Workflow/Config/Entries.antt =====
-- What `ParseAppsConfig` accepts: the pairs that were written come back, whatever the white space
-- around them and however many empty entries stand between them.
use Prim.Native.Char.{Char}
use Prim.Native.String.{String, ◌++◌}
use mathlib.Core.List
use text.Mathlib.TextLemmas.{append_assoc, cons-append}
use dapr_mcp.Base.{
  sym, true, false, List, [], ◌∷◌, map, Dict, has_key, keys, insert, mem, cut, join, ok, ◌≡◌, ◌≢◌,
  refl, ap, subst, All, AllSpace, IsWord, Lacks, Lacks-append, Lacks-AllSpace, cut-append,
  split-join, trim_space-padded, trim_space-append_left, trim_space-append_right,
  trim_space-AllSpace, IsWord-append, arith, eq_iff, ne-nil_of_StartsSolid, IsMap, is_space,
}
use dapr_mcp.Workflow.Config.{add_entry, parse_entries, parse_apps_config}

-- One piece between commas: white space alone, or an entry with white space around its parts.
pub data Piece : Type 0 where
  blank : String → Piece
  entry : (l id m n addr r : String) → Piece

abbrev pub equals : Char
equals = "="

abbrev pub comma : Char
comma = ","

-- An entry without the white space around it.
abbrev pub core : (id m n addr : String) → String
core id m n addr = id ++ ((m ++ (String.◌∷◌ equals n)) ++ addr)

abbrev pub written : Piece → String
written (blank l) = l
written (entry l id m n addr r) = l ++ (core id m n addr ++ r)

abbrev pub pairs : List Piece → Dict String
pairs [] = []
pairs (blank l ∷ ps) = pairs ps
pairs (entry l id m n addr r ∷ ps) = (id, addr) ∷ pairs ps

abbrev pub IsPiece : Piece → Type 0
IsPiece (blank l) = AllSpace l
IsPiece (entry l id m n addr r) =
    (AllSpace l × AllSpace m × AllSpace n × AllSpace r)
    × (IsWord id × Lacks b'=' id × Lacks b',' id)
    × (IsWord addr × Lacks b',' addr)

abbrev pub LacksComma : String → Type 0
LacksComma = Lacks b','

pub LacksComma-written : (p : Piece) → IsPiece p → LacksComma (written p)
unfolding is_space
LacksComma-written (blank l) h = Lacks-AllSpace b',' l refl h
LacksComma-written (entry l id m n addr r) (hs, hi, ha) =
    let join_lack = Lacks-append b',' in
    let space_lack = λ (s : String) (h : AllSpace s). Lacks-AllSpace b',' s refl h in
    join_lack l (core id m n addr ++ r) (space_lack l hs.0) (
      join_lack (core id m n addr) r
        (join_lack id _ hi.2 (
          join_lack (m ++ (String.◌∷◌ equals n)) addr
            (join_lack m (String.◌∷◌ equals n) (space_lack m hs.1) (omega arith, space_lack n hs.2))
            ha.1))
        (space_lack r hs.3))

pub insert_new {ℓ} :
    {V : Type ℓ} (k : String) (v : V) (m : Dict V)
    → has_key k m ≡ false
    → insert k v m ≡ List.◌++◌ m ((k, v) ∷ [])
insert_new k v [] h = refl
insert_new k v ((j, w) ∷ m) h = ground (arith, insert_new k v m)

cut-core :
    (id m n addr : String)
    → Lacks b'=' id
    → AllSpace m
    → cut b'=' (core id m n addr) ≡ (id ++ m, n ++ addr, true)
unfolding is_space
cut-core id m n addr h k =
    simp (append_assoc, cons-append)
      (rw (← append_assoc id m (String.◌∷◌ equals (n ++ addr))) (
        cut-append b'=' equals (id ++ m) (n ++ addr) refl
          (Lacks-append b'=' id m h (Lacks-AllSpace b'=' m refl k))))

add_entry-core :
    (l id m n addr r : String) (apps : Dict String)
    → IsPiece (entry l id m n addr r)
    → has_key id apps ≡ false
    → add_entry (core id m n addr) apps ≡ ok (List.◌++◌ apps ((id, addr) ∷ []))
unfolding add_entry
add_entry-core l id m n addr r apps (hs, hi, ha) new = ground (
  arith,
  cut-core id m n addr hi.1 hs.1,
  trim_space-append_right id m hi.0 hs.1,
  trim_space-append_left n addr hs.2 ha.0,
  insert_new id addr apps new,
  eq_iff id "",
  eq_iff addr "",
  ne-nil_of_StartsSolid id hi.0.solid,
  ne-nil_of_StartsSolid addr ha.0.solid,
)

mem_middle {ℓ} :
    {V : Type ℓ} (j k : String) (v : V) (m n : Dict V)
    → mem j (keys (List.◌++◌ m ((k, v) ∷ n))) ≡ false
    → j ≢ k
mem_middle j k v [] n h = ground (arith, eq_iff j k)
mem_middle j k v ((i, w) ∷ m) n h = mem_middle j k v m n (ground arith)

pub has_key_middle {ℓ} :
    {V : Type ℓ} (k : String) (v : V) (m n : Dict V)
    → IsMap (List.◌++◌ m ((k, v) ∷ n))
    → has_key k m ≡ false
has_key_middle k v [] n h = refl
has_key_middle k v ((j, w) ∷ m) n h =
    ground (arith, eq_iff j k, eq_iff k j, mem_middle j k v m n, has_key_middle k v m n h.1)

parse_entries-written :
    (ps : List Piece) (apps : Dict String)
    → All IsPiece ps
    → IsMap (List.◌++◌ apps (pairs ps))
    → parse_entries (map written ps) apps ≡ ok (List.◌++◌ apps (pairs ps))
unfolding parse_entries
parse_entries-written [] apps h d = ap ok (sym (List.append-nil apps))
parse_entries-written (blank l ∷ ps) apps h d =
    rw (trim_space-AllSpace l h.0) (parse_entries-written ps apps h.1 d)
parse_entries-written (entry l id m n addr r ∷ ps) apps h d =
    let apps' = List.◌++◌ apps ((id, addr) ∷ []) in
    let shift : List.◌++◌ apps' (pairs ps) ≡ List.◌++◌ apps ((id, addr) ∷ pairs ps) =
      List.append_assoc apps ((id, addr) ∷ []) (pairs ps) in
    let word = IsWord-append id (m ++ (String.◌∷◌ equals n)) addr h.0.1.0 h.0.2.0 in
    ground (
      arith,
      shift,
      trim_space-padded l (core id m n addr) r h.0.0.0 word h.0.0.3,
      ne-nil_of_StartsSolid (core id m n addr) word.solid,
      eq_iff (core id m n addr) "",
      add_entry-core l id m n addr r apps h.0 (has_key_middle id addr apps (pairs ps) d),
      parse_entries-written ps apps' h.1 (subst IsMap (sym shift) d),
    )

pub All-Lacks-written : (ps : List Piece) → All IsPiece ps → All LacksComma (map written ps)
All-Lacks-written [] h = tt
All-Lacks-written (p ∷ ps) h = (LacksComma-written p h.0, All-Lacks-written ps h.1)

-- Pairs of app-id and address that are written one after the other with commas between them are
-- read back in their order. Each piece is an entry `id=addr` or blank; white space may stand around
-- an entry, its app-id and its address. The app-ids and addresses are not empty, have no white
-- space at their ends and hold no comma; an app-id holds no `=`, and none is given twice.
pub parse_apps_config-written :
    (p : Piece) (ps : List Piece)
    → All IsPiece (p ∷ ps)
    → IsMap (pairs (p ∷ ps))
    → parse_apps_config (join (map written (p ∷ ps)) ",") ≡ ok (pairs (p ∷ ps))
unfolding parse_apps_config
parse_apps_config-written p ps h d =
    rw
      (split-join b',' comma (written p) (map written ps) refl (LacksComma-written p h.0)
        (All-Lacks-written ps h.1))
      (parse_entries-written (p ∷ ps) [] h d)

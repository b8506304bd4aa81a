-- ===== src/Workflow/Config/Sound.antt =====
-- What `ParseAppsConfig` guarantees of every map that it returns.
use dapr_mcp.Base.{
  String, List, [], ◌∷◌, Dict, insert, cut, trim_space, split, ok, ◌==◌, ◌≡◌, ◌≢◌, sym, subst, All,
  IsWord, arith, eq_iff, IsMap, trim_space-IsWord, Result-cases, Bool-cases, insert-IsMap, inl, inr,
}
use dapr_mcp.Workflow.Config.{add_entry, parse_entries, parse_apps_config}

abbrev pub IsAppPair : String × String → Type 0
IsAppPair a = IsWord a.0 × IsWord a.1

-- Each app-id once, and app-ids and addresses that are not empty and have no white space at their
-- ends.
pub record IsApps (m : Dict String) : Type 0 where
  pub is_map : IsMap m
  pub words : All IsAppPair m

insert-words :
    (k v : String) (m : Dict String)
    → IsAppPair (k, v)
    → All IsAppPair m
    → All IsAppPair (insert k v m)
insert-words k v [] p h = (p, tt)
insert-words k v ((j, w) ∷ m) p h = elim (Bool-cases (k == j)) [
  | inl e ↦ rw e (p, h.1)
  | inr e ↦ rw e (h.0, insert-words k v m p h.1)
]

add_entry_inv :
    (s : String) (m n : Dict String)
    → add_entry s m ≡ ok n
    → (n ≡ insert (trim_space (cut b'=' s).0) (trim_space (cut b'=' s).1) m)
      × (trim_space (cut b'=' s).0 ≢ "")
      × (trim_space (cut b'=' s).1 ≢ "")
unfolding add_entry
add_entry_inv s m n e =
    ground (arith, eq_iff (trim_space (cut b'=' s).0) "", eq_iff (trim_space (cut b'=' s).1) "")

add_entry-IsApps : (s : String) (m n : Dict String) → add_entry s m ≡ ok n → IsApps m → IsApps n
add_entry-IsApps s m n e h =
    let (same, id, addr) = add_entry_inv s m n e in
    subst IsApps (sym same) (record {
      is_map = insert-IsMap _ _ m h.is_map;
      words = insert-words _ _ m (trim_space-IsWord _ id, trim_space-IsWord _ addr) h.words;
    })

parse_entries-IsApps :
    (ss : List String) (m n : Dict String) → parse_entries ss m ≡ ok n → IsApps m → IsApps n
unfolding parse_entries
parse_entries-IsApps [] m n e h = subst IsApps (cc) h
parse_entries-IsApps (s ∷ ss) m n e h = elim (Bool-cases (trim_space s == "")) [
  | inl blank ↦ parse_entries-IsApps ss m n (ground arith) h
  | inr entry ↦ elim (Result-cases (add_entry (trim_space s) m)) [
    | inl (m', added) ↦
        parse_entries-IsApps ss m' n (ground arith) (add_entry-IsApps (trim_space s) m m' added h)
    | inr (reason, failed) ↦ absurd (ground arith)
  ]
]

-- Whatever the text, a map that is returned has distinct app-ids, and its app-ids and addresses are
-- not empty and have no white space at their ends.
pub parse_apps_config-IsApps :
    (raw : String) (m : Dict String) → parse_apps_config raw ≡ ok m → IsApps m
unfolding parse_apps_config
parse_apps_config-IsApps raw m e =
    parse_entries-IsApps (split b',' raw) [] m e (record { is_map = tt; words = tt })

-- ===== src/Server/Offered/Each.antt =====
-- What holds of every tool of every package holds of every tool that is offered.
use dapr_mcp.Base.{
  ℕ, zero, suc, String, Bool, List, [], ◌∷◌, ◌++◌, Dict, Option, some, none, All, All-append,
  get_elem?, has_key, Bool-cases, inl, inr, ◌≡◌, subst,
}
use dapr_mcp.Registration.Tool.{Tool}
use dapr_mcp.Server.Components.{
  registered_packages, core_packages, conditional_packages, present, component_presence,
}
use dapr_mcp.Server.Offered.{Services, register_tools, register_all, offered_tools}

module _ {W : Type 0} (P : Tool W → Type 0) where
  abbrev HoldsIfAny : Option (Tool W) → Type 0
  HoldsIfAny none = Unit
  HoldsIfAny (some t) = P t

  HoldsIfAny-get_elem? : (ts : List (Tool W)) (i : ℕ) → All P ts → HoldsIfAny (get_elem? ts i)
  HoldsIfAny-get_elem? [] i h = tt
  HoldsIfAny-get_elem? (t ∷ ts) zero h = h.0
  HoldsIfAny-get_elem? (t ∷ ts) (suc i) h = HoldsIfAny-get_elem? ts i h.1

module _ {F W : Type 0} (s : Services F W) (P : Tool W → Type 0) where
  All-append_left : (xs ys : List (Tool W)) → All P (xs ++ ys) → All P xs × All P ys
  All-append_left [] ys h = (tt, h)
  All-append_left (x ∷ xs) ys h =
      let (left, right) = All-append_left xs ys h.1 in ((h.0, left), right)

  All-register_present :
      (kinds : List String) (m : Dict Bool)
      → All P (register_all s kinds)
      → All P (register_all s (present kinds m))
  unfolding present
  All-register_present [] m h = tt
  All-register_present (kind ∷ kinds) m h =
      let (here, later) = All-append_left (register_tools s kind) (register_all s kinds) h in
      let rest = All-register_present kinds m later in
      elim (Bool-cases (has_key kind m)) [
        | inl e ↦
            rw e (All-append P (register_tools s kind) (register_all s (present kinds m)) here rest)
        | inr e ↦ rw e rest
      ]

  register_all-append :
      (xs ys : List String)
      → All P (register_all s xs)
      → All P (register_all s ys)
      → All P (register_all s (xs ++ ys))
  register_all-append [] ys h k = k
  register_all-append (x ∷ xs) ys h k =
      let (here, later) = All-append_left (register_tools s x) (register_all s xs) h in
      All-append P (register_tools s x) (register_all s (xs ++ ys)) here
        (register_all-append xs ys later k)

  pub each_offered :
      (types : List String) (i : ℕ) (t : Tool W)
      → All P (register_all s core_packages)
      → All P (register_all s conditional_packages)
      → get_elem? (offered_tools s types) i ≡ some t
      → P t
  unfolding offered_tools registered_packages
  each_offered types i t core conditional e =
      let kinds = present conditional_packages (component_presence types []) in
      let all =
        register_all-append core_packages kinds core
          (All-register_present conditional_packages (component_presence types []) conditional) in
      subst (HoldsIfAny P) e
        (HoldsIfAny-get_elem? P (register_all s (core_packages ++ kinds)) i all)

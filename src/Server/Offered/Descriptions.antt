-- ===== src/Server/Offered/Descriptions.antt =====
-- What the descriptions of the tools say beside their annotations.
use dapr_mcp.Base.{
  ℕ, String, Bool, false, not, ◌&&◌, ◌||◌, List, Option, some, none, All, get_elem?, contains,
  has_prefix, format, ◌≡◌, refl,
}
use dapr_mcp.Registration.Tool.{Tool}
use dapr_mcp.Server.Components.{core_packages, conditional_packages}
use dapr_mcp.Server.Offered.{Services, register_tools, register_all, offered_tools}
use dapr_mcp.Server.Offered.Each.{each_offered}
use dapr_mcp.Server.Offered.ReadOnly.{◌&◌}

abbrev is_set : Option Bool → Bool
is_set none = false
is_set (some b) = b

abbrev pub says : {W : Type 0} → Tool W → String → Bool
says t word = contains t.description word

-- A tool is read-only exactly if its text names neither a side effect nor destruction; the text does
-- not deny or claim idempotence against the annotation, and a destructive tool is annotated so.
abbrev pub Agrees : {W : Type 0} → Tool W → Type 0
Agrees t =
    (t.annotations.read_only_hint ≡ not (says t "SIDE-EFFECT" || says t "DESTRUCTIVE"))
    × ((says t "NOT IDEMPOTENT" && t.annotations.idempotent_hint) ≡ false)
    × ((says t "IS IDEMPOTENT" && not t.annotations.idempotent_hint) ≡ false)
    × ((says t "DESTRUCTIVE" && not (is_set t.annotations.destructive_hint)) ≡ false)

module _ {F W : Type 0} (s : Services F W) where
  All-Agrees-core : All Agrees (register_all s core_packages)
  unfolding register_tools contains has_prefix format
  All-Agrees-core =
      (refl, refl, refl, refl)
      & (refl, refl, refl, refl)
      & (refl, refl, refl, refl)
      & (refl, refl, refl, refl)
      & (refl, refl, refl, refl)
      & (refl, refl, refl, refl)
      & (refl, refl, refl, refl)
      & (refl, refl, refl, refl)
      & (refl, refl, refl, refl)
      & (refl, refl, refl, refl)
      & (refl, refl, refl, refl)
      & (refl, refl, refl, refl)
      & (refl, refl, refl, refl)
      & tt

  All-Agrees-conditional : All Agrees (register_all s conditional_packages)
  unfolding register_tools contains has_prefix format
  All-Agrees-conditional =
      (refl, refl, refl, refl)
      & (refl, refl, refl, refl)
      & (refl, refl, refl, refl)
      & (refl, refl, refl, refl)
      & (refl, refl, refl, refl)
      & (refl, refl, refl, refl)
      & (refl, refl, refl, refl)
      & (refl, refl, refl, refl)
      & (refl, refl, refl, refl)
      & (refl, refl, refl, refl)
      & (refl, refl, refl, refl)
      & (refl, refl, refl, refl)
      & (refl, refl, refl, refl)
      & (refl, refl, refl, refl)
      & (refl, refl, refl, refl)
      & tt

  -- The annotations of every offered tool agree with the words of its description: a tool is
  -- annotated as read-only exactly if the description has neither of the words SIDE-EFFECT and
  -- DESTRUCTIVE; one that says NOT IDEMPOTENT is not annotated as idempotent, one that says IS
  -- IDEMPOTENT is, and one that says DESTRUCTIVE is annotated as destructive.
  pub offered_tools-Agrees :
      (types : List String) (i : ℕ) (t : Tool W)
      → get_elem? (offered_tools s types) i ≡ some t
      → Agrees t
  offered_tools-Agrees types i t =
      each_offered s Agrees types i t All-Agrees-core All-Agrees-conditional

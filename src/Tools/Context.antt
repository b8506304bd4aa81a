-- ===== src/Tools/Context.antt =====
-- The metadata that reaches a secret store or a binding.
use dapr_mcp.Base.{
  String, [], ◌∷◌, Dict, lookup, insert, has_key, IsMap, if◌then◌else◌, ◌≡◌, refl, arith, eq_iff,
  lookup-insert, lookup-eq-none,
}
use dapr_mcp.Mcp.{Inject, copy_into, with_context}

-- `Inject` sets the entries of the trace context and leaves the others.
abbrev pub Injects : Dict String → Inject → Type 0
Injects trace inject =
    (k : String) (m : Dict String)
    → lookup k (inject m) ≡ (if has_key k trace then lookup k trace else lookup k m)

lookup-copy_into :
    (k : String) (m out : Dict String)
    → IsMap m
    → lookup k (copy_into m out) ≡ (if has_key k m then lookup k m else lookup k out)
unfolding copy_into
lookup-copy_into k [] out h = refl
lookup-copy_into k ((j, v) ∷ m) out h = ground (
  arith,
  eq_iff k j,
  lookup-copy_into k m (insert j v out) h.1,
  lookup-insert j k v out,
  lookup-eq-none k m,
)

-- A request to a secret store or a binding carries the entries of the trace context, and at every
-- other key what the user's metadata has there, if the user's metadata is a map and `Inject` sets
-- the entries of the trace context.
pub lookup-with_context :
    (trace : Dict String) (inject : Inject)
    → Injects trace inject
    → (metadata : Dict String) → IsMap metadata
    → (k : String)
    → lookup k (with_context inject metadata)
      ≡ (if has_key k trace then lookup k trace else lookup k metadata)
unfolding with_context
lookup-with_context trace inject h metadata g k = ground (
  arith,
  h k (copy_into metadata []),
  lookup-copy_into k metadata [] g,
  lookup-eq-none k metadata,
)

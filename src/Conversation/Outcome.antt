-- ===== src/Conversation/Outcome.antt =====
-- What `converse_with_llm` sends, and how its call ends.
use dapr_mcp.Base.{
  String, Bool, true, false, not, Bool-cases, inl, inr, ◌⊎◌, Option, none, some, List, [], ◌∷◌,
  Result, ok, err, ◌≡◌, ◌≢◌, refl, arith, ◌==◌, eq_iff,
}
use dapr_mcp.Mcp.{unless_empty, ToolResult, Act, answer, continue, wrap_error}
use dapr_mcp.Mcp.Outcomes.{IfOk}
use dapr_mcp.Conversation.{
  ConverseArgs, ConversationRequest, ConversationResponse, ConversationClient, Temperatures,
  Printing, Choice, context_of, converse_request, converse_tool, converse_in, last_output,
  or_default_session, choices_result,
}

-- Does the response answer: has its last output a choice?
abbrev pub has_choice : Option (List Choice) → Bool
has_choice none = false
has_choice (some []) = false
has_choice (some (c ∷ cs)) = true

unfoldable pub answers : Result String ConversationResponse → Bool
unfolding last_output
answers (ok resp) = has_choice (last_output resp)
answers (err e) = false

-- A request with a context ID and a temperature that is not zero.
abbrev pub IsComplete : {F : Type 0} → Temperatures F → ConversationRequest F → Type 0
IsComplete t r =
    (t.is_zero r.temperature ≡ false) × ((id : String) × (r.context_id ≡ some id) × (id ≢ ""))

-- One call with the outcome `m`, and an error exactly if that is no answer.
abbrev pub Reports : {W : Type 0} → Result String ConversationResponse × W → ToolResult × W → Type 0
Reports m r = (r.1 ≡ m.1) × (r.0.is_error ≡ not (answers m.0))

module _ {W : Type 0} (json : Printing) (name : String) (message : String → String) where
  reports_choices :
      (resp : ConversationResponse) (choices : Option (List Choice)) (w : W)
      → ((answer (choices_result json name resp choices w)).1 ≡ w)
        × ((answer (choices_result json name resp choices w)).0.is_error ≡ not (has_choice choices))
  unfolding choices_result
  reports_choices resp none w = (refl, refl)
  reports_choices resp (some []) w = (refl, refl)
  reports_choices resp (some (c ∷ cs)) w = (refl, refl)

  reports :
      (m : Result String ConversationResponse × W)
      → Reports m (
          answer (
            continue
              (λ resp. choices_result json name resp (last_output resp))
              (wrap_error message m)))
  unfolding answers
  reports (ok resp, w) = reports_choices resp (last_output resp) w
  reports (err e, w) = (refl, refl)

module _ {F W : Type 0} (t : Temperatures F) (json : Printing) (new_random : Act W String) where
  pub converse_tool-Reports :
      (client : ConversationClient F W) (args : ConverseArgs F) (w : W)
      → let context = context_of new_random args.context_id w in
        Reports
          (client.converse_alpha2 (converse_request t args context.0) context.1)
          (converse_tool t json new_random client args w)
  unfolding converse_tool converse_in
  converse_tool-Reports client args w =
      let context = context_of new_random args.context_id w in
      reports json args.name _
        (client.converse_alpha2 (converse_request t args context.0) context.1)

  context_new :
      (r : Result String String × W) → IfOk (λ id. id ≢ "") r → (or_default_session r).0 ≢ ""
  context_new (ok id, w) h = h
  context_new (err e, w) h = λ e. cc

  context_given :
      (id : String) (w : W)
      → IfOk (λ id. id ≢ "") (new_random w)
      → (context_of new_random id w).0 ≢ ""
  unfolding context_of
  context_given id w h = elim (Bool-cases (id == "")) [
    | inl e ↦ rw e (context_new (new_random w) h)
    | inr e ↦ rw e (λ k. ground (arith, eq_iff id ""))
  ]

  pub converse_request-IsComplete :
      t.is_zero t.default ≡ false
      → (args : ConverseArgs F) (w : W) → IfOk (λ id. id ≢ "") (new_random w)
      → IsComplete t (converse_request t args (context_of new_random args.context_id w).0)
  unfolding converse_request context_of
  converse_request-IsComplete h args w g =
      let id = (context_of new_random args.context_id w).0 in
      let given : id ≢ "" = context_given args.context_id w g in
      let sent : unless_empty id ≡ some id = ground (arith, eq_iff id "", given) in
      (ground arith, (id, sent, given))

  -- How the context ID comes about: a given one is passed on, and no random one is made; otherwise
  -- it is a random one, or the default session if none can be made.
  pub data Chooses (given : String) (w : W) : String → W → Type 0 where
    kept : given ≢ "" → Chooses given w given w
    made : (id : String) (v : W) → given ≡ "" → new_random w ≡ (ok id, v) → Chooses given w id v
    not_made :
        (e : String) (v : W)
        → given ≡ ""
        → new_random w ≡ (err e, v)
        → Chooses given w "default-session-id" v

  Chooses-or_default_session :
      (given : String) (w : W) (x : Result String String × W)
      → given ≡ ""
      → new_random w ≡ x
      → Chooses given w (or_default_session x).0 (or_default_session x).1
  Chooses-or_default_session given w (ok id, v) g e = made id v g e
  Chooses-or_default_session given w (err m, v) g e = not_made m v g e

  Chooses-context_of :
      (given : String) (w : W)
      → Chooses given w (context_of new_random given w).0 (context_of new_random given w).1
  unfolding context_of
  Chooses-context_of given w = elim (Bool-cases (given == "")) [
    | inl e ↦ rw e (Chooses-or_default_session given w (new_random w) ((eq_iff given "").0 e) refl)
    | inr e ↦ rw e (kept (λ k. ground (arith, eq_iff given "")))
  ]

  -- The temperature of the arguments, or the default in place of zero.
  abbrev pub Warms : F → F → Type 0
  Warms given sent =
      ((t.is_zero given ≡ false) × (sent ≡ given)) ⊎ ((t.is_zero given ≡ true) × (sent ≡ t.default))

  Warms-converse_request :
      (args : ConverseArgs F) (id : String)
      → Warms args.temperature (converse_request t args id).temperature
  unfolding converse_request
  Warms-converse_request args id = elim (Bool-cases (t.is_zero args.temperature)) [
    | inl e ↦ inr (e, rw e refl)
    | inr e ↦ inl (e, rw e refl)
  ]

  -- The request that is sent, for the arguments and the context ID.
  pub record IsRequest (args : ConverseArgs F) (id : String) (r : ConversationRequest F)
      : Type 0 where
    pub name : r.name ≡ args.name
    pub prompt : r.prompt ≡ args.prompt
    pub context : r.context_id ≡ some id
    pub scrub : r.scrub_pii ≡ false
    pub temperature : Warms args.temperature r.temperature

  -- If the default temperature is not zero and random UUIDs are not empty: the tool chooses a context
  -- ID, the given one if it is not empty, and then makes one call of the model. The request has the
  -- given name and prompt, that context ID, and the given temperature, or the default if that is zero,
  -- so a temperature of zero is never sent. The world is left as that call leaves it, and the tool
  -- reports an error exactly when the call fails or when the response has no outputs or no choices in
  -- the last of them.
  pub converse_tool-Asks :
      t.is_zero t.default ≡ false
      → (client : ConversationClient F W) (args : ConverseArgs F) (w : W)
      → IfOk (λ id. id ≢ "") (new_random w)
      → (r : ConversationRequest F) × (id : String) × (v : W) × Chooses args.context_id w id v
        × IsRequest args id r
        × IsComplete t r
        × Reports (client.converse_alpha2 r v) (converse_tool t json new_random client args w)
  unfolding converse_request
  converse_tool-Asks h client args w g =
      let context = context_of new_random args.context_id w in
      let given : context.0 ≢ "" = context_given args.context_id w g in
      (
        converse_request t args context.0,
        context.0,
        context.1,
        Chooses-context_of args.context_id w,
        record {
          name = refl;
          prompt = refl;
          context = ground (arith, eq_iff context.0 "", given);
          scrub = refl;
          temperature = Warms-converse_request args context.0;
        },
        converse_request-IsComplete h args w g,
        converse_tool-Reports client args w,
      )

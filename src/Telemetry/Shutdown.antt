-- ===== src/Telemetry/Shutdown.antt =====
-- The providers that `Init` starts, and their end.
use dapr_mcp.Base.{
  String, Bool-cases, subst, ◌==◌, inl, inr, Option, none, some, List, [], ◌∷◌, ◌++◌, map, Dict,
  Result, ok, err, ◌≡◌, refl, sym, ap, ◌∙◌, arith, ◌↔◌,
}
use mathlib.Core.List
use dapr_mcp.Telemetry.{
  Config, Telemetry, Otel, Shutdown, init, init_tracer, init_metrics, new_exporter, with_tracer,
  with_meter, no_telemetry, clean_endpoint, http_endpoint, or_without, then_metrics, shut_down,
  shut_down_from, note_error, shutdown_of, initialize, default_config,
}

-- The world after all functions, and whether all of them succeed.
abbrev pub run_all : {W : Type 0} → List (Shutdown W) → W → W
run_all [] w = w
run_all (stop ∷ stops) w = run_all stops (stop w).1

abbrev pub AllStop : {W : Type 0} → List (Shutdown W) → W → Type 0
AllStop [] w = Unit
AllStop (stop ∷ stops) w = ((stop w).0 ≡ none) × AllStop stops (stop w).1

-- `providers` shows the providers that were set for the process: setting one adds it, and a new
-- exporter sets none.
pub record TracksProviders {W P : Type 0} (otel : Otel W P) (providers : W → List P) : Type 0 where
  pub propagator : (w : W) → providers (otel.set_propagator w) ≡ providers w
  pub trace_grpc :
      (endpoint : String) (headers : Dict String) (w : W)
      → providers (otel.new_trace_grpc endpoint headers w).1 ≡ providers w
  pub trace_http :
      (endpoint : String) (headers : Dict String) (w : W)
      → providers (otel.new_trace_http endpoint headers w).1 ≡ providers w
  pub metric_grpc :
      (endpoint : String) (headers : Dict String) (w : W)
      → providers (otel.new_metric_grpc endpoint headers w).1 ≡ providers w
  pub tracer : (p : P) (w : W) → providers (otel.set_tracer_provider p w) ≡ providers w ++ p ∷ []
  pub meter : (p : P) (w : W) → providers (otel.set_meter_provider p w) ≡ providers w ++ p ∷ []

shut_down_from-run_all :
    {W : Type 0} (stops : List (Shutdown W)) (last : Option String) (w : W)
    → (shut_down_from stops last w).1 ≡ run_all stops w
unfolding shut_down_from
shut_down_from-run_all [] last w = refl
shut_down_from-run_all (stop ∷ stops) last w =
    shut_down_from-run_all stops (note_error last (stop w).0) (stop w).1

note_error-some : (e : String) (o : Option String) → (x : String) × (note_error (some e) o ≡ some x)
note_error-some e none = (e, refl)
note_error-some e (some x) = (x, refl)

-- An error is never forgotten.
shut_down_from-some :
    {W : Type 0} (stops : List (Shutdown W)) (e : String) (w : W)
    → (x : String) × ((shut_down_from stops (some e) w).0 ≡ some x)
unfolding shut_down_from
shut_down_from-some [] e w = (e, refl)
shut_down_from-some (stop ∷ stops) e w =
    let (y, k) = note_error-some e (stop w).0 in
    subst (λ o. (x : String) × ((shut_down_from stops o (stop w).1).0 ≡ some x)) (sym k)
      (shut_down_from-some stops y (stop w).1)

note_error-none :
    {W : Type 0} (stops : List (Shutdown W)) (o : Option String) (w : W)
    → ((shut_down_from stops none w).0 ≡ none → AllStop stops w)
    → (shut_down_from stops (note_error none o) w).0 ≡ none
    → (o ≡ none) × AllStop stops w
note_error-none stops none w next h = (refl, next h)
note_error-none stops (some e) w next h = absurd (cc (shut_down_from-some stops e w).1)

shut_down_from-none :
    {W : Type 0} (stops : List (Shutdown W)) (w : W)
    → (shut_down_from stops none w).0 ≡ none
    → AllStop stops w
unfolding shut_down_from
shut_down_from-none [] w h = tt
shut_down_from-none (stop ∷ stops) w h =
    note_error-none stops (stop w).0 (stop w).1 (shut_down_from-none stops (stop w).1) h

shut_down_from-AllStop :
    {W : Type 0} (stops : List (Shutdown W)) (w : W)
    → AllStop stops w
    → (shut_down_from stops none w).0 ≡ none
unfolding shut_down_from
shut_down_from-AllStop [] w h = refl
shut_down_from-AllStop (stop ∷ stops) w h =
    subst (λ o. (shut_down_from stops (note_error none o) (stop w).1).0 ≡ none) (sym h.0)
      (shut_down_from-AllStop stops (stop w).1 h.1)

shut_down-run_all :
    {W P : Type 0} (t : Telemetry W P) (w : W)
    → ((shut_down t w).1 ≡ run_all t.shutdown w)
      × (((shut_down t w).0 ≡ none) ↔ AllStop t.shutdown w)
unfolding shut_down
shut_down-run_all t w = (
  shut_down_from-run_all t.shutdown none w,
  (shut_down_from-none t.shutdown w, shut_down_from-AllStop t.shutdown w),
)

module _ {W P : Type 0} (otel : Otel W P) (providers : W → List P)
    (laws : TracksProviders otel providers) where
  -- The providers that a start has set are those whose shutdown it keeps.
  abbrev Sets : List P → Result String (Telemetry W P) × W → Type 0
  Sets before (err e, w) = providers w ≡ before
  Sets before (ok t, w) =
      (ps : List P) × (providers w ≡ before ++ ps) × (t.shutdown ≡ map otel.stop ps)

  providers-new_exporter :
      (cfg : Config) (w : W) → providers (new_exporter otel cfg w).1 ≡ providers w
  unfolding new_exporter
  providers-new_exporter cfg w = ground (
    arith,
    laws.trace_grpc (clean_endpoint cfg.endpoint) cfg.headers w,
    laws.trace_http (http_endpoint cfg.endpoint) cfg.headers w,
  )

  Sets-with_tracer :
      (before : List P) (r : Result String P × W)
      → providers r.1 ≡ before
      → Sets before (with_tracer otel no_telemetry r)
  Sets-with_tracer before (err e, w) h = h
  Sets-with_tracer before (ok p, w) h = (p ∷ [], laws.tracer p w ∙ ap (λ ps. ps ++ p ∷ []) h, refl)

  Sets-init_tracer :
      (cfg : Config) (w : W) → Sets (providers w) (init_tracer otel no_telemetry cfg w)
  unfolding init_tracer
  Sets-init_tracer cfg w =
      Sets-with_tracer (providers w) (new_exporter otel cfg w) (providers-new_exporter cfg w)

  -- Metrics that fail to start leave the telemetry as it was.
  Sets-or_without :
      (before ps : List P) (t : Telemetry W P) (r : Result String P × W)
      → providers r.1 ≡ before ++ ps
      → t.shutdown ≡ map otel.stop ps
      → Sets before (or_without otel t (with_meter otel t r))
  Sets-or_without before ps t (err e, w) h k = (ps, h, k)
  Sets-or_without before ps t (ok p, w) h k = (
    ps ++ p ∷ [],
    laws.meter p w ∙ ap (λ qs. qs ++ p ∷ []) h ∙ List.append_assoc before ps (p ∷ []),
    ap (λ stops. stops ++ otel.stop p ∷ []) k ∙ sym (List.map-append otel.stop ps (p ∷ [])),
  )

  Sets-then_metrics :
      (getenv : String → String) (cfg : Config) (before : List P)
      (r : Result String (Telemetry W P) × W)
      → Sets before r
      → Sets before (then_metrics otel getenv cfg r)
  unfolding init_metrics
  Sets-then_metrics getenv cfg before (err e, w) h = h
  Sets-then_metrics getenv cfg before (ok t, w) (ps, h, k) = elim (Bool-cases cfg.metrics_enabled) [
    | inl e ↦ rw e (Sets-or_without before ps t _ (laws.metric_grpc _ _ w ∙ h) k)
    | inr e ↦ rw e (ps, h, k)
  ]

  Sets-init :
      (getenv : String → String) (cfg : Config) (w : W)
      → Sets (providers w) (init otel getenv cfg w)
  unfolding init
  Sets-init getenv cfg w = elim (Bool-cases (cfg.endpoint == "")) [
    | inl e ↦ rw e ([], laws.propagator w ∙ sym (List.append-nil (providers w)), refl)
    | inr e ↦ rw e (
        Sets-then_metrics getenv cfg (providers w)
          (init_tracer otel no_telemetry cfg (otel.set_propagator w))
          (subst (λ ps. Sets ps (init_tracer otel no_telemetry cfg (otel.set_propagator w)))
            (laws.propagator w) (Sets-init_tracer cfg (otel.set_propagator w))))
  ]

  -- What a start promises of its end.
  abbrev pub EndsAll : List P → Result String (Shutdown W) × W → Type 0
  EndsAll before (err e, v) = providers v ≡ before
  EndsAll before (ok stop, v) =
      (ps : List P) × (providers v ≡ before ++ ps)
      × ((w : W)
          → ((stop w).1 ≡ run_all (map otel.stop ps) w)
            × (((stop w).0 ≡ none) ↔ AllStop (map otel.stop ps) w))

  EndsAll-shutdown_of :
      (before : List P) (r : Result String (Telemetry W P) × W)
      → Sets before r
      → EndsAll before (shutdown_of r)
  EndsAll-shutdown_of before (err e, v) h = h
  EndsAll-shutdown_of before (ok t, v) (ps, h, k) = (ps, h, rw (sym k) (shut_down-run_all t))

  -- A start that fails leaves no provider set. The function that a successful start returns runs
  -- the shutdown of every provider that the start has set, once and in the order of their start,
  -- also after one of them has failed, and returns no error exactly when none of them fails.
  pub initialize-EndsAll :
      (getenv : String → String) (w : W) → EndsAll (providers w) (initialize otel getenv w)
  unfolding initialize
  initialize-EndsAll getenv w =
      EndsAll-shutdown_of (providers w) (init otel getenv (default_config getenv) w)
        (Sets-init getenv (default_config getenv) w)

-- ===== src/TestRun/Traceparent.antt =====
-- internal/controller/testrun_controller.go: maybeAddTraceparentLabel, which gives a test run the
-- annotations of a trace. The attributes and the end of the span are left out.
use etos.Prelude.{Option, none, some, String, List, [], ◌∷◌}
use etos.Kube.{at_key, set_key}
use etos.Kube.Monad.{M, ◌>>=◌, pure, ask, tell}
use etos.TestRun.Types.{TestRun, TestRunApi, Call, updated, stored}
use etos.TestRun.NewRequest.{value_of}

-- The three annotations, from what the propagator has injected and the baggage.
unfoldable pub trace_annotations :
    List (String × String) → List (String × String) → String → List (String × String)
unfolding set_key
trace_annotations annotations metadata baggage =
    set_key
      (set_key
        (set_key annotations "etos.eiffel-community.github.io/traceparent"
          (at_key metadata "traceparent"))
        "etos.eiffel-community.github.io/tracestate" (at_key metadata "tracestate"))
      "etos.eiffel-community.github.io/baggage" baggage

module _ {W E Time Span : Type 0} (api : TestRunApi W E Time Span) where
  unfoldable pub traced : TestRun Time Span → List (String × String) → String → TestRun Time Span
  unfolding trace_annotations
  traced tr metadata baggage =
      let meta = tr.metadata in
      record tr {
        metadata = record meta {
          annotations = trace_annotations meta.annotations metadata baggage;
        };
      }

  -- With a tracer.
  unfoldable pub add_traceparent :
      (W → List (String × String) × W)
      → TestRun Time Span
      → M W (Call Time Span) (TestRun Time Span × Option E)
  unfolding traced
  add_traceparent start tr = do
    metadata ← ask start
    baggage ← ask (
        api.baggage (
          ("testrun_id", tr.spec.id)
          ∷ ("artifact_id", tr.spec.artifact)
          ∷ ("etos_cluster", tr.spec.cluster)
          ∷ []))
    r ← tell (updated (traced tr metadata baggage)) (api.update (traced tr metadata baggage))
    pure (stored (traced tr metadata baggage) r)

  unfoldable pub maybe_add_traceparent_label :
      TestRun Time Span → M W (Call Time Span) (TestRun Time Span × Option E)
  unfolding add_traceparent value_of
  maybe_add_traceparent_label tr =
      elim (value_of tr.metadata.annotations "etos.eiffel-community.github.io/traceparent") [
        | some _ ↦ pure (tr, none)
        | none ↦ elim api.start_span [
          | none ↦ pure (tr, none)
          | some start ↦ add_traceparent start tr
        ]
      ]

-- ===== src/Sinks/Tests.antt =====
-- The file sink at a concrete batch.
use edge_flow.Prelude.{◌≡◌, List, [], ◌∷◌, ◌++◌}
use edge_flow.Prelude.Except.{Text}
use edge_flow.Prelude.Text.{codes}
use edge_flow.Sinks.{FileSink, consume, body_from, lines}
use edge_flow.Sinks.{consume-body_from}

abbrev two_texts : List Text
two_texts = codes "{}" ∷ codes "[]" ∷ []

abbrev opened : FileSink
opened = record { written = codes "{}" }

consume-body_from_example :
    ((consume (λ (t : Text). t) two_texts opened).written
      ≡ codes "{}" ++ body_from (λ (t : Text). t) [] two_texts)
    × (body_from (λ (t : Text). t) [] two_texts ≡ lines (λ (t : Text). t) two_texts)
consume-body_from_example = consume-body_from (λ (t : Text). t) two_texts opened

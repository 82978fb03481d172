-- ===== src/Sinks.antt =====
-- core/include/edgeflow/file_sink.hpp and core/src/file_sink.cpp, and the text that both sinks make of
-- a batch. `serialize` stands for serialize_event.
mod Tests
use edge_flow.Prelude.{
  ℕ, ◌≡◌, refl, List, [], ◌∷◌, ◌++◌, Bool, true, false, append_assoc, append-nil, if◌then◌else◌,
}
use edge_flow.Prelude.Except.{Text, Except, ok, throw, runtime_error}
use edge_flow.Prelude.Text.{codes}

-- The bytes of the file so far.
pub record FileSink : Type 0 where
  pub written : Text

-- The constructor opens the file to append; `is_open` is the operating system's answer.
unfoldable pub open_sink : Bool → Text → Text → Except FileSink
open_sink is_open path existing =
    if is_open
    then ok (record { written = existing })
    else throw (runtime_error (codes "FileSink: could not open file: " ++ path))

module _ {A : Type 0} (serialize : A → Text) where
  write_events : Text → List A → Text
  write_events written [] = written
  write_events written (e ∷ es) = write_events ((written ++ serialize e) ++ b'\n' ∷ []) es

  unfoldable pub consume : List A → FileSink → FileSink
  unfolding write_events
  consume batch f = record f { written = write_events f.written batch }

  -- The loop of HttpSink::consume, `body += …` twice for each event.
  unfoldable pub body_from : Text → List A → Text
  body_from body [] = body
  body_from body (e ∷ es) = body_from ((body ++ serialize e) ++ b'\n' ∷ []) es

  -- One line for each event, the last one ended too.
  abbrev pub lines : List A → Text
  lines [] = []
  lines (e ∷ es) = serialize e ++ b'\n' ∷ lines es

  write_events-lines : (w : Text) (es : List A) → write_events w es ≡ w ++ lines es
  unfolding write_events
  write_events-lines w [] = rw append-nil
  write_events-lines w (e ∷ es) =
      rw (write_events-lines ((w ++ serialize e) ++ b'\n' ∷ []) es) (simp append_assoc)

  pub body_from-lines : (w : Text) (es : List A) → body_from w es ≡ w ++ lines es
  unfolding body_from
  body_from-lines w [] = rw append-nil
  body_from-lines w (e ∷ es) =
      rw (body_from-lines ((w ++ serialize e) ++ b'\n' ∷ []) es) (simp append_assoc)

  -- The bytes that the file sink appends for a batch are the body that the HTTP sink makes of it, and
  -- both are one line for each event in order.
  pub consume-body_from :
      (batch : List A) (f : FileSink)
      → ((consume batch f).written ≡ f.written ++ body_from [] batch)
        × (body_from [] batch ≡ lines batch)
  unfolding consume
  consume-body_from batch f =
      (rw (write_events-lines f.written batch, body_from-lines [] batch), body_from-lines [] batch)

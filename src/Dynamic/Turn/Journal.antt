-- ===== src/Dynamic/Turn/Journal.antt =====
-- The record of a turn in the session, at the end of `run_turn` of
-- crates/caw-orchestrator/src/dynamic.rs.
use opencaw.Prelude.{
  ℕ, ◌+◌, Bool, true, false, Option, none, some, List, [], ◌∷◌, ◌++◌, if◌then◌else◌, put_entry,
}
use opencaw.Core.{Text, CawError, CawResult, ok, err}
use opencaw.Text.{ascii}
use opencaw.Text.Format.{decimal}
use opencaw.Session.{write_turn, write_degenerate_turn}
use opencaw.Dynamic.Turn.Models.{Turn, Models}
use opencaw.Dynamic.Turn.Refine.{Query, Answers}

module _ {F : Type 0} (md : Models F) (q : Query) where
  abbrev pub session_ref : Text → ℕ → Text
  session_ref path turn =
      ascii "[Session turn "
      ++ decimal turn
      ++ (32 ∷ 226 ∷ 128 ∷ 148 ∷ 32 ∷ path)
      ++ ascii "]\nUser: "
      ++ q.user

  abbrev pub indexed : Text → ℕ → CawResult (List (List F)) → Turn F → Turn F
  indexed path turn (err e) t = t
  indexed path turn (ok []) t = t
  indexed path turn (ok (embedding ∷ rest)) t =
      let id = md.text_of (ascii "session-turn-" ++ decimal turn) in
      record t {
        index = t.index ++ ((id, embedding) ∷ []);
        self = record t.self {
          session_content = put_entry id (session_ref path turn) t.self.session_content;
        };
      }

  abbrev pub if_written : CawResult {0} Unit → Turn F → Turn F → Turn F
  if_written (err e) failed written = failed
  if_written (ok u) failed written = written

  abbrev pub is_some : Option CawError → Bool
  is_some none = false
  is_some (some e) = true

  abbrev pub session_text : Answers → ℕ → Text → Text
  session_text a turn answer =
      if is_some a.degenerate_err
      then write_degenerate_turn turn q.user answer
      else write_turn turn q.user answer

  unfoldable pub record_session : Answers → Text → Turn F → Turn F
  record_session a answer t = elim md.session_path [
    | none ↦ t
    | some path ↦
        let turn = t.session_turn + 1 in
        let text = session_text a turn answer in
        let counted = record t { session_turn = turn } in
        if_written (md.append_to_session text) counted
          (indexed path turn (md.embed_document text) counted)
  ]

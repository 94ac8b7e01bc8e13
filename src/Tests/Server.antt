-- ===== src/Tests/Server.antt =====
-- Tests and instances for the server's session.
use collabhub.Prelude.{
  Text, text, ◌≡◌, refl, false, none, some, List, [], ◌∷◌, ◌===◌, keep, sort_by, lookup, insert,
  arith,
}
use collabhub.Errors.{Message, ok}
use collabhub.Protocol.Json.{string, object, get, put}
use collabhub.Protocol.Messages.{Accepted, accepted, set}
use collabhub.Protocol.Complexity.{assert_json_complexity}
use collabhub.Protocol.Envelope.{
  assert_operation_envelope, read_envelope, short_string, safe_version, own_payload, json_payload,
}
use collabhub.Strategy.{Invariant, accept, resolve_strategy}
use collabhub.DomainJson.Pointer.{
  pointer_segments, is_safe_property_name, is_unsafe_name, split, unescape, replace_all,
  set_segments, set_pointer,
}
use collabhub.DomainJson.Patches.{apply_canonical_patches}
use collabhub.DomainJson.Strategies.{resolve_property}
use collabhub.ServerCore.Pipeline.{
  PipelineOptions, PrepareInput, PreparedOperation, prepare, prepare_body, prepare_current,
  prepare_resolved, prepare_accepted, run_hooks, resolve_context, check_invariants,
}
use collabhub.ServerCore.Pipeline.Prepared.{IsPrepared, prepare-IsPrepared}
use collabhub.ServerCore.Storage.Keys.{storage_key_injective, storage_key_collides}
use collabhub.ServerCore.Storage.{empty_storage, storage_key}
use collabhub.ServerCore.Session.{
  Session, Outcome, Faults, no_faults, quiet, load, prepare_input, process, process_operation,
  process_known, process_new, commit, after_append, start_session,
}
use collabhub.ServerCore.Session.Recovery.{SameSession}
use collabhub.ServerCore.Session.History.{
  Event, submitted, restarted, run, fresh, fresh-IsStored, run-recovers,
}
use collabhub.ServerCore.Session.Steps.{Progress, process-Progress}
use collabhub.ServerCore.Session.Retries.{as_duplicate, process-process, process-load-process}
use collabhub.ServerCore.Session.Silence.{process_silent}
use collabhub.Tests.Data.{pack, options, set_title, set_title_operation, document, title}

abbrev first : Outcome
first =
    process options no_faults (text "now") (start_session options none) empty_storage
      (object set_title)

abbrev answer : Accepted
answer = record {
  operation_id = text "op-1";
  canonical_version = 1;
  patches = set (text "/title") (string (text "new")) ∷ [];
  duplicate = false;
}

set_title_accepted : first.result ≡ accepted answer
unfolding process assert_operation_envelope read_envelope short_string safe_version own_payload
    json_payload assert_json_complexity get text ◌===◌ process_operation process_known process_new
    prepare prepare_body prepare_current prepare_resolved prepare_accepted run_hooks resolve_context
    resolve_strategy resolve_property pointer_segments is_safe_property_name is_unsafe_name split
    unescape replace_all apply_canonical_patches set_pointer set_segments put check_invariants
    commit after_append start_session lookup insert sort_by keep
set_title_accepted = refl

abbrev script : List (Event options)
script = submitted no_faults (text "now") (object set_title) ∷ restarted no_faults ∷ []

run-recovers_example :
    (l : Session) × (load options no_faults (run options (fresh options) script).1
      ≡ ok (l, (run options (fresh options) script).1))
    × SameSession options (run options (fresh options) script).0 l
run-recovers_example = run-recovers options script no_faults

process-Progress_example :
    Progress options (text "now") (start_session options none) empty_storage first
process-Progress_example =
    process-Progress options (text "now") (start_session options none) empty_storage no_faults
      (object set_title)

process-process_example :
    process options no_faults (text "later") first.session first.storage (object set_title)
    ≡ quiet (as_duplicate answer) first.session first.storage
process-process_example =
    process-process options no_faults no_faults (text "now") (text "later")
      (start_session options none) empty_storage (object set_title) answer set_title_accepted

process-load-process_example :
    (l : Session) × (load options no_faults first.storage ≡ ok (l, first.storage))
    × (process options no_faults (text "later") l first.storage (object set_title)
        ≡ quiet (as_duplicate answer) l first.storage)
process-load-process_example =
    process-load-process options no_faults no_faults no_faults (text "now") (text "later")
      (start_session options none) empty_storage (object set_title) answer (fresh-IsStored options)
      set_title_accepted

abbrev full_disk : Faults
full_disk = record { append = none; save = some (Message.text (text "no space")) }

process_silent_example :
    (process options full_disk
      (text "now")
      (start_session options none)
      empty_storage
      (object set_title)).events
    ≡ []
unfolding start_session
process_silent_example =
    process_silent options full_disk (text "now") (start_session options none) empty_storage
      (Message.text (text "no space")) refl refl (object set_title)

-- The silent submission is a commit all the same.
process_silent_commits :
    (process options full_disk
      (text "now")
      (start_session options none)
      empty_storage
      (object set_title)).result
    ≡ accepted answer
unfolding process assert_operation_envelope read_envelope short_string safe_version own_payload
    json_payload assert_json_complexity get text ◌===◌ process_operation process_known process_new
    prepare prepare_body prepare_current prepare_resolved prepare_accepted run_hooks resolve_context
    resolve_strategy resolve_property pointer_segments is_safe_property_name is_unsafe_name split
    unescape replace_all apply_canonical_patches set_pointer set_segments put check_invariants
    commit after_append start_session lookup insert sort_by keep
process_silent_commits = refl

abbrev input : PrepareInput
input = prepare_input options (start_session options none) set_title_operation

abbrev ready : PreparedOperation
ready = record {
  operation = set_title_operation;
  resolved_at_version = 0;
  patches = set (text "/title") (string (text "new")) ∷ [];
  next_state = title (text "new");
  context = record {
    operation = set_title_operation;
    state = document;
    current_version = 0;
    resolution = some (accept (set (text "/title") (string (text "new")) ∷ []));
  };
}

abbrev has_field : Text → Invariant
has_field key = record {
  id = key;
  check = λ state op. elim (get state key) [ some v ↦ ok none | none ↦ ok (some key) ];
}

abbrev guarded : PipelineOptions
guarded = record options.pipeline {
  domain_pack = record pack {
    invariants = has_field (text "title") ∷ has_field (text "tasks") ∷ [];
  };
}

prepare-IsPrepared_example : IsPrepared guarded input ready
unfolding get text ◌===◌ prepare prepare_body prepare_current prepare_resolved prepare_accepted
    run_hooks resolve_context resolve_strategy resolve_property pointer_segments
    is_safe_property_name is_unsafe_name split unescape replace_all apply_canonical_patches
    set_pointer set_segments put check_invariants start_session sort_by keep
prepare-IsPrepared_example = prepare-IsPrepared guarded input ready refl

storage_key_injective_example :
    (◌≡◌ {A = Text} (116 ∷ []) (116 ∷ [])) × (◌≡◌ {A = Text} (100 ∷ []) (100 ∷ []))
storage_key_injective_example =
    storage_key_injective (116 ∷ []) (116 ∷ []) (100 ∷ []) (100 ∷ []) (omega arith) (omega arith)
      refl

storage_key_collides_example :
    storage_key (97 ∷ 0 ∷ 98 ∷ []) (99 ∷ []) ≡ storage_key (97 ∷ []) (98 ∷ 0 ∷ 99 ∷ [])
storage_key_collides_example = storage_key_collides (97 ∷ []) (98 ∷ []) (99 ∷ [])

-- ===== src/Sessions/Tests.antt =====
-- Runs of the interactive sessions, and the theorems at concrete data.
use Prim.Native.Nat.{min}
use fabroku_back_end.Base.{
  String, ◌≡◌, ◌≢◌, refl, true, false, Option, none, some, List, [], ◌∷◌, ◌++◌, arith, all, keep_if,
  map, length, Codes, codes, eq_iff,
}
use fabroku_back_end.Models.Errors.{decimal}
use fabroku_back_end.Runtime.Effects.{Result, ok}
use fabroku_back_end.Sessions.Model.{
  Session, CommandKind, Status, Desk, Settings, IsCipher, Chunk, Direction, Runner,
}
use fabroku_back_end.Sessions.Rows.{PromptMatch, submit, consume_answer, set_prompt, begin, touch}
use fabroku_back_end.Sessions.Operations.{
  cleanup_expired, begin_session, create_event, submit_answer, take_answer, cancel_session,
  consume_terminal_input, queue_terminal_input,
}
use fabroku_back_end.Sessions.Strip.{strip, occurs_in, normalize, split_lines, split_last}
use fabroku_back_end.Sessions.Terminal.{
  Locals, shown_lines, show_lines, emit_output_lines, is_sensitive, flush_output_buffer,
  sensitive_output_redaction,
}
use fabroku_back_end.Sessions.Loop.{
  Tick, Ending, no_locals, run_postgres, run_prompts, poll_prompts, take_output, prompts_answer,
  go_on_prompts, give_answer,
}
use fabroku_back_end.Sessions.Requests.{Request, Activity, perform, perform_all, act, act_all}
use fabroku_back_end.Sessions.Invariant.{
  is_well_formed, is_in_turn, all_in_turn, act_all-is_well_formed,
}
use fabroku_back_end.Sessions.Cancel.{EndsCancelled, cancel_wins}
use fabroku_back_end.Sessions.Answers.{consume_answer-submit, answer_crosses_prompts}
use fabroku_back_end.Sessions.Secrets.Lines.{Hidden, outputs}
use fabroku_back_end.Sessions.Secrets.{prompts_answer-Hidden}
use fabroku_back_end.Sessions.Queue.{
  waiting, Queued, consume_terminal_input-waiting, queue_terminal_input-Queued,
}
use fabroku_back_end.Sessions.Audit.{IsNumbered, sequences}
use fabroku_back_end.Sessions.Audit.Trail.{act_all-IsNumbered}
use fabroku_back_end.Sessions.Runners.{claim_pending, claim_first, release_stale, is_live_id}
use fabroku_back_end.Sessions.Claims.{is_kept, claim_pending-is_kept}

-- The cipher of the tests puts a mark before the text.
abbrev decrypt : Codes → Codes
decrypt [] = []
decrypt (k ∷ v) = v

abbrev settings : Settings
settings = record {
  idle_seconds = 300;
  heartbeat_seconds = 10;
  max_sessions = 20;
  encrypt = λ v. 7 ∷ v;
  decrypt = decrypt;
}

settings-IsCipher : IsCipher settings
settings-IsCipher = record { decrypts = λ v. refl; not_empty = λ v e. cc }

abbrev running_session : Session
running_session = record {
  id = "s1";
  app_id = 7;
  service_id = some 3;
  created_by_id = 2;
  command_kind = CommandKind.postgres_connect;
  status = Status.running;
  manage_path = "manage.py";
  task_id = some "interactive:r1:s1";
  runner_id = some "r1";
  claimed_at = some 90;
  cancel_requested = false;
  prompt_counter = 1;
  awaiting_prompt_id = none;
  awaiting_prompt_text = none;
  awaiting_prompt_secret = false;
  pending_answer_prompt_id = none;
  pending_answer_ciphertext = none;
  pending_answer_received_at = none;
  audit_sequence = 1;
  expires_at = 400;
  last_activity_at = 100;
  started_at = some 95;
  completed_at = none;
}

abbrev waiting_session : Session
waiting_session = record running_session {
  id = "s2";
  command_kind = CommandKind.django_createsuperuser;
  status = Status.awaiting_input;
  awaiting_prompt_id = some "password-1";
  awaiting_prompt_secret = true;
}

abbrev new_session : Session
new_session = record running_session { id = "s3"; status = Status.pending; runner_id = none }

abbrev other_session : Session
other_session = record running_session { id = "s4"; status = Status.pending; runner_id = some "r2" }

abbrev typed : Chunk
typed = record {
  session_id = "s1";
  direction = Direction.input_chunk;
  sequence = 1;
  content_ciphertext = 7 ∷ codes "\\q";
  consumed_at = none;
}

abbrev runner_of : String → Runner
runner_of id = record {
  runner_id = id;
  max_sessions = 20;
  active_sessions = 0;
  last_heartbeat_at = 100;
}

abbrev desk : Desk
desk = record {
  sessions = running_session ∷ waiting_session ∷ new_session ∷ other_session ∷ [];
  events = [];
  chunks = typed ∷ [];
  runners = runner_of "r1" ∷ runner_of "r2" ∷ [];
  written = [];
  clock = 110;
}

abbrev again : PromptMatch
again = record {
  key = "password_confirmation";
  label = "Password (again)";
  secret = true;
  text = codes "Password (again): ";
  start = 0;
  end = 18;
}

abbrev some_requests : List Request
some_requests =
    Request.submit_to "s2" "password-1" (codes "abc")
    ∷ Request.prompt "s2" again
    ∷ Request.wait 5
    ∷ Request.queue_input "s1" (codes "ls")
    ∷ Request.cleanup
    ∷ []

abbrev some_activities : List Activity
some_activities =
    Activity.request (Request.claim "r1" 2)
    ∷ Activity.start "s3" "interactive:r1:s3" (some "r1") (some 110)
    ∷ map Activity.request some_requests

act_all-is_well_formed_example :
    all is_well_formed (act_all settings some_activities desk).sessions ≡ true
unfolding is_well_formed all_in_turn is_in_turn act perform claim_pending claim_first release_stale
    is_live_id cleanup_expired begin_session begin touch create_event
act_all-is_well_formed_example = act_all-is_well_formed settings some_activities desk refl refl

abbrev quiet_tick : Tick
quiet_tick = record { before = λ d. d; during = λ d. d; output = codes "ok"; exit = none }

abbrev asked : Desk
asked = (cancel_session settings "s1" desk).1

abbrev next_tick : Tick
next_tick = record quiet_tick { before = perform_all settings some_requests }

abbrev prompts_run : Option Ending × (Locals × Desk)
prompts_run = run_prompts settings "s1" (λ b. none) (next_tick ∷ []) (no_locals, asked)

cancel_wins_example :
    EndsCancelled settings "s1" (run_postgres settings "s1" (next_tick ∷ []) asked)
    × EndsCancelled settings "s1" (prompts_run.0, prompts_run.1.1)
    × ((run_postgres settings "s1" (next_tick ∷ []) asked).1
        ≡ perform_all settings some_requests asked)
    × (prompts_run.1.0 ≡ no_locals)
    × (prompts_run.1.1 ≡ perform_all settings some_requests asked)
cancel_wins_example =
    cancel_wins settings "s1" (λ b. none) running_session desk some_requests quiet_tick [] no_locals
      refl refl

abbrev answered_session : Session
answered_session = (submit settings 110 "password-1" (codes "abc") waiting_session).1

abbrev read_answer : Option Codes × Session
read_answer = consume_answer settings 111 answered_session

consume_answer-submit_example :
    (read_answer.0 ≡ some (codes "abc"))
    × (read_answer.1.status ≡ Status.running)
    × ((consume_answer settings 111 read_answer.1).0 ≡ none)
unfolding submit
consume_answer-submit_example =
    consume_answer-submit settings settings-IsCipher 110 111 "password-1" (codes "abc")
      waiting_session refl

abbrev prompted_session : Session
prompted_session = set_prompt settings 111 again answered_session

answer_crosses_prompts_example :
    (prompted_session.awaiting_prompt_id ≡ some "password_confirmation-2")
    × (prompted_session.pending_answer_prompt_id ≡ some "password-1")
    × ((consume_answer settings 111 prompted_session).0 ≡ some (codes "abc"))
unfolding submit decimal
answer_crosses_prompts_example =
    answer_crosses_prompts settings settings-IsCipher 110 111 "password-1" (codes "abc") again
      waiting_session refl

abbrev typed_desk : Desk
typed_desk = (submit_answer settings "s2" "password-1" (codes " abc ") desk).1

abbrev echo_tick : Tick
echo_tick = record quiet_tick { output = codes "echo abc" ++ (10 ∷ codes "done") ++ (10 ∷ []) }

abbrev read_poll : Option Ending × (Locals × Desk)
read_poll =
    prompts_answer settings "s2" (λ b. none) none waiting_session (ok tt, (no_locals, typed_desk))

prompts_answer-Hidden_example :
    Hidden "s2"
      (codes "abc")
      0
      (go_on_prompts settings "s2"
        (λ b. none)
        read_poll
        (run_prompts settings "s2" (λ b. none) (echo_tick ∷ []))).1.1
unfolding strip submit submit_answer take_answer consume_answer touch outputs
prompts_answer-Hidden_example =
    prompts_answer-Hidden settings "s2" (λ b. none) waiting_session (codes " abc ") no_locals
      typed_desk none (echo_tick ∷ []) refl refl refl refl ((λ d. refl, λ d. refl), tt)

shown_run :
    outputs "s2" (run_prompts settings "s2" (λ b. none) (echo_tick ∷ []) read_poll.1).1.1.events
    ≡ sensitive_output_redaction ∷ codes "done" ∷ []
unfolding touch strip submit submit_answer take_answer consume_answer run_prompts poll_prompts
    give_answer take_output flush_output_buffer emit_output_lines shown_lines show_lines
    create_event is_sensitive occurs_in normalize split_lines split_last outputs
shown_run = refl

abbrev taken_input : List Codes × Desk
taken_input = consume_terminal_input settings "s1" desk

consume_terminal_input-waiting_example :
    (taken_input.0 ++ waiting settings "s1" taken_input.1.chunks
      ≡ waiting settings "s1" desk.chunks)
    × (length taken_input.0 ≡ min 100 (length (waiting settings "s1" desk.chunks)))
consume_terminal_input-waiting_example = consume_terminal_input-waiting settings "s1" desk

abbrev queued_input : Result (Unit {0}) × Desk
queued_input = queue_terminal_input settings "s1" (codes "ls") desk

queue_terminal_input-Queued_example :
    Queued settings "s1" settings-IsCipher (codes "ls") desk queued_input.0 queued_input.1
queue_terminal_input-Queued_example =
    queue_terminal_input-Queued settings "s1" settings-IsCipher (codes "ls") desk

r1_not_r2 : ◌≢◌ {A = String} "r1" "r2"
r1_not_r2 = ground (arith, eq_iff "r1" "r2")

claim_pending-is_kept_example :
    keep_if (is_kept "r2" 110) (claim_pending settings "r1" 2 desk).1.sessions
    ≡ keep_if (is_kept "r2" 110) desk.sessions
unfolding is_live_id
claim_pending-is_kept_example = claim_pending-is_kept settings "r1" "r2" 2 desk r1_not_r2 refl

act_all-IsNumbered_example : IsNumbered "s1" (act_all settings some_activities desk)
unfolding sequences
act_all-IsNumbered_example = act_all-IsNumbered settings "s1" some_activities desk refl

-- ===== src/Sessions/Model.antt =====
-- interactive_sessions/models.py, and what the sessions ask of code that is not here: the settings
-- and the cipher of interactive_sessions/interactive_crypto.py.
use fabroku_back_end.Base.{
  ℕ, String, Bool, true, false, Option, List, ◌≡◌, ◌≢◌, find, update_where, str_eq,
}
use fabroku_back_end.Base.{Codes}

-- `InteractiveRunCommandKind`
pub data CommandKind : Type 0 where
  django_createsuperuser postgres_connect : CommandKind

-- `InteractiveRunSessionStatus`
pub data Status : Type 0 where
  pending running awaiting_input completed failed cancelled expired : Status

-- `status in TERMINAL_SESSION_STATUSES`
abbrev pub is_terminal : Status → Bool
is_terminal Status.completed = true
is_terminal Status.failed = true
is_terminal Status.cancelled = true
is_terminal Status.expired = true
is_terminal _ = false

abbrev pub is_awaiting : Status → Bool
is_awaiting Status.awaiting_input = true
is_awaiting _ = false

abbrev pub is_pending : Status → Bool
is_pending Status.pending = true
is_pending _ = false

-- `status in {PENDING, RUNNING}`
abbrev pub takes_input : Status → Bool
takes_input Status.pending = true
takes_input Status.running = true
takes_input _ = false

abbrev pub is_postgres_connect : CommandKind → Bool
is_postgres_connect CommandKind.postgres_connect = true
is_postgres_connect CommandKind.django_createsuperuser = false

-- `InteractiveRunSession`; times are seconds, texts of prompts and answers are code points.
pub record Session : Type 0 where
  pub id : String
  pub app_id : ℕ
  pub service_id : Option ℕ
  pub created_by_id : ℕ
  pub command_kind : CommandKind
  pub status : Status
  pub manage_path : String
  pub task_id : Option String
  pub runner_id : Option String
  pub claimed_at : Option ℕ
  pub cancel_requested : Bool
  pub prompt_counter : ℕ
  pub awaiting_prompt_id : Option String
  pub awaiting_prompt_text : Option Codes
  pub awaiting_prompt_secret : Bool
  pub pending_answer_prompt_id : Option String
  pub pending_answer_ciphertext : Option Codes
  pub pending_answer_received_at : Option ℕ
  pub audit_sequence : ℕ
  pub expires_at : ℕ
  pub last_activity_at : ℕ
  pub started_at : Option ℕ
  pub completed_at : Option ℕ

-- `InteractiveRunEventType`
pub data EventType : Type 0 where
  status_event output_event prompt_event complete_event error_event : EventType

-- `InteractiveRunEvent`; of the payload, the message of an output or the text of a prompt
pub record Event : Type 0 where
  pub session_id : String
  pub event_type : EventType
  pub message : Codes

-- `InteractiveRunAuditDirection`
pub data Direction : Type 0 where
  input_chunk output_chunk : Direction

abbrev pub is_input : Direction → Bool
is_input Direction.input_chunk = true
is_input Direction.output_chunk = false

-- `InteractiveRunAuditChunk`
pub record Chunk : Type 0 where
  pub session_id : String
  pub direction : Direction
  pub sequence : ℕ
  pub content_ciphertext : Codes
  pub consumed_at : Option ℕ

-- `InteractiveRunRunner`
pub record Runner : Type 0 where
  pub runner_id : String
  pub max_sessions : ℕ
  pub active_sessions : ℕ
  pub last_heartbeat_at : ℕ

-- The tables, in the order in which rows were created, and what was written to the channels.
pub record Desk : Type 0 where
  pub sessions : List Session
  pub events : List Event
  pub chunks : List Chunk
  pub runners : List Runner
  pub written : List (String × Codes)
  pub clock : ℕ

-- `CLI_INTERACTIVE_SESSION_IDLE_SECONDS`, `CLI_INTERACTIVE_RUNNER_HEARTBEAT_SECONDS`,
-- `CLI_INTERACTIVE_MAX_SESSIONS`, and Fernet.
pub record Settings : Type 0 where
  pub idle_seconds : ℕ
  pub heartbeat_seconds : ℕ
  pub max_sessions : ℕ
  pub encrypt : Codes → Codes
  pub decrypt : Codes → Codes

-- A token decrypts to what was encrypted, and is never empty.
pub record IsCipher (c : Settings) : Type 0 where
  pub decrypts : (v : Codes) → c.decrypt (c.encrypt v) ≡ v
  pub not_empty : (v : Codes) → c.encrypt v ≢ List.[]

abbrev pub has_id : String → Session → Bool
has_id id s = str_eq s.id id

abbrev pub session_of : String → Desk → Option Session
session_of id d = find (has_id id) d.sessions

-- `InteractiveRunSession.objects.filter(id=id).update(...)`, and a `save` of the row of `id`
abbrev pub update_session : String → (Session → Session) → Desk → Desk
update_session id f d = record d { sessions = update_where (has_id id) f d.sessions }

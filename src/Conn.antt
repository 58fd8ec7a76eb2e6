-- ===== src/Conn.antt =====
-- imapserver/conn.go and the handlers beside it: the states of a connection, the commands that each state allows, and
-- the calls of the session that they lead to. The session is a parameter: what it answers may depend on all
-- calls before. The parsing of arguments, and what a handler tests of them, is a parameter of the request.
pub mod Handlers
pub mod Laws
pub mod Safe
pub mod Asked
pub mod Dispatch
pub mod Runs
mod Tests
use go_imap.Prelude.{
  ℕ, Bool, true, false, not, ◌&&◌, ◌||◌, List, [], ◌∷◌, ◌++◌, if◌then◌else◌, Option, none, some,
}
use go_imap.Strconv.{Bytes, codes}

-- imap.ConnState
pub data ConnState : Type 0 where
  state_none not_authenticated authenticated selected logged_out : ConnState

abbrev pub same_state : ConnState → ConnState → Bool
same_state state_none state_none = true
same_state not_authenticated not_authenticated = true
same_state authenticated authenticated = true
same_state selected selected = true
same_state logged_out logged_out = true
same_state _ _ = false

-- The cases of the switch of readCommand; ESEARCH says whether it is limited to the selected mailbox.
pub data Command : Type 0 where
  noop_cmd logout_cmd capability_cmd id_cmd starttls_cmd authenticate_cmd : Command
  unauthenticate_cmd login_cmd enable_cmd create_cmd delete_cmd rename_cmd subscribe_cmd : Command
  unsubscribe_cmd status_cmd list_cmd lsub_cmd namespace_cmd get_acl_cmd set_acl_cmd : Command
  delete_acl_cmd list_rights_cmd my_rights_cmd idle_cmd append_cmd fetch_cmd : Command
  expunge_cmd store_cmd copy_cmd move_cmd search_cmd sort_cmd thread_cmd : Command
  get_metadata_cmd set_metadata_cmd unknown_cmd : Command
  notify_cmd select_cmd unselect_cmd esearch_cmd : Bool → Command

-- The errors of handlers: the types of imap.Error, one of them with the code NOPERM, the others
pub data HandlerError : Type 0 where
  ok_error no_error no_perm_error bad_error bye_error decoder_error other_error : HandlerError

-- What the session is asked: to unselect or to expunge for another command, to take the client's ID, how long a
-- message may be, to empty "$", to poll, or what a command is for. The questions which capabilities and virtual rights it has,
-- the NOTIFY pump, and Close at the end are left out.
pub data Call : Type 0 where
  session_unselect session_expunge session_id session_append_limit session_reset_search_res : Call
  session_poll : Bool → Call
  session_command : Command → Call

-- Conn: the part that decides about commands
pub record Conn : Type 0 where
  pub state : ConnState
  pub selected_read_only : Bool
  pub selected_private_store : Bool
  pub is_tls : Bool
  pub notify_used : Bool
  pub message_events : Bool

-- Options, as far as they decide about commands; `custom_tls` is what IsTLS answers, if it is set.
pub record Options : Type 0 where
  pub custom_tls : Option Bool
  pub insecure_auth : Bool
  pub tls_config : Bool

-- The connection, with the calls so far and the connection as it was at each
pub record Served : Type 0 where
  pub conn : Conn
  pub calls : List (Conn × Call)

-- What the session answers behind these calls, and which of the optional methods without an error it has
pub record Backend : Type 0 where
  pub reply : List (Conn × Call) → Call → Option HandlerError
  pub read_only : List (Conn × Call) → Bool
  pub has_permanent_flags : List (Conn × Call) → Bool
  pub has_id : Bool
  pub has_append_limit : Bool
  pub has_search_res : Bool

-- A result of a handler
abbrev pub Handled : Type 0
Handled = Served × Option HandlerError

-- Conn.checkState
unfoldable pub check_state : ConnState → Conn → Option HandlerError
check_state wanted c =
    if same_state wanted authenticated && same_state c.state selected
    then none
    else if same_state c.state wanted
    then none
    else some bad_error

-- Conn.checkWritableMailbox
abbrev pub unless_read_only : Bool → Option HandlerError → Option HandlerError
unless_read_only b (some e) = some e
unless_read_only b none = if b then some no_error else none

unfoldable pub check_writable_mailbox : Conn → Option HandlerError
unfolding check_state
check_writable_mailbox c = unless_read_only c.selected_read_only (check_state selected c)

-- Conn.canAuth
abbrev pub detects_tls : Option Bool → Bool → Bool
detects_tls none b = b
detects_tls (some custom) b = custom

unfoldable pub can_auth : Options → Conn → Bool
can_auth o c =
    same_state c.state not_authenticated && (detects_tls o.custom_tls c.is_tls || o.insecure_auth)

-- Conn.canStartTLS
unfoldable pub can_start_tls : Options → Conn → Bool
can_start_tls o c = o.tls_config && same_state c.state not_authenticated && not c.is_tls

-- Conn.notifySelectedMessageEventsEnabled
unfoldable pub message_events_enabled : Conn → Bool
message_events_enabled c = not c.notify_used || c.message_events

abbrev pub with_call : Conn → Call → Served → Served
with_call c call s = record s { calls = s.calls ++ (c, call) ∷ [] }

-- A call of an optional method without an error
abbrev pub tell : Bool → Call → Served → Served
tell true call s = with_call s.conn call s
tell false call s = s

-- A call of the session
abbrev pub invoke : Backend → Call → Served → Handled
invoke b call s = (with_call s.conn call s, b.reply s.calls call)

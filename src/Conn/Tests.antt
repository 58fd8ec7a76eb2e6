-- ===== src/Conn/Tests.antt =====
-- imapserver/conn.go: a conversation
use go_imap.Prelude.{◌≡◌, refl, true, false, List, [], ◌∷◌, none, map, inr}
use go_imap.Conn.{
  Command, Call, Conn, Options, Served, Backend, not_authenticated, logged_out, logout_cmd, id_cmd,
  append_cmd, session_id, session_append_limit, login_cmd, select_cmd, unselect_cmd, fetch_cmd,
  store_cmd, expunge_cmd, unknown_cmd, session_command, session_poll, session_unselect, same_state,
}
use go_imap.Conn.Handlers.{Request, serve}
use go_imap.Conn.Runs.{serve_last}

-- A session that answers without errors
abbrev willing : Backend
willing = record {
  reply = λ calls call. none;
  read_only = λ calls. false;
  has_permanent_flags = λ calls. true;
  has_id = true;
  has_append_limit = true;
  has_search_res = true;
}

abbrev options : Options
options = record { custom_tls = none; insecure_auth = false; tls_config = true }

abbrev fresh : Served
fresh = record {
  conn = record {
    state = not_authenticated;
    selected_read_only = false;
    selected_private_store = false;
    is_tls = true;
    notify_used = false;
    message_events = false;
  };
  calls = [];
}

abbrev request : Command → Request
request cmd = record {
  command = cmd;
  uid = false;
  parse_error = none;
  refusal = none;
  save = false;
  save_error = none;
  buffered = false;
  desynchronized = false;
}

-- ID and the question of APPEND for its limit come before the client has logged in, FETCH comes too early, and STORE and EXPUNGE find the mailbox read-only.
abbrev conversation : List Request
conversation =
    request id_cmd
    ∷ request append_cmd
    ∷ request fetch_cmd
    ∷ request login_cmd
    ∷ request (select_cmd true)
    ∷ request store_cmd
    ∷ request expunge_cmd
    ∷ request fetch_cmd
    ∷ request (unselect_cmd true)
    ∷ request logout_cmd
    ∷ request (select_cmd false)
    ∷ []

abbrev call_of : Conn × Call → Call
call_of (c, call) = call

test_calls :
    map call_of (serve willing options conversation fresh).calls
    ≡ session_id
      ∷ session_append_limit
      ∷ session_command login_cmd
      ∷ session_command (select_cmd true)
      ∷ session_command fetch_cmd
      ∷ session_poll false
      ∷ session_unselect
      ∷ session_poll true
      ∷ []
unfolding serve
test_calls = refl

serve_last_example :
    ((serve willing options (request unknown_cmd ∷ conversation) fresh).calls ≡ [])
    × (same_state
          (serve willing options (request unknown_cmd ∷ conversation) fresh).conn.state
          logged_out
        ≡ true)
serve_last_example =
    serve_last willing options (request unknown_cmd) conversation fresh (inr (refl, refl))

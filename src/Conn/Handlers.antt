-- ===== src/Conn/Handlers.antt =====
-- imapserver: what the handlers do behind the parsing of a command
use go_imap.Prelude.{
  Bool, true, false, not, ◌&&◌, ◌||◌, List, [], ◌∷◌, if◌then◌else◌, Option, none, some,
}
use go_imap.Conn.{
  ConnState, Command, HandlerError, Conn, Options, Served, Backend, Handled, not_authenticated,
  authenticated, selected, logged_out, noop_cmd, logout_cmd, capability_cmd, id_cmd, starttls_cmd,
  authenticate_cmd, unauthenticate_cmd, login_cmd, expunge_cmd, store_cmd, copy_cmd, move_cmd,
  fetch_cmd, search_cmd, sort_cmd, thread_cmd, unknown_cmd, notify_cmd, select_cmd, unselect_cmd,
  esearch_cmd, enable_cmd, no_error, no_perm_error, bad_error, bye_error, ok_error, append_cmd,
  get_metadata_cmd, session_unselect, session_expunge, session_command, session_poll, check_state,
  check_writable_mailbox, can_auth, can_start_tls, message_events_enabled, same_state, invoke, tell,
  session_id, session_append_limit, session_reset_search_res,
}

-- A command as it was read: whether it has the form UID ..., the error that its arguments make when they are read,
-- what the handler answers by itself behind the test of the state (since the session has no such method, or
-- does not accept the arguments), whether it is a SEARCH with the option SAVE and what the handler's checks for BAD
-- errors say of that option, whether the client has sent data behind it, and whether the rest of its line
-- could not be discarded
pub record Request : Type 0 where
  pub command : Command
  pub uid : Bool
  pub parse_error : Option HandlerError
  pub refusal : Option HandlerError
  pub save : Bool
  pub save_error : Option HandlerError
  pub buffered : Bool
  pub desynchronized : Bool

-- if err := ...; err != nil { return err }
abbrev pub unless : Option HandlerError → Served → Handled → Handled
unless (some e) s rest = (s, some e)
unless none s rest = rest

abbrev pub and_then : Handled → (Served → Handled) → Handled
and_then (s, some e) f = (s, some e)
and_then (s, none) f = f s

abbrev pub set_conn : Conn → Served → Handled
set_conn c s = (record s { conn = c }, none)

-- A handler that checks the state and calls the session
abbrev pub in_state : ConnState → Backend → Option HandlerError → Command → Served → Handled
in_state wanted b refusal cmd s =
    unless (check_state wanted s.conn) s (unless refusal s (invoke b (session_command cmd) s))

-- handleID
abbrev pub id : Backend → Served → Handled
id b s = (tell b.has_id session_id s, none)

-- handleEnable: the session is not called.
abbrev pub enable : Served → Handled
enable s = unless (check_state authenticated s.conn) s (s, none)

-- handleAppend: the limit is asked for before the state is checked.
abbrev pub append : Backend → Option HandlerError → Served → Handled
append b refusal s =
    in_state authenticated b refusal append_cmd (tell b.has_append_limit session_append_limit s)

-- Conn.failSearchBeforeBackend; `save_error` is what the checks for BAD errors answer.
abbrev pub is_no : HandlerError → Bool
is_no no_error = true
is_no no_perm_error = true
is_no _ = false

abbrev pub reset_search_res : Backend → HandlerError → Option HandlerError → Served → Handled
reset_search_res b e (some bad) s = (s, some bad)
reset_search_res b e none s = (tell b.has_search_res session_reset_search_res s, some e)

abbrev pub fail_search_before_backend : Backend → Request → HandlerError → Served → Handled
fail_search_before_backend b req e s =
    if not req.save || (not (same_state s.conn.state selected) || not (is_no e))
    then (s, some e)
    else reset_search_res b e req.save_error s

abbrev pub first_error : Option HandlerError → Option HandlerError → Option HandlerError
first_error (some e) e' = some e
first_error none e' = e'

-- handleSearch, and handleESearch
abbrev pub search_unless : Option HandlerError → Backend → Request → Command → Served → Handled
search_unless (some e) b req cmd s = fail_search_before_backend b req e s
search_unless none b req cmd s = invoke b (session_command cmd) s

abbrev pub search : ConnState → Backend → Request → Command → Served → Handled
search wanted b req cmd s =
    search_unless
      (first_error req.parse_error (first_error (check_state wanted s.conn) req.refusal)) b req cmd
      s

-- The commands whose answer forbids EXPUNGE responses; those with UID are exempt.
abbrev pub uses_seq_nums : Command → Bool
uses_seq_nums fetch_cmd = true
uses_seq_nums store_cmd = true
uses_seq_nums search_cmd = true
uses_seq_nums sort_cmd = true
uses_seq_nums thread_cmd = true
uses_seq_nums _ = false

-- expungeReportingCmd
abbrev pub expunge_reporting_cmd : Command → Bool
expunge_reporting_cmd expunge_cmd = true
expunge_reporting_cmd _ = false

-- Conn.poll
unfoldable pub poll : Backend → Bool → Command → Served → Handled
unfolding message_events_enabled
poll b uid cmd s =
    if (same_state s.conn.state authenticated || same_state s.conn.state selected)
      && (expunge_reporting_cmd cmd || message_events_enabled s.conn)
    then invoke b (session_poll (uid || not (uses_seq_nums cmd))) s
    else (s, none)

-- handleLogin, and handleAuthenticate with the exchange as one call
abbrev pub authenticating : Backend → Options → Option HandlerError → Command → Served → Handled
authenticating b o refusal cmd s = unless (check_state not_authenticated s.conn) s (
    if can_auth o s.conn
    then unless refusal s (
        and_then (invoke b (session_command cmd) s)
          (λ s'. set_conn (record s'.conn { state = authenticated }) s'))
    else (s, some no_error))

-- handleUnauthenticate
abbrev pub unauthenticate : Backend → Option HandlerError → Served → Handled
unauthenticate b refusal s = and_then (in_state authenticated b refusal unauthenticate_cmd s) (λ s'.
    set_conn
      (record s'.conn { state = not_authenticated; notify_used = false; message_events = false })
      s')

abbrev pub closed : Conn → Conn
closed c = record c {
  state = authenticated;
  selected_read_only = false;
  selected_private_store = false;
}

-- handleSelect
abbrev pub leave_selected : Backend → Served → Handled
leave_selected b s =
    if same_state s.conn.state selected
    then and_then (invoke b session_unselect s) (λ s'. set_conn (closed s'.conn) s')
    else (s, none)

abbrev pub enter_selected : Backend → Bool → Served → Handled
enter_selected b read_only s = and_then (invoke b (session_command (select_cmd read_only)) s) (λ s'.
    set_conn
      (record s'.conn {
        state = selected;
        selected_read_only = read_only || b.read_only s.calls;
        selected_private_store =
            not read_only && b.read_only s.calls && b.has_permanent_flags s.calls;
      })
      s')

abbrev pub select : Backend → Bool → Served → Handled
select b read_only s =
    unless (check_state authenticated s.conn) s
      (and_then (leave_selected b s) (λ s'. enter_selected b read_only s'))

-- handleUnselect; the error NOPERM of the expunge of CLOSE is ignored.
abbrev pub ignore_no_perm : Handled → Handled
ignore_no_perm (s, some no_perm_error) = (s, none)
ignore_no_perm r = r

abbrev pub expunge_for_close : Backend → Bool → Served → Handled
expunge_for_close b expunge s =
    if expunge && not s.conn.selected_read_only
    then ignore_no_perm (invoke b session_expunge s)
    else (s, none)

abbrev pub unselect : Backend → Bool → Served → Handled
unselect b expunge s = unless (check_state selected s.conn) s (
    and_then (expunge_for_close b expunge s)
      (λ s'. and_then (invoke b session_unselect s') (λ s''. set_conn (closed s''.conn) s'')))

-- handleStartTLS; `buffered` is that the client has sent data behind the command.
abbrev pub starttls : Options → Bool → Served → Handled
starttls o buffered s =
    if not o.tls_config
    then (s, some no_error)
    else if not (can_start_tls o s.conn)
    then (s, some bad_error)
    else if buffered
    then (s, some bad_error)
    else set_conn (record s.conn { is_tls = true }) s

-- handleStore and Conn.expunge
abbrev pub store : Backend → Served → Handled
store b s = unless (check_state selected s.conn) s (
    unless (if s.conn.selected_private_store then none else check_writable_mailbox s.conn) s
      (invoke b (session_command store_cmd) s))

abbrev pub expunge : Backend → Served → Handled
expunge b s = unless (check_writable_mailbox s.conn) s (invoke b (session_command expunge_cmd) s)

-- handleCopy
abbrev pub copy : Backend → Bool → Option HandlerError → Served → Handled
copy b uid refusal s =
    and_then (in_state selected b refusal copy_cmd s) (λ s'. poll b uid copy_cmd s')

-- handleNotify: a watch that the session accepts is in force. An implicit NOOP follows.
abbrev pub notify : Backend → Option HandlerError → Bool → Served → Handled
notify b refusal events s = and_then (in_state authenticated b refusal (notify_cmd events) s) (λ s'.
    and_then (set_conn (record s'.conn { notify_used = true; message_events = events }) s')
      (λ s''. poll b false (notify_cmd events) s''))

-- The default of the switch
abbrev pub unknown : Served → Handled
unknown s =
    if same_state s.conn.state not_authenticated
    then (record s { conn = record s.conn { state = logged_out } }, some bad_error)
    else (s, some bad_error)

-- The switch of readCommand
unfoldable pub handle : Backend → Options → Request → Command → Served → Handled
unfolding check_state check_writable_mailbox can_auth can_start_tls poll
handle b o req noop_cmd s = (s, none)
handle b o req capability_cmd s = (s, none)
handle b o req id_cmd s = id b s
handle b o req enable_cmd s = enable s
handle b o req append_cmd s = append b req.refusal s
handle b o req logout_cmd s = set_conn (record s.conn { state = logged_out }) s
handle b o req unknown_cmd s = unknown s
handle b o req starttls_cmd s = starttls o req.buffered s
handle b o req login_cmd s = authenticating b o req.refusal login_cmd s
handle b o req authenticate_cmd s = authenticating b o req.refusal authenticate_cmd s
handle b o req unauthenticate_cmd s = unauthenticate b req.refusal s
handle b o req (select_cmd read_only) s = select b read_only s
handle b o req (unselect_cmd expunge) s = unselect b expunge s
handle b o req (notify_cmd events) s = notify b req.refusal events s
handle b o req (esearch_cmd true) s = search selected b req (esearch_cmd true) s
handle b o req (esearch_cmd false) s = search authenticated b req (esearch_cmd false) s
handle b o req store_cmd s = store b s
handle b o req expunge_cmd s = expunge b s
handle b o req move_cmd s = in_state selected b req.refusal move_cmd s
handle b o req fetch_cmd s = in_state selected b req.refusal fetch_cmd s
handle b o req copy_cmd s = copy b req.uid req.refusal s
handle b o req search_cmd s = search selected b req search_cmd s
handle b o req sort_cmd s = in_state selected b req.refusal sort_cmd s
handle b o req thread_cmd s = in_state selected b req.refusal thread_cmd s
handle b o req cmd s = in_state authenticated b req.refusal cmd s

-- The commands whose handlers write their tagged response themselves
abbrev pub sends_ok : Command → Bool
sends_ok id_cmd = false
sends_ok starttls_cmd = false
sends_ok authenticate_cmd = false
sends_ok login_cmd = false
sends_ok (notify_cmd events) = false
sends_ok (select_cmd read_only) = false
sends_ok append_cmd = false
sends_ok copy_cmd = false
sends_ok get_metadata_cmd = false
sends_ok _ = true

-- What the client gets: the handler's own response, OK, an error, or the end of the connection
pub data Answer : Type 0 where
  written completed ended : Answer
  failed : HandlerError → Answer

abbrev pub polled : Answer → Handled → Served × Answer
polled answer (s, none) = (s, answer)
polled answer (s, some e) = (s, ended)

-- The second half of readCommand
unfoldable pub finish : Backend → Request → Handled → Served × Answer
unfolding poll
finish b req (s, none) =
    if sends_ok req.command then polled completed (poll b req.uid req.command s) else (s, written)
finish b req (s, some bye_error) = (s, ended)
finish b req (s, some ok_error) = polled (failed ok_error) (poll b req.uid req.command s)
finish b req (s, some e) = (s, failed e)

-- A handler parses its arguments before anything else; the default of the switch has none, and those of SEARCH and
-- ESEARCH settle such an error by themselves.
abbrev pub argument_error : Command → Option HandlerError → Option HandlerError
argument_error unknown_cmd e = none
argument_error search_cmd e = none
argument_error (esearch_cmd only) e = none
argument_error _ e = e

-- Conn.readCommand
unfoldable pub read_command : Backend → Options → Request → Served → Served × Answer
unfolding handle finish
read_command b o req s =
    let r = unless (argument_error req.command req.parse_error) s (handle b o req req.command s) in
    if req.desynchronized then (r.0, ended) else finish b req r

-- The loop of Conn.serve
abbrev pub stops : Answer → Bool
stops ended = true
stops _ = false

unfoldable pub serve : Backend → Options → List Request → Served → Served
unfolding read_command
serve b o [] s = s
serve b o (req ∷ reqs) s =
    let (s', answer) = read_command b o req s in
    let rest = serve b o reqs s' in
    if same_state s.conn.state logged_out then s else if stops answer then s' else rest

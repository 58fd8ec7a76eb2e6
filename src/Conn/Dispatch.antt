-- ===== src/Conn/Dispatch.antt =====
-- imapserver/conn.go: no command leads to a call that the state of the connection does not allow.
use go_imap.Prelude.{refl, true, false}
use go_imap.Conn.{
  Command, Options, Served, Backend, authenticated, selected, noop_cmd, logout_cmd, capability_cmd,
  id_cmd, starttls_cmd, authenticate_cmd, unauthenticate_cmd, login_cmd, enable_cmd, create_cmd,
  delete_cmd, rename_cmd, subscribe_cmd, unsubscribe_cmd, status_cmd, list_cmd, lsub_cmd,
  namespace_cmd, get_acl_cmd, set_acl_cmd, delete_acl_cmd, list_rights_cmd, my_rights_cmd, idle_cmd,
  append_cmd, get_metadata_cmd, set_metadata_cmd, expunge_cmd, store_cmd, copy_cmd, move_cmd,
  fetch_cmd, search_cmd, sort_cmd, thread_cmd, unknown_cmd, notify_cmd, select_cmd, unselect_cmd,
  esearch_cmd, session_id,
}
use go_imap.Conn.Handlers.{Request, expunge, handle}
use go_imap.Conn.Laws.{AllAllowed, check_logged_in, check_in_mailbox}
use go_imap.Conn.Safe.{
  in_state-allowed, authenticating-allowed, unauthenticate-allowed, select-allowed,
  unselect-allowed, store-allowed, expunge-allowed, copy-allowed, notify-allowed, unknown-allowed,
  starttls-allowed,
}
use go_imap.Conn.Asked.{tell-allowed, append-allowed, enable-allowed, search-allowed}

pub handle-allowed :
    (b : Backend) (o : Options) (req : Request) (cmd : Command) (s : Served)
    → AllAllowed o s
    → AllAllowed o (handle b o req cmd s).0
unfolding handle
handle-allowed b o req noop_cmd s w = w
handle-allowed b o req capability_cmd s w = w
handle-allowed b o req id_cmd s w = tell-allowed o b.has_id session_id s (λ h. refl) w
handle-allowed b o req logout_cmd s w = w
handle-allowed b o req unknown_cmd s w = unknown-allowed o s w
handle-allowed b o req starttls_cmd s w = starttls-allowed o req.buffered s w
handle-allowed b o req login_cmd s w = authenticating-allowed b o req.refusal login_cmd s (λ h. h) w
handle-allowed b o req authenticate_cmd s w =
    authenticating-allowed b o req.refusal authenticate_cmd s (λ h. h) w
handle-allowed b o req unauthenticate_cmd s w = unauthenticate-allowed b o req.refusal s w
handle-allowed b o req (select_cmd read_only) s w = select-allowed b o read_only s w
handle-allowed b o req (unselect_cmd expunge) s w = unselect-allowed b o expunge s w
handle-allowed b o req (notify_cmd events) s w = notify-allowed b o req.refusal events s w
handle-allowed b o req (esearch_cmd true) s w =
    search-allowed selected b o req (esearch_cmd true) s (check_in_mailbox s.conn) w
handle-allowed b o req (esearch_cmd false) s w =
    search-allowed authenticated b o req (esearch_cmd false) s (check_logged_in s.conn) w
handle-allowed b o req store_cmd s w = store-allowed b o s w
handle-allowed b o req expunge_cmd s w = expunge-allowed b o s w
handle-allowed b o req move_cmd s w =
    in_state-allowed o selected b req.refusal move_cmd s (check_in_mailbox s.conn) w
handle-allowed b o req fetch_cmd s w =
    in_state-allowed o selected b req.refusal fetch_cmd s (check_in_mailbox s.conn) w
handle-allowed b o req copy_cmd s w = copy-allowed b o req.uid req.refusal s w
handle-allowed b o req search_cmd s w =
    search-allowed selected b o req search_cmd s (check_in_mailbox s.conn) w
handle-allowed b o req sort_cmd s w =
    in_state-allowed o selected b req.refusal sort_cmd s (check_in_mailbox s.conn) w
handle-allowed b o req thread_cmd s w =
    in_state-allowed o selected b req.refusal thread_cmd s (check_in_mailbox s.conn) w
handle-allowed b o req enable_cmd s w = enable-allowed o s w
handle-allowed b o req create_cmd s w =
    in_state-allowed o authenticated b req.refusal create_cmd s (check_logged_in s.conn) w
handle-allowed b o req delete_cmd s w =
    in_state-allowed o authenticated b req.refusal delete_cmd s (check_logged_in s.conn) w
handle-allowed b o req rename_cmd s w =
    in_state-allowed o authenticated b req.refusal rename_cmd s (check_logged_in s.conn) w
handle-allowed b o req subscribe_cmd s w =
    in_state-allowed o authenticated b req.refusal subscribe_cmd s (check_logged_in s.conn) w
handle-allowed b o req unsubscribe_cmd s w =
    in_state-allowed o authenticated b req.refusal unsubscribe_cmd s (check_logged_in s.conn) w
handle-allowed b o req status_cmd s w =
    in_state-allowed o authenticated b req.refusal status_cmd s (check_logged_in s.conn) w
handle-allowed b o req list_cmd s w =
    in_state-allowed o authenticated b req.refusal list_cmd s (check_logged_in s.conn) w
handle-allowed b o req lsub_cmd s w =
    in_state-allowed o authenticated b req.refusal lsub_cmd s (check_logged_in s.conn) w
handle-allowed b o req namespace_cmd s w =
    in_state-allowed o authenticated b req.refusal namespace_cmd s (check_logged_in s.conn) w
handle-allowed b o req get_acl_cmd s w =
    in_state-allowed o authenticated b req.refusal get_acl_cmd s (check_logged_in s.conn) w
handle-allowed b o req set_acl_cmd s w =
    in_state-allowed o authenticated b req.refusal set_acl_cmd s (check_logged_in s.conn) w
handle-allowed b o req delete_acl_cmd s w =
    in_state-allowed o authenticated b req.refusal delete_acl_cmd s (check_logged_in s.conn) w
handle-allowed b o req list_rights_cmd s w =
    in_state-allowed o authenticated b req.refusal list_rights_cmd s (check_logged_in s.conn) w
handle-allowed b o req my_rights_cmd s w =
    in_state-allowed o authenticated b req.refusal my_rights_cmd s (check_logged_in s.conn) w
handle-allowed b o req idle_cmd s w =
    in_state-allowed o authenticated b req.refusal idle_cmd s (check_logged_in s.conn) w
handle-allowed b o req append_cmd s w = append-allowed b o req.refusal s w
handle-allowed b o req get_metadata_cmd s w =
    in_state-allowed o authenticated b req.refusal get_metadata_cmd s (check_logged_in s.conn) w
handle-allowed b o req set_metadata_cmd s w =
    in_state-allowed o authenticated b req.refusal set_metadata_cmd s (check_logged_in s.conn) w

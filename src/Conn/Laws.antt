-- ===== src/Conn/Laws.antt =====
-- imapserver/conn.go: which calls of the session a connection makes in which state
use go_imap.Prelude.{
  ◌≡◌, refl, Bool, true, false, not, ◌&&◌, ◌||◌, [], ◌∷◌, Option, none, some, All, All-append,
  arith,
}
use go_imap.Conn.{
  Command, HandlerError, Call, Conn, Options, Served, Backend, Handled, not_authenticated,
  authenticated, selected, noop_cmd, logout_cmd, capability_cmd, id_cmd, starttls_cmd, enable_cmd,
  unknown_cmd, unselect_cmd, session_id, session_append_limit, session_reset_search_res,
  authenticate_cmd, login_cmd, expunge_cmd, store_cmd, copy_cmd, move_cmd, fetch_cmd, search_cmd,
  sort_cmd, thread_cmd, esearch_cmd, session_unselect, session_expunge, session_command,
  session_poll, check_state, check_writable_mailbox, can_auth, same_state, invoke,
}
use go_imap.Conn.Handlers.{unless, and_then}

abbrev pub logged_in : Conn → Bool
logged_in c = same_state c.state authenticated || same_state c.state selected

abbrev pub in_mailbox : Conn → Bool
in_mailbox c = same_state c.state selected

-- The client may show its password: TLS is in use, as the server's own test finds if it has one, or no TLS is needed.
abbrev pub is_private : Option Bool → Bool → Bool
is_private none is_tls = is_tls
is_private (some custom) is_tls = custom

abbrev pub may_log_in : Options → Conn → Bool
may_log_in o c =
    same_state c.state not_authenticated && (is_private o.custom_tls c.is_tls || o.insecure_auth)

-- The commands that RFC 9051 allows in a state, and the changes that it allows in a mailbox; those that never reach
-- the session are not allowed at all.
abbrev pub allowed_command : Options → Conn → Command → Bool
allowed_command o c noop_cmd = false
allowed_command o c logout_cmd = false
allowed_command o c capability_cmd = false
allowed_command o c id_cmd = false
allowed_command o c starttls_cmd = false
allowed_command o c enable_cmd = false
allowed_command o c unknown_cmd = false
allowed_command o c (unselect_cmd expunge) = false
allowed_command o c login_cmd = may_log_in o c
allowed_command o c authenticate_cmd = may_log_in o c
allowed_command o c store_cmd =
    in_mailbox c && (c.selected_private_store || not c.selected_read_only)
allowed_command o c expunge_cmd = in_mailbox c && not c.selected_read_only
allowed_command o c fetch_cmd = in_mailbox c
allowed_command o c copy_cmd = in_mailbox c
allowed_command o c move_cmd = in_mailbox c
allowed_command o c search_cmd = in_mailbox c
allowed_command o c sort_cmd = in_mailbox c
allowed_command o c thread_cmd = in_mailbox c
allowed_command o c (esearch_cmd true) = in_mailbox c
allowed_command o c cmd = logged_in c

abbrev pub allowed : Options → Conn → Call → Bool
allowed o c session_unselect = in_mailbox c
allowed o c session_expunge = in_mailbox c && not c.selected_read_only
allowed o c session_id = true
allowed o c session_append_limit = true
allowed o c session_reset_search_res = in_mailbox c
allowed o c (session_poll b) = logged_in c
allowed o c (session_command cmd) = allowed_command o c cmd

abbrev pub IsAllowed : Options → Conn × Call → Type 0
IsAllowed o (c, call) = allowed o c call ≡ true

abbrev pub AllAllowed : Options → Served → Type 0
AllAllowed o s = All (IsAllowed o) s.calls

pub invoke-allowed :
    (o : Options) (b : Backend) (call : Call) (s : Served)
    → allowed o s.conn call ≡ true
    → AllAllowed o s
    → AllAllowed o (invoke b call s).0
invoke-allowed o b call s h w = All-append (IsAllowed o) s.calls ((s.conn, call) ∷ []) w (h, tt)

pub unless-allowed :
    (o : Options) (e : Option HandlerError) (s : Served) (rest : Handled)
    → AllAllowed o s
    → (e ≡ none → AllAllowed o rest.0)
    → AllAllowed o (unless e s rest).0
unless-allowed o none s rest w f = f refl
unless-allowed o (some e) s rest w f = w

pub and_then-allowed :
    (o : Options) (r : Handled) (f : Served → Handled)
    → AllAllowed o r.0
    → (r.1 ≡ none → AllAllowed o (f r.0).0)
    → AllAllowed o (and_then r f).0
and_then-allowed o (s, some e) f w g = w
and_then-allowed o (s, none) f w g = g refl

pub check_logged_in : (c : Conn) → check_state authenticated c ≡ none → logged_in c ≡ true
unfolding check_state
check_logged_in c h = ground arith

pub check_in_mailbox : (c : Conn) → check_state selected c ≡ none → in_mailbox c ≡ true
unfolding check_state
check_in_mailbox c h = ground arith

pub check_writable :
    (c : Conn) → check_writable_mailbox c ≡ none → (in_mailbox c && not c.selected_read_only) ≡ true
unfolding check_writable_mailbox check_state
check_writable c h = ground arith

pub check_may_log_in :
    (o : Options) (c : Conn)
    → check_state not_authenticated c ≡ none
    → can_auth o c ≡ true
    → may_log_in o c ≡ true
unfolding check_state can_auth
check_may_log_in o c h e = elim_tls o.custom_tls refl
  where
    elim_tls : (t : Option Bool) → o.custom_tls ≡ t → may_log_in o c ≡ true
    elim_tls none f = rw f (rw f at e)
    elim_tls (some custom) f = rw f (rw f at e)

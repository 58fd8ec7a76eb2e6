-- ===== src/Conn/Runs.antt =====
-- imapserver/conn.go: whole conversations
use go_imap.Prelude.{
  ◌≡◌, refl, Bool, true, false, ◌||◌, List, [], ◌∷◌, if◌then◌else◌, none, some, Bool-cases, inl,
  inr, ◌⊎◌,
}
use go_imap.Conn.{
  ConnState, Command, Conn, Options, Served, Backend, Handled, state_none, not_authenticated,
  authenticated, selected, logged_out, logout_cmd, unknown_cmd, same_state, ok_error, no_error,
  no_perm_error, bad_error, bye_error, decoder_error, other_error,
}
use go_imap.Conn.Handlers.{
  Request, ended, poll, handle, sends_ok, finish, read_command, argument_error, unless, stops,
  serve,
}

serve_logged_out :
    (b : Backend) (o : Options) (reqs : List Request) (s : Served)
    → same_state s.conn.state logged_out ≡ true
    → serve b o reqs s ≡ s
unfolding serve
serve_logged_out b o [] s h = refl
serve_logged_out b o (req ∷ reqs) s h = rw h refl

-- A request behind which a connection serves nothing
abbrev pub IsLast : Request → Conn → Type 0
IsLast req c =
    ((req.command ≡ logout_cmd) × (req.parse_error ≡ none))
    ⊎ ((req.command ≡ unknown_cmd) × (same_state c.state not_authenticated ≡ true))

not_logged_in :
    (st : ConnState)
    → same_state st logged_out ≡ true
    → (same_state st authenticated || same_state st selected) ≡ false
not_logged_in state_none h = refl
not_logged_in not_authenticated h = refl
not_logged_in authenticated h = cc h
not_logged_in selected h = cc h
not_logged_in logged_out h = refl

poll_logged_out :
    (b : Backend) (uid : Bool) (cmd : Command) (s : Served)
    → same_state s.conn.state logged_out ≡ true
    → poll b uid cmd s ≡ (s, none)
unfolding poll
poll_logged_out b uid cmd s h = rw (not_logged_in s.conn.state h) refl

finish_logged_out :
    (b : Backend) (req : Request) (r : Handled)
    → same_state r.0.conn.state logged_out ≡ true
    → (finish b req r).0 ≡ r.0
unfolding finish
finish_logged_out b req (s, none) h = elim (Bool-cases (sends_ok req.command)) [
  | inl y ↦ rw (y, poll_logged_out b req.uid req.command s h) refl
  | inr n ↦ rw n refl
]
finish_logged_out b req (s, some bye_error) h = refl
finish_logged_out b req (s, some ok_error) h = rw (poll_logged_out b req.uid req.command s h) refl
finish_logged_out b req (s, some no_error) h = refl
finish_logged_out b req (s, some no_perm_error) h = refl
finish_logged_out b req (s, some bad_error) h = refl
finish_logged_out b req (s, some decoder_error) h = refl
finish_logged_out b req (s, some other_error) h = refl

abbrev Closed : Served → Served → Type 0
Closed s s' = (s'.calls ≡ s.calls) × (same_state s'.conn.state logged_out ≡ true)

Closed-after :
    (b : Backend) (req : Request) (r : Handled) (s : Served) (lost : Bool)
    → Closed s r.0
    → Closed s (if lost then (r.0, ended) else finish b req r).0
Closed-after b req r s true h = h
Closed-after b req r s false (c, h) = rw (finish_logged_out b req r h) (c, h)

last_handled :
    (b : Backend) (o : Options) (req : Request) (s : Served)
    → IsLast req s.conn
    → Closed s
        (unless (argument_error req.command req.parse_error) s (handle b o req req.command s)).0
unfolding handle
last_handled b o req s (inl (e, f)) = rw (e, f) (refl, refl)
last_handled b o req s (inr (e, h)) = rw (e, h) (refl, refl)

-- LOGOUT in any state, and an unknown command before authentication, end the conversation: whatever the client sent
-- behind them, the session is not called again, and the connection is left in the logout state.
pub serve_last :
    (b : Backend) (o : Options) (req : Request) (reqs : List Request) (s : Served)
    → IsLast req s.conn
    → ((serve b o (req ∷ reqs) s).calls ≡ s.calls)
      × (same_state (serve b o (req ∷ reqs) s).conn.state logged_out ≡ true)
unfolding serve read_command
serve_last b o req reqs s last =
    let (same, out) = Closed-after b req _ s req.desynchronized (last_handled b o req s last) in
    let s' = (read_command b o req s).0 in
    elim (Bool-cases (same_state s.conn.state logged_out)) [
      | inl y ↦ rw y (refl, y)
      | inr n ↦ elim (Bool-cases (stops (read_command b o req s).1)) [
        | inl y ↦ rw (n, y) (same, out)
        | inr n' ↦ rw (n, n', serve_logged_out b o reqs s' out) (same, out)
      ]
    ]

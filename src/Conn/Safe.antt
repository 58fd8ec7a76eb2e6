-- ===== src/Conn/Safe.antt =====
-- imapserver/conn.go: no handler that checks the state makes a call that the state does not allow.
use go_imap.Prelude.{
  ◌≡◌, refl, ap, ◌∙◌, Bool, true, false, not, ◌&&◌, ◌||◌, if◌then◌else◌, Option, none, some,
  Bool-cases, Option-cases, inl, inr, arith,
}
use go_imap.Conn.{
  ConnState, Command, HandlerError, Options, Served, Backend, Handled, not_authenticated,
  authenticated, selected, unauthenticate_cmd, expunge_cmd, store_cmd, copy_cmd, notify_cmd,
  select_cmd, session_unselect, session_expunge, session_command, session_poll, check_state,
  check_writable_mailbox, can_auth, can_start_tls, message_events_enabled, same_state, invoke,
  ok_error, no_error, no_perm_error, bad_error, bye_error, decoder_error, other_error,
}
use go_imap.Conn.Handlers.{
  in_state, authenticating, unauthenticate, leave_selected, select, ignore_no_perm,
  expunge_for_close, unselect, starttls, store, expunge, copy, notify, unknown, poll,
  expunge_reporting_cmd, uses_seq_nums,
}
use go_imap.Conn.Laws.{
  logged_in, in_mailbox, allowed_command, AllAllowed, invoke-allowed, unless-allowed,
  and_then-allowed, check_logged_in, check_may_log_in, may_log_in, check_in_mailbox, check_writable,
}

pub in_state-allowed :
    (o : Options) (wanted : ConnState) (b : Backend) (refusal : Option HandlerError) (cmd : Command)
    (s : Served)
    → (check_state wanted s.conn ≡ none → allowed_command o s.conn cmd ≡ true)
    → AllAllowed o s
    → AllAllowed o (in_state wanted b refusal cmd s).0
in_state-allowed o wanted b refusal cmd s f w =
    unless-allowed o (check_state wanted s.conn) s _ w (λ h.
      unless-allowed o refusal s _ w (λ e. invoke-allowed o b (session_command cmd) s (f h) w))

pub authenticating-allowed :
    (b : Backend) (o : Options) (refusal : Option HandlerError) (cmd : Command) (s : Served)
    → (may_log_in o s.conn ≡ true → allowed_command o s.conn cmd ≡ true)
    → AllAllowed o s
    → AllAllowed o (authenticating b o refusal cmd s).0
authenticating-allowed b o refusal cmd s f w =
    unless-allowed o (check_state not_authenticated s.conn) s _ w (λ h.
      elim (Bool-cases (can_auth o s.conn)) [
        | inl y ↦
            let done =
              invoke-allowed o b (session_command cmd) s (f (check_may_log_in o s.conn h y)) w in
            rw y (
              unless-allowed o refusal s _ w
                (λ e. and_then-allowed o (invoke b (session_command cmd) s) _ done (λ e'. done)))
        | inr n ↦ rw n w
      ])

pub unauthenticate-allowed :
    (b : Backend) (o : Options) (refusal : Option HandlerError) (s : Served)
    → AllAllowed o s
    → AllAllowed o (unauthenticate b refusal s).0
unauthenticate-allowed b o refusal s w =
    let done =
      in_state-allowed o authenticated b refusal unauthenticate_cmd s (check_logged_in s.conn) w in
    and_then-allowed o (in_state authenticated b refusal unauthenticate_cmd s) _ done (λ e. done)

pub leave_selected-allowed :
    (b : Backend) (o : Options) (s : Served)
    → logged_in s.conn ≡ true
    → AllAllowed o s
    → AllAllowed o (leave_selected b s).0
      × ((leave_selected b s).1 ≡ none → logged_in (leave_selected b s).0.conn ≡ true)
leave_selected-allowed b o s h w = elim (Bool-cases (same_state s.conn.state selected)) [
  | inr n ↦ rw n (w, λ e. h)
  | inl y ↦
      let done = invoke-allowed o b session_unselect s y w in
      elim (Option-cases (b.reply s.calls session_unselect)) [
        | inl e ↦ rw (y, e) (done, λ e'. refl)
        | inr (err, e) ↦ rw (y, e) (done, λ e'. cc e')
      ]
]

pub select-allowed :
    (b : Backend) (o : Options) (read_only : Bool) (s : Served)
    → AllAllowed o s
    → AllAllowed o (select b read_only s).0
select-allowed b o read_only s w = unless-allowed o (check_state authenticated s.conn) s _ w (λ h.
    let (left, still) = leave_selected-allowed b o s (check_logged_in s.conn h) w in
    and_then-allowed o (leave_selected b s) _ left (λ e.
      let done =
        invoke-allowed o b (session_command (select_cmd read_only)) (leave_selected b s).0 (still e)
          left in
      and_then-allowed o (invoke b (session_command (select_cmd read_only)) (leave_selected b s).0)
        _ done (λ e'. done)))

pub ignored : (r : Handled) → (ignore_no_perm r).0 ≡ r.0
ignored (s, none) = refl
ignored (s, some ok_error) = refl
ignored (s, some no_error) = refl
ignored (s, some no_perm_error) = refl
ignored (s, some bad_error) = refl
ignored (s, some bye_error) = refl
ignored (s, some decoder_error) = refl
ignored (s, some other_error) = refl

pub expunge_for_close-allowed :
    (b : Backend) (o : Options) (expunge : Bool) (s : Served)
    → in_mailbox s.conn ≡ true
    → AllAllowed o s
    → AllAllowed o (expunge_for_close b expunge s).0
      × ((expunge_for_close b expunge s).0.conn ≡ s.conn)
expunge_for_close-allowed b o expunge s h w =
    elim (Bool-cases (expunge && not s.conn.selected_read_only)) [
      | inl y ↦
          let same = ignored (invoke b session_expunge s) in
          rw (y, same) (invoke-allowed o b session_expunge s (ground (arith, y, h)) w, refl)
      | inr n ↦ rw n (w, refl)
    ]

pub unselect-allowed :
    (b : Backend) (o : Options) (expunge : Bool) (s : Served)
    → AllAllowed o s
    → AllAllowed o (unselect b expunge s).0
unselect-allowed b o expunge s w = unless-allowed o (check_state selected s.conn) s _ w (λ h.
    let inside = check_in_mailbox s.conn h in
    let (first, same) = expunge_for_close-allowed b o expunge s inside w in
    and_then-allowed o (expunge_for_close b expunge s) _ first (λ e.
      let s' = (expunge_for_close b expunge s).0 in
      let done = invoke-allowed o b session_unselect s' (ap in_mailbox same ∙ inside) first in
      and_then-allowed o (invoke b session_unselect s') _ done (λ e'. done)))

pub store-allowed :
    (b : Backend) (o : Options) (s : Served) → AllAllowed o s → AllAllowed o (store b s).0
unfolding check_writable_mailbox
store-allowed b o s w = unless-allowed o (check_state selected s.conn) s _ w (λ h.
    let inside = check_in_mailbox s.conn h in
    unless-allowed o _ s _ w
      (λ e. invoke-allowed o b (session_command store_cmd) s (writable inside e) w))
  where
    writable :
        in_mailbox s.conn ≡ true
        → (if s.conn.selected_private_store then none else check_writable_mailbox s.conn) ≡ none
        → (in_mailbox s.conn && (s.conn.selected_private_store || not s.conn.selected_read_only))
          ≡ true
    writable inside e = elim (Bool-cases s.conn.selected_private_store) [
      | inl y ↦ rw y (ground (arith, inside))
      | inr n ↦ rw n (ground (arith, check_writable s.conn (rw n at e)))
    ]

pub expunge-allowed :
    (b : Backend) (o : Options) (s : Served) → AllAllowed o s → AllAllowed o (expunge b s).0
expunge-allowed b o s w =
    unless-allowed o (check_writable_mailbox s.conn) s _ w
      (λ h. invoke-allowed o b (session_command expunge_cmd) s (check_writable s.conn h) w)

pub poll-allowed :
    (b : Backend) (o : Options) (uid : Bool) (cmd : Command) (s : Served)
    → AllAllowed o s
    → AllAllowed o (poll b uid cmd s).0
unfolding poll
poll-allowed b o uid cmd s w =
    elim (Bool-cases
      (logged_in s.conn && (expunge_reporting_cmd cmd || message_events_enabled s.conn))) [
        | inl y ↦
            let inside : logged_in s.conn ≡ true = ground (arith, y) in
            rw y (invoke-allowed o b (session_poll (uid || not (uses_seq_nums cmd))) s inside w)
        | inr n ↦ rw n w
      ]

pub copy-allowed :
    (b : Backend) (o : Options) (uid : Bool) (refusal : Option HandlerError) (s : Served)
    → AllAllowed o s
    → AllAllowed o (copy b uid refusal s).0
copy-allowed b o uid refusal s w =
    let done = in_state-allowed o selected b refusal copy_cmd s (check_in_mailbox s.conn) w in
    and_then-allowed o (in_state selected b refusal copy_cmd s) _ done
      (λ e. poll-allowed b o uid copy_cmd (in_state selected b refusal copy_cmd s).0 done)

pub notify-allowed :
    (b : Backend) (o : Options) (refusal : Option HandlerError) (events : Bool) (s : Served)
    → AllAllowed o s
    → AllAllowed o (notify b refusal events s).0
notify-allowed b o refusal events s w =
    let done =
      in_state-allowed o authenticated b refusal (notify_cmd events) s (check_logged_in s.conn) w in
    and_then-allowed o (in_state authenticated b refusal (notify_cmd events) s) _ done
      (λ e. poll-allowed b o false (notify_cmd events) _ done)

pub either-allowed :
    (o : Options) (c : Bool) (x y : Handled)
    → AllAllowed o x.0
    → AllAllowed o y.0
    → AllAllowed o (if c then x else y).0
either-allowed o true x y wx wy = wx
either-allowed o false x y wx wy = wy

pub unknown-allowed : (o : Options) (s : Served) → AllAllowed o s → AllAllowed o (unknown s).0
unknown-allowed o s w = either-allowed o (same_state s.conn.state not_authenticated) _ _ w w

pub starttls-allowed :
    (o : Options) (buffered : Bool) (s : Served)
    → AllAllowed o s
    → AllAllowed o (starttls o buffered s).0
starttls-allowed o buffered s w =
    either-allowed o (not o.tls_config) _ _ w
      (either-allowed o (not (can_start_tls o s.conn)) _ _ w (either-allowed o buffered _ _ w w))

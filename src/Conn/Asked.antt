-- ===== src/Conn/Asked.antt =====
-- imapserver/append.go, search.go and enable.go: the calls that these handlers make beside the one for the command
use go_imap.Prelude.{
  ◌≡◌, refl, [], ◌∷◌, All-append, Bool, true, false, not, ◌||◌, Option, none, some, Bool-cases, inl,
  inr, arith,
}
use go_imap.Conn.{
  Call, ConnState, Command, HandlerError, Options, Served, Backend, authenticated, selected,
  append_cmd, session_command, check_state, same_state, tell, session_append_limit,
  session_reset_search_res,
}
use go_imap.Conn.Handlers.{
  append, enable, reset_search_res, fail_search_before_backend, search_unless, first_error, search,
  is_no, Request,
}
use go_imap.Conn.Laws.{
  allowed, in_mailbox, allowed_command, AllAllowed, IsAllowed, invoke-allowed, unless-allowed,
  check_logged_in,
}
use go_imap.Conn.Safe.{in_state-allowed}

pub tell-allowed :
    (o : Options) (has : Bool) (call : Call) (s : Served)
    → (has ≡ true → allowed o s.conn call ≡ true)
    → AllAllowed o s
    → AllAllowed o (tell has call s)
tell-allowed o false call s h w = w
tell-allowed o true call s h w =
    All-append (IsAllowed o) s.calls ((s.conn, call) ∷ []) w (h refl, tt)

pub append-allowed :
    (b : Backend) (o : Options) (refusal : Option HandlerError) (s : Served)
    → AllAllowed o s
    → AllAllowed o (append b refusal s).0
append-allowed b o refusal s w =
    let s' = tell b.has_append_limit session_append_limit s in
    in_state-allowed o authenticated b refusal append_cmd s' (check_logged_in s'.conn)
      (tell-allowed o b.has_append_limit session_append_limit s (λ h. refl) w)

pub enable-allowed : (o : Options) (s : Served) → AllAllowed o s → AllAllowed o (enable s).0
enable-allowed o s w = unless-allowed o (check_state authenticated s.conn) s (s, none) w (λ e. w)

pub reset-allowed :
    (b : Backend) (o : Options) (e : HandlerError) (bad : Option HandlerError) (s : Served)
    → in_mailbox s.conn ≡ true
    → AllAllowed o s
    → AllAllowed o (reset_search_res b e bad s).0
reset-allowed b o e (some bad) s h w = w
reset-allowed b o e none s h w =
    tell-allowed o b.has_search_res session_reset_search_res s (λ y. h) w

pub fail_search-allowed :
    (b : Backend) (o : Options) (req : Request) (e : HandlerError) (s : Served)
    → AllAllowed o s
    → AllAllowed o (fail_search_before_backend b req e s).0
fail_search-allowed b o req e s w =
    elim (Bool-cases (not req.save || (not (same_state s.conn.state selected) || not (is_no e)))) [
      | inl y ↦ rw y w
      | inr n ↦ rw n (reset-allowed b o e req.save_error s (ground (arith, n)) w)
    ]

pub search_unless-allowed :
    (b : Backend) (o : Options) (req : Request) (cmd : Command) (failure : Option HandlerError)
    (s : Served)
    → (failure ≡ none → allowed_command o s.conn cmd ≡ true)
    → AllAllowed o s
    → AllAllowed o (search_unless failure b req cmd s).0
search_unless-allowed b o req cmd (some e) s f w = fail_search-allowed b o req e s w
search_unless-allowed b o req cmd none s f w = invoke-allowed o b (session_command cmd) s (f refl) w

pub second_error :
    (e e' e'' : Option HandlerError) → first_error e (first_error e' e'') ≡ none → e' ≡ none
second_error (some e) e' e'' h = cc h
second_error none (some e) e'' h = cc h
second_error none none e'' h = refl

pub search-allowed :
    (wanted : ConnState) (b : Backend) (o : Options) (req : Request) (cmd : Command) (s : Served)
    → (check_state wanted s.conn ≡ none → allowed_command o s.conn cmd ≡ true)
    → AllAllowed o s
    → AllAllowed o (search wanted b req cmd s).0
search-allowed wanted b o req cmd s f w =
    search_unless-allowed b o req cmd _ s
      (λ h. f (second_error req.parse_error (check_state wanted s.conn) req.refusal h)) w

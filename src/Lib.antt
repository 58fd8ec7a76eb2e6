-- ===== src/Lib.antt =====
-- The server-side core of go-imap: sets of message numbers, the tracker of a mailbox's changes, the in-memory
-- mailbox with its STORE, SEARCH, EXPUNGE, APPEND and SELECT, the mailboxes of a user and what a session does
-- to them, the criteria of SEARCH, the matching of LIST patterns, COPYUID mappings, sets of access rights,
-- the encoder and the decoder of the wire format, modified UTF-7, and the states of a server's connection.
--
-- How the parts interact. imapserver/tracker.go keeps, for every session, the queue of the changes that its
-- client has not been told; it translates sequence numbers between the mailbox and the view of the session.
-- imapserver/imapmemserver/mailbox.go holds the messages, and reports every change to its tracker; its commands
-- resolve message numbers through the tracker and collect their answers in number sets of
-- internal/imapnum/numset.go. search.go is what SEARCH looks for; internal/listmatch.go is used by LIST.
-- imapserver/imapmemserver/user.go keeps the mailboxes of a user by name, and session.go copies and moves
-- messages between them. internal/imapwire reads and writes all of this on a connection; the names of mailboxes
-- go through internal/utf7 there. imapserver/conn.go reads commands and calls the session as the state of the
-- connection allows.
--
-- Which file models which part:
--   NumSet        internal/imapnum/numset.go: Range and Set; merge, search, insert, add_num, add_range, add_set,
--                 dynamic, set_contains, nums, cardinality. NumSet/Text has the printing and parsing: set_string,
--                 parse_num, parse_num_range, parse_set.
--   Strconv       the functions of Go's strconv and strings that these use.
--   Tracker       imapserver/tracker.go: MailboxTracker and SessionTracker; new_session, queue_expunge,
--                 queue_num_messages, queue_mailbox_flags, queue_message_flags, decode_seq_num, encode_seq_num,
--                 encode_num_messages. Tracker/Poll has dequeue, deliver and poll; Tracker/Run has Close and Idle
--                 as actions, and the runs of all critical sections as a step relation; Tracker/Told what
--                 the clients count in them.
--   MemMailbox    imapserver/imapmemserver/mailbox.go and message.go: Mailbox and Message; append_bytes,
--                 expunge_locked, expunge. MemMailbox/Select has selectData, Static staticNumSet, Store the loop of
--                 STORE and message.store, Search message.search, Find MailboxView.Search.
--   SearchCriteria  search.go: the criteria and And.
--   UidMapping    uidmapping.go: UIDMapping with Add, All, Cardinality and Validate. UidMapping/Wire has ParseUIDMapping
--                 of internal/imapwire/uidmapping.go.
--   Acl           acl.go and internal/acl.go: sets of rights.
--   MemUser       imapserver/imapmemserver/user.go: User; create, delete, rename, set_subscribed, has_children, listed
--                 (the choice of List). MemUser/Names is the map of names, MemUser/Spec what the names promise.
--                 MemUser/Access has GetACL, SetACL, DeleteACL and MyRights, MemUser/Metadata GetMetadata and
--                 SetMetadata of session.go.
--   MemSession    imapserver/imapmemserver/session.go: copy, move, and append of user.go.
--   Conn          imapserver/conn.go: Conn with checkState, checkWritableMailbox and canAuth. Conn/Handlers has the
--                 handlers of commands, of select.go, login.go, authenticate.go, store.go, expunge.go, copy.go,
--                 append.go, search.go, id.go, enable.go and starttls.go beside it, the switch and the rest of
--                 readCommand, poll, and the loop of serve.
--   Wire          internal/imapwire/decoder.go and limit_reader.go: the state of a Decoder and its readers.
--                 Wire/Strings has quoted strings and literals, Wire/Discard DiscardLine and
--                 EndsWithNonSyncLiteral, Wire/Mailbox mailboxes and number sets, Wire/Encoder encoder.go.
--   Utf7          internal/utf7: encode and decode; Utf7/Base64 is encoding/base64, Utf7/Units unicode/utf16.
--   ListMatch     internal/listmatch.go: match_name (matchList), match_list (MatchList), match_pattern. The
--                 reference matcher is ListMatch/Reference.
--
-- How state is modelled. A critical section under a mutex is one function from state to state, so a run is a
-- sequence of them in any order. Machine integers keep their wrap-around: % 2 ^ 32 for numbers and UIDs,
-- % 2 ^ 64 for modification sequences. Texts are lists of bytes. A pointer to a session tracker is its place in the
-- mailbox's list, one to a message its UID, one to a mailbox its place among all that were ever made. Maps are
-- lists without repetition. The writer of Poll is a parameter, so a write may fail at any point.
--
-- Fuel. The binary search is given the length of the set, which its interval never exceeds; the loop that
-- absorbs entries behind an insertion is given the number of those entries; the loop of a range's numbers takes
-- its fuel as an argument, since it does not end for every range. The loop that pairs two sets
-- of UIDs is given the number of their ranges, of which every round uses up one. Decimal numbers are printed with
-- twenty digits, which 64 bits never exceed. The readers of the decoder are given the length of their
-- input and one, as each round takes a byte; the loops of modified UTF-7 the length of their text, and
-- one more in Decode, as each round takes a byte. All other loops are structural.
--
-- Not modelled: sharing of backing arrays between slices; the text of errors; the list of known flags; the
-- delivery of notifications; lists with callbacks in the wire format; the arguments of commands, sockets,
-- timeouts, shutdown and the client. What the session of a connection answers is a parameter of Conn. The
-- writer under the encoder takes all it is given. What go-message reads from the text of a message and
-- Unicode's lower case are parameters of SEARCH. Times are the seconds that a clock shows in its zone.
pub mod Prelude
pub mod Strconv
pub mod NumSet
pub mod Tracker
pub mod MemMailbox
pub mod SearchCriteria
pub mod ListMatch
pub mod UidMapping
pub mod Acl
pub mod Wire
pub mod Utf7
pub mod MemUser
pub mod MemSession
pub mod Conn

-- ===== src/MemSession/Users.antt =====
-- imapserver/imapmemserver/session.go: MOVE on the mailboxes of a user
use go_imap.Prelude.{
  ℕ, ◌<◌, ◌≡◌, ◌≢◌, ◌∙◌, refl, ap, true, false, List, ◌++◌, ◌==◌, Option, none, some, get_elem?,
  length, arith,
}
use go_imap.Strconv.{Bytes}
use go_imap.NumSet.{u32_mod}
use go_imap.MemMailbox.{Message, Mailbox}
use go_imap.MemMailbox.Append.{IsMemMailbox}
use go_imap.MemMailbox.Static.{NumSet}
use go_imap.MemUser.{Entry, User}
use go_imap.MemUser.Names.{lookup}
use go_imap.MemUser.Store.{get_elem?-update_entry}
use go_imap.MemSession.{
  Selected, identical_mailboxes, move_messages, put_mailbox, move_between, move,
}
use go_imap.MemSession.Copy.{copies, HasRoomFor}
use go_imap.MemSession.Laws.{picked, unpicked, copy_messages_lem, move_messages_lem}

abbrev messages_of : Option Entry → Option (List Message)
messages_of none = none
messages_of (some e) = some e.mailbox.l

-- The messages of the mailbox at a place
abbrev pub messages_at : ℕ → User → Option (List Message)
messages_at p u = messages_of (get_elem? u.store p)

put_mailbox-other :
    (p q : ℕ) (m : Mailbox) (u : User)
    → p ≢ q
    → get_elem? (put_mailbox p m u).store q ≡ get_elem? u.store q
put_mailbox-other p q m u h =
    let other : (p == q) ≡ false = ground (arith, h) in
    get_elem?-update_entry (λ e. record e { mailbox = m }) p q u.store ∙ rw other refl

put_mailbox-own :
    (p : ℕ) (m : Mailbox) (u : User) (e : Entry)
    → get_elem? u.store p ≡ some e
    → messages_at p (put_mailbox p m u) ≡ some m.l
put_mailbox-own p m u e h =
    let own : (p == p) ≡ true = ground arith in
    ap messages_of (get_elem?-update_entry (λ e. record e { mailbox = m }) p p u.store)
    ∙ rw (own, h) refl

-- The two mailboxes after a MOVE from the place `p` to the place `q`, and the others, which are untouched
pub record IsMoved (u u' : User) (p q : ℕ) (stays arrived : List Message) : Type 0 where
  pub source : messages_at p u' ≡ some stays
  pub dest : messages_at q u' ≡ some arrived
  pub others : (k : ℕ) → k ≢ p → k ≢ q → get_elem? u'.store k ≡ get_elem? u.store k
  pub names : u'.names ≡ u.names

module _ (now q : ℕ) (ns : NumSet) (name : Bytes) (s : Selected) (src dest : Entry) (u : User) where
  move_between-IsMoved :
      q ≢ s.place
      → get_elem? u.store s.place ≡ some src
      → get_elem? u.store q ≡ some dest
      → IsMoved u
          (move_between now ns q s (some src) (some dest) u).0
          s.place
          q
          (move_messages now src.mailbox s.view ns dest.mailbox).src.l
          (move_messages now src.mailbox s.view ns dest.mailbox).dest.l
  move_between-IsMoved differ es ed =
      let r = move_messages now src.mailbox s.view ns dest.mailbox in
      let u1 = put_mailbox q r.dest u in
      record {
        source =
            put_mailbox-own s.place r.src u1 src (put_mailbox-other q s.place r.dest u differ ∙ es);
        dest =
            ap messages_of (put_mailbox-other s.place q r.src u1 (λ e. differ (cc e)))
            ∙ put_mailbox-own q r.dest u dest ed;
        others = λ k np nq.
            put_mailbox-other s.place k r.src u1 (λ e. np (cc e))
            ∙ put_mailbox-other q k r.dest u (λ e. nq (cc e));
        names = refl;
      }

  -- MOVE from the selected mailbox to the mailbox of a name, under the conditions of COPY. If they are the same
  -- mailbox, it answers so and changes nothing. Otherwise the selected mailbox keeps exactly the messages that
  -- were not picked, in their order; the named one has its messages and behind them the copies of the picked ones; and
  -- every other mailbox of the user, and every name, is as before.
  pub move_lem :
      lookup name u.names ≡ some q
      → get_elem? u.store s.place ≡ some src
      → get_elem? u.store q ≡ some dest
      → IsMemMailbox src.mailbox
      → src.mailbox.uid_next < u32_mod
      → IsMemMailbox dest.mailbox
      → HasRoomFor dest.mailbox (length (picked src.mailbox s.view ns))
      → (q ≡ s.place → move now ns name (some s) u ≡ (u, identical_mailboxes))
        × (q ≢ s.place
            → IsMoved u (move now ns name (some s) u).0 s.place q (unpicked src.mailbox s.view ns) (
                dest.mailbox.l
                ++ copies dest.mailbox.uid_next dest.mailbox.highest_mod_seq
                    (picked src.mailbox s.view ns)))
  unfolding move
  move_lem named es ed ws next wd room =
      let (stays, arrives, pairs, total) =
        move_messages_lem now src.mailbox dest.mailbox s.view ns ws next wd room in
      let (copied, pairs_of_copy, validity, formed) =
        copy_messages_lem now src.mailbox dest.mailbox s.view ns ws next wd room in
      (
        (λ e. let same : (q == s.place) ≡ true = ground (arith, e) in rw (named, same) refl),
        λ differ.
            let other : (q == s.place) ≡ false = ground (arith, differ) in
            let all = move_between-IsMoved differ es ed in
            rw (named, es, ed, other)
              (record {
                source = all.source ∙ ap some stays;
                dest = all.dest ∙ ap some (ap (λ m. m.l) arrives ∙ copied);
                others = all.others;
                names = all.names;
              }),
      )

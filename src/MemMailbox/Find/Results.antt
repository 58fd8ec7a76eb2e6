-- ===== src/MemMailbox/Find/Results.antt =====
-- What SEARCH answers and saves, against the list of the messages that match.
use go_imap.Prelude.{
  ℕ, ◌+◌, ◌%◌, ◌<◌, ◌≡◌, ◌∙◌, refl, Bool, true, false, ◌&&◌, ◌||◌, List, [], ◌∷◌, arith, ◌==◌,
  if◌then◌else◌, All,
}
use go_imap.NumSet.{Set, u32_mod, set_contains, add_num}
use go_imap.NumSet.Canon.{IsCanon}
use go_imap.NumSet.Search.{set_contains-nil}
use go_imap.NumSet.Union.{add_num-IsCanon, set_contains-add_num}
use go_imap.Tracker.{SessionTracker, encode_seq_num}
use go_imap.SearchCriteria.{SearchCriteria}
use go_imap.MemMailbox.{Message, Mailbox}
use go_imap.MemMailbox.Select.{MailboxView, session_of}
use go_imap.MemMailbox.Static.{uids}
use go_imap.MemMailbox.Search.{Reader, message_search}
use go_imap.MemMailbox.Find.{
  NumKind, num_kind_seq, num_kind_uid, SearchOptions, static_search_criteria, Found, nothing_found,
  note_found, found_set, find_one, find_loop, returns_all, found, saved, view_search,
}

find_one-uid_set :
    (kind : NumKind) (k : ℕ) (msg : Message) (st : Found)
    → (find_one kind k msg st).uid_set ≡ add_num st.uid_set (msg.uid ∷ [])
unfolding find_one note_found
find_one-uid_set num_kind_seq k msg st = ground arith
find_one-uid_set num_kind_uid k msg st = refl

find_if-uid_set :
    (kind : NumKind) (u k : ℕ) (msg : Message) (st : Found) (b : Bool)
    → 0 < u
    → u < u32_mod
    → msg.uid < u32_mod
    → IsCanon st.uid_set
    → (set_contains (if b then find_one kind k msg st else st).uid_set u
        ≡ (set_contains st.uid_set u || b && u == msg.uid))
      × IsCanon (if b then find_one kind k msg st else st).uid_set
find_if-uid_set kind u k msg st false p h b w = (ground arith, w)
find_if-uid_set kind u k msg st true p h b w = rw (find_one-uid_set kind k msg st) (
  ground (arith, set_contains-add_num st.uid_set (msg.uid ∷ []) u w (b, tt) h),
  add_num-IsCanon st.uid_set (msg.uid ∷ []) w (b, tt),
)

module _ (r : Reader) (t : SessionTracker) (c : SearchCriteria) where
  -- Some message of the list matches and has this UID.
  abbrev pub has_match : ℕ → ℕ → List Message → Bool
  has_match u i [] = false
  has_match u i (msg ∷ l) =
      message_search r (encode_seq_num t ((i + 1) % u32_mod)) msg c && u == msg.uid
      || has_match u (i + 1) l

  find_loop-uid_set :
      (kind : NumKind) (u i : ℕ) (l : List Message) (st : Found)
      → 0 < u
      → u < u32_mod
      → All (λ msg. msg.uid < u32_mod) l
      → IsCanon st.uid_set
      → set_contains (find_loop r t kind c i l st).uid_set u
        ≡ (set_contains st.uid_set u || has_match u i l)
  unfolding find_loop
  find_loop-uid_set kind u i [] st p h a w = ground arith
  find_loop-uid_set kind u i (msg ∷ l) st p h (b, a) w =
      let k = encode_seq_num t ((i + 1) % u32_mod) in
      let y = message_search r k msg c in
      let (e, w') = find_if-uid_set kind u k msg st y p h b w in
      find_loop-uid_set kind u (i + 1) l (if y then find_one kind k msg st else st) p h a w'
      ∙ ground (arith, e)

found_set-uids :
    (kind : NumKind) (st : Found) → kind ≡ num_kind_uid → found_set kind st ≡ uids st.uid_set
found_set-uids num_kind_seq st e = cc
found_set-uids num_kind_uid st e = refl

-- SEARCH: a UID is in the set that a UID SEARCH answers, and in the set that any SEARCH with SAVE leaves for
-- "$" when no option narrows the answer to its ends, exactly if a message of the mailbox with this UID
-- matches the resolved criteria. Without SAVE the saved set stays.
pub view_search_uids :
    (r : Reader) (m : Mailbox) (v : MailboxView) (kind : NumKind) (c : SearchCriteria)
    (o : SearchOptions) (u : ℕ)
    → All (λ msg. msg.uid < u32_mod) m.l
    → 0 < u
    → u < u32_mod
    → (kind ≡ num_kind_uid
        → (s : Set) × ((view_search r m v kind c o).0.all ≡ uids s)
          × (set_contains s u
              ≡ has_match r (session_of m v) (static_search_criteria m v c) u 0 m.l))
      × (o.return_save ≡ true
          → returns_all o ≡ true
          → set_contains (view_search r m v kind c o).1.search_res u
            ≡ has_match r (session_of m v) (static_search_criteria m v c) u 0 m.l)
      × (o.return_save ≡ false → (view_search r m v kind c o).1 ≡ v)
unfolding view_search saved found
view_search_uids r m v kind c o u a p h =
    let t = session_of m v in
    let c' = static_search_criteria m v c in
    let e =
      find_loop-uid_set r t c' kind u 0 m.l nothing_found p h a tt ∙ rw (set_contains-nil u) refl in
    (
      (λ k. (
        (found r m v kind c).uid_set,
        found_set-uids kind (found r m v kind c) k,
        unfold found in e,
      )),
      (λ y n. rw (y, n) e),
      λ n. rw n refl,
    )

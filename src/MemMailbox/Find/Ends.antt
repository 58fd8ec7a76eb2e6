-- ===== src/MemMailbox/Find/Ends.antt =====
-- The ends, the count and the modification sequence that SEARCH answers, against the list of the
-- messages that it counts.
use go_imap.Prelude.{
  ℕ, ◌+◌, ◌%◌, ◌≤◌, ◌<◌, ◌≡◌, ◌⊎◌, inl, inr, refl, Bool, true, false, not, ◌&&◌, ◌||◌, List, [],
  ◌∷◌, arith, ltb, ◌==◌, if◌then◌else◌, All, length, Bool-cases,
}
use go_imap.NumSet.{u32_mod, Set, add_num}
use go_imap.Tracker.{SessionTracker, encode_seq_num}
use go_imap.SearchCriteria.{SearchCriteria}
use go_imap.MemMailbox.{Message, Mailbox}
use go_imap.MemMailbox.Append.{All-weaken}
use go_imap.MemMailbox.Select.{MailboxView, session_of}
use go_imap.MemMailbox.Search.{Reader, message_search}
use go_imap.MemMailbox.Find.{
  NumKind, num_kind_seq, num_kind_uid, SearchOptions, static_search_criteria, Found, nothing_found,
  note_found, find_one, find_loop, returns_all, found, found_mod_seq, view_search,
}

-- A message with the number under which the command counts it
abbrev pub Hit : Type 0
Hit = ℕ × Message

abbrev number : NumKind → ℕ → Message → ℕ
number num_kind_seq k msg = k
number num_kind_uid k msg = msg.uid

-- The messages that the command counts, the last first: those that match and have a number.
abbrev pub hits :
    Reader → SessionTracker → NumKind → SearchCriteria → ℕ → List Message → List Hit → List Hit
hits r t kind c i [] hs = hs
hits r t kind c i (msg ∷ l) hs =
    let k = encode_seq_num t ((i + 1) % u32_mod) in
    let n = number kind k msg in
    hits r t kind c (i + 1) l
      (if message_search r k msg c && not (n == 0) then (n, msg) ∷ hs else hs)

abbrev pub Some : (Hit → Type 0) → List Hit → Type 0
Some P [] = ⊥
Some P (h ∷ hs) = P h ⊎ Some P hs

Some-weaken : {P Q : Hit → Type 0} (hs : List Hit) → ((h : Hit) → P h → Q h) → Some P hs → Some Q hs
Some-weaken [] f x = elim x [ ]
Some-weaken (h ∷ hs) f (inl p) = inl (f h p)
Some-weaken (h ∷ hs) f (inr s) = inr (Some-weaken hs f s)

All-both : (P Q : Hit → Type 0) (hs : List Hit) → All P hs → All Q hs → All (λ h. P h × Q h) hs
All-both P Q [] a b = tt
All-both P Q (h ∷ hs) (p, a) (q, b) = ((p, q), All-both P Q hs a b)

-- What the loop has noted of the messages counted.
pub record IsEnds (st : Found) (hs : List Hit) : Type 0 where
  pub counted : st.count ≡ length hs % u32_mod
  pub low : All (λ h. st.min ≤ h.0) hs
  pub high : All (λ h. h.0 ≤ st.max) hs
  pub newest : All (λ h. h.1.mod_seq ≤ st.all_mod_seq) hs
  pub positive : All (λ h. 0 < h.0) hs
  pub first :
      ((hs ≡ []) × (st.min ≡ 0))
      ⊎ (0 < st.min)
        × Some (λ h. (h.0 ≡ st.min) × (h.1.uid ≡ st.min_uid) × (h.1.mod_seq ≡ st.min_mod_seq)) hs
  pub last :
      ((hs ≡ []) × (st.max ≡ 0))
      ⊎ (0 < st.max)
        × Some (λ h. (h.0 ≡ st.max) × (h.1.uid ≡ st.max_uid) × (h.1.mod_seq ≡ st.max_mod_seq)) hs

note_found-IsEnds :
    (n : ℕ) (msg : Message) (st : Found) (hs : List Hit)
    → 0 < n
    → IsEnds st hs
    → IsEnds (note_found n msg st) ((n, msg) ∷ hs)
unfolding note_found
note_found-IsEnds n msg st hs p w = record {
  counted = omega (arith, w.counted);
  low = (
    ground arith,
    elim w.first [ inl (e, z) ↦ rw e tt | inr (q, s) ↦ All-weaken hs (λ h e. ground arith) w.low ],
  );
  high = (
    ground arith,
    elim w.last [ inl (e, z) ↦ rw e tt | inr (q, s) ↦ All-weaken hs (λ h e. ground arith) w.high ],
  );
  newest = (omega arith, All-weaken hs (λ h e. omega (arith, e)) w.newest);
  positive = (p, w.positive);
  first = inr (
    ground arith,
    elim (Bool-cases (st.min == 0 || ltb n st.min)) [
      | inl y ↦ rw y (inl (refl, refl, refl))
      | inr n' ↦ elim w.first [
        | inl (e, z) ↦ let bad : ⊥ = ground arith in elim bad [ ]
        | inr (q, s) ↦ rw n' (inr (Some-weaken hs (λ h e. rw n' e) s))
      ]
    ],
  );
  last = inr (
    ground arith,
    elim (Bool-cases (st.max == 0 || ltb st.max n)) [
      | inl y ↦ rw y (inl (refl, refl, refl))
      | inr n' ↦ elim w.last [
        | inl (e, z) ↦ let bad : ⊥ = ground arith in elim bad [ ]
        | inr (q, s) ↦ rw n' (inr (Some-weaken hs (λ h e. rw n' e) s))
      ]
    ],
  );
}

IsEnds-sets :
    (s u : Set) (st : Found) (hs : List Hit)
    → IsEnds st hs
    → IsEnds (record st { seq_set = s; uid_set = u }) hs
IsEnds-sets s u st hs w = record {
  counted = w.counted;
  low = w.low;
  high = w.high;
  newest = w.newest;
  positive = w.positive;
  first = w.first;
  last = w.last;
}

find_one-IsEnds :
    (kind : NumKind) (k : ℕ) (msg : Message) (st : Found) (hs : List Hit)
    → 0 < msg.uid
    → IsEnds st hs
    → IsEnds
        (find_one kind k msg st)
        (if not (number kind k msg == 0) then (number kind k msg, msg) ∷ hs else hs)
unfolding find_one
find_one-IsEnds num_kind_seq k msg st hs p w = elim (Bool-cases (k == 0)) [
  | inl z ↦ rw z (IsEnds-sets st.seq_set (add_num st.uid_set (msg.uid ∷ [])) st hs w)
  | inr z ↦ rw z (
      note_found-IsEnds k msg _ hs (ground (arith, z))
        (IsEnds-sets _ (add_num st.uid_set (msg.uid ∷ [])) st hs w))
]
find_one-IsEnds num_kind_uid k msg st hs p w =
    let z : (msg.uid == 0) ≡ false = ground arith in
    rw z (
      note_found-IsEnds msg.uid msg _ hs p
        (IsEnds-sets st.seq_set (add_num st.uid_set (msg.uid ∷ [])) st hs w))

module _ (r : Reader) (t : SessionTracker) (kind : NumKind) (c : SearchCriteria) where
  find_if-IsEnds :
      (k : ℕ) (msg : Message) (b : Bool) (st : Found) (hs : List Hit)
      → 0 < msg.uid
      → IsEnds st hs
      → IsEnds
          (if b then find_one kind k msg st else st)
          (if b && not (number kind k msg == 0) then (number kind k msg, msg) ∷ hs else hs)
  find_if-IsEnds k msg true st hs p w = find_one-IsEnds kind k msg st hs p w
  find_if-IsEnds k msg false st hs p w = w

  find_loop-IsEnds :
      (i : ℕ) (l : List Message) (st : Found) (hs : List Hit)
      → All (λ msg. 0 < msg.uid) l
      → IsEnds st hs
      → IsEnds (find_loop r t kind c i l st) (hits r t kind c i l hs)
  unfolding find_loop
  find_loop-IsEnds i [] st hs a w = w
  find_loop-IsEnds i (msg ∷ l) st hs (p, a) w =
      let k = encode_seq_num t ((i + 1) % u32_mod) in
      find_loop-IsEnds (i + 1) l _ _ a (find_if-IsEnds k msg (message_search r k msg c) st hs p w)

nothing-IsEnds : IsEnds nothing_found []
nothing-IsEnds = record {
  counted = refl;
  low = tt;
  high = tt;
  newest = tt;
  positive = tt;
  first = inl (refl, refl);
  last = inl (refl, refl);
}

IsEnds-ends :
    (st : Found) (hs : List Hit)
    → IsEnds st hs
    → ((hs ≡ []) × (st.min ≡ 0) × (st.max ≡ 0))
      ⊎ (Some (λ h. h.0 ≡ st.min) hs × Some (λ h. h.0 ≡ st.max) hs)
IsEnds-ends st [] w = inl (refl, ground (arith, w.first), ground (arith, w.last))
IsEnds-ends st (h ∷ hs) w = inr (
  elim w.first [
    | inl (e, z) ↦ (let bad : ⊥ = cc in elim bad [ ])
    | inr (q, s) ↦ Some-weaken (h ∷ hs) (λ h e. e.0) s
  ],
  elim w.last [
    | inl (e, z) ↦ (let bad : ⊥ = cc in elim bad [ ])
    | inr (q, s) ↦ Some-weaken (h ∷ hs) (λ h e. e.0) s
  ],
)

-- SEARCH on positive UIDs: COUNT, MIN and MAX are the number, the least and the greatest of the messages that
-- match the resolved criteria and have a number in the command's number space, and MIN and MAX are 0 if
-- there are none. No such message has a modification sequence above the one answered, unless the options
-- ask for MIN or MAX and neither for ALL nor for COUNT.
pub view_search_ends :
    (r : Reader) (m : Mailbox) (v : MailboxView) (kind : NumKind) (c : SearchCriteria)
    (o : SearchOptions)
    → All (λ msg. 0 < msg.uid) m.l
    → let d = (view_search r m v kind c o).0 in
      let hs = hits r (session_of m v) kind (static_search_criteria m v c) 0 m.l [] in
      (d.count ≡ length hs % u32_mod)
      × All (λ h. (d.min ≤ h.0) × (h.0 ≤ d.max)) hs
      × (((hs ≡ []) × (d.min ≡ 0) × (d.max ≡ 0))
          ⊎ (Some (λ h. h.0 ≡ d.min) hs × Some (λ h. h.0 ≡ d.max) hs))
      × (returns_all o ≡ true → All (λ h. h.1.mod_seq ≤ d.mod_seq) hs)
unfolding view_search found found_mod_seq
view_search_ends r m v kind c o a =
    let w =
      find_loop-IsEnds r (session_of m v) kind (static_search_criteria m v c) 0 m.l nothing_found []
        a nothing-IsEnds in
    (w.counted, All-both _ _ _ w.low w.high, IsEnds-ends _ _ w, λ y. rw y w.newest)

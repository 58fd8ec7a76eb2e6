-- ===== src/MemMailbox/Search/And.antt =====
-- SearchCriteria.And of search.go against message.search: when the intersection of two criteria is found
-- exactly where both are, and when it is not.
use go_imap.Prelude.{
  ap, ◌∙◌, inl, ℕ, ◌≡◌, ◌≢◌, ◌⊎◌, refl, Bool, true, false, not, ◌&&◌, ◌||◌, List, [], ◌∷◌, ◌++◌,
  arith, ltb, ◌==◌, if◌then◌else◌, Option, none, ◌*◌, ◌/◌,
}
use go_imap.SearchCriteria.{
  Fields, criteria, Nots, no_not, next_not, Ors, no_or, next_or, append_nots, append_ors,
  intersect_since, intersect_before, and_fields, and,
}
use go_imap.MemMailbox.{Message, has_flag}
use go_imap.MemMailbox.Search.{
  Reader, every, match_date, sent_ok, in_seq_set, in_uid_set, header_ok, match_entity, larger_ok,
  smaller_ok, search_fields, message_search, search_nots, search_ors, mod_seq_ok,
}

module _ {A : Type 0} where
  every-append :
      (ok : A → Bool) (xs ys : List A) → every ok (xs ++ ys) ≡ (every ok xs && every ok ys)
  unfolding every
  every-append ok [] ys = refl
  every-append ok (x ∷ xs) ys = ground (arith, every-append ok xs ys)

match_date-intersect :
    (t s s' b b' : ℕ)
    → match_date t (intersect_since s s') (intersect_before b b')
      ≡ (match_date t s b && match_date t s' b')
unfolding match_date intersect_since intersect_before
match_date-intersect t s s' b b' = let day = t / 86400 * 86400 in ground arith

lost_bound :
    (c other : Fields) (nots nots' : Nots) (ors ors' : Ors)
    → c.smaller ≢ 0
    → other.smaller ≡ 0
    → and (criteria c nots ors) (criteria other nots' ors')
      ≡ and (criteria (record c { smaller = 0 }) nots ors) (criteria other nots' ors')
unfolding and and_fields
lost_bound c other nots nots' ors ors' h z =
    let both_zero : (if c.smaller == 0 || ltb other.smaller c.smaller
          then other.smaller
          else c.smaller)
        ≡ other.smaller =
      ground arith in
    rw both_zero refl

module _ (r : Reader) (seq_num : ℕ) (msg : Message) where
  search_nots-append :
      (xs ys : Nots)
      → search_nots r seq_num msg (append_nots xs ys)
        ≡ (search_nots r seq_num msg xs && search_nots r seq_num msg ys)
  unfolding search_nots append_nots
  search_nots-append no_not ys = refl
  search_nots-append (next_not c xs) ys = ground (arith, search_nots-append xs ys)

  search_ors-append :
      (xs ys : Ors)
      → search_ors r seq_num msg (append_ors xs ys)
        ≡ (search_ors r seq_num msg xs && search_ors r seq_num msg ys)
  unfolding search_ors append_ors
  search_ors-append no_or ys = refl
  search_ors-append (next_or c c' xs) ys = ground (arith, search_ors-append xs ys)

  larger-and :
      (a b : ℕ)
      → larger_ok msg (if a == 0 || ltb a b then b else a) ≡ (larger_ok msg a && larger_ok msg b)
  unfolding larger_ok
  larger-and a b = ground arith

  smaller-and :
      (a b : ℕ)
      → (a ≡ 0) ⊎ (b ≢ 0)
      → smaller_ok msg (if a == 0 || ltb b a then b else a) ≡ (smaller_ok msg a && smaller_ok msg b)
  unfolding smaller_ok
  smaller-and a b h = ground arith

  sent-and :
      (d s s' b b' : ℕ)
      → sent_ok r d (intersect_since s s') (intersect_before b b')
        ≡ (sent_ok r d s b && sent_ok r d s' b')
  unfolding intersect_since intersect_before match_date
  sent-and d s s' b b' = let day = d / 86400 * 86400 in ground arith

  mod_seq-and :
      (a b : Option ℕ)
      → b ≡ none
      → mod_seq_ok msg.mod_seq a ≡ (mod_seq_ok msg.mod_seq a && mod_seq_ok msg.mod_seq b)
  mod_seq-and a b e = rw e (ground arith)

  search_fields-and :
      (c other : Fields)
      → other.mod_seq ≡ none
      → (c.smaller ≡ 0) ⊎ (other.smaller ≢ 0)
      → search_fields r seq_num msg (and_fields c other)
        ≡ (search_fields r seq_num msg c && search_fields r seq_num msg other)
  unfolding search_fields and_fields larger_ok smaller_ok
  search_fields-and c o m h = ground (
    arith,
    every-append (in_seq_set seq_num) c.seq_num o.seq_num,
    every-append (in_uid_set msg.uid) c.uid o.uid,
    match_date-intersect msg.t c.since o.since c.before o.before,
    mod_seq-and c.mod_seq o.mod_seq m,
    every-append (λ f. has_flag f msg) c.flag o.flag,
    every-append (λ f. not (has_flag f msg)) c.not_flag o.not_flag,
    larger-and c.larger o.larger,
    smaller-and c.smaller o.smaller h,
    every-append (header_ok r msg) c.header o.header,
    sent-and (r.date msg) c.sent_since o.sent_since c.sent_before o.sent_before,
    every-append (λ p. match_entity r.lower (r.entity msg) p true) c.text o.text,
    every-append (λ p. match_entity r.lower (r.entity msg) p false) c.body o.body,
  )

  -- And on criteria of which the second has no MODSEQ, and a bound on the size from above only if the first
  -- has none or it has one itself: a message matches the result exactly if it matches both.
  pub message_search-and :
      (c other : Fields) (nots nots' : Nots) (ors ors' : Ors)
      → other.mod_seq ≡ none
      → (c.smaller ≡ 0) ⊎ (other.smaller ≢ 0)
      → message_search r seq_num msg (and (criteria c nots ors) (criteria other nots' ors')) ≡ (
          message_search r seq_num msg (criteria c nots ors)
          && message_search r seq_num msg (criteria other nots' ors'))
  unfolding message_search and
  message_search-and c other nots nots' ors ors' m h = ground (
    arith,
    search_fields-and c other m h,
    search_nots-append nots nots',
    search_ors-append ors ors',
  )

  -- And where only the first criteria bound the size from above: the bound is lost. A message matches the
  -- result exactly if it matches the second criteria, and the first without the bound.
  pub and_smaller :
      (c other : Fields) (nots nots' : Nots) (ors ors' : Ors)
      → other.mod_seq ≡ none
      → c.smaller ≢ 0
      → other.smaller ≡ 0
      → message_search r seq_num msg (and (criteria c nots ors) (criteria other nots' ors')) ≡ (
          message_search r seq_num msg (criteria (record c { smaller = 0 }) nots ors)
          && message_search r seq_num msg (criteria other nots' ors'))
  and_smaller c other nots nots' ors ors' m h z =
      ap (message_search r seq_num msg) (lost_bound c other nots nots' ors ors' h z)
      ∙ message_search-and (record c { smaller = 0 }) other nots nots' ors ors' m (inl refl)

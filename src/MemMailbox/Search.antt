-- ===== src/MemMailbox/Search.antt =====
-- message.search of imapserver/imapmemserver/message.go and MailboxView.Search of mailbox.go. What
-- go-message reads from the text of a message is a parameter: the fields under a key, the entity
-- and the date; so is strings.ToLower, whose tables are Unicode's.
pub mod And
use go_imap.Prelude.{
  ℕ, ◌*◌, ◌/◌, Bool, true, false, not, ◌&&◌, ◌||◌, List, [], ◌∷◌, ltb, leb, ◌==◌, if◌then◌else◌,
  Option, none, some, length,
}
use go_imap.Strconv.{Bytes, codes}
use go_imap.NumSet.{Set, set_contains}
use go_imap.SearchCriteria.{
  SearchCriteriaHeaderField, Fields, SearchCriteria, criteria, Nots, no_not, next_not, Ors, no_or,
  next_or,
}
use go_imap.MemMailbox.{Message, has_flag}

-- strings.HasPrefix
unfoldable pub has_prefix : Bytes → Bytes → Bool
has_prefix s [] = true
has_prefix [] (c ∷ p) = false
has_prefix (x ∷ s) (c ∷ p) = x == c && has_prefix s p

-- strings.Contains
unfoldable pub contains_text : Bytes → Bytes → Bool
unfolding has_prefix
contains_text [] p = has_prefix [] p
contains_text (x ∷ s) p = has_prefix (x ∷ s) p || contains_text s p

mutual
  -- A message or a part of one, as go-message reads it: the decoded header fields, and either the content
  -- type and the text of the body, each `none` on an error, or the parts.
  pub data Entity : Type 0 where
    single : List Bytes → Option Bytes → Option Bytes → Entity
    multi : List Bytes → Parts → Entity

  -- What NextPart answers, one after the other; `broken` is an error other than io.EOF.
  pub data Parts : Type 0 where
    eof : Parts
    broken : Parts
    part : Entity → Parts → Parts

module _ (lower : Bytes → Bytes) where
  abbrev any_contains_text : List Bytes → Bytes → Bool
  any_contains_text [] p = false
  any_contains_text (v ∷ vs) p = contains_text (lower v) p || any_contains_text vs p

  -- matchHeaderFields
  unfoldable pub match_header_fields : List Bytes → Bytes → Bool
  match_header_fields fields pattern_text =
      if length pattern_text == 0
      then ltb 0 (length fields)
      else any_contains_text fields (lower pattern_text)

  abbrev is_text : Bytes → Bool
  is_text t = has_prefix t (codes "text/") || has_prefix t (codes "message/")

  match_body : Option Bytes → Option Bytes → Bytes → Bool
  match_body none body p = false
  match_body (some t) none p = false
  match_body (some t) (some buf) p = is_text t && contains_text (lower buf) (lower p)

  mutual
    -- matchEntity, its loop over the parts included
    pub match_entity : Entity → Bytes → Bool → Bool
    match_entity (single fields t body) p include_header =
        length p == 0 || (include_header && match_header_fields fields p || match_body t body p)
    match_entity (multi fields parts) p include_header =
        length p == 0
        || (include_header && match_header_fields fields p || match_parts parts p include_header)

    pub match_parts : Parts → Bytes → Bool → Bool
    match_parts eof p include_header = false
    match_parts broken p include_header = false
    match_parts (part e parts) p include_header =
        match_entity e p include_header || match_parts parts p include_header

-- matchDate
unfoldable pub match_date : ℕ → ℕ → ℕ → Bool
match_date t since before =
    let day = t / 86400 * 86400 in
    not (not (since == 0) && ltb day since) && not (not (before == 0) && leb before day)

-- `ok` holds of every member: a loop that returns false at the first for which it does not
unfoldable pub every {ℓ} : {A : Type ℓ} → (A → Bool) → List A → Bool
every ok [] = true
every ok (x ∷ xs) = ok x && every ok xs

abbrev in_seq_set : ℕ → Set → Bool
in_seq_set seq_num s = not (seq_num == 0 || not (set_contains s seq_num))

-- The marker "$" is an empty set.
abbrev in_uid_set : ℕ → Option Set → Bool
in_uid_set uid none = false
in_uid_set uid (some s) = set_contains s uid

abbrev mod_seq_ok : ℕ → Option ℕ → Bool
mod_seq_ok mod_seq none = true
mod_seq_ok mod_seq (some n) = not (ltb mod_seq n)

unfoldable pub larger_ok : Message → ℕ → Bool
larger_ok msg n = not (not (n == 0) && leb (length msg.buf) n)

unfoldable pub smaller_ok : Message → ℕ → Bool
smaller_ok msg n = not (not (n == 0) && leb n (length msg.buf))

-- What go-message and strings.ToLower make of texts
pub record Reader : Type 0 where
  pub lower : Bytes → Bytes
  pub fields_by_key : Message → Bytes → List Bytes
  pub entity : Message → Entity
  pub date : Message → ℕ

module _ (r : Reader) where
  abbrev sent_ok : ℕ → ℕ → ℕ → Bool
  sent_ok date since before =
      if not (since == 0) || not (before == 0)
      then not (date == 0) && match_date date since before
      else true

  abbrev header_ok : Message → SearchCriteriaHeaderField → Bool
  header_ok msg h = match_header_fields r.lower (r.fields_by_key msg h.key) h.value

  -- message.search before its two last loops
  unfoldable pub search_fields : ℕ → Message → Fields → Bool
  unfolding every
  search_fields seq_num msg c =
      every (in_seq_set seq_num) c.seq_num
      && (every (in_uid_set msg.uid) c.uid
          && (match_date msg.t c.since c.before
              && (mod_seq_ok msg.mod_seq c.mod_seq
                  && (every (λ f. has_flag f msg) c.flag
                      && (every (λ f. not (has_flag f msg)) c.not_flag
                          && (larger_ok msg c.larger
                              && (smaller_ok msg c.smaller
                                  && (every (header_ok msg) c.header
                                      && (sent_ok (r.date msg) c.sent_since c.sent_before
                                          && (every
                                                (λ p. match_entity r.lower (r.entity msg) p true)
                                                c.text
                                              && every
                                                  (λ p. match_entity r.lower (r.entity msg) p false)
                                                  c.body))))))))))

  unfoldable mutual
    -- message.search
    pub message_search : ℕ → Message → SearchCriteria → Bool
    message_search seq_num msg (criteria c nots ors) =
        search_fields seq_num msg c && (search_nots seq_num msg nots && search_ors seq_num msg ors)

    pub search_nots : ℕ → Message → Nots → Bool
    search_nots seq_num msg no_not = true
    search_nots seq_num msg (next_not c nots) =
        not (message_search seq_num msg c) && search_nots seq_num msg nots

    pub search_ors : ℕ → Message → Ors → Bool
    search_ors seq_num msg no_or = true
    search_ors seq_num msg (next_or c c' ors) =
        (message_search seq_num msg c || message_search seq_num msg c')
        && search_ors seq_num msg ors

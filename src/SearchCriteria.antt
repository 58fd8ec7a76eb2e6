-- ===== src/SearchCriteria.antt =====
-- search.go: the criteria of a SEARCH command and their intersection. A time is the second that its clock
-- shows, in its own zone, counted from the zero time of Go, which is 0; the times of the criteria are in
-- UTC. A size is a count of bytes.
use go_imap.Prelude.{ℕ, ◌||◌, List, ◌++◌, Option, ltb, ◌==◌, if◌then◌else◌}
use go_imap.Strconv.{Bytes}
use go_imap.NumSet.{Set}

-- SearchCriteriaHeaderField
pub record SearchCriteriaHeaderField : Type 0 where
  pub key : Bytes
  pub value : Bytes

-- The fields of SearchCriteria that hold no criteria. A UID set that is `none` is the marker "$". Of ModSeq,
-- only the number is kept.
pub record Fields : Type 0 where
  pub seq_num : List Set
  pub uid : List (Option Set)
  pub since : ℕ
  pub before : ℕ
  pub sent_since : ℕ
  pub sent_before : ℕ
  pub header : List SearchCriteriaHeaderField
  pub body : List Bytes
  pub text : List Bytes
  pub flag : List Bytes
  pub not_flag : List Bytes
  pub larger : ℕ
  pub smaller : ℕ
  pub mod_seq : Option ℕ

mutual
  -- SearchCriteria: the plain fields, Not and Or
  pub data SearchCriteria : Type 0 where
    criteria : Fields → Nots → Ors → SearchCriteria

  pub data Nots : Type 0 where
    no_not : Nots
    next_not : SearchCriteria → Nots → Nots

  pub data Ors : Type 0 where
    no_or : Ors
    next_or : SearchCriteria → SearchCriteria → Ors → Ors

-- append on Not and on Or
unfoldable pub append_nots : Nots → Nots → Nots
append_nots no_not ys = ys
append_nots (next_not x xs) ys = next_not x (append_nots xs ys)

unfoldable pub append_ors : Ors → Ors → Ors
append_ors no_or ys = ys
append_ors (next_or x x' xs) ys = next_or x x' (append_ors xs ys)

-- intersectSince
unfoldable pub intersect_since : ℕ → ℕ → ℕ
intersect_since t1 t2 = if t1 == 0 then t2 else if t2 == 0 then t1 else if ltb t2 t1 then t1 else t2

-- intersectBefore
unfoldable pub intersect_before : ℕ → ℕ → ℕ
intersect_before t1 t2 =
    if t1 == 0 then t2 else if t2 == 0 then t1 else if ltb t1 t2 then t1 else t2

-- The plain fields after And
unfoldable pub and_fields : Fields → Fields → Fields
and_fields c other = record {
  seq_num = c.seq_num ++ other.seq_num;
  uid = c.uid ++ other.uid;
  since = intersect_since c.since other.since;
  before = intersect_before c.before other.before;
  sent_since = intersect_since c.sent_since other.sent_since;
  sent_before = intersect_before c.sent_before other.sent_before;
  header = c.header ++ other.header;
  body = c.body ++ other.body;
  text = c.text ++ other.text;
  flag = c.flag ++ other.flag;
  not_flag = c.not_flag ++ other.not_flag;
  larger = if c.larger == 0 || ltb c.larger other.larger then other.larger else c.larger;
  smaller = if c.smaller == 0 || ltb other.smaller c.smaller then other.smaller else c.smaller;
  mod_seq = c.mod_seq;
}

-- SearchCriteria.And
unfoldable pub and : SearchCriteria → SearchCriteria → SearchCriteria
and (criteria c nots ors) (criteria other nots' ors') =
    criteria (and_fields c other) (append_nots nots nots') (append_ors ors ors')

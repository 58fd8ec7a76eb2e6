-- ===== src/MemUser/Metadata/Laws.antt =====
-- imapserver/imapmemserver/session.go: what GETMETADATA collects and what SETMETADATA stores, by the names of entries
use go_imap.Prelude.{
  ℕ, ◌%◌, leb, ◌≡◌, ◌∙◌, refl, ap, Bool, true, false, not, ◌&&◌, ◌||◌, List, [], ◌∷◌, ltb,
  if◌then◌else◌, Option, none, some, length, arith, Bool-cases, Option-cases, inl, inr,
}
use go_imap.NumSet.{u32_mod}
use go_imap.Strconv.{Bytes}
use go_imap.Strconv.Bytes.{same_bytes}
use go_imap.MemUser.Names.{lookup, put, remove, lookup-put, lookup-remove, same_bytes_eq}
use go_imap.MemUser.Metadata.{
  Annotations, GetMetadataOptions, matches_with_depth, too_long, Collected, collect_one,
  collect_from, collect, get_entries,
}
use go_imap.MemUser.Metadata.Change.{
  NewEntries, limit, too_many, max_value, max_entries, set_entries,
}

-- No name occurs twice.
abbrev pub IsMap : Annotations → Type 0
IsMap [] = Unit
IsMap ((k, v) ∷ t) = (lookup k t ≡ none) × IsMap t

-- A value that is there, if the test holds and it is not too long; else what was collected before
abbrev pub chosen : Bool → Option GetMetadataOptions → Option Bytes → Option Bytes → Option Bytes
chosen b options none old = old
chosen b options (some v) old = if b && not (too_long options v) then some v else old

collect_one_lem :
    (k requested : Bytes) (options : Option GetMetadataOptions) (n v : Bytes) (st : Collected)
    → lookup k (collect_one requested options n v st).entries ≡ (
        if same_bytes n k && (matches_with_depth n requested options && not (too_long options v))
        then some v
        else lookup k st.entries)
collect_one_lem k requested options n v st =
    elim (Bool-cases (matches_with_depth n requested options)) [
      | inr no_match ↦ rw no_match (ground arith)
      | inl y ↦ elim (Bool-cases (too_long options v)) [
        | inl long ↦ rw (y, long) (ground arith)
        | inr fits ↦ rw (y, fits) (lookup-put k n v st.entries ∙ ground arith)
      ]
    ]

collect_from_lem :
    (k requested : Bytes) (options : Option GetMetadataOptions) (source : Annotations)
    (st : Collected)
    → IsMap source
    → lookup k (collect_from requested options source st).entries
      ≡ chosen
          (matches_with_depth k requested options)
          options
          (lookup k source)
          (lookup k st.entries)
unfolding collect_from lookup
collect_from_lem k requested options [] st w = refl
collect_from_lem k requested options ((n, v) ∷ source) st (new, w) =
    let rest =
      collect_from_lem k requested options source (collect_one requested options n v st) w in
    let one = collect_one_lem k requested options n v st in
    elim (Bool-cases (same_bytes n k)) [
      | inl y ↦
          let same : n ≡ k = same_bytes_eq n k y in
          let gone : lookup k source ≡ none = rw same at new in
          rest
          ∙ rw gone (
              one
              ∙ rw y (
                  ap
                    (λ m.
                      if matches_with_depth m requested options && not (too_long options v)
                      then some v
                      else lookup k st.entries)
                    same))
      | inr d ↦
          rest
          ∙ rw d (
              ap (λ o. chosen (matches_with_depth k requested options) options (lookup k source) o)
                (rw d at one))
    ]

-- One of the requested names covers the entry.
abbrev pub any_match : Bytes → List Bytes → Option GetMetadataOptions → Bool
any_match k [] options = false
any_match k (requested ∷ entries) options =
    matches_with_depth k requested options || any_match k entries options

chosen-chosen :
    (a b : Bool) (options : Option GetMetadataOptions) (o old : Option Bytes)
    → chosen b options o (chosen a options o old) ≡ chosen (a || b) options o old
chosen-chosen a b options none old = refl
chosen-chosen a b options (some v) old = ground arith

collect_lem :
    (k : Bytes) (entries : List Bytes) (options : Option GetMetadataOptions) (source : Annotations)
    (st : Collected)
    → IsMap source
    → lookup k (collect entries options source st).entries
      ≡ chosen (any_match k entries options) options (lookup k source) (lookup k st.entries)
unfolding collect
collect_lem k [] options source st w = elim (Option-cases (lookup k source)) [
  | inl e ↦ rw e refl
  | inr (v, e) ↦ rw e refl
]
collect_lem k (requested ∷ entries) options source st w =
    collect_lem k entries options source (collect_from requested options source st) w
    ∙ ap (λ o. chosen (any_match k entries options) options (lookup k source) o)
        (collect_from_lem k requested options source st w)
    ∙ chosen-chosen (matches_with_depth k requested options) (any_match k entries options) options
        (lookup k source) (lookup k st.entries)

abbrev pub limit_of : Option GetMetadataOptions → Option ℕ
limit_of none = none
limit_of (some options) = options.max_size

-- A size up to the limit, which itself is allowed
abbrev pub fits : Option ℕ → ℕ → Bool
fits none size = true
fits (some m) size = leb size m

-- The value that is there, if the test holds and its size fits
abbrev pub answered : Bool → Option ℕ → Option Bytes → Option Bytes
answered b max none = none
answered b max (some v) = if b && fits max (length v % u32_mod) then some v else none

fits-too_long :
    (options : Option GetMetadataOptions) (v : Bytes)
    → not (too_long options v) ≡ fits (limit_of options) (length v % u32_mod)
fits-too_long none v = refl
fits-too_long (some options) v = within options.max_size refl
  where
    within :
        (m : Option ℕ)
        → options.max_size ≡ m
        → not (too_long (some options) v) ≡ fits options.max_size (length v % u32_mod)
    within none e = rw e refl
    within (some m) e = rw e (ground arith)

chosen-answered :
    (b : Bool) (options : Option GetMetadataOptions) (o : Option Bytes)
    → chosen b options o none ≡ answered b (limit_of options) o
chosen-answered b options none = refl
chosen-answered b options (some v) = rw (fits-too_long options v) refl

-- GETMETADATA of some names, from annotations of which no two have the same name, answers with exactly the entries
-- that one of the names covers at the depth of the options and whose value's length, taken modulo 2^32, is at most
-- their limit, each with its value.
pub get_entries_lem :
    (k requested : Bytes) (entries : List Bytes) (options : Option GetMetadataOptions)
    (source : Annotations)
    → IsMap source
    → lookup k (get_entries (requested ∷ entries) options source).entries
      ≡ answered (any_match k (requested ∷ entries) options) (limit_of options) (lookup k source)
unfolding get_entries lookup
get_entries_lem k requested entries options source w =
    collect_lem k (requested ∷ entries) options source (record { entries = []; long_entries = 0 }) w
    ∙ chosen-answered (any_match k (requested ∷ entries) options) options (lookup k source)

-- The value of a name after the changes of a list, the last of which counts
abbrev pub wanted : Bytes → NewEntries → Option Bytes → Option Bytes
wanted k [] old = old
wanted k ((j, v) ∷ entries) old = wanted k entries (if same_bytes j k then v else old)

abbrev pub too_large : Option Bytes → Bool
too_large none = false
too_large (some value) = ltb max_value (length value)

abbrev pub any_large : NewEntries → Bool
any_large [] = false
any_large ((j, v) ∷ entries) = too_large v || any_large entries

-- SETMETADATA stores every new value and deletes every entry without one, if no value is longer than 10240 bytes; and
-- it does so even when it answers, since there are more than 100 entries then, that there are too many. A
-- value that is longer makes it fail with the code LIMIT.
pub set_entries_lem :
    (target : Annotations) (entries : NewEntries)
    → (any_large entries ≡ false
        → ((k : Bytes)
            → lookup k (set_entries target entries).0 ≡ wanted k entries (lookup k target))
          × ((set_entries target entries).1 ≡ (
              if ltb max_entries (length (set_entries target entries).0)
              then some too_many
              else none)))
      × (any_large entries ≡ true → (set_entries target entries).1 ≡ some limit)
unfolding set_entries
set_entries_lem target [] = elim (Bool-cases (ltb max_entries (length target))) [
  | inl y ↦ rw y ((λ h. ((λ k. refl), rw y refl)), λ h. cc h)
  | inr n ↦ rw n ((λ h. ((λ k. refl), rw n refl)), λ h. cc h)
]
set_entries_lem target ((j, none) ∷ entries) =
    let (stored, large) = set_entries_lem (remove j target) entries in
    (
      (λ h.
          let (values, code) = stored h in
          ((λ k. values k ∙ ap (λ o. wanted k entries o) (lookup-remove k j target)), code)),
      large,
    )
set_entries_lem target ((j, some value) ∷ entries) =
    let (stored, large) = set_entries_lem (put j value target) entries in
    elim (Bool-cases (ltb max_value (length value))) [
      | inl y ↦ rw y ((λ h. cc h), λ h. refl)
      | inr n ↦ rw n (
        (λ h.
            let (values, code) = stored h in
            ((λ k. values k ∙ ap (λ o. wanted k entries o) (lookup-put k j value target)), code)),
        large,
      )
    ]

-- ===== src/MemMailbox/Store/Refused.antt =====
-- Which messages the MODIFIED response code of a UID STORE names.
use go_imap.NumSet.Search.{set_contains-nil}
use go_imap.Prelude.{
  ℕ, ◌+◌, ◌%◌, ◌<◌, ◌≡◌, ◌∙◌, inl, inr, refl, ap, Bool, true, false, ◌&&◌, ◌||◌, List, [], ◌∷◌,
  arith, ◌==◌, if◌then◌else◌, All, Bool-cases,
}
use go_imap.NumSet.{set_contains, add_num, Set, u32_mod}
use go_imap.MemMailbox.{Message, Mailbox}
use go_imap.NumSet.Canon.{IsCanon}
use go_imap.NumSet.Union.{add_num-IsCanon, set_contains-add_num}
use go_imap.MemMailbox.Select.{MailboxView}
use go_imap.MemMailbox.Static.{uids, NumSet, static_num_set, selects}
use go_imap.MemMailbox.Store.{
  start_storing, in_uid_space, StoreFlags, StoreOptions, message_store, Storing, store_failed,
  store_changed, store_one, store_step, store_loop, store,
}
use go_imap.MemMailbox.Store.Laws.{is_blocked}

module _ (session : ℕ) (flags : StoreFlags) (options : StoreOptions) (s : Set) where
  -- The message fails the condition of a STORE on the UIDs of the set.
  abbrev pub fails : Message → Bool
  fails msg = set_contains s msg.uid && is_blocked options msg

  abbrev pub refused : ℕ → List Message → Bool
  refused u [] = false
  refused u (msg ∷ l) = fails msg && u == msg.uid || refused u l

  store_changed-failed :
      (k : ℕ) (st : Storing) (r : ℕ × Message × Bool)
      → (store_changed session true flags options k st r).failed_uids ≡ st.failed_uids
  unfolding store_changed
  store_changed-failed k st (h, msg, false) = refl
  store_changed-failed k st (h, msg, true) = refl

  store_step-failed :
      (k : ℕ) (msg : Message) (st : Storing)
      → (store_step session true flags options (uids s) k msg st).failed_uids
        ≡ (if fails msg then add_num st.failed_uids (msg.uid ∷ []) else st.failed_uids)
  unfolding store_step store_one store_failed selects
  store_step-failed k msg st = elim (Bool-cases (set_contains s msg.uid)) [
    | inr out ↦ rw out refl
    | inl chosen ↦ elim (Bool-cases (is_blocked options msg)) [
      | inl b ↦ rw (chosen, b) refl
      | inr b ↦
          rw (chosen, b) (store_changed-failed k st (message_store st.highest_mod_seq msg flags))
    ]
  ]

  store_loop-failed :
      (u i : ℕ) (l : List Message) (st : Storing)
      → u < u32_mod
      → All (λ msg. msg.uid < u32_mod) l
      → IsCanon st.failed_uids
      → 0 < u
      → set_contains (store_loop session true flags options (uids s) i l st).failed_uids u
        ≡ (set_contains st.failed_uids u || refused u l)
  unfolding store_loop
  store_loop-failed u i [] st h b c p = ground arith
  store_loop-failed u i (msg ∷ l) st h (bm, b) c p =
      let st' = store_step session true flags options (uids s) ((i + 1) % u32_mod) msg st in
      let e = store_step-failed ((i + 1) % u32_mod) msg st in
      elim (Bool-cases (fails msg)) [
        | inl f ↦
            let e' = rw f at e in
            store_loop-failed u (i + 1) l st' h b
              (rw e' (add_num-IsCanon st.failed_uids (msg.uid ∷ []) c (bm, tt))) p
            ∙ ground (arith, e', set_contains-add_num st.failed_uids (msg.uid ∷ []) u c (bm, tt) h)
        | inr f ↦
            let e' = rw f at e in
            store_loop-failed u (i + 1) l st' h b (rw e' c) p ∙ ground (arith, e')
      ]

-- A UID STORE, on the resolved set `s` of UIDs: the MODIFIED response code names exactly the UIDs of the
-- selected messages that the condition refused.
pub store_failed_uids :
    (m : Mailbox) (v : MailboxView) (ns : NumSet) (flags : StoreFlags) (options : StoreOptions)
    (s : Set) (u : ℕ)
    → static_num_set m v ns ≡ uids s
    → in_uid_space ns options ≡ true
    → All (λ msg. msg.uid < u32_mod) m.l
    → 0 < u
    → u < u32_mod
    → set_contains (store m v ns flags options).failed u ≡ refused v.session flags options s u m.l
unfolding store
store_failed_uids m v ns flags options s u e sp b p h =
    rw (sp, e)
      (store_loop-failed v.session flags options s u 0 m.l (start_storing m) h b tt p
        ∙ ap (λ x. x || refused v.session flags options s u m.l) (set_contains-nil u))

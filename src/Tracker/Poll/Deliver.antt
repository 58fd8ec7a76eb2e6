-- ===== src/Tracker/Poll/Deliver.antt =====
-- What a Poll writes for the updates that it took off the queue.
use go_imap.NumSet.Search.{set_contains-nil}
use go_imap.Prelude.{
  ℕ, ◌<◌, ◌≡◌, ◌≢◌, inl, inr, ◌∙◌, refl, ap, ap₂, sym, Bool, true, false, not, ◌&&◌, ◌||◌, List, [],
  ◌∷◌, ◌++◌, append_assoc, append-nil, arith, ◌==◌, if◌then◌else◌, Option, none, some, All,
  Bool-cases, Option-cases,
}
use go_imap.NumSet.{Set, u32_mod, set_contains, add_num, search}
use go_imap.NumSet.Canon.{IsCanon}
use go_imap.NumSet.Union.{set_contains-add_num, add_num-IsCanon}
use go_imap.Tracker.{Update}
use go_imap.Tracker.Queue.{is_known, is_some}
use go_imap.Tracker.Poll.{
  Response, vanished, expunge, exists, flags, fetch, done, panicked, Delivery, response, put,
  flush_vanished, answer, deliver_from, deliver,
}

-- The update is reported by UID.
abbrev pub is_held : Bool → Update → Bool
is_held qresync u = not (u.expunge == 0) && (qresync && not (u.expunge_uid == 0))

-- Some VANISHED response holds the UID.
abbrev pub reported : List Response → ℕ → Bool
reported [] q = false
reported (vanished s ∷ rs) q = set_contains s q || reported rs q
reported (_ ∷ rs) q = reported rs q

-- Some update reports the expunge of the UID.
abbrev pub expunged : Bool → List Update → ℕ → Bool
expunged qresync [] q = false
expunged qresync (u ∷ us) q = is_held qresync u && q == u.expunge_uid || expunged qresync us q

-- The responses that are not VANISHED, in order.
abbrev pub others : List Response → List Response
others [] = []
others (vanished s ∷ rs) = others rs
others (r ∷ rs) = r ∷ others rs

-- The responses to the updates that are not reported by UID, in order.
abbrev pub told : Bool → List Update → List Response
told qresync [] = []
told qresync (u ∷ us) =
    if is_held qresync u
    then told qresync us
    else elim (response u) [ none ↦ told qresync us | some r ↦ r ∷ told qresync us ]

response-ne-vanished : (u : Update) (s : Set) → response u ≢ some (vanished s)
unfolding response
response-ne-vanished u s h = ground arith

-- A response to an update is not a VANISHED.
plain :
    (u : Update) (r : Response)
    → response u ≡ some r
    → (others (r ∷ []) ≡ r ∷ []) × ((q : ℕ) → reported (r ∷ []) q ≡ false)
plain u (vanished s) h = absurd (response-ne-vanished u s h)
plain u (expunge n) h = (refl, λ q. refl)
plain u (exists n) h = (refl, λ q. refl)
plain u (flags f) h = (refl, λ q. refl)
plain u (fetch f) h = (refl, λ q. refl)

is_some-response : (u : Update) → is_some (response u) ≡ is_known u
unfolding response
is_some-response u = ground arith

pub is_known-response : (u : Update) → is_known u ≡ true → (r : Response) × (response u ≡ some r)
is_known-response u h = elim (Option-cases (response u)) [
  | inl e ↦ absurd (none-unknown (response u) e (is_some-response u ∙ h))
  | inr s ↦ s
]
  where
    none-unknown : (o : Option Response) → o ≡ none → is_some o ≡ true → ⊥
    none-unknown none e k = cc
    none-unknown (some r) e k = cc

others-append : (rs ts : List Response) → others (rs ++ ts) ≡ others rs ++ others ts
others-append [] ts = refl
others-append (vanished s ∷ rs) ts = others-append rs ts
others-append (expunge n ∷ rs) ts = ap (◌∷◌ (expunge n)) (others-append rs ts)
others-append (exists n ∷ rs) ts = ap (◌∷◌ (exists n)) (others-append rs ts)
others-append (flags n ∷ rs) ts = ap (◌∷◌ (flags n)) (others-append rs ts)
others-append (fetch n ∷ rs) ts = ap (◌∷◌ (fetch n)) (others-append rs ts)

reported-append :
    (rs ts : List Response) (q : ℕ) → reported (rs ++ ts) q ≡ (reported rs q || reported ts q)
reported-append [] ts q = refl
reported-append (vanished s ∷ rs) ts q = ground (arith, reported-append rs ts q)
reported-append (r ∷ rs) ts q = reported-append rs ts q

module _ (write : List Response → Response → Bool) where
  put-done :
      (r : Response) (out : List Response) (next : List Response → Delivery)
      → (put write r out next).1 ≡ done
      → put write r out next ≡ next (out ++ r ∷ [])
  unfolding put
  put-done r out next h = ground arith

  flush_vanished-done :
      (s : Set) (out : List Response) (next : List Response → Delivery)
      → (flush_vanished write s out next).1 ≡ done
      → (out' : List Response) × (flush_vanished write s out next ≡ next out')
        × (others out' ≡ others out)
        × ((q : ℕ) → reported out' q ≡ (reported out q || set_contains s q))
  unfolding flush_vanished set_contains search
  flush_vanished-done [] out next h = (out, refl, refl, λ q. ground arith)
  flush_vanished-done (v ∷ s) out next h = (
    out ++ vanished (v ∷ s) ∷ [],
    put-done _ out next h,
    others-append out (vanished (v ∷ s) ∷ []) ∙ append-nil (others out),
    λ q. reported-append out (vanished (v ∷ s) ∷ []) q ∙ ground arith,
  )

  answer-done :
      (u : Update) (r : Response) (pending : Set) (out : List Response)
      (next : List Response → Delivery)
      → response u ≡ some r
      → (answer write (some r) pending out next).1 ≡ done
      → (out' : List Response) × (answer write (some r) pending out next ≡ next out')
        × (others out' ≡ others out ++ r ∷ [])
        × ((q : ℕ) → reported out' q ≡ (reported out q || set_contains pending q))
  unfolding answer
  answer-done u r pending out next er h =
      let (out', e, o, rep) = flush_vanished-done pending out (λ o. put write r o next) h in
      let (po, pr) = plain u r er in
      (
        out' ++ r ∷ [],
        e ∙ put-done r out' next (rw e at h),
        others-append out' (r ∷ []) ∙ ap₂ ◌++◌ o po,
        λ q. reported-append out' (r ∷ []) q ∙ ground (arith, rep q, pr q),
      )

  -- The loop, from a pending set and responses written before.
  deliver_from-done :
      (qresync : Bool) (us : List Update) (pending : Set) (out : List Response)
      → All (λ u. u.expunge_uid < u32_mod) us
      → All (λ u. is_known u ≡ true) us
      → IsCanon pending
      → (deliver_from write qresync us pending out).1 ≡ done
      → (others (deliver_from write qresync us pending out).0 ≡ others out ++ told qresync us)
        × ((q : ℕ)
            → 0 < q
            → q < u32_mod
            → reported (deliver_from write qresync us pending out).0 q
              ≡ (reported out q || (set_contains pending q || expunged qresync us q)))
  unfolding deliver_from
  deliver_from-done qresync [] pending out b k c h =
      let (out', e, o, r) = flush_vanished-done pending out (λ out'. (out', done)) h in
      (rw e (o ∙ sym (append-nil (others out))), λ q p l. rw e (r q ∙ ground arith))
  deliver_from-done qresync (u ∷ us) pending out (bu, b) (ku, k) c h =
      elim (Bool-cases (is_held qresync u)) [
        | inl held ↦
            let (o, rep) =
              deliver_from-done qresync us (add_num pending (u.expunge_uid ∷ [])) out b k
                (add_num-IsCanon pending (u.expunge_uid ∷ []) c (bu, tt)) (rw held at h) in
            rw held (
              o,
              λ q p l.
                  rep q p l
                  ∙ ground
                      (arith, set_contains-add_num pending (u.expunge_uid ∷ []) q c (bu, tt) l),
            )
        | inr direct ↦
            let (r, er) = is_known-response u ku in
            let (out', e, o, rep) =
              answer-done u r pending out (λ out'. deliver_from write qresync us [] out') er
                (rw (direct, er) at h) in
            let (o', rep') =
              deliver_from-done qresync us [] out' b k tt (rw (direct, er, e) at h) in
            rw (direct, er, e)
              (
                o'
                    ∙ ap (λ l. l ++ told qresync us) o
                    ∙ append_assoc (others out) (r ∷ []) (told qresync us),
                λ q p l. rep' q p l ∙ ground (arith, rep q, set_contains-nil q),
              )
      ]

-- A Poll that ends well, whatever it writes to, on known updates with 32-bit UIDs: the responses other
-- than VANISHED are those of the updates that are not reported by UID, one for each and in order; and a
-- UID is in some VANISHED response exactly if QRESYNC is enabled and some update expunges that UID.
pub deliver-done :
    (write : List Response → Response → Bool) (qresync : Bool) (us : List Update)
    → All (λ u. u.expunge_uid < u32_mod) us
    → All (λ u. is_known u ≡ true) us
    → (deliver write qresync us).1 ≡ done
    → (others (deliver write qresync us).0 ≡ told qresync us)
      × ((q : ℕ)
          → 0 < q
          → q < u32_mod
          → reported (deliver write qresync us).0 q ≡ expunged qresync us q)
unfolding deliver
deliver-done write qresync us b k h =
    let (o, r) = deliver_from-done write qresync us [] [] b k tt h in
    (o, λ q p l. r q p l ∙ ground (arith, set_contains-nil q))

module _ (write : List Response → Response → Bool) where
  put-ne-panicked :
      (r : Response) (out : List Response) (next : List Response → Delivery)
      → ((o : List Response) → (next o).1 ≢ panicked)
      → (put write r out next).1 ≢ panicked
  unfolding put
  put-ne-panicked r out next h = ground (arith, h (out ++ r ∷ []))

  flush_vanished-ne-panicked :
      (s : Set) (out : List Response) (next : List Response → Delivery)
      → ((o : List Response) → (next o).1 ≢ panicked)
      → (flush_vanished write s out next).1 ≢ panicked
  unfolding flush_vanished
  flush_vanished-ne-panicked [] out next h = h out
  flush_vanished-ne-panicked (v ∷ s) out next h = put-ne-panicked _ out next h

  answer-ne-panicked :
      (r : Response) (s : Set) (out : List Response) (next : List Response → Delivery)
      → ((o : List Response) → (next o).1 ≢ panicked)
      → (answer write (some r) s out next).1 ≢ panicked
  unfolding answer
  answer-ne-panicked r s out next h =
      flush_vanished-ne-panicked s out _ (λ o. put-ne-panicked r o next h)

  deliver_from-ne-panicked :
      (qresync : Bool) (us : List Update) (pending : Set) (out : List Response)
      → All (λ u. is_known u ≡ true) us
      → (deliver_from write qresync us pending out).1 ≢ panicked
  unfolding deliver_from
  deliver_from-ne-panicked qresync [] pending out k =
      flush_vanished-ne-panicked pending out _ (λ o e. cc)
  deliver_from-ne-panicked qresync (u ∷ us) pending out (ku, k) =
      elim (Bool-cases (is_held qresync u)) [
        | inl held ↦ rw held (deliver_from-ne-panicked qresync us _ out k)
        | inr direct ↦
            let (r, er) = is_known-response u ku in
            rw (direct, er)
              (answer-ne-panicked r pending out _ (λ o. deliver_from-ne-panicked qresync us [] o k))
      ]

-- No queue of known updates makes a Poll panic, whatever the writer does.
pub deliver-ne-panicked :
    (write : List Response → Response → Bool) (qresync : Bool) (us : List Update)
    → All (λ u. is_known u ≡ true) us
    → (deliver write qresync us).1 ≢ panicked
unfolding deliver
deliver-ne-panicked write qresync us k = deliver_from-ne-panicked write qresync us [] [] k

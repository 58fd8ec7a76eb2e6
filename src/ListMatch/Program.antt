-- ===== src/ListMatch/Program.antt =====
-- The dynamic programme of matchList: after each round the reachable positions accept what the steps
-- consumed and those left accept together. The delimiter is one byte, or there is none.
use go_imap.Prelude.{
  ap, ℕ, zero, suc, ◌+◌, ◌-◌, ◌≡◌, ◌∙◌, refl, Bool, true, false, not, ◌&&◌, ◌||◌, List, [], ◌∷◌,
  arith, ◌==◌, if◌then◌else◌, Option, none, some, length, take, drop, get_or,
}
use go_imap.Strconv.{Bytes}
use go_imap.Strconv.Bytes.{same_bytes}
use go_imap.ListMatch.{
  all_false, Step, literal, wildcard, literal_cells, any_true, completes, inside, wildcard_cells,
  step, run_steps,
}
use go_imap.ListMatch.Reference.{is_delim, absorb, accept_literal, glob_steps}

abbrev pub delim_bytes : Option ℕ → Bytes
delim_bytes none = []
delim_bytes (some d) = d ∷ []

-- Some reachable position leaves a rest that `k` accepts.
unfoldable accepts : (Bytes → Bool) → Bytes → List Bool → Bool
accepts k s [] = false
accepts k [] (b ∷ bs) = b && k []
accepts k (x ∷ s) (b ∷ bs) = b && k (x ∷ s) || accepts k s bs

literal_cells-accepts :
    (c : ℕ) (k : Bytes → Bool) (s : Bytes) (bs : List Bool)
    → length bs ≡ length s + 1
    → accepts k s (false ∷ literal_cells c s bs) ≡ accepts (accept_literal c k) s bs
unfolding literal_cells accepts accept_literal
literal_cells-accepts c k s [] e = ground arith
literal_cells-accepts c k [] (b ∷ bs) e = ground arith
literal_cells-accepts c k (x ∷ []) (b ∷ []) e = ground arith
literal_cells-accepts c k (x ∷ []) (b ∷ b' ∷ bs) e = ground arith
literal_cells-accepts c k (x ∷ y ∷ s) (b ∷ []) e = ground arith
literal_cells-accepts c k (x ∷ y ∷ s) (b ∷ b' ∷ bs) e =
    ground (arith, literal_cells-accepts c k (y ∷ s) (b' ∷ bs))

drop-suc : (j x : ℕ) (name s : Bytes) → drop j name ≡ x ∷ s → drop (suc j) name ≡ s
drop-suc zero x [] s e = ground (arith, e)
drop-suc zero x (y ∷ name) s e = ground (arith, e)
drop-suc (suc j) x [] s e = ground (arith, e)
drop-suc (suc j) x (y ∷ name) s e = drop-suc j x name s e

succ : (j : ℕ) → j + 1 ≡ suc j
succ j = omega arith

pred : (j : ℕ) → suc j - 1 ≡ j
pred j = omega arith

one_cell :
    (co ins acc b kx star isd ab ac l : Bool)
    → (co ≡ true → ins ≡ false)
    → l ≡ (not (not star && isd) && (((if co then ins else acc) || b) && ab) || ac)
    → (((if co then ins else acc) || b) && kx || l) ≡ (
        not co && (acc && (kx || (star || not isd) && ab))
        || (b && (kx || (star || not isd) && ab) || ac))
one_cell co ins acc b kx star isd ab ac l h e = ground (arith, h, e)

module _ (star : Bool) (name : Bytes) (reach : List Bool) where
  inside-none :
      (d : Option ℕ) (j : ℕ)
      → completes star (delim_bytes d) name reach j ≡ true
      → inside star (delim_bytes d) name reach j ≡ false
  unfolding completes inside any_true
  inside-none none j e = ground (arith, e)
  inside-none (some d) j e = refl

  same_first : (d x : ℕ) (s : Bytes) → same_bytes (take 1 (x ∷ s)) (d ∷ []) ≡ (x == d)
  unfolding same_bytes
  same_first d x s = ground arith

  completes-suc :
      (d : Option ℕ) (j x : ℕ) (s : Bytes)
      → drop j name ≡ x ∷ s
      → completes star (delim_bytes d) name reach (suc j) ≡ (not star && is_delim d x)
  unfolding completes
  completes-suc none j x s e = ground arith
  completes-suc (some d) j x s e = rw (pred j, e, same_first d x s) (ground arith)

  completes-zero : (d : Option ℕ) → completes star (delim_bytes d) name reach 0 ≡ false
  unfolding completes
  completes-zero none = ground arith
  completes-zero (some d) = ground arith

  module _ (d : Option ℕ) (k : Bytes → Bool) where
    wildcard_cells-accepts :
        (j : ℕ) (acc : Bool) (s : Bytes) (bs : List Bool)
        → drop j name ≡ s
        → length bs ≡ length s + 1
        → accepts k s (wildcard_cells star (delim_bytes d) name reach j acc bs) ≡ (
            not (completes star (delim_bytes d) name reach j) && (acc && absorb star d k s)
            || accepts (absorb star d k) s bs)
    unfolding wildcard_cells accepts absorb
    wildcard_cells-accepts j acc s [] e l = ground (arith, l)
    wildcard_cells-accepts j acc [] (b ∷ bs) e l = ground (arith, l, inside-none d j)
    wildcard_cells-accepts j acc (x ∷ s) (b ∷ bs) e l =
        let co = completes star (delim_bytes d) name reach j in
        let ins = inside star (delim_bytes d) name reach j in
        let ih =
          wildcard_cells-accepts (suc j) ((if co then ins else acc) || b) s bs
            (drop-suc j x name s e) (omega (arith, l)) in
        rw (succ j) (
          one_cell co ins acc b (k (x ∷ s)) star (is_delim d x) (absorb star d k s)
            (accepts (absorb star d k) s bs) _ (inside-none d j)
            (ih ∙ rw (completes-suc d j x s e) refl))

wildcard_cells-length :
    (star : Bool) (delim name : Bytes) (reach : List Bool) (j : ℕ) (acc : Bool) (bs : List Bool)
    → length (wildcard_cells star delim name reach j acc bs) ≡ length bs
unfolding wildcard_cells
wildcard_cells-length star delim name reach j acc [] = refl
wildcard_cells-length star delim name reach j acc (b ∷ bs) =
    ap suc (wildcard_cells-length star delim name reach (j + 1) _ bs)

literal_cells-length :
    (c : ℕ) (name : Bytes) (bs : List Bool)
    → length bs ≡ length name + 1
    → length (literal_cells c name bs) ≡ length name
unfolding literal_cells
literal_cells-length c [] bs e = refl
literal_cells-length c (x ∷ name) [] e = omega (arith, e)
literal_cells-length c (x ∷ name) (b ∷ bs) e =
    omega (arith, literal_cells-length c name bs (omega (arith, e)))

step-length :
    (name delim : Bytes) (st : Step) (reach : List Bool)
    → length reach ≡ length name + 1
    → length (step name delim st reach) ≡ length name + 1
unfolding step
step-length name delim (literal c) reach e = omega (arith, literal_cells-length c name reach e)
step-length name delim (wildcard star) reach e =
    wildcard_cells-length star delim name reach 0 false reach ∙ e

-- One round hands the bytes that the step absorbs over to the positions.
step-accepts :
    (name : Bytes) (d : Option ℕ) (st : Step) (ss : List Step) (reach : List Bool)
    → length reach ≡ length name + 1
    → accepts (glob_steps d ss) name (step name (delim_bytes d) st reach)
      ≡ accepts (glob_steps d (st ∷ ss)) name reach
unfolding step glob_steps
step-accepts name d (literal c) ss reach e = literal_cells-accepts c (glob_steps d ss) name reach e
step-accepts name d (wildcard star) ss reach e =
    wildcard_cells-accepts star name reach d (glob_steps d ss) 0 false name reach refl e
    ∙ ground arith

any_true-accepts :
    (k : Bytes → Bool) (s : Bytes) (bs : List Bool) → any_true bs ≡ false → accepts k s bs ≡ false
unfolding any_true accepts
any_true-accepts k s [] e = refl
any_true-accepts k [] (b ∷ bs) e = ground (arith, e)
any_true-accepts k (x ∷ s) (b ∷ bs) e = ground (arith, e, any_true-accepts k s bs)

accepts-end :
    (d : Option ℕ) (s : Bytes) (bs : List Bool)
    → length bs ≡ length s + 1
    → get_or bs (length s) false ≡ accepts (glob_steps d []) s bs
unfolding accepts glob_steps
accepts-end d s [] e = ground (arith, e)
accepts-end d [] (b ∷ bs) e = ground arith
accepts-end d (x ∷ s) (b ∷ bs) e = ground (arith, accepts-end d s bs (omega (arith, e)))

run_steps-accepts :
    (name : Bytes) (d : Option ℕ) (ss : List Step) (reach : List Bool)
    → length reach ≡ length name + 1
    → run_steps name (delim_bytes d) ss reach ≡ accepts (glob_steps d ss) name reach
unfolding run_steps
run_steps-accepts name d [] reach e = accepts-end d name reach e
run_steps-accepts name d (st ∷ ss) reach e =
    let next = step name (delim_bytes d) st reach in
    let ih = run_steps-accepts name d ss next (step-length name (delim_bytes d) st reach e) in
    ground
      (arith, ih, step-accepts name d st ss reach e, any_true-accepts (glob_steps d ss) name next)

all_false-accepts : (k : Bytes → Bool) (s : Bytes) → accepts k s (false ∷ all_false s) ≡ false
unfolding accepts
all_false-accepts k [] = refl
all_false-accepts k (x ∷ s) = all_false-accepts k s

all_false-length : (s : Bytes) → length (all_false s) ≡ length s
all_false-length [] = refl
all_false-length (x ∷ s) = ap suc (all_false-length s)

pub run_steps-glob_steps :
    (name : Bytes) (d : Option ℕ) (ss : List Step)
    → run_steps name (delim_bytes d) ss (true ∷ all_false name) ≡ glob_steps d ss name
run_steps-glob_steps name d ss =
    run_steps-accepts name d ss (true ∷ all_false name) (omega (arith, all_false-length name))
    ∙ start_at (glob_steps d ss) name
  where
    start_at : (k : Bytes → Bool) (s : Bytes) → accepts k s (true ∷ all_false s) ≡ k s
    start_at k [] = unfold accepts in refl
    start_at k (x ∷ s) = unfold accepts in ground (arith, all_false-accepts k s)

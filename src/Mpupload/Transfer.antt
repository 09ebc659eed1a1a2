-- ===== src/Mpupload/Transfer.antt =====
-- test/mpupload/upload_part.go, `uploadPartsSpecified`: the goroutines that send the parts, and the loop
-- that waits for them.
use filestore_hsz.Prelude.{
  ℕ, zero, suc, ◌+◌, ◌*◌, ◌<◌, ◌≤◌, ◌≡◌, ◌≢◌, refl, sym, ap, ◌∙◌, Text, bytes, length,
  length-append, ℤ, pos, Option, none, some, All, List, [], ◌∷◌, ◌++◌, map, arith,
}
use filestore_hsz.Go.{Exit, ret, panic, Result, ok, err}
use filestore_hsz.Go.Strconv.{format_int}
use filestore_hsz.Util.{digest}
use filestore_hsz.Mpupload.Parts.{
  Job, Read, IsChunk, jobs, index_of, jobs-chosen, AreAscending-up_to,
  chunks_to_upload-AreAscending,
}
use filestore_hsz.Mpupload.Choose.{chunks_to_upload}

-- `http.Post` of a body to an address, and reading the answer.
abbrev pub Post : Type 0 → Type 0
Post W = Text → Text → W → Result Text × W

-- `targetURL+"&index="+strconv.Itoa(curIdx)+"&chkhash="+chkhash`
unfoldable pub part_url : (Text → Text) → Text → Job → Text
part_url sha1 target_url (i, b) =
    target_url ++ bytes "&index=" ++ format_int (pos i) ++ bytes "&chkhash=" ++ digest sha1 b

-- The parts that the loop has not started, the goroutines that have not been answered, those that wait
-- to hand their index over, how many indices the main goroutine still waits for, and the world.
pub data State (W : Type 0) : Type 0 where
  state : (to_start posting : List Job) (sending : List ℕ) (to_receive : ℕ) (world : W) → State W

with_parts : {W : Type 0} → ℕ → W → Exit (List Job) → Exit (Result (State W))
with_parts n w panic = panic
with_parts n w (ret js) = ret (ok (state js [] [] n w))

-- The error of `os.Open`, if it has one, is returned; else the parts are started, and as many indices
-- are waited for as were given.
unfoldable pub upload_parts_specified :
    {W : Type 0} → Option Text → List ℕ → List Read → W → Exit (Result (State W))
unfolding with_parts
upload_parts_specified (some e) chunk_idxs reads w = ret (err e)
upload_parts_specified none chunk_idxs reads w =
    with_parts (length chunk_idxs) w (jobs chunk_idxs 0 reads)

module _ {W : Type 0} (post : Post W) (sha1 : Text → Text) (target_url : Text) where
  -- One step of one goroutine. A post that fails has no step: its goroutine reads the body of no answer
  -- and brings the program down.
  pub data Step : State W → State W → Type 0 where
    started :
        {js ps : List Job} {is : List ℕ} {n : ℕ} {w : W}
        → (j : Job) → Step (state (j ∷ js) ps is n w) (state js (j ∷ ps) is n w)
    posted :
        {js : List Job} {is : List ℕ} {n : ℕ} {w w' : W}
        → (ps qs : List Job) (j : Job) (body : Text)
        → post (part_url sha1 target_url j) j.1 w ≡ (ok body, w')
        → Step (state js (ps ++ j ∷ qs) is n w) (state js (ps ++ qs) (j.0 ∷ is) n w')
    received :
        {ps : List Job} {n : ℕ} {w : W}
        → (is ks : List ℕ) (i : ℕ)
        → Step (state [] ps (is ++ i ∷ ks) (suc n) w) (state [] ps (is ++ ks) n w)

  -- So many steps.
  pub data Steps (s : State W) : ℕ → State W → Type 0 where
    here : Steps s 0 s
    then : {k : ℕ} {t u : State W} → Steps s k t → Step t u → Steps s (suc k) u

  abbrev pub to_receive : State W → ℕ
  to_receive (state js ps is n w) = n

  -- The parts whose indices have not been received.
  abbrev pub outstanding : State W → ℕ
  outstanding (state js ps is n w) = length js + length ps + length is

  -- How many steps the parts are from being received.
  abbrev pub distance : State W → ℕ
  distance (state js ps is n w) = 3 * length js + 2 * length ps + length is

  Step-distance : {s t : State W} → Step s t → suc (distance t) ≡ distance s
  Step-distance (started {js} {ps} {is} {n} {w} j) = omega arith
  Step-distance (posted {js} {is} {n} {w} {w'} ps qs j body e) =
      omega (arith, length-append ps (j ∷ qs), length-append ps qs)
  Step-distance (received {ps} {n} {w} is ks i) =
      omega (arith, length-append is (i ∷ ks), length-append is ks)

  Step-outstanding :
      {s t : State W} → Step s t → outstanding t + to_receive s ≡ outstanding s + to_receive t
  Step-outstanding (started {js} {ps} {is} {n} {w} j) = omega arith
  Step-outstanding (posted {js} {is} {n} {w} {w'} ps qs j body e) =
      omega (arith, length-append ps (j ∷ qs), length-append ps qs)
  Step-outstanding (received {ps} {n} {w} is ks i) =
      omega (arith, length-append is (i ∷ ks), length-append is ks)

  pub Steps-outstanding :
      {s t : State W} {k : ℕ}
      → Steps s k t
      → outstanding t + to_receive s ≡ outstanding s + to_receive t
  Steps-outstanding here = refl
  Steps-outstanding {s} (then {k} {t} {u} steps step) =
      omega (arith, Steps-outstanding steps, Step-outstanding step)

  Steps-distance : {s t : State W} {k : ℕ} → Steps s k t → k + distance t ≡ distance s
  Steps-distance here = omega arith
  Steps-distance {s} (then {k} {t} {u} steps step) =
      omega (arith, Steps-distance steps, Step-distance step)

  Step-first : {s t u : State W} {k : ℕ} → Step s t → Steps t k u → Steps s (suc k) u
  Step-first first here = then here first
  Step-first first (then steps step) = then (Step-first first steps) step

  module _
      (answered : (j : Job) (w : W)
        → (body : Text) × (w' : W) × (post (part_url sha1 target_url j) j.1 w
            ≡ (ok body, w'))) where
    progress :
        (s : State W) (d : ℕ)
        → distance s ≡ suc d
        → outstanding s ≡ to_receive s
        → (t : State W) × Step s t
    progress (state (j ∷ js) ps is n w) d far same = (_, started j)
    progress (state [] (j ∷ ps) is n w) d far same =
        let (body, w', e) = answered j w in (_, posted [] ps j body e)
    progress (state [] [] (i ∷ is) (suc n) w) d far same = (_, received [] is i)
    progress (state [] [] (i ∷ is) zero w) d far same = let no : ⊥ = omega arith in elim no [ ]
    progress (state [] [] [] n w) d far same = let no : ⊥ = omega arith in elim no [ ]

    finish :
        (d : ℕ) (s : State W)
        → distance s ≡ d
        → outstanding s ≡ to_receive s
        → (u : State W) × Steps s d u × (to_receive u ≡ 0)
    finish zero (state js ps is n w) near same = (state js ps is n w, here, omega arith)
    finish (suc d) s far same =
        let (t, step) = progress s d far same in
        let (u, steps, all) =
          finish d t (omega (arith, Step-distance step)) (omega (arith, Step-outstanding step)) in
        (u, Step-first step steps, all)

    -- Where every post is answered, an upload that waits for as many indices as it starts parts comes to
    -- an end however its goroutines take turns: after any steps others follow until every index is
    -- received, and all of them together are three for each part.
    pub transfer_finishes :
        (js : List Job) (w : W) (k : ℕ) (t : State W)
        → Steps (state js [] [] (length js) w) k t
        → (m : ℕ) × (u : State W) × Steps t m u × (to_receive u ≡ 0) × (k + m ≡ 3 * length js)
    transfer_finishes js w k t steps =
        let (u, more, all) = finish (distance t) t refl (omega (arith, Steps-outstanding steps)) in
        (distance t, u, more, all, omega (arith, Steps-distance steps))

  -- An upload that waits for more indices than it starts parts never gets them all, however its
  -- goroutines take turns.
  pub transfer_waits :
      (js : List Job) (n : ℕ) (w : W) (k : ℕ) (t : State W)
      → length js < n
      → Steps (state js [] [] n w) k t
      → to_receive t ≢ 0
  transfer_waits js n w k t few steps = λ e. omega (arith, Steps-outstanding steps)

length-map-index_of : (js : List Job) → length (map index_of js) ≡ length js
length-map-index_of [] = refl
length-map-index_of (j ∷ js) = omega (arith, length-map-index_of js)

-- The upload of the chunks that a run chooses, with a limit above zero and of a file that is opened and
-- read in chunks that fit the buffer, as many at least as the server counts, starts one part for each
-- chosen chunk, in their order, and waits for as many.
pub upload_parts_specified-chosen :
    {W : Type 0} (ex : List ℤ) (limit count : ℕ) (rs : List Read) (w : W)
    → 1 ≤ limit
    → count ≤ length rs
    → All IsChunk rs
    → (js : List Job) × (upload_parts_specified none
          (chunks_to_upload ex (pos limit) (pos count))
          rs
          w
        ≡ ret (ok (state js [] [] (length js) w)))
      × (map index_of js ≡ chunks_to_upload ex (pos limit) (pos count))
unfolding upload_parts_specified with_parts
upload_parts_specified-chosen ex limit count rs w positive enough whole =
    let idxs = chunks_to_upload ex (pos limit) (pos count) in
    let (js, run, same) = jobs-chosen idxs rs whole (
      AreAscending-up_to 0 idxs count (length rs) enough
        (chunks_to_upload-AreAscending ex limit count positive)) in
    (
      js,
      rw run (
          ap (λ (n : ℕ). ret (ok (state js [] [] n w)))
            (ap length (sym same) ∙ length-map-index_of js)),
      same,
    )

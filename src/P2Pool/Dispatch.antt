-- ===== src/P2Pool/Dispatch.antt =====
-- p2pool/client.go `dispatchJobs`: what reaches the miner of what the P2Pool sends.
use go_pool.Base.{
  ℕ, arith, ◌+◌, ◌-◌, ◌≤◌, ◌<◌, ◌≡◌, ◌∙◌, sym, inl, inr, refl, ap, true, false, Bool-cases, List,
  [], ◌∷◌, ◌++◌, Option, none, some, ◌==◌, if◌then◌else◌, All, length,
}
use go_pool.Miner.Notify.{P2PoolJob}
use go_pool.P2Pool.{
  Message, garbled, message, Sent, job, response, Takers, Progress, has_ended, blocked, less_job,
  less_answer, dispatch, dispatch_jobs,
}

-- The line ends the loop.
abbrev pub IsEnd : Message → Type 0
IsEnd garbled = Unit {0}
IsEnd (message true id none) = Unit {0}
IsEnd (message true id (some j)) = ⊥
IsEnd (message false id j) = ⊥

-- The line has a job, or is no job at all.
abbrev pub IsGood : Message → Type 0
IsGood garbled = ⊥
IsGood (message true id none) = ⊥
IsGood (message true id (some j)) = Unit {0}
IsGood (message false id j) = Unit {0}

abbrev pub jobs_in : List Message → List P2PoolJob
jobs_in [] = []
jobs_in (message true id (some j) ∷ ms) = j ∷ jobs_in ms
jobs_in (_ ∷ ms) = jobs_in ms

-- How many lines answer a submit.
abbrev pub answers_in : List Message → ℕ
answers_in [] = 0
answers_in (message false id j ∷ ms) = (if id == 541 then 1 else 0) + answers_in ms
answers_in (_ ∷ ms) = answers_in ms

abbrev pub jobs_sent : List Sent → List P2PoolJob
jobs_sent [] = []
jobs_sent (job j ∷ s) = j ∷ jobs_sent s
jobs_sent (response id ∷ s) = jobs_sent s

abbrev pub answers_sent : List Sent → ℕ
answers_sent [] = 0
answers_sent (job j ∷ s) = answers_sent s
answers_sent (response id ∷ s) = 1 + answers_sent s

-- The lines are read, and what is sent of them is the jobs and the answers among them.
abbrev IsForwarded : Takers → List Message → List Message → Progress → Type 0
IsForwarded tk ms tail end =
    (sent : List Sent) × (dispatch tk (ms ++ tail) ≡ (sent, end))
    × (jobs_sent sent ≡ jobs_in ms)
    × (answers_sent sent ≡ answers_in ms)

dispatch-answer :
    (tk : Takers) (id : ℕ) (j : Option P2PoolJob) (ms : List Message) (sent : List Sent)
    (end : Progress)
    → (id == 541) ≡ true
    → 0 < tk.answers
    → dispatch (less_answer tk) ms ≡ (sent, end)
    → dispatch tk (message false id j ∷ ms) ≡ (response id ∷ sent, end)
unfolding dispatch
dispatch-answer tk id j ms sent end own taken run =
    let some_left : (tk.answers == 0) ≡ false = ground (arith, taken) in
    rw (own, some_left, run) refl

dispatch-ignored :
    (tk : Takers) (id : ℕ) (j : Option P2PoolJob) (ms : List Message) (sent : List Sent)
    (end : Progress)
    → (id == 541) ≡ false
    → dispatch tk ms ≡ (sent, end)
    → dispatch tk (message false id j ∷ ms) ≡ (sent, end)
unfolding dispatch
dispatch-ignored tk id j ms sent end other run = rw (other, run) refl

-- Where nothing is sent of the tail by what is then left of the takers.
dispatch-IsForwarded :
    (ms : List Message) (tail : List Message) (end : Progress) (tk : Takers)
    → All IsGood ms
    → length (jobs_in ms) ≤ tk.jobs
    → answers_in ms ≤ tk.answers
    → ((left : Takers) → left.answers ≡ tk.answers - answers_in ms → dispatch left tail ≡ ([], end))
    → IsForwarded tk ms tail end
unfolding dispatch
dispatch-IsForwarded [] tail end tk h js as_ stop = ([], stop tk (omega arith), refl, refl)
dispatch-IsForwarded (garbled ∷ ms) tail end tk h js as_ stop = absurd h.0
dispatch-IsForwarded (message true id none ∷ ms) tail end tk h js as_ stop = absurd h.0
dispatch-IsForwarded (message true id (some j) ∷ ms) tail end tk h js as_ stop =
    let some_left : (tk.jobs == 0) ≡ false = ground arith in
    let (sent, run, jobs, answers) =
      dispatch-IsForwarded ms tail end (less_job tk) h.1 (omega (arith, js)) as_ stop in
    (job j ∷ sent, rw (run, some_left) refl, ap (λ l. j ∷ l) jobs, answers)
dispatch-IsForwarded (message false id j ∷ ms) tail end tk h js as_ stop =
    elim (Bool-cases (id == 541)) [
      | inl own ↦
          let count : answers_in (message false id j ∷ ms) ≡ 1 + answers_in ms = rw own refl in
          let (sent, run, jobs, answers) =
            dispatch-IsForwarded ms tail end (less_answer tk) h.1 js (omega (arith, count, as_))
              (λ left e. stop left (omega (arith, e, count))) in
          (
            response id ∷ sent,
            dispatch-answer tk id j (ms ++ tail) sent end own (omega (arith, count, as_)) run,
            jobs,
            ap (λ n. 1 + n) answers ∙ sym count,
          )
      | inr other ↦
          let count : answers_in (message false id j ∷ ms) ≡ answers_in ms =
            rw other (omega arith) in
          let (sent, run, jobs, answers) =
            dispatch-IsForwarded ms tail end tk h.1 js (omega (arith, count, as_))
              (λ left e. stop left (omega (arith, e, count))) in
          (
            sent,
            dispatch-ignored tk id j (ms ++ tail) sent end other run,
            jobs,
            answers ∙ sym count,
          )
    ]

dispatch_end :
    (last : Message) (rest : List Message) (tk : Takers)
    → IsEnd last
    → dispatch tk (last ∷ rest) ≡ ([], has_ended)
unfolding dispatch
dispatch_end garbled rest tk h = refl
dispatch_end (message true id none) rest tk h = refl
dispatch_end (message true id (some j)) rest tk h = absurd h
dispatch_end (message false id j) rest tk h = absurd h

dispatch_untaken :
    (j : Option P2PoolJob) (rest : List Message) (tk : Takers)
    → tk.answers ≡ 0
    → dispatch tk (message false 541 j ∷ rest) ≡ ([], blocked)
unfolding dispatch
dispatch_untaken j rest tk none_left = let e : (tk.answers == 0) ≡ true = ground arith in rw e refl

-- The channels get the job of the login and what else is in the lines.
abbrev pub IsDispatched : Takers → P2PoolJob → List Message → List Message → Progress → Type 0
IsDispatched tk first ms tail end =
    (sent : List Sent) × (dispatch_jobs tk first (ms ++ tail) ≡ (sent, end))
    × (jobs_sent sent ≡ first ∷ jobs_in ms)
    × (answers_sent sent ≡ answers_in ms)

-- A submitter waits for each answer of the lines, and nobody for another one.
abbrev pub for_these : List Message → Takers → Takers
for_these ms tk = record tk { answers = answers_in ms }

-- Where the miner takes the job of the login and each job of the lines, and a submitter waits for each
-- answer in them: of the lines up to the first that ends the loop, which is one that cannot be read or
-- a job without its data, each job reaches the miner, behind the job of the login and in the order of
-- the lines, and each answer to a submit reaches a submitter; what comes later is not read. If the
-- lines go on with one more answer instead, which nobody waits for, the loop blocks at it, and nothing behind
-- it reaches anyone.
pub dispatch_jobs_forwards :
    (tk : Takers) (first : P2PoolJob) (ms : List Message) (last : Message) (j : Option P2PoolJob)
    (rest : List Message)
    → All IsGood ms
    → IsEnd last
    → length (first ∷ jobs_in ms) ≤ tk.jobs
    → answers_in ms ≤ tk.answers
    → IsDispatched tk first ms (last ∷ rest) has_ended
      × IsDispatched (for_these ms tk) first ms (message false 541 j ∷ rest) blocked
unfolding dispatch_jobs
dispatch_jobs_forwards tk first ms last j rest h e js as_ =
    let some_left : (tk.jobs == 0) ≡ false = ground (arith, js) in
    let fewer : length (jobs_in ms) ≤ tk.jobs - 1 = omega (arith, js) in
    let (sent, run, jobs, answers) =
      dispatch-IsForwarded ms (last ∷ rest) has_ended (less_job tk) h fewer as_
        (λ left _. dispatch_end last rest left e) in
    let (sent', run', jobs', answers') =
      dispatch-IsForwarded ms (message false 541 j ∷ rest) blocked (less_job (for_these ms tk)) h
        fewer (omega arith) (λ left l. dispatch_untaken j rest left (omega (arith, l))) in
    (
      (job first ∷ sent, rw (run, some_left) refl, ap (λ l. first ∷ l) jobs, answers),
      (job first ∷ sent', rw (run', some_left) refl, ap (λ l. first ∷ l) jobs', answers'),
    )

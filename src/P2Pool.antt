-- ===== src/P2Pool.antt =====
-- p2pool/client.go and p2client.go: the connection of a miner to a P2Pool. What the other end sends is
-- an argument, as the records that its JSON stands for.
pub mod Dispatch
pub mod Orphan
use go_pool.Base.{
  ℕ, ◌+◌, ◌-◌, ◌*◌, Bool, true, false, List, [], ◌∷◌, ◌++◌, Option, none, some, ltb, ◌==◌,
  if◌then◌else◌,
}
use go_pool.Base.Bytes.{Bytes}
use go_pool.Float.{ℤ, pos}
use go_pool.Miner.Notify.{P2PoolJob}

-- `responseChannel` is open where `dispatchJobs` runs for the client; it closes the channel.
pub record Client : Type 0 where
  pub address : Bytes
  pub client_id : Bytes
  pub connected : Bool
  pub alive : Bool
  pub dispatching : Bool

-- `Client{}`
abbrev pub new_client : Client
new_client = record {
  address = [];
  client_id = [];
  connected = false;
  alive = false;
  dispatching = false;
}

-- `Close`
unfoldable pub close : Client → Client
close cl = if cl.alive then record cl { alive = false; connected = false } else cl

pub record Note : Type 0 where
  pub code : ℤ
  pub message : Bytes

abbrev pub no_note : Note
no_note = record { code = ℤ.pos 0; message = [] }

abbrev or_no_note : Option Note → Note
or_no_note none = no_note
or_no_note (some n) = n

pub data SubmitResult : Type 0 where
  refused : SubmitResult
  answered : ℕ → SubmitResult
  waits : SubmitResult

abbrev checked : ℕ → Option ℕ → SubmitResult
checked expected none = refused
checked expected (some id) = if id == expected then answered id else refused

-- `submitRequest` for a request that is written or not, and the id of the response that comes: `none`
-- is the nil of the closed channel. Without `dispatchJobs` nobody sends or closes.
unfoldable pub submit_request : ℕ → Bool → Option ℕ → Client → SubmitResult × Client
submit_request expected written response cl =
    let reply = checked expected response in
    if cl.alive
    then if written then (if cl.dispatching then (reply, cl) else (waits, cl)) else (refused, cl)
    else (refused, cl)

-- `SubmitWork`, also as `SubmitShare`.
unfoldable pub submit_work : Bool → Option ℕ → Client → SubmitResult × Client
submit_work = submit_request 541

-- `loginResponse`
pub data Login : Type 0 where
  unreadable : Login
  login : Option (Bytes × Option P2PoolJob) → Option Note → Option Note → Login

pub data Connected : Type 0 where
  failed : Note → Connected
  joined : Note → P2PoolJob → Connected

-- What `Connect` does behind the dial and the write.
unfoldable pub logged_in : Login → Client → Connected × Client
logged_in unreadable cl = (failed no_note, cl)
logged_in (login none error warning) cl = (failed (or_no_note error), cl)
logged_in (login (some (id, none)) error warning) cl =
    (failed no_note, record cl { alive = true; dispatching = false })
logged_in (login (some (id, some job)) error warning) cl = (
  joined (or_no_note warning) job,
  record cl { alive = true; dispatching = true; client_id = id },
)

-- `Connect`
unfoldable pub connect : Bytes → Bool → Bool → Login → Client → Connected × Client
connect address dialled written answer cl =
    let closed = record (close cl) { address = address; connected = dialled } in
    let next = logged_in answer closed in
    if dialled
    then (if written then next else (failed no_note, closed))
    else (failed no_note, closed)

-- A line that `dispatchJobs` reads: not JSON, or whether its method is "job", its id and its job.
pub data Message : Type 0 where
  garbled : Message
  message : Bool → ℕ → Option P2PoolJob → Message

pub data Sent : Type 0 where
  job : P2PoolJob → Sent
  response : ℕ → Sent

-- How many values the other ends still take from the two channels, which have no room: a send that
-- nobody takes waits for ever.
pub record Takers : Type 0 where
  pub jobs : ℕ
  pub answers : ℕ

pub data Progress : Type 0 where
  reading has_ended blocked : Progress

abbrev pub less_job : Takers → Takers
less_job tk = record tk { jobs = tk.jobs - 1 }

abbrev pub less_answer : Takers → Takers
less_answer tk = record tk { answers = tk.answers - 1 }

-- The loop of `dispatchJobs`: what it sends to the two channels, and where it is then.
unfoldable pub dispatch : Takers → List Message → List Sent × Progress
dispatch tk [] = ([], reading)
dispatch tk (garbled ∷ ms) = ([], has_ended)
dispatch tk (message true id none ∷ ms) = ([], has_ended)
dispatch tk (message true id (some j) ∷ ms) =
    let (sent, end) = dispatch (less_job tk) ms in
    if tk.jobs == 0 then ([], blocked) else (job j ∷ sent, end)
dispatch tk (message false id j ∷ ms) =
    let (sent, end) = dispatch (if id == 541 then less_answer tk else tk) ms in
    if id == 541
    then (if tk.answers == 0 then ([], blocked) else (response id ∷ sent, end))
    else (sent, end)

unfoldable pub dispatch_jobs : Takers → P2PoolJob → List Message → List Sent × Progress
dispatch_jobs tk first ms =
    let (sent, end) = dispatch (less_job tk) ms in
    if tk.jobs == 0 then ([], blocked) else (job first ∷ sent, end)

-- One round of `Start`: the jobs of a connection with their times, none where it fails, and the time
-- at `redo`.
pub record Attempt : Type 0 where
  pub jobs : List (ℕ × P2PoolJob)
  pub ended_at : ℕ

abbrev pub last_job : ℕ → List (ℕ × P2PoolJob) → ℕ
last_job last [] = last
last_job last ((time, _) ∷ js) = last_job time js

abbrev pub jobs_of : List (ℕ × P2PoolJob) → List P2PoolJob
jobs_of [] = []
jobs_of ((_, j) ∷ js) = j ∷ jobs_of js

-- `TOTAL_TIMEOUT`
abbrev pub total_timeout : ℕ
total_timeout = 25 * 1000000000

-- `Start`: the jobs that it passes on, and whether it has returned.
unfoldable pub start : ℕ → List Attempt → List P2PoolJob × Bool
start last [] = ([], false)
start last (a ∷ attempts) =
    let last' = last_job last a.jobs in
    let (passed, returned) = start last' attempts in
    if ltb (last' + total_timeout) a.ended_at
    then (jobs_of a.jobs, true)
    else (jobs_of a.jobs ++ passed, returned)

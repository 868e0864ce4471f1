-- ===== src/P2Pool/Orphan.antt =====
-- p2pool/client.go `Connect`: the client behind an answer to the login that has no job.
use go_pool.Base.{ℕ, ◌≡◌, refl, true, false, Option, none, some}
use go_pool.Base.Bytes.{Bytes}
use go_pool.P2Pool.{
  Client, Note, no_note, login, failed, connect, logged_in, waits, submit_work, submit_request,
  close,
}

-- A login that is answered without a job fails, and leaves the client alive and without a reader: a
-- submit that is written then waits for ever, whatever the P2Pool answers.
pub connect-submit_work :
    (address id : Bytes) (error warning : Option Note) (response : Option ℕ) (cl : Client)
    → (cl' : Client) × (connect address true true (login (some (id, none)) error warning) cl
        ≡ (failed no_note, cl'))
      × (submit_work true response cl' ≡ (waits, cl'))
unfolding connect logged_in submit_work submit_request
connect-submit_work address id error warning response cl = (
  record (close cl) { address = address; connected = true; alive = true; dispatching = false },
  refl,
  refl,
)

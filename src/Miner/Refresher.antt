-- ===== src/Miner/Refresher.antt =====
-- cmd/slave/slave.go `Refresher`: the rounds of its loop and of its handler of SIGUSR1, with the
-- daemon's answers as arguments. What a round starts is `OnNewBlock`. Times are seconds.
pub mod Announced
use go_pool.Base.{
  ℕ, ◌+◌, Bool, true, false, not, ◌||◌, List, [], ◌∷◌, Option, none, some, ltb, ◌==◌, if◌then◌else◌,
}
use go_pool.Miner.State.{Infos}

-- `CurInfo` with the time of its last template.
pub record Refresh : Type 0 where
  pub info : Infos
  pub last_template_at : ℕ

abbrev pub set_height : ℕ → Infos → Infos
set_height height info = record info { height = height }

-- The major version of the last block header; an error leaves it.
abbrev pub set_version : Option ℕ → Infos → Infos
set_version none info = info
set_version (some version) info = record info { major_version = version }

-- The handler of the signal: the state behind it, and whether it starts `OnNewBlock`.
unfoldable pub on_signal : Option ℕ → Option ℕ → Refresh → Refresh × Bool
on_signal none header st = (st, false)
on_signal (some height) header st =
    if height == st.info.height
    then (st, false)
    else (record st { info = set_version header (set_height height st.info) }, true)

-- The height 0 of the start is set to 1.
abbrev pub started_up : Refresh → Refresh
started_up st = if st.info.height == 0 then record st { info = set_height 1 st.info } else st

-- The daemon answered with a height: a new one, or a template older than the timeout.
abbrev pub is_due : ℕ → ℕ → ℕ → Refresh → Bool
is_due timeout now height st =
    not (height == st.info.height) || ltb (st.last_template_at + timeout) now

abbrev pub with_header : Option ℕ → Refresh × Bool → Refresh × Bool
with_header header (st, due) = (record st { info = set_version header st.info }, due)

abbrev pub on_height : ℕ → ℕ → Option ℕ → Option ℕ → Refresh → Refresh × Bool
on_height timeout now none header st = (st, false)
on_height timeout now (some height) header st = with_header header (
    if is_due timeout now height st
    then (record { info = set_height height st.info; last_template_at = now }, true)
    else (st, false))

-- A round of the loop.
unfoldable pub refresh_round : ℕ → ℕ → Option ℕ → Option ℕ → Refresh → Refresh × Bool
refresh_round timeout now height header st = on_height timeout now height header (started_up st)

pub data Event : Type 0 where
  signal : Option ℕ → Option ℕ → Event
  round : ℕ → Option ℕ → Option ℕ → Event

unfoldable pub refresh_event : ℕ → Event → Refresh → Refresh × Bool
refresh_event timeout (signal height header) st = on_signal height header st
refresh_event timeout (round now height header) st = refresh_round timeout now height header st

-- `Refresher`: how often `OnNewBlock` is started.
unfoldable pub refresher : ℕ → List Event → Refresh → Refresh × ℕ
refresher timeout [] st = (st, 0)
refresher timeout (e ∷ events) st =
    let (st', due) = refresh_event timeout e st in
    let (last, starts) = refresher timeout events st' in (last, (if due then 1 else 0) + starts)

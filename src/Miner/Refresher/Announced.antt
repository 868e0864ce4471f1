-- ===== src/Miner/Refresher/Announced.antt =====
-- cmd/slave/slave.go `Refresher`: no height of the daemon goes by without `OnNewBlock`.
use go_pool.Base.{
  ℕ, ◌+◌, ◌≤◌, ◌<◌, ◌≡◌, refl, Bool, false, List, [], ◌∷◌, Option, none, some, ◌==◌, ltb,
  if◌then◌else◌, Bool-cases, inl, inr, arith, ==_iff, ap, sym, ◌∙◌,
}
use go_pool.Miner.State.{Infos}
use go_pool.Miner.Refresher.{
  Refresh, Event, signal, round, set_version, on_height, on_signal, refresh_round, refresh_event,
  refresher,
}

-- The daemon's answer in an event.
abbrev pub answer_of : Event → Option ℕ
answer_of (signal height header) = height
answer_of (round now height header) = height

-- The height behind an answer.
abbrev pub or_height : ℕ → Option ℕ → ℕ
or_height h none = h
or_height h (some height) = height

abbrev differs : ℕ → Option ℕ → ℕ
differs h none = 0
differs h (some height) = if height == h then 0 else 1

-- How often the answers change the height.
abbrev pub changes : ℕ → List Event → ℕ
changes h [] = 0
changes h (e ∷ events) = differs h (answer_of e) + changes (or_height h (answer_of e)) events

-- The height behind all answers.
abbrev pub last_answer : ℕ → List Event → ℕ
last_answer h [] = h
last_answer h (e ∷ events) = last_answer (or_height h (answer_of e)) events

-- The daemon's heights are positive.
abbrev pub IsPositive : Option ℕ → Type 0
IsPositive none = Unit {0}
IsPositive (some height) = 0 < height

abbrev pub ArePositive : List Event → Type 0
ArePositive [] = Unit {0}
ArePositive (e ∷ events) = IsPositive (answer_of e) × ArePositive events

-- What an event leaves: the height of its answer, and a start where it is new.
abbrev Follows : ℕ → Option ℕ → Refresh × Bool → Type 0
Follows h answer (st, due) =
    (st.info.height ≡ or_height h answer) × (differs h answer ≤ (if due then 1 else 0))

set_version-height : (v : Option ℕ) (info : Infos) → (set_version v info).height ≡ info.height
set_version-height none info = refl
set_version-height (some version) info = refl

on_height-Follows :
    (timeout now : ℕ) (height header : Option ℕ) (st : Refresh)
    → Follows st.info.height height (on_height timeout now height header st)
on_height-Follows timeout now none header st = (refl, omega arith)
on_height-Follows timeout now (some height) header st =
    elim (Bool-cases (height == st.info.height)) [
      | inl same ↦
          let e : height ≡ st.info.height = (==_iff height st.info.height).0 same in
          elim (Bool-cases (ltb (st.last_template_at + timeout) now)) [
            | inl old ↦ rw (same, old) (set_version-height header _, omega arith)
            | inr young ↦ rw (same, young) (set_version-height header st.info ∙ sym e, omega arith)
          ]
      | inr news ↦ rw news (set_version-height header _, omega arith)
    ]

on_signal-Follows :
    (height header : Option ℕ) (st : Refresh)
    → Follows st.info.height height (on_signal height header st)
unfolding on_signal
on_signal-Follows none header st = (refl, omega arith)
on_signal-Follows (some height) header st = elim (Bool-cases (height == st.info.height)) [
  | inl same ↦ rw same (sym ((==_iff height st.info.height).0 same), omega arith)
  | inr news ↦ rw news (set_version-height header _, omega arith)
]

refresh_event-Follows :
    (timeout : ℕ) (e : Event) (st : Refresh)
    → 0 < st.info.height
    → Follows st.info.height (answer_of e) (refresh_event timeout e st)
unfolding refresh_event refresh_round
refresh_event-Follows timeout (signal height header) st h = on_signal-Follows height header st
refresh_event-Follows timeout (round now height header) st h =
    let running : (st.info.height == 0) ≡ false = ground arith in
    rw running (on_height-Follows timeout now height header st)

or_height_pos : (h : ℕ) (answer : Option ℕ) → 0 < h → IsPositive answer → 0 < or_height h answer
or_height_pos h none k p = k
or_height_pos h (some height) k p = p

-- Once the slave has a height, and while the daemon's heights are positive, `OnNewBlock` is started at
-- least as often as the answered height changes, by the loop and the signal together, and the slave
-- ends with the last height that was answered.
pub refresher-changes :
    (timeout : ℕ) (events : List Event) (st : Refresh)
    → 0 < st.info.height
    → ArePositive events
    → (changes st.info.height events ≤ (refresher timeout events st).1)
      × ((refresher timeout events st).0.info.height ≡ last_answer st.info.height events)
unfolding refresher
refresher-changes timeout [] st h p = (omega arith, refl)
refresher-changes timeout (e ∷ events) st h p =
    let (height, due) = refresh_event-Follows timeout e st h in
    let st' : Refresh = (refresh_event timeout e st).0 in
    let (enough, last) =
      refresher-changes timeout events st'
        (omega (arith, height, or_height_pos st.info.height (answer_of e) h p.0)) p.1 in
    (
      omega (arith, due, enough, ap (λ n. changes n events) height),
      last ∙ ap (λ n. last_answer n events) height,
    )

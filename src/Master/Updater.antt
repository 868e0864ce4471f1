-- ===== src/Master/Updater.antt =====
-- cmd/master/updater.go `Updater`: one round of the main loop, and the blockchain state behind it. The
-- goroutines that a round starts are named by it; `CheckWithdraw` does nothing.
use go_pool.Base.{
  ℕ, ◌<◌, ◌^◌, ◌≡◌, refl, List, [], ◌∷◌, Option, none, some, ◌==◌, if◌then◌else◌, Bool-cases, inl,
  inr, arith, lt→ltb, sym, ap, ==_iff,
}
use go_pool.Ledger.Store.{BlockchainInfo, Schema, Tables, done, M, pure, live, exec, ◌>>=◌}
use go_pool.Ledger.Blocks.{get_blockchain_info, update_blockchain_info}
use go_pool.Master.Transfers.{update_reward}

-- The fields of the daemon's `GetInfo` that are read.
pub record DaemonInfo : Type 0 where
  pub height : ℕ
  pub difficulty : ℕ
  pub target : ℕ

pub data Task : Type 0 where
  withdraw_check pending_bals last_reward : Task

abbrev height_of : Option BlockchainInfo → ℕ
height_of none = 0
height_of (some info) = info.height

-- Behind the daemon's answer: the new block time, and the goroutines.
abbrev on_height : DaemonInfo → ℕ → ℕ → M (ℕ × List Task)
on_height info block_time current =
    let news : M (ℕ × List Task) = update_blockchain_info info.height 0 info.difficulty >>= λ _.
    pure (info.target, Task.withdraw_check ∷ (Task.pending_bals ∷ (Task.last_reward ∷ []))) in
    if info.height == current then pure (block_time, Task.last_reward ∷ []) else news

unfoldable pub updater_round : Option DaemonInfo → ℕ → M (ℕ × List Task)
updater_round none block_time = pure (block_time, [])
updater_round (some info) block_time =
    get_blockchain_info >>= λ current. on_height info block_time (height_of current)

abbrev pub info_of : ℕ → ℕ → ℕ → BlockchainInfo
info_of height reward difficulty = record {
  height = height;
  block_reward = reward;
  difficulty = difficulty;
}

update_reward_stored :
    (reward : ℕ) (s : Schema) (t : Tables)
    → t.blockchain_info.height < 2 ^ 63
    → reward < 2 ^ 63
    → t.blockchain_info.difficulty < 2 ^ 63
    → update_reward (some reward) (live s t) ≡ (
      done tt,
      live s (record t {
        blockchain_info = info_of t.blockchain_info.height reward t.blockchain_info.difficulty;
      }),
    )
unfolding update_reward get_blockchain_info update_blockchain_info exec
update_reward_stored reward s t h l d =
    rw
      (
        lt→ltb t.blockchain_info.height (2 ^ 63) h,
        lt→ltb reward (2 ^ 63) l,
        lt→ltb t.blockchain_info.difficulty (2 ^ 63) d,
      )
      refl

-- On a ledger that answers, and with a height, difficulties and a reward below 2^63, a round and the
-- `UpdateReward` that it starts leave the daemon's height and last reward as the blockchain state. The
-- difficulty and the block time follow the daemon where the height is new, and stay where it is not.
pub updater_round-update_reward :
    (info : DaemonInfo) (reward block_time : ℕ) (s : Schema) (t : Tables)
    → info.height < 2 ^ 63
    → info.difficulty < 2 ^ 63
    → reward < 2 ^ 63
    → t.blockchain_info.difficulty < 2 ^ 63
    → let same = info.height == t.blockchain_info.height in
      (updater_round (some info) block_time >>= λ r. update_reward (some reward) >>= λ _. pure r.0)
        (live s t)
      ≡ (
        done (if same then block_time else info.target),
        live s (record t {
          blockchain_info =
              info_of info.height reward
                (if same then t.blockchain_info.difficulty else info.difficulty);
        }),
      )
unfolding updater_round get_blockchain_info update_blockchain_info exec
updater_round-update_reward info reward block_time s t h k l d =
    elim (Bool-cases (info.height == t.blockchain_info.height)) [
      | inl same ↦
          let e : info.height ≡ t.blockchain_info.height =
            (==_iff info.height t.blockchain_info.height).0 same in
          rw (same, update_reward_stored reward s t (omega (arith, e)) l d)
            (ap
              (λ n. (
                done block_time,
                live s
                    (record t { blockchain_info = info_of n reward t.blockchain_info.difficulty }),
              ))
              (sym e))
      | inr news ↦
          rw (news, lt→ltb info.height (2 ^ 63) h, lt→ltb info.difficulty (2 ^ 63) k)
            (rw
              (update_reward_stored reward s
                (record t { blockchain_info = info_of info.height 0 info.difficulty }) h l k)
              refl)
    ]

-- ===== src/Tests/Slaves.antt =====
-- The slave's packets, the channel and what the master records, on small inputs.
use go_pool.Base.{
  ℕ, zero, suc, ◌+◌, ◌-◌, ◌<◌, ap, ◌∙◌, ◌≡◌, ◌≢◌, refl, true, List, [], ◌∷◌, ◌++◌, Option, some, ok,
  arith, length, take, length-append, take-append,
}
use go_pool.Base.Bytes.{Bytes}
use go_pool.Base.Assoc.{bytes_keys}
use go_pool.Channel.{Aead, send_writes, receive_all}
use go_pool.Channel.Races.{interleaved, receive_all-interleaved}
use go_pool.Channel.Frames.{send_all, handle_slave-send_all}
use go_pool.Serializer.Encoding.{le_bytes, uvarint_bytes}
use go_pool.Slave.{flush, share_packet, stats_packet}
use go_pool.Slave.Keys.{NoColon}
use go_pool.Slave.Totals.{CachedShare, cache_all, run, flush-run}
use go_pool.Master.Packets.{share, parse_message}
use go_pool.Master.Protocol.{parse_message-share_packet}

abbrev wallet : Bytes
wallet = b'S' ∷ b'C' ∷ []

abbrev rig : Bytes
rig = b'r' ∷ b'1' ∷ []

wallet_some : wallet ≢ []
wallet_some h = cc

rig-NoColon : NoColon rig
rig-NoColon = (λ h. omega arith, (λ h. omega arith, tt))

abbrev zeros : ℕ → Bytes
zeros zero = []
zeros (suc n) = 0 ∷ zeros n

abbrev nonce : Bytes
nonce = zeros 24

abbrev open_plain : Bytes → Bytes → Option Bytes
open_plain _ sealed = some (take (length sealed - 16) sealed)

untagged : (msg : Bytes) → open_plain [] (msg ++ zeros 16) ≡ some msg
untagged msg =
    let cut : length (msg ++ zeros 16) - 16 ≡ length msg =
      omega (arith, length-append msg (zeros 16)) in
    ap (λ n. some (take n (msg ++ zeros 16))) cut ∙ ap some (take-append msg (zeros 16))

-- A cipher that only adds a tag.
abbrev plain_aead : Aead
plain_aead = record {
  seal = λ _ msg. msg ++ zeros 16;
  open_sealed = open_plain;
  length-seal = λ _ msg. length-append msg (zeros 16);
  open-seal = λ _ msg. untagged msg;
}

parse_message-share_packet_example :
    parse_message true (share_packet 3 wallet rig 700) ≡ ok (share 3 wallet rig 700)
parse_message-share_packet_example =
    parse_message-share_packet true 3 wallet rig 700 (omega arith) (omega arith) (omega arith)
      (omega arith)

abbrev two_shares : List CachedShare
two_shares = run wallet rig (300 ∷ 400 ∷ [])

flush-run_example : flush true (cache_all two_shares []) ≡ (share_packet 2 wallet rig 700 ∷ [], [])
flush-run_example =
    flush-run wallet rig 300 (400 ∷ []) wallet_some rig-NoColon (omega arith) (omega arith)

abbrev two_frames : List (Bytes × Bytes × Bytes)
two_frames = (nonce, nonce, rig) ∷ (nonce, nonce, wallet) ∷ []

handle_slave-send_all_example :
    receive_all plain_aead
      (length (send_all plain_aead two_frames) + 1)
      (send_all plain_aead two_frames)
    ≡ rig ∷ wallet ∷ []
handle_slave-send_all_example =
    handle_slave-send_all plain_aead two_frames
      ((refl, refl, omega arith), ((refl, refl, omega arith), tt))

short_share : length (share_packet 3 wallet rig 700) < 258
unfolding share_packet uvarint_bytes
short_share = omega arith

receive_all-interleaved_example :
    receive_all plain_aead 2 (
      interleaved plain_aead
        (send_writes plain_aead nonce nonce (stats_packet 5))
        (send_writes plain_aead nonce nonce (share_packet 3 wallet rig 700)))
    ≡ le_bytes 2 (length (share_packet 3 wallet rig 700)) ∷ []
receive_all-interleaved_example =
    receive_all-interleaved plain_aead 5 0 nonce nonce nonce nonce (share_packet 3 wallet rig 700)
      refl refl refl refl (omega arith) (omega arith) short_share

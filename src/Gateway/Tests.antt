-- ===== src/Gateway/Tests.antt =====
-- Histories of a channel of two, and its property on one.
use damen.Common.{ℕ, ◌≡◌, refl, List, [], ◌∷◌, Option, none, some}
use damen.Queue.{refused, waits, finished, write}
use damen.Gateway.Channel.{
  CopyChannel, new_channel, send, try_send, recv, try_recv, swap_out, close_channel,
}
use damen.Gateway.Channel.Sent.{Carries}
use damen.Gateway.Channel.History.{
  ChannelCall, send_call, try_send_call, recv_call, try_recv_call, swap_out_call,
  close_channel_call, Reply, of_send, of_recv, of_batch, of_close_channel, empty_channel,
  run_channel, spec_channel, run_channel-spec_channel,
}

-- A third item waits; two are taken in one batch; a closed channel gives out what is left.
abbrev full_then_emptied : List (ChannelCall ℕ)
full_then_emptied =
    send_call 5
    ∷ send_call 6
    ∷ send_call 7
    ∷ try_send_call 8
    ∷ recv_call
    ∷ send_call 7
    ∷ swap_out_call
    ∷ try_recv_call
    ∷ send_call 9
    ∷ close_channel_call
    ∷ send_call 1
    ∷ recv_call
    ∷ recv_call
    ∷ []

abbrev their_replies : List (Reply ℕ)
their_replies =
    of_send (finished tt)
    ∷ of_send (finished tt)
    ∷ of_send waits
    ∷ of_send refused
    ∷ of_recv (finished 5)
    ∷ of_send (finished tt)
    ∷ of_batch (6 ∷ 7 ∷ [])
    ∷ of_recv refused
    ∷ of_send (finished tt)
    ∷ of_close_channel
    ∷ of_send refused
    ∷ of_recv (finished 9)
    ∷ of_recv refused
    ∷ []

abbrev replies_of : Option (List (Reply ℕ) × CopyChannel ℕ) → Option (List (Reply ℕ))
replies_of none = none
replies_of (some (replies, ch)) = some replies

replies_in_order : replies_of (run_channel full_then_emptied (new_channel 2)) ≡ some their_replies
unfolding run_channel new_channel send try_send recv try_recv swap_out close_channel write
replies_in_order = refl

run_channel-spec_channel_example :
    (after : CopyChannel ℕ) × (run_channel full_then_emptied (new_channel 2)
      ≡ some ((spec_channel full_then_emptied (empty_channel 2)).0, after))
    × Carries after (spec_channel full_then_emptied (empty_channel 2)).1
run_channel-spec_channel_example = run_channel-spec_channel 2 full_then_emptied

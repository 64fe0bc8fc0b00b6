-- ===== src/Sink/Tests.antt =====
-- The queue on concrete messages, and the instances of the theorems.
use lavalink_rs.Outcome.{ok}
use lavalink_rs.Sink.Coalesce.{Below, IsSorted, send_coalesces, lookup}
use lavalink_rs.Sink.{compare_key, stats_key, player_update_key}
use lavalink_rs.Prelude.{ℕ, ◌≡◌, refl, true, none, some, List, [], ◌∷◌, ◌++◌, arith}
use lavalink_rs.Sink.Queue.{
  on_resume, on_pause, on_recv, requests_fifo, request, on_send, is_essential, requests, Request,
  IsQueue,
}
use lavalink_rs.Sink.{
  resume, ready, pause, stats, insert, pop, try_recv, send, player_update, event, coalesce_key,
  new_sink, Inner,
}

abbrev busy : Inner ℕ ℕ ℕ
busy = record new_sink { essential = event 1 ∷ [] }

abbrev trace : List (Request ℕ ℕ ℕ)
trace =
    on_send (player_update 5 (b'g' ∷ []))
    ∷ on_send (event 2)
    ∷ on_recv
    ∷ on_recv
    ∷ on_recv
    ∷ on_pause
    ∷ on_send (stats 7)
    ∷ on_send (ready true (b's' ∷ []))
    ∷ on_resume
    ∷ []

taken_in_order : (requests trace busy).taken ≡ event 1 ∷ event 2 ∷ []
unfolding requests request send try_recv pop insert is_essential pause resume coalesce_key
taken_in_order = refl

busy-IsQueue : IsQueue busy
busy-IsQueue = record {
  essentials = (unfold is_essential coalesce_key in refl, tt);
  coalesced = tt;
  fits = omega arith;
}

requests_fifo_example :
    ((requests trace busy).taken ++ (requests trace busy).inner.essential
      ≡ busy.essential ++ (requests trace busy).given)
    × IsQueue (requests trace busy).inner
requests_fifo_example = requests_fifo trace busy busy-IsQueue

send_coalesces_example :
    let (result, s') = send (player_update 9 (b'g' ∷ [])) (record busy {
      snapshots = (player_update_key (b'g' ∷ []), player_update 5 (b'g' ∷ [])) ∷ [];
    }) in
    (result ≡ ok tt)
    × (lookup (player_update_key (b'g' ∷ [])) s'.snapshots ≡ some (player_update 9 (b'g' ∷ [])))
    × (lookup stats_key s'.snapshots ≡ none)
    × (s'.essential ≡ event 1 ∷ [])
    × IsSorted s'.snapshots
unfolding IsSorted Below lookup compare_key coalesce_key
send_coalesces_example =
    send_coalesces (player_update_key (b'g' ∷ [])) (player_update 9 (b'g' ∷ []))
      (record busy {
        snapshots = (player_update_key (b'g' ∷ []), player_update 5 (b'g' ∷ [])) ∷ [];
      })
      stats_key refl refl refl (λ e. cc) (tt, tt)

-- ===== src/Lobbies/Stale.antt =====
-- A repeated join writes the hand that its transaction has read into the state in memory, whatever has
-- been done to that state since.
use fifteen_thirty_one_go.Shared.{
  List, arith, get_elem?, get_elem?_bound, length, ltb, lt→ltb, none, ok, pos, refl, set, some,
  true, ℕ, ◌+◌, ◌≡◌,
}
use fifteen_thirty_one_go.Cards.{Card}
use fifteen_thirty_one_go.Deck.Counting.{count, count_all-set}
use fifteen_thirty_one_go.Engine.Conserved.{cards_in, discard-cards}
use fifteen_thirty_one_go.Engine.Discarding.{discard}
use fifteen_thirty_one_go.Engine.State.{State}
use fifteen_thirty_one_go.Lobbies.Join.{enter, enter_end, handle_join, rejoin}
use fifteen_thirty_one_go.Lobbies.Sync.{
  Seen, align, aligned, persist_hand, persist_hand_from, persist_hand_of, see, sync_runtime_state,
}
use fifteen_thirty_one_go.Moves.World.{World}
use fifteen_thirty_one_go.Scoring.Pegging.{has}
use fifteen_thirty_one_go.Store.Games.{GamePlayer, GameRow, LobbyRow, get_game_state, stored}
use fifteen_thirty_one_go.Store.Players.{find_player, update_player_hand_if_empty}
use fifteen_thirty_one_go.Store.Seats.{get_lobby_by_id, latest_game}

module _ (w : World) (others : World → World) (lobby game user : ℕ) (p : GamePlayer) (l : LobbyRow)
    (row : GameRow) (s : State) (hand : List Card) (newest : latest_game w.db lobby ≡ some game)
    (found : find_player user (w.db.players_of game) ≡ some p)
    (lobby_found : w.db.lobbies lobby ≡ some l) (row_found : w.db.games game ≡ some row)
    (column : row.state_json ≡ stored s) (dealt : get_elem? s.hands p.position ≡ some hand) where
  abbrev seen : Seen
  seen =
      see (update_player_hand_if_empty w.db game user hand) (stored s) row.state_version
        (stored hand)

  enter-seen :
      enter w.db lobby user
      ≡ ok (record { row = l; place = p.position; already = true; seen = seen })
  unfolding enter rejoin get_lobby_by_id persist_hand persist_hand_from persist_hand_of
      get_game_state
  enter-seen =
      rw
        (
          newest, enter, found, rejoin, lobby_found, get_lobby_by_id, row_found, persist_hand,
          get_game_state, column, persist_hand_from, dealt, persist_hand_of,
        )
        refl

  -- A hand that is discarded from while its player joins again comes back: the state in memory has the
  -- hand that the transaction read, beside the crib that has the discarded cards already.
  pub rejoin_brings_back :
      (now : State) (cards kept : List Card)
      → now.cut ≡ none
      → get_elem? now.hands p.position ≡ some hand
      → get_elem? (discard now (pos p.position) cards).0.hands p.position ≡ some kept
      → ((v : World) → (others v).runtime game ≡ some (discard now (pos p.position) cards).0)
      → let t = (discard now (pos p.position) cards).0 in
        let t' = record t { hands = set t.hands p.position hand } in
        ((handle_join w others lobby user).0.runtime game ≡ some t')
        × ((c : Card) → cards_in c t' + count c kept ≡ cards_in c now + count c hand)
  unfolding handle_join enter_end aligned sync_runtime_state align
  rejoin_brings_back now cards kept uncut has keeps in_between =
      let t = (discard now (pos p.position) cards).0 in
      let inside : ltb p.position (length t.hands) ≡ true =
        lt→ltb p.position (length t.hands) (get_elem?_bound t.hands p.position keeps) in
      (
        rw
            (
              newest,
              handle_join,
              enter-seen,
              enter_end,
              in_between (record w { db = seen.db }),
              aligned,
              sync_runtime_state,
              align,
            )
            (ground (arith, inside)),
        λ c. omega (
          arith,
          discard-cards c now (pos p.position) cards uncut,
          count_all-set c t.hands p.position kept hand keeps,
        ),
      )

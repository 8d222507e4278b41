-- ===== src/Tests/Choices.antt =====
-- The bots and the lobbies.
use fifteen_thirty_one_go.Shared.{[], ◌++◌, ◌∷◌}
use fifteen_thirty_one_go.Bot.{choose_pegging_play}
use fifteen_thirty_one_go.Bot.Plays.{IsLegalChoice, choose_pegging_play-IsLegalChoice}
use fifteen_thirty_one_go.Cards.{clubs}
use fifteen_thirty_one_go.Store.Games.{hard}
use fifteen_thirty_one_go.Tests.Table.{card_of, hand_a, hand_b}

choose_pegging_play-IsLegalChoice_example :
    IsLegalChoice
      (hand_a ++ hand_b)
      20
      (choose_pegging_play (hand_a ++ hand_b) 20 (card_of 10 clubs ∷ []) hard 0)
choose_pegging_play-IsLegalChoice_example =
    choose_pegging_play-IsLegalChoice (hand_a ++ hand_b) 20 (card_of 10 clubs ∷ []) hard 0

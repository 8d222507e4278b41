-- ===== src/Social/History.antt =====
-- GetLobbyChatHistory of internal/handlers/lobby_chat.go. SQLite puts the rows of a lobby in the order of
-- their times, the last ones first; which of two rows of one second comes first is left open, so
-- that order is a parameter.
use mathlib.Core.List.{reverse, reverse-cons}
use fifteen_thirty_one_go.Shared.{
  Bool, Bool-cases, List, Option, Outcome, [], ap, arith, err, if◌then◌else◌, inl, inr, leb, length,
  length-take, ltb, negsuc, none, not, ok, ok_injective, pos, refl, some, subst, suc, sym, take,
  true, zero, ℕ, ℤ, ◌&&◌, ◌++◌, ◌+◌, ◌==◌, ◌||◌, ◌∙◌, ◌∷◌, ◌≡◌, ◌≤◌, ◌⊎◌,
}
use fifteen_thirty_one_go.Social.{ChatMessage, Social, SocialError, not_in_lobby, player_count}
use fifteen_thirty_one_go.Social.Posted.{Plays, count_from-Plays}
use fifteen_thirty_one_go.Social.Spectators.{is_spectating}

-- SELECT ... WHERE lobby_id = ?.
unfoldable pub of_lobby_messages : ℕ → List ChatMessage → List ChatMessage
of_lobby_messages lobby [] = []
of_lobby_messages lobby (msg ∷ rest) =
    let shown = of_lobby_messages lobby rest in if msg.lobby_id == lobby then msg ∷ shown else shown

-- `limit`, as strconv.Atoi reads it: 100 unless it is from 1 to 200.
unfoldable pub history_limit : Option ℤ → ℕ
history_limit none = 100
history_limit (some (negsuc n)) = 100
history_limit (some (pos n)) = if ltb 0 n && leb n 200 then n else 100

module _ (by_time : List ChatMessage → List ChatMessage) where
  unfoldable pub get_lobby_chat_history :
      Social → ℕ → ℕ → Option ℤ → Outcome SocialError (List ChatMessage)
  unfolding of_lobby_messages history_limit
  get_lobby_chat_history s lobby user limit =
      if ltb 0 (player_count s.db lobby user) || is_spectating lobby user s.spectators
      then ok (reverse (take (history_limit limit) (by_time (of_lobby_messages lobby s.messages))))
      else err not_in_lobby

abbrev pub AllIn : ℕ → List ChatMessage → Type 0
AllIn lobby [] = Unit
AllIn lobby (msg ∷ rest) = (msg.lobby_id ≡ lobby) × AllIn lobby rest

-- How many messages satisfy a test.
unfoldable pub count_of : (ChatMessage → Bool) → List ChatMessage → ℕ
count_of test [] = 0
count_of test (msg ∷ rest) = let later = count_of test rest in if test msg then suc later else later

count_of-append :
    (test : ChatMessage → Bool) (xs ys : List ChatMessage)
    → count_of test (xs ++ ys) ≡ count_of test xs + count_of test ys
unfolding count_of
count_of-append test [] ys = omega arith
count_of-append test (x ∷ xs) ys = ground (arith, count_of-append test xs ys)

pub count_of-reverse :
    (test : ChatMessage → Bool) (msgs : List ChatMessage)
    → count_of test (reverse msgs) ≡ count_of test msgs
unfolding count_of
count_of-reverse test [] = refl
count_of-reverse test (msg ∷ rest) =
    ap (count_of test) (reverse-cons msg rest)
    ∙ ground (arith, count_of-append test (reverse rest) (msg ∷ []), count_of-reverse test rest)

count_of-take :
    (test : ChatMessage → Bool) (n : ℕ) (msgs : List ChatMessage)
    → count_of test (take n msgs) ≤ count_of test msgs
unfolding count_of
count_of-take test zero msgs = omega arith
count_of-take test (suc n) [] = omega arith
count_of-take test (suc n) (msg ∷ rest) = ground (arith, count_of-take test n rest)

count_of-length : (msgs : List ChatMessage) → count_of (λ m. true) msgs ≡ length msgs
unfolding count_of
count_of-length [] = refl
count_of-length (msg ∷ rest) = ap suc (count_of-length rest)

take-all : (n : ℕ) (msgs : List ChatMessage) → length msgs ≤ n → take n msgs ≡ msgs
take-all zero [] h = refl
take-all zero (msg ∷ rest) h = absurd (omega arith)
take-all (suc n) [] h = refl
take-all (suc n) (msg ∷ rest) h = ap (◌∷◌ msg) (take-all n rest (omega arith))

-- The rows of the query are the messages of the lobby, each as often as it is stored.
count_of-of_lobby_messages :
    (test : ChatMessage → Bool) (lobby : ℕ) (all : List ChatMessage)
    → count_of test (of_lobby_messages lobby all)
      ≡ count_of (λ m. test m && m.lobby_id == lobby) all
unfolding count_of of_lobby_messages
count_of-of_lobby_messages test lobby [] = refl
count_of-of_lobby_messages test lobby (msg ∷ rest) =
    ground (arith, count_of-of_lobby_messages test lobby rest)

-- Where no message fails the test for the lobby all are of it.
AllIn-counted :
    (lobby : ℕ) (msgs : List ChatMessage)
    → count_of (λ m. not (m.lobby_id == lobby)) msgs ≡ 0
    → AllIn lobby msgs
unfolding count_of
AllIn-counted lobby [] h = tt
AllIn-counted lobby (msg ∷ rest) h = (ground arith, AllIn-counted lobby rest (ground arith))

nothing_foreign :
    (lobby : ℕ) (all : List ChatMessage)
    → count_of (λ m. not (m.lobby_id == lobby) && m.lobby_id == lobby) all ≡ 0
unfolding count_of
nothing_foreign lobby [] = refl
nothing_foreign lobby (msg ∷ rest) = ground (arith, nothing_foreign lobby rest)

-- A row of the table of spectators.
abbrev pub HasRow : ℕ × ℕ → List (ℕ × ℕ) → Type 0
HasRow row [] = ⊥
HasRow row (r ∷ rows) = (r ≡ row) ⊎ HasRow row rows

-- Who is found among the spectators has a row there.
is_spectating-HasRow :
    (lobby user : ℕ) (rows : List (ℕ × ℕ))
    → is_spectating lobby user rows ≡ true
    → HasRow (lobby, user) rows
unfolding is_spectating
is_spectating-HasRow lobby user [] h = absurd (cc)
is_spectating-HasRow lobby user ((l, u) ∷ rows) h = elim (Bool-cases (l == lobby && u == user)) [
  | inl e ↦ inl (same_pair (ground arith) (ground arith))
  | inr e ↦ inr (is_spectating-HasRow lobby user rows (ground arith))
]
  where
    same_pair : l ≡ lobby → u ≡ user → ◌≡◌ {A = ℕ × ℕ} (l, u) (lobby, user)
    same_pair e f = cc

history_limit_bound : (limit : Option ℤ) → history_limit limit ≤ 200
unfolding history_limit
history_limit_bound none = omega arith
history_limit_bound (some (negsuc n)) = omega arith
history_limit_bound (some (pos n)) = ground arith

-- ORDER BY gives back the rows that it is given in some order: of each kind as many as there were.
abbrev pub Orders : (List ChatMessage → List ChatMessage) → Type 0
Orders by_time =
    (test : ChatMessage → Bool) (msgs : List ChatMessage)
    → count_of test (by_time msgs) ≡ count_of test msgs

abbrev pub stored_in : ℕ → (ChatMessage → Bool) → ChatMessage → Bool
stored_in lobby test m = test m && m.lobby_id == lobby

-- Where ORDER BY gives back the rows that it is given in some order, the chat of a lobby is shown only to who plays in it or has a row among its spectators. It shows messages of
-- this lobby, at most 200, none made up or shown more often than it is stored; and where the lobby has no
-- more messages than the limit it shows all of them, each as often as it is stored.
pub get_lobby_chat_history-Shown :
    (by_time : List ChatMessage → List ChatMessage) (s : Social) (lobby user : ℕ) (limit : Option ℤ)
    (shown : List ChatMessage)
    → Orders by_time
    → get_lobby_chat_history by_time s lobby user limit ≡ ok shown
    → (Plays s.db lobby user ⊎ HasRow (lobby, user) s.spectators)
      × AllIn lobby shown
      × (length shown ≤ 200)
      × ((test : ChatMessage → Bool)
          → count_of test shown ≤ count_of (stored_in lobby test) s.messages)
      × (count_of (λ m. m.lobby_id == lobby) s.messages ≤ history_limit limit
          → (test : ChatMessage → Bool)
          → count_of test shown ≡ count_of (stored_in lobby test) s.messages)
unfolding get_lobby_chat_history
get_lobby_chat_history-Shown by_time s lobby user limit shown orders h =
    elim (Bool-cases
      (ltb 0 (player_count s.db lobby user) || is_spectating lobby user s.spectators)) [
        | inr e ↦ absurd (cc (rw (e, get_lobby_chat_history) at h))
        | inl e ↦
            let is = ok_injective (rw (e, get_lobby_chat_history) at h) in
            (
              allowed e,
              AllIn-counted lobby shown (
                  omega (
                    arith,
                    at_most is (λ m. not (m.lobby_id == lobby)),
                    nothing_foreign lobby s.messages,
                  )),
              subst (λ x. length x ≤ 200) is (short),
              at_most is,
              all_of is,
            )
      ]
  where
    rows : List ChatMessage
    rows = by_time (of_lobby_messages lobby s.messages)

    last : List ChatMessage
    last = take (history_limit limit) rows

    allowed :
        (ltb 0 (player_count s.db lobby user) || is_spectating lobby user s.spectators) ≡ true
        → Plays s.db lobby user ⊎ HasRow (lobby, user) s.spectators
    allowed e = elim (Bool-cases (ltb 0 (player_count s.db lobby user))) [
      | inl playing ↦ inl (count_from-Plays s.db lobby user s.db.last_game (λ z. ground arith))
      | inr not_playing ↦ inr (is_spectating-HasRow lobby user s.spectators (ground arith))
    ]

    short : length (reverse last) ≤ 200
    short = omega (
      arith,
      count_of-length (reverse last),
      count_of-reverse (λ m. true) last,
      count_of-length last,
      length-take (history_limit limit) rows,
      history_limit_bound limit,
    )

    found :
        (test : ChatMessage → Bool)
        → count_of test rows ≡ count_of (stored_in lobby test) s.messages
    found test =
        orders test (of_lobby_messages lobby s.messages)
        ∙ count_of-of_lobby_messages test lobby s.messages

    at_most :
        reverse last ≡ shown
        → (test : ChatMessage → Bool)
        → count_of test shown ≤ count_of (stored_in lobby test) s.messages
    at_most is test =
        subst (λ x. count_of test x ≤ count_of (stored_in lobby test) s.messages) is
          (omega (
            arith,
            count_of-reverse test last,
            count_of-take test (history_limit limit) rows,
            found test,
          ))

    all_of :
        reverse last ≡ shown
        → count_of (λ m. m.lobby_id == lobby) s.messages ≤ history_limit limit
        → (test : ChatMessage → Bool)
        → count_of test shown ≡ count_of (stored_in lobby test) s.messages
    all_of is few test =
        let size : length rows ≡ count_of (λ m. m.lobby_id == lobby) s.messages =
          sym (count_of-length rows) ∙ found (λ m. true) in
        let whole : last ≡ rows = take-all (history_limit limit) rows (omega (arith, size, few)) in
        ap (count_of test) (sym is)
        ∙ count_of-reverse test last
        ∙ ap (count_of test) whole
        ∙ found test

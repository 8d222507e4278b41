-- ===== src/Moves/Hidden.antt =====
-- The BuildGameSnapshot functions of internal/handlers/game_logic.go: what they show of the hands.
use fifteen_thirty_one_go.Shared.{
  >>=-eq-ok, Bool-cases, List, Outcome, [], ap, arith, err, false, get_elem?, inl, inr, map, none,
  ok, ok_injective, panic, refl, set, some, subst, suc, sym, zero, ℕ, ◌==◌, ◌∙◌, ◌∷◌, ◌≡◌, ◌≢◌,
}
use fifteen_thirty_one_go.Cards.{Card}
use fifteen_thirty_one_go.Engine.State.{Stage, State, counting, finished, stage_eq, stage_eq_iff}
use fifteen_thirty_one_go.Moves.Snapshots.{
  GameInfo, GameSnapshot, build_game_snapshot_for_user, build_game_snapshot_public, decoded_hand,
  fallback_hand, for_all, for_user, get_game, hide_row, listed, public_in, show_own, show_row,
  show_rows, shown_hand, snapshot_in, snapshot_shown,
}
use fifteen_thirty_one_go.Moves.World.{World, ensure_game_state}
use fifteen_thirty_one_go.Store.Games.{ApiError, Db, GamePlayer, no_players, stored}
use fifteen_thirty_one_go.Store.Players.{list_game_players}
use fifteen_thirty_one_go.Views.{clone_state_for_view, is_revealed}

-- A snapshot for a user: of another player's row the hand is empty, at the other positions the hand
-- of the state is empty, and the deck is empty. Before the stages of counting and of the finished game
-- there is no kept hand, no crib and no count either.
pub record Hides (user : ℕ) (snap : GameSnapshot) : Type 0 where
  pub no_deck : snap.state.deck ≡ []
  pub rows :
      (i : ℕ) (p : GamePlayer)
      → get_elem? snap.players i ≡ some p
      → p.user_id ≢ user
      → p.hand ≡ stored []
  pub hands :
      (place : ℕ) (hand : List Card)
      → get_elem? snap.state.hands place ≡ some hand
      → ((i : ℕ) (p : GamePlayer)
          → get_elem? snap.players i ≡ some p
          → p.user_id ≡ user
          → p.position ≢ place)
      → hand ≡ []
  pub before_count :
      snap.state.stage ≢ counting
      → snap.state.stage ≢ finished
      → (snap.state.kept_hands ≡ []) × (snap.state.crib ≡ []) × (snap.state.count_summary ≡ none)

get_elem?-set_other {ℓ} :
    {A : Type ℓ} (xs : List A) (i j : ℕ) (v : A) → i ≢ j → get_elem? (set xs i v) j ≡ get_elem? xs j
get_elem?-set_other [] i j v h = refl
get_elem?-set_other (x ∷ xs) zero zero v h = absurd (h refl)
get_elem?-set_other (x ∷ xs) zero (suc j) v h = refl
get_elem?-set_other (x ∷ xs) (suc i) zero v h = refl
get_elem?-set_other (x ∷ xs) (suc i) (suc j) v h = get_elem?-set_other xs i j v (λ e. h (ap suc e))

get_elem?-map {ℓ κ} :
    {A : Type ℓ} {B : Type κ} (f : A → B) (xs : List A) (i : ℕ) {b : B}
    → get_elem? (map f xs) i ≡ some b
    → (a : A) × (get_elem? xs i ≡ some a) × (f a ≡ b)
get_elem?-map f [] i h = absurd (ground arith)
get_elem?-map f (x ∷ xs) zero h = (x, refl, ground arith)
get_elem?-map f (x ∷ xs) (suc i) h = get_elem?-map f xs i h

-- The loop changes nothing of a view but the hands, and under a condition not the one at a position.
Kept : State → State → ℕ → Type 0 → Type 0
Kept view view' place Other =
    (view' ≡ record view { hands = view'.hands })
    × (Other → get_elem? view'.hands place ≡ get_elem? view.hands place)

Kept_refl :
    (Other : Type 0) (db : Db) (view : State) (place : ℕ) {r : Db × State}
    → ◌≡◌ {A = Outcome ApiError (Db × State)} (ok (db, view)) (ok r)
    → Kept view r.1 place Other
unfolding Kept
Kept_refl Other db view place h =
    let same : (db, view) ≡ _ = ok_injective h in
    (
      ap (λ (x : Db × State). x.1) (sym same)
          ∙ ap (λ (x : Db × State). record view { hands = x.1.hands }) same,
      λ _. ap (λ (x : Db × State). get_elem? x.1.hands place) (sym same),
    )

show_own-Kept :
    (db : Db) (game user : ℕ) (fallback : List Card) (p : GamePlayer) (view : State)
    (hand : List Card) (place : ℕ) {r : Db × State}
    → show_own db game user fallback p view hand ≡ ok r
    → Kept view r.1 place (p.position ≢ place)
unfolding show_own Kept
show_own-Kept db game user fallback p view hand place h =
    let same = ok_injective h in
    (
      ap (λ (x : Db × State). x.1) (sym same)
          ∙ ap (λ (x : Db × State). record view { hands = x.1.hands }) same,
      λ other.
          let kept =
            get_elem?-set_other view.hands p.position place (shown_hand hand fallback) other in
          ap (λ (x : Db × State). get_elem? x.1.hands place) (sym same) ∙ ground (arith, kept),
    )

show_row-Kept :
    (db : Db) (game user : ℕ) (fallback : List Card) (p : GamePlayer) (view : State) (place : ℕ)
    {r : Db × State}
    → show_row db game user fallback p view ≡ ok r
    → Kept view r.1 place (p.user_id ≡ user → p.position ≢ place)
unfolding show_row Kept
show_row-Kept db game user fallback p view place {r} h = elim (Bool-cases (p.user_id == user)) [
  | inl e ↦
      let (hand, _, f) = >>=-eq-ok (decoded_hand p.hand) _ (rw (e, show_row) at h) in
      let kept = show_own-Kept db game user fallback p view hand place f in
      (kept.0, λ other. kept.1 (other (ground arith)))
  | inr e ↦
      Kept_refl (p.user_id ≡ user → p.position ≢ place) db view place {r = r}
        (rw (e, show_row) at h)
]

-- No row of the user has the position.
Elsewhere : ℕ → List GamePlayer → ℕ → Type 0
Elsewhere user rows place =
    (i : ℕ) (p : GamePlayer) → get_elem? rows i ≡ some p → p.user_id ≡ user → p.position ≢ place

show_rows-Kept :
    (db : Db) (game user : ℕ) (fallback : List Card) (rows : List GamePlayer) (view : State)
    (place : ℕ) {r : Db × State}
    → show_rows db game user fallback rows view ≡ ok r
    → Kept view r.1 place (Elsewhere user rows place)
unfolding show_rows Kept Elsewhere
show_rows-Kept db game user fallback [] view place {r} h =
    Kept_refl (Elsewhere user [] place) db view place {r = r} h
show_rows-Kept db game user fallback (p ∷ rows) view place {r} h =
    let (m, e, f) = >>=-eq-ok (show_row db game user fallback p view) _ h in
    let first = show_row-Kept db game user fallback p view place e in
    let rest = show_rows-Kept m.0 game user fallback rows m.1 place f in
    (
      rest.0 ∙ ap (λ (v : State). record v { hands = r.1.hands }) first.0,
      λ other. rest.1 (λ i q g. other (suc i) q g) ∙ first.1 (other 0 p refl),
    )

-- The rows of a snapshot keep their users and positions.
rows_of :
    (user : ℕ) (st : Outcome ApiError State) (rows : List GamePlayer) (place : ℕ)
    → ((i : ℕ) (p : GamePlayer)
        → get_elem? (map (hide_row user st) rows) i ≡ some p
        → p.user_id ≡ user
        → p.position ≢ place)
    → Elsewhere user rows place
unfolding Elsewhere hide_row
rows_of user st rows place h i p e = h i (hide_row user st p) (there rows i e)
  where
    there :
        (xs : List GamePlayer) (j : ℕ)
        → get_elem? xs j ≡ some p
        → get_elem? (map (hide_row user st) xs) j ≡ some (hide_row user st p)
    there [] j f = absurd (ground arith)
    there (x ∷ xs) zero f = ground arith
    there (x ∷ xs) (suc j) f = there xs j f

unrevealed : (stage : Stage) → stage ≢ counting → stage ≢ finished → is_revealed stage ≡ false
unrevealed stage uncounted unfinished = elim (Bool-cases (stage_eq stage counting)) [
  | inl e ↦ absurd (uncounted ((stage_eq_iff stage counting).0 e))
  | inr e ↦ elim (Bool-cases (stage_eq stage finished)) [
    | inl f ↦ absurd (unfinished ((stage_eq_iff stage finished).0 f))
    | inr f ↦ ground (arith, e, f)
  ]
]

shown-Hides :
    (w : World) (game user : ℕ) (draws : List ℕ) (rows : List GamePlayer) (info : GameInfo)
    (s : State) (fallback : List Card) (r : Db × State) (st : Outcome ApiError State)
    → show_rows w.db game user fallback rows (clone_state_for_view s) ≡ ok r
    → Hides user (record { game = info; players = map (hide_row user st) rows; state = r.1 })
unfolding Kept clone_state_for_view hide_row
shown-Hides w game user draws rows info s fallback r st h = record {
  no_deck = ap (λ (v : State). v.deck) same_rest;
  before_count = λ uncounted unfinished.
      let stage = ap (λ (v : State). v.stage) same_rest in
      let hidden : is_revealed s.stage ≡ false =
        unrevealed s.stage (λ e. uncounted (stage ∙ e)) (λ e. unfinished (stage ∙ e)) in
      (
        ap (λ (v : State). v.kept_hands) same_rest ∙ rw hidden refl,
        ap (λ (v : State). v.crib) same_rest ∙ rw hidden refl,
        ap (λ (v : State). v.count_summary) same_rest ∙ rw hidden refl,
      );
  rows = λ i p e other.
      let (q, _, f) = get_elem?-map (hide_row user st) rows i e in
      ground (arith, ap (λ (x : GamePlayer). x.hand) f, ap (λ (x : GamePlayer). x.user_id) f);
  hands = λ place hand e other.
      let kept = show_rows-Kept w.db game user fallback rows (clone_state_for_view s) place h in
      let same = kept.1 (rows_of user st rows place other) in
      let (_, _, f) = get_elem?-map (λ _. []) s.hands place (sym same ∙ e) in sym f;
}
  where
    same_rest : r.1 ≡ record (clone_state_for_view s) { hands = r.1.hands }
    same_rest = (show_rows-Kept w.db game user fallback rows (clone_state_for_view s) 0 h).0

-- A snapshot for a user shows no card of the deck and none that another player holds: the deck is empty,
-- of the rows of other players the hand is empty, and so is the hand in the state at every position
-- that is not the user's. Outside the stages of counting and of the finished game it shows no kept
-- hand, no crib and no count either; in these two the kept hands are public.
pub build_game_snapshot_for_user-Hides :
    (w : World) (game user : ℕ) (draws : List ℕ) {snap : GameSnapshot}
    → (build_game_snapshot_for_user w game user draws).1 ≡ ok snap
    → Hides user snap
unfolding build_game_snapshot_for_user for_user snapshot_in snapshot_shown
build_game_snapshot_for_user-Hides w game user draws {snap} h = from_listed (listed w.db game) h
  where
    shown :
        (w' : World) (rows : List GamePlayer) (info : GameInfo) (s : State)
        (x : Outcome ApiError (Db × State))
        → show_rows w'.db game user (fallback_hand user rows s) rows (clone_state_for_view s) ≡ x
        → (snapshot_shown w' game user rows draws info x).1 ≡ ok snap
        → Hides user snap
    shown w' rows info s (ok r) e k =
        let st = (ensure_game_state (record w' { db = r.0 }) game rows draws).1 in
        subst (λ (y : GameSnapshot). Hides user y) (ok_injective k)
          (shown-Hides w' game user draws rows info s (fallback_hand user rows s) r st e)
    shown w' rows info s (err x) e k = absurd (ground arith)
    shown w' rows info s panic e k = absurd (ground arith)

    from_state :
        (rows : List GamePlayer) (info : GameInfo) (x : World × Outcome ApiError State)
        → (snapshot_in game user rows draws info x).1 ≡ ok snap
        → Hides user snap
    from_state rows info (w', ok s) k = shown w' rows info s _ refl k
    from_state rows info (w', err x) k = absurd (ground arith)
    from_state rows info (w', panic) k = absurd (ground arith)

    from_listed :
        (x : Outcome ApiError (GameInfo × List GamePlayer))
        → (for_user w game user draws x).1 ≡ ok snap
        → Hides user snap
    from_listed (ok (info, rows)) k = from_state rows info (ensure_game_state w game rows draws) k
    from_listed (err x) k = absurd (ground arith)
    from_listed panic k = absurd (ground arith)

listed_rows :
    (db : Db) (game : ℕ) {info : GameInfo} {rows : List GamePlayer}
    → listed db game ≡ ok (info, rows)
    → rows ≡ list_game_players db game
unfolding listed
listed_rows db game {info = info} {rows = rows} h =
    let (g, _, f) = >>=-eq-ok (get_game db game) _ h in from g (list_game_players db game) refl f
  where
    from :
        (g : GameInfo) (xs : List GamePlayer)
        → list_game_players db game ≡ xs
        → ◌≡◌ {A = Outcome ApiError (GameInfo × List GamePlayer)}
            (elim xs [ [] ↦ err no_players | p ∷ ps ↦ ok (g, p ∷ ps) ])
            (ok (info, rows))
        → rows ≡ list_game_players db game
    from g [] e k = absurd (ground arith)
    from g (p ∷ ps) e k =
        ap (λ (x : GameInfo × List GamePlayer). x.1) (sym (ok_injective k)) ∙ sym e

public_in-players :
    (rows : List GamePlayer) (info : GameInfo) (r : World × Outcome ApiError State)
    {snap : GameSnapshot}
    → (public_in rows info r).1 ≡ ok snap
    → snap.players ≡ rows
unfolding public_in
public_in-players rows info (w, ok s) h =
    ap (λ (x : GameSnapshot). x.players) (sym (ok_injective h))
public_in-players rows info (w, err e) h = absurd (ground arith)
public_in-players rows info (w, panic) h = absurd (ground arith)

-- The snapshot that is broadcast to a room carries the rows of all players as they are stored, their
-- hands in full.
pub build_game_snapshot_public-players :
    (w : World) (game : ℕ) (draws : List ℕ) {snap : GameSnapshot}
    → (build_game_snapshot_public w game draws).1 ≡ ok snap
    → snap.players ≡ list_game_players w.db game
unfolding build_game_snapshot_public for_all
build_game_snapshot_public-players w game draws {snap} h = from_listed (listed w.db game) refl h
  where
    from_listed :
        (x : Outcome ApiError (GameInfo × List GamePlayer))
        → listed w.db game ≡ x
        → (for_all w game draws x).1 ≡ ok snap
        → snap.players ≡ list_game_players w.db game
    from_listed (ok (info, rows)) e k =
        public_in-players rows info (ensure_game_state w game rows draws) k
        ∙ listed_rows w.db game e
    from_listed (err x) e k = absurd (ground arith)
    from_listed panic e k = absurd (ground arith)

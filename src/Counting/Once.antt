-- ===== src/Counting/Once.antt =====
-- What an accepted count has verified and stored, and that a final count is accepted once.
use fifteen_thirty_one_go.Shared.{
  ==_iff, >>=-eq-ok, Bool-cases, List, Option-cases, [], ap, arith, false, get_elem?, inl, inr, ok,
  ok_injective, refl, some, subst, sym, true, ℕ, ◌&&◌, ◌++◌, ◌==◌, ◌>>=◌, ◌∙◌, ◌∷◌, ◌≡◌, ◌≢◌,
}
use fifteen_thirty_one_go.Cards.{Card}
use fifteen_thirty_one_go.Counting.{
  CountAnswer, CountKind, CountRequest, count_entry, count_in, count_type, counted_breakdown,
  crib_kind, hand_kind, handle_count, record_count, unknown_kind,
}
use fifteen_thirty_one_go.Engine.State.{State, counting, stage_eq}
use fifteen_thirty_one_go.Moves.Committed.{committed-ok}
use fifteen_thirty_one_go.Moves.World.{World}
use fifteen_thirty_one_go.Scoring.Show.{ScoreBreakdown, score_hand}
use fifteen_thirty_one_go.Store.Games.{Db, GameMove, GamePlayer, MoveType, insert_move}
use fifteen_thirty_one_go.Store.Marked.{
  any_uncorrected-append, any_uncorrected-last, move_type_eq_refl, stored_last,
}
use fifteen_thirty_one_go.Store.Moves.{any_uncorrected, has_uncorrected_move_type, is_uncorrected}
use fifteen_thirty_one_go.Store.Players.{find_player}

-- What the breakdown of a count is: that of the cards which the state keeps for the position, or for the
-- dealer that of the crib.
abbrev pub CountedFrom : State → Card → ℕ → CountKind → ScoreBreakdown → Type 0
CountedFrom s cut place hand_kind bd =
    (kept : List Card) × (get_elem? s.kept_hands place ≡ some kept)
    × (bd ≡ score_hand kept cut false)
CountedFrom s cut place crib_kind bd = (place ≡ s.dealer_index) × (bd ≡ score_hand s.crib cut true)
CountedFrom s cut place unknown_kind bd = ⊥

counted_breakdown-ok :
    (s : State) (cut : Card) (place : ℕ) (kind : CountKind) (bd : ScoreBreakdown)
    → counted_breakdown s cut place kind ≡ ok bd
    → CountedFrom s cut place kind bd
unfolding counted_breakdown
counted_breakdown-ok s cut place hand_kind bd h =
    elim (Option-cases (get_elem? s.kept_hands place)) [
      | inl e ↦ absurd (ground arith)
      | inr (kept, e) ↦ (kept, e, sym (ok_injective (rw (e, counted_breakdown) at h)))
    ]
counted_breakdown-ok s cut place crib_kind bd h = elim (Bool-cases (place == s.dealer_index)) [
  | inl e ↦ ((==_iff place s.dealer_index).0 e, sym (ok_injective (rw (e, counted_breakdown) at h)))
  | inr e ↦ absurd (ground arith)
]
counted_breakdown-ok s cut place unknown_kind bd h = absurd (cc)

-- The cards behind a verified count, and the move that is stored.
pub record Verified (w w' : World) (game user : ℕ) (req : CountRequest) (a : CountAnswer)
    : Type 0 where
  pub state : State
  pub cut : Card
  pub player : GamePlayer
  pub in_memory : w.runtime game ≡ some state
  pub has_cut : state.cut ≡ some cut
  pub in_stage : stage_eq state.stage counting ≡ true
  pub is_player : find_player user (w.db.players_of game) ≡ some player
  pub scored : CountedFrom state cut player.position req.kind a.breakdown
  pub total : a.verified ≡ a.breakdown.total
  pub allowed : (req.final && has_uncorrected_move_type w.db game user (count_type req)) ≡ false
  pub written : w' ≡ record w { db = insert_move w.db (count_entry game user req a.verified) }
  pub move : GameMove
  pub added_last : w'.db.moves ≡ w.db.moves ++ move ∷ []
  pub of_game : move.game_id ≡ game
  pub by_user : move.player_id ≡ user
  pub claimed : move.score_claimed ≡ some req.claim
  pub points : move.score_verified ≡ some a.verified
  pub uncorrected : move.is_corrected ≡ false

record_count-ok :
    (db db' : Db) (game user : ℕ) (req : CountRequest) (bd : ScoreBreakdown) (a : CountAnswer)
    → record_count db game user req bd ≡ ok (db', a)
    → ((req.final && has_uncorrected_move_type db game user (count_type req)) ≡ false)
      × (bd ≡ a.breakdown)
      × (a.verified ≡ a.breakdown.total)
      × (db' ≡ insert_move db (count_entry game user req a.verified))
unfolding record_count
record_count-ok db db' game user req bd a h =
    elim (Bool-cases (req.final && has_uncorrected_move_type db game user (count_type req))) [
      | inl e ↦ absurd (ground arith)
      | inr e ↦
          let same = ok_injective (rw e at h) in
          let answer = ap (λ (r : Db × CountAnswer). r.1) same in
          let verified = ap (λ (r : CountAnswer). r.verified) answer in
          let breakdown = ap (λ (r : CountAnswer). r.breakdown) answer in
          (
            e,
            breakdown,
            sym verified ∙ ap (λ (b : ScoreBreakdown). b.total) breakdown,
            sym (ap (λ (r : Db × CountAnswer). r.0) same)
                ∙ ap (λ v. insert_move db (count_entry game user req v)) verified,
          )
    ]

count_in-ok :
    (db db' : Db) (game user : ℕ) (req : CountRequest) (s : State) (a : CountAnswer)
    → count_in db game user req s ≡ ok (db', a)
    → (cut : Card) × (p : GamePlayer) × (s.cut ≡ some cut)
      × (stage_eq s.stage counting ≡ true)
      × (find_player user (db.players_of game) ≡ some p)
      × (counted_breakdown s cut p.position req.kind >>= record_count db game user req
          ≡ ok (db', a))
unfolding count_in
count_in-ok db db' game user req s a h = elim (Option-cases s.cut) [
  | inl e ↦ absurd (ground arith)
  | inr (cut, e) ↦ elim (Bool-cases (stage_eq s.stage counting)) [
    | inr other ↦ absurd (ground arith)
    | inl stage ↦ elim (Option-cases (find_player user (db.players_of game))) [
      | inl missing ↦ absurd (ground arith)
      | inr (p, found) ↦ (cut, p, e, stage, found, rw (e, stage, found) at h)
    ]
  ]
]

-- Where the handler answers, what it has read from memory and what it has written.
handle_count-ok :
    (w w' : World) (game user : ℕ) (req : CountRequest) (a : CountAnswer)
    → handle_count w game user req ≡ (w', ok a)
    → (s : State) × (db : Db) × (w.runtime game ≡ some s)
      × (count_in w.db game user req s ≡ ok (db, a))
      × (w' ≡ record w { db = db })
unfolding handle_count
handle_count-ok w w' game user req a h = elim (Option-cases (w.runtime game)) [
  | inl e ↦ absurd (ground arith)
  | inr (s, e) ↦
      let (db, c, written) =
        committed-ok w w' (count_in w.db game user req s) a (rw (e, handle_count) at h) in
      (s, db, e, c, written)
]

-- An answered count has verified the total of the cards that the state in memory keeps for the
-- player, or of the crib for the dealer, in the stage of counting, and stored one move with it.
pub handle_count-Verified :
    (w w' : World) (game user : ℕ) (req : CountRequest) (a : CountAnswer)
    → handle_count w game user req ≡ (w', ok a)
    → Verified w w' game user req a
handle_count-Verified w w' game user req a h =
    let (s, db, e, c, written) = handle_count-ok w w' game user req a h in
    let (cut, p, cut_is, stage, found, chain) = count_in-ok w.db db game user req s a c in
    let (bd, scored, recorded) =
      >>=-eq-ok (counted_breakdown s cut p.position req.kind) (record_count w.db game user req)
        chain in
    let (allowed, same, total, stored_is) = record_count-ok w.db db game user req bd a recorded in
    record {
      state = s;
      cut = cut;
      player = p;
      in_memory = e;
      has_cut = cut_is;
      in_stage = stage;
      is_player = found;
      scored =
          counted_breakdown-ok s cut p.position req.kind a.breakdown (scored ∙ ap (λ b. ok b) same);
      total = total;
      allowed = allowed;
      written = written ∙ ap (λ (d : Db). record w { db = d }) stored_is;
      move = count_entry game user req a.verified;
      added_last =
          ap (λ (v : World). v.db.moves) (written ∙ ap (λ (d : Db). record w { db = d }) stored_is)
          ∙ stored_last w.db (count_entry game user req a.verified);
      of_game = refl;
      by_user = refl;
      claimed = refl;
      points = refl;
      uncorrected = refl;
    }

entry_counts :
    (game user : ℕ) (req : CountRequest) (points : ℕ) (type : MoveType)
    → type ≡ count_type req
    → is_uncorrected game user type (count_entry game user req points) ≡ true
entry_counts game user req points type h = rw (h, move_type_eq_refl (count_type req)) (ground arith)

-- A final count of a hand, or of the crib, is accepted once in a game: after one, no later request of
-- the player is answered, whatever hand is being counted, as long as the moves stand as they are and
-- only more are added.
pub handle_count_once :
    (w w' later after : World) (game user : ℕ) (req again : CountRequest) (a b : CountAnswer)
    (more : List GameMove)
    → req.final ≡ true
    → handle_count w game user req ≡ (w', ok a)
    → later.db.moves ≡ w'.db.moves ++ more
    → again.final ≡ true
    → count_type again ≡ count_type req
    → handle_count later game user again ≢ (after, ok b)
unfolding has_uncorrected_move_type
handle_count_once w w' later after game user req again a b more final h grown final' type h' =
    let first = handle_count-Verified w w' game user req a h in
    let second = handle_count-Verified later after game user again b h' in
    let written : w'.db.moves ≡ w.db.moves ++ count_entry game user req a.verified ∷ [] =
      ap (λ (v : World). v.db.moves) first.written
      ∙ stored_last w.db (count_entry game user req a.verified) in
    let stands : any_uncorrected game user (count_type again) later.db.moves ≡ true =
      subst (λ ms. any_uncorrected game user (count_type again) ms ≡ true)
        (sym (grown ∙ ap (λ ms. ms ++ more) written))
        (any_uncorrected-append game user (count_type again)
          (w.db.moves ++ count_entry game user req a.verified ∷ []) more
          (any_uncorrected-last game user (count_type again) w.db.moves
            (count_entry game user req a.verified)
            (entry_counts game user req a.verified (count_type again) type))) in
    ground (arith, second.allowed)

-- ===== src/Manager/Exclusive.antt =====
-- Who is handed the state of a game has it alone, and has the one that the map has.
use mathlib.Core.Option.{some-injective}
use fifteen_thirty_one_go.Shared.{ap, none, refl, some, sym, ℕ, ◌∙◌, ◌≡◌, ◌≢◌}
use fifteen_thirty_one_go.Manager.{Action, Manager, advance, holding, new_manager}
use fifteen_thirty_one_go.Manager.Locks.{Grants-outside, Locked}
use fifteen_thirty_one_go.Manager.Places.{is_holding, owns, target}
use fifteen_thirty_one_go.Manager.Preserved.{advance-Locked, granted}

-- The managers that the turns of threads lead to.
pub data Leads (m : Manager) : Manager → Type 0 where
  at_start : Leads m m
  next_turn :
      {m' m'' : Manager}
      → Leads m m'
      → (t : ℕ) (a : Action) → advance m' t a ≡ some m''
      → Leads m m''

new_manager-Locked : Locked new_manager
new_manager-Locked = record {
  fresh = record { made = λ g e is. absurd (cc); taken = λ e u is. absurd (cc) };
  grants = λ t. Grants-outside new_manager t;
  apart = λ t w. refl;
}

pub Leads-Locked : {m m' : Manager} → Leads m m' → Locked m → Locked m'
Leads-Locked at_start h = h
Leads-Locked (next_turn {m'} {m''} r t a e) h = advance-Locked m' m'' t a (Leads-Locked r h) e

pub reached-Locked : {m : Manager} → Leads new_manager m → Locked m
reached-Locked r = Leads-Locked r new_manager-Locked

-- Two threads that have both been handed a state of one game are the same thread, whatever calls were made
-- before and in whatever order the threads took their turns; the entry with the state is that of the
-- map, so nobody holds a state that was deleted or replaced.
pub holding_alone :
    (m : Manager) (t u g e e' : ℕ)
    → Leads new_manager m
    → m.at t ≡ holding g e
    → m.at u ≡ holding g e'
    → (t ≡ u) × (m.games g ≡ some e) × (m.states e ≢ none)
unfolding target owns is_holding
holding_alone m t u g e e' r at_t at_u =
    let h = reached-Locked r in
    let p = granted m t (holding g e) at_t h in
    let q = granted m u (holding g e') at_u h in
    let same : e ≡ e' = some-injective e e' (sym (p.in_map g e refl) ∙ q.in_map g e' refl) in
    (
      some-injective t u (sym (p.owned g e refl refl) ∙ ap m.owner same ∙ q.owned g e' refl refl),
      p.in_map g e refl,
      p.present g e refl refl,
    )

-- ===== src/Manager/Deadlock.antt =====
-- The second lock of GetOrCreateLocked is taken in the other order than the first two.
use fifteen_thirty_one_go.Shared.{
  ==_iff, Bool-cases, arith, inl, inr, refl, some, subst, ℕ, ◌==◌, ◌∙◌, ◌≡◌, ◌≢◌,
}
use fifteen_thirty_one_go.Manager.{
  Action, Manager, Pc, advance, begin, call_create, call_delete, call_get, call_set, create_answers,
  create_waiting, creating, delete_waiting, deleting, dropped, failed, failing, get_checked,
  get_or_create, get_waiting, getting, held, holding, new_manager, outside, proceed, set_waiting,
  setting, turn_at, with_entry, write_state,
}
use fifteen_thirty_one_go.Manager.Exclusive.{
  Leads, Leads-Locked, at_start, next_turn, reached-Locked,
}
use fifteen_thirty_one_go.Manager.Locks.{Locked}
use fifteen_thirty_one_go.Manager.Places.{owns, target, writes}
use fifteen_thirty_one_go.Manager.Preserved.{granted}

-- A turn moves its own thread only.
begin-at :
    (m m' : Manager) (t u : ℕ) (a : Action) → u ≢ t → begin m t a ≡ some m' → m'.at u ≡ m.at u
unfolding begin with_entry
begin-at m m' t u (call_get g) other e = ground arith
begin-at m m' t u (call_set g s) other e = ground arith
begin-at m m' t u (call_delete g) other e = ground arith
begin-at m m' t u (call_create g) other e = ground arith
begin-at m m' t u (create_answers made) other e = absurd (cc)
begin-at m m' t u (write_state s) other e = absurd (cc)
begin-at m m' t u proceed other e = absurd (cc)

turn_at-at :
    (m m' : Manager) (t u : ℕ) (pc : Pc) (a : Action)
    → u ≢ t
    → turn_at m t pc a ≡ some m'
    → m'.at u ≡ m.at u
unfolding turn_at get_checked held get_or_create dropped
turn_at-at m m' t u outside a other e = begin-at m m' t u a other e
turn_at-at m m' t u (get_waiting g n) a other e = ground arith
turn_at-at m m' t u (getting g n) a other e = ground arith
turn_at-at m m' t u (holding g n) a other e = ground arith
turn_at-at m m' t u (set_waiting g n s) a other e = ground arith
turn_at-at m m' t u (setting g n s) a other e = ground arith
turn_at-at m m' t u (delete_waiting g n) a other e = ground arith
turn_at-at m m' t u (deleting g n) a other e = ground arith
turn_at-at m m' t u (create_waiting g n) a other e = ground arith
turn_at-at m m' t u (creating g n) a other e = ground arith
turn_at-at m m' t u (failing g n) a other e = ground arith
turn_at-at m m' t u (failed g n) a other e = ground arith

advance-at :
    (m m' : Manager) (t u : ℕ) (a : Action) → u ≢ t → advance m t a ≡ some m' → m'.at u ≡ m.at u
unfolding advance
advance-at m m' t u a other e = turn_at-at m m' t u (m.at t) a other e

-- While another thread has the map, a failed creation waits for it.
failing_waits :
    (m m' : Manager) (t u g e : ℕ) (a : Action)
    → m.at t ≡ failing g e
    → m.writer ≡ some u
    → advance m t a ≢ some m'
unfolding advance turn_at
failing_waits m m' t u g e a at_t w is = absurd (ground arith)

-- While another thread has the entry, a creation waits for it.
creation_waits :
    (m m' : Manager) (t u g e : ℕ) (a : Action)
    → m.at u ≡ create_waiting g e
    → m.owner e ≡ some t
    → advance m u a ≢ some m'
unfolding advance turn_at
creation_waits m m' t u g e a at_u o is = absurd (ground arith)

-- Two threads that wait for each other.
abbrev Stuck : Manager → ℕ → ℕ → ℕ → ℕ → Type 0
Stuck m t u g e = (m.at t ≡ failing g e) × (m.at u ≡ create_waiting g e)

advance-Stuck :
    (m m' : Manager) (t u g e v : ℕ) (a : Action)
    → Locked m
    → Stuck m t u g e
    → advance m v a ≡ some m'
    → Stuck m' t u g e
unfolding target owns writes
advance-Stuck m m' t u g e v a h (at_t, at_u) is =
    let p = granted m t (failing g e) at_t h in
    let q = granted m u (create_waiting g e) at_u h in
    elim (Bool-cases (v == t)) [
      | inl s ↦ absurd (
          failing_waits m m' t u g e a at_t (q.written refl)
            (subst (λ x. advance m x a ≡ some m') ((==_iff v t).0 s) is))
      | inr s ↦ elim (Bool-cases (v == u)) [
        | inl s' ↦ absurd (
            creation_waits m m' t u g e a at_u (p.owned g e refl refl)
              (subst (λ x. advance m x a ≡ some m') ((==_iff v u).0 s') is))
        | inr s' ↦ (
          advance-at m m' v t a (ground arith) is ∙ at_t,
          advance-at m m' v u a (ground arith) is ∙ at_u,
        )
      ]
    ]

Leads-Stuck :
    {m m' : Manager} {t u g e : ℕ} → Locked m → Stuck m t u g e → Leads m m' → Stuck m' t u g e
Leads-Stuck h s at_start = s
Leads-Stuck {t = t} {u = u} {g = g} {e = e} h s (next_turn {m'} {m''} q v a is) =
    advance-Stuck m' m'' t u g e v a (Leads-Locked q h) (Leads-Stuck h s q) is

-- A creation that fails while another thread creates the same game waits for the lock of the map, which the
-- other one keeps while it waits for the lock of the entry: neither takes a turn ever again, and the
-- lock of the map is never free, whatever the other threads do.
pub failed_creation_deadlocks :
    (m m' : Manager) (t u g e : ℕ)
    → Leads new_manager m
    → m.at t ≡ failing g e
    → m.at u ≡ create_waiting g e
    → Leads m m'
    → (m'.at t ≡ failing g e) × (m'.at u ≡ create_waiting g e) × (m'.writer ≡ some u)
unfolding writes
failed_creation_deadlocks m m' t u g e r at_t at_u later =
    let (still_t, still_u) = Leads-Stuck (reached-Locked r) (at_t, at_u) later in
    (
      still_t,
      still_u,
      (granted m' u (create_waiting g e) still_u (Leads-Locked later (reached-Locked r))).written
          refl,
    )

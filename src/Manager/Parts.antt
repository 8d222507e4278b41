-- ===== src/Manager/Parts.antt =====
-- What each method does with a lock that it has keeps the locks in order.
use mathlib.Core.Option.{some-injective}
use fifteen_thirty_one_go.Shared.{
  ==_iff, Option-cases, [], false, inl, inr, none, refl, some, subst, true, ℕ, ◌==◌, ◌∷◌, ◌≡◌, ◌≢◌,
}
use fifteen_thirty_one_go.Manager.{
  Action, Manager, Pc, answered, begin, call_create, call_delete, call_get, call_set,
  create_answers, create_waiting, delete_waiting, dropped, failing, get_checked, get_or_create,
  get_waiting, goes_to, held, holding, proceed, set_waiting, with_entry, write_state,
}
use fifteen_thirty_one_go.Manager.Endings.{
  begin_read-Locked, end_read-Locked, give_up-Locked, new_entry-Locked, put-Locked, remove-Locked,
}
use fifteen_thirty_one_go.Manager.Locks.{Grants, Grants-at, Locked}
use fifteen_thirty_one_go.Manager.Places.{is_holding, owns, reads, target, writes}
use fifteen_thirty_one_go.Manager.Turns.{
  begin_write-Locked, if_free-some, if_unwritten-some, release-Locked, stays-Locked,
}
use fifteen_thirty_one_go.Store.Games.{update}

with_entry-Locked :
    (m : Manager) (t g : ℕ) (to : ℕ → Pc)
    → Locked m
    → m.writer ≡ none
    → m.readers ≡ []
    → ((e : ℕ) → target (to e) ≡ some (g, e))
    → ((e : ℕ) → owns (to e) ≡ false)
    → ((e : ℕ) → is_holding (to e) ≡ false)
    → ((e : ℕ) → reads (to e) ≡ false)
    → Locked (with_entry m t to g)
unfolding with_entry
with_entry-Locked m t g to h unwritten unread here not_own not_held not_read =
    elim (Option-cases (m.games g)) [
      | inl f ↦
          rw (f, with_entry)
            (new_entry-Locked m t g (to m.next_entry) h unwritten unread f (here m.next_entry)
              (not_own m.next_entry) (not_held m.next_entry) (not_read m.next_entry))
      | inr (e, f) ↦
          rw (f, with_entry)
            (begin_write-Locked m t g e (to e) h unwritten unread f (here e)
              (λ own. absurd (cc (not_own e))) (not_held e) (not_read e))
    ]

pub begin-Locked :
    (m m' : Manager) (t : ℕ) (a : Action) → Locked m → begin m t a ≡ some m' → Locked m'
unfolding begin target owns reads is_holding
begin-Locked m m' t (call_get g) h e = elim (Option-cases (m.games g)) [
  | inl f ↦ let (unwritten, is) = if_unwritten-some m m m' (rw (f, begin) at e) in subst Locked is h
  | inr (n, f) ↦
      let x : Manager = record m {
        readers = t ∷ m.readers;
        at = update m.at t (get_waiting g n);
      } in
      let (unwritten, is) = if_unwritten-some m x m' (rw (f, begin) at e) in
      subst Locked is (begin_read-Locked m t g n h unwritten f)
]
begin-Locked m m' t (call_set g s) h e =
    let to = λ (n : ℕ). set_waiting g n s in
    let (unwritten, unread, is) = if_free-some m (with_entry m t to g) m' e in
    subst Locked is (
      with_entry-Locked m t g to h unwritten unread (λ n. refl) (λ n. refl) (λ n. refl) (λ n. refl))
begin-Locked m m' t (call_delete g) h e = elim (Option-cases (m.games g)) [
  | inl f ↦
      let (unwritten, unread, is) = if_free-some m m m' (rw (f, begin) at e) in subst Locked is h
  | inr (n, f) ↦
      let x : Manager = record m { writer = some t; at = update m.at t (delete_waiting g n) } in
      let (unwritten, unread, is) = if_free-some m x m' (rw (f, begin) at e) in
      subst Locked is (
        begin_write-Locked m t g n (delete_waiting g n) h unwritten unread f refl
          (λ own. absurd (cc)) refl refl)
]
begin-Locked m m' t (call_create g) h e =
    let (unwritten, unread, is) = if_free-some m (with_entry m t (create_waiting g) g) m' e in
    subst Locked is (
      with_entry-Locked m t g (create_waiting g) h unwritten unread (λ n. refl) (λ n. refl)
        (λ n. refl) (λ n. refl))
begin-Locked m m' t (create_answers made) h e = absurd (cc)
begin-Locked m m' t (write_state s) h e = absurd (cc)
begin-Locked m m' t proceed h e = absurd (cc)

same_number : (e : ℕ) → (e == e) ≡ true
same_number e = (==_iff e e).1 refl

-- What t works on where it has the lock of the entry.
pub record Works (m : Manager) (t g e : ℕ) : Type 0 where
  pub in_map : m.games g ≡ some e
  pub owned : m.owner e ≡ some t

pub get_checked-Locked :
    (m : Manager) (t g e : ℕ) → Locked m → Works m t g e → Locked (get_checked m t g e)
unfolding get_checked target owns reads writes is_holding
get_checked-Locked m t g e h w = elim (Option-cases (m.states e)) [
  | inl f ↦ rw (w.in_map, get_checked, same_number e, f) (give_up-Locked m t e h w.owned)
  | inr (s, f) ↦
      rw (w.in_map, get_checked, same_number e, f)
        (end_read-Locked m t (holding g e) h
          (Grants-at m t (holding g e) g e refl w.in_map (λ own. w.owned) (λ r. absurd (cc))
            (λ x. absurd (cc)) (λ held x. cc))
          refl)
]

pub held-Locked :
    (m : Manager) (t g e : ℕ) (a : Action) → Locked m → Works m t g e → Locked (held m t e a)
unfolding held
held-Locked m t g e (write_state s) h w = put-Locked m t e s h w.owned
held-Locked m t g e (create_answers made) h w = release-Locked m t e h w.owned
held-Locked m t g e (call_get g') h w = release-Locked m t e h w.owned
held-Locked m t g e (call_set g' s) h w = release-Locked m t e h w.owned
held-Locked m t g e (call_delete g') h w = release-Locked m t e h w.owned
held-Locked m t g e (call_create g') h w = release-Locked m t e h w.owned
held-Locked m t g e proceed h w = release-Locked m t e h w.owned

-- What the code has at a place from which it goes on with a lock of the entry only.
Grants-owner :
    (m : Manager) (t g e : ℕ) (pc : Pc)
    → Works m t g e
    → target pc ≡ some (g, e)
    → reads pc ≡ false
    → writes pc ≡ false
    → (is_holding pc ≡ true → m.states e ≢ none)
    → Grants m t pc
Grants-owner m t g e pc w here not_read not_written present =
    Grants-at m t pc g e here w.in_map (λ own. w.owned) (λ r. absurd (cc)) (λ x. absurd (cc))
      present

answered-Locked :
    (m m' : Manager) (t g e : ℕ) (a : Action)
    → Locked m
    → Works m t g e
    → answered m t g e a ≡ some m'
    → Locked m'
unfolding answered target reads writes is_holding
answered-Locked m m' t g e (create_answers none) h w is =
    subst Locked (some-injective (goes_to m t (failing g e)) m' is) (
      stays-Locked m t (failing g e) h
        (Grants-owner m t g e (failing g e) w refl refl refl (λ held. absurd (cc))))
answered-Locked m m' t g e (create_answers (some s)) h w is =
    let put : Manager = record m { states = update m.states e (some s) } in
    subst Locked (some-injective (goes_to put t (holding g e)) m' is) (
      stays-Locked put t (holding g e) (put-Locked m t e s h w.owned) (
        Grants-owner put t g e (holding g e) (record { in_map = w.in_map; owned = w.owned }) refl
          refl refl (λ held. rw (same_number e) (λ x. absurd (cc x)))))
answered-Locked m m' t g e (call_get g') h w is = absurd (cc)
answered-Locked m m' t g e (call_set g' s) h w is = absurd (cc)
answered-Locked m m' t g e (call_delete g') h w is = absurd (cc)
answered-Locked m m' t g e (call_create g') h w is = absurd (cc)
answered-Locked m m' t g e (write_state s) h w is = absurd (cc)
answered-Locked m m' t g e proceed h w is = absurd (cc)

pub get_or_create-Locked :
    (m m' : Manager) (t g e : ℕ) (a : Action)
    → Locked m
    → Works m t g e
    → get_or_create m t g e a ≡ some m'
    → Locked m'
unfolding get_or_create target reads writes is_holding
get_or_create-Locked m m' t g e a h w is = elim (Option-cases (m.states e)) [
  | inr (s, f) ↦
      subst Locked (some-injective (goes_to m t (holding g e)) m' (rw (f, get_or_create) at is)) (
        stays-Locked m t (holding g e) h
          (Grants-owner m t g e (holding g e) w refl refl refl (λ held x. cc)))
  | inl f ↦ answered-Locked m m' t g e a h w (rw (f, get_or_create) at is)
]

pub dropped-Locked :
    (m : Manager) (t g e : ℕ)
    → Locked m
    → Works m t g e
    → m.writer ≡ some t
    → Locked (dropped m t g e)
unfolding dropped
dropped-Locked m t g e h w writing =
    rw (w.in_map, dropped, same_number e)
      (remove-Locked m t g e m.states h writing w.owned w.in_map (λ u e' other o there. there))

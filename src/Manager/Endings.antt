-- ===== src/Manager/Endings.antt =====
-- Turns that write to the map, to an entry's state or to the list of readers keep the locks in order.
use mathlib.Core.Option.{some-injective}
use fifteen_thirty_one_go.Shared.{
  ==_iff, Bool-cases, Option, [], ap, arith, false, inl, inr, none, refl, some, subst, suc, sym,
  true, ℕ, ◌==◌, ◌∙◌, ◌∷◌, ◌≡◌, ◌≢◌,
}
use fifteen_thirty_one_go.Engine.State.{State}
use fifteen_thirty_one_go.Hub.{contains, delete_client}
use fifteen_thirty_one_go.Hub.Rooms.{contains-delete_client}
use fifteen_thirty_one_go.Manager.{Manager, Pc, get_waiting, goes_to, outside, unlocked}
use fifteen_thirty_one_go.Manager.Locks.{
  Fresh-owner, Grants, Grants-at, Grants-outside, Locked, Locked-left,
}
use fifteen_thirty_one_go.Manager.Places.{is_holding, owns, reads, target, target_locked, writes}
use fifteen_thirty_one_go.Manager.Turns.{owner-kept, writer-kept}
use fifteen_thirty_one_go.Store.Games.{update}

-- A new entry, for a game that has none.
pub new_entry-Locked :
    (m : Manager) (t g : ℕ) (pc : Pc)
    → Locked m
    → m.writer ≡ none
    → m.readers ≡ []
    → m.games g ≡ none
    → target pc ≡ some (g, m.next_entry)
    → owns pc ≡ false
    → is_holding pc ≡ false
    → reads pc ≡ false
    → Locked (record m {
      games = update m.games g (some m.next_entry);
      states = update m.states m.next_entry none;
      next_entry = suc m.next_entry;
      writer = some t;
      at = update m.at t pc;
    })
new_entry-Locked m t g pc h unwritten unread missing here not_own not_held not_read =
    let m' : Manager = record m {
      games = update m.games g (some m.next_entry);
      states = update m.states m.next_entry none;
      next_entry = suc m.next_entry;
      writer = some t;
      at = update m.at t pc;
    } in
    Locked-left m m' t pc refl h
      (record {
        maps = λ u g' e' other is there. elim (Bool-cases (g == g')) [
          | inl s ↦ absurd (cc (sym missing ∙ ap m.games ((==_iff g g').0 s) ∙ there))
          | inr s ↦ rw s there
        ];
        owners = λ u e' other o. o;
        readings = λ u other r. r;
        writings = λ u other. writer-kept m t u (some t) (inl unwritten) other;
        keeps = λ u e' other o there. elim (Bool-cases (m.next_entry == e')) [
          | inl s ↦ absurd (ground (arith, (==_iff m.next_entry e').0 s, h.fresh.taken e' u o))
          | inr s ↦ rw s there
        ];
      })
      (Grants-at m' t pc g m.next_entry here (ground arith) (λ own. absurd (cc)) (λ r. absurd (cc))
        (λ w. refl) (λ held. absurd (cc)))
      (λ u w. unread)
      (record {
        made = λ g' e' is. elim (Bool-cases (g == g')) [
          | inl s ↦ ground arith
          | inr s ↦ omega (arith, h.fresh.made g' e' (rw s at is))
        ];
        taken = λ e' u is. omega (arith, h.fresh.taken e' u is);
      })

-- A reader more, that goes on with an entry of the map.
pub begin_read-Locked :
    (m : Manager) (t g e : ℕ)
    → Locked m
    → m.writer ≡ none
    → m.games g ≡ some e
    → Locked (record m { readers = t ∷ m.readers; at = update m.at t (get_waiting g e) })
unfolding target owns reads writes is_holding contains
begin_read-Locked m t g e h unwritten there =
    let m' : Manager = record m { readers = t ∷ m.readers; at = update m.at t (get_waiting g e) } in
    Locked-left m m' t (get_waiting g e) refl h
      (record {
        maps = λ u g' e' other is there. there;
        owners = λ u e' other o. o;
        readings = λ u other r. ground arith;
        writings = λ u other w. w;
        keeps = λ u e' other o there. there;
      })
      (Grants-at m' t (get_waiting g e) g e refl there (λ own. absurd (cc)) (λ r. ground arith)
        (λ w. absurd (cc)) (λ held. absurd (cc)))
      (λ u w. absurd (cc (sym unwritten ∙ w)))
      (record { made = h.fresh.made; taken = h.fresh.taken })

-- A reader less.
pub end_read-Locked :
    (m : Manager) (t : ℕ) (pc : Pc)
    → Locked m
    → Grants m t pc
    → reads pc ≡ false
    → Locked (goes_to (record m { readers = delete_client t m.readers }) t pc)
unfolding delete_client
end_read-Locked m t pc h own not_read =
    let m' = goes_to (record m { readers = delete_client t m.readers }) t pc in
    Locked-left m m' t pc refl h
      (record {
        maps = λ u g' e' other is there. there;
        owners = λ u e' other o. o;
        readings = λ u other r. contains-delete_client u t m.readers ∙ ground (arith, r);
        writings = λ u other w. w;
        keeps = λ u e' other o there. there;
      })
      (record {
        in_map = own.in_map;
        owned = own.owned;
        read = λ r. absurd (cc);
        written = own.written;
        present = own.present;
      })
      (λ u w. ap (delete_client t) (h.apart u w))
      (record { made = h.fresh.made; taken = h.fresh.taken })

-- A reader less, that has given up its entry as well.
pub give_up-Locked :
    (m : Manager) (t e : ℕ)
    → Locked m
    → m.owner e ≡ some t
    → Locked (unlocked (record m { readers = delete_client t m.readers }) t e)
unfolding delete_client
give_up-Locked m t e h own =
    let m' = unlocked (record m { readers = delete_client t m.readers }) t e in
    Locked-left m m' t outside refl h
      (record {
        maps = λ u g' e' other is there. there;
        owners = owner-kept m.owner t e none (inr own);
        readings = λ u other r. contains-delete_client u t m.readers ∙ ground (arith, r);
        writings = λ u other w. w;
        keeps = λ u e' other o there. there;
      })
      (Grants-outside m' t) (λ u w. ap (delete_client t) (h.apart u w))
      (Fresh-owner m m' e none h.fresh (λ g e' is. is) refl refl (λ u is. absurd (cc)))

-- A state is put into an entry by its owner.
pub put-Locked :
    (m : Manager) (t e : ℕ) (s : State)
    → Locked m
    → m.owner e ≡ some t
    → Locked (record m { states = update m.states e (some s) })
put-Locked m t e s h own =
    let m' : Manager = record m { states = update m.states e (some s) } in
    let still : (e' : ℕ) → m.states e' ≢ none → m'.states e' ≢ none = λ e' there.
      elim (Bool-cases (e == e')) [
        | inl same ↦ rw same (λ x. absurd (cc x))
        | inr other ↦ rw other there
      ] in
    record {
      fresh = record { made = h.fresh.made; taken = h.fresh.taken };
      grants = λ u.
          let q = h.grants u in
          record {
            in_map = q.in_map;
            owned = q.owned;
            read = q.read;
            written = q.written;
            present = λ g' e' is held. still e' (q.present g' e' is held);
          };
      apart = h.apart;
    }

contains_nobody : (u : ℕ) → contains u [] ≡ true → ⊥
unfolding contains
contains_nobody u r = absurd (cc)

-- With the lock of the map and that of its entry a thread may take a game out of the map: nobody else
-- works on it.
pub remove-Locked :
    (m : Manager) (t g e : ℕ) (states : ℕ → Option State)
    → Locked m
    → m.writer ≡ some t
    → m.owner e ≡ some t
    → m.games g ≡ some e
    → ((u e' : ℕ) → u ≢ t → m.owner e' ≡ some u → m.states e' ≢ none → states e' ≢ none)
    → Locked
        (record (unlocked m t e) { states = states; games = update m.games g none; writer = none })
remove-Locked m t g e states h writing own there kept =
    let m' : Manager = record (unlocked m t e) {
      states = states;
      games = update m.games g none;
      writer = none;
    } in
    Locked-left m m' t outside refl h
      (record {
        maps = λ u g' e' other is there'. elim (Bool-cases (g == g')) [
          | inl s ↦
              let same : e ≡ e' =
                some-injective e e' (sym there ∙ ap m.games ((==_iff g g').0 s) ∙ there') in
              absurd (alone u g' e' other is (sym (ap m.owner same) ∙ own))
          | inr s ↦ rw s there'
        ];
        owners = owner-kept m.owner t e none (inr own);
        readings = λ u other r. r;
        writings = λ u other. writer-kept m t u none (inr writing) other;
        keeps = kept;
      })
      (Grants-outside m' t) (λ u w. absurd (cc))
      (Fresh-owner m m' e none h.fresh
        (λ g' e' is. elim (Bool-cases (g == g')) [
          | inl s ↦ absurd (ground arith)
          | inr s ↦ rw s at is
        ])
        refl refl (λ u is. absurd (cc)))
  where
    alone : (u g' e' : ℕ) → u ≢ t → target (m.at u) ≡ some (g', e') → m.owner e' ≡ some t → ⊥
    alone u g' e' other is mine =
        let q = h.grants u in
        elim (Bool-cases (owns (m.at u))) [
          | inl o ↦ other (some-injective u t (sym (q.owned g' e' is o) ∙ mine))
          | inr o ↦ elim (Bool-cases (writes (m.at u))) [
            | inl w ↦ other (some-injective u t (sym (q.written w) ∙ writing))
            | inr w ↦
                let r : reads (m.at u) ≡ true = ground (arith, target_locked (m.at u) g' e' is) in
                contains_nobody u
                  (subst (λ us. contains u us ≡ true) (h.apart t writing) (q.read r))
          ]
        ]

-- ===== src/Social/Watching.antt =====
-- What the requests of spectators come to.
-- Each spectator of a lobby has one row: the primary key of the table.
use fifteen_thirty_one_go.Shared.{
  Bool-cases, List, Option, Option-cases, Outcome, [], ap, arith, err, false, inl, inr, none, ok,
  panic, refl, some, sym, true, ℕ, ◌&&◌, ◌++◌, ◌==◌, ◌||◌, ◌∙◌, ◌∷◌, ◌≡◌,
}
use fifteen_thirty_one_go.Cards.Text.{Text}
use fifteen_thirty_one_go.Social.{
  MessageType, Social, SocialError, Told, join_message, leave_message, name_of, player_count, post,
  send_system_message, spectator_joined, spectator_left,
}
use fifteen_thirty_one_go.Social.Spectators.{
  Takes, announce, delete_spectator, insert_spectator, is_finished, is_spectating,
  join_as_spectator, leave_as_spectator, may_spectate, now_spectating, stopped_spectating,
}
use fifteen_thirty_one_go.Store.Games.{LobbyRow}

abbrev pub OneRow : List (ℕ × ℕ) → Type 0
OneRow [] = Unit
OneRow (row ∷ rows) = (is_spectating row.0 row.1 rows ≡ false) × OneRow rows

is_spectating-append :
    (l u l' u' : ℕ) (rows : List (ℕ × ℕ))
    → is_spectating l u (rows ++ (l', u') ∷ []) ≡ (is_spectating l u rows || (l' == l && u' == u))
unfolding is_spectating
is_spectating-append l u l' u' [] = ground arith
is_spectating-append l u l' u' (row ∷ rows) = ground (arith, is_spectating-append l u l' u' rows)

OneRow-append :
    (l u : ℕ) (rows : List (ℕ × ℕ))
    → OneRow rows
    → is_spectating l u rows ≡ false
    → OneRow (rows ++ (l, u) ∷ [])
unfolding is_spectating
OneRow-append l u [] h absent = (refl, tt)
OneRow-append l u (row ∷ rows) h absent = (
  is_spectating-append row.0 row.1 l u rows ∙ ground (arith, h.0),
  OneRow-append l u rows h.1 (ground arith),
)

insert_spectator-OneRow :
    (l u : ℕ) (rows : List (ℕ × ℕ)) → OneRow rows → OneRow (insert_spectator l u rows)
unfolding insert_spectator
insert_spectator-OneRow l u rows h = elim (Bool-cases (is_spectating l u rows)) [
  | inl e ↦ rw e h
  | inr e ↦ rw e (OneRow-append l u rows h e)
]

is_spectating-insert :
    (l u : ℕ) (rows : List (ℕ × ℕ)) → is_spectating l u (insert_spectator l u rows) ≡ true
unfolding insert_spectator
is_spectating-insert l u rows = elim (Bool-cases (is_spectating l u rows)) [
  | inl e ↦ rw e e
  | inr e ↦ rw e (is_spectating-append l u l u rows ∙ ground arith)
]

delete_spectator-absent :
    (l u : ℕ) (rows : List (ℕ × ℕ))
    → is_spectating l u rows ≡ false
    → delete_spectator l u rows ≡ rows
unfolding delete_spectator is_spectating
delete_spectator-absent l u [] h = refl
delete_spectator-absent l u (row ∷ rows) h =
    let rest = delete_spectator-absent l u rows (ground arith) in ground (arith, rest)

delete_spectator-append :
    (l u : ℕ) (rows : List (ℕ × ℕ))
    → is_spectating l u rows ≡ false
    → delete_spectator l u (rows ++ (l, u) ∷ []) ≡ rows
unfolding delete_spectator is_spectating
delete_spectator-append l u [] h = ground arith
delete_spectator-append l u (row ∷ rows) h =
    let rest = delete_spectator-append l u rows (ground arith) in ground (arith, rest)

announce-fields :
    (hub : Option Takes) (s : Social) (lobby : ℕ) (event : Told) (text : Text) (type : MessageType)
    → let a = announce hub s lobby event text type in
      (a.spectators ≡ s.spectators) × (a.names ≡ s.names) × (a.db ≡ s.db)
unfolding announce send_system_message post
announce-fields (some takes) s lobby event text type = elim (Bool-cases takes.event) [
  | inl e ↦ rw e (refl, refl, refl)
  | inr e ↦ rw e (refl, refl, refl)
]
announce-fields none s lobby event text type = (refl, refl, refl)

-- Who was let in as a spectator: the lobby is there, open and allows it, and the user plays in no active
-- game of it.
pub record MaySpectate (s : Social) (lobby user : ℕ) : Type 0 where
  pub row : LobbyRow
  pub found : s.db.lobbies lobby ≡ some row
  pub unfinished : is_finished row.status ≡ false
  pub allowed : s.allow_spectators lobby ≡ true
  pub no_player : player_count s.db lobby user ≡ 0

may_spectate-ok :
    (s : Social) (lobby user : ℕ) (name : Text)
    → may_spectate s lobby user ≡ ok name
    → MaySpectate s lobby user × (s.names user ≡ some name)
unfolding may_spectate name_of
may_spectate-ok s lobby user name h = elim (Option-cases (s.db.lobbies lobby)) [
  | inl f ↦ absurd (ground arith)
  | inr (l, f) ↦ (
    record {
      row = l;
      found = f;
      unfinished = ground arith;
      allowed = ground arith;
      no_player = ground arith;
    },
    ground arith,
  )
]

join_as_spectator-ok :
    (hub : Option Takes) (s s' : Social) (lobby user : ℕ)
    → join_as_spectator hub s lobby user ≡ (s', ok tt)
    → (name : Text) × (may_spectate s lobby user ≡ ok name)
      × (s'.spectators ≡ insert_spectator lobby user s.spectators)
      × (s'.names ≡ s.names)
      × (s'.db ≡ s.db)
unfolding join_as_spectator
join_as_spectator-ok hub s s' lobby user h = by_answer (may_spectate s lobby user) refl
  where
    by_answer :
        (r : Outcome SocialError Text)
        → may_spectate s lobby user ≡ r
        → (name : Text) × (may_spectate s lobby user ≡ ok name)
          × (s'.spectators ≡ insert_spectator lobby user s.spectators)
          × (s'.names ≡ s.names)
          × (s'.db ≡ s.db)
    by_answer (ok name) e =
        let s1 : Social = record s { spectators = insert_spectator lobby user s.spectators } in
        let event = spectator_joined user name in
        let text = name ++ now_spectating in
        let is : announce hub s1 lobby event text join_message ≡ s' =
          ap (λ (r : Social × Outcome SocialError (Unit {0})). r.0)
            (rw (e, join_as_spectator) at h) in
        let (rows, names, db) = announce-fields hub s1 lobby event text join_message in
        (
          name,
          e,
          sym (ap (λ (x : Social). x.spectators) is) ∙ rows,
          sym (ap (λ (x : Social). x.names) is) ∙ names,
          sym (ap (λ (x : Social). x.db) is) ∙ db,
        )
    by_answer (err x) e = absurd (cc (rw (e, join_as_spectator) at h))
    by_answer panic e = absurd (cc (rw (e, join_as_spectator) at h))

-- A spectator was let in by an open lobby that allows spectators and in which the user plays no active
-- game; the user then has one row, and the rows of the tables of the lobbies and games stand.
pub join_as_spectator-Watching :
    (hub : Option Takes) (s s' : Social) (lobby user : ℕ)
    → OneRow s.spectators
    → join_as_spectator hub s lobby user ≡ (s', ok tt)
    → MaySpectate s lobby user
      × (is_spectating lobby user s'.spectators ≡ true)
      × OneRow s'.spectators
      × (s'.db ≡ s.db)
join_as_spectator-Watching hub s s' lobby user one h =
    let (name, may, rows, names, db) = join_as_spectator-ok hub s s' lobby user h in
    (
      (may_spectate-ok s lobby user name may).0,
      rw rows (is_spectating-insert lobby user s.spectators),
      rw rows (insert_spectator-OneRow lobby user s.spectators one),
      db,
    )

leave_as_spectator-ok :
    (hub : Option Takes) (s : Social) (lobby user : ℕ) (name : Text)
    → s.names user ≡ some name
    → is_spectating lobby user s.spectators ≡ true
    → ((leave_as_spectator hub s lobby user).1 ≡ ok tt)
      × ((leave_as_spectator hub s lobby user).0.spectators
          ≡ delete_spectator lobby user s.spectators)
      × ((leave_as_spectator hub s lobby user).0.db ≡ s.db)
unfolding leave_as_spectator name_of
leave_as_spectator-ok hub s lobby user name named there =
    let s1 : Social = record s { spectators = delete_spectator lobby user s.spectators } in
    let (rows, names, db) =
      announce-fields hub s1 lobby (spectator_left user name) (name ++ stopped_spectating)
        leave_message in
    (
      rw (named, leave_as_spectator, name_of, there) refl,
      rw (named, leave_as_spectator, name_of, there) rows,
      rw (named, leave_as_spectator, name_of, there) db,
    )

-- Who begins to watch a lobby and leaves it is answered, and the spectators and the other tables are as they
-- were.
pub leave_as_spectator-join_as_spectator :
    (hub : Option Takes) (s s' : Social) (lobby user : ℕ)
    → is_spectating lobby user s.spectators ≡ false
    → join_as_spectator hub s lobby user ≡ (s', ok tt)
    → let left = leave_as_spectator hub s' lobby user in
      (left.1 ≡ ok tt) × (left.0.spectators ≡ s.spectators) × (left.0.db ≡ s.db)
unfolding insert_spectator
leave_as_spectator-join_as_spectator hub s s' lobby user absent h =
    let (name, may, rows, names, db) = join_as_spectator-ok hub s s' lobby user h in
    let named = ap (λ f. f user) names ∙ (may_spectate-ok s lobby user name may).1 in
    let there : is_spectating lobby user s'.spectators ≡ true =
      rw rows (is_spectating-insert lobby user s.spectators) in
    let (answer, left, same) = leave_as_spectator-ok hub s' lobby user name named there in
    let new : s'.spectators ≡ s.spectators ++ (lobby, user) ∷ [] =
      rows ∙ rw (absent, insert_spectator) refl in
    (
      answer,
      left
          ∙ ap (delete_spectator lobby user) new
          ∙ delete_spectator-append lobby user s.spectators absent,
      same ∙ db,
    )

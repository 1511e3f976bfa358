-- ===== src/Turns/Routing.antt =====
-- routeLive of internal/server/live.go over a history: which events reach a turn, and how it ends.
use cubepilot.Prelude.{
  ◌≡◌, refl, ap, sym, ◌∙◌, Bool, true, false, not, ◌&&◌, ◌||◌, List, [], ◌∷◌, Option, none, some,
  Text, is_empty, text_eq, text_eq_iff, text_eq_sym, insert, text_eq_cases, Table, lookup,
  lookup-insert, lookup-delete, if◌then◌else◌, All, arith, inl, inr, Bool-cases, Option-cases,
  if_elim,
}
use cubepilot.Projection.{Event}
use cubepilot.Turns.{
  LiveTurn, accept_run, Broadcast, project, is_for, route_live, register_live, release_live,
}
use cubepilot.Turns.Histories.{
  Happening, hears, registers, releases, happen, Lasts, is_own, alone, project-kept,
}

-- With its run installed, a turn accepts exactly its own events.
own_run :
    (run id : Text)
    → is_empty run ≡ false
    → (is_empty run || (not (is_empty id) && text_eq run id)) ≡ text_eq id run
unfolding text_eq
own_run [] id n = absurd (ground (arith, n))
own_run (c ∷ run) [] n = refl
own_run (c ∷ run) (d ∷ id) n = text_eq_sym (c ∷ run) (d ∷ id)

is_for_iff :
    (user u run id : Text) (t : LiveTurn)
    → t.user ≡ user
    → t.run_id ≡ run
    → is_empty run ≡ false
    → is_for u id t ≡ (text_eq u user && text_eq id run)
unfolding is_for accept_run
is_for_iff user u run id t p q n =
    simp (p, q) (simp (own_run run id n) (ap (λ z. z && text_eq id run) (text_eq_sym user u)))

-- An event of another session changes nothing of this one.
route_live-elsewhere :
    (key u : Text) (b : Broadcast) (live : Table LiveTurn)
    → text_eq b.session_key key ≡ false
    → lookup key (route_live u b live) ≡ lookup key live
unfolding route_live
route_live-elsewhere key u b live f =
    if_elim (λ z. lookup key z ≡ lookup key live) (not b.decodes || is_empty b.session_key) _ _
      (λ _. refl) (λ _. of_turn (lookup b.session_key live))
  where
    of_turn :
        (o : Option LiveTurn)
        → let z : Table LiveTurn = elim o [
          | none ↦ live
          | some t ↦ if is_for u b.run_id t then insert b.session_key (project b t) live else live
        ] in
          lookup key z ≡ lookup key live
    of_turn none = refl
    of_turn (some t) =
        if_elim (λ z. lookup key z ≡ lookup key live) (is_for u b.run_id t) _ _
          (λ _. lookup-insert b.session_key key (project b t) live ∙ rw f refl) (λ _. refl)

-- An event of this session, with the turn that is registered.
route_live-here :
    (key u : Text) (b : Broadcast) (live : Table LiveTurn) (t : LiveTurn)
    → text_eq b.session_key key ≡ true
    → is_empty key ≡ false
    → lookup key live ≡ some t
    → lookup key (route_live u b live)
      ≡ some (if b.decodes && is_for u b.run_id t then project b t else t)
unfolding route_live
route_live-here key u b live t s n l =
    rw (found, route_live)
      (by_tests b.decodes (is_empty b.session_key) (is_for u b.run_id t) (ap is_empty same ∙ n)
        (lookup-insert b.session_key key (project b t) live ∙ rw s refl))
  where
    same : b.session_key ≡ key
    same = (text_eq_iff b.session_key key).0 s

    found : lookup b.session_key live ≡ some t
    found = ap (λ z. lookup z live) same ∙ l

    by_tests :
        (d e f : Bool)
        → e ≡ false
        → lookup key (insert b.session_key (project b t) live) ≡ some (project b t)
        → lookup key (
            if not d || e
            then live
            else if f
            then insert b.session_key (project b t) live
            else live)
          ≡ some (if d && f then project b t else t)
    by_tests d true f q i = absurd (ground (arith, q))
    by_tests false false f q i = l
    by_tests true false false q i = l
    by_tests true false true q i = i

-- Its own events, and those alone, change a turn.
route_live-own :
    (user key run u : Text) (b : Broadcast) (live : Table LiveTurn) (t : LiveTurn)
    → is_empty key ≡ false
    → is_empty run ≡ false
    → t.user ≡ user
    → t.run_id ≡ run
    → lookup key live ≡ some t
    → lookup key (route_live u b live) ≡ some (if is_own user key run u b then project b t else t)
unfolding is_own
route_live-own user key run u b live t nk nr p q l = elim (Bool-cases (text_eq b.session_key key)) [
  | inr f ↦
      route_live-elsewhere key u b live f
      ∙ l
      ∙ ap (λ z. some (if z then project b t else t))
          (sym (
            foreign b.decodes (text_eq b.session_key key) (text_eq u user) (text_eq b.run_id run)
              f))
  | inl s ↦
      route_live-here key u b live t s nk l
      ∙ ap (λ z. some (if z then project b t else t))
          (ap (λ z. b.decodes && z) (is_for_iff user u run b.run_id t p q nr)
            ∙ own b.decodes (text_eq b.session_key key) (text_eq u user) (text_eq b.run_id run) s)
]
  where
    foreign : (d e v r : Bool) → e ≡ false → (d && e && v && r) ≡ false
    foreign d e v r h = ground (arith, h)

    own : (d e v r : Bool) → e ≡ true → (d && (v && r)) ≡ (d && e && v && r)
    own d e v r h = ground (arith, h)

project_if-kept :
    (c : Bool) (b : Broadcast) (t : LiveTurn)
    → ((if c then project b t else t).user ≡ t.user)
      × ((if c then project b t else t).run_id ≡ t.run_id)
project_if-kept true b t = project-kept b t
project_if-kept false b t = (refl, refl)

register_live-elsewhere :
    (key u k id : Text) (sink : List Event → Event → Option Text) (live : Table LiveTurn)
    → text_eq k key ≡ false
    → lookup key (register_live u k sink id live) ≡ lookup key live
unfolding register_live
register_live-elsewhere key u k id sink live f = lookup-insert k key _ live ∙ rw f refl

release_live-elsewhere :
    (user key u k : Text) (live : Table LiveTurn) (t : LiveTurn)
    → (text_eq k key && text_eq u user) ≡ false
    → t.user ≡ user
    → lookup key live ≡ some t
    → lookup key (release_live u k live) ≡ some t
unfolding release_live
release_live-elsewhere user key u k live t f p l = elim (Option-cases (lookup k live)) [
  | inl o ↦ rw (o, release_live) l
  | inr (cur, o) ↦
      rw (o, release_live)
        (if_elim (λ z. lookup key z ≡ some t) (text_eq cur.user u) _ _
          (λ s. lookup-delete k key live ∙ by_key cur o s) (λ _. l))
]
  where
    by_key :
        (cur : LiveTurn)
        → lookup k live ≡ some cur
        → text_eq cur.user u ≡ true
        → (if text_eq k key then none else lookup key live) ≡ some t
    by_key cur o s = elim (text_eq_cases k key) [
      | inr (_, n) ↦ rw n l
      | inl (e, y) ↦
          let same : some cur ≡ some t = sym o ∙ ap (λ z. lookup z live) e ∙ l in
          let turns : cur ≡ t = cc in
          let owner : cur.user ≡ t.user = ap (λ (z : LiveTurn). z.user) turns in
          absurd (ground (arith, f, y, s, text_eq_iff cur.user u, text_eq_iff u user, owner, p))
    ]

-- However the connections' events come, interleaved with turns of other sessions: a turn whose run is
-- known is at any point what its own events alone have made of it, in their order. Those are the events
-- that decode, on a connection of its user, of its session and of its run. So no other run, session or
-- user adds to what it shows, moves what it projects or ends it.
pub happen-alone :
    (user key run : Text) (hs : List Happening) (live : Table LiveTurn) (t : LiveTurn)
    → is_empty key ≡ false
    → is_empty run ≡ false
    → t.user ≡ user
    → t.run_id ≡ run
    → lookup key live ≡ some t
    → All (Lasts user key) hs
    → lookup key (happen hs live) ≡ some (alone user key run hs t)
unfolding happen alone
happen-alone user key run [] live t nk nr p q l a = l
happen-alone user key run (hears u b ∷ hs) live t nk nr p q l a =
    let c = is_own user key run u b in
    let k = project_if-kept c b t in
    happen-alone user key run hs (route_live u b live) (if c then project b t else t) nk nr
      (k.0 ∙ p) (k.1 ∙ q) (route_live-own user key run u b live t nk nr p q l) a.1
happen-alone user key run (registers u k sink id ∷ hs) live t nk nr p q l a =
    happen-alone user key run hs (register_live u k sink id live) t nk nr p q
      (register_live-elsewhere key u k id sink live a.0 ∙ l) a.1
happen-alone user key run (releases u k ∷ hs) live t nk nr p q l a =
    happen-alone user key run hs (release_live u k live) t nk nr p q
      (release_live-elsewhere user key u k live t a.0 p l) a.1

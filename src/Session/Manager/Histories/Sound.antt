-- ===== src/Session/Manager/Histories/Sound.antt =====
-- internal/session/manager.go: what holds between any two sections under a mutex, whatever calls overlap.
use streamcore_server.Base.{
  Bool-cases, Distinct, List, Map, Option-cases, Text, [], arith, delete-Distinct, get_elem?, inl,
  inr, insert, insert-Distinct, leb, lookup, lookup-delete, lookup-insert, ltb, none, refl, size,
  size-delete-le, size-insert, some, subst, suc, text_eq_iff, zero, ℕ, ◌&&◌, ◌+◌, ◌<◌, ◌∙◌, ◌∷◌,
  ◌≡◌, ◌≢◌, ◌≤◌,
}
use streamcore_server.Session.State.{Session}
use streamcore_server.Session.State
use streamcore_server.Session.Manager.{
  Manager, close_all, Config, new_manager, get_or_create, remove, write, without, forget,
  close_session,
}
use streamcore_server.Session.Manager.Invariant.{lookup-without}
use streamcore_server.Session.Manager.Histories.{
  Change, attach, detach, hang_up, evict, shut, retag, identify, converse, both, Issue, World,
  without_issue, mint, enter_index, take_token, Step, mints, indexes, takes, creates, removes,
  expires, closes_all, changes, new_world, Reach, here, next,
}
use streamcore_server.Session.State.Eviction.{close_peer-Keeps, close-Keeps, evict_peers-Keeps}

Change-id : {s t : Session} → Change s t → t.id ≡ s.id
unfolding State.add_peer State.remove_peer State.rotate_etag State.set_resource_id
    State.conversation
Change-id (attach s name created) = ground arith
Change-id (detach s name now) = refl
Change-id (hang_up s a now) = (close_peer-Keeps now a s).same_id
Change-id (evict s now) = (evict_peers-Keeps now s).same_id
Change-id (shut s now) = (close-Keeps now s).same_id
Change-id (retag s tag) = refl
Change-id (identify s r) = ground arith
Change-id (converse cfg client s) = ground arith
Change-id (both c d) = Change-id d ∙ Change-id c

-- What holds of the maps between any two sections.
pub record Sound (m : Manager) (minted : Map ℕ) : Type 0 where
  pub distinct : Distinct m.sessions
  pub allocated : (id : Text) (a : ℕ) → lookup id m.sessions ≡ some a → a < m.next
  pub named : (id : Text) (a : ℕ) → lookup id m.sessions ≡ some a → (m.heap a).id ≡ id
  pub meant : (t : Text) (a : ℕ) → lookup t m.resumable ≡ some a → lookup t minted ≡ some a
  pub no_empty : lookup [] m.resumable ≡ none
  pub capped : 0 < m.cfg.max_sessions → size m.sessions ≤ m.cfg.max_sessions

-- The issues on their way are of minted tokens.
abbrev Minted : Map ℕ → List Issue → Type 0
Minted minted [] = Unit {0}
Minted minted (x ∷ xs) = (x.token ≢ []) × (lookup x.token minted ≡ some x.place) × Minted minted xs

Minted-more :
    (minted : Map ℕ) (t : Text) (a : ℕ) (xs : List Issue)
    → lookup t minted ≡ none
    → Minted minted xs
    → Minted (insert t a minted) xs
Minted-more minted t a [] f h = tt
Minted-more minted t a (x ∷ xs) f (n, e, h) = (
  n,
  ground (arith, lookup-insert t x.token a minted, f, e, text_eq_iff t x.token),
  Minted-more minted t a xs f h,
)

Minted-without_issue :
    (minted : Map ℕ) (i : ℕ) (xs : List Issue)
    → Minted minted xs
    → Minted minted (without_issue i xs)
Minted-without_issue minted i [] h = tt
Minted-without_issue minted zero (x ∷ xs) (n, e, h) = h
Minted-without_issue minted (suc i) (x ∷ xs) (n, e, h) = (n, e, Minted-without_issue minted i xs h)

Minted-found :
    (minted : Map ℕ) (i : ℕ) (xs : List Issue) (x : Issue)
    → get_elem? xs i ≡ some x
    → Minted minted xs
    → (x.token ≢ []) × (lookup x.token minted ≡ some x.place)
Minted-found minted i [] x e h = absurd (cc)
Minted-found minted zero (y ∷ xs) x e (n, f, h) =
    let p : y ≡ x = ground (arith, e) in
    subst (λ (z : Issue). (z.token ≢ []) × (lookup z.token minted ≡ some z.place)) p (n, f)
Minted-found minted (suc i) (y ∷ xs) x e (n, f, h) = Minted-found minted i xs x e h

write-Sound :
    (m : Manager) (minted : Map ℕ) (b : ℕ) (s : Session)
    → s.id ≡ (m.heap b).id
    → Sound m minted
    → Sound (record m { heap = write m.heap b s }) minted
write-Sound m minted b s same v = record {
  distinct = v.distinct;
  allocated = v.allocated;
  named = λ id a e. ground (arith, v.named id a e);
  meant = v.meant;
  no_empty = v.no_empty;
  capped = v.capped;
}

mint-Sound :
    (a : ℕ) (t : Text) (w : World)
    → lookup t w.minted ≡ none
    → Sound w.manager w.minted
    → Sound (mint a t w).manager (mint a t w).minted
unfolding mint
mint-Sound a t w f v = record {
  distinct = v.distinct;
  allocated = v.allocated;
  named = λ id b e. ground (arith, v.named id b e);
  meant = λ u b e. ground (arith, v.meant u b e, f, lookup-insert t u a w.minted, text_eq_iff t u);
  no_empty = v.no_empty;
  capped = v.capped;
}

enter_index-Sound :
    (x : Issue) (m : Manager) (minted : Map ℕ)
    → x.token ≢ []
    → lookup x.token minted ≡ some x.place
    → Sound m minted
    → Sound (enter_index x m) minted
unfolding enter_index
enter_index-Sound x m minted n e v =
    let left = λ (u : Text). lookup-without x.old u m.resumable v.no_empty in
    let found = λ (u : Text). lookup-insert x.token u x.place (without x.old m.resumable) in
    record {
      distinct = v.distinct;
      allocated = v.allocated;
      named = v.named;
      meant = λ u b f. ground (arith, found u, left u, v.meant u b, e, text_eq_iff x.token u);
      no_empty = ground (arith, found [], left [], v.no_empty, text_eq_iff x.token []);
      capped = v.capped;
    }

take_token-Sound :
    (t : Text) (m : Manager) (minted : Map ℕ) → Sound m minted → Sound (take_token t m) minted
unfolding take_token
take_token-Sound t m minted v = record {
  distinct = v.distinct;
  allocated = v.allocated;
  named = v.named;
  meant = λ u b f. ground (arith, v.meant u b, lookup-delete t u m.resumable);
  no_empty = ground (arith, v.no_empty, lookup-delete t [] m.resumable);
  capped = v.capped;
}

forget-Sound :
    (id : Text) (a : ℕ) (m : Manager) (minted : Map ℕ)
    → Sound m minted
    → Sound (forget id a m) minted
unfolding forget
forget-Sound id a m minted v =
    let token = (m.heap a).resume_token in
    let index = λ (t : Text). lookup-without token t m.resumable v.no_empty in
    record {
      distinct = delete-Distinct id m.sessions v.distinct;
      allocated = λ j b f. ground (arith, v.allocated j b, lookup-delete id j m.sessions);
      named = λ j b f. ground (arith, v.named j b, lookup-delete id j m.sessions);
      meant = λ t b f. ground (arith, v.meant t b, index t);
      no_empty = ground (arith, index [], v.no_empty);
      capped = λ h. omega (arith, v.capped h, size-delete-le id m.sessions);
    }

remove-Sound :
    (m : Manager) (id : Text) (now : ℕ) (minted : Map ℕ)
    → Sound m minted
    → Sound (remove m id now) minted
unfolding remove close_session
remove-Sound m id now minted v = elim (Option-cases (lookup id m.sessions)) [
  | inl e ↦ rw (e, remove) v
  | inr (a, e) ↦
      rw (e, remove)
        (forget-Sound id a (close_session now a m) minted (
          write-Sound m minted a (State.close now (m.heap a)) (close-Keeps now (m.heap a)).same_id
            v))
]

create-Sound :
    (m : Manager) (minted : Map ℕ) (id : Text) (s : Session)
    → s.id ≡ id
    → (0 < m.cfg.max_sessions → size m.sessions < m.cfg.max_sessions)
    → Sound m minted
    → Sound
        (record m {
          heap = write m.heap m.next s;
          next = m.next + 1;
          sessions = insert id m.next m.sessions;
        })
        minted
create-Sound m minted id s n room v =
    let found = λ (j : Text). lookup-insert id j m.next m.sessions in
    record {
      distinct = insert-Distinct id m.next m.sessions v.distinct;
      allocated = λ j b f. ground (arith, v.allocated j b, found j);
      named = λ j b f. ground (arith, v.named j b, v.allocated j b, found j, text_eq_iff id j);
      meant = v.meant;
      no_empty = v.no_empty;
      capped = λ h. ground (arith, room h, size-insert id m.next m.sessions);
    }

get_or_create-Sound :
    (m : Manager) (id : Text) (now : ℕ) (minted : Map ℕ)
    → Sound m minted
    → Sound (get_or_create m id now).0 minted
unfolding get_or_create
get_or_create-Sound m id now minted v = elim (Option-cases (lookup id m.sessions)) [
  | inr (a, e) ↦ rw (e, get_or_create) v
  | inl e ↦
      let full = ltb 0 m.cfg.max_sessions && leb m.cfg.max_sessions (size m.sessions) in
      elim (Bool-cases full) [
        | inl yes' ↦ rw (e, get_or_create) (rw yes' v)
        | inr no' ↦
            rw (e, get_or_create)
              (rw no'
                (create-Sound m minted id (State.new_session id now) named (λ h. ground arith) v))
      ]
]
  where
    named : (State.new_session id now).id ≡ id
    named = unfold State.new_session in refl

close_all-Sound : (m : Manager) (now : ℕ) (minted : Map ℕ) → Sound (close_all m now) minted
unfolding close_all lookup size
close_all-Sound m now minted = record {
  distinct = tt;
  allocated = λ id a e. ground arith;
  named = λ id a e. ground arith;
  meant = λ t a e. ground arith;
  no_empty = refl;
  capped = λ h. omega arith;
}

Step-Sound :
    {v w : World}
    → Step v w
    → Sound v.manager v.minted × Minted v.minted v.issues
    → Sound w.manager w.minted × Minted w.minted w.issues
unfolding mint
Step-Sound (mints w a t n f) (v, h) = (
  mint-Sound a t w f v,
  (
    n,
    ground (arith, lookup-insert t t a w.minted, text_eq_iff t t),
    Minted-more w.minted t a w.issues f h,
  ),
)
Step-Sound (indexes w i x e) (v, h) =
    let (n, f) = Minted-found w.minted i w.issues x e h in
    (enter_index-Sound x w.manager w.minted n f v, Minted-without_issue w.minted i w.issues h)
Step-Sound (takes w t) (v, h) = (take_token-Sound t w.manager w.minted v, h)
Step-Sound (creates w id now) (v, h) = (get_or_create-Sound w.manager id now w.minted v, h)
Step-Sound (removes w id now) (v, h) = (remove-Sound w.manager id now w.minted v, h)
Step-Sound (expires w id a e) (v, h) = (forget-Sound id a w.manager w.minted v, h)
Step-Sound (closes_all w now) (v, h) = (close_all-Sound w.manager now w.minted, h)
Step-Sound (changes w a s c) (v, h) = (write-Sound w.manager w.minted a s (Change-id c) v, h)

Reach-kept :
    (c : Config) {w : World} → Reach c w → Sound w.manager w.minted × Minted w.minted w.issues
unfolding new_world new_manager lookup size
Reach-kept c here = (
  record {
    distinct = tt;
    allocated = λ id a e. ground arith;
    named = λ id a e. ground arith;
    meant = λ t a e. ground arith;
    no_empty = refl;
    capped = λ h. omega arith;
  },
  tt,
)
Reach-kept c (next r s) = Step-Sound s (Reach-kept c r)

-- However the sections of the calls interleave, from an empty server on: no name has two sessions, each session of the map is
-- allocated and stands under its own name, the cap on their number holds if one is set, the empty text is no token, and
-- a token of the index leads to the session that it was minted for. Minted tokens are taken to be new and not empty.
pub Reach-Sound : (c : Config) {w : World} → Reach c w → Sound w.manager w.minted
Reach-Sound c r = (Reach-kept c r).0

-- ===== src/Signaling/Handler/Restart.antt =====
-- internal/signaling/handler.go: PATCHes and DELETEs of a session, one after another.
use streamcore_server.Base.{
  Bool-cases, Option-cases, Text, [], ap, arith, codes, false, if-either, if◌then◌else◌, inl, inr,
  lookup, lookup-delete, none, not, refl, some, sym, take, text_eq, text_eq_self, text_eq_iff, true,
  ℕ, ◌∙◌, ◌≡◌, ◌≢◌, ◌⊎◌,
}
use mathlib.Core.Option.{some-injective}
use streamcore_server.Session.Manager.{Manager, write}
use streamcore_server.Session.Manager
use streamcore_server.Session.State
use streamcore_server.Session.State.{quoted}
use streamcore_server.Signaling.Http.{
  Request, Response, Outcomes, ice_fragment_content_type, http_error,
}
use streamcore_server.Signaling.Patch.{
  restarted, restart_peer, patch_session, handle_whip_patch, handle_whip_delete, matches,
  max_ice_fragment_bytes,
}
use streamcore_server.Ice.Exchange.{
  RestartError, no_ice_credentials, negotiation_failed, peer_closed, no_remote_description,
  restart_ice,
}
use streamcore_server.Strings.{has_prefix}

restarted_lem :
    (m : Manager) (o : Outcomes) (a : ℕ) (x : Text ⊎ RestartError)
    → ((restarted m o a x).1.status ≡ 200
        × (restarted m o a x).0
          ≡ record m { heap = write m.heap a (State.rotate_etag (m.heap a) o.new_tag) })
      ⊎ ((restarted m o a x).1.status ≢ 200 × (restarted m o a x).0 ≡ m)
unfolding restarted
restarted_lem m o a (inl f) = inl (refl, refl)
restarted_lem m o a (inr no_ice_credentials) = inr (omega arith, refl)
restarted_lem m o a (inr negotiation_failed) = inr (omega arith, refl)
restarted_lem m o a (inr peer_closed) = inr (omega arith, refl)
restarted_lem m o a (inr no_remote_description) = inr (omega arith, refl)

-- What a PATCH does: nothing, unless it is answered by 200.
abbrev pub Patched : Manager → Outcomes → Request → Text → Manager × Response → Type 0
Patched m o r id (q, w) =
    ((w.status ≢ 200) × (q ≡ m))
    ⊎ ((w.status ≡ 200)
        × ((a : ℕ) × (Manager.get m id ≡ some a)
            × (matches r.if_match (m.heap a).etag ≡ true)
            × (q ≡ record m { heap = write m.heap a (State.rotate_etag (m.heap a) o.new_tag) })))

refused :
    (m : Manager) (o : Outcomes) (r : Request) (id : Text) (w : Response)
    → w.status ≢ 200
    → Patched m o r id (m, w)
refused m o r id w h = inl (h, refl)

patch_session-Patched :
    (m : Manager) (o : Outcomes) (r : Request) (id : Text) (a : ℕ)
    → Manager.get m id ≡ some a
    → Patched m o r id (patch_session m o r id a)
unfolding patch_session restart_peer
patch_session-Patched m o r id a e = elim (Bool-cases (matches r.if_match (m.heap a).etag)) [
  | inr h ↦ rw h (inl (omega arith, refl))
  | inl h ↦ rw h (elim (Option-cases (State.get_peer (m.heap a) id)) [
    | inl f ↦ rw f (inl (omega arith, refl))
    | inr (p, f) ↦ rw f (elim (Option-cases r.body) [
      | inl g ↦ rw g (inl (omega arith, refl))
      | inr (b, g) ↦
          rw g
            (elim (restarted_lem m o a (
              restart_ice o.connection ((m.heap a).arena p).is_closed
                (take max_ice_fragment_bytes b))) [
                  | inl (x, y) ↦ inr (x, (a, e, h, y))
                  | inr (x, y) ↦ inl (x, y)
                ])
    ])
  ])
]

-- A PATCH that is not answered by 200 changes nothing. One that is names a session that is there
-- and fits its ETag; then that session has the new ETag, and nothing else changes.
pub handle_whip_patch_lem :
    (m : Manager) (o : Outcomes) (r : Request) (id : Text)
    → Patched m o r id (handle_whip_patch m o r id)
unfolding handle_whip_patch
handle_whip_patch_lem m o r id =
    if-either (Patched m o r id) (not (has_prefix r.content_type ice_fragment_content_type))
      (inl (omega arith, refl))
      (elim (Option-cases (Manager.get m id)) [
        | inl e ↦ rw e (inl (omega arith, refl))
        | inr (a, e) ↦ rw e (rw e at (patch_session-Patched m o r id a e))
      ])

-- The state after a restart of the session at `a`.
abbrev retagged : Manager → Outcomes → ℕ → Manager
retagged m o a = record m { heap = write m.heap a (State.rotate_etag (m.heap a) o.new_tag) }

patched_to :
    (m : Manager) (o : Outcomes) (r : Request) (id : Text) (a : ℕ)
    → Manager.get m id ≡ some a
    → (handle_whip_patch m o r id).1.status ≡ 200
    → (handle_whip_patch m o r id).0 ≡ retagged m o a
patched_to m o r id a e ok = elim (handle_whip_patch_lem m o r id) [
  | inl (bad, _) ↦ absurd (bad ok)
  | inr (_, (b, f, _, q)) ↦ q ∙ ap (retagged m o) (some-injective _ _ (sym f ∙ e))
]

stale_refused :
    (m : Manager) (o later : Outcomes) (again : Request) (id : Text) (a : ℕ)
    → Manager.get m id ≡ some a
    → has_prefix again.content_type ice_fragment_content_type ≡ true
    → matches again.if_match (quoted o.new_tag) ≡ false
    → ((handle_whip_patch (retagged m o a) later again id).1.status ≡ 412)
      × ((handle_whip_patch (retagged m o a) later again id).0 ≡ retagged m o a)
unfolding handle_whip_patch patch_session State.rotate_etag Manager.get
stale_refused m o later again id a e ct old = ground arith

-- A PATCH that comes after another has restarted the session, and still carries the ETag of the generation that it ended, is refused
-- with 412 and changes nothing. Two PATCHes that overlap are not covered. The old ETag is not empty, not `*` and not
-- the new one.
pub handle_whip_patch_once :
    (m : Manager) (o later : Outcomes) (r again : Request) (id : Text) (a : ℕ)
    → Manager.get m id ≡ some a
    → (handle_whip_patch m o r id).1.status ≡ 200
    → has_prefix again.content_type ice_fragment_content_type ≡ true
    → again.if_match ≡ (m.heap a).etag
    → matches (m.heap a).etag (quoted o.new_tag) ≡ false
    → let q = (handle_whip_patch m o r id).0 in
      ((handle_whip_patch q later again id).1.status ≡ 412)
      × ((handle_whip_patch q later again id).0 ≡ q)
handle_whip_patch_once m o later r again id a e ok ct same old =
    rw (patched_to m o r id a e ok)
      (stale_refused m o later again id a e ct (ap (λ t. matches t (quoted o.new_tag)) same ∙ old))

lookup-remove :
    (m : Manager) (id other : Text) (now : ℕ)
    → lookup other (Manager.remove m id now).sessions
      ≡ (if text_eq id other then none else lookup other m.sessions)
unfolding Manager.remove Manager.forget Manager.close_session
lookup-remove m id other now = elim (Option-cases (lookup id m.sessions)) [
  | inl e ↦ ground (arith, text_eq_iff id other)
  | inr (a, e) ↦ rw (e, Manager.remove) (lookup-delete id other m.sessions)
]

remove_missing :
    (m : Manager) (id : Text) (now : ℕ) → lookup id m.sessions ≡ none → Manager.remove m id now ≡ m
unfolding Manager.remove
remove_missing m id now e = rw (e, Manager.remove) refl

patch_missing :
    (m : Manager) (o : Outcomes) (r : Request) (id : Text)
    → has_prefix r.content_type ice_fragment_content_type ≡ true
    → lookup id m.sessions ≡ none
    → handle_whip_patch m o r id ≡ (m, http_error [] 404 (codes "unknown session"))
unfolding handle_whip_patch Manager.get
patch_missing m o r id ct e = ground arith

-- After a DELETE the session is gone: another DELETE changes nothing, and a PATCH of the right type
-- gets a 404. No other session's name is affected. It holds whether there was a session or not.
pub handle_whip_delete_lem :
    (m : Manager) (o later : Outcomes) (r : Request) (id : Text)
    → has_prefix r.content_type ice_fragment_content_type ≡ true
    → let q = (handle_whip_delete m o id).0 in
      ((handle_whip_delete q later id).0 ≡ q)
      × (handle_whip_patch q later r id ≡ (q, http_error [] 404 (codes "unknown session")))
      × ((other : Text) → other ≢ id → Manager.get q other ≡ Manager.get m other)
unfolding handle_whip_delete Manager.get
handle_whip_delete_lem m o later r id ct =
    let gone : lookup id (Manager.remove m id o.now).sessions ≡ none =
      ground (arith, lookup-remove m id id o.now, text_eq_self id) in
    (
      remove_missing (Manager.remove m id o.now) id later.now gone,
      patch_missing (Manager.remove m id o.now) later r id ct gone,
      λ other ne. ground (arith, lookup-remove m id other o.now, text_eq_iff id other),
    )

-- ===== src/Signaling/Handler/Resume.antt =====
-- A POST that carries a resume token.
use streamcore_server.Base.{
  Option, Text, [], ap, arith, codes, insert, is_empty, lookup, refl, size, some, text_eq, true, ℕ,
  ◌||◌, ◌∙◌, ◌∷◌, ◌≡◌, ◌≢◌,
}
use streamcore_server.Session.Manager.{Manager, write, issue_resume_token}
use streamcore_server.Session.State
use streamcore_server.Session.State.{quoted}
use streamcore_server.Session.State.Eviction.{evict_peers_lem}
use streamcore_server.Session.Manager.Tokens.{resume_found, resumed}
use streamcore_server.Signaling.Http.{Request, Outcomes, resolve_resource_id}
use streamcore_server.Signaling.Post.{
  choose_session, answer_offer, open_session, handle_whip_post, created_headers, session_url,
  resume_status_resumed, created, choose_from, open_from, attach_offer, finish_offer,
}
use streamcore_server.Strings.{has_prefix}

-- The request is one that the server can answer: an SDP offer that peer.New and HandleOffer take.
pub record IsAnswered (o : Outcomes) (r : Request) (sdp : Text) : Type 0 where
  pub accepted :
      (is_empty r.content_type || has_prefix r.content_type (codes "application/sdp")) ≡ true
  pub is_created : o.is_created ≡ true
  pub offer : Text
  pub read : r.body ≡ some offer
  pub given : offer ≢ []
  pub answers : o.answer offer ≡ some sdp

-- The session between the choice and the answer.
abbrev retagged : Manager → Outcomes → Text → ℕ → Manager
retagged m o t a =
    let q = resumed m t a o.now in
    record q { heap = write q.heap a (State.rotate_etag (q.heap a) o.new_tag) }

choose_session-resumed :
    (m : Manager) (o : Outcomes) (t : Text) (a : ℕ)
    → t ≢ []
    → lookup t m.resumable ≡ some a
    → choose_session m o t ≡ (retagged m o t a, resume_status_resumed, some a)
unfolding choose_session choose_from
choose_session-resumed m o t a given e = ap (choose_from o t) (resume_found m t a o.now given e)

-- The state with a peer attached for the answer.
abbrev attached : Manager → Text → ℕ → Manager
attached m rid a =
    let s = State.set_resource_id (m.heap a) rid in
    record m { heap = write m.heap a (State.add_peer s s.id true).0 }

answer_offer_lem :
    (m : Manager) (o : Outcomes) (rid offer status sdp : Text) (a : ℕ)
    → o.is_created ≡ true
    → o.answer offer ≡ some sdp
    → answer_offer m o rid offer status a ≡ created (attached m rid a) o status a sdp
unfolding answer_offer attach_offer State.add_peer finish_offer
answer_offer_lem m o rid offer status sdp a e f =
    let s = State.set_resource_id (m.heap a) rid in
    ap (λ b. attach_offer m o offer status a (State.add_peer s s.id b)) e
    ∙ ap (finish_offer (attached m rid a) o status a s.next_peer) f

-- Issuing a token changes no more of a session than its token.
issue-same :
    (m : Manager) (a : ℕ) (token : Option Text)
    → let q = (issue_resume_token m a token).0 in
      ((q.heap a).conv ≡ (m.heap a).conv)
      × ((q.heap a).peers ≡ (m.heap a).peers)
      × (q.sessions ≡ m.sessions)
unfolding issue_resume_token State.rotate_resume_token
issue-same m a token = ground arith

headers_lem :
    (id etag status token : Text)
    → let h = created_headers id etag status token in
      (lookup (codes "X-Resume-Status") h ≡ some status)
      × (lookup (codes "Location") h ≡ some (session_url id))
      × (lookup (codes "ETag") h ≡ some etag)
unfolding created_headers lookup insert text_eq
headers_lem id etag status [] = (refl, refl, refl)
headers_lem id etag status (c ∷ cs) = (refl, refl, refl)

attached_lem :
    (m : Manager) (rid : Text) (a : ℕ)
    → (m.heap a).peers ≡ []
    → let q = attached m rid a in
      ((q.heap a).id ≡ (m.heap a).id)
      × ((q.heap a).etag ≡ (m.heap a).etag)
      × ((q.heap a).conv ≡ (m.heap a).conv)
      × (size (q.heap a).peers ≡ 1)
unfolding State.add_peer State.set_resource_id insert size
attached_lem m rid a e = ground arith

post-open_session :
    (m : Manager) (o : Outcomes) (r : Request) (sdp : Text)
    → (v : IsAnswered o r sdp) → handle_whip_post m o r ≡ open_session m o r v.offer
unfolding handle_whip_post
post-open_session m o r sdp v = ground (arith, v.accepted, v.read, v.given)

open_session-resumed :
    (m : Manager) (o : Outcomes) (r : Request) (offer : Text) (a : ℕ)
    → r.resume ≢ []
    → lookup r.resume m.resumable ≡ some a
    → open_session m o r offer
      ≡ answer_offer
          (retagged m o r.resume a)
          o
          (resolve_resource_id r)
          offer
          resume_status_resumed
          a
unfolding open_session open_from
open_session-resumed m o r offer a given e =
    ap (open_from o r offer) (choose_session-resumed m o r.resume a given e)

retagged_lem :
    (m : Manager) (o : Outcomes) (t : Text) (a : ℕ)
    → let q = retagged m o t a in
      ((q.heap a).id ≡ (m.heap a).id)
      × ((q.heap a).etag ≡ quoted o.new_tag)
      × ((q.heap a).conv ≡ (m.heap a).conv)
      × ((q.heap a).peers ≡ [])
unfolding State.rotate_etag
retagged_lem m o t a =
    let (gone, _, k) = evict_peers_lem o.now (m.heap a) in
    ground (arith, gone, k.same_id, k.same_conv)

-- A resume token of the index, with an offer that is answered: the client gets a 201 with the
-- answer and is told that it resumed. The Location is that of the session before, the ETag is new;
-- the session has the same conversation and one peer, and the server's sessions are the same, so
-- that the cap on sessions does not count.
pub post_resumes :
    (m : Manager) (o : Outcomes) (r : Request) (sdp : Text) (a : ℕ)
    → IsAnswered o r sdp
    → r.resume ≢ []
    → lookup r.resume m.resumable ≡ some a
    → let (q, w) = handle_whip_post m o r in
      (w.status ≡ 201)
      × (w.body ≡ sdp)
      × (lookup (codes "X-Resume-Status") w.headers ≡ some resume_status_resumed)
      × (lookup (codes "Location") w.headers ≡ some (session_url (m.heap a).id))
      × (lookup (codes "ETag") w.headers ≡ some (quoted o.new_tag))
      × ((q.heap a).conv ≡ (m.heap a).conv)
      × (State.peer_count (q.heap a) ≡ 1)
      × (q.sessions ≡ m.sessions)
unfolding State.peer_count created
post_resumes m o r sdp a v given e =
    let rid = resolve_resource_id r in
    let q = retagged m o r.resume a in
    let n = attached q rid a in
    let (i, t, c, p) = retagged_lem m o r.resume a in
    let (i', t', c', one) = attached_lem q rid a p in
    let (kc, kp, ks) = issue-same n a o.token in
    let token = (issue_resume_token n a o.token).1 in
    let (hs, hl, he) = headers_lem (n.heap a).id (n.heap a).etag resume_status_resumed token in
    rw
      (post-open_session m o r sdp v
        ∙ (open_session-resumed m o r v.offer a given e
            ∙ answer_offer_lem q o rid v.offer resume_status_resumed sdp a v.is_created v.answers))
      (
        refl,
        refl,
        hs,
        hl ∙ ap (λ x. some (session_url x)) (i' ∙ i),
        he ∙ ap some (t' ∙ t),
        kc ∙ (c' ∙ c),
        ap size kp ∙ one,
        ks,
      )

-- ===== src/Session/State/Eviction.antt =====
-- internal/session/session.go: what closing the peers of a session leaves.
use streamcore_server.Base.{List, [], arith, delete, refl, true, ℕ, ◌∙◌, ◌∷◌, ◌≡◌}
use streamcore_server.Session.Connection.{begin_close}
use streamcore_server.Session.State.{
  Session, close_peer, close_peers, evict_peers, remove_peer, close, addresses,
}

-- The durable half of a session.
pub record Keeps (s t : Session) : Type 0 where
  pub same_id : t.id ≡ s.id
  pub same_token : t.resume_token ≡ s.resume_token
  pub same_etag : t.etag ≡ s.etag
  pub same_conv : t.conv ≡ s.conv
  pub same_resource : t.resource_id ≡ s.resource_id

pub Keeps-trans : {s t u : Session} → Keeps s t → Keeps t u → Keeps s u
Keeps-trans f g = record {
  same_id = g.same_id ∙ f.same_id;
  same_token = g.same_token ∙ f.same_token;
  same_etag = g.same_etag ∙ f.same_etag;
  same_conv = g.same_conv ∙ f.same_conv;
  same_resource = g.same_resource ∙ f.same_resource;
}

pub close_peer-Keeps : (now a : ℕ) (s : Session) → Keeps s (close_peer now a s)
unfolding close_peer remove_peer begin_close
close_peer-Keeps now a s = ground arith

close_peers-Keeps : (now : ℕ) (as' : List ℕ) (s : Session) → Keeps s (close_peers now as' s)
unfolding close_peers
close_peers-Keeps now [] s = ground arith
close_peers-Keeps now (a ∷ as') s =
    Keeps-trans (close_peer-Keeps now a s) (close_peers-Keeps now as' (close_peer now a s))

pub evict_peers-Keeps : (now : ℕ) (s : Session) → Keeps s (evict_peers now s)
unfolding evict_peers
evict_peers-Keeps now s =
    Keeps-trans (ground arith) (close_peers-Keeps now (addresses s.peers) (record s { peers = [] }))

pub close-Keeps : (now : ℕ) (s : Session) → Keeps s (close now s)
unfolding close
close-Keeps now s =
    Keeps-trans (ground arith) (evict_peers-Keeps now (record s { is_cancelled = true }))

-- With no peer attached, closing one attaches none.
close_peer-peers : (now a : ℕ) (s : Session) → s.peers ≡ [] → (close_peer now a s).peers ≡ []
unfolding close_peer remove_peer begin_close delete
close_peer-peers now a s e = ground arith

close_peers-peers :
    (now : ℕ) (as' : List ℕ) (s : Session) → s.peers ≡ [] → (close_peers now as' s).peers ≡ []
unfolding close_peers
close_peers-peers now [] s e = e
close_peers-peers now (a ∷ as') s e =
    close_peers-peers now as' (close_peer now a s) (close_peer-peers now a s e)

abbrev pub IsClosedAt : Session → ℕ → Type 0
IsClosedAt s a = (s.arena a).is_closed ≡ true

close_peer-IsClosedAt : (now a : ℕ) (s : Session) → IsClosedAt (close_peer now a s) a
unfolding close_peer remove_peer begin_close
close_peer-IsClosedAt now a s = ground arith

close_peer-still : (now a b : ℕ) (s : Session) → IsClosedAt s b → IsClosedAt (close_peer now a s) b
unfolding close_peer remove_peer begin_close
close_peer-still now a b s h = ground arith

close_peers-still :
    (now : ℕ) (as' : List ℕ) (b : ℕ) (s : Session)
    → IsClosedAt s b
    → IsClosedAt (close_peers now as' s) b
unfolding close_peers
close_peers-still now [] b s h = h
close_peers-still now (a ∷ as') b s h =
    close_peers-still now as' b (close_peer now a s) (close_peer-still now a b s h)

abbrev pub All {ℓ κ} : {A : Type ℓ} → (A → Type κ) → List A → Type κ
All P [] = Unit
All P (x ∷ xs) = P x × All P xs

All-map {ℓ κ} :
    {A : Type ℓ} (P Q : A → Type κ) (xs : List A) → ((x : A) → P x → Q x) → All P xs → All Q xs
All-map P Q [] f h = tt
All-map P Q (x ∷ xs) f h = (f x h.0, All-map P Q xs f h.1)

close_peers-IsClosedAt :
    (now : ℕ) (as' : List ℕ) (s : Session) → All (IsClosedAt (close_peers now as' s)) as'
unfolding close_peers
close_peers-IsClosedAt now [] s = tt
close_peers-IsClosedAt now (a ∷ as') s = (
  close_peers-still now as' a (close_peer now a s) (close_peer-IsClosedAt now a s),
  close_peers-IsClosedAt now as' (close_peer now a s),
)

-- Evicting the peers of a session for a client that resumes detaches them all, closes each that was
-- attached, and keeps the conversation, the identity, the ETag and the resume token.
pub evict_peers_lem :
    (now : ℕ) (s : Session)
    → ((evict_peers now s).peers ≡ [])
      × All (IsClosedAt (evict_peers now s)) (addresses s.peers)
      × Keeps s (evict_peers now s)
unfolding evict_peers
evict_peers_lem now s = (
  close_peers-peers now (addresses s.peers) (record s { peers = [] }) refl,
  close_peers-IsClosedAt now (addresses s.peers) (record s { peers = [] }),
  evict_peers-Keeps now s,
)

close_peer-is_cancelled :
    (now a : ℕ) (s : Session) → (close_peer now a s).is_cancelled ≡ s.is_cancelled
unfolding close_peer remove_peer begin_close
close_peer-is_cancelled now a s = ground arith

close_peers-is_cancelled :
    (now : ℕ) (as' : List ℕ) (s : Session) → (close_peers now as' s).is_cancelled ≡ s.is_cancelled
unfolding close_peers
close_peers-is_cancelled now [] s = refl
close_peers-is_cancelled now (a ∷ as') s =
    close_peers-is_cancelled now as' (close_peer now a s) ∙ close_peer-is_cancelled now a s

pub close-is_cancelled : (now : ℕ) (s : Session) → (close now s).is_cancelled ≡ true
unfolding close evict_peers
close-is_cancelled now s =
    close_peers-is_cancelled now (addresses s.peers) (record s { is_cancelled = true; peers = [] })

-- ===== src/Session/Manager/Histories.antt =====
-- internal/session/manager.go: every history of the session layer. Each step is one section under a mutex: an issue of a token writes
-- the session and then the index, a resume takes the token out and then closes the peers, and a sweep chooses sessions and closes
-- them after it; what other calls do comes in between.
pub mod Sound
use streamcore_server.Base.{
  Bool, Distinct, List, Map, Option, Option-cases, Bool-cases, Text, [], arith, delete,
  delete-Distinct, drop, get_elem?, if◌then◌else◌, inl, inr, insert, insert-Distinct, leb, lookup,
  lookup-delete, lookup-insert, ltb, none, refl, size, size-delete-le, size-insert, some, suc,
  text_eq, text_eq_iff, zero, ℕ, ◌&&◌, ◌+◌, ◌<◌, ◌∙◌, ◌∷◌, ◌≡◌, ◌≢◌, ◌≤◌,
}
use streamcore_server.Session.State.{Session}
use streamcore_server.Session.State
use streamcore_server.Session.Manager.{
  Manager, close_all, Config, new_manager, get_or_create, remove, write, without, forget,
  close_session,
}

-- The calls that change one session and neither its name nor its token, and runs of such calls.
pub data Change : Session → Session → Type 0 where
  attach : (s : Session) (name : Text) (created : Bool) → Change s (State.add_peer s name created).0
  detach : (s : Session) (name : Text) (now : ℕ) → Change s (State.remove_peer s name now)
  hang_up : (s : Session) (a now : ℕ) → Change s (State.close_peer now a s)
  evict : (s : Session) (now : ℕ) → Change s (State.evict_peers now s)
  shut : (s : Session) (now : ℕ) → Change s (State.close now s)
  retag : (s : Session) (tag : Text) → Change s (State.rotate_etag s tag)
  identify : (s : Session) (r : Text) → Change s (State.set_resource_id s r)
  converse :
      (cfg : Config) (client : Option ℕ) (s : Session)
      → Change s (State.conversation cfg client s).0
  both : {s t u : Session} → Change s t → Change t u → Change s u

-- A token that is in a session and not yet in the index: the old one, the new one, the session.
pub record Issue : Type 0 where
  pub old : Text
  pub token : Text
  pub place : ℕ

-- The manager, the issues that are between their two sections, and the tokens ever minted, with the sessions that they are for.
pub record World : Type 0 where
  pub manager : Manager
  pub issues : List Issue
  pub minted : Map ℕ

abbrev pub without_issue : ℕ → List Issue → List Issue
without_issue i [] = []
without_issue zero (x ∷ xs) = xs
without_issue (suc i) (x ∷ xs) = x ∷ without_issue i xs

-- The first section of IssueResumeToken, and the second.
unfoldable pub mint : ℕ → Text → World → World
mint a t w =
    let m = w.manager in
    record w {
      manager = record m { heap = write m.heap a (record (m.heap a) { resume_token = t }) };
      issues = record { old = (m.heap a).resume_token; token = t; place = a } ∷ w.issues;
      minted = insert t a w.minted;
    }

unfoldable pub enter_index : Issue → Manager → Manager
enter_index x m = record m { resumable = insert x.token x.place (without x.old m.resumable) }

unfoldable pub take_token : Text → Manager → Manager
take_token t m = record m { resumable = delete t m.resumable }

pub data Step : World → World → Type 0 where
  -- The session may have left the map. A random token is new.
  mints : (w : World) (a : ℕ) (t : Text) → t ≢ [] → lookup t w.minted ≡ none → Step w (mint a t w)
  indexes :
      (w : World) (i : ℕ) (x : Issue)
      → get_elem? w.issues i ≡ some x
      → Step w (record w { manager = enter_index x w.manager; issues = without_issue i w.issues })
  takes : (w : World) (t : Text) → Step w (record w { manager = take_token t w.manager })
  creates :
      (w : World) (id : Text) (now : ℕ)
      → Step w (record w { manager = (get_or_create w.manager id now).0 })
  removes :
      (w : World) (id : Text) (now : ℕ) → Step w (record w { manager = remove w.manager id now })
  -- The reaper takes out a session that it found idle.
  expires :
      (w : World) (id : Text) (a : ℕ)
      → lookup id w.manager.sessions ≡ some a
      → Step w (record w { manager = forget id a w.manager })
  closes_all : (w : World) (now : ℕ) → Step w (record w { manager = close_all w.manager now })
  changes :
      (w : World) (a : ℕ) (s : Session)
      → Change (w.manager.heap a) s
      → Step w (record w { manager = record w.manager { heap = write w.manager.heap a s } })

unfoldable pub new_world : Config → World
new_world c = record { manager = new_manager c; issues = []; minted = [] }

pub data Reach (c : Config) : World → Type 0 where
  here : Reach c (new_world c)
  next : {v w : World} → Reach c v → Step v w → Reach c w

-- ===== src/Ice/Exchange.antt =====
-- internal/peer/icerestart.go: RestartICE, from the fragment of the client to the fragment that
-- answers it. The peer connection is Pion's; what it does with the new offer is a parameter.
use streamcore_server.Base.{Bool, Option, Text, if◌then◌else◌, inl, inr, none, some, ◌⊎◌}
use streamcore_server.Ice.{parse_ice_fragment, rewrite_ice_for_restart, ice_fragment_from_sdp}

-- What RestartICE asks of the peer connection: the stored remote description, and the local
-- description once an offer is applied, answered and gathered, `none` for any error on the way.
pub record Connection : Type 0 where
  pub remote_description : Option Text
  pub renegotiate : Text → Option Text

pub data RestartError : Type 0 where
  no_ice_credentials peer_closed no_remote_description negotiation_failed : RestartError

unfoldable pub restart_ice : Connection → Bool → Text → Text ⊎ RestartError
restart_ice c is_closed body = elim (parse_ice_fragment body) [
  | none ↦ inr no_ice_credentials
  | some f ↦ if is_closed then inr peer_closed else (elim c.remote_description [
    | none ↦ inr no_remote_description
    | some sdp ↦ elim (c.renegotiate (rewrite_ice_for_restart sdp f)) [
      | none ↦ inr negotiation_failed
      | some local ↦ inl (ice_fragment_from_sdp local)
    ]
  ])
]

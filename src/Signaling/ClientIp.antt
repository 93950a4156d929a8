-- ===== src/Signaling/ClientIp.antt =====
-- internal/signaling/rate_limiter.go: the address under which a client is counted, and
-- net.SplitHostPort, which it falls back on.
use streamcore_server.Base.{
  Bool, Option, Text, [], drop, if◌then◌else◌, is_empty, is_some, none, not, some, suc, take, ℕ,
  ◌+◌, ◌==◌, ◌||◌, ◌∷◌,
}
use streamcore_server.Strings.{trim_space, cut}

index_of : ℕ → Text → Option ℕ
index_of b [] = none
index_of b (c ∷ s) =
    let rest = index_of b s in
    if c == b then some 0 else elim rest [ none ↦ none | some i ↦ some (suc i) ]

last_index_of : ℕ → Text → Option ℕ
last_index_of b [] = none
last_index_of b (c ∷ s) =
    let rest = last_index_of b s in
    elim rest [ none ↦ if c == b then some 0 else none | some i ↦ some (suc i) ]

abbrev holds : ℕ → Text → Bool
unfolding index_of
holds b s = is_some (index_of b s)

-- The checks that follow once the host is found: no stray bracket on either side.
host_and_port : Text → Text → Text → Text → Option (Text × Text)
unfolding index_of
host_and_port host before after port =
    if is_some (index_of b'[' before) || is_some (index_of b']' after)
    then none
    else some (host, port)

-- `none` is every error.
unfoldable pub split_host_port : Text → Option (Text × Text)
unfolding index_of last_index_of host_and_port
split_host_port [] = none
split_host_port (c ∷ s) = elim (last_index_of b':' (c ∷ s)) [
  | none ↦ none
  | some i ↦
      if c == b'['
      then (elim (index_of b']' (c ∷ s)) [
        | none ↦ none
        | some k ↦
            if k + 1 == i
            then host_and_port (drop 1 (take k (c ∷ s))) (drop 1 (c ∷ s)) (drop (k + 1) (c ∷ s))
                (drop (i + 1) (c ∷ s))
            else none
      ])
      else if is_some (index_of b':' (take i (c ∷ s)))
      then none
      else host_and_port (take i (c ∷ s)) (c ∷ s) (c ∷ s) (drop (i + 1) (c ∷ s))
]

-- The headers and the address that the choice reads.
pub record Origin : Type 0 where
  pub forwarded_for : Text
  pub real_ip : Text
  pub remote_addr : Text

unfoldable pub client_ip : Origin → Text
client_ip o =
    if not (is_empty o.forwarded_for)
    then (elim (cut b',' o.forwarded_for) [
      | some (first, _) ↦ trim_space first
      | none ↦ trim_space o.forwarded_for
    ])
    else if not (is_empty o.real_ip)
    then trim_space o.real_ip
    else (elim (split_host_port o.remote_addr) [ some (host, _) ↦ host | none ↦ o.remote_addr ])

-- ===== src/Plugin/Host/Restart/Attempts.antt =====
-- internal/plugin/external.go: what a run of restart leaves behind, and how long it tries.
use streamcore_server.Base.{
  Bool, Bool-cases, List, [], ap, arith, false, inl, inr, refl, suc, true, zero, ℕ, ◌∙◌, ◌∷◌, ◌≡◌,
}
use streamcore_server.Plugin.Host.Restart.{
  Host, Outcome, failed_early, failed_handshake, started, Moment, before, sleeping, between,
  starting, never, stop, stop_if, start, next_backoff, Run, settle, after_start, after_sleep,
  attempt, restart_from, is_before, ended, slept,
}

still_stopped :
    (b : Bool)
    → stop_if b (record { stopping = true; alive = false })
      ≡ record { stopping = true; alive = false }
unfolding stop_if stop
still_stopped true = refl
still_stopped false = refl

-- A moment at which a Stop is seen later.
abbrev pub is_heard : Moment → Bool
is_heard before = true
is_heard sleeping = true
is_heard starting = true
is_heard between = false
is_heard never = false

module _ (outcome : ℕ → Outcome) (moment : ℕ → Moment) where
  -- Nobody stops the plugin from this attempt on.
  abbrev Undisturbed : ℕ → ℕ → Type 0
  Undisturbed zero i = Unit
  Undisturbed (suc n) i = (moment i ≡ never) × Undisturbed n (suc i)

  -- All starts from here on fail before there is a process.
  abbrev AllEarly : ℕ → ℕ → Type 0
  AllEarly zero i = Unit
  AllEarly (suc n) i = (outcome i ≡ failed_early) × AllEarly n (suc i)

  -- The sleeps before the next starts.
  abbrev backoffs : ℕ → ℕ → List ℕ
  backoffs zero b = []
  backoffs (suc n) b = b ∷ backoffs n (next_backoff b)

  round_of :
      (n i b : ℕ) (h : Host) (r : Outcome) (m : Moment)
      → outcome i ≡ r
      → moment i ≡ m
      → restart_from outcome moment (suc n) i b h
        ≡ attempt r m b h (restart_from outcome moment n (suc i) (next_backoff b))
  unfolding restart_from
  round_of n i b h r m e f =
      ap (λ x. attempt x (moment i) b h (restart_from outcome moment n (suc i) (next_backoff b))) e
      ∙ ap (λ x. attempt r x b h (restart_from outcome moment n (suc i) (next_backoff b))) f

  early :
      (b : ℕ) (h : Host) (rest : Host → Run)
      → h.stopping ≡ false
      → attempt failed_early never b h rest
        ≡ slept b (rest (record { stopping = false; alive = false }))
  unfolding attempt after_sleep after_start start stop_if
  early b h rest s = rw s refl

  handshake :
      (m : Moment) (b : ℕ) (h : Host) (rest : Host → Run)
      → h.stopping ≡ false
      → m ≡ never
      → attempt failed_handshake m b h rest ≡ slept b (rest (stop h))
  unfolding attempt after_sleep after_start start stop_if stop
  handshake m b h rest s e = rw e (rw s refl)

  stopped_round :
      (n i b : ℕ) (h : Host)
      → h.stopping ≡ true
      → restart_from outcome moment (suc n) i b h ≡ ended (stop_if (is_before (moment i)) h)
  unfolding restart_from attempt stop_if stop
  stopped_round n i b h s = elim (Bool-cases (is_before (moment i))) [
    | inl e ↦ rw (restart_from, e) refl
    | inr e ↦ rw (restart_from, e) (rw s refl)
  ]

  -- A plugin that nobody stops, and whose starts all fail before there is a process, is started as often as attempts are
  -- left, after sleeps that double up to the ceiling, and then given up with no process.
  pub restart_from_gives_up :
      (n i b : ℕ) (h : Host)
      → h.stopping ≡ false
      → Undisturbed n i
      → AllEarly n i
      → ((restart_from outcome moment n i b h).sleeps ≡ backoffs n b)
        × ((restart_from outcome moment n i b h).gave_up ≡ true)
  unfolding restart_from
  restart_from_gives_up zero i b h s u a = (refl, refl)
  restart_from_gives_up (suc n) i b h s (m, u) (e, a) =
      let (t, g) =
        restart_from_gives_up n (suc i) (next_backoff b)
          (record { stopping = false; alive = false }) refl u a in
      rw (round_of n i b h failed_early never e m, early b h _ s) (ap (λ l. b ∷ l) t, g)

  -- The first attempts fail early and undisturbed, the next one's handshake fails undisturbed, and there are more attempts left.
  abbrev pub HandshakeFailsAt : ℕ → ℕ → ℕ → Type 0
  HandshakeFailsAt k zero i = ⊥
  HandshakeFailsAt zero (suc zero) i = ⊥
  HandshakeFailsAt zero (suc (suc n)) i = (outcome i ≡ failed_handshake) × (moment i ≡ never)
  HandshakeFailsAt (suc k) (suc n) i =
      (outcome i ≡ failed_early) × (moment i ≡ never) × HandshakeFailsAt k n (suc i)

  -- When a handshake fails and nobody else stops the plugin, the attempts that are left are not made: the run ends without a
  -- process, without another sleep, and without the report that it gave up.
  pub failed_handshake_ends :
      (k n i b : ℕ) (h : Host)
      → h.stopping ≡ false
      → HandshakeFailsAt k n i
      → restart_from outcome moment n i b h ≡ record {
        host = record { stopping = true; alive = false };
        sleeps = backoffs (suc k) b;
        gave_up = false;
      }
  unfolding stop stop_if
  failed_handshake_ends k zero i b h s f = absurd f
  failed_handshake_ends zero (suc zero) i b h s f = absurd f
  failed_handshake_ends zero (suc (suc n)) i b h s (e, m) =
      round_of (suc n) i b h failed_handshake never e m
      ∙ handshake never b h _ s refl
      ∙ ap (slept b) (stopped_round n (suc i) (next_backoff b) (stop h) refl)
      ∙ ap (λ x. slept b (ended x)) (still_stopped (is_before (moment (suc i))))
  failed_handshake_ends (suc k) (suc n) i b h s (e, m, f) =
      round_of n i b h failed_early never e m
      ∙ early b h _ s
      ∙ ap (slept b) (
          failed_handshake_ends k n (suc i) (next_backoff b)
            (record { stopping = false; alive = false }) refl f)

  -- A Stop lands in this attempt, and those before it fail early and undisturbed.
  abbrev pub StopAt : (Moment → Bool) → ℕ → ℕ → ℕ → Type 0
  StopAt p k zero i = ⊥
  StopAt p zero (suc n) i = p (moment i) ≡ true
  StopAt p (suc k) (suc n) i =
      (outcome i ≡ failed_early) × (moment i ≡ never) × StopAt p k n (suc i)

  stays_stopped :
      (n i b : ℕ)
      → (restart_from outcome moment n i b (record { stopping = true; alive = false })).host
        ≡ record { stopping = true; alive = false }
  unfolding restart_from stop stop_if
  stays_stopped zero i b = refl
  stays_stopped (suc n) i b =
      ap (λ r. r.host) (stopped_round n i b (record { stopping = true; alive = false }) refl)
      ∙ still_stopped (is_before (moment i))

  heard_round :
      (m : Moment) (r : Outcome) (b : ℕ) (rest : Host → Run)
      → is_heard m ≡ true
      → (rest (record { stopping = true; alive = false })).host
        ≡ record { stopping = true; alive = false }
      → (attempt r m b (record { stopping = false; alive = false }) rest).host
        ≡ record { stopping = true; alive = false }
  unfolding attempt after_sleep after_start start stop stop_if settle
  heard_round before r b rest e q = refl
  heard_round sleeping r b rest e q = refl
  heard_round starting failed_early b rest e q = q
  heard_round starting failed_handshake b rest e q = q
  heard_round starting started b rest e q = refl
  heard_round between r b rest e q = absurd (ground arith)
  heard_round never r b rest e q = absurd (ground arith)

  -- A Stop that lands while a dead plugin is restarted, before an attempt's first test, in its sleep, or in its start once
  -- that has cleared the flag, leaves the plugin stopped and without a process.
  pub stop_heard :
      (k n i b : ℕ)
      → StopAt is_heard k n i
      → (restart_from outcome moment n i b (record { stopping = false; alive = false })).host
        ≡ record { stopping = true; alive = false }
  unfolding restart_from
  stop_heard k zero i b f = absurd f
  stop_heard zero (suc n) i b f =
      heard_round (moment i) (outcome i) b (restart_from outcome moment n (suc i) (next_backoff b))
        f (stays_stopped n (suc i) (next_backoff b))
  stop_heard (suc k) (suc n) i b (e, m, f) =
      ap (λ r. r.host)
        (round_of n i b (record { stopping = false; alive = false }) failed_early never e m
          ∙ early b (record { stopping = false; alive = false })
              (restart_from outcome moment n (suc i) (next_backoff b)) refl)
      ∙ stop_heard k n (suc i) (next_backoff b) f

  -- A Stop that lands between an attempt's last test and the statement of the start that clears the flag is lost:
  -- if the start succeeds, the plugin runs on.
  pub stop_lost :
      (n i b : ℕ)
      → moment i ≡ between
      → outcome i ≡ started
      → (restart_from outcome moment (suc n) i b (record { stopping = false; alive = false })).host
        ≡ record { stopping = false; alive = true }
  unfolding attempt after_sleep after_start start stop stop_if settle
  stop_lost n i b m e =
      ap (λ r. r.host)
        (round_of n i b (record { stopping = false; alive = false }) started between e m)
